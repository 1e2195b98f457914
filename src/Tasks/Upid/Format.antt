-- ===== src/Tasks/Upid/Format.antt =====
-- The UPID format `UPID:<node>:<pid>:<pstart>:<starttime>:<type>:<id>:<user>:`, and what
-- `parse_upid` accepts.
use proxmox_eventbus.Prelude.{
  ℕ, ◌≡◌, ◌⊎◌, inl, inr, refl, sym, subst, ap, ◌∙◌, true, List, [], ◌∷◌, ◌++◌, arith, Bytes, codes,
  nat_eq, bytes_eq, All, Lacks, some, Bool-cases, drop, length, append-nil,
}
use proxmox_eventbus.Prelude.Result.{ok}
use proxmox_eventbus.Strings.Affix.{
  has_prefix, has_prefix_append, has_prefix_sound, trim_suffix, trim_suffix-append,
  trim_suffix_sound,
}
use proxmox_eventbus.Strings.Split.{join, glue, split}
use proxmox_eventbus.Strings.Split.Laws.{split-append, split_one, split-Lacks, join-split}
use proxmox_eventbus.Strconv.{parse_int, parse_uint}
use proxmox_eventbus.Tasks.Upid.{Upid, upid_fields, parse_upid}

-- The seven fields as they stand in the text.
pub record Fields : Type 0 where
  pub node : Bytes
  pub pid : Bytes
  pub pstart : Bytes
  pub start : Bytes
  pub type : Bytes
  pub id : Bytes
  pub user : Bytes

abbrev pub parts_of : Fields → List Bytes
parts_of f = f.node ∷ f.pid ∷ f.pstart ∷ f.start ∷ f.type ∷ f.id ∷ f.user ∷ []

-- The canonical text, with the colon at its end.
unfoldable pub format : Fields → Bytes
format f = codes "UPID:" ++ (join (parts_of f) (codes ":") ++ codes ":")

-- The fields of `u` have the values that the texts of `f` stand for.
pub record Denotes (f : Fields) (u : Upid) : Type 0 where
  pub node : u.node ≡ f.node
  pub pid : parse_int f.pid 16 32 ≡ some u.pid
  pub pstart : parse_uint f.pstart 16 64 ≡ some u.pstart
  pub start_time : parse_int f.start 16 64 ≡ some u.start_time
  pub type : u.type ≡ f.type
  pub id : u.id ≡ f.id
  pub user : u.user ≡ f.user

-- Splitting a joined list whose parts lack the separator.
split-join :
    (p : Bytes) (ps : List Bytes) (sep : ℕ)
    → All (Lacks sep) (p ∷ ps)
    → split (join (p ∷ ps) (sep ∷ [])) sep ≡ p ∷ ps
unfolding join
split-join p [] sep (h, _) = rw append-nil (split_one p sep h)
split-join p (q ∷ ps) sep (h, hs) =
    split-append p (q ++ glue ps (sep ∷ [])) sep h ∙ ap (◌∷◌ p) (split-join q ps sep hs)

upid_fields-Denotes :
    (s : Bytes) (f : Fields) (more : List Bytes) (u : Upid)
    → Denotes f u
    → u.raw ≡ s
    → upid_fields s (f.node ∷ f.pid ∷ f.pstart ∷ f.start ∷ f.type ∷ f.id ∷ f.user ∷ more) ≡ ok u
unfolding upid_fields
upid_fields-Denotes s f more u d r = rw (d.pid, d.pstart, d.start_time) (ground arith)

-- A text in the format, whose fields hold no colon and whose numbers are in range, is parsed to the
-- values of its fields, with the text itself as `raw`.
pub parse_upid-format :
    (f : Fields) (u : Upid)
    → All (Lacks b':') (parts_of f)
    → Denotes f u
    → u.raw ≡ format f
    → parse_upid (format f) ≡ ok u
unfolding parse_upid format
parse_upid-format f u h d r =
    rw (has_prefix_append (codes "UPID:") (join (parts_of f) (codes ":") ++ codes ":")) (
      rw (trim_suffix-append (join (parts_of f) (codes ":")) (codes ":"))
        (rw (split-join f.node _ b':' h) (upid_fields-Denotes _ f [] u d r)))

-- What an accepted text looks like, and what its value is: behind the prefix there are the seven
-- fields, any further ones (which are ignored), and at most one colon more at the end.
pub record Accepted (s : Bytes) (u : Upid) : Type 0 where
  pub fields : Fields
  pub more : List Bytes
  pub colon : Bytes
  pub colon_is : (colon ≡ []) ⊎ (colon ≡ codes ":")
  pub spelled : s ≡ codes "UPID:" ++ (join (parts_of fields ++ more) (codes ":") ++ colon)
  pub no_colon : All (Lacks b':') (parts_of fields ++ more)
  pub denotes : Denotes fields u
  pub raw : u.raw ≡ s

-- the same of the list of parts
record Parsed (s : Bytes) (parts : List Bytes) (u : Upid) : Type 0 where
  fields : Fields
  more : List Bytes
  parts_are : parts ≡ parts_of fields ++ more
  denotes : Denotes fields u
  raw : u.raw ≡ s

upid_fields-Parsed :
    (s : Bytes) (parts : List Bytes) (u : Upid) → upid_fields s parts ≡ ok u → Parsed s parts u
unfolding upid_fields
upid_fields-Parsed s [] u h = cc
upid_fields-Parsed s (a ∷ []) u h = cc
upid_fields-Parsed s (a ∷ b ∷ []) u h = cc
upid_fields-Parsed s (a ∷ b ∷ c ∷ []) u h = cc
upid_fields-Parsed s (a ∷ b ∷ c ∷ d ∷ []) u h = cc
upid_fields-Parsed s (a ∷ b ∷ c ∷ d ∷ e ∷ []) u h = cc
upid_fields-Parsed s (a ∷ b ∷ c ∷ d ∷ e ∷ f ∷ []) u h = cc
upid_fields-Parsed s (a ∷ b ∷ c ∷ d ∷ e ∷ f ∷ g ∷ more) u h = record {
  fields = record { node = a; pid = b; pstart = c; start = d; type = e; id = f; user = g };
  more = more;
  parts_are = refl;
  denotes = record {
    node = ground arith;
    pid = ground arith;
    pstart = ground arith;
    start_time = ground arith;
    type = ground arith;
    id = ground arith;
    user = ground arith;
  };
  raw = ground arith;
}

body_of : Bytes → Bytes
body_of s = drop (length (codes "UPID:")) s

parse_upid-Parsed :
    (s : Bytes) (u : Upid)
    → parse_upid s ≡ ok u
    → (has_prefix s (codes "UPID:") ≡ true)
      × Parsed s (split (trim_suffix (body_of s) (codes ":")) b':') u
unfolding parse_upid body_of
parse_upid-Parsed s u h = elim (Bool-cases (has_prefix s (codes "UPID:"))) [
  | inl e ↦ (e, upid_fields-Parsed s _ u (rw e at h))
  | inr e ↦ (ground arith, absurd (ground arith))
]

-- Every accepted text has the format, and the value is that of its fields.
pub parse_upid-Accepted : (s : Bytes) (u : Upid) → parse_upid s ≡ ok u → Accepted s u
unfolding body_of
parse_upid-Accepted s u h =
    let (prefixed, parsed) = parse_upid-Parsed s u h in
    let body = trim_suffix (body_of s) (codes ":") in
    let joined : body ≡ join (parts_of parsed.fields ++ parsed.more) (codes ":") =
      sym (join-split body b':') ∙ ap (λ ps. join ps (codes ":")) parsed.parts_are in
    let lacks : All (Lacks b':') (parts_of parsed.fields ++ parsed.more) =
      subst (All (Lacks b':')) parsed.parts_are (split-Lacks body b':') in
    let whole = has_prefix_sound s (codes "UPID:") prefixed in
    elim (trim_suffix_sound (body_of s) (codes ":")) [
      | inl e ↦ record {
        fields = parsed.fields;
        more = parsed.more;
        colon = [];
        colon_is = inl refl;
        spelled = whole ∙ ap (λ t. codes "UPID:" ++ t) (e ∙ joined ∙ sym (append-nil _));
        no_colon = lacks;
        denotes = parsed.denotes;
        raw = parsed.raw;
      }
      | inr e ↦ record {
        fields = parsed.fields;
        more = parsed.more;
        colon = codes ":";
        colon_is = inr refl;
        spelled = whole ∙ ap (λ t. codes "UPID:" ++ t) (e ∙ ap (λ t. t ++ codes ":") joined);
        no_colon = lacks;
        denotes = parsed.denotes;
        raw = parsed.raw;
      }
    ]
