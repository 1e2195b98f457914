-- ===== src/Pmxcfs/VmConf/Laws.antt =====
-- What the files of a guest that Proxmox VE writes are read as.
use proxmox_eventbus.Prelude.{
  ◌≡◌, ◌≢◌, refl, sym, ap, ◌∙◌, true, false, ◌||◌, List, [], ◌∷◌, ◌++◌, map, append-nil, some,
  Bytes, codes, ◌==◌, nat_eq, bytes_eq, bytes_beq, bytes_beq_ne, if◌then◌else◌, if_true, if_false,
  Bool-cases, inl, inr, arith, All, All-append, All-map, Lacks, ℕ, ℤ,
}
use proxmox_eventbus.Strings.Affix.{has_suffix_append, trim_suffix-append, has_prefix, trim_right}
use proxmox_eventbus.Strings.Split.{join, fields_func, cut}
use proxmox_eventbus.Strings.Split.Laws.{fields_func-word, fields_func_one, cut-append}
use proxmox_eventbus.Strings.Space.{trim_space}
use proxmox_eventbus.Strings.Space.Words.{IsPlain, trim_space-join}
use proxmox_eventbus.Strconv.Decimal.{format_int}
use proxmox_eventbus.Strconv.RoundTrip.{InInt, atoi-format_int}
use proxmox_eventbus.Pmxcfs.VmConf.{
  VmConfig, tag_separator, nonempty, split_tags, unescape_description, set_key, apply_pair,
  config_lines, entry_id, entry_ids, list_config_dir, Listing,
}

-- A tag: a word of printable ASCII without the separators.
abbrev pub IsTag : Bytes → Type 0
IsTag t = (t ≢ []) × All (λ c. IsPlain c × (tag_separator c ≡ false)) t

tag-IsPlain : (t : Bytes) → IsTag t → All IsPlain t
tag-IsPlain t h = All-map _ _ t (λ c p. p.0) h.1

tag-separator : (t : Bytes) → IsTag t → All (λ c. tag_separator c ≡ false) t
tag-separator t h = All-map _ _ t (λ c p. p.1) h.1

fields_func-join :
    (t : Bytes) (ts : List Bytes)
    → All IsTag (t ∷ ts)
    → fields_func tag_separator (join (t ∷ ts) (codes ";")) ≡ t ∷ ts
unfolding join
fields_func-join t [] (h, _) =
    rw append-nil (fields_func_one tag_separator t h.0 (tag-separator t h))
fields_func-join t (u ∷ ts) (h, hs) =
    fields_func-word tag_separator t (join (u ∷ ts) (codes ";")) b';' h.0 (tag-separator t h) refl
    ∙ ap (◌∷◌ t) (fields_func-join u ts hs)

join-IsPlain :
    (t : Bytes) (ts : List Bytes) → All IsTag (t ∷ ts) → All IsPlain (join (t ∷ ts) (codes ";"))
unfolding join
join-IsPlain t [] (h, _) = All-append IsPlain t [] (tag-IsPlain t h) tt
join-IsPlain t (u ∷ ts) (h, hs) =
    All-append IsPlain t (b';' ∷ join (u ∷ ts) (codes ";")) (tag-IsPlain t h)
      (omega arith, join-IsPlain u ts hs)

join-ne-nil : (t : Bytes) (ts : List Bytes) → t ≢ [] → join (t ∷ ts) (codes ";") ≢ []
unfolding join
join-ne-nil [] ts h = absurd (h refl)
join-ne-nil (c ∷ t) ts h = λ e. cc

join_one : (w : Bytes) → join (w ∷ []) (codes " ") ≡ w
unfolding join
join_one w = append-nil w

trim_space_word : (w : Bytes) → w ≢ [] → All IsPlain w → trim_space w ≡ w
trim_space_word w n h =
    ap trim_space (sym (join_one w)) ∙ trim_space-join w [] ((n, h), tt) ∙ join_one w

nonempty-tags : (ts : List Bytes) → All IsTag ts → nonempty ts ≡ ts
unfolding nonempty
nonempty-tags [] h = refl
nonempty-tags (t ∷ ts) (ht, h) = rw (bytes_beq_ne t [] ht.0) (ap (◌∷◌ t) (nonempty-tags ts h))

-- For one or more tags, words of printable ASCII without `;`, `,` and blanks, `splitTags` of the
-- tags joined by `;` gives them back in their order.
split_tags-join :
    (t : Bytes) (ts : List Bytes)
    → All IsTag (t ∷ ts)
    → split_tags (join (t ∷ ts) (codes ";")) ≡ t ∷ ts
unfolding split_tags
split_tags-join t ts h =
    let n = join-ne-nil t ts h.0.0 in
    rw (trim_space_word (join (t ∷ ts) (codes ";")) n (join-IsPlain t ts h)) (
      rw (bytes_beq_ne (join (t ∷ ts) (codes ";")) [] n)
        (rw (fields_func-join t ts h) (nonempty-tags (t ∷ ts) h)))

-- How Proxmox VE writes a description: each newline as a backslash and `n`.
unfoldable escape : Bytes → Bytes
escape [] = []
escape (c ∷ s) = if c == 10 then 92 ∷ b'n' ∷ escape s else c ∷ escape s

unescape-other :
    (c : ℕ) (s : Bytes) → c ≢ 92 → unescape_description (c ∷ s) ≡ c ∷ unescape_description s
unfolding unescape_description
unescape-other c [] h = refl
unescape-other c (d ∷ s) h = ground arith

newline : (s : Bytes) → unescape_description (92 ∷ b'n' ∷ s) ≡ 10 ∷ unescape_description s
unfolding unescape_description
newline s = refl

-- For every text without a backslash, `unescapeDescription` undoes the writing of its newlines as
-- backslash and `n`.
unescape_description-escape : (s : Bytes) → Lacks 92 s → unescape_description (escape s) ≡ s
unfolding escape
unescape_description-escape [] h = unfold unescape_description in refl
unescape_description-escape (c ∷ s) (hc, h) = elim (Bool-cases (c == 10)) [
  | inl e ↦
      rw (if_true _ _ e) (newline (escape s) ∙ ground (arith, unescape_description-escape s h))
  | inr e ↦
      rw (if_false _ _ e)
        (unescape-other c (escape s) hc ∙ ap (◌∷◌ c) (unescape_description-escape s h))
]

id-read : (id : ℤ) → InInt id → entry_id (format_int id ++ codes ".conf") ≡ some id
unfolding entry_id
id-read id h =
    rw (has_suffix_append (format_int id) (codes ".conf"))
      (rw (trim_suffix-append (format_int id) (codes ".conf")) (atoi-format_int id h))

ids-read :
    (ids : List ℤ)
    → All InInt ids
    → entry_ids (map (λ id. format_int id ++ codes ".conf") ids) ≡ ids
unfolding entry_ids
ids-read [] h = refl
ids-read (id ∷ ids) (hi, h) = rw (id-read id hi, entry_ids) (ap (◌∷◌ id) (ids-read ids h))

-- For all VMIDs that an int holds, `listConfigDir` of the files `<vmid>.conf` gives the VMIDs in
-- the order of the files.
list_config_dir-names :
    (ids : List ℤ)
    → All InInt ids
    → list_config_dir (Listing.entries (map (λ id. format_int id ++ codes ".conf") ids)) ≡ some ids
unfolding list_config_dir
list_config_dir-names ids h = ap some (ids-read ids h)

-- A line `key: value` of a file, and the text that a key or a value is.
abbrev pub pair_line : Bytes × Bytes → Bytes
pair_line (k, v) = k ++ (codes ": " ++ v)

-- A key and a value that are written without white space around them: the key a word of printable
-- ASCII with no colon that begins neither a comment nor a section, the value such words.
pub record IsPair (kv : Bytes × Bytes) : Type 0 where
  pub key_ne : kv.0 ≢ []
  pub key_plain : All IsPlain (kv.0)
  pub key_lacks : Lacks b':' (kv.0)
  pub no_comment : has_prefix (pair_line kv) (codes "#") ≡ false
  pub no_section : has_prefix (pair_line kv) (codes "[") ≡ false
  pub whole_line : trim_right (λ c. c == 13 || c == 10) (pair_line kv) ≡ pair_line kv
  pub value_trimmed : trim_space (b' ' ∷ kv.1) ≡ kv.1

-- The pairs, one after the other.
unfoldable pub set_keys : List (Bytes × Bytes) → VmConfig → VmConfig
set_keys [] cfg = cfg
set_keys ((k, v) ∷ kvs) cfg = set_keys kvs (set_key k v cfg)

pair_line-ne-nil : (kv : Bytes × Bytes) → (kv.0 ≢ []) → pair_line kv ≢ []
pair_line-ne-nil ([], v) h = absurd (h refl)
pair_line-ne-nil (c ∷ k, v) h = λ e. cc

apply_pair-pair :
    (k v : Bytes) (cfg : VmConfig)
    → IsPair (k, v)
    → apply_pair (cut (pair_line (k, v)) b':') cfg ≡ set_key k v cfg
apply_pair-pair k v cfg h =
    ap (λ c. apply_pair c cfg) (cut-append k (b' ' ∷ v) b':' h.key_lacks)
    ∙ found
    ∙ ap (λ j. set_key j (trim_space (b' ' ∷ v)) cfg) (trim_space_word k h.key_ne h.key_plain)
    ∙ ap (λ w. set_key k w cfg) h.value_trimmed
  where
    found : apply_pair (k, b' ' ∷ v, true) cfg ≡ set_key (trim_space k) (trim_space (b' ' ∷ v)) cfg
    found = unfold apply_pair in if_false _ _ (bytes_beq_ne k [] h.key_ne)

config_lines-pair :
    (k v : Bytes) (ls : List Bytes) (cfg : VmConfig)
    → IsPair (k, v)
    → config_lines (pair_line (k, v) ∷ ls) cfg ≡ config_lines ls (set_key k v cfg)
unfolding config_lines
config_lines-pair k v ls cfg h =
    rw
      (
        h.whole_line,
        bytes_beq_ne (pair_line (k, v)) [] (pair_line-ne-nil (k, v) h.key_ne),
        h.no_comment,
        h.no_section,
      )
      (ap (config_lines ls) (apply_pair-pair k v cfg h))

-- For lines `key: value` in front of a section header, reading a configuration sets the keys in
-- their order and nothing else: what follows the header is not read, and the header ends the loop.
pub config_lines-section :
    (kvs : List (Bytes × Bytes)) (header : Bytes) (below : List Bytes) (cfg : VmConfig)
    → All IsPair kvs
    → trim_right (λ c. c == 13 || c == 10) (b'[' ∷ header) ≡ b'[' ∷ header
    → config_lines (map pair_line kvs ++ (b'[' ∷ header) ∷ below) cfg ≡ (set_keys kvs cfg, true)
unfolding set_keys bytes_beq has_prefix
config_lines-section [] header below cfg _ h = unfold config_lines in rw h
config_lines-section ((k, v) ∷ kvs) header below cfg (hk, hs) h =
    config_lines-pair k v (map pair_line kvs ++ (b'[' ∷ header) ∷ below) cfg hk
    ∙ config_lines-section kvs header below (set_key k v cfg) hs h
