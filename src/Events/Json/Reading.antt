-- ===== src/Events/Json/Reading.antt =====
-- What a reader gets of an object, by its keys.
use proxmox_eventbus.Prelude.{
  ◌≡◌, refl, ap, ◌∙◌, List, [], ◌∷◌, Option, none, some, Bytes, codes, bytes_beq, if◌then◌else◌, ℤ,
  pos, Bool-cases, inl, inr, arith,
}
use proxmox_eventbus.Events.{EventData}
use proxmox_eventbus.Events.Json.{
  Value, text, number, texts, Object, Members, collect, omit_text, omit_number, omit_texts,
  omit_nil, data_members, data_object,
}

-- The value of a key.
unfoldable pub member : Bytes → Object → Option Value
member k [] = none
member k ((k', v) ∷ o) = let later = member k o in if bytes_beq k k' then some v else later

-- A field of a struct, of the value of its key: it keeps its zero value where there is none, or one
-- of another type.
unfoldable pub text_of : Option Value → Bytes
text_of none = []
text_of (some (text s)) = s
text_of (some (number n)) = []
text_of (some (texts ts)) = []

unfoldable pub number_of : Option Value → ℤ
number_of none = pos 0
number_of (some (text s)) = pos 0
number_of (some (number n)) = n
number_of (some (texts ts)) = pos 0

unfoldable pub texts_of : Option Value → List Bytes
texts_of none = []
texts_of (some (text s)) = []
texts_of (some (number n)) = []
texts_of (some (texts ts)) = ts

unfoldable pub pointer_of : Option Value → Option ℤ
pointer_of none = none
pointer_of (some (text s)) = none
pointer_of (some (number n)) = some n
pointer_of (some (texts ts)) = none

-- The value of a key among the members, and the object alike.
abbrev pub first_of_two : Option Value → Option Value → Option Value
first_of_two none m = m
first_of_two (some v) m = some v

unfoldable pub sought : Bytes → Members → Option Value
sought k [] = none
sought k ((k', m) ∷ ms) =
    let later = sought k ms in if bytes_beq k k' then first_of_two m later else later

pub member-collect : (k : Bytes) (ms : Members) → member k (collect ms) ≡ sought k ms
unfolding member collect sought
member-collect k [] = refl
member-collect k ((k', none) ∷ ms) = elim (Bool-cases (bytes_beq k k')) [
  | inl e ↦ rw e (member-collect k ms)
  | inr e ↦ rw e (member-collect k ms)
]
member-collect k ((k', some v) ∷ ms) = elim (Bool-cases (bytes_beq k k')) [
  | inl e ↦ rw e refl
  | inr e ↦ rw e (member-collect k ms)
]

pub text_of-omit : (s : Bytes) → text_of (first_of_two (omit_text s) none) ≡ s
unfolding text_of omit_text
text_of-omit [] = refl
text_of-omit (c ∷ s) = refl

pub texts_of-omit : (ts : List Bytes) → texts_of (first_of_two (omit_texts ts) none) ≡ ts
unfolding texts_of omit_texts
texts_of-omit [] = refl
texts_of-omit (t ∷ ts) = refl

pub pointer_of-omit : (n : Option ℤ) → pointer_of (first_of_two (omit_nil n) none) ≡ n
unfolding pointer_of omit_nil
pointer_of-omit none = refl
pointer_of-omit (some n) = refl

pub number_of-omit : (n : ℤ) → number_of (first_of_two (omit_number n) none) ≡ n
unfolding number_of omit_number
number_of-omit n = ground arith

-- The field of each key, for a reader of all of `EventData`.
unfoldable pub read_data : Object → EventData
unfolding member text_of number_of texts_of pointer_of
read_data o = record {
  schema_version = text_of (member (codes "schemaVersion") o);
  cluster = text_of (member (codes "cluster") o);
  node = text_of (member (codes "node") o);
  kind = text_of (member (codes "kind") o);
  vmid = number_of (member (codes "vmid") o);
  name = text_of (member (codes "name") o);
  tags = texts_of (member (codes "tags") o);
  description = text_of (member (codes "description") o);
  hook_script = text_of (member (codes "hookscript") o);
  action = text_of (member (codes "action") o);
  phase = text_of (member (codes "phase") o);
  upid = text_of (member (codes "upid") o);
  user = text_of (member (codes "user") o);
  source_node = text_of (member (codes "source_node") o);
  target_node = text_of (member (codes "target_node") o);
  duration_ms = pointer_of (member (codes "duration_ms") o);
  exit_status = text_of (member (codes "exit_status") o);
  state = text_of (member (codes "state") o);
  state_detail = text_of (member (codes "state_detail") o);
  snapshot_id = text_of (member (codes "snapshot_id") o);
  observed_at_ns = number_of (member (codes "observed_at_ns") o);
  snapshot_count = number_of (member (codes "count") o);
}

module _ (d : EventData) (k : Bytes) where
  kept_text :
      (s : Bytes)
      → sought k (data_members d) ≡ some (text s)
      → text_of (member k (data_object d)) ≡ s
  unfolding data_object text_of
  kept_text s e = ap text_of (member-collect k (data_members d) ∙ e)

  pub read_text :
      (s : Bytes)
      → sought k (data_members d) ≡ first_of_two (omit_text s) none
      → text_of (member k (data_object d)) ≡ s
  unfolding data_object
  read_text s e = ap text_of (member-collect k (data_members d) ∙ e) ∙ text_of-omit s

  pub read_number :
      (n : ℤ)
      → sought k (data_members d) ≡ first_of_two (omit_number n) none
      → number_of (member k (data_object d)) ≡ n
  unfolding data_object
  read_number n e = ap number_of (member-collect k (data_members d) ∙ e) ∙ number_of-omit n

  pub read_texts :
      (ts : List Bytes)
      → sought k (data_members d) ≡ first_of_two (omit_texts ts) none
      → texts_of (member k (data_object d)) ≡ ts
  unfolding data_object
  read_texts ts e = ap texts_of (member-collect k (data_members d) ∙ e) ∙ texts_of-omit ts

  pub read_pointer :
      (n : Option ℤ)
      → sought k (data_members d) ≡ first_of_two (omit_nil n) none
      → pointer_of (member k (data_object d)) ≡ n
  unfolding data_object
  read_pointer n e = ap pointer_of (member-collect k (data_members d) ∙ e) ∙ pointer_of-omit n

-- A reader of all fields gets back every `EventData` from the object it is written as: leaving out
-- what is zero loses nothing.
pub read_data-data_object : (d : EventData) → read_data (data_object d) ≡ d
unfolding read_data sought data_members bytes_beq
read_data-data_object d = λ i. record {
  schema_version = kept_text d (codes "schemaVersion") d.schema_version refl i;
  cluster = kept_text d (codes "cluster") d.cluster refl i;
  node = kept_text d (codes "node") d.node refl i;
  kind = read_text d (codes "kind") d.kind refl i;
  vmid = read_number d (codes "vmid") d.vmid refl i;
  name = read_text d (codes "name") d.name refl i;
  tags = read_texts d (codes "tags") d.tags refl i;
  description = read_text d (codes "description") d.description refl i;
  hook_script = read_text d (codes "hookscript") d.hook_script refl i;
  action = read_text d (codes "action") d.action refl i;
  phase = read_text d (codes "phase") d.phase refl i;
  upid = read_text d (codes "upid") d.upid refl i;
  user = read_text d (codes "user") d.user refl i;
  source_node = read_text d (codes "source_node") d.source_node refl i;
  target_node = read_text d (codes "target_node") d.target_node refl i;
  duration_ms = read_pointer d (codes "duration_ms") d.duration_ms refl i;
  exit_status = read_text d (codes "exit_status") d.exit_status refl i;
  state = read_text d (codes "state") d.state refl i;
  state_detail = read_text d (codes "state_detail") d.state_detail refl i;
  snapshot_id = read_text d (codes "snapshot_id") d.snapshot_id refl i;
  observed_at_ns = read_number d (codes "observed_at_ns") d.observed_at_ns refl i;
  snapshot_count = read_number d (codes "count") d.snapshot_count refl i;
}
