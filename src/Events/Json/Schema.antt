-- ===== src/Events/Json/Schema.antt =====
-- The objects against the schemas that docs/EVENTS.md gives for the envelope and for `data`.
use proxmox_eventbus.Prelude.{
  ◌≡◌, refl, subst, Bool, true, false, List, [], ◌∷◌, Option, none, some, Bytes, codes, ℤ, is_zero,
  Bool-cases, inl, inr, ◌==◌, bytes_eq, bytes_beq, if◌then◌else◌,
}
use proxmox_eventbus.Events.{Time, EventData, CloudEvent}
use proxmox_eventbus.Events.Json.{
  Value, text, number, texts, Object, Members, collect, omit_text, omit_number, omit_texts,
  omit_nil, data_members, data_object, envelope_members, event_object,
}

pub data ValueType : Type 0 where
  text_type number_type texts_type : ValueType

infix 40 ◌∈◌
pub data ◌∈◌ : Value → ValueType → Type 0 where
  is_text : (s : Bytes) → text s ∈ text_type
  is_number : (n : ℤ) → number n ∈ number_type
  is_texts : (ts : List Bytes) → texts ts ∈ texts_type

-- A key, the type of its value, and whether it is always there.
pub record Slot : Type 0 where
  pub key : Bytes
  pub type : ValueType
  pub required : Bool

-- The object has keys of the schema only, each once and in its order, with values of their types,
-- and all that are required.
pub data Conforms : Object → List Slot → Type 0 where
  done : Conforms [] []
  given :
      {v : Value} {o : Object} {slots : List Slot} (s : Slot)
      → v ∈ s.type
      → Conforms o slots
      → Conforms ((s.key, v) ∷ o) (s ∷ slots)
  left_out :
      {o : Object} {slots : List Slot} (s : Slot)
      → s.required ≡ false
      → Conforms o slots
      → Conforms o (s ∷ slots)

abbrev always : Bytes → ValueType → Slot
always k t = record { key = k; type = t; required = true }

abbrev maybe : Bytes → ValueType → Slot
maybe k t = record { key = k; type = t; required = false }

-- The keys of the object in the section on the `data` schema, in the order of the document. Those
-- above its first comment are in every event.
abbrev pub data_schema : List Slot
data_schema =
    always (codes "schemaVersion") text_type
    ∷ always (codes "cluster") text_type
    ∷ always (codes "node") text_type
    ∷ maybe (codes "kind") text_type
    ∷ maybe (codes "vmid") number_type
    ∷ maybe (codes "name") text_type
    ∷ maybe (codes "tags") texts_type
    ∷ maybe (codes "description") text_type
    ∷ maybe (codes "hookscript") text_type
    ∷ maybe (codes "action") text_type
    ∷ maybe (codes "phase") text_type
    ∷ maybe (codes "upid") text_type
    ∷ maybe (codes "user") text_type
    ∷ maybe (codes "source_node") text_type
    ∷ maybe (codes "target_node") text_type
    ∷ maybe (codes "duration_ms") number_type
    ∷ maybe (codes "exit_status") text_type
    ∷ maybe (codes "state") text_type
    ∷ maybe (codes "snapshot_id") text_type
    ∷ maybe (codes "observed_at_ns") number_type
    ∷ maybe (codes "count") number_type
    ∷ []

-- The table of the envelope. Its `subject` may be left out, as CloudEvents 1.0 says.
abbrev pub envelope_schema : List Slot
envelope_schema =
    always (codes "specversion") text_type
    ∷ always (codes "id") text_type
    ∷ always (codes "source") text_type
    ∷ always (codes "type") text_type
    ∷ maybe (codes "subject") text_type
    ∷ always (codes "time") text_type
    ∷ always (codes "datacontenttype") text_type
    ∷ []

-- The key that the document does not have.
abbrev pub undocumented : Bytes
undocumented = codes "state_detail"

-- An object without a key.
unfoldable pub without : Bytes → Object → Object
without k [] = []
without k ((j, v) ∷ o) = let rest = without k o in if j == k then rest else (j, v) ∷ rest

without_slot : Bytes → List Slot → List Slot
without_slot k [] = []
without_slot k (s ∷ slots) =
    let rest = without_slot k slots in if s.key == k then rest else s ∷ rest

without-Conforms :
    (k : Bytes) {o : Object} {slots : List Slot}
    → Conforms o slots
    → Conforms (without k o) (without_slot k slots)
unfolding without without_slot
without-Conforms k done = done
without-Conforms k (given s h c) =
    let rest = without-Conforms k c in
    elim (Bool-cases (s.key == k)) [ inl e ↦ rw e rest | inr e ↦ rw e (given s h rest) ]
without-Conforms k (left_out s h c) =
    let rest = without-Conforms k c in
    elim (Bool-cases (s.key == k)) [ inl e ↦ rw e rest | inr e ↦ rw e (left_out s h rest) ]

-- The tags of `EventData`.
abbrev tagged_schema : List Slot
tagged_schema =
    always (codes "schemaVersion") text_type
    ∷ always (codes "cluster") text_type
    ∷ always (codes "node") text_type
    ∷ maybe (codes "kind") text_type
    ∷ maybe (codes "vmid") number_type
    ∷ maybe (codes "name") text_type
    ∷ maybe (codes "tags") texts_type
    ∷ maybe (codes "description") text_type
    ∷ maybe (codes "hookscript") text_type
    ∷ maybe (codes "action") text_type
    ∷ maybe (codes "phase") text_type
    ∷ maybe (codes "upid") text_type
    ∷ maybe (codes "user") text_type
    ∷ maybe (codes "source_node") text_type
    ∷ maybe (codes "target_node") text_type
    ∷ maybe (codes "duration_ms") number_type
    ∷ maybe (codes "exit_status") text_type
    ∷ maybe (codes "state") text_type
    ∷ maybe (codes "state_detail") text_type
    ∷ maybe (codes "snapshot_id") text_type
    ∷ maybe (codes "observed_at_ns") number_type
    ∷ maybe (codes "count") number_type
    ∷ []

-- A member before `omitempty` has been looked at.
data Fits : Option Value → ValueType → Bool → Type 0 where
  leaves : {t : ValueType} → Fits none t false
  gives : {v : Value} {t : ValueType} {required : Bool} → v ∈ t → Fits (some v) t required

data FitAll : Members → List Slot → Type 0 where
  end : FitAll [] []
  member :
      {m : Option Value} {ms : Members} {s : Slot} {slots : List Slot}
      → Fits m s.type s.required
      → FitAll ms slots
      → FitAll ((s.key, m) ∷ ms) (s ∷ slots)

omit_text-Fits : (s : Bytes) → Fits (omit_text s) text_type false
unfolding omit_text
omit_text-Fits [] = leaves
omit_text-Fits (c ∷ s) = gives (is_text (c ∷ s))

omit_number-Fits : (n : ℤ) → Fits (omit_number n) number_type false
unfolding omit_number
omit_number-Fits n = elim (Bool-cases (is_zero n)) [
  | inl e ↦ rw e leaves
  | inr e ↦ rw e (gives (is_number n))
]

omit_texts-Fits : (ts : List Bytes) → Fits (omit_texts ts) texts_type false
unfolding omit_texts
omit_texts-Fits [] = leaves
omit_texts-Fits (t ∷ ts) = gives (is_texts (t ∷ ts))

omit_nil-Fits : (n : Option ℤ) → Fits (omit_nil n) number_type false
unfolding omit_nil
omit_nil-Fits none = leaves
omit_nil-Fits (some n) = gives (is_number n)

collect-member :
    (m : Option Value) {slots : List Slot} (s : Slot) (ms : Members)
    → Fits m s.type s.required
    → Conforms (collect ms) slots
    → Conforms (collect ((s.key, m) ∷ ms)) (s ∷ slots)
unfolding collect
collect-member none s ms f c = left_out s (not_required f refl) c
  where
    not_required : {m : Option Value} {t : ValueType} {b : Bool} → Fits m t b → m ≡ none → b ≡ false
    not_required leaves e = refl
    not_required (gives h) e = cc
collect-member (some v) s ms f c = given s (typed f refl) c
  where
    typed : {m : Option Value} {t : ValueType} {b : Bool} → Fits m t b → m ≡ some v → v ∈ t
    typed leaves e = cc
    typed (gives {t = t} h) e = subst (λ m. elim m [ none ↦ v ∈ t | some w ↦ w ∈ t ]) e h

collect-Conforms :
    {ms : Members} {slots : List Slot} → FitAll ms slots → Conforms (collect ms) slots
unfolding collect
collect-Conforms end = done
collect-Conforms (member {m} {ms} {s} f fs) = collect-member m s ms f (collect-Conforms fs)

data-FitAll : (d : EventData) → FitAll (data_members d) tagged_schema
unfolding data_members
data-FitAll d = member (gives (is_text _)) (
    member (gives (is_text _)) (
      member (gives (is_text _)) (
        member (omit_text-Fits d.kind) (
          member (omit_number-Fits d.vmid) (
            member (omit_text-Fits d.name) (
              member (omit_texts-Fits d.tags) (
                member (omit_text-Fits d.description) (
                  member (omit_text-Fits d.hook_script) (
                    member (omit_text-Fits d.action) (
                      member (omit_text-Fits d.phase) (
                        member (omit_text-Fits d.upid) (
                          member (omit_text-Fits d.user) (
                            member (omit_text-Fits d.source_node) (
                              member (omit_text-Fits d.target_node) (
                                member (omit_nil-Fits d.duration_ms) (
                                  member (omit_text-Fits d.exit_status) (
                                    member (omit_text-Fits d.state) (
                                      member (omit_text-Fits d.state_detail) (
                                        member (omit_text-Fits d.snapshot_id) (
                                          member (omit_number-Fits d.observed_at_ns) (
                                            member (omit_number-Fits d.snapshot_count)
                                              (end))))))))))))))))))))))

envelope-FitAll :
    (format : Time → Bytes) (ev : CloudEvent) → FitAll (envelope_members format ev) envelope_schema
unfolding envelope_members
envelope-FitAll format ev = member (gives (is_text _)) (
    member (gives (is_text _)) (
      member (gives (is_text _)) (
        member (gives (is_text _)) (
          member (omit_text-Fits ev.subject)
            (member (gives (is_text _)) (member (gives (is_text _)) end))))))

documented_slots : without_slot undocumented tagged_schema ≡ data_schema
unfolding without_slot bytes_beq
documented_slots = refl

-- Every event is written as an envelope and a `data` object that conform to docs/EVENTS.md, but for
-- the one key `state_detail` that the document does not list: apart from it there is no key but the
-- document's, each at most once and in the document's order, with a value of its type, and none of
-- those missing that are in every event: those of the envelope but `subject`, and the version of
-- the schema, the cluster and the node.
pub event_object-Conforms :
    (format : Time → Bytes) (ev : CloudEvent)
    → Conforms (event_object format ev).0 envelope_schema
      × Conforms (without undocumented (event_object format ev).1) data_schema
unfolding event_object data_object
event_object-Conforms format ev = (
  collect-Conforms (envelope-FitAll format ev),
  subst (Conforms (without undocumented (collect (data_members ev.event_data)))) documented_slots
      (without-Conforms undocumented (collect-Conforms (data-FitAll ev.event_data))),
)
