-- ===== src/Observe/Layer/Fields.antt =====
-- What an entry says of the fields that were recorded on its event.
use zicade_rs.Prelude.{
  ◌++◌, ◌≡◌, ◌∙◌, sym, ap, refl, false, Bool-cases, Option-cases, inl, inr, Option, none, some,
  List, [], ◌∷◌, arith, unwrap_or, if◌then◌else◌,
}
use zicade_rs.Text.{Str, str_eq, str_eq_iff, str_eq_refl}
use zicade_rs.Observe.{LogStore, LogEvent, push, stamp}
use zicade_rs.Observe.Layer.{
  LogStore, Entry, entry_of, push, TraceEvent, on_event, ℕ, StrMap, FieldValue, FieldVisitor,
  insert, str_lt, shown, record_field, record_all, message_name, no_fields,
}

unfoldable pub lookup : Str → StrMap → Option Str
lookup key [] = none
lookup key (e ∷ es) = let rest = lookup key es in if str_eq key e.0 then some e.1 else rest

abbrev pub or_else : Option Str → Option Str → Option Str
or_else none other = other
or_else (some v) other = some v

-- The value that was recorded last under a name.
unfoldable pub last_value : Str → List (Str × FieldValue) → Option Str
last_value name [] = none
last_value name (f ∷ fs) =
    or_else (last_value name fs) (if str_eq name f.0 then some (shown f.1) else none)

lookup-insert : (key value : Str) (es : StrMap) → lookup key (insert key value es) ≡ some value
unfolding lookup insert
lookup-insert key value [] = rw (str_eq_refl key) refl
lookup-insert key value (e ∷ es) =
    let same = str_eq_refl key in
    let rest = lookup-insert key value es in
    elim (Bool-cases (str_eq key e.0)) [
      | inl found ↦ rw (found, same) refl
      | inr other ↦ elim (Bool-cases (str_lt key e.0)) [
        | inl before ↦ rw (other, before, same) refl
        | inr after ↦ rw (other, after, other) rest
      ]
    ]

-- Another key's entry stays.
insert-others :
    (key value other : Str) (es : StrMap)
    → str_eq other key ≡ false
    → lookup other (insert key value es) ≡ lookup other es
unfolding lookup insert
insert-others key value other [] ne = rw ne refl
insert-others key value other (e ∷ es) ne =
    let rest = insert-others key value other es ne in
    elim (Bool-cases (str_eq key e.0)) [
      | inl found ↦
          let other_ne : str_eq other e.0 ≡ false =
            ap (str_eq other) (sym ((str_eq_iff key e.0).0 found)) ∙ ne in
          rw (found, ne, other_ne) refl
      | inr missed ↦ elim (Bool-cases (str_lt key e.0)) [
        | inl before ↦ rw (missed, before, ne) refl
        | inr after ↦ rw (missed, after) (ap (λ r. if str_eq other e.0 then some e.1 else r) rest)
      ]
    ]

str_eq_sym : (s t : Str) → str_eq s t ≡ str_eq t s
unfolding str_eq
str_eq_sym [] [] = refl
str_eq_sym [] (b ∷ t) = refl
str_eq_sym (a ∷ s) [] = refl
str_eq_sym (a ∷ s) (b ∷ t) = ground (arith, str_eq_sym s t)

record_field-message :
    (name value : Str) (v : FieldVisitor)
    → (record_field name value v).message ≡ (if str_eq message_name name then value else v.message)
unfolding record_field
record_field-message name value v = elim (Bool-cases (str_eq name message_name)) [
  | inl own ↦ rw (own, str_eq_sym message_name name ∙ own) refl
  | inr other ↦ rw (other, str_eq_sym message_name name ∙ other) refl
]

-- A field is kept under its name, unless that is the message's.
record_field-fields :
    (name value key : Str) (v : FieldVisitor)
    → str_eq key message_name ≡ false
    → lookup key (record_field name value v).fields
      ≡ (if str_eq key name then some value else lookup key v.fields)
unfolding record_field
record_field-fields name value key v ne = elim (Bool-cases (str_eq name message_name)) [
  | inl own ↦
      let key_ne : str_eq key name ≡ false =
        ap (str_eq key) ((str_eq_iff name message_name).0 own) ∙ ne in
      rw (own, key_ne) refl
  | inr other ↦ elim (Bool-cases (str_eq key name)) [
    | inl same ↦
        rw (other, same)
          (ap (λ k. lookup k (insert name value v.fields)) ((str_eq_iff key name).0 same)
            ∙ lookup-insert name value v.fields)
    | inr differs ↦ rw (other, differs) (insert-others name value key v.fields differs)
  ]
]

record_all-message :
    (fs : List (Str × FieldValue)) (v : FieldVisitor)
    → (record_all fs v).message ≡ unwrap_or v.message (last_value message_name fs)
unfolding record_all last_value
record_all-message [] v = refl
record_all-message (f ∷ fs) v =
    let rest = record_all-message fs (record_field f.0 (shown f.1) v) in
    rest ∙ elim (Option-cases (last_value message_name fs)) [
      | inl none_later ↦ elim (Bool-cases (str_eq message_name f.0)) [
        | inl own ↦ rw (none_later, record_field-message f.0 (shown f.1) v, own) refl
        | inr other ↦ rw (none_later, record_field-message f.0 (shown f.1) v, other) refl
      ]
      | inr (later, e) ↦ rw e refl
    ]

record_all-fields :
    (fs : List (Str × FieldValue)) (v : FieldVisitor) (key : Str)
    → str_eq key message_name ≡ false
    → lookup key (record_all fs v).fields ≡ or_else (last_value key fs) (lookup key v.fields)
unfolding record_all last_value
record_all-fields [] v key ne = refl
record_all-fields (f ∷ fs) v key ne =
    let rest = record_all-fields fs (record_field f.0 (shown f.1) v) key ne in
    let here = record_field-fields f.0 (shown f.1) key v ne in
    rest ∙ elim (Option-cases (last_value key fs)) [
      | inl none_later ↦ elim (Bool-cases (str_eq key f.0)) [
        | inl own ↦ rw (none_later, here, own) refl
        | inr other ↦ rw (none_later, here, other) refl
      ]
      | inr (later, e) ↦ rw e refl
    ]

record_field-message_name :
    (name value : Str) (v : FieldVisitor)
    → lookup message_name (record_field name value v).fields ≡ lookup message_name v.fields
unfolding record_field
record_field-message_name name value v = elim (Bool-cases (str_eq name message_name)) [
  | inl own ↦ rw own refl
  | inr other ↦
      rw other
        (insert-others name value message_name v.fields (str_eq_sym message_name name ∙ other))
]

record_all-message_name :
    (fs : List (Str × FieldValue)) (v : FieldVisitor)
    → lookup message_name (record_all fs v).fields ≡ lookup message_name v.fields
unfolding record_all
record_all-message_name [] v = refl
record_all-message_name (f ∷ fs) v =
    record_all-message_name fs (record_field f.0 (shown f.1) v)
    ∙ record_field-message_name f.0 (shown f.1) v

or_else_none : (x : Option Str) → or_else x none ≡ x
or_else_none none = refl
or_else_none (some v) = refl

-- The field that an entry shows under a name.
abbrev pub field_of : TraceEvent → Str → Option Str
field_of e key = if str_eq key message_name then none else last_value key e.fields

pub record Records (e : TraceEvent) (entry : Entry) : Type 0 where
  pub level : entry.level ≡ e.level
  pub target : entry.target ≡ e.target
  pub message : entry.message ≡ unwrap_or [] (last_value message_name e.fields)
  pub fields : (key : Str) → lookup key entry.fields ≡ field_of e key

entry_of-Records :
    (clock : Option ℕ) (e : TraceEvent)
    → Records e (entry_of clock e (record_all e.fields no_fields))
unfolding lookup
entry_of-Records clock e = record {
  level = refl;
  target = refl;
  message = record_all-message e.fields no_fields;
  fields = λ key. elim (Bool-cases (str_eq key message_name)) [
    | inl own ↦ rw own (
        ap (λ k. lookup k (record_all e.fields no_fields).fields)
          ((str_eq_iff key message_name).0 own)
        ∙ record_all-message_name e.fields no_fields)
    | inr other ↦
        rw other
          (record_all-fields e.fields no_fields key other ∙ or_else_none (last_value key e.fields))
  ];
}

-- Each event of the tracing crate is broadcast once, after those before it, with its level, its
-- target, the text that was recorded last as its message, and under every other name the value that
-- was recorded last.
pub on_event-Records :
    (clock : Option ℕ) (e : TraceEvent) (store : LogStore Entry)
    → (sent : LogEvent Entry) × ((on_event clock e store).sent ≡ store.sent ++ (sent ∷ []))
      × Records e sent.event
unfolding on_event push
on_event-Records clock e store =
    let entry = entry_of clock e (record_all e.fields no_fields) in
    (stamp entry store, refl, entry_of-Records clock e)
