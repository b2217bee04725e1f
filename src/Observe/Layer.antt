-- ===== src/Observe/Layer.antt =====
-- crates/zicade-observe/src/layer.rs and event.rs: how an event of the tracing crate becomes an entry of
-- the log store. A map is the list of its entries in the order of their keys.
pub mod Fields
use zicade_rs.Prelude.{
  ℕ, ◌+◌, ◌%◌, ltb, ◌==◌, ◌&&◌, ◌||◌, Bool, true, false, Option, none, some, List, [], ◌∷◌, ◌++◌,
  map_option, unwrap_or, if◌then◌else◌,
}
use zicade_rs.Text.{Str, text, str_eq, decimal}
use zicade_rs.Observe.{LogStore, new_store, push, u64_range}

pub data ℤ : Type 0 where
  pos negsuc : ℕ → ℤ

-- The values that a visitor is called with; a debug value is its formatted text.
pub data FieldValue : Type 0 where
  str debug : Str → FieldValue
  i64 : ℤ → FieldValue
  u64 : ℕ → FieldValue
  bool : Bool → FieldValue

abbrev pub shown_int : ℤ → Str
shown_int (pos n) = decimal n
shown_int (negsuc n) = text "-" ++ decimal (n + 1)

abbrev pub shown : FieldValue → Str
shown (str s) = s
shown (debug s) = s
shown (i64 z) = shown_int z
shown (u64 n) = decimal n
shown (bool b) = if b then text "true" else text "false"

unfoldable pub str_lt : Str → Str → Bool
str_lt s [] = false
str_lt [] (b ∷ t) = true
str_lt (a ∷ s) (b ∷ t) = let rest = str_lt s t in ltb a b || ((a == b) && rest)

abbrev pub StrMap : Type 0
StrMap = List (Str × Str)

unfoldable pub insert : Str → Str → StrMap → StrMap
unfolding str_lt
insert key value [] = (key, value) ∷ []
insert key value (e ∷ es) =
    let rest = e ∷ insert key value es in
    if str_eq key e.0
    then (key, value) ∷ es
    else (if str_lt key e.0 then (key, value) ∷ e ∷ es else rest)

pub record FieldVisitor : Type 0 where
  pub message : Str
  pub fields : StrMap

abbrev pub no_fields : FieldVisitor
no_fields = record { message = []; fields = [] }

abbrev pub message_name : Str
message_name = text "message"

unfoldable pub record_field : Str → Str → FieldVisitor → FieldVisitor
unfolding insert
record_field name value v =
    if str_eq name message_name
    then record v { message = value }
    else record v { fields = insert name value v.fields }

-- The event's own recording calls the visitor for each of its fields, in order.
unfoldable pub record_all : List (Str × FieldValue) → FieldVisitor → FieldVisitor
record_all [] v = v
record_all (f ∷ fs) v = record_all fs (record_field f.0 (shown f.1) v)

-- An event without its number, which the store gives it.
pub record Entry : Type 0 where
  pub timestamp : ℕ
  pub level : Str
  pub target : Str
  pub message : Str
  pub fields : StrMap

-- The milliseconds since the epoch, where the clock stands after it.
abbrev pub unix_millis : Option ℕ → ℕ
unix_millis clock = unwrap_or 0 (map_option (λ n. n % u64_range) clock)

pub record TraceEvent : Type 0 where
  pub level : Str
  pub target : Str
  pub fields : List (Str × FieldValue)

abbrev pub channel_layer : ℕ → LogStore Entry
channel_layer cap = new_store cap

abbrev pub entry_of : Option ℕ → TraceEvent → FieldVisitor → Entry
entry_of clock e v = record {
  timestamp = unix_millis clock;
  level = e.level;
  target = e.target;
  message = v.message;
  fields = v.fields;
}

unfoldable pub on_event : Option ℕ → TraceEvent → LogStore Entry → LogStore Entry
unfolding record_all
on_event clock e store = push (entry_of clock e (record_all e.fields no_fields)) store
