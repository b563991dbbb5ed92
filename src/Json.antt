-- ===== src/Json.antt =====
-- `serde_json::Value`, the document type that every part of the engine passes on, and the
-- operations on its objects that the engine uses.
--
-- A string is the list of its bytes. A number is kept as the text that its `Display` writes: what
-- else the engine asks of a number (`as_f64`, `as_u64`) is a parameter where it is asked.
-- An object is its list of entries in the order that `serde_json::Map` iterates over them
-- (crates/tmx-adapters/Cargo.toml turns `preserve_order` on): an insertion overwrites the value of
-- a key that is there, in its place, and appends a new key.
pub mod Size
use tmx.Base.{
  ℕ, suc, ◌+◌, ◌≡◌, refl, Bool, true, false, Option, none, some, List, [], ◌∷◌, arith, Text,
  text_eq, text_eq_iff, if◌then◌else◌, ◌||◌,
}

mutual
  pub data Value : Type 0 where
    null : Value
    boolean : Bool → Value
    number : Text → Value
    string : Text → Value
    array : Items → Value
    object : Fields → Value

  pub data Items : Type 0 where
    no_items : Items
    item : Value → Items → Items

  pub data Fields : Type 0 where
    no_fields : Fields
    field : Text → Value → Fields → Fields

-- `Map::get`
abbrev pub get : Text → Fields → Option Value
get k no_fields = none
get k (field j v fs) = if text_eq j k then some v else get k fs

-- `Map::contains_key`
abbrev pub contains_key : Text → Fields → Bool
contains_key k no_fields = false
contains_key k (field j v fs) = text_eq j k || contains_key k fs

-- `Map::insert`
abbrev pub insert : Text → Value → Fields → Fields
insert k v no_fields = field k v no_fields
insert k v (field j w fs) = if text_eq j k then field j v fs else field j w (insert k v fs)

abbrev pub fields_empty : Fields → Bool
fields_empty no_fields = true
fields_empty (field k v fs) = false

abbrev pub is_object : Value → Bool
is_object (object fs) = true
is_object _ = false

abbrev pub items_of : List Value → Items
items_of [] = no_items
items_of (v ∷ vs) = item v (items_of vs)

abbrev pub to_list : Items → List Value
to_list no_items = []
to_list (item v vs) = v ∷ to_list vs

-- `Value::as_array`
abbrev pub as_array : Value → Option (List Value)
as_array (array vs) = some (to_list vs)
as_array _ = none

-- `Value::as_str`
abbrev pub as_str : Value → Option Text
as_str (string s) = some s
as_str _ = none

pub to_list-items_of : (vs : List Value) → to_list (items_of vs) ≡ vs
to_list-items_of [] = refl
to_list-items_of (v ∷ vs) = ground (arith, to_list-items_of vs)

pub object_of : (v : Value) → is_object v ≡ true → (fs : Fields) × (v ≡ object fs)
object_of (object fs) h = (fs, refl)
object_of null h = cc
object_of _ h = cc

pub get-insert :
    (j k : Text) (v : Value) (fs : Fields)
    → get j (insert k v fs) ≡ (if text_eq k j then some v else get j fs)
get-insert j k v no_fields = refl
get-insert j k v (field i w fs) =
    ground (arith, text_eq_iff k j, text_eq_iff i k, text_eq_iff i j, get-insert j k v fs)
