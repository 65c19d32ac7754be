-- ===== src/Json.antt =====
-- `serde_json::Value` with the accessors that the crates call (`get`, `as_str`, `as_array`,
-- `as_object`, `as_u64`, `insert`). An object keeps its fields in order, as the `preserve_order`
-- feature asks for.
pub mod Insertion
use affinidi_keri_rs.Prelude.{
  ℕ, String, Bool, List, [], ◌∷◌, Option, none, some, ◌==◌, string_eq, nat_eq, if◌then◌else◌,
}

-- A number is a `u64`, or one that `as_u64` refuses (negative or fractional), kept as its text.
pub data Number : Type 0 where
  unsigned : ℕ → Number
  other : String → Number

mutual
  pub data Value : Type 0 where
    null : Value
    bool : Bool → Value
    number : Number → Value
    string : String → Value
    array : Items → Value
    object : Fields → Value

  pub data Items : Type 0 where
    no_items : Items
    with_item : Value → Items → Items

  pub data Fields : Type 0 where
    no_fields : Fields
    with_field : String → Value → Fields → Fields

abbrev pub from_list : List Value → Items
from_list [] = no_items
from_list (v ∷ vs) = with_item v (from_list vs)

abbrev pub to_list : Items → List Value
to_list no_items = []
to_list (with_item v vs) = v ∷ to_list vs

unfoldable pub lookup : String → Fields → Option Value
lookup k no_fields = none
lookup k (with_field j v fs) = if j == k then some v else lookup k fs

-- `Map::insert`: a key that is there keeps its place.
unfoldable pub insert : String → Value → Fields → Fields
insert k v no_fields = with_field k v no_fields
insert k v (with_field j w fs) =
    if j == k then with_field j v fs else with_field j w (insert k v fs)

abbrev pub as_str : Value → Option String
as_str (string s) = some s
as_str _ = none

abbrev pub as_u64 : Number → Option ℕ
as_u64 (unsigned n) = some n
as_u64 (other s) = none

abbrev pub as_array : Value → Option (List Value)
as_array (array vs) = some (to_list vs)
as_array _ = none

abbrev pub as_object : Value → Option Fields
as_object (object fs) = some fs
as_object _ = none

-- `sad.get(key)`
unfoldable pub get : Value → String → Option Value
unfolding lookup
get (object fs) k = lookup k fs
get _ k = none

abbrev then_str : Option Value → Option String
then_str none = none
then_str (some v) = as_str v

-- `sad.get(key).and_then(|v| v.as_str())`
unfoldable pub get_str : Value → String → Option String
unfolding get
get_str v k = then_str (get v k)

-- `if let Some(obj) = v.as_object_mut() { obj.insert(key, value) }`
unfoldable pub set_field : Value → String → Value → Value
unfolding insert
set_field (object fs) k w = object (insert k w fs)
set_field v k w = v
