-- ===== src/Documents/Json.antt =====
-- The values of serde_json that the operator walks. Reading and printing text is the library's: a
-- parameter. An object is its entries in the order of the library's map, keys distinct.
use onym_backup.Prelude.{
  Bool, Option, none, some, List, [], ◌∷◌, Text, Bytes, eq_text, if◌then◌else◌,
}
use onym_backup.Prelude.Int.{ℤ}

-- `Number`: an integer of `i64` or `u64`, or any other number by its text
pub data Number : Type 0 where
  integer : ℤ → Number
  float : Text → Number

mutual
  pub data Value : Type 0 where
    null : Value
    bool : Bool → Value
    number : Number → Value
    string : Text → Value
    array : Values → Value
    object : Fields → Value

  pub data Values : Type 0 where
    nil : Values
    cons : Value → Values → Values

  pub data Fields : Type 0 where
    end : Fields
    field : Text → Value → Fields → Fields

pub record Json : Type 0 where
  pub from_slice : Bytes → Option Value
  pub to_vec : Value → Bytes

unfoldable pub get_field : Text → Fields → Option Value
get_field key end = none
get_field key (field k v rest) =
    let later = get_field key rest in if eq_text k key then some v else later

-- `Value::get` of a key
unfoldable pub get : Text → Value → Option Value
unfolding get_field
get key (object fields) = get_field key fields
get key null = none
get key (bool _) = none
get key (number _) = none
get key (string _) = none
get key (array _) = none

abbrev pub as_str : Option Value → Option Text
as_str (some (string t)) = some t
as_str _ = none

-- `as_i64`; an integer beyond `i64` is not told apart from one within
abbrev pub as_i64 : Option Value → Option ℤ
as_i64 (some (number (integer n))) = some n
as_i64 _ = none

unfoldable pub strings : Values → List Text
strings nil = []
strings (cons (string t) rest) = t ∷ strings rest
strings (cons _ rest) = strings rest

-- `as_array`, its strings, and nothing for another value
abbrev pub string_items : Option Value → List Text
string_items (some (array items)) = strings items
string_items _ = []

-- `Map::remove`
unfoldable pub remove_field : Text → Fields → Fields
remove_field key end = end
remove_field key (field k v rest) =
    let kept = remove_field key rest in if eq_text k key then kept else field k v kept

-- `Map::insert`: the old value of the key is replaced; where a new entry stands is the map's affair
unfoldable pub insert_field : Text → Value → Fields → Fields
unfolding remove_field
insert_field key v fields = field key v (remove_field key fields)

-- `json!` of a list of texts
unfoldable pub text_values : List Text → Values
text_values [] = nil
text_values (t ∷ ts) = cons (string t) (text_values ts)

-- the entries of `json!({ .. })`
unfoldable pub fields_of : List (Text × Value) → Fields
fields_of [] = end
fields_of (e ∷ es) = field e.0 e.1 (fields_of es)

unfoldable pub values_of : List Value → Values
values_of [] = nil
values_of (v ∷ vs) = cons v (values_of vs)
