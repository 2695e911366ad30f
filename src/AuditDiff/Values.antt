-- ===== src/AuditDiff/Values.antt =====
-- JavaScript values, and reading their properties.
use sagedockhand.Common.{
  if◌then◌else◌, ◌==◌, nat_eq, text_eq, ℕ, zero, suc, Bool, Option, none, some, List, [], ◌∷◌,
}
use sagedockhand.Common.Text.{Text, codes, to_decimal}

mutual
  pub data Value : Type 0 where
    undefined null : Value
    boolean : Bool → Value
    number : ℕ → Value
    string : Text → Value
    array : Items → Value
    object : Fields → Value

  pub data Items : Type 0 where
    no_items : Items
    item : Value → Items → Items

  pub data Fields : Type 0 where
    no_fields : Fields
    field : Text → Value → Fields → Fields

abbrev pub count_items : Items → ℕ
count_items no_items = 0
count_items (item x xs) = suc (count_items xs)

abbrev pub count_fields : Fields → ℕ
count_fields no_fields = 0
count_fields (field key value fields) = suc (count_fields fields)

-- `fields[key]`
abbrev pub get_field : Fields → Text → Value
get_field no_fields key = undefined
get_field (field k value fields) key = if k == key then value else get_field fields key

-- `items[i]` by a number and by a text, from the index `at` on.
abbrev pub get_item : Items → ℕ → Value
get_item no_items i = undefined
get_item (item x xs) zero = x
get_item (item x xs) (suc i) = get_item xs i

unfoldable pub get_named_item : Items → ℕ → Text → Value
get_named_item no_items at key = undefined
get_named_item (item x xs) at key =
    if to_decimal at == key then x else get_named_item xs (suc at) key

-- `value[key]` of an array or an object
unfoldable pub property : Value → Text → Value
property (array xs) key =
    if key == codes "length" then number (count_items xs) else get_named_item xs 0 key
property (object fields) key = get_field fields key
property value key = undefined

-- `value[i]` of an array or an object
unfoldable pub indexed : Value → ℕ → Value
indexed (array xs) i = get_item xs i
indexed (object fields) i = get_field fields (to_decimal i)
indexed value i = undefined

-- `Object.keys(value).length` where `typeof value` is object and the value is not null
abbrev pub key_count : Value → Option ℕ
key_count (array xs) = some (count_items xs)
key_count (object fields) = some (count_fields fields)
key_count value = none

abbrev pub keys : Fields → List Text
keys no_fields = []
keys (field key value fields) = key ∷ keys fields
