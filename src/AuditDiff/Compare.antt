-- ===== src/AuditDiff/Compare.antt =====
-- `isEqual` and `formatValue`.
use sagedockhand.Common.{
  ltb, if◌then◌else◌, length, take, ◌==◌, nat_eq, text_eq, ℕ, suc, Bool, true, false, not, ◌&&◌,
  Option, none, some, ◌∷◌, ◌++◌,
}
use sagedockhand.Common.Text.{Text, codes, to_decimal}
use sagedockhand.AuditDiff.Values.{
  Value, Items, Fields, count_items, count_fields, property, indexed, key_count, undefined, null,
  boolean, number, string, array, object, no_items, item, no_fields, field,
}

abbrev pub is_undefined : Value → Bool
is_undefined undefined = true
is_undefined value = false

abbrev pub is_null : Value → Bool
is_null null = true
is_null value = false

abbrev pub is_boolean : Bool → Value → Bool
is_boolean true (boolean b) = b
is_boolean false (boolean b) = not b
is_boolean a value = false

abbrev pub is_number : ℕ → Value → Bool
is_number n (number m) = n == m
is_number n value = false

abbrev pub is_string : Text → Value → Bool
is_string s (string t) = s == t
is_string s value = false

-- Whether the value is an array or an object with `n` keys.
abbrev pub has_count : ℕ → Option ℕ → Bool
has_count n none = false
has_count n (some m) = n == m

-- `isEqual(a, b)`, by the first argument; two arrays are compared index by index, and so are an array and
-- an object, whose keys are then the indices.
unfoldable mutual
  pub is_equal : Value → Value → Bool
  is_equal undefined b = is_undefined b
  is_equal null b = is_null b
  is_equal (boolean x) b = is_boolean x b
  is_equal (number n) b = is_number n b
  is_equal (string s) b = is_string s b
  is_equal (array xs) b = has_count (count_items xs) (key_count b) && items_equal xs 0 b
  is_equal (object fields) b =
      has_count (count_fields fields) (key_count b) && fields_equal fields b

  pub items_equal : Items → ℕ → Value → Bool
  items_equal no_items i b = true
  items_equal (item x xs) i b = is_equal x (indexed b i) && items_equal xs (suc i) b

  pub fields_equal : Fields → Value → Bool
  fields_equal no_fields b = true
  fields_equal (field key value fields) b = is_equal value (property b key) && fields_equal fields b

-- `formatValue(val)`
unfoldable mutual
  pub format_value : Value → Value
  format_value undefined = null
  format_value null = null
  format_value (boolean b) = boolean b
  format_value (number n) = number n
  format_value (string s) =
      if ltb 200 (length s) then string (take 200 s ++ codes "...") else string s
  format_value (array xs) =
      if ltb 10 (count_items xs)
      then string (b'[' ∷ to_decimal (count_items xs) ++ codes " items]")
      else array (format_items xs)
  format_value (object fields) =
      if ltb 10 (count_fields fields)
      then string (123 ∷ to_decimal (count_fields fields) ++ codes " properties}")
      else object (format_fields fields)

  pub format_items : Items → Items
  format_items no_items = no_items
  format_items (item x xs) = item (format_value x) (format_items xs)

  pub format_fields : Fields → Fields
  format_fields no_fields = no_fields
  format_fields (field key value fields) = field key (format_value value) (format_fields fields)
