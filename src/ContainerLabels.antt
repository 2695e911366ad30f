-- ===== src/ContainerLabels.antt =====
-- src/lib/server/container-labels.ts: what the labels of a container ask of Dockhand. Missing labels, and
-- a missing object of labels, are `none`.
mod Tests
use sagedockhand.Common.{
  if◌then◌else◌, span, ◌==◌, nat_eq, text_eq, member, ℕ, zero, suc, Bool, true, false, not, Option,
  none, some, List, [], ◌∷◌,
}
use sagedockhand.Common.Text.{Text, codes, is_digit, trim, to_lower}
use sagedockhand.Common.Decimal.{digits_value}
use sagedockhand.Common.JsMap.{JsMap, get}

-- An integer, as `parseInt` gives it.
pub data ℤ : Type 0 where
  pos negsuc : ℕ → ℤ

abbrev pub truthy_values : List Text
truthy_values = codes "true" ∷ codes "yes" ∷ codes "1" ∷ []

abbrev pub falsy_values : List Text
falsy_values = codes "false" ∷ codes "no" ∷ codes "0" ∷ []

-- `parseLabelBool(value)`
unfoldable pub parse_label_bool : Option Text → Option Bool
parse_label_bool none = none
parse_label_bool (some value) =
    let normalized = to_lower (trim value) in
    if member normalized truthy_values
    then some true
    else if member normalized falsy_values
    then some false
    else none

-- `getLabel(labels, key)`
unfoldable pub get_label : Option (JsMap Text Text) → Text → Option Text
get_label none key = none
get_label (some labels) key = get key labels

abbrev pub is_true : Option Bool → Bool
is_true none = false
is_true (some b) = b

abbrev pub is_false : Option Bool → Bool
is_false none = false
is_false (some b) = not b

-- `isUpdateDisabledByLabel(labels)`
unfoldable pub is_update_disabled_by_label : Option (JsMap Text Text) → Bool
is_update_disabled_by_label labels =
    is_false (parse_label_bool (get_label labels (codes "dockhand.update")))

-- `isHiddenByLabel(labels)`
unfoldable pub is_hidden_by_label : Option (JsMap Text Text) → Bool
is_hidden_by_label labels = is_true (parse_label_bool (get_label labels (codes "dockhand.hidden")))

-- `isNotifyDisabledByLabel(labels)`
unfoldable pub is_notify_disabled_by_label : Option (JsMap Text Text) → Bool
is_notify_disabled_by_label labels =
    is_false (parse_label_bool (get_label labels (codes "dockhand.notify")))

-- `value?.trim() || undefined`
abbrev pub url_of : Option Text → Option Text
url_of none = none
url_of (some value) = if trim value == [] then none else some (trim value)

-- `getCustomUrl(labels)`
unfoldable pub get_custom_url : Option (JsMap Text Text) → Option Text
get_custom_url labels = url_of (get_label labels (codes "dockhand.url"))

-- The digits that a text begins with, as a number, if there are any.
abbrev pub leading_number : Text × Text → Option ℕ
leading_number ([], rest) = none
leading_number (c ∷ front, rest) = some (digits_value 0 (c ∷ front))

abbrev pub negated : ℕ → ℤ
negated zero = pos 0
negated (suc n) = negsuc n

abbrev pub or_zero : Option ℕ → (ℕ → ℤ) → ℤ
or_zero none sign = pos 0
or_zero (some n) sign = sign n

-- `parseInt(text, 10)` of a trimmed text, where 0 stands for NaN
unfoldable pub parse_int : Text → ℤ
parse_int [] = pos 0
parse_int (c ∷ s) =
    if c == b'-'
    then or_zero (leading_number (span is_digit s)) negated
    else if c == b'+'
    then or_zero (leading_number (span is_digit s)) pos
    else or_zero (leading_number (span is_digit (c ∷ s))) pos

abbrev pub order_of : Option Text → ℤ
order_of none = pos 0
order_of (some value) = parse_int (trim value)

-- `getOrderValue(labels)`
unfoldable pub get_order_value : Option (JsMap Text Text) → ℤ
get_order_value labels = order_of (get_label labels (codes "dockhand.order"))

pub record DockhandLabels : Type 0 where
  pub update_disabled : Bool
  pub hidden : Bool
  pub notify_disabled : Bool
  pub custom_url : Option Text

-- `getDockhandLabels(labels)`
unfoldable pub get_dockhand_labels : Option (JsMap Text Text) → DockhandLabels
get_dockhand_labels labels = record {
  update_disabled = is_update_disabled_by_label labels;
  hidden = is_hidden_by_label labels;
  notify_disabled = is_notify_disabled_by_label labels;
  custom_url = get_custom_url labels;
}
