-- ===== src/AuditDiff/Tests.antt =====
-- Two versions of a registry's settings, and what the log shows of them.
use sagedockhand.Common.{
  All, nat_eq, text_eq, member, unique, ◌≡◌, refl, true, none, some, List, [], ◌∷◌,
}
use sagedockhand.Common.Text.{codes}
use sagedockhand.AuditDiff.Secrets.{IsDiscreet, compute_audit_diff-IsDiscreet}
use sagedockhand.AuditDiff.Compare.{is_equal, format_value}
use sagedockhand.AuditDiff.Diff.{
  FieldChange, DiffOptions, mask, masked_change, recorded_change, change_at, changes_at,
  compute_audit_diff,
}
use sagedockhand.AuditDiff.Values.{
  Fields, property, number, string, array, object, no_items, no_fields, field,
}

abbrev before : Fields
before = field (codes "id") (number 1) (
    field (codes "name") (string (codes "hub"))
      (field (codes "password") (string (codes "old")) no_fields))

abbrev after : Fields
after = field (codes "id") (number 2) (
    field (codes "name") (string (codes "ghcr")) (
      field (codes "password") (string (codes "new"))
        (field (codes "tlsCa") (string (codes "cert")) no_fields)))

abbrev options : DiffOptions
options = record { include_fields = none; exclude_fields = none }

abbrev changes : List FieldChange
changes =
    record {
      name = codes "name";
      old_value = string (codes "hub");
      new_value = string (codes "ghcr");
    }
    ∷ record { name = codes "password"; old_value = mask; new_value = mask }
    ∷ []

changes_test : compute_audit_diff (some before) (some after) options ≡ some changes
unfolding compute_audit_diff changes_at change_at recorded_change masked_change is_equal
    format_value property member unique
changes_test = refl

-- An empty array and an empty object count as equal.
empty_test : is_equal (array no_items) (object no_fields) ≡ true
unfolding is_equal
empty_test = refl

compute_audit_diff-IsDiscreet_example : All (IsDiscreet options) changes
compute_audit_diff-IsDiscreet_example =
    compute_audit_diff-IsDiscreet (some before) (some after) options changes changes_test
