-- ===== src/AuditDiff/Secrets.antt =====
-- What an entry may show.
use sagedockhand.Common.{
  if◌then◌else◌, Bool-cases, All, nat_eq, text_eq, member, unique, ◌≡◌, refl, ◌⊎◌, inl, inr, Bool,
  true, false, not, ◌&&◌, ◌||◌, Option, none, some, List, [], ◌∷◌, ◌++◌, arith,
}
use sagedockhand.Common.Text.{Text}
use sagedockhand.AuditDiff.Compare.{is_undefined, is_equal, format_value}
use sagedockhand.AuditDiff.Diff.{
  FieldChange, masked_fields, sensitive_fields, skip_fields, DiffOptions, mask, has_value, shown,
  differ, masked_change, recorded_change, listed, change_at, note_change, changes_at, unless_empty,
  compute_audit_diff,
}
use sagedockhand.AuditDiff.Values.{Value, Fields, get_field, keys, null}

-- Only whether there is a value.
abbrev pub IsMasked : Value → Type 0
IsMasked value = (value ≡ mask) ⊎ (value ≡ null)

-- The change names no field that is left out, and of a sensitive field it shows no value.
pub record IsDiscreet (options : DiffOptions) (change : FieldChange) : Type 0 where
  pub not_skipped : member change.name skip_fields ≡ false
  pub not_excluded : listed change.name options.exclude_fields false ≡ false
  pub included : listed change.name options.include_fields true ≡ true
  pub sensitive :
      member change.name sensitive_fields ≡ true
      → IsMasked change.old_value × IsMasked change.new_value

shown-IsMasked : (present : Bool) → IsMasked (shown present)
shown-IsMasked true = inl refl
shown-IsMasked false = inr refl

-- What is recorded names its key, and is discreet about it.
record IsRecorded (key : Text) (change : FieldChange) : Type 0 where
  is_key : change.name ≡ key
  hides : member key sensitive_fields ≡ true → IsMasked change.old_value × IsMasked change.new_value

masked_change-IsRecorded :
    (key : Text) (old new : Bool) (change : FieldChange)
    → masked_change key old new ≡ some change
    → IsRecorded key change
unfolding masked_change
masked_change-IsRecorded key old new change h = elim (Bool-cases (differ old new || (old && new))) [
  | inr same ↦ absurd (ground (arith, h, same))
  | inl apart ↦
      let kept : record { name = key; old_value = shown old; new_value = shown new } ≡ change =
        ground (arith, h, apart) in
      rw (← kept) (record { is_key = refl; hides = λ _. (shown-IsMasked old, shown-IsMasked new) })
]

recorded_change-IsRecorded :
    (key : Text) (old new : Value) (change : FieldChange)
    → recorded_change key old new ≡ some change
    → IsRecorded key change
unfolding recorded_change
recorded_change-IsRecorded key old new change h = elim (Bool-cases (member key masked_fields)) [
  | inl secret ↦
      masked_change-IsRecorded key (has_value old) (has_value new) change (rw secret at h)
  | inr open_field ↦ elim (Bool-cases (member key sensitive_fields)) [
    | inl hidden ↦ absurd (ground (arith, h, open_field, hidden))
    | inr plain ↦
        let kept : record { name = key; old_value = format_value old; new_value = format_value new }
            ≡ change =
          ground (arith, h, open_field, plain) in
        rw (← kept) (record { is_key = refl; hides = λ s. absurd (ground (arith, s, plain)) })
  ]
]

past_guard :
    (b : Bool) (o : Option FieldChange) (change : FieldChange)
    → (if b then none else o) ≡ some change
    → (b ≡ false) × (o ≡ some change)
past_guard true o change h = absurd (ground (arith, h))
past_guard false o change h = (refl, h)

module _ (options : DiffOptions) (old_obj new_obj : Fields) where
  change_at-IsDiscreet :
      (key : Text) (change : FieldChange)
      → change_at options old_obj new_obj key ≡ some change
      → IsDiscreet options change
  unfolding change_at
  change_at-IsDiscreet key change h =
      let (kept, h1) = past_guard (member key skip_fields) _ change h in
      let (admitted, h2) = past_guard (listed key options.exclude_fields false) _ change h1 in
      let (wanted, h3) = past_guard (not (listed key options.include_fields true)) _ change h2 in
      let (given, h4) = past_guard (is_undefined (get_field new_obj key)) _ change h3 in
      let (changed, h5) =
        past_guard (is_equal (get_field old_obj key) (get_field new_obj key)) _ change h4 in
      let r =
        recorded_change-IsRecorded key (get_field old_obj key) (get_field new_obj key) change h5 in
      record {
        not_skipped = rw r.is_key kept;
        not_excluded = rw r.is_key admitted;
        included = rw r.is_key (ground (arith, wanted));
        sensitive = λ s. r.hides (rw (← r.is_key) s);
      }

  note_change-All :
      (o : Option FieldChange) (changes : List FieldChange)
      → ((change : FieldChange) → o ≡ some change → IsDiscreet options change)
      → All (IsDiscreet options) changes
      → All (IsDiscreet options) (note_change o changes)
  note_change-All none changes f h = h
  note_change-All (some change) changes f h = (f change refl, h)

  changes_at-IsDiscreet :
      (keys : List Text) → All (IsDiscreet options) (changes_at options old_obj new_obj keys)
  unfolding changes_at
  changes_at-IsDiscreet [] = tt
  changes_at-IsDiscreet (key ∷ keys) =
      note_change-All (change_at options old_obj new_obj key)
        (changes_at options old_obj new_obj keys) (change_at-IsDiscreet key)
        (changes_at-IsDiscreet keys)

unless_empty-All :
    (options : DiffOptions) (found changes : List FieldChange)
    → All (IsDiscreet options) found
    → unless_empty found ≡ some changes
    → All (IsDiscreet options) changes
unless_empty-All options [] changes a h = absurd (ground (arith, h))
unless_empty-All options (change ∷ found) changes a h =
    let same : change ∷ found ≡ changes = ground (arith, h) in rw (← same) a

-- A diff never names a field that is skipped, excluded or not included, and for a sensitive field its two
-- values are a fixed mask or null, whatever the objects hold in it.
pub compute_audit_diff-IsDiscreet :
    (old_obj new_obj : Option Fields) (options : DiffOptions) (changes : List FieldChange)
    → compute_audit_diff old_obj new_obj options ≡ some changes
    → All (IsDiscreet options) changes
unfolding compute_audit_diff
compute_audit_diff-IsDiscreet none new_obj options changes h = absurd (ground (arith, h))
compute_audit_diff-IsDiscreet (some old_obj) none options changes h = absurd (ground (arith, h))
compute_audit_diff-IsDiscreet (some old_obj) (some new_obj) options changes h =
    let all_keys = unique (keys old_obj ++ keys new_obj) in
    unless_empty-All options (changes_at options old_obj new_obj all_keys) changes
      (changes_at-IsDiscreet options old_obj new_obj all_keys) h
