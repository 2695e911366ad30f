-- ===== src/AuditDiff/Diff.antt =====
-- `computeAuditDiff`.
use sagedockhand.Common.{
  if◌then◌else◌, nat_eq, text_eq, member, unique, Bool, true, false, not, ◌&&◌, ◌||◌, Option, none,
  some, List, [], ◌∷◌, ◌++◌,
}
use sagedockhand.Common.Text.{Text, codes}
use sagedockhand.AuditDiff.Compare.{is_undefined, is_equal, format_value}
use sagedockhand.AuditDiff.Values.{Value, Fields, get_field, keys, undefined, null, string}

pub record FieldChange : Type 0 where
  pub name : Text
  pub old_value : Value
  pub new_value : Value

abbrev pub masked_fields : List Text
masked_fields =
    codes "password"
    ∷ codes "sshPrivateKey"
    ∷ codes "sshPassphrase"
    ∷ codes "tlsKey"
    ∷ codes "hawserToken"
    ∷ codes "token"
    ∷ codes "secret"
    ∷ codes "apiKey"
    ∷ []

abbrev pub sensitive_fields : List Text
sensitive_fields =
    codes "password"
    ∷ codes "sshPrivateKey"
    ∷ codes "sshPassphrase"
    ∷ codes "tlsKey"
    ∷ codes "tlsCert"
    ∷ codes "tlsCa"
    ∷ codes "hawserToken"
    ∷ codes "token"
    ∷ codes "secret"
    ∷ codes "apiKey"
    ∷ []

abbrev pub skip_fields : List Text
skip_fields = codes "updatedAt" ∷ codes "createdAt" ∷ codes "id" ∷ []

pub record DiffOptions : Type 0 where
  pub include_fields : Option (List Text)
  pub exclude_fields : Option (List Text)

abbrev pub mask : Value
mask = string (codes "••••••••")

-- `val !== null && val !== undefined && val !== ''`
abbrev pub has_value : Value → Bool
has_value undefined = false
has_value null = false
has_value (string []) = false
has_value value = true

abbrev pub shown : Bool → Value
shown present = if present then mask else null

abbrev pub differ : Bool → Bool → Bool
differ true b = not b
differ false b = b

-- A change of a masked field
unfoldable pub masked_change : Text → Bool → Bool → Option FieldChange
masked_change key old new =
    if differ old new || (old && new)
    then some (record { name = key; old_value = shown old; new_value = shown new })
    else none

-- What is recorded of two values that differ.
unfoldable pub recorded_change : Text → Value → Value → Option FieldChange
recorded_change key old new =
    if member key masked_fields
    then masked_change key (has_value old) (has_value new)
    else if member key sensitive_fields
    then none
    else some (record { name = key; old_value = format_value old; new_value = format_value new })

abbrev pub listed : Text → Option (List Text) → Bool → Bool
listed key none otherwise = otherwise
listed key (some fields) otherwise = member key fields

-- The body of the loop.
unfoldable pub change_at : DiffOptions → Fields → Fields → Text → Option FieldChange
change_at options old_obj new_obj key =
    if member key skip_fields
    then none
    else if listed key options.exclude_fields false
    then none
    else if not (listed key options.include_fields true)
    then none
    else if is_undefined (get_field new_obj key)
    then none
    else if is_equal (get_field old_obj key) (get_field new_obj key)
    then none
    else recorded_change key (get_field old_obj key) (get_field new_obj key)

abbrev pub note_change : Option FieldChange → List FieldChange → List FieldChange
note_change none changes = changes
note_change (some change) changes = change ∷ changes

unfoldable pub changes_at : DiffOptions → Fields → Fields → List Text → List FieldChange
changes_at options old_obj new_obj [] = []
changes_at options old_obj new_obj (key ∷ rest) =
    note_change (change_at options old_obj new_obj key) (changes_at options old_obj new_obj rest)

abbrev pub unless_empty : List FieldChange → Option (List FieldChange)
unless_empty [] = none
unless_empty (change ∷ changes) = some (change ∷ changes)

-- `computeAuditDiff(oldObj, newObj, options)`; a missing object is `none`.
unfoldable pub compute_audit_diff :
    Option Fields → Option Fields → DiffOptions → Option (List FieldChange)
compute_audit_diff (some old_obj) (some new_obj) options =
    unless_empty (changes_at options old_obj new_obj (unique (keys old_obj ++ keys new_obj)))
compute_audit_diff _ _ options = none
