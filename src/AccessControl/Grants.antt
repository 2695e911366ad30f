-- ===== src/AccessControl/Grants.antt =====
-- What `checkPermission` decides in an environment: whether a role that applies there grants the action.
use sagedockhand.Common.{
  any, keep, All, All-keep, nat_eq, text_eq, member, member-append, member-unique, ℕ, ◌≡◌, refl, ap,
  ◌∙◌, ◌≢◌, Bool, true, false, ◌&&◌, ◌||◌, Option, none, some, List, [], ◌∷◌, ◌++◌, arith,
}
use sagedockhand.Common.Text.{Text}
use sagedockhand.AccessControl.Roles.{
  Resource, Permissions, EnvironmentIds, Role, Database, roles_of, user_has_admin_role, applies,
  RoleData, role_data, to_role_data, cons?, map?, get_user_roles_for_environment, can_access_from,
  user_can_access_environment, null, empty_text, unreadable, ids,
}
use sagedockhand.AccessControl.Permission.{
  merge_actions, merged_at, merge_permissions, get_user_permissions_for_environment,
  AuthenticatedUser, includes_action, check_permission,
}

-- The role's permissions list the action. A column that does not parse grants nothing.
abbrev pub role_grants : Resource → Text → Role → Bool
role_grants resource action role = elim role.permissions [
  | none ↦ false
  | some permissions ↦ includes_action (permissions resource) action
]

abbrev pub is_unreadable : EnvironmentIds → Bool
is_unreadable unreadable = true
is_unreadable _ = false

abbrev pub IsReadable : Role → Type 0
IsReadable role = (role.permissions ≢ none) × (is_unreadable role.environment_ids ≡ false)

any-keep {ℓ} :
    {A : Type ℓ} (f p : A → Bool) (xs : List A) → any f (keep p xs) ≡ any (λ x. p x && f x) xs
any-keep f p [] = refl
any-keep f p (x ∷ xs) = ground (arith, any-keep f p xs)

member-merge_actions :
    (action : Text) (merged : List Text) (actions : Option (List Text))
    → member action (merge_actions merged actions)
      ≡ (member action merged || includes_action actions action)
member-merge_actions action merged none = ground arith
member-merge_actions action merged (some actions) =
    ground (arith, member-unique action (merged ++ actions), member-append action merged actions)

member-merged_at :
    (resource : Resource) (action : Text) (merged : List Text) (roles : List RoleData)
    → member action (merged_at resource merged roles) ≡ (
        member action merged
        || any (λ (role : RoleData). includes_action (role.permissions resource) action) roles)
unfolding merged_at
member-merged_at resource action merged [] = ground arith
member-merged_at resource action merged (role ∷ roles) = ground (
  arith,
  member-merged_at resource action (merge_actions merged (role.permissions resource)) roles,
  member-merge_actions action merged (role.permissions resource),
)

-- Reading the rows of readable roles succeeds, and keeps what they grant.
map?-to_role_data :
    (resource : Resource) (action : Text) (roles : List Role)
    → All IsReadable roles
    → (rows : List RoleData) × (map? to_role_data roles ≡ some rows)
      × (any (λ (row : RoleData). includes_action (row.permissions resource) action) rows
          ≡ any (role_grants resource action) roles)
unfolding map? to_role_data
map?-to_role_data resource action [] h = ([], refl, refl)
map?-to_role_data resource action (role ∷ roles) ((readable, known), h) =
    let (rows, read, same) = map?-to_role_data resource action roles h in
    go role.permissions role.environment_ids refl refl rows read same
  where
    go :
        (permissions : Option Permissions) (column : EnvironmentIds)
        → role.permissions ≡ permissions
        → role.environment_ids ≡ column
        → (rows : List RoleData) → map? to_role_data roles ≡ some rows
        → any (λ (row : RoleData). includes_action (row.permissions resource) action) rows
          ≡ any (role_grants resource action) roles
        → (rows : List RoleData) × (map? to_role_data (role ∷ roles) ≡ some rows)
          × (any (λ (row : RoleData). includes_action (row.permissions resource) action) rows
              ≡ any (role_grants resource action) (role ∷ roles))
    go none column p c rows read same = absurd (readable p)
    go (some permissions) null p c rows read same = (
      record { name = role.name; permissions = permissions; environment_ids = none } ∷ rows,
      ground (arith, p, c, read),
      ground (arith, p, same),
    )
    go (some permissions) empty_text p c rows read same = (
      record { name = role.name; permissions = permissions; environment_ids = none } ∷ rows,
      ground (arith, p, c, read),
      ground (arith, p, same),
    )
    go (some permissions) unreadable p c rows read same = absurd (ground (arith, c, known))
    go (some permissions) (ids env_ids) p c rows read same = (
      record { name = role.name; permissions = permissions; environment_ids = some env_ids } ∷ rows,
      ground (arith, p, c, read),
      ground (arith, p, same),
    )

-- Where the licence is for the enterprise edition, of a known user without the Admin role whose roles
-- can all be read: the check in an environment succeeds exactly when one of the user's roles both
-- applies to that environment and grants the action.
pub check_permission-environment :
    (db : Database) (user : AuthenticatedUser) (resource : Resource) (action : Text)
    (environment_id : ℕ)
    → member user.id db.user_ids ≡ true
    → user_has_admin_role db user.id ≡ false
    → All IsReadable (roles_of db user.id)
    → check_permission db true user resource action (some environment_id)
      ≡ some (
          any
            (λ (role : Role).
              applies environment_id role.environment_ids && role_grants resource action role)
            (roles_of db user.id))
unfolding check_permission get_user_permissions_for_environment get_user_roles_for_environment
    merge_permissions
check_permission-environment db user resource action environment_id known plain readable =
    let applying = λ (role : Role). applies environment_id role.environment_ids in
    let (rows, read, same) =
      map?-to_role_data resource action (keep applying (roles_of db user.id))
        (All-keep IsReadable applying (roles_of db user.id) readable) in
    rw (known, plain, read)
      (ap some (
        member-merged_at resource action [] rows
        ∙ same
        ∙ any-keep (role_grants resource action) applying (roles_of db user.id)))

cons?-none_head {ℓ} : {A : Type ℓ} (xs : Option (List A)) → cons? none xs ≡ none
cons?-none_head none = refl
cons?-none_head (some xs) = refl

cons?-none_tail {ℓ} : {A : Type ℓ} (x : Option A) → cons? x none ≡ none
cons?-none_tail none = refl
cons?-none_tail (some x) = refl

role_data-none :
    (name : Text) (permissions : Option Permissions) → role_data name permissions none ≡ none
role_data-none name none = refl
role_data-none name (some permissions) = refl

-- A column of environments that does not parse: everything applies, but the row cannot be read.
map?-none :
    (environment_id : ℕ) (roles : List Role)
    → any (λ (role : Role). is_unreadable role.environment_ids) roles ≡ true
    → map? to_role_data (keep (λ (role : Role). applies environment_id role.environment_ids) roles)
      ≡ none
unfolding map? to_role_data applies
map?-none environment_id [] h = cc
map?-none environment_id (role ∷ roles) h = ground (
  arith,
  map?-none environment_id roles,
  cons?-none_head
      (map? to_role_data (keep (λ (r : Role). applies environment_id r.environment_ids) roles)),
  cons?-none_tail (to_role_data role),
  role_data-none role.name role.permissions,
)

can_access_from-unreadable :
    (environment_id : ℕ) (roles : List Role)
    → any (λ (role : Role). is_unreadable role.environment_ids) roles ≡ true
    → can_access_from environment_id roles ≡ true
unfolding can_access_from
can_access_from-unreadable environment_id [] h = cc
can_access_from-unreadable environment_id (role ∷ roles) h =
    ground (arith, can_access_from-unreadable environment_id roles)

-- Where one of the user's roles has a column of environments whose text does not parse, the user is let
-- into every environment, but every permission check in an environment is rejected (of a known user
-- without the Admin role, in the enterprise edition): the text is parsed again without a guard.
pub check_permission-unreadable :
    (db : Database) (user : AuthenticatedUser) (resource : Resource) (action : Text)
    (environment_id : ℕ)
    → member user.id db.user_ids ≡ true
    → user_has_admin_role db user.id ≡ false
    → any (λ (role : Role). is_unreadable role.environment_ids) (roles_of db user.id) ≡ true
    → (user_can_access_environment db user.id environment_id ≡ true)
      × (check_permission db true user resource action (some environment_id) ≡ none)
unfolding user_can_access_environment check_permission get_user_permissions_for_environment
    get_user_roles_for_environment
check_permission-unreadable db user resource action environment_id known plain broken = (
  can_access_from-unreadable environment_id (roles_of db user.id) broken,
  rw (known, plain, map?-none environment_id (roles_of db user.id) broken),
)
