-- ===== src/AccessControl/Environments.antt =====
-- The three queries about environments agree with one another.
use sagedockhand.Common.{
  any, nat_eq, text_eq, member, member-append, member-unique, ℕ, ◌≡◌, refl, sym, Bool, true, ◌||◌,
  List, [], ◌∷◌, ◌++◌, arith,
}
use sagedockhand.AccessControl.Roles.{
  Role, Database, roles_of, Access, accessible_from, get_user_accessible_environments, applies,
  can_access_from, user_can_access_environment, every_environment, only,
}

-- Whether an answer of `getUserAccessibleEnvironments` holds an environment.
abbrev pub admits : Access → ℕ → Bool
admits every_environment environment_id = true
admits (only env_ids) environment_id = member environment_id env_ids

can_access_from-admits :
    (environment_id : ℕ) (found : List ℕ) (roles : List Role)
    → admits (accessible_from found roles) environment_id
      ≡ (member environment_id found || can_access_from environment_id roles)
unfolding accessible_from can_access_from
can_access_from-admits environment_id found [] = ground (arith, member-unique environment_id found)
can_access_from-admits environment_id found (role ∷ roles) = grind (
  arith,
  λ (env_ids : List ℕ). can_access_from-admits environment_id (found ++ env_ids) roles,
  member-append,
)

-- An environment is among those that `getUserAccessibleEnvironments` returns (all of them, where it
-- returns null) exactly when `userCanAccessEnvironment` lets the user in.
pub user_can_access_environment-eq :
    (db : Database) (user_id environment_id : ℕ)
    → user_can_access_environment db user_id environment_id
      ≡ admits (get_user_accessible_environments db user_id) environment_id
unfolding user_can_access_environment get_user_accessible_environments
user_can_access_environment-eq db user_id environment_id =
    sym (can_access_from-admits environment_id [] (roles_of db user_id))

can_access_from-any :
    (environment_id : ℕ) (roles : List Role)
    → can_access_from environment_id roles
      ≡ any (λ (role : Role). applies environment_id role.environment_ids) roles
unfolding can_access_from applies
can_access_from-any environment_id [] = refl
can_access_from-any environment_id (role ∷ roles) =
    ground (arith, can_access_from-any environment_id roles)
