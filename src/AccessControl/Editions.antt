-- ===== src/AccessControl/Editions.antt =====
-- Who may do what, over all methods of the authorization context.
use sagedockhand.Common.{
  Bool-cases, nat_eq, text_eq, member, ℕ, ◌≡◌, refl, inl, inr, Bool, true, false, Option, none,
  some, [], arith,
}
use sagedockhand.Common.Text.{Text}
use sagedockhand.AccessControl.Context.{
  AuthorizationContext, is_authenticated, authorize, can, environment_open_to,
  can_access_environment, environments_open_to, get_accessible_environment_ids, can_manage_users,
  can_manage_settings, can_view_audit_log,
}
use sagedockhand.AccessControl.Roles.{
  Resource, Database, user_has_admin_role, Access, every_environment, only,
}
use sagedockhand.AccessControl.Permission.{AuthenticatedUser, check_permission}
use sagedockhand.AccessControl.Environments.{admits, user_can_access_environment-eq}

-- The answers of the context's methods, with those of `can` and `canAccessEnvironment` at every argument.
pub record Answers (db : Database) (ctx : AuthorizationContext) (allowed : Bool)
    (open_environments : Access) (audit : Bool) : Type 0 where
  pub actions :
      (resource : Resource) (action : Text) (environment_id : Option ℕ)
      → can db ctx resource action environment_id ≡ some allowed
  pub environments : (environment_id : ℕ) → can_access_environment db ctx environment_id ≡ allowed
  pub environment_ids : get_accessible_environment_ids db ctx ≡ open_environments
  pub users : can_manage_users db ctx ≡ some allowed
  pub settings : can_manage_settings db ctx ≡ some allowed
  pub audit_log : can_view_audit_log db ctx ≡ some audit

abbrev pub all_or_none : Bool → Access
all_or_none true = every_environment
all_or_none false = only []

-- In the free edition, with authentication on, a request may do everything but read the audit log if it
-- is authenticated, and nothing if it is not.
pub free_edition :
    (db : Database) (context_user session_user : Option AuthenticatedUser)
    → let ctx = authorize db true false context_user session_user in
      Answers db ctx (is_authenticated ctx) (all_or_none (is_authenticated ctx)) false
unfolding authorize can can_access_environment get_accessible_environment_ids can_manage_users
    can_manage_settings can_view_audit_log check_permission
free_edition db context_user session_user = record {
  actions = λ resource action environment_id. ground arith;
  environments = λ environment_id. ground arith;
  environment_ids = ground arith;
  users = ground arith;
  settings = ground arith;
  audit_log = refl;
}

-- With authentication off everything is allowed, in either edition, except that only the enterprise
-- edition has an audit log.
pub auth_disabled :
    (db : Database) (enterprise : Bool) (context_user session_user : Option AuthenticatedUser)
    → Answers db
        (authorize db false enterprise context_user session_user)
        true
        every_environment
        enterprise
unfolding authorize can can_access_environment get_accessible_environment_ids can_manage_users
    can_manage_settings can_view_audit_log
auth_disabled db enterprise context_user session_user = record {
  actions = λ resource action environment_id. refl;
  environments = λ environment_id. refl;
  environment_ids = refl;
  users = refl;
  settings = refl;
  audit_log = ground arith;
}

-- In the enterprise edition, with authentication on, a user with the Admin role may do everything,
-- whatever the session says.
pub enterprise_admin :
    (db : Database) (user : AuthenticatedUser) (session_user : Option AuthenticatedUser)
    → user_has_admin_role db user.id ≡ true
    → Answers db (authorize db true true (some user) session_user) true every_environment true
unfolding authorize can can_access_environment get_accessible_environment_ids can_manage_users
    can_manage_settings can_view_audit_log check_permission
enterprise_admin db user session_user admin = record {
  actions = λ resource action environment_id. ground arith;
  environments = λ environment_id. ground arith;
  environment_ids = ground arith;
  users = ground arith;
  settings = ground arith;
  audit_log = ground arith;
}

-- In the enterprise edition, with authentication on, a request without a user may do nothing.
pub enterprise_anonymous :
    (db : Database) → Answers db (authorize db true true none none) false (only []) false
unfolding authorize can can_access_environment get_accessible_environment_ids can_manage_users
    can_manage_settings can_view_audit_log
enterprise_anonymous db = record {
  actions = λ resource action environment_id. refl;
  environments = λ environment_id. refl;
  environment_ids = refl;
  users = refl;
  settings = refl;
  audit_log = refl;
}

environment_open_to-admits :
    (db : Database) (ctx : AuthorizationContext) (user : Option AuthenticatedUser)
    (environment_id : ℕ)
    → environment_open_to db ctx user environment_id
      ≡ admits (environments_open_to db ctx user) environment_id
unfolding member
environment_open_to-admits db ctx none environment_id = refl
environment_open_to-admits db ctx (some user) environment_id = elim (Bool-cases ctx.is_admin) [
  | inl admin ↦ rw admin
  | inr plain ↦ rw plain (elim (Bool-cases ctx.is_enterprise) [
    | inl enterprise ↦ rw enterprise (user_can_access_environment-eq db user.id environment_id)
    | inr free ↦ rw free
  ])
]

-- Of any context, the list of environments and the test of one environment agree.
pub can_access_environment-eq :
    (db : Database) (ctx : AuthorizationContext) (environment_id : ℕ)
    → can_access_environment db ctx environment_id
      ≡ admits (get_accessible_environment_ids db ctx) environment_id
unfolding can_access_environment get_accessible_environment_ids
can_access_environment-eq db ctx environment_id = elim (Bool-cases ctx.auth_enabled) [
  | inl enabled ↦ rw enabled (environment_open_to-admits db ctx ctx.user environment_id)
  | inr disabled ↦ rw disabled
]
