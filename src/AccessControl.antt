-- ===== src/AccessControl.antt =====
-- Roles and permissions: the queries of src/lib/server/db.ts on roles, the permission checks of
-- src/lib/server/auth.ts and the authorization context of src/lib/server/authorize.ts.
-- A table is the list of its rows. `none` as the result of a function is a rejected promise. The
-- licence does not change during a request: `enterprise` is the answer of `isEnterprise()`.
pub mod Roles
pub mod Permission
pub mod Context
pub mod Environments
pub mod Grants
pub mod Editions
mod Tests
