-- ===== src/UpdateUtils.antt =====
-- src/lib/server/scheduler/tasks/update-utils.ts: image references, the vulnerability gate of an update,
-- and the containers that Dockhand does not update.
pub mod ImageName
pub mod Gate
pub mod SystemContainers
pub mod ImageNameLaws
pub mod GateLaws
mod Tests
