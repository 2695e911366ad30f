-- ===== src/HostPath.antt =====
-- src/lib/server/host-path.ts: from paths in Dockhand's own container to paths on the host. The module's
-- variables are a record; the files and the Docker API that the detection reads are arguments.
pub mod Paths
pub mod Mounts
pub mod Detect
pub mod Rewrite
pub mod MountsLaws
pub mod OwnIdLaws
pub mod DetectLaws
pub mod LineLaws
pub mod RewriteLaws
mod Tests
