-- ===== src/GitDeletions.antt =====
-- src/lib/server/git-deletions.ts: deleting from a stack's directory the files that its repository
-- deleted. Paths and hashes are texts; a dictionary of files is the list of its entries, in the order
-- in which `Object.entries` gives them. SHA-256 is the argument `hash_content`.
pub mod Plan
pub mod Apply
pub mod Summary
pub mod PlanLaws
pub mod Shrinks
pub mod Containment
pub mod ParentDirs
pub mod Outcomes
pub mod SummaryLaws
mod Tests
