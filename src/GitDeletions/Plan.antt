-- ===== src/GitDeletions/Plan.antt =====
-- The manifest, the safety of paths, and which files are to be deleted.
use sagedockhand.Common.{
  if◌then◌else◌, length, drop, every, ◌==◌, nat_eq, text_eq, member, suc, Bool, false, not, ◌&&◌,
  ◌||◌, Option, none, some, List, [], ◌∷◌,
}
use sagedockhand.Common.Text.{Text, codes, starts_with, last_index_of, contains, split}
use sagedockhand.Common.JsMap.{JsMap, has}

pub data DeletionSkipReason : Type 0 where
  locally_modified load_bearing invalid_path already_absent agent_no_support apply_failed :
      DeletionSkipReason

pub record FileToDelete : Type 0 where
  pub path : Text
  pub hash : Text

pub record DeletionSkip : Type 0 where
  pub path : Text
  pub reason : DeletionSkipReason

pub record DeletionPlan : Type 0 where
  pub to_delete : List FileToDelete
  pub skipped : List DeletionSkip

pub record SyncManifest : Type 0 where
  pub commit : Option Text
  pub files : JsMap Text Text

abbrev pub load_bearing_files : List Text
load_bearing_files =
    codes "docker-compose.yml"
    ∷ codes "docker-compose.yaml"
    ∷ codes "compose.yml"
    ∷ codes "compose.yaml"
    ∷ codes ".env"
    ∷ []

-- `normalizeSkipReason(reason)`: the reasons by name, anything else failed to apply.
unfoldable pub normalize_skip_reason : Text → DeletionSkipReason
normalize_skip_reason reason =
    if reason == codes "locally-modified"
    then locally_modified
    else if reason == codes "load-bearing"
    then load_bearing
    else if reason == codes "invalid-path"
    then invalid_path
    else if reason == codes "already-absent"
    then already_absent
    else if reason == codes "agent-no-support"
    then agent_no_support
    else apply_failed

-- `isAbsolute(p)`
abbrev pub is_absolute : Text → Bool
is_absolute p = starts_with p (b'/' ∷ [])

abbrev pub is_plain_segment : Text → Bool
is_plain_segment s = not (s == []) && not (s == codes ".") && not (s == codes "..")

-- `isSafeRelPath(p)`
unfoldable pub is_safe_rel_path : Text → Bool
is_safe_rel_path p =
    if (p == []) || is_absolute p || contains 92 p
    then false
    else every is_plain_segment (split b'/' p)

-- `basename(p)` of a path that does not end in a slash
unfoldable pub basename : Text → Text
basename p = elim (last_index_of b'/' p) [ none ↦ p | some i ↦ drop (suc i) p ]

-- `LOAD_BEARING_FILES.has(basename(path))`
unfoldable pub is_load_bearing : Text → Bool
is_load_bearing path = member (basename path) load_bearing_files

-- What `deletionSafetyCheck` may answer; `none` below is null.
pub data Unsafe : Type 0 where
  empty_clone compose_missing : Unsafe

-- `composeFileName && !(composeFileName in newFiles)`
unfoldable pub lacks_compose : Option Text → JsMap Text Text → Bool
lacks_compose none new_files = false
lacks_compose (some name) new_files = not (name == []) && not (has name new_files)

-- `deletionSafetyCheck(manifestFiles, newFiles, composeFileName)`
unfoldable pub deletion_safety_check :
    JsMap Text Text → JsMap Text Text → Option Text → Option Unsafe
deletion_safety_check manifest_files new_files compose_file_name =
    if length manifest_files == 0
    then none
    else if length new_files == 0
    then some empty_clone
    else if lacks_compose compose_file_name new_files
    then some compose_missing
    else none

abbrev pub plan_delete : FileToDelete → DeletionPlan → DeletionPlan
plan_delete entry plan = record plan { to_delete = entry ∷ plan.to_delete }

abbrev pub plan_skip : DeletionSkip → DeletionPlan → DeletionPlan
plan_skip gap plan = record plan { skipped = gap ∷ plan.skipped }

-- `computeDeletions(manifestFiles, newFiles)`: the loop, which pushes in the order of the entries.
unfoldable pub compute_deletions : JsMap Text Text → JsMap Text Text → DeletionPlan
compute_deletions [] new_files = record { to_delete = []; skipped = [] }
compute_deletions ((path, hash) ∷ rest) new_files =
    let plan = compute_deletions rest new_files in
    if has path new_files
    then plan
    else if not (is_safe_rel_path path)
    then plan_skip (record { path = path; reason = invalid_path }) plan
    else if is_load_bearing path
    then plan_skip (record { path = path; reason = load_bearing }) plan
    else plan_delete (record { path = path; hash = hash }) plan

-- `buildNextManifest(newCommit, newFiles)`
unfoldable pub build_next_manifest : Text → JsMap Text Text → SyncManifest
build_next_manifest new_commit new_files = record { commit = some new_commit; files = new_files }
