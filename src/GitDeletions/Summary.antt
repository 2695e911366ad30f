-- ===== src/GitDeletions/Summary.antt =====
-- `buildSyncChangeSummary` and the counts of `formatChangeTable`.
use sagedockhand.Common.{
  if◌then◌else◌, keep, ◌==◌, nat_eq, text_eq, ℕ, suc, Bool, true, false, not, Option, none, some,
  List, [], ◌∷◌, ◌++◌, map,
}
use sagedockhand.Common.Text.{Text}
use sagedockhand.Common.JsMap.{JsMap, get}
use sagedockhand.GitDeletions.Apply.{DeletionApplyResult}
use sagedockhand.GitDeletions.Plan.{DeletionSkipReason, DeletionSkip, already_absent}

pub data ChangeStatus : Type 0 where
  added updated removed skipped : ChangeStatus

pub record SyncFileChange : Type 0 where
  pub path : Text
  pub status : ChangeStatus
  pub reason : Option DeletionSkipReason

pub record SyncChangeSummary : Type 0 where
  pub changes : List SyncFileChange
  pub unchanged_count : ℕ

abbrev pub change_of : Text → ChangeStatus → SyncFileChange
change_of path status = record { path = path; status = status; reason = none }

-- The status of a written file whose previous hash is `old`; `none` is unchanged.
abbrev pub written_status : Option Text → Text → Option ChangeStatus
written_status none hash = some added
written_status (some old) hash = if not (old == hash) then some updated else none

abbrev pub note_written : Text → Option ChangeStatus → SyncChangeSummary → SyncChangeSummary
note_written path none summary = record summary { unchanged_count = suc summary.unchanged_count }
note_written path (some status) summary = record summary {
  changes = change_of path status ∷ summary.changes;
}

-- The loop over `Object.entries(newFiles)`, its own part of the changes in front of `later`.
unfoldable pub written_changes :
    JsMap Text Text → JsMap Text Text → List SyncFileChange → SyncChangeSummary
written_changes previous_files [] later = record { changes = later; unchanged_count = 0 }
written_changes previous_files ((path, hash) ∷ rest) later =
    note_written path (written_status (get path previous_files) hash)
      (written_changes previous_files rest later)

abbrev pub is_notable : DeletionSkipReason → Bool
is_notable already_absent = false
is_notable reason = true

abbrev pub is_interesting : DeletionSkip → Bool
is_interesting gap = is_notable gap.reason

abbrev pub removed_change : Text → SyncFileChange
removed_change path = change_of path removed

-- The message `skipReasonMessage(skip.reason)` stands as the reason itself.
abbrev pub skipped_change : DeletionSkip → SyncFileChange
skipped_change gap = record { path = gap.path; status = skipped; reason = some gap.reason }

-- `buildSyncChangeSummary(previousFiles, newFiles, applyResult, planSkipped)`
unfoldable pub build_sync_change_summary :
    JsMap Text Text → JsMap Text Text → DeletionApplyResult → List DeletionSkip → SyncChangeSummary
build_sync_change_summary previous_files new_files apply_result plan_skipped =
    written_changes previous_files new_files (
      map removed_change apply_result.deleted
      ++ map skipped_change (keep is_interesting (plan_skipped ++ apply_result.skipped)))

abbrev pub same_status : ChangeStatus → ChangeStatus → Bool
same_status added added = true
same_status updated updated = true
same_status removed removed = true
same_status skipped skipped = true
same_status _ _ = false

-- `counts[status]` after the loop of `formatChangeTable`.
unfoldable pub count_of : ChangeStatus → List SyncFileChange → ℕ
count_of status [] = 0
count_of status (change ∷ changes) =
    let rest = count_of status changes in
    if same_status change.status status then suc rest else rest
