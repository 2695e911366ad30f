-- ===== src/GitDeletions/SummaryLaws.antt =====
-- What the summary of a sync counts.
use sagedockhand.Common.{
  if◌then◌else◌, Bool-cases, Option-cases, length, keep, ◌==◌, nat_eq, text_eq, ◌+◌, ◌≡◌, refl, inl,
  inr, Bool, false, not, none, some, List, [], ◌∷◌, ◌++◌, map, arith,
}
use sagedockhand.Common.Text.{Text}
use sagedockhand.Common.JsMap.{JsMap, get, has, has_iff}
use sagedockhand.GitDeletions.Apply.{DeletionApplyResult}
use sagedockhand.GitDeletions.Summary.{
  ChangeStatus, SyncFileChange, SyncChangeSummary, written_changes, is_interesting, removed_change,
  skipped_change, build_sync_change_summary, same_status, count_of, added, updated, removed,
  skipped,
}
use sagedockhand.GitDeletions.Plan.{DeletionSkip}

count_of-append :
    (status : ChangeStatus) (xs ys : List SyncFileChange)
    → count_of status (xs ++ ys) ≡ count_of status xs + count_of status ys
unfolding count_of
count_of-append status [] ys = omega arith
count_of-append status (x ∷ xs) ys = ground (arith, count_of-append status xs ys)

count_of-removed :
    (status : ChangeStatus) (paths : List Text)
    → count_of status (map removed_change paths)
      ≡ (if same_status removed status then length paths else 0)
unfolding count_of
count_of-removed status [] = ground arith
count_of-removed status (path ∷ paths) = ground (arith, count_of-removed status paths)

count_of-skipped :
    (status : ChangeStatus) (gaps : List DeletionSkip)
    → count_of status (map skipped_change gaps)
      ≡ (if same_status skipped status then length gaps else 0)
unfolding count_of
count_of-skipped status [] = ground arith
count_of-skipped status (gap ∷ gaps) = ground (arith, count_of-skipped status gaps)

-- Whether an entry of the clone has a path that the manifest lacks, has with another hash, has with the
-- same hash.
abbrev pub is_new : JsMap Text Text → Text × Text → Bool
is_new previous_files (path, hash) = not (has path previous_files)

abbrev pub is_same : JsMap Text Text → Text × Text → Bool
is_same previous_files (path, hash) = elim (get path previous_files) [
  | none ↦ false
  | some old ↦ old == hash
]

abbrev pub is_changed : JsMap Text Text → Text × Text → Bool
is_changed previous_files (path, hash) = elim (get path previous_files) [
  | none ↦ false
  | some old ↦ not (old == hash)
]

module _ (previous_files : JsMap Text Text) (later : List SyncFileChange) where
  -- The counts of the loop over the clone.
  record IsCounted (new_files : JsMap Text Text) (summary : SyncChangeSummary) : Type 0 where
    added_files :
        count_of added summary.changes
        ≡ length (keep (is_new previous_files) new_files) + count_of added later
    updated_files :
        count_of updated summary.changes
        ≡ length (keep (is_changed previous_files) new_files) + count_of updated later
    removed_files : count_of removed summary.changes ≡ count_of removed later
    skipped_files : count_of skipped summary.changes ≡ count_of skipped later
    unchanged_files : summary.unchanged_count ≡ length (keep (is_same previous_files) new_files)

  written_changes-IsCounted :
      (new_files : JsMap Text Text)
      → IsCounted new_files (written_changes previous_files new_files later)
  unfolding written_changes count_of
  written_changes-IsCounted [] = record {
    added_files = omega arith;
    updated_files = omega arith;
    removed_files = refl;
    skipped_files = refl;
    unchanged_files = refl;
  }
  written_changes-IsCounted ((path, hash) ∷ rest) =
      let h = written_changes-IsCounted rest in
      elim (Option-cases (get path previous_files)) [
        | inl fresh ↦ record {
          added_files = ground (arith, h.added_files, fresh, has_iff path previous_files);
          updated_files = ground (arith, h.updated_files, fresh, has_iff path previous_files);
          removed_files = ground (arith, h.removed_files, fresh, has_iff path previous_files);
          skipped_files = ground (arith, h.skipped_files, fresh, has_iff path previous_files);
          unchanged_files = ground (arith, h.unchanged_files, fresh, has_iff path previous_files);
        }
        | inr (old, found) ↦ elim (Bool-cases (old == hash)) [
          | inl same ↦ record {
            added_files = ground (arith, h.added_files, found, same, has_iff path previous_files);
            updated_files =
                ground (arith, h.updated_files, found, same, has_iff path previous_files);
            removed_files =
                ground (arith, h.removed_files, found, same, has_iff path previous_files);
            skipped_files =
                ground (arith, h.skipped_files, found, same, has_iff path previous_files);
            unchanged_files =
                ground (arith, h.unchanged_files, found, same, has_iff path previous_files);
          }
          | inr differ ↦ record {
            added_files = ground (arith, h.added_files, found, differ, has_iff path previous_files);
            updated_files =
                ground (arith, h.updated_files, found, differ, has_iff path previous_files);
            removed_files =
                ground (arith, h.removed_files, found, differ, has_iff path previous_files);
            skipped_files =
                ground (arith, h.skipped_files, found, differ, has_iff path previous_files);
            unchanged_files =
                ground (arith, h.unchanged_files, found, differ, has_iff path previous_files);
          }
        ]
      ]

-- The summary counts each file of the clone once: as added when the manifest lacks it, as updated when it
-- has another hash there, as unchanged when it has the same; it counts as removed the files that were
-- deleted, and as skipped the deletions that were skipped for another reason than an absent file.
pub build_sync_change_summary-counts :
    (previous_files new_files : JsMap Text Text) (apply_result : DeletionApplyResult)
    → (plan_skipped : List DeletionSkip)
    → let summary = build_sync_change_summary previous_files new_files apply_result plan_skipped in
      (count_of added summary.changes ≡ length (keep (is_new previous_files) new_files))
      × (count_of updated summary.changes ≡ length (keep (is_changed previous_files) new_files))
      × (summary.unchanged_count ≡ length (keep (is_same previous_files) new_files))
      × (count_of removed summary.changes ≡ length apply_result.deleted)
      × (count_of skipped summary.changes
          ≡ length (keep is_interesting (plan_skipped ++ apply_result.skipped)))
unfolding build_sync_change_summary
build_sync_change_summary-counts previous_files new_files apply_result plan_skipped =
    let gaps = keep is_interesting (plan_skipped ++ apply_result.skipped) in
    let h =
      written_changes-IsCounted previous_files
        (map removed_change apply_result.deleted ++ map skipped_change gaps) new_files in
    let split = λ (status : ChangeStatus).
      count_of-append status (map removed_change apply_result.deleted) (map skipped_change gaps) in
    let one = λ (status : ChangeStatus). count_of-removed status apply_result.deleted in
    let two = λ (status : ChangeStatus). count_of-skipped status gaps in
    (
      ground (arith, h.added_files, split added, one added, two added),
      ground (arith, h.updated_files, split updated, one updated, two updated),
      h.unchanged_files,
      ground (arith, h.removed_files, split removed, one removed, two removed),
      ground (arith, h.skipped_files, split skipped, one skipped, two skipped),
    )
