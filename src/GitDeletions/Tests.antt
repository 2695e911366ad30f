-- ===== src/GitDeletions/Tests.antt =====
-- A stack directory, a manifest and a clone, and the theorems there.
use sagedockhand.Common.{
  length, keep, IsIn, ◌==◌, eq_refl, nat_eq, text_eq, member, ◌≡◌, refl, ◌↔◌, ◌⊎◌, true, false,
  some, List, [], ◌∷◌, ◌++◌, arith,
}
use sagedockhand.Common.Text.{Text, codes, split}
use sagedockhand.Common.JsMap.{JsMap, get, has, remove, IsDistinct, All-get}
use sagedockhand.GitDeletions.ParentDirs.{parent_dirs-fuel}
use sagedockhand.GitDeletions.SummaryLaws.{
  is_new, is_same, is_changed, build_sync_change_summary-counts,
}
use sagedockhand.GitDeletions.Apply.{
  Fs, resolve_in, contained_path, parent_dirs, unlink_if_unchanged, apply_one, apply_files,
  apply_file_deletions, file, directory,
}
use sagedockhand.GitDeletions.Containment.{
  IsAskedBy, IsStackDirectory, apply_file_deletions-Shrinks,
}
use sagedockhand.GitDeletions.Shrinks.{Shrinks}
use sagedockhand.GitDeletions.Outcomes.{local_file-survives}
use sagedockhand.GitDeletions.Summary.{
  is_interesting, build_sync_change_summary, count_of, added, updated, removed, skipped,
}
use sagedockhand.GitDeletions.Plan.{
  FileToDelete, is_safe_rel_path, basename, is_load_bearing, compute_deletions, build_next_manifest,
}
use sagedockhand.GitDeletions.PlanLaws.{
  IsDue, compute_deletions_iff, compute_deletions-build_next_manifest,
}

-- The hash of a file is its content here.
abbrev hash_content : Text → Text
hash_content content = content

abbrev root : Text
root = codes "/srv/web"

-- `a/old` is as it was written, `local` was changed, `compose.yml` is a core file.
abbrev fs : Fs
fs =
    (codes "/srv", directory false)
    ∷ (codes "/srv/web", directory true)
    ∷ (codes "/srv/web/a", directory true)
    ∷ (codes "/srv/web/a/old", file (codes "1") true true)
    ∷ (codes "/srv/web/local", file (codes "mine") true true)
    ∷ (codes "/srv/web/compose.yml", file (codes "3") true true)
    ∷ []

abbrev manifest_files : JsMap Text Text
manifest_files =
    (codes "a/old", codes "1")
    ∷ (codes "local", codes "2")
    ∷ (codes "compose.yml", codes "3")
    ∷ (codes "kept", codes "4")
    ∷ []

abbrev new_files : JsMap Text Text
new_files = (codes "kept", codes "5") ∷ (codes "fresh", codes "6") ∷ []

abbrev planned : List FileToDelete
planned =
    record { path = codes "a/old"; hash = codes "1" }
    ∷ record { path = codes "local"; hash = codes "2" }
    ∷ []

planned_eq : (compute_deletions manifest_files new_files).to_delete ≡ planned
unfolding compute_deletions has is_safe_rel_path is_load_bearing basename split member
planned_eq = refl

applied_eq : (apply_file_deletions hash_content root planned fs).1.deleted ≡ codes "a/old" ∷ []
unfolding apply_file_deletions apply_files apply_one contained_path is_load_bearing is_safe_rel_path
    unlink_if_unchanged get resolve_in basename split member remove
applied_eq = refl

manifest_files-IsDistinct : IsDistinct manifest_files
unfolding get
manifest_files-IsDistinct = (refl, (refl, (refl, (refl, tt))))

new_files-IsDistinct : IsDistinct new_files
unfolding get
new_files-IsDistinct = (refl, (refl, tt))

-- No recorded hash is that of the changed file.
is_local : (path : Text) → ¬ (get path manifest_files ≡ some (codes "mine"))
is_local path e =
    let differs =
      All-get (λ (hash : Text). (hash == codes "mine") ≡ false) path (codes "mine") manifest_files
        (refl, (refl, (refl, (refl, tt)))) e in
    absurd (ground (arith, differs, eq_refl (codes "mine")))

compute_deletions_iff_example :
    IsIn
      (record { path = codes "local"; hash = codes "2" })
      (compute_deletions manifest_files new_files).to_delete
    ↔ IsDue new_files manifest_files (record { path = codes "local"; hash = codes "2" })
compute_deletions_iff_example =
    compute_deletions_iff (record { path = codes "local"; hash = codes "2" }) manifest_files
      new_files manifest_files-IsDistinct

compute_deletions-build_next_manifest_example :
    compute_deletions (build_next_manifest (codes "c0ffee") new_files).files new_files
    ≡ record { to_delete = []; skipped = [] }
compute_deletions-build_next_manifest_example =
    compute_deletions-build_next_manifest (codes "c0ffee") new_files new_files-IsDistinct

apply_file_deletions-Shrinks_example :
    Shrinks
      (λ path node.
        IsAskedBy hash_content root planned path node
        ⊎ IsStackDirectory hash_content root path node)
      fs
      (apply_file_deletions hash_content root planned fs).0
apply_file_deletions-Shrinks_example = apply_file_deletions-Shrinks hash_content root planned fs

found : get (codes "/srv/web/local") fs ≡ some (file (codes "mine") true true)
unfolding get
found = refl

local_file-survives_example :
    get
      (codes "/srv/web/local")
      (apply_file_deletions hash_content root
        (compute_deletions manifest_files new_files).to_delete
        fs).0
    ≡ some (file (codes "mine") true true)
local_file-survives_example =
    local_file-survives hash_content root (codes "/srv/web/local") (codes "mine") true true
      manifest_files new_files fs manifest_files-IsDistinct found
      (λ path inside gone. is_local path)

parent_dirs-fuel_example :
    parent_dirs 14 root (codes "/srv/web/a") ≡ parent_dirs 100 root (codes "/srv/web/a")
parent_dirs-fuel_example =
    parent_dirs-fuel root 14 100 (codes "/srv/web/a") (omega arith) (omega arith) (omega arith)

build_sync_change_summary-counts_example :
    let summary =
      build_sync_change_summary manifest_files new_files
        (apply_file_deletions hash_content root planned fs).1
        (compute_deletions manifest_files new_files).skipped in
    (count_of added summary.changes ≡ length (keep (is_new manifest_files) new_files))
    × (count_of updated summary.changes ≡ length (keep (is_changed manifest_files) new_files))
    × (summary.unchanged_count ≡ length (keep (is_same manifest_files) new_files))
    × (count_of removed summary.changes
        ≡ length (apply_file_deletions hash_content root planned fs).1.deleted)
    × (count_of skipped summary.changes
        ≡ length (
            keep is_interesting (
              (compute_deletions manifest_files new_files).skipped
              ++ (apply_file_deletions hash_content root planned fs).1.skipped)))
build_sync_change_summary-counts_example =
    build_sync_change_summary-counts manifest_files new_files
      (apply_file_deletions hash_content root planned fs).1
      (compute_deletions manifest_files new_files).skipped
