-- ===== src/GitDeletions/Apply.antt =====
-- `applyFileDeletions`, over a file system that is a map from absolute paths to nodes. Whether a file
-- can be read or unlinked, and a directory removed, is part of the node: the system call may fail.
use sagedockhand.Common.{
  ltb, if◌then◌else◌, length, take, any, ◌==◌, nat_eq, text_eq, unique, ℕ, zero, suc, Bool, not,
  ◌&&◌, Option, none, some, List, [], ◌∷◌, ◌++◌,
}
use sagedockhand.Common.Text.{Text, codes, starts_with, last_index_of}
use sagedockhand.Common.Sort.{sort_by}
use sagedockhand.Common.JsMap.{JsMap, get, remove}
use sagedockhand.GitDeletions.Plan.{
  DeletionSkipReason, FileToDelete, DeletionSkip, is_safe_rel_path, is_load_bearing,
  locally_modified, load_bearing, invalid_path, already_absent, apply_failed,
}

pub data Node : Type 0 where
  file : Text → Bool → Bool → Node
  directory : Bool → Node
  other : Node

abbrev pub Fs : Type 0
Fs = JsMap Text Node

-- `resolve(root, relPath)` for an absolute `root` without trailing slash and a safe relative path.
unfoldable pub resolve_in : Text → Text → Text
resolve_in root rel = if root == b'/' ∷ [] then root ++ rel else root ++ b'/' ∷ rel

-- `dir.startsWith(root + sep)`
abbrev pub is_below : Text → Text → Bool
is_below root abs = starts_with abs (root ++ b'/' ∷ [])

-- `containedPath(root, relPath)`
unfoldable pub contained_path : Text → Text → Option Text
contained_path root rel =
    if not (is_safe_rel_path rel)
    then none
    else let abs = resolve_in root rel in
      if not (abs == root) && is_below root abs then some abs else none

-- `dirname(p)` of an absolute path without trailing slash
unfoldable pub dirname : Text → Text
dirname p = elim (last_index_of b'/' p) [
  | none ↦ codes "."
  | some i ↦ if i == 0 then b'/' ∷ [] else take i p
]

-- The loop that collects the parent directories: each round goes up one directory, and a path has no
-- more of them than code units.
unfoldable pub parent_dirs : ℕ → Text → Text → List Text
parent_dirs zero root dir = []
parent_dirs (suc fuel) root dir =
    let above = parent_dirs fuel root (dirname dir) in
    if not (dir == root) && is_below root dir then dir ∷ above else []

pub record DeletionApplyResult : Type 0 where
  pub deleted : List Text
  pub skipped : List DeletionSkip

-- What the body of the loop does with one file.
pub data Outcome : Type 0 where
  unlinked : List Text → Outcome
  skip : DeletionSkipReason → Outcome

-- Whether a directory holds an entry.
abbrev pub has_entry_below : Text → Fs → Bool
has_entry_below dir fs = any (λ (entry : Text × Node). is_below dir entry.0) fs

abbrev pub remove_directory : Text → Option Node → Fs → Fs
remove_directory dir (some (directory removable)) fs =
    if removable && not (has_entry_below dir fs) then remove dir fs else fs
remove_directory dir _ fs = fs

-- `rmdirSync(dir)`, whose failure is caught
unfoldable pub rmdir : Text → Fs → Fs
rmdir dir fs = remove_directory dir (get dir fs) fs

unfoldable pub rmdir_all : List Text → Fs → Fs
rmdir_all [] fs = fs
rmdir_all (dir ∷ dirs) fs = rmdir_all dirs (rmdir dir fs)

-- `b.length - a.length` is negative.
abbrev pub deeper : Text → Text → Bool
deeper a b = ltb (length b) (length a)

-- `deleted.push(path)` or `skipped.push({ path, reason })`, in front of what the later rounds push.
abbrev pub note_outcome : FileToDelete → Outcome → DeletionApplyResult → DeletionApplyResult
note_outcome entry (unlinked dirs) result = record result { deleted = entry.path ∷ result.deleted }
note_outcome entry (skip reason) result = record result {
  skipped = record { path = entry.path; reason = reason } ∷ result.skipped;
}

abbrev pub dirs_of : Outcome → List Text
dirs_of (unlinked dirs) = dirs
dirs_of (skip reason) = []

module _ (hash_content : Text → Text) where
  -- From `lstatSync` on.
  unfoldable pub unlink_if_unchanged : Text → Text → Text → Option Node → Fs → Fs × Outcome
  unlink_if_unchanged root abs hash none fs = (fs, skip already_absent)
  unlink_if_unchanged root abs hash (some (directory removable)) fs = (fs, skip locally_modified)
  unlink_if_unchanged root abs hash (some other) fs = (fs, skip locally_modified)
  unlink_if_unchanged root abs hash (some (file content readable removable)) fs =
      if not readable
      then (fs, skip apply_failed)
      else if not (hash_content content == hash)
      then (fs, skip locally_modified)
      else if not removable
      then (fs, skip apply_failed)
      else (remove abs fs, unlinked (parent_dirs (length abs) root (dirname abs)))

  abbrev pub apply_at : Text → FileToDelete → Option Text → Fs → Fs × Outcome
  apply_at root entry none fs = (fs, skip invalid_path)
  apply_at root entry (some abs) fs =
      if is_load_bearing entry.path
      then (fs, skip load_bearing)
      else unlink_if_unchanged root abs entry.hash (get abs fs) fs

  -- The body of the loop.
  unfoldable pub apply_one : Text → FileToDelete → Fs → Fs × Outcome
  apply_one root entry fs = apply_at root entry (contained_path root entry.path) fs

  -- The loop: the file system after it, its result, and the directories of the unlinked files.
  unfoldable pub apply_files : Text → List FileToDelete → Fs → Fs × DeletionApplyResult × List Text
  apply_files root [] fs = (fs, record { deleted = []; skipped = [] }, [])
  apply_files root (entry ∷ entries) fs =
      let (fs', outcome) = apply_one root entry fs in
      let (fs'', result, dirs) = apply_files root entries fs' in
      (fs'', note_outcome entry outcome result, dirs_of outcome ++ dirs)

  -- `applyFileDeletions(stackDir, files)`, `root` being the resolved directory
  unfoldable pub apply_file_deletions : Text → List FileToDelete → Fs → Fs × DeletionApplyResult
  apply_file_deletions root files fs =
      let (fs', result, dirs) = apply_files root files fs in
      (rmdir_all (sort_by deeper (unique dirs)) fs', result)
