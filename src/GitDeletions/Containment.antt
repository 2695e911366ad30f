-- ===== src/GitDeletions/Containment.antt =====
-- The applier touches nothing but what it was asked to delete: what can differ in the file system after it.
use sagedockhand.Common.{
  Bool-cases, Option-cases, length, All, All-append, IsIn, ◌==◌, eq_iff, nat_eq, text_eq, unique,
  All-unique, ℕ, zero, suc, ◌≡◌, refl, ◌⊎◌, inl, inr, Bool, true, false, not, ◌&&◌, Option, none,
  some, List, [], ◌∷◌, arith,
}
use sagedockhand.Common.Text.{Text}
use sagedockhand.Common.Sort.{sort_by, sort_by-All}
use sagedockhand.Common.JsMap.{get}
use sagedockhand.GitDeletions.Apply.{
  Node, Fs, is_below, contained_path, dirname, parent_dirs, has_entry_below, remove_directory,
  rmdir, rmdir_all, deeper, dirs_of, unlink_if_unchanged, apply_one, apply_files,
  apply_file_deletions, file, directory, other,
}
use sagedockhand.GitDeletions.Shrinks.{
  Shrinks, Shrinks-refl, Shrinks-trans, Shrinks-remove, Shrinks-mono, contained_path-is_below,
}
use sagedockhand.GitDeletions.Plan.{FileToDelete, is_load_bearing}

module _ (hash_content : Text → Text) (root : Text) where
  -- The file at `path` is the one that the list asks to delete: it is below the root, is no core stack
  -- file, and its content still has the recorded hash.
  pub record IsAsked (entry : FileToDelete) (path : Text) (node : Node) : Type 0 where
    pub contained : contained_path root entry.path ≡ some path
    pub below : is_below root path ≡ true
    pub light : is_load_bearing entry.path ≡ false
    pub content : Text
    pub readable : Bool
    pub removable : Bool
    pub is_file : node ≡ file content readable removable
    pub unchanged : hash_content content ≡ entry.hash

  abbrev pub IsAskedBy : List FileToDelete → Text → Node → Type 0
  IsAskedBy entries path node =
      (entry : FileToDelete) × IsIn entry entries × IsAsked entry path node

  unlink-Shrinks :
      (entry : FileToDelete) (abs : Text) (node : Option Node) (fs : Fs)
      → contained_path root entry.path ≡ some abs
      → is_load_bearing entry.path ≡ false
      → get abs fs ≡ node
      → Shrinks (IsAsked entry) fs (unlink_if_unchanged hash_content root abs entry.hash node fs).0
  unfolding unlink_if_unchanged
  unlink-Shrinks entry abs none fs c l found = Shrinks-refl fs
  unlink-Shrinks entry abs (some (directory removable)) fs c l found = Shrinks-refl fs
  unlink-Shrinks entry abs (some other) fs c l found = Shrinks-refl fs
  unlink-Shrinks entry abs (some (file content readable removable)) fs c l found =
      elim (Bool-cases readable) [
        | inr locked ↦ rw locked (Shrinks-refl fs)
        | inl open_file ↦ rw open_file (elim (Bool-cases (hash_content content == entry.hash)) [
          | inr changed ↦ rw changed (Shrinks-refl fs)
          | inl same ↦ rw same (elim (Bool-cases removable) [
            | inr held ↦ rw held (Shrinks-refl fs)
            | inl free ↦ rw free (
                Shrinks-remove abs (file content readable removable) fs found (record {
                  contained = c;
                  below = contained_path-is_below root entry.path abs c;
                  light = l;
                  content = content;
                  readable = readable;
                  removable = removable;
                  is_file = refl;
                  unchanged = (eq_iff _ _).0 same;
                }))
          ])
        ])
      ]

  apply_one-Shrinks :
      (entry : FileToDelete) (fs : Fs)
      → Shrinks (IsAsked entry) fs (apply_one hash_content root entry fs).0
  unfolding apply_one
  apply_one-Shrinks entry fs = elim (Option-cases (contained_path root entry.path)) [
    | inl outside ↦ rw outside (Shrinks-refl fs)
    | inr (abs, inside) ↦ rw inside (elim (Bool-cases (is_load_bearing entry.path)) [
      | inl core ↦ rw core (Shrinks-refl fs)
      | inr light ↦ rw light (unlink-Shrinks entry abs (get abs fs) fs inside light refl)
    ])
  ]

  pub apply_files-Shrinks :
      (entries : List FileToDelete) (fs : Fs)
      → Shrinks (IsAskedBy entries) fs (apply_files hash_content root entries fs).0
  unfolding apply_files
  apply_files-Shrinks [] fs = Shrinks-refl fs
  apply_files-Shrinks (entry ∷ entries) fs =
      let fs' = (apply_one hash_content root entry fs).0 in
      Shrinks-trans fs fs' (apply_files hash_content root entries fs').0
        (Shrinks-mono fs fs' (λ path node asked. (entry, inl refl, asked))
          (apply_one-Shrinks entry fs))
        (Shrinks-mono fs' (apply_files hash_content root entries fs').0
          (λ path node (e, among, asked). (e, inr among, asked)) (apply_files-Shrinks entries fs'))

  -- A directory below the root.
  abbrev pub IsStackDirectory : Text → Node → Type 0
  IsStackDirectory path node =
      (is_below root path ≡ true) × ((removable : Bool) × (node ≡ directory removable))

  remove_directory-Shrinks :
      (dir : Text) (node : Option Node) (fs : Fs)
      → is_below root dir ≡ true
      → get dir fs ≡ node
      → Shrinks IsStackDirectory fs (remove_directory dir node fs)
  remove_directory-Shrinks dir none fs below found = Shrinks-refl fs
  remove_directory-Shrinks dir (some (file content readable removable)) fs below found =
      Shrinks-refl fs
  remove_directory-Shrinks dir (some other) fs below found = Shrinks-refl fs
  remove_directory-Shrinks dir (some (directory removable)) fs below found =
      elim (Bool-cases (removable && not (has_entry_below dir fs))) [
        | inl empty ↦
            rw empty (Shrinks-remove dir (directory removable) fs found (below, (removable, refl)))
        | inr full ↦ rw full (Shrinks-refl fs)
      ]

  pub rmdir_all-Shrinks :
      (dirs : List Text) (fs : Fs)
      → All (λ dir. is_below root dir ≡ true) dirs
      → Shrinks IsStackDirectory fs (rmdir_all dirs fs)
  unfolding rmdir_all rmdir
  rmdir_all-Shrinks [] fs h = Shrinks-refl fs
  rmdir_all-Shrinks (dir ∷ dirs) fs (below, h) =
      Shrinks-trans fs (rmdir dir fs) (rmdir_all dirs (rmdir dir fs))
        (remove_directory-Shrinks dir (get dir fs) fs below refl)
        (rmdir_all-Shrinks dirs (rmdir dir fs) h)

  parent_dirs-All :
      (fuel : ℕ) (dir : Text) → All (λ d. is_below root d ≡ true) (parent_dirs fuel root dir)
  unfolding parent_dirs
  parent_dirs-All zero dir = tt
  parent_dirs-All (suc fuel) dir = ground (arith, parent_dirs-All fuel (dirname dir))

  unlink-Below :
      (abs hash : Text) (node : Option Node) (fs : Fs)
      → All
          (λ d. is_below root d ≡ true)
          (dirs_of (unlink_if_unchanged hash_content root abs hash node fs).1)
  unfolding unlink_if_unchanged
  unlink-Below abs hash none fs = tt
  unlink-Below abs hash (some (directory removable)) fs = tt
  unlink-Below abs hash (some other) fs = tt
  unlink-Below abs hash (some (file content readable removable)) fs =
      ground (arith, parent_dirs-All (length abs) (dirname abs))

  apply_one-Below :
      (entry : FileToDelete) (fs : Fs)
      → All (λ d. is_below root d ≡ true) (dirs_of (apply_one hash_content root entry fs).1)
  unfolding apply_one
  apply_one-Below entry fs = elim (Option-cases (contained_path root entry.path)) [
    | inl outside ↦ rw outside tt
    | inr (abs, inside) ↦ rw inside (elim (Bool-cases (is_load_bearing entry.path)) [
      | inl core ↦ rw core tt
      | inr light ↦ rw light (unlink-Below abs entry.hash (get abs fs) fs)
    ])
  ]

  apply_files-Below :
      (entries : List FileToDelete) (fs : Fs)
      → All (λ d. is_below root d ≡ true) (apply_files hash_content root entries fs).2
  unfolding apply_files
  apply_files-Below [] fs = tt
  apply_files-Below (entry ∷ entries) fs =
      All-append (λ d. is_below root d ≡ true) (dirs_of (apply_one hash_content root entry fs).1)
        (apply_files hash_content root entries (apply_one hash_content root entry fs).0).2
        (apply_one-Below entry fs)
        (apply_files-Below entries (apply_one hash_content root entry fs).0)

  -- The directories that the applier tries to remove are all below the root.
  pub All-below :
      (entries : List FileToDelete) (fs : Fs)
      → All
          (λ d. is_below root d ≡ true)
          (sort_by deeper (unique (apply_files hash_content root entries fs).2))
  All-below entries fs =
      sort_by-All deeper (λ d. is_below root d ≡ true)
        (unique (apply_files hash_content root entries fs).2)
        (All-unique (λ d. is_below root d ≡ true) (apply_files hash_content root entries fs).2
          (apply_files-Below entries fs))

  -- Whatever list the applier is given, it writes nothing, and a path that it removes is either a file
  -- that the list asks for (below the stack directory, no core stack file, its content with the recorded
  -- hash) or a directory below the stack directory.
  pub apply_file_deletions-Shrinks :
      (entries : List FileToDelete) (fs : Fs)
      → Shrinks
          (λ path node. IsAskedBy entries path node ⊎ IsStackDirectory path node)
          fs
          (apply_file_deletions hash_content root entries fs).0
  unfolding apply_file_deletions
  apply_file_deletions-Shrinks entries fs =
      let fs' = (apply_files hash_content root entries fs).0 in
      let dirs = sort_by deeper (unique (apply_files hash_content root entries fs).2) in
      Shrinks-trans fs fs' (rmdir_all dirs fs')
        (Shrinks-mono fs fs' (λ path node asked. inl asked) (apply_files-Shrinks entries fs))
        (Shrinks-mono fs' (rmdir_all dirs fs') (λ path node stack. inr stack)
          (rmdir_all-Shrinks dirs fs' (All-below entries fs)))
