-- ===== src/GitDeletions/Outcomes.antt =====
-- What the applier reports, and what survives a whole sync.
use sagedockhand.Common.{
  Bool-cases, Option-cases, IsIn, eq_refl, nat_eq, text_eq, unique, ◌≡◌, refl, ◌∙◌, inl, inr, Bool,
  false, Option, none, some, List, [], ◌∷◌, arith,
}
use sagedockhand.Common.Text.{Text}
use sagedockhand.Common.Sort.{sort_by}
use sagedockhand.Common.JsMap.{JsMap, get, has, IsDistinct, get-remove}
use sagedockhand.GitDeletions.Apply.{
  Node, Fs, contained_path, DeletionApplyResult, Outcome, rmdir_all, deeper, note_outcome,
  unlink_if_unchanged, apply_one, apply_files, apply_file_deletions, file, directory, other,
  unlinked, skip,
}
use sagedockhand.GitDeletions.Containment.{
  apply_files-Shrinks, rmdir_all-Shrinks, All-below, apply_file_deletions-Shrinks,
}
use sagedockhand.GitDeletions.Shrinks.{Shrinks}
use sagedockhand.GitDeletions.Plan.{FileToDelete, is_load_bearing, compute_deletions}
use sagedockhand.GitDeletions.PlanLaws.{compute_deletions_iff}

module _ (hash_content : Text → Text) (root : Text) where
  -- The path resolves below the root, and nothing is there.
  pub record IsGone (fs : Fs) (path : Text) : Type 0 where
    pub abs : Text
    pub contained : contained_path root path ≡ some abs
    pub absent : get abs fs ≡ none

  IsGone-Shrinks :
      {Ok : Text → Node → Type 0} (fs fs' : Fs) (path : Text)
      → Shrinks Ok fs fs'
      → IsGone fs path
      → IsGone fs' path
  IsGone-Shrinks fs fs' path h g = record {
    abs = g.abs;
    contained = g.contained;
    absent = elim (h.at g.abs) [ inl same ↦ same ∙ g.absent | inr (gone, why) ↦ gone ];
  }

  unlink-IsGone :
      (path abs hash : Text) (node : Option Node) (fs : Fs) (dirs : List Text)
      → contained_path root path ≡ some abs
      → (unlink_if_unchanged hash_content root abs hash node fs).1 ≡ unlinked dirs
      → IsGone (unlink_if_unchanged hash_content root abs hash node fs).0 path
  unfolding unlink_if_unchanged
  unlink-IsGone path abs hash none fs dirs c e = cc
  unlink-IsGone path abs hash (some (directory removable)) fs dirs c e = cc
  unlink-IsGone path abs hash (some other) fs dirs c e = cc
  unlink-IsGone path abs hash (some (file content readable removable)) fs dirs c e = record {
    abs = abs;
    contained = c;
    absent = ground (arith, get-remove abs abs fs, eq_refl abs);
  }

  apply_one-IsGone :
      (entry : FileToDelete) (fs : Fs) (dirs : List Text)
      → (apply_one hash_content root entry fs).1 ≡ unlinked dirs
      → IsGone (apply_one hash_content root entry fs).0 entry.path
  unfolding apply_one
  apply_one-IsGone entry fs dirs e = elim (Option-cases (contained_path root entry.path)) [
    | inl outside ↦ absurd (ground (arith, e, outside))
    | inr (abs, inside) ↦ rw inside (elim (Bool-cases (is_load_bearing entry.path)) [
      | inl core ↦ absurd (ground (arith, e, inside, core))
      | inr light ↦ rw light (
          unlink-IsGone entry.path abs entry.hash (get abs fs) fs dirs inside
            (ground (arith, e, inside, light)))
    ])
  ]

  -- The rest of the list after a file whose outcome is known, given the claim for that rest.
  note_outcome-IsGone :
      (path : Text) (entry : FileToDelete) (outcome : Outcome) (fs' fs'' : Fs)
      → (result : DeletionApplyResult)
      → ((dirs : List Text) → outcome ≡ unlinked dirs → IsGone fs'' entry.path)
      → (IsIn path result.deleted → IsGone fs'' path)
      → IsIn path (note_outcome entry outcome result).deleted
      → IsGone fs'' path
  note_outcome-IsGone path entry (unlinked dirs) fs' fs'' result now rest (inl here) =
      rw here (now dirs refl)
  note_outcome-IsGone path entry (unlinked dirs) fs' fs'' result now rest (inr later) = rest later
  note_outcome-IsGone path entry (skip reason) fs' fs'' result now rest h = rest h

  apply_files-IsGone :
      (path : Text) (entries : List FileToDelete) (fs : Fs)
      → IsIn path (apply_files hash_content root entries fs).1.deleted
      → IsGone (apply_files hash_content root entries fs).0 path
  unfolding apply_files
  apply_files-IsGone path [] fs h = absurd h
  apply_files-IsGone path (entry ∷ entries) fs h =
      let fs' = (apply_one hash_content root entry fs).0 in
      let fs'' = (apply_files hash_content root entries fs').0 in
      note_outcome-IsGone path entry (apply_one hash_content root entry fs).1 fs' fs''
        (apply_files hash_content root entries fs').1
        (λ dirs e.
          IsGone-Shrinks fs' fs'' entry.path (apply_files-Shrinks hash_content root entries fs')
            (apply_one-IsGone entry fs dirs e))
        (apply_files-IsGone path entries fs') h

  -- A path that the applier reports as deleted resolves below the stack directory, and nothing is there
  -- when it ends.
  pub apply_file_deletions-IsGone :
      (path : Text) (entries : List FileToDelete) (fs : Fs)
      → IsIn path (apply_file_deletions hash_content root entries fs).1.deleted
      → IsGone (apply_file_deletions hash_content root entries fs).0 path
  unfolding apply_file_deletions
  apply_file_deletions-IsGone path entries fs h =
      let fs' = (apply_files hash_content root entries fs).0 in
      let dirs = sort_by deeper (unique (apply_files hash_content root entries fs).2) in
      IsGone-Shrinks fs' (rmdir_all dirs fs') path
        (rmdir_all-Shrinks hash_content root dirs fs' (All-below hash_content root entries fs))
        (apply_files-IsGone path entries fs h)

  -- A file is as before after the planned deletions are applied, when no entry of the manifest (with
  -- distinct paths) that resolves to it and is missing from the clone has the hash of its content.
  pub local_file-survives :
      (abs content : Text) (readable removable : Bool) (manifest_files new_files : JsMap Text Text)
      → (fs : Fs) → IsDistinct manifest_files
      → get abs fs ≡ some (file content readable removable)
      → ((path : Text)
          → contained_path root path ≡ some abs
          → has path new_files ≡ false
          → ¬ (get path manifest_files ≡ some (hash_content content)))
      → get abs
          (apply_file_deletions hash_content root
            (compute_deletions manifest_files new_files).to_delete
            fs).0
        ≡ some (file content readable removable)
  local_file-survives abs content readable removable manifest_files new_files fs d found local =
      elim ((apply_file_deletions-Shrinks hash_content root
          (compute_deletions manifest_files new_files).to_delete fs).at
        abs) [
          | inl same ↦ same ∙ found
          | inr (gone, (node, before, inr (below, (free, is_directory)))) ↦
              absurd (ground (arith, found, before, is_directory))
          | inr (gone, (node, before, inl (entry, among, asked))) ↦
              let due = (compute_deletions_iff entry manifest_files new_files d).0 among in
              absurd (
                local entry.path asked.contained due.gone
                  (grind (arith, due.managed, asked.unchanged, asked.is_file, found, before)))
        ]
