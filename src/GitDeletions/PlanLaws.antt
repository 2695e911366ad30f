-- ===== src/GitDeletions/PlanLaws.antt =====
-- What is planned for deletion, and when nothing is.
use sagedockhand.Common.{
  All, IsIn, eq_refl, eq_iff, nat_eq, text_eq, ◌≡◌, refl, ◌↔◌, ◌⊎◌, inl, inr, true, false, none,
  some, [], ◌∷◌, arith,
}
use sagedockhand.Common.Text.{Text}
use sagedockhand.Common.JsMap.{JsMap, get, has, IsDistinct, has_iff, All-of_get}
use sagedockhand.GitDeletions.Plan.{
  FileToDelete, is_safe_rel_path, is_load_bearing, compute_deletions, build_next_manifest,
}

module _ (new_files : JsMap Text Text) where
  -- The entry is managed, gone from the clone, and safe to delete.
  pub record IsDue (manifest_files : JsMap Text Text) (entry : FileToDelete) : Type 0 where
    pub managed : get entry.path manifest_files ≡ some entry.hash
    pub gone : has entry.path new_files ≡ false
    pub safe : is_safe_rel_path entry.path ≡ true
    pub light : is_load_bearing entry.path ≡ false

  compute_deletions-cases :
      (path hash : Text) (rest : JsMap Text Text)
      → ((compute_deletions ((path, hash) ∷ rest) new_files).to_delete
          ≡ (compute_deletions rest new_files).to_delete)
        ⊎ ((has path new_files ≡ false)
            × (is_safe_rel_path path ≡ true)
            × (is_load_bearing path ≡ false)
            × ((compute_deletions ((path, hash) ∷ rest) new_files).to_delete
                ≡ record { path = path; hash = hash }
                  ∷ (compute_deletions rest new_files).to_delete))
  unfolding compute_deletions
  compute_deletions-cases path hash rest = ground arith

  -- A later entry is due in the whole manifest, as its path differs from the first.
  IsDue-cons :
      (path hash : Text) (rest : JsMap Text Text) (entry : FileToDelete)
      → get path rest ≡ none
      → IsDue rest entry
      → IsDue ((path, hash) ∷ rest) entry
  unfolding get
  IsDue-cons path hash rest entry fresh due = record {
    managed = ground (arith, due.managed, eq_iff path entry.path);
    gone = due.gone;
    safe = due.safe;
    light = due.light;
  }

  to_delete-get :
      (entry : FileToDelete) (manifest_files : JsMap Text Text)
      → IsDistinct manifest_files
      → IsIn entry (compute_deletions manifest_files new_files).to_delete
      → IsDue manifest_files entry
  unfolding compute_deletions get
  to_delete-get entry [] d h = absurd h
  to_delete-get entry ((path, hash) ∷ rest) (fresh, d) h =
      elim (compute_deletions-cases path hash rest) [
        | inl kept ↦
            IsDue-cons path hash rest entry fresh (to_delete-get entry rest d (rw kept at h))
        | inr (gone, safe, light, listed) ↦ elim (rw listed at h) [
          | inl here ↦ record {
            managed = ground (arith, here, eq_refl path);
            gone = rw here gone;
            safe = rw here safe;
            light = rw here light;
          }
          | inr later ↦ IsDue-cons path hash rest entry fresh (to_delete-get entry rest d later)
        ]
      ]

  get-to_delete :
      (entry : FileToDelete) (manifest_files : JsMap Text Text)
      → IsDue manifest_files entry
      → IsIn entry (compute_deletions manifest_files new_files).to_delete
  unfolding compute_deletions get
  get-to_delete entry [] due = absurd (ground (arith, due.managed))
  get-to_delete entry ((path, hash) ∷ rest) due = ground (
    arith,
    due.managed,
    due.gone,
    due.safe,
    due.light,
    eq_iff path entry.path,
    λ (later : get entry.path rest ≡ some entry.hash).
        get-to_delete entry rest
          (record { managed = later; gone = due.gone; safe = due.safe; light = due.light }),
  )

-- The plan lists an entry for deletion exactly when the manifest (with distinct paths) records it with that
-- hash, the new clone lacks its path, the path is safe and its file is no core stack file.
pub compute_deletions_iff :
    (entry : FileToDelete) (manifest_files new_files : JsMap Text Text)
    → IsDistinct manifest_files
    → IsIn entry (compute_deletions manifest_files new_files).to_delete
      ↔ IsDue new_files manifest_files entry
compute_deletions_iff entry manifest_files new_files d =
    (to_delete-get new_files entry manifest_files d, get-to_delete new_files entry manifest_files)

-- The part `rest` of a dictionary has no path that the whole lacks.
compute_deletions-nil :
    (rest new_files : JsMap Text Text)
    → All (λ (entry : Text × Text). has entry.0 new_files ≡ true) rest
    → compute_deletions rest new_files ≡ record { to_delete = []; skipped = [] }
unfolding compute_deletions
compute_deletions-nil [] new_files h = refl
compute_deletions-nil ((path, hash) ∷ rest) new_files h =
    ground (arith, compute_deletions-nil rest new_files h.1)

has_of_get :
    (path hash : Text) (files : JsMap Text Text)
    → get path files ≡ some hash
    → has path files ≡ true
has_of_get path hash files h = ground (arith, has_iff path files)

-- When a sync finds the files of the clone (with distinct paths) as the sync before it stored them in the
-- manifest, it plans no deletion and reports none as skipped.
pub compute_deletions-build_next_manifest :
    (commit : Text) (new_files : JsMap Text Text)
    → IsDistinct new_files
    → compute_deletions (build_next_manifest commit new_files).files new_files
      ≡ record { to_delete = []; skipped = [] }
unfolding build_next_manifest
compute_deletions-build_next_manifest commit new_files d =
    compute_deletions-nil new_files new_files (
      All-of_get (λ path hash. has path new_files ≡ true) new_files d
        (λ path hash h. has_of_get path hash new_files h))
