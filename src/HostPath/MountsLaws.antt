-- ===== src/HostPath/MountsLaws.antt =====
-- Which mount a path goes through, and the detected data directory.
use sagedockhand.Common.{
  Bool-cases, Option-cases, length, find?, All, IsIn, All-IsIn, All-self, ◌≤◌, ◌≡◌, refl, ◌↔◌, inl,
  inr, Bool, true, false, Option, none, some, List, [], ◌∷◌, arith,
}
use sagedockhand.Common.Text.{Text}
use sagedockhand.Common.Sort.{sort_by, IsSorted, sort_by-All, All-sort_by, sort_by-IsSorted}
use sagedockhand.HostPath.Mounts.{
  Mount, is_under, longer, holds, moved_by, translate_container_path_via_mount,
}

-- The first mount of the sorted list that holds the path is the most specific one.
pub record IsMostSpecific (mounts : List Mount) (path : Text) (mount : Mount) : Type 0 where
  pub among : IsIn mount mounts
  pub above : is_under mount.destination path ≡ true
  pub longest :
      (other : Mount)
      → IsIn other mounts
      → is_under other.destination path ≡ true
      → length other.destination ≤ length mount.destination

abbrev AtMost : Text → Mount → Mount → Type 0
AtMost path mount other =
    is_under other.destination path ≡ true → length other.destination ≤ length mount.destination

All-AtMost :
    (path : Text) (mount : Mount) (mounts : List Mount)
    → All (λ other. longer other mount ≡ false) mounts
    → All (AtMost path mount) mounts
All-AtMost path mount [] h = tt
All-AtMost path mount (other ∷ mounts) (p, h) =
    ((λ _. ground (arith, p)), All-AtMost path mount mounts h)

All-find? :
    (path : Text) (mount : Mount) (mounts : List Mount)
    → IsSorted longer mounts
    → find? (holds path) mounts ≡ some mount
    → All (AtMost path mount) mounts
All-find? path mount [] s h = tt
All-find? path mount (other ∷ mounts) (first, s) h =
    elim (Bool-cases (is_under other.destination path)) [
      | inl under ↦
          let same : other ≡ mount = ground (arith, h, under) in
          ((λ _. rw same (omega arith)), All-AtMost path mount mounts (rw same at first))
      | inr apart ↦ (
        (λ under. absurd (ground (arith, apart, under))),
        All-find? path mount mounts s (ground (arith, h, apart)),
      )
    ]

module _ {A : Type 0} (P : A → Type 0) (p : A → Bool) where
  pub find?-All : (x : A) (xs : List A) → All P xs → find? p xs ≡ some x → P x × (p x ≡ true)
  find?-All x [] a h = absurd (ground (arith, h))
  find?-All x (y ∷ xs) (q, a) h = elim (Bool-cases (p y)) [
    | inl passes ↦
        let same : y ≡ x = ground (arith, h, passes) in (rw (← same) q, rw (← same) passes)
    | inr fails ↦ find?-All x xs a (ground (arith, h, fails))
  ]

  pub find?-none : (xs : List A) → (find? p xs ≡ none) ↔ All (λ x. p x ≡ false) xs
  find?-none [] = ground arith
  find?-none (x ∷ xs) = ground (arith, find?-none xs)

-- Longer destinations come first, and no order is broken.
mounts-IsSorted : (mounts : List Mount) → IsSorted longer (sort_by longer mounts)
mounts-IsSorted =
    sort_by-IsSorted longer (λ x y h. ground (arith, h)) (λ x y z h k. ground (arith, h, k))

-- A container path is moved through the mount with the longest destination among those at or above it.
pub translate_container_path_via_mount-IsMostSpecific :
    (mounts : List Mount) (path host : Text)
    → translate_container_path_via_mount mounts path ≡ some host
    → (mount : Mount) × IsMostSpecific mounts path mount × (host ≡ moved_by path mount)
unfolding translate_container_path_via_mount
translate_container_path_via_mount-IsMostSpecific mounts path host h =
    elim (Option-cases (find? (holds path) (sort_by longer mounts))) [
      | inl lacks ↦ absurd (ground (arith, h, lacks))
      | inr (mount, found) ↦
          let (among, above) =
            find?-All (λ m. IsIn m mounts) (holds path) mount (sort_by longer mounts)
              (sort_by-All longer (λ m. IsIn m mounts) mounts (All-self mounts)) found in
          let least =
            All-sort_by longer (AtMost path mount) mounts
              (All-find? path mount (sort_by longer mounts) (mounts-IsSorted mounts) found) in
          (
            mount,
            record {
              among = among;
              above = above;
              longest = λ other i. All-IsIn (AtMost path mount) other mounts least i;
            },
            ground (arith, h, found),
          )
    ]

-- No translation is given exactly when no mount is at or above the path.
translate_container_path_via_mount-none :
    (mounts : List Mount) (path : Text)
    → (translate_container_path_via_mount mounts path ≡ none)
      ↔ All (λ mount. is_under mount.destination path ≡ false) mounts
unfolding translate_container_path_via_mount
translate_container_path_via_mount-none mounts path =
    let Apart = λ (mount : Mount). is_under mount.destination path ≡ false in
    let lacks = find?-none (λ _. Unit) (holds path) (sort_by longer mounts) in
    (
      λ h. All-sort_by longer Apart mounts (lacks.0 (ground (arith, h))),
      λ h. rw (lacks.1 (sort_by-All longer Apart mounts h)) refl,
    )

-- What an answer says of the mounts: that none holds the path, or that the most specific one that holds it
-- moves it.
abbrev pub IsTranslation : List Mount → Text → Option Text → Type 0
IsTranslation mounts path none = All (λ mount. is_under mount.destination path ≡ false) mounts
IsTranslation mounts path (some host) =
    (mount : Mount) × IsMostSpecific mounts path mount × (host ≡ moved_by path mount)

-- A path is moved by the mount with the longest destination that holds it, and there is no answer exactly
-- when no mount holds it.
pub translate_container_path_via_mount-IsTranslation :
    (mounts : List Mount) (path : Text)
    → IsTranslation mounts path (translate_container_path_via_mount mounts path)
translate_container_path_via_mount-IsTranslation mounts path =
    elim (Option-cases (translate_container_path_via_mount mounts path)) [
      | inl missing ↦ rw missing ((translate_container_path_via_mount-none mounts path).0 missing)
      | inr (host, there) ↦
          rw there (translate_container_path_via_mount-IsMostSpecific mounts path host there)
    ]
