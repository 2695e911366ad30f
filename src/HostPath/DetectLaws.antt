-- ===== src/HostPath/DetectLaws.antt =====
-- `detectHostDataDir`: what the detection of the data directory finds.
use sagedockhand.Common.{
  Option-cases, length, drop, find?, length-append, drop_append, IsIn, All-self, ◌==◌, eq_iff,
  nat_eq, text_eq, ℕ, zero, suc, ◌≤◌, ◌≡◌, refl, ap, ◌∙◌, inl, inr, true, false, Option, none, some,
  List, [], ◌∷◌, ◌++◌, append_assoc, arith,
}
use sagedockhand.Common.Text.{Text, length-starts_with, starts_with-append}
use sagedockhand.HostPath.MountsLaws.{find?-All}
use sagedockhand.HostPath.Mounts.{Mount, is_under, translate_to_host_path, holds, moved_by}
use sagedockhand.HostPath.Detect.{
  Environment, get_own_container_id, ContainerInfo, Cached, initial, resolved_data_dir, note_info,
  has_destination, data_mount, detect_in, attempt, inspected, inspect, detect_host_data_dir,
}
use mathlib.Core.List.{append-nil}

length-is_under : (dir path : Text) → is_under dir path ≡ true → length dir ≤ length path
unfolding is_under
length-is_under dir path h = ground (
  arith,
  h,
  length-starts_with path (dir ++ b'/' ∷ []),
  length-append dir (b'/' ∷ []),
  eq_iff path dir,
)

drop_append-le : (n : ℕ) (s t : Text) → n ≤ length s → drop n (s ++ t) ≡ drop n s ++ t
drop_append-le zero s t h = refl
drop_append-le (suc n) [] t h = absurd (omega arith)
drop_append-le (suc n) (c ∷ s) t h = drop_append-le n s t (omega arith)

drop_all : (s : Text) → drop (length s) s ≡ []
drop_all [] = refl
drop_all (c ∷ s) = drop_all s

-- The mount that the search for the data directory ends at.
record IsFoundMount (mounts : List Mount) (data_dir dir : Text) (mount : Mount) : Type 0 where
  among : IsIn mount mounts
  above : is_under mount.destination data_dir ≡ true
  moves : dir ≡ moved_by data_dir mount

exact-IsFoundMount :
    (mounts : List Mount) (data_dir : Text) (mount : Mount)
    → IsIn mount mounts
    → mount.destination ≡ data_dir
    → IsFoundMount mounts data_dir mount.source mount
unfolding is_under
exact-IsFoundMount mounts data_dir mount i e = record {
  among = i;
  above = ground (arith, e, eq_iff data_dir mount.destination);
  moves = rw (e, drop_all data_dir, append-nil mount.source) refl;
}

data_mount-IsFoundMount :
    (mounts : List Mount) (data_dir dir : Text)
    → data_mount mounts data_dir ≡ some dir
    → (mount : Mount) × IsFoundMount mounts data_dir dir mount
unfolding data_mount
data_mount-IsFoundMount mounts data_dir dir h =
    elim (Option-cases (find? (has_destination data_dir) mounts)) [
      | inr (mount, exact) ↦
          let (among, same) =
            find?-All (λ m. IsIn m mounts) (has_destination data_dir) mount mounts (All-self mounts)
              exact in
          let is_dir : mount.source ≡ dir = ground (arith, h, exact) in
          (
            mount,
            rw (← is_dir) (
                exact-IsFoundMount mounts data_dir mount among
                  ((eq_iff mount.destination data_dir).0 same)),
          )
      | inl other ↦ elim (Option-cases (find? (holds data_dir) mounts)) [
        | inl lacks ↦ absurd (ground (arith, h, other, lacks))
        | inr (mount, found) ↦
            let (among, above) =
              find?-All (λ m. IsIn m mounts) (holds data_dir) mount mounts (All-self mounts)
                found in
            (
              mount,
              record { among = among; above = above; moves = ground (arith, h, other, found) },
            )
      ]
    ]

is_under-below : (dir rest : Text) → is_under dir (dir ++ b'/' ∷ rest) ≡ true
unfolding is_under
is_under-below dir rest =
    let h = rw (append_assoc dir (b'/' ∷ []) rest) at (starts_with-append dir (b'/' ∷ []) rest) in
    ground (arith, h)

-- Below the data directory, `translateToHostPath` replaces the directory.
translate_to_host_path-below :
    (dir data_dir rest : Text)
    → (dir == []) ≡ false
    → translate_to_host_path (some dir) data_dir (data_dir ++ b'/' ∷ rest) ≡ dir ++ b'/' ∷ rest
unfolding translate_to_host_path
translate_to_host_path-below dir data_dir rest given =
    rw (given, drop_append data_dir (b'/' ∷ rest), is_under-below data_dir rest) refl

-- A detection that finds a directory has inspected the container, and keeps its mounts.
record IsDetected (data_dir dir : Text) (after : Cached) : Type 0 where
  kept_dir : after.host_data_dir ≡ some dir
  is_mount : data_mount after.mounts data_dir ≡ some dir

detect_in-IsDetected :
    (cached : Cached) (data_dir dir : Text) (info : ContainerInfo)
    → cached.host_data_dir ≡ none
    → (detect_in cached data_dir info).1 ≡ some dir
    → IsDetected data_dir dir (detect_in cached data_dir info).0
unfolding note_info
detect_in-IsDetected cached data_dir dir info unset h =
    elim (Option-cases (data_mount info.mounts data_dir)) [
      | inl lacks ↦ absurd (ground (arith, unset, h, lacks))
      | inr (found, mount) ↦ record {
        kept_dir = ground (arith, unset, h, mount);
        is_mount = ground (arith, unset, h, mount);
      }
    ]

inspect-IsDetected :
    (cached : Cached) (data_dir dir : Text) (id : Option Text)
    → (answer : Text → Option ContainerInfo) → cached.host_data_dir ≡ none
    → (inspect cached data_dir id answer).1 ≡ some dir
    → IsDetected data_dir dir (inspect cached data_dir id answer).0
inspect-IsDetected cached data_dir dir none answer unset h = absurd (ground (arith, h))
inspect-IsDetected cached data_dir dir (some id) answer unset h = go (answer id) h
  where
    go :
        (o : Option ContainerInfo)
        → (inspected cached data_dir o).1 ≡ some dir
        → IsDetected data_dir dir (inspected cached data_dir o).0
    go none k = absurd (ground (arith, k))
    go (some info) k = detect_in-IsDetected cached data_dir dir info unset k

moved_by-append :
    (mount : Mount) (path rest : Text)
    → is_under mount.destination path ≡ true
    → moved_by path mount ++ rest ≡ moved_by (path ++ rest) mount
moved_by-append mount path rest h =
    let n = length mount.destination in
    rw (drop_append-le n path rest (length-is_under mount.destination path h))
      (append_assoc mount.source (drop n path) rest)

-- A first detection without `HOST_DATA_DIR` takes the data directory to be in a mount of the container at
-- or above it; what `translateToHostPath` then gives for a path below is where that mount puts it.
pub detect_host_data_dir-translates :
    (answer : Text → Option ContainerInfo) (env : Environment) (dir rest : Text)
    → env.host_data_dir ≡ none
    → (detect_host_data_dir answer env initial).1 ≡ some dir
    → (dir == []) ≡ false
    → let cached = (detect_host_data_dir answer env initial).0 in
      let path = resolved_data_dir env ++ b'/' ∷ rest in
      (mount : Mount) × IsIn mount cached.mounts
      × (is_under mount.destination (resolved_data_dir env) ≡ true)
      × (translate_to_host_path cached.host_data_dir (resolved_data_dir env) path
          ≡ moved_by path mount)
unfolding detect_host_data_dir
detect_host_data_dir-translates answer env dir rest unset found given =
    let data_dir = resolved_data_dir env in
    let detected =
      inspect-IsDetected (attempt env initial) data_dir dir (get_own_container_id env) answer
        (ground (arith, unset)) found in
    let after = (inspect (attempt env initial) data_dir (get_own_container_id env) answer).0 in
    let (mount, at) = data_mount-IsFoundMount after.mounts data_dir dir detected.is_mount in
    (
      mount,
      at.among,
      at.above,
      rw detected.kept_dir (
          translate_to_host_path-below dir data_dir rest given
          ∙ (ap (λ (d : Text). d ++ b'/' ∷ rest) at.moves
              ∙ moved_by-append mount data_dir (b'/' ∷ rest) at.above)),
    )
