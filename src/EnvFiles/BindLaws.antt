-- ===== src/EnvFiles/BindLaws.antt =====
-- `getAdditionalVolumeBinds`: which binds are added, and that they are enough.
use sagedockhand.Common.{
  Bool, not, ◌&&◌, ◌||◌, ◌==◌, Bool-cases, keep, All, All-keep, eq_refl, nat_eq, text_eq, member,
  member-append, ℕ, ◌≡◌, refl, ap, ◌∙◌, inl, inr, true, false, List, [], ◌∷◌, ◌++◌, map, arith,
}
use sagedockhand.Common.Text.{Text, contains, split, codes}
use sagedockhand.EnvFiles.{
  target_in, bind_targets, InspectMount, given, existing_mount_targets, is_new_volume, bind_of,
  get_additional_volume_binds,
}

-- A bind has a name and a destination without a colon.
abbrev pub IsPlain : InspectMount → Type 0
IsPlain mount = (contains b':' mount.name ≡ false) × (contains b':' mount.destination ≡ false)

bind_targets-append :
    (xs ys : List Text) → bind_targets (xs ++ ys) ≡ bind_targets xs ++ bind_targets ys
bind_targets-append [] ys = refl
bind_targets-append (x ∷ xs) ys = ap (◌∷◌ (target_in (split b':' x))) (bind_targets-append xs ys)

split_plain : (c : ℕ) (s : Text) → contains c s ≡ false → split c s ≡ s ∷ []
unfolding split
split_plain c [] h = refl
split_plain c (d ∷ s) h = ground (arith, h, split_plain c s)

split-append : (c : ℕ) (s t : Text) → contains c s ≡ false → split c (s ++ c ∷ t) ≡ s ∷ split c t
unfolding split
split-append c [] t h = ground arith
split-append c (d ∷ s) t h = ground (arith, h, split-append c s t)

target_in-bind_of :
    (mount : InspectMount)
    → IsPlain mount
    → target_in (split b':' (bind_of mount)) ≡ mount.destination
target_in-bind_of mount (n, d) =
    ap target_in (split-append b':' mount.name mount.destination n)
    ∙ rw (split_plain b':' mount.destination d) refl

bind_targets-bind_of :
    (mounts : List InspectMount)
    → All IsPlain mounts
    → bind_targets (map bind_of mounts) ≡ map (λ (m : InspectMount). m.destination) mounts
bind_targets-bind_of [] h = refl
bind_targets-bind_of (mount ∷ mounts) (p, h) =
    rw (target_in-bind_of mount p, bind_targets-bind_of mounts h) refl

-- Where every destination that is new, and every target that existed, is a target, none is new.
keep_covered :
    (existing targets : List Text) (mounts : List InspectMount)
    → ((d : Text)
        → member d
            (map (λ (m : InspectMount). m.destination) (keep (is_new_volume existing) mounts))
          ≡ true
        → member d targets ≡ true)
    → ((d : Text) → member d existing ≡ true → member d targets ≡ true)
    → keep (is_new_volume targets) mounts ≡ []
unfolding member
keep_covered existing targets [] new old = refl
keep_covered existing targets (mount ∷ mounts) new old =
    elim (Bool-cases (is_new_volume existing mount)) [
      | inl added ↦
          let here : member mount.destination targets ≡ true =
            new mount.destination (rw added (rw (eq_refl mount.destination) refl)) in
          let gone : is_new_volume targets mount ≡ false = ground (arith, here) in
          rw gone
            (keep_covered existing targets mounts (λ d h. new d (rw added (ground (arith, h)))) old)
      | inr kept ↦
          let gone : is_new_volume targets mount ≡ false =
            ground (arith, kept, old mount.destination) in
          rw gone (keep_covered existing targets mounts (λ d h. new d (rw kept h)) old)
    ]

get_additional_volume_binds-twice :
    (binds targets : List Text) (mounts : List InspectMount)
    → All IsPlain mounts
    → get_additional_volume_binds
        (binds ++ get_additional_volume_binds binds targets mounts)
        targets
        mounts
      ≡ []
unfolding get_additional_volume_binds existing_mount_targets
get_additional_volume_binds-twice binds targets mounts plain =
    let existing = existing_mount_targets binds targets in
    let news = keep (is_new_volume existing) mounts in
    let extra = map bind_of news in
    let all_targets = existing_mount_targets (binds ++ extra) targets in
    let split_targets : all_targets ≡ (bind_targets binds ++ bind_targets extra) ++ given targets =
      ap (λ (l : List Text). l ++ given targets) (bind_targets-append binds extra) in
    let found : bind_targets extra ≡ map (λ (m : InspectMount). m.destination) news =
      bind_targets-bind_of news (All-keep IsPlain (is_new_volume existing) mounts plain) in
    let at = λ (d : Text).
      ap (member d) split_targets
      ∙ member-append d (bind_targets binds ++ bind_targets extra) (given targets) in
    ap (map bind_of) (
      keep_covered existing all_targets mounts
        (λ d h. ground (
          arith,
          at d,
          member-append d (bind_targets binds) (bind_targets extra),
          ap (member d) found ∙ h,
        ))
        (λ d h. ground (
          arith,
          at d,
          h,
          member-append d (bind_targets binds) (bind_targets extra),
          member-append d (bind_targets binds) (given targets),
        )))

-- A named volume: what a container keeps when it is made again.
abbrev pub is_named_volume : InspectMount → Bool
is_named_volume mount =
    (mount.kind == codes "volume") && not (mount.name == []) && not (mount.destination == [])

-- A named volume is at a target.
abbrev pub is_covered : List Text → InspectMount → Bool
is_covered targets mount = not (is_named_volume mount) || member mount.destination targets

none_missing :
    (targets : List Text) (mounts : List InspectMount)
    → map bind_of (keep (is_new_volume targets) mounts) ≡ []
    → All (λ m. is_covered targets m ≡ true) mounts
none_missing targets [] h = tt
none_missing targets (mount ∷ mounts) h = elim (Bool-cases (is_new_volume targets mount)) [
  | inl new ↦ absurd (ground (arith, h, new))
  | inr old ↦ (ground (arith, old), none_missing targets mounts (ground (arith, h, old)))
]

is_new_volume-named :
    (existing : List Text) (mount : InspectMount)
    → is_new_volume existing mount
      ≡ is_named_volume mount && not (member mount.destination existing)
is_new_volume-named existing mount = ground arith

-- The named volumes whose destinations are not among some targets.
abbrev pub missing : List Text → List InspectMount → List InspectMount
missing targets mounts =
    keep (λ (mount : InspectMount). not (member mount.destination targets))
      (keep is_named_volume mounts)

keep-missing :
    (targets : List Text) (mounts : List InspectMount)
    → keep (is_new_volume targets) mounts ≡ missing targets mounts
keep-missing targets [] = refl
keep-missing targets (mount ∷ mounts) =
    ground (arith, is_new_volume-named targets mount, keep-missing targets mounts)

-- The binds that are added are `name:destination` of the named volumes whose destinations are not yet
-- targets, in order and no others; with them every named volume of the container is at a target, and none
-- is added again: a named volume is a mount of the kind `volume` with a name and a destination, and no name
-- or destination of a mount has a colon.
pub get_additional_volume_binds-missing :
    (binds targets : List Text) (mounts : List InspectMount)
    → All IsPlain mounts
    → let extra = get_additional_volume_binds binds targets mounts in
      (extra ≡ map bind_of (missing (existing_mount_targets binds targets) mounts))
      × All (λ m. is_covered (existing_mount_targets (binds ++ extra) targets) m ≡ true) mounts
      × (get_additional_volume_binds (binds ++ extra) targets mounts ≡ [])
unfolding get_additional_volume_binds
get_additional_volume_binds-missing binds targets mounts plain =
    let extra = get_additional_volume_binds binds targets mounts in
    let none_left = get_additional_volume_binds-twice binds targets mounts plain in
    (
      ap (map bind_of) (keep-missing (existing_mount_targets binds targets) mounts),
      none_missing (existing_mount_targets (binds ++ extra) targets) mounts none_left,
      none_left,
    )
