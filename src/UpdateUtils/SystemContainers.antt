-- ===== src/UpdateUtils/SystemContainers.antt =====
-- `isDockhandContainer`, `isHawserContainer` and `isSystemContainer`.
use sagedockhand.Common.{
  if◌then◌else◌, drop, ◌==◌, nat_eq, text_eq, Bool, true, false, ◌&&◌, ◌||◌, Option, none, some, [],
  ◌∷◌,
}
use sagedockhand.Common.Text.{Text, codes, starts_with, includes, to_lower}

-- `dockhand` followed by a colon or the end of the text.
abbrev pub names_dockhand : Text → Bool
names_dockhand s =
    starts_with s (codes "dockhand") && elim (drop 8 s) [ [] ↦ true | c ∷ rest ↦ c == b':' ]

-- Such a name after a slash.
abbrev pub after_slash : Text → Bool
after_slash [] = false
after_slash (c ∷ s) = ((c == b'/') && names_dockhand s) || after_slash s

-- `isDockhandContainer(imageName)`: /(?:^|\/)dockhand(?::|$)/
unfoldable pub is_dockhand_container : Text → Bool
is_dockhand_container image =
    let lower = to_lower image in
    includes lower (codes "fnsys/dockhand") || names_dockhand lower || after_slash lower

-- `isHawserContainer(imageName)`
unfoldable pub is_hawser_container : Text → Bool
is_hawser_container image =
    let lower = to_lower image in
    includes lower (codes "finsys/hawser") || includes lower (codes "ghcr.io/finsys/hawser")

pub data SystemContainerType : Type 0 where
  dockhand hawser : SystemContainerType

-- `isSystemContainer(imageName)`
unfoldable pub is_system_container : Text → Option SystemContainerType
is_system_container image =
    if is_dockhand_container image
    then some dockhand
    else if is_hawser_container image
    then some hawser
    else none
