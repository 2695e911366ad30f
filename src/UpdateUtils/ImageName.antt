-- ===== src/UpdateUtils/ImageName.antt =====
-- `parseImageNameAndTag`.
use sagedockhand.Common.{if◌then◌else◌, take, drop, ℕ, suc, Option, none, some, []}
use sagedockhand.Common.Text.{Text, codes, includes, last_index_of, contains}

-- The text before a colon at `i`, and the one after it, unless that is the path after a registry's port.
abbrev pub cut_at : Text → Option ℕ → Text × Text
cut_at name none = (name, codes "latest")
cut_at name (some i) =
    if contains b'/' (drop (suc i) name)
    then (name, codes "latest")
    else (take i name, drop (suc i) name)

-- `parseImageNameAndTag(imageName)`
unfoldable pub parse_image_name_and_tag : Text → Text × Text
parse_image_name_and_tag name =
    if includes name (codes "@sha256:") then (name, []) else cut_at name (last_index_of b':' name)
