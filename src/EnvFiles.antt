-- ===== src/EnvFiles.antt =====
-- src/lib/server/env-parser.ts, container-image-divergence.ts, mount-dedupe.ts and docker-validation.ts: what
-- the server reads from texts that describe an environment, a container and its image. Missing lists and
-- texts are empty.
pub mod DivergenceLaws
pub mod BindLaws
mod Tests
use sagedockhand.Common.{
  leb, if◌then◌else◌, any, keep, ◌==◌, nat_eq, text_eq, member, ℕ, Bool, false, not, ◌&&◌, ◌||◌,
  Option, none, some, List, [], ◌∷◌, ◌++◌, map,
}
use sagedockhand.Common.Text.{Text, codes, starts_with, includes, contains, split, is_digit, trim}
use sagedockhand.Common.JsMap.{JsMap, get, put}

-- `/^[A-Za-z_][A-Za-z0-9_]*$/`
abbrev pub is_word_start : ℕ → Bool
is_word_start c = (leb b'A' c && leb c b'Z') || (leb b'a' c && leb c b'z') || (c == b'_')

abbrev pub is_identifier : Text → Bool
is_identifier [] = false
is_identifier (c ∷ s) = is_word_start c && not (any (λ d. not (is_word_start d || is_digit d)) s)

-- A text up to its first `=`, and what is after that, if there is one.
abbrev pub cut_at_eq : Text → Text × Option Text
cut_at_eq [] = ([], none)
cut_at_eq (c ∷ s) =
    let (key, value) = cut_at_eq s in if c == b'=' then ([], some s) else (c ∷ key, value)

abbrev pub assign : Text × Option Text → JsMap Text Text → JsMap Text Text
assign (key, none) result = result
assign (key, some value) result =
    if is_identifier (trim key) then put (trim key) (trim value) result else result

-- The body of the loop over the lines.
unfoldable pub parse_line : Text → JsMap Text Text → JsMap Text Text
parse_line line result =
    let trimmed = trim line in
    if (trimmed == []) || starts_with trimmed (codes "#")
    then result
    else assign (cut_at_eq trimmed) result

unfoldable pub parse_lines : List Text → JsMap Text Text → JsMap Text Text
parse_lines [] result = result
parse_lines (line ∷ lines) result = parse_lines lines (parse_line line result)

-- `parseEnvVars(content)`
unfoldable pub parse_env_vars : Text → JsMap Text Text
parse_env_vars content = parse_lines (split 10 content) []

-- `parseEnv(entries)`
abbrev pub entry_of : Text × Option Text → Text × Text
entry_of (key, none) = (key, [])
entry_of (key, some value) = (key, value)

unfoldable pub parse_env_onto : List Text → JsMap Text Text → JsMap Text Text
parse_env_onto [] m = m
parse_env_onto (entry ∷ entries) m =
    let (key, value) = entry_of (cut_at_eq entry) in parse_env_onto entries (put key value m)

abbrev pub parse_env : List Text → JsMap Text Text
parse_env entries = parse_env_onto entries []

abbrev pub differs : Option Text → Text → Bool
differs none value = false
differs (some other) value = not (other == value)

-- The loops of both functions.
unfoldable pub divergent : JsMap Text Text → JsMap Text Text → List Text
divergent [] image = []
divergent ((key, value) ∷ container) image =
    let rest = divergent container image in
    if differs (get key image) value then key ∷ rest else rest

-- `detectImageEnvDivergence(containerEnv, imageEnv)`
unfoldable pub detect_image_env_divergence : List Text → List Text → List Text
detect_image_env_divergence container_env image_env =
    divergent (parse_env container_env) (parse_env image_env)

abbrev pub or_empty : Option (JsMap Text Text) → JsMap Text Text
or_empty none = []
or_empty (some labels) = labels

-- `detectImageLabelDivergence(containerLabels, imageLabels)`
unfoldable pub detect_image_label_divergence :
    Option (JsMap Text Text) → Option (JsMap Text Text) → List Text
detect_image_label_divergence container_labels image_labels =
    divergent (or_empty container_labels) (or_empty image_labels)

-- `parts.length >= 2 ? parts[1] : parts[0]`
abbrev pub target_in : List Text → Text
target_in [] = []
target_in (source ∷ []) = source
target_in (source ∷ target ∷ parts) = target

abbrev pub bind_targets : List Text → List Text
bind_targets [] = []
bind_targets (bind ∷ binds) = target_in (split b':' bind) ∷ bind_targets binds

pub record InspectMount : Type 0 where
  pub kind : Text
  pub name : Text
  pub destination : Text

abbrev pub given : List Text → List Text
given targets = keep (λ target. not (target == [])) targets

-- `existingMountTargets`, of the binds and of the targets of the mounts
unfoldable pub existing_mount_targets : List Text → List Text → List Text
existing_mount_targets binds targets = bind_targets binds ++ given targets

abbrev pub is_new_volume : List Text → InspectMount → Bool
is_new_volume existing mount =
    (mount.kind == codes "volume")
    && not (mount.name == [])
    && not (mount.destination == [])
    && not (member mount.destination existing)

abbrev pub bind_of : InspectMount → Text
bind_of mount = mount.name ++ b':' ∷ mount.destination

-- `getAdditionalVolumeBinds(hostConfig, mounts)`
unfoldable pub get_additional_volume_binds : List Text → List Text → List InspectMount → List Text
get_additional_volume_binds binds targets mounts =
    map bind_of (keep (is_new_volume (existing_mount_targets binds targets)) mounts)

-- `containsPathTraversal(value)`
abbrev pub contains_path_traversal : Text → Bool
contains_path_traversal value =
    includes value (codes "..")
    || contains b'/' value
    || contains b'\\' value
    || contains 0 value
    || contains b'%' value

-- `validateDockerIdParam(id)`: whether it answers null
unfoldable pub validate_docker_id_param : Text → Bool
validate_docker_id_param id = not ((id == []) || contains_path_traversal id)
