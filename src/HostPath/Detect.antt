-- ===== src/HostPath/Detect.antt =====
-- `getOwnContainerId` and `detectHostDataDir`.
use sagedockhand.Common.{
  leb, if◌then◌else◌, first_of, and_then, length, take, drop, every, find?, keep, ◌==◌, nat_eq,
  text_eq, member, ℕ, Bool, true, false, not, ◌&&◌, ◌||◌, Option, none, some, List, [], ◌∷◌,
}
use sagedockhand.Common.Text.{Text, codes, starts_with, is_digit}
use sagedockhand.HostPath.Mounts.{Mount, holds, moved_by}
use sagedockhand.HostPath.Paths.{resolve_path}
use mathlib.Core.Option

abbrev pub is_hex : ℕ → Bool
is_hex c = (leb b'a' c && leb c b'f') || is_digit c

-- The first `n` code units, when there are as many and all are hexadecimal.
abbrev pub hex_front : ℕ → Text → Option Text
hex_front n s =
    if (length (take n s) == n) && every is_hex (take n s) then some (take n s) else none

-- `s.match(/[a-f0-9]{64}/)`
unfoldable pub match_hex : Text → Option Text
match_hex [] = none
match_hex (c ∷ s) = first_of (hex_front 64 (c ∷ s)) (match_hex s)

abbrev pub marker : Text
marker = codes "/docker/containers/"

-- `s.match(/\/docker\/containers\/([a-f0-9]{64})/)`, its group
unfoldable pub match_container : Text → Option Text
match_container [] = none
match_container (c ∷ s) =
    let rest = match_container s in
    if starts_with (c ∷ s) marker
    then first_of (hex_front 64 (drop (length marker) (c ∷ s))) rest
    else rest

abbrev pub match_hostname : Text → Option Text
match_hostname name = if (length name == 12) && every is_hex name then some name else none

-- What the process can read: `none` for a file that is not readable, a variable that is not set.
pub record Environment : Type 0 where
  pub cgroup : Option Text
  pub mountinfo : Option Text
  pub hostname : Option Text
  pub host_data_dir : Option Text
  pub data_dir : Option Text
  pub working_dir : Text

-- `getOwnContainerId()`
unfoldable pub get_own_container_id : Environment → Option Text
get_own_container_id env =
    first_of (and_then env.cgroup match_hex)
      (first_of (and_then env.mountinfo match_container) (and_then env.hostname match_hostname))

-- The part of a container's inspection that is read; a list that is missing is empty.
pub record ContainerInfo : Type 0 where
  pub mounts : List Mount
  pub env : List Text
  pub networks : Option (List Text)
  pub extra_hosts : List Text

-- The variables of the module.
pub record Cached : Type 0 where
  pub detection_attempted : Bool
  pub host_data_dir : Option Text
  pub mounts : List Mount
  pub own_docker_host : Option Text
  pub own_network_mode : Option Text
  pub own_extra_hosts : Option (List Text)

abbrev pub initial : Cached
initial = record {
  detection_attempted = false;
  host_data_dir = none;
  mounts = [];
  own_docker_host = none;
  own_network_mode = none;
  own_extra_hosts = none;
}

-- `value || undefined`
abbrev pub non_empty : Option Text → Option Text
non_empty none = none
non_empty (some []) = none
non_empty (some (c ∷ s)) = some (c ∷ s)

-- `resolve(process.env.DATA_DIR || '/app/data')`
unfoldable pub resolved_data_dir : Environment → Text
resolved_data_dir env = elim (non_empty env.data_dir) [
  | none ↦ resolve_path env.working_dir (codes "/app/data")
  | some dir ↦ resolve_path env.working_dir dir
]

-- The first variable `DOCKER_HOST`, and what it was before when there is none.
abbrev pub docker_host_prefix : Text
docker_host_prefix = codes "DOCKER_HOST="

abbrev pub docker_host_of : Option Text → List Text → Option Text
docker_host_of before [] = before
docker_host_of before (v ∷ vars) =
    if starts_with v docker_host_prefix
    then some (drop (length docker_host_prefix) v)
    else docker_host_of before vars

abbrev pub is_custom : Text → Bool
is_custom n = not (n == codes "bridge") && not (n == codes "none") && not (n == codes "host")

abbrev pub network_of : Option Text → Option (List Text) → Option Text
network_of before none = before
network_of before (some networks) = elim (keep is_custom networks) [
  | n ∷ custom ↦ some n
  | [] ↦ if member (codes "bridge") networks then some (codes "bridge") else none
]

abbrev pub hosts_of : List Text → Option (List Text)
hosts_of [] = none
hosts_of (h ∷ hosts) = some (h ∷ hosts)

-- What the inspection fills in.
unfoldable pub note_info : ContainerInfo → Cached → Cached
note_info info cached = record cached {
  mounts = info.mounts;
  own_docker_host = docker_host_of cached.own_docker_host info.env;
  own_network_mode = network_of cached.own_network_mode info.networks;
  own_extra_hosts = hosts_of info.extra_hosts;
}

abbrev pub has_destination : Text → Mount → Bool
has_destination dir mount = mount.destination == dir

abbrev pub source_or_parent : List Mount → Text → Option Mount → Option Text
source_or_parent mounts dir (some mount) = some mount.source
source_or_parent mounts dir none = Option.map (moved_by dir) (find? (holds dir) mounts)

-- The mount of the data directory, or the first one above it.
unfoldable pub data_mount : List Mount → Text → Option Text
data_mount mounts dir = source_or_parent mounts dir (find? (has_destination dir) mounts)

abbrev pub set_dir : Cached → Option Text → Cached × Option Text
set_dir cached none = (cached, none)
set_dir cached (some dir) = (record cached { host_data_dir = some dir }, some dir)

abbrev pub detect_in : Cached → Text → ContainerInfo → Cached × Option Text
detect_in cached dir info = elim (non_empty cached.host_data_dir) [
  | some given ↦ (note_info info cached, some given)
  | none ↦ set_dir (note_info info cached) (data_mount info.mounts dir)
]

-- `if (process.env.HOST_DATA_DIR)`
abbrev pub attempt : Environment → Cached → Cached
attempt env cached = record cached {
  detection_attempted = true;
  host_data_dir = first_of (non_empty env.host_data_dir) cached.host_data_dir;
}

abbrev pub inspected : Cached → Text → Option ContainerInfo → Cached × Option Text
inspected cached dir none = (cached, none)
inspected cached dir (some info) = detect_in cached dir info

abbrev pub inspect :
    Cached → Text → Option Text → (Text → Option ContainerInfo) → Cached × Option Text
inspect cached dir none answer = (cached, none)
inspect cached dir (some id) answer = inspected cached dir (answer id)

-- `detectHostDataDir()`; `answer` is the Docker API's inspection of a container, `none` a failure.
unfoldable pub detect_host_data_dir :
    (Text → Option ContainerInfo) → Environment → Cached → Cached × Option Text
detect_host_data_dir answer env cached =
    if cached.detection_attempted
    then (cached, cached.host_data_dir)
    else inspect (attempt env cached) (resolved_data_dir env) (get_own_container_id env) answer
