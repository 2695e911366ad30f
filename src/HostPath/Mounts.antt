-- ===== src/HostPath/Mounts.antt =====
-- Translating a container path by the data directory and by the mounts.
use sagedockhand.Common.{
  ltb, if◌then◌else◌, first_of, length, drop, find?, span, ◌==◌, nat_eq, text_eq, Bool, not, ◌||◌,
  Option, none, some, List, [], ◌∷◌, ◌++◌,
}
use sagedockhand.Common.Text.{Text, codes, starts_with, is_digit}
use sagedockhand.Common.Sort.{sort_by}
use mathlib.Core.Option

pub record Mount : Type 0 where
  pub source : Text
  pub destination : Text

-- `path.startsWith(dir + '/') || path === dir`
unfoldable pub is_under : Text → Text → Bool
is_under dir path = starts_with path (dir ++ b'/' ∷ []) || (path == dir)

-- `source + path.substring(dir.length)`
abbrev pub moved : Text → Text → Text → Text
moved dir source path = source ++ drop (length dir) path

-- `translateToHostPath(containerPath)`; an unset data directory is `none` or empty.
unfoldable pub translate_to_host_path : Option Text → Text → Text → Text
translate_to_host_path none data_dir path = path
translate_to_host_path (some host_data_dir) data_dir path =
    if (host_data_dir == []) || not (is_under data_dir path)
    then path
    else moved data_dir host_data_dir path

-- `b.destination.length - a.destination.length` is negative.
abbrev pub longer : Mount → Mount → Bool
longer a b = ltb (length b.destination) (length a.destination)

abbrev pub holds : Text → Mount → Bool
holds path mount = is_under mount.destination path

abbrev pub moved_by : Text → Mount → Text
moved_by path mount = moved mount.destination mount.source path

-- `translateContainerPathViaMount(containerPath)`; no cached mounts are the empty list.
unfoldable pub translate_container_path_via_mount : List Mount → Text → Option Text
translate_container_path_via_mount mounts path =
    Option.map (moved_by path) (find? (holds path) (sort_by longer mounts))

abbrev pub default_socket : Text
default_socket = codes "/var/run/docker.sock"

-- `s.endsWith(p)`
abbrev pub ends_with : Text → Text → Bool
ends_with [] p = p == []
ends_with (c ∷ s) p = ((c ∷ s) == p) || ends_with s p

abbrev pub is_socket : Mount → Bool
is_socket mount =
    (mount.destination == default_socket)
    || (mount.destination == codes "/run/docker.sock")
    || ends_with mount.destination (codes "/docker.sock")

abbrev socket_of : Option Mount → Text
socket_of none = default_socket
socket_of (some mount) = mount.source

-- `getHostDockerSocket()`, given `process.env.HOST_DOCKER_SOCKET`
unfoldable pub get_host_docker_socket : Option Text → List Mount → Text
get_host_docker_socket none mounts = socket_of (find? is_socket mounts)
get_host_docker_socket (some path) mounts =
    if path == [] then socket_of (find? is_socket mounts) else path

-- The digits in front of a text, and the rest.
abbrev pub uid_of : Text × Text → Option Text
uid_of ([], rest) = none
uid_of (c ∷ digits, rest) = if rest == codes "/docker.sock" then some (c ∷ digits) else none

-- `extractUidFromSocketPath(socketPath)`: /\/user\/(\d+)\/docker\.sock$/ at the first place it matches.
unfoldable pub extract_uid_from_socket_path : Text → Option Text
extract_uid_from_socket_path [] = none
extract_uid_from_socket_path (c ∷ s) =
    let rest = extract_uid_from_socket_path s in
    if starts_with (c ∷ s) (codes "/user/")
    then first_of (uid_of (span is_digit (drop 5 s))) rest
    else rest
