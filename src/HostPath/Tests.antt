-- ===== src/HostPath/Tests.antt =====
-- A container with two mounts, and the theorems there.
use sagedockhand.Common.{IsIn, ◌≡◌, refl, true, Option, none, some, List, [], ◌∷◌, ◌++◌}
use sagedockhand.Common.Text.{Text, codes, split, join}
use sagedockhand.Common.Sort.{insert_by, sort_by}
use sagedockhand.HostPath.RewriteLaws.{rewrite_line-rewrite_line}
use sagedockhand.HostPath.MountsLaws.{
  IsTranslation, translate_container_path_via_mount-IsTranslation,
}
use sagedockhand.HostPath.Rewrite.{unchanged, rewrite_line}
use sagedockhand.HostPath.DetectLaws.{detect_host_data_dir-translates}
use sagedockhand.HostPath.Mounts.{
  Mount, is_under, translate_to_host_path, moved_by, translate_container_path_via_mount,
}
use sagedockhand.HostPath.Paths.{resolve_segments, resolve_path}
use sagedockhand.HostPath.OwnIdLaws.{IsId, get_own_container_id-IsId}
use sagedockhand.HostPath.LineLaws.{rewrite_line-plain, rewrite_line-quoted}
use sagedockhand.HostPath.Detect.{
  Environment, get_own_container_id, ContainerInfo, initial, resolved_data_dir, note_info,
  data_mount, detect_host_data_dir,
}

abbrev mounts : List Mount
mounts =
    record { source = codes "/host/data"; destination = codes "/app" }
    ∷ record { source = codes "/host/stacks"; destination = codes "/app/stacks" }
    ∷ []

abbrev path : Text
path = codes "/app/stacks/web"

path_eq : translate_container_path_via_mount mounts path ≡ some (codes "/host/stacks/web")
unfolding translate_container_path_via_mount sort_by insert_by is_under
path_eq = refl

abbrev line : Text
line = codes "  - ./conf:/etc/conf"

found :
    translate_container_path_via_mount mounts (resolve_path path (codes "./conf"))
    ≡ some (codes "/host/stacks/web/conf")
unfolding translate_container_path_via_mount sort_by insert_by is_under resolve_path
    resolve_segments split join
found = refl

rewrite_line-plain_example :
    (rewrite_line mounts path line).line ≡ codes "  - /host/stacks/web/conf:/etc/conf"
rewrite_line-plain_example =
    rewrite_line-plain mounts path (codes "  ") (codes " ") b'c' (codes "onf") b'/'
      (codes "etc/conf") b'/' (codes "host/stacks/web/conf") (refl, (refl, tt)) (refl, tt)
      (refl, (refl, (refl, (refl, tt)))) refl found

rewrite_line-quoted_example :
    rewrite_line mounts path (codes "  - \"./conf:/etc/conf\"")
    ≡ unchanged (codes "  - \"./conf:/etc/conf\"")
rewrite_line-quoted_example =
    rewrite_line-quoted mounts path (codes "  ") (codes " ") 34 b'c' (codes "onf")
      (codes "/etc/conf\"") (refl, (refl, tt)) (refl, tt) refl (refl, (refl, (refl, (refl, tt))))

rewrite_line-rewrite_line_example :
    let once = (rewrite_line mounts path line).line in
    rewrite_line mounts path once ≡ unchanged once
rewrite_line-rewrite_line_example = rewrite_line-rewrite_line mounts path (refl, (refl, tt)) line

-- Twelve hexadecimal digits as the host name, and nothing else to read.
abbrev env : Environment
env = record {
  cgroup = none;
  mountinfo = none;
  hostname = some (codes "0123456789ab");
  host_data_dir = none;
  data_dir = some (codes "/app/data");
  working_dir = codes "/";
}

get_own_container_id-IsId_example : IsId (codes "0123456789ab")
unfolding get_own_container_id
get_own_container_id-IsId_example = get_own_container_id-IsId env (codes "0123456789ab") refl

abbrev answer : Text → Option ContainerInfo
answer id = some (record { mounts = mounts; env = []; networks = none; extra_hosts = [] })

detected : (detect_host_data_dir answer env initial).1 ≡ some (codes "/host/data/data")
unfolding detect_host_data_dir get_own_container_id resolved_data_dir note_info data_mount is_under
    resolve_path resolve_segments split join
detected = refl

detect_host_data_dir-translates_example :
    let cached = (detect_host_data_dir answer env initial).0 in
    let path = resolved_data_dir env ++ b'/' ∷ codes "db" in
    (mount : Mount) × IsIn mount cached.mounts
    × (is_under mount.destination (resolved_data_dir env) ≡ true)
    × (translate_to_host_path cached.host_data_dir (resolved_data_dir env) path
        ≡ moved_by path mount)
detect_host_data_dir-translates_example =
    detect_host_data_dir-translates answer env (codes "/host/data/data") (codes "db") refl detected
      refl

translate_container_path_via_mount-IsTranslation_example :
    IsTranslation mounts path (translate_container_path_via_mount mounts path)
translate_container_path_via_mount-IsTranslation_example =
    translate_container_path_via_mount-IsTranslation mounts path
