-- ===== src/EnvFiles/Tests.antt =====
-- Environments and binds on small inputs, and the theorems at concrete ones.
use sagedockhand.Common.{
  All, map, true, nat_eq, text_eq, member, ◌≡◌, refl, false, List, [], ◌∷◌, ◌++◌,
}
use sagedockhand.Common.Text.{Text, codes, split, trim_start, trim_end, trim}
use sagedockhand.Common.JsMap.{put}
use sagedockhand.EnvFiles.{
  parse_line, parse_lines, parse_env_vars, InspectMount, existing_mount_targets,
  get_additional_volume_binds, bind_of, validate_docker_id_param,
}
use sagedockhand.EnvFiles.BindLaws.{missing, is_covered, get_additional_volume_binds-missing}

parsed_test :
    parse_env_vars (codes "# db\nDB_HOST = db\n1X=2\nEMPTY=\nURL=a=b\nDB_HOST=x")
    ≡ (codes "DB_HOST", codes "x") ∷ (codes "EMPTY", []) ∷ (codes "URL", codes "a=b") ∷ []
unfolding parse_env_vars parse_lines parse_line put split trim trim_start trim_end
parsed_test = refl

abbrev mounts : List InspectMount
mounts =
    record { kind = codes "volume"; name = codes "data"; destination = codes "/data" }
    ∷ record { kind = codes "volume"; name = codes "log"; destination = codes "/log" }
    ∷ []

abbrev binds : List Text
binds = codes "/srv/log:/log:ro" ∷ []

get_additional_volume_binds-missing_example :
    (get_additional_volume_binds binds [] mounts
      ≡ map bind_of (missing (existing_mount_targets binds []) mounts))
    × All
        (λ m.
          is_covered
            (existing_mount_targets (binds ++ get_additional_volume_binds binds [] mounts) [])
            m
          ≡ true)
        mounts
    × (get_additional_volume_binds (binds ++ get_additional_volume_binds binds [] mounts) [] mounts
        ≡ [])
get_additional_volume_binds-missing_example =
    get_additional_volume_binds-missing binds [] mounts ((refl, refl), ((refl, refl), tt))

binds_test : get_additional_volume_binds binds [] mounts ≡ codes "data:/data" ∷ []
unfolding get_additional_volume_binds existing_mount_targets split member
binds_test = refl

traversal_test : validate_docker_id_param (codes "..%2fetc") ≡ false
unfolding validate_docker_id_param
traversal_test = refl
