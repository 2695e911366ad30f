-- ===== src/UpdateUtils/Tests.antt =====
-- Image references and summaries, and the theorems there.
use sagedockhand.Common.{◌≡◌, refl, inl, inr, true, none, some, List, [], ◌∷◌}
use sagedockhand.Common.Text.{codes, lower_code, to_lower}
use sagedockhand.UpdateUtils.SystemContainers.{
  is_dockhand_container, is_hawser_container, is_system_container, dockhand, hawser,
}
use sagedockhand.UpdateUtils.ImageName.{parse_image_name_and_tag}
use sagedockhand.UpdateUtils.Gate.{
  VulnerabilitySeverity, should_block_update, no_findings, combine_scan_summaries, critical_only,
}
use sagedockhand.UpdateUtils.GateLaws.{should_block_update-combine_scan_summaries}

port_test :
    parse_image_name_and_tag (codes "localhost:5000/app")
    ≡ (codes "localhost:5000/app", codes "latest")
unfolding parse_image_name_and_tag
port_test = refl

dockhand_test : is_system_container (codes "registry.local/Dockhand:1.0") ≡ some dockhand
unfolding is_system_container is_dockhand_container to_lower lower_code
dockhand_test = refl

hawser_test : is_system_container (codes "ghcr.io/Finsys/hawser") ≡ some hawser
unfolding is_system_container is_dockhand_container is_hawser_container to_lower lower_code
hawser_test = refl

user_test : is_system_container (codes "nginx:1.25") ≡ none
unfolding is_system_container is_dockhand_container is_hawser_container to_lower lower_code
user_test = refl

parsed_test :
    parse_image_name_and_tag (codes "localhost:5000/app:v1")
    ≡ (codes "localhost:5000/app", codes "v1")
unfolding parse_image_name_and_tag
parsed_test = refl

abbrev worst : VulnerabilitySeverity
worst = record { critical = 1; high = 0; medium = 0; low = 4; negligible = 0; unknown = 0 }

abbrev summaries : List VulnerabilitySeverity
summaries = no_findings ∷ worst ∷ []

worst_blocks : should_block_update critical_only worst none ≡ true
unfolding should_block_update
worst_blocks = refl

should_block_update-combine_scan_summaries_example :
    should_block_update critical_only (combine_scan_summaries summaries) none ≡ true
should_block_update-combine_scan_summaries_example =
    should_block_update-combine_scan_summaries critical_only worst summaries none (inr (inl refl))
      worst_blocks
