-- ===== src/PortLists/Tests.antt =====
-- Published ports, some of them in a row.
use sagedockhand.Common.{
  nat_eq, text_eq, member, unique, ℕ, ◌≡◌, refl, none, some, List, [], ◌∷◌, map,
}
use sagedockhand.Common.Text.{Text, codes, digits, to_decimal}
use sagedockhand.Common.Sort.{insert_by, sort_by}
use sagedockhand.PortLists.Coverage.{Shows, format_ports-Shows}
use sagedockhand.PortLists.Format.{
  PortInfo, PortMapping, mappings, first_displays, individual, flush_range, collapse_from, collapse,
  format_ports, published_private, format_exposed_ports,
}

abbrev port : ℕ → ℕ → PortInfo
port public private = record { public_port = some public; private_port = private }

abbrev ports : List PortInfo
ports = port 82 82 ∷ port 80 80 ∷ port 81 81 ∷ port 80 80 ∷ port 443 8443 ∷ port 444 8444 ∷ []

abbrev in_use : PortMapping → Text
in_use mapping = mapping.display

ports_test :
    map in_use (format_ports ports) ≡ codes "80-82:80-82" ∷ codes "443:8443" ∷ codes "444:8444" ∷ []
unfolding format_ports individual mappings first_displays collapse collapse_from flush_range sort_by
    insert_by member to_decimal digits
ports_test = refl

exposed_test :
    map in_use (format_exposed_ports (record { public_port = none; private_port = 9000 } ∷ ports))
    ≡ codes "9000" ∷ []
unfolding format_exposed_ports published_private sort_by insert_by member unique to_decimal digits
exposed_test = refl

format_ports-Shows_example : Shows (individual ports) (format_ports ports)
format_ports-Shows_example = format_ports-Shows ports
