-- ===== src/Ports/Tests.antt =====
-- Ports, ranges and addresses, and the round trip there.
use sagedockhand.Common.{nat_eq, text_eq, ◌≡◌, refl, none, some, []}
use sagedockhand.Common.Text.{codes, split, trim_start, trim_end, trim, digits, to_decimal}
use sagedockhand.Common.JsMap.{get, put}
use sagedockhand.Ports.Validate.{
  range_match, validate_port, validate_ip, range_not_ascending, invalid_ipv4,
}
use sagedockhand.Ports.Expand.{parse_range, bind_both, expand_port_bindings}
use sagedockhand.Ports.RoundTrip.{IsAddress, parse_host_port-format_host_port}
use sagedockhand.Ports.HostPort.{
  bracket_match, count_colons, parse_trimmed, parse_host_port, format_host_port,
}

range_test :
    get
      (codes "9001/tcp")
      (expand_port_bindings (codes "8000-8005") (codes "9000-9005") (codes "tcp") [])
    ≡ some (record { host_ip = none; host_port = codes "8001" })
unfolding expand_port_bindings parse_range range_match bind_both put get to_decimal digits
range_test = refl

order_test : validate_port (codes "90-80") ≡ some range_not_ascending
unfolding validate_port range_match
order_test = refl

octet_test : validate_ip (codes "10.0.0.256") ≡ some invalid_ipv4
unfolding validate_ip split
octet_test = refl

-- An IPv6 address without a port is printed in brackets with a colon, which is not parsed as such.
no_port_test :
    parse_host_port (format_host_port (codes "::1") [])
    ≡ record { host_ip = codes "[::1]:"; host_port = [] }
unfolding parse_host_port format_host_port parse_trimmed bracket_match count_colons trim trim_start
    trim_end
no_port_test = refl

-- A port after an IPv6 address without brackets is taken for a part of the address.
bare_test :
    parse_host_port (codes "::1:8080") ≡ record { host_ip = codes "::1:8080"; host_port = [] }
unfolding parse_host_port parse_trimmed bracket_match count_colons trim trim_start trim_end
bare_test = refl

local-IsAddress : IsAddress (codes "::1")
local-IsAddress = record {
  no_space = (refl, (refl, (refl, tt)));
  no_opening = (refl, (refl, (refl, tt)));
  no_closing = (refl, (refl, (refl, tt)));
}

parse_host_port-format_host_port_example :
    parse_host_port (format_host_port (codes "::1") (codes "80"))
    ≡ record { host_ip = codes "::1"; host_port = codes "80" }
parse_host_port-format_host_port_example =
    parse_host_port-format_host_port (codes "::1") b'8' (codes "0") local-IsAddress
      (refl, (refl, tt))
