-- ===== src/Ports/Expand.antt =====
-- `expandPortBindings`.
use sagedockhand.Common.{
  if◌then◌else◌, ◌==◌, nat_eq, text_eq, ℕ, zero, suc, ◌-◌, Option, none, some, List, [], ◌∷◌, ◌++◌,
}
use sagedockhand.Common.Text.{Text, codes, to_decimal}
use sagedockhand.Common.JsMap.{JsMap, put}
use sagedockhand.Ports.Validate.{range_match}

pub record Binding : Type 0 where
  pub host_ip : Option Text
  pub host_port : Text

abbrev pub count_up : ℕ → ℕ → List ℕ
count_up start zero = []
count_up start (suc n) = start ∷ count_up (suc start) n

-- `for (let i = start; i <= end; i++)`
abbrev pub up_to : ℕ × ℕ → List ℕ
up_to (start, finish) = count_up start (suc finish - start)

-- `parseRange(port)`
unfoldable pub parse_range : Text → Option (List ℕ)
parse_range port = elim (range_match port) [ none ↦ none | some range ↦ some (up_to range) ]

abbrev pub binding_of : Text → Text → Binding
binding_of host_ip port = record {
  host_ip = if host_ip == [] then none else some host_ip;
  host_port = port;
}

abbrev pub key_of : Text → Text → Text
key_of container_port protocol = container_port ++ b'/' ∷ protocol

-- `hostPort || '0'`
abbrev pub or_random : Text → Text
or_random [] = codes "0"
or_random (c ∷ port) = c ∷ port

module _ (protocol host_ip : Text) where
  -- The loop over two ranges, up to the length of the shorter one.
  unfoldable pub bind_both : List ℕ → List ℕ → JsMap Text Binding → JsMap Text Binding
  bind_both (h ∷ hosts) (c ∷ containers) result =
      bind_both hosts containers
        (put (key_of (to_decimal c) protocol) (binding_of host_ip (to_decimal h)) result)
  bind_both _ _ result = result

  -- The loop over the range of container ports.
  unfoldable pub bind_all : Text → List ℕ → JsMap Text Binding → JsMap Text Binding
  bind_all host_port [] result = result
  bind_all host_port (c ∷ containers) result =
      bind_all host_port containers
        (put (key_of (to_decimal c) protocol) (binding_of host_ip (or_random host_port)) result)

  abbrev pub bind : Text → Text → Option (List ℕ) → Option (List ℕ) → JsMap Text Binding
  bind host_port container_port (some hosts) (some containers) = bind_both hosts containers []
  bind host_port container_port none (some containers) = bind_all host_port containers []
  bind host_port container_port _ none =
      put (key_of container_port protocol) (binding_of host_ip (or_random host_port)) []

-- `expandPortBindings(hostPort, containerPort, protocol, hostIp)`
unfoldable pub expand_port_bindings : Text → Text → Text → Text → JsMap Text Binding
expand_port_bindings host_port container_port protocol host_ip =
    bind protocol host_ip host_port container_port (parse_range host_port)
      (parse_range container_port)
