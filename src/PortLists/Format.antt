-- ===== src/PortLists/Format.antt =====
-- `formatPorts` and `formatExposedPorts`.
use sagedockhand.Common.{
  ltb, leb, if◌then◌else◌, length, keep, ◌==◌, nat_eq, text_eq, member, unique, ℕ, zero, suc, ◌+◌,
  ◌-◌, Bool, true, false, not, ◌&&◌, Option, none, some, List, [], ◌∷◌, ◌++◌, map,
}
use sagedockhand.Common.Text.{Text, to_decimal}
use sagedockhand.Common.Sort.{sort_by}

pub record PortInfo : Type 0 where
  pub public_port : Option ℕ
  pub private_port : ℕ

pub record PortMapping : Type 0 where
  pub public_port : ℕ
  pub private_port : ℕ
  pub display : Text
  pub is_range : Bool
  pub exposed : Bool

abbrev pub mapping_of : ℕ → ℕ → PortMapping
mapping_of public private = record {
  public_port = public;
  private_port = private;
  display = to_decimal public ++ b':' ∷ to_decimal private;
  is_range = false;
  exposed = false;
}

-- `p.PublicPort || p.publicPort`, where 0 is no port
abbrev pub published : Option ℕ → Option ℕ
published none = none
published (some zero) = none
published (some (suc n)) = some (suc n)

abbrev pub mappings_with : PortInfo → Option ℕ → List PortMapping → List PortMapping
mappings_with port none rest = rest
mappings_with port (some public) rest = mapping_of public port.private_port ∷ rest

-- The published ports, as mappings.
unfoldable pub mappings : List PortInfo → List PortMapping
mappings [] = []
mappings (port ∷ ports) = mappings_with port (published port.public_port) (mappings ports)

-- The filter that keeps the first mapping of each display; `seen` has the displays before.
unfoldable pub first_displays : List Text → List PortMapping → List PortMapping
first_displays seen [] = []
first_displays seen (p ∷ ps) =
    let rest = first_displays seen ps in
    let later = first_displays (p.display ∷ seen) ps in
    if member p.display seen then rest else p ∷ later

abbrev pub lower_public : PortMapping → PortMapping → Bool
lower_public a b = ltb a.public_port b.public_port

unfoldable pub individual : List PortInfo → List PortMapping
individual ports = sort_by lower_public (first_displays [] (mappings ports))

abbrev pub range_of : PortMapping → PortMapping → PortMapping
range_of start last = record {
  public_port = start.public_port;
  private_port = start.private_port;
  display =
      to_decimal start.public_port
      ++ b'-' ∷ to_decimal last.public_port
      ++ b':' ∷ to_decimal start.private_port
      ++ b'-' ∷ to_decimal last.private_port;
  is_range = true;
  exposed = false;
}

-- `flushRange(items, start, end, result)`, where `run` has the items from `start` to `last`
unfoldable pub flush_range : PortMapping → PortMapping → List PortMapping → List PortMapping
flush_range start last run = if leb 3 (length run) then range_of start last ∷ [] else run

-- `curr.publicPort === prev.publicPort + 1 && curr.privatePort === expectedPrivate`
abbrev pub follows : PortMapping → PortMapping → PortMapping → Bool
follows start prev curr =
    (curr.public_port == prev.public_port + 1)
    && (curr.private_port == start.private_port + (curr.public_port - start.public_port))

-- The loop, with the run from `start` to `prev` that is not flushed yet.
unfoldable pub collapse_from :
    PortMapping → PortMapping → List PortMapping → List PortMapping → List PortMapping
collapse_from start prev run [] = flush_range start prev run
collapse_from start prev run (curr ∷ items) =
    let longer = collapse_from start curr (run ++ curr ∷ []) items in
    let anew = collapse_from curr curr (curr ∷ []) items in
    if follows start prev curr then longer else flush_range start prev run ++ anew

unfoldable pub collapse : List PortMapping → List PortMapping
collapse [] = []
collapse (p ∷ []) = p ∷ []
collapse (p ∷ q ∷ items) = collapse_from p p (p ∷ []) (q ∷ items)

-- `formatPorts(ports)`
unfoldable pub format_ports : List PortInfo → List PortMapping
format_ports ports = collapse (individual ports)

-- The private ports that are published.
abbrev pub published_private_with : PortInfo → Option ℕ → List ℕ → List ℕ
published_private_with port none rest = rest
published_private_with port (some public) rest = port.private_port ∷ rest

unfoldable pub published_private : List PortInfo → List ℕ
published_private [] = []
published_private (port ∷ ports) =
    published_private_with port (published port.public_port) (published_private ports)

abbrev pub is_none : Option ℕ → Bool
is_none none = true
is_none (some n) = false

abbrev pub is_exposed : List ℕ → PortInfo → Bool
is_exposed shown port =
    ltb 0 port.private_port
    && is_none (published port.public_port)
    && not (member port.private_port shown)

abbrev pub exposed_mapping : ℕ → PortMapping
exposed_mapping private = record {
  public_port = 0;
  private_port = private;
  display = to_decimal private;
  is_range = false;
  exposed = true;
}

abbrev pub private_of : PortInfo → ℕ
private_of port = port.private_port

abbrev pub lower_private : PortMapping → PortMapping → Bool
lower_private a b = ltb a.private_port b.private_port

-- `formatExposedPorts(ports)`
unfoldable pub format_exposed_ports : List PortInfo → List PortMapping
format_exposed_ports ports = sort_by lower_private (
    map exposed_mapping
      (unique (map private_of (keep (is_exposed (published_private ports)) ports))))
