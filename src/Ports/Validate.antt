-- ===== src/Ports/Validate.antt =====
-- `validatePort` and `validateIp`.
use sagedockhand.Common.{
  ltb, leb, if◌then◌else◌, length, every, span, ◌==◌, nat_eq, text_eq, ℕ, Bool, not, ◌&&◌, ◌||◌,
  Option, none, some, List, [], ◌∷◌,
}
use sagedockhand.Common.Text.{Text, split, is_digit}
use sagedockhand.Common.Decimal.{digits_value}

-- The messages of `validatePort`; no problem is the empty text.
pub data PortProblem : Type 0 where
  start_out_of_range end_out_of_range : ℕ → PortProblem
  range_not_ascending invalid_number out_of_range : PortProblem

-- The groups of /^(\d+)-(\d+)$/, as numbers.
abbrev pub range_end : Text → Text → Option (ℕ × ℕ)
range_end start [] = none
range_end start (c ∷ finish) =
    if every is_digit (c ∷ finish)
    then some (digits_value 0 start, digits_value 0 (c ∷ finish))
    else none

abbrev pub range_groups : Text × Text → Option (ℕ × ℕ)
range_groups ([], rest) = none
range_groups (c ∷ start, []) = none
range_groups (c ∷ start, d ∷ rest) = if d == b'-' then range_end (c ∷ start) rest else none

unfoldable pub range_match : Text → Option (ℕ × ℕ)
range_match port = range_groups (span is_digit port)

abbrev pub outside : ℕ → Bool
outside n = ltb n 1 || ltb 65535 n

abbrev pub range_problem : ℕ × ℕ → Option PortProblem
range_problem (start, finish) =
    if outside start
    then some (start_out_of_range start)
    else if outside finish
    then some (end_out_of_range finish)
    else if leb finish start
    then some range_not_ascending
    else none

abbrev pub single_problem : Text → Option PortProblem
single_problem port =
    if not (every is_digit port)
    then some invalid_number
    else if outside (digits_value 0 port)
    then some out_of_range
    else none

abbrev pub problem_of : Text → Option (ℕ × ℕ) → Option PortProblem
problem_of port none = single_problem port
problem_of port (some range) = range_problem range

-- `validatePort(port)`
unfoldable pub validate_port : Text → Option PortProblem
validate_port [] = none
validate_port (c ∷ port) = problem_of (c ∷ port) (range_match (c ∷ port))

pub data IpProblem : Type 0 where
  invalid_ipv4 invalid_ip : IpProblem

-- /^\d{1,3}(\.\d{1,3}){3}$/
abbrev pub is_octet : Text → Bool
is_octet part = ltb 0 (length part) && leb (length part) 3 && every is_digit part

abbrev pub is_dotted : List Text → Bool
is_dotted parts = (length parts == 4) && every is_octet parts

-- /^[0-9a-fA-F:]+$/ of a text that is not empty
abbrev pub is_ipv6_unit : ℕ → Bool
is_ipv6_unit c =
    is_digit c || (leb b'a' c && leb c b'f') || (leb b'A' c && leb c b'F') || (c == b':')

-- `validateIp(ip)`
unfoldable pub validate_ip : Text → Option IpProblem
validate_ip [] = none
validate_ip (c ∷ ip) =
    if is_dotted (split b'.' (c ∷ ip))
    then if every (λ part. leb (digits_value 0 part) 255) (split b'.' (c ∷ ip))
      then none
      else some invalid_ipv4
    else if every is_ipv6_unit (c ∷ ip)
    then none
    else some invalid_ip
