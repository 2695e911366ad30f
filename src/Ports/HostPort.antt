-- ===== src/Ports/HostPort.antt =====
-- `parseHostPort` and `formatHostPort`.
use sagedockhand.Common.{
  nat_beq, if◌then◌else◌, take, drop, every, span, ◌==◌, nat_eq, text_eq, ℕ, zero, suc, Bool, not,
  ◌&&◌, ◌||◌, Option, none, some, [], ◌∷◌, ◌++◌,
}
use sagedockhand.Common.Text.{Text, last_index_of, contains, trim}

pub record ParsedHostPort : Type 0 where
  pub host_ip : Text
  pub host_port : Text

-- Every code unit that `.` does not match.
abbrev pub ends_line : ℕ → Bool
ends_line c = (c == 10) || (c == 13) || (c == 0x2028) || (c == 0x2029)

abbrev pub not_closing : ℕ → Bool
not_closing c = not (c == 93)

-- The two groups of /^\[([^\]]+)\]:(.+)$/, from what stands up to the first `]`.
abbrev pub bracket_groups : Text × Text → Option ParsedHostPort
bracket_groups ([], rest) = none
bracket_groups (c ∷ ip, []) = none
bracket_groups (c ∷ ip, b ∷ []) = none
bracket_groups (c ∷ ip, b ∷ colon ∷ []) = none
bracket_groups (c ∷ ip, b ∷ colon ∷ d ∷ port) =
    if (colon == b':') && every (λ x. not (ends_line x)) (d ∷ port)
    then some (record { host_ip = c ∷ ip; host_port = d ∷ port })
    else none

unfoldable pub bracket_match : Text → Option ParsedHostPort
bracket_match [] = none
bracket_match (c ∷ s) = if c == 91 then bracket_groups (span not_closing s) else none

-- `(trimmed.match(/:/g) || []).length`
unfoldable pub count_colons : Text → ℕ
count_colons [] = 0
count_colons (c ∷ s) = let rest = count_colons s in if nat_beq c b':' then suc rest else rest

abbrev pub split_at : Text → Option ℕ → ParsedHostPort
split_at s none = record { host_ip = []; host_port = s }
split_at s (some i) = record { host_ip = take i s; host_port = drop (suc i) s }

abbrev pub by_colons : Text → ℕ → ParsedHostPort
by_colons s zero = record { host_ip = []; host_port = s }
by_colons s (suc zero) = split_at s (last_index_of b':' s)
by_colons s (suc (suc n)) = record { host_ip = s; host_port = [] }

abbrev pub unbracketed : Text → Option ParsedHostPort → ParsedHostPort
unbracketed s (some parsed) = parsed
unbracketed s none = by_colons s (count_colons s)

-- What is left of the input after `trim`.
unfoldable pub parse_trimmed : Text → ParsedHostPort
parse_trimmed [] = record { host_ip = []; host_port = [] }
parse_trimmed (c ∷ s) = unbracketed (c ∷ s) (bracket_match (c ∷ s))

-- `parseHostPort(input)`
unfoldable pub parse_host_port : Text → ParsedHostPort
parse_host_port input = parse_trimmed (trim input)

-- `formatHostPort(hostIp, hostPort)`
unfoldable pub format_host_port : Text → Text → Text
format_host_port [] host_port = host_port
format_host_port (c ∷ ip) host_port =
    if contains b':' (c ∷ ip)
    then 91 ∷ (c ∷ ip) ++ 93 ∷ b':' ∷ host_port
    else (c ∷ ip) ++ b':' ∷ host_port
