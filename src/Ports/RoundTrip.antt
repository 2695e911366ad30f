-- ===== src/Ports/RoundTrip.antt =====
-- What is printed is parsed again.
use sagedockhand.Common.{
  Bool-cases, every, take_append, All, All-append, span_append, ◌==◌, nat_eq, text_eq, ℕ, ◌+◌, ◌≡◌,
  refl, inl, inr, Bool, true, false, not, ◌||◌, [], ◌∷◌, ◌++◌, arith,
}
use sagedockhand.Common.Text.{
  Text, contains, is_digit, is_space, trim_start, trim_end, trim, last_index_of-append, drop-suc,
}
use sagedockhand.Ports.HostPort.{
  ends_line, not_closing, bracket_match, count_colons, parse_trimmed, parse_host_port,
  format_host_port,
}

-- Without white space at its ends, `trim` leaves a text alone.
trim_end-All : (s : Text) → All (λ c. is_space c ≡ false) s → trim_end s ≡ s
unfolding trim_end
trim_end-All [] h = refl
trim_end-All (c ∷ []) (p, h) = rw p refl
trim_end-All (c ∷ d ∷ s) (p, h) = rw (trim_end-All (d ∷ s) h) refl

trim-All : (s : Text) → All (λ c. is_space c ≡ false) s → trim s ≡ s
unfolding trim trim_start
trim-All [] h = trim_end-All [] h
trim-All (c ∷ s) (p, h) = rw p (trim_end-All (c ∷ s) (p, h))

-- An address: no white space and no bracket.
pub record IsAddress (ip : Text) : Type 0 where
  pub no_space : All (λ c. is_space c ≡ false) ip
  pub no_opening : All (λ c. (c == 91) ≡ false) ip
  pub no_closing : All (λ c. not_closing c ≡ true) ip

-- A code unit of a port or of a range.
abbrev pub is_port_unit : ℕ → Bool
is_port_unit c = is_digit c || (c == b'-')

count_colons-contains : (s : Text) → contains b':' s ≡ false → count_colons s ≡ 0
unfolding count_colons
count_colons-contains [] h = refl
count_colons-contains (c ∷ s) h = ground (arith, h, count_colons-contains s)

count_colons-append : (s t : Text) → count_colons (s ++ t) ≡ count_colons s + count_colons t
unfolding count_colons
count_colons-append [] t = omega arith
count_colons-append (c ∷ s) t = ground (arith, count_colons-append s t)

port-plain :
    (port : Text)
    → All (λ c. is_port_unit c ≡ true) port
    → (contains b':' port ≡ false)
      × All (λ c. is_space c ≡ false) port
      × (every (λ x. not (ends_line x)) port ≡ true)
port-plain [] h = ground arith
port-plain (c ∷ port) (p, h) = ground (arith, p, port-plain port h)

-- A port alone.
parse_trimmed-port :
    (d : ℕ) (port : Text)
    → All (λ c. is_port_unit c ≡ true) (d ∷ port)
    → parse_trimmed (d ∷ port) ≡ record { host_ip = []; host_port = d ∷ port }
unfolding parse_trimmed bracket_match
parse_trimmed-port d port (p, h) =
    let not_open : (d == 91) ≡ false = ground (arith, p) in
    let (plain, spaces, line) = port-plain (d ∷ port) (p, h) in
    rw (not_open, count_colons-contains (d ∷ port) plain) refl

-- A bracketed address and a port.
parse_trimmed-bracket :
    (c : ℕ) (ip : Text) (d : ℕ) (port : Text)
    → All (λ x. not_closing x ≡ true) (c ∷ ip)
    → every (λ x. not (ends_line x)) (d ∷ port) ≡ true
    → parse_trimmed (91 ∷ (c ∷ ip) ++ 93 ∷ b':' ∷ d ∷ port)
      ≡ record { host_ip = c ∷ ip; host_port = d ∷ port }
unfolding parse_trimmed bracket_match
parse_trimmed-bracket c ip d port h line =
    rw (span_append not_closing (c ∷ ip) 93 (b':' ∷ d ∷ port) h refl, line) refl

count-one :
    (ip port : Text)
    → contains b':' ip ≡ false
    → contains b':' port ≡ false
    → count_colons (ip ++ b':' ∷ port) ≡ 1
unfolding count_colons
count-one ip port h k = ground (
  arith,
  count_colons-append ip (b':' ∷ port),
  count_colons-contains ip h,
  count_colons-contains port k,
)

-- An address without colon and a port.
parse_trimmed-colon :
    (c : ℕ) (ip port : Text)
    → (c == 91) ≡ false
    → contains b':' (c ∷ ip) ≡ false
    → contains b':' port ≡ false
    → parse_trimmed ((c ∷ ip) ++ b':' ∷ port) ≡ record { host_ip = c ∷ ip; host_port = port }
unfolding parse_trimmed bracket_match
parse_trimmed-colon c ip port not_open h k =
    rw
      (
        not_open,
        count-one (c ∷ ip) port h k,
        last_index_of-append b':' (c ∷ ip) port k,
        take_append ip (b':' ∷ port),
        drop-suc b':' ip port,
      )
      refl

spaces-append :
    (ip rest : Text)
    → All (λ c. is_space c ≡ false) ip
    → All (λ c. is_space c ≡ false) rest
    → trim (ip ++ rest) ≡ ip ++ rest
spaces-append ip rest h k = trim-All (ip ++ rest) (All-append (λ c. is_space c ≡ false) ip rest h k)

-- An address without white space and brackets, which may be empty, and a port of digits and dashes, which
-- is not, are found again in what `formatHostPort` prints for them.
pub parse_host_port-format_host_port :
    (ip : Text) (d : ℕ) (port : Text)
    → IsAddress ip
    → All (λ c. is_port_unit c ≡ true) (d ∷ port)
    → parse_host_port (format_host_port ip (d ∷ port))
      ≡ record { host_ip = ip; host_port = d ∷ port }
unfolding parse_host_port format_host_port
parse_host_port-format_host_port [] d port hi hp =
    let (plain, spaces, line) = port-plain (d ∷ port) hp in
    rw (trim-All (d ∷ port) spaces) (parse_trimmed-port d port hp)
parse_host_port-format_host_port (c ∷ ip) d port hi hp =
    let (plain, spaces, line) = port-plain (d ∷ port) hp in
    elim (Bool-cases (contains b':' (c ∷ ip))) [
      | inl colons ↦
          rw
            (
              colons,
              spaces-append (91 ∷ c ∷ ip) (93 ∷ b':' ∷ d ∷ port) (refl, hi.no_space)
                  (refl, (refl, spaces)),
            )
            (parse_trimmed-bracket c ip d port hi.no_closing line)
      | inr none_in ↦
          rw (none_in, spaces-append (c ∷ ip) (b':' ∷ d ∷ port) hi.no_space (refl, spaces))
            (parse_trimmed-colon c ip (d ∷ port) hi.no_opening.0 none_in plain)
    ]
