-- ===== src/Common/Text.antt =====
-- A JavaScript string as the list of its UTF-16 code units, and the methods that the code calls.
use Prim.Native.Char.{code}
use Prim.Native.Nat.{ℕ, zero, suc, ◌+◌, ◌/◌, ◌%◌, ◌≤◌}
use Prim.Native.String.{String}
use mathlib.Core.Path.{◌≡◌, refl}
use native.Mathlib.Omega.{arith}
use sagedockhand.Common.Lists.{length, drop}
use mathlib.Core.Bool.{Bool, true, false, ◌&&◌, ◌||◌}
use mathlib.Core.List.{List, [], ◌∷◌, ◌++◌, map}
use mathlib.Core.Option
use mathlib.Core.Option.{Option, none, some}
use sagedockhand.Common.Tests.{leb, ltb, nat_beq, if◌then◌else◌}

abbrev pub Text : Type 0
Text = List ℕ

-- The code units of a literal: exact for the Basic Multilingual Plane.
abbrev pub codes : String → Text
codes String.[] = []
codes (String.◌∷◌ letter rest) = code letter ∷ codes rest

-- `s.startsWith(p)`
abbrev pub starts_with : Text → Text → Bool
starts_with s [] = true
starts_with [] (c ∷ p) = false
starts_with (d ∷ s) (c ∷ p) = nat_beq d c && starts_with s p

-- `s.includes(p)`
abbrev pub includes : Text → Text → Bool
includes [] p = starts_with [] p
includes (d ∷ s) p = starts_with (d ∷ s) p || includes s p

-- `s.indexOf(c)` for one code unit; `none` is -1.
abbrev pub index_of : ℕ → Text → Option ℕ
index_of c [] = none
index_of c (d ∷ s) = if nat_beq d c then some 0 else Option.map suc (index_of c s)

-- `s.lastIndexOf(c)` for one code unit; `none` is -1.
abbrev pub last_index_of : ℕ → Text → Option ℕ
last_index_of c [] = none
last_index_of c (d ∷ s) = elim (last_index_of c s) [
  | some i ↦ some (suc i)
  | none ↦ if nat_beq d c then some 0 else none
]

abbrev pub contains : ℕ → Text → Bool
contains c [] = false
contains c (d ∷ s) = nat_beq d c || contains c s

-- `s.split(c)` for one code unit; never empty.
abbrev pub glue : ℕ → List Text → List Text
glue d [] = (d ∷ []) ∷ []
glue d (part ∷ parts) = (d ∷ part) ∷ parts

unfoldable pub split : ℕ → Text → List Text
split c [] = [] ∷ []
split c (d ∷ s) = if nat_beq d c then [] ∷ split c s else glue d (split c s)

-- `parts.join(c)` for one code unit.
unfoldable pub join : ℕ → List Text → Text
join c [] = []
join c (part ∷ []) = part
join c (part ∷ next ∷ parts) = part ++ c ∷ join c (next ∷ parts)

abbrev pub is_digit : ℕ → Bool
is_digit c = leb b'0' c && leb c b'9'

abbrev pub is_upper : ℕ → Bool
is_upper c = leb b'A' c && leb c b'Z'

-- The white space of `trim` and of `\s` in a regular expression (the Unicode spaces included).
abbrev pub is_space : ℕ → Bool
is_space c =
    (leb 9 c && leb c 13)
    || nat_beq c 32
    || nat_beq c 160
    || nat_beq c 0x1680
    || (leb 0x2000 c && leb c 0x200a)
    || nat_beq c 0x2028
    || nat_beq c 0x2029
    || nat_beq c 0x202f
    || nat_beq c 0x205f
    || nat_beq c 0x3000
    || nat_beq c 0xfeff

unfoldable pub trim_start : Text → Text
trim_start [] = []
trim_start (c ∷ s) = if is_space c then trim_start s else c ∷ s

unfoldable pub trim_end : Text → Text
trim_end [] = []
trim_end (c ∷ s) = elim (trim_end s) [ [] ↦ if is_space c then [] else c ∷ [] | d ∷ r ↦ c ∷ d ∷ r ]

unfoldable pub trim : Text → Text
unfolding trim_start trim_end
trim s = trim_end (trim_start s)

-- `s.toLowerCase()` on ASCII letters; other code units are left alone.
unfoldable pub lower_code : ℕ → ℕ
lower_code c = if is_upper c then c + 32 else c

unfoldable pub to_lower : Text → Text
unfolding lower_code
to_lower s = map lower_code s

pub length-starts_with : (s t : Text) → starts_with s t ≡ true → length t ≤ length s
length-starts_with s [] h = omega arith
length-starts_with [] (c ∷ t) h = absurd (ground (arith, h))
length-starts_with (d ∷ s) (c ∷ t) h = ground (arith, h, length-starts_with s t)

pub starts_with-append : (s t u : Text) → starts_with (s ++ t ++ u) (s ++ t) ≡ true
starts_with-append [] [] u = ground arith
starts_with-append [] (c ∷ t) u = ground (arith, starts_with-append [] t u)
starts_with-append (c ∷ s) t u = ground (arith, starts_with-append s t u)

-- The decimal digits of a number: a number has no more digits than its successor counts.
unfoldable pub digits : ℕ → ℕ → Text
digits zero n = []
digits (suc fuel) n =
    let before = digits fuel (n / 10) in
    if ltb n 10 then (b'0' + n) ∷ [] else before ++ (b'0' + n % 10) ∷ []

unfoldable pub to_decimal : ℕ → Text
unfolding digits
to_decimal n = digits (suc n) n

last_index_of-none : (c : ℕ) (t : Text) → contains c t ≡ false → last_index_of c t ≡ none
last_index_of-none c [] h = refl
last_index_of-none c (d ∷ t) h = ground (arith, h, last_index_of-none c t)

pub last_index_of-append :
    (c : ℕ) (s t : Text) → contains c t ≡ false → last_index_of c (s ++ c ∷ t) ≡ some (length s)
last_index_of-append c [] t h = ground (arith, last_index_of-none c t h)
last_index_of-append c (d ∷ s) t h = rw (last_index_of-append c s t h) refl

pub drop-suc : (c : ℕ) (s t : Text) → drop (suc (length s)) (s ++ c ∷ t) ≡ t
drop-suc c [] t = refl
drop-suc c (d ∷ s) t = drop-suc c s t

-- The text of all chunks.
abbrev pub concatenated : List Text → Text
concatenated [] = []
concatenated (chunk ∷ chunks) = chunk ++ concatenated chunks
