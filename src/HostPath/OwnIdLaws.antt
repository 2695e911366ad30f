-- ===== src/HostPath/OwnIdLaws.antt =====
-- `getOwnContainerId`: what counts as the id of the own container.
use sagedockhand.Common.{
  if◌then◌else◌, Bool-cases, first_of, and_then, length, take, drop, every, ◌==◌, nat_eq, text_eq,
  ℕ, ◌≡◌, ◌⊎◌, inl, inr, true, ◌&&◌, Option, none, some, [], ◌∷◌, arith,
}
use sagedockhand.Common.Text.{Text, starts_with}
use sagedockhand.HostPath.Detect.{
  is_hex, hex_front, match_hex, marker, match_container, match_hostname, Environment,
  get_own_container_id,
}

-- A container id, in its long or its short form.
pub record IsId (id : Text) : Type 0 where
  pub hex : every is_hex id ≡ true
  pub units : (length id ≡ 64) ⊎ (length id ≡ 12)

guarded :
    (n : ℕ) (t id : Text)
    → (if (length t == n) && every is_hex t then some t else none) ≡ some id
    → (every is_hex id ≡ true) × (length id ≡ n)
guarded n t id h = elim (Bool-cases ((length t == n) && every is_hex t)) [
  | inr short ↦ absurd (ground (arith, h, short))
  | inl fits ↦ let same : t ≡ id = ground (arith, h, fits) in rw (← same) (ground (arith, fits))
]

first_of-Is :
    (P : Text → Type 0) (a b : Option Text)
    → ((t : Text) → a ≡ some t → P t)
    → ((t : Text) → b ≡ some t → P t)
    → (t : Text) → first_of a b ≡ some t
    → P t
first_of-Is P none b f g t h = g t h
first_of-Is P (some found) b f g t h = f t h

IsLong : Text → Type 0
IsLong t = (every is_hex t ≡ true) × (length t ≡ 64)

match_hex-IsLong : (s id : Text) → match_hex s ≡ some id → IsLong id
unfolding match_hex IsLong
match_hex-IsLong [] id h = absurd (ground (arith, h))
match_hex-IsLong (c ∷ s) id h =
    first_of-Is IsLong (hex_front 64 (c ∷ s)) (match_hex s) (guarded 64 (take 64 (c ∷ s)))
      (match_hex-IsLong s) id h

match_container-IsLong : (s id : Text) → match_container s ≡ some id → IsLong id
unfolding match_container IsLong
match_container-IsLong [] id h = absurd (ground (arith, h))
match_container-IsLong (c ∷ s) id h = elim (Bool-cases (starts_with (c ∷ s) marker)) [
  | inl here ↦
      first_of-Is IsLong (hex_front 64 (drop (length marker) (c ∷ s))) (match_container s)
        (guarded 64 (take 64 (drop (length marker) (c ∷ s)))) (match_container-IsLong s) id
        (rw here at h)
  | inr elsewhere ↦ match_container-IsLong s id (rw elsewhere at h)
]

-- Whatever the process can read, an id that it takes for its own container is hexadecimal and has the
-- length of a long or of a short container id.
pub get_own_container_id-IsId :
    (env : Environment) (id : Text) → get_own_container_id env ≡ some id → IsId id
unfolding get_own_container_id IsLong
get_own_container_id-IsId env =
    first_of-Is IsId (and_then env.cgroup match_hex)
      (first_of (and_then env.mountinfo match_container) (and_then env.hostname match_hostname))
      (λ id h. long id (and_then-IsLong match_hex match_hex-IsLong env.cgroup id h))
      (first_of-Is IsId (and_then env.mountinfo match_container)
        (and_then env.hostname match_hostname)
        (λ id h.
          long id (and_then-IsLong match_container match_container-IsLong env.mountinfo id h))
        (short env.hostname))
  where
    long : (id : Text) → IsLong id → IsId id
    long id (h, n) = record { hex = h; units = inl n }

    and_then-IsLong :
        (f : Text → Option Text)
        → ((s id : Text) → f s ≡ some id → IsLong id)
        → (o : Option Text) (id : Text) → and_then o f ≡ some id
        → IsLong id
    and_then-IsLong f k none id h = absurd (ground (arith, h))
    and_then-IsLong f k (some s) id h = k s id h

    short : (o : Option Text) (id : Text) → and_then o match_hostname ≡ some id → IsId id
    short none id h = absurd (ground (arith, h))
    short (some s) id h = let (hex, n) = guarded 12 s id h in record { hex = hex; units = inr n }
