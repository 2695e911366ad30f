-- ===== src/Hawser/ThrottleLaws.antt =====
-- No agent is let in more often than the burst within a window.
use sagedockhand.Common.{
  ltb, Bool-cases, length, keep, length-append, ℕ, ◌+◌, ◌-◌, ◌/◌, ◌≤◌, ◌<◌, ◌≡◌, refl, ap, ◌∙◌, inl,
  inr, Option, none, some, List, [], ◌∷◌, ◌++◌, arith,
}
use sagedockhand.Hawser.Throttle.{
  reconnect_burst, Tracker, Verdict, is_within, windowed, seconds_of, track, allowed, throttled,
}

abbrev admit_if : Verdict → ℕ → List ℕ → List ℕ
admit_if allowed now rest = now ∷ rest
admit_if (throttled seconds) now rest = rest

-- The times at which attempts are let in, of one environment.
unfoldable pub admitted : List ℕ → Option Tracker → List ℕ
admitted [] entry = []
admitted (now ∷ times) entry =
    let step = track now entry in
    let rest = admitted times (some step.0) in admit_if step.1 now rest

-- At each of the times, fewer than `reconnect_burst` of those before are in the window.
abbrev pub IsSparse : List ℕ → List ℕ → Type 0
IsSparse before [] = Unit
IsSparse before (now ∷ after) =
    (length (keep (is_within now) before) < reconnect_burst) × IsSparse (before ++ now ∷ []) after

abbrev pub IsAscendingFrom : ℕ → List ℕ → Type 0
IsAscendingFrom last [] = Unit
IsAscendingFrom last (now ∷ times) = (last ≤ now) × IsAscendingFrom now times

abbrev count : ℕ → List ℕ → ℕ
count now stamps = length (keep (is_within now) stamps)

count-append : (now : ℕ) (xs ys : List ℕ) → count now (xs ++ ys) ≡ count now xs + count now ys
count-append now [] ys = omega arith
count-append now (x ∷ xs) ys = ground (arith, count-append now xs ys)

-- What is out of the window stays out.
count-keep :
    (now later : ℕ) (xs : List ℕ)
    → now ≤ later
    → count later (keep (is_within now) xs) ≡ count later xs
count-keep now later [] h = refl
count-keep now later (x ∷ xs) h = ground (arith, h, count-keep now later xs h)

-- The time stamps of the tracker account for the attempts that were let in.
abbrev stamps_of : Option Tracker → List ℕ
stamps_of none = []
stamps_of (some entry) = entry.timestamps

abbrev Covers : ℕ → Option Tracker → List ℕ → Type 0
Covers last entry log = (later : ℕ) → last ≤ later → count later log ≤ count later (stamps_of entry)

data IsStep (now : ℕ) (entry : Option Tracker) : Type 0 where
  lets_in :
      (track now entry).1 ≡ allowed
      → (track now entry).0.timestamps ≡ windowed now (stamps_of entry)
      → length (windowed now (stamps_of entry)) ≤ reconnect_burst
      → IsStep now entry
  counts :
      (seconds : ℕ)
      → (track now entry).1 ≡ throttled seconds
      → (track now entry).0.timestamps ≡ windowed now (stamps_of entry)
      → IsStep now entry
  cools :
      (seconds : ℕ)
      → (track now entry).1 ≡ throttled seconds
      → (track now entry).0.timestamps ≡ stamps_of entry
      → IsStep now entry

IsStep-cases : (now : ℕ) (entry : Option Tracker) → IsStep now entry
unfolding track
IsStep-cases now none = lets_in refl refl (omega arith)
IsStep-cases now (some entry) = elim (Bool-cases (ltb now entry.cooldown_until)) [
  | inl cooling ↦
      cools ((entry.cooldown_until - now + 999) / 1000) (rw cooling refl) (rw cooling refl)
  | inr free ↦ elim (Bool-cases (ltb reconnect_burst (length (windowed now entry.timestamps)))) [
    | inl burst ↦ counts (seconds_of entry) (rw (free, burst) refl) (rw (free, burst) refl)
    | inr few ↦ lets_in (rw (free, few) refl) (rw (free, few) refl) (ground (arith, few))
  ]
]

count-windowed :
    (now later : ℕ) (stamps : List ℕ)
    → now ≤ later
    → count later (windowed now stamps) ≡ count later stamps + count later (now ∷ [])
count-windowed now later stamps h =
    count-append later (keep (is_within now) stamps) (now ∷ [])
    ∙ ap (λ n. n + count later (now ∷ [])) (count-keep now later stamps h)

-- Counting an attempt keeps the account, whether it is let in or not.
Covers-windowed :
    (last now : ℕ) (entry : Option Tracker) (log : List ℕ)
    → last ≤ now
    → Covers last entry log
    → (later : ℕ) → now ≤ later
    → count later (log ++ now ∷ []) ≤ count later (windowed now (stamps_of entry))
Covers-windowed last now entry log h covers later k = omega (
  arith,
  covers later (omega arith),
  count-append later log (now ∷ []),
  count-windowed now later (stamps_of entry) k,
)

admitted-IsSparseFrom :
    (times : List ℕ) (last : ℕ) (entry : Option Tracker) (log : List ℕ)
    → IsAscendingFrom last times
    → Covers last entry log
    → IsSparse log (admitted times entry)
unfolding admitted
admitted-IsSparseFrom [] last entry log a covers = tt
admitted-IsSparseFrom (now ∷ times) last entry log (h, a) covers = elim (IsStep-cases now entry) [
  | lets_in verdict stamps few ↦ rw verdict (
    omega (
      arith,
      few,
      covers now h,
      length-append (keep (is_within now) (stamps_of entry)) (now ∷ []),
    ),
    admitted-IsSparseFrom times now (some (track now entry).0) (log ++ now ∷ []) a
        (λ later k. rw stamps (Covers-windowed last now entry log h covers later k)),
  )
  | counts seconds verdict stamps ↦ rw verdict (
      admitted-IsSparseFrom times now (some (track now entry).0) log a (λ later k. rw stamps (
        omega (
          arith,
          Covers-windowed last now entry log h covers later k,
          count-append later log (now ∷ []),
        ))))
  | cools seconds verdict stamps ↦ rw verdict (
      admitted-IsSparseFrom times now (some (track now entry).0) log a
        (λ later k. rw stamps (covers later (omega arith))))
]

-- Of attempts to connect to one environment at times that do not decrease, with no cleanup in between, at
-- most ten are let in within any two minutes: of those before each that is let in, fewer than ten are
-- within two minutes of it.
pub admitted-IsSparse :
    (times : List ℕ) → IsAscendingFrom 0 times → IsSparse [] (admitted times none)
admitted-IsSparse times a = admitted-IsSparseFrom times 0 none [] a (λ later h. omega arith)
