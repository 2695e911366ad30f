-- ===== src/RateLimit/Lockout.antt =====
-- When a run of failed logins locks an identifier out, and for how long.
use sagedockhand.Common.{
  ltb, leb, if◌then◌else◌, ltb→lt, Bool-cases, length, ◌==◌, eq_refl, nat_eq, text_eq, ℕ, suc, ◌+◌,
  ◌-◌, ◌/◌, ◌≤◌, ◌<◌, ◌≡◌, refl, inl, inr, true, false, ◌&&◌, none, some, List, [], ◌∷◌, arith,
}
use sagedockhand.Common.Text.{Text}
use sagedockhand.Common.JsMap.{JsMap, get, get-put}
use sagedockhand.MetricsStore.{latest}
use sagedockhand.RateLimit.{
  RateLimitEntry, Status, max_attempts, window_ms, lockout_ms, check, is_rate_limited, attempted,
  record_failed_attempt,
}
use native.Mathlib.Nat.{add-zero}

-- Failed attempts of one identifier, at the times of the list.
unfoldable pub fail_all : Text → List ℕ → JsMap Text RateLimitEntry → JsMap Text RateLimitEntry
fail_all identifier [] store = store
fail_all identifier (now ∷ times) store =
    fail_all identifier times (record_failed_attempt identifier now store)

-- Each time follows the one before it by at most the window.
abbrev pub AreClose : ℕ → List ℕ → Type 0
AreClose last [] = Unit
AreClose last (now ∷ times) = (last ≤ now) × (now ≤ last + window_ms) × AreClose now times

abbrev pub final : ℕ → List ℕ → ℕ
final last [] = last
final last (now ∷ times) = final now times

-- An entry after `count` close attempts, the last at `last`.
pub record Counts (entry : RateLimitEntry) (count last : ℕ) : Type 0 where
  pub attempts : entry.attempts ≡ count
  pub last_attempt : entry.last_attempt ≡ last
  pub locked : max_attempts ≤ count → entry.locked_until ≡ some (last + lockout_ms)
  pub free : count < max_attempts → entry.locked_until ≡ none

get-record_failed_attempt :
    (identifier other : Text) (now : ℕ) (store : JsMap Text RateLimitEntry)
    → get other (record_failed_attempt identifier now store) ≡ (
        if identifier == other
        then some (attempted (get identifier store) now)
        else get other store)
unfolding record_failed_attempt
get-record_failed_attempt identifier other now store =
    get-put identifier other (attempted (get identifier store) now) store

attempted-Counts :
    (entry : RateLimitEntry) (count last now : ℕ)
    → Counts entry count last
    → last ≤ now
    → now ≤ last + window_ms
    → Counts (attempted (some entry) now) (suc count) now
unfolding attempted
attempted-Counts entry count last now c h k = record {
  attempts = ground (arith, c.attempts, c.last_attempt);
  last_attempt = ground (arith, c.last_attempt);
  locked = λ m. ground (arith, c.attempts, c.last_attempt);
  free = λ m. ground (arith, c.attempts, c.last_attempt, c.free (omega arith));
}

fail_all-Counts :
    (identifier : Text) (times : List ℕ) (store : JsMap Text RateLimitEntry)
    (entry : RateLimitEntry) (count last : ℕ)
    → get identifier store ≡ some entry
    → Counts entry count last
    → AreClose last times
    → (e : RateLimitEntry) × (get identifier (fail_all identifier times store) ≡ some e)
      × Counts e (count + length times) (final last times)
unfolding fail_all
fail_all-Counts identifier [] store entry count last found c close = (entry, found, rw add-zero c)
fail_all-Counts identifier (now ∷ times) store entry count last found c (after, near, close) =
    let (e, kept, counted) =
      fail_all-Counts identifier times (record_failed_attempt identifier now store)
        (attempted (some entry) now) (suc count) now
        (ground (
          arith,
          get-record_failed_attempt identifier identifier now store,
          eq_refl identifier,
          found,
        ))
        (attempted-Counts entry count last now c after near) close in
    (e, kept, rw (add_suc_swap count (length times)) counted)
  where
    add_suc_swap : (a b : ℕ) → a + suc b ≡ suc a + b
    add_suc_swap a b = omega arith

-- The entry after a first failure and close ones.
fail_all-Counts_first :
    (identifier : Text) (first : ℕ) (times : List ℕ) (store : JsMap Text RateLimitEntry)
    → get identifier store ≡ none
    → AreClose first times
    → (e : RateLimitEntry) × (get identifier (fail_all identifier (first ∷ times) store) ≡ some e)
      × Counts e (1 + length times) (final first times)
unfolding fail_all attempted
fail_all-Counts_first identifier first times store absent close =
    fail_all-Counts identifier times (record_failed_attempt identifier first store)
      (record { attempts = 1; last_attempt = first; locked_until = none }) 1 first
      (ground (
        arith,
        get-record_failed_attempt identifier identifier first store,
        eq_refl identifier,
        absent,
      ))
      (record {
        attempts = refl;
        last_attempt = refl;
        locked = λ m. absurd (omega arith);
        free = λ m. refl;
      })
      close

check-locked :
    (identifier : Text) (now until : ℕ) (entry : RateLimitEntry) (store : JsMap Text RateLimitEntry)
    → entry.locked_until ≡ some until
    → now < until
    → (check identifier now (some entry) store).1
      ≡ record { limited = true; retry_after = some ((until - now + 999) / 1000) }
unfolding check
check-locked identifier now until entry store e early = ground (arith, e)

check-free :
    (identifier : Text) (now : ℕ) (entry : RateLimitEntry) (store : JsMap Text RateLimitEntry)
    → entry.locked_until ≡ none
    → (check identifier now (some entry) store).1 ≡ record { limited = false; retry_after = none }
unfolding check
check-free identifier now entry store e = ground (arith, e)

check-over :
    (identifier : Text) (now until : ℕ) (entry : RateLimitEntry) (store : JsMap Text RateLimitEntry)
    → entry.locked_until ≡ some until
    → until ≤ now
    → (check identifier now (some entry) store).1 ≡ record { limited = false; retry_after = none }
unfolding check
check-over identifier now until entry store e late = ground (arith, e)

-- Whether an identifier is limited after `failures` failures, the last at the time `latest`.
abbrev pub verdict : ℕ → ℕ → ℕ → Status
verdict failures latest now =
    if leb max_attempts failures && ltb now (latest + lockout_ms)
    then record { limited = true; retry_after = some ((latest + lockout_ms - now + 999) / 1000) }
    else record { limited = false; retry_after = none }

-- From an identifier with no entry, after failures that follow each other within the window, it is limited
-- exactly when they are five or more and 15 minutes have not passed since the last; the time to wait is given
-- in whole seconds, rounded up.
pub is_rate_limited-fail_all :
    (identifier : Text) (first : ℕ) (times : List ℕ) (store : JsMap Text RateLimitEntry) (now : ℕ)
    → get identifier store ≡ none
    → AreClose first times
    → (is_rate_limited identifier now (fail_all identifier (first ∷ times) store)).1
      ≡ verdict (suc (length times)) (final first times) now
unfolding is_rate_limited
is_rate_limited-fail_all identifier first times store now absent close =
    let (e, found, c) = fail_all-Counts_first identifier first times store absent close in
    let after = fail_all identifier (first ∷ times) store in
    let until = final first times + lockout_ms in
    elim (Bool-cases (leb max_attempts (suc (length times)))) [
      | inr few ↦ rw (found, few) (check-free identifier now e after (c.free (ground (arith, few))))
      | inl many ↦ elim (Bool-cases (ltb now until)) [
        | inl early ↦
            rw (found, many, early)
              (check-locked identifier now until e after (c.locked (ground (arith, many)))
                (ltb→lt now until early))
        | inr late ↦
            rw (found, many, late)
              (check-over identifier now until e after (c.locked (ground (arith, many)))
                (ground (arith, late)))
      ]
    ]
