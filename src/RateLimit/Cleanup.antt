-- ===== src/RateLimit/Cleanup.antt =====
-- The invariant of the rate limiter, and that forgetting old entries frees nobody who is locked out.
use sagedockhand.Common.{
  ltb, Bool-cases, Option-cases, ◌==◌, eq_iff, nat_eq, text_eq, ℕ, ◌+◌, ◌-◌, ◌≤◌, ◌<◌, ◌≡◌, refl,
  sym, ◌≢◌, ◌⊎◌, inl, inr, true, false, Option, none, some, arith,
}
use sagedockhand.Common.Text.{Text}
use sagedockhand.Common.JsMap.{
  JsMap, get, put, remove, remove_if, IsDistinct, get-put, get-remove, IsDistinct-put,
  IsDistinct-remove, get-remove_if, get-remove_if-eq-some, IsDistinct-remove_if,
}
use sagedockhand.RateLimit.{
  RateLimitEntry, max_attempts, window_ms, lockout_ms, is_locked, check, is_rate_limited, attempted,
  record_failed_attempt, clear_rate_limit, cleanup,
}
use native.Mathlib.Decide.{dec_lt}

-- An entry is locked from the fifth attempt on, until 15 minutes after the last one.
pub record IsConsistent (entry : RateLimitEntry) : Type 0 where
  pub locked :
      max_attempts ≤ entry.attempts → entry.locked_until ≡ some (entry.last_attempt + lockout_ms)
  pub free : entry.attempts < max_attempts → entry.locked_until ≡ none

pub record IsValid (store : JsMap Text RateLimitEntry) : Type 0 where
  pub distinct : IsDistinct store
  pub consistent :
      (identifier : Text) (entry : RateLimitEntry)
      → get identifier store ≡ some entry
      → IsConsistent entry

-- What a client does: logs in wrongly, is asked about, logs in, or time passes.
pub data Call : Type 0 where
  fail : Text → ℕ → Call
  ask : Text → ℕ → Call
  succeed : Text → Call
  tick : ℕ → Call

pub perform : Call → JsMap Text RateLimitEntry → JsMap Text RateLimitEntry
perform (fail identifier now) store = record_failed_attempt identifier now store
perform (ask identifier now) store = (is_rate_limited identifier now store).0
perform (succeed identifier) store = clear_rate_limit identifier store
perform (tick now) store = cleanup now store

remove-IsValid :
    (identifier : Text) (store : JsMap Text RateLimitEntry)
    → IsValid store
    → IsValid (remove identifier store)
remove-IsValid identifier store v = record {
  distinct = IsDistinct-remove identifier store v.distinct;
  consistent = λ other entry found.
      v.consistent other entry (ground (arith, found, get-remove identifier other store));
}

attempted-IsConsistent :
    (found : Option RateLimitEntry) (now : ℕ)
    → ((entry : RateLimitEntry) → found ≡ some entry → IsConsistent entry)
    → IsConsistent (attempted found now)
unfolding attempted
attempted-IsConsistent none now c = record { locked = λ m. absurd (omega arith); free = λ m. refl }
attempted-IsConsistent (some entry) now c = record {
  locked = λ m. ground arith;
  free = λ m. ground (arith, (c entry refl).free);
}

record_failed_attempt-IsValid :
    (identifier : Text) (now : ℕ) (store : JsMap Text RateLimitEntry)
    → IsValid store
    → IsValid (record_failed_attempt identifier now store)
unfolding record_failed_attempt
record_failed_attempt-IsValid identifier now store v = record {
  distinct = IsDistinct-put identifier (attempted (get identifier store) now) store v.distinct;
  consistent = λ other entry found. elim (Bool-cases (identifier == other)) [
    | inl same ↦
        let e : attempted (get identifier store) now ≡ entry = ground (
          arith,
          found,
          same,
          get-put identifier other (attempted (get identifier store) now) store,
        ) in
        rw (← e) (attempted-IsConsistent (get identifier store) now (v.consistent identifier))
    | inr differ ↦ v.consistent other entry (
        ground (
          arith,
          found,
          differ,
          get-put identifier other (attempted (get identifier store) now) store,
        ))
  ];
}

cleanup-IsValid :
    (now : ℕ) (store : JsMap Text RateLimitEntry) → IsValid store → IsValid (cleanup now store)
unfolding cleanup
cleanup-IsValid now store v =
    let picked = λ (_ : Text) (entry : RateLimitEntry). ltb window_ms (now - entry.last_attempt) in
    record {
      distinct = IsDistinct-remove_if picked store v.distinct;
      consistent = λ other entry found.
          v.consistent other entry
            (get-remove_if-eq-some picked other entry store v.distinct found).0;
    }

check-cases :
    (identifier : Text) (now : ℕ) (found : Option RateLimitEntry)
    (store : JsMap Text RateLimitEntry)
    → ((check identifier now found store).0 ≡ store)
      ⊎ ((check identifier now found store).0 ≡ remove identifier store)
unfolding check
check-cases identifier now none store = inl refl
check-cases identifier now (some entry) store = ground arith

is_rate_limited-IsValid :
    (identifier : Text) (now : ℕ) (store : JsMap Text RateLimitEntry)
    → IsValid store
    → IsValid (is_rate_limited identifier now store).0
unfolding is_rate_limited
is_rate_limited-IsValid identifier now store v =
    elim (check-cases identifier now (get identifier store) store) [
      | inl same ↦ rw same v
      | inr removed ↦ rw removed (remove-IsValid identifier store v)
    ]

-- Every operation keeps the invariant: keys are distinct, and an entry is locked exactly from the fifth
-- attempt on, until 15 minutes after the last one.
pub perform-IsValid :
    (call : Call) (store : JsMap Text RateLimitEntry) → IsValid store → IsValid (perform call store)
unfolding perform clear_rate_limit
perform-IsValid (fail identifier now) store v = record_failed_attempt-IsValid identifier now store v
perform-IsValid (ask identifier now) store v = is_rate_limited-IsValid identifier now store v
perform-IsValid (succeed identifier) store v = remove-IsValid identifier store v
perform-IsValid (tick now) store v = cleanup-IsValid now store v

IsConsistent-cases :
    (entry : RateLimitEntry)
    → IsConsistent entry
    → (entry.locked_until ≡ none) ⊎ (entry.locked_until ≡ some (entry.last_attempt + lockout_ms))
IsConsistent-cases entry c = elim (dec_lt entry.attempts max_attempts) [
  | yes few ↦ inl (c.free few)
  | no many ↦ inr (c.locked (omega arith))
]

-- An entry that a sweep drops does not lock.
old_entry-free :
    (identifier : Text) (now later : ℕ) (entry : RateLimitEntry) (store : JsMap Text RateLimitEntry)
    → IsConsistent entry
    → ltb window_ms (now - entry.last_attempt) ≡ true
    → now ≤ later
    → (check identifier later (some entry) store).1 ≡ record { limited = false; retry_after = none }
unfolding check is_locked
old_entry-free identifier now later entry store c old after = elim (IsConsistent-cases entry c) [
  | inl free ↦ ground (arith, free)
  | inr locked ↦ ground (arith, locked)
]

check_same_status :
    (identifier : Text) (now : ℕ) (found : Option RateLimitEntry)
    (store store' : JsMap Text RateLimitEntry)
    → (check identifier now found store).1 ≡ (check identifier now found store').1
unfolding check
check_same_status identifier now none store store' = refl
check_same_status identifier now (some entry) store store' = ground arith

-- The periodic cleanup frees nobody: in a valid store, whether an identifier is limited at that time or
-- later, and for how long, is answered the same before and after it.
pub is_rate_limited-cleanup :
    (identifier : Text) (now later : ℕ) (store : JsMap Text RateLimitEntry)
    → IsValid store
    → now ≤ later
    → (is_rate_limited identifier later (cleanup now store)).1
      ≡ (is_rate_limited identifier later store).1
unfolding is_rate_limited cleanup
is_rate_limited-cleanup identifier now later store v after =
    let picked = λ (_ : Text) (entry : RateLimitEntry). ltb window_ms (now - entry.last_attempt) in
    rw (get-remove_if picked identifier store v.distinct)
      (elim (Option-cases (get identifier store)) [
        | inl absent ↦ rw absent refl
        | inr (entry, found) ↦ elim (Bool-cases (picked identifier entry)) [
          | inl old ↦
              rw (found, old)
                (sym (
                  old_entry-free identifier now later entry store
                    (v.consistent identifier entry found) old after))
          | inr recent ↦
              rw (found, recent)
                (check_same_status identifier later (some entry) (remove_if picked store) store)
        ]
      ])

-- An identifier's failures and successes leave every other identifier's answer as it was.
pub is_rate_limited_ne :
    (identifier other : Text) (now later : ℕ) (store : JsMap Text RateLimitEntry)
    → identifier ≢ other
    → ((is_rate_limited other later (record_failed_attempt identifier now store)).1
        ≡ (is_rate_limited other later store).1)
      × ((is_rate_limited other later (clear_rate_limit identifier store)).1
          ≡ (is_rate_limited other later store).1)
unfolding is_rate_limited record_failed_attempt clear_rate_limit
is_rate_limited_ne identifier other now later store ne =
    let differ : (identifier == other) ≡ false = ground (arith, eq_iff identifier other) in
    (
      rw (get-put, differ)
          (check_same_status other later (get other store)
            (put identifier (attempted (get identifier store) now) store) store),
      rw (get-remove, differ)
          (check_same_status other later (get other store) (remove identifier store) store),
    )
