-- ===== src/RateLimit.antt =====
-- src/lib/server/auth.ts, "Rate Limiting": failed logins of each identifier, in memory. Times are
-- milliseconds of `Date.now()`, given as `now`; a difference that would be negative is 0, which every
-- test of it treats alike.
pub mod Lockout
pub mod Cleanup
mod Tests
use sagedockhand.Common.{
  ltb, leb, if◌then◌else◌, ◌==◌, nat_eq, text_eq, ℕ, ◌+◌, ◌-◌, ◌*◌, ◌/◌, Bool, true, false, not,
  ◌&&◌, Option, none, some,
}
use sagedockhand.Common.Text.{Text}
use sagedockhand.Common.JsMap.{JsMap, get, put, remove, remove_if}

pub record RateLimitEntry : Type 0 where
  pub attempts : ℕ
  pub last_attempt : ℕ
  pub locked_until : Option ℕ

pub record Status : Type 0 where
  pub limited : Bool
  pub retry_after : Option ℕ

abbrev pub max_attempts : ℕ
max_attempts = 5

abbrev pub window_ms : ℕ
window_ms = 15 * 60 * 1000

abbrev pub lockout_ms : ℕ
lockout_ms = 15 * 60 * 1000

-- `entry.lockedUntil && entry.lockedUntil > now`
pub is_locked : Option ℕ → ℕ → Bool
is_locked none now = false
is_locked (some until) now = not (until == 0) && ltb now until

-- `Math.ceil((entry.lockedUntil - now) / 1000)`
pub seconds_left : Option ℕ → ℕ → Option ℕ
seconds_left none now = none
seconds_left (some until) now = some ((until - now + 999) / 1000)

-- The body of `isRateLimited` on the entry that it finds.
pub check :
    Text
    → ℕ
    → Option RateLimitEntry
    → JsMap Text RateLimitEntry
    → JsMap Text RateLimitEntry × Status
unfolding remove is_locked seconds_left
check identifier now none store = (store, record { limited = false; retry_after = none })
check identifier now (some entry) store =
    if is_locked entry.locked_until now
    then (store, record { limited = true; retry_after = seconds_left entry.locked_until now })
    else if ltb window_ms (now - entry.last_attempt)
    then (remove identifier store, record { limited = false; retry_after = none })
    else (store, record { limited = false; retry_after = none })

-- `isRateLimited(identifier)`
unfoldable pub is_rate_limited :
    Text → ℕ → JsMap Text RateLimitEntry → JsMap Text RateLimitEntry × Status
unfolding get check
is_rate_limited identifier now store = check identifier now (get identifier store) store

-- The entry that `recordFailedAttempt` leaves: a new one, or the old one written in place.
pub attempted : Option RateLimitEntry → ℕ → RateLimitEntry
attempted none now = record { attempts = 1; last_attempt = now; locked_until = none }
attempted (some entry) now =
    if ltb window_ms (now - entry.last_attempt)
    then record { attempts = 1; last_attempt = now; locked_until = none }
    else record {
      attempts = entry.attempts + 1;
      last_attempt = now;
      locked_until =
          if leb max_attempts (entry.attempts + 1)
          then some (now + lockout_ms)
          else entry.locked_until;
    }

-- `recordFailedAttempt(identifier)`
unfoldable pub record_failed_attempt :
    Text → ℕ → JsMap Text RateLimitEntry → JsMap Text RateLimitEntry
unfolding get put attempted
record_failed_attempt identifier now store =
    put identifier (attempted (get identifier store) now) store

-- `clearRateLimit(identifier)`
pub clear_rate_limit : Text → JsMap Text RateLimitEntry → JsMap Text RateLimitEntry
unfolding remove
clear_rate_limit identifier store = remove identifier store

-- The callback of the cleanup interval.
pub cleanup : ℕ → JsMap Text RateLimitEntry → JsMap Text RateLimitEntry
unfolding remove_if
cleanup now store =
    remove_if (λ key (entry : RateLimitEntry). ltb window_ms (now - entry.last_attempt)) store
