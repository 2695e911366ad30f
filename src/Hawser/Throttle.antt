-- ===== src/Hawser/Throttle.antt =====
-- `recordReconnection`: how often an agent may connect again.
use sagedockhand.Common.{
  ltb, if◌then◌else◌, length, keep, nat_eq, text_eq, ℕ, zero, suc, ◌+◌, ◌-◌, ◌*◌, ◌/◌, min, Bool,
  Option, none, some, List, [], ◌∷◌, ◌++◌,
}
use sagedockhand.Common.JsMap.{JsMap, get, put}

abbrev pub reconnect_window_ms : ℕ
reconnect_window_ms = 2 * 60 * 1000

abbrev pub reconnect_burst : ℕ
reconnect_burst = 10

pub record Tracker : Type 0 where
  pub timestamps : List ℕ
  pub cooldown_until : ℕ
  pub cooldown_level : ℕ

pub data Verdict : Type 0 where
  allowed : Verdict
  -- retryAfter, in seconds
  throttled : ℕ → Verdict

-- `COOLDOWN_LEVELS_SECS[level]`, for the levels that there are
abbrev pub cooldown_levels_secs : ℕ → ℕ
cooldown_levels_secs zero = 30
cooldown_levels_secs (suc zero) = 60
cooldown_levels_secs (suc (suc zero)) = 120
cooldown_levels_secs (suc (suc (suc level))) = 300

abbrev pub last_level : ℕ
last_level = 3

abbrev pub is_within : ℕ → ℕ → Bool
is_within now stamp = ltb (now - stamp) reconnect_window_ms

-- The time stamps in the window, with the one of now.
abbrev pub windowed : ℕ → List ℕ → List ℕ
windowed now timestamps = keep (is_within now) timestamps ++ now ∷ []

abbrev pub seconds_of : Tracker → ℕ
seconds_of entry = cooldown_levels_secs (min entry.cooldown_level last_level)

unfoldable pub track : ℕ → Option Tracker → Tracker × Verdict
track now none = (record { timestamps = now ∷ []; cooldown_until = 0; cooldown_level = 0 }, allowed)
track now (some entry) =
    let stamps = windowed now entry.timestamps in
    if ltb now entry.cooldown_until
    then (entry, throttled ((entry.cooldown_until - now + 999) / 1000))
    else if ltb reconnect_burst (length stamps)
    then (
      record {
        timestamps = stamps;
        cooldown_until = now + seconds_of entry * 1000;
        cooldown_level = min (entry.cooldown_level + 1) last_level;
      },
      throttled (seconds_of entry),
    )
    else (record entry { timestamps = stamps }, allowed)

-- `recordReconnection(envId)`, at the time `now`
unfoldable pub record_reconnection : ℕ → ℕ → JsMap ℕ Tracker → JsMap ℕ Tracker × Verdict
record_reconnection env_id now trackers =
    let (entry, verdict) = track now (get env_id trackers) in (put env_id entry trackers, verdict)
