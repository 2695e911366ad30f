-- ===== src/Hawser/CleanupLaws.antt =====
-- What the periodic cleanup keeps.
use sagedockhand.Common.{
  ltb, Bool-cases, eq_iff, nat_eq, text_eq, ℕ, ◌-◌, ◌≡◌, refl, sym, ap, ◌∙◌, inl, inr, true, false,
  Option, none, some, [], ◌∷◌, arith,
}
use sagedockhand.Common.JsMap.{JsMap, get, IsDistinct, unless, get-remove_if, unless-eq-some}
use sagedockhand.Hawser.State.{Connection, Edge}
use sagedockhand.Hawser.Connections.{
  stable_threshold_ms, is_silent, time_out, last_stamp, is_old, is_tracker_over, clean_up,
}
use sagedockhand.Hawser.Throttle.{Tracker}

get-time_out :
    (now env_id : ℕ) (connections : JsMap ℕ Connection)
    → IsDistinct connections
    → get env_id (time_out now connections).0
      ≡ unless (λ _ connection. is_silent now connection) env_id (get env_id connections)
unfolding time_out get
get-time_out now env_id [] d = refl
get-time_out now env_id ((own, connection) ∷ connections) (fresh, d) =
    ground (arith, fresh, get-time_out now env_id connections d, eq_iff own env_id)

-- A connection that is there after the loop was there before it.
pub get-time_out-some :
    (now env_id : ℕ) (c : Connection) (connections : JsMap ℕ Connection)
    → IsDistinct connections
    → get env_id (time_out now connections).0 ≡ some c
    → get env_id connections ≡ some c
get-time_out-some now env_id c connections d h =
    (unless-eq-some (λ _ connection. is_silent now connection) env_id (get env_id connections) c
      (sym (get-time_out now env_id connections d) ∙ h)).0

pub IsDistinct-time_out :
    (now : ℕ) (connections : JsMap ℕ Connection)
    → IsDistinct connections
    → IsDistinct (time_out now connections).0
unfolding time_out
IsDistinct-time_out now [] d = tt
IsDistinct-time_out now ((own, connection) ∷ connections) (fresh, d) =
    let gone : get own (time_out now connections).0 ≡ none =
      get-time_out now own connections d ∙ rw fresh refl in
    ground (arith, gone, IsDistinct-time_out now connections d)

-- A tracker after the cleanup, by the connection that its environment has then.
abbrev pub tracker_after : ℕ → ℕ → Option Connection → Option Tracker → Option Tracker
tracker_after now env_id none tracker =
    unless (λ (_ : ℕ) (t : Tracker). is_old now (last_stamp t.timestamps)) env_id tracker
tracker_after now env_id (some connection) tracker = none

heard :
    (now : ℕ) (c : Connection)
    → is_silent now c ≡ false
    → ltb (now - c.last_heartbeat) stable_threshold_ms ≡ true
heard now c h = ground (arith, h)

tracker-cases :
    (now env_id : ℕ) (before connection : Option Connection) (tracker : Option Tracker)
    → connection ≡ unless (λ (_ : ℕ) c. is_silent now c) env_id before
    → unless (λ (_ : ℕ) t. is_tracker_over now connection t) env_id tracker
      ≡ tracker_after now env_id connection tracker
tracker-cases now env_id before none tracker h = refl
tracker-cases now env_id before (some c) none h = refl
tracker-cases now env_id none (some c) (some t) h = absurd (ground (arith, h))
tracker-cases now env_id (some b) (some c) (some t) h = elim (Bool-cases (is_silent now b)) [
  | inl silent ↦ absurd (ground (arith, h, silent))
  | inr loud ↦
      let same : c ≡ b = ground (arith, h, loud) in
      rw (heard now c (ap (is_silent now) same ∙ loud)) refl
]

-- The cleanup drops exactly the connections that were silent for more than 90 seconds; it drops the tracker
-- of every environment that has a connection after it, and of one that has none exactly when its last
-- attempt is more than ten minutes ago: where no environment has two connections or two trackers.
pub clean_up_lem :
    (now env_id : ℕ) (edge : Edge)
    → IsDistinct edge.connections
    → IsDistinct edge.reconnect_tracker
    → (get env_id (clean_up now edge).0.connections
        ≡ unless
            (λ (_ : ℕ) connection. is_silent now connection)
            env_id
            (get env_id edge.connections))
      × (get env_id (clean_up now edge).0.reconnect_tracker
          ≡ tracker_after now env_id
              (get env_id (clean_up now edge).0.connections)
              (get env_id edge.reconnect_tracker))
unfolding clean_up
clean_up_lem now env_id edge d e =
    let left = (time_out now edge.connections).0 in
    (
      get-time_out now env_id edge.connections d,
      get-remove_if (λ id tracker. is_tracker_over now (get id left) tracker) env_id
            edge.reconnect_tracker e
          ∙ tracker-cases now env_id (get env_id edge.connections) (get env_id left)
              (get env_id edge.reconnect_tracker) (get-time_out now env_id edge.connections d),
    )
