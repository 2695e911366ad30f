-- ===== src/Hawser/Protocol.antt =====
-- `handleHawserWsMessage`: what a message on a socket does.
use sagedockhand.Common.{
  ltb, if◌then◌else◌, ◌==◌, nat_eq, text_eq, ℕ, ◌-◌, ◌*◌, Bool, false, not, ◌&&◌, Option, none,
  some, List, [], ◌∷◌, ◌++◌,
}
use sagedockhand.Common.Text.{Text, codes}
use sagedockhand.Common.JsMap.{JsMap, get, put, remove_if}
use sagedockhand.Hawser.Requests.{on_response, on_stream, on_stream_end, with_connection}
use sagedockhand.Hawser.State.{
  Hello, ResponseMessage, Connection, Outgoing, Effect, Edge, welcome_message, pong_message,
  error_message, throttled_message, metrics_message, event_message, exec_message, sent, closed,
  forwarded,
}
use sagedockhand.Hawser.Connections.{handle_edge_connection}
use sagedockhand.Hawser.Throttle.{Tracker, Verdict, record_reconnection, allowed, throttled}

abbrev pub hawser_auth_fail_cooldown_ms : ℕ
hawser_auth_fail_cooldown_ms = 5 * 60 * 1000

-- What `validateHawserToken` answers: it throws, the token is not valid or has no environment, or it has one.
pub data Validation : Type 0 where
  fails invalid : Validation
  valid : ℕ → Validation

-- A message after `JSON.parse`. Of metrics, events and executions only the kind is kept; an error has the
-- id of a request or none.
pub data HawserMessage : Type 0 where
  hello : Hello → HawserMessage
  ping pong metrics container_event exec unknown : HawserMessage
  response : Text → ResponseMessage → HawserMessage
  stream : Text → Text → HawserMessage
  stream_end : Text → Option Text → HawserMessage
  error : Option Text → HawserMessage

-- `lastFail && Date.now() - lastFail < HAWSER_AUTH_FAIL_COOLDOWN_MS`
abbrev pub is_blocked : ℕ → Option ℕ → Bool
is_blocked now none = false
is_blocked now (some last_fail) =
    not (last_fail == 0) && ltb (now - last_fail) hawser_auth_fail_cooldown_ms

abbrev pub refuse : ℕ → Outgoing → ℕ → Edge → Edge × List Effect
refuse ws message code edge = (edge, sent ws message ∷ closed ws code ∷ [])

-- What follows the throttle.
abbrev pub admit : ℕ → ℕ → Hello → ℕ → Edge → JsMap ℕ Tracker × Verdict → Edge × List Effect
admit ws env_id agent now edge (trackers, throttled seconds) =
    refuse ws (throttled_message seconds) 1008 (record edge { reconnect_tracker = trackers })
admit ws env_id agent now edge (trackers, allowed) =
    let (after, effects) =
      handle_edge_connection ws env_id agent now (record edge { reconnect_tracker = trackers }) in
    (
      record after { ws_to_env_id = put ws env_id after.ws_to_env_id },
      effects ++ sent ws welcome_message ∷ [],
    )

-- What follows the validation of the token.
abbrev pub authenticate : ℕ → Text → Hello → ℕ → Edge → Validation → Edge × List Effect
authenticate ws key agent now edge fails =
    refuse ws (error_message (codes "Authentication failed")) 1011 edge
authenticate ws key agent now edge invalid =
    refuse ws (error_message (codes "Invalid token")) 1008
      (record edge { auth_fail_cache = put key now edge.auth_fail_cache })
authenticate ws key agent now edge (valid env_id) =
    admit ws env_id agent now edge (record_reconnection env_id now edge.reconnect_tracker)

abbrev pub forward_error : ℕ → Option Text → List Effect
forward_error env_id none = []
forward_error env_id (some []) = []
forward_error env_id (some (c ∷ id)) = forwarded env_id exec_message ∷ []

-- The `switch` on the type, of a message other than `hello`.
unfoldable pub answer_message : ℕ → ℕ → HawserMessage → Connection → Connection × List Effect
answer_message ws env_id (hello agent) connection = (connection, [])
answer_message ws env_id ping connection = (connection, sent ws pong_message ∷ [])
answer_message ws env_id pong connection = (connection, [])
answer_message ws env_id metrics connection = (connection, forwarded env_id metrics_message ∷ [])
answer_message ws env_id container_event connection =
    (connection, forwarded env_id event_message ∷ [])
answer_message ws env_id exec connection = (connection, forwarded env_id exec_message ∷ [])
answer_message ws env_id unknown connection = (connection, [])
answer_message ws env_id (response id message) connection = on_response id message connection
answer_message ws env_id (stream id chunk) connection = on_stream id chunk connection
answer_message ws env_id (stream_end id reason) connection = on_stream_end id reason connection
answer_message ws env_id (error id) connection = (connection, forward_error env_id id)

abbrev pub answer_from : ℕ → HawserMessage → ℕ → Edge → Option ℕ → Edge × List Effect
answer_from ws message now edge none =
    (edge, sent ws (error_message (codes "Not authenticated")) ∷ [])
answer_from ws message now edge (some env_id) =
    with_connection env_id
      (λ connection. answer_message ws env_id message (record connection { last_heartbeat = now }))
      edge

module _ (validate : Text → Validation) where
  -- `case hello`; `key` is the address of the agent, or the id of its socket
  unfoldable pub handle_hello : ℕ → Text → Hello → ℕ → Edge → Edge × List Effect
  handle_hello ws key agent now edge =
      if is_blocked now (get key edge.auth_fail_cache)
      then refuse ws (error_message (codes "Too many failed attempts")) 1008 edge
      else if agent.token == []
      then refuse ws (error_message (codes "No token provided")) 1008 edge
      else authenticate ws key agent now edge (validate agent.token)

  -- `handleHawserWsMessage(ws, msg)`
  unfoldable pub handle_hawser_ws_message : ℕ → Text → HawserMessage → ℕ → Edge → Edge × List Effect
  handle_hawser_ws_message ws key (hello agent) now edge = handle_hello ws key agent now edge
  handle_hawser_ws_message ws key message now edge =
      answer_from ws message now edge (get ws edge.ws_to_env_id)

-- The interval that cleans the cache of failures.
unfoldable pub clean_failures : ℕ → Edge → Edge × List Effect
clean_failures now edge = (
  record edge {
    auth_fail_cache =
        remove_if (λ key stamp. ltb hawser_auth_fail_cooldown_ms (now - stamp))
          edge.auth_fail_cache;
  },
  [],
)
