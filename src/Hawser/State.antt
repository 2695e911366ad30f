-- ===== src/Hawser/State.antt =====
-- The tables of the module, and what its functions do to sockets, promises and callbacks.
use sagedockhand.Common.{nat_eq, text_eq, ℕ, Bool, Option, List}
use sagedockhand.Common.Text.{Text}
use sagedockhand.Common.JsMap.{JsMap, put}
use sagedockhand.Hawser.Throttle.{Tracker}

pub record Hello : Type 0 where
  pub token : Text
  pub agent_id : Text
  pub agent_name : Text
  pub version : Text
  pub docker_version : Text
  pub hostname : Text
  pub capabilities : List Text

-- A missing list of headers is empty, other missing parts are `none`.
pub record ResponseMessage : Type 0 where
  pub status_code : ℕ
  pub headers : JsMap Text Text
  pub body : Option Text
  pub is_binary : Option Bool

-- What waits for the data of a stream: a request, with the data so far, or the callbacks of a caller.
pub data Stream : Type 0 where
  collecting : List Text → Stream
  relaying : Stream

-- `pending_requests` tells of each request whether it is streaming.
pub record Connection : Type 0 where
  pub id : ℕ
  pub ws : ℕ
  pub agent : Hello
  pub connected_at : ℕ
  pub last_heartbeat : ℕ
  pub pending_requests : JsMap Text Bool
  pub pending_stream_requests : JsMap Text Stream
  pub ping_interval : Bool

pub data Outgoing : Type 0 where
  -- requestId, streaming
  request : Text → Bool → Outgoing
  stream_cancelled : Text → Outgoing
  welcome_message pong_message : Outgoing
  error_message : Text → Outgoing
  -- retryAfter
  throttled_message : ℕ → Outgoing

pub data Forwarded : Type 0 where
  metrics_message event_message exec_message : Forwarded

pub data Effect : Type 0 where
  resolved : Text → ResponseMessage → Effect
  collected : Text → List Text → Effect
  rejected : Text → Text → Effect
  relayed : Text → Text → Effect
  relay_ended : Text → Option Text → Effect
  relay_failed : Text → Text → Effect
  sent : ℕ → Outgoing → Effect
  -- the socket, the code
  closed : ℕ → ℕ → Effect
  terminated : ℕ → Effect
  -- `updateEnvironmentStatus(environmentId, connection)`
  status_changed : ℕ → Option Hello → Effect
  forwarded : ℕ → Forwarded → Effect

-- `next_id` numbers the objects of connections.
pub record Edge : Type 0 where
  pub connections : JsMap ℕ Connection
  pub ws_to_env_id : JsMap ℕ ℕ
  pub auth_fail_cache : JsMap Text ℕ
  pub reconnect_tracker : JsMap ℕ Tracker
  pub next_id : ℕ

abbrev pub update : ℕ → Connection → Edge → Edge
update env_id connection edge = record edge { connections = put env_id connection edge.connections }
