-- ===== src/Hawser/Connections.antt =====
-- How connections come and go, and the periodic cleanup.
use sagedockhand.Common.{
  ltb, if◌then◌else◌, ◌==◌, nat_eq, text_eq, ℕ, ◌+◌, ◌-◌, ◌*◌, Bool, true, false, Option, none,
  some, List, [], ◌∷◌, ◌++◌,
}
use sagedockhand.Common.Text.{Text, codes}
use sagedockhand.Common.JsMap.{JsMap, get, put, remove, remove_if}
use sagedockhand.Hawser.Requests.{forget_stream}
use sagedockhand.Hawser.State.{
  Hello, Stream, Connection, Effect, Edge, collecting, relaying, collected, rejected, relay_ended,
  closed, terminated, status_changed,
}
use sagedockhand.Hawser.Throttle.{Tracker}

-- The loop over the pending requests: the streams that are left, and the rejections.
unfoldable pub reject_requests :
    Text → JsMap Text Bool → JsMap Text Stream → JsMap Text Stream × List Effect
reject_requests reason [] streams = (streams, [])
reject_requests reason ((id, streaming) ∷ requests) streams =
    let (left, effects) =
      reject_requests reason requests (forget_stream id (some streaming) streams) in
    (left, rejected id reason ∷ effects)

abbrev pub end_effect : Text → Text → Stream → Effect
end_effect reason id relaying = relay_ended id (some reason)
end_effect reason id (collecting chunks) = collected id chunks

-- The loop over the pending streams that are left.
unfoldable pub end_streams : Text → JsMap Text Stream → List Effect
end_streams reason [] = []
end_streams reason ((id, stream) ∷ streams) =
    end_effect reason id stream ∷ end_streams reason streams

-- Both loops.
unfoldable pub abandon : Text → Connection → List Effect
abandon reason connection =
    let (left, effects) =
      reject_requests reason connection.pending_requests connection.pending_stream_requests in
    effects ++ end_streams reason left

abbrev pub new_connection : ℕ → ℕ → Hello → ℕ → Connection
new_connection id ws hello now = record {
  id = id;
  ws = ws;
  agent = hello;
  connected_at = now;
  last_heartbeat = now;
  pending_requests = [];
  pending_stream_requests = [];
  ping_interval = true;
}

abbrev pub replaced : Option Connection → List Effect
replaced none = []
replaced (some existing) =
    abandon (codes "Connection replaced by new agent") existing ++ terminated existing.ws ∷ []

-- `handleEdgeConnection(ws, environmentId, hello)`
unfoldable pub handle_edge_connection : ℕ → ℕ → Hello → ℕ → Edge → Edge × List Effect
handle_edge_connection ws env_id hello now edge = (
  record edge {
    connections = put env_id (new_connection edge.next_id ws hello now) edge.connections;
    next_id = edge.next_id + 1;
  },
  replaced (get env_id edge.connections) ++ status_changed env_id (some hello) ∷ [],
)

abbrev pub drop_connection :
    ℕ → (Connection → List Effect) → Edge → Option Connection → Edge × List Effect
drop_connection env_id effects edge none = (edge, [])
drop_connection env_id effects edge (some connection) =
    (record edge { connections = remove env_id edge.connections }, effects connection)

-- `closeEdgeConnection(environmentId)`
unfoldable pub close_edge_connection : ℕ → Edge → Edge × List Effect
close_edge_connection env_id edge =
    drop_connection env_id
      (λ connection.
        abandon (codes "Environment deleted") connection ++ closed connection.ws 1000 ∷ [])
      edge (get env_id edge.connections)

-- `handleDisconnect(environmentId)`
unfoldable pub handle_disconnect : ℕ → Edge → Edge × List Effect
handle_disconnect env_id edge =
    drop_connection env_id
      (λ connection.
        abandon (codes "Connection closed") connection ++ status_changed env_id none ∷ [])
      edge (get env_id edge.connections)

-- What `generateHawserToken` does to the connection of the environment.
unfoldable pub close_for_token : ℕ → Edge → Edge × List Effect
close_for_token env_id edge =
    drop_connection env_id (λ connection. closed connection.ws 1000 ∷ []) edge
      (get env_id edge.connections)

abbrev pub drop_if_current : ℕ → ℕ → Edge → Option Connection → Edge × List Effect
drop_if_current ws env_id edge none = (edge, [])
drop_if_current ws env_id edge (some connection) =
    if connection.ws == ws
    then drop_connection env_id
        (λ connection.
          abandon (codes "Agent disconnected") connection ++ status_changed env_id none ∷ [])
        edge (some connection)
    else (edge, [])

abbrev pub disconnect_of : ℕ → Edge → Option ℕ → Edge × List Effect
disconnect_of ws edge none = (edge, [])
disconnect_of ws edge (some env_id) =
    let (after, effects) = drop_if_current ws env_id edge (get env_id edge.connections) in
    (record after { ws_to_env_id = remove ws after.ws_to_env_id }, effects)

-- `handleHawserWsDisconnect(disconnectedWs)`; the id of an environment is not 0
unfoldable pub handle_hawser_ws_disconnect : ℕ → Edge → Edge × List Effect
handle_hawser_ws_disconnect ws edge = disconnect_of ws edge (get ws edge.ws_to_env_id)

abbrev pub timeout : ℕ
timeout = 90 * 1000

abbrev pub stable_threshold_ms : ℕ
stable_threshold_ms = 5 * 60 * 1000

abbrev pub stale_tracker_ms : ℕ
stale_tracker_ms = 10 * 60 * 1000

abbrev pub is_silent : ℕ → Connection → Bool
is_silent now connection = ltb timeout (now - connection.last_heartbeat)

-- The loop over the connections: an entry that is deleted in it skips no other.
unfoldable pub time_out : ℕ → JsMap ℕ Connection → JsMap ℕ Connection × List Effect
time_out now [] = ([], [])
time_out now ((env_id, connection) ∷ connections) =
    let (left, effects) = time_out now connections in
    if is_silent now connection
    then (
      left,
      abandon (codes "Connection timeout") connection
          ++ closed connection.ws 1001 ∷ status_changed env_id none ∷ effects,
    )
    else ((env_id, connection) ∷ left, effects)

abbrev pub last_stamp : List ℕ → Option ℕ
last_stamp [] = none
last_stamp (stamp ∷ []) = some stamp
last_stamp (stamp ∷ next ∷ stamps) = last_stamp (next ∷ stamps)

abbrev pub is_old : ℕ → Option ℕ → Bool
is_old now none = false
is_old now (some stamp) = ltb stale_tracker_ms (now - stamp)

-- Whether a tracker is deleted, by the connection of its environment.
abbrev pub is_tracker_over : ℕ → Option Connection → Tracker → Bool
is_tracker_over now none tracker = is_old now (last_stamp tracker.timestamps)
is_tracker_over now (some connection) tracker =
    ltb (now - connection.last_heartbeat) stable_threshold_ms

-- The callback of `cleanupInterval`, at the time `now`
unfoldable pub clean_up : ℕ → Edge → Edge × List Effect
clean_up now edge =
    let (left, effects) = time_out now edge.connections in
    (
      record edge {
        connections = left;
        reconnect_tracker =
            remove_if (λ env_id tracker. is_tracker_over now (get env_id left) tracker)
              edge.reconnect_tracker;
      },
      effects,
    )

unfoldable pub close_all : JsMap ℕ Connection → List Effect
close_all [] = []
close_all ((env_id, connection) ∷ connections) = closed connection.ws 1001 ∷ close_all connections

-- `stopEdgeManager()`
unfoldable pub stop_edge_manager : Edge → Edge × List Effect
stop_edge_manager edge =
    (record edge { connections = []; reconnect_tracker = [] }, close_all edge.connections)
