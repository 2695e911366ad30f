-- ===== src/Hawser/Requests.antt =====
-- Requests to an agent and what settles them. A request's id is given; it is random in the code.
use sagedockhand.Common.{
  if◌then◌else◌, or_value, ◌==◌, nat_eq, text_eq, ℕ, Bool, true, false, Option, none, some, List,
  [], ◌∷◌, ◌++◌,
}
use sagedockhand.Common.Text.{Text, codes}
use sagedockhand.Common.JsMap.{JsMap, get, put, remove}
use sagedockhand.Hawser.State.{
  ResponseMessage, Stream, Connection, Effect, Edge, update, collecting, relaying, request,
  stream_cancelled, resolved, collected, rejected, relayed, relay_ended, relay_failed, sent,
}

-- Takes a request off a connection, with its collected stream.
abbrev pub forget_stream : Text → Option Bool → JsMap Text Stream → JsMap Text Stream
forget_stream id (some true) streams = remove id streams
forget_stream id (some false) streams = streams
forget_stream id none streams = streams

unfoldable pub forget_request : Text → Connection → Connection
forget_request id connection = record connection {
  pending_requests = remove id connection.pending_requests;
  pending_stream_requests =
      forget_stream id (get id connection.pending_requests) connection.pending_stream_requests;
}

-- The two `set` calls of `sendEdgeRequest`.
unfoldable pub register : Text → Bool → Connection → Connection
register id streaming connection = record connection {
  pending_requests = put id streaming connection.pending_requests;
  pending_stream_requests =
      if streaming
      then put id (collecting []) connection.pending_stream_requests
      else connection.pending_stream_requests;
}

abbrev pub request_on :
    ℕ → Text → Bool → Bool → Bool → Edge → Option Connection → Edge × List Effect
request_on env_id id streaming aborted sends edge none =
    (edge, rejected id (codes "Edge agent not connected") ∷ [])
request_on env_id id streaming aborted sends edge (some connection) =
    if aborted
    then (edge, rejected id (codes "Request aborted") ∷ [])
    else if sends
    then (
      update env_id (register id streaming connection) edge,
      sent connection.ws (request id streaming) ∷ [],
    )
    else (
      update env_id (forget_request id (register id streaming connection)) edge,
      rejected id (codes "Failed to send message") ∷ [],
    )

-- `sendEdgeRequest`, where `aborted` is whether its signal is aborted already, and `sends` whether the
-- message goes out; the text of an error that `send` throws is not kept
unfoldable pub send_edge_request : ℕ → Text → Bool → Bool → Bool → Edge → Edge × List Effect
send_edge_request env_id id streaming aborted sends edge =
    request_on env_id id streaming aborted sends edge (get env_id edge.connections)

abbrev pub give_up_on : ℕ → ℕ → Text → Edge → Option Connection → Edge
give_up_on env_id connection_id id edge none = edge
give_up_on env_id connection_id id edge (some connection) =
    if connection.id == connection_id
    then update env_id (forget_request id connection) edge
    else edge

-- The timer or the signal of a request that is not settled: it may belong to an object of a connection
-- that has left the table.
unfoldable pub give_up : ℕ → ℕ → Text → Text → Edge → Edge × List Effect
give_up env_id connection_id id reason edge =
    (give_up_on env_id connection_id id edge (get env_id edge.connections), rejected id reason ∷ [])

abbrev pub stream_on : ℕ → Text → Bool → Edge → Option Connection → Edge × List Effect
stream_on env_id id sends edge none =
    (edge, relay_failed id (codes "Edge agent not connected") ∷ [])
stream_on env_id id sends edge (some connection) =
    if sends
    then (
      update env_id
          (record connection {
            pending_stream_requests = put id relaying connection.pending_stream_requests;
          })
          edge,
      sent connection.ws (request id true) ∷ [],
    )
    else (
      update env_id
          (record connection {
            pending_stream_requests =
                remove id (put id relaying connection.pending_stream_requests);
          })
          edge,
      relay_failed id (codes "Failed to send message") ∷ [],
    )

-- `sendEdgeStreamRequest`
unfoldable pub send_edge_stream_request : ℕ → Text → Bool → Edge → Edge × List Effect
send_edge_stream_request env_id id sends edge =
    stream_on env_id id sends edge (get env_id edge.connections)

abbrev pub settle : Text → ResponseMessage → Connection → Option Bool → Connection × List Effect
settle id response connection none = (connection, [])
settle id response connection (some streaming) =
    (forget_request id connection, resolved id response ∷ [])

-- `pending.resolve(...)` of the request that a response is for, if there is one
unfoldable pub on_response : Text → ResponseMessage → Connection → Connection × List Effect
on_response id response connection =
    settle id response connection (get id connection.pending_requests)

abbrev pub take_data : Text → Text → Connection → Option Stream → Connection × List Effect
take_data id chunk connection none = (connection, [])
take_data id chunk connection (some relaying) = (connection, relayed id chunk ∷ [])
take_data id chunk connection (some (collecting chunks)) = (
  record connection {
    pending_stream_requests =
        put id (collecting (chunks ++ chunk ∷ [])) connection.pending_stream_requests;
  },
  [],
)

-- `onData` of the stream that the data is for, if there is one
unfoldable pub on_stream : Text → Text → Connection → Connection × List Effect
on_stream id chunk connection =
    take_data id chunk connection (get id connection.pending_stream_requests)

abbrev pub end_stream : Text → Option Text → Connection → Option Stream → Connection × List Effect
end_stream id reason connection none = (connection, [])
end_stream id reason connection (some relaying) = (
  record connection { pending_stream_requests = remove id connection.pending_stream_requests },
  relay_ended id reason ∷ [],
)
end_stream id reason connection (some (collecting chunks)) = (
  record connection {
    pending_requests = remove id connection.pending_requests;
    pending_stream_requests = remove id connection.pending_stream_requests;
  },
  collected id chunks ∷ [],
)

-- `onEnd` of the stream that ends, if there is one
unfoldable pub on_stream_end : Text → Option Text → Connection → Connection × List Effect
on_stream_end id reason connection =
    end_stream id reason connection (get id connection.pending_stream_requests)

abbrev pub on_connection :
    ℕ → (Connection → Connection × List Effect) → Edge → Option Connection → Edge × List Effect
on_connection env_id f edge none = (edge, [])
on_connection env_id f edge (some connection) =
    let (after, effects) = f connection in (update env_id after edge, effects)

abbrev pub with_connection : ℕ → (Connection → Connection × List Effect) → Edge → Edge × List Effect
with_connection env_id f edge = on_connection env_id f edge (get env_id edge.connections)

abbrev pub completed : ResponseMessage → ResponseMessage
completed response = record response {
  body = some (or_value response.body []);
  is_binary = some (or_value response.is_binary false);
}

-- `handleEdgeResponse`, `handleEdgeStreamData`, `handleEdgeStreamEnd`
unfoldable pub handle_edge_response : ℕ → Text → ResponseMessage → Edge → Edge × List Effect
handle_edge_response env_id id response edge =
    with_connection env_id (on_response id (completed response)) edge

unfoldable pub handle_edge_stream_data : ℕ → Text → Text → Edge → Edge × List Effect
handle_edge_stream_data env_id id chunk edge = with_connection env_id (on_stream id chunk) edge

unfoldable pub handle_edge_stream_end : ℕ → Text → Option Text → Edge → Edge × List Effect
handle_edge_stream_end env_id id reason edge = with_connection env_id (on_stream_end id reason) edge

-- `cancel` of a stream of a connection that is in the table
unfoldable pub cancel : ℕ → Text → Edge → Edge × List Effect
cancel env_id id edge =
    with_connection env_id
      (λ connection. (
        record connection {
          pending_stream_requests = remove id connection.pending_stream_requests;
        },
        sent connection.ws (stream_cancelled id) ∷ [],
      ))
      edge

-- `handleHeartbeat`
unfoldable pub handle_heartbeat : ℕ → ℕ → Edge → Edge × List Effect
handle_heartbeat env_id now edge =
    with_connection env_id (λ connection. (record connection { last_heartbeat = now }, [])) edge
