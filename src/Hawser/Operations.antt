-- ===== src/Hawser/Operations.antt =====
-- All that reaches the tables, as data, and runs of it. Tokens are made, revoked and expire in a run, so each
-- message comes with what `validateHawserToken` answers at its time; `revokeHawserToken` leaves the tables.
use sagedockhand.Common.{ℕ, Bool, Option, List, [], ◌∷◌}
use sagedockhand.Common.Text.{Text}
use sagedockhand.Hawser.Protocol.{
  Validation, HawserMessage, handle_hawser_ws_message, clean_failures,
}
use sagedockhand.Hawser.Requests.{
  send_edge_request, give_up, send_edge_stream_request, handle_edge_response,
  handle_edge_stream_data, handle_edge_stream_end, cancel, handle_heartbeat,
}
use sagedockhand.Hawser.State.{ResponseMessage, Effect, Edge}
use sagedockhand.Hawser.Connections.{
  close_edge_connection, handle_disconnect, close_for_token, handle_hawser_ws_disconnect, clean_up,
  stop_edge_manager,
}

pub data Operation : Type 0 where
  -- what tokens are valid at that time, the socket, the address, the message, the time
  receives_message : (Text → Validation) → ℕ → Text → HawserMessage → ℕ → Operation
  disconnects_ws disconnects closes_env regenerates_token : ℕ → Operation
  requests_edge : ℕ → Text → Bool → Bool → Bool → Operation
  gives_up_edge : ℕ → ℕ → Text → Text → Operation
  streams_edge : ℕ → Text → Bool → Operation
  cancels_edge : ℕ → Text → Operation
  responds_edge : ℕ → Text → ResponseMessage → Operation
  data_edge : ℕ → Text → Text → Operation
  ends_edge : ℕ → Text → Option Text → Operation
  beats : ℕ → ℕ → Operation
  cleans_up cleans_failures : ℕ → Operation
  stops_edge : Operation

unfoldable pub operate : Operation → Edge → Edge × List Effect
operate (receives_message validate ws key message now) edge =
    handle_hawser_ws_message validate ws key message now edge
operate (disconnects_ws ws) edge = handle_hawser_ws_disconnect ws edge
operate (disconnects env_id) edge = handle_disconnect env_id edge
operate (closes_env env_id) edge = close_edge_connection env_id edge
operate (regenerates_token env_id) edge = close_for_token env_id edge
operate (requests_edge env_id id streaming aborted sends) edge =
    send_edge_request env_id id streaming aborted sends edge
operate (gives_up_edge env_id connection_id id reason) edge =
    give_up env_id connection_id id reason edge
operate (streams_edge env_id id sends) edge = send_edge_stream_request env_id id sends edge
operate (cancels_edge env_id id) edge = cancel env_id id edge
operate (responds_edge env_id id message) edge = handle_edge_response env_id id message edge
operate (data_edge env_id id chunk) edge = handle_edge_stream_data env_id id chunk edge
operate (ends_edge env_id id reason) edge = handle_edge_stream_end env_id id reason edge
operate (beats env_id now) edge = handle_heartbeat env_id now edge
operate (cleans_up now) edge = clean_up now edge
operate (cleans_failures now) edge = clean_failures now edge
operate stops_edge edge = stop_edge_manager edge

unfoldable pub operate_all : List Operation → Edge → Edge
operate_all [] edge = edge
operate_all (operation ∷ operations) edge = operate_all operations (operate operation edge).0
