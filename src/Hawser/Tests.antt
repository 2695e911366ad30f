-- ===== src/Hawser/Tests.antt =====
-- The agents on small inputs, and the theorems at concrete states.
use sagedockhand.Common.{
  if◌then◌else◌, ◌==◌, nat_eq, text_eq, ℕ, ◌≡◌, refl, true, false, none, List, [], ◌∷◌, ◌++◌, arith,
}
use sagedockhand.Common.Text.{Text, codes}
use sagedockhand.Common.JsMap.{get, put, remove, remove_if, IsDistinct, unless}
use sagedockhand.Hawser.Protocol.{Validation, invalid, valid, hello}
use sagedockhand.Hawser.CleanupLaws.{tracker_after, clean_up_lem}
use sagedockhand.Hawser.ThrottleLaws.{admitted, IsSparse, admitted-IsSparse}
use sagedockhand.Hawser.Operations.{
  Operation, operate_all, receives_message, disconnects_ws, requests_edge,
}
use sagedockhand.Hawser.ProtocolLaws.{IsVouched}
use sagedockhand.Hawser.Calls.{
  Call, perform, perform_all, ArePossible, requested, settled, occurrences, asks, relays, receives,
  ends,
}
use sagedockhand.Hawser.Requests.{forget_request, register, on_stream, on_stream_end}
use sagedockhand.Hawser.EndingLaws.{end_by, CanEnd, closes_ws, settled-once}
use sagedockhand.Hawser.State.{Hello, Edge}
use sagedockhand.Hawser.Connections.{
  reject_requests, end_streams, abandon, new_connection, is_silent, time_out, clean_up,
}
use sagedockhand.Hawser.Throttle.{track}
use sagedockhand.Hawser.VouchedLaws.{vouchers, WasIn, operate_all-IsVouched}

abbrev times : List ℕ
times = 1 ∷ 2 ∷ 3 ∷ 4 ∷ 5 ∷ 6 ∷ 7 ∷ 8 ∷ 9 ∷ 10 ∷ 11 ∷ 12 ∷ 40000 ∷ []

admitted-IsSparse_example : IsSparse [] (admitted times none)
admitted-IsSparse_example = admitted-IsSparse times (ground arith)

-- The eleventh is refused, and so are those in the cooldown that follows.
admitted_test : admitted times none ≡ 1 ∷ 2 ∷ 3 ∷ 4 ∷ 5 ∷ 6 ∷ 7 ∷ 8 ∷ 9 ∷ 10 ∷ []
unfolding admitted track
admitted_test = refl

abbrev agent : Hello
agent = record {
  token = codes "secret";
  agent_id = codes "a";
  agent_name = codes "nas";
  version = codes "1.0";
  docker_version = codes "27";
  hostname = codes "nas";
  capabilities = [];
}

abbrev calls : List Call
calls =
    asks (codes "r1") true
    ∷ relays (codes "s1")
    ∷ receives (codes "r1") (codes "aGk=")
    ∷ asks (codes "r2") false
    ∷ ends (codes "r1") none
    ∷ []

calls-ArePossible : ArePossible calls (new_connection 0 7 agent 50)
unfolding perform register on_stream get put
calls-ArePossible = ((refl, refl), (refl, (tt, ((refl, refl), (tt, tt)))))

abbrev empty : Edge
empty = record {
  connections = [];
  ws_to_env_id = [];
  auth_fail_cache = [];
  reconnect_tracker = [];
  next_id = 0;
}

abbrev ending_edge : Edge
ending_edge = record empty {
  connections = (3, (perform_all calls (new_connection 0 7 agent 50)).0) ∷ [];
  ws_to_env_id = (7, 3) ∷ [];
}

ending_edge-CanEnd :
    CanEnd (closes_ws 7) 3 ending_edge (perform_all calls (new_connection 0 7 agent 50)).0
unfolding get perform_all perform register on_stream on_stream_end forget_request put remove
ending_edge-CanEnd = (refl, refl, refl)

settled-once_example :
    occurrences (codes "r2") (
      settled (
        (perform_all calls (new_connection 0 7 agent 50)).1
        ++ (end_by (closes_ws 7) 3 ending_edge).1))
    ≡ occurrences (codes "r2") (requested calls)
settled-once_example =
    settled-once calls 0 7 agent 50 (codes "r2") (closes_ws 7) 3 ending_edge calls-ArePossible
      ending_edge-CanEnd

settled_test :
    let run = perform_all calls (new_connection 0 7 agent 50) in
    settled (run.1 ++ abandon (codes "Connection timeout") run.0) ≡ codes "r1" ∷ codes "r2" ∷ []
unfolding perform_all perform register on_stream on_stream_end forget_request abandon settled get
    put remove reject_requests end_streams
settled_test = refl

abbrev validate : Text → Validation
validate token = if token == codes "secret" then valid 3 else invalid

abbrev revoked : Text → Validation
revoked token = invalid

empty-IsVouched : IsVouched (WasIn []) empty
unfolding get
empty-IsVouched = record {
  distinct = tt;
  connected = λ env_id c h. absurd (ground (arith, h));
  routed = λ ws env_id h. absurd (ground (arith, h));
}

abbrev operations : List Operation
operations =
    receives_message validate 7 (codes "10.0.0.9") (hello agent) 1000
    ∷ requests_edge 3 (codes "r1") false false true
    ∷ receives_message revoked 8 (codes "10.0.0.9") (hello agent) 2000
    ∷ disconnects_ws 7
    ∷ []

operate_all-IsVouched_example :
    IsVouched (WasIn ([] ++ vouchers operations)) (operate_all operations empty)
operate_all-IsVouched_example = operate_all-IsVouched [] operations empty empty-IsVouched

-- The token is revoked after the first message: the connection that it made stays.
vouchers_test : vouchers operations ≡ (codes "secret", 3) ∷ []
vouchers_test = refl

abbrev edge : Edge
edge = record empty {
  connections = (3, new_connection 0 7 agent 1000) ∷ (4, new_connection 1 8 agent 99000) ∷ [];
  reconnect_tracker =
      (3, record { timestamps = 1000 ∷ []; cooldown_until = 0; cooldown_level = 0 })
      ∷ (4, record { timestamps = 99000 ∷ []; cooldown_until = 0; cooldown_level = 0 })
      ∷ [];
}

edge-IsDistinct : IsDistinct edge.connections × IsDistinct edge.reconnect_tracker
unfolding get
edge-IsDistinct = ((refl, (refl, tt)), (refl, (refl, tt)))

clean_up_lem_example :
    (get 4 (clean_up 100000 edge).0.connections
      ≡ unless (λ (_ : ℕ) connection. is_silent 100000 connection) 4 (get 4 edge.connections))
    × (get 4 (clean_up 100000 edge).0.reconnect_tracker
        ≡ tracker_after 100000 4
            (get 4 (clean_up 100000 edge).0.connections)
            (get 4 edge.reconnect_tracker))
clean_up_lem_example = clean_up_lem 100000 4 edge edge-IsDistinct.0 edge-IsDistinct.1

-- The connection of a second ago counts as stable: its tracker is dropped.
tracker_test : get 4 (clean_up 100000 edge).0.reconnect_tracker ≡ none
unfolding clean_up time_out abandon reject_requests end_streams get remove_if
tracker_test = refl
