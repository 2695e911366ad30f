-- ===== src/Hawser/VouchedLaws.antt =====
-- In any run, only agents whose token was valid have a connection.
use sagedockhand.Common.{
  IsIn, IsIn-left, IsIn-right, if-holds, ◌==◌, nat_eq, text_eq, ℕ, ◌≡◌, refl, Bool, Option, none,
  some, List, [], ◌∷◌, ◌++◌, arith,
}
use sagedockhand.Common.Text.{Text, codes}
use sagedockhand.Common.JsMap.{get, put, remove, get-remove}
use sagedockhand.Hawser.Protocol.{
  Validation, HawserMessage, is_blocked, answer_from, handle_hello, handle_hawser_ws_message,
  clean_failures, hello, ping, pong, metrics, container_event, exec, unknown, response, stream,
  stream_end, error,
}
use sagedockhand.Hawser.CleanupLaws.{get-time_out-some, IsDistinct-time_out}
use sagedockhand.Hawser.Operations.{
  Operation, operate, operate_all, receives_message, disconnects_ws, disconnects, closes_env,
  regenerates_token, requests_edge, gives_up_edge, streams_edge, cancels_edge, responds_edge,
  data_edge, ends_edge, beats, cleans_up, cleans_failures, stops_edge,
}
use sagedockhand.Hawser.ProtocolLaws.{
  accepted, IsVouched, update-IsVouched, with_connection-IsVouched, drop-IsVouched, agent-settle,
  agent-take_data, agent-end_stream, authenticate-IsVouched, routed_message-IsVouched,
}
use sagedockhand.Hawser.Requests.{
  forget_request, register, request_on, send_edge_request, give_up_on, give_up, stream_on,
  send_edge_stream_request, on_response, on_stream, on_stream_end, with_connection, completed,
  handle_edge_response, handle_edge_stream_data, handle_edge_stream_end, cancel, handle_heartbeat,
}
use sagedockhand.Hawser.State.{Hello, Connection, Effect, Edge, relaying, status_changed}
use sagedockhand.Hawser.Connections.{
  abandon, close_edge_connection, handle_disconnect, close_for_token, drop_if_current,
  disconnect_of, handle_hawser_ws_disconnect, clean_up, stop_edge_manager,
}

-- What the validations of the agents that say hello accept.
abbrev pub vouchers_of : Operation → List (Text × ℕ)
vouchers_of (receives_message validate ws key (hello agent) now) =
    accepted agent.token (validate agent.token)
vouchers_of _ = []

abbrev pub vouchers : List Operation → List (Text × ℕ)
vouchers [] = []
vouchers (operation ∷ operations) = vouchers_of operation ++ vouchers operations

module _ (Was : Text → ℕ → Type 0) where
  abbrev AreVouched : List (Text × ℕ) → Type 0
  AreVouched accepts = (token : Text) (env_id : ℕ) → IsIn (token, env_id) accepts → Was token env_id

  message-IsVouched :
      (ws : ℕ) (key : Text) (message : HawserMessage) (now : ℕ) (edge : Edge)
      → IsVouched Was edge
      → IsVouched Was (answer_from ws message now edge (get ws edge.ws_to_env_id)).0
  message-IsVouched ws key message now edge v =
      routed_message-IsVouched Was ws message now edge (get ws edge.ws_to_env_id) v

  handle_hello-IsVouched :
      (validate : Text → Validation) (ws : ℕ) (key : Text) (agent : Hello) (now : ℕ) (edge : Edge)
      → AreVouched (accepted agent.token (validate agent.token))
      → IsVouched Was edge
      → IsVouched Was (handle_hello validate ws key agent now edge).0
  unfolding handle_hello
  handle_hello-IsVouched validate ws key agent now edge k v =
      let P : Edge × List Effect → Type 0 = λ r. IsVouched Was r.0 in
      if-holds P (is_blocked now (get key edge.auth_fail_cache)) v (
        if-holds P (agent.token == []) v
          (authenticate-IsVouched Was ws key agent now edge (validate agent.token) k v))

  handle_hawser_ws_message-IsVouched :
      (validate : Text → Validation) (ws : ℕ) (key : Text) (message : HawserMessage) (now : ℕ)
      (edge : Edge)
      → AreVouched (vouchers_of (receives_message validate ws key message now))
      → IsVouched Was edge
      → IsVouched Was (handle_hawser_ws_message validate ws key message now edge).0
  unfolding handle_hawser_ws_message
  handle_hawser_ws_message-IsVouched validate ws key (hello agent) now edge k v =
      handle_hello-IsVouched validate ws key agent now edge k v
  handle_hawser_ws_message-IsVouched validate ws key ping now edge k v =
      message-IsVouched ws key ping now edge v
  handle_hawser_ws_message-IsVouched validate ws key pong now edge k v =
      message-IsVouched ws key pong now edge v
  handle_hawser_ws_message-IsVouched validate ws key metrics now edge k v =
      message-IsVouched ws key metrics now edge v
  handle_hawser_ws_message-IsVouched validate ws key container_event now edge k v =
      message-IsVouched ws key container_event now edge v
  handle_hawser_ws_message-IsVouched validate ws key exec now edge k v =
      message-IsVouched ws key exec now edge v
  handle_hawser_ws_message-IsVouched validate ws key unknown now edge k v =
      message-IsVouched ws key unknown now edge v
  handle_hawser_ws_message-IsVouched validate ws key (response id m) now edge k v =
      message-IsVouched ws key (response id m) now edge v
  handle_hawser_ws_message-IsVouched validate ws key (stream id chunk) now edge k v =
      message-IsVouched ws key (stream id chunk) now edge v
  handle_hawser_ws_message-IsVouched validate ws key (stream_end id reason) now edge k v =
      message-IsVouched ws key (stream_end id reason) now edge v
  handle_hawser_ws_message-IsVouched validate ws key (error id) now edge k v =
      message-IsVouched ws key (error id) now edge v

  request_on-IsVouched :
      (env_id : ℕ) (id : Text) (streaming aborted sends : Bool) (edge : Edge)
      (o : Option Connection)
      → get env_id edge.connections ≡ o
      → IsVouched Was edge
      → IsVouched Was (request_on env_id id streaming aborted sends edge o).0
  unfolding register forget_request
  request_on-IsVouched env_id id streaming aborted sends edge none h v = v
  request_on-IsVouched env_id id streaming aborted sends edge (some c) h v =
      let P : Edge × List Effect → Type 0 = λ r. IsVouched Was r.0 in
      if-holds P aborted v (
        if-holds P sends (update-IsVouched Was env_id c (register id streaming c) edge h refl v) (
          update-IsVouched Was env_id c (forget_request id (register id streaming c)) edge h refl
            v))

  give_up_on-IsVouched :
      (env_id number : ℕ) (id : Text) (edge : Edge) (o : Option Connection)
      → get env_id edge.connections ≡ o
      → IsVouched Was edge
      → IsVouched Was (give_up_on env_id number id edge o)
  unfolding forget_request
  give_up_on-IsVouched env_id number id edge none h v = v
  give_up_on-IsVouched env_id number id edge (some c) h v =
      if-holds (IsVouched Was) (c.id == number)
        (update-IsVouched Was env_id c (forget_request id c) edge h refl v) v

  stream_on-IsVouched :
      (env_id : ℕ) (id : Text) (sends : Bool) (edge : Edge) (o : Option Connection)
      → get env_id edge.connections ≡ o
      → IsVouched Was edge
      → IsVouched Was (stream_on env_id id sends edge o).0
  stream_on-IsVouched env_id id sends edge none h v = v
  stream_on-IsVouched env_id id sends edge (some c) h v =
      let P : Edge × List Effect → Type 0 = λ r. IsVouched Was r.0 in
      if-holds P sends
        (update-IsVouched Was env_id c
          (record c { pending_stream_requests = put id relaying c.pending_stream_requests }) edge h
          refl v)
        (update-IsVouched Was env_id c
          (record c {
            pending_stream_requests = remove id (put id relaying c.pending_stream_requests);
          })
          edge h refl v)

  drop_if_current-IsVouched :
      (ws env_id : ℕ) (edge : Edge) (o : Option Connection)
      → IsVouched Was edge
      → IsVouched Was (drop_if_current ws env_id edge o).0
  drop_if_current-IsVouched ws env_id edge none v = v
  drop_if_current-IsVouched ws env_id edge (some c) v =
      if-holds (λ (r : Edge × List Effect). IsVouched Was r.0) (c.ws == ws)
        (drop-IsVouched Was env_id
          (λ connection.
            abandon (codes "Agent disconnected") connection ++ status_changed env_id none ∷ [])
          edge (some c) v)
        v

  disconnect_of-IsVouched :
      (ws : ℕ) (edge : Edge) (o : Option ℕ)
      → IsVouched Was edge
      → IsVouched Was (disconnect_of ws edge o).0
  disconnect_of-IsVouched ws edge none v = v
  disconnect_of-IsVouched ws edge (some env_id) v =
      let after = (drop_if_current ws env_id edge (get env_id edge.connections)).0 in
      let w = drop_if_current-IsVouched ws env_id edge (get env_id edge.connections) v in
      record {
        distinct = w.distinct;
        connected = w.connected;
        routed = λ socket other h.
            w.routed socket other (ground (arith, h, get-remove ws socket after.ws_to_env_id));
      }

  clean_up-IsVouched :
      (now : ℕ) (edge : Edge) → IsVouched Was edge → IsVouched Was (clean_up now edge).0
  unfolding clean_up
  clean_up-IsVouched now edge v = record {
    distinct = IsDistinct-time_out now edge.connections v.distinct;
    connected = λ env_id c h.
        v.connected env_id c (get-time_out-some now env_id c edge.connections v.distinct h);
    routed = v.routed;
  }

  on_table-IsVouched :
      (env_id : ℕ) (f : Connection → Connection × List Effect) (edge : Edge)
      → ((c : Connection) → (f c).0.agent ≡ c.agent)
      → IsVouched Was edge
      → IsVouched Was (with_connection env_id f edge).0
  on_table-IsVouched env_id f edge same v =
      with_connection-IsVouched Was env_id f edge (get env_id edge.connections) refl same v

  operate-IsVouched :
      (operation : Operation) (edge : Edge)
      → AreVouched (vouchers_of operation)
      → IsVouched Was edge
      → IsVouched Was (operate operation edge).0
  unfolding operate handle_hawser_ws_disconnect handle_disconnect close_edge_connection
      close_for_token send_edge_request give_up send_edge_stream_request cancel handle_edge_response
      handle_edge_stream_data handle_edge_stream_end handle_heartbeat clean_failures
      stop_edge_manager on_response on_stream on_stream_end get
  operate-IsVouched (receives_message validate ws key message now) edge k v =
      handle_hawser_ws_message-IsVouched validate ws key message now edge k v
  operate-IsVouched (disconnects_ws ws) edge k v =
      disconnect_of-IsVouched ws edge (get ws edge.ws_to_env_id) v
  operate-IsVouched (disconnects env_id) edge k v =
      drop-IsVouched Was env_id _ edge (get env_id edge.connections) v
  operate-IsVouched (closes_env env_id) edge k v =
      drop-IsVouched Was env_id _ edge (get env_id edge.connections) v
  operate-IsVouched (regenerates_token env_id) edge k v =
      drop-IsVouched Was env_id _ edge (get env_id edge.connections) v
  operate-IsVouched (requests_edge env_id id streaming aborted sends) edge k v =
      request_on-IsVouched env_id id streaming aborted sends edge (get env_id edge.connections) refl
        v
  operate-IsVouched (gives_up_edge env_id number id reason) edge k v =
      give_up_on-IsVouched env_id number id edge (get env_id edge.connections) refl v
  operate-IsVouched (streams_edge env_id id sends) edge k v =
      stream_on-IsVouched env_id id sends edge (get env_id edge.connections) refl v
  operate-IsVouched (cancels_edge env_id id) edge k v =
      on_table-IsVouched env_id _ edge (λ c. refl) v
  operate-IsVouched (responds_edge env_id id message) edge k v =
      on_table-IsVouched env_id _ edge
        (λ c. agent-settle Was id (completed message) c (get id c.pending_requests)) v
  operate-IsVouched (data_edge env_id id chunk) edge k v =
      on_table-IsVouched env_id _ edge
        (λ c. agent-take_data Was id chunk c (get id c.pending_stream_requests)) v
  operate-IsVouched (ends_edge env_id id reason) edge k v =
      on_table-IsVouched env_id _ edge
        (λ c. agent-end_stream Was id reason c (get id c.pending_stream_requests)) v
  operate-IsVouched (beats env_id now) edge k v = on_table-IsVouched env_id _ edge (λ c. refl) v
  operate-IsVouched (cleans_up now) edge k v = clean_up-IsVouched now edge v
  operate-IsVouched (cleans_failures now) edge k v = record {
    distinct = v.distinct;
    connected = v.connected;
    routed = v.routed;
  }
  operate-IsVouched stops_edge edge k v = record {
    distinct = tt;
    connected = λ env_id c h. absurd (ground (arith, h));
    routed = v.routed;
  }

  run-IsVouched :
      (operations : List Operation) (edge : Edge)
      → AreVouched (vouchers operations)
      → IsVouched Was edge
      → IsVouched Was (operate_all operations edge)
  unfolding operate_all
  run-IsVouched [] edge k v = v
  run-IsVouched (operation ∷ operations) edge k v =
      run-IsVouched operations (operate operation edge).0
        (λ token env_id i.
          k token env_id
            (IsIn-right (token, env_id) (vouchers_of operation) (vouchers operations) i))
        (operate-IsVouched operation edge
          (λ token env_id i.
            k token env_id
              (IsIn-left (token, env_id) (vouchers_of operation) (vouchers operations) i))
          v)

-- The token was valid for the environment, by a list of those that were.
abbrev pub WasIn : List (Text × ℕ) → Text → ℕ → Type 0
WasIn accepts token env_id = IsIn (token, env_id) accepts

IsVouched-more :
    (earlier later : List (Text × ℕ)) (edge : Edge)
    → IsVouched (WasIn earlier) edge
    → IsVouched (WasIn (earlier ++ later)) edge
IsVouched-more earlier later edge v = record {
  distinct = v.distinct;
  connected =
      λ env_id c h. IsIn-left (c.agent.token, env_id) earlier later (v.connected env_id c h);
  routed = λ ws env_id h.
      let (token, was) = v.routed ws env_id h in
      (token, IsIn-left (token, env_id) earlier later was);
}

-- In any run, in which tokens are made, revoked and expire, an environment has at most one connection; a
-- connection belongs to an agent whose token was valid for its environment when an agent said hello with
-- it, in the run or earlier; and a socket is routed only to an environment for which some token was: where
-- that holds at the start, by a list of the tokens that were valid earlier.
pub operate_all-IsVouched :
    (earlier : List (Text × ℕ)) (operations : List Operation) (edge : Edge)
    → IsVouched (WasIn earlier) edge
    → IsVouched (WasIn (earlier ++ vouchers operations)) (operate_all operations edge)
operate_all-IsVouched earlier operations edge v =
    run-IsVouched (WasIn (earlier ++ vouchers operations)) operations edge
      (λ token env_id i. IsIn-right (token, env_id) earlier (vouchers operations) i)
      (IsVouched-more earlier (vouchers operations) edge v)
