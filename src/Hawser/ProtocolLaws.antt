-- ===== src/Hawser/ProtocolLaws.antt =====
-- Only an agent with a token that was valid has a connection.
use sagedockhand.Common.{
  [], ◌∷◌, IsIn, Bool-cases, ◌==◌, eq_iff, nat_eq, text_eq, ℕ, ◌≡◌, refl, sym, inl, inr, Bool,
  Option, none, some, List, arith,
}
use mathlib.Core.Path.{subst}
use sagedockhand.Common.Text.{Text}
use sagedockhand.Common.JsMap.{
  JsMap, get, IsDistinct, get-put, get-remove, IsDistinct-put, IsDistinct-remove,
}
use sagedockhand.Hawser.Protocol.{
  Validation, HawserMessage, admit, authenticate, answer_message, answer_from, fails, invalid,
  valid, hello, ping, pong, metrics, container_event, exec, unknown, response, stream, stream_end,
  error,
}
use sagedockhand.Hawser.Requests.{
  forget_request, settle, on_response, take_data, on_stream, end_stream, on_stream_end,
  on_connection,
}
use sagedockhand.Hawser.State.{
  Hello, ResponseMessage, Stream, Connection, Effect, Edge, update, collecting, relaying,
}
use sagedockhand.Hawser.Connections.{new_connection, handle_edge_connection, drop_connection}
use sagedockhand.Hawser.Throttle.{Tracker, Verdict, record_reconnection, allowed, throttled}

-- The token with its environment, if it is valid.
abbrev pub accepted : Text → Validation → List (Text × ℕ)
accepted token fails = []
accepted token invalid = []
accepted token (valid env_id) = (token, env_id) ∷ []

-- `Was token env_id`: the token was valid for the environment at some time.
module _ (Was : Text → ℕ → Type 0) where
  pub record IsVouched (edge : Edge) : Type 0 where
    pub distinct : IsDistinct edge.connections
    pub connected :
        (env_id : ℕ) (connection : Connection)
        → get env_id edge.connections ≡ some connection
        → Was connection.agent.token env_id
    pub routed :
        (ws env_id : ℕ) → get ws edge.ws_to_env_id ≡ some env_id → (token : Text) × Was token env_id

  pub update-IsVouched :
      (env_id : ℕ) (before after : Connection) (edge : Edge)
      → get env_id edge.connections ≡ some before
      → after.agent ≡ before.agent
      → IsVouched edge
      → IsVouched (update env_id after edge)
  update-IsVouched env_id before after edge there same v = record {
    distinct = IsDistinct-put env_id after edge.connections v.distinct;
    connected = λ other connection h.
        let stored = get-put env_id other after edge.connections in
        elim (Bool-cases (env_id == other)) [
          | inl own ↦
              let this : after ≡ connection = ground (arith, h, stored, own) in
              let id : env_id ≡ other = (eq_iff env_id other).0 own in
              subst (λ (c : Connection). Was c.agent.token other) this
                (subst (λ (a : Hello). Was a.token other) (sym same)
                  (subst (Was before.agent.token) id (v.connected env_id before there)))
          | inr different ↦ v.connected other connection (ground (arith, h, stored, different))
        ];
    routed = v.routed;
  }

  pub with_connection-IsVouched :
      (env_id : ℕ) (f : Connection → Connection × List Effect) (edge : Edge) (o : Option Connection)
      → get env_id edge.connections ≡ o
      → ((c : Connection) → (f c).0.agent ≡ c.agent)
      → IsVouched edge
      → IsVouched (on_connection env_id f edge o).0
  with_connection-IsVouched env_id f edge none h same v = v
  with_connection-IsVouched env_id f edge (some c) h same v =
      update-IsVouched env_id c (f c).0 edge h (same c) v

  pub drop-IsVouched :
      (env_id : ℕ) (effects : Connection → List Effect) (edge : Edge) (o : Option Connection)
      → IsVouched edge
      → IsVouched (drop_connection env_id effects edge o).0
  drop-IsVouched env_id effects edge none v = v
  drop-IsVouched env_id effects edge (some c) v = record {
    distinct = IsDistinct-remove env_id edge.connections v.distinct;
    connected = λ other connection h.
        v.connected other connection (ground (arith, h, get-remove env_id other edge.connections));
    routed = v.routed;
  }

  pub agent-settle :
      (id : Text) (message : ResponseMessage) (c : Connection) (o : Option Bool)
      → (settle id message c o).0.agent ≡ c.agent
  unfolding forget_request
  agent-settle id message c none = refl
  agent-settle id message c (some streaming) = refl

  pub agent-take_data :
      (id chunk : Text) (c : Connection) (o : Option Stream)
      → (take_data id chunk c o).0.agent ≡ c.agent
  agent-take_data id chunk c none = refl
  agent-take_data id chunk c (some relaying) = refl
  agent-take_data id chunk c (some (collecting chunks)) = refl

  pub agent-end_stream :
      (id : Text) (reason : Option Text) (c : Connection) (o : Option Stream)
      → (end_stream id reason c o).0.agent ≡ c.agent
  agent-end_stream id reason c none = refl
  agent-end_stream id reason c (some relaying) = refl
  agent-end_stream id reason c (some (collecting chunks)) = refl

  agent-answer_message :
      (ws env_id : ℕ) (message : HawserMessage) (c : Connection)
      → (answer_message ws env_id message c).0.agent ≡ c.agent
  unfolding answer_message on_response on_stream on_stream_end
  agent-answer_message ws env_id (hello agent) c = refl
  agent-answer_message ws env_id ping c = refl
  agent-answer_message ws env_id pong c = refl
  agent-answer_message ws env_id metrics c = refl
  agent-answer_message ws env_id container_event c = refl
  agent-answer_message ws env_id exec c = refl
  agent-answer_message ws env_id unknown c = refl
  agent-answer_message ws env_id (response id message) c =
      agent-settle id message c (get id c.pending_requests)
  agent-answer_message ws env_id (stream id chunk) c =
      agent-take_data id chunk c (get id c.pending_stream_requests)
  agent-answer_message ws env_id (stream_end id reason) c =
      agent-end_stream id reason c (get id c.pending_stream_requests)
  agent-answer_message ws env_id (error id) c = refl

  admit-IsVouched :
      (ws env_id : ℕ) (agent : Hello) (now : ℕ) (edge : Edge) (r : JsMap ℕ Tracker × Verdict)
      → Was agent.token env_id
      → IsVouched edge
      → IsVouched (admit ws env_id agent now edge r).0
  unfolding handle_edge_connection
  admit-IsVouched ws env_id agent now edge (trackers, throttled seconds) h v = record {
    distinct = v.distinct;
    connected = v.connected;
    routed = v.routed;
  }
  admit-IsVouched ws env_id agent now edge (trackers, allowed) h v = record {
    distinct =
        IsDistinct-put env_id (new_connection edge.next_id ws agent now) edge.connections
          v.distinct;
    connected = λ other connection k.
        let made = new_connection edge.next_id ws agent now in
        let stored = get-put env_id other made edge.connections in
        elim (Bool-cases (env_id == other)) [
          | inl own ↦
              let this : made ≡ connection = ground (arith, k, stored, own) in
              subst (λ (c : Connection). Was c.agent.token other) this
                (subst (Was agent.token) ((eq_iff env_id other).0 own) h)
          | inr different ↦ v.connected other connection (ground (arith, k, stored, different))
        ];
    routed = λ socket other k.
        let stored = get-put ws socket env_id edge.ws_to_env_id in
        elim (Bool-cases (ws == socket)) [
          | inl own ↦
              let id : env_id ≡ other = ground (arith, k, stored, own) in
              (agent.token, subst (Was agent.token) id h)
          | inr different ↦ v.routed socket other (ground (arith, k, stored, different))
        ];
  }

  pub authenticate-IsVouched :
      (ws : ℕ) (key : Text) (agent : Hello) (now : ℕ) (edge : Edge) (r : Validation)
      → ((token : Text) (env_id : ℕ)
          → IsIn (token, env_id) (accepted agent.token r)
          → Was token env_id)
      → IsVouched edge
      → IsVouched (authenticate ws key agent now edge r).0
  authenticate-IsVouched ws key agent now edge fails h v = v
  authenticate-IsVouched ws key agent now edge invalid h v = record {
    distinct = v.distinct;
    connected = v.connected;
    routed = v.routed;
  }
  authenticate-IsVouched ws key agent now edge (valid env_id) h v =
      admit-IsVouched ws env_id agent now edge
        (record_reconnection env_id now edge.reconnect_tracker) (h agent.token env_id (inl refl)) v

  pub routed_message-IsVouched :
      (ws : ℕ) (message : HawserMessage) (now : ℕ) (edge : Edge) (o : Option ℕ)
      → IsVouched edge
      → IsVouched (answer_from ws message now edge o).0
  routed_message-IsVouched ws message now edge none v = v
  routed_message-IsVouched ws message now edge (some env_id) v =
      with_connection-IsVouched env_id
        (λ c. answer_message ws env_id message (record c { last_heartbeat = now })) edge
        (get env_id edge.connections) refl
        (λ c. agent-answer_message ws env_id message (record c { last_heartbeat = now })) v
