-- ===== src/Hawser/EndingLaws.antt =====
-- The ends of a connection that settle what waits on it.
use sagedockhand.Common.{
  if-true-holds, eq_refl, ◌==◌, nat_eq, text_eq, ℕ, ◌≡◌, refl, sym, ap, ◌∙◌, true, Option, none,
  some, List, [], ◌∷◌, ◌++◌,
}
use sagedockhand.Common.Text.{Text, codes}
use sagedockhand.Common.JsMap.{get}
use sagedockhand.Hawser.Calls.{Call, perform_all, ArePossible, requested, settled, occurrences}
use sagedockhand.Hawser.State.{Hello, Connection, Effect, Edge, closed, terminated, status_changed}
use sagedockhand.Hawser.Connections.{
  abandon, new_connection, handle_edge_connection, close_edge_connection, handle_disconnect,
  drop_if_current, disconnect_of, handle_hawser_ws_disconnect, is_silent, time_out, clean_up,
}
use sagedockhand.Hawser.AbandonLaws.{settled-append}
use sagedockhand.Hawser.SettlementLaws.{settled-abandon}
use mathlib.Core.List.{append-nil}

-- The environment is deleted, `handleDisconnect` is called, a new agent replaces the connection, its socket
-- closes, or the cleanup finds it silent. A new token and `stopEdgeManager` are not among them.
pub data Ending : Type 0 where
  deletes disconnects : Ending
  -- the socket, the agent, the time
  replaces : ℕ → Hello → ℕ → Ending
  closes_ws times_out : ℕ → Ending

abbrev pub end_by : Ending → ℕ → Edge → Edge × List Effect
end_by deletes env_id edge = close_edge_connection env_id edge
end_by disconnects env_id edge = handle_disconnect env_id edge
end_by (replaces ws agent now) env_id edge = handle_edge_connection ws env_id agent now edge
end_by (closes_ws ws) env_id edge = handle_hawser_ws_disconnect ws edge
end_by (times_out now) env_id edge = clean_up now edge

-- The connection is that of the environment; the socket that closes is its own, and routed to the
-- environment; the cleanup finds it silent, and no other connection.
abbrev pub CanEnd : Ending → ℕ → Edge → Connection → Type 0
CanEnd deletes env_id edge connection = get env_id edge.connections ≡ some connection
CanEnd disconnects env_id edge connection = get env_id edge.connections ≡ some connection
CanEnd (replaces ws agent now) env_id edge connection =
    get env_id edge.connections ≡ some connection
CanEnd (closes_ws ws) env_id edge connection =
    (get env_id edge.connections ≡ some connection)
    × (get ws edge.ws_to_env_id ≡ some env_id)
    × (connection.ws ≡ ws)
CanEnd (times_out now) env_id edge connection =
    (edge.connections ≡ (env_id, connection) ∷ []) × (is_silent now connection ≡ true)

-- The effects that settle as much as the connection abandons.
abbrev Settles : Connection → List Effect → Type 0
Settles connection effects =
    (reason : Text) × (settled effects ≡ settled (abandon reason connection))

settled-then :
    (reason : Text) (connection : Connection) (rest : List Effect)
    → settled rest ≡ []
    → settled (abandon reason connection ++ rest) ≡ settled (abandon reason connection)
settled-then reason connection rest h =
    settled-append (abandon reason connection) rest
    ∙ ap (λ (ids : List Text). settled (abandon reason connection) ++ ids) h
    ∙ append-nil (settled (abandon reason connection))

drop_if_current-settled :
    (ws env_id : ℕ) (edge : Edge) (connection : Connection)
    → connection.ws ≡ ws
    → settled (drop_if_current ws env_id edge (some connection)).1
      ≡ settled (abandon (codes "Agent disconnected") connection)
unfolding settled
drop_if_current-settled ws env_id edge connection h =
    let own : (connection.ws == ws) ≡ true = rw h (eq_refl ws) in
    if-true-holds
      (λ (r : Edge × List Effect).
        settled r.1 ≡ settled (abandon (codes "Agent disconnected") connection))
      (connection.ws == ws) _ own
      (settled-then (codes "Agent disconnected") connection (status_changed env_id none ∷ []) refl)

disconnect_of-settled :
    (ws env_id : ℕ) (edge : Edge) (connection : Connection) (o : Option ℕ)
    → o ≡ some env_id
    → get env_id edge.connections ≡ some connection
    → connection.ws ≡ ws
    → settled (disconnect_of ws edge o).1
      ≡ settled (abandon (codes "Agent disconnected") connection)
disconnect_of-settled ws env_id edge connection o routed there own =
    rw (routed, there) (drop_if_current-settled ws env_id edge connection own)

time_out-settled :
    (now env_id : ℕ) (connection : Connection)
    → is_silent now connection ≡ true
    → settled (time_out now ((env_id, connection) ∷ [])).1
      ≡ settled (abandon (codes "Connection timeout") connection)
unfolding time_out settled
time_out-settled now env_id connection silent = rw silent (
    settled-then (codes "Connection timeout") connection
      (closed connection.ws 1001 ∷ status_changed env_id none ∷ []) refl)

replaced-settled :
    (env_id : ℕ) (connection : Connection) (agent : Hello)
    → settled (
        (abandon (codes "Connection replaced by new agent") connection
          ++ terminated connection.ws ∷ [])
        ++ status_changed env_id (some agent) ∷ [])
      ≡ settled (abandon (codes "Connection replaced by new agent") connection)
unfolding settled
replaced-settled env_id connection agent =
    let reason = codes "Connection replaced by new agent" in
    settled-append (abandon reason connection ++ terminated connection.ws ∷ [])
      (status_changed env_id (some agent) ∷ [])
    ∙ append-nil (settled (abandon reason connection ++ terminated connection.ws ∷ []))
    ∙ settled-then reason connection (terminated connection.ws ∷ []) refl

end_by-settled :
    (ending : Ending) (env_id : ℕ) (edge : Edge) (connection : Connection)
    → CanEnd ending env_id edge connection
    → Settles connection (end_by ending env_id edge).1
unfolding close_edge_connection handle_disconnect handle_edge_connection handle_hawser_ws_disconnect
    clean_up settled
end_by-settled deletes env_id edge connection there = (
  codes "Environment deleted",
  rw there
      (settled-then (codes "Environment deleted") connection (closed connection.ws 1000 ∷ []) refl),
)
end_by-settled disconnects env_id edge connection there = (
  codes "Connection closed",
  rw there
      (settled-then (codes "Connection closed") connection (status_changed env_id none ∷ []) refl),
)
end_by-settled (replaces ws agent now) env_id edge connection there =
    (codes "Connection replaced by new agent", rw there (replaced-settled env_id connection agent))
end_by-settled (closes_ws ws) env_id edge connection (there, routed, own) = (
  codes "Agent disconnected",
  disconnect_of-settled ws env_id edge connection (get ws edge.ws_to_env_id) routed there own,
)
end_by-settled (times_out now) env_id edge connection (alone, silent) =
    (codes "Connection timeout", rw alone (time_out-settled now env_id connection silent))

-- Every request on a connection is settled exactly as often as it is made, by the time that the connection
-- ends because its environment is deleted, its agent disconnects, its socket closes, a new agent replaces
-- it, or it is silent at a cleanup that finds no other connection: after any calls on a new connection, in
-- which the id of a request or a stream is not in use and only a request that waits is given up.
pub settled-once :
    (calls : List Call) (number ws : ℕ) (agent : Hello) (now : ℕ) (id : Text) (ending : Ending)
    (env_id : ℕ) (edge : Edge)
    → ArePossible calls (new_connection number ws agent now)
    → CanEnd ending env_id edge (perform_all calls (new_connection number ws agent now)).0
    → occurrences id (
        settled (
          (perform_all calls (new_connection number ws agent now)).1
          ++ (end_by ending env_id edge).1))
      ≡ occurrences id (requested calls)
settled-once calls number ws agent now id ending env_id edge possible ends =
    let run = perform_all calls (new_connection number ws agent now) in
    let (reason, same) = end_by-settled ending env_id edge run.0 ends in
    ap (occurrences id) (
      settled-append run.1 (end_by ending env_id edge).1
      ∙ ap (λ (ids : List Text). settled run.1 ++ ids) same
      ∙ sym (settled-append run.1 (abandon reason run.0)))
    ∙ settled-abandon calls number ws agent now id reason possible
