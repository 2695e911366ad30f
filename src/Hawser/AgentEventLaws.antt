-- ===== src/Hawser/AgentEventLaws.antt =====
-- The events of agents against those that the server collects itself.
use sagedockhand.Common.{
  ◌==◌, eq_iff, nat_eq, text_eq, member, ℕ, ◌/◌, ◌≡◌, refl, sym, ap, ◌∙◌, Bool, true, false, not,
  ◌||◌, ◌&&◌, some, List, [], ◌∷◌, All, arith, Bool-cases, inl, inr,
}
use sagedockhand.Common.Text.{Text, codes}
use sagedockhand.Common.JsMap.{has}
use sagedockhand.Collector.Effects.{ContainerEventRow}
use sagedockhand.Collector.State.{Collector}
use sagedockhand.Collector.Relevance.{
  DockerEvent, attribute, container_actions, is_health, action_of, base_action, is_relevant,
  dedup_key,
}
use sagedockhand.Collector.Events.{
  row_of, notification_type, notification_of, record_event, handle_relevant, handle_container_event,
}
use sagedockhand.Hawser.AgentEvents.{
  AgentEvent, row_from, notification_level, notification_for, store_event,
  handle_edge_container_event,
}

-- What an agent reports of an event of Docker
abbrev pub reported : DockerEvent → AgentEvent
reported event = record {
  container_id = event.actor_id;
  container_name = attribute (codes "name") event;
  image = attribute (codes "image") event;
  action = action_of event.action;
  actor_attributes = event.attributes;
  timestamp = event.time_nano / 1000000;
}

abbrev SameLevel : Text → Type 0
SameLevel action = is_health action ≡ false → notification_level action ≡ notification_type action

same_levels : All SameLevel container_actions
same_levels = (
  λ h. refl,
  (
    λ h. refl,
    (
      λ h. refl,
      (
        λ h. refl,
        (
          λ h. refl,
          (
            λ h. refl,
            (
              λ h. refl,
              (λ h. refl, (λ h. refl, (λ h. refl, (λ h. refl, (λ h. refl, (λ h. cc, tt)))))),
            ),
          ),
        ),
      ),
    ),
  ),
)

notification_for-notification_of :
    (row : ContainerEventRow)
    → is_health row.action ≡ false
    → notification_level row.action ≡ notification_type row.action
    → notification_for row ≡ notification_of row
unfolding notification_for notification_of
notification_for-notification_of row plain same = rw (plain, same) refl

IsIn-member : (P : Text → Type 0) (x : Text) (xs : List Text) → All P xs → member x xs ≡ true → P x
unfolding member
IsIn-member P x [] h m = cc
IsIn-member P x (y ∷ ys) (p, h) m = elim (Bool-cases (y == x)) [
  | inl e ↦ let here : y ≡ x = (eq_iff y x).0 e in rw (← here) p
  | inr other ↦ IsIn-member P x ys h (ground (arith, m, other))
]

-- An event that the server collects itself is new and concerns a container of an environment that it collects
abbrev pub IsNew : ℕ → DockerEvent → Collector → Type 0
IsNew env_id event collector =
    (((env_id == 0) || not (member env_id collector.configured_envs) || not (is_relevant event))
      ≡ false)
    × (has (dedup_key env_id event) collector.recent_events ≡ false)

row_from-row_of :
    (env_id : ℕ) (event : DockerEvent) → row_from env_id (reported event) ≡ row_of env_id event
unfolding row_from row_of
row_from-row_of env_id event = refl

action-row_of :
    (env_id : ℕ) (event : DockerEvent) → (row_of env_id event).action ≡ action_of event.action
unfolding row_of
action-row_of env_id event = refl

second_holds : (a b c d e : Bool) → (a && b && c && d && e) ≡ true → b ≡ true
second_holds a b c d e h = ground (arith, h)

base_action-IsIn :
    (event : DockerEvent)
    → is_relevant event ≡ true
    → member (base_action event.action) container_actions ≡ true
unfolding is_relevant
base_action-IsIn event h =
    second_holds _ (member (base_action event.action) container_actions) _ _ _ h

action_of-plain : (raw : Text) → is_health (action_of raw) ≡ false → action_of raw ≡ base_action raw
unfolding action_of
action_of-plain raw plain = elim (Bool-cases (is_health raw)) [
  | inl health ↦ absurd (ground (arith, plain, health))
  | inr other ↦ rw other refl
]

level_of_reported :
    (event : DockerEvent)
    → is_relevant event ≡ true
    → is_health (action_of event.action) ≡ false
    → notification_level (action_of event.action) ≡ notification_type (action_of event.action)
level_of_reported event relevant plain =
    let base = action_of-plain event.action plain in
    let level =
      IsIn-member SameLevel (base_action event.action) container_actions same_levels
        (base_action-IsIn event relevant) in
    rw base (level (ap is_health (sym base) ∙ plain))

module _ (save : ContainerEventRow → Bool) where
  record_event-store_event :
      (env_id : ℕ) (event : DockerEvent)
      → save (row_of env_id event) ≡ true
      → notification_for (row_of env_id event) ≡ notification_of (row_of env_id event)
      → store_event save (reported event) (row_from env_id (reported event))
        ≡ record_event save event (row_of env_id event)
  unfolding store_event record_event
  record_event-store_event env_id event saved same =
      rw (row_from-row_of env_id event, saved, same) refl

  -- An event other than of health, and that `handleContainerEvent` does not ignore, has the same effects when
  -- an agent reports it, and leaves the same health status, where its row can be saved.
  pub handle_edge_container_event-handle_container_event :
      (env_id : ℕ) (event : DockerEvent) (now : ℕ) (collector : Collector)
      → IsNew env_id event collector
      → is_health (action_of event.action) ≡ false
      → save (row_of env_id event) ≡ true
      → handle_edge_container_event save env_id (reported event) collector.last_health_status ≡ (
          let (after, effects) = handle_container_event save env_id (some event) now collector in
          (after.last_health_status, effects))
  unfolding handle_edge_container_event handle_container_event handle_relevant
  handle_edge_container_event-handle_container_event env_id event now collector (heeded, fresh)
        plain saved =
      let relevant : is_relevant event ≡ true = ground (arith, heeded) in
      let same =
        notification_for-notification_of (row_of env_id event)
          (ap is_health (action-row_of env_id event) ∙ plain)
          (rw (action-row_of env_id event) (level_of_reported event relevant plain)) in
      rw (heeded, fresh, record_event-store_event env_id event saved same) refl
