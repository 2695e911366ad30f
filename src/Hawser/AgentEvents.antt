-- ===== src/Hawser/AgentEvents.antt =====
-- `handleEdgeContainerEvent`: a container's event that an agent reports. The map of the last health status is
-- the one of src/lib/server/subprocess-manager.ts. The time stamp is in milliseconds.
use sagedockhand.Common.{
  if◌then◌else◌, ◌==◌, nat_eq, text_eq, ℕ, Bool, ◌||◌, Option, List, [], ◌∷◌, ◌++◌,
}
use sagedockhand.Common.Text.{Text, codes}
use sagedockhand.Common.JsMap.{JsMap}
use sagedockhand.ContainerLabels.{is_notify_disabled_by_label}
use sagedockhand.Collector.Effects.{
  NotificationType, Notification, ContainerEventRow, Effect, error, warning, success, info,
  save_event, emit_event, notify_environment,
}
use sagedockhand.Collector.Relevance.{or_null}
use sagedockhand.Collector.Events.{upper_first, container_label, image_suffix}
use sagedockhand.Collector.Health.{is_health_transition}

-- `ContainerEventMessage['event']`
pub record AgentEvent : Type 0 where
  pub container_id : Text
  pub container_name : Option Text
  pub image : Option Text
  pub action : Text
  pub actor_attributes : Option (JsMap Text Text)
  pub timestamp : ℕ

unfoldable pub row_from : ℕ → AgentEvent → ContainerEventRow
row_from env_id event = record {
  environment_id = env_id;
  container_id = event.container_id;
  container_name = or_null event.container_name;
  image = or_null event.image;
  action = event.action;
  actor_attributes = event.actor_attributes;
  timestamp = event.timestamp;
}

abbrev pub notification_level : Text → NotificationType
notification_level action =
    if (action == codes "die") || (action == codes "kill") || (action == codes "oom")
    then error
    else if action == codes "stop"
    then warning
    else if action == codes "start"
    then success
    else info

unfoldable pub notification_for : ContainerEventRow → Notification
notification_for row = record {
  title = codes "Container " ++ upper_first row.action;
  message =
      codes "Container \""
      ++ container_label row
      ++ codes "\" "
      ++ row.action
      ++ image_suffix row.image;
  level = notification_level row.action;
}

abbrev pub notify_of : AgentEvent → ContainerEventRow → List Effect
notify_of event row =
    if is_notify_disabled_by_label event.actor_attributes
    then []
    else notify_environment row.environment_id row.action (notification_for row) event.image ∷ []

module _ (save : ContainerEventRow → Bool) where
  -- From the insertion on; `save` tells whether it succeeds, and the handler ends where it does not.
  unfoldable pub store_event : AgentEvent → ContainerEventRow → List Effect
  store_event event row =
      save_event row ∷ (if save row then emit_event row ∷ notify_of event row else [])

  abbrev pub if_transition : ℕ → AgentEvent → JsMap Text Text × Bool → JsMap Text Text × List Effect
  if_transition env_id event (last, stored) =
      (last, if stored then store_event event (row_from env_id event) else [])

  -- `handleEdgeContainerEvent(environmentId, event)`
  unfoldable pub handle_edge_container_event :
      ℕ → AgentEvent → JsMap Text Text → JsMap Text Text × List Effect
  handle_edge_container_event env_id event last =
      if_transition env_id event (is_health_transition env_id event.container_id event.action last)
