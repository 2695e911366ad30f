-- ===== src/Collector/Events.antt =====
-- `handleContainerEvent`, `handleEnvStatus` and `handleMetrics`.
use sagedockhand.Common.{
  leb, if◌then◌else◌, or_value, take, ◌==◌, nat_eq, text_eq, member, ℕ, ◌-◌, ◌/◌, Bool, not, ◌&&◌,
  ◌||◌, Option, none, some, List, [], ◌∷◌, ◌++◌,
}
use sagedockhand.Common.Text.{Text, codes, includes}
use sagedockhand.Common.JsMap.{JsMap, has}
use sagedockhand.MetricsStore.{Store, push_metric}
use sagedockhand.ContainerLabels.{is_notify_disabled_by_label}
use sagedockhand.Collector.Relevance.{
  DockerEvent, attribute, or_null, is_health, action_of, is_relevant, dedup_key,
}
use sagedockhand.Collector.Effects.{
  NotificationType, Notification, ContainerEventRow, EnvStatus, Effect, error, warning, success,
  info, save_event, emit_event, emit_status, notify_environment, notify_event,
}
use sagedockhand.Collector.Dedup.{note_event}
use sagedockhand.Collector.State.{Collector, env_name}
use sagedockhand.Collector.Health.{is_health_transition}

unfoldable pub row_of : ℕ → DockerEvent → ContainerEventRow
row_of env_id event = record {
  environment_id = env_id;
  container_id = event.actor_id;
  container_name = or_null (attribute (codes "name") event);
  image = or_null (attribute (codes "image") event);
  action = action_of event.action;
  actor_attributes = event.attributes;
  timestamp = event.time_nano / 1000000;
}

abbrev pub is_unhealthy : Text → Bool
is_unhealthy action = includes action (codes "unhealthy")

-- `toUpperCase()` on ASCII letters
abbrev pub upper_first : Text → Text
upper_first [] = []
upper_first (c ∷ s) = if leb b'a' c && leb c b'z' then (c - 32) ∷ s else c ∷ s

abbrev pub action_label : Text → Text
action_label action =
    if is_health action
    then if is_unhealthy action then codes "Unhealthy" else codes "Healthy"
    else upper_first action

abbrev pub notification_type : Text → NotificationType
notification_type action =
    if (action == codes "die")
      || (action == codes "kill")
      || (action == codes "oom")
      || is_unhealthy action
    then error
    else if action == codes "stop"
    then warning
    else if (action == codes "start")
        || (includes action (codes "healthy") && not (is_unhealthy action))
    then success
    else info

abbrev pub container_label : ContainerEventRow → Text
container_label row = elim row.container_name [ none ↦ take 12 row.container_id | some name ↦ name ]

abbrev pub image_suffix : Option Text → Text
image_suffix none = []
image_suffix (some image) = codes " (" ++ image ++ codes ")"

unfoldable pub notification_of : ContainerEventRow → Notification
notification_of row = record {
  title = codes "Container " ++ action_label row.action;
  message =
      codes "Container \""
      ++ container_label row
      ++ codes "\" "
      ++ row.action
      ++ image_suffix row.image;
  level = notification_type row.action;
}

-- `image` where it is empty is passed on as it is.
abbrev pub notify : DockerEvent → ContainerEventRow → List Effect
notify event row =
    if is_notify_disabled_by_label event.attributes
    then []
    else notify_environment row.environment_id row.action (notification_of row)
        (attribute (codes "image") event)
      ∷ []

module _ (save : ContainerEventRow → Bool) where
  -- From the insertion on; `save` tells whether it succeeds.
  unfoldable pub record_event : DockerEvent → ContainerEventRow → List Effect
  record_event event row =
      save_event row ∷ (if save row then emit_event row ∷ notify event row else notify event row)

  abbrev pub when_transition :
      ℕ → DockerEvent → Collector → JsMap Text Text × Bool → Collector × List Effect
  when_transition env_id event collector (last, stored) = (
    record collector { last_health_status = last },
    if stored then record_event event (row_of env_id event) else [],
  )

  -- From the deduplication on.
  unfoldable pub handle_relevant : ℕ → DockerEvent → ℕ → Collector → Collector × List Effect
  handle_relevant env_id event now collector =
      let key = dedup_key env_id event in
      if has key collector.recent_events
      then (collector, [])
      else when_transition env_id event
          (record collector { recent_events = note_event key now collector.recent_events })
          (is_health_transition env_id event.actor_id (action_of event.action)
            collector.last_health_status)

  -- `handleContainerEvent(msg)`, at the time `now`; a missing id is 0
  unfoldable pub handle_container_event :
      ℕ → Option DockerEvent → ℕ → Collector → Collector × List Effect
  handle_container_event env_id none now collector = (collector, [])
  handle_container_event env_id (some event) now collector =
      if (env_id == 0) || not (member env_id collector.configured_envs) || not (is_relevant event)
      then (collector, [])
      else handle_relevant env_id event now collector

abbrev pub reason_suffix : Option Text → Text
reason_suffix none = []
reason_suffix (some []) = []
reason_suffix (some (c ∷ s)) = codes ": " ++ c ∷ s

abbrev pub status_effects : EnvStatus → List Effect
status_effects status =
    emit_status status
    ∷ (if status.online
        then notify_event (codes "environment_online")
            (record {
              title = codes "Environment online";
              message = codes "Environment \"" ++ status.name ++ codes "\" is now reachable";
              level = success;
            })
            status.env_id
        else notify_event (codes "environment_offline")
            (record {
              title = codes "Environment offline";
              message =
                  codes "Environment \""
                  ++ status.name
                  ++ codes "\" is unreachable"
                  ++ reason_suffix status.reason;
              level = error;
            })
            status.env_id)
    ∷ []

-- `handleEnvStatus(msg)`
unfoldable pub handle_env_status : ℕ → Option Bool → Option Text → Collector → List Effect
handle_env_status env_id none reason collector = []
handle_env_status env_id (some online) reason collector =
    if env_id == 0
    then []
    else status_effects (record {
      env_id = env_id;
      name = env_name env_id collector;
      online = online;
      reason = reason;
    })

-- `handleMetrics(msg)`: the store of the metrics after it. A number that is missing in the message is
-- `none`; `absent` is the number 0.
unfoldable pub handle_metrics :
    {F T : Type 0}
    → F
    → ℕ
    → Option F
    → Option F
    → Option F
    → Option F
    → T
    → Collector
    → Store F T
    → Store F T
handle_metrics absent env_id cpu mem_percent mem_used mem_total now collector store = elim cpu [
  | none ↦ store
  | some c ↦ elim mem_percent [
    | none ↦ store
    | some m ↦
        if (env_id == 0) || not (member env_id collector.configured_envs)
        then store
        else push_metric env_id
            (record {
              cpu_percent = c;
              memory_percent = m;
              memory_used = or_value mem_used absent;
              memory_total = or_value mem_total absent;
            })
            now store
  ]
]
