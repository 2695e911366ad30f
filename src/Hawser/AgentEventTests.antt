-- ===== src/Hawser/AgentEventTests.antt =====
-- The start of a container and a failed health check, reported by an agent and collected by the server.
use sagedockhand.Common.{nat_eq, text_eq, member, ◌≡◌, refl, true, false, none, some, [], ◌∷◌}
use sagedockhand.Common.Text.{codes, split}
use sagedockhand.Common.JsMap.{has}
use sagedockhand.Collector.Effects.{error, info}
use sagedockhand.Collector.State.{Collector}
use sagedockhand.Collector.Relevance.{is_health, DockerEvent, base_action, action_of, is_relevant}
use sagedockhand.Collector.Events.{notification_type, handle_container_event}
use sagedockhand.Hawser.AgentEvents.{notification_level, handle_edge_container_event}
use sagedockhand.Hawser.AgentEventLaws.{
  reported, IsNew, handle_edge_container_event-handle_container_event,
}

abbrev started : DockerEvent
started = record {
  kind = codes "container";
  action = codes "start";
  actor_id = codes "a";
  attributes = none;
  time_nano = 5000000;
}

abbrev collector : Collector
collector = record {
  recent_events = [];
  last_disk_warning = [];
  env_names = [];
  configured_envs = 1 ∷ [];
  last_health_status = [];
}

started-IsNew : IsNew 1 started collector
unfolding is_relevant member base_action split has
started-IsNew = (refl, refl)

started_plain : is_health (action_of started.action) ≡ false
unfolding action_of base_action split
started_plain = refl

handle_edge_container_event-handle_container_event_example :
    handle_edge_container_event (λ row. true) 1 (reported started) [] ≡ (
      let (after, effects) = handle_container_event (λ row. true) 1 (some started) 9 collector in
      (after.last_health_status, effects))
handle_edge_container_event-handle_container_event_example =
    handle_edge_container_event-handle_container_event (λ row. true) 1 started 9 collector
      started-IsNew started_plain refl

unhealthy_test :
    (notification_level (codes "health_status: unhealthy") ≡ info)
    × (notification_type (codes "health_status: unhealthy") ≡ error)
unhealthy_test = (refl, refl)
