-- ===== src/Collector/EventsLaws.antt =====
-- An event that comes twice has effects once.
use sagedockhand.Common.{
  Bool-cases, Option-cases, if-holds, ◌==◌, nat_eq, text_eq, member, ℕ, ◌≡◌, refl, inl, inr, Bool,
  not, ◌||◌, Option, none, some, [], arith,
}
use sagedockhand.Common.JsMap.{get, has_iff}
use sagedockhand.Collector.Relevance.{DockerEvent, is_relevant, dedup_key}
use sagedockhand.Collector.Effects.{ContainerEventRow}
use sagedockhand.Collector.SurplusLaws.{IsBounded}
use sagedockhand.Collector.DedupLaws.{IsPast, note_event-remembered}
use sagedockhand.Collector.State.{Collector}
use sagedockhand.Collector.Events.{handle_relevant, handle_container_event}

abbrev pub is_ignored : ℕ → DockerEvent → Collector → Bool
is_ignored env_id event collector =
    (env_id == 0) || not (member env_id collector.configured_envs) || not (is_relevant event)

module _ (save : ContainerEventRow → Bool) where
  handle_relevant-seen :
      (env_id : ℕ) (event : DockerEvent) (now stamp : ℕ) (collector : Collector)
      → get (dedup_key env_id event) collector.recent_events ≡ some stamp
      → handle_relevant save env_id event now collector ≡ (collector, [])
  unfolding handle_relevant
  handle_relevant-seen env_id event now stamp collector h =
      ground (arith, h, has_iff (dedup_key env_id event) collector.recent_events)

  -- What is known of an event once it was handled.
  recent_events-handle_relevant :
      (env_id : ℕ) (event : DockerEvent) (now : ℕ) (collector : Collector)
      → IsBounded collector.recent_events
      → IsPast now collector.recent_events
      → (stamp : ℕ) × (get
            (dedup_key env_id event)
            (handle_relevant save env_id event now collector).0.recent_events
          ≡ some stamp)
  unfolding handle_relevant
  recent_events-handle_relevant env_id event now collector b past =
      let key = dedup_key env_id event in
      elim (Option-cases (get key collector.recent_events)) [
        | inl fresh ↦ (
          now,
          ground (
            arith,
            (has_iff key collector.recent_events).1 fresh,
            note_event-remembered key now collector.recent_events b past fresh,
          ),
        )
        | inr (stamp, h) ↦ (stamp, ground (arith, h, has_iff key collector.recent_events))
      ]

  -- An event that is handled a second time, with nothing in between, changes nothing and has no effects,
  -- where the cache of seen events is within its limit and holds no later time stamp.
  pub handle_container_event-twice :
      (env_id : ℕ) (event : Option DockerEvent) (now later : ℕ) (collector : Collector)
      → IsBounded collector.recent_events
      → IsPast now collector.recent_events
      → handle_container_event save env_id event later
          (handle_container_event save env_id event now collector).0
        ≡ ((handle_container_event save env_id event now collector).0, [])
  unfolding handle_container_event
  handle_container_event-twice env_id none now later collector b past = refl
  handle_container_event-twice env_id (some event) now later collector b past =
      elim (Bool-cases (is_ignored env_id event collector)) [
        | inl ignored ↦ rw (ignored, ignored) refl
        | inr heeded ↦
            let next = (handle_relevant save env_id event now collector).0 in
            let (stamp, seen) = recent_events-handle_relevant env_id event now collector b past in
            rw heeded (
              if-holds (λ r. r ≡ (next, [])) (is_ignored env_id event next) refl
                (handle_relevant-seen env_id event later stamp next seen))
      ]
