-- ===== src/Collector/EventTests.antt =====
-- Reading the output, events and container health on small inputs, and the theorems at concrete events.
use sagedockhand.Common.{
  nat_eq, text_eq, ℕ, ◌≡◌, refl, true, false, none, some, List, [], ◌∷◌, arith,
}
use sagedockhand.Common.Text.{Text, codes, split, trim_start, trim_end, trim, concatenated}
use sagedockhand.Common.JsMap.{JsMap, get}
use sagedockhand.Collector.EventsLaws.{handle_container_event-twice}
use sagedockhand.Collector.Relevance.{DockerEvent}
use sagedockhand.Collector.SurplusLaws.{IsBounded}
use sagedockhand.Collector.State.{Collector, env_key}
use sagedockhand.Collector.ReaderLaws.{read_chunks-scan}
use sagedockhand.Collector.Health.{sub_status}
use sagedockhand.Collector.Events.{handle_container_event}
use sagedockhand.Collector.HealthLaws.{Delivery, actions_of, detected, answers, answers-detected}
use sagedockhand.Collector.Reader.{scan, read_chunk, read_chunks}

read_chunks-scan_example :
    read_chunks [] (codes "ab\nc" ∷ codes "d\n" ∷ codes "e" ∷ [])
    ≡ scan [] (concatenated (codes "ab\nc" ∷ codes "d\n" ∷ codes "e" ∷ []))
read_chunks-scan_example = read_chunks-scan (codes "ab\nc" ∷ codes "d\n" ∷ codes "e" ∷ [])

lines_test :
    read_chunks [] (codes "ab\nc" ∷ codes "d\n" ∷ codes "e" ∷ [])
    ≡ (codes "ab" ∷ codes "cd" ∷ [], codes "e")
unfolding read_chunks read_chunk scan
lines_test = refl

abbrev recent : JsMap Text ℕ
recent = (codes "1-a", 7) ∷ (codes "1-b", 9) ∷ []

pub recent-IsBounded : IsBounded recent
unfolding get
recent-IsBounded = record { distinct = (refl, (refl, tt)); within = omega arith }

abbrev pub collector : Collector
collector = record {
  recent_events = recent;
  last_disk_warning = [];
  env_names = (1, codes "local") ∷ [];
  configured_envs = 1 ∷ 4 ∷ [];
  last_health_status = [];
}

abbrev pub event : DockerEvent
event = record {
  kind = codes "container";
  action = codes "die";
  actor_id = codes "c0ffee";
  attributes = some ((codes "name", codes "web") ∷ []);
  time_nano = 12;
}

handle_container_event-twice_example :
    handle_container_event
      (λ row. true)
      1
      (some event)
      11
      (handle_container_event (λ row. true) 1 (some event) 10 collector).0
    ≡ ((handle_container_event (λ row. true) 1 (some event) 10 collector).0, [])
handle_container_event-twice_example =
    handle_container_event-twice (λ row. true) 1 (some event) 10 11 collector recent-IsBounded
      (omega arith, (omega arith, tt))

abbrev delivery : ℕ → Text → Text → Delivery
delivery env_id container_id action = record {
  env_id = env_id;
  container_id = container_id;
  action = action;
}

abbrev deliveries : List Delivery
deliveries =
    delivery 1 (codes "a") (codes "health_status: healthy")
    ∷ delivery 1 (codes "b") (codes "health_status: unhealthy")
    ∷ delivery 1 (codes "a") (codes "health_status: healthy")
    ∷ delivery 1 (codes "a") (codes "die")
    ∷ delivery 1 (codes "a") (codes "health_status: healthy")
    ∷ []

answers-detected_example :
    answers 1 (codes "a") deliveries []
    ≡ detected (actions_of 1 (codes "a") deliveries) (get (env_key 1 (codes "a")) [])
answers-detected_example = answers-detected 1 (codes "a") deliveries []

health_test : detected (actions_of 1 (codes "a") deliveries) none ≡ true ∷ false ∷ true ∷ true ∷ []
unfolding detected sub_status split trim trim_start trim_end
health_test = refl
