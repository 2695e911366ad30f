-- ===== src/Collector/Tests.antt =====
-- The collection on small inputs, and the theorems at concrete messages.
use sagedockhand.Common.{
  ◌≤◌, if◌then◌else◌, length, ◌==◌, nat_eq, text_eq, member, ℕ, ◌*◌, ◌≡◌, refl, Bool, true, false,
  ◌&&◌, ◌||◌, Option, none, some, List, [], ◌∷◌, ◌++◌, arith,
}
use sagedockhand.Common.Text.{Text, codes, split, trim, to_decimal}
use sagedockhand.Common.JsMap.{get, has, put, remove}
use sagedockhand.ContainerLabels.{parse_label_bool, get_label, is_notify_disabled_by_label}
use sagedockhand.Collector.EventTests.{collector, event, recent-IsBounded}
use sagedockhand.Collector.Relevance.{base_action, action_of, is_relevant, dedup_key}
use sagedockhand.Collector.Disk.{
  DiskUsage, DiskSettings, total_used, gb, is_over, handle_disk_usage,
}
use sagedockhand.Collector.DiskLaws.{DiskMessage, IsSpaced, warned_at, warned_at-IsSpaced}
use sagedockhand.Collector.ProcessLaws.{run-stops}
use sagedockhand.Collector.Dedup.{note_event}
use sagedockhand.Collector.Health.{is_health_transition}
use sagedockhand.Collector.Messages.{
  Message, Outside, Server, Happening, dispatch_message, handle_line, handle_lines, on_data,
  proceed, proceed_all, container_event, prints, happens,
}
use sagedockhand.Collector.EnvironmentsLaws.{
  has_env, is_direct, is_wanted, obey_all, send_environment_configs_iff,
}
use sagedockhand.Collector.Events.{record_event, handle_relevant, handle_container_event}
use sagedockhand.Collector.Environments.{
  Environment, config_of, sync_environment, sync_environments, forget_if_inactive, forget_inactive,
  synced, send_environment_configs,
}
use sagedockhand.Collector.MessagesLaws.{IsLimited, proceed_all-IsLimited}
use sagedockhand.Collector.Reader.{scan, read_chunk}
use sagedockhand.Collector.Worker.{
  Configuration, initial, start_subprocesses, stop_subprocesses, finish_start, on_exit, on_timer,
  on_cleanup, WorkerEvent, run, starts, exits, stops, finishes, fires, cleans,
}

abbrev usage : DiskUsage
usage = record { images = 60 * gb ∷ []; containers = []; volumes = 2 * gb ∷ []; build_cache = [] }

abbrev absolute : DiskSettings
absolute = record {
  enabled = none;
  mode = some (codes "absolute");
  threshold_gb = none;
  threshold = none;
}

abbrev message : ℕ → DiskMessage
message now = record {
  sent = true;
  env_id = 1;
  usage = some usage;
  driver_status = [];
  settings = absolute;
  now = now;
}

abbrev messages : List DiskMessage
messages = message 5 ∷ message 3600004 ∷ message 3600005 ∷ []

warned_at-IsSpaced_example : IsSpaced (
    warned_at
      (λ size. 0)
      (λ used total threshold. false)
      (λ used. [])
      (λ used total. [])
      1
      messages
      collector)
warned_at-IsSpaced_example =
    warned_at-IsSpaced (λ size. 0) (λ used total threshold. false) (λ used. []) (λ used total. []) 1
      messages collector (omega arith, (omega arith, (omega arith, tt)))

warned_test :
    warned_at
      (λ size. 0)
      (λ used total threshold. false)
      (λ used. [])
      (λ used total. [])
      1
      messages
      collector
    ≡ 5 ∷ 3600005 ∷ []
unfolding warned_at handle_disk_usage is_over total_used member get put
warned_test = refl

abbrev environment : ℕ → Bool → Environment
environment id collected = record {
  id = id;
  name = codes "remote";
  connection_type = codes "direct";
  socket_path = [];
  protocol = [];
  host = codes "10.0.0.7";
  port = 2376;
  tls_ca = [];
  tls_cert = [];
  tls_key = [];
  tls_skip_verify = false;
  hawser_token = [];
  collect_metrics = collected;
  collect_activity = collected;
}

abbrev environments : List Environment
environments = environment 1 false ∷ environment 2 true ∷ []

send_environment_configs_iff_example :
    let after = send_environment_configs environments 30000 (codes "stream") 60000 collector in
    (member 1 after.0.configured_envs ≡ (
      (member 1 collector.configured_envs && has_env 1 is_direct environments)
      || has_env 1 is_wanted environments))
    × (member 1 (obey_all after.1 collector.configured_envs) ≡ member 1 after.0.configured_envs)
send_environment_configs_iff_example =
    send_environment_configs_iff 1 environments 30000 (codes "stream") 60000 collector

-- The environment 1, which collects nothing now, stays; the environment 4, which is gone, does not.
configured_test :
    (send_environment_configs environments 30000 (codes "stream") 60000 collector).0.configured_envs
    ≡ 1 ∷ 2 ∷ []
unfolding send_environment_configs synced sync_environments sync_environment forget_inactive
    forget_if_inactive config_of member
configured_test = refl

abbrev configuration : Configuration
configuration = record {
  environments = environments;
  metrics_interval = 30000;
  event_mode = codes "stream";
  poll_interval = 60000;
}

abbrev life : List WorkerEvent
life = exits 0 ∷ fires 0 ∷ finishes configuration ∷ cleans 9000 ∷ exits 1 ∷ []

run-stops_example :
    (length (run life (start_subprocesses initial)).processes ≤ 1)
    × ((run
          (life ++ stops ∷ fires 0 ∷ starts ∷ finishes configuration ∷ [])
          (start_subprocesses initial)).processes
        ≡ [])
run-stops_example =
    run-stops life (fires 0 ∷ starts ∷ finishes configuration ∷ [])
      (refl, (refl, (refl, (refl, (refl, tt)))))

-- A stop ends the process that `proc` holds, and not one that was started before it.
lost_process_test : (run (starts ∷ starts ∷ stops ∷ []) initial).processes ≡ 0 ∷ []
unfolding run start_subprocesses stop_subprocesses
lost_process_test = refl

-- A worker whose lines are `e`, for the event, and others.
abbrev parsed : Text → Option (Message ℕ)
parsed line = if line == codes "e" then some (container_event 1 (some event)) else none

abbrev outside : Outside ℕ ℕ
outside = record {
  parse = parsed;
  save = λ row. true;
  sends = true;
  disk_settings = λ env_id. absolute;
  parse_size = λ size. 0;
  reaches = λ used total threshold. false;
  format_size = λ used. [];
  percent_text = λ used total. [];
  number_zero = 0;
  time_stamp = λ now. now;
}

abbrev server : Server ℕ ℕ
server = record {
  worker = record initial {
    proc = some 0;
    processes = 0 ∷ [];
    next_process = 1;
    collector = collector;
  };
  store = record { rings = []; next_id = 1 };
  effects = [];
  line_buffer = [];
}

server-IsLimited : IsLimited server.worker
server-IsLimited = record {
  bounded = recent-IsBounded;
  paced = record { least = omega arith; most = omega arith; waiting = tt };
}

abbrev happenings : List Happening
happenings =
    prints (codes "e\n") 20
    ∷ prints (codes "e") 21
    ∷ happens (exits 0)
    ∷ prints (codes "\n") 22
    ∷ []

proceed_all-IsLimited_example : IsLimited (proceed_all outside happenings server).worker
proceed_all-IsLimited_example = proceed_all-IsLimited outside happenings server server-IsLimited

-- The event is seen once, and is ignored when no environment is configured.
effects_test : length (proceed_all outside happenings server).effects ≡ 3
unfolding proceed_all proceed on_data read_chunk scan handle_lines handle_line dispatch_message
    on_exit handle_container_event handle_relevant is_relevant record_event
    is_notify_disabled_by_label is_health_transition action_of base_action dedup_key note_event
    member has get put remove trim split to_decimal parse_label_bool get_label
effects_test = refl

restart_test : (run life (start_subprocesses initial)).restart_delay ≡ 4000
unfolding run start_subprocesses on_exit on_timer finish_start on_cleanup
restart_test = refl
