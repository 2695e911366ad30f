-- ===== src/Collector/Messages.antt =====
-- `handleLine`: what a line of the worker's output does. The awaits of a handler are taken as one step.
use sagedockhand.Common.{
  if◌then◌else◌, ◌==◌, nat_eq, text_eq, ℕ, Bool, Option, none, some, List, [], ◌∷◌, ◌++◌,
}
use sagedockhand.Common.Text.{Text, trim}
use sagedockhand.MetricsStore.{Store}
use sagedockhand.Collector.Relevance.{DockerEvent}
use sagedockhand.Collector.Disk.{DiskUsage, DiskSettings, handle_disk_usage}
use sagedockhand.Collector.Effects.{ContainerEventRow, Effect}
use sagedockhand.Collector.State.{Collector}
use sagedockhand.Collector.Events.{handle_container_event, handle_env_status, handle_metrics}
use sagedockhand.Collector.Reader.{read_chunk}
use sagedockhand.Collector.Worker.{Worker, on_ready, WorkerEvent, handle}

-- A message of the worker, by its type; a missing environment is 0, and `none` stands for what is missing.
pub data Message (F : Type 0) : Type 0 where
  ready : Message F
  -- cpu, memPercent, memUsed, memTotal
  metrics : ℕ → Option F → Option F → Option F → Option F → Message F
  env_status : ℕ → Option Bool → Option Text → Message F
  container_event : ℕ → Option DockerEvent → Message F
  -- the data, and the driver status of the information
  disk_usage : ℕ → Option DiskUsage → List (Text × Text) → Message F
  -- an `error`, or a type that is not known
  unknown : Message F

-- What the handlers use of the rest: `JSON.parse`, the database, and the numbers.
pub record Outside (F T : Type 0) : Type 0 where
  pub parse : Text → Option (Message F)
  pub save : ContainerEventRow → Bool
  pub sends : Bool
  pub disk_settings : ℕ → DiskSettings
  pub parse_size : Text → ℕ
  pub reaches : ℕ → ℕ → ℕ → Bool
  pub format_size : ℕ → Text
  pub percent_text : ℕ → ℕ → Text
  pub number_zero : F
  pub time_stamp : ℕ → T

-- The variables of the module and of the store of metrics, and the effects so far, in order.
pub record Server (F T : Type 0) : Type 0 where
  pub worker : Worker
  pub store : Store F T
  pub effects : List Effect
  pub line_buffer : Text

-- A chunk of output at a time, or what else happens to the worker.
pub data Happening : Type 0 where
  prints : Text → ℕ → Happening
  happens : WorkerEvent → Happening

module _ {F T : Type 0} (outside : Outside F T) where
  abbrev pub with_collector : Collector × List Effect → Server F T → Server F T
  with_collector (collector, effects) server = record server {
    worker = record server.worker { collector = collector };
    effects = server.effects ++ effects;
  }

  -- The `switch` on the type of the message.
  unfoldable pub dispatch_message : Message F → ℕ → Server F T → Server F T
  dispatch_message ready now server = record server { worker = on_ready server.worker }
  dispatch_message (metrics env_id cpu mem_percent mem_used mem_total) now server = record server {
    store =
        handle_metrics outside.number_zero env_id cpu mem_percent mem_used mem_total
          (outside.time_stamp now) server.worker.collector server.store;
  }
  dispatch_message (env_status env_id online reason) now server = record server {
    effects = server.effects ++ handle_env_status env_id online reason server.worker.collector;
  }
  dispatch_message (container_event env_id event) now server =
      with_collector (handle_container_event outside.save env_id event now server.worker.collector)
        server
  dispatch_message (disk_usage env_id usage driver_status) now server =
      with_collector
        (handle_disk_usage outside.parse_size outside.reaches outside.format_size
          outside.percent_text outside.sends env_id usage driver_status
          (outside.disk_settings env_id) now server.worker.collector)
        server
  dispatch_message unknown now server = server

  abbrev pub dispatch_parsed : Option (Message F) → ℕ → Server F T → Server F T
  dispatch_parsed none now server = server
  dispatch_parsed (some message) now server = dispatch_message message now server

  -- `handleLine(line)`
  unfoldable pub handle_line : Text → ℕ → Server F T → Server F T
  handle_line line now server =
      if trim line == [] then server else dispatch_parsed (outside.parse line) now server

  -- The lines of a chunk are handled at one time.
  unfoldable pub handle_lines : List Text → ℕ → Server F T → Server F T
  handle_lines [] now server = server
  handle_lines (line ∷ lines) now server = handle_lines lines now (handle_line line now server)

  -- The callback of `data`
  unfoldable pub on_data : Text → ℕ → Server F T → Server F T
  on_data chunk now server =
      let (lines, left) = read_chunk server.line_buffer chunk in
      handle_lines lines now (record server { line_buffer = left })

  unfoldable pub proceed : Happening → Server F T → Server F T
  proceed (prints chunk now) server = on_data chunk now server
  proceed (happens event) server = record server { worker = handle event server.worker }

  unfoldable pub proceed_all : List Happening → Server F T → Server F T
  proceed_all [] server = server
  proceed_all (happening ∷ happenings) server = proceed_all happenings (proceed happening server)
