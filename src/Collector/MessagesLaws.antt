-- ===== src/Collector/MessagesLaws.antt =====
-- Whatever the worker prints and whatever happens to it, the limits hold.
use sagedockhand.Common.{
  if-holds, ◌==◌, nat_eq, text_eq, ℕ, ◌≡◌, refl, Bool, Option, none, some, List, [], ◌∷◌, arith,
}
use sagedockhand.Common.Text.{Text, trim}
use sagedockhand.Common.JsMap.{has}
use sagedockhand.Collector.EventsLaws.{is_ignored}
use sagedockhand.Collector.Relevance.{DockerEvent, dedup_key}
use sagedockhand.Collector.Disk.{DiskUsage, DiskSettings, handle_disk_usage}
use sagedockhand.Collector.Effects.{ContainerEventRow, Effect}
use sagedockhand.Collector.WorkerLaws.{IsPaced, handle-IsPaced}
use sagedockhand.Collector.SurplusLaws.{IsBounded}
use sagedockhand.Collector.DedupLaws.{cleanup_recent_events-IsBounded, note_event-IsBounded}
use sagedockhand.Collector.State.{Collector}
use sagedockhand.Collector.Messages.{
  Message, Outside, Server, Happening, dispatch_message, dispatch_parsed, handle_line, handle_lines,
  on_data, proceed, proceed_all, ready, metrics, env_status, container_event, disk_usage, unknown,
  prints, happens,
}
use sagedockhand.Collector.Events.{handle_relevant, handle_container_event}
use sagedockhand.Collector.Environments.{send_environment_configs}
use sagedockhand.Collector.Reader.{read_chunk}
use sagedockhand.Collector.Worker.{
  has_process, Worker, start_subprocesses, finish_start, refresh_subprocess_environments, on_ready,
  on_exit, on_error, take_timer, fire, on_timer, stop_subprocesses, on_cleanup, WorkerEvent, handle,
  starts, readies, exits, fails, stops, finishes, refreshes, fires, cleans,
}

handle_container_event-IsBounded :
    (save : ContainerEventRow → Bool) (env_id : ℕ) (event : Option DockerEvent) (now : ℕ)
    (collector : Collector)
    → IsBounded collector.recent_events
    → IsBounded (handle_container_event save env_id event now collector).0.recent_events
unfolding handle_container_event handle_relevant
handle_container_event-IsBounded save env_id none now collector b = b
handle_container_event-IsBounded save env_id (some event) now collector b =
    let P : Collector × List Effect → Type 0 = λ r. IsBounded r.0.recent_events in
    if-holds P (is_ignored env_id event collector) b (
      if-holds P (has (dedup_key env_id event) collector.recent_events) b
        (note_event-IsBounded (dedup_key env_id event) now collector.recent_events b))

module _ (parse_size : Text → ℕ) (reaches : ℕ → ℕ → ℕ → Bool) (format_size : ℕ → Text)
    (percent_text : ℕ → ℕ → Text) where
  recent_events-handle_disk_usage :
      (sent : Bool) (env_id : ℕ) (usage : Option DiskUsage) (driver_status : List (Text × Text))
      (settings : DiskSettings) (now : ℕ) (collector : Collector)
      → (handle_disk_usage parse_size reaches format_size percent_text sent env_id usage
          driver_status settings now collector).0.recent_events
        ≡ collector.recent_events
  unfolding handle_disk_usage
  recent_events-handle_disk_usage sent env_id none driver_status settings now collector = refl
  recent_events-handle_disk_usage sent env_id (some usage) driver_status settings now collector =
      ground arith

  handle_disk_usage-IsBounded :
      (sent : Bool) (env_id : ℕ) (usage : Option DiskUsage) (driver_status : List (Text × Text))
      (settings : DiskSettings) (now : ℕ) (collector : Collector)
      → IsBounded collector.recent_events
      → IsBounded
          (handle_disk_usage parse_size reaches format_size percent_text sent env_id usage
            driver_status settings now collector).0.recent_events
  handle_disk_usage-IsBounded sent env_id usage driver_status settings now collector b =
      rw (recent_events-handle_disk_usage sent env_id usage driver_status settings now collector) b

-- The cache of seen events is within its limit, and so are the delays of restarts.
pub record IsLimited (worker : Worker) : Type 0 where
  pub bounded : IsBounded worker.collector.recent_events
  pub paced : IsPaced worker

IsLimited-with :
    (worker : Worker) (collector : Collector)
    → IsLimited worker
    → IsBounded collector.recent_events
    → IsLimited (record worker { collector = collector })
IsLimited-with worker collector l b = record {
  bounded = b;
  paced = record { least = l.paced.least; most = l.paced.most; waiting = l.paced.waiting };
}

abbrev Held : Worker → Type 0
Held worker = IsBounded worker.collector.recent_events

start_subprocesses-Held : (worker : Worker) → Held worker → Held (start_subprocesses worker)
unfolding start_subprocesses
start_subprocesses-Held worker b = if-holds Held worker.is_shutting_down b b

fire-Held : (timers : Option (List ℕ)) (worker : Worker) → Held worker → Held (fire timers worker)
fire-Held none worker b = b
fire-Held (some timers) worker b = start_subprocesses-Held (record worker { timers = timers }) b

empty-IsBounded : IsBounded []
empty-IsBounded = record { distinct = tt; within = omega arith }

handle-Held : (event : WorkerEvent) (worker : Worker) → Held worker → Held (handle event worker)
unfolding finish_start refresh_subprocess_environments on_ready on_exit on_error on_timer on_cleanup
    stop_subprocesses send_environment_configs
handle-Held starts worker b = start_subprocesses-Held worker b
handle-Held (finishes c) worker b = if-holds Held (worker.starting == 0) b b
handle-Held (refreshes c) worker b = b
handle-Held readies worker b = b
handle-Held (exits number) worker b =
    if-holds Held (has_process number worker.processes) (if-holds Held worker.is_shutting_down b b)
      b
handle-Held (fails number) worker b = if-holds Held (has_process number worker.processes) b b
handle-Held (fires i) worker b = fire-Held (take_timer i worker.timers) worker b
handle-Held (cleans now) worker b =
    if-holds Held worker.dedup_cleanup_interval
      (cleanup_recent_events-IsBounded now worker.collector.recent_events b.distinct) b
handle-Held stops worker b = empty-IsBounded

module _ {F T : Type 0} (outside : Outside F T) where
  dispatch_message-IsLimited :
      (message : Message F) (now : ℕ) (server : Server F T)
      → IsLimited server.worker
      → IsLimited (dispatch_message outside message now server).worker
  unfolding dispatch_message
  dispatch_message-IsLimited ready now server l = record {
    bounded = handle-Held readies server.worker l.bounded;
    paced = handle-IsPaced readies server.worker l.paced;
  }
  dispatch_message-IsLimited (metrics env_id cpu mem_percent mem_used mem_total) now server l = l
  dispatch_message-IsLimited (env_status env_id online reason) now server l = l
  dispatch_message-IsLimited (container_event env_id event) now server l =
      let collector = server.worker.collector in
      IsLimited-with server.worker
        (handle_container_event outside.save env_id event now collector).0 l
        (handle_container_event-IsBounded outside.save env_id event now collector l.bounded)
  dispatch_message-IsLimited (disk_usage env_id usage driver_status) now server l =
      let collector = server.worker.collector in
      IsLimited-with server.worker
        (handle_disk_usage outside.parse_size outside.reaches outside.format_size
          outside.percent_text outside.sends env_id usage driver_status
          (outside.disk_settings env_id) now collector).0
        l
        (handle_disk_usage-IsBounded outside.parse_size outside.reaches outside.format_size
          outside.percent_text outside.sends env_id usage driver_status
          (outside.disk_settings env_id) now collector l.bounded)
  dispatch_message-IsLimited unknown now server l = l

  dispatch_parsed-IsLimited :
      (parsed : Option (Message F)) (now : ℕ) (server : Server F T)
      → IsLimited server.worker
      → IsLimited (dispatch_parsed outside parsed now server).worker
  dispatch_parsed-IsLimited none now server l = l
  dispatch_parsed-IsLimited (some message) now server l =
      dispatch_message-IsLimited message now server l

  handle_lines-IsLimited :
      (lines : List Text) (now : ℕ) (server : Server F T)
      → IsLimited server.worker
      → IsLimited (handle_lines outside lines now server).worker
  unfolding handle_lines handle_line
  handle_lines-IsLimited [] now server l = l
  handle_lines-IsLimited (line ∷ lines) now server l =
      handle_lines-IsLimited lines now (handle_line outside line now server) (
        if-holds (λ (s : Server F T). IsLimited s.worker) (trim line == []) l
          (dispatch_parsed-IsLimited (outside.parse line) now server l))

  proceed-IsLimited :
      (happening : Happening) (server : Server F T)
      → IsLimited server.worker
      → IsLimited (proceed outside happening server).worker
  unfolding proceed on_data
  proceed-IsLimited (prints chunk now) server l =
      let (lines, left) = read_chunk server.line_buffer chunk in
      handle_lines-IsLimited lines now (record server { line_buffer = left }) l
  proceed-IsLimited (happens event) server l = record {
    bounded = handle-Held event server.worker l.bounded;
    paced = handle-IsPaced event server.worker l.paced;
  }

  -- Whatever the worker prints, in whatever chunks, and whatever starts, exits, timers and stops come in
  -- between: the cache of seen events keeps at most 500 keys, none twice, and every restart waits for at
  -- least a second and at most a minute.
  pub proceed_all-IsLimited :
      (happenings : List Happening) (server : Server F T)
      → IsLimited server.worker
      → IsLimited (proceed_all outside happenings server).worker
  unfolding proceed_all
  proceed_all-IsLimited [] server l = l
  proceed_all-IsLimited (happening ∷ happenings) server l =
      proceed_all-IsLimited happenings (proceed outside happening server)
        (proceed-IsLimited happening server l)
