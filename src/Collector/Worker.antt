-- ===== src/Collector/Worker.antt =====
-- The life of the worker process: `startSubprocesses`, its callbacks, and `stopSubprocesses`.
use sagedockhand.Common.{
  keep, not, ◌||◌, if◌then◌else◌, ◌==◌, nat_eq, text_eq, ℕ, zero, suc, ◌-◌, ◌*◌, min, Bool, true,
  false, Option, none, some, List, [], ◌∷◌,
}
use sagedockhand.Common.Text.{Text}
use sagedockhand.Collector.Dedup.{cleanup_recent_events}
use sagedockhand.Collector.State.{Collector}
use sagedockhand.Collector.Environments.{Environment, Command, send_environment_configs}
use mathlib.Core.Option

abbrev pub max_restart_delay : ℕ
max_restart_delay = 60000

-- What `sendEnvironmentConfigs` reads from the database.
pub record Configuration : Type 0 where
  pub environments : List Environment
  pub metrics_interval : ℕ
  pub event_mode : Text
  pub poll_interval : ℕ

-- `proc` is the number of the process that the variable holds; `processes` are those that were started and
-- have not ended, whether `proc` holds them or not; `timers` are the delays of the restarts that are due;
-- `starting` counts the calls of `startSubprocesses` that wait for the worker to be ready.
pub record Worker : Type 0 where
  pub proc : Option ℕ
  pub processes : List ℕ
  pub next_process : ℕ
  pub is_shutting_down : Bool
  pub restart_delay : ℕ
  pub timers : List ℕ
  pub starting : ℕ
  pub dedup_cleanup_interval : Bool
  pub collector : Collector

abbrev pub initial : Worker
initial = record {
  proc = none;
  processes = [];
  next_process = 0;
  is_shutting_down = false;
  restart_delay = 1000;
  timers = [];
  starting = 0;
  dedup_cleanup_interval = false;
  collector = record {
    recent_events = [];
    last_disk_warning = [];
    env_names = [];
    configured_envs = [];
    last_health_status = [];
  };
}

-- `startSubprocesses()` up to its wait, where the collection is not disabled: it starts a process and has
-- `proc` hold it, whatever `proc` held before.
unfoldable pub start_subprocesses : Worker → Worker
start_subprocesses worker = if worker.is_shutting_down then worker else record worker {
  proc = some worker.next_process;
  processes = worker.next_process ∷ worker.processes;
  next_process = suc worker.next_process;
  starting = suc worker.starting;
}

abbrev pub configured : Configuration → Collector → Collector × List Command
configured c collector =
    send_environment_configs c.environments c.metrics_interval c.event_mode c.poll_interval
      collector

-- What follows the wait, whether the worker was ready or not.
unfoldable pub finish_start : Configuration → Worker → Worker
finish_start c worker = if worker.starting == 0 then worker else record worker {
  starting = worker.starting - 1;
  dedup_cleanup_interval = true;
  collector = (configured c worker.collector).0;
}

-- `refreshSubprocessEnvironments()`
unfoldable pub refresh_subprocess_environments : Configuration → Worker → Worker
refresh_subprocess_environments c worker = record worker {
  collector = (configured c worker.collector).0;
}

-- `case 'ready'`
unfoldable pub on_ready : Worker → Worker
on_ready worker = record worker { restart_delay = 1000 }

abbrev pub without_process : ℕ → List ℕ → List ℕ
without_process number processes = keep (λ other. not (other == number)) processes

abbrev pub has_process : ℕ → List ℕ → Bool
has_process number [] = false
has_process number (other ∷ processes) = (other == number) || has_process number processes

abbrev pub process_ended : ℕ → Worker → Worker
process_ended number worker = record worker { processes = without_process number worker.processes }

-- The callback of `exit` of a process, which has ended: it clears `proc`, whatever `proc` holds.
unfoldable pub on_exit : ℕ → Worker → Worker
on_exit number worker =
    if worker.is_shutting_down then process_ended number worker else record worker {
      proc = none;
      processes = without_process number worker.processes;
      collector = record worker.collector { configured_envs = [] };
      timers = worker.restart_delay ∷ worker.timers;
      restart_delay = min (worker.restart_delay * 2) max_restart_delay;
    }

-- The callback of `error` of a process, which could not be started
unfoldable pub on_error : ℕ → Worker → Worker
on_error number worker = record worker {
  proc = none;
  processes = without_process number worker.processes;
}

-- The timer at an index, with those that are left when it fires.
abbrev pub take_timer : ℕ → List ℕ → Option (List ℕ)
take_timer i [] = none
take_timer zero (delay ∷ timers) = some timers
take_timer (suc i) (delay ∷ timers) = Option.map (◌∷◌ delay) (take_timer i timers)

abbrev pub fire : Option (List ℕ) → Worker → Worker
fire none worker = worker
fire (some timers) worker = start_subprocesses (record worker { timers = timers })

-- A timer of the restarts fires.
unfoldable pub on_timer : ℕ → Worker → Worker
on_timer i worker = fire (take_timer i worker.timers) worker

-- The process that `proc` holds ends when it is shut down, by itself or as it is killed; no other does.
abbrev pub shut_down : Option ℕ → List ℕ → List ℕ
shut_down none processes = processes
shut_down (some number) processes = without_process number processes

-- `stopSubprocesses()` with its wait
unfoldable pub stop_subprocesses : Worker → Worker
stop_subprocesses worker = record worker {
  proc = none;
  processes = shut_down worker.proc worker.processes;
  is_shutting_down = true;
  dedup_cleanup_interval = false;
  collector = record worker.collector {
    recent_events = [];
    last_disk_warning = [];
    configured_envs = [];
  };
}

-- `cleanupRecentEvents` at the time of a tick of `dedupCleanupInterval`
unfoldable pub on_cleanup : ℕ → Worker → Worker
on_cleanup now worker =
    if worker.dedup_cleanup_interval
    then record worker {
      collector = record worker.collector {
        recent_events = cleanup_recent_events now worker.collector.recent_events;
      };
    }
    else worker

pub data WorkerEvent : Type 0 where
  starts readies stops : WorkerEvent
  finishes refreshes : Configuration → WorkerEvent
  exits fails fires cleans : ℕ → WorkerEvent

-- A process that has ended, or was never started, neither exits nor fails.
abbrev pub handle : WorkerEvent → Worker → Worker
handle starts worker = start_subprocesses worker
handle (finishes c) worker = finish_start c worker
handle (refreshes c) worker = refresh_subprocess_environments c worker
handle readies worker = on_ready worker
handle (exits number) worker =
    if has_process number worker.processes then on_exit number worker else worker
handle (fails number) worker =
    if has_process number worker.processes then on_error number worker else worker
handle (fires i) worker = on_timer i worker
handle (cleans now) worker = on_cleanup now worker
handle stops worker = stop_subprocesses worker

unfoldable pub run : List WorkerEvent → Worker → Worker
run [] worker = worker
run (event ∷ events) worker = run events (handle event worker)
