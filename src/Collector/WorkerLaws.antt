-- ===== src/Collector/WorkerLaws.antt =====
-- The delays of restarts.
use sagedockhand.Common.{
  Option-cases, if-holds, All, ◌==◌, nat_eq, text_eq, ℕ, zero, suc, ◌≤◌, ◌≡◌, inl, inr, some, List,
  [], ◌∷◌, arith,
}
use sagedockhand.Collector.Worker.{
  max_restart_delay, Configuration, Worker, initial, start_subprocesses, finish_start,
  refresh_subprocess_environments, on_ready, on_exit, on_error, take_timer, on_timer,
  stop_subprocesses, on_cleanup, WorkerEvent, handle, has_process, starts, readies, exits, fails,
  stops, finishes, refreshes, fires, cleans,
}

-- Every delay, the next one and those that wait, is between a second and a minute.
pub record IsPaced (worker : Worker) : Type 0 where
  pub least : 1000 ≤ worker.restart_delay
  pub most : worker.restart_delay ≤ max_restart_delay
  pub waiting : All (λ delay. (1000 ≤ delay) × (delay ≤ max_restart_delay)) worker.timers

pub initial-IsPaced : IsPaced initial
initial-IsPaced = record { least = omega arith; most = omega arith; waiting = tt }

on_exit-IsPaced : (number : ℕ) (worker : Worker) → IsPaced worker → IsPaced (on_exit number worker)
unfolding on_exit
on_exit-IsPaced number worker p =
    if-holds IsPaced worker.is_shutting_down
      (record { least = p.least; most = p.most; waiting = p.waiting })
      (record {
        least = ground (arith, p.least, p.most);
        most = ground (arith, p.most);
        waiting = ((p.least, p.most), p.waiting);
      })

start_subprocesses-IsPaced :
    (worker : Worker) → IsPaced worker → IsPaced (start_subprocesses worker)
unfolding start_subprocesses
start_subprocesses-IsPaced worker p =
    if-holds IsPaced worker.is_shutting_down p
      (record { least = p.least; most = p.most; waiting = p.waiting })

finish_start-IsPaced :
    (c : Configuration) (worker : Worker) → IsPaced worker → IsPaced (finish_start c worker)
unfolding finish_start
finish_start-IsPaced c worker p =
    if-holds IsPaced (worker.starting == 0) p
      (record { least = p.least; most = p.most; waiting = p.waiting })

abbrev IsInRange : ℕ → Type 0
IsInRange delay = (1000 ≤ delay) × (delay ≤ max_restart_delay)

take_timer-All :
    (i : ℕ) (timers rest : List ℕ)
    → All IsInRange timers
    → take_timer i timers ≡ some rest
    → All IsInRange rest
take_timer-All i [] rest h e = absurd (ground (arith, e))
take_timer-All zero (delay ∷ timers) rest (p, h) e =
    let same : timers ≡ rest = ground (arith, e) in rw (← same) h
take_timer-All (suc i) (delay ∷ timers) rest (p, h) e = elim (Option-cases (take_timer i timers)) [
  | inl gone ↦ absurd (ground (arith, e, gone))
  | inr (left, found) ↦
      let same : delay ∷ left ≡ rest = ground (arith, e, found) in
      rw (← same) (p, take_timer-All i timers left h found)
]

on_timer-IsPaced : (i : ℕ) (worker : Worker) → IsPaced worker → IsPaced (on_timer i worker)
unfolding on_timer
on_timer-IsPaced i worker p = elim (Option-cases (take_timer i worker.timers)) [
  | inl gone ↦ rw gone p
  | inr (rest, found) ↦ rw found (
      start_subprocesses-IsPaced (record worker { timers = rest })
        (record {
          least = p.least;
          most = p.most;
          waiting = take_timer-All i worker.timers rest p.waiting found;
        }))
]

pub handle-IsPaced :
    (event : WorkerEvent) (worker : Worker) → IsPaced worker → IsPaced (handle event worker)
unfolding on_ready on_error on_cleanup refresh_subprocess_environments stop_subprocesses
handle-IsPaced starts worker p = start_subprocesses-IsPaced worker p
handle-IsPaced (finishes c) worker p = finish_start-IsPaced c worker p
handle-IsPaced (refreshes c) worker p = record {
  least = p.least;
  most = p.most;
  waiting = p.waiting;
}
handle-IsPaced (cleans now) worker p =
    if-holds IsPaced worker.dedup_cleanup_interval
      (record { least = p.least; most = p.most; waiting = p.waiting }) p
handle-IsPaced readies worker p = record {
  least = omega arith;
  most = omega arith;
  waiting = p.waiting;
}
handle-IsPaced (exits number) worker p =
    if-holds IsPaced (has_process number worker.processes) (on_exit-IsPaced number worker p) p
handle-IsPaced (fails number) worker p =
    if-holds IsPaced (has_process number worker.processes)
      (record { least = p.least; most = p.most; waiting = p.waiting }) p
handle-IsPaced (fires i) worker p = on_timer-IsPaced i worker p
handle-IsPaced stops worker p = record { least = p.least; most = p.most; waiting = p.waiting }
