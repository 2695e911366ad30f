-- ===== src/Collector/OrderlyLaws.antt =====
-- Every event leaves at most one worker process, and none once the collection is stopped.
use sagedockhand.Common.{
  Bool, Bool-cases, eq_refl, sym, ap, ◌∙◌, ◌⊎◌, if◌then◌else◌, if-false-holds, if-holds,
  if-true-holds, ◌==◌, nat_eq, text_eq, ℕ, zero, suc, ◌≡◌, refl, inl, inr, true, false, Option,
  none, some, List, [], ◌∷◌, arith,
}
use sagedockhand.Collector.Worker.{
  Worker, start_subprocesses, finish_start, refresh_subprocess_environments, on_ready, on_exit,
  on_error, take_timer, fire, on_timer, stop_subprocesses, on_cleanup, WorkerEvent, handle,
  has_process, without_process, shut_down, starts, readies, exits, fails, stops, finishes,
  refreshes, fires, cleans,
}

-- The collection is stopped, and no process lives.
pub record IsStopped (worker : Worker) : Type 0 where
  pub down : worker.is_shutting_down ≡ true
  pub idle : worker.processes ≡ []

-- At most one process lives, `proc` holds it, and no restart is due while it lives.
pub data IsSingle (proc : Option ℕ) (processes timers : List ℕ) : Type 0 where
  none_yet : proc ≡ none → processes ≡ [] → timers ≡ [] → IsSingle proc processes timers
  restart_due :
      (delay : ℕ)
      → proc ≡ none
      → processes ≡ []
      → timers ≡ delay ∷ []
      → IsSingle proc processes timers
  one :
      (number : ℕ)
      → proc ≡ some number
      → processes ≡ number ∷ []
      → timers ≡ []
      → IsSingle proc processes timers

pub record IsRunning (worker : Worker) : Type 0 where
  pub up : worker.is_shutting_down ≡ false
  pub single : IsSingle worker.proc worker.processes worker.timers

abbrev pub IsOrderly : Worker → Type 0
IsOrderly worker = IsRunning worker ⊎ IsStopped worker

shut_down-nil : (proc : Option ℕ) → shut_down proc [] ≡ []
shut_down-nil none = refl
shut_down-nil (some number) = refl

without-one :
    (number other : ℕ)
    → has_process number (other ∷ []) ≡ true
    → without_process number (other ∷ []) ≡ []
without-one number other h = ground (arith, h)

on_exit-IsOrderly :
    (number : ℕ) (worker : Worker)
    → has_process number worker.processes ≡ true
    → IsRunning worker
    → IsSingle worker.proc worker.processes worker.timers
    → IsOrderly (on_exit number worker)
unfolding on_exit
on_exit-IsOrderly number worker lives r (none_yet p q t) =
    absurd (ground (arith, lives, ap (has_process number) q))
on_exit-IsOrderly number worker lives r (restart_due delay p q t) =
    absurd (ground (arith, lives, ap (has_process number) q))
on_exit-IsOrderly number worker lives r (one other p q t) =
    let gone =
      ap (without_process number) q
      ∙ without-one number other (sym (ap (has_process number) q) ∙ lives) in
    if-false-holds IsOrderly worker.is_shutting_down _ r.up (
      inl (record {
        up = r.up;
        single = restart_due worker.restart_delay refl gone (ap (◌∷◌ worker.restart_delay) t);
      }))

on_error-IsOrderly :
    (number : ℕ) (worker : Worker)
    → has_process number worker.processes ≡ true
    → IsRunning worker
    → IsSingle worker.proc worker.processes worker.timers
    → IsOrderly (on_error number worker)
unfolding on_error
on_error-IsOrderly number worker lives r (none_yet p q t) =
    absurd (ground (arith, lives, ap (has_process number) q))
on_error-IsOrderly number worker lives r (restart_due delay p q t) =
    absurd (ground (arith, lives, ap (has_process number) q))
on_error-IsOrderly number worker lives r (one other p q t) =
    let gone =
      ap (without_process number) q
      ∙ without-one number other (sym (ap (has_process number) q) ∙ lives) in
    inl (record { up = r.up; single = none_yet refl gone t })

on_timer-IsOrderly :
    (i : ℕ) (worker : Worker)
    → IsRunning worker
    → IsSingle worker.proc worker.processes worker.timers
    → IsOrderly (on_timer i worker)
unfolding on_timer start_subprocesses
on_timer-IsOrderly i worker r (none_yet p q t) =
    let idle : take_timer i worker.timers ≡ none = ap (take_timer i) t in rw idle (inl r)
on_timer-IsOrderly i worker r (one number p q t) =
    let idle : take_timer i worker.timers ≡ none = ap (take_timer i) t in rw idle (inl r)
on_timer-IsOrderly zero worker r (restart_due delay p q t) =
    let due : take_timer zero worker.timers ≡ some [] = ap (take_timer zero) t in
    rw due (
      if-false-holds IsOrderly worker.is_shutting_down _ r.up (
        inl (record {
          up = r.up;
          single = one worker.next_process refl (ap (◌∷◌ worker.next_process) q) refl;
        })))
on_timer-IsOrderly (suc i) worker r (restart_due delay p q t) =
    let idle : take_timer (suc i) worker.timers ≡ none = ap (take_timer (suc i)) t in
    rw idle (inl r)

stop-single :
    (proc : Option ℕ) (processes timers : List ℕ)
    → IsSingle proc processes timers
    → shut_down proc processes ≡ []
stop-single proc processes timers (none_yet p q t) = rw (p, q) refl
stop-single proc processes timers (restart_due delay p q t) = rw (p, q) refl
stop-single proc processes timers (one number p q t) =
    rw (p, q) (without-one number number (rw (eq_refl number) refl))

start_subprocesses-IsStopped :
    (worker : Worker) → IsStopped worker → IsStopped (start_subprocesses worker)
unfolding start_subprocesses
start_subprocesses-IsStopped worker s = if-true-holds IsStopped worker.is_shutting_down _ s.down s

fire-IsStopped :
    (timers : Option (List ℕ)) (worker : Worker) → IsStopped worker → IsStopped (fire timers worker)
fire-IsStopped none worker s = s
fire-IsStopped (some timers) worker s =
    start_subprocesses-IsStopped (record worker { timers = timers })
      (record { down = s.down; idle = s.idle })

pub handle-IsStopped :
    (event : WorkerEvent) (worker : Worker) → IsStopped worker → IsStopped (handle event worker)
unfolding finish_start refresh_subprocess_environments on_ready on_exit on_error on_timer on_cleanup
    stop_subprocesses
handle-IsStopped starts worker s = start_subprocesses-IsStopped worker s
handle-IsStopped (finishes c) worker s =
    if-holds IsStopped (worker.starting == 0) s (record { down = s.down; idle = s.idle })
handle-IsStopped readies worker s = record { down = s.down; idle = s.idle }
handle-IsStopped (exits number) worker s =
    if-holds IsStopped (has_process number worker.processes)
      (if-true-holds IsStopped worker.is_shutting_down _ s.down
        (record { down = s.down; idle = ap (without_process number) s.idle }))
      s
handle-IsStopped (fails number) worker s =
    if-holds IsStopped (has_process number worker.processes)
      (record { down = s.down; idle = ap (without_process number) s.idle }) s
handle-IsStopped (fires i) worker s = fire-IsStopped (take_timer i worker.timers) worker s
handle-IsStopped (refreshes c) worker s = record { down = s.down; idle = s.idle }
handle-IsStopped (cleans now) worker s =
    if-holds IsStopped worker.dedup_cleanup_interval (record { down = s.down; idle = s.idle }) s
handle-IsStopped stops worker s = record {
  down = refl;
  idle = ap (shut_down worker.proc) s.idle ∙ shut_down-nil worker.proc;
}

pub stop_subprocesses-IsStopped :
    (worker : Worker) → IsOrderly worker → IsStopped (stop_subprocesses worker)
unfolding stop_subprocesses
stop_subprocesses-IsStopped worker (inl r) = record {
  down = refl;
  idle = stop-single worker.proc worker.processes worker.timers r.single;
}
stop_subprocesses-IsStopped worker (inr s) = handle-IsStopped stops worker s

abbrev pub is_start : WorkerEvent → Bool
is_start starts = true
is_start readies = false
is_start stops = false
is_start (exits number) = false
is_start (fails number) = false
is_start (fires i) = false
is_start (cleans now) = false
is_start (finishes c) = false
is_start (refreshes c) = false

if-lives :
    (number : ℕ) (worker after : Worker)
    → IsRunning worker
    → (has_process number worker.processes ≡ true → IsOrderly after)
    → IsOrderly (if has_process number worker.processes then after else worker)
if-lives number worker after r step = elim (Bool-cases (has_process number worker.processes)) [
  | inl lives ↦ rw lives (step lives)
  | inr gone ↦ rw gone (inl r)
]

handle-IsRunning :
    (event : WorkerEvent) (worker : Worker)
    → is_start event ≡ false
    → IsRunning worker
    → IsOrderly (handle event worker)
unfolding finish_start refresh_subprocess_environments on_ready on_cleanup
handle-IsRunning starts worker e r = absurd (ground (arith, e))
handle-IsRunning (finishes c) worker e r =
    if-holds IsOrderly (worker.starting == 0) (inl r)
      (inl (record { up = r.up; single = r.single }))
handle-IsRunning readies worker e r = inl (record { up = r.up; single = r.single })
handle-IsRunning (exits number) worker e r =
    if-lives number worker (on_exit number worker) r
      (λ lives. on_exit-IsOrderly number worker lives r r.single)
handle-IsRunning (fails number) worker e r =
    if-lives number worker (on_error number worker) r
      (λ lives. on_error-IsOrderly number worker lives r r.single)
handle-IsRunning (fires i) worker e r = on_timer-IsOrderly i worker r r.single
handle-IsRunning (refreshes c) worker e r = inl (record { up = r.up; single = r.single })
handle-IsRunning (cleans now) worker e r =
    if-holds IsOrderly worker.dedup_cleanup_interval (inl (record { up = r.up; single = r.single }))
      (inl r)
handle-IsRunning stops worker e r = inr (stop_subprocesses-IsStopped worker (inl r))

pub handle-IsOrderly :
    (event : WorkerEvent) (worker : Worker)
    → is_start event ≡ false
    → IsOrderly worker
    → IsOrderly (handle event worker)
handle-IsOrderly event worker e (inl r) = handle-IsRunning event worker e r
handle-IsOrderly event worker e (inr s) = inr (handle-IsStopped event worker s)
