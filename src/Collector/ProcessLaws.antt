-- ===== src/Collector/ProcessLaws.antt =====
-- Which worker processes live, before and after `stopSubprocesses`.
use sagedockhand.Common.{
  length, ap, ◌∙◌, All, nat_eq, text_eq, ℕ, ◌≤◌, ◌≡◌, refl, inl, inr, false, Option, List, [], ◌∷◌,
  ◌++◌, arith,
}
use sagedockhand.Collector.Worker.{
  Worker, initial, start_subprocesses, WorkerEvent, handle, run, stops,
}
use sagedockhand.Collector.OrderlyLaws.{
  IsStopped, IsSingle, IsOrderly, handle-IsStopped, stop_subprocesses-IsStopped, is_start,
  handle-IsOrderly, none_yet, restart_due, one,
}

run-IsStopped :
    (events : List WorkerEvent) (worker : Worker) → IsStopped worker → IsStopped (run events worker)
unfolding run
run-IsStopped [] worker s = s
run-IsStopped (event ∷ events) worker s =
    run-IsStopped events (handle event worker) (handle-IsStopped event worker s)

started-IsOrderly : IsOrderly (start_subprocesses initial)
unfolding start_subprocesses
started-IsOrderly = inl (record { up = refl; single = one 0 refl refl refl })

run-IsOrderly :
    (events : List WorkerEvent) (worker : Worker)
    → All (λ event. is_start event ≡ false) events
    → IsOrderly worker
    → IsOrderly (run events worker)
unfolding run
run-IsOrderly [] worker h o = o
run-IsOrderly (event ∷ events) worker (e, h) o =
    run-IsOrderly events (handle event worker) h (handle-IsOrderly event worker e o)

run-append :
    (before after : List WorkerEvent) (worker : Worker)
    → run (before ++ after) worker ≡ run after (run before worker)
unfolding run
run-append [] after worker = refl
run-append (event ∷ before) after worker = run-append before after (handle event worker)

single-length :
    (proc : Option ℕ) (processes timers : List ℕ)
    → IsSingle proc processes timers
    → length processes ≤ 1
single-length proc processes timers (none_yet p q t) = rw q (omega arith)
single-length proc processes timers (restart_due delay p q t) = rw q (omega arith)
single-length proc processes timers (one number p q t) = rw q (omega arith)

orderly-length : (worker : Worker) → IsOrderly worker → length worker.processes ≤ 1
orderly-length worker (inl r) = single-length worker.proc worker.processes worker.timers r.single
orderly-length worker (inr s) = rw s.idle (omega arith)

-- Where `startSubprocesses` is called once from outside, at the start, at most one worker process lives at
-- any time, whatever exits, failures, timers, refreshes and stops follow; and after `stopSubprocesses` none
-- lives, whatever comes after, further starts included.
pub run-stops :
    (before after : List WorkerEvent)
    → All (λ event. is_start event ≡ false) before
    → (length (run before (start_subprocesses initial)).processes ≤ 1)
      × ((run (before ++ stops ∷ after) (start_subprocesses initial)).processes ≡ [])
unfolding run
run-stops before after h =
    let running = run-IsOrderly before (start_subprocesses initial) h started-IsOrderly in
    let stopped = stop_subprocesses-IsStopped (run before (start_subprocesses initial)) running in
    (
      orderly-length (run before (start_subprocesses initial)) running,
      ap (λ (w : Worker). w.processes)
            (run-append before (stops ∷ after) (start_subprocesses initial))
          ∙ (run-IsStopped after _ stopped).idle,
    )
