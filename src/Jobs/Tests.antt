-- ===== src/Jobs/Tests.antt =====
-- A job on small inputs, and the theorem at a concrete operation.
use sagedockhand.Common.{nat_eq, text_eq, ℕ, ◌≡◌, refl, none, some, List, [], ◌∷◌, map}
use sagedockhand.Common.Text.{Text, codes}
use sagedockhand.Common.JsMap.{get, put, remove_if}
use sagedockhand.Jobs.{
  JobLine, create_job, append_line, complete_job, sweep, last_result, send_all, run_operation,
  returns,
}
use sagedockhand.Jobs.SweepLaws.{job_of, unless_late, sweep-run_operation}

abbrev line_of : Text → ℕ → JobLine ℕ
line_of event data_of = record { event = some event; data_of = some data_of }

abbrev lines : List (JobLine ℕ × ℕ)
lines =
    (line_of (codes "progress") 10, 110)
    ∷ (line_of (codes "result") 7, 120)
    ∷ (line_of (codes "progress") 100, 130)
    ∷ []

sweep-run_operation_example :
    get
      (codes "j")
      (sweep 600140 (run_operation 1 (λ message. 0) (codes "j") 100 lines returns 140 []))
    ≡ unless_late 1
        (λ message. 0)
        140
        600140
        (job_of 1 (λ message. 0) 100 (map (λ (l : JobLine ℕ × ℕ). l.0) lines) returns 140)
sweep-run_operation_example =
    sweep-run_operation 1 (λ message. 0) (codes "j") 100 lines returns 140 600140 [] tt

result_test : last_result none (map (λ (l : JobLine ℕ × ℕ). l.0) lines) ≡ some 7
unfolding last_result
result_test = refl

gone_test : sweep 600141 (run_operation 1 (λ message. 0) (codes "j") 100 lines returns 140 []) ≡ []
unfolding sweep run_operation create_job send_all append_line complete_job get put remove_if
gone_test = refl
