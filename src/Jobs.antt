-- ===== src/Jobs.antt =====
-- src/lib/server/jobs.ts, and the part of src/lib/server/sse.ts that runs an operation as a job. JSON values
-- have the type `D`; ids are given, as they are random in the code. A job that has left the store is not
-- followed further.
pub mod SweepLaws
mod Tests
use sagedockhand.Common.{
  ltb, if◌then◌else◌, or_value, ◌==◌, nat_eq, text_eq, ℕ, ◌+◌, ◌*◌, Bool, true, false, not, ◌&&◌,
  Option, none, some, List, [], ◌∷◌, ◌++◌,
}
use sagedockhand.Common.Text.{Text, codes}
use sagedockhand.Common.JsMap.{JsMap, get, put, remove_if}

pub data JobStatus : Type 0 where
  running done error : JobStatus

-- Data that is `null` or `undefined` is none.
pub record JobLine (D : Type 0) : Type 0 where
  pub event : Option Text
  pub data_of : Option D

pub record Job (D : Type 0) : Type 0 where
  pub status : JobStatus
  pub lines : List (JobLine D)
  pub result : Option D
  pub created_at : ℕ
  pub updated_at : ℕ

abbrev pub job_ttl_ms : ℕ
job_ttl_ms = 10 * 60000

abbrev pub is_running : JobStatus → Bool
is_running running = true
is_running done = false
is_running error = false

abbrev pub is_result : Option Text → Bool
is_result none = false
is_result (some event) = event == codes "result"

-- How an operation ends: it returns, or it throws an error with a message.
pub data Outcome : Type 0 where
  returns : Outcome
  throws : Text → Outcome

module _ {D : Type 0} where
  -- `createJob()`
  unfoldable pub create_job : Text → ℕ → JsMap Text (Job D) → JsMap Text (Job D)
  create_job id now jobs =
      put id
        (record { status = running; lines = []; result = none; created_at = now; updated_at = now })
        jobs

  -- `getJob(id)`
  abbrev pub get_job : Text → JsMap Text (Job D) → Option (Job D)
  get_job id jobs = get id jobs

  abbrev pub change :
      Text → (Job D → Job D) → JsMap Text (Job D) → Option (Job D) → JsMap Text (Job D)
  change id f jobs none = jobs
  change id f jobs (some job) = put id (f job) jobs

  -- `appendLine(job, line)`
  unfoldable pub append_line : Text → JobLine D → ℕ → JsMap Text (Job D) → JsMap Text (Job D)
  append_line id line now jobs =
      change id (λ job. record job { lines = job.lines ++ line ∷ []; updated_at = now }) jobs
        (get id jobs)

  -- `completeJob(job, result)`
  unfoldable pub complete_job : Text → D → ℕ → JsMap Text (Job D) → JsMap Text (Job D)
  complete_job id result now jobs =
      change id (λ job. record job { result = some result; status = done; updated_at = now }) jobs
        (get id jobs)

  -- The callback of the interval
  abbrev pub is_expired : ℕ → Job D → Bool
  is_expired now job = not (is_running job.status) && ltb (job.updated_at + job_ttl_ms) now

  unfoldable pub sweep : ℕ → JsMap Text (Job D) → JsMap Text (Job D)
  sweep now jobs = remove_if (λ id job. is_expired now job) jobs

  -- The data of `lines.findLast((l) => l.event === 'result')`, none also without such a line; `found` is that of
  -- the lines before.
  unfoldable pub last_result : Option D → List (JobLine D) → Option D
  last_result found [] = found
  last_result found (line ∷ lines) =
      let later = last_result line.data_of lines in
      let same = last_result found lines in if is_result line.event then later else same

  module _ (success : D) (failure : Text → D) where
    -- `failJob(job, error)`
    unfoldable pub fail_job : Text → Text → ℕ → JsMap Text (Job D) → JsMap Text (Job D)
    fail_job id message now jobs =
        change id
          (λ job. record job { result = some (failure message); status = error; updated_at = now })
          jobs (get id jobs)

    -- `send` at each of the times
    unfoldable pub send_all : Text → List (JobLine D × ℕ) → JsMap Text (Job D) → JsMap Text (Job D)
    send_all id [] jobs = jobs
    send_all id ((line, now) ∷ lines) jobs = send_all id lines (append_line id line now jobs)

    abbrev pub lines_in : Option (Job D) → List (JobLine D)
    lines_in none = []
    lines_in (some job) = job.lines

    -- What follows the operation, in `createJobResponse`.
    abbrev pub conclude : Text → Outcome → ℕ → JsMap Text (Job D) → JsMap Text (Job D)
    conclude id returns now jobs =
        complete_job id (or_value (last_result none (lines_in (get id jobs))) success) now jobs
    conclude id (throws message) now jobs = fail_job id message now jobs

    -- An operation that is run as a job: its start, the lines that it sends, and its end.
    unfoldable pub run_operation :
        Text → ℕ → List (JobLine D × ℕ) → Outcome → ℕ → JsMap Text (Job D) → JsMap Text (Job D)
    run_operation id start lines outcome finish jobs =
        conclude id outcome finish (send_all id lines (create_job id start jobs))
