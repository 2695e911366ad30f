-- ===== src/Jobs/SweepLaws.antt =====
-- A job can be read until ten minutes after its end, with all its lines, and then it is swept.
use sagedockhand.Common.{
  Bool-cases, keep, inl, inr, ltb, if◌then◌else◌, or_value, eq_refl, nat_eq, text_eq, ℕ, ◌+◌, ◌≡◌,
  refl, sym, ap, ◌∙◌, false, Option, none, some, List, [], ◌∷◌, ◌++◌, map, arith,
}
use sagedockhand.Common.Text.{Text}
use sagedockhand.Common.JsMap.{
  JsMap, get, put, IsDistinct, get-put, IsDistinct-put, unless, get-remove_if,
}
use sagedockhand.Jobs.{
  JobStatus, JobLine, Job, job_ttl_ms, is_running, is_result, Outcome, create_job, change,
  append_line, complete_job, is_expired, sweep, last_result, fail_job, send_all, conclude,
  run_operation, running, done, error, returns, throws,
}
use mathlib.Core.List.{append_assoc, append-nil}

module _ {D : Type 0} (success : D) (failure : Text → D) where
  abbrev started : ℕ → Job D
  started start = record {
    status = running;
    lines = [];
    result = none;
    created_at = start;
    updated_at = start;
  }

  abbrev sent : Job D → List (JobLine D × ℕ) → Job D
  sent job [] = job
  sent job ((line, now) ∷ lines) =
      sent (record job { lines = job.lines ++ line ∷ []; updated_at = now }) lines

  get-send_all :
      (id : Text) (lines : List (JobLine D × ℕ)) (jobs : JsMap Text (Job D)) (job : Job D)
      → get id jobs ≡ some job
      → get id (send_all success failure id lines jobs) ≡ some (sent job lines)
  unfolding send_all append_line
  get-send_all id [] jobs job h = h
  get-send_all id ((line, now) ∷ lines) jobs job h =
      let next : Job D = record job { lines = job.lines ++ line ∷ []; updated_at = now } in
      rw h (
        get-send_all id lines (put id next jobs) next
          (get-put id id next jobs ∙ rw (eq_refl id) refl))

  lines-sent :
      (job : Job D) (lines : List (JobLine D × ℕ))
      → (sent job lines).lines ≡ job.lines ++ map (λ (l : JobLine D × ℕ). l.0) lines
  lines-sent job [] = sym (append-nil job.lines)
  lines-sent job ((line, now) ∷ lines) =
      lines-sent (record job { lines = job.lines ++ line ∷ []; updated_at = now }) lines
      ∙ append_assoc job.lines (line ∷ []) (map (λ (l : JobLine D × ℕ). l.0) lines)

  -- The data of the lines for the event `result`, in order.
  abbrev pub results : List (JobLine D) → List (Option D)
  results lines =
      map (λ (line : JobLine D). line.data_of)
        (keep (λ (line : JobLine D). is_result line.event) lines)

  abbrev pub last_data : List (Option D) → Option D
  last_data [] = none
  last_data (data_of ∷ []) = data_of
  last_data (data_of ∷ next ∷ rest) = last_data (next ∷ rest)

  last_result-results :
      (found : Option D) (lines : List (JobLine D))
      → last_result found lines ≡ last_data (found ∷ results lines)
  unfolding last_result
  last_result-results found [] = refl
  last_result-results found (line ∷ lines) = elim (Bool-cases (is_result line.event)) [
    | inl taken ↦ rw taken (last_result-results line.data_of lines)
    | inr passed ↦ rw passed (last_result-results found lines)
  ]

  last_data-none : (datas : List (Option D)) → last_data (none ∷ datas) ≡ last_data datas
  last_data-none [] = refl
  last_data-none (data_of ∷ datas) = refl

  last_result-last_data :
      (lines : List (JobLine D)) → last_result none lines ≡ last_data (results lines)
  last_result-last_data lines = last_result-results none lines ∙ last_data-none (results lines)

  -- What the end of an operation leaves in its job.
  abbrev pub concluded : Outcome → List (JobLine D) → JobStatus × D
  concluded returns lines = (done, or_value (last_data (results lines)) success)
  concluded (throws message) lines = (error, failure message)

  abbrev pub job_of : ℕ → List (JobLine D) → Outcome → ℕ → Job D
  job_of start lines outcome finish = record {
    status = (concluded outcome lines).0;
    lines = lines;
    result = some (concluded outcome lines).1;
    created_at = start;
    updated_at = finish;
  }

  created_at-sent :
      (job : Job D) (lines : List (JobLine D × ℕ)) → (sent job lines).created_at ≡ job.created_at
  created_at-sent job [] = refl
  created_at-sent job ((line, now) ∷ lines) =
      created_at-sent (record job { lines = job.lines ++ line ∷ []; updated_at = now }) lines

  get-conclude :
      (id : Text) (start : ℕ) (lines : List (JobLine D)) (outcome : Outcome) (finish : ℕ)
      (jobs : JsMap Text (Job D)) (job : Job D)
      → get id jobs ≡ some job
      → job.lines ≡ lines
      → job.created_at ≡ start
      → get id (conclude success failure id outcome finish jobs)
        ≡ some (job_of start lines outcome finish)
  unfolding complete_job fail_job
  get-conclude id start lines returns finish jobs job h l c =
      let result = or_value (last_result none job.lines) success in
      let after : Job D = record job { result = some result; status = done; updated_at = finish } in
      rw h (
        get-put id id after jobs
        ∙ rw (eq_refl id) (
            ap (λ (r : Option D). some (record after { result = some (or_value r success) }))
              (last_result-last_data job.lines)
            ∙ ap (λ (p : List (JobLine D) × ℕ). some (job_of p.1 p.0 returns finish))
                (ap (λ (x : List (JobLine D)). (x, job.created_at)) l
                  ∙ ap (λ (x : ℕ). (lines, x)) c)))
  get-conclude id start lines (throws message) finish jobs job h l c =
      let after : Job D = record job {
        result = some (failure message);
        status = error;
        updated_at = finish;
      } in
      rw h (
        get-put id id after jobs
        ∙ rw (eq_refl id) (
            ap (λ (p : List (JobLine D) × ℕ). some (job_of p.1 p.0 (throws message) finish))
              (ap (λ (x : List (JobLine D)). (x, job.created_at)) l
                ∙ ap (λ (x : ℕ). (lines, x)) c)))

  get-run_operation :
      (id : Text) (start : ℕ) (lines : List (JobLine D × ℕ)) (outcome : Outcome) (finish : ℕ)
      (jobs : JsMap Text (Job D))
      → get id (run_operation success failure id start lines outcome finish jobs)
        ≡ some (job_of start (map (λ (l : JobLine D × ℕ). l.0) lines) outcome finish)
  unfolding run_operation create_job
  get-run_operation id start lines outcome finish jobs =
      let fresh = put id (started start) jobs in
      let made : get id fresh ≡ some (started start) =
        get-put id id (started start) jobs ∙ rw (eq_refl id) refl in
      get-conclude id start (map (λ (l : JobLine D × ℕ). l.0) lines) outcome finish
        (send_all success failure id lines fresh) (sent (started start) lines)
        (get-send_all id lines fresh (started start) made) (lines-sent (started start) lines)
        (created_at-sent (started start) lines)

  IsDistinct-change :
      (id : Text) (f : Job D → Job D) (jobs : JsMap Text (Job D)) (o : Option (Job D))
      → IsDistinct jobs
      → IsDistinct (change id f jobs o)
  IsDistinct-change id f jobs none d = d
  IsDistinct-change id f jobs (some job) d = IsDistinct-put id (f job) jobs d

  IsDistinct-send_all :
      (id : Text) (lines : List (JobLine D × ℕ)) (jobs : JsMap Text (Job D))
      → IsDistinct jobs
      → IsDistinct (send_all success failure id lines jobs)
  unfolding send_all append_line
  IsDistinct-send_all id [] jobs d = d
  IsDistinct-send_all id ((line, now) ∷ lines) jobs d =
      IsDistinct-send_all id lines (append_line id line now jobs)
        (IsDistinct-change id _ jobs (get id jobs) d)

  IsDistinct-run_operation :
      (id : Text) (start : ℕ) (lines : List (JobLine D × ℕ)) (outcome : Outcome) (finish : ℕ)
      (jobs : JsMap Text (Job D))
      → IsDistinct jobs
      → IsDistinct (run_operation success failure id start lines outcome finish jobs)
  unfolding run_operation create_job complete_job fail_job
  IsDistinct-run_operation id start lines returns finish jobs d =
      IsDistinct-change id _ _
        (get id (send_all success failure id lines (put id (started start) jobs)))
        (IsDistinct-send_all id lines (put id (started start) jobs)
          (IsDistinct-put id (started start) jobs d))
  IsDistinct-run_operation id start lines (throws message) finish jobs d =
      IsDistinct-change id _ _
        (get id (send_all success failure id lines (put id (started start) jobs)))
        (IsDistinct-send_all id lines (put id (started start) jobs)
          (IsDistinct-put id (started start) jobs d))

  -- What a sweep leaves of a job.
  abbrev pub unless_late : ℕ → ℕ → Job D → Option (Job D)
  unless_late finish now job = if ltb (finish + job_ttl_ms) now then none else some job

  over :
      (outcome : Outcome) (lines : List (JobLine D))
      → is_running (concluded outcome lines).0 ≡ false
  over returns lines = refl
  over (throws message) lines = refl

  -- A job whose operation ended has every line that was sent, in order, and the data of the last line for
  -- the event `result` as its result, or success when there is no such line or its data is null, or the
  -- error that was thrown; a sweep at any time after keeps it until ten minutes have passed since its end,
  -- and then deletes it: in a store that has no id twice.
  pub sweep-run_operation :
      (id : Text) (start : ℕ) (lines : List (JobLine D × ℕ)) (outcome : Outcome) (finish now : ℕ)
      (jobs : JsMap Text (Job D))
      → IsDistinct jobs
      → get id (sweep now (run_operation success failure id start lines outcome finish jobs))
        ≡ unless_late finish now
            (job_of start (map (λ (l : JobLine D × ℕ). l.0) lines) outcome finish)
  unfolding sweep
  sweep-run_operation id start lines outcome finish now jobs d =
      let sent_lines = map (λ (l : JobLine D × ℕ). l.0) lines in
      let after = run_operation success failure id start lines outcome finish jobs in
      get-remove_if (λ key job. is_expired now job) id after
        (IsDistinct-run_operation id start lines outcome finish jobs d)
      ∙ ap (unless (λ (key : Text) (job : Job D). is_expired now job) id)
          (get-run_operation id start lines outcome finish jobs)
      ∙ ground (arith, over outcome sent_lines)
