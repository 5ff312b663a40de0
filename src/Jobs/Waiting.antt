-- ===== src/Jobs/Waiting.antt =====
-- What a run leaves waiting, on a board where its job is alone.
use rotsy.Base.{
  ℕ, suc, ◌<◌, ◌≡◌, refl, sym, ap, ◌∙◌, ◌⊎◌, inl, inr, Bool, true, false, some, List, [], ◌∷◌, ◌++◌,
  Text, text_key, lookup, ltb, arith, Bool-cases, Option-cases,
}
use rotsy.Jobs.{
  Status, pending, running, done, failed, cancelled, Job, JobPolicy, Board, get, set_job,
  push_event, is_cancelled, delay_for,
}
use rotsy.Jobs.Runner.{
  Report, Ending, returned, crashed, timed_out, stopped_by_task, JobRunner, policy_for, report,
  report_all, finish, finish_cancelled, fail_or_retry, conclude, start_job, run_one,
}
use rotsy.Jobs.Ending.{get-set_job, IsRun, report_all-IsRun, start-IsRun}

-- What waits is left as it was.
abbrev Rests : Board → Board → Type 0
Rests board board' = (board'.queue ≡ board.queue) × (board'.sleeping ≡ board.sleeping)

set_job-Rests :
    (id : Text) (change : Job → Job) (board : Board) → Rests board (set_job id change board)
unfolding set_job
set_job-Rests id change board = elim (Option-cases (get id board)) [
  | inl e ↦ rw (e, set_job) (refl, refl)
  | inr (job, e) ↦ rw (e, set_job) (refl, refl)
]

report_all-Rests :
    (id : Text) (now : ℕ) (rs : List Report) (board : Board)
    → Rests board (report_all id now rs board)
unfolding report_all report push_event
report_all-Rests id now [] board = (refl, refl)
report_all-Rests id now (r ∷ rs) board =
    let (q, s) = set_job-Rests id _ board in
    let (q', s') = report_all-Rests id now rs (report id now r board) in (q' ∙ q, s' ∙ s)

abbrev is_pending : Job → Bool
is_pending job = elim job.status [ pending ↦ true | _ ↦ false ]

-- The job waits for nothing any more.
abbrev pub IsOver : Text → Board → Type 0
IsOver id board =
    (job : Job) × (get id board ≡ some job)
    × (is_pending job ≡ false)
    × (board.queue ≡ [])
    × (board.sleeping ≡ [])

-- The job is alone on the queue, after so many retries.
abbrev pub IsAlone : Text → Text → ℕ → Board → Type 0
IsAlone id job_type retries board =
    (job : Job) × (get id board ≡ some job)
    × (job.retry_count ≡ retries)
    × (board.queue ≡ (id, job_type) ∷ [])
    × (board.sleeping ≡ [])

-- The job alone sleeps until a retry.
abbrev Sleeps : Text → Text → ℕ → Board → Type 0
Sleeps id job_type retries board =
    (job : Job) × (delay : ℕ) × (get id board ≡ some job)
    × (job.retry_count ≡ retries)
    × (board.queue ≡ [])
    × (board.sleeping ≡ ((id, job_type), delay) ∷ [])

-- Nothing waits.
abbrev Idle : Board → Type 0
Idle board = (board.queue ≡ []) × (board.sleeping ≡ [])

Idle-Rests : (board board' : Board) → Rests board board' → Idle board → Idle board'
Idle-Rests board board' (q, s) (q0, s0) = (q ∙ q0, s ∙ s0)

set_job-Idle :
    (id : Text) (change : Job → Job) (board : Board) → Idle board → Idle (set_job id change board)
set_job-Idle id change board h =
    Idle-Rests board (set_job id change board) (set_job-Rests id change board) h

-- A run ends for good, or the job sleeps until a retry that its policy allows.
abbrev Ends : JobPolicy → Text → Text → ℕ → Board → Type 0
Ends policy id job_type retries board =
    IsOver id board ⊎ ((retries < policy.max_retries) × Sleeps id job_type (suc retries) board)

ltb-lt : (a b : ℕ) → ltb a b ≡ true → a < b
ltb-lt a b h = ground arith

settled :
    (status : Status)
    → (elim status [ cancelled ↦ true | _ ↦ false ]) ≡ true
    → (elim status [ pending ↦ true | _ ↦ false ]) ≡ false
settled pending h = sym h
settled running h = refl
settled done h = refl
settled failed h = refl
settled cancelled h = refl

fail_or_retry-Ends :
    (policy : JobPolicy) (job : Job) (id job_type : Text) (now : ℕ) (why : Text) (board : Board)
    → IsRun job.retry_count id board
    → Idle board
    → Ends policy id job_type job.retry_count (fail_or_retry policy job id job_type now why board)
unfolding fail_or_retry push_event
fail_or_retry-Ends policy job id job_type now why board (j, h, s, n) idle =
    elim (Bool-cases (ltb job.retry_count policy.max_retries)) [
      | inl e ↦
          let (q0, s0) = set_job-Idle id _ board idle in
          rw (e, fail_or_retry)
            (inr (
              ltb-lt job.retry_count policy.max_retries e,
              (
                _,
                delay_for policy job.retry_count,
                get-set_job id _ board j h,
                refl,
                q0,
                ap (λ l. l ++ ((id, job_type), delay_for policy job.retry_count) ∷ []) s0,
              ),
            ))
      | inr e ↦
          let (q0, s0) = set_job-Idle id _ board idle in
          rw (e, fail_or_retry) (inl (_, get-set_job id _ board j h, refl, q0, s0))
    ]

conclude-Ends :
    (policy : JobPolicy) (job : Job) (id job_type : Text) (now : ℕ) (ending : Ending)
    (board : Board)
    → IsRun job.retry_count id board
    → Idle board
    → Ends policy id job_type job.retry_count (conclude policy job id job_type now ending board)
unfolding conclude
conclude-Ends policy job id job_type now (returned result) board (j, h, s, n) idle =
    unfold finish push_event in
    let (q0, s0) = set_job-Idle id _ board idle in inl (_, get-set_job id _ board j h, refl, q0, s0)
conclude-Ends policy job id job_type now stopped_by_task board (j, h, s, n) idle =
    unfold finish_cancelled push_event in
    let (q0, s0) = set_job-Idle id _ board idle in inl (_, get-set_job id _ board j h, refl, q0, s0)
conclude-Ends policy job id job_type now (crashed why) board h idle =
    fail_or_retry-Ends policy job id job_type now why board h idle
conclude-Ends policy job id job_type now timed_out board (j, h, s, n) (q0, s0) =
    elim (Option-cases policy.timeout) [
      | inl e ↦
          rw (e, conclude) (inl (j, h, ap (λ st. elim st [ pending ↦ true | _ ↦ false ]) s, q0, s0))
      | inr (seconds, e) ↦
          rw (e, conclude)
            (fail_or_retry-Ends policy job id job_type now _ board (j, h, s, n) (q0, s0))
    ]

start_job-Idle : (id : Text) (now : ℕ) (board : Board) → Idle board → Idle (start_job id now board)
unfolding start_job push_event
start_job-Idle id now board h = set_job-Idle id _ board h

report_all-Idle :
    (id : Text) (now : ℕ) (rs : List Report) (board : Board)
    → Idle board
    → Idle (report_all id now rs board)
report_all-Idle id now rs board h =
    Idle-Rests board (report_all id now rs board) (report_all-Rests id now rs board) h

-- A run with nothing else waiting.
pub run_one-Ends :
    (runner : JobRunner) (id job_type : Text) (now : ℕ) (board : Board) (job : Job)
    → get id board ≡ some job
    → Idle board
    → Ends
        (policy_for job_type runner)
        id
        job_type
        job.retry_count
        (run_one runner id job_type now board)
unfolding run_one
run_one-Ends runner id job_type now board job h (q0, s0) = elim (Bool-cases (is_cancelled job)) [
  | inl dead ↦ rw (h, dead, run_one) (inl (job, h, settled job.status dead, q0, s0))
  | inr alive ↦ elim (Option-cases (lookup job_type runner.handlers)) [
    | inl none_e ↦
        let (q1, s1) = set_job-Idle id _ board (q0, s0) in
        rw (h, alive, none_e, run_one) (inl (_, get-set_job id _ board job h, refl, q1, s1))
    | inr (handler, e) ↦
        rw (h, alive, e, run_one)
          (conclude-Ends (policy_for job_type runner) job id job_type now (handler job).1 _
            (report_all-IsRun job.retry_count id now (handler job).0 _
              (start-IsRun id now board job h))
            (report_all-Idle id now (handler job).0 _ (start_job-Idle id now board (q0, s0))))
  ]
]
