-- ===== src/Jobs/Cancel.antt =====
-- Cancelling a job that waits for the worker.
use rotsy.Base.{ℕ, ◌≡◌, refl, true, false, some, List, Text, text_key}
use rotsy.Jobs.{
  cancelled, Job, Board, get, push_event, by_user, is_cancelled, is_terminal, cancel_job,
}
use rotsy.Jobs.Runner.{JobRunner, run_one}
use rotsy.Jobs.Ending.{get-set_job}

run_one-cancelled :
    (runner : JobRunner) (id job_type : Text) (now : ℕ) (board : Board) (job : Job)
    → get id board ≡ some job
    → is_cancelled job ≡ true
    → run_one runner id job_type now board ≡ board
unfolding run_one
run_one-cancelled runner id job_type now board job h c = rw (h, c, run_one) refl

cancel_job-get :
    (running_here : List Text) (id : Text) (now : ℕ) (board : Board) (job : Job)
    → get id board ≡ some job
    → is_terminal job ≡ false
    → get id (cancel_job running_here id now board).1
      ≡ some (record job { status = cancelled; message = by_user; updated_at = now })
unfolding cancel_job push_event
cancel_job-get running_here id now board job h live =
    rw (h, live, cancel_job)
      (get-set_job id (λ j. record j { status = cancelled; message = by_user; updated_at = now })
        board job h)

-- A job that was cancelled before the worker takes it up is never started: the run changes nothing.
pub cancel_job-run_one :
    (runner : JobRunner) (running_here : List Text) (id job_type : Text) (now later : ℕ)
    (board : Board) (job : Job)
    → get id board ≡ some job
    → is_terminal job ≡ false
    → run_one runner id job_type later ((cancel_job running_here id now board).1)
      ≡ (cancel_job running_here id now board).1
cancel_job-run_one runner running_here id job_type now later board job h live =
    run_one-cancelled runner id job_type later (cancel_job running_here id now board).1 _
      (cancel_job-get running_here id now board job h live) refl
