-- ===== src/Jobs/Tests.antt =====
-- Runs of the job runner on small boards, and the theorems at concrete inputs.
use rotsy.Base.{ℕ, ◌≡◌, refl, Option, none, some, [], ◌∷◌, Text, text}
use rotsy.Jobs.{
  Status, pending, running, done, failed, Job, JobPolicy, Board, get, enqueue, push_event, set_job,
  reap_stranded, reap_ids, delay_for, list_recent,
}
use rotsy.Jobs.Runner.{
  returned, crashed, timed_out, Handler, JobRunner, register, policy_for, run_one, turns, turn,
  work, wake, start_job, report_all, report, conclude, finish, fail_or_retry,
}
use rotsy.Jobs.Ending.{outcome, StandsAt, run_one-StandsAt}
use rotsy.Jobs.Reaping.{reaped_as, reap_stranded-get}

abbrev two_retries : JobPolicy
two_retries = record { max_retries = 2; retry_delay = 5000; timeout = some 60 }

-- Each attempt reports once and fails.
abbrev failing : Handler
failing = λ job.
    (record { percent = 40; message = text "half"; detail = none } ∷ [], crashed (text "refused"))

abbrev scan : Text
scan = text "scan"

abbrev runner : JobRunner
runner = record { handlers = (scan, failing) ∷ []; policies = (scan, two_retries) ∷ [] }

abbrev a1 : Text
a1 = text "a1"

abbrev job : Job
job = record {
  id = a1;
  type = scan;
  status = pending;
  progress = 0;
  message = text "queued";
  payload = text "{}";
  result = none;
  created_at = 10;
  updated_at = 10;
  detail = none;
  retry_count = 0;
  max_retries = 0;
}

abbrev board : Board
board = record {
  jobs = (a1, job) ∷ [];
  events = [];
  index = a1 ∷ [];
  queue = (a1, scan) ∷ [];
  sleeping = [];
}

abbrev empty : Board
empty = record { jobs = []; events = []; index = []; queue = []; sleeping = [] }

enqueued : enqueue a1 scan (text "{}") 10 empty ≡ board
unfolding enqueue
enqueued = refl

listed : list_recent 50 board ≡ job ∷ []
unfolding list_recent
listed = refl

registered :
    register scan failing (some two_retries) (record { handlers = []; policies = [] }) ≡ runner
unfolding register
registered = refl

abbrev status_of : Option Job → Option (Status × ℕ)
status_of none = none
status_of (some j) = some (j.status, j.retry_count)

-- Two retries and the last attempt.
failed_at_last : status_of (get a1 (turns 3 runner 20 board)) ≡ some (failed, 2)
unfolding turns turn work wake run_one start_job report_all report conclude fail_or_retry policy_for
    set_job push_event delay_for
failed_at_last = refl

run_one-StandsAt_example :
    StandsAt a1
      (run_one runner a1 scan 20 board)
      (outcome (policy_for scan runner) 0 (failing job).1)
run_one-StandsAt_example = run_one-StandsAt runner a1 scan 20 board job failing refl refl refl

reap_stranded-get_example :
    (get a1 (reap_stranded 20 board).1 ≡ reaped_as 20 (a1 ∷ []) a1 (some job))
    × ((reap_stranded 20 board).1.queue ≡ (a1, scan) ∷ [])
reap_stranded-get_example = reap_stranded-get 20 board a1

abbrev working : Handler
working = λ j. ([], returned (text "{}"))

-- A job that a start reports as failed keeps its place on the queue, and is run.
run_after_reaping :
    status_of (
      get a1 (
        work
          (record { handlers = (scan, working) ∷ []; policies = [] })
          30
          (reap_stranded 20 board).1))
    ≡ some (done, 0)
unfolding work run_one start_job report_all conclude finish policy_for set_job push_event
    reap_stranded reap_ids
run_after_reaping = refl

abbrev slow : Handler
slow = λ j. ([], timed_out)

-- A `TimeoutError` of the handler, under the default policy.
left_running :
    status_of
      (get a1 (run_one (record { handlers = (scan, slow) ∷ []; policies = [] }) a1 scan 30 board))
    ≡ some (running, 0)
unfolding run_one start_job report_all conclude policy_for set_job push_event
left_running = refl
