-- ===== src/Jobs.antt =====
-- The job queue and its runner: backend/app/core/jobs.py, and `cancel_job` of
-- backend/app/routers/jobs.py. The Redis structures are the fields of `Board`; a queue item
-- `{id}:{type}` is a pair, as an id is hexadecimal. JSON payloads and results are texts. The expiry
-- of a job after a week is left out. Times are whole seconds and delays milliseconds.
pub mod Runner
pub mod Waiting
pub mod Retry
pub mod Ending
pub mod Reaping
pub mod Cancel
mod Tests
use rotsy.Base.{
  ℕ, zero, suc, ◌+◌, ◌-◌, ◌*◌, ◌^◌, min, Bool, true, false, not, Option, none, some, List, [], ◌∷◌,
  ◌++◌, Text, text, text_eq, text_key, ◌==◌, Dict, lookup, insert, if◌then◌else◌, length, take,
  drop, any,
}

pub data Status : Type 0 where
  pending running done failed cancelled : Status

pub record Job : Type 0 where
  pub id : Text
  pub type : Text
  pub status : Status
  pub progress : ℕ
  pub message : Text
  pub payload : Text
  pub result : Option Text
  pub created_at : ℕ
  pub updated_at : ℕ
  pub detail : Option Text
  pub retry_count : ℕ
  pub max_retries : ℕ

pub data Event : Type 0 where
  progressed : ℕ → Text → Option Text → Event
  phase : Text → Event
  phase_cancelled : Text → Event
  resulted : Text → Event
  errored : Text → Event

pub record JobPolicy : Type 0 where
  pub max_retries : ℕ
  pub retry_delay : ℕ
  pub timeout : Option ℕ

abbrev pub default_policy : JobPolicy
default_policy = record { max_retries = 0; retry_delay = 5000; timeout = none }

unfoldable pub delay_for : JobPolicy → ℕ → ℕ
delay_for policy attempt = min 300000 (policy.retry_delay * 2 ^ min attempt 6)

-- `job:{id}`, `job:{id}:events`, `jobs:index` and `jobs:queue`; and the retries that sleep, each
-- with the delay that is left to it.
pub record Board : Type 0 where
  pub jobs : Dict Text Job
  pub events : Dict Text (List Event)
  pub index : List Text
  pub queue : List (Text × Text)
  pub sleeping : List ((Text × Text) × ℕ)

abbrev pub index_max : ℕ
index_max = 200

abbrev pub events_max : ℕ
events_max = 256

-- `get`, of a job that is there.
abbrev pub get : Text → Board → Option Job
get job_id board = lookup job_id board.jobs

-- `list_recent`; a limit of 0 is the range to the last index. No limit is negative.
unfoldable pub list_recent : ℕ → Board → List Job
list_recent limit board = found (if limit == 0 then board.index else take limit board.index)
  where
    found : List Text → List Job
    found [] = []
    found (id ∷ ids) =
        let rest = found ids in elim (lookup id board.jobs) [ none ↦ rest | some job ↦ job ∷ rest ]

-- `LTRIM key -n -1`
abbrev pub last_of : {A : Type 0} → ℕ → List A → List A
last_of n xs = drop (length xs - n) xs

abbrev pub events_of : Text → Board → List Event
events_of job_id board = elim (lookup job_id board.events) [ none ↦ [] | some events ↦ events ]

unfoldable pub push_event : Text → Event → Board → Board
push_event job_id event board = record board {
  events = insert job_id (last_of events_max (events_of job_id board ++ event ∷ [])) board.events;
}

-- `HSET` on the hash of a job that was read.
unfoldable pub set_job : Text → (Job → Job) → Board → Board
set_job job_id change board = elim (lookup job_id board.jobs) [
  | none ↦ board
  | some job ↦ record board { jobs = insert job_id (change job) board.jobs }
]

-- `enqueue`; `job_id` is the random id.
unfoldable pub enqueue : Text → Text → Text → ℕ → Board → Board
enqueue job_id job_type payload now board =
    let job : Job = record {
      id = job_id;
      type = job_type;
      status = pending;
      progress = 0;
      message = text "queued";
      payload = payload;
      result = none;
      created_at = now;
      updated_at = now;
      detail = none;
      retry_count = 0;
      max_retries = 0;
    } in
    record board {
      jobs = insert job_id job board.jobs;
      index = take index_max (job_id ∷ board.index);
      queue = board.queue ++ (job_id, job_type) ∷ [];
    }

abbrev pub is_stranded : Job → Bool
is_stranded job = elim job.status [ running ↦ true | pending ↦ true | _ ↦ false ]

abbrev pub is_terminal : Job → Bool
is_terminal job = elim job.status [ done ↦ true | failed ↦ true | cancelled ↦ true | _ ↦ false ]

abbrev pub is_cancelled : Job → Bool
is_cancelled job = elim job.status [ cancelled ↦ true | _ ↦ false ]

abbrev pub interrupted : Text
interrupted = text "interrupted — the worker process restarted before this job finished"

-- The loop of `reap_stranded`, over the ids of the index.
unfoldable pub reap_ids : List Text → ℕ → Board → ℕ × Board
unfolding set_job push_event
reap_ids [] now board = (0, board)
reap_ids (id ∷ ids) now board =
    let failed_board = push_event id (errored interrupted) (
      set_job id (λ job. record job { status = failed; message = interrupted; updated_at = now })
        board) in
    let skipped = reap_ids ids now board in
    let (reaped, board') = reap_ids ids now failed_board in
    elim (lookup id board.jobs) [
      | none ↦ skipped
      | some job ↦ if is_stranded job then (suc reaped, board') else skipped
    ]

unfoldable pub reap_stranded : ℕ → Board → ℕ × Board
unfolding reap_ids
reap_stranded now board = reap_ids (take index_max board.index) now board

abbrev pub by_user : Text
by_user = text "cancelled by user"

pub data CancelReply : Type 0 where
  not_found : CancelReply
  already_terminal : Status → CancelReply
  -- with whether a running task was stopped
  stopped : Bool → CancelReply

-- `cancel_job`; `running_here` are the ids whose task this worker runs. The task itself is
-- interrupted at its next `await`, which is an ending of its run.
unfoldable pub cancel_job : List Text → Text → ℕ → Board → CancelReply × Board
unfolding set_job push_event
cancel_job running_here job_id now board = elim (get job_id board) [
  | none ↦ (not_found, board)
  | some job ↦ if is_terminal job then (already_terminal job.status, board) else (
    stopped (any (λ id. text_eq id job_id) running_here),
    push_event job_id (phase_cancelled by_user) (
        set_job job_id (λ j. record j { status = cancelled; message = by_user; updated_at = now })
          board),
  )
]
