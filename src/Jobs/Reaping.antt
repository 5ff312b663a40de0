-- ===== src/Jobs/Reaping.antt =====
-- What the reaping of the stranded jobs at a start does to every job of the board.
use rotsy.Base.{
  ℕ, ◌≡◌, refl, sym, subst, ◌∙◌, inl, inr, true, false, ◌&&◌, Option, none, some, List, [], ◌∷◌,
  Text, text_eq, text_eq_iff, text_key, lookup, lookup-insert, has_text, take, if◌then◌else◌, arith,
  Bool-ext, Dict, Bool-cases, Option-cases,
}
use rotsy.Jobs.Ending.{get-set_job}
use rotsy.Jobs.{
  failed, Job, Board, index_max, get, set_job, push_event, errored, is_stranded, interrupted,
  reap_ids, reap_stranded,
}

abbrev failed_at : ℕ → Job → Job
failed_at now job = record job { status = failed; message = interrupted; updated_at = now }

-- A job after the reaping of those ids.
abbrev pub reaped_as : ℕ → List Text → Text → Option Job → Option Job
reaped_as now ids id none = none
reaped_as now ids id (some job) =
    if has_text id ids && is_stranded job then some (failed_at now job) else some job

reaped_as-failed :
    (now : ℕ) (ids : List Text) (id : Text) (job : Job)
    → reaped_as now ids id (some (failed_at now job)) ≡ some (failed_at now job)
reaped_as-failed now ids id job = ground arith

get-set_job_other :
    (id j : Text) (change : Job → Job) (board : Board)
    → text_eq id j ≡ false
    → get j (set_job id change board) ≡ get j board
unfolding set_job
get-set_job_other id j change board h = elim (Option-cases (get id board)) [
  | inl e ↦ rw (e, set_job) refl
  | inr (job, e) ↦ rw (e, set_job, lookup-insert id j (change job) board.jobs, h) refl
]

-- An id ahead of the others says nothing about the jobs of other ids, nor about one that does not
-- count as stranded.
reaped_as-skip :
    (now : ℕ) (k : Text) (ids : List Text) (id : Text) (job : Option Job)
    → text_eq id k ≡ false
    → reaped_as now (k ∷ ids) id job ≡ reaped_as now ids id job
reaped_as-skip now k ids id none h = refl
reaped_as-skip now k ids id (some job) h = rw h refl

reaped_as-settled :
    (now : ℕ) (ids : List Text) (id : Text) (job : Job)
    → is_stranded job ≡ false
    → reaped_as now ids id (some job) ≡ some job
reaped_as-settled now ids id job h = elim (Bool-cases (has_text id ids)) [
  | inl e ↦ rw (e, h) refl
  | inr e ↦ rw (e) refl
]

text_eq_comm : (s t : Text) → text_eq s t ≡ text_eq t s
text_eq_comm s t =
    ground (arith, text_eq_iff s t, text_eq_iff t s, Bool-ext (text_eq s t) (text_eq t s))

-- The head of the ids is not looked at again where it is gone or not stranded.
reaped_as-passed :
    (now : ℕ) (k : Text) (ids : List Text) (id : Text) (jobs : Dict Text Job)
    → ((job : Job) → lookup k jobs ≡ some job → is_stranded job ≡ false)
    → reaped_as now ids id (lookup id jobs) ≡ reaped_as now (k ∷ ids) id (lookup id jobs)
reaped_as-passed now k ids id jobs settled = elim (Bool-cases (text_eq id k)) [
  | inr other ↦ sym (reaped_as-skip now k ids id (lookup id jobs) other)
  | inl same ↦ elim (Option-cases (lookup id jobs)) [
    | inl gone ↦ rw gone refl
    | inr (job, there) ↦
        let back : lookup k jobs ≡ some job = rw⁻¹ ((text_eq_iff id k).0 same) there in
        let h : is_stranded job ≡ false = settled job back in
        rw there
          (reaped_as-settled now ids id job h ∙ sym (reaped_as-settled now (k ∷ ids) id job h))
  ]
]

-- The head fails where it is stranded.
reaped_as-taken :
    (now : ℕ) (k : Text) (ids : List Text) (id : Text) (board : Board) (job : Job)
    → get k board ≡ some job
    → is_stranded job ≡ true
    → reaped_as now ids id (get id (set_job k (failed_at now) board))
      ≡ reaped_as now (k ∷ ids) id (get id board)
reaped_as-taken now k ids id board job there stranded = elim (Bool-cases (text_eq id k)) [
  | inr other ↦
      rw (get-set_job_other k id (failed_at now) board (text_eq_comm k id ∙ other))
        (sym (reaped_as-skip now k ids id (get id board) other))
  | inl same ↦
      rw
        (
          (text_eq_iff id k).0 same,
          get-set_job k (failed_at now) board job there,
          there,
          stranded,
          (text_eq_iff k k).1 refl,
        )
        (reaped_as-failed now ids k job)
]

abbrev IsSettled : Option Job → Type 0
IsSettled none = Unit
IsSettled (some job) = is_stranded job ≡ false

pub reap_ids-get :
    (ids : List Text) (now : ℕ) (board : Board) (id : Text)
    → get id (reap_ids ids now board).1 ≡ reaped_as now ids id (get id board)
unfolding reap_ids push_event
reap_ids-get [] now board id = elim (Option-cases (get id board)) [
  | inl e ↦ rw e refl
  | inr (job, e) ↦ rw e refl
]
reap_ids-get (k ∷ ids) now board id = elim (Option-cases (lookup k board.jobs)) [
  | inl gone ↦
      rw (gone, reap_ids)
        (reap_ids-get ids now board id ∙ reaped_as-passed now k ids id board.jobs (λ job e. cc))
  | inr (job, there) ↦ elim (Bool-cases (is_stranded job)) [
    | inl stranded ↦
        rw (there, stranded, reap_ids)
          (reap_ids-get ids now
              (push_event k (errored interrupted) (set_job k (failed_at now) board)) id
            ∙ reaped_as-taken now k ids id board job there stranded)
    | inr settled ↦
        rw (there, settled, reap_ids)
          (reap_ids-get ids now board id
            ∙ reaped_as-passed now k ids id board.jobs
                (λ j e. subst IsSettled (sym there ∙ e) settled))
  ]
]

-- The queue and the sleeping retries stay as they were.
reap_ids-queue :
    (ids : List Text) (now : ℕ) (board : Board) → (reap_ids ids now board).1.queue ≡ board.queue
unfolding reap_ids
reap_ids-queue [] now board = refl
reap_ids-queue (k ∷ ids) now board = elim (Option-cases (lookup k board.jobs)) [
  | inl gone ↦ rw (gone, reap_ids) (reap_ids-queue ids now board)
  | inr (job, there) ↦ elim (Bool-cases (is_stranded job)) [
    | inl stranded ↦
        rw (there, stranded, reap_ids)
          (reap_ids-queue ids now
              (push_event k (errored interrupted) (set_job k (failed_at now) board))
            ∙ unfold push_event set_job in rw (there, set_job) refl)
    | inr settled ↦ rw (there, settled, reap_ids) (reap_ids-queue ids now board)
  ]
]

-- A start writes the failure over each pending or running job of the 200 newest ids, leaves every
-- other job as it was, and leaves the queue as it was, entries of failed jobs included.
pub reap_stranded-get :
    (now : ℕ) (board : Board) (id : Text)
    → (get id (reap_stranded now board).1
        ≡ reaped_as now (take index_max board.index) id (get id board))
      × ((reap_stranded now board).1.queue ≡ board.queue)
unfolding reap_stranded
reap_stranded-get now board id = (
  reap_ids-get (take index_max board.index) now board id,
  reap_ids-queue (take index_max board.index) now board,
)
