-- ===== src/Workflow/World.antt =====
-- What a worker of the review workflow sees: the tables, the log of task events, and the answers of what
-- lies outside. The worker passes on the tables that it has not committed as a world of their own, so
-- that a rollback is the return to an earlier world.
use eval_hive.Base.{ℕ, Bool, Option, none, some, List, ◌∷◌, Text}
use eval_hive.Failures.{FailureType}
use eval_hive.Attempts.Model.{Attempt}
use eval_hive.Attempts.Store.{
  Result, ok, err, ◌>>=◌, TaskStatus, Task, Db, update, save_attempt, not_found,
}
use eval_hive.Attempts.Ingest.{locked_attempt}

pub data Reason : Type 0 where
  interrupted unavailable : Reason

-- The events that the workflow logs.
pub data Happening : Type 0 where
  review_requires_owner : Reason → Happening
  auto_review_passed : Happening
  auto_review_failed : Text → Happening
  orchestrator_feedback : Text → ℕ → Happening
  task_retry : ℕ → Option FailureType → Happening
  result_archive_pending : Happening
  all_subtasks_completed : TaskStatus → Happening

pub record LogEntry : Type 0 where
  pub task_id : ℕ
  pub attempt_id : Option ℕ
  pub happening : Happening

pub record World (J : Type 0) : Type 0 where
  pub db : Db J
  pub log : List LogEntry

-- The answer of the reviewing model: `approved`, if it is a Boolean, and its feedback.
pub record Evaluation : Type 0 where
  pub approved : Option Bool
  pub feedback : Option Text

-- When other workers may commit: while a review runs, after it, and after a rollback.
pub data Moment : Type 0 where
  during_review after_review after_rollback : Moment

-- The clock before and after the review, the answer of the review (`none` where it fails, takes too long
-- or is no object), whether the storage takes a record, what others commit, the `error.code` of the data
-- of run.finished, and Python's `str.strip`.
pub record Services (J : Type 0) : Type 0 where
  pub now : ℕ
  pub later : ℕ
  pub evaluate : Task J → Option Evaluation
  pub storage : Bool
  pub others : Moment → World J → World J
  pub error_code : J → Option Text
  pub strip : Text → Text

module _ {J : Type 0} where
  -- The flush of a task and of its attempt.
  unfoldable pub put : Task J → Attempt J → World J → World J
  put t a w = record w {
    db = record (w.db) {
      tasks = update w.db.tasks a.task_id (some t);
      attempts = save_attempt a w.db.attempts;
    };
  }

  -- `_event`
  unfoldable pub emit : Happening → Attempt J → World J → World J
  emit h a w = record w {
    log = record { task_id = a.task_id; attempt_id = some a.id; happening = h } ∷ w.log;
  }

  -- `locked_attempt`, and `db.get(Task, attempt.task_id)`, which finds a task then.
  unfoldable pub relock : ℕ → World J → Result (Attempt J × Task J)
  relock k w = locked_attempt k w.db >>= λ a. elim (w.db.tasks a.task_id) [
    | none ↦ err not_found
    | some t ↦ ok (a, t)
  ]
