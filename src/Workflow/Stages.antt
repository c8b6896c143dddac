-- ===== src/Workflow/Stages.antt =====
-- The stages of `continue_workflow`: archiving, and the decision of a review.
use eval_hive.Base.{
  ℕ, ◌+◌, Bool, true, false, ◌&&◌, ◌||◌, not, Option, none, some, List, [], ◌∷◌, Text, codes,
  nat_eq, text_eq, if◌then◌else◌, ltb,
}
use eval_hive.Loops.Keys.{is_empty}
use eval_hive.Attempts.Model.{
  WorkflowState, reviewed, archived, archive_pending, retry, superseded, Review, approved, rejected,
  unavailable, memory, Resource, ExecutionMode, direct, orchestrated, Attempt,
}
use eval_hive.Attempts.Store.{
  Error, ok, err, TaskStatus, ready, review, awaiting_approval, failed, Task, update,
}
use eval_hive.Workflow.World.{
  Reason, World, Evaluation, Services, review_requires_owner, auto_review_passed,
  auto_review_failed, orchestrator_feedback, result_archive_pending, after_review, after_rollback,
  put, emit, relock,
}
use eval_hive.Workflow.Parent.{check_parent_task_completion}

-- How a call ends: the committed world, the error that it raises, and whether it starts the extraction of
-- memory.
pub record Outcome (J : Type 0) : Type 0 where
  pub world : World J
  pub error : Option Error
  pub extracts : Bool

unfoldable pub is_review : TaskStatus → Bool
is_review review = true
is_review _ = false

is_awaiting : TaskStatus → Bool
is_awaiting awaiting_approval = true
is_awaiting _ = false

pub is_orchestrated : ExecutionMode → Bool
is_orchestrated orchestrated = true
is_orchestrated direct = false

is_approved : Option Review → Bool
is_approved (some approved) = true
is_approved _ = false

has_structured_memory : List Resource → Bool
has_structured_memory [] = false
has_structured_memory (r ∷ l) =
    (elim r.kind [ memory ↦ r.structured | _ ↦ false ]) || has_structured_memory l

-- `evaluation.get("approved")`, if it is a Boolean
unfoldable pub verdict : Option Evaluation → Option Bool
verdict none = none
verdict (some e) = e.approved

unfoldable pub feedback_text : Option Evaluation → Text
feedback_text none = codes "Result did not meet requirements"
feedback_text (some e) = elim e.feedback [
  | none ↦ codes "Result did not meet requirements"
  | some t ↦ if is_empty t then codes "Result did not meet requirements" else t
]

module _ {J : Type 0} where
  abbrev pub return_world : World J → Outcome J
  return_world w = record { world = w; error = none; extracts = false }

  abbrev pub raise_error : World J → Error → Outcome J
  raise_error w e = record { world = w; error = some e; extracts = false }

  -- `_mark`, without and with a review
  unfoldable pub mark : WorkflowState → Attempt J → Attempt J
  mark state a = record a { completeness = record (a.completeness) { workflow = state } }

  unfoldable pub mark_review : WorkflowState → Review → Attempt J → Attempt J
  mark_review state r a = record a {
    completeness = record (a.completeness) { workflow = state; review = some r };
  }

  -- The insertion of the record by `build_quality_record`, where the storage takes its content.
  unfoldable pub build_quality_record : Bool → Attempt J → World J → Option (World J)
  build_quality_record storage a w =
      if storage
      then some (record w { db = record (w.db) { archived = update w.db.archived a.task_id true } })
      else none

  extracts_memory : ExecutionMode → Task J → Attempt J → Bool
  unfolding has_structured_memory is_orchestrated is_approved is_awaiting
  extracts_memory mode t a =
      is_orchestrated mode
      && not t.benchmark_mode
      && is_approved a.completeness.review
      && is_awaiting t.status
      && has_structured_memory a.run_spec.resources

  -- The handler of a failed archiving: `base` is what was committed before.
  unfoldable pub archive_later : Services J → ℕ → World J → Outcome J
  unfolding relock put emit mark
  archive_later sv k base =
      let w = sv.others after_rollback base in
      elim (relock k w) [
        | err e ↦ raise_error w e
        | ok (a, t) ↦
            return_world (emit result_archive_pending a (put t (mark archive_pending a) w))
      ]

  -- The last stage, for a task and an attempt that may have changes which are not committed. `base` is
  -- what was committed last, and `w` has the log entries that were not.
  unfoldable pub archive_stage :
      Services J → ℕ → ExecutionMode → World J → Task J → Attempt J → World J → Outcome J
  unfolding build_quality_record check_parent_task_completion archive_later extracts_memory put mark
  archive_stage sv k mode base t a w =
      elim (build_quality_record sv.storage a (put t (mark archived a) w)) [
        | none ↦ archive_later sv k base
        | some w1 ↦ record {
          world = check_parent_task_completion sv.strip sv.later t w1;
          error = none;
          extracts = extracts_memory mode t a;
        }
      ]

  -- The task goes back to the queue.
  unfoldable pub retried : Task J → Task J
  retried t = record t { retry_count = t.retry_count + 1; status = ready; completed_at = none }

  -- After the decision is committed.
  unfoldable pub after_decision : Services J → ℕ → ExecutionMode → World J → Outcome J
  unfolding relock archive_stage
  after_decision sv k mode committed =
      let w = sv.others after_review committed in
      elim (relock k w) [ err e ↦ raise_error w e | ok (a, t) ↦ archive_stage sv k mode w t a w ]

  -- A review that rejects the result.
  unfoldable pub reject :
      Services J → ℕ → ExecutionMode → Text → Task J → Attempt J → World J → Outcome J
  unfolding after_decision retried mark_review put emit
  reject sv k mode text t a w =
      let t1 = record t { orchestrator_feedback = some text } in
      if ltb t.retry_count t.max_retries
      then return_world (
          emit (orchestrator_feedback text (t.retry_count + 1)) a
            (put (retried t1) (mark_review retry rejected a) w))
      else after_decision sv k mode (
          emit (auto_review_failed text) a
            (put (record t1 { status = failed }) (mark_review reviewed rejected a) w))

  -- The decision on the answer of the review, for the attempt and task that were locked again.
  unfoldable pub decide :
      Services J → ℕ → ExecutionMode → Option Evaluation → Task J → Attempt J → World J → Outcome J
  unfolding reject verdict feedback_text mark_review put emit
  decide sv k mode evaluation t a w =
      if not (is_review t.status)
      then return_world (put t (mark superseded a) w)
      else elim (verdict evaluation) [
        | none ↦ after_decision sv k mode (
            emit (review_requires_owner Reason.unavailable) a (
              put (record t { status = awaiting_approval }) (mark_review reviewed unavailable a) w))
        | some true ↦ after_decision sv k mode (
            emit auto_review_passed a
              (put (record t { status = awaiting_approval }) (mark_review reviewed approved a) w))
        | some false ↦ reject sv k mode (feedback_text evaluation) t a w
      ]
