-- ===== src/Workflow/Continue.antt =====
-- `continue_workflow` of backend/app/harnesses/workflow.py.
use eval_hive.Base.{
  ℕ, ◌+◌, Bool, true, false, ◌&&◌, ◌||◌, not, Option, none, some, Text, codes, ◌==◌, nat_eq,
  text_eq, if◌then◌else◌, ltb,
}
use eval_hive.Attempts.Model.{
  Status, cancelled, lost, is_terminal, reported, transport_lost, AttemptResult, WorkflowState,
  pending, review_running, reviewed, archived, archive_pending, retry, superseded,
  unknown_after_interruption, ExecutionMode, Attempt,
}
use eval_hive.Attempts.Store.{ok, err, review, awaiting_approval, Task}
use eval_hive.Workflow.World.{
  World, Evaluation, Services, review_requires_owner, interrupted, task_retry, during_review, put,
  emit, relock,
}
use eval_hive.Workflow.Parent.{check_parent_task_completion, is_failed, is_done}
use eval_hive.Workflow.Stages.{
  Outcome, return_world, raise_error, mark, mark_review, is_review, is_orchestrated, archive_stage,
  decide, retried,
}

-- `COMPLETE`
unfoldable pub is_complete : WorkflowState → Bool
is_complete archived = true
is_complete retry = true
is_complete superseded = true
is_complete _ = false

was_stopped : Status → Bool
was_stopped cancelled = true
was_stopped lost = true
was_stopped _ = false

-- The codes of an error that is none of the agent's own.
is_stop_code : Text → Bool
is_stop_code c =
    c == codes "TIMEOUT"
    || c == codes "RUNNER_ERROR"
    || c == codes "ARTIFACT_DELIVERY"
    || c == codes "START_FAILED"

module _ {J : Type 0} where
  has_stop_code : Services J → Option (AttemptResult J) → Bool
  unfolding is_stop_code
  has_stop_code sv none = false
  has_stop_code sv (some (transport_lost reason)) = false
  has_stop_code sv (some (reported data_)) = elim (sv.error_code data_) [
    | none ↦ false
    | some c ↦ is_stop_code c
  ]

  pub is_cancelled : Services J → Attempt J → Bool
  unfolding has_stop_code was_stopped
  is_cancelled sv a = was_stopped a.status || has_stop_code sv a.result

  -- The claim is durable before the review starts.
  unfoldable pub claim : ℕ → Attempt J → Attempt J
  claim now a = record a {
    completeness = record (a.completeness) { workflow = review_running; review_started_at = now };
  }

  -- When the answer is there: lock again, and decide.
  unfoldable pub review_answer :
      Services J → ℕ → ExecutionMode → Option Evaluation → World J → Outcome J
  unfolding relock decide
  review_answer sv k mode evaluation w = elim (relock k w) [
    | err e ↦ raise_error w e
    | ok (a, t) ↦ decide sv k mode evaluation t a w
  ]

  unfoldable pub review_stage :
      Services J → ℕ → ExecutionMode → Task J → Attempt J → World J → Outcome J
  unfolding claim review_answer put
  review_stage sv k mode t a w =
      review_answer sv k mode (sv.evaluate t)
        (sv.others during_review (put (record t { status = review }) (claim sv.now a) w))

  unfoldable pub pending_stage :
      Services J → ℕ → ExecutionMode → Task J → Attempt J → World J → Outcome J
  unfolding is_cancelled review_stage archive_stage retried mark put emit
  pending_stage sv k mode t a w =
      let judged = is_orchestrated mode && not t.benchmark_mode in
      if judged && is_failed t.status && not (is_cancelled sv a) && ltb t.retry_count t.max_retries
      then return_world (
          emit (task_retry (t.retry_count + 1) t.failure_type) a (put (retried t) (mark retry a) w))
      else if judged && is_done t.status
      then review_stage sv k mode t a w
      else archive_stage sv k mode w t (mark reviewed a) w

  -- A review that another worker has claimed, REVIEW_RECOVERY_SECONDS ago or more.
  unfoldable pub recover : Services J → ℕ → ExecutionMode → Task J → Attempt J → World J → Outcome J
  unfolding archive_stage mark_review emit
  recover sv k mode t a w =
      let t1 = if is_review t.status then record t { status = awaiting_approval } else t in
      archive_stage sv k mode w t1 (mark_review reviewed unknown_after_interruption a)
        (emit (review_requires_owner interrupted) a w)

  unfoldable pub in_mode : Services J → ℕ → ExecutionMode → Task J → Attempt J → World J → Outcome J
  unfolding is_complete recover pending_stage archive_stage
  in_mode sv k mode t a w = elim a.completeness.workflow [
    | archived ↦ return_world w
    | retry ↦ return_world w
    | superseded ↦ return_world w
    | review_running ↦
        if ltb sv.now (a.completeness.review_started_at + 300)
        then return_world w
        else recover sv k mode t a w
    | pending ↦ pending_stage sv k mode t a w
    | reviewed ↦ archive_stage sv k mode w t a w
    | archive_pending ↦ archive_stage sv k mode w t a w
  ]

  unfoldable pub continue_workflow : Services J → ℕ → World J → Outcome J
  unfolding relock in_mode check_parent_task_completion
  continue_workflow sv k w = elim (relock k w) [
    | err e ↦ raise_error w e
    | ok (a, t) ↦
        if is_terminal a.status && a.completeness.task_projection
        then (elim a.run_spec.execution_mode [
          | none ↦ return_world (check_parent_task_completion sv.strip sv.later t w)
          | some mode ↦ in_mode sv k mode t a w
        ])
        else return_world w
  ]
