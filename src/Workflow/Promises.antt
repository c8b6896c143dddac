-- ===== src/Workflow/Promises.antt =====
-- The bound on retries, the approvals, and a recovery whose archiving fails.
use eval_hive.Base.{
  [], ◌∷◌, ℕ, ◌≡◌, ◌≢◌, ◌≤◌, true, false, some, none, refl, All, arith, List, ltb→lt, ap, ◌∙◌,
}
use eval_hive.Attempts.Model.{
  Attempt, reviewed, unknown_after_interruption, approved, archived, archive_pending,
  review_running, ExecutionMode, is_terminal,
}
use eval_hive.Attempts.Store.{ok, Task, update}
use eval_hive.Workflow.World.{
  World, Services, Moment, relock, emit, result_archive_pending, put, after_rollback,
}
use eval_hive.Workflow.Stages.{
  retried, mark, mark_review, archive_stage, build_quality_record, archive_later, Outcome,
}
use eval_hive.Workflow.Parent.{completed_parent, check_parent_task_completion}
use eval_hive.Workflow.Continue.{continue_workflow, in_mode, recover}
use eval_hive.Workflow.Settle.{is_leased, continue_workflow_mode}
use eval_hive.Workflow.Locks.{
  At, relock-At, At-relock, At-put, SameRun-completeness, SameRun-refl, SameOwner-refl,
}
use eval_hive.Workflow.Holds.{Kept}
use eval_hive.Workflow.Invariant.{continue_workflow-Holds}

module _ {J : Type 0} where
  abbrev pub HasBoundedRetries : World J → Type 0
  HasBoundedRetries w = (j : ℕ) (t : Task J) → w.db.tasks j ≡ some t → t.retry_count ≤ t.max_retries

  abbrev pub HasNoApproval : World J → Type 0
  HasNoApproval w = All (λ (a : Attempt J). a.completeness.review ≢ some approved) w.db.attempts

  All-true : (l : List (Attempt J)) → All (λ (a : Attempt J). Unit {0}) l
  All-true [] = tt
  All-true (a ∷ l) = (tt, All-true l)

  retries_kept :
      (sv : Services J)
      → ((m : Moment) (w : World J) → HasBoundedRetries w → HasBoundedRetries (sv.others m w))
      → Kept sv (λ (t : Task J). t.retry_count ≤ t.max_retries) (λ (a : Attempt J). Unit {0})
  unfolding retried completed_parent
  retries_kept sv others = record {
    retried_kept = λ t more p. omega (arith, ltb→lt t.retry_count t.max_retries more);
    status_kept = λ s t p. p;
    feedback_kept = λ text t p. p;
    parent_kept = λ l t p. p;
    mark_kept = λ s a q. tt;
    claim_kept = λ a q. tt;
    review_kept = λ s r a n q. tt;
    approved_kept = λ t a v q. tt;
    others_kept = λ m w h. record {
      tasks_hold = others m w h.tasks_hold;
      attempts_hold = All-true (sv.others m w).db.attempts;
    };
  }

  -- No call takes the retries of any task beyond its maximum, however the call ends and whatever the
  -- services answer, if what the other workers commit does not either.
  pub continue_workflow_retries :
      (sv : Services J) (k : ℕ) (w : World J)
      → ((m : Moment) (v : World J) → HasBoundedRetries v → HasBoundedRetries (sv.others m v))
      → HasBoundedRetries w
      → HasBoundedRetries (continue_workflow sv k w).world
  continue_workflow_retries sv k w others h =
      (continue_workflow-Holds _ _ sv (retries_kept sv others) k w
        record { tasks_hold = h; attempts_hold = All-true w.db.attempts }).tasks_hold

  -- A stage that archives while the storage fails leaves a note of it alone.
  archive_stage_down :
      (sv : Services J) (k : ℕ) (mode : ExecutionMode) (base w : World J) (a b : Attempt J)
      (t u : Task J)
      → sv.storage ≡ false
      → ((m : Moment) (v : World J) → sv.others m v ≡ v)
      → At k base b u
      → (archive_stage sv k mode base t a w).world
        ≡ emit result_archive_pending b (put u (mark archive_pending b) base)
  unfolding archive_stage build_quality_record archive_later
  archive_stage_down sv k mode base w a b t u down alone there =
      rw
        (
          down,
          archive_later,
          alone after_rollback base,
          At-relock k base there,
          alone after_rollback base,
        )
        refl

  archive_stage_up :
      (sv : Services J) (k : ℕ) (mode : ExecutionMode) (base w : World J) (a : Attempt J)
      (t : Task J)
      → sv.storage ≡ true
      → t.parent_id ≡ none
      → At k w a t
      → relock k (archive_stage sv k mode base t a w).world ≡ ok (mark archived a, t)
  unfolding archive_stage build_quality_record check_parent_task_completion mark
  archive_stage_up sv k mode base w a t up top there =
      let saved =
        At-put k w (SameRun-completeness a a (mark archived a).completeness refl (SameRun-refl a))
          (SameOwner-refl t) there in
      let w1 : World J = record (put t (mark archived a) w) {
        db = record ((put t (mark archived a) w).db) {
          archived = update (put t (mark archived a) w).db.archived a.task_id true;
        };
      } in
      let run : (archive_stage sv k mode base t a w).world ≡ w1 = ground (arith, up, top) in
      rw run (
        At-relock k w1 record {
          found = saved.found;
          named = saved.named;
          task = saved.task;
          owned = saved.owned;
        })

  -- A task without a parent, whose review was interrupted: when the lease is over, a call whose storage
  -- fails, and then a call whose storage works, archive the attempt with the review that it had before,
  -- and leave the task as it was, so in review, if no other worker commits. The decision to ask the owner
  -- is lost with the rollback of the first call.
  pub interrupted_review_lost :
      (sv again : Services J) (k : ℕ) (w : World J) (mode : ExecutionMode) (a : Attempt J)
      (t : Task J)
      → sv.storage ≡ false
      → again.storage ≡ true
      → ((m : Moment) (v : World J) → sv.others m v ≡ v)
      → relock k w ≡ ok (a, t)
      → is_terminal a.status ≡ true
      → a.completeness.task_projection ≡ true
      → a.run_spec.execution_mode ≡ some mode
      → a.completeness.workflow ≡ review_running
      → is_leased sv.now a.completeness ≡ false
      → t.parent_id ≡ none
      → relock k (continue_workflow again k (continue_workflow sv k w).world).world
        ≡ ok (mark archived a, t)
  unfolding in_mode recover mark emit
  interrupted_review_lost sv again k w mode a t down up alone h done projected known running over
        top =
      let there = relock-At k w h in
      let w1 : World J = emit result_archive_pending a (put t (mark archive_pending a) w) in
      let saved =
        At-put k w
          (SameRun-completeness a a (mark archive_pending a).completeness refl (SameRun-refl a))
          (SameOwner-refl t) there in
      let there1 : At k w1 (mark archive_pending a) t = record {
        found = saved.found;
        named = saved.named;
        task = saved.task;
        owned = saved.owned;
      } in
      let recovers : in_mode sv k mode t a w ≡ recover sv k mode t a w =
        ground (arith, running, over) in
      let first : (continue_workflow sv k w).world ≡ w1 =
        ap (λ (o : Outcome J). o.world)
          (continue_workflow_mode sv k w mode there done projected known ∙ recovers)
        ∙ archive_stage_down sv k mode w _ (mark_review reviewed unknown_after_interruption a) a _ t
            down alone there in
      let second : continue_workflow again k w1
          ≡ archive_stage again k mode w1 t (mark archive_pending a) w1 =
        continue_workflow_mode again k w1 mode there1 done projected known in
      rw (first, second)
        (archive_stage_up again k mode w1 w1 (mark archive_pending a) t up top there1)
