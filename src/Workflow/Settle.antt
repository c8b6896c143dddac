-- ===== src/Workflow/Settle.antt =====
-- Calls of `continue_workflow` that no other worker disturbs.
use eval_hive.Base.{
  ltb, false, true, ◌+◌, ℕ, ◌≡◌, nat_eq, some, ◌∙◌, refl, arith, true, Bool, ltb, if_both, subst,
  sym, ap,
}
use eval_hive.Attempts.Model.{
  review_running, archived, superseded, retry, pending, archive_pending, reviewed, Attempt,
  ExecutionMode, archived, WorkflowState, reviewed, superseded, Completeness, retry,
  unknown_after_interruption, is_terminal, RunSpec,
}
use eval_hive.Attempts.Store.{ok, Task, review}
use eval_hive.Workflow.World.{
  World, Services, put, emit, relock, review_requires_owner, Reason, during_review,
}
use eval_hive.Workflow.Stages.{
  Outcome, archive_stage, mark, mark_review, retried, is_review, return_world,
}
use eval_hive.Workflow.Locks.{
  At, SameRun, SameOwner, At-put, SameRun-completeness, At-relock, SameRun-refl, SameOwner-refl,
  SameOwner-still, relock-At,
}
use eval_hive.Workflow.Continue.{
  continue_workflow, is_complete, pending_stage, in_mode, review_stage, recover, claim,
  review_answer,
}
use eval_hive.Workflow.Ended.{
  Ended, Undisturbed, archive_stage-Ended, written-Ended, review_answer-Ended,
}

-- Another worker reviews, and REVIEW_RECOVERY_SECONDS are not over.
abbrev pub is_leased : ℕ → Completeness → Bool
is_leased now c = elim c.workflow [
  | review_running ↦ ltb now (c.review_started_at + 300)
  | _ ↦ false
]

module _ {J : Type 0} where
  module _ (sv : Services J) (calm : Undisturbed sv) (k : ℕ) (mode : ExecutionMode)
      (a0 : Attempt J) where
    module _ (w : World J) (t : Task J) (h : At k w a0 t) where
      review_stage-Ended : Ended k a0 (review_stage sv k mode t a0 w).world
      unfolding review_stage
      review_stage-Ended =
          let a' = claim sv.now a0 in
          let t' : Task J = record t { status = review } in
          let w1 = put t' a' w in
          let s : SameRun a0 a' =
            unfold claim in SameRun-completeness a0 a0 _ refl (SameRun-refl a0) in
          let at' : At k w1 a' t' =
            At-put k w s (SameOwner-still t t t' refl refl (SameOwner-refl t)) h in
          subst (λ v. Ended k a0 (review_answer sv k mode (sv.evaluate t) v).world)
            (sym (calm.alone during_review w1))
            (review_answer-Ended sv calm k mode a0 (sv.evaluate t) w1 a' t' at' s)

      archived-Ended :
          (a : Attempt J) → SameRun a0 a → Ended k a0 (archive_stage sv k mode w t a w).world
      archived-Ended a s = archive_stage-Ended sv calm k mode a0 w w a t h s (SameOwner-refl t) s

      pending_stage-Ended : Ended k a0 (pending_stage sv k mode t a0 w).world
      unfolding pending_stage mark retried is_complete
      pending_stage-Ended =
          if_both (λ (o : Outcome J). Ended k a0 o.world) _
            (written-Ended sv calm k mode a0 w a0 t h (SameRun-refl a0) retry _ _ _
              (SameOwner-still t t _ refl refl (SameOwner-refl t)) refl)
            (if_both (λ (o : Outcome J). Ended k a0 o.world) _ review_stage-Ended
              (archived-Ended (mark reviewed a0)
                (SameRun-completeness a0 a0 _ refl (SameRun-refl a0))))

      recover-Ended : Ended k a0 (recover sv k mode t a0 w).world
      unfolding recover emit mark_review
      recover-Ended =
          let s : SameRun a0 (mark_review reviewed unknown_after_interruption a0) =
            SameRun-completeness a0 a0 _ refl (SameRun-refl a0) in
          let logged : At k (emit (review_requires_owner Reason.interrupted) a0 w) a0 t = record {
            found = h.found;
            named = h.named;
            task = h.task;
            owned = h.owned;
          } in
          archive_stage-Ended sv calm k mode a0 w
            (emit (review_requires_owner Reason.interrupted) a0 w) _ _ logged s
            (if_both (SameOwner t) (is_review t.status)
              (SameOwner-still t t _ refl refl (SameOwner-refl t)) (SameOwner-refl t))
            s

      -- A state that is complete already.
      stays-Ended : is_complete a0.completeness.workflow ≡ true → Ended k a0 w
      stays-Ended c = record {
        attempt = a0;
        task = t;
        there = h;
        same = SameRun-refl a0;
        complete = c;
      }

      in_mode-Ended :
          (s : WorkflowState)
          → a0.completeness.workflow ≡ s
          → is_leased sv.now a0.completeness ≡ false
          → Ended k a0 (in_mode sv k mode t a0 w).world
      unfolding in_mode is_complete
      in_mode-Ended archived e free =
          let run : (in_mode sv k mode t a0 w).world ≡ w = ground (arith, e) in
          rw run (stays-Ended (rw e refl))
      in_mode-Ended retry e free =
          let run : (in_mode sv k mode t a0 w).world ≡ w = ground (arith, e) in
          rw run (stays-Ended (rw e refl))
      in_mode-Ended superseded e free =
          let run : (in_mode sv k mode t a0 w).world ≡ w = ground (arith, e) in
          rw run (stays-Ended (rw e refl))
      in_mode-Ended review_running e free =
          let run : in_mode sv k mode t a0 w ≡ recover sv k mode t a0 w = ground (arith, e, free) in
          rw run recover-Ended
      in_mode-Ended pending e free =
          let run : in_mode sv k mode t a0 w ≡ pending_stage sv k mode t a0 w = ground (arith, e) in
          rw run pending_stage-Ended
      in_mode-Ended reviewed e free =
          let run : in_mode sv k mode t a0 w ≡ archive_stage sv k mode w t a0 w =
            ground (arith, e) in
          rw run (archived-Ended a0 (SameRun-refl a0))
      in_mode-Ended archive_pending e free =
          let run : in_mode sv k mode t a0 w ≡ archive_stage sv k mode w t a0 w =
            ground (arith, e) in
          rw run (archived-Ended a0 (SameRun-refl a0))

  in_mode_complete :
      (sv : Services J) (k : ℕ) (mode : ExecutionMode) (t : Task J) (a : Attempt J) (w : World J)
      → is_complete a.completeness.workflow ≡ true
      → in_mode sv k mode t a w ≡ return_world w
  unfolding in_mode is_complete
  in_mode_complete sv k mode t a w c = ground arith

  -- Where a call leads to for a finished, projected attempt of a known mode.
  pub continue_workflow_mode :
      (sv : Services J) (k : ℕ) (w : World J) (mode : ExecutionMode) {a : Attempt J} {t : Task J}
      → At k w a t
      → is_terminal a.status ≡ true
      → a.completeness.task_projection ≡ true
      → a.run_spec.execution_mode ≡ some mode
      → continue_workflow sv k w ≡ in_mode sv k mode t a w
  unfolding continue_workflow
  continue_workflow_mode sv k w mode {a} {t} h done projected known =
      rw (continue_workflow, At-relock k w h) (ground (arith, done, projected, known))

  -- A call for an attempt that has ended, is projected, has one of the two modes and is not in review by
  -- another worker: where the storage works and nobody else commits, the workflow is complete afterwards,
  -- the same run of the same task is still the current one, and every later call, whatever the services
  -- do, returns without an error and changes nothing.
  pub continue_workflow_settles :
      (sv : Services J) (k : ℕ) (w : World J) (mode : ExecutionMode) (a : Attempt J) (t : Task J)
      → Undisturbed sv
      → relock k w ≡ ok (a, t)
      → is_terminal a.status ≡ true
      → a.completeness.task_projection ≡ true
      → a.run_spec.execution_mode ≡ some mode
      → is_leased sv.now a.completeness ≡ false
      → Ended k a (continue_workflow sv k w).world
        × ((again : Services J)
            → continue_workflow again k (continue_workflow sv k w).world
              ≡ return_world (continue_workflow sv k w).world)
  continue_workflow_settles sv k w mode a t calm h done projected known free =
      let there = relock-At k w h in
      let end : Ended k a (continue_workflow sv k w).world =
        rw (continue_workflow_mode sv k w mode there done projected known)
          (in_mode-Ended sv calm k mode a w t there a.completeness.workflow refl free) in
      (
        end,
        λ again.
            continue_workflow_mode again k (continue_workflow sv k w).world mode end.there
              (ap is_terminal end.same.same_status ∙ done) (end.same.same_projection ∙ projected)
              (ap (λ (r : RunSpec J). r.execution_mode) end.same.same_spec ∙ known)
            ∙ in_mode_complete again k mode end.task end.attempt (continue_workflow sv k w).world
                end.complete,
      )
