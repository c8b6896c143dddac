-- ===== src/Workflow/Invariant.antt =====
-- The stages of a call, for a property of tasks and one of attempts that their writes keep.
use eval_hive.Base.{
  false, Option, ℕ, ◌≡◌, nat_eq, if◌then◌else◌, true, false, some, none, refl, Text, arith, if_both,
  Bool-cases, inl, inr, ltb, Bool, not, ◌+◌, if_given, ◌&&◌,
}
use eval_hive.Attempts.Model.{
  pending, reviewed, review_running, archived, archive_pending, retry, superseded, rejected,
  unavailable, unknown_after_interruption, Attempt, WorkflowState, approved, reviewed,
  ExecutionMode, direct, is_terminal,
}
use eval_hive.Attempts.Store.{Task, TaskStatus, update, awaiting_approval, review}
use eval_hive.Workflow.World.{
  Reason, World, Services, put, emit, relock, after_rollback, review_requires_owner, after_review,
  result_archive_pending, during_review, auto_review_passed,
}
use eval_hive.Workflow.Stages.{
  Outcome, archive_stage, mark, mark_review, verdict, build_quality_record, archive_later,
  after_decision, decide, reject, is_review, return_world, feedback_text, is_orchestrated,
}
use eval_hive.Workflow.Parent.{check_parent_task_completion, is_failed}
use eval_hive.Workflow.Continue.{
  continue_workflow, claim, review_stage, review_answer, pending_stage, recover, in_mode,
  is_cancelled,
}
use eval_hive.Workflow.Holds.{Holds, Kept, put-Holds, emit-Holds, locked_Holds, check_parent-Holds}

last_of_four : (b c d e : Bool) → (b && c && d && e) ≡ true → e ≡ true
last_of_four b c d e h = ground arith

module _ {J : Type 0} where
  module _ (P : Task J → Type 0) (Q : Attempt J → Type 0) where
    module _ (sv : Services J) (kept : Kept sv P Q) (k : ℕ) (mode : ExecutionMode) where
      archive_stage-Holds :
          (base w : World J) (a : Attempt J) (t : Task J)
          → Holds P Q base
          → Holds P Q w
          → P t
          → Q a
          → Holds P Q (archive_stage sv k mode base t a w).world
      unfolding archive_stage build_quality_record archive_later
      archive_stage-Holds base w a t hb h p q = elim (Bool-cases sv.storage) [
        | inl up ↦
            let saved = put-Holds P Q t (mark archived a) w p (kept.mark_kept archived a q) h in
            let w1 : World J = record (put t (mark archived a) w) {
              db = record ((put t (mark archived a) w).db) {
                archived = update (put t (mark archived a) w).db.archived a.task_id true;
              };
            } in
            let held : Holds P Q w1 = record {
              tasks_hold = saved.tasks_hold;
              attempts_hold = saved.attempts_hold;
            } in
            let e : (archive_stage sv k mode base t a w).world
                ≡ check_parent_task_completion sv.strip sv.later t w1 =
              ground (arith, up) in
            rw e (check_parent-Holds P Q sv kept k mode t w1 held)
        | inr down ↦
            let v = sv.others after_rollback base in
            rw down (
              locked_Holds P Q sv kept k mode v
                (λ b u.
                  return_world (emit result_archive_pending b (put u (mark archive_pending b) v)))
                (kept.others_kept after_rollback base hb)
                (λ b u pu qb. emit-Holds P Q result_archive_pending b _ (
                  put-Holds P Q u (mark archive_pending b) v pu
                    (kept.mark_kept archive_pending b qb)
                    (kept.others_kept after_rollback base hb)))
                (relock k v) refl)
      ]

      after_decision-Holds :
          (w : World J) → Holds P Q w → Holds P Q (after_decision sv k mode w).world
      unfolding after_decision
      after_decision-Holds w h =
          let v = sv.others after_review w in
          let hv = kept.others_kept after_review w h in
          locked_Holds P Q sv kept k mode v (λ a t. archive_stage sv k mode v t a v) hv
            (λ a t p q. archive_stage-Holds v v a t hv hv p q) (relock k v) refl

      module _ (w : World J) (h : Holds P Q w) (a : Attempt J) (t : Task J) (p : P t)
          (q : Q a) where
        reject-Holds : (text : Text) → Holds P Q (reject sv k mode text t a w).world
        unfolding reject
        reject-Holds text =
            let p1 = kept.feedback_kept text t p in
            elim (Bool-cases (ltb t.retry_count t.max_retries)) [
              | inl more ↦ rw more (
                  emit-Holds P Q _ a _ (
                    put-Holds P Q _ _ w (kept.retried_kept _ more p1)
                      (kept.review_kept retry rejected a (λ e. cc) q) h))
              | inr out ↦ rw out (
                  after_decision-Holds _ (
                    emit-Holds P Q _ a _ (
                      put-Holds P Q _ _ w (kept.status_kept TaskStatus.failed _ p1)
                        (kept.review_kept reviewed rejected a (λ e. cc) q) h)))
            ]

        answer-Holds :
            (u : Task J) (v : Option Bool) (text : Text)
            → verdict (sv.evaluate u) ≡ v
            → let o : Outcome J = (elim v [
              | none ↦ after_decision sv k mode (
                  emit (review_requires_owner Reason.unavailable) a (
                    put
                      (record t { status = awaiting_approval })
                      (mark_review reviewed unavailable a)
                      w))
              | some true ↦ after_decision sv k mode (
                  emit auto_review_passed a (
                    put
                      (record t { status = awaiting_approval })
                      (mark_review reviewed approved a)
                      w))
              | some false ↦ reject sv k mode text t a w
            ]) in
              Holds P Q o.world
        answer-Holds u none text e = after_decision-Holds _ (
            emit-Holds P Q _ a _ (
              put-Holds P Q _ _ w (kept.status_kept awaiting_approval t p)
                (kept.review_kept reviewed unavailable a (λ e. cc) q) h))
        answer-Holds u (some true) text e = after_decision-Holds _ (
            emit-Holds P Q _ a _ (
              put-Holds P Q _ _ w (kept.status_kept awaiting_approval t p)
                (kept.approved_kept u a e q) h))
        answer-Holds u (some false) text e = reject-Holds text

        decide-Holds : (u : Task J) → Holds P Q (decide sv k mode (sv.evaluate u) t a w).world
        unfolding decide
        decide-Holds u =
            if_both (λ (o : Outcome J). Holds P Q o.world) (not (is_review t.status))
              (put-Holds P Q t (mark superseded a) w p (kept.mark_kept superseded a q) h)
              (answer-Holds u (verdict (sv.evaluate u)) (feedback_text (sv.evaluate u)) refl)

      module _ (w : World J) (h : Holds P Q w) (a : Attempt J) (t : Task J) (p : P t)
          (q : Q a) where
        review_stage-Holds : Holds P Q (review_stage sv k mode t a w).world
        unfolding review_stage review_answer
        review_stage-Holds =
            let w1 = put (record t { status = review }) (claim sv.now a) w in
            let v = sv.others during_review w1 in
            let hv =
              kept.others_kept during_review w1
                (put-Holds P Q _ _ w (kept.status_kept review t p) (kept.claim_kept a q) h) in
            locked_Holds P Q sv kept k mode v (λ b u. decide sv k mode (sv.evaluate t) u b v) hv
              (λ b u pu qb. decide-Holds v hv b u pu qb t) (relock k v) refl

        pending_stage-Holds : Holds P Q (pending_stage sv k mode t a w).world
        unfolding pending_stage
        pending_stage-Holds =
            if_given (λ (o : Outcome J). Holds P Q o.world) _
              (λ (again : ((is_orchestrated mode && not t.benchmark_mode)
                    && is_failed t.status
                    && not (is_cancelled sv a)
                    && ltb t.retry_count t.max_retries)
                  ≡ true).
                let more : ltb t.retry_count t.max_retries ≡ true =
                  last_of_four (is_orchestrated mode && not t.benchmark_mode) (is_failed t.status)
                    (not (is_cancelled sv a)) (ltb t.retry_count t.max_retries) again in
                emit-Holds P Q _ a _
                  (put-Holds P Q _ _ w (kept.retried_kept t more p) (kept.mark_kept retry a q) h))
              (λ _.
                if_both (λ (o : Outcome J). Holds P Q o.world) _ review_stage-Holds
                  (archive_stage-Holds w w (mark reviewed a) t h h p (kept.mark_kept reviewed a q)))

        recover-Holds : Holds P Q (recover sv k mode t a w).world
        unfolding recover
        recover-Holds =
            archive_stage-Holds w _ _ _ h (emit-Holds P Q _ a w h)
              (if_both P (is_review t.status) (kept.status_kept awaiting_approval t p) p)
              (kept.review_kept reviewed unknown_after_interruption a (λ e. cc) q)

        in_mode-Holds :
            (s : WorkflowState)
            → a.completeness.workflow ≡ s
            → Holds P Q (in_mode sv k mode t a w).world
        unfolding in_mode
        in_mode-Holds archived e =
            let run : (in_mode sv k mode t a w).world ≡ w = ground (arith, e) in rw run h
        in_mode-Holds retry e =
            let run : (in_mode sv k mode t a w).world ≡ w = ground (arith, e) in rw run h
        in_mode-Holds superseded e =
            let run : (in_mode sv k mode t a w).world ≡ w = ground (arith, e) in rw run h
        in_mode-Holds review_running e =
            let run : in_mode sv k mode t a w ≡ (
                if ltb sv.now (a.completeness.review_started_at + 300)
                then return_world w
                else recover sv k mode t a w) =
              ground (arith, e) in
            rw run (if_both (λ (o : Outcome J). Holds P Q o.world) _ h recover-Holds)
        in_mode-Holds pending e =
            let run : in_mode sv k mode t a w ≡ pending_stage sv k mode t a w = ground (arith, e) in
            rw run pending_stage-Holds
        in_mode-Holds reviewed e =
            let run : in_mode sv k mode t a w ≡ archive_stage sv k mode w t a w =
              ground (arith, e) in
            rw run (archive_stage-Holds w w a t h h p q)
        in_mode-Holds archive_pending e =
            let run : in_mode sv k mode t a w ≡ archive_stage sv k mode w t a w =
              ground (arith, e) in
            rw run (archive_stage-Holds w w a t h h p q)

    module _ (sv : Services J) (kept : Kept sv P Q) (k : ℕ) (w : World J) (h : Holds P Q w)
        (a : Attempt J) (t : Task J) (p : P t) (q : Q a) where
      by_mode-Holds :
          (m : Option ExecutionMode)
          → let o : Outcome J = elim m [
            | none ↦ return_world (check_parent_task_completion sv.strip sv.later t w)
            | some x ↦ in_mode sv k x t a w
          ] in
            Holds P Q o.world
      by_mode-Holds none = check_parent-Holds P Q sv kept k direct t w h
      by_mode-Holds (some x) = in_mode-Holds sv kept k x w h a t p q a.completeness.workflow refl

    -- A call keeps what its stages keep.
    pub continue_workflow-Holds :
        (sv : Services J)
        → Kept sv P Q
        → (k : ℕ) (w : World J) → Holds P Q w
        → Holds P Q (continue_workflow sv k w).world
    unfolding continue_workflow
    continue_workflow-Holds sv kept k w h =
        locked_Holds P Q sv kept k direct w _ h
          (λ a t p q.
            if_both (λ (o : Outcome J). Holds P Q o.world)
              (is_terminal a.status && a.completeness.task_projection)
              (by_mode-Holds sv kept k w h a t p q a.run_spec.execution_mode) h)
          (relock k w) refl
