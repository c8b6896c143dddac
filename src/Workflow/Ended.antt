-- ===== src/Workflow/Ended.antt =====
-- Complete workflows, and the stages of a call that no other worker disturbs.
use eval_hive.Base.{
  ltb, false, true, ℕ, ◌≡◌, nat_eq, some, none, refl, Text, arith, true, Option, Bool-cases, Bool,
  ltb, inl, inr,
}
use eval_hive.Attempts.Model.{
  archived, superseded, retry, reviewed, Attempt, ExecutionMode, archived, Review, WorkflowState,
  reviewed, superseded, Completeness, retry, rejected, unavailable, approved,
}
use eval_hive.Attempts.Store.{Task, update, awaiting_approval}
use eval_hive.Workflow.World.{
  World, Services, Moment, put, emit, after_review, Happening, Evaluation, review_requires_owner,
  Reason, auto_review_passed,
}
use eval_hive.Workflow.Stages.{
  Outcome, archive_stage, build_quality_record, mark, after_decision, decide, reject, mark_review,
  retried, is_review, verdict, feedback_text,
}
use eval_hive.Workflow.Parent.{check_parent_task_completion}
use eval_hive.Workflow.Locks.{
  At, SameRun, SameOwner, At-put, At-check_parent, SameRun-completeness, At-relock, SameRun-refl,
  SameOwner-refl, SameOwner-still,
}
use eval_hive.Workflow.Continue.{is_complete, review_answer}

module _ {J : Type 0} where
  -- The attempt that k names has a complete workflow, and is the run `a` otherwise.
  pub record Ended (k : ℕ) (a : Attempt J) (w : World J) : Type 0 where
    pub attempt : Attempt J
    pub task : Task J
    pub there : At k w attempt task
    pub same : SameRun a attempt
    pub complete : is_complete attempt.completeness.workflow ≡ true

  -- The storage works, and no other worker commits.
  pub record Undisturbed (sv : Services J) : Type 0 where
    pub stores : sv.storage ≡ true
    pub alone : (m : Moment) (w : World J) → sv.others m w ≡ w

  module _ (sv : Services J) (calm : Undisturbed sv) (k : ℕ) (mode : ExecutionMode)
      (a0 : Attempt J) where
    pub archive_stage-Ended :
        (base w : World J) (a : Attempt J) (t : Task J) {a1 : Attempt J} {t1 : Task J}
        → At k w a1 t1
        → SameRun a1 a
        → SameOwner t1 t
        → SameRun a0 a
        → Ended k a0 (archive_stage sv k mode base t a w).world
    unfolding archive_stage build_quality_record is_complete
    archive_stage-Ended base w a t {a1} {t1} h s o s0 =
        let kept : SameRun a1 (mark archived a) = SameRun-completeness a1 a _ refl s in
        let saved = At-put k w kept o h in
        let w1 : World J = record (put t (mark archived a) w) {
          db = record ((put t (mark archived a) w).db) {
            archived = update (put t (mark archived a) w).db.archived a.task_id true;
          };
        } in
        let held : At k w1 (mark archived a) t = record {
          found = saved.found;
          named = saved.named;
          task = saved.task;
          owned = saved.owned;
        } in
        let (t', after) = At-check_parent sv.strip sv.later t k w1 held in
        let e : (archive_stage sv k mode base t a w).world
            ≡ check_parent_task_completion sv.strip sv.later t w1 =
          ground (arith, calm.stores) in
        rw e record {
          attempt = mark archived a;
          task = t';
          there = after;
          same = SameRun-completeness a0 a _ refl s0;
          complete = refl;
        }

    after_decision-Ended :
        (w : World J) (a : Attempt J) (t : Task J)
        → At k w a t
        → SameRun a0 a
        → Ended k a0 (after_decision sv k mode w).world
    unfolding after_decision
    after_decision-Ended w a t h s0 =
        let e : after_decision sv k mode w ≡ archive_stage sv k mode w t a w =
          rw (after_decision, calm.alone after_review w, At-relock k w h, calm.alone after_review w)
            refl in
        rw e (archive_stage-Ended w w a t h (SameRun-refl a) (SameOwner-refl t) s0)

    module _ (w : World J) (a : Attempt J) (t : Task J) (h : At k w a t) (s0 : SameRun a0 a) where
      -- A call that writes a task and a complete attempt, and ends.
      pub written-Ended :
          (state : WorkflowState) (r : Option Review) (t' : Task J) (l : Happening)
          → SameOwner t t'
          → is_complete state ≡ true
          → Ended k a0 (
              emit l a (
                put t'
                  (record a {
                    completeness = record (a.completeness) { workflow = state; review = r };
                  })
                  w))
      unfolding emit
      written-Ended state r t' l o c =
          let c' : Completeness = record (a.completeness) { workflow = state; review = r } in
          let at' =
            At-put k w {a' = record a { completeness = c' }}
              (SameRun-completeness a a c' refl (SameRun-refl a)) o h in
          record {
            attempt = record a { completeness = c' };
            task = t';
            there = record {
              found = at'.found;
              named = at'.named;
              task = at'.task;
              owned = at'.owned;
            };
            same = SameRun-completeness a0 a c' refl s0;
            complete = c;
          }

      decided-Ended :
          (r : Review) (t' : Task J) (l : Happening)
          → SameOwner t t'
          → Ended k a0
              (after_decision sv k mode (emit l a (put t' (mark_review reviewed r a) w))).world
      unfolding emit mark_review
      decided-Ended r t' l o =
          let a' = mark_review reviewed r a in
          let at' = At-put k w {a' = a'} (SameRun-completeness a a _ refl (SameRun-refl a)) o h in
          after_decision-Ended (emit l a (put t' a' w)) a' t'
            record { found = at'.found; named = at'.named; task = at'.task; owned = at'.owned }
            (SameRun-completeness a0 a _ refl s0)

      reject-Ended : (text : Text) → Ended k a0 (reject sv k mode text t a w).world
      unfolding reject retried mark_review is_complete
      reject-Ended text = elim (Bool-cases (ltb t.retry_count t.max_retries)) [
        | inl e ↦ rw e (
            written-Ended retry (some rejected) _ _
              (SameOwner-still t t _ refl refl (SameOwner-refl t)) refl)
        | inr e ↦
            rw e (decided-Ended rejected _ _ (SameOwner-still t t _ refl refl (SameOwner-refl t)))
      ]

      superseded-Ended : Ended k a0 (put t (mark superseded a) w)
      unfolding mark is_complete
      superseded-Ended = record {
        attempt = mark superseded a;
        task = t;
        there = At-put k w (SameRun-completeness a a _ refl (SameRun-refl a)) (SameOwner-refl t) h;
        same = SameRun-completeness a0 a _ refl s0;
        complete = refl;
      }

      answer-Ended :
          (v : Option Bool) (text : Text)
          → let o : Outcome J = (elim v [
            | none ↦ after_decision sv k mode (
                emit (review_requires_owner Reason.unavailable) a (
                  put
                    (record t { status = awaiting_approval })
                    (mark_review reviewed unavailable a)
                    w))
            | some true ↦ after_decision sv k mode (
                emit auto_review_passed a (
                  put
                    (record t { status = awaiting_approval })
                    (mark_review reviewed approved a)
                    w))
            | some false ↦ reject sv k mode text t a w
          ]) in
            Ended k a0 o.world
      answer-Ended none text =
          decided-Ended unavailable _ _ (SameOwner-still t t _ refl refl (SameOwner-refl t))
      answer-Ended (some true) text =
          decided-Ended approved _ _ (SameOwner-still t t _ refl refl (SameOwner-refl t))
      answer-Ended (some false) text = reject-Ended text

      decide-Ended : (e : Option Evaluation) → Ended k a0 (decide sv k mode e t a w).world
      unfolding decide
      decide-Ended e = elim (Bool-cases (is_review t.status)) [
        | inl here ↦ rw here (answer-Ended (verdict e) (feedback_text e))
        | inr gone ↦ rw gone superseded-Ended
      ]

    pub review_answer-Ended :
        (e : Option Evaluation) (w : World J) (a : Attempt J) (t : Task J)
        → At k w a t
        → SameRun a0 a
        → Ended k a0 (review_answer sv k mode e w).world
    unfolding review_answer
    review_answer-Ended e w a t h s = rw (review_answer, At-relock k w h) (decide-Ended w a t h s e)
