-- ===== src/Workflow/Holds.antt =====
-- Properties of every task and of every attempt, and the writes that keep them.
use eval_hive.Base.{
  ◌≢◌, subst, ℕ, ◌≡◌, ◌==◌, nat_eq, true, some, Text, All, List, [], ◌∷◌, arith, if_both,
  Bool-cases, inl, inr, ltb, subst, ◌≢◌,
}
use eval_hive.Attempts.Sound.Change.{All-find_attempt}
use eval_hive.Attempts.Model.{
  reviewed, Attempt, WorkflowState, Review, approved, reviewed, ExecutionMode,
}
use eval_hive.Attempts.Store.{ok, err, Result, Task, save_attempt, TaskStatus}
use eval_hive.Workflow.World.{World, Services, Moment, put, emit, relock, Happening}
use eval_hive.Workflow.Stages.{Outcome, retried, mark, mark_review, verdict, raise_error}
use eval_hive.Workflow.Parent.{check_parent_task_completion, completed_parent}
use eval_hive.Workflow.Locks.{relock-At, check_parent_cases}
use eval_hive.Workflow.Continue.{claim}

module _ {J : Type 0} where
  pub record Holds (P : Task J → Type 0) (Q : Attempt J → Type 0) (w : World J) : Type 0 where
    pub tasks_hold : (j : ℕ) (t : Task J) → w.db.tasks j ≡ some t → P t
    pub attempts_hold : All Q w.db.attempts

  -- What each stage writes keeps the two properties. A review may be approved only where the model said so.
  pub record Kept (sv : Services J) (P : Task J → Type 0) (Q : Attempt J → Type 0) : Type 0 where
    pub retried_kept : (t : Task J) → ltb t.retry_count t.max_retries ≡ true → P t → P (retried t)
    pub status_kept : (s : TaskStatus) (t : Task J) → P t → P (record t { status = s })
    pub feedback_kept :
        (text : Text) (t : Task J) → P t → P (record t { orchestrator_feedback = some text })
    pub parent_kept :
        (l : List (Task J)) (t : Task J) → P t → P (completed_parent sv.strip sv.later l t)
    pub mark_kept : (s : WorkflowState) (a : Attempt J) → Q a → Q (mark s a)
    pub claim_kept : (a : Attempt J) → Q a → Q (claim sv.now a)
    pub review_kept :
        (s : WorkflowState) (r : Review) (a : Attempt J)
        → r ≢ approved
        → Q a
        → Q (mark_review s r a)
    pub approved_kept :
        (t : Task J) (a : Attempt J)
        → verdict (sv.evaluate t) ≡ some true
        → Q a
        → Q (mark_review reviewed approved a)
    pub others_kept : (m : Moment) (w : World J) → Holds P Q w → Holds P Q (sv.others m w)

  All-saved :
      (Q : Attempt J → Type 0) (a : Attempt J) (l : List (Attempt J))
      → Q a
      → All Q l
      → All Q (save_attempt a l)
  unfolding save_attempt
  All-saved Q a [] q all = tt
  All-saved Q a (b ∷ l) q all = (if_both Q (b.id == a.id) q all.0, All-saved Q a l q all.1)

  module _ (P : Task J → Type 0) (Q : Attempt J → Type 0) where
    pub put-Holds :
        (t : Task J) (a : Attempt J) (w : World J) → P t → Q a → Holds P Q w → Holds P Q (put t a w)
    unfolding put
    put-Holds t a w p q h = record {
      tasks_hold = λ j u e. elim (Bool-cases (a.task_id == j)) [
        | inl here ↦ let same : t ≡ u = ground arith in subst P same p
        | inr there ↦ h.tasks_hold j u (ground arith)
      ];
      attempts_hold = All-saved Q a w.db.attempts q h.attempts_hold;
    }

    pub emit-Holds :
        (l : Happening) (a : Attempt J) (w : World J) → Holds P Q w → Holds P Q (emit l a w)
    unfolding emit
    emit-Holds l a w h = record { tasks_hold = h.tasks_hold; attempts_hold = h.attempts_hold }

    pub relock-Holds :
        (k : ℕ) (w : World J) {a : Attempt J} {t : Task J}
        → Holds P Q w
        → relock k w ≡ ok (a, t)
        → P t × Q a
    relock-Holds k w {a} {t} h e =
        let there = relock-At k w e in
        (
          h.tasks_hold a.task_id t there.task,
          All-find_attempt Q k w.db.attempts there.found h.attempts_hold,
        )

    module _ (sv : Services J) (kept : Kept sv P Q) (k : ℕ) (mode : ExecutionMode) where
      pub check_parent-Holds :
          (u : Task J) (w : World J)
          → Holds P Q w
          → Holds P Q (check_parent_task_completion sv.strip sv.later u w)
      check_parent-Holds u w h = elim (check_parent_cases sv.strip sv.later u w) [
        | inl e ↦ rw e h
        | inr (p, parent, subtasks, l, known, e) ↦ rw e record {
          tasks_hold = λ j u' e2. elim (Bool-cases (p == j)) [
            | inl here ↦
                let same : completed_parent sv.strip sv.later subtasks parent ≡ u' = ground arith in
                subst P same (kept.parent_kept subtasks parent (h.tasks_hold p parent known))
            | inr there ↦ h.tasks_hold j u' (ground arith)
          ];
          attempts_hold = h.attempts_hold;
        }
      ]

      -- A locked pair, whatever comes next.
      pub locked_Holds :
          (w : World J) (f : Attempt J → Task J → Outcome J)
          → Holds P Q w
          → ((a : Attempt J) (t : Task J) → P t → Q a → Holds P Q (f a t).world)
          → (r : Result (Attempt J × Task J)) → relock k w ≡ r
          → let o : Outcome J = elim r [ err e ↦ raise_error w e | ok (a, t) ↦ f a t ] in
            Holds P Q o.world
      locked_Holds w f h go (err x) e = h
      locked_Holds w f h go (ok (a, t)) e = let both = relock-Holds k w h e in go a t both.0 both.1
