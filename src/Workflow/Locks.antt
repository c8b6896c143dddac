-- ===== src/Workflow/Locks.antt =====
-- Which attempt a worker locks after it has saved one, and after the parent of its task was completed.
use eval_hive.Base.{
  refl, ℕ, ◌≡◌, ◌==◌, nat_eq, some, none, ◌∙◌, Text, arith, inl, List, ◌⊎◌, inr, Bool-cases,
  Option-cases, ◌∷◌,
}
use eval_hive.Attempts.Model.{Attempt, Completeness}
use eval_hive.Attempts.Store.{ok, Task, find_attempt, update}
use eval_hive.Attempts.Ingest.{locked_attempt, owns}
use eval_hive.Attempts.Sound.Change.{find_attempt-save_attempt, id-find_attempt}
use eval_hive.Workflow.World.{World, put, relock, LogEntry, all_subtasks_completed}
use eval_hive.Workflow.Parent.{check_parent_task_completion, completed_parent, all_done, load}

module _ {J : Type 0} where
  -- What `relock` finds.
  pub record At (k : ℕ) (w : World J) (a : Attempt J) (t : Task J) : Type 0 where
    pub found : find_attempt k w.db.attempts ≡ some a
    pub named : a.id ≡ k
    pub task : w.db.tasks a.task_id ≡ some t
    pub owned : owns a t ≡ ok a

  pub relock-At :
      (k : ℕ) (w : World J) {a : Attempt J} {t : Task J} → relock k w ≡ ok (a, t) → At k w a t
  unfolding relock locked_attempt owns
  relock-At k w {a} {t} h =
      let found : find_attempt k w.db.attempts ≡ some a = ground arith in
      record {
        found = found;
        named = id-find_attempt k w.db.attempts found;
        task = ground arith;
        owned = ground arith;
      }

  pub At-relock :
      (k : ℕ) (w : World J) {a : Attempt J} {t : Task J} → At k w a t → relock k w ≡ ok (a, t)
  unfolding relock locked_attempt
  At-relock k w {a} {t} h = ground (arith, h.found, h.task, h.owned)

  -- The same attempt and task, as far as the lock goes.
  pub record SameRun (a a' : Attempt J) : Type 0 where
    pub same_id : a'.id ≡ a.id
    pub same_task : a'.task_id ≡ a.task_id
    pub same_workspace : a'.workspace_id ≡ a.workspace_id
    pub same_status : a'.status ≡ a.status
    pub same_spec : a'.run_spec ≡ a.run_spec
    pub same_projection : a'.completeness.task_projection ≡ a.completeness.task_projection

  pub record SameOwner (t t' : Task J) : Type 0 where
    pub same_workspace : t'.workspace_id ≡ t.workspace_id
    pub same_current : t'.current_attempt_id ≡ t.current_attempt_id

  pub SameRun-refl : (a : Attempt J) → SameRun a a
  SameRun-refl a = record {
    same_id = refl;
    same_task = refl;
    same_workspace = refl;
    same_status = refl;
    same_spec = refl;
    same_projection = refl;
  }

  pub SameOwner-refl : (t : Task J) → SameOwner t t
  SameOwner-refl t = record { same_workspace = refl; same_current = refl }

  pub SameRun-completeness :
      (a a' : Attempt J) (c : Completeness)
      → c.task_projection ≡ a'.completeness.task_projection
      → SameRun a a'
      → SameRun a (record a' { completeness = c })
  SameRun-completeness a a' c e s = record {
    same_id = s.same_id;
    same_task = s.same_task;
    same_workspace = s.same_workspace;
    same_status = s.same_status;
    same_spec = s.same_spec;
    same_projection = e ∙ s.same_projection;
  }

  pub SameOwner-still :
      (t t' t'' : Task J)
      → t''.workspace_id ≡ t'.workspace_id
      → t''.current_attempt_id ≡ t'.current_attempt_id
      → SameOwner t t'
      → SameOwner t t''
  SameOwner-still t t' t'' e e2 o = record {
    same_workspace = e ∙ o.same_workspace;
    same_current = e2 ∙ o.same_current;
  }

  owns_same :
      (a a' : Attempt J) (t t' : Task J)
      → SameRun a a'
      → SameOwner t t'
      → owns a t ≡ ok a
      → owns a' t' ≡ ok a'
  unfolding owns
  owns_same a a' t t' s o h =
      ground (arith, s.same_id, s.same_workspace, o.same_workspace, o.same_current)

  pub At-put :
      (k : ℕ) (w : World J) {a a' : Attempt J} {t t' : Task J}
      → SameRun a a'
      → SameOwner t t'
      → At k w a t
      → At k (put t' a' w) a' t'
  unfolding put
  At-put k w {a} {a'} {t} {t'} s o h = record {
    found = ground (arith, find_attempt-save_attempt k w.db.attempts a', h.found, s.same_id);
    named = s.same_id ∙ h.named;
    task = ground arith;
    owned = owns_same a a' t t' s o h.owned;
  }

  owns_owner : (a : Attempt J) (t t' : Task J) → SameOwner t t' → owns a t ≡ ok a → owns a t' ≡ ok a
  unfolding owns
  owns_owner a t t' o h = ground (arith, o.same_workspace, o.same_current)

  -- Another task is written, or a new version of the attempt's own with the same owner.
  At-update :
      (k p : ℕ) (w : World J) {parent parent' : Task J} {a : Attempt J} {t : Task J}
      (l : List LogEntry)
      → w.db.tasks p ≡ some parent
      → SameOwner parent parent'
      → At k w a t
      → (t' : Task J) × At k
          (record { db = record (w.db) { tasks = update w.db.tasks p (some parent') }; log = l })
          a
          t'
  At-update k p w {parent} {parent'} {a} {t} l known o h = elim (Bool-cases (p == a.task_id)) [
    | inl here ↦
        let same : parent ≡ t = ground (arith, h.task) in
        (
          parent',
          record {
            found = h.found;
            named = h.named;
            task = ground arith;
            owned = owns_owner a parent parent' o (ground (arith, same, h.owned));
          },
        )
    | inr there ↦ (
      t,
      record { found = h.found; named = h.named; task = ground (arith, h.task); owned = h.owned },
    )
  ]

  completed_parent-SameOwner :
      (strip : Text → Text) (now : ℕ) (l : List (Task J)) (t : Task J)
      → SameOwner t (completed_parent strip now l t)
  unfolding completed_parent
  completed_parent-SameOwner strip now l t = record { same_workspace = refl; same_current = refl }

  -- `check_parent_task_completion` changes nothing, or completes one task.
  pub check_parent_cases :
      (strip : Text → Text) (now : ℕ) (u : Task J) (w : World J)
      → (check_parent_task_completion strip now u w ≡ w)
        ⊎ ((p : ℕ) × (parent : Task J) × (subtasks : List (Task J)) × (l : List LogEntry)
            × (w.db.tasks p ≡ some parent)
            × (check_parent_task_completion strip now u w ≡ record {
              db = record (w.db) {
                tasks = update w.db.tasks p (some (completed_parent strip now subtasks parent));
              };
              log = l;
            }))
  unfolding check_parent_task_completion
  check_parent_cases strip now u w = elim (Option-cases u.parent_id) [
    | inl e ↦ inl (ground (arith, e))
    | inr (p, e) ↦ elim (Option-cases (w.db.tasks p)) [
      | inl e2 ↦ inl (ground (arith, e, e2))
      | inr (parent, e2) ↦ elim (Bool-cases (all_done (load (w.db.children p) w.db))) [
        | inr e3 ↦ inl (ground (arith, e, e2, e3))
        | inl e3 ↦
            let l = load (w.db.children p) w.db in
            inr (
              p,
              parent,
              l,
              record {
                task_id = p;
                attempt_id = none;
                happening = all_subtasks_completed (completed_parent strip now l parent).status;
              }
                  ∷ w.log,
              e2,
              ground (arith, e, e2, e3),
            )
      ]
    ]
  ]

  pub At-check_parent :
      (strip : Text → Text) (now : ℕ) (u : Task J) (k : ℕ) (w : World J) {a : Attempt J}
      {t : Task J}
      → At k w a t
      → (t' : Task J) × At k (check_parent_task_completion strip now u w) a t'
  At-check_parent strip now u k w {a} {t} h = elim (check_parent_cases strip now u w) [
    | inl e ↦ (t, rw e h)
    | inr (p, parent, subtasks, l, known, e) ↦
        let (t', h') =
          At-update k p w l known (completed_parent-SameOwner strip now subtasks parent) h in
        (t', rw e h')
  ]
