-- ===== src/Workflow/Parent.antt =====
-- `check_parent_task_completion` of backend/app/orchestrator/engine.py. Identifiers are numbers in the order
-- of their texts.
use eval_hive.Base.{
  ℕ, suc, Bool, true, false, ◌&&◌, ◌||◌, not, Option, none, some, List, [], ◌∷◌, ◌++◌, Text, codes,
  ◌==◌, nat_eq, if◌then◌else◌, ltb, take,
}
use eval_hive.Failures.{FailureType, is_contaminated, merge_failure_type}
use eval_hive.Loops.Keys.{is_empty}
use eval_hive.Attempts.Store.{
  TaskStatus, backlog, ready, decomposing, in_progress, review, awaiting_approval, done, failed,
  Task, Db, update,
}
use eval_hive.Workflow.World.{World, all_subtasks_completed}

pub is_done : TaskStatus → Bool
is_done done = true
is_done _ = false

unfoldable pub is_failed : TaskStatus → Bool
is_failed failed = true
is_failed _ = false

abbrev status_text : TaskStatus → Text
status_text backlog = codes "backlog"
status_text ready = codes "ready"
status_text decomposing = codes "decomposing"
status_text in_progress = codes "in_progress"
status_text review = codes "review"
status_text awaiting_approval = codes "awaiting_approval"
status_text done = codes "done"
status_text failed = codes "failed"

module _ {J : Type 0} where
  -- select from tasks where id in ids
  pub load : List ℕ → Db J → List (Task J)
  load [] db = []
  load (k ∷ ks) db = let rest = load ks db in elim (db.tasks k) [ none ↦ rest | some t ↦ t ∷ rest ]

  pub all_done : List (Task J) → Bool
  unfolding is_done is_failed
  all_done [] = true
  all_done (t ∷ l) = (is_done t.status || is_failed t.status) && all_done l

  pub any_failed : List (Task J) → Bool
  unfolding is_failed
  any_failed [] = false
  any_failed (t ∷ l) = is_failed t.status || any_failed l

  -- (s.created_at or datetime.min, str(s.id))
  abbrev created : Task J → ℕ
  created t = elim t.created_at [ none ↦ 0 | some c ↦ suc c ]

  earlier : Task J → Task J → Bool
  earlier s t = ltb (created s) (created t) || (created s == created t && ltb s.id t.id)

  -- The first contaminated subtask in that order.
  first_contaminated : List (Task J) → Option (Task J)
  unfolding earlier
  first_contaminated [] = none
  first_contaminated (t ∷ l) =
      let rest = first_contaminated l in
      if is_contaminated t.failure_type
      then (elim rest [ none ↦ some t | some s ↦ if earlier s t then some s else some t ])
      else rest

  rolled_up_failure : Option FailureType → List (Task J) → Option FailureType
  unfolding first_contaminated
  rolled_up_failure existing l = elim (first_contaminated l) [
    | none ↦ existing
    | some s ↦ merge_failure_type existing s.failure_type
  ]

  -- f"## {s.title} [{s.status}]\n{summary}", joined by empty lines
  rollup : (Text → Text) → List (Task J) → Text
  rollup strip [] = []
  rollup strip (t ∷ l) =
      let summary : Text = strip (elim t.result_summary [ none ↦ [] | some s ↦ s ]) in
      let part =
        codes "## "
        ++ (t.title
            ++ (codes " ["
                ++ (status_text t.status
                    ++ (codes "]\n"
                        ++ (if is_empty summary then codes "(no summary)" else summary))))) in
      let rest = rollup strip l in elim l [ [] ↦ part | ◌∷◌ u us ↦ part ++ (codes "\n\n" ++ rest) ]

  has_summary : Task J → Bool
  has_summary t = elim t.result_summary [ none ↦ false | some s ↦ not (is_empty s) ]

  -- The parent when all its subtasks, `l`, have ended.
  unfoldable pub completed_parent : (Text → Text) → ℕ → List (Task J) → Task J → Task J
  unfolding rolled_up_failure rollup has_summary
  completed_parent strip now l parent = record parent {
    status = if any_failed l then failed else done;
    failure_type = rolled_up_failure parent.failure_type l;
    result_summary =
        if parent.benchmark_mode && not (has_summary parent)
        then some (take 20000 (rollup strip l))
        else parent.result_summary;
    completed_at = some now;
  }

  unfoldable pub check_parent_task_completion : (Text → Text) → ℕ → Task J → World J → World J
  unfolding load all_done completed_parent
  check_parent_task_completion strip now t w = elim t.parent_id [
    | none ↦ w
    | some p ↦ elim (w.db.tasks p) [
      | none ↦ w
      | some parent ↦
          let l = load (w.db.children p) w.db in
          let parent' = completed_parent strip now l parent in
          if all_done l
          then record {
            db = record (w.db) { tasks = update w.db.tasks p (some parent') };
            log =
                record {
                  task_id = p;
                  attempt_id = none;
                  happening = all_subtasks_completed parent'.status;
                }
                ∷ w.log;
          }
          else w
    ]
  ]
