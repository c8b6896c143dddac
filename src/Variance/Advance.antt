-- ===== src/Variance/Advance.antt =====
-- `run_variance`, `advance_variance_run` and `advance_active_runs` of backend/app/quality/variance.py. A step ends
-- with the committed tables and run, and tells whether it raised.
use eval_hive.Base.{
  bool_eq, ℕ, suc, zero, ◌+◌, ◌-◌, Bool, true, false, ◌&&◌, ◌||◌, not, Option, none, some, List, [],
  ◌∷◌, ◌++◌, ◌==◌, nat_eq, if◌then◌else◌, length, min, ltb, leb,
}
use eval_hive.Rerun.{Db, Task, QualityRecord, Profile}
use eval_hive.Variance.{
  Run, Spec, Services, inflight_target, Summary, running, count_success, load_children, summary,
  is_ended, count_in_flight, evaluate_children, RunStatus, is_success, count_failed, make_child,
  no_runs_executed, accumulated_cost, pending, is_empty,
}

pub record Step (J : Type 0) : Type 0 where
  pub db : Db J
  pub run : Run
  pub raised : Bool

-- What a caller of `run_variance` may give.
pub record Request : Type 0 where
  pub workspace_id : ℕ
  pub source_task_id : Option ℕ
  pub source_spec : Option Spec
  pub n : ℕ
  pub parallel : Bool
  pub cost_cap_usd : Option ℕ
  pub template_id : Option ℕ

is_some : Option ℕ → Bool
is_some none = false
is_some (some k) = true

has_spec : Option Spec → Bool
has_spec none = false
has_spec (some s) = true

abbrev scores : (QualityRecord → Option Profile) → Option QualityRecord → List ℕ
scores field none = []
scores field (some r) = elim (field r) [
  | none ↦ []
  | some p ↦ elim p.score [ none ↦ [] | some s ↦ s ∷ [] ]
]

pub is_cost_exceeded : Run → Bool
is_cost_exceeded run = elim run.cost_cap_usd [
  | none ↦ false
  | some cap ↦ leb cap run.accumulated_cost_usd
]

-- The row of a new run.
unfoldable pub new_run : Request → Option ℕ → Run
new_run r template = record {
  workspace_id = r.workspace_id;
  source_task_id = r.source_task_id;
  source_spec = r.source_spec;
  template_id = template;
  n = r.n;
  parallel = r.parallel;
  cost_cap_usd = r.cost_cap_usd;
  status = pending;
  child_task_ids = [];
  accumulated_cost_usd = 0;
  aggregate = none;
  completed_at = none;
}

module _ {J : Type 0} where
  -- The scores of the children that succeeded.
  collect : (QualityRecord → Option Profile) → Db J → List (Task J) → List ℕ
  collect field db [] = []
  collect field db (t ∷ l) =
      (if is_success t.status then scores field (db.records t.id) else []) ++ collect field db l

  -- `_aggregate`
  pub aggregate : Db J → Run → List (Task J) → Bool → Summary
  unfolding collect
  aggregate db run children capped = record {
    n_requested = run.n;
    n_executed = length children;
    n_success = count_success children;
    n_failed = count_failed children;
    accumulated_cost_usd = run.accumulated_cost_usd;
    capped = capped;
    outcome_scores = collect (λ r. r.quality) db children;
    trajectory_scores = collect (λ r. r.trajectory) db children;
  }

  -- `_finalize`
  unfoldable pub finalize : Services J → Db J → Run → List (Task J) → Bool → Run
  unfolding aggregate
  finalize sv db run children over_cap = record run {
    aggregate = some (summary (aggregate db run children over_cap));
    status = if over_cap then RunStatus.capped else RunStatus.done;
    completed_at = some sv.now;
  }

  -- m more children, of which the first has the index idx. Each is committed by `make_child`, with what the
  -- run was before its identifier was noted: `committed` is what a rollback leads back to.
  unfoldable pub create_children : Services J → ℕ → ℕ → Db J → Run → Run → Step J
  create_children sv zero idx db committed run = record {
    db = db;
    run = record run { status = running };
    raised = false;
  }
  create_children sv (suc m) idx db committed run = elim (make_child sv.texts run idx db) [
    | none ↦ record { db = db; run = committed; raised = true }
    | some (db', k) ↦
        create_children sv m (idx + 1) db' run
          (record run { child_task_ids = run.child_task_ids ++ (k ∷ []) })
  ]

  -- How many children a step makes: max(0, target - in flight), and at most those that are missing.
  unfoldable pub to_create : Services J → Run → List (Task J) → ℕ
  unfolding inflight_target is_cost_exceeded
  to_create sv run children =
      if ltb (length children) run.n && not (is_cost_exceeded run)
      then min (inflight_target sv run.parallel - count_in_flight children)
          (run.n - length children)
      else 0

  -- The end of a step that makes no child.
  unfoldable pub conclude : Services J → Db J → Run → List (Task J) → Step J
  unfolding is_cost_exceeded finalize
  conclude sv db run children =
      let stop = is_cost_exceeded run || leb run.n (length children) in
      if stop && (count_in_flight children == 0)
      then (if length children == 0
          then record {
            db = db;
            run = record run {
              status = RunStatus.failed;
              aggregate = some no_runs_executed;
              completed_at = some sv.now;
            };
            raised = false;
          }
          else record {
            db = db;
            run = finalize sv db run children (is_cost_exceeded run && ltb (length children) run.n);
            raised = false;
          })
      else record { db = db; run = record run { status = running }; raised = false }

  unfoldable pub advance_variance_run : Services J → Db J → Run → Step J
  unfolding to_create conclude create_children
  advance_variance_run sv db run =
      let children = load_children db run.child_task_ids in
      let db1 = evaluate_children sv children db in
      let run1 : Run = record run { accumulated_cost_usd = accumulated_cost db1 children } in
      let m = to_create sv run1 children in
      if is_ended run.status
      then record { db = db; run = run; raised = false }
      else if m == 0
      then conclude sv db1 run1 children
      else create_children sv m (length children) db1 run run1

  -- `advance_active_runs`: every run that has not ended, one after the other, and how many did not raise.
  advance_active_runs : Services J → Db J → List Run → Db J × (List Run × ℕ)
  unfolding advance_variance_run
  advance_active_runs sv db [] = (db, ([], 0))
  advance_active_runs sv db (run ∷ runs) =
      let s : Step J =
        if is_ended run.status
        then record { db = db; run = run; raised = true }
        else advance_variance_run sv db run in
      let rest = advance_active_runs sv s.db runs in
      (rest.0, (s.run ∷ rest.1.0, (if s.raised then 0 else 1) + rest.1.1))

  -- The template of the run, `none` where the source is not one of the workspace or has no title.
  pub resolve_template : Db J → Request → Option (Option ℕ)
  resolve_template db r = elim r.source_task_id [
    | none ↦ elim r.source_spec [
      | none ↦ none
      | some s ↦ if is_empty s.title then none else some r.template_id
    ]
    | some k ↦ elim (db.tasks k) [
      | none ↦ none
      | some source ↦
          if source.workspace_id == r.workspace_id
          then some (elim r.template_id [ none ↦ source.template_id | some t ↦ some t ])
          else none
    ]
  ]

  -- `run_variance`: `none` where it raises before it stores a run.
  unfoldable pub run_variance : Services J → Db J → Request → Option (Step J)
  unfolding is_some has_spec resolve_template advance_variance_run new_run
  run_variance sv db r =
      if (is_some r.source_task_id == has_spec r.source_spec) || not (leb 2 r.n && leb r.n 50)
      then none
      else elim (resolve_template db r) [
        | none ↦ none
        | some template ↦ some (advance_variance_run sv db (new_run r template))
      ]
