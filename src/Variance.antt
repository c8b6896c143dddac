-- ===== src/Variance.antt =====
-- Runs of one scenario many times: backend/app/quality/variance.py, with the helpers that it shares of
-- backend/app/quality/runs_common.py. Costs are numbers of the smallest unit.
pub mod Advance
pub mod Children
pub mod Ends
pub mod Liveness
mod Tests
use eval_hive.Base.{
  ℕ, suc, zero, ◌+◌, ◌-◌, ◌≤◌, Bool, true, false, ◌&&◌, ◌||◌, not, Option, none, some, List, [],
  ◌∷◌, ◌++◌, Text, codes, ◌==◌, nat_eq, text_eq, if◌then◌else◌, take, length, max, min, ltb, leb,
}
use eval_hive.Loops.Keys.{is_empty, decimal}
use eval_hive.Attempts.Store.{TaskStatus, ready, awaiting_approval, update}
use eval_hive.Rerun.{Texts, Db, Task, Value, text, Config, Profile, QualityRecord}
use eval_hive.Rerun.Clone.{Overrides, clone_task_for_rerun, add_task}

pub data RunStatus : Type 0 where
  pending running done capped failed : RunStatus

-- `_TERMINAL_RUN`
pub is_ended : RunStatus → Bool
is_ended RunStatus.done = true
is_ended capped = true
is_ended RunStatus.failed = true
is_ended _ = false

pub record Spec : Type 0 where
  pub title : Text
  pub description : Text
  pub reference_answer : Option Text

-- What is aggregated, without the figures that are no whole numbers: the counts, and the scores that
-- their distributions are made of.
pub record Summary : Type 0 where
  pub n_requested : ℕ
  pub n_executed : ℕ
  pub n_success : ℕ
  pub n_failed : ℕ
  pub accumulated_cost_usd : ℕ
  pub capped : Bool
  pub outcome_scores : List ℕ
  pub trajectory_scores : List ℕ

pub data Aggregate : Type 0 where
  no_runs_executed : Aggregate
  summary : Summary → Aggregate

-- `VarianceRun`
pub record Run : Type 0 where
  pub workspace_id : ℕ
  pub source_task_id : Option ℕ
  pub source_spec : Option Spec
  pub template_id : Option ℕ
  pub n : ℕ
  pub parallel : Bool
  pub cost_cap_usd : Option ℕ
  pub status : RunStatus
  pub child_task_ids : List ℕ
  pub accumulated_cost_usd : ℕ
  pub aggregate : Option Aggregate
  pub completed_at : Option ℕ

-- `SUCCESS_TASK` and `TERMINAL_TASK`
pub is_success : TaskStatus → Bool
is_success TaskStatus.done = true
is_success awaiting_approval = true
is_success _ = false

unfoldable pub is_failed : TaskStatus → Bool
is_failed TaskStatus.failed = true
is_failed _ = false

pub is_over : TaskStatus → Bool
unfolding is_success is_failed
is_over s = is_success s || is_failed s

-- `build_quality_record` with the record that was there, `none` where it raises; the judges, `none` where they
-- raise or none is set up; `int` of the setting max_concurrent_agents, 0 for negative numbers, `none` where
-- it raises; and the clock.
pub record Services (J : Type 0) : Type 0 where
  pub texts : Texts
  pub build : Task J → Option QualityRecord → Option QualityRecord
  pub evaluate_quality : Task J → Option Profile
  pub evaluate_trajectory : Task J → Option Profile
  pub concurrency : Option ℕ
  pub now : ℕ

abbrev pub or_profile : Option Profile → Option Profile → Option Profile
or_profile none p = p
or_profile (some q) p = some q

abbrev judge_cost : Option Profile → ℕ
judge_cost none = 0
judge_cost (some p) = p.judge_cost

suffix : Run → ℕ → Text
suffix run idx =
    codes " [variance " ++ (decimal (idx + 1) ++ (codes "/" ++ (decimal run.n ++ codes "]")))

module _ {J : Type 0} where
  pub ensure_child_evaluated : Services J → Task J → Db J → Db J
  ensure_child_evaluated sv t db = elim (sv.build t (db.records t.id)) [
    | none ↦ db
    | some r ↦ record db {
      records = update db.records t.id (
          some (record {
            quality = or_profile r.quality (sv.evaluate_quality t);
            trajectory = or_profile r.trajectory (sv.evaluate_trajectory t);
          }));
    }
  ]

  pub evaluate_children : Services J → List (Task J) → Db J → Db J
  unfolding ensure_child_evaluated
  evaluate_children sv [] db = db
  evaluate_children sv (t ∷ l) db =
      evaluate_children sv l (if is_success t.status then ensure_child_evaluated sv t db else db)

  -- `accumulated_cost`; no two children are the same.
  pub accumulated_cost : Db J → List (Task J) → ℕ
  accumulated_cost db [] = 0
  accumulated_cost db (t ∷ l) =
      (elim t.cost_usd [ none ↦ 0 | some c ↦ c ])
      + ((elim (db.records t.id) [
        | none ↦ 0
        | some r ↦ judge_cost r.quality + judge_cost r.trajectory
      ])
          + accumulated_cost db l)

  pub inflight_target : Services J → Bool → ℕ
  inflight_target sv parallel =
      if parallel then (elim sv.concurrency [ none ↦ 3 | some c ↦ max 1 c ]) else 1

  -- `_load_children`
  pub load_children : Db J → List ℕ → List (Task J)
  load_children db [] = []
  load_children db (k ∷ ks) =
      let rest = load_children db ks in elim (db.tasks k) [ none ↦ rest | some t ↦ t ∷ rest ]

  -- [c for c in children if c.status not in _TERMINAL_TASK], counted, and the same for other tests.
  pub count_in_flight : List (Task J) → ℕ
  count_in_flight [] = 0
  count_in_flight (t ∷ l) = (if is_over t.status then 0 else 1) + count_in_flight l

  pub count_success : List (Task J) → ℕ
  count_success [] = 0
  count_success (t ∷ l) = (if is_success t.status then 1 else 0) + count_success l

  pub count_failed : List (Task J) → ℕ
  count_failed [] = 0
  count_failed (t ∷ l) = (if is_failed t.status then 1 else 0) + count_failed l

  template_config : Texts → Run → Option (Config J)
  template_config tx run = elim run.template_id [
    | none ↦ none
    | some k ↦ some ((codes "template_id", text (tx.text_of k)) ∷ [])
  ]

  -- A task from the specification of the run.
  pub task_of_spec : Texts → Run → ℕ → Task J
  unfolding suffix template_config
  task_of_spec tx run idx =
      let spec : Spec = elim run.source_spec [
        | none ↦ record { title = codes "Variance run"; description = []; reference_answer = none }
        | some s ↦ s
      ] in
      record {
        id = 0;
        workspace_id = run.workspace_id;
        title = take 500 (spec.title ++ suffix run idx);
        description = some spec.description;
        priority = 0;
        reference_answer = spec.reference_answer;
        canonical_trajectory = none;
        capability_spec = none;
        replay_of_task_id = none;
        run_config = template_config tx run;
        template_id = run.template_id;
        harness_profile_id = none;
        execution_mode = none;
        current_attempt_id = none;
        max_retries = 0;
        status = ready;
        cost_usd = none;
      }

  -- `_make_child`, with the identifier of the task.
  pub make_child : Texts → Run → ℕ → Db J → Option (Db J × ℕ)
  unfolding suffix template_config task_of_spec
  make_child tx run idx db = elim run.source_task_id [
    | none ↦ some (add_task (task_of_spec tx run idx) db)
    | some k ↦ elim (db.tasks k) [
      | none ↦ none
      | some source ↦ clone_task_for_rerun tx db source record {
        config = template_config tx run;
        title = none;
        description = none;
        title_suffix = suffix run idx;
        max_retries = 0;
        status = ready;
      }
    ]
  ]
