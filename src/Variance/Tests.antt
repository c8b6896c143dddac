-- ===== src/Variance/Tests.antt =====
-- A task of an experiment copied, and a run of two children from a specification.
use eval_hive.Base.{
  if◌then◌else◌, nat_eq, ◌==◌, ℕ, suc, ◌≡◌, ◌<◌, ◌≤◌, ◌-◌, ◌+◌, refl, true, false, Option, none,
  some, [], ◌∷◌, codes, text_beq, length, arith, ap, subst,
}
use eval_hive.Loops.Keys.{is_empty}
use eval_hive.Attempts.Store.{TaskStatus}
use eval_hive.Rerun.{Texts, Task, Db, flag, text}
use eval_hive.Rerun.Clone.{Overrides, clone_task_for_rerun}
use eval_hive.Rerun.Copies.{IsCopy, clone_task_for_rerun-IsCopy}
use eval_hive.Variance.{
  make_child, Run, Services, is_ended, load_children, evaluate_children, accumulated_cost,
  count_in_flight, inflight_target, pending, is_over,
}
use eval_hive.Variance.Advance.{
  Step, Request, new_run, run_variance, advance_variance_run, is_cost_exceeded,
}
use eval_hive.Variance.Ends.{IsSized, recosted, advance_variance_run-IsSized}
use eval_hive.Variance.Liveness.{Finishes, ticks, run_variance_ends}

abbrev texts : Texts
texts = record { uuid = λ t. none; text_of = λ k. codes "id" }

abbrev source : Task ℕ
source = record {
  id = 4;
  workspace_id = 9;
  title = codes "scenario";
  description = none;
  priority = 1;
  reference_answer = none;
  canonical_trajectory = none;
  capability_spec = none;
  replay_of_task_id = none;
  run_config = some ((codes "experiment", flag true) ∷ (codes "seed", text (codes "7")) ∷ []);
  template_id = some 2;
  harness_profile_id = none;
  execution_mode = none;
  current_attempt_id = none;
  max_retries = 3;
  status = TaskStatus.done;
  cost_usd = some 5;
}

abbrev tables : Db ℕ
tables = record {
  tasks = λ i. if i == 4 then some source else none;
  next_id = 10;
  profile_workspace = λ k. none;
  harness_of = λ k. none;
  records = λ k. none;
}

abbrev overrides : Overrides ℕ
overrides = record {
  config = none;
  title = none;
  description = none;
  title_suffix = codes " again";
  max_retries = 0;
  status = TaskStatus.ready;
}

cloned : Option (Db ℕ × ℕ)
cloned = clone_task_for_rerun texts tables source overrides

abbrev or_tables : Option (Db ℕ × ℕ) → Db ℕ × ℕ
or_tables none = (tables, 0)
or_tables (some r) = r

cloned-some : clone_task_for_rerun texts tables source overrides ≡ some (or_tables cloned)
unfolding clone_task_for_rerun text_beq cloned
cloned-some = refl

clone_task_for_rerun-IsCopy_example :
    IsCopy tables source overrides (or_tables cloned).0 (or_tables cloned).1
clone_task_for_rerun-IsCopy_example =
    clone_task_for_rerun-IsCopy texts tables source overrides cloned-some

-- No judges, two tasks at once.
abbrev services : Services ℕ
services = record {
  texts = texts;
  build = λ t r. none;
  evaluate_quality = λ t. none;
  evaluate_trajectory = λ t. none;
  concurrency = some 2;
  now = 50;
}

abbrev request : Request
request = record {
  workspace_id = 9;
  source_task_id = none;
  source_spec =
      some (record { title = codes "scenario"; description = []; reference_answer = none });
  n = 3;
  parallel = true;
  cost_cap_usd = some 100;
  template_id = none;
}

abbrev run : Run
run = record {
  workspace_id = 9;
  source_task_id = none;
  source_spec = none;
  template_id = none;
  n = 3;
  parallel = true;
  cost_cap_usd = some 100;
  status = pending;
  child_task_ids = 4 ∷ [];
  accumulated_cost_usd = 0;
  aggregate = none;
  completed_at = none;
}

run-IsSized : IsSized tables run
run-IsSized = record { children_there = ((source, refl), tt); at_most_n = omega arith }

advance_variance_run-IsSized_example :
    let children = load_children tables run.child_task_ids in
    let cost = accumulated_cost (evaluate_children services children tables) children in
    let s = advance_variance_run services tables run in
    (is_ended run.status ≡ true → (s.run ≡ run) × (s.db ≡ tables))
    × IsSized s.db s.run
    × (s.run.n ≡ run.n)
    × (length run.child_task_ids < length s.run.child_task_ids
        → (is_cost_exceeded (recosted cost run) ≡ false)
          × (count_in_flight children + (length s.run.child_task_ids - length run.child_task_ids)
              ≤ inflight_target services run.parallel))
advance_variance_run-IsSized_example = advance_variance_run-IsSized services tables run run-IsSized

abbrev finish : Option (Task ℕ) → Option (Task ℕ)
finish none = none
finish (some t) = some (record t { status = TaskStatus.done })

abbrev between : Db ℕ → Db ℕ
between db = record db { tasks = λ i. finish (db.tasks i) }

finished_over : (o : Option (Task ℕ)) (t : Task ℕ) → finish o ≡ some t → is_over t.status ≡ true
unfolding is_over
finished_over none t h = cc
finished_over (some u) t h =
    let same : record u { status = TaskStatus.done } ≡ t = ground arith in
    subst (λ (x : Task ℕ). is_over x.status ≡ true) same refl

between-Finishes : Finishes between
between-Finishes db = (
  (λ i old. (record (old.0) { status = TaskStatus.done }, ap finish old.1)),
  λ i t h. finished_over (db.tasks i) t h,
)

first_step : Step ℕ
first_step = advance_variance_run services tables (new_run request none)

accepted : run_variance services tables request ≡ some first_step
unfolding run_variance first_step is_empty
accepted = refl

run_variance_ends_example :
    is_ended (ticks (λ f. services) between (suc 3) first_step.db first_step.run).status ≡ true
run_variance_ends_example =
    run_variance_ends services (λ f. services) between tables request first_step accepted refl
      between-Finishes

-- Two children at first, the third after them.
two_first : length first_step.run.child_task_ids ≡ 2
unfolding first_step advance_variance_run is_ended new_run load_children accumulated_cost
    count_in_flight make_child
two_first = refl
