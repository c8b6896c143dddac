-- ===== src/Workflow/Tests.antt =====
-- One finished task, reviewed by services that approve, reject, or fail, and the theorems at it.
use eval_hive.Base.{
  ℕ, ◌≡◌, ◌≤◌, refl, true, false, none, some, [], ◌∷◌, codes, nat_eq, if◌then◌else◌, ◌==◌,
  Bool-cases, Bool, Option, inl, arith, subst, inr,
}
use eval_hive.Attempts.Model.{
  Attempt, native, Manifest, RunSpec, orchestrated, pending, review_running, archived,
  WorkflowState, Status, contiguous, is_terminal,
}
use eval_hive.Attempts.Store.{save_attempt, Task, TaskStatus, ok}
use eval_hive.Attempts.Ingest.{locked_attempt}
use eval_hive.Workflow.World.{World, Services, relock}
use eval_hive.Workflow.Stages.{is_review, return_world, mark}
use eval_hive.Workflow.Continue.{continue_workflow}
use eval_hive.Workflow.Ended.{Ended}
use eval_hive.Workflow.Settle.{continue_workflow_settles}
use eval_hive.Workflow.Promises.{
  HasBoundedRetries, continue_workflow_retries, interrupted_review_lost,
}

abbrev manifest : Manifest ℕ
manifest = record {
  id = 7 ∷ [];
  version = 1 ∷ [];
  protocol_version = 1 ∷ [];
  config_schema = 0;
  capabilities = λ name. some native;
  commands = λ name. some (some 0);
}

abbrev spec : RunSpec ℕ
spec = record {
  attempt_id = some 5;
  workspace_id = 9;
  task_id = 1;
  config = 0;
  model = none;
  resources = [];
  required_capabilities = [];
  execution_mode = some orchestrated;
  requested_config = none;
  prepared = true;
}

abbrev task : TaskStatus → Task ℕ
task s = record {
  id = 1;
  workspace_id = 9;
  parent_id = none;
  title = [];
  created_at = none;
  status = s;
  failure_type = none;
  retry_count = 0;
  max_retries = 1;
  current_attempt_id = some 5;
  benchmark_mode = false;
  completed_at = some 3;
  cost_usd = none;
  token_usage = none;
  result_summary = none;
  result_files = [];
  orchestrator_feedback = none;
}

abbrev attempt : WorkflowState → Attempt ℕ
attempt s = record {
  id = 5;
  workspace_id = 9;
  task_id = 1;
  number = 1;
  profile_id = none;
  manifest = manifest;
  run_spec = spec;
  status = Status.success;
  next_seq = 2;
  result = none;
  completeness = record {
    event_delivery = contiguous;
    task_projection = true;
    workflow = s;
    review_started_at = 10;
    review = none;
  };
  started_at = none;
  prepared_at = none;
  finished_at = none;
  last_heartbeat_at = none;
}

abbrev world : TaskStatus → WorkflowState → World ℕ
world s state = record {
  db = record {
    tasks = λ k. if k == 1 then some (task s) else none;
    attempts = attempt state ∷ [];
    rows = λ k. [];
    commands = [];
    profiles = λ k. none;
    archived = λ k. false;
    children = λ k. [];
  };
  log = [];
}

-- Services of a worker that is alone: whether the storage works, and the answer of the review.
abbrev services : ℕ → Bool → Option Bool → Services ℕ
services now storage answer = record {
  now = now;
  later = now;
  evaluate = λ t. some (record { approved = answer; feedback = none });
  storage = storage;
  others = λ m w. w;
  error_code = λ j. none;
  strip = λ t. t;
}

locked_pending :
    relock 5 (world TaskStatus.done pending) ≡ ok (attempt pending, task TaskStatus.done)
unfolding relock locked_attempt
locked_pending = refl

locked_running :
    relock 5 (world TaskStatus.review review_running)
    ≡ ok (attempt review_running, task TaskStatus.review)
unfolding relock locked_attempt
locked_running = refl

continue_workflow_settles_example :
    Ended 5
      (attempt pending)
      (continue_workflow (services 20 true (some false)) 5 (world TaskStatus.done pending)).world
    × ((again : Services ℕ)
        → continue_workflow again 5
            (continue_workflow
              (services 20 true (some false))
              5
              (world TaskStatus.done pending)).world
          ≡ return_world
              (continue_workflow
                (services 20 true (some false))
                5
                (world TaskStatus.done pending)).world)
continue_workflow_settles_example =
    continue_workflow_settles (services 20 true (some false)) 5 (world TaskStatus.done pending)
      orchestrated (attempt pending) (task TaskStatus.done)
      record { stores = refl; alone = λ m w. refl } locked_pending (unfold is_terminal in refl) refl
      refl refl

-- The rejected result goes back to the queue.
rejected_once :
    (continue_workflow
        (services 20 true (some false))
        5
        (world TaskStatus.done pending)).world.db.tasks
      1
    ≡ some (record (task TaskStatus.ready) {
      retry_count = 1;
      completed_at = none;
      orchestrator_feedback = some (codes "Result did not meet requirements");
    })
unfolding continue_workflow locked_attempt is_terminal save_attempt is_review
rejected_once = refl

bounded : HasBoundedRetries (world TaskStatus.done pending)
bounded j t e = elim (Bool-cases (j == 1)) [
  | inl here ↦
      let same : task TaskStatus.done ≡ t = ground arith in
      subst (λ (u : Task ℕ). u.retry_count ≤ u.max_retries) same (omega arith)
  | inr there ↦ ground arith
]

continue_workflow_retries_example :
    HasBoundedRetries
      (continue_workflow (services 20 true (some false)) 5 (world TaskStatus.done pending)).world
continue_workflow_retries_example =
    continue_workflow_retries (services 20 true (some false)) 5 (world TaskStatus.done pending)
      (λ m v h. h) bounded

interrupted_review_lost_example :
    relock 5
      (continue_workflow
        (services 400 true none)
        5
        (continue_workflow
          (services 310 false none)
          5
          (world TaskStatus.review review_running)).world).world
    ≡ ok (mark archived (attempt review_running), task TaskStatus.review)
interrupted_review_lost_example =
    interrupted_review_lost (services 310 false none) (services 400 true none) 5
      (world TaskStatus.review review_running) orchestrated (attempt review_running)
      (task TaskStatus.review) refl refl (λ m v. refl) locked_running (unfold is_terminal in refl)
      refl refl refl refl refl
