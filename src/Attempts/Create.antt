-- ===== src/Attempts/Create.antt =====
-- `create_attempt` and `mark_attempt_lost` of backend/app/harnesses/attempts.py.
use eval_hive.Base.{
  ℕ, ◌+◌, Bool, false, not, ◌&&◌, ◌||◌, Option, none, some, List, [], ◌∷◌, Text, ◌==◌,
  if◌then◌else◌, max, nat_eq, text_eq,
}
use eval_hive.Attempts.Model.{
  created, lost, is_terminal, Manifest, Resource, mcp, RunSpec, open_delivery, interrupted, pending,
  transport_lost, Attempt,
}
use eval_hive.Attempts.Store.{
  not_found, invalid_scope, protocol_error, inline_credentials, inline_secrets, invalid_spec,
  results_archived, attempt_active, integrity_error, Result, ok, err, ◌>>=◌, ◌>>◌, raise_if, Task,
  Db, Sdk, update, find_attempt, save_attempt,
}
use eval_hive.Attempts.Ingest.{locked_attempt, abandon, runner_stopped}

-- An MCP resource that carries `env` or `headers`.
unfoldable pub inline_mcp : List Resource → Bool
inline_mcp [] = false
inline_mcp (r ∷ rs) = (elim r.kind [ mcp ↦ r.env || r.headers | _ ↦ false ]) || inline_mcp rs

module _ {J : Type 0} where
  -- select max(number) where task_id = t, 0 where there is none
  unfoldable pub max_number : ℕ → List (Attempt J) → ℕ
  max_number t [] = 0
  max_number t (a ∷ l) = if a.task_id == t then max a.number (max_number t l) else max_number t l

  -- The task of the workspace, not archived.
  unfoldable pub open_task : ℕ → ℕ → Db J → Result (Task J)
  open_task workspace_id task_id db = elim (db.tasks task_id) [
    | none ↦ err not_found
    | some t ↦
        if not (t.workspace_id == workspace_id)
        then err not_found
        else if db.archived task_id
        then err results_archived
        else ok t
  ]

  unfoldable pub check_profile : ℕ → Option ℕ → Manifest J → Db J → Result (Unit {0})
  check_profile workspace_id none manifest db = ok tt
  check_profile workspace_id (some p) manifest db = elim (db.profiles p) [
    | none ↦ err invalid_scope
    | some profile ↦
        if not (profile.workspace_id == workspace_id)
        then err invalid_scope
        else if not (
            (profile.connector_id == manifest.id)
            && (profile.connector_version == manifest.version))
        then err invalid_spec
        else ok tt
  ]

  -- The current attempt of a task, where the row is still there, has ended.
  unfoldable pub check_previous : Option ℕ → Db J → Result (Unit {0})
  unfolding find_attempt
  check_previous none db = ok tt
  check_previous (some c) db = elim (find_attempt c db.attempts) [
    | none ↦ ok tt
    | some previous ↦ if is_terminal previous.status then ok tt else err attempt_active
  ]

  unfoldable pub new_attempt :
      (attempt_id workspace_id task_id number : ℕ) → Option ℕ → Manifest J → RunSpec J → Attempt J
  new_attempt attempt_id workspace_id task_id number profile_id manifest run_spec = record {
    id = attempt_id;
    workspace_id = workspace_id;
    task_id = task_id;
    number = number;
    profile_id = profile_id;
    manifest = manifest;
    run_spec = run_spec;
    status = created;
    next_seq = 0;
    result = none;
    completeness = record {
      event_delivery = open_delivery;
      task_projection = false;
      workflow = pending;
      review_started_at = 0;
      review = none;
    };
    started_at = none;
    prepared_at = none;
    finished_at = none;
    last_heartbeat_at = none;
  }

  -- The new row, and the reset of the task.
  unfoldable pub inserted : Task J → Attempt J → Db J → Db J
  inserted task a db = record db {
    attempts = a ∷ db.attempts;
    tasks = update db.tasks a.task_id (
        some (record task {
          current_attempt_id = some a.id;
          cost_usd = none;
          token_usage = none;
          result_summary = none;
          result_files = [];
        }));
  }

  -- The insertion, which the primary key may refuse.
  unfoldable pub insert_attempt : Task J → Attempt J → Db J → Result (Attempt J × Db J)
  unfolding find_attempt
  insert_attempt task a db = elim (find_attempt a.id db.attempts) [
    | some other ↦ err integrity_error
    | none ↦ ok (a, inserted task a db)
  ]

module _ {J : Type 0} (sdk : Sdk J) where
  unfoldable pub check_spec : ℕ → ℕ → Manifest J → RunSpec J → Result ℕ
  unfolding inline_mcp
  check_spec workspace_id task_id manifest run_spec = do
    raise_if (not (sdk.valid_run manifest run_spec)) protocol_error
    raise_if (sdk.has_secrets run_spec.config manifest.config_schema) inline_secrets
    elim run_spec.model [
      | none ↦ ok tt
      | some m ↦ raise_if (sdk.has_secrets m sdk.any_object) inline_secrets
    ]
    raise_if (inline_mcp run_spec.resources) inline_credentials
    attempt_id ← elim run_spec.attempt_id [ none ↦ err invalid_spec | some k ↦ ok k ]
    raise_if (not ((run_spec.workspace_id == workspace_id) && (run_spec.task_id == task_id)))
        invalid_scope
    ok attempt_id

  unfoldable pub create_attempt :
      (workspace_id task_id : ℕ)
      → Manifest J
      → RunSpec J
      → Option ℕ
      → Db J
      → Result (Attempt J × Db J)
  unfolding check_spec open_task check_profile check_previous
  create_attempt workspace_id task_id manifest run_spec profile_id db = do
    attempt_id ← check_spec workspace_id task_id manifest run_spec
    task ← open_task workspace_id task_id db
    check_profile workspace_id profile_id manifest db
    check_previous task.current_attempt_id db
    insert_attempt task
        (new_attempt attempt_id workspace_id task_id (max_number task_id db.attempts + 1) profile_id
          manifest run_spec)
        db

module _ {J : Type 0} where
  unfoldable pub lose : ℕ → Text → Attempt J → Attempt J
  lose now reason a = record a {
    status = lost;
    finished_at = some now;
    result = some (transport_lost reason);
    completeness = record (a.completeness) { event_delivery = interrupted };
  }

  unfoldable pub mark_attempt_lost : ℕ → ℕ → Text → Db J → Result (Db J)
  mark_attempt_lost now attempt_id reason db = do
    a ← locked_attempt attempt_id db
    ok (
        if is_terminal a.status then db else record db {
          attempts = save_attempt (lose now reason a) db.attempts;
          commands = abandon runner_stopped attempt_id db.commands;
        })
