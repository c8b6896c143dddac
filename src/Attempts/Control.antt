-- ===== src/Attempts/Control.antt =====
-- `queue_command`, `acknowledge_command` and `prepare_configuration` of
-- backend/app/harnesses/attempts.py.
pub mod Repeats
use eval_hive.Base.{
  ℕ, ◌≡◌, Bool, true, false, not, ◌&&◌, ◌||◌, Option, none, some, List, [], ◌∷◌, Text, codes, ◌==◌,
  if◌then◌else◌, nat_eq, text_eq, bool_eq, Eq,
}
use eval_hive.Attempts.Model.{
  Status, created, stopping, is_terminal, CommandStatus, queued, acknowledged, failed, Receipt,
  Command, Capability, native, emulated, Manifest, RunSpec, Attempt,
}
use eval_hive.Attempts.Store.{
  Error, not_found, protocol_error, command_conflict, attempt_finished, unsupported_capability,
  configuration_conflict, already_started, inline_secrets, Result, ok, err, ◌>>=◌, ◌>>◌, raise_if,
  Db, Sdk, find_command, save_command, find_attempt, save_attempt,
}
use eval_hive.Attempts.Ingest.{locked_attempt}

abbrev pub abort : Text
abort = codes "abort"

module _ {J : Type 0} where
  -- `capabilities.get(name) in ("native", "emulated")`
  is_capable : Text → Manifest J → Bool
  is_capable name m = elim (m.capabilities name) [
    | some native ↦ true
    | some emulated ↦ true
    | _ ↦ false
  ]

  -- `commands.get(name, {}).get("input_schema")`
  input_schema : Text → Manifest J → Option J
  input_schema name m = elim (m.commands name) [ none ↦ none | some schema ↦ schema ]

module _ {J : Type 0} (sdk : Sdk J) where
  -- The schema of a command. abort has one even if it is not declared.
  schema_of : Text → Manifest J → Option J
  unfolding input_schema abort
  schema_of name m = elim (input_schema name m) [
    | some schema ↦ some schema
    | none ↦ if name == abort then some sdk.no_arguments else none
  ]

  unfoldable pub check_command : Text → J → Attempt J → Result (Unit {0})
  unfolding schema_of is_capable abort
  check_command name payload a = do
    raise_if (is_terminal a.status) attempt_finished
    raise_if (not (name == abort) && not (is_capable name a.manifest)) unsupported_capability
    schema ← elim (schema_of name a.manifest) [
      | none ↦ err unsupported_capability
      | some schema ↦ ok schema
    ]
    raise_if
        (not (
          sdk.valid_run (record (a.manifest) { config_schema = schema })
            (record (a.run_spec) { config = payload; required_capabilities = [] })))
        protocol_error

-- The answer to a command: its identifier, its status, and whether it was there.
pub record Queued : Type 0 where
  pub id : ℕ
  pub status : CommandStatus
  pub duplicate : Bool

module _ {J : Type 0} where
  unfoldable pub new_command : ℕ → ℕ → Text → J → Command J
  new_command command_id attempt_id name payload = record {
    id = command_id;
    attempt_id = attempt_id;
    name = name;
    payload = payload;
    status = queued;
    result = none;
    error = none;
    acknowledged_at = none;
  }

  -- The attempt after a command was queued: abort stops it.
  unfoldable pub stop : Text → Attempt J → Attempt J
  unfolding abort
  stop name a = if name == abort then record a { status = stopping } else a

unfoldable pub may_prepare : Status → Bool
may_prepare created = true
may_prepare stopping = true
may_prepare _ = false

module _ {J : Type 0} where
  pub prepared_spec : J → RunSpec J → RunSpec J
  prepared_spec config spec = record spec {
    config = config;
    requested_config = some spec.config;
    prepared = true;
  }

  unfoldable pub acknowledge : ℕ → Receipt J → Command J → Command J
  acknowledge now r c = record c {
    result = some r;
    status = if r.ok then acknowledged else failed;
    error = if r.ok then none else some r.message;
    acknowledged_at = some now;
  }

  -- The command of the attempt.
  unfoldable pub own_command : ℕ → ℕ → Db J → Result (Command J)
  unfolding find_command
  own_command command_id attempt_id db = elim (find_command command_id db.commands) [
    | none ↦ err not_found
    | some c ↦ if c.attempt_id == attempt_id then ok c else err not_found
  ]

module _ {J : Type 0} ⦃eq : Eq J⦄ where
  same_command : ℕ → Text → J → Command J → Bool
  same_command attempt_id name payload c =
      (c.attempt_id == attempt_id) && (c.name == name) && (c.payload == payload)

  -- A command whose identifier is known.
  unfoldable pub queue_again : ℕ → Text → J → Command J → Db J → Result (Queued × Db J)
  unfolding same_command
  queue_again attempt_id name payload c db =
      if same_command attempt_id name payload c
      then ok (record { id = c.id; status = c.status; duplicate = true }, db)
      else err command_conflict

  same_receipt : Receipt J → Receipt J → Bool
  same_receipt r s = r.body == s.body

  unfoldable pub acknowledge_once : ℕ → Receipt J → Command J → Db J → Result (Bool × Db J)
  unfolding same_receipt save_command
  acknowledge_once now r c db = elim c.result [
    | some s ↦ if same_receipt s r then ok (true, db) else err command_conflict
    | none ↦ ok (false, record db { commands = save_command (acknowledge now r c) db.commands })
  ]

  prepare_again : J → Attempt J → Db J → Result (Bool × Db J)
  prepare_again config a db =
      if a.run_spec.config == config then ok (true, db) else err configuration_conflict

module _ {J : Type 0} ⦃eq : Eq J⦄ (sdk : Sdk J) where
  unfoldable pub queue_new : ℕ → ℕ → Text → J → Attempt J → Db J → Result (Queued × Db J)
  queue_new command_id attempt_id name payload a db = do
    check_command sdk name payload a
    ok (
      record { id = command_id; status = queued; duplicate = false },
      record db {
        commands = new_command command_id attempt_id name payload ∷ db.commands;
        attempts = save_attempt (stop name a) db.attempts;
      },
    )

  unfoldable pub queue_command : ℕ → ℕ → Text → J → Db J → Result (Queued × Db J)
  unfolding queue_again queue_new
  queue_command command_id attempt_id name payload db = do
    a ← locked_attempt attempt_id db
    elim (find_command command_id db.commands) [
      | some c ↦ queue_again attempt_id name payload c db
      | none ↦ queue_new command_id attempt_id name payload a db
    ]

  -- The result says whether the acknowledgement was there.
  unfoldable pub acknowledge_command : ℕ → ℕ → ℕ → Receipt J → Db J → Result (Bool × Db J)
  unfolding own_command acknowledge_once
  acknowledge_command now attempt_id command_id r db = do
    raise_if (not (sdk.valid_response r)) protocol_error
    raise_if (not (r.id == command_id)) protocol_error
    a ← locked_attempt attempt_id db
    c ← own_command command_id attempt_id db
    acknowledge_once now r c db

  -- The fingerprints that the code records of the prepared run are not modelled.
  unfoldable pub prepare_new : ℕ → J → Attempt J → Db J → Result (Bool × Db J)
  unfolding may_prepare
  prepare_new now config a db = do
    raise_if (not (may_prepare a.status && (a.next_seq == 0))) already_started
    raise_if (not (sdk.valid_run a.manifest (prepared_spec config a.run_spec))) protocol_error
    raise_if (sdk.has_secrets config a.manifest.config_schema) inline_secrets
    ok (
      false,
      record db {
        attempts =
            save_attempt
              (record a { run_spec = prepared_spec config a.run_spec; prepared_at = some now })
              db.attempts;
      },
    )

  -- The result says whether the configuration was saved before.
  unfoldable pub prepare_configuration : ℕ → ℕ → J → Db J → Result (Bool × Db J)
  unfolding prepare_again prepare_new
  prepare_configuration now attempt_id config db = do
    a ← locked_attempt attempt_id db
    elim a.prepared_at [ some t ↦ prepare_again config a db | none ↦ prepare_new now config a db ]
