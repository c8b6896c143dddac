-- ===== src/Attempts/Ingest.antt =====
-- `locked_attempt` and `ingest_events` of backend/app/harnesses/attempts.py. The loop over a batch
-- works on the locked attempt, the rows of its journal and the command table.
pub mod Contiguous
pub mod Replay
pub mod Delivery
use eval_hive.Base.{
  ℕ, zero, suc, ◌+◌, ◌-◌, ◌≡◌, refl, Bool, true, false, not, ◌&&◌, ◌||◌, Option, none, some, List,
  [], ◌∷◌, map, Text, codes, ◌==◌, if◌then◌else◌, ltb, length, nat_eq, bool_eq, text_eq, Eq,
}
use eval_hive.Attempts.Model.{
  Status, created, running, stopping, is_terminal, Outcome, status_of, EventName, run_started,
  run_finished, other, is_started, is_finished, Observed, absent, malformed, at, Event, Row,
  CommandStatus, unknown, is_pending, Command, contiguous, reported, Attempt,
}
use eval_hive.Attempts.Store.{
  not_found, stale_attempt, invalid_scope, invalid_batch, protocol_error, event_conflict,
  attempt_finished, event_gap, invalid_lifecycle, invalid_timestamp, Result, ok, err, ◌>>=◌, ◌>>◌,
  raise_if, Db, Sdk, update, Task, find_attempt, save_attempt,
}

-- The texts that the code puts into `error` of a command.
abbrev attempt_ended : Text
attempt_ended = codes "Attempt ended before command acknowledgement"

abbrev pub runner_stopped : Text
runner_stopped = codes "Runner stopped before command acknowledgement"

module _ {J : Type 0} where
  unfoldable pub owns : Attempt J → Task J → Result (Attempt J)
  owns a t =
      if not (t.workspace_id == a.workspace_id)
      then err invalid_scope
      else elim t.current_attempt_id [
        | none ↦ err stale_attempt
        | some c ↦ if c == a.id then ok a else err stale_attempt
      ]

  -- The attempt, if its task names it as the current one.
  unfoldable pub locked_attempt : ℕ → Db J → Result (Attempt J)
  unfolding owns find_attempt
  locked_attempt attempt_id db = elim (find_attempt attempt_id db.attempts) [
    | none ↦ err not_found
    | some a ↦ elim (db.tasks a.task_id) [ none ↦ err invalid_scope | some t ↦ owns a t ]
  ]

  -- select from execution_events where seq = s
  unfoldable pub find_seq : ℕ → List (Row J) → Option (Row J)
  find_seq s [] = none
  find_seq s (r ∷ rs) = if r.seq == s then some r else find_seq s rs

  -- select from execution_events where event_key = k
  unfoldable pub has_key : Text → List (Row J) → Bool
  has_key k [] = false
  has_key k (r ∷ rs) = (r.event_key == k) || has_key k rs

  -- The pending commands of an attempt that has ended become unknown.
  unfoldable pub abandon_one : Text → ℕ → Command J → Command J
  abandon_one why attempt_id c =
      if (c.attempt_id == attempt_id) && is_pending c.status
      then record c { status = unknown; error = some why }
      else c

  unfoldable pub abandon : Text → ℕ → List (Command J) → List (Command J)
  unfolding abandon_one is_pending
  abandon why attempt_id cs = map (abandon_one why attempt_id) cs

-- What the loop over a batch reads and writes.
pub record Journal (J : Type 0) : Type 0 where
  pub attempt : Attempt J
  pub rows : List (Row J)
  pub commands : List (Command J)

unfoldable pub observe : ℕ → Observed → Result ℕ
observe now absent = ok now
observe now (at t) = ok t
observe now malformed = err invalid_timestamp

module _ {J : Type 0} ⦃eq : Eq J⦄ (sdk : Sdk J) (now : Event J → ℕ) where
  -- A sequence number that is already taken must carry the same record.
  unfoldable pub same_record : Event J → Option (Row J) → Bool
  same_record e none = false
  same_record e (some r) = (r.event_key == sdk.sha256 e.event_id) && (r.payload == e.payload)

  -- The attempt after a record of lifecycle, at the time `observed`.
  unfoldable pub advance_status : EventName → ℕ → Event J → Attempt J → Attempt J
  advance_status run_started observed e a = record a {
    status = elim a.status [ Status.stopping ↦ stopping | _ ↦ running ];
    started_at = some observed;
  }
  advance_status (run_finished o) observed e a = record a {
    status = status_of o;
    result = some (reported e.event_data);
    finished_at = some observed;
    completeness = record (a.completeness) { event_delivery = contiguous };
  }
  advance_status (other t) observed e a = a

  unfoldable pub append_row : ℕ → Event J → Journal J → Journal J
  append_row observed e j =
      let a = advance_status e.name observed e j.attempt in
      record {
        attempt = record a { next_seq = a.next_seq + 1; last_heartbeat_at = some (now e) };
        rows =
            record {
              event_key = sdk.sha256 e.event_id;
              seq = e.seq;
              event = e.name;
              payload = e.payload;
            }
            ∷ j.rows;
        commands =
            if is_finished e.name
            then abandon attempt_ended j.attempt.id j.commands
            else j.commands;
      }

  -- A record that is not a repetition.
  unfoldable pub admit : Event J → Journal J → Result (Journal J × Bool)
  admit e j =
      if is_terminal j.attempt.status
      then err attempt_finished
      else if not (e.seq == j.attempt.next_seq)
      then err event_gap
      else if has_key (sdk.sha256 e.event_id) j.rows
      then err event_conflict
      else if not ((e.seq == 0) == is_started e.name)
      then err invalid_lifecycle
      else observe (now e) e.observed_at >>= λ observed. ok (append_row observed e j, true)

  -- The body of the loop: the journal after one event, and whether the event was new.
  unfoldable pub step : Event J → Journal J → Result (Journal J × Bool)
  step e j =
      if ltb e.seq j.attempt.next_seq
      then (if same_record e (find_seq e.seq j.rows) then ok (j, false) else err event_conflict)
      else admit e j

  -- The loop over a batch, with the numbers of new and of repeated records.
  unfoldable pub ingest_loop : List (Event J) → Journal J → ℕ → ℕ → Result (Journal J × ℕ × ℕ)
  ingest_loop [] j accepted duplicates = ok (j, accepted, duplicates)
  ingest_loop (e ∷ es) j accepted duplicates = step e j >>= λ (j', new).
      ingest_loop es j' (if new then accepted + 1 else accepted)
        (if new then duplicates else duplicates + 1)

  -- The checks before the database is read.
  unfoldable pub check_events : ℕ → List (Event J) → Result (Unit {0})
  check_events attempt_id [] = ok tt
  check_events attempt_id (e ∷ es) = do
    raise_if (not (sdk.valid_event e)) protocol_error
    raise_if (not (e.attempt_id == attempt_id)) invalid_scope
    check_events attempt_id es

  unfoldable pub check_batch : ℕ → List (Event J) → Result (Unit {0})
  check_batch attempt_id events =
      if (length events == 0) || ltb 128 (length events)
      then err invalid_batch
      else check_events attempt_id events

-- What the endpoint answers.
pub record Reply : Type 0 where
  pub accepted : ℕ
  pub duplicates : ℕ
  pub next_seq : ℕ
  pub acked_through : ℕ

module _ {J : Type 0} where
  unfoldable pub journal_of : Attempt J → Db J → Journal J
  journal_of a db = record { attempt = a; rows = db.rows a.id; commands = db.commands }

  -- The flush of what the loop changed.
  unfoldable pub flush : Journal J → Db J → Db J
  unfolding save_attempt
  flush j db = record db {
    attempts = save_attempt j.attempt db.attempts;
    rows = update db.rows j.attempt.id j.rows;
    commands = j.commands;
  }

module _ {J : Type 0} ⦃eq : Eq J⦄ (sdk : Sdk J) (now : Event J → ℕ) where
  unfoldable pub ingest_events : ℕ → List (Event J) → Db J → Result (Reply × Db J)
  unfolding journal_of
  ingest_events attempt_id events db = do
    check_batch sdk now attempt_id events
    a ← locked_attempt attempt_id db
    (j, accepted, duplicates) ← ingest_loop sdk now events (journal_of a db) 0 0
    ok (
      record {
        accepted = accepted;
        duplicates = duplicates;
        next_seq = j.attempt.next_seq;
        acked_through = j.attempt.next_seq - 1;
      },
      flush j db,
    )
