-- ===== src/Attempts/Tests.antt =====
-- A task with one attempt, from its creation to its end, and the theorems at it.
use eval_hive.Base.{
  ℕ, ◌≡◌, refl, true, false, none, some, List, [], ◌∷◌, All, Text, ◌≤◌, ◌<◌, ◌+◌, nat_eq, text_eq,
  if◌then◌else◌, length, text_beq,
}
use eval_hive.Attempts.Model.{
  success, is_terminal, EventName, run_started, run_finished, absent, Event, Receipt, native,
  Manifest, RunSpec, Attempt, Outcome, status_of, reported, is_started, is_finished, contiguous,
  is_pending, pending, CommandStatus,
}
use eval_hive.Attempts.Store.{
  ok, err, command_conflict, Sdk, Task, in_progress, Db, find_attempt, save_attempt, find_command,
  save_command,
}
use eval_hive.Attempts.Ingest.{
  locked_attempt, ingest_events, owns, find_seq, has_key, abandon_one, abandon, observe,
  same_record, advance_status, append_row, admit, step, ingest_loop, check_events, check_batch,
  journal_of, flush,
}
use eval_hive.Attempts.Ingest.Delivery.{
  IsStored, ingest_events-reply, ingest_events_again, ingest_events_ended, ingest_events-IsSound,
}
use eval_hive.Attempts.Create.{
  create_attempt, new_attempt, inline_mcp, max_number, open_task, check_profile, check_previous,
  inserted, insert_attempt, check_spec,
}
use eval_hive.Attempts.Control.{
  queue_command, acknowledge_command, abort, check_command, new_command, stop, own_command,
  queue_again, queue_new, acknowledge, acknowledge_once,
}
use eval_hive.Attempts.Control.Repeats.{
  queue_command_again, queue_command_other, acknowledge_command_once,
}
use eval_hive.Attempts.Sound.{current_of, IsSound}
use eval_hive.Attempts.Sound.Creation.{create_attempt_alone, create_attempt-IsSound}
use eval_hive.Attempts.History.{
  Operation, create, ingest, settle, run_all, run_all-IsSound, Archived, run_all-Archived,
}

-- Checks that accept everything, and texts as their own keys. JSON values are numbers.
abbrev sdk : Sdk ℕ
sdk = record {
  valid_event = λ e. true;
  valid_run = λ m r. true;
  valid_response = λ r. true;
  has_secrets = λ c s. false;
  any_object = 0;
  no_arguments = 0;
  sha256 = λ t. t;
}

abbrev clock : Event ℕ → ℕ
clock e = 100

abbrev manifest : Manifest ℕ
manifest = record {
  id = 7 ∷ [];
  version = 1 ∷ [];
  protocol_version = 1 ∷ [];
  config_schema = 0;
  capabilities = λ name. some native;
  commands = λ name. some (some 0);
}

abbrev spec : ℕ → RunSpec ℕ
spec k = record {
  attempt_id = some k;
  workspace_id = 9;
  task_id = 1;
  config = 0;
  model = none;
  resources = [];
  required_capabilities = [];
  execution_mode = none;
  requested_config = none;
  prepared = false;
}

abbrev task : Task ℕ
task = record {
  id = 1;
  workspace_id = 9;
  parent_id = none;
  title = [];
  created_at = none;
  status = in_progress;
  failure_type = none;
  retry_count = 0;
  max_retries = 1;
  current_attempt_id = none;
  benchmark_mode = false;
  completed_at = none;
  cost_usd = some 3;
  token_usage = none;
  result_summary = none;
  result_files = [];
  orchestrator_feedback = none;
}

abbrev empty_db : Db ℕ
empty_db = record {
  tasks = λ k. some task;
  attempts = [];
  rows = λ k. [];
  commands = [];
  profiles = λ k. none;
  archived = λ k. false;
  children = λ k. [];
}

abbrev event : ℕ → EventName → Event ℕ
event n name = record {
  attempt_id = 5;
  seq = n;
  event_id = n ∷ [];
  name = name;
  observed_at = absent;
  event_data = 0;
  payload = n;
}

abbrev batch : List (Event ℕ)
batch = event 0 run_started ∷ event 1 (run_finished Outcome.success) ∷ []

abbrev first_created : Db ℕ
first_created = settle empty_db (create_attempt sdk 9 1 manifest (spec 5) none empty_db)

abbrev finished : Db ℕ
finished = settle first_created (ingest_events sdk clock 5 batch first_created)

abbrev cancel : Text
cancel = 8 ∷ []

abbrev queued_once : Db ℕ
queued_once = settle first_created (queue_command sdk 3 5 cancel 0 first_created)

abbrev receipt : ℕ → Receipt ℕ
receipt body = record { id = 3; ok = true; message = []; body = body }

abbrev acknowledged_once : Db ℕ
acknowledged_once = settle queued_once (acknowledge_command sdk 50 5 3 (receipt 1) queued_once)

program : Unit {0}
unfolding text_beq is_terminal status_of is_started is_finished is_pending find_attempt save_attempt
    find_command save_command owns locked_attempt find_seq has_key abandon_one abandon observe
    same_record advance_status append_row admit step ingest_loop check_events check_batch journal_of
    flush ingest_events inline_mcp max_number open_task check_profile check_previous new_attempt
    inserted insert_attempt check_spec create_attempt abort check_command new_command stop
    own_command queue_again queue_new queue_command acknowledge acknowledge_once acknowledge_command
program = tt

empty_db-IsSound : IsSound empty_db
empty_db-IsSound = record {
  journals = tt;
  active = tt;
  numbered = tt;
  unique = tt;
  owned = λ k h. refl;
}

abbrev calls : List (Operation ℕ)
calls =
    create 9 1 manifest (spec 5) none
    ∷ ingest 5 batch
    ∷ ingest 5 batch
    ∷ create 9 1 manifest (spec 6) none
    ∷ []

run_all-IsSound_example : IsSound (run_all sdk clock calls empty_db)
run_all-IsSound_example = run_all-IsSound sdk clock calls empty_db empty_db-IsSound

delivered :
    ingest_events sdk clock 5 batch first_created
    ≡ ok (record { accepted = 2; duplicates = 0; next_seq = 2; acked_through = 1 }, finished)
unfolding program
delivered = refl

first-locked : locked_attempt 5 first_created ≡ ok (new_attempt 5 9 1 1 none manifest (spec 5))
unfolding program
first-locked = refl

ingest_events_again_example :
    ingest_events sdk clock 5 batch finished
    ≡ ok (record { accepted = 0; duplicates = 2; next_seq = 2; acked_through = 1 }, finished)
ingest_events_again_example = ingest_events_again sdk clock 5 batch first_created delivered

ingest_events-reply_example :
    (b : Attempt ℕ) × (locked_attempt 5 finished ≡ ok b)
    × (2 ≡ b.next_seq)
    × (b.next_seq ≡ 0 + 2)
    × (◌≡◌ {A = ℕ} (2 + 0) 2)
    × (◌≡◌ {A = ℕ} (1 + 1) 2)
    × (length (finished.rows 5) ≡ length (first_created.rows 5) + 2)
    × All (λ e. e.seq ≤ 1) batch
    × All (IsStored sdk clock (finished.rows 5)) batch
unfolding new_attempt
ingest_events-reply_example =
    ingest_events-reply sdk clock 5 batch first_created (new_attempt 5 9 1 1 none manifest (spec 5))
      first-locked delivered

abbrev last : Attempt ℕ
last = record (new_attempt 5 9 1 1 none manifest (spec 5)) {
  status = success;
  next_seq = 2;
  result = some (reported 0);
  completeness = record {
    event_delivery = contiguous;
    task_projection = false;
    workflow = pending;
    review_started_at = 0;
    review = none;
  };
  started_at = some 100;
  finished_at = some 100;
  last_heartbeat_at = some 100;
}

last-stands : find_attempt last.id finished.attempts ≡ some last
unfolding program
last-stands = refl

last-locked : locked_attempt 5 finished ≡ ok last
unfolding program
last-locked = refl

last-IsOver : is_terminal last.status ≡ true
unfolding program
last-IsOver = refl

run_all-Archived_example :
    Archived sdk clock last (finished.rows last.id) (run_all sdk clock calls finished)
run_all-Archived_example =
    run_all-Archived sdk clock last last-IsOver (finished.rows last.id) calls finished
      (record { stands = last-stands; journal = refl })

ingest_events_ended_example :
    (◌≡◌ {A = ℕ} 0 0) × (2 ≡ last.next_seq) × ((n : ℕ) → finished.rows n ≡ finished.rows n)
ingest_events_ended_example =
    ingest_events_ended sdk clock 5 batch finished last last-locked last-IsOver
      ingest_events_again_example

created_first :
    create_attempt sdk 9 1 manifest (spec 5) none empty_db
    ≡ ok (new_attempt 5 9 1 1 none manifest (spec 5), first_created)
unfolding program
created_first = refl

finished-IsSound : IsSound finished
finished-IsSound =
    ingest_events-IsSound sdk clock 5 batch first_created delivered (
      create_attempt-IsSound sdk 9 1 manifest (spec 5) none empty_db created_first empty_db-IsSound)

abbrev created_twice : Db ℕ
created_twice = settle finished (create_attempt sdk 9 1 manifest (spec 6) none finished)

created_second :
    create_attempt sdk 9 1 manifest (spec 6) none finished
    ≡ ok (new_attempt 6 9 1 2 none manifest (spec 6), created_twice)
unfolding program
created_second = refl

create_attempt_alone_example :
    All (λ b. b.task_id ≡ 1 → (is_terminal b.status ≡ true) × (b.number < 2)) finished.attempts
    × (current_of created_twice.tasks 1 ≡ some 6)
unfolding new_attempt
create_attempt_alone_example =
    create_attempt_alone sdk 9 1 manifest (spec 6) none finished created_second finished-IsSound

queued_cancel :
    queue_command sdk 3 5 cancel 0 first_created
    ≡ ok (record { id = 3; status = CommandStatus.queued; duplicate = false }, queued_once)
unfolding program
queued_cancel = refl

queue_command_again_example :
    queue_command sdk 3 5 cancel 0 queued_once
    ≡ ok (record { id = 3; status = CommandStatus.queued; duplicate = true }, queued_once)
queue_command_again_example = queue_command_again sdk 3 5 cancel 0 first_created queued_cancel

queued_locked : locked_attempt 5 queued_once ≡ ok (new_attempt 5 9 1 1 none manifest (spec 5))
unfolding program
queued_locked = refl

queue_command_other_example : queue_command sdk 3 5 cancel 1 queued_once ≡ err command_conflict
unfolding text_beq
queue_command_other_example =
    queue_command_other sdk 3 5 5 cancel cancel 0 1 first_created
      (new_attempt 5 9 1 1 none manifest (spec 5)) queued_cancel queued_locked refl

acknowledged_cancel :
    acknowledge_command sdk 50 5 3 (receipt 1) queued_once ≡ ok (false, acknowledged_once)
unfolding program
acknowledged_cancel = refl

acknowledge_command_once_example :
    acknowledge_command sdk 60 5 3 (receipt 2) acknowledged_once
    ≡ (if nat_eq.equals 1 2 then ok (true, acknowledged_once) else err command_conflict)
acknowledge_command_once_example =
    acknowledge_command_once sdk 50 60 5 3 (receipt 1) (receipt 2) queued_once acknowledged_cancel
      refl refl
