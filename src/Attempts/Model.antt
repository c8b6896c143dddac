-- ===== src/Attempts/Model.antt =====
-- Execution attempts: the rows that backend/app/models/execution_attempt.py declares, the columns of
-- backend/app/models/task.py that an attempt reads or writes, and the records that arrive from the
-- runner. JSON values are an abstract type `J`, of which the code needs equality alone. Identifiers
-- and times are numbers.
use eval_hive.Base.{ℕ, Bool, true, false, Option, List, Text}

-- `ExecutionAttempt.status`.
pub data Status : Type 0 where
  created running stopping success failed cancelled lost : Status

-- `TERMINAL` of backend/app/harnesses/attempts.py.
unfoldable pub is_terminal : Status → Bool
is_terminal success = true
is_terminal failed = true
is_terminal cancelled = true
is_terminal lost = true
is_terminal _ = false

-- The `status` of a run.finished record.
pub data Outcome : Type 0 where
  success failed cancelled : Outcome

unfoldable pub status_of : Outcome → Status
status_of Outcome.success = Status.success
status_of Outcome.failed = Status.failed
status_of Outcome.cancelled = Status.cancelled

-- The name of an event, with what its data decides. Any other event only enters the journal.
pub data EventName : Type 0 where
  run_started : EventName
  run_finished : Outcome → EventName
  other : Text → EventName

unfoldable pub is_started : EventName → Bool
is_started run_started = true
is_started (run_finished o) = false
is_started (other t) = false

unfoldable pub is_finished : EventName → Bool
is_finished (run_finished o) = true
is_finished run_started = false
is_finished (other t) = false

-- The `observed_at` of an event: left out, a time, or a text that is no time.
pub data Observed : Type 0 where
  absent malformed : Observed
  at : ℕ → Observed

-- An event, with the JSON that it was read from and the JSON of its `data`.
pub record Event (J : Type 0) : Type 0 where
  pub attempt_id : ℕ
  pub seq : ℕ
  pub event_id : Text
  pub name : EventName
  pub observed_at : Observed
  pub event_data : J
  pub payload : J

-- `ExecutionEvent`, a row of the journal.
pub record Row (J : Type 0) : Type 0 where
  pub event_key : Text
  pub seq : ℕ
  pub event : EventName
  pub payload : J

-- `ExecutionCommand.status`.
pub data CommandStatus : Type 0 where
  queued delivered acknowledged failed unknown : CommandStatus

unfoldable pub is_pending : CommandStatus → Bool
is_pending queued = true
is_pending delivered = true
is_pending _ = false

-- The body of an acknowledgement: its `id`, `ok`, the message of its error, and the whole JSON.
pub record Receipt (J : Type 0) : Type 0 where
  pub id : ℕ
  pub ok : Bool
  pub message : Text
  pub body : J

pub record Command (J : Type 0) : Type 0 where
  pub id : ℕ
  pub attempt_id : ℕ
  pub name : Text
  pub payload : J
  pub status : CommandStatus
  pub result : Option (Receipt J)
  pub error : Option Text
  pub acknowledged_at : Option ℕ

-- The `event_delivery`, `workflow` and `review` entries of `completeness`.
pub data Delivery : Type 0 where
  open_delivery contiguous interrupted : Delivery

pub data WorkflowState : Type 0 where
  pending review_running reviewed archived archive_pending retry superseded : WorkflowState

pub data Review : Type 0 where
  approved rejected unavailable unknown_after_interruption : Review

pub record Completeness : Type 0 where
  pub event_delivery : Delivery
  pub task_projection : Bool
  pub workflow : WorkflowState
  pub review_started_at : ℕ
  pub review : Option Review

-- What a run declares that it can do.
pub data Capability : Type 0 where
  native emulated unsupported : Capability

pub record Manifest (J : Type 0) : Type 0 where
  pub id : Text
  pub version : Text
  pub protocol_version : Text
  pub config_schema : J
  pub capabilities : Text → Option Capability
  -- a declared command, with its `input_schema`
  pub commands : Text → Option (Option J)

pub data ResourceKind : Type 0 where
  mcp memory : ResourceKind
  other_kind : Text → ResourceKind

-- An environment resource: whether its configuration has `env` and `headers`, and whether its
-- `mode` is "structured".
pub record Resource : Type 0 where
  pub kind : ResourceKind
  pub env : Bool
  pub headers : Bool
  pub structured : Bool

pub data ExecutionMode : Type 0 where
  direct orchestrated : ExecutionMode

-- The run specification. `attempt_id` is `none` where the text is no UUID, `requested_config` and
-- `prepared` are the metadata that preparation adds.
pub record RunSpec (J : Type 0) : Type 0 where
  pub attempt_id : Option ℕ
  pub workspace_id : ℕ
  pub task_id : ℕ
  pub config : J
  pub model : Option J
  pub resources : List Resource
  pub required_capabilities : List Text
  pub execution_mode : Option ExecutionMode
  pub requested_config : Option J
  pub prepared : Bool

-- `ExecutionAttempt.result`: the data of run.finished, or the reason why the transport was lost.
pub data AttemptResult (J : Type 0) : Type 0 where
  reported : J → AttemptResult J
  transport_lost : Text → AttemptResult J

pub record Attempt (J : Type 0) : Type 0 where
  pub id : ℕ
  pub workspace_id : ℕ
  pub task_id : ℕ
  pub number : ℕ
  pub profile_id : Option ℕ
  pub manifest : Manifest J
  pub run_spec : RunSpec J
  pub status : Status
  pub next_seq : ℕ
  pub result : Option (AttemptResult J)
  pub completeness : Completeness
  pub started_at : Option ℕ
  pub prepared_at : Option ℕ
  pub finished_at : Option ℕ
  pub last_heartbeat_at : Option ℕ
