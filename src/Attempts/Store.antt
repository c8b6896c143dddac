-- ===== src/Attempts/Store.antt =====
-- The database as the code of backend/app/harnesses sees it, the errors that it raises, and the
-- checks of the harness SDK and of other modules, which are parameters. An error carries no
-- database: the statements run in a savepoint, or raise before they write.
use eval_hive.Base.{
  ℕ, ◌≡◌, refl, Bool, true, false, Option, none, some, List, [], ◌∷◌, Text, ◌==◌, if◌then◌else◌,
  nat_eq,
}
use eval_hive.Failures.{FailureType}
use eval_hive.Attempts.Model.{Event, Row, Receipt, Command, Manifest, RunSpec, Attempt}

pub data Error : Type 0 where
  not_found stale_attempt invalid_scope invalid_batch protocol_error event_conflict : Error
  attempt_finished event_gap invalid_lifecycle invalid_timestamp command_conflict : Error
  unsupported_capability configuration_conflict already_started inline_credentials : Error
  inline_secrets invalid_spec results_archived attempt_active integrity_error : Error

pub data Result {ℓ} (A : Type ℓ) : Type ℓ where
  err : Error → Result A
  ok : A → Result A

infixl 5 ◌>>=◌ ◌>>◌
abbrev pub ◌>>=◌ {κ ℓ} : {A : Type κ} {B : Type ℓ} → Result A → (A → Result B) → Result B
err e >>= k = err e
ok x >>= k = k x

abbrev pub ◌>>◌ {κ} : {A : Type κ} → Result (Unit {0}) → Result A → Result A
first >> next = first >>= λ _. next

-- A block that returns has run its first statement.
pub >>=-eq-ok {κ ℓ} :
    {A : Type κ} {B : Type ℓ} (first : Result A) (next : A → Result B) {y : B}
    → (first >>= next) ≡ ok y
    → (x : A) × (first ≡ ok x) × (next x ≡ ok y)
>>=-eq-ok (err e) next h = cc
>>=-eq-ok (ok x) next h = (x, refl, h)

-- `if b: raise AttemptError(e)`
abbrev pub raise_if : Bool → Error → Result (Unit {0})
raise_if true e = err e
raise_if false e = ok tt

-- `TaskStatus` of backend/app/models/task.py.
pub data TaskStatus : Type 0 where
  backlog ready decomposing in_progress review awaiting_approval done failed : TaskStatus

pub record Task (J : Type 0) : Type 0 where
  pub id : ℕ
  pub workspace_id : ℕ
  pub parent_id : Option ℕ
  pub title : Text
  pub created_at : Option ℕ
  pub status : TaskStatus
  pub failure_type : Option FailureType
  pub retry_count : ℕ
  pub max_retries : ℕ
  pub current_attempt_id : Option ℕ
  pub benchmark_mode : Bool
  pub completed_at : Option ℕ
  pub cost_usd : Option ℕ
  -- `none` is the empty object
  pub token_usage : Option J
  pub result_summary : Option Text
  pub result_files : List Text
  pub orchestrator_feedback : Option Text

pub record Profile : Type 0 where
  pub workspace_id : ℕ
  pub connector_id : Text
  pub connector_version : Text

-- The tables. The journal is kept by attempt, and within one the newest row stands first. The rows
-- of `attempts` and `commands` are in no order.
pub record Db (J : Type 0) : Type 0 where
  pub tasks : ℕ → Option (Task J)
  pub attempts : List (Attempt J)
  pub rows : ℕ → List (Row J)
  pub commands : List (Command J)
  pub profiles : ℕ → Option Profile
  pub archived : ℕ → Bool
  -- the tasks whose parent is k
  pub children : ℕ → List ℕ

-- What is not part of the harness code: the schema checks of the SDK (`validate`, `encode_line`,
-- `validate_run`), sha256, and `_reject_inline_secrets` of backend/app/harnesses/profiles.py.
pub record Sdk (J : Type 0) : Type 0 where
  pub valid_event : Event J → Bool
  pub valid_run : Manifest J → RunSpec J → Bool
  pub valid_response : Receipt J → Bool
  pub has_secrets : J → J → Bool
  -- the schemas {} and {"type": "object", "additionalProperties": false}
  pub any_object : J
  pub no_arguments : J
  pub sha256 : Text → Text

-- Maps by number.
abbrev pub update {ℓ} : {A : Type ℓ} → (ℕ → A) → ℕ → A → ℕ → A
update f k v j = if k == j then v else f j

module _ {J : Type 0} where
  -- select ... where id = k
  unfoldable pub find_attempt : ℕ → List (Attempt J) → Option (Attempt J)
  find_attempt k [] = none
  find_attempt k (a ∷ l) = if a.id == k then some a else find_attempt k l

  -- The flush of a changed attempt.
  unfoldable pub save_attempt : Attempt J → List (Attempt J) → List (Attempt J)
  save_attempt a [] = []
  save_attempt a (b ∷ bs) = (if b.id == a.id then a else b) ∷ save_attempt a bs

  unfoldable pub find_command : ℕ → List (Command J) → Option (Command J)
  find_command k [] = none
  find_command k (c ∷ cs) = if c.id == k then some c else find_command k cs

  unfoldable pub save_command : Command J → List (Command J) → List (Command J)
  save_command c [] = []
  save_command c (d ∷ ds) = (if d.id == c.id then c else d) ∷ save_command c ds
