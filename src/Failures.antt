-- ===== src/Failures.antt =====
-- Why a run died: backend/app/utils/failures.py. `strip` stands for Python's `str.strip`.
pub mod Merge
pub mod Retry
pub mod Tests
use eval_hive.Base.{
  ℕ, Bool, true, false, ◌&&◌, ◌||◌, Option, none, some, List, [], ◌∷◌, Text, codes, ◌==◌, nat_eq,
  text_eq, if◌then◌else◌, not,
}

-- `FAILURE_TYPES`.
pub data FailureType : Type 0 where
  llm_rate_limit llm_auth llm_transient infra llm_error cap_hit timeout agent : FailureType

-- `is_contaminated`, by `CONTAMINATING_FAILURES`.
pub is_contaminated : Option FailureType → Bool
is_contaminated none = false
is_contaminated (some llm_rate_limit) = true
is_contaminated (some llm_auth) = true
is_contaminated (some llm_transient) = true
is_contaminated (some infra) = true
is_contaminated (some _) = false

pub merge_failure_type : Option FailureType → Option FailureType → Option FailureType
unfolding is_contaminated
merge_failure_type existing none = existing
merge_failure_type existing (some f) =
    if is_contaminated existing && not (is_contaminated (some f)) then existing else some f

-- The sets of status codes.
pub rate_limit_status : ℕ → Bool
rate_limit_status s = s == 429

pub auth_status : ℕ → Bool
auth_status s = s == 401 || s == 402 || s == 403

pub transient_status : ℕ → Bool
transient_status s = s == 408 || s == 500 || s == 502 || s == 503 || s == 504

-- The sets of exception classes.
pub rate_limit_name : Text → Bool
rate_limit_name t = t == codes "RateLimitError"

pub auth_name : Text → Bool
auth_name t = t == codes "AuthenticationError" || t == codes "PermissionDeniedError"

pub transient_name : Text → Bool
transient_name t =
    t == codes "Timeout"
    || t == codes "APITimeoutError"
    || t == codes "APIConnectionError"
    || t == codes "ServiceUnavailableError"
    || t == codes "InternalServerError"

pub infra_name : Text → Bool
infra_name t = t == codes "ProviderComplianceError"

-- The part of `classify_llm_error` that reads the status.
pub by_status : Option ℕ → Option FailureType
unfolding rate_limit_status auth_status transient_status
by_status none = none
by_status (some s) =
    if rate_limit_status s
    then some llm_rate_limit
    else if auth_status s
    then some llm_auth
    else if transient_status s
    then some llm_transient
    else none

pub by_name : Text → FailureType
unfolding rate_limit_name auth_name transient_name infra_name
by_name t =
    if rate_limit_name t
    then llm_rate_limit
    else if auth_name t
    then llm_auth
    else if transient_name t
    then llm_transient
    else if infra_name t
    then infra
    else llm_error

-- RETRYABLE_STATUS and RETRYABLE_EXC_NAMES
pub retryable_status : Option ℕ → Bool
unfolding rate_limit_status transient_status
retryable_status none = false
retryable_status (some s) = rate_limit_status s || transient_status s

pub retryable_name : Text → Bool
unfolding rate_limit_name transient_name
retryable_name t = rate_limit_name t || transient_name t

-- An exception of a call: the name of its class and its `status_code`.
pub is_transient_llm_error : Text → Option ℕ → Bool
unfolding retryable_status retryable_name
is_transient_llm_error name status = if retryable_status status then true else retryable_name name

-- `status_code` of a report: left out, a number, or what `int` refuses.
pub data StatusField : Type 0 where
  absent malformed : StatusField
  number : ℕ → StatusField

-- What the agent reports; a missing or empty `kind` is the empty text.
pub record FailureReport : Type 0 where
  pub kind : Text
  pub exception : Option Text
  pub status_code : StatusField

abbrev status_of : StatusField → Option ℕ
status_of (number s) = some s
status_of _ = none

-- `_KIND_TO_TYPE.get(kind)`
type_of_kind : Text → Option FailureType
type_of_kind kind =
    if kind == codes "cap_hit"
    then some cap_hit
    else if kind == codes "tool_leak"
    then some agent
    else if kind == codes "crash"
    then some agent
    else none

module _ (strip : Text → Text) where
  pub classify_llm_error : Option Text → Option ℕ → FailureType
  unfolding by_status by_name
  classify_llm_error name status = elim (by_status status) [
    | some f ↦ f
    | none ↦ elim name [ none ↦ by_name (strip []) | some t ↦ by_name (strip t) ]
  ]

  -- `none` stands for a report that is no object.
  pub classify_agent_failure : Option FailureReport → Option FailureType
  unfolding classify_llm_error type_of_kind
  classify_agent_failure none = none
  classify_agent_failure (some r) =
      if strip r.kind == codes "llm_error"
      then some (classify_llm_error r.exception (status_of r.status_code))
      else type_of_kind (strip r.kind)
