-- ===== src/Failures/Tests.antt =====
-- Reasons of an attempt, and an error whose status and class disagree.
use eval_hive.Base.{
  ◌≡◌, refl, true, ◌&&◌, ◌||◌, Option, none, some, List, [], ◌∷◌, Text, codes, text_beq,
}
use eval_hive.Failures.{
  FailureType, llm_rate_limit, llm_auth, cap_hit, agent, FailureReport, number, is_contaminated,
  merge_failure_type, retryable_name, is_transient_llm_error, classify_llm_error,
  classify_agent_failure,
}
use eval_hive.Failures.Merge.{merge_all, any_contaminated, decisive, merge_all-decisive}
use eval_hive.Failures.Retry.{is_retryable, has_auth_status, is_transient_llm_error_exact}

-- A quota, then an agent that hits its cap.
abbrev reasons : List (Option FailureType)
reasons = some llm_rate_limit ∷ none ∷ some cap_hit ∷ []

merge_all-decisive_example :
    (merge_all none reasons ≡ decisive (none ∷ reasons))
    × (is_contaminated (merge_all none reasons) ≡ any_contaminated (none ∷ reasons))
merge_all-decisive_example = merge_all-decisive none reasons

reasons_merged : merge_all none reasons ≡ some llm_rate_limit
unfolding merge_failure_type is_contaminated
reasons_merged = refl

abbrev keep : Text → Text
keep t = t

abbrev timeout_class : Text
timeout_class = codes "Timeout"

is_transient_llm_error_exact_example : is_transient_llm_error timeout_class (some 401) ≡ (
    is_retryable (classify_llm_error keep (some timeout_class) (some 401))
    || (has_auth_status (some 401) && retryable_name timeout_class))
is_transient_llm_error_exact_example =
    is_transient_llm_error_exact keep timeout_class (some 401) refl

-- It is retried, and classified as a refused key.
timeout_retried :
    (is_transient_llm_error timeout_class (some 401) ≡ true)
    × (classify_llm_error keep (some timeout_class) (some 401) ≡ llm_auth)
unfolding is_transient_llm_error classify_llm_error text_beq
timeout_retried = (refl, refl)

abbrev crash : FailureReport
crash = record { kind = codes "crash"; exception = none; status_code = number 500 }

crash_classified : classify_agent_failure keep (some crash) ≡ some agent
unfolding classify_agent_failure text_beq
crash_classified = refl
