-- ===== src/Failures/Retry.antt =====
-- Which errors are retried, against how they are classified.
use eval_hive.Base.{
  text_beq, if◌then◌else◌, subst, sym, inl, inr, Bool-cases, ==→≡, ℕ, ◌≡◌, refl, Bool, true, false,
  ◌&&◌, ◌||◌, Option, none, some, Text, codes, ◌==◌, nat_eq, text_eq, arith,
}
use eval_hive.Failures.{
  llm_auth, infra, llm_error, FailureType, llm_rate_limit, llm_transient, by_status, by_name,
  auth_status, rate_limit_status, transient_status, retryable_status, retryable_name,
  rate_limit_name, auth_name, transient_name, infra_name, is_transient_llm_error,
  classify_llm_error,
}

-- The types of the errors that are worth a retry.
abbrev pub is_retryable : FailureType → Bool
is_retryable llm_rate_limit = true
is_retryable llm_transient = true
is_retryable _ = false

abbrev pub has_auth_status : Option ℕ → Bool
has_auth_status none = false
has_auth_status (some s) = auth_status s

-- The classes of a refused key are not those of a transient error.
auth-ne-transient : (t : Text) → auth_name t ≡ true → transient_name t ≡ false
unfolding auth_name transient_name text_beq
auth-ne-transient t h = elim (Bool-cases (t == codes "AuthenticationError")) [
  | inl e ↦ subst (λ x. transient_name x ≡ false) (sym (==→≡ t _ e)) refl
  | inr n ↦
      let e : (t == codes "PermissionDeniedError") ≡ true = rw n at h in
      subst (λ x. transient_name x ≡ false) (sym (==→≡ t _ e)) refl
]

-- `by_name`, of the tests of the sets.
names_retryable :
    (r a t i : Bool)
    → (a ≡ true → t ≡ false)
    → is_retryable (
        if r
        then llm_rate_limit
        else if a
        then llm_auth
        else if t
        then llm_transient
        else if i
        then infra
        else llm_error)
      ≡ (r || t)
names_retryable r a t i h = ground arith

by_name_retryable : (t : Text) → is_retryable (by_name t) ≡ retryable_name t
unfolding by_name retryable_name
by_name_retryable t =
    names_retryable (rate_limit_name t) (auth_name t) (transient_name t) (infra_name t)
      (auth-ne-transient t)

status_apart : (s : ℕ) → auth_status s ≡ true → (rate_limit_status s || transient_status s) ≡ false
unfolding auth_status rate_limit_status transient_status
status_apart s h = ground arith

status_retryable :
    (r a t n : Bool) (f : FailureType)
    → (a ≡ true → (r || t) ≡ false)
    → is_retryable f ≡ n
    → (if r || t then true else n) ≡ (
        is_retryable
          (elim (if r
            then some llm_rate_limit
            else if a
            then some llm_auth
            else if t
            then some llm_transient
            else none) [ some g ↦ g | none ↦ f ])
        || (a && n))
status_retryable true true t n f h e = ground arith
status_retryable true false t n f h e = ground arith
status_retryable false true true n f h e = ground arith
status_retryable false true false n f h e = ground arith
status_retryable false false true n f h e = ground arith
status_retryable false false false n f h e = ground arith

by_status_retryable :
    (name : Text) (status : Option ℕ)
    → is_transient_llm_error name status ≡ (
        is_retryable (elim (by_status status) [ some f ↦ f | none ↦ by_name name ])
        || (has_auth_status status && retryable_name name))
unfolding is_transient_llm_error by_status retryable_status
by_status_retryable name none = ground (arith, by_name_retryable name)
by_status_retryable name (some s) =
    status_retryable (rate_limit_status s) (auth_status s) (transient_status s)
      (retryable_name name) (by_name name) (status_apart s) (by_name_retryable name)

-- An error whose class name is stripped already is retried exactly when its type is a rate limit or a
-- transient error, or when its status says that the key is refused and its class alone is one of those
-- that are retried.
pub is_transient_llm_error_exact :
    (strip : Text → Text) (name : Text) (status : Option ℕ)
    → strip name ≡ name
    → is_transient_llm_error name status ≡ (
        is_retryable (classify_llm_error strip (some name) status)
        || (has_auth_status status && retryable_name name))
unfolding classify_llm_error
is_transient_llm_error_exact strip name status same =
    subst
      (λ x. is_transient_llm_error name status ≡ (
        is_retryable (elim (by_status status) [ some f ↦ f | none ↦ by_name x ])
        || (has_auth_status status && retryable_name name)))
      (sym same) (by_status_retryable name status)
