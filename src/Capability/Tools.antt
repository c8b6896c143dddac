-- ===== src/Capability/Tools.antt =====
-- The check of the tools, against a direct reading of the calls.
use eval_hive.Base.{
  ℕ, ◌≡◌, ◌≤◌, Bool, true, false, ◌&&◌, ◌||◌, Option, none, some, List, [], ◌∷◌, ◌++◌, Text, ◌==◌,
  nat_eq, text_eq, length, refl, arith, Bool-cases, Option-cases, inl, inr, ap, ◌∙◌, ==→≡,
}
use eval_hive.Capability.{
  Strings, Mode, match_all, match_any, Spec, GivenSpec, Evidence, Finding, normalize, bare_name,
  contains, expand_called, missing_tools, tool_used, distinct_from, find, evaluate_task_capability,
  outcome_from_profile, classify, is_genuine, usable_profile, normalize_spec, QualityProfile,
}

-- A call of the tool itself, or of a tool of that name on a server.
is_call_of : Strings → Text → Text → Bool
is_call_of st t c =
    normalize st c == normalize st t
    || (elim (bare_name (normalize st c)) [ none ↦ false | some b ↦ b == normalize st t ])

was_called : Strings → Text → List Text → Bool
was_called st t [] = false
was_called st t (c ∷ l) = is_call_of st t c || was_called st t l

all_called : Strings → List Text → List Text → Bool
all_called st [] called = true
all_called st (t ∷ l) called = was_called st t called && all_called st l called

any_called : Strings → List Text → List Text → Bool
any_called st [] called = false
any_called st (t ∷ l) called = was_called st t called || any_called st l called

contains-expand_called :
    (st : Strings) (t : Text) (l : List Text)
    → contains (normalize st t) (expand_called st l) ≡ was_called st t l
unfolding contains expand_called was_called is_call_of
contains-expand_called st t [] = refl
contains-expand_called st t (c ∷ l) = elim (Option-cases (bare_name (normalize st c))) [
  | inl e ↦ ground (arith, e, contains-expand_called st t l)
  | inr (b, e) ↦ ground (arith, e, contains-expand_called st t l)
]

missing_tools-le :
    (st : Strings) (required called : List Text)
    → length (missing_tools st required called) ≤ length required
unfolding missing_tools
missing_tools-le st [] called = ground arith
missing_tools-le st (t ∷ l) called = ground (arith, missing_tools-le st l called)

-- The direct reading of the two modes.
pub calls_suffice : Strings → List Text → List Text → Mode → Bool
calls_suffice st required called match_all = all_called st required called
calls_suffice st required called match_any = any_called st required called

tool_used_exact :
    (st : Strings) (required called : List Text) (mode : Mode)
    → (tool_used st required called mode).0 ≡ calls_suffice st required called mode
unfolding tool_used missing_tools calls_suffice all_called any_called
tool_used_exact st [] called match_all = refl
tool_used_exact st (t ∷ l) called match_all =
    ground (arith, contains-expand_called st t called, tool_used_exact st l called match_all)
tool_used_exact st [] called match_any = ground arith
tool_used_exact st (t ∷ l) called match_any = ground (
  arith,
  contains-expand_called st t called,
  tool_used_exact st l called match_any,
  missing_tools-le st l (expand_called st called),
)

was_called-contains :
    (st : Strings) (t c : Text) (seen : List Text)
    → contains c seen ≡ true
    → is_call_of st t c ≡ true
    → was_called st t seen ≡ true
unfolding contains was_called
was_called-contains st t c [] h call = cc
was_called-contains st t c (u ∷ l) h call = elim (Bool-cases (u == c)) [
  | inl e ↦
      let same : is_call_of st t u ≡ true =
        ap (λ (x : Text). is_call_of st t x) (==→≡ u c e) ∙ call in
      ground (arith, same)
  | inr e ↦ ground (arith, was_called-contains st t c l (ground (arith, h, e)) call)
]

-- To leave out repetitions changes no answer.
was_called-distinct_from :
    (st : Strings) (t : Text) (seen l : List Text)
    → (was_called st t (distinct_from seen l) || was_called st t seen)
      ≡ (was_called st t l || was_called st t seen)
unfolding distinct_from was_called
was_called-distinct_from st t seen [] = refl
was_called-distinct_from st t seen (c ∷ l) = elim (Bool-cases (contains c seen)) [
  | inl e ↦ elim (Bool-cases (is_call_of st t c)) [
    | inl call ↦
        let known = was_called-contains st t c seen e call in ground (arith, e, call, known)
    | inr no_call ↦ ground (arith, e, no_call, was_called-distinct_from st t seen l)
  ]
  | inr e ↦ ground (arith, e, was_called-distinct_from st t (c ∷ seen) l)
]

was_called-distinct :
    (st : Strings) (t : Text) (l : List Text)
    → was_called st t (distinct_from [] l) ≡ was_called st t l
unfolding was_called
was_called-distinct st t l = ground (arith, was_called-distinct_from st t [] l)

calls_suffice-distinct :
    (st : Strings) (required l : List Text) (mode : Mode)
    → calls_suffice st required (distinct_from [] l) mode ≡ calls_suffice st required l mode
unfolding calls_suffice all_called any_called
calls_suffice-distinct st [] l match_all = refl
calls_suffice-distinct st (t ∷ r) l match_all =
    ground (arith, was_called-distinct st t l, calls_suffice-distinct st r l match_all)
calls_suffice-distinct st [] l match_any = refl
calls_suffice-distinct st (t ∷ r) l match_any =
    ground (arith, was_called-distinct st t l, calls_suffice-distinct st r l match_any)

genuine_iff : (c u : Bool) → is_genuine (classify c u) ≡ (c && u)
unfolding is_genuine classify
genuine_iff true true = refl
genuine_iff true false = refl
genuine_iff false true = refl
genuine_iff false false = refl

-- An evaluation of a task with a usable specification, where nothing raises, passes exactly when the
-- outcome is correct and the calls suffice: every required tool, or one of them, was called under its
-- own name or as a tool of that name on a server, in the trace or in the stored record.
pub evaluate_task_capability_exact :
    (st : Strings) (threshold : ℕ) (given : Option GivenSpec) (e : Evidence) (spec : Spec)
    (traced : List Text) (profile : Option QualityProfile)
    → normalize_spec st given ≡ some spec
    → e.trace_tools ≡ some traced
    → usable_profile e ≡ some profile
    → (f : Finding) × (evaluate_task_capability st threshold given e
        ≡ some (record { spec = spec; finding = some f }))
      × (f.outcome ≡ outcome_from_profile profile threshold)
      × (f.passed ≡ (
          f.outcome.correct
          && calls_suffice st spec.required_tools (traced ++ e.durable_tools) spec.mode))
unfolding evaluate_task_capability find
evaluate_task_capability_exact st threshold given e spec traced profile usable read judged =
    let called = distinct_from [] (traced ++ e.durable_tools) in
    let check = tool_used st spec.required_tools called spec.mode in
    let outcome = outcome_from_profile profile threshold in
    let f : Finding = record {
      tools_called = called;
      used = check.0;
      missing = check.1;
      outcome = outcome;
      classification = classify outcome.correct check.0;
      passed = is_genuine (classify outcome.correct check.0);
    } in
    let used : check.0
        ≡ calls_suffice st spec.required_tools (traced ++ e.durable_tools) spec.mode =
      tool_used_exact st spec.required_tools called spec.mode
      ∙ calls_suffice-distinct st spec.required_tools (traced ++ e.durable_tools) spec.mode in
    let found : find st threshold spec e ≡ some f = ground (arith, read, judged) in
    let run : evaluate_task_capability st threshold given e
        ≡ some (record { spec = spec; finding = some f }) =
      ground (arith, usable, found) in
    (
      f,
      run,
      refl,
      genuine_iff outcome.correct check.0 ∙ ap (λ (b : Bool). outcome.correct && b) used,
    )
