-- ===== src/Capability.antt =====
-- Whether a task was solved with the tools that it needs: backend/app/quality/capability.py. Scores are
-- numbers of the smallest unit, and `str.strip` and `str.lower` are parameters.
pub mod Tools
pub mod Aggregate
mod Tests
use eval_hive.Base.{
  ℕ, suc, zero, ◌+◌, Bool, true, false, ◌&&◌, ◌||◌, not, Option, none, some, List, [], ◌∷◌, ◌++◌,
  map, Text, codes, ◌==◌, nat_eq, text_eq, if◌then◌else◌, length, ltb, leb,
}
use eval_hive.Loops.Keys.{is_empty}

pub record Strings : Type 0 where
  pub strip : Text → Text
  pub lower : Text → Text

-- MATCH_MODES
pub data Mode : Type 0 where
  match_all match_any : Mode

-- The specification of a task: `none` where the tools are no list, and for another mode.
pub record GivenSpec : Type 0 where
  pub required_tools : Option (List Text)
  pub category : Option Text
  pub mode : Option Mode

pub record Spec : Type 0 where
  pub required_tools : List Text
  pub category : Option Text
  pub mode : Mode

-- `_normalize`
unfoldable pub normalize : Strings → Text → Text
normalize st t = st.lower (st.strip t)

strip_names : Strings → List Text → List Text
strip_names st [] = []
strip_names st (t ∷ l) =
    let rest = strip_names st l in if is_empty (st.strip t) then rest else st.strip t ∷ rest

abbrev strip_category : Strings → Option Text → Option Text
strip_category st none = none
strip_category st (some c) = if is_empty c then none else some (st.strip c)

abbrev or_all : Option Mode → Mode
or_all none = match_all
or_all (some m) = m

-- `normalize_spec`
pub normalize_spec : Strings → Option GivenSpec → Option Spec
unfolding strip_names
normalize_spec st none = none
normalize_spec st (some g) = elim g.required_tools [
  | none ↦ none
  | some given ↦ elim (strip_names st given) [
    | [] ↦ none
    | ◌∷◌ t l ↦ some (record {
      required_tools = t ∷ l;
      category = strip_category st g.category;
      mode = or_all g.mode;
    })
  ]
]

-- What follows the first "__".
pub bare_name : Text → Option Text
bare_name [] = none
bare_name (c ∷ []) = none
bare_name (c ∷ (d ∷ l)) =
    let rest = bare_name (d ∷ l) in if c == b'_' && d == b'_' then some l else rest

-- `_expand_called`; the order and repetitions of a set do not show.
pub expand_called : Strings → List Text → List Text
unfolding bare_name normalize
expand_called st [] = []
expand_called st (c ∷ l) =
    let rest = expand_called st l in
    normalize st c ∷ (elim (bare_name (normalize st c)) [ none ↦ rest | some b ↦ b ∷ rest ])

unfoldable pub contains : Text → List Text → Bool
contains t [] = false
contains t (u ∷ l) = u == t || contains t l

pub missing_tools : Strings → List Text → List Text → List Text
unfolding contains normalize
missing_tools st [] called = []
missing_tools st (t ∷ l) called =
    let rest = missing_tools st l called in
    if contains (normalize st t) called then rest else t ∷ rest

abbrev no_names : List Text → Bool
no_names [] = true
no_names (t ∷ l) = false

-- `tool_used`
pub tool_used : Strings → List Text → List Text → Mode → Bool × List Text
unfolding expand_called missing_tools
tool_used st required called mode =
    let missing = missing_tools st required (expand_called st called) in
    (
      (elim mode [
        | match_any ↦ ltb (length missing) (length required)
        | match_all ↦ no_names missing
      ]),
      missing,
    )

pub data Class : Type 0 where
  genuine cheated failed_with_tool failed_no_tool : Class

-- `classify`
pub classify : Bool → Bool → Class
classify true true = genuine
classify true false = cheated
classify false true = failed_with_tool
classify false false = failed_no_tool

pub is_genuine : Class → Bool
is_genuine genuine = true
is_genuine _ = false

-- A dimension of a quality profile; `passed` is none where the key is missing.
pub record Dimension : Type 0 where
  pub by_reference : Bool
  pub is_scored : Bool
  pub score : Option ℕ
  pub has_threshold : Bool
  pub passed : Option Bool

pub record QualityProfile : Type 0 where
  pub dimensions : List Dimension
  pub weighted_score : Option ℕ

pub data Signal : Type 0 where
  no_signal reference judge : Signal

pub record OutcomeCheck : Type 0 where
  pub correct : Bool
  pub signal : Signal
  pub score : Option ℕ

abbrev reaches : ℕ → Option ℕ → Bool
reaches threshold none = false
reaches threshold (some s) = leb threshold s

abbrev dimension_correct : ℕ → Dimension → Bool
dimension_correct threshold d = elim d.passed [
  | none ↦ reaches threshold d.score
  | some p ↦ if d.has_threshold then p else reaches threshold d.score
]

-- The first scored dimension that a reference judges, or the weighted score.
outcome_of : ℕ → Option ℕ → List Dimension → OutcomeCheck
outcome_of threshold weighted [] = elim weighted [
  | none ↦ record { correct = false; signal = no_signal; score = none }
  | some w ↦ record { correct = leb threshold w; signal = judge; score = some w }
]
outcome_of threshold weighted (d ∷ l) =
    let rest = outcome_of threshold weighted l in
    if d.by_reference && d.is_scored
    then record { correct = dimension_correct threshold d; signal = reference; score = d.score }
    else rest

-- `_outcome_from_profile`
pub outcome_from_profile : Option QualityProfile → ℕ → OutcomeCheck
unfolding outcome_of
outcome_from_profile none threshold = record { correct = false; signal = no_signal; score = none }
outcome_from_profile (some p) threshold = outcome_of threshold p.weighted_score p.dimensions

-- What an evaluation reads: the tools of the cleaned trace (`none` where reading it raises), those of the
-- stored record, the quality profile that is there, and what the judge answers (`none` where it raises).
pub record Evidence : Type 0 where
  pub trace_tools : Option (List Text)
  pub durable_tools : List Text
  pub stored : Option QualityProfile
  pub judged : Option (Option QualityProfile)

pub record Finding : Type 0 where
  pub tools_called : List Text
  pub used : Bool
  pub missing : List Text
  pub outcome : OutcomeCheck
  pub classification : Class
  pub passed : Bool

-- A capability profile; without a finding its status is "error".
pub record CapabilityProfile : Type 0 where
  pub spec : Spec
  pub finding : Option Finding

-- dict.fromkeys
pub distinct_from : List Text → List Text → List Text
unfolding contains
distinct_from seen [] = []
distinct_from seen (t ∷ l) =
    let rest = distinct_from (if contains t seen then seen else t ∷ seen) l in
    if contains t seen then rest else t ∷ rest

-- The profile that is used; the judge is asked where none is stored.
abbrev usable_profile : Evidence → Option (Option QualityProfile)
usable_profile e = elim e.stored [ some p ↦ some (some p) | none ↦ e.judged ]

-- The try block of `evaluate_task_capability`, `none` where it raises.
pub find : Strings → ℕ → Spec → Evidence → Option Finding
unfolding distinct_from tool_used outcome_from_profile classify is_genuine
find st threshold spec e = elim e.trace_tools [
  | none ↦ none
  | some traced ↦ elim (usable_profile e) [
    | none ↦ none
    | some profile ↦
        let called = distinct_from [] (traced ++ e.durable_tools) in
        let check = tool_used st spec.required_tools called spec.mode in
        let outcome = outcome_from_profile profile threshold in
        some (record {
          tools_called = called;
          used = check.0;
          missing = check.1;
          outcome = outcome;
          classification = classify outcome.correct check.0;
          passed = is_genuine (classify outcome.correct check.0);
        })
  ]
]

-- `evaluate_task_capability`: `none` where the task has no usable specification.
pub evaluate_task_capability : Strings → ℕ → Option GivenSpec → Evidence → Option CapabilityProfile
unfolding normalize_spec find
evaluate_task_capability st threshold given e = elim (normalize_spec st given) [
  | none ↦ none
  | some spec ↦ some (record { spec = spec; finding = find st threshold spec e })
]
