-- ===== src/Trajectory/Match.antt =====
-- `extract_tool_sequence`, the metrics and `match_trajectory` of backend/app/quality/trajectory_match.py.
-- Scores are counted in ten-thousandths, to which the code rounds them. Parameters are `normalize`, the
-- stripped lower case of a name, and `ratio`, the similarity of difflib.
pub mod Verdict
pub mod Chain
use eval_hive.Base.{
  ℕ, zero, suc, Bool, true, false, ◌&&◌, not, Option, none, some, List, [], ◌∷◌, Text, codes, ◌==◌,
  nat_eq, text_eq, Eq, if◌then◌else◌, map, leb,
}
use eval_hive.Loops.Keys.{StepFields, is_empty}
use eval_hive.Trajectory.Dag.{dag_consistency}
use eval_hive.Trajectory.Reference.{
  Mode, Form, exact, edit, dag, Canonical, Reference, parse_reference,
}

unfoldable pub extract_tool_sequence : {A : Type 0} → List (StepFields A) → List Text
unfolding is_empty
extract_tool_sequence [] = []
extract_tool_sequence (s ∷ l) =
    let rest = extract_tool_sequence l in
    elim s.tool_name [
      | none ↦ rest
      | some name ↦ if (s.kind == codes "tool") && not (is_empty name) then name ∷ rest else rest
    ]

pub record Metrics : Type 0 where
  pub exact_score : ℕ
  pub edit_score : ℕ
  pub dag_score : ℕ

pub record Profile : Type 0 where
  pub mode : Mode
  pub score : ℕ
  pub matched : Bool
  pub threshold : ℕ
  pub metrics : Metrics
  pub actual_sequence : List Text
  pub reference_sequence : List Text
  pub reference_form : Form

unfoldable pub same_names : List Text → List Text → Bool
same_names [] [] = true
same_names [] (y ∷ ys) = false
same_names (x ∷ xs) [] = false
same_names (x ∷ xs) (y ∷ ys) = (x == y) && same_names xs ys

unfoldable pub metric : Mode → Metrics → ℕ
metric exact m = m.exact_score
metric edit m = m.edit_score
metric dag m = m.dag_score

module _ (normalize : Text → Text) (ratio : List Text → List Text → ℕ) where
  unfoldable pub exact_match : List Text → List Text → ℕ
  unfolding same_names
  exact_match actual linear =
      if same_names (map normalize actual) (map normalize linear) then 10000 else 0

  unfoldable pub edit_similarity : List Text → List Text → ℕ
  edit_similarity [] [] = 10000
  edit_similarity actual linear = ratio (map normalize actual) (map normalize linear)

  unfoldable pub score_run : List Text → Reference → Option Mode → Profile
  unfolding exact_match edit_similarity metric
  score_run actual ref mode =
      let m : Metrics = record {
        exact_score = exact_match actual ref.linear;
        edit_score = edit_similarity actual ref.linear;
        dag_score = if dag_consistency normalize actual ref.tools ref.edges then 10000 else 0;
      } in
      let use_mode : Mode = elim mode [ none ↦ ref.match_mode | some x ↦ x ] in
      let threshold : ℕ = elim use_mode [ edit ↦ ref.match_threshold | _ ↦ 10000 ] in
      record {
        mode = use_mode;
        score = metric use_mode m;
        matched = leb threshold (metric use_mode m);
        threshold = threshold;
        metrics = m;
        actual_sequence = actual;
        reference_sequence = ref.linear;
        reference_form = ref.form;
      }

  -- `none` is the status "error". The mode is `none` where it is no known one.
  unfoldable pub match_trajectory :
      {A : Type 0} → List (StepFields A) → Canonical → Option Mode → Option Profile
  unfolding extract_tool_sequence score_run
  match_trajectory steps canonical mode = elim (parse_reference canonical) [
    | none ↦ none
    | some ref ↦ some (score_run (extract_tool_sequence steps) ref mode)
  ]
