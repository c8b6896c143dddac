-- ===== src/Trajectory/Tests.antt =====
-- A diamond of four tools and a run that takes its right branch first, and a list with a repeated tool.
use eval_hive.Trajectory.Dag.Counts.{IsOrder}
use eval_hive.Trajectory.Reference.Order.{topological_order-IsOrder}
use eval_hive.Base.{text_beq, false, ◌==◌, text_eq}
use eval_hive.Loops.Keys.{StepFields, absent, is_empty, decimal, decimal_fuel}
use eval_hive.Trajectory.Dag.{
  Edge, in_degree, successors, enqueue, unlock_one, unlock, dequeue, follow, sources, count,
  same_counts, same_multiset, tool_of, dag_consistency,
}
use eval_hive.Trajectory.Dag.Sound.{Carried, dag_consistency_sound}
use eval_hive.Trajectory.Dag.Complete.{AreApart, dag_consistency_exact}
use eval_hive.Trajectory.Reference.{
  edit, sequence_form, names, Canonical, object, node, pair, Reference, dag, dag_form, insert_node,
  sort_nodes, release, kahn_loop, initial_ready, topological_order, chain_from, chain, sequence_ref,
  index_of, node_id, read_nodes, read_edge, read_edges, dag_ref, nodes_ref, parse_reference,
}
use eval_hive.Trajectory.Reference.Range.{parse_reference_range}
use eval_hive.Trajectory.Match.{
  Profile, extract_tool_sequence, same_names, metric, exact_match, edit_similarity, score_run,
  match_trajectory,
}
use eval_hive.Trajectory.Match.Verdict.{match_trajectory_dag, match_trajectory_chain}
use eval_hive.Base.{
  ℕ, ◌≡◌, ◌≢◌, ◌<◌, ◌↔◌, refl, true, none, some, List, [], ◌∷◌, Text, codes, map, length, All,
  arith,
}

abbrev a : Text
a = codes "a"

abbrev b : Text
b = codes "b"

abbrev c : Text
c = codes "c"

abbrev d : Text
d = codes "d"

-- The names are in lower case already.
abbrev normalize : Text → Text
normalize t = t

abbrev ratio : List Text → List Text → ℕ
ratio s t = 5000

abbrev diamond : Canonical
diamond = object (record {
  match_mode = some dag;
  match_threshold = none;
  sequence = none;
  nodes = some (node (some a) a ∷ node none b ∷ node (some c) c ∷ node (some d) d ∷ []);
  edges = pair a (codes "_n1") ∷ pair a c ∷ pair (codes "_n1") d ∷ pair c d ∷ [];
})

abbrev diamond_edges : List Edge
diamond_edges = (0, 1) ∷ (0, 2) ∷ (1, 3) ∷ (2, 3) ∷ []

abbrev diamond_ref : Reference
diamond_ref = record {
  tools = a ∷ b ∷ c ∷ d ∷ [];
  edges = diamond_edges;
  linear = a ∷ b ∷ c ∷ d ∷ [];
  form = dag_form;
  match_mode = dag;
  match_threshold = 9000;
}

program : Unit {0}
unfolding text_beq is_empty in_degree successors enqueue unlock_one unlock dequeue follow sources
    count same_counts same_multiset tool_of dag_consistency insert_node sort_nodes release kahn_loop
    initial_ready topological_order chain_from chain sequence_ref index_of node_id read_nodes
    read_edge read_edges dag_ref nodes_ref parse_reference extract_tool_sequence same_names metric
    exact_match edit_similarity score_run match_trajectory decimal_fuel decimal
program = tt

diamond_parsed : parse_reference diamond ≡ some diamond_ref
unfolding program
diamond_parsed = refl

parse_reference_range_example : All (λ (e : Edge). e.1 < 4) diamond_edges
parse_reference_range_example = parse_reference_range diamond diamond_parsed

abbrev tool_step : Text → StepFields ℕ
tool_step name = record {
  kind = codes "tool";
  tool_name = some name;
  arguments = none;
  attempt = absent;
}

abbrev steps : List (StepFields ℕ)
steps = tool_step a ∷ tool_step c ∷ tool_step b ∷ tool_step d ∷ []

abbrev right_first : List Text
right_first = a ∷ c ∷ b ∷ d ∷ []

abbrev found : Profile
found = record {
  mode = dag;
  score = 10000;
  matched = true;
  threshold = 10000;
  metrics = record { exact_score = 0; edit_score = 5000; dag_score = 10000 };
  actual_sequence = right_first;
  reference_sequence = a ∷ b ∷ c ∷ d ∷ [];
  reference_form = dag_form;
}

diamond_matched : match_trajectory normalize ratio steps diamond none ≡ some found
unfolding program
diamond_matched = refl

match_trajectory_dag_example :
    (r : Reference) × (parse_reference diamond ≡ some r)
    × Carried r.edges
        (tool_of (map normalize r.tools))
        (length r.tools)
        (λ k. false)
        (map normalize (extract_tool_sequence steps))
match_trajectory_dag_example =
    match_trajectory_dag normalize ratio steps diamond none diamond_matched refl refl

abbrev there_and_back : List Text
there_and_back = a ∷ b ∷ a ∷ []

abbrev listed : Profile
listed = record {
  mode = edit;
  score = 5000;
  matched = false;
  threshold = 9000;
  metrics = record { exact_score = 10000; edit_score = 5000; dag_score = 10000 };
  actual_sequence = there_and_back;
  reference_sequence = there_and_back;
  reference_form = sequence_form;
}

there_and_back_scored :
    match_trajectory normalize ratio
      (tool_step a ∷ tool_step b ∷ tool_step a ∷ [])
      (names there_and_back)
      none
    ≡ some listed
unfolding program
there_and_back_scored = refl

match_trajectory_chain_example :
    (listed.metrics.dag_score ≡ listed.metrics.exact_score)
    × ((listed.metrics.dag_score ≡ 10000) ↔ (
        map normalize (extract_tool_sequence (tool_step a ∷ tool_step b ∷ tool_step a ∷ []))
        ≡ map normalize listed.reference_sequence))
match_trajectory_chain_example =
    match_trajectory_chain normalize ratio (tool_step a ∷ tool_step b ∷ tool_step a ∷ [])
      (names there_and_back) none there_and_back_scored refl

diamond_in_range : All (λ (e : Edge). e.1 < length diamond_ref.tools) diamond_edges
diamond_in_range = (omega arith, (omega arith, (omega arith, (omega arith, tt))))

differ : (s t : Text) → (s == t) ≡ false → s ≢ t
differ s t h e = ground (arith, h, (text_eq.equals_iff s t).1 e)

apart_names : AreApart (map normalize diamond_ref.tools)
unfolding text_beq
apart_names = (
  (differ a b refl, (differ a c refl, (differ a d refl, tt))),
  ((differ b c refl, (differ b d refl, tt)), ((differ c d refl, tt), (tt, tt))),
)

dag_consistency_exact_example :
    (dag_consistency normalize right_first diamond_ref.tools diamond_edges ≡ true) ↔ (
      (same_multiset (map normalize right_first) (map normalize diamond_ref.tools) ≡ true)
      × Carried diamond_edges
          (tool_of (map normalize diamond_ref.tools))
          (length diamond_ref.tools)
          (λ k. false)
          (map normalize right_first))
dag_consistency_exact_example =
    dag_consistency_exact normalize right_first diamond_ref.tools diamond_edges diamond_in_range
      apart_names

-- A chain in which one tool stands twice.
abbrev back_and_forth : List Text
back_and_forth = a ∷ b ∷ a ∷ []

abbrev chain_edges : List Edge
chain_edges = (0, 1) ∷ (1, 2) ∷ []

chain_accepted : dag_consistency normalize back_and_forth back_and_forth chain_edges ≡ true
unfolding program
chain_accepted = refl

dag_consistency_sound_example :
    (same_multiset (map normalize back_and_forth) (map normalize back_and_forth) ≡ true)
    × Carried chain_edges
        (tool_of (map normalize back_and_forth))
        (length back_and_forth)
        (λ k. false)
        (map normalize back_and_forth)
dag_consistency_sound_example =
    dag_consistency_sound normalize back_and_forth back_and_forth chain_edges
      (omega arith, (omega arith, tt)) chain_accepted

abbrev diamond_order : List ℕ
diamond_order = 0 ∷ 1 ∷ 2 ∷ 3 ∷ []

diamond_sorted : topological_order 4 diamond_edges ≡ some diamond_order
unfolding program
diamond_sorted = refl

topological_order-IsOrder_example :
    IsOrder diamond_edges (λ k. false) diamond_order
    × All (λ n. n < 4) diamond_order
    × (length diamond_order ≡ 4)
topological_order-IsOrder_example =
    topological_order-IsOrder 4 diamond_edges diamond_in_range diamond_sorted
