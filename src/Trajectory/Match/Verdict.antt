-- ===== src/Trajectory/Match/Verdict.antt =====
-- What a match says of the run.
use eval_hive.Base.{
  none, [], ◌∷◌, Option, ℕ, ◌≡◌, ◌↔◌, refl, ap, ◌∙◌, Bool, true, false, some, List, Text, text_eq,
  if◌then◌else◌, map, length, arith, Option-cases, inl, inr, leb,
}
use eval_hive.Loops.Keys.{StepFields}
use eval_hive.Trajectory.Dag.{dag_consistency, tool_of}
use eval_hive.Trajectory.Dag.Sound.{Carried, dag_consistency_sound}
use eval_hive.Trajectory.Reference.{
  dag_ref, dag_form, EdgeJson, read_nodes, read_edges, topological_order, names, object, other_json,
  sequence_form, NodeJson, nodes_ref, sequence_ref, chain, edit, Mode, dag, Canonical, Reference,
  parse_reference,
}
use eval_hive.Trajectory.Reference.Range.{parse_reference_range}
use eval_hive.Trajectory.Match.Chain.{dag_consistency-chain}
use eval_hive.Trajectory.Match.{
  same_names, exact_match, extract_tool_sequence, metric, score_run, match_trajectory, Profile,
}

-- A binary score passes its threshold exactly when it is full.
full_score : (b : Bool) → (leb 10000 (if b then 10000 else 0) ≡ true) ↔ (b ≡ true)
full_score true = (λ h. refl, λ h. refl)
full_score false = (λ h. cc, λ h. cc)

module _ {A : Type 0} (normalize : Text → Text) (ratio : List Text → List Text → ℕ) where
  -- A run whose profile has the mode "dag", be it of the reference or of the call, matches only if the
  -- reference can be used and the normalized names of the run's tool calls are the tools of an order of
  -- its nodes in which each node comes at most once and none before a predecessor of it.
  pub match_trajectory_dag :
      (steps : List (StepFields A)) (c : Canonical) (mode : Option Mode) {p : Profile}
      → match_trajectory normalize ratio steps c mode ≡ some p
      → p.mode ≡ dag
      → p.matched ≡ true
      → (r : Reference) × (parse_reference c ≡ some r)
        × Carried r.edges
            (tool_of (map normalize r.tools))
            (length r.tools)
            (λ k. false)
            (map normalize (extract_tool_sequence steps))
  unfolding match_trajectory score_run metric
  match_trajectory_dag steps c mode {p} h in_dag m = elim (Option-cases (parse_reference c)) [
    | inl bad ↦ absurd (ground (arith, bad, h))
    | inr (r, e) ↦
        let whole : score_run normalize ratio (extract_tool_sequence steps) r mode ≡ p =
          ground (arith, e, h) in
        let used : (score_run normalize ratio (extract_tool_sequence steps) r mode).mode ≡ dag =
          ap (λ q. q.mode) whole ∙ in_dag in
        let good : dag_consistency normalize (extract_tool_sequence steps) r.tools r.edges ≡ true =
          (full_score _).0 (rw used at (ap (λ q. q.matched) whole ∙ m)) in
        (
          r,
          e,
          (dag_consistency_sound normalize _ r.tools r.edges (parse_reference_range c e) good).1,
        )
  ]

same_names_iff : (a b : List Text) → (same_names a b ≡ true) ↔ (a ≡ b)
unfolding same_names
same_names_iff [] [] = ground arith
same_names_iff [] (y ∷ ys) = ground arith
same_names_iff (x ∷ xs) [] = ground arith
same_names_iff (x ∷ xs) (y ∷ ys) = ground (arith, text_eq.equals_iff x y, same_names_iff xs ys)

-- Two tests that say the same.
scores_agree :
    {P : Type 0} (a b : Bool)
    → (a ≡ true) ↔ P
    → (b ≡ true) ↔ P
    → (◌≡◌ {A = ℕ} (if a then 10000 else 0) (if b then 10000 else 0))
      × ((◌≡◌ {A = ℕ} (if a then 10000 else 0) 10000) ↔ P)
scores_agree true true f g = (refl, (λ h. f.0 refl, λ p. refl))
scores_agree true false f g = absurd (cc (g.1 (f.0 refl)))
scores_agree false true f g = absurd (cc (f.1 (g.0 refl)))
scores_agree false false f g = (refl, (λ h. absurd (omega (arith, h)), λ p. absurd (cc (f.1 p))))

form-dag_ref :
    (nodes : List NodeJson) (edges : List EdgeJson) (mode : Mode) (threshold : ℕ) {r : Reference}
    → dag_ref nodes edges mode threshold ≡ some r
    → r.form ≡ dag_form
unfolding dag_ref
form-dag_ref nodes edges mode threshold h = elim (Option-cases (read_nodes [] 0 nodes)) [
  | inl e ↦ absurd (ground (arith, e, h))
  | inr (x, e) ↦ elim (Option-cases (read_edges x.0 edges)) [
    | inl e2 ↦ absurd (ground (arith, e, e2, h))
    | inr (es, e2) ↦ elim (Option-cases (topological_order (length x.1) es)) [
      | inl e3 ↦ absurd (ground (arith, e, e2, e3, h))
      | inr (order, e3) ↦ ground (arith, e, e2, e3, h)
    ]
  ]
]

-- A list of tools is its own order, and its edges are its chain.
sequence-parse_reference :
    (c : Canonical) {r : Reference}
    → parse_reference c ≡ some r
    → r.form ≡ sequence_form
    → (r.edges ≡ chain r.linear) × (r.tools ≡ r.linear)
unfolding parse_reference sequence_ref
sequence-parse_reference (names l) h f = ground (arith, h)
sequence-parse_reference other_json h f = cc
sequence-parse_reference (object o) {r} h f = elim (Option-cases o.sequence) [
  | inr (l, e) ↦ ground (arith, e, h)
  | inl e ↦ absurd (no_nodes o.nodes (rw e at h))
]
  where
    no_nodes :
        (nodes : Option (List NodeJson))
        → nodes_ref nodes o.edges
            (elim o.match_mode [ none ↦ edit | some m ↦ m ])
            (elim o.match_threshold [ none ↦ 9000 | some t ↦ t ])
          ≡ some r
        → ⊥
    no_nodes none g = cc
    no_nodes (some []) g = cc
    no_nodes (some (n ∷ ns)) g =
        let dag_shaped = form-dag_ref (n ∷ ns) o.edges _ _ g in cc (dag_shaped, f)

module _ {A : Type 0} (normalize : Text → Text) (ratio : List Text → List Text → ℕ) where
  -- For a reference that is a list of tools, the score of the walk over its chain is the score of the
  -- exact comparison, in any mode and with repeated tools too; and it is full exactly when the normalized
  -- names of the run's tool calls are those of the list, in their order.
  pub match_trajectory_chain :
      (steps : List (StepFields A)) (c : Canonical) (mode : Option Mode) {p : Profile}
      → match_trajectory normalize ratio steps c mode ≡ some p
      → p.reference_form ≡ sequence_form
      → (p.metrics.dag_score ≡ p.metrics.exact_score)
        × ((p.metrics.dag_score ≡ 10000)
            ↔ (map normalize (extract_tool_sequence steps) ≡ map normalize p.reference_sequence))
  unfolding match_trajectory score_run exact_match
  match_trajectory_chain steps c mode {p} h listed = elim (Option-cases (parse_reference c)) [
    | inl bad ↦ absurd (ground (arith, bad, h))
    | inr (r, e) ↦
        let actual = extract_tool_sequence steps in
        let whole : score_run normalize ratio actual r mode ≡ p = ground (arith, e, h) in
        let form : r.form ≡ sequence_form = ap (λ q. q.reference_form) whole ∙ listed in
        let (edges, tools) = sequence-parse_reference c e form in
        let walk : (dag_consistency normalize actual r.tools r.edges ≡ true)
            ↔ (map normalize actual ≡ map normalize r.linear) =
          rw (edges, tools) (dag_consistency-chain normalize actual r.linear) in
        rw (← whole) (
          scores_agree (dag_consistency normalize actual r.tools r.edges)
            (same_names (map normalize actual) (map normalize r.linear)) walk
            (same_names_iff (map normalize actual) (map normalize r.linear)))
  ]
