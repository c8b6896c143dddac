-- ===== src/Trajectory/Reference/Range.antt =====
-- The indices in the edges of a reference.
use eval_hive.Base.{
  ℕ, suc, ◌+◌, ◌<◌, ◌≡◌, Option, none, some, List, [], ◌∷◌, ◌++◌, Text, ◌==◌, nat_eq, text_eq,
  length, length-append, All, arith, Bool-cases, Option-cases, inl, inr, subst,
}
use eval_hive.Trajectory.Dag.{Edge}
use eval_hive.Trajectory.Reference.{
  chain, chain_from, sequence_ref, index_of, read_nodes, read_edge, read_edges, NodeJson,
  not_a_node, node, EdgeJson, not_a_pair, pair, Mode, dag_ref, Canonical, names, object, other_json,
  parse_reference, Reference, topological_order, node_id, edit, nodes_ref,
}

index_of_bounds :
    (x : Text) (i : ℕ) (l : List Text) {j : ℕ} → index_of x i l ≡ some j → j < i + length l
unfolding index_of
index_of_bounds x i [] h = cc
index_of_bounds x i (y ∷ l) {j} h = elim (Bool-cases (y == x)) [
  | inl here ↦ ground (arith, here)
  | inr there ↦ let p = index_of_bounds x (i + 1) l (rw there at h) in omega arith
]

-- There are as many tools as identifiers.
read_nodes-length :
    (ids : List Text) (i : ℕ) (l : List NodeJson) {a b : List Text}
    → read_nodes ids i l ≡ some (a, b)
    → length a ≡ length ids + length b
unfolding read_nodes
read_nodes-length ids i [] h = ground arith
read_nodes-length ids i (not_a_node ∷ l) h = cc
read_nodes-length ids i (node id tool ∷ l) {a} {b} h =
    let ids' = ids ++ (node_id id i ∷ []) in
    elim (Option-cases (index_of (node_id id i) 0 ids)) [
      | inr (j, old) ↦ absurd (ground (arith, old, h))
      | inl new ↦ elim (Option-cases (read_nodes ids' (i + 1) l)) [
        | inl bad ↦ absurd (ground (arith, new, bad, h))
        | inr (r, e) ↦
            let ih : length r.0 ≡ length ids' + length r.1 = read_nodes-length ids' (i + 1) l e in
            ground (arith, new, e, h, ih, length-append ids (node_id id i ∷ []))
      ]
    ]

read_edge_range :
    (ids : List Text) (e : EdgeJson) {edge : Edge}
    → read_edge ids e ≡ some edge
    → edge.1 < length ids
unfolding read_edge
read_edge_range ids not_a_pair h = cc
read_edge_range ids (pair u v) {edge} h = elim (Option-cases (index_of u 0 ids)) [
  | inl bad ↦ absurd (ground (arith, bad, h))
  | inr (i, e) ↦ elim (Option-cases (index_of v 0 ids)) [
    | inl bad ↦ absurd (ground (arith, e, bad, h))
    | inr (j, f) ↦ ground (arith, e, f, h, index_of_bounds v 0 ids f)
  ]
]

read_edges_range :
    (ids : List Text) (l : List EdgeJson) {es : List Edge}
    → read_edges ids l ≡ some es
    → All (λ (e : Edge). e.1 < length ids) es
unfolding read_edges
read_edges_range ids [] {es} h =
    let none_left : [] ≡ es = ground (arith, h) in
    subst (All (λ (e : Edge). e.1 < length ids)) none_left tt
read_edges_range ids (x ∷ l) {es} h = elim (Option-cases (read_edge ids x)) [
  | inl bad ↦ absurd (ground (arith, bad, h))
  | inr (e, one) ↦ elim (Option-cases (read_edges ids l)) [
    | inl bad ↦ absurd (ground (arith, one, bad, h))
    | inr (es', rest) ↦
        let whole : (e ∷ es') ≡ es = ground (arith, one, rest, h) in
        subst (All (λ (e : Edge). e.1 < length ids)) whole
          (read_edge_range ids x one, read_edges_range ids l rest)
  ]
]

chain_from_range :
    (i : ℕ) (l : List Text) → All (λ (e : Edge). e.1 < suc (i + length l)) (chain_from i l)
unfolding chain_from
chain_from_range i [] = tt
chain_from_range i (t ∷ l) = (
  omega arith,
  subst (λ n. All (λ (e : Edge). e.1 < suc n) (chain_from (i + 1) l)) (omega arith)
      (chain_from_range (i + 1) l),
)

chain_range : (l : List Text) → All (λ (e : Edge). e.1 < length l) (chain l)
unfolding chain
chain_range [] = tt
chain_range (t ∷ l) =
    let e : suc (0 + length l) ≡ suc (length l) = omega arith in
    subst (λ n. All (λ (e : Edge). e.1 < n) (chain_from 0 l)) e (chain_from_range 0 l)

dag_ref_range :
    (nodes : List NodeJson) (edges : List EdgeJson) (mode : Mode) (threshold : ℕ) {r : Reference}
    → dag_ref nodes edges mode threshold ≡ some r
    → All (λ (e : Edge). e.1 < length r.tools) r.edges
unfolding dag_ref
dag_ref_range nodes edges mode threshold {r} h = elim (Option-cases (read_nodes [] 0 nodes)) [
  | inl bad ↦ absurd (ground (arith, bad, h))
  | inr (p, nodes_read) ↦ elim (Option-cases (read_edges p.0 edges)) [
    | inl bad ↦ absurd (ground (arith, nodes_read, bad, h))
    | inr (es, edges_read) ↦ elim (Option-cases (topological_order (length p.1) es)) [
      | inl bad ↦ absurd (ground (arith, nodes_read, edges_read, bad, h))
      | inr (order, sorted) ↦
          let same : length p.0 ≡ length p.1 =
            omega (arith, read_nodes-length [] 0 nodes nodes_read) in
          let tools : p.1 ≡ r.tools = ground (arith, nodes_read, edges_read, sorted, h) in
          let es' : es ≡ r.edges = ground (arith, nodes_read, edges_read, sorted, h) in
          rw (← tools, ← es', ← same) (read_edges_range p.0 edges edges_read)
    ]
  ]
]

sequence_ref_range :
    (l : List Text) (mode : Mode) (threshold : ℕ) (r : Reference)
    → sequence_ref l mode threshold ≡ r
    → All (λ (e : Edge). e.1 < length r.tools) r.edges
unfolding sequence_ref
sequence_ref_range l mode threshold r h =
    subst (λ r. All (λ (e : Edge). e.1 < length r.tools) r.edges) h (chain_range l)

nodes_ref_range :
    (nodes : Option (List NodeJson)) (edges : List EdgeJson) (mode : Mode) (threshold : ℕ)
    (r : Reference)
    → nodes_ref nodes edges mode threshold ≡ some r
    → All (λ (e : Edge). e.1 < length r.tools) r.edges
unfolding nodes_ref
nodes_ref_range none edges mode threshold r h = cc
nodes_ref_range (some []) edges mode threshold r h = cc
nodes_ref_range (some (n ∷ ns)) edges mode threshold r h =
    dag_ref_range (n ∷ ns) edges mode threshold h

-- Every edge of a reference that can be used leads to one of its nodes.
pub parse_reference_range :
    (c : Canonical) {r : Reference}
    → parse_reference c ≡ some r
    → All (λ (e : Edge). e.1 < length r.tools) r.edges
unfolding parse_reference
parse_reference_range (names l) {r} h = sequence_ref_range l edit 9000 r (ground (arith, h))
parse_reference_range other_json h = cc
parse_reference_range (object o) {r} h =
    let mode : Mode = elim o.match_mode [ none ↦ edit | some m ↦ m ] in
    let threshold : ℕ = elim o.match_threshold [ none ↦ 9000 | some t ↦ t ] in
    elim (Option-cases o.sequence) [
      | inr (l, e) ↦ sequence_ref_range l mode threshold r (ground (arith, e, h))
      | inl no_sequence ↦
          nodes_ref_range o.nodes o.edges mode threshold r (ground (arith, no_sequence, h))
    ]
