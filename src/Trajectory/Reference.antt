-- ===== src/Trajectory/Reference.antt =====
-- `parse_reference` and `_topological_order` of backend/app/quality/trajectory_match.py. The JSON of a
-- reference is read into the cases that the code tells apart.
pub mod Range
pub mod Order
use eval_hive.Base.{
  ℕ, zero, suc, ◌+◌, ◌-◌, Bool, true, false, ◌&&◌, not, Option, none, some, List, [], ◌∷◌, ◌++◌,
  Text, codes, ◌==◌, nat_eq, text_eq, Eq, if◌then◌else◌, map, length, leb,
}
use eval_hive.Loops.Keys.{decimal, is_empty}
use eval_hive.Trajectory.Dag.{Edge, in_degree, successors, tool_of}

pub data Mode : Type 0 where
  exact edit dag : Mode

pub data Form : Type 0 where
  sequence_form dag_form : Form

-- A member of `nodes`: no object with a tool, or one with an identifier and a tool.
pub data NodeJson : Type 0 where
  not_a_node : NodeJson
  node : Option Text → Text → NodeJson

pub data EdgeJson : Type 0 where
  not_a_pair : EdgeJson
  pair : Text → Text → EdgeJson

-- The keys of the object. `none` stands for a value that the code ignores. A threshold is a finite number,
-- rounded up to ten-thousandths, in which scores are counted. `edges` is a list; where the key is missing it
-- is empty.
pub record Fields : Type 0 where
  pub match_mode : Option Mode
  pub match_threshold : Option ℕ
  pub sequence : Option (List Text)
  pub nodes : Option (List NodeJson)
  pub edges : List EdgeJson

pub data Canonical : Type 0 where
  names : List Text → Canonical
  object : Fields → Canonical
  other_json : Canonical

pub record Reference : Type 0 where
  pub tools : List Text
  pub edges : List Edge
  pub linear : List Text
  pub form : Form
  pub match_mode : Mode
  pub match_threshold : ℕ

-- ready.sort(key=node_ids.index), where the nodes are 0, 1, 2, ...
unfoldable pub insert_node : ℕ → List ℕ → List ℕ
insert_node n [] = n ∷ []
insert_node n (m ∷ l) = let rest = insert_node n l in if leb n m then n ∷ (m ∷ l) else m ∷ rest

unfoldable pub sort_nodes : List ℕ → List ℕ
unfolding insert_node
sort_nodes [] = []
sort_nodes (n ∷ l) = insert_node n (sort_nodes l)

pub record Kahn : Type 0 where
  pub indeg : ℕ → ℕ
  pub ready : List ℕ

-- The loop over the successors of a node.
unfoldable pub release : List ℕ → Kahn → Kahn
unfolding sort_nodes
release [] k = k
release (m ∷ ms) k = release ms (record {
  indeg = λ j. if m == j then k.indeg j - 1 else k.indeg j;
  ready = if k.indeg m == 1 then sort_nodes (k.ready ++ (m ∷ [])) else k.ready;
})

-- `while ready`, on fuel.
unfoldable pub kahn_loop : ℕ → List Edge → Kahn → List ℕ
unfolding release
kahn_loop zero edges k = []
kahn_loop (suc f) edges k = elim k.ready [
  | [] ↦ []
  | ◌∷◌ n rest ↦ n ∷ kahn_loop f edges (release (successors edges n) (record k { ready = rest }))
]

-- [n for n in node_ids if indeg[n] == 0], from `i` on
unfoldable pub initial_ready : List Edge → ℕ → ℕ → List ℕ
initial_ready edges i zero = []
initial_ready edges i (suc rounds) =
    let rest = initial_ready edges (i + 1) rounds in
    if in_degree edges i == 0 then i ∷ rest else rest

-- The fuel allows one node more than there are, since a longer order is refused anyway.
unfoldable pub topological_order : ℕ → List Edge → Option (List ℕ)
unfolding kahn_loop initial_ready
topological_order size edges =
    let order =
      kahn_loop (suc size) edges
        (record { indeg = in_degree edges; ready = initial_ready edges 0 size }) in
    if length order == size then some order else none

-- The chain: each element before the next, from the index `i` on.
unfoldable pub chain_from : ℕ → List Text → List Edge
chain_from i [] = []
chain_from i (t ∷ l) = (i, i + 1) ∷ chain_from (i + 1) l

unfoldable pub chain : List Text → List Edge
unfolding chain_from
chain [] = []
chain (t ∷ l) = chain_from 0 l

unfoldable pub sequence_ref : List Text → Mode → ℕ → Reference
unfolding chain
sequence_ref seq mode threshold = record {
  tools = seq;
  edges = chain seq;
  linear = seq;
  form = sequence_form;
  match_mode = mode;
  match_threshold = threshold;
}

-- idx_of[id], in the identifiers of the nodes in their order
unfoldable pub index_of : Text → ℕ → List Text → Option ℕ
index_of x i [] = none
index_of x i (y ∷ l) = let rest = index_of x (i + 1) l in if y == x then some i else rest

-- str(n.get("id") or f"_n{i}")
unfoldable pub node_id : Option Text → ℕ → Text
node_id none i = codes "_n" ++ decimal i
node_id (some t) i = if is_empty t then codes "_n" ++ decimal i else t

-- The identifiers and the tools of the nodes, after those in `ids`.
unfoldable pub read_nodes : List Text → ℕ → List NodeJson → Option (List Text × List Text)
unfolding node_id index_of
read_nodes ids i [] = some (ids, [])
read_nodes ids i (not_a_node ∷ l) = none
read_nodes ids i (node id tool ∷ l) =
    let rest = read_nodes (ids ++ (node_id id i ∷ [])) (i + 1) l in
    elim (index_of (node_id id i) 0 ids) [
      | some j ↦ none
      | none ↦ elim rest [ none ↦ none | some r ↦ some (r.0, tool ∷ r.1) ]
    ]

unfoldable pub read_edge : List Text → EdgeJson → Option Edge
unfolding index_of
read_edge ids not_a_pair = none
read_edge ids (pair u v) = elim (index_of u 0 ids) [
  | none ↦ none
  | some i ↦ elim (index_of v 0 ids) [ none ↦ none | some j ↦ some (i, j) ]
]

unfoldable pub read_edges : List Text → List EdgeJson → Option (List Edge)
unfolding read_edge
read_edges ids [] = some []
read_edges ids (e ∷ l) =
    let rest = read_edges ids l in
    elim (read_edge ids e) [
      | none ↦ none
      | some edge ↦ elim rest [ none ↦ none | some es ↦ some (edge ∷ es) ]
    ]

unfoldable pub dag_ref : List NodeJson → List EdgeJson → Mode → ℕ → Option Reference
unfolding read_nodes read_edges topological_order
dag_ref nodes edges mode threshold = elim (read_nodes [] 0 nodes) [
  | none ↦ none
  | some r ↦ elim (read_edges r.0 edges) [
    | none ↦ none
    | some es ↦ elim (topological_order (length r.1) es) [
      | none ↦ none
      | some order ↦ some (record {
        tools = r.1;
        edges = es;
        linear = map (tool_of r.1) order;
        form = dag_form;
        match_mode = mode;
        match_threshold = threshold;
      })
    ]
  ]
]

-- `isinstance(nodes, list) and nodes`
unfoldable pub nodes_ref : Option (List NodeJson) → List EdgeJson → Mode → ℕ → Option Reference
nodes_ref none edges mode threshold = none
nodes_ref (some []) edges mode threshold = none
nodes_ref (some (n ∷ ns)) edges mode threshold = dag_ref (n ∷ ns) edges mode threshold

-- `none` where the code raises ValueError.
unfoldable pub parse_reference : Canonical → Option Reference
unfolding sequence_ref nodes_ref
parse_reference (names l) = some (sequence_ref l edit 9000)
parse_reference other_json = none
parse_reference (object o) =
    let mode : Mode = elim o.match_mode [ none ↦ edit | some m ↦ m ] in
    let threshold : ℕ = elim o.match_threshold [ none ↦ 9000 | some t ↦ t ] in
    elim o.sequence [
      | some l ↦ some (sequence_ref l mode threshold)
      | none ↦ nodes_ref o.nodes o.edges mode threshold
    ]
