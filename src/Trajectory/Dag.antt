-- ===== src/Trajectory/Dag.antt =====
-- `dag_consistency` of backend/app/quality/trajectory_match.py: Kahn's algorithm, driven by the order of the
-- actual calls. A node is its index; an edge is a pair of indices. `expected` gives the normalized tool of
-- a node.
pub mod Counts
pub mod Queues
pub mod Start
pub mod Sound
pub mod Complete
use eval_hive.Base.{
  ℕ, zero, suc, ◌+◌, ◌-◌, Bool, true, false, ◌&&◌, not, List, [], ◌∷◌, ◌++◌, Text, ◌==◌, nat_eq,
  text_eq, Eq, if◌then◌else◌, map, length,
}

abbrev pub Edge : Type 0
Edge = ℕ × ℕ

-- indeg[n]
unfoldable pub in_degree : List Edge → ℕ → ℕ
in_degree [] n = 0
in_degree ((u, v) ∷ es) n = (if v == n then 1 else 0) + in_degree es n

-- adj[n]
unfoldable pub successors : List Edge → ℕ → List ℕ
successors [] n = []
successors ((u, v) ∷ es) n = let rest = successors es n in if u == n then v ∷ rest else rest

-- What the walk changes: the number of predecessors that are left, and the queues of the nodes that have
-- none, by tool.
pub record Walk : Type 0 where
  pub indeg : ℕ → ℕ
  pub available : Text → List ℕ

-- available.setdefault(tool, deque()).append(node)
unfoldable pub enqueue : Text → ℕ → (Text → List ℕ) → Text → List ℕ
enqueue tool node available t = if tool == t then available t ++ (node ∷ []) else available t

-- `indeg[m] -= 1`, and the test whether it has become 0.
unfoldable pub unlock_one : (ℕ → Text) → ℕ → Walk → Walk
unfolding enqueue
unlock_one expected m w = record {
  indeg = λ k. if m == k then w.indeg k - 1 else w.indeg k;
  available = if w.indeg m == 1 then enqueue (expected m) m w.available else w.available;
}

unfoldable pub unlock : (ℕ → Text) → List ℕ → Walk → Walk
unfolding unlock_one
unlock expected [] w = w
unlock expected (m ∷ ms) w = unlock expected ms (unlock_one expected m w)

-- bucket.popleft(), which leaves `rest`
unfoldable pub dequeue : Text → List ℕ → (Text → List ℕ) → Text → List ℕ
dequeue tool rest available t = if tool == t then rest else available t

-- The walk over the actual calls: whether every call finds an available node.
unfoldable pub follow : List Edge → (ℕ → Text) → List Text → Walk → Bool
unfolding unlock dequeue
follow edges expected [] w = true
follow edges expected (t ∷ ts) w = elim (w.available t) [
  | [] ↦ false
  | ◌∷◌ node rest ↦ follow edges expected ts (
      unlock expected (successors edges node) (record w { available = dequeue t rest w.available }))
]

-- The queues before the walk: the nodes from `i` on, `rounds` of them, without predecessors.
unfoldable pub sources : List Edge → (ℕ → Text) → ℕ → ℕ → (Text → List ℕ) → Text → List ℕ
unfolding enqueue
sources edges expected i zero available = available
sources edges expected i (suc rounds) available =
    sources edges expected (i + 1) rounds
      (if in_degree edges i == 0 then enqueue (expected i) i available else available)

unfoldable pub count : {A : Type 0} ⦃eq : Eq A⦄ → A → List A → ℕ
count x [] = 0
count x (y ∷ l) = (if y == x then 1 else 0) + count x l

-- Counter(a) == Counter(b)
unfoldable pub same_counts : List Text → List Text → List Text → Bool
unfolding count
same_counts a b [] = true
same_counts a b (x ∷ l) = (count x a == count x b) && same_counts a b l

unfoldable pub same_multiset : List Text → List Text → Bool
unfolding same_counts
same_multiset a b = same_counts a b (a ++ b)

-- expected[i]; the indices that occur are in range.
unfoldable pub tool_of : List Text → ℕ → Text
tool_of [] i = []
tool_of (t ∷ ts) zero = t
tool_of (t ∷ ts) (suc i) = tool_of ts i

-- Whether the score is 1. `normalize` is the stripped lower case of a name.
unfoldable pub dag_consistency : (Text → Text) → List Text → List Text → List Edge → Bool
unfolding same_multiset follow sources in_degree tool_of
dag_consistency normalize actual tools edges =
    let a = map normalize actual in
    let expected = map normalize tools in
    let start : Walk = record {
      indeg = in_degree edges;
      available = sources edges (tool_of expected) 0 (length tools) (λ t. []);
    } in
    same_multiset a expected && follow edges (tool_of expected) a start
