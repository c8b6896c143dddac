-- ===== src/Trajectory/Dag/Complete.antt =====
-- Orders that respect the edges, against the walk of `dag_consistency`, for nodes of different tools.
use eval_hive.Base.{
  ℕ, zero, suc, ◌+◌, ◌<◌, ◌≡◌, ◌≢◌, ◌↔◌, refl, sym, ap, subst, ◌⊎◌, inl, inr, Bool, true, false,
  List, [], ◌∷◌, ◌++◌, Text, ◌==◌, nat_eq, text_eq, ==→≡, ==-refl, map, length, All, arith,
  Bool-cases,
}
use eval_hive.Trajectory.Dag.{
  Edge, in_degree, successors, Walk, enqueue, unlock_one, unlock, dequeue, follow, sources, count,
  tool_of, same_multiset, dag_consistency,
}
use eval_hive.Trajectory.Dag.Counts.{mark, IsOrder, All-from_done}
use eval_hive.Trajectory.Dag.Queues.{IsReady, Follows, unlock-Follows, dequeue-Follows}
use eval_hive.Trajectory.Dag.Start.{sources-AreQueues, AreQueues-Follows}
use eval_hive.Trajectory.Dag.Sound.{Carried, dag_consistency_sound}

abbrev IsIn : ℕ → List ℕ → Type 0
IsIn n [] = ⊥
IsIn n (x ∷ l) = (x ≡ n) ⊎ IsIn n l

IsIn-snoc : (n x : ℕ) (l : List ℕ) → IsIn n l → IsIn n (l ++ (x ∷ []))
IsIn-snoc n x [] h = absurd h
IsIn-snoc n x (y ∷ l) (inl e) = inl e
IsIn-snoc n x (y ∷ l) (inr h) = inr (IsIn-snoc n x l h)

snoc_last : (n : ℕ) (l : List ℕ) → IsIn n (l ++ (n ∷ []))
snoc_last n [] = inl refl
snoc_last n (y ∷ l) = inr (snoc_last n l)

IsIn-enqueue :
    (t u : Text) (n x : ℕ) (available : Text → List ℕ)
    → IsIn n (available u)
    → IsIn n (enqueue t x available u)
unfolding enqueue
IsIn-enqueue t u n x available h = elim (Bool-cases (t == u)) [
  | inl here ↦ rw here (IsIn-snoc n x (available u) h)
  | inr there ↦ rw there h
]

enqueue_last : (t : Text) (n : ℕ) (available : Text → List ℕ) → IsIn n (enqueue t n available t)
unfolding enqueue
enqueue_last t n available = rw (==-refl t) (snoc_last n (available t))

module _ (edges : List Edge) (expected : ℕ → Text) (size : ℕ) where
  -- Every node without open predecessors waits in the queue of its tool.
  abbrev IsServed : (ℕ → Bool) → Walk → Type 0
  IsServed done w =
      (n : ℕ) → n < size → done n ≡ false → w.indeg n ≡ 0 → IsIn n (w.available (expected n))

  unlock_one-IsServed :
      (done : ℕ → Bool) (m : ℕ) (w : Walk)
      → IsServed done w
      → IsServed done (unlock_one expected m w)
  unfolding unlock_one
  unlock_one-IsServed done m w s n inside new zero_left = elim (Bool-cases (w.indeg m == 1)) [
    | inl one ↦ rw one (elim (Bool-cases (m == n)) [
      | inl same ↦
          subst (λ k. IsIn k (enqueue (expected m) m w.available (expected k))) (==→≡ m n same)
            (enqueue_last (expected m) m w.available)
      | inr other ↦
          IsIn-enqueue (expected m) (expected n) n m w.available
            (s n inside new (rw other at zero_left))
    ])
    | inr more ↦ rw more (s n inside new (ground (arith, more, zero_left)))
  ]

  unlock-IsServed :
      (done : ℕ → Bool) (ms : List ℕ) (w : Walk)
      → IsServed done w
      → IsServed done (unlock expected ms w)
  unfolding unlock
  unlock-IsServed done [] w s = s
  unlock-IsServed done (m ∷ ms) w s =
      unlock-IsServed done ms (unlock_one expected m w) (unlock_one-IsServed done m w s)

  IsIn-rest : (x n : ℕ) (rest : List ℕ) → (x == n) ≡ false → IsIn n (x ∷ rest) → IsIn n rest
  IsIn-rest x n rest d (inl e) = absurd (ground (arith, e, d))
  IsIn-rest x n rest d (inr h) = h

  dequeue-IsServed :
      (done : ℕ → Bool) (x : ℕ) (t : Text) (rest : List ℕ) (w : Walk)
      → w.available t ≡ x ∷ rest
      → IsServed done w
      → IsServed (mark x done) (record w { available = dequeue t rest w.available })
  unfolding dequeue
  dequeue-IsServed done x t rest w e s n inside new zero_left =
      let other : (x == n) ≡ false = ground (arith, new) in
      let before = s n inside (ground (arith, new)) zero_left in
      elim (Bool-cases (t == expected n)) [
        | inl here ↦ rw here (
            IsIn-rest x n rest other (
              subst (λ l. IsIn n l) e
                (subst (λ u. IsIn n (w.available u)) (sym (==→≡ t (expected n) here)) before)))
        | inr there ↦ rw there before
      ]

  sources-IsServed :
      (i rounds m : ℕ) (available : Text → List ℕ)
      → i + rounds ≡ m
      → ((n : ℕ) → n < i → in_degree edges n ≡ 0 → IsIn n (available (expected n)))
      → (n : ℕ) → n < m
      → in_degree edges n ≡ 0
      → IsIn n (sources edges expected i rounds available (expected n))
  unfolding sources
  sources-IsServed i zero m available e s n lt z = s n (omega arith) z
  sources-IsServed i (suc rounds) m available e s n lt z =
      sources-IsServed (i + 1) rounds m _ (omega (arith, e))
        (λ k below free. elim (Bool-cases (in_degree edges i == 0)) [
          | inl here ↦ rw here (elim (Bool-cases (i == k)) [
            | inl same ↦
                subst (λ x. IsIn x (enqueue (expected i) i available (expected x))) (==→≡ i k same)
                  (enqueue_last (expected i) i available)
            | inr other ↦
                IsIn-enqueue (expected i) (expected k) k i available
                  (s k (ground (arith, other, below)) free)
          ])
          | inr there ↦ rw there (s k (ground (arith, there, below, free)) free)
        ])
        n lt z

  follow_complete :
      (done : ℕ → Bool) (order : List ℕ) (w : Walk)
      → All (λ (e : Edge). e.1 < size) edges
      → ((i j : ℕ) → i < size → j < size → expected i ≡ expected j → i ≡ j)
      → Follows edges expected size done [] w
      → IsServed done w
      → IsOrder edges done order
      → All (λ n. n < size) order
      → follow edges expected (map expected order) w ≡ true
  unfolding follow
  follow_complete done [] w bounded injective f s o known = refl
  follow_complete done (n ∷ order) w bounded injective f s o known =
      let t = expected n in
      let free : w.indeg n ≡ 0 =
        unfold count in omega (arith, f.balance n, All-from_done edges done n o.1) in
      let waits : IsIn n (w.available t) = s n known.0 o.0 free in
      elim (first_of (w.available t)) [
        | inl none_left ↦ absurd (subst (λ l. IsIn n l) none_left waits)
        | inr (x, rest, e) ↦
            let q : All (IsReady edges expected size done w.indeg t) (x ∷ rest) =
              subst (λ l. All (IsReady edges expected size done w.indeg t) l) e (f.queues t) in
            let same : x ≡ n = injective x n (q.0).3 known.0 (==→≡ (expected x) t (q.0).2) in
            let f' =
              unlock-Follows edges expected size (mark x done) (successors edges x) _
                (dequeue-Follows edges expected size done t x rest w bounded e f) in
            let s' =
              unlock-IsServed (mark x done) (successors edges x) _
                (dequeue-IsServed done x t rest w e s) in
            rw (follow, e)
              (follow_complete (mark x done) order _ bounded injective f' s'
                (subst (λ k. IsOrder edges (mark k done) order) (sym same) o.2) known.1)
      ]
    where
      first_of : (l : List ℕ) → (l ≡ []) ⊎ ((n : ℕ) × (rest : List ℕ) × (l ≡ n ∷ rest))
      first_of [] = inl refl
      first_of (n ∷ rest) = inr (n, rest, refl)

-- No two texts are equal.
abbrev pub AreApart : List Text → Type 0
AreApart [] = Unit
AreApart (t ∷ ts) = All (λ u. t ≢ u) ts × AreApart ts

apart_at :
    (t : Text) (ts : List Text) (i : ℕ) → All (λ u. t ≢ u) ts → i < length ts → t ≢ tool_of ts i
unfolding tool_of
apart_at t [] i h lt e = omega arith
apart_at t (u ∷ ts) zero h lt e = h.0 e
apart_at t (u ∷ ts) (suc i) h lt e = apart_at t ts i h.1 (omega arith) e

tool_of_injective :
    (ts : List Text) (i j : ℕ)
    → AreApart ts
    → i < length ts
    → j < length ts
    → tool_of ts i ≡ tool_of ts j
    → i ≡ j
unfolding tool_of
tool_of_injective [] i j a p q e = absurd (omega arith)
tool_of_injective (t ∷ ts) zero zero a p q e = refl
tool_of_injective (t ∷ ts) zero (suc j) a p q e = absurd (apart_at t ts j a.0 (omega arith) e)
tool_of_injective (t ∷ ts) (suc i) zero a p q e = absurd (apart_at t ts i a.0 (omega arith) (sym e))
tool_of_injective (t ∷ ts) (suc i) (suc j) a p q e =
    ap suc (tool_of_injective ts i j a.1 (omega arith) (omega arith) e)

pub length-map : (f : Text → Text) (l : List Text) → length (map f l) ≡ length l
length-map f [] = refl
length-map f (x ∷ l) = ap suc (length-map f l)

-- For a DAG whose edges lead to its nodes and whose nodes have different tools, the score is 1
-- exactly when the run has the same names as often as the DAG, and they are the tools of an order of
-- nodes in which each node comes at most once and none before a predecessor of it.
pub dag_consistency_exact :
    (normalize : Text → Text) (actual tools : List Text) (edges : List Edge)
    → All (λ (e : Edge). e.1 < length tools) edges
    → AreApart (map normalize tools)
    → (dag_consistency normalize actual tools edges ≡ true) ↔ (
        (same_multiset (map normalize actual) (map normalize tools) ≡ true)
        × Carried edges
            (tool_of (map normalize tools))
            (length tools)
            (λ k. false)
            (map normalize actual))
unfolding dag_consistency
dag_consistency_exact normalize actual tools edges bounded apart =
    let expected = tool_of (map normalize tools) in
    let size = length tools in
    let whole : length (map normalize tools) ≡ size = length-map normalize tools in
    let start : Walk = record {
      indeg = in_degree edges;
      available = sources edges expected 0 size (λ t. []);
    } in
    (
      dag_consistency_sound normalize actual tools edges bounded,
      λ (same, c).
          let q =
            sources-AreQueues edges expected size 0 size size (λ t. []) (omega arith) (omega arith)
              (record { queues = λ t. tt; distinct = λ t. tt; below = λ t. tt }) in
          let s =
            sources-IsServed edges expected size 0 size size (λ t. []) (omega arith)
              (λ n lt. absurd (omega (arith, lt))) in
          let follows =
            follow_complete edges expected size (λ k. false) c.order start bounded
              (λ i j p r.
                tool_of_injective (map normalize tools) i j apart (omega (arith, p, whole))
                  (omega (arith, r, whole)))
              (AreQueues-Follows edges expected size _ q) (λ n lt new z. s n lt z) c.valid
              c.known in
          rw same (subst (λ a. follow edges expected a start ≡ true) c.tools follows),
    )
