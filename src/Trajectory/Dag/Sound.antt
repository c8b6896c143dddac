-- ===== src/Trajectory/Dag/Sound.antt =====
-- The nodes that the walk of `dag_consistency` carries out, and their order.
use eval_hive.Base.{
  ℕ, ◌<◌, ◌≡◌, refl, Bool, true, false, List, [], ◌∷◌, Text, nat_eq, text_eq, ==→≡, map, length,
  All, arith, inl, inr, subst, ◌⊎◌,
}
use eval_hive.Trajectory.Dag.{
  Edge, in_degree, successors, Walk, unlock, dequeue, follow, sources, count, tool_of,
  dag_consistency, same_multiset,
}
use eval_hive.Trajectory.Dag.Counts.{mark, IsOrder, from_done-All}
use eval_hive.Trajectory.Dag.Queues.{IsReady, Follows, unlock-Follows, dequeue-Follows}
use eval_hive.Trajectory.Dag.Start.{sources-AreQueues, AreQueues-Follows}

module _ (edges : List Edge) (expected : ℕ → Text) (size : ℕ) where
  -- The actual calls are the tools of an order of nodes.
  pub record Carried (done : ℕ → Bool) (ts : List Text) : Type 0 where
    pub order : List ℕ
    pub tools : map expected order ≡ ts
    pub valid : IsOrder edges done order
    pub known : All (λ n. n < size) order

  follow-Carried :
      (done : ℕ → Bool) (ts : List Text) (w : Walk)
      → All (λ (e : Edge). e.1 < size) edges
      → Follows edges expected size done [] w
      → follow edges expected ts w ≡ true
      → Carried done ts
  unfolding follow
  follow-Carried done [] w bounded f h = record { order = []; tools = refl; valid = tt; known = tt }
  follow-Carried done (t ∷ ts) w bounded f h = elim (first_of (w.available t)) [
    | inl none_left ↦ absurd (ground (arith, none_left, h))
    | inr (n, rest, e) ↦
        let q : All (IsReady edges expected size done w.indeg t) (n ∷ rest) =
          subst (λ l. All (IsReady edges expected size done w.indeg t) l) e (f.queues t) in
        let next =
          unlock expected (successors edges n)
            (record w { available = dequeue t rest w.available }) in
        let more : follow edges expected ts next ≡ true = rw (follow, e) at h in
        let c =
          follow-Carried (mark n done) ts next bounded
            (unlock-Follows edges expected size (mark n done) (successors edges n) _
              (dequeue-Follows edges expected size done t n rest w bounded e f))
            more in
        record {
          order = n ∷ c.order;
          tools = λ i. ==→≡ (expected n) t (q.0).2 i ∷ c.tools i;
          valid = (
            (q.0).1,
            from_done-All edges done n (unfold count in omega (arith, f.balance n, (q.0).0)),
            c.valid,
          );
          known = ((q.0).3, c.known);
        }
  ]
    where
      first_of : (l : List ℕ) → (l ≡ []) ⊎ ((n : ℕ) × (rest : List ℕ) × (l ≡ n ∷ rest))
      first_of [] = inl refl
      first_of (n ∷ rest) = inr (n, rest, refl)

-- A run that is consistent with a DAG, whose edges lead to its nodes, has the same names as often as
-- the DAG, and its names are the tools of an order of nodes in which each node comes at most once
-- and none before a predecessor of it.
pub dag_consistency_sound :
    (normalize : Text → Text) (actual tools : List Text) (edges : List Edge)
    → All (λ (e : Edge). e.1 < length tools) edges
    → dag_consistency normalize actual tools edges ≡ true
    → (same_multiset (map normalize actual) (map normalize tools) ≡ true)
      × Carried edges
          (tool_of (map normalize tools))
          (length tools)
          (λ k. false)
          (map normalize actual)
unfolding dag_consistency
dag_consistency_sound normalize actual tools edges bounded h =
    let expected = tool_of (map normalize tools) in
    let size = length tools in
    let available = sources edges expected 0 size (λ t. []) in
    let q =
      sources-AreQueues edges expected size 0 size size (λ t. []) (omega arith) (omega arith)
        (record { queues = λ t. tt; distinct = λ t. tt; below = λ t. tt }) in
    (
      ground (arith, h),
      follow-Carried edges expected size (λ k. false) (map normalize actual)
          (record { indeg = in_degree edges; available = available }) bounded
          (AreQueues-Follows edges expected size available q) (ground (arith, h)),
    )
