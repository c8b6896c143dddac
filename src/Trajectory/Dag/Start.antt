-- ===== src/Trajectory/Dag/Start.antt =====
-- The queues that `dag_consistency` starts with.
use eval_hive.Base.{
  ℕ, zero, suc, ◌+◌, ◌≤◌, ◌<◌, ◌≡◌, refl, false, List, [], ◌∷◌, ◌++◌, Text, ◌==◌, nat_eq, text_eq,
  ==→≡, if◌then◌else◌, All, arith, Bool-cases, inl, inr, subst,
}
use eval_hive.Trajectory.Dag.{Edge, in_degree, enqueue, sources, count}
use eval_hive.Trajectory.Dag.Counts.{from_done_nil, IsDistinct, IsDistinct-snoc}
use eval_hive.Trajectory.Dag.Queues.{IsReady, IsReady-snoc, Follows}

module _ (edges : List Edge) (expected : ℕ → Text) (size : ℕ) where
  below_snoc : (i : ℕ) (l : List ℕ) → All (λ x. x < i) l → All (λ x. x < i + 1) (l ++ (i ∷ []))
  below_snoc i [] h = (omega arith, tt)
  below_snoc i (x ∷ l) h = (let p = h.0 in omega arith, below_snoc i l h.1)

  below_le : (i : ℕ) (l : List ℕ) → All (λ x. x < i) l → All (λ x. x < i + 1) l
  below_le i [] h = tt
  below_le i (x ∷ l) h = (let p = h.0 in omega arith, below_le i l h.1)

  below_apart : (i : ℕ) (l : List ℕ) → All (λ x. x < i) l → All (λ x. (x == i) ≡ false) l
  below_apart i [] h = tt
  below_apart i (x ∷ l) h = (let p = h.0 in ground arith, below_apart i l h.1)

  -- The queues when the nodes below `i` have been looked at.
  pub record AreQueues (i : ℕ) (available : Text → List ℕ) : Type 0 where
    pub queues :
        (t : Text)
        → All (IsReady edges expected size (λ k. false) (in_degree edges) t) (available t)
    pub distinct : (t : Text) → IsDistinct (available t)
    pub below : (t : Text) → All (λ x. x < i) (available t)

  source-AreQueues :
      (i : ℕ) (available : Text → List ℕ)
      → i < size
      → AreQueues i available
      → AreQueues
          (i + 1)
          (if in_degree edges i == 0 then enqueue (expected i) i available else available)
  unfolding enqueue
  source-AreQueues i available inside a = elim (Bool-cases (in_degree edges i == 0)) [
    | inr later ↦ rw later (record {
      queues = a.queues;
      distinct = a.distinct;
      below = λ t. below_le i (available t) (a.below t);
    })
    | inl free ↦ rw free (record {
      queues = λ t. elim (Bool-cases (expected i == t)) [
        | inl here ↦ rw here (
            IsReady-snoc edges expected size (λ k. false) (in_degree edges) t i (available t)
              (a.queues t) (==→≡ (in_degree edges i) 0 free, refl, here, inside))
        | inr there ↦ rw there (a.queues t)
      ];
      distinct = λ t. elim (Bool-cases (expected i == t)) [
        | inl here ↦ rw here (
            IsDistinct-snoc i (available t) (below_apart i (available t) (a.below t))
              (a.distinct t))
        | inr there ↦ rw there (a.distinct t)
      ];
      below = λ t. elim (Bool-cases (expected i == t)) [
        | inl here ↦ rw here (below_snoc i (available t) (a.below t))
        | inr there ↦ rw there (below_le i (available t) (a.below t))
      ];
    })
  ]

  pub sources-AreQueues :
      (i rounds n : ℕ) (available : Text → List ℕ)
      → i + rounds ≡ n
      → n ≤ size
      → AreQueues i available
      → AreQueues n (sources edges expected i rounds available)
  unfolding sources
  sources-AreQueues i zero n available e le a =
      subst (λ k. AreQueues k available) (omega (arith, e)) a
  sources-AreQueues i (suc rounds) n available e le a =
      sources-AreQueues (i + 1) rounds n _ (omega (arith, e)) le
        (source-AreQueues i available (omega (arith, e)) a)

  pub AreQueues-Follows :
      (available : Text → List ℕ)
      → AreQueues size available
      → Follows edges expected size
          (λ k. false)
          []
          (record { indeg = in_degree edges; available = available })
  unfolding count
  AreQueues-Follows available a = record {
    balance = λ m. omega (arith, from_done_nil edges m);
    spent = λ m h. absurd cc;
    queues = a.queues;
    distinct = a.distinct;
    range = tt;
  }
