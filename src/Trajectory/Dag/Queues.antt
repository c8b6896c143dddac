-- ===== src/Trajectory/Dag/Queues.antt =====
-- The invariant of the walk of `dag_consistency`: counters, and queues of the nodes without predecessors.
use eval_hive.Base.{
  ℕ, ◌+◌, ◌-◌, ◌≤◌, ◌<◌, ◌≡◌, ◌≢◌, sym, ap, ◌∙◌, Bool, true, false, List, [], ◌∷◌, ◌++◌, Text, ◌==◌,
  nat_eq, text_eq, ==→≡, ==-refl, if◌then◌else◌, All, arith, Bool-cases, inl, inr, subst,
}
use eval_hive.Trajectory.Dag.{
  Edge, in_degree, successors, Walk, enqueue, unlock_one, unlock, dequeue, count,
}
use eval_hive.Trajectory.Dag.Counts.{
  successors_range, mark, from_done, from_done_le, from_done-mark, IsDistinct, IsDistinct-snoc,
}

module _ (edges : List Edge) (expected : ℕ → Text) (size : ℕ) where
  -- A node in the queue of a tool.
  abbrev pub IsReady : (ℕ → Bool) → (ℕ → ℕ) → Text → ℕ → Type 0
  IsReady done indeg t i =
      (indeg i ≡ 0) × (done i ≡ false) × ((expected i == t) ≡ true) × (i < size)

  -- The invariant of the walk. `pending` are the successors of the last node whose counters are still
  -- to be lowered.
  pub record Follows (done : ℕ → Bool) (pending : List ℕ) (w : Walk) : Type 0 where
    pub balance : (m : ℕ) → w.indeg m + from_done edges done m ≡ in_degree edges m + count m pending
    pub spent : (m : ℕ) → done m ≡ true → w.indeg m ≡ 0
    pub queues : (t : Text) → All (IsReady done w.indeg t) (w.available t)
    pub distinct : (t : Text) → IsDistinct (w.available t)
    pub range : All (λ m. m < size) pending

  -- Lowering one counter keeps a node ready, if it was.
  lower-IsReady :
      (done : ℕ → Bool) (indeg : ℕ → ℕ) (m : ℕ) (t : Text) (l : List ℕ)
      → All (IsReady done indeg t) l
      → All (IsReady done (λ k. if m == k then indeg k - 1 else indeg k) t) l
  lower-IsReady done indeg m t [] h = tt
  lower-IsReady done indeg m t (x ∷ l) h =
      ((ground arith, (h.0).1, (h.0).2, (h.0).3), lower-IsReady done indeg m t l h.1)

  pub IsReady-snoc :
      (done : ℕ → Bool) (indeg : ℕ → ℕ) (t : Text) (x : ℕ) (l : List ℕ)
      → All (IsReady done indeg t) l
      → IsReady done indeg t x
      → All (IsReady done indeg t) (l ++ (x ∷ []))
  IsReady-snoc done indeg t x [] h r = (r, tt)
  IsReady-snoc done indeg t x (y ∷ l) h r = (h.0, IsReady-snoc done indeg t x l h.1 r)

  -- A node that is not ready is not in the queue.
  not_queued :
      (done : ℕ → Bool) (indeg : ℕ → ℕ) (t : Text) (x : ℕ) (l : List ℕ)
      → All (IsReady done indeg t) l
      → indeg x ≢ 0
      → All (λ y. (y == x) ≡ false) l
  not_queued done indeg t x [] h r = tt
  not_queued done indeg t x (y ∷ l) h r = (
    elim (Bool-cases (y == x)) [
      | inl same ↦ absurd (r (ap indeg (sym (==→≡ y x same)) ∙ (h.0).0))
      | inr other ↦ other
    ],
    not_queued done indeg t x l h.1 r,
  )

  unlock_one-Follows :
      (done : ℕ → Bool) (m : ℕ) (pending : List ℕ) (w : Walk)
      → Follows done (m ∷ pending) w
      → Follows done pending (unlock_one expected m w)
  unfolding unlock_one enqueue count
  unlock_one-Follows done m pending w f =
      let le = from_done_le edges done m in
      let pos : 1 ≤ w.indeg m = ground (arith, f.balance m, ==-refl m) in
      let fresh : done m ≡ false = elim (Bool-cases (done m)) [
        | inl old ↦ absurd (omega (arith, f.spent m old))
        | inr new ↦ new
      ] in
      record {
        balance = λ k. ground (arith, f.balance k, pos);
        spent = λ k d. ground (arith, f.spent k d);
        queues = λ t.
            let lowered = lower-IsReady done w.indeg m t (w.available t) (f.queues t) in
            elim (Bool-cases (w.indeg m == 1)) [
              | inl one ↦ rw one (elim (Bool-cases (expected m == t)) [
                | inl here ↦ rw here (
                    IsReady-snoc done _ t m (w.available t) lowered
                      (ground arith, fresh, here, (f.range).0))
                | inr there ↦ rw there lowered
              ])
              | inr more ↦ rw more lowered
            ];
        distinct = λ t. elim (Bool-cases (w.indeg m == 1)) [
          | inl one ↦ rw one (elim (Bool-cases (expected m == t)) [
            | inl here ↦ rw here (
                IsDistinct-snoc m (w.available t)
                  (not_queued done w.indeg t m (w.available t) (f.queues t)
                    (λ none_left. omega (arith, none_left, pos)))
                  (f.distinct t))
            | inr there ↦ rw there (f.distinct t)
          ])
          | inr more ↦ rw more (f.distinct t)
        ];
        range = (f.range).1;
      }

  pub unlock-Follows :
      (done : ℕ → Bool) (pending : List ℕ) (w : Walk)
      → Follows done pending w
      → Follows done [] (unlock expected pending w)
  unfolding unlock
  unlock-Follows done [] w f = f
  unlock-Follows done (m ∷ pending) w f =
      unlock-Follows done pending (unlock_one expected m w) (unlock_one-Follows done m pending w f)

  -- The nodes of a queue other than `n` stay ready when `n` is done.
  mark-IsReady :
      (done : ℕ → Bool) (indeg : ℕ → ℕ) (n : ℕ) (t : Text) (l : List ℕ)
      → All (λ x. (n == x) ≡ false) l
      → All (IsReady done indeg t) l
      → All (IsReady (mark n done) indeg t) l
  mark-IsReady done indeg n t [] a h = tt
  mark-IsReady done indeg n t (x ∷ l) a h =
      (((h.0).0, rw (a.0) ((h.0).1), (h.0).2, (h.0).3), mark-IsReady done indeg n t l a.1 h.1)

  -- A node of one queue is in no other.
  other_queue :
      (done : ℕ → Bool) (indeg : ℕ → ℕ) (n : ℕ) (t u : Text) (l : List ℕ)
      → (expected n == t) ≡ true
      → (t == u) ≡ false
      → All (IsReady done indeg u) l
      → All (λ x. (n == x) ≡ false) l
  other_queue done indeg n t u [] e d h = tt
  other_queue done indeg n t u (x ∷ l) e d h = (
    elim (Bool-cases (n == x)) [
      | inl same ↦
          absurd (cc (d, ==→≡ (expected n) t e, ==→≡ (expected x) u (h.0).2, ==→≡ n x same))
      | inr other ↦ other
    ],
    other_queue done indeg n t u l e d h.1,
  )

  -- An actual call carries out the first node of the queue of its tool.
  pub dequeue-Follows :
      (done : ℕ → Bool) (t : Text) (n : ℕ) (rest : List ℕ) (w : Walk)
      → All (λ (e : Edge). e.1 < size) edges
      → w.available t ≡ n ∷ rest
      → Follows done [] w
      → Follows
          (mark n done)
          (successors edges n)
          (record w { available = dequeue t rest w.available })
  unfolding dequeue count
  dequeue-Follows done t n rest w bounded e f =
      let q : All (IsReady done w.indeg t) (n ∷ rest) =
        subst (λ l. All (IsReady done w.indeg t) l) e (f.queues t) in
      let d : IsDistinct (n ∷ rest) = subst (λ l. IsDistinct l) e (f.distinct t) in
      let first = q.0 in
      record {
        balance = λ m. omega (arith, f.balance m, from_done-mark edges done n m first.1);
        spent = λ m h. elim (Bool-cases (n == m)) [
          | inl same ↦ ap w.indeg (sym (==→≡ n m same)) ∙ first.0
          | inr other ↦ f.spent m (ground (arith, other, h))
        ];
        queues = λ u. elim (Bool-cases (t == u)) [
          | inl here ↦ rw here (
              subst (λ x. All (IsReady (mark n done) w.indeg x) rest) (==→≡ t u here)
                (mark-IsReady done w.indeg n t rest d.0 q.1))
          | inr there ↦ rw there (
              mark-IsReady done w.indeg n u (w.available u)
                (other_queue done w.indeg n t u (w.available u) first.2 there (f.queues u))
                (f.queues u))
        ];
        distinct = λ u. elim (Bool-cases (t == u)) [
          | inl here ↦ rw here (d.1)
          | inr there ↦ rw there (f.distinct u)
        ];
        range = successors_range size edges n bounded;
      }
