-- ===== src/Trajectory/Reference/Order.antt =====
-- What `_topological_order` returns.
use eval_hive.Base.{
  ℕ, zero, suc, ◌+◌, ◌-◌, ◌≤◌, ◌<◌, ◌≡◌, ◌≢◌, refl, sym, ap, ◌∙◌, subst, Bool, true, false, some,
  List, [], ◌∷◌, ◌++◌, ◌==◌, nat_eq, ==→≡, ==-refl, if◌then◌else◌, length, All, arith, Bool-cases,
  inl, inr, leb, ◌⊎◌,
}
use eval_hive.Trajectory.Dag.{Edge, in_degree, successors, count}
use eval_hive.Trajectory.Dag.Counts.{
  mark, IsOrder, from_done, from_done_le, from_done-All, from_done-mark, from_done_nil, IsDistinct,
  IsDistinct-snoc, successors_range,
}
use eval_hive.Trajectory.Reference.{
  insert_node, sort_nodes, Kahn, release, kahn_loop, initial_ready, topological_order,
}

module _ (P : ℕ → Type 0) where
  insert_node-All : (n : ℕ) (l : List ℕ) → P n → All P l → All P (insert_node n l)
  unfolding insert_node
  insert_node-All n [] p h = (p, tt)
  insert_node-All n (m ∷ l) p h = elim (Bool-cases (leb n m)) [
    | inl first ↦ rw first (p, h)
    | inr later ↦ rw later (h.0, insert_node-All n l p h.1)
  ]

  sort_nodes-All : (l : List ℕ) → All P l → All P (sort_nodes l)
  unfolding sort_nodes
  sort_nodes-All [] h = tt
  sort_nodes-All (n ∷ l) h = insert_node-All n (sort_nodes l) h.0 (sort_nodes-All l h.1)

  All-snoc : (l : List ℕ) (x : ℕ) → All P l → P x → All P (l ++ (x ∷ []))
  All-snoc [] x h p = (p, tt)
  All-snoc (y ∷ l) x h p = (h.0, All-snoc l x h.1 p)

insert_node-IsDistinct :
    (n : ℕ) (l : List ℕ)
    → All (λ y. (n == y) ≡ false) l
    → IsDistinct l
    → IsDistinct (insert_node n l)
unfolding insert_node
insert_node-IsDistinct n [] a d = (tt, tt)
insert_node-IsDistinct n (m ∷ l) a d = elim (Bool-cases (leb n m)) [
  | inl first ↦ rw first (a, d)
  | inr later ↦
      let swapped : (m == n) ≡ false = let e = a.0 in ground (arith, e) in
      rw later (
        insert_node-All (λ y. (m == y) ≡ false) n l swapped d.0,
        insert_node-IsDistinct n l a.1 d.1,
      )
]

sort_nodes-IsDistinct : (l : List ℕ) → IsDistinct l → IsDistinct (sort_nodes l)
unfolding sort_nodes
sort_nodes-IsDistinct [] d = tt
sort_nodes-IsDistinct (n ∷ l) d =
    insert_node-IsDistinct n (sort_nodes l) (sort_nodes-All (λ y. (n == y) ≡ false) l d.0)
      (sort_nodes-IsDistinct l d.1)

module _ (edges : List Edge) (size : ℕ) (bounded : All (λ (e : Edge). e.1 < size) edges) where
  abbrev IsFree : (ℕ → Bool) → (ℕ → ℕ) → ℕ → Type 0
  IsFree done indeg i = (indeg i ≡ 0) × (done i ≡ false) × (i < size)

  record Sorts (done : ℕ → Bool) (pending : List ℕ) (k : Kahn) : Type 0 where
    balance : (m : ℕ) → k.indeg m + from_done edges done m ≡ in_degree edges m + count m pending
    spent : (m : ℕ) → done m ≡ true → k.indeg m ≡ 0
    free : All (IsFree done k.indeg) k.ready
    distinct : IsDistinct k.ready
    range : All (λ m. m < size) pending

  lower-IsFree :
      (done : ℕ → Bool) (indeg : ℕ → ℕ) (m : ℕ) (l : List ℕ)
      → All (IsFree done indeg) l
      → All (IsFree done (λ j. if m == j then indeg j - 1 else indeg j)) l
  lower-IsFree done indeg m [] h = tt
  lower-IsFree done indeg m (x ∷ l) h =
      ((ground arith, (h.0).1, (h.0).2), lower-IsFree done indeg m l h.1)

  not_ready :
      (done : ℕ → Bool) (indeg : ℕ → ℕ) (x : ℕ) (l : List ℕ)
      → All (IsFree done indeg) l
      → indeg x ≢ 0
      → All (λ y. (y == x) ≡ false) l
  not_ready done indeg x [] h r = tt
  not_ready done indeg x (y ∷ l) h r = (
    elim (Bool-cases (y == x)) [
      | inl same ↦ absurd (r (ap indeg (sym (==→≡ y x same)) ∙ (h.0).0))
      | inr other ↦ other
    ],
    not_ready done indeg x l h.1 r,
  )

  release-Sorts :
      (done : ℕ → Bool) (pending : List ℕ) (k : Kahn)
      → Sorts done pending k
      → Sorts done [] (release pending k)
  unfolding release count
  release-Sorts done [] k s = s
  release-Sorts done (m ∷ pending) k s =
      let le = from_done_le edges done m in
      let pos : 1 ≤ k.indeg m = ground (arith, s.balance m, ==-refl m) in
      let fresh : done m ≡ false = elim (Bool-cases (done m)) [
        | inl old ↦ absurd (omega (arith, s.spent m old))
        | inr new ↦ new
      ] in
      let lowered = lower-IsFree done k.indeg m k.ready s.free in
      let apart =
        not_ready done k.indeg m k.ready s.free (λ none_left. omega (arith, none_left, pos)) in
      release-Sorts done pending _ (record {
        balance = λ j. ground (arith, s.balance j, pos);
        spent = λ j d. ground (arith, s.spent j d);
        free = elim (Bool-cases (k.indeg m == 1)) [
          | inl one ↦ rw one (
              sort_nodes-All (IsFree done _) _
                (All-snoc (IsFree done _) k.ready m lowered (ground arith, fresh, (s.range).0)))
          | inr more ↦ rw more lowered
        ];
        distinct = elim (Bool-cases (k.indeg m == 1)) [
          | inl one ↦ rw one (sort_nodes-IsDistinct _ (IsDistinct-snoc m k.ready apart s.distinct))
          | inr more ↦ rw more (s.distinct)
        ];
        range = (s.range).1;
      })

  pop-Sorts :
      (done : ℕ → Bool) (n : ℕ) (rest : List ℕ) (k : Kahn)
      → k.ready ≡ n ∷ rest
      → Sorts done [] k
      → Sorts (mark n done) (successors edges n) (record k { ready = rest })
  unfolding count
  pop-Sorts done n rest k e s =
      let q : All (IsFree done k.indeg) (n ∷ rest) = subst (All (IsFree done k.indeg)) e s.free in
      let d : IsDistinct (n ∷ rest) = subst IsDistinct e s.distinct in
      record {
        balance = λ m. omega (arith, s.balance m, from_done-mark edges done n m (q.0).1);
        spent = λ m h. elim (Bool-cases (n == m)) [
          | inl same ↦ ap k.indeg (sym (==→≡ n m same)) ∙ (q.0).0
          | inr other ↦ s.spent m (ground (arith, other, h))
        ];
        free = others rest d.0 q.1;
        distinct = d.1;
        range = successors_range size edges n bounded;
      }
    where
      others :
          (l : List ℕ)
          → All (λ y. (n == y) ≡ false) l
          → All (IsFree done k.indeg) l
          → All (IsFree (mark n done) k.indeg) l
      others [] a h = tt
      others (x ∷ l) a h = (((h.0).0, rw (a.0) ((h.0).1), (h.0).2), others l a.1 h.1)

  kahn_loop-IsOrder :
      (f : ℕ) (done : ℕ → Bool) (k : Kahn)
      → Sorts done [] k
      → IsOrder edges done (kahn_loop f edges k) × All (λ n. n < size) (kahn_loop f edges k)
  unfolding kahn_loop
  kahn_loop-IsOrder zero done k s = (tt, tt)
  kahn_loop-IsOrder (suc f) done k s = elim (first_of k.ready) [
    | inl none_left ↦ rw none_left (tt, tt)
    | inr (n, rest, e) ↦
        let q : All (IsFree done k.indeg) (n ∷ rest) = subst (All (IsFree done k.indeg)) e s.free in
        let r =
          kahn_loop-IsOrder f (mark n done)
            (release (successors edges n) (record k { ready = rest }))
            (release-Sorts (mark n done) (successors edges n) _ (pop-Sorts done n rest k e s)) in
        rw e (
          (
            (q.0).1,
            from_done-All edges done n (unfold count in omega (arith, s.balance n, (q.0).0)),
            r.0,
          ),
          ((q.0).2, r.1),
        )
  ]
    where
      first_of : (l : List ℕ) → (l ≡ []) ⊎ ((n : ℕ) × (rest : List ℕ) × (l ≡ n ∷ rest))
      first_of [] = inl refl
      first_of (n ∷ rest) = inr (n, rest, refl)

  initial_ready-IsFree :
      (i rounds : ℕ)
      → i + rounds ≡ size
      → All (IsFree (λ k. false) (in_degree edges)) (initial_ready edges i rounds)
        × All (λ x. i ≤ x) (initial_ready edges i rounds)
        × IsDistinct (initial_ready edges i rounds)
  unfolding initial_ready
  initial_ready-IsFree i zero e = (tt, tt, tt)
  initial_ready-IsFree i (suc rounds) e =
      let r = initial_ready-IsFree (i + 1) rounds (omega (arith, e)) in
      elim (Bool-cases (in_degree edges i == 0)) [
        | inl here ↦ rw here (
          ((==→≡ (in_degree edges i) 0 here, refl, omega (arith, e)), r.0),
          (omega arith, above i _ r.1),
          (apart i _ r.1, r.2),
        )
        | inr there ↦ rw there (r.0, above i _ r.1, r.2)
      ]
    where
      above : (i : ℕ) (l : List ℕ) → All (λ x. i + 1 ≤ x) l → All (λ x. i ≤ x) l
      above i [] h = tt
      above i (x ∷ l) h = (let p = h.0 in omega arith, above i l h.1)

      apart : (i : ℕ) (l : List ℕ) → All (λ x. i + 1 ≤ x) l → All (λ x. (i == x) ≡ false) l
      apart i [] h = tt
      apart i (x ∷ l) h = (let p = h.0 in ground (arith, p), apart i l h.1)

-- For edges that lead to nodes, an order that `_topological_order` returns has as many members as there
-- are nodes, all of them nodes and none of them twice, and none stands before a predecessor of it.
pub topological_order-IsOrder :
    (size : ℕ) (edges : List Edge) {order : List ℕ}
    → All (λ (e : Edge). e.1 < size) edges
    → topological_order size edges ≡ some order
    → IsOrder edges (λ k. false) order × All (λ n. n < size) order × (length order ≡ size)
unfolding topological_order
topological_order-IsOrder size edges {order} bounded h =
    let start : Kahn = record { indeg = in_degree edges; ready = initial_ready edges 0 size } in
    let i = initial_ready-IsFree edges size bounded 0 size (omega arith) in
    let s : Sorts edges size bounded (λ k. false) [] start = record {
      balance = λ m. unfold count in omega (arith, from_done_nil edges m);
      spent = λ m x. absurd cc;
      free = i.0;
      distinct = i.2;
      range = tt;
    } in
    let found = kahn_loop (suc size) edges start in
    let r = kahn_loop-IsOrder edges size bounded (suc size) (λ k. false) start s in
    let full : length found ≡ size = ground (arith, h) in
    let same : found ≡ order = ground (arith, h) in rw (← same) (r.0, r.1, full)
