-- ===== src/Trajectory/Match/Chain.antt =====
-- The walk of `dag_consistency` over a chain of tools, against the comparison of names.
use eval_hive.Base.{
  subst, ℕ, zero, suc, ◌+◌, ◌≤◌, ◌<◌, ◌≡◌, ◌↔◌, refl, sym, ap, ◌∙◌, Bool, true, false, ◌&&◌, List,
  [], ◌∷◌, ◌++◌, Text, ◌==◌, nat_eq, text_eq, ==→≡, ==-refl, if◌then◌else◌, map, length, ltb, leb,
  arith, Bool-cases, inl, inr,
}
use eval_hive.Trajectory.Dag.{
  Edge, in_degree, successors, Walk, enqueue, unlock_one, unlock, dequeue, follow, sources, count,
  same_counts, same_multiset, tool_of, dag_consistency,
}
use eval_hive.Trajectory.Dag.Complete.{length-map}
use eval_hive.Trajectory.Reference.{chain_from, chain}

in_degree-chain_from :
    (j : ℕ) (l : List Text) (m : ℕ)
    → in_degree (chain_from j l) m ≡ (if ltb j m && leb m (j + length l) then 1 else 0)
unfolding in_degree chain_from
in_degree-chain_from j [] m = ground arith
in_degree-chain_from j (t ∷ l) m = ground (arith, in_degree-chain_from (j + 1) l m)

successors-chain_from :
    (j : ℕ) (l : List Text) (n : ℕ)
    → successors (chain_from j l) n ≡ (if leb j n && ltb n (j + length l) then (n + 1) ∷ [] else [])
unfolding successors chain_from
successors-chain_from j [] n = ground arith
successors-chain_from j (t ∷ l) n = ground (arith, successors-chain_from (j + 1) l n)

module _ (edges : List Edge) (expected : ℕ → Text) (size : ℕ) where
  -- Nodes with predecessors enter no queue.
  sources_none :
      (i rounds : ℕ) (available : Text → List ℕ)
      → ((m : ℕ) → i ≤ m → m < i + rounds → (in_degree edges m == 0) ≡ false)
      → sources edges expected i rounds available ≡ available
  unfolding sources
  sources_none i zero available h = refl
  sources_none i (suc rounds) available h = rw (h i (omega arith) (omega arith)) (
      sources_none (i + 1) rounds available
        (λ m le lt. h m (omega (arith, le)) (omega (arith, lt))))

  -- The edges are those of a chain.
  record IsChain : Type 0 where
    next : (i : ℕ) → successors edges i ≡ (if ltb (i + 1) size then (i + 1) ∷ [] else [])

  -- All nodes before `i` are carried out, and `i` is the only one that waits.
  record Stands (i : ℕ) (w : Walk) : Type 0 where
    waits : (t : Text) → w.available t ≡ (if ltb i size && (expected i == t) then i ∷ [] else [])
    locked : (m : ℕ) → i < m → m < size → w.indeg m ≡ 1

  step-Stands :
      (i : ℕ) (w : Walk) (t : Text)
      → IsChain
      → i < size
      → expected i ≡ t
      → Stands i w
      → Stands
          (i + 1)
          (unlock expected (successors edges i) (record w { available = dequeue t [] w.available }))
  unfolding unlock unlock_one dequeue enqueue
  step-Stands i w t c lt e s = rw (c.next i) (elim (Bool-cases (ltb (i + 1) size)) [
    | inl more ↦ rw more (record {
      waits = λ u.
          let old = s.waits u in
          let one = s.locked (i + 1) (omega arith) (ground (arith, more)) in
          ground (arith, e, old, one, more);
      locked = λ m above below. ground (arith, s.locked m (omega (arith, above)) below, above);
    })
    | inr last ↦ rw last (record {
      waits = λ u. let old = s.waits u in ground (arith, e, old, last);
      locked = λ m above below. s.locked m (omega (arith, above)) below;
    })
  ])

-- The first list begins the second.
is_prefix : List Text → List Text → Bool
is_prefix [] l = true
is_prefix (t ∷ ts) [] = false
is_prefix (t ∷ ts) (u ∷ l) = (u == t) && is_prefix ts l

module _ (edges : List Edge) (expected : ℕ → Text) (size : ℕ) where
  follow-is_prefix :
      (i : ℕ) (ts l : List Text) (w : Walk)
      → IsChain edges expected size
      → i + length l ≡ size
      → ((k : ℕ) → expected (i + k) ≡ tool_of l k)
      → Stands edges expected size i w
      → follow edges expected ts w ≡ is_prefix ts l
  unfolding follow is_prefix tool_of
  follow-is_prefix i [] l w c full names s = refl
  follow-is_prefix i (t ∷ ts) [] w c full names s =
      let e : w.available t ≡ [] = let a = s.waits t in ground (arith, a, full) in
      rw (follow, e) refl
  follow-is_prefix i (t ∷ ts) (u ∷ l) w c full names s =
      let first : expected i ≡ u = let a = names 0 in ap expected (omega arith) ∙ a in
      elim (Bool-cases (u == t)) [
        | inl here ↦
            let e : w.available t ≡ i ∷ [] =
              let a = s.waits t in ground (arith, a, full, first, here) in
            rw (follow, e, here)
              (follow-is_prefix (i + 1) ts l _ c (omega (arith, full))
                (λ k. ap expected (omega arith) ∙ names (suc k))
                (step-Stands edges expected size i w t c (omega (arith, full))
                  (first ∙ ==→≡ u t here) s))
        | inr there ↦
            let e : w.available t ≡ [] = let a = s.waits t in ground (arith, a, first, there) in
            rw (follow, e, there) refl
      ]

-- Counters that agree.
count-append : (x : Text) (a b : List Text) → count x (a ++ b) ≡ count x a + count x b
unfolding count
count-append x [] b = omega arith
count-append x (y ∷ a) b = ground (arith, count-append x a b)

same_counts_drop :
    (a b l m : List Text) → same_counts a b (l ++ m) ≡ true → same_counts a b m ≡ true
unfolding same_counts
same_counts_drop a b [] m h = h
same_counts_drop a b (x ∷ l) m h = same_counts_drop a b l m (ground (arith, h))

same_counts_refl : (a l : List Text) → same_counts a a l ≡ true
unfolding same_counts
same_counts_refl a [] = refl
same_counts_refl a (x ∷ l) = rw (==-refl (count x a)) (same_counts_refl a l)

prefix_split : (a b : List Text) → is_prefix a b ≡ true → (c : List Text) × (b ≡ a ++ c)
unfolding is_prefix
prefix_split [] b h = (b, refl)
prefix_split (x ∷ a) [] h = cc
prefix_split (x ∷ a) (y ∷ b) h =
    let (c, e) = prefix_split a b (ground (arith, h)) in
    let same : y ≡ x = ==→≡ y x (ground (arith, h)) in (c, λ i. same i ∷ e i)

prefix_refl : (a : List Text) → is_prefix a a ≡ true
unfolding is_prefix
prefix_refl [] = refl
prefix_refl (x ∷ a) = rw (==-refl x) (prefix_refl a)

append_nil : (l : List Text) → l ++ [] ≡ l
append_nil [] = refl
append_nil (y ∷ l) = ap (λ r. y ∷ r) (append_nil l)

-- One element more is one count more.
longer :
    (a : List Text) (x : Text) (c : List Text) → ¬ (same_counts a (a ++ (x ∷ c)) (x ∷ c) ≡ true)
unfolding same_counts count
longer a x c m = let n = count-append x a (x ∷ c) in ground (arith, m, n, ==-refl x)

-- A list that begins another and has the same names as often is that list.
whole_prefix : (a b : List Text) → same_multiset a b ≡ true → is_prefix a b ≡ true → a ≡ b
whole_prefix a b same h = let (c, e) = prefix_split a b h in no_rest c e
  where
    no_rest : (c : List Text) → b ≡ a ++ c → a ≡ b
    no_rest [] e = sym (e ∙ append_nil a)
    no_rest (x ∷ c) e =
        let n : same_counts a (a ++ (x ∷ c)) (a ++ (a ++ (x ∷ c))) ≡ true =
          subst (λ l. same_counts a l (a ++ l) ≡ true) e (unfold same_multiset in same) in
        let m =
          same_counts_drop a (a ++ (x ∷ c)) a (x ∷ c)
            (same_counts_drop a (a ++ (x ∷ c)) a (a ++ (x ∷ c)) n) in
        absurd (longer a x c m)

-- The walk over a chain.
chain-IsChain : (expected : ℕ → Text) (l : List Text) → IsChain (chain l) expected (length l)
unfolding chain
chain-IsChain expected [] = record { next = λ i. unfold successors in ground arith }
chain-IsChain expected (u ∷ l) = record {
  next = λ i. let e = successors-chain_from 0 l i in ground (arith, e);
}

chain-Stands :
    (expected : ℕ → Text) (l : List Text)
    → Stands (chain l) expected (length l) 0 (record {
      indeg = in_degree (chain l);
      available = sources (chain l) expected 0 (length l) (λ t. []);
    })
unfolding chain sources enqueue
chain-Stands expected [] = record {
  waits = λ t. ground arith;
  locked = λ m above below. absurd (omega (arith, below));
}
chain-Stands expected (u ∷ l) =
    let none_free =
      sources_none (chain_from 0 l) expected (length (u ∷ l)) (0 + 1) (length l)
        (if in_degree (chain_from 0 l) 0 == 0 then enqueue (expected 0) 0 (λ t. []) else (λ t. []))
        (λ m le lt. ground (arith, in_degree-chain_from 0 l m, le, lt)) in
    let free = in_degree-chain_from 0 l 0 in
    record {
      waits = λ t. rw none_free (ground (arith, free));
      locked = λ m above below. ground (arith, in_degree-chain_from 0 l m, above, below);
    }

-- The walk over a chain accepts exactly the names of the chain in their order.
pub dag_consistency-chain :
    (normalize : Text → Text) (actual seq : List Text)
    → (dag_consistency normalize actual seq (chain seq) ≡ true)
      ↔ (map normalize actual ≡ map normalize seq)
unfolding dag_consistency
dag_consistency-chain normalize actual seq =
    let a = map normalize actual in
    let b = map normalize seq in
    let expected = tool_of b in
    let start : Walk = record {
      indeg = in_degree (chain seq);
      available = sources (chain seq) expected 0 (length seq) (λ t. []);
    } in
    let walk : follow (chain seq) expected a start ≡ is_prefix a b =
      follow-is_prefix (chain seq) expected (length seq) 0 a b start (chain-IsChain expected seq)
        (omega (arith, length-map normalize seq)) (λ k. ap expected (omega arith))
        (chain-Stands expected seq) in
    (
      λ h. whole_prefix a b (ground (arith, h)) (sym walk ∙ ground (arith, h)),
      λ e.
          let same : same_multiset a b ≡ true =
            subst (λ l. same_multiset a l ≡ true) e
              (unfold same_multiset in same_counts_refl a (a ++ a)) in
          let order : is_prefix a b ≡ true = subst (λ l. is_prefix a l ≡ true) e (prefix_refl a) in
          rw (same, walk, order) refl,
    )
