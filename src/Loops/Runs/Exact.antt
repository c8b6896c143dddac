-- ===== src/Loops/Runs/Exact.antt =====
-- The longest run of neighbours, against stretches of equal elements.
use native.Mathlib.Numerals.{add-one}
use eval_hive.Base.{
  ℕ, zero, suc, ◌+◌, ◌≤◌, max, ◌≡◌, ◌≢◌, ◌↔◌, refl, sym, ap, ◌⊎◌, inl, inr, List, [], ◌∷◌, ◌++◌,
  ◌==◌, Eq, ==→≡, ==-refl, if◌then◌else◌, arith, Bool-cases, length, length-append, true, false,
}
use native.Mathlib.Nat.{le_trans}
use eval_hive.Loops.Runs.{replicate, HasRun, run_loop, longest_run}

le-suc_of_le : {k n : ℕ} → k ≤ n → k ≤ suc n
le-suc_of_le h = omega arith

module _ {A : Type 0} where
  HasRun-cons : (x : A) {k : ℕ} {l : List A} → HasRun k l → HasRun k (x ∷ l)
  HasRun-cons x r = record {
    element = r.element;
    front = x ∷ r.front;
    back = r.back;
    at = ap (λ t. x ∷ t) r.at;
  }

  HasRun-append : (n : ℕ) (x : A) {k : ℕ} {l : List A} → HasRun k l → HasRun k (replicate n x ++ l)
  HasRun-append zero x r = r
  HasRun-append (suc n) x r = HasRun-cons x (HasRun-append n x r)

  -- The first elements of a longer stretch.
  replicate-split :
      (k n : ℕ) (x : A) (l : List A)
      → k ≤ n
      → (back : List A) × (replicate n x ++ l ≡ replicate k x ++ back)
  replicate-split zero n x l h = (replicate n x ++ l, refl)
  replicate-split (suc k) zero x l h = absurd (omega arith)
  replicate-split (suc k) (suc n) x l h =
      let (back, e) = replicate-split k n x l (omega arith) in (back, ap (λ t. x ∷ t) e)

  HasRun-replicate : (k n : ℕ) (x : A) (l : List A) → k ≤ n → HasRun k (replicate n x ++ l)
  HasRun-replicate k n x l h =
      let (back, e) = replicate-split k n x l h in
      record { element = x; front = []; back = back; at = e }

  replicate-suc : (n : ℕ) (x : A) (l : List A) → replicate n x ++ (x ∷ l) ≡ replicate (suc n) x ++ l
  replicate-suc zero x l = refl
  replicate-suc (suc n) x l = ap (λ t. x ∷ t) (replicate-suc n x l)

  replicate-add-one :
      (n : ℕ) (x : A) (l : List A) → replicate (n + 1) x ++ l ≡ replicate n x ++ (x ∷ l)
  replicate-add-one n x l = rw add-one (sym (replicate-suc n x l))

  length-replicate : (n : ℕ) (x : A) → length (replicate n x) ≡ n
  length-replicate zero x = refl
  length-replicate (suc n) x = ap suc (length-replicate n x)

  -- A stretch does not reach past an element that differs.
  stops_at :
      (k n : ℕ) (a b : A) (l back : List A)
      → a ≢ b
      → replicate n a ++ (b ∷ l) ≡ replicate k a ++ back
      → k ≤ n
  stops_at zero n a b l back d e = omega arith
  stops_at (suc k) zero a b l back d e = absurd (d (cc))
  stops_at (suc k) (suc n) a b l back d e = let s = stops_at k n a b l back d (cc) in omega arith

  HasRun-split :
      (n : ℕ) (a b : A) (l : List A) {k : ℕ}
      → a ≢ b
      → (front : List A) (x : A) (back : List A)
      → replicate n a ++ (b ∷ l) ≡ front ++ (replicate k x ++ back)
      → (k ≤ n) ⊎ HasRun k (b ∷ l)
  HasRun-split zero a b l d front x back e =
      inr (record { element = x; front = front; back = back; at = e })
  HasRun-split (suc n) a b l {k = zero} d [] x back e = inl (omega arith)
  HasRun-split (suc n) a b l {k = suc k} d [] x back e =
      let same : x ≡ a = cc in inl (stops_at (suc k) (suc n) a b l back d (rw same at e))
  HasRun-split (suc n) a b l {k} d (c ∷ front) x back e =
      elim (HasRun-split n a b l {k = k} d front x back (cc)) [
        | inl s ↦ inl (le-suc_of_le s)
        | inr r ↦ inr r
      ]

module _ {A : Type 0} ⦃eq : Eq A⦄ where
  best-le-run_loop : (a : A) (run best : ℕ) (l : List A) → best ≤ run_loop a run best l
  unfolding run_loop
  best-le-run_loop a run best [] = omega arith
  best-le-run_loop a run best (b ∷ l) =
      let r = if a == b then run + 1 else 1 in
      let h = best-le-run_loop b r (max best r) l in omega arith

  run_loop_sound :
      (a : A) (run best : ℕ) (l : List A) (k : ℕ)
      → k ≤ run_loop a run best l
      → (k ≤ best) ⊎ HasRun k (replicate run a ++ l)
  unfolding run_loop
  run_loop_sound a run best [] k h = inl h
  run_loop_sound a run best (b ∷ l) k h = elim (Bool-cases (a == b)) [
    | inl same ↦ elim (run_loop_sound b (run + 1) (max best (run + 1)) l k (rw same at h)) [
      | inl le ↦ elim (le_max k best (run + 1) le) [
        | inl old ↦ inl old
        | inr new ↦ inr (extend same (HasRun-replicate k (run + 1) b l new))
      ]
      | inr r ↦ inr (extend same r)
    ]
    | inr other ↦ elim (run_loop_sound b 1 (max best 1) l k (rw other at h)) [
      | inl le ↦ elim (le_max k best 1 le) [
        | inl old ↦ inl old
        | inr new ↦ inr (HasRun-append run a (HasRun-replicate k 1 b l new))
      ]
      | inr r ↦ inr (HasRun-append run a r)
    ]
  ]
    where
      le_max : (k m n : ℕ) → k ≤ max m n → (k ≤ m) ⊎ (k ≤ n)
      le_max k m n h = omega arith

      extend :
          (a == b) ≡ true
          → HasRun k (replicate (run + 1) b ++ l)
          → HasRun k (replicate run a ++ (b ∷ l))
      extend same r = rw (==→≡ a b same) (rw replicate-add-one at r)

  run_loop_complete :
      (a : A) (run best : ℕ) (l : List A) (k : ℕ)
      → run ≤ best
      → HasRun k (replicate run a ++ l)
      → k ≤ run_loop a run best l
  unfolding run_loop
  run_loop_complete a run best [] k h r =
      let n = ap length r.at in
      omega (
        arith,
        length-append {0} (replicate run a) [],
        length-append {0} r.front (replicate k r.element ++ r.back),
        length-append {0} (replicate k r.element) r.back,
        length-replicate run a,
        length-replicate k r.element,
      )
  run_loop_complete a run best (b ∷ l) k h r = elim (Bool-cases (a == b)) [
    | inl same ↦ rw same (
        run_loop_complete b (run + 1) (max best (run + 1)) l k (omega arith)
          (rw replicate-add-one (rw (==→≡ a b same) at r)))
    | inr other ↦
        rw other
          (elim (HasRun-split run a b l {k = k} (differ other) r.front r.element r.back r.at) [
            | inl le ↦ le_trans le (le_trans h (best_below 1))
            | inr s ↦ run_loop_complete b 1 (max best 1) l k (omega arith) s
          ])
  ]
    where
      differ : (a == b) ≡ false → a ≢ b
      differ other e = cc (other, rw e at (==-refl a))

      best_below : (n : ℕ) → best ≤ run_loop b n (max best n) l
      best_below n = let p = best-le-run_loop b n (max best n) l in omega arith

  no_run_in_nil :
      (k : ℕ) (front : List A) (x : A) (back : List A)
      → 1 ≤ k
      → [] ≢ front ++ (replicate k x ++ back)
  no_run_in_nil zero front x back h = absurd (omega arith)
  no_run_in_nil (suc k) [] x back h = cc
  no_run_in_nil (suc k) (y ∷ front) x back h = cc

  -- For k of 2 or more, `longest_run` is at least k exactly when k equal elements stand side by side
  -- somewhere in the list.
  pub longest_run_exact : (l : List A) (k : ℕ) → 2 ≤ k → (k ≤ longest_run l) ↔ HasRun k l
  unfolding longest_run
  longest_run_exact [] k two = (
    λ h. absurd (omega arith),
    λ r. absurd (no_run_in_nil k r.front r.element r.back (omega arith) r.at),
  )
  longest_run_exact (a ∷ l) k two = (
    λ h. elim (run_loop_sound a 1 1 l k h) [ inl le ↦ HasRun-replicate k 1 a l le | inr r ↦ r ],
    λ r. run_loop_complete a 1 1 l k (omega arith) r,
  )
