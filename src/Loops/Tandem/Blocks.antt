-- ===== src/Loops/Tandem/Blocks.antt =====
-- Repeated blocks in a list, and how `count_repeats` finds them.
use mathlib.Core.List.{append_assoc, append-nil}
use native.Mathlib.Numerals.{add-one}
use native.Mathlib.Nat.{zero-add, suc-add, le_trans}
use eval_hive.Base.{
  ℕ, zero, suc, ◌+◌, ◌-◌, ◌*◌, ◌≤◌, ◌≡◌, ◌↔◌, refl, sym, ap, ◌∙◌, ◌⊎◌, inl, inr, true, List, [],
  ◌∷◌, ◌++◌, Eq, arith, Bool-cases, length, length-append, take, drop,
}
use native.Mathlib.Decide.{dec_le}
use eval_hive.Loops.Tandem.{list_eq, block_at, count_repeats}

module _ {A : Type 0} where
  abbrev pub blocks : ℕ → List A → List A
  blocks zero b = []
  blocks (suc k) b = b ++ blocks k b

  -- The list begins with `k` copies of the block.
  pub record Repeats (k : ℕ) (b l : List A) : Type 0 where
    pub back : List A
    pub at : l ≡ blocks k b ++ back

  blocks-snoc : (k : ℕ) (b s : List A) → blocks k b ++ (b ++ s) ≡ blocks (suc k) b ++ s
  blocks-snoc zero b s = rw append-nil
  blocks-snoc (suc k) b s =
      append_assoc b (blocks k b) (b ++ s)
      ∙ ap (λ t. b ++ t) (blocks-snoc k b s)
      ∙ sym (append_assoc b (blocks (suc k) b) s)

  pub drop-append : (xs ys : List A) → drop (length xs) (xs ++ ys) ≡ ys
  drop-append [] ys = refl
  drop-append (x ∷ xs) ys = drop-append xs ys

  drop-nil : (n : ℕ) → ◌≡◌ {A = List A} (drop n []) []
  drop-nil zero = refl
  drop-nil (suc n) = refl

  drop-add : (m n : ℕ) (l : List A) → drop (m + n) l ≡ drop n (drop m l)
  drop-add zero n l = rw zero-add
  drop-add (suc m) n [] = rw suc-add (sym (drop-nil n))
  drop-add (suc m) n (x ∷ l) = rw suc-add (drop-add m n l)

  pub take-append : (xs ys : List A) → take (length xs) (xs ++ ys) ≡ xs
  take-append [] ys = refl
  take-append (x ∷ xs) ys = ap (λ t. x ∷ t) (take-append xs ys)

  pub take-append-drop : (n : ℕ) (xs : List A) → take n xs ++ drop n xs ≡ xs
  take-append-drop zero xs = refl
  take-append-drop (suc n) [] = refl
  take-append-drop (suc n) (x ∷ xs) = ap (λ t. x ∷ t) (take-append-drop n xs)

  pub length-blocks : (k : ℕ) (b : List A) → length (blocks k b) ≡ k * length b
  length-blocks zero b = grind arith
  length-blocks (suc k) b = grind (arith, length-append b (blocks k b), length-blocks k b)

  -- What stands behind `r` copies.
  drop-blocks :
      (r start : ℕ) (b seq back : List A)
      → drop start seq ≡ blocks r b ++ back
      → drop (start + r * length b) seq ≡ back
  drop-blocks r start b seq back e =
      drop-add start (r * length b) seq
      ∙ ap (drop (r * length b)) e
      ∙ ap (λ n. drop n (blocks r b ++ back)) (sym (length-blocks r b))
      ∙ drop-append (blocks r b) back

  -- One copy more.
  Repeats-suc :
      (r : ℕ) (b l back : List A)
      → l ≡ blocks r b ++ back
      → take (length b) back ≡ b
      → Repeats (suc r) b l
  Repeats-suc r b l back e t = record {
    back = drop (length b) back;
    at =
        e
        ∙ ap (λ s. blocks r b ++ s)
            (sym (take-append-drop (length b) back) ∙ ap (λ s. s ++ drop (length b) back) t)
        ∙ blocks-snoc r b (drop (length b) back);
  }

  blocks-add : (r d : ℕ) (b s : List A) → blocks (r + d) b ++ s ≡ blocks r b ++ (blocks d b ++ s)
  blocks-add zero d b s = rw zero-add
  blocks-add (suc r) d b s = rw suc-add (
      append_assoc b (blocks (r + d) b) s
      ∙ ap (λ t. b ++ t) (blocks-add r d b s)
      ∙ sym (append_assoc b (blocks r b) (blocks d b ++ s)))

  pub Repeats-le : (k d : ℕ) (b l : List A) → Repeats (k + d) b l → Repeats k b l
  Repeats-le k d b l r = record { back = blocks d b ++ r.back; at = r.at ∙ blocks-add k d b r.back }

module _ {A : Type 0} ⦃eq : Eq A⦄ where
  list_eq_iff : (xs ys : List A) → (list_eq xs ys ≡ true) ↔ (xs ≡ ys)
  unfolding list_eq
  list_eq_iff [] [] = ground arith
  list_eq_iff [] (y ∷ ys) = ground arith
  list_eq_iff (x ∷ xs) [] = ground arith
  list_eq_iff (x ∷ xs) (y ∷ ys) = ground (arith, list_eq_iff xs ys, eq.equals_iff x y)

  pub count_sound :
      (f : ℕ) (seq : List A) (start : ℕ) (b : List A) (r : ℕ)
      → Repeats r b (drop start seq)
      → Repeats (count_repeats f seq start (length b) b r) b (drop start seq)
  unfolding count_repeats
  count_sound zero seq start b r h = h
  count_sound (suc f) seq start b r h =
      elim (Bool-cases (list_eq (block_at seq (start + r * length b) (length b)) b)) [
        | inl more ↦
            let t = (list_eq_iff _ _).0 more in
            let d = drop-blocks r start b seq h.back h.at in
            rw more (
              count_sound f seq start b (r + 1) (
                rw add-one (
                  Repeats-suc r b (drop start seq) h.back h.at (ap (take (length b)) (sym d) ∙ t))))
        | inr last ↦ rw last h
      ]

  count_grows :
      (f : ℕ) (seq : List A) (start : ℕ) (p : ℕ) (b : List A) (r : ℕ)
      → r ≤ count_repeats f seq start p b r
  unfolding count_repeats
  count_grows zero seq start p b r = omega arith
  count_grows (suc f) seq start p b r = ground (arith, count_grows f seq start p b (r + 1))

  -- Where more than `r` copies stand, the next block is a copy.
  next_copy :
      (r d : ℕ) (b l back : List A)
      → l ≡ blocks r b ++ back
      → Repeats (r + suc d) b l
      → take (length b) back ≡ b
  next_copy r d b l back e g =
      let same : blocks r b ++ back ≡ blocks r b ++ (blocks (suc d) b ++ g.back) =
        sym e ∙ g.at ∙ blocks-add r (suc d) b g.back in
      let rest : back ≡ blocks (suc d) b ++ g.back =
        sym (drop-append (blocks r b) back)
        ∙ ap (drop (length (blocks r b))) same
        ∙ drop-append (blocks r b) (blocks (suc d) b ++ g.back) in
      ap (take (length b)) (rest ∙ append_assoc b (blocks d b) g.back)
      ∙ take-append b (blocks d b ++ g.back)

  pub count_complete :
      (f : ℕ) (seq : List A) (start : ℕ) (b : List A) (r k : ℕ)
      → Repeats r b (drop start seq)
      → Repeats k b (drop start seq)
      → k ≤ r + f
      → k ≤ count_repeats f seq start (length b) b r
  unfolding count_repeats
  count_complete zero seq start b r k h g le = omega arith
  count_complete (suc f) seq start b r k h g le = elim (split k r) [
    | inl small ↦ le_trans small (count_grows (suc f) seq start (length b) b r)
    | inr (d, e) ↦
        let t : take (length b) h.back ≡ b =
          next_copy r d b (drop start seq) h.back h.at (rw e at g) in
        let here : list_eq (block_at seq (start + r * length b) (length b)) b ≡ true =
          (list_eq_iff _ _).1 (ap (take (length b)) (drop-blocks r start b seq h.back h.at) ∙ t) in
        let next : Repeats (r + 1) b (drop start seq) =
          rw add-one (Repeats-suc r b (drop start seq) h.back h.at t) in
        let go = count_complete f seq start b (r + 1) k next g (omega arith) in rw here go
  ]
    where
      split : (k r : ℕ) → (k ≤ r) ⊎ ((d : ℕ) × (k ≡ r + suc d))
      split k r = elim (dec_le k r) [ yes p ↦ inl p | no p ↦ inr (k - r - 1, omega arith) ]
