-- ===== src/Loops/Tandem/Counted.antt =====
-- How often the block at one place repeats: the guard and the inner `while` of `_tandem_cycles`.
use mathlib.Core.List.{append-nil, append_assoc}
use eval_hive.Base.{
  ℕ, zero, suc, ◌-◌, ◌≤◌, max, ◌≡◌, ◌≢◌, refl, sym, ap, subst, ◌∙◌, inl, inr, true, false, List, [],
  ◌∷◌, ◌++◌, Eq, ==→≡, ==-refl, arith, Bool-cases, length, length-append, take, drop,
}
use eval_hive.Loops.Runs.{replicate}
use eval_hive.Loops.Tandem.{all_equal, is_uniform, block_at, count_repeats, repeats_at}
use eval_hive.Loops.Tandem.Blocks.{
  blocks, Repeats, take-append, take-append-drop, length-blocks, count_sound, count_complete,
}

module _ {A : Type 0} where
  pub length-take_le : (n : ℕ) (l : List A) → n ≤ length l → length (take n l) ≡ n
  length-take_le zero l h = omega arith
  length-take_le (suc n) [] h = absurd (omega arith)
  length-take_le (suc n) (x ∷ l) h = ap suc (length-take_le n l (omega arith))

  pub length-drop : (n : ℕ) (l : List A) → length (drop n l) ≡ length l - n
  length-drop zero l = omega arith
  length-drop (suc n) [] = omega arith
  length-drop (suc n) (x ∷ l) = omega (arith, length-drop n l)

le_max : (m n : ℕ) → m ≤ max m n
le_max m n = omega arith

module _ {A : Type 0} ⦃eq : Eq A⦄ where
  all_equal_sound : (x : A) (l : List A) → all_equal x l ≡ true → l ≡ replicate (length l) x
  unfolding all_equal
  all_equal_sound x [] h = refl
  all_equal_sound x (y ∷ l) h = ground (arith, all_equal_sound x l, ==→≡ x y)

  all_equal_complete : (x : A) (n : ℕ) → all_equal x (replicate n x) ≡ true
  unfolding all_equal
  all_equal_complete x zero = refl
  all_equal_complete x (suc n) = rw (==-refl x) (all_equal_complete x n)

  uniform_sound :
      (b : List A) → 2 ≤ length b → is_uniform b ≡ true → (x : A) × (b ≡ replicate (length b) x)
  unfolding is_uniform
  uniform_sound [] h u = absurd (omega arith)
  uniform_sound (x ∷ l) h u = (x, ap (λ t. x ∷ t) (all_equal_sound x l u))

  pub uniform_complete : (n : ℕ) (x : A) → is_uniform (replicate n x) ≡ true
  unfolding is_uniform
  uniform_complete zero x = refl
  uniform_complete (suc n) x = all_equal_complete x n

  pub not_uniform :
      (b : List A) → 2 ≤ length b → ((x : A) → b ≢ replicate (length b) x) → is_uniform b ≡ false
  not_uniform b two varied = elim (Bool-cases (is_uniform b)) [
    | inl u ↦ let (x, e) = uniform_sound b two u in absurd (varied x e)
    | inr v ↦ v
  ]

  pub take-blocks : (k : ℕ) (b s : List A) → 1 ≤ k → take (length b) (blocks k b ++ s) ≡ b
  take-blocks zero b s h = absurd (omega arith)
  take-blocks (suc k) b s h =
      ap (take (length b)) (append_assoc b (blocks k b) s) ∙ take-append b (blocks k b ++ s)

  -- `repeats_at`, where there is room for the block.
  pub record Found (k : ℕ) (seq : List A) (period start : ℕ) : Type 0 where
    pub varied : is_uniform (block_at seq start period) ≡ false
    pub repeated : Repeats k (block_at seq start period) (drop start seq)

  pub once :
      (seq : List A) (period start : ℕ) → Repeats 1 (block_at seq start period) (drop start seq)
  once seq period start = record {
    back = drop period (drop start seq);
    at = rw append-nil (sym (take-append-drop period (drop start seq)));
  }

  pub repeats_sound :
      (seq : List A) (period start : ℕ)
      → length (block_at seq start period) ≡ period
      → 2 ≤ repeats_at seq period start
      → Found (repeats_at seq period start) seq period start
  unfolding repeats_at
  repeats_sound seq period start full two =
      elim (Bool-cases (is_uniform (block_at seq start period))) [
        | inl uniform ↦ absurd (omega (arith, rw uniform at two))
        | inr varied ↦ record {
          varied = varied;
          repeated = rw varied (
              subst
                (λ p.
                  Repeats (count_repeats (length seq) seq start p (block_at seq start period) 1)
                    (block_at seq start period) (drop start seq))
                full
                (count_sound (length seq) seq start (block_at seq start period) 1
                  (once seq period start)));
        }
      ]

  copies-le-length : (k : ℕ) (b l : List A) → 1 ≤ length b → Repeats k b l → k ≤ length l
  copies-le-length k b l h r =
      grind (arith, ap length r.at, length-append (blocks k b) r.back, length-blocks k b)

  length-drop-le : (n : ℕ) (l : List A) → length (drop n l) ≤ length l
  length-drop-le n l = omega (arith, length-drop n l)

  pub repeats_complete :
      (seq : List A) (period start k : ℕ)
      → length (block_at seq start period) ≡ period
      → 1 ≤ period
      → Found k seq period start
      → k ≤ repeats_at seq period start
  unfolding repeats_at
  repeats_complete seq period start k full pos f =
      let b = block_at seq start period in
      let small = copies-le-length k b (drop start seq) (omega arith) f.repeated in
      let few = length-drop-le start seq in
      rw (f.varied) (
        subst (λ p. k ≤ count_repeats (length seq) seq start p b 1) full
          (count_complete (length seq) seq start b 1 k (once seq period start) f.repeated
            (omega arith)))
