-- ===== src/Loops/Runs.antt =====
-- The longest run of equal neighbours: `max_repeat_run` and `max_same_tool_run` of `detect_loops`, and an
-- independent description, a stretch of equal elements in the list.
pub mod Exact
use eval_hive.Base.{
  ℕ, zero, suc, ◌+◌, ◌≤◌, ◌<◌, max, ◌≡◌, ◌≢◌, refl, sym, ap, ◌∙◌, Bool, ◌⊎◌, inl, inr, List, [],
  ◌∷◌, ◌++◌, ◌==◌, Eq, ==→≡, ==-refl, if◌then◌else◌, arith, Bool-cases,
}
use mathlib.Core.List.{append_assoc}

module _ {A : Type 0} where
  abbrev pub replicate : ℕ → A → List A
  replicate zero x = []
  replicate (suc n) x = x ∷ replicate n x

  -- The list has a stretch of `k` equal elements.
  pub record HasRun (k : ℕ) (l : List A) : Type 0 where
    pub element : A
    pub front : List A
    pub back : List A
    pub at : l ≡ front ++ (replicate k element ++ back)

module _ {A : Type 0} ⦃eq : Eq A⦄ where
  unfoldable pub run_loop : A → ℕ → ℕ → List A → ℕ
  run_loop a run best [] = best
  run_loop a run best (b ∷ l) =
      let run' = if a == b then run + 1 else 1 in run_loop b run' (max best run') l

  unfoldable pub longest_run : List A → ℕ
  unfolding run_loop
  longest_run [] = 1
  longest_run (a ∷ l) = run_loop a 1 1 l
