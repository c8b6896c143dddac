-- ===== src/Loops/Tandem/Display.antt =====
-- The cycles that `_tandem_cycles` displays, and the positions that they cover.
use eval_hive.Base.{
  ℕ, zero, suc, ◌+◌, ◌*◌, ◌≤◌, ◌<◌, ◌≡◌, refl, Bool, false, List, [], ◌∷◌, All, Eq, arith,
  Bool-cases, inl, inr, length,
}
use native.Mathlib.Decide.{dec_lt}
use eval_hive.Loops.Tandem.{
  Candidate, Cycle, any_covered, cover, cycle_of, choose, sort_candidates, scan, tandem_cycles,
}

any_covered_sound :
    (covered : ℕ → Bool) (start size j : ℕ)
    → any_covered covered start size ≡ false
    → start ≤ j
    → j < start + size
    → covered j ≡ false
unfolding any_covered
any_covered_sound covered start zero j h lo hi = absurd (omega arith)
any_covered_sound covered start (suc size) j h lo hi = elim (dec_lt start j) [
  | yes later ↦
      any_covered_sound covered (start + 1) size j (ground arith) (omega arith) (omega arith)
  | no here ↦ let e : start ≡ j = omega arith in rw (← e) (ground arith)
]

uncover :
    (covered : ℕ → Bool) (start size j : ℕ)
    → cover covered start size j ≡ false
    → (covered j ≡ false) × (start ≤ j → start + size ≤ j)
unfolding cover
uncover covered start size j h = (ground arith, λ lo. ground arith)

module _ {A : Type 0} where
  -- No position belongs to both.
  abbrev pub AreDisjoint : Cycle A → Cycle A → Type 0
  AreDisjoint c d = (j : ℕ) → c.start ≤ j → j < c.stop → d.start ≤ j → d.stop ≤ j

  abbrev pub DoNotOverlap : List (Cycle A) → Type 0
  DoNotOverlap [] = Unit
  DoNotOverlap (c ∷ l) = All (AreDisjoint c) l × DoNotOverlap l

  -- No position of the cycle is taken.
  abbrev IsFree : (ℕ → Bool) → Cycle A → Type 0
  IsFree covered c = (j : ℕ) → c.start ≤ j → j < c.stop → covered j ≡ false

  All-IsFree-cover :
      (covered : ℕ → Bool) (start size : ℕ) (l : List (Cycle A))
      → All (IsFree (cover covered start size)) l
      → All (IsFree covered) l
  All-IsFree-cover covered start size [] h = tt
  All-IsFree-cover covered start size (c ∷ l) h = (
    λ j lo hi. (uncover covered start size j (h.0 j lo hi)).0,
    All-IsFree-cover covered start size l h.1,
  )

  apart :
      (covered : ℕ → Bool) (c : Cycle A) (size : ℕ) (l : List (Cycle A))
      → c.stop ≡ c.start + size
      → All (IsFree (cover covered c.start size)) l
      → All (AreDisjoint c) l
  apart covered c size [] e h = tt
  apart covered c size (d ∷ l) e h = (
    λ j lo hi lo'. elim (dec_lt j d.stop) [
      | yes inside ↦
          let p = (uncover covered c.start size j (h.0 j lo' inside)).1 lo in absurd (omega arith)
      | no outside ↦ omega arith
    ],
    apart covered c size l e h.1,
  )

  choose-IsFree :
      (seq : List A) (room : ℕ) (covered : ℕ → Bool) (l : List Candidate)
      → All (IsFree covered) (choose seq room covered l)
  unfolding choose
  choose-IsFree seq zero covered l = tt
  choose-IsFree seq (suc room) covered [] = tt
  choose-IsFree seq (suc room) covered (c ∷ l) =
      let size = c.period * c.repeats in
      elim (Bool-cases (any_covered covered c.start size)) [
        | inl taken ↦ rw taken (choose-IsFree seq (suc room) covered l)
        | inr open_ ↦ rw open_ (
          (λ j lo hi. any_covered_sound covered c.start size j open_ lo hi),
          All-IsFree-cover covered c.start size _
              (choose-IsFree seq room (cover covered c.start size) l),
        )
      ]

  choose_disjoint :
      (seq : List A) (room : ℕ) (covered : ℕ → Bool) (l : List Candidate)
      → DoNotOverlap (choose seq room covered l) × (length (choose seq room covered l) ≤ room)
  unfolding choose
  choose_disjoint seq zero covered l = (tt, omega arith)
  choose_disjoint seq (suc room) covered [] = (tt, omega arith)
  choose_disjoint seq (suc room) covered (c ∷ l) =
      let size = c.period * c.repeats in
      let rest = choose_disjoint seq room (cover covered c.start size) l in
      elim (Bool-cases (any_covered covered c.start size)) [
        | inl taken ↦ rw taken (choose_disjoint seq (suc room) covered l)
        | inr open_ ↦ rw open_ (
          (
            apart covered (cycle_of seq c) size _ refl
                (choose-IsFree seq room (cover covered c.start size) l),
            rest.0,
          ),
          omega (arith, rest.1),
        )
      ]

module _ {A : Type 0} ⦃eq : Eq A⦄ where
  -- At most five cycles are displayed, and no position of the list belongs to two of them.
  pub tandem_cycles-DoNotOverlap :
      (seq : List A) → DoNotOverlap (tandem_cycles seq).0 × (length (tandem_cycles seq).0 ≤ 5)
  unfolding tandem_cycles
  tandem_cycles-DoNotOverlap seq =
      choose_disjoint seq 5 (λ j. false) (sort_candidates (scan seq).0 [])
