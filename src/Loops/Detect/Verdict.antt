-- ===== src/Loops/Detect/Verdict.antt =====
-- When a loop is reported, and what the score says of it.
use eval_hive.Base.{
  suc, refl, false, Bool-cases, ◌-ℤ◌, max_ℤ, min_ℤ, ◌-◌, ◌*◌, min, pos, ◌≤ℤ◌, ℕ, ◌≤◌, max, ◌≡◌, ◌↔◌,
  ◌⊎◌, inl, inr, Bool, true, ◌||◌, some, List, [], ◌∷◌, map, Text, text_eq, arith, leb, leb→le,
  le→leb,
}
use eval_hive.Loops.Keys.{Step, Call, tool_calls}
use eval_hive.Loops.Runs.{HasRun, longest_run}
use eval_hive.Loops.Runs.Exact.{longest_run_exact}
use eval_hive.Loops.Tandem.{tandem_cycles}
use eval_hive.Loops.Tandem.Exact.{HasCycle, tandem_cycles_exact}
use eval_hive.Loops.Detect.{
  max_same_tool, penalty, loop_score, attempts_of, keys_from, tagged, segments, pairs, max_cycle,
  detect_calls, detect_loops,
}

-- Some member of the list has the property.
abbrev pub InSome : {A : Type 0} → (A → Type 0) → List A → Type 0
InSome P [] = ⊥
InSome P (x ∷ l) = P x ⊎ InSome P l

le_max : (k m n : ℕ) → k ≤ max m n → (k ≤ m) ⊎ (k ≤ n)
le_max k m n h = omega arith

max_cycle_exact :
    (segs : List (List Text)) (k : ℕ) → 2 ≤ k → (k ≤ max_cycle segs) ↔ InSome (HasCycle k) segs
unfolding max_cycle
max_cycle_exact [] k two = (λ h. absurd (omega arith), λ h. absurd h)
max_cycle_exact (seg ∷ segs) k two =
    let here = tandem_cycles_exact seg k two in
    let rest = max_cycle_exact segs k two in
    (
      λ h. elim (le_max k (tandem_cycles seg).1 (max_cycle segs) h) [
        | inl a ↦ inl (here.0 a)
        | inr b ↦ inr (rest.0 b)
      ],
      elim [ inl c ↦ let p = here.1 c in omega arith | inr d ↦ let p = rest.1 d in omega arith ],
    )

max_same_tool_exact :
    (segs : List (List Text)) (k : ℕ) → 2 ≤ k → (k ≤ max_same_tool segs) ↔ InSome (HasRun k) segs
unfolding max_same_tool
max_same_tool_exact [] k two = (λ h. absurd (omega arith), λ h. absurd h)
max_same_tool_exact (seg ∷ segs) k two =
    let here = longest_run_exact seg k (omega arith) in
    let rest = max_same_tool_exact segs k two in
    (
      λ h. elim (le_max k (longest_run seg) (max_same_tool segs) h) [
        | inl a ↦ inl (here.0 a)
        | inr b ↦ inr (rest.0 b)
      ],
      elim [ inl c ↦ let p = here.1 c in omega arith | inr d ↦ let p = rest.1 d in omega arith ],
    )

or_true : (a b : Bool) → ((a || b) ≡ true) ↔ ((a ≡ true) ⊎ (b ≡ true))
or_true a b = ground arith

module _ {A : Type 0} (digest : A → Text) where
  -- What the report of a trace counts: the identities of its calls, and the tool names of each
  -- attempt.
  abbrev pub identities : List ℕ → List (Call A) → List Text
  identities attempts calls = tagged attempts (keys_from digest 0 calls)

  abbrev pub tool_segments : List ℕ → List (Call A) → List (List Text)
  tool_segments attempts calls = segments (pairs attempts (map (λ c. c.tool) calls))

  detected :
      (steps : List (Step A)) (c : Call A) (l : List (Call A)) (attempts : List ℕ)
      → tool_calls steps ≡ c ∷ l
      → attempts_of (c ∷ l) ≡ some attempts
      → (detect_loops digest steps).loop_detected ≡ (
          leb 3 (longest_run (identities attempts (c ∷ l)))
          || leb 3 (max_cycle (tool_segments attempts (c ∷ l))))
  unfolding detect_loops
  detected steps c l attempts calls numbered = rw calls (rw (numbered, detect_calls))

  -- For a trace with tool calls and readable attempt numbers, a loop is detected exactly when three
  -- calls in a row have one identity, or when within one attempt a block of 2 to 5 tool names that
  -- are not all equal stands three times in a row.
  pub detect_loops_exact :
      (steps : List (Step A)) (c : Call A) (l : List (Call A)) (attempts : List ℕ)
      → tool_calls steps ≡ c ∷ l
      → attempts_of (c ∷ l) ≡ some attempts
      → ((detect_loops digest steps).loop_detected ≡ true) ↔ (
          HasRun 3 (identities attempts (c ∷ l))
          ⊎ InSome (HasCycle 3) (tool_segments attempts (c ∷ l)))
  detect_loops_exact steps c l attempts calls numbered =
      let keys = identities attempts (c ∷ l) in
      let segs = tool_segments attempts (c ∷ l) in
      let run = longest_run_exact keys 3 (omega arith) in
      let cyc = max_cycle_exact segs 3 (omega arith) in
      let either = or_true (leb 3 (longest_run keys)) (leb 3 (max_cycle segs)) in
      rw (detected steps c l attempts calls numbered) (
        λ h. elim (either.0 h) [
          | inl a ↦ inl (run.0 (leb→le 3 (longest_run keys) a))
          | inr b ↦ inr (cyc.0 (leb→le 3 (max_cycle segs) b))
        ],
        λ h. either.1 (elim h [
          | inl a ↦ inl (le→leb 3 (longest_run keys) (run.1 a))
          | inr b ↦ inr (le→leb 3 (max_cycle segs) (cyc.1 b))
        ]),
      )

penalty_pos :
    (n : ℕ)
    → (penalty 20 1 n ≡ pos (20 * (n - 1)))
      × (penalty 25 1 n ≡ pos (25 * (n - 1)))
      × (penalty 10 3 n ≡ pos (10 * (n - 3)))
unfolding penalty
penalty_pos n = (ground arith, ground arith, ground arith)

capped :
    (a b c : ℕ)
    → pos 100 -ℤ min_ℤ (pos 100) (max_ℤ (max_ℤ (pos a) (pos b)) (pos c))
      ≡ pos (100 - min 100 (max (max a b) c))
capped a b c = ground arith

loop_score_pos :
    (run cyc same : ℕ)
    → loop_score run cyc same
      ≡ pos (100 - min 100 (max (max (20 * (run - 1)) (25 * (cyc - 1))) (10 * (same - 3))))
unfolding loop_score
loop_score_pos run cyc same =
    rw (loop_score, (penalty_pos run).0, (penalty_pos cyc).1, (penalty_pos same).2)
      (capped (20 * (run - 1)) (25 * (cyc - 1)) (10 * (same - 3)))

-- The score of three counts: its bounds, when it is full, and what a loop costs.
loop_score_cases :
    (run cyc same : ℕ)
    → (pos 0 ≤ℤ loop_score run cyc same)
      × (loop_score run cyc same ≤ℤ pos 100)
      × ((loop_score run cyc same ≡ pos 100) ↔ ((run ≤ 1) × (cyc ≤ 1) × (same ≤ 3)))
      × ((3 ≤ run) ⊎ (3 ≤ cyc) → loop_score run cyc same ≤ℤ pos 60)
loop_score_cases run cyc same =
    let e = loop_score_pos run cyc same in
    rw e (omega arith, omega arith, (λ h. ground arith, λ h. ground arith), λ h. omega arith)

-- Below k, where the counted thing does not occur k times.
below : {P : Type 0} (k n : ℕ) → (suc k ≤ n) ↔ P → (n ≤ k) ↔ (¬ P)
below k n e = (λ h p. let q = e.1 p in omega arith, λ no. not_above k n (λ h. no (e.0 h)))
  where
    not_above : (k n : ℕ) → (suc k ≤ n → ⊥) → n ≤ k
    not_above k n h = omega arith

module _ {A : Type 0} (digest : A → Text) where
  -- For a trace with tool calls and readable attempt numbers, the score, in tenths, is between 0 and 100. It
  -- is 100 exactly when no two calls in a row have one identity, and within no attempt a block of 2 to 5
  -- tool names that are not all equal stands twice in a row, nor one tool four times in a row. Where a
  -- loop is detected, it is at most 60.
  pub loop_score_bounds :
      (steps : List (Step A)) (c : Call A) (l : List (Call A)) (attempts : List ℕ)
      → tool_calls steps ≡ c ∷ l
      → attempts_of (c ∷ l) ≡ some attempts
      → let r = detect_loops digest steps in
        (pos 0 ≤ℤ r.loop_score)
        × (r.loop_score ≤ℤ pos 100)
        × ((r.loop_score ≡ pos 100) ↔ (
            (¬ HasRun 2 (identities digest attempts (c ∷ l)))
            × (¬ InSome (HasCycle 2) (tool_segments digest attempts (c ∷ l)))
            × (¬ InSome (HasRun 4) (tool_segments digest attempts (c ∷ l)))))
        × ((r.loop_detected ≡ false) ⊎ (r.loop_score ≤ℤ pos 60))
  unfolding detect_loops
  loop_score_bounds steps c l attempts calls numbered =
      let keys = identities digest attempts (c ∷ l) in
      let segs = tool_segments digest attempts (c ∷ l) in
      let run = below 1 (longest_run keys) (longest_run_exact keys 2 (omega arith)) in
      let cyc = below 1 (max_cycle segs) (max_cycle_exact segs 2 (omega arith)) in
      let same = below 3 (max_same_tool segs) (max_same_tool_exact segs 4 (omega arith)) in
      let s = loop_score_cases (longest_run keys) (max_cycle segs) (max_same_tool segs) in
      let scored : (detect_loops digest steps).loop_score
          ≡ loop_score (longest_run keys) (max_cycle segs) (max_same_tool segs) =
        rw calls (rw (numbered, detect_calls) refl) in
      (
        rw scored s.0,
        rw scored s.1,
        rw scored (
          λ h. let b = s.2.0 h in (run.0 b.0, cyc.0 b.1, same.0 b.2),
          λ h. s.2.1 (run.1 h.0, cyc.1 h.1, same.1 h.2),
        ),
        rw (scored, detected digest steps c l attempts calls numbered)
            (elim (Bool-cases (leb 3 (longest_run keys))) [
              | inl a ↦ inr (s.3 (inl (leb→le 3 (longest_run keys) a)))
              | inr a ↦ elim (Bool-cases (leb 3 (max_cycle segs))) [
                | inl b ↦ inr (s.3 (inr (leb→le 3 (max_cycle segs) b)))
                | inr b ↦ inl (rw (a, b) refl)
              ]
            ]),
      )
