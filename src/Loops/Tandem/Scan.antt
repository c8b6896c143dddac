-- ===== src/Loops/Tandem/Scan.antt =====
-- The two outer loops of `_tandem_cycles`: what the maximum says of the places that they visit.
use native.Mathlib.Decide.{dec_lt}
use eval_hive.Base.{
  ℕ, zero, suc, ◌+◌, ◌-◌, ◌*◌, ◌≤◌, ◌<◌, max, ◌≡◌, ap, ◌⊎◌, inl, inr, List, Eq, if◌then◌else◌,
  arith, Bool-cases, length, leb, leb→le,
}
use eval_hive.Loops.Tandem.{Candidate, repeats_at, probe, scan_starts, scan_periods}

max_cases : (k m n : ℕ) → k ≤ max m n → (k ≤ m) ⊎ (k ≤ n)
max_cases k m n h = omega arith

module _ {A : Type 0} ⦃eq : Eq A⦄ where
  best-probe :
      (seq : List A) (period start : ℕ) (found : List Candidate × ℕ)
      → (probe seq period start found).1 ≡ (
          if leb 2 (repeats_at seq period start)
          then max found.1 (repeats_at seq period start)
          else found.1)
  unfolding probe
  best-probe seq period start found = ground arith

  -- Some start has as many repetitions.
  abbrev pub FoundBelow : List A → ℕ → ℕ → ℕ → Type 0
  FoundBelow seq period stop k =
      (s : ℕ) × (s < stop) × (2 ≤ repeats_at seq period s) × (k ≤ repeats_at seq period s)

  probe_sound :
      (seq : List A) (period start k stop : ℕ) (found : List Candidate × ℕ)
      → start < stop
      → k ≤ (probe seq period start found).1
      → (k ≤ found.1) ⊎ FoundBelow seq period stop k
  probe_sound seq period start k stop found lt h =
      elim (Bool-cases (leb 2 (repeats_at seq period start))) [
        | inl two ↦
            elim (max_cases k found.1 (repeats_at seq period start)
              (ground (arith, best-probe seq period start found))) [
                | inl old ↦ inl old
                | inr new ↦ inr (start, lt, leb→le _ _ two, new)
              ]
        | inr few ↦ inl (ground (arith, best-probe seq period start found))
      ]

  probe_complete :
      (seq : List A) (period start k : ℕ) (found : List Candidate × ℕ)
      → (k ≤ found.1) ⊎ ((2 ≤ k) × (k ≤ repeats_at seq period start))
      → k ≤ (probe seq period start found).1
  probe_complete seq period start k found h = ground (arith, best-probe seq period start found)

  scan_starts_sound :
      (seq : List A) (period start rounds stop k : ℕ) (found : List Candidate × ℕ)
      → start + rounds ≤ stop
      → k ≤ (scan_starts seq period start rounds found).1
      → (k ≤ found.1) ⊎ FoundBelow seq period stop k
  unfolding scan_starts
  scan_starts_sound seq period start zero stop k found le h = inl h
  scan_starts_sound seq period start (suc rounds) stop k found le h =
      elim (scan_starts_sound seq period (start + 1) rounds stop k (probe seq period start found)
        (omega arith) h) [
          | inl p ↦ probe_sound seq period start k stop found (omega arith) p
          | inr q ↦ inr q
        ]

  scan_starts_complete :
      (seq : List A) (period start rounds s k : ℕ) (found : List Candidate × ℕ)
      → (k ≤ found.1)
        ⊎ ((start ≤ s) × (s < start + rounds) × (2 ≤ k) × (k ≤ repeats_at seq period s))
      → k ≤ (scan_starts seq period start rounds found).1
  unfolding scan_starts
  scan_starts_complete seq period start zero s k found h = omega arith
  scan_starts_complete seq period start (suc rounds) s k found h =
      scan_starts_complete seq period (start + 1) rounds s k (probe seq period start found) (
        ground (
          arith,
          probe_complete seq period start k found,
          ap (repeats_at seq period) {x = start} {y = s},
        ))

  -- The number of starts, `n - period * 2 + 1`.
  abbrev pub starts : List A → ℕ → ℕ
  starts seq period = length seq + 1 - period * 2

  -- Some period has as many repetitions.
  abbrev pub FoundPeriod : List A → ℕ → ℕ → ℕ → Type 0
  FoundPeriod seq low high k = (p : ℕ) × (low ≤ p) × (p < high) × FoundBelow seq p (starts seq p) k

  pub scan_periods_sound :
      (seq : List A) (period rounds low high k : ℕ) (found : List Candidate × ℕ)
      → low ≤ period
      → period + rounds ≤ high
      → k ≤ (scan_periods seq period rounds found).1
      → (k ≤ found.1) ⊎ FoundPeriod seq low high k
  unfolding scan_periods
  scan_periods_sound seq period zero low high k found lo hi h = inl h
  scan_periods_sound seq period (suc rounds) low high k found lo hi h =
      elim (scan_periods_sound seq (period + 1) rounds low high k
        (scan_starts seq period 0 (starts seq period) found) (omega arith) (omega arith) h) [
          | inl p ↦
              elim (scan_starts_sound seq period 0 (starts seq period) (starts seq period) k found
                (omega arith) p) [ inl q ↦ inl q | inr q ↦ inr (period, lo, omega arith, q) ]
          | inr q ↦ inr q
        ]

  pub scan_periods_complete :
      (seq : List A) (period rounds p s k : ℕ) (found : List Candidate × ℕ)
      → (k ≤ found.1)
        ⊎ ((period ≤ p)
            × (p < period + rounds)
            × (s < starts seq p)
            × (2 ≤ k)
            × (k ≤ repeats_at seq p s))
      → k ≤ (scan_periods seq period rounds found).1
  unfolding scan_periods
  scan_periods_complete seq period zero p s k found h = omega arith
  scan_periods_complete seq period (suc rounds) p s k found h =
      scan_periods_complete seq (period + 1) rounds p s k
        (scan_starts seq period 0 (starts seq period) found)
        (elim h [
          | inl old ↦
              inl (scan_starts_complete seq period 0 (starts seq period) s k found (inl old))
          | inr (lo, hi, room, two, g) ↦ elim (dec_lt period p) [
            | yes later ↦ inr (omega arith, omega arith, room, two, g)
            | no here ↦
                let e : p ≡ period = omega arith in
                inl (
                  scan_starts_complete seq period 0 (starts seq period) s k found
                    (inr (omega arith, omega (arith, rw e at room), two, rw e at g)))
          ]
        ])
