-- ===== src/Loops/Tandem.antt =====
-- `_tandem_cycles` of backend/app/quality/trace_loops.py: contiguous repetitions of a block of 2 to 5
-- tool names.
pub mod Blocks
pub mod Counted
pub mod Scan
pub mod Exact
pub mod Display
use eval_hive.Base.{
  ℕ, zero, suc, ◌+◌, ◌-◌, ◌*◌, max, Bool, true, false, ◌&&◌, ◌||◌, not, List, [], ◌∷◌, ◌++◌, Text,
  ◌==◌, text_eq, nat_eq, Eq, if◌then◌else◌, leb, ltb, length, take, drop,
}

-- A repetition: how many elements it covers, where it begins, its period, and how often it repeats.
pub record Candidate : Type 0 where
  pub coverage : ℕ
  pub start : ℕ
  pub period : ℕ
  pub repeats : ℕ

pub record Cycle (A : Type 0) : Type 0 where
  pub pattern_ : List A
  pub period : ℕ
  pub repeats : ℕ
  pub start : ℕ
  pub stop : ℕ

module _ {A : Type 0} ⦃eq : Eq A⦄ where
  unfoldable pub list_eq : List A → List A → Bool
  list_eq [] [] = true
  list_eq [] (y ∷ ys) = false
  list_eq (x ∷ xs) [] = false
  list_eq (x ∷ xs) (y ∷ ys) = (x == y) && list_eq xs ys

  all_equal : A → List A → Bool
  all_equal x [] = true
  all_equal x (y ∷ l) = (x == y) && all_equal x l

  -- `len(set(block)) < 2`
  unfoldable pub is_uniform : List A → Bool
  unfolding all_equal
  is_uniform [] = true
  is_uniform (x ∷ l) = all_equal x l

  -- seq[i : i + period]
  abbrev pub block_at : List A → ℕ → ℕ → List A
  block_at seq i period = take period (drop i seq)

  -- The inner `while`, on fuel.
  unfoldable pub count_repeats : ℕ → List A → ℕ → ℕ → List A → ℕ → ℕ
  unfolding list_eq
  count_repeats zero seq start period block repeats = repeats
  count_repeats (suc f) seq start period block repeats =
      let more = count_repeats f seq start period block (repeats + 1) in
      if list_eq (block_at seq (start + repeats * period) period) block then more else repeats

  -- How often the block at `start` repeats, 0 where it is uniform.
  unfoldable pub repeats_at : List A → ℕ → ℕ → ℕ
  unfolding is_uniform count_repeats
  repeats_at seq period start =
      let block = block_at seq start period in
      if is_uniform block then 0 else count_repeats (length seq) seq start period block 1

  -- The body of the loops: a repetition of two rounds or more is a candidate.
  unfoldable pub probe : List A → ℕ → ℕ → List Candidate × ℕ → List Candidate × ℕ
  unfolding repeats_at
  probe seq period start (cs, best) =
      let r = repeats_at seq period start in
      if leb 2 r
      then (
        cs ++ record { coverage = r * period; start = start; period = period; repeats = r } ∷ [],
        max best r,
      )
      else (cs, best)

  -- `for start in range(start, start + rounds)`, with the candidates and the maximum so far.
  unfoldable pub scan_starts : List A → ℕ → ℕ → ℕ → List Candidate × ℕ → List Candidate × ℕ
  unfolding probe
  scan_starts seq period start zero found = found
  scan_starts seq period start (suc rounds) found =
      scan_starts seq period (start + 1) rounds (probe seq period start found)

  -- `for period in range(period, period + rounds)`; the starts are those with room for two blocks,
  -- range(0, n - period * 2 + 1).
  unfoldable pub scan_periods : List A → ℕ → ℕ → List Candidate × ℕ → List Candidate × ℕ
  unfolding scan_starts
  scan_periods seq period zero found = found
  scan_periods seq period (suc rounds) found =
      scan_periods seq (period + 1) rounds
        (scan_starts seq period 0 (length seq + 1 - period * 2) found)

  -- Both loops: the periods are 2 to 5.
  unfoldable pub scan : List A → List Candidate × ℕ
  unfolding scan_periods
  scan seq = scan_periods seq 2 4 ([], 0)

-- The order of display: by coverage, the largest first, then by start.
precedes : Candidate → Candidate → Bool
precedes c d = ltb d.coverage c.coverage || ((c.coverage == d.coverage) && ltb c.start d.start)

-- A stable sort: an element goes behind those that it does not precede.
insert_candidate : Candidate → List Candidate → List Candidate
unfolding precedes
insert_candidate c [] = c ∷ []
insert_candidate c (d ∷ l) =
    let rest = insert_candidate c l in if precedes c d then c ∷ (d ∷ l) else d ∷ rest

pub sort_candidates : List Candidate → List Candidate → List Candidate
unfolding insert_candidate
sort_candidates [] sorted = sorted
sort_candidates (c ∷ l) sorted = sort_candidates l (insert_candidate c sorted)

-- any(covered[j] for j in range(start, start + size))
pub any_covered : (ℕ → Bool) → ℕ → ℕ → Bool
any_covered covered start zero = false
any_covered covered start (suc size) = covered start || any_covered covered (start + 1) size

pub cover : (ℕ → Bool) → ℕ → ℕ → ℕ → Bool
cover covered start size j = covered j || (leb start j && ltb j (start + size))

module _ {A : Type 0} where
  pub cycle_of : List A → Candidate → Cycle A
  cycle_of seq c = record {
    pattern_ = take c.period (drop c.start seq);
    period = c.period;
    repeats = c.repeats;
    start = c.start;
    stop = c.start + c.period * c.repeats;
  }

  -- Greedy choice of cycles that do not overlap, at most `room` of them.
  pub choose : List A → ℕ → (ℕ → Bool) → List Candidate → List (Cycle A)
  unfolding any_covered cover cycle_of
  choose seq zero covered l = []
  choose seq (suc room) covered [] = []
  choose seq (suc room) covered (c ∷ l) =
      let skip = choose seq (suc room) covered l in
      let size = c.period * c.repeats in
      let keep = choose seq room (cover covered c.start size) l in
      if any_covered covered c.start size then skip else cycle_of seq c ∷ keep

module _ {A : Type 0} ⦃eq : Eq A⦄ where
  unfoldable pub tandem_cycles : List A → List (Cycle A) × ℕ
  unfolding scan sort_candidates choose
  tandem_cycles seq =
      let (candidates, max_repeats) = scan seq in
      (choose seq 5 (λ j. false) (sort_candidates candidates []), max_repeats)
