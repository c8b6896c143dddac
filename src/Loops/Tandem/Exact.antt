-- ===== src/Loops/Tandem/Exact.antt =====
-- The maximum that `_tandem_cycles` reports, against stretches of copies of a block.
use eval_hive.Base.{
  ℕ, ◌+◌, ◌-◌, ◌*◌, ◌≤◌, ◌<◌, ◌≡◌, ◌≢◌, ◌↔◌, sym, ap, subst, ◌∙◌, inl, inr, List, [], ◌++◌, Eq,
  arith, length, length-append, take, drop,
}
use eval_hive.Loops.Runs.{replicate}
use eval_hive.Loops.Tandem.{is_uniform, block_at, repeats_at, tandem_cycles}
use eval_hive.Loops.Tandem.Blocks.{
  blocks, Repeats, Repeats-le, drop-append, take-append-drop, length-blocks,
}
use eval_hive.Loops.Tandem.Counted.{
  uniform_complete, length-take_le, length-drop, not_uniform, take-blocks, Found, repeats_sound,
  repeats_complete,
}
use eval_hive.Loops.Tandem.Scan.{FoundBelow, starts, scan_periods_sound, scan_periods_complete}

module _ {A : Type 0} where
  -- A stretch of `k` copies of a block of 2 to 5 elements that are not all equal.
  pub record HasCycle (k : ℕ) (l : List A) : Type 0 where
    pub block : List A
    pub front : List A
    pub back : List A
    pub at : l ≡ front ++ (blocks k block ++ back)
    pub varied : (x : A) → block ≢ replicate (length block) x
    pub long : 2 ≤ length block
    pub short : length block ≤ 5

module _ {A : Type 0} ⦃eq : Eq A⦄ where
  HasCycle-of-found :
      (seq : List A) (k p : ℕ)
      → 2 ≤ k
      → 2 ≤ p
      → p < 6
      → FoundBelow seq p (starts seq p) k
      → HasCycle k seq
  HasCycle-of-found seq k p two lo hi (s, room, t, g) =
      let full : length (block_at seq s p) ≡ p =
        length-take_le p (drop s seq) (omega (arith, length-drop s seq)) in
      let f = repeats_sound seq p s full t in
      let e : repeats_at seq p s ≡ k + (repeats_at seq p s - k) = omega arith in
      let r =
        Repeats-le k (repeats_at seq p s - k) (block_at seq s p) (drop s seq)
          (subst (λ n. Repeats n (block_at seq s p) (drop s seq)) e f.repeated) in
      record {
        block = block_at seq s p;
        front = take s seq;
        back = r.back;
        at = sym (take-append-drop s seq) ∙ ap (λ x. take s seq ++ x) r.at;
        varied = λ x same.
            cc (f.varied, ap is_uniform same, uniform_complete (length (block_at seq s p)) x);
        long = omega (arith, full);
        short = omega (arith, full);
      }

  found-of-HasCycle :
      (seq : List A) (k : ℕ)
      → 2 ≤ k
      → (c : HasCycle k seq)
      → (length c.front < starts seq (length c.block))
        × (k ≤ repeats_at seq (length c.block) (length c.front))
  found-of-HasCycle seq k two c =
      let s = length c.front in
      let rest : drop s seq ≡ blocks k c.block ++ c.back =
        ap (drop s) c.at ∙ drop-append c.front (blocks k c.block ++ c.back) in
      let first : block_at seq s (length c.block) ≡ c.block =
        ap (take (length c.block)) rest ∙ take-blocks k c.block c.back (omega arith) in
      let f : Found k seq (length c.block) s = record {
        varied = rw first (not_uniform c.block c.long c.varied);
        repeated = rw first (record { back = c.back; at = rest });
      } in
      let long = c.long in
      let size : length seq ≡ s + (k * length c.block + length c.back) =
        ap length c.at
        ∙ length-append c.front (blocks k c.block ++ c.back)
        ∙ ap (λ n. s + n)
            (length-append (blocks k c.block) c.back
              ∙ ap (λ n. n + length c.back) (length-blocks k c.block)) in
      (
        grind (arith, size),
        repeats_complete seq (length c.block) s k (ap length first) (omega arith) f,
      )

  -- For k of 2 or more, `_tandem_cycles` reports k or more repetitions exactly when the list has a
  -- stretch of k copies of a block of 2 to 5 elements that are not all equal.
  pub tandem_cycles_exact :
      (seq : List A) (k : ℕ) → 2 ≤ k → (k ≤ (tandem_cycles seq).1) ↔ HasCycle k seq
  unfolding tandem_cycles
  tandem_cycles_exact seq k two = (
    λ h. elim (scan_periods_sound seq 2 4 2 6 k ([], 0) (omega arith) (omega arith) h) [
      | inl none_found ↦ absurd (omega arith)
      | inr (p, lo, hi, f) ↦ HasCycle-of-found seq k p two lo hi f
    ],
    λ c.
        let (room, g) = found-of-HasCycle seq k two c in
        let lo = c.long in
        let hi = c.short in
        scan_periods_complete seq 2 4 (length c.block) (length c.front) k ([], 0)
          (inr (lo, omega arith, room, two, g)),
  )
