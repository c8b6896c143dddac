-- ===== src/Attempts/Ingest/Replay.antt =====
-- Records that stand in the journal, through the loop over a batch.
use eval_hive.Base.{
  ℕ, ◌+◌, ◌<◌, ◌≡◌, Bool, true, false, List, [], ◌∷◌, All, arith, Eq, nat_eq, text_eq, ltb, length,
  Bool-cases, inl, inr, ==-refl,
}
use eval_hive.Attempts.Model.{Event}
use eval_hive.Attempts.Store.{ok, >>=-eq-ok, Sdk}
use eval_hive.Attempts.Ingest.{Journal, find_seq, same_record, append_row, step, ingest_loop}
use eval_hive.Attempts.Ingest.Contiguous.{Admitted, admitted, next_seq-advance_status}

module _ {J : Type 0} ⦃eq : Eq J⦄ (sdk : Sdk J) (now : Event J → ℕ) where
  -- The event stands in the journal.
  pub record Recorded (j : Journal J) (e : Event J) : Type 0 where
    pub past : e.seq < j.attempt.next_seq
    pub there : same_record sdk now e (find_seq e.seq j.rows) ≡ true

  pub next_seq-append_row :
      (e : Event J) (j : Journal J) (t : ℕ)
      → (append_row sdk now t e j).attempt.next_seq ≡ j.attempt.next_seq + 1
  unfolding append_row
  next_seq-append_row e j t = omega (arith, next_seq-advance_status sdk now e.name t e j.attempt)

  append_row-Recorded :
      (e : Event J) (j : Journal J) (t : ℕ)
      → e.seq ≡ j.attempt.next_seq
      → Recorded (append_row sdk now t e j) e
  append_row-Recorded e j t in_order = record {
    past = omega (arith, next_seq-append_row e j t);
    there =
        unfold append_row find_seq same_record in
        ground (arith, ==-refl e.seq, ==-refl (sdk.sha256 e.event_id), ==-refl e.payload);
  }

  append_row-keeps-Recorded :
      (d e : Event J) (j : Journal J) (t : ℕ)
      → e.seq ≡ j.attempt.next_seq
      → Recorded j d
      → Recorded (append_row sdk now t e j) d
  append_row-keeps-Recorded d e j t in_order r = record {
    past = let p = r.past in omega (arith, next_seq-append_row e j t);
    there = let p = r.past in let q = r.there in unfold append_row find_seq in ground arith;
  }

  step-Recorded :
      (e : Event J) (j : Journal J) {j' : Journal J} {new : Bool}
      → step sdk now e j ≡ ok (j', new)
      → Recorded j' e
  unfolding step
  step-Recorded e j {j'} {new} s = elim (Bool-cases (ltb e.seq j.attempt.next_seq)) [
    | inl old ↦
        let same : j' ≡ j = ground arith in
        rw same (record { past = ground arith; there = ground arith })
    | inr more ↦
        let a : Admitted sdk now e j j' new = admitted sdk now e j (rw more at s) in
        rw (a.appended) (append_row-Recorded e j a.observed a.in_order)
  ]

  step-keeps-Recorded :
      (d e : Event J) (j : Journal J) {j' : Journal J} {new : Bool}
      → step sdk now e j ≡ ok (j', new)
      → Recorded j d
      → Recorded j' d
  unfolding step
  step-keeps-Recorded d e j {j'} {new} s r = elim (Bool-cases (ltb e.seq j.attempt.next_seq)) [
    | inl old ↦ let same : j' ≡ j = ground arith in rw same r
    | inr more ↦
        let a : Admitted sdk now e j j' new = admitted sdk now e j (rw more at s) in
        rw (a.appended) (append_row-keeps-Recorded d e j a.observed a.in_order r)
  ]

  loop-keeps-Recorded :
      (d : Event J) (es : List (Event J)) (j : Journal J) (m n : ℕ) {j' : Journal J} {m' n' : ℕ}
      → ingest_loop sdk now es j m n ≡ ok (j', m', n')
      → Recorded j d
      → Recorded j' d
  unfolding ingest_loop
  loop-keeps-Recorded d [] j m n {j'} h r = let same : j' ≡ j = ground arith in rw same r
  loop-keeps-Recorded d (e ∷ es) j m n h r =
      let ((j1, new), s, l) = >>=-eq-ok (step sdk now e j) _ h in
      loop-keeps-Recorded d es j1 _ _ l (step-keeps-Recorded d e j s r)

  -- Every record of a batch that was taken stands in the journal.
  pub loop-Recorded :
      (es : List (Event J)) (j : Journal J) (m n : ℕ) {j' : Journal J} {m' n' : ℕ}
      → ingest_loop sdk now es j m n ≡ ok (j', m', n')
      → All (Recorded j') es
  unfolding ingest_loop
  loop-Recorded [] j m n h = tt
  loop-Recorded (e ∷ es) j m n h =
      let ((j1, new), s, l) = >>=-eq-ok (step sdk now e j) _ h in
      (loop-keeps-Recorded e es j1 _ _ l (step-Recorded e j s), loop-Recorded es j1 _ _ l)

  step_again : (e : Event J) (j : Journal J) → Recorded j e → step sdk now e j ≡ ok (j, false)
  unfolding step
  step_again e j r = let p = r.past in let q = r.there in ground arith

  -- Records that stand in the journal are all counted as repetitions.
  pub loop_again :
      (es : List (Event J)) (j : Journal J) (m n : ℕ)
      → All (Recorded j) es
      → ingest_loop sdk now es j m n ≡ ok (j, m, n + length es)
  unfolding ingest_loop
  loop_again [] j m n all = ground arith
  loop_again (e ∷ es) j m n all =
      rw (step_again e j all.0) (rw (loop_again es j m (n + 1) all.1) (ground arith))
