-- ===== src/Attempts/Ingest/Contiguous.antt =====
-- The numbers and the lifecycle in the journal of an attempt: its well-formedness, and what a record changes.
use eval_hive.Base.{
  ℕ, suc, ◌≡◌, refl, ◌∙◌, Bool, true, false, List, [], ◌∷◌, ◌==◌, All, arith, Eq, nat_eq, text_eq,
  ltb, Bool-cases, inl, inr, bool_eq,
}
use eval_hive.Attempts.Model.{
  is_terminal, status_of, Outcome, EventName, run_started, run_finished, other, is_started,
  is_finished, Observed, at, Event, Row, Attempt,
}
use eval_hive.Attempts.Store.{ok, >>=-eq-ok, Sdk}
use eval_hive.Attempts.Ingest.{
  Journal, has_key, observe, advance_status, append_row, admit, step, ingest_loop,
}

module _ {J : Type 0} where
  -- The sequence numbers are n - 1, ..., 0, the newest row first.
  abbrev pub IsContiguous : ℕ → List (Row J) → Type 0
  IsContiguous n [] = n ≡ 0
  IsContiguous n (r ∷ rs) = (n ≡ suc r.seq) × IsContiguous r.seq rs

  -- No two rows share a key.
  abbrev pub HasUniqueKeys : List (Row J) → Type 0
  HasUniqueKeys [] = Unit
  HasUniqueKeys (r ∷ rs) = (has_key r.event_key rs ≡ false) × HasUniqueKeys rs

  -- run.started is the first record and no other.
  abbrev pub StartsOnce : List (Row J) → Type 0
  StartsOnce rows = All (λ r. (r.seq == 0) ≡ is_started r.event) rows

  -- No record is run.finished.
  abbrev pub IsOpen : List (Row J) → Type 0
  IsOpen rows = All (λ r. is_finished r.event ≡ false) rows

  -- No record but the newest is run.finished.
  abbrev pub FinishesLast : List (Row J) → Type 0
  FinishesLast [] = Unit
  FinishesLast (r ∷ rs) = IsOpen rs

  -- The columns that no change of an attempt touches.
  abbrev pub SameKeys : Attempt J → Attempt J → Type 0
  SameKeys a b =
      (a.id ≡ b.id)
      × (a.task_id ≡ b.task_id)
      × (a.number ≡ b.number)
      × (a.workspace_id ≡ b.workspace_id)

  pub record IsJournal (a : Attempt J) (rows : List (Row J)) : Type 0 where
    pub counted : IsContiguous a.next_seq rows
    pub unique : HasUniqueKeys rows
    pub starts : StartsOnce rows
    pub finishes : FinishesLast rows
    pub running : is_terminal a.status ≡ false → IsOpen rows

module _ {J : Type 0} ⦃eq : Eq J⦄ (sdk : Sdk J) (now : Event J → ℕ) where
  -- What `admit` has tested when it appends.
  pub record Admitted (e : Event J) (j j' : Journal J) (new : Bool) : Type 0 where
    pub is_new : new ≡ true
    pub live : is_terminal j.attempt.status ≡ false
    pub in_order : e.seq ≡ j.attempt.next_seq
    pub fresh : has_key (sdk.sha256 e.event_id) j.rows ≡ false
    pub lifecycle : (e.seq == 0) ≡ is_started e.name
    pub observed : ℕ
    pub appended : j' ≡ append_row sdk now observed e j

  -- The time that an admitted record is filed under.
  time_of : ℕ → Observed → ℕ
  time_of t (at observed) = observed
  time_of t _ = t

  pub admitted :
      (e : Event J) (j : Journal J) {j' : Journal J} {new : Bool}
      → admit sdk now e j ≡ ok (j', new)
      → Admitted e j j' new
  unfolding admit observe time_of
  admitted e j {j'} {new} h = record {
    is_new = ground arith;
    live = ground arith;
    in_order = ground arith;
    fresh = ground arith;
    lifecycle = ground arith;
    observed = time_of (now e) e.observed_at;
    appended = ground arith;
  }

  finished_is_terminal : (o : Outcome) → is_terminal (status_of o) ≡ true
  unfolding is_terminal status_of
  finished_is_terminal Outcome.success = refl
  finished_is_terminal _ = refl

  -- A record that is not the end of the run leaves it open.
  open_unless_finished :
      (n : EventName) (t : ℕ) (e : Event J) (a : Attempt J)
      → is_terminal (advance_status sdk now n t e a).status ≡ false
      → is_finished n ≡ false
  unfolding advance_status is_finished
  open_unless_finished run_started t e a h = refl
  open_unless_finished (run_finished o) t e a h = cc (finished_is_terminal o)
  open_unless_finished (other x) t e a h = refl

  pub next_seq-advance_status :
      (n : EventName) (t : ℕ) (e : Event J) (a : Attempt J)
      → (advance_status sdk now n t e a).next_seq ≡ a.next_seq
  unfolding advance_status
  next_seq-advance_status run_started t e a = refl
  next_seq-advance_status _ t e a = refl

  append_row-IsJournal :
      (e : Event J) (j : Journal J) (t : ℕ)
      → is_terminal j.attempt.status ≡ false
      → e.seq ≡ j.attempt.next_seq
      → has_key (sdk.sha256 e.event_id) j.rows ≡ false
      → (e.seq == 0) ≡ is_started e.name
      → IsJournal j.attempt j.rows
      → IsJournal (append_row sdk now t e j).attempt (append_row sdk now t e j).rows
  unfolding append_row
  append_row-IsJournal e j t live in_order fresh lifecycle h = record {
    counted = (omega (arith, next_seq-advance_status e.name t e j.attempt), rw in_order h.counted);
    unique = (fresh, h.unique);
    starts = (lifecycle, h.starts);
    finishes = h.running live;
    running = λ l. (open_unless_finished e.name t e j.attempt l, h.running live);
  }

  step-IsJournal :
      (e : Event J) (j : Journal J) {j' : Journal J} {new : Bool}
      → step sdk now e j ≡ ok (j', new)
      → IsJournal j.attempt j.rows
      → IsJournal j'.attempt j'.rows
  unfolding step
  step-IsJournal e j {j'} {new} s h = elim (Bool-cases (ltb e.seq j.attempt.next_seq)) [
    | inl old ↦ let same : j' ≡ j = ground arith in rw same h
    | inr more ↦
        let a : Admitted e j j' new = admitted e j (rw more at s) in
        rw (a.appended)
          (append_row-IsJournal e j a.observed a.live a.in_order a.fresh a.lifecycle h)
  ]

  -- A batch that is taken keeps the journal well formed.
  pub ingest_loop-IsJournal :
      (es : List (Event J)) (j : Journal J) (m n : ℕ) {j' : Journal J} {m' n' : ℕ}
      → ingest_loop sdk now es j m n ≡ ok (j', m', n')
      → IsJournal j.attempt j.rows
      → IsJournal j'.attempt j'.rows
  unfolding ingest_loop
  ingest_loop-IsJournal [] j m n {j'} h w = let same : j' ≡ j = ground arith in rw same w
  ingest_loop-IsJournal (e ∷ es) j m n h w =
      let ((j1, new), s, l) = >>=-eq-ok (step sdk now e j) _ h in
      ingest_loop-IsJournal es j1 _ _ l (step-IsJournal e j s w)

  SameKeys-advance_status :
      (n : EventName) (t : ℕ) (e : Event J) (a : Attempt J)
      → SameKeys a (advance_status sdk now n t e a)
  unfolding advance_status
  SameKeys-advance_status run_started t e a = (refl, refl, refl, refl)
  SameKeys-advance_status _ t e a = (refl, refl, refl, refl)

  step-SameKeys :
      (e : Event J) (j : Journal J) {j' : Journal J} {new : Bool}
      → step sdk now e j ≡ ok (j', new)
      → SameKeys j.attempt j'.attempt
  unfolding step
  step-SameKeys e j {j'} {new} s = elim (Bool-cases (ltb e.seq j.attempt.next_seq)) [
    | inl old ↦ let same : j' ≡ j = ground arith in rw same (refl, refl, refl, refl)
    | inr more ↦
        let a : Admitted e j j' new = admitted e j (rw more at s) in
        let k = SameKeys-advance_status e.name a.observed e j.attempt in
        rw (a.appended) (unfold append_row in k)
  ]

  -- A batch leaves the keys of the attempt alone.
  pub ingest_loop-SameKeys :
      (es : List (Event J)) (j : Journal J) (m n : ℕ) {j' : Journal J} {m' n' : ℕ}
      → ingest_loop sdk now es j m n ≡ ok (j', m', n')
      → SameKeys j.attempt j'.attempt
  unfolding ingest_loop
  ingest_loop-SameKeys [] j m n {j'} h =
      let same : j' ≡ j = ground arith in rw same (refl, refl, refl, refl)
  ingest_loop-SameKeys (e ∷ es) j m n h =
      let ((j1, new), s, l) = >>=-eq-ok (step sdk now e j) _ h in
      let p = step-SameKeys e j s in
      let q = ingest_loop-SameKeys es j1 _ _ l in (p.0 ∙ q.0, p.1 ∙ q.1, p.2 ∙ q.2, p.3 ∙ q.3)
