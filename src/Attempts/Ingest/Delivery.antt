-- ===== src/Attempts/Ingest/Delivery.antt =====
-- Lemmas on the reply of `ingest_events`, on a second delivery, and on an attempt that has ended.
use eval_hive.Base.{
  ℕ, ◌+◌, ◌-◌, ◌<◌, ◌≤◌, ◌≡◌, refl, sym, ap, ◌∙◌, Bool, true, false, List, [], ◌∷◌, All, arith, Eq,
  nat_eq, length, if◌then◌else◌, Bool-cases, inl, inr, ==-refl, ltb, fun_ext,
}
use eval_hive.Attempts.Model.{is_terminal, Event, Attempt, Row}
use eval_hive.Attempts.Store.{ok, >>=-eq-ok, Sdk, Db, update, save_attempt}
use eval_hive.Attempts.Ingest.{
  find_seq, same_record, append_row, Journal, Reply, locked_attempt, admit, step, ingest_loop,
  check_batch, journal_of, flush, ingest_events,
}
use eval_hive.Attempts.Ingest.Contiguous.{
  IsJournal, SameKeys, Admitted, admitted, ingest_loop-IsJournal, ingest_loop-SameKeys,
}
use eval_hive.Attempts.Ingest.Replay.{Recorded, next_seq-append_row, loop-Recorded, loop_again}
use eval_hive.Attempts.Sound.{IsSound}
use eval_hive.Attempts.Sound.Change.{
  locked, All-find_attempt, change-AreSound, find_attempt-save_attempt,
}

module _ {J : Type 0} ⦃eq : Eq J⦄ (sdk : Sdk J) (now : Event J → ℕ) where
  -- What `ingest_events` has done when it returns.
  pub record Ingested (k : ℕ) (es : List (Event J)) (db : Db J) (r : Reply) (db' : Db J)
      : Type 0 where
    pub checked : check_batch sdk now k es ≡ ok tt
    pub before : Attempt J
    pub is_locked : locked_attempt k db ≡ ok before
    pub after : Journal J
    pub looped :
        ingest_loop sdk now es (journal_of before db) 0 0 ≡ ok (after, r.accepted, r.duplicates)
    pub next : r.next_seq ≡ after.attempt.next_seq
    pub acked : r.acked_through ≡ after.attempt.next_seq - 1
    pub flushed : db' ≡ flush after db

  pub ingested :
      (k : ℕ) (es : List (Event J)) (db : Db J) {r : Reply} {db' : Db J}
      → ingest_events sdk now k es db ≡ ok (r, db')
      → Ingested k es db r db'
  unfolding ingest_events
  ingested k es db {r} {db'} h =
      let (u, c, h1) = >>=-eq-ok (check_batch sdk now k es) _ h in
      let (a, l, h2) = >>=-eq-ok (locked_attempt k db) _ h1 in
      let ((j, m, n), p, h3) = >>=-eq-ok (ingest_loop sdk now es (journal_of a db) 0 0) _ h2 in
      record {
        checked = c;
        before = a;
        is_locked = l;
        after = j;
        looped = p ∙ ground arith;
        next = ground arith;
        acked = ground arith;
        flushed = ground arith;
      }

  step_counts :
      (e : Event J) (j : Journal J) {j' : Journal J} {new : Bool}
      → step sdk now e j ≡ ok (j', new)
      → j'.attempt.next_seq ≡ j.attempt.next_seq + (if new then 1 else 0)
  unfolding step
  step_counts e j {j'} {new} s = elim (Bool-cases (ltb e.seq j.attempt.next_seq)) [
    | inl old ↦ ground arith
    | inr more ↦
        let a : Admitted sdk now e j j' new = admitted sdk now e j (rw more at s) in
        ground (
          arith,
          next_seq-append_row sdk now e j a.observed,
          ap (λ x. x.attempt.next_seq) a.appended,
          a.is_new,
        )
  ]

  -- The counters of the loop, against the journal.
  loop_counts :
      (es : List (Event J)) (j : Journal J) (m n : ℕ) {j' : Journal J} {m' n' : ℕ}
      → ingest_loop sdk now es j m n ≡ ok (j', m', n')
      → (m' + n' ≡ m + n + length es) × (j'.attempt.next_seq + m ≡ j.attempt.next_seq + m')
  unfolding ingest_loop
  loop_counts [] j m n h = ground arith
  loop_counts (e ∷ es) j m n {j'} {m'} {n'} h =
      let ((j1, new), s, l) = >>=-eq-ok (step sdk now e j) _ h in
      let c = step_counts e j s in let r = loop_counts es j1 _ _ l in ground arith

  -- The journal that an ended attempt has is final: every record of the batch repeats one.
  pub loop_ended :
      (es : List (Event J)) (j : Journal J) (m n : ℕ) {j' : Journal J} {m' n' : ℕ}
      → is_terminal j.attempt.status ≡ true
      → ingest_loop sdk now es j m n ≡ ok (j', m', n')
      → (j' ≡ j) × (m' ≡ m)
  unfolding ingest_loop
  loop_ended [] j m n t h = ground arith
  loop_ended (e ∷ es) j m n {j'} t h =
      let ((j1, new), s, l) = >>=-eq-ok (step sdk now e j) _ h in
      let d : (j1 ≡ j) × (new ≡ false) = unfold step admit in ground arith in
      let r = loop_ended es j1 _ _ (rw (d.0) t) l in
      (r.0 ∙ d.0, r.1 ∙ ap (λ b. if b then m + 1 else m) d.1)

  reaches :
      (k : ℕ) (es : List (Event J)) (j : Journal J)
      → check_batch sdk now k es ≡ ok tt
      → All (Recorded sdk now j) es
      → 0 < j.attempt.next_seq
  unfolding check_batch
  reaches k [] j c w = cc
  reaches k (e ∷ es) j c w = let p = (w.0).past in omega arith

  acknowledged :
      (es : List (Event J)) (j : Journal J) (n : ℕ)
      → n ≡ j.attempt.next_seq - 1
      → All (Recorded sdk now j) es
      → All (λ e. e.seq ≤ n) es
  acknowledged [] j n h w = tt
  acknowledged (e ∷ es) j n h w = (let p = (w.0).past in omega arith, acknowledged es j n h w.1)

  locked-flush :
      (k : ℕ) (a : Attempt J) (j : Journal J) (db : Db J)
      → locked_attempt k db ≡ ok a
      → SameKeys a j.attempt
      → locked_attempt k (flush j db) ≡ ok j.attempt
  unfolding locked_attempt flush
  locked-flush k a j db l same =
      ground (arith, find_attempt-save_attempt k db.attempts j.attempt, same.0, same.1, same.3)

  journal_of-flush : (j : Journal J) (db : Db J) → journal_of j.attempt (flush j db) ≡ j
  unfolding journal_of flush
  journal_of-flush j db = rw (==-refl j.attempt.id)

  rows-flush : (k : ℕ) (j : Journal J) (db : Db J) → j.attempt.id ≡ k → (flush j db).rows k ≡ j.rows
  unfolding flush
  rows-flush k j db e = ground arith

  -- The rows that a step adds.
  step_rows :
      (e : Event J) (j : Journal J) {j' : Journal J} {new : Bool}
      → step sdk now e j ≡ ok (j', new)
      → length j'.rows ≡ length j.rows + (if new then 1 else 0)
  unfolding step append_row
  step_rows e j {j'} {new} s = elim (Bool-cases (ltb e.seq j.attempt.next_seq)) [
    | inl old ↦ ground arith
    | inr more ↦
        let a : Admitted sdk now e j j' new = admitted sdk now e j (rw more at s) in
        ground (arith, ap (λ x. length x.rows) a.appended, a.is_new)
  ]

  loop_rows :
      (es : List (Event J)) (j : Journal J) (m n : ℕ) {j' : Journal J} {m' n' : ℕ}
      → ingest_loop sdk now es j m n ≡ ok (j', m', n')
      → length j'.rows + m ≡ length j.rows + m'
  unfolding ingest_loop
  loop_rows [] j m n h = ground arith
  loop_rows (e ∷ es) j m n {j'} {m'} {n'} h =
      let ((j1, new), s, l) = >>=-eq-ok (step sdk now e j) _ h in
      let c = step_rows e j s in let r = loop_rows es j1 _ _ l in ground arith

  -- The record stands in the rows under its number.
  abbrev pub IsStored : List (Row J) → Event J → Type 0
  IsStored rows e = same_record sdk now e (find_seq e.seq rows) ≡ true

  All-IsStored :
      (es : List (Event J)) (j : Journal J) → All (Recorded sdk now j) es → All (IsStored j.rows) es
  All-IsStored [] j w = tt
  All-IsStored (e ∷ es) j w = ((w.0).there, All-IsStored es j w.1)

  -- The reply to a batch that is taken for the attempt `a`: the new and the repeated records are as
  -- many as the batch has. The journal has as many rows more as there are new records, and the number
  -- of the next record has grown by as many; the reply names that number as the tables have it then,
  -- and acknowledges all numbers before it. Every record of the batch has such a number, and stands in
  -- the journal under it.
  pub ingest_events-reply :
      (k : ℕ) (es : List (Event J)) (db : Db J) (a : Attempt J) {r : Reply} {db' : Db J}
      → locked_attempt k db ≡ ok a
      → ingest_events sdk now k es db ≡ ok (r, db')
      → (b : Attempt J) × (locked_attempt k db' ≡ ok b)
        × (r.next_seq ≡ b.next_seq)
        × (b.next_seq ≡ a.next_seq + r.accepted)
        × (r.accepted + r.duplicates ≡ length es)
        × (r.acked_through + 1 ≡ r.next_seq)
        × (length (db'.rows k) ≡ length (db.rows k) + r.accepted)
        × All (λ e. e.seq ≤ r.acked_through) es
        × All (IsStored (db'.rows k)) es
  unfolding journal_of
  ingest_events-reply k es db a {r} {db'} l h =
      let i = ingested k es db h in
      let one : i.before ≡ a = ground (arith, i.is_locked, l) in
      let j0 = journal_of i.before db in
      let c = loop_counts es j0 0 0 i.looped in
      let n = loop_rows es j0 0 0 i.looped in
      let w = loop-Recorded sdk now es j0 0 0 i.looped in
      let p = reaches k es i.after i.checked w in
      let same = ingest_loop-SameKeys sdk now es j0 0 0 i.looped in
      let named = (locked k db i.is_locked).named in
      let same_id : i.before.id ≡ i.after.attempt.id = same.0 in
      let stored : db'.rows k ≡ i.after.rows =
        ap (λ d. d.rows k) i.flushed ∙ rows-flush k i.after db (sym same_id ∙ named) in
      let next : j0.attempt.next_seq ≡ i.before.next_seq = refl in
      let old : j0.rows ≡ db.rows k = ap db.rows named in
      (
        i.after.attempt,
        ap (locked_attempt k) i.flushed ∙ locked-flush k i.before i.after db i.is_locked same,
        i.next,
        omega (arith, c.1, ap (λ x. x.next_seq) one, next),
        omega (arith, c.0),
        omega (arith, i.next, i.acked),
        omega (arith, n, ap (λ x. length x) stored, ap (λ x. length x) old),
        acknowledged es i.after r.acked_through i.acked w,
        rw stored (All-IsStored es i.after w),
      )

  -- A batch that is taken keeps the invariant of the tables.
  pub ingest_events-IsSound :
      (k : ℕ) (es : List (Event J)) (db : Db J) {r : Reply} {db' : Db J}
      → ingest_events sdk now k es db ≡ ok (r, db')
      → IsSound db
      → IsSound db'
  unfolding flush journal_of
  ingest_events-IsSound k es db {r} {db'} h s =
      let i = ingested k es db h in
      let l = locked k db i.is_locked in
      let j0 = journal_of i.before db in
      let sound =
        All-find_attempt (λ a. IsJournal a (db.rows a.id)) k db.attempts l.found s.journals in
      let same : SameKeys i.before i.after.attempt =
        ingest_loop-SameKeys sdk now es j0 0 0 i.looped in
      let journal = ingest_loop-IsJournal sdk now es j0 0 0 i.looped sound in
      let here : IsJournal i.after.attempt
          (update db.rows i.after.attempt.id i.after.rows i.after.attempt.id) =
        rw (==-refl i.after.attempt.id) journal in
      rw (i.flushed)
        (change-AreSound k db i.before i.after.attempt _ l same here (λ n m. ground arith) s)

  save_attempt-save_attempt :
      (a : Attempt J) (l : List (Attempt J)) → save_attempt a (save_attempt a l) ≡ save_attempt a l
  unfolding save_attempt
  save_attempt-save_attempt a [] = refl
  save_attempt-save_attempt a (b ∷ l) = ground (arith, save_attempt-save_attempt a l)

  update-update {ℓ} :
      {A : Type ℓ} (f : ℕ → A) (k : ℕ) (v : A) → update (update f k v) k v ≡ update f k v
  update-update f k v = fun_ext λ n. ground arith

  flush-flush : (j : Journal J) (db : Db J) → flush j (flush j db) ≡ flush j db
  unfolding flush
  flush-flush j db = λ i. record db {
    attempts = save_attempt-save_attempt j.attempt db.attempts i;
    rows = update-update db.rows j.attempt.id j.rows i;
    commands = j.commands;
  }

  -- The second delivery of a batch that was taken is taken too. It counts every record as a
  -- repetition, acknowledges what the first one did, and leaves all tables as they are.
  pub ingest_events_again :
      (k : ℕ) (es : List (Event J)) (db : Db J) {r : Reply} {db' : Db J}
      → ingest_events sdk now k es db ≡ ok (r, db')
      → ingest_events sdk now k es db' ≡ ok (record r { accepted = 0; duplicates = length es }, db')
  unfolding ingest_events
  ingest_events_again k es db {r} {db'} h =
      let i = ingested k es db h in
      let w = loop-Recorded sdk now es (journal_of i.before db) 0 0 i.looped in
      let same = ingest_loop-SameKeys sdk now es (journal_of i.before db) 0 0 i.looped in
      rw (i.flushed) (
        rw
          (
            i.checked,
            locked-flush k i.before i.after db i.is_locked same,
            journal_of-flush i.after db,
          )
          (rw (loop_again sdk now es i.after 0 0 w)
            (rw (flush-flush i.after db) (ground (arith, i.next, i.acked)))))

  -- A batch for an attempt that has ended, if it is taken, adds nothing: no record counts as new,
  -- the number of the next record stays, and so does every row of the journal.
  pub ingest_events_ended :
      (k : ℕ) (es : List (Event J)) (db : Db J) (a : Attempt J) {r : Reply} {db' : Db J}
      → locked_attempt k db ≡ ok a
      → is_terminal a.status ≡ true
      → ingest_events sdk now k es db ≡ ok (r, db')
      → (r.accepted ≡ 0) × (r.next_seq ≡ a.next_seq) × ((n : ℕ) → db'.rows n ≡ db.rows n)
  unfolding flush journal_of
  ingest_events_ended k es db a {r} {db'} l t h =
      let i = ingested k es db h in
      let same : i.before ≡ a = ground (arith, i.is_locked, l) in
      let final = loop_ended es (journal_of i.before db) 0 0 (rw same t) i.looped in
      (
        final.1,
        i.next ∙ ap (λ j. j.attempt.next_seq) final.0 ∙ ap (λ b. b.next_seq) same,
        λ n. rw (i.flushed) (rw (final.0) (ground arith)),
      )
