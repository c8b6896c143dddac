-- ===== src/Attempts/Sound/Operations.antt =====
-- The operations on attempts other than `create_attempt` and `ingest_events`, and the invariant of the tables.
use eval_hive.Base.{
  ℕ, ◌≡◌, refl, Bool, true, false, some, arith, Eq, nat_eq, text_eq, Bool-cases, Option-cases, inl,
  inr, Text,
}
use eval_hive.Attempts.Model.{Status, is_terminal, Receipt, Attempt}
use eval_hive.Attempts.Store.{ok, >>=-eq-ok, Sdk, Db, find_command, save_attempt}
use eval_hive.Attempts.Ingest.{locked_attempt}
use eval_hive.Attempts.Create.{lose, mark_attempt_lost}
use eval_hive.Attempts.Control.{
  Queued, check_command, stop, queue_new, queue_command, prepare_new, acknowledge_command,
  may_prepare, prepared_spec, prepare_configuration,
}
use eval_hive.Attempts.Ingest.Contiguous.{IsJournal, SameKeys}
use eval_hive.Attempts.Sound.{AreSound, IsSound}
use eval_hive.Attempts.Sound.Change.{locked, All-find_attempt, change-AreSound}

may_prepare-live : (s : Status) → may_prepare s ≡ true → is_terminal s ≡ false
unfolding may_prepare is_terminal
may_prepare-live s h = ground arith

module _ {J : Type 0} where
  -- What a call may do beside a batch and a creation: leave the attempts and the journal alone, or
  -- change an attempt that has not ended.
  pub data Touches (db db' : Db J) : Type 0 where
    same : db'.tasks ≡ db.tasks → db'.attempts ≡ db.attempts → db'.rows ≡ db.rows → Touches db db'
    saved :
        (k : ℕ) (a a' : Attempt J)
        → locked_attempt k db ≡ ok a
        → is_terminal a.status ≡ false
        → SameKeys a a'
        → a.next_seq ≡ a'.next_seq
        → db'.tasks ≡ db.tasks
        → db'.attempts ≡ save_attempt a' db.attempts
        → db'.rows ≡ db.rows
        → Touches db db'

  save-IsSound :
      (k : ℕ) (db : Db J) (a a' : Attempt J)
      → locked_attempt k db ≡ ok a
      → is_terminal a.status ≡ false
      → SameKeys a a'
      → a.next_seq ≡ a'.next_seq
      → IsSound db
      → AreSound db.tasks (save_attempt a' db.attempts) db.rows
  save-IsSound k db a a' l live keys next s =
      let x = locked k db l in
      let j = All-find_attempt (λ b. IsJournal b (db.rows b.id)) k db.attempts x.found s.journals in
      let j' : IsJournal a' (db.rows a'.id) = rw (← keys.0) (record {
        counted = rw (← next) j.counted;
        unique = j.unique;
        starts = j.starts;
        finishes = j.finishes;
        running = λ h. j.running live;
      }) in
      change-AreSound k db a a' db.rows x keys j' (λ n m. refl) s

  pub Touches-IsSound : {db db' : Db J} → Touches db db' → IsSound db → IsSound db'
  Touches-IsSound (same t a r) s = rw (t, a, r) s
  Touches-IsSound {db} (saved k b b' l live keys next t a r) s =
      rw (t, a, r) (save-IsSound k db b b' l live keys next s)

  pub mark_attempt_lost-Touches :
      (now k : ℕ) (why : Text) (db : Db J) {db' : Db J}
      → mark_attempt_lost now k why db ≡ ok db'
      → Touches db db'
  unfolding mark_attempt_lost lose
  mark_attempt_lost-Touches now k why db {db'} h =
      let (a, l, e) = >>=-eq-ok (locked_attempt k db) _ h in
      elim (Bool-cases (is_terminal a.status)) [
        | inl over ↦ same (ground arith) (ground arith) (ground arith)
        | inr live ↦
            saved k a (lose now why a) l live (refl, refl, refl, refl) refl (ground (arith, live))
              (ground (arith, live)) (ground (arith, live))
      ]

  stop-SameKeys : (name : Text) (a : Attempt J) → SameKeys a (stop name a)
  unfolding stop
  stop-SameKeys name a = ground arith

  next_seq-stop : (name : Text) (a : Attempt J) → a.next_seq ≡ (stop name a).next_seq
  unfolding stop
  next_seq-stop name a = ground arith

module _ {J : Type 0} ⦃eq : Eq J⦄ (sdk : Sdk J) where
  check_command-live :
      (name : Text) (payload : J) (a : Attempt J)
      → check_command sdk name payload a ≡ ok tt
      → is_terminal a.status ≡ false
  unfolding check_command
  check_command-live name payload a h = ground arith

  queue_new-Touches :
      (c k : ℕ) (name : Text) (payload : J) (a : Attempt J) (db : Db J) {q : Queued} {db' : Db J}
      → locked_attempt k db ≡ ok a
      → queue_new sdk c k name payload a db ≡ ok (q, db')
      → Touches db db'
  unfolding queue_new
  queue_new-Touches c k name payload a db {q} {db'} l h =
      let (u, live, e) = >>=-eq-ok (check_command sdk name payload a) _ h in
      saved k a (stop name a) l (check_command-live name payload a live) (stop-SameKeys name a)
        (next_seq-stop name a) (ground arith) (ground arith) (ground arith)

  pub queue_command-Touches :
      (c k : ℕ) (name : Text) (payload : J) (db : Db J) {q : Queued} {db' : Db J}
      → queue_command sdk c k name payload db ≡ ok (q, db')
      → Touches db db'
  unfolding queue_command
  queue_command-Touches c k name payload db {q} {db'} h =
      let (a, l, e) = >>=-eq-ok (locked_attempt k db) _ h in
      elim (Option-cases (find_command c db.commands)) [
        | inl new ↦ queue_new-Touches c k name payload a db l (rw new at e)
        | inr (d, old) ↦ same (ground (arith, old)) (ground (arith, old)) (ground (arith, old))
      ]

  prepare_new-Touches :
      (now k : ℕ) (config : J) (a : Attempt J) (db : Db J) {b : Bool} {db' : Db J}
      → locked_attempt k db ≡ ok a
      → prepare_new sdk now config a db ≡ ok (b, db')
      → Touches db db'
  unfolding prepare_new
  prepare_new-Touches now k config a db {b} {db'} l h =
      let may : may_prepare a.status ≡ true = ground arith in
      saved k a (record a { run_spec = prepared_spec config a.run_spec; prepared_at = some now }) l
        (may_prepare-live a.status may) (refl, refl, refl, refl) refl (ground arith) (ground arith)
        (ground arith)

  pub prepare_configuration-Touches :
      (now k : ℕ) (config : J) (db : Db J) {b : Bool} {db' : Db J}
      → prepare_configuration sdk now k config db ≡ ok (b, db')
      → Touches db db'
  unfolding prepare_configuration
  prepare_configuration-Touches now k config db {b} {db'} h =
      let (a, l, e) = >>=-eq-ok (locked_attempt k db) _ h in
      elim (Option-cases a.prepared_at) [
        | inl new ↦ prepare_new-Touches now k config a db l (rw new at e)
        | inr (t, old) ↦ same (ground (arith, old)) (ground (arith, old)) (ground (arith, old))
      ]

  pub acknowledge_command-Touches :
      (now k c : ℕ) (r : Receipt J) (db : Db J) {b : Bool} {db' : Db J}
      → acknowledge_command sdk now k c r db ≡ ok (b, db')
      → Touches db db'
  unfolding acknowledge_command
  acknowledge_command-Touches now k c r db {b} {db'} h =
      same (ground arith) (ground arith) (ground arith)
