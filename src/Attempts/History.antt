-- ===== src/Attempts/History.antt =====
-- Sequences of calls of the six operations of backend/app/harnesses/attempts.py. A call that raises leaves
-- the tables as they are. Other code writes to attempts too, such as `_mark` of
-- backend/app/harnesses/workflow.py: its calls are no part of these sequences.
use eval_hive.Base.{
  ℕ, ◌≡◌, refl, ap, ◌∙◌, true, false, Option, some, List, [], ◌∷◌, arith, ◌==◌, Eq, nat_eq, text_eq,
  Text, Bool-cases, inl, inr,
}
use eval_hive.Attempts.Model.{Event, Row, Receipt, Manifest, RunSpec, Attempt, is_terminal}
use eval_hive.Attempts.Store.{Result, ok, err, Sdk, Db, find_attempt, save_attempt}
use eval_hive.Attempts.Ingest.{locked_attempt, Reply, flush, journal_of, ingest_events}
use eval_hive.Attempts.Ingest.Delivery.{ingested, ingest_events-IsSound, loop_ended}
use eval_hive.Attempts.Ingest.Contiguous.{SameKeys, ingest_loop-SameKeys}
use eval_hive.Attempts.Create.{new_attempt, inserted, create_attempt, mark_attempt_lost}
use eval_hive.Attempts.Control.{queue_command, acknowledge_command, prepare_configuration}
use eval_hive.Attempts.Sound.{IsSound}
use eval_hive.Attempts.Sound.Change.{locked, find_attempt-save_attempt}
use eval_hive.Attempts.Sound.Creation.{create-eq-ok, create_attempt-IsSound}
use eval_hive.Attempts.Sound.Operations.{
  Touches, same, saved, Touches-IsSound, mark_attempt_lost-Touches, queue_command-Touches,
  prepare_configuration-Touches, acknowledge_command-Touches,
}

-- The calls, with their arguments and the time where the code reads it.
pub data Operation (J : Type 0) : Type 0 where
  create : (workspace_id task_id : ℕ) → Manifest J → RunSpec J → Option ℕ → Operation J
  ingest : (attempt_id : ℕ) → List (Event J) → Operation J
  lose_attempt : (now attempt_id : ℕ) → Text → Operation J
  queue : (command_id attempt_id : ℕ) → Text → J → Operation J
  respond : (now attempt_id command_id : ℕ) → Receipt J → Operation J
  prepare : (now attempt_id : ℕ) → J → Operation J

-- The tables after a call.
abbrev pub settle {ℓ} : {A : Type ℓ} {J : Type 0} → Db J → Result (A × Db J) → Db J
settle db (ok (a, db')) = db'
settle db (err e) = db

abbrev settle_unit : {J : Type 0} → Db J → Result (Db J) → Db J
settle_unit db (ok db') = db'
settle_unit db (err e) = db

module _ {J : Type 0} where
  -- What a call does to the tables, if it does not raise.
  settle-keeps :
      {A : Type 0} (P : Db J → Type 0) (db : Db J) (r : Result (A × Db J))
      → P db
      → ((a : A) (db' : Db J) → r ≡ ok (a, db') → P db')
      → P (settle db r)
  settle-keeps P db (ok (a, db')) p f = f a db' refl
  settle-keeps P db (err e) p f = p

  settle_unit-keeps :
      (P : Db J → Type 0) (db : Db J) (r : Result (Db J))
      → P db
      → ((db' : Db J) → r ≡ ok db' → P db')
      → P (settle_unit db r)
  settle_unit-keeps P db (ok db') p f = f db' refl
  settle_unit-keeps P db (err e) p f = p

module _ {J : Type 0} ⦃eq : Eq J⦄ (sdk : Sdk J) (now : Event J → ℕ) where
  pub run : Operation J → Db J → Db J
  run (create w t m r p) db = settle db (create_attempt sdk w t m r p db)
  run (ingest k es) db = settle db (ingest_events sdk now k es db)
  run (lose_attempt time k why) db = settle_unit db (mark_attempt_lost time k why db)
  run (queue c k name payload) db = settle db (queue_command sdk c k name payload db)
  run (respond time k c r) db = settle db (acknowledge_command sdk time k c r db)
  run (prepare time k config) db = settle db (prepare_configuration sdk time k config db)

  pub run_all : List (Operation J) → Db J → Db J
  unfolding run
  run_all [] db = db
  run_all (o ∷ os) db = run_all os (run o db)

  run-IsSound : (o : Operation J) (db : Db J) → IsSound db → IsSound (run o db)
  unfolding run
  run-IsSound (create w t m r p) db s =
      settle-keeps IsSound db _ s (λ a db' h. create_attempt-IsSound sdk w t m r p db h s)
  run-IsSound (ingest k es) db s =
      settle-keeps IsSound db _ s (λ a db' h. ingest_events-IsSound sdk now k es db h s)
  run-IsSound (lose_attempt time k why) db s =
      settle_unit-keeps IsSound db _ s
        (λ db' h. Touches-IsSound (mark_attempt_lost-Touches time k why db h) s)
  run-IsSound (queue c k name payload) db s =
      settle-keeps IsSound db _ s
        (λ a db' h. Touches-IsSound (queue_command-Touches sdk c k name payload db h) s)
  run-IsSound (respond time k c r) db s =
      settle-keeps IsSound db _ s
        (λ a db' h. Touches-IsSound (acknowledge_command-Touches sdk time k c r db h) s)
  run-IsSound (prepare time k config) db s =
      settle-keeps IsSound db _ s
        (λ a db' h. Touches-IsSound (prepare_configuration-Touches sdk time k config db h) s)

  -- From sound tables, whatever of the six operations are called, in whatever order, the tables stay sound.
  pub run_all-IsSound : (os : List (Operation J)) (db : Db J) → IsSound db → IsSound (run_all os db)
  unfolding run_all
  run_all-IsSound [] db s = s
  run_all-IsSound (o ∷ os) db s = run_all-IsSound os (run o db) (run-IsSound o db s)

  -- The attempt `a` has ended, and stands in the tables with the journal `rows`.
  pub record Archived (a : Attempt J) (rows : List (Row J)) (db : Db J) : Type 0 where
    pub stands : find_attempt a.id db.attempts ≡ some a
    pub journal : db.rows a.id ≡ rows

  module _ (a : Attempt J) (over : is_terminal a.status ≡ true) (rows : List (Row J)) where
    -- The locked attempt may change unless it is `a`.
    save-Archived :
        (k : ℕ) (db : Db J) (b b' : Attempt J)
        → locked_attempt k db ≡ ok b
        → (b ≡ a → b' ≡ a)
        → b.id ≡ b'.id
        → Archived a rows db
        → find_attempt a.id (save_attempt b' db.attempts) ≡ some a
    save-Archived k db b b' l keep keys r =
        let x = locked k db l in
        rw (find_attempt-save_attempt a.id db.attempts b') (
          rw (r.stands) (elim (Bool-cases (a.id == b'.id)) [
            | inl here ↦
                let e : a.id ≡ k = ground (arith, keys, x.named) in
                let it : b ≡ a = ground (arith, e, x.found, r.stands) in rw here (ap some (keep it))
            | inr there ↦ rw there
          ]))

    Touches-Archived : {db db' : Db J} → Touches db db' → Archived a rows db → Archived a rows db'
    Touches-Archived (same t l r) v = record { stands = rw l v.stands; journal = rw r v.journal }
    Touches-Archived {db} (saved k b b' l live keys next t s r) v =
        let other = λ (e : b ≡ a). absurd (ground (arith, live, over, e)) in
        record {
          stands = rw s (save-Archived k db b b' l other keys.0 v);
          journal = rw r v.journal;
        }

    create-Archived :
        (w t : ℕ) (m : Manifest J) (r : RunSpec J) (p : Option ℕ) (db : Db J) (b : Attempt J)
        (db' : Db J)
        → create_attempt sdk w t m r p db ≡ ok (b, db')
        → Archived a rows db
        → Archived a rows db'
    unfolding inserted find_attempt new_attempt
    create-Archived w t m r p db b db' h v =
        let c = create-eq-ok sdk w t m r p db h in
        let other : (b.id == a.id) ≡ false = ground (arith, c.made, c.new, v.stands) in
        rw (c.stored) (record { stands = rw other (v.stands); journal = v.journal })

    ingest-Archived :
        (k : ℕ) (es : List (Event J)) (db : Db J) (r : Reply) (db' : Db J)
        → ingest_events sdk now k es db ≡ ok (r, db')
        → Archived a rows db
        → Archived a rows db'
    unfolding flush journal_of
    ingest-Archived k es db r db' h v =
        let i = ingested sdk now k es db h in
        let j = journal_of i.before db in
        let keys : SameKeys i.before i.after.attempt =
          ingest_loop-SameKeys sdk now es j 0 0 i.looped in
        let final = λ (e : i.before ≡ a). (loop_ended sdk now es j 0 0 (rw e over) i.looped).0 in
        rw (i.flushed) (record {
          stands =
              save-Archived k db i.before i.after.attempt i.is_locked
                (λ e. ap (λ x. x.attempt) (final e) ∙ e) keys.0 v;
          journal = elim (Bool-cases (i.after.attempt.id == a.id)) [
            | inl here ↦
                let x = locked k db i.is_locked in
                let it : i.before ≡ a = ground (arith, here, keys.0, x.found, x.named, v.stands) in
                rw here (ap (λ y. y.rows) (final it) ∙ ap (λ y. db.rows y.id) it ∙ v.journal)
            | inr there ↦ rw there (v.journal)
          ];
        })

    run-Archived : (o : Operation J) (db : Db J) → Archived a rows db → Archived a rows (run o db)
    unfolding run
    run-Archived (create w t m r p) db v =
        settle-keeps (Archived a rows) db _ v (λ b db' h. create-Archived w t m r p db b db' h v)
    run-Archived (ingest k es) db v =
        settle-keeps (Archived a rows) db _ v (λ r db' h. ingest-Archived k es db r db' h v)
    run-Archived (lose_attempt time k why) db v =
        settle_unit-keeps (Archived a rows) db _ v
          (λ db' h. Touches-Archived (mark_attempt_lost-Touches time k why db h) v)
    run-Archived (queue c k name payload) db v =
        settle-keeps (Archived a rows) db _ v
          (λ q db' h. Touches-Archived (queue_command-Touches sdk c k name payload db h) v)
    run-Archived (respond time k c r) db v =
        settle-keeps (Archived a rows) db _ v
          (λ q db' h. Touches-Archived (acknowledge_command-Touches sdk time k c r db h) v)
    run-Archived (prepare time k config) db v =
        settle-keeps (Archived a rows) db _ v
          (λ q db' h. Touches-Archived (prepare_configuration-Touches sdk time k config db h) v)

    -- No sequence of the six operations, `create_attempt`, `ingest_events`, `mark_attempt_lost`,
    -- `queue_command`, `acknowledge_command` and `prepare_configuration`, changes the row or the journal
    -- of an attempt that has ended and stands in the tables.
    pub run_all-Archived :
        (os : List (Operation J)) (db : Db J) → Archived a rows db → Archived a rows (run_all os db)
    unfolding run_all
    run_all-Archived [] db v = v
    run_all-Archived (o ∷ os) db v = run_all-Archived os (run o db) (run-Archived o db v)
