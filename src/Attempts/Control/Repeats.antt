-- ===== src/Attempts/Control/Repeats.antt =====
-- Lemmas on commands and acknowledgements that are sent again.
use eval_hive.Base.{
  ◌&&◌, ℕ, ◌≡◌, refl, ap, sym, ◌∙◌, Bool, true, false, not, some, List, [], ◌∷◌, arith, ◌==◌, Eq,
  nat_eq, text_eq, Text, if◌then◌else◌, Option-cases, inl, inr, ==-refl, ==→≡,
}
use eval_hive.Attempts.Model.{queued, Attempt, Command, Receipt}
use eval_hive.Attempts.Store.{
  ok, err, command_conflict, protocol_error, raise_if, >>=-eq-ok, Sdk, Db, save_attempt,
  find_command, save_command,
}
use eval_hive.Attempts.Ingest.{locked_attempt}
use eval_hive.Attempts.Ingest.Contiguous.{SameKeys}
use eval_hive.Attempts.Sound.Change.{find_attempt-save_attempt}
use eval_hive.Attempts.Control.{
  Queued, check_command, new_command, stop, queue_again, queue_new, queue_command, acknowledge,
  own_command, acknowledge_once, acknowledge_command,
}

module _ {J : Type 0} where
  stop_keys : (name : Text) (a : Attempt J) → SameKeys a (stop name a)
  unfolding stop
  stop_keys name a = ground arith

  locked-save :
      (k : ℕ) (a a' : Attempt J) (db : Db J) (cs : List (Command J))
      → locked_attempt k db ≡ ok a
      → SameKeys a a'
      → locked_attempt k (record db { commands = cs; attempts = save_attempt a' db.attempts })
        ≡ ok a'
  unfolding locked_attempt
  locked-save k a a' db cs l keys =
      ground (arith, find_attempt-save_attempt k db.attempts a', keys.0, keys.1, keys.3)

  id-find_command :
      (k : ℕ) (cs : List (Command J)) (c : Command J) → find_command k cs ≡ some c → c.id ≡ k
  unfolding find_command
  id-find_command k [] c h = cc
  id-find_command k (d ∷ cs) c h = ground (arith, id-find_command k cs c)

  locked-commands :
      (k : ℕ) (db : Db J) (cs : List (Command J))
      → locked_attempt k (record db { commands = cs }) ≡ locked_attempt k db
  unfolding locked_attempt
  locked-commands k db cs = refl

  find_command-save_command :
      (k : ℕ) (cs : List (Command J)) (c c' : Command J)
      → find_command k cs ≡ some c
      → c'.id ≡ k
      → find_command k (save_command c' cs) ≡ some c'
  unfolding find_command save_command
  find_command-save_command k [] c c' h e = cc
  find_command-save_command k (d ∷ cs) c c' h e =
      ground (arith, find_command-save_command k cs c c')

module _ {J : Type 0} ⦃eq : Eq J⦄ (sdk : Sdk J) where
  queue_again_refl :
      (k : ℕ) (name : Text) (payload : J) (c : ℕ) (db : Db J)
      → queue_again k name payload (new_command c k name payload) db
        ≡ ok (record { id = c; status = queued; duplicate = true }, db)
  unfolding queue_again new_command
  queue_again_refl k name payload c db = simp (==-refl k, ==-refl name, ==-refl payload)

  queue_new_again :
      (c k : ℕ) (name : Text) (payload : J) (a : Attempt J) (db : Db J) {q : Queued} {db' : Db J}
      → locked_attempt k db ≡ ok a
      → queue_new sdk c k name payload a db ≡ ok (q, db')
      → queue_command sdk c k name payload db' ≡ ok (record q { duplicate = true }, db')
  unfolding queue_new
  queue_new_again c k name payload a db {q} {db'} l h =
      let (u, live, e) = >>=-eq-ok (check_command sdk name payload a) _ h in
      let e' : record db {
        attempts = save_attempt (stop name a) db.attempts;
        commands = new_command c k name payload ∷ db.commands;
      }
          ≡ db' =
        ground (arith, e) in
      let r : record { id = c; status = queued; duplicate = false } ≡ q = ground (arith, e) in
      let w =
        locked-save k a (stop name a) db (new_command c k name payload ∷ db.commands) l
          (stop_keys name a) in
      rw (← e', ← r)
        (unfold queue_command find_command in
          rw w (unfold new_command in rw (==-refl c) (queue_again_refl k name payload c _)))

  -- A command that was queued can be sent again: the answer is the same but for the mark of a
  -- repetition, and nothing changes.
  pub queue_command_again :
      (c k : ℕ) (name : Text) (payload : J) (db : Db J) {q : Queued} {db' : Db J}
      → queue_command sdk c k name payload db ≡ ok (q, db')
      → queue_command sdk c k name payload db' ≡ ok (record q { duplicate = true }, db')
  unfolding queue_command queue_again
  queue_command_again c k name payload db {q} {db'} h =
      let (a, l, e) = >>=-eq-ok (locked_attempt k db) _ h in
      elim (Option-cases (find_command c db.commands)) [
        | inl new ↦ queue_new_again c k name payload a db l (rw new at e)
        | inr (d, old) ↦
            let same : db ≡ db' = ground (arith, old, e) in
            let r : q ≡ record q { duplicate = true } = ground (arith, old, e) in
            let whole : queue_command sdk c k name payload db'
                ≡ queue_command sdk c k name payload db =
              ap (queue_command sdk c k name payload) (sym same) in
            whole ∙ h ∙ (λ i. ok (r i, db'))
      ]

  -- The row of a command that was queued.
  queued_row :
      (c k : ℕ) (name : Text) (payload : J) (db : Db J) {q : Queued} {db' : Db J}
      → queue_command sdk c k name payload db ≡ ok (q, db')
      → (d : Command J) × (find_command c db'.commands ≡ some d)
        × (d.attempt_id ≡ k)
        × (d.name ≡ name)
        × (d.payload ≡ payload)
  unfolding queue_command queue_again queue_new
  queued_row c k name payload db {q} {db'} h =
      let again = queue_command_again c k name payload db h in
      let (a, l, e) = >>=-eq-ok (locked_attempt k db') _ again in
      elim (Option-cases (find_command c db'.commands)) [
        | inl new ↦
            let (u, live, e2) = >>=-eq-ok (check_command sdk name payload a) _ (rw new at e) in cc
        | inr (d, old) ↦ (
          d,
          old,
          ground (arith, old, e, ==→≡ d.attempt_id k),
          ground (arith, old, e, ==→≡ d.name name),
          ground (arith, old, e, ==→≡ d.payload payload),
        )
      ]

  -- After a command was queued, one with another attempt, name or payload under its identifier is refused
  -- as a conflict, if its attempt is the current one of its task.
  pub queue_command_other :
      (c k other_k : ℕ) (name other_name : Text) (payload other_payload : J) (db : Db J)
      {q : Queued} {db' : Db J} (a : Attempt J)
      → queue_command sdk c k name payload db ≡ ok (q, db')
      → locked_attempt other_k db' ≡ ok a
      → ((k == other_k) && (name == other_name) && (payload == other_payload)) ≡ false
      → queue_command sdk c other_k other_name other_payload db' ≡ err command_conflict
  unfolding queue_command queue_again
  queue_command_other c k other_k name other_name payload other_payload db a h l differs =
      let (d, old, e1, e2, e3) = queued_row c k name payload db h in
      rw (queue_command, l, old) (rw (e1, e2, e3) (rw differs refl))

  -- What an accepted acknowledgement has found.
  record Acknowledged (now k c : ℕ) (r : Receipt J) (db : Db J) (b : Bool) (db' : Db J)
      : Type 0 where
    attempt : Attempt J
    is_locked : locked_attempt k db ≡ ok attempt
    command : Command J
    owned : own_command c k db ≡ ok command
    once : acknowledge_once now r command db ≡ ok (b, db')

  Acknowledged-call :
      (now k c : ℕ) (r : Receipt J) (db : Db J) {b : Bool} {db' : Db J}
      → acknowledge_command sdk now k c r db ≡ ok (b, db')
      → Acknowledged now k c r db b db'
  unfolding acknowledge_command
  Acknowledged-call now k c r db h =
      let (u, x, h1) = >>=-eq-ok (raise_if (not (sdk.valid_response r)) protocol_error) _ h in
      let (v, y, h2) = >>=-eq-ok (raise_if (not (r.id == c)) protocol_error) _ h1 in
      let (a, l, h3) = >>=-eq-ok (locked_attempt k db) _ h2 in
      let (d, o, h4) = >>=-eq-ok (own_command c k db) _ h3 in
      record { attempt = a; is_locked = l; command = d; owned = o; once = h4 }

  -- The call, where its checks pass.
  acknowledge_command_known :
      (now k c : ℕ) (s : Receipt J) (db : Db J) (a : Attempt J) (d : Command J)
      → sdk.valid_response s ≡ true
      → s.id ≡ c
      → locked_attempt k db ≡ ok a
      → own_command c k db ≡ ok d
      → acknowledge_command sdk now k c s db ≡ acknowledge_once now s d db
  unfolding acknowledge_command
  acknowledge_command_known now k c s db a d valid named l o = rw (valid, named, ==-refl c, l, o)

  own-save :
      (now k c : ℕ) (r : Receipt J) (db : Db J) (d : Command J)
      → own_command c k db ≡ ok d
      → own_command c k (record db { commands = save_command (acknowledge now r d) db.commands })
        ≡ ok (acknowledge now r d)
  unfolding own_command acknowledge
  own-save now k c r db d o =
      let found : find_command c db.commands ≡ some d = ground arith in
      let named = id-find_command c db.commands d found in
      ground (arith, find_command-save_command c db.commands d (acknowledge now r d) found named)

  -- After an acknowledgement of a command was taken, another valid one for the same command is a
  -- repetition that changes nothing if it has the same body, and a conflict if not.
  pub acknowledge_command_once :
      (now later k c : ℕ) (r s : Receipt J) (db : Db J) {b : Bool} {db' : Db J}
      → acknowledge_command sdk now k c r db ≡ ok (b, db')
      → sdk.valid_response s ≡ true
      → s.id ≡ c
      → acknowledge_command sdk later k c s db'
        ≡ (if r.body == s.body then ok (true, db') else err command_conflict)
  unfolding acknowledge_once
  acknowledge_command_once now later k c r s db {b} {db'} h valid named =
      let w = Acknowledged-call now k c r db h in
      let d = w.command in
      elim (Option-cases d.result) [
        | inl new ↦
            let cs = save_command (acknowledge now r d) db.commands in
            let stored : record db { commands = cs } ≡ db' = ground (arith, new, w.once) in
            let l = locked-commands k db cs ∙ w.is_locked in
            rw (← stored) (
              acknowledge_command_known later k c s (record db { commands = cs }) w.attempt
                (acknowledge now r d) valid named l (own-save now k c r db d w.owned)
              ∙ (unfold acknowledge in refl))
        | inr (t, old) ↦
            let same : db' ≡ db = ground (arith, old, w.once) in
            let e : t.body ≡ r.body = ground (arith, old, w.once, ==→≡ t.body r.body) in
            let known =
              acknowledge_command_known later k c s db w.attempt d valid named w.is_locked
                w.owned in
            rw same (
              known
              ∙ rw (old, acknowledge_once)
                  (ap (λ x. if x == s.body then ok (true, db) else err command_conflict) e))
      ]
