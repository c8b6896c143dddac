-- ===== src/Attempts/Sound/Creation.antt =====
-- `create_attempt` and the invariant of the tables.
use eval_hive.Base.{
  ℕ, ◌+◌, ◌<◌, ◌≤◌, ◌≡◌, refl, sym, ap, ◌∙◌, true, false, Option, none, some, List, [], ◌∷◌, All,
  arith, ◌==◌, nat_eq, Bool-cases, inl, inr, ==-refl,
}
use eval_hive.Attempts.Model.{is_terminal, Manifest, RunSpec, Attempt}
use eval_hive.Attempts.Store.{ok, >>=-eq-ok, Sdk, Task, Db, find_attempt}
use eval_hive.Attempts.Create.{
  max_number, open_task, check_profile, check_previous, new_attempt, inserted, insert_attempt,
  check_spec, create_attempt,
}
use eval_hive.Attempts.Ingest.Contiguous.{IsJournal}
use eval_hive.Attempts.Sound.{current_of, HasUniqueIds, IsSound}
use eval_hive.Attempts.Sound.Change.{absent}

module _ {J : Type 0} where
  All-and :
      (P Q R : Attempt J → Type 0) (l : List (Attempt J))
      → ((a : Attempt J) → P a → Q a → R a)
      → All P l
      → All Q l
      → All R l
  All-and P Q R [] f p q = tt
  All-and P Q R (a ∷ l) f p q = (f a p.0 q.0, All-and P Q R l f p.1 q.1)

  -- Each row is found by its identifier.
  found_by_id : (l : List (Attempt J)) → HasUniqueIds l → All (λ a. find_attempt a.id l ≡ some a) l
  unfolding find_attempt
  found_by_id [] u = tt
  found_by_id (b ∷ l) u = (
    rw (==-refl b.id),
    All-and _ _ _ l (λ a n f. ground (arith, n, f)) (absent b.id l u.0) (found_by_id l u.1),
  )

  max_number_bounds :
      (t m : ℕ) (l : List (Attempt J))
      → max_number t l ≤ m
      → All (λ b. b.task_id ≡ t → b.number < m + 1) l
  unfolding max_number
  max_number_bounds t m [] h = tt
  max_number_bounds t m (b ∷ l) h = (
    λ e. ground (arith, e),
    max_number_bounds t m l
        (elim (Bool-cases (b.task_id == t)) [ inl same ↦ ground arith | inr other ↦ ground arith ]),
  )

  -- The previous attempt of the task has ended.
  previous_ended :
      (c : Option ℕ) (db : Db J) (b : Attempt J)
      → check_previous c db ≡ ok tt
      → c ≡ some b.id
      → find_attempt b.id db.attempts ≡ some b
      → is_terminal b.status ≡ true
  unfolding check_previous
  previous_ended none db b h e f = cc
  previous_ended (some k) db b h e f = ground arith

  insert-eq-ok :
      (task : Task J) (a : Attempt J) (db : Db J) {a' : Attempt J} {db' : Db J}
      → insert_attempt task a db ≡ ok (a', db')
      → (find_attempt a.id db.attempts ≡ none) × (a ≡ a') × (inserted task a db ≡ db')
  unfolding insert_attempt
  insert-eq-ok task a db {a'} {db'} h = (ground arith, ground arith, ground arith)

  inserted-IsSound :
      (task : Task J) (a : Attempt J) (db : Db J)
      → find_attempt a.id db.attempts ≡ none
      → db.tasks a.task_id ≡ some task
      → check_previous task.current_attempt_id db ≡ ok tt
      → a.number ≡ max_number a.task_id db.attempts + 1
      → IsJournal a []
      → IsSound db
      → IsSound (inserted task a db)
  unfolding inserted
  inserted-IsSound task a db new t p n j s = record {
    journals = (rw (s.owned a.id new) j, s.journals);
    active = (
      λ _. rw (==-refl a.task_id, current_of),
      All-and _ _ _ db.attempts
          (λ b act found live. elim (Bool-cases (a.task_id == b.task_id)) [
            | inl same ↦
                let e : a.task_id ≡ b.task_id = ground arith in
                let c : task.current_attempt_id ≡ some b.id = ground (arith, act live, t, e) in
                cc (previous_ended task.current_attempt_id db b p c found, live)
            | inr other ↦ rw (other, current_of) (act live)
          ])
          s.active (found_by_id db.attempts s.unique),
    );
    numbered = (
      rw n (
          max_number_bounds a.task_id (max_number a.task_id db.attempts) db.attempts (omega arith)),
      s.numbered,
    );
    unique = (new, s.unique);
    owned = λ k h. s.owned k (unfold find_attempt in ground (arith, h));
  }

  new_attempt-IsJournal :
      (k w t n : ℕ) (p : Option ℕ) (m : Manifest J) (r : RunSpec J)
      → IsJournal (new_attempt k w t n p m r) []
  unfolding new_attempt
  new_attempt-IsJournal k w t n p m r = record {
    counted = refl;
    unique = tt;
    starts = tt;
    finishes = tt;
    running = λ _. tt;
  }

  open_task-eq-ok :
      (w t : ℕ) (db : Db J) {task : Task J}
      → open_task w t db ≡ ok task
      → (db.tasks t ≡ some task) × (task.workspace_id ≡ w) × (db.archived t ≡ false)
  unfolding open_task
  open_task-eq-ok w t db {task} h = (ground arith, ground arith, ground arith)

  ended :
      (t : ℕ) (task : Task J) (db : Db J)
      → check_previous task.current_attempt_id db ≡ ok tt
      → db.tasks t ≡ some task
      → (b : Attempt J) → (is_terminal b.status ≡ false → current_of db.tasks b.task_id ≡ some b.id)
      → find_attempt b.id db.attempts ≡ some b
      → b.task_id ≡ t
      → is_terminal b.status ≡ true
  ended t task db idle o b act found same = elim (Bool-cases (is_terminal b.status)) [
    | inl over ↦ over
    | inr live ↦
        let c : task.current_attempt_id ≡ some b.id = ground (arith, act live, o, same) in
        previous_ended task.current_attempt_id db b idle c found
  ]

module _ {J : Type 0} (sdk : Sdk J) where
  -- What `create_attempt` has checked and done when it returns.
  pub record Created (w t : ℕ) (m : Manifest J) (r : RunSpec J) (p : Option ℕ) (db : Db J)
      (a : Attempt J) (db' : Db J) : Type 0 where
    pub attempt_id : ℕ
    pub checked : check_spec sdk w t m r ≡ ok attempt_id
    pub task : Task J
    pub opened : open_task w t db ≡ ok task
    pub idle : check_previous task.current_attempt_id db ≡ ok tt
    pub made : a ≡ new_attempt attempt_id w t (max_number t db.attempts + 1) p m r
    pub new : find_attempt attempt_id db.attempts ≡ none
    pub stored : db' ≡ inserted task a db

  pub create-eq-ok :
      (w t : ℕ) (m : Manifest J) (r : RunSpec J) (p : Option ℕ) (db : Db J) {a : Attempt J}
      {db' : Db J}
      → create_attempt sdk w t m r p db ≡ ok (a, db')
      → Created w t m r p db a db'
  unfolding create_attempt
  create-eq-ok w t m r p db {a} {db'} h =
      let (k, c, h1) = >>=-eq-ok (check_spec sdk w t m r) _ h in
      let (task, o, h2) = >>=-eq-ok (open_task w t db) _ h1 in
      let (u, q, h3) = >>=-eq-ok (check_profile w p m db) _ h2 in
      let (v, i, h4) = >>=-eq-ok (check_previous task.current_attempt_id db) _ h3 in
      let (n, e, f) = insert-eq-ok task _ db h4 in
      record {
        attempt_id = k;
        checked = c;
        task = task;
        opened = o;
        idle = i;
        made = sym e;
        new = unfold new_attempt in n;
        stored = sym f ∙ ap (λ b. inserted task b db) e;
      }

  -- The new attempt has an identifier of its own and a number greater than the earlier ones of its
  -- task, and it is the only one of the task that has not ended.
  pub create_attempt-IsSound :
      (w t : ℕ) (m : Manifest J) (r : RunSpec J) (p : Option ℕ) (db : Db J) {a : Attempt J}
      {db' : Db J}
      → create_attempt sdk w t m r p db ≡ ok (a, db')
      → IsSound db
      → IsSound db'
  create_attempt-IsSound w t m r p db h s =
      let c = create-eq-ok w t m r p db h in
      let o = open_task-eq-ok w t db c.opened in
      rw (c.stored) (
        rw (c.made) (
          inserted-IsSound c.task _ db (unfold new_attempt in c.new) (unfold new_attempt in o.0)
            c.idle (unfold new_attempt in refl) (new_attempt-IsJournal c.attempt_id w t _ p m r) s))

  -- When an attempt is created in sound tables, the earlier attempts of its task have all ended, and
  -- have smaller numbers, and the task names the new attempt as its current one.
  pub create_attempt_alone :
      (w t : ℕ) (m : Manifest J) (r : RunSpec J) (p : Option ℕ) (db : Db J) {a : Attempt J}
      {db' : Db J}
      → create_attempt sdk w t m r p db ≡ ok (a, db')
      → IsSound db
      → All (λ b. b.task_id ≡ t → (is_terminal b.status ≡ true) × (b.number < a.number)) db.attempts
        × (current_of db'.tasks t ≡ some a.id)
  create_attempt_alone w t m r p db {a} {db'} h s =
      let c = create-eq-ok w t m r p db h in
      let o = open_task-eq-ok w t db c.opened in
      let n : a.number ≡ max_number t db.attempts + 1 = rw (c.made) (unfold new_attempt in refl) in
      let k : a.task_id ≡ t = rw (c.made) (unfold new_attempt in refl) in
      let active =
        All-and _ _ _ db.attempts (ended t c.task db c.idle o.0) s.active
          (found_by_id db.attempts s.unique) in
      let below = max_number_bounds t (max_number t db.attempts) db.attempts (omega arith) in
      (
        All-and _ _ _ db.attempts (λ b over bound same. (over same, rw n (bound same))) active
            below,
        rw (c.stored) (unfold inserted in simp k (ground (arith, ==-refl t))),
      )
