-- ===== src/Variance/Children.antt =====
-- The children that a step of a run makes.
use eval_hive.Base.{
  ℕ, suc, zero, ◌+◌, ◌≡◌, ◌≢◌, ◌≤◌, ◌==◌, nat_eq, false, none, some, List, [], ◌∷◌, ◌++◌, refl,
  arith, All, length, Bool-cases, Option-cases, inl, inr, subst, length-append, ◌∙◌, if_both, sym,
}
use eval_hive.Rerun.{Db, Task, Texts}
use eval_hive.Rerun.Clone.{add_task, Overrides, clone_task_for_rerun}
use eval_hive.Rerun.Copies.{clone_task_for_rerun-IsCopy}
use eval_hive.Variance.{
  Run, Services, make_child, load_children, evaluate_children, ensure_child_evaluated, task_of_spec,
  is_success, template_config, suffix, ready,
}
use eval_hive.Variance.Advance.{Step, create_children}

module _ {J : Type 0} where
  abbrev pub IsThere : Db J → ℕ → Type 0
  IsThere db i = (t : Task J) × (db.tasks i ≡ some t)

  abbrev pub AreThere : Db J → List ℕ → Type 0
  AreThere db ids = All (λ (i : ℕ). IsThere db i) ids

  -- No task is gone.
  abbrev pub Keeps : Db J → Db J → Type 0
  Keeps db db' = (i : ℕ) → IsThere db i → IsThere db' i

  pub AreThere-Keeps :
      (db db' : Db J) (ids : List ℕ) → Keeps db db' → AreThere db ids → AreThere db' ids
  AreThere-Keeps db db' [] keeps all = tt
  AreThere-Keeps db db' (i ∷ ids) keeps all = (keeps i all.0, AreThere-Keeps db db' ids keeps all.1)

  AreThere-append :
      (db : Db J) (ids : List ℕ) (k : ℕ)
      → AreThere db ids
      → IsThere db k
      → AreThere db (ids ++ (k ∷ []))
  AreThere-append db [] k all there = (there, tt)
  AreThere-append db (i ∷ ids) k all there = (all.0, AreThere-append db ids k all.1 there)

  pub length-load_children :
      (db : Db J) (ids : List ℕ) → AreThere db ids → length (load_children db ids) ≡ length ids
  unfolding load_children
  length-load_children db [] all = refl
  length-load_children db (i ∷ ids) all = ground (arith, all.0.1, length-load_children db ids all.1)

  tasks-ensure_child_evaluated :
      (sv : Services J) (t : Task J) (db : Db J) → (ensure_child_evaluated sv t db).tasks ≡ db.tasks
  unfolding ensure_child_evaluated
  tasks-ensure_child_evaluated sv t db = elim (Option-cases (sv.build t (db.records t.id))) [
    | inl e ↦ rw (ensure_child_evaluated, e) refl
    | inr (r, e) ↦ rw (ensure_child_evaluated, e) refl
  ]

  pub tasks-evaluate_children :
      (sv : Services J) (l : List (Task J)) (db : Db J)
      → (evaluate_children sv l db).tasks ≡ db.tasks
  unfolding evaluate_children
  tasks-evaluate_children sv [] db = refl
  tasks-evaluate_children sv (t ∷ l) db =
      tasks-evaluate_children sv l _
      ∙ if_both (λ (d : Db J). d.tasks ≡ db.tasks) (is_success t.status)
          (tasks-ensure_child_evaluated sv t db) refl

  -- A new row keeps the others, and may only replace one under the new identifier.
  new_row :
      (db db' : Db J) (k : ℕ) {t : Task J}
      → ((i : ℕ) → i ≢ k → db'.tasks i ≡ db.tasks i)
      → db'.tasks k ≡ some t
      → Keeps db db' × IsThere db' k
  new_row db db' k {t} stay there = (
    (λ i old. elim (Bool-cases (i == k)) [
      | inl same ↦ (t, (let e : i ≡ k = ground arith in rw e there))
      | inr other ↦ (old.0, stay i (ground arith) ∙ old.1)
    ]),
    (t, there),
  )

  add_task-Keeps :
      (t : Task J) (db : Db J) → let r = add_task t db in Keeps db r.0 × IsThere r.0 r.1
  unfolding add_task
  add_task-Keeps t db =
      new_row db (add_task t db).0 db.next_id {t = record t { id = db.next_id }}
        (λ i ne. ground arith) (ground arith)

  make_child-Keeps :
      (tx : Texts) (run : Run) (idx : ℕ) (db db' : Db J) (k : ℕ)
      → make_child tx run idx db ≡ some (db', k)
      → Keeps db db' × IsThere db' k
  unfolding make_child
  make_child-Keeps tx run idx db db' k h = elim (Option-cases run.source_task_id) [
    | inl e ↦
        let same : add_task (task_of_spec tx run idx) db ≡ (db', k) = ground (arith, e, h) in
        subst (λ (r : Db J × ℕ). Keeps db r.0 × IsThere r.0 r.1) same
          (add_task-Keeps (task_of_spec tx run idx) db)
    | inr (j, e) ↦ elim (Option-cases (db.tasks j)) [
      | inl e2 ↦ cc
      | inr (source, e2) ↦
          let o : Overrides J = record {
            config = template_config tx run;
            title = none;
            description = none;
            title_suffix = suffix run idx;
            max_retries = 0;
            status = ready;
          } in
          let made : clone_task_for_rerun tx db source o ≡ some (db', k) =
            ground (arith, e, e2, h) in
          let c = clone_task_for_rerun-IsCopy tx db source o made in
          new_row db db' k
            (λ i ne. c.others_stay i (λ (same : i ≡ db.next_id). ne (same ∙ sym c.new))) c.found
    ]
  ]

  -- What a step that makes children leaves, where `before` children were there and m are to be made.
  pub record Grown (before m : ℕ) (run : Run) (s : Step J) : Type 0 where
    pub children_there : AreThere s.db s.run.child_task_ids
    pub at_most : length s.run.child_task_ids ≤ before + m
    pub exactly : s.raised ≡ false → length s.run.child_task_ids ≡ before + m
    pub same_n : s.run.n ≡ run.n
    pub same_source : s.run.source_task_id ≡ run.source_task_id

  pub create_children-Grown :
      (sv : Services J) (m idx : ℕ) (db : Db J) (committed run : Run)
      → AreThere db committed.child_task_ids
      → AreThere db run.child_task_ids
      → length committed.child_task_ids ≤ length run.child_task_ids
      → committed.n ≡ run.n
      → committed.source_task_id ≡ run.source_task_id
      → Grown (length run.child_task_ids) m run (create_children sv m idx db committed run)
  unfolding create_children
  create_children-Grown sv zero idx db committed run there there2 le n source = record {
    children_there = there2;
    at_most = omega arith;
    exactly = λ _. omega arith;
    same_n = refl;
    same_source = refl;
  }
  create_children-Grown sv (suc m) idx db committed run there there2 le n source =
      elim (Option-cases (make_child sv.texts run idx db)) [
        | inl e ↦
            rw (create_children, e)
              record {
                children_there = there;
                at_most = omega (arith, le);
                exactly = λ bad. cc;
                same_n = n;
                same_source = source;
              }
        | inr ((db', k), e) ↦
            let (keeps, new) = make_child-Keeps sv.texts run idx db db' k e in
            let run' : Run = record run { child_task_ids = run.child_task_ids ++ (k ∷ []) } in
            let old = AreThere-Keeps db db' run.child_task_ids keeps there2 in
            let len = length-append run.child_task_ids (k ∷ []) in
            let rest =
              create_children-Grown sv m (idx + 1) db' run run' old
                (AreThere-append db' _ k old new) (omega (arith, len)) refl refl in
            rw (create_children, e)
              record {
                children_there = rest.children_there;
                at_most = omega (arith, len, rest.at_most);
                exactly = λ ok. omega (arith, len, rest.exactly ok);
                same_n = rest.same_n;
                same_source = rest.same_source;
              }
      ]
