-- ===== src/Variance/Ends.antt =====
-- One step of a run: how many children it makes, and what it leaves of the run.
use eval_hive.Base.{
  ℕ, ◌+◌, ◌-◌, ◌≡◌, ◌≤◌, ◌<◌, ◌==◌, nat_eq, Bool, true, false, not, ◌&&◌, ◌||◌, Option, List, refl,
  arith, length, if◌then◌else◌, Bool-cases, inl, inr, if_both, ltb, leb, min, ◌⊎◌, ap, ◌∙◌,
}
use eval_hive.Rerun.{Db, Task}
use eval_hive.Variance.{
  Run, Services, load_children, evaluate_children, accumulated_cost, inflight_target,
  count_in_flight, is_ended,
}
use eval_hive.Variance.Advance.{
  Step, create_children, conclude, finalize, advance_variance_run, to_create, is_cost_exceeded,
}
use eval_hive.Variance.Children.{
  AreThere, AreThere-Keeps, length-load_children, tasks-evaluate_children, Grown,
  create_children-Grown, Keeps,
}

-- The run as the step sees it: its costs are read again.
abbrev pub recosted : ℕ → Run → Run
recosted cost run = record run { accumulated_cost_usd = cost }

room_bounds :
    (len n flight target : ℕ) (over : Bool)
    → len ≤ n
    → let m = if ltb len n && not over then min (target - flight) (n - len) else 0 in
      (len + m ≤ n) × (0 < m → (over ≡ false) × (flight + m ≤ target))
room_bounds len n flight target true le = ground arith
room_bounds len n flight target false le = ground arith

pub room_progress :
    (len n flight target : ℕ) (over : Bool)
    → 0 < target
    → flight ≡ 0
    → let m = if ltb len n && not over then min (target - flight) (n - len) else 0 in
      m ≡ 0 → (over || leb n len) ≡ true
room_progress len n flight target true t f e = refl
room_progress len n flight target false t f e = ground arith

module _ {J : Type 0} where
  -- A run whose children are in the table, and are not more than it asks for.
  pub record IsSized (db : Db J) (run : Run) : Type 0 where
    pub children_there : AreThere db run.child_task_ids
    pub at_most_n : length run.child_task_ids ≤ run.n

  pub to_create_bounds :
      (sv : Services J) (run : Run) (children : List (Task J))
      → length children ≤ run.n
      → (length children + to_create sv run children ≤ run.n)
        × (0 < to_create sv run children
            → (is_cost_exceeded run ≡ false)
              × (count_in_flight children + to_create sv run children
                  ≤ inflight_target sv run.parallel))
  unfolding to_create
  to_create_bounds sv run children le =
      room_bounds (length children) run.n (count_in_flight children)
        (inflight_target sv run.parallel) (is_cost_exceeded run) le

  pub inflight_target_pos : (sv : Services J) (parallel : Bool) → 0 < inflight_target sv parallel
  unfolding inflight_target
  inflight_target_pos sv parallel = ground arith

  pub conclude_same :
      (sv : Services J) (db : Db J) (run : Run) (children : List (Task J))
      → let s = conclude sv db run children in
        (s.db ≡ db)
        × (s.run.child_task_ids ≡ run.child_task_ids)
        × (s.run.n ≡ run.n)
        × (s.run.source_task_id ≡ run.source_task_id)
        × (s.raised ≡ false)
  unfolding conclude finalize
  conclude_same sv db run children =
      if_both
        (λ (s : Step J).
          (s.db ≡ db)
          × (s.run.child_task_ids ≡ run.child_task_ids)
          × (s.run.n ≡ run.n)
          × (s.run.source_task_id ≡ run.source_task_id)
          × (s.raised ≡ false))
        _
        (if_both
          (λ (s : Step J).
            (s.db ≡ db)
            × (s.run.child_task_ids ≡ run.child_task_ids)
            × (s.run.n ≡ run.n)
            × (s.run.source_task_id ≡ run.source_task_id)
            × (s.raised ≡ false))
          (length children == 0) (refl, refl, refl, refl, refl) (refl, refl, refl, refl, refl))
        (refl, refl, refl, refl, refl)

  -- What a step of a run that has not ended does, for the children that are loaded and evaluated.
  pub advance_variance_run_cases :
      (sv : Services J) (db : Db J) (run : Run)
      → is_ended run.status ≡ false
      → let children = load_children db run.child_task_ids in
        let db1 = evaluate_children sv children db in
        let run1 = recosted (accumulated_cost db1 children) run in
        let m = to_create sv run1 children in
        ((m ≡ 0) × (advance_variance_run sv db run ≡ conclude sv db1 run1 children))
        ⊎ ((0 < m)
            × (advance_variance_run sv db run
                ≡ create_children sv m (length children) db1 run run1))
  unfolding advance_variance_run recosted
  advance_variance_run_cases sv db run open_ =
      let children = load_children db run.child_task_ids in
      let db1 = evaluate_children sv children db in
      let run1 = recosted (accumulated_cost db1 children) run in
      elim (Bool-cases (to_create sv run1 children == 0)) [
        | inl e ↦ inl (ground arith, rw (advance_variance_run, open_, e) refl)
        | inr e ↦ inr (ground arith, rw (advance_variance_run, open_, e) refl)
      ]

  module _ (sv : Services J) (db : Db J) (run : Run) (sized : IsSized db run) where
    evaluated-Keeps : Keeps db (evaluate_children sv (load_children db run.child_task_ids) db)
    evaluated-Keeps i old = (
      old.0,
      ap (λ (f : ℕ → Option (Task J)). f i)
            (tasks-evaluate_children sv (load_children db run.child_task_ids) db)
          ∙ old.1,
    )

    evaluated_there :
        AreThere (evaluate_children sv (load_children db run.child_task_ids) db) run.child_task_ids
    evaluated_there =
        AreThere-Keeps db (evaluate_children sv (load_children db run.child_task_ids) db)
          run.child_task_ids evaluated-Keeps sized.children_there

    pub loaded : length (load_children db run.child_task_ids) ≡ length run.child_task_ids
    loaded = length-load_children db run.child_task_ids sized.children_there

    pub conclude-IsSized :
        let children = load_children db run.child_task_ids in
        let db1 = evaluate_children sv children db in
        let s = conclude sv db1 (recosted (accumulated_cost db1 children) run) children in
        IsSized s.db s.run
        × (s.run.n ≡ run.n)
        × (length s.run.child_task_ids ≡ length run.child_task_ids)
    conclude-IsSized =
        let children = load_children db run.child_task_ids in
        let db1 = evaluate_children sv children db in
        let run1 = recosted (accumulated_cost db1 children) run in
        let (e1, e2, e3, e4, e5) = conclude_same sv db1 run1 children in
        (
          record {
            children_there = rw (e1, e2) evaluated_there;
            at_most_n = rw (e2, e3) sized.at_most_n;
          },
          e3,
          ap (λ (l : List ℕ). length l) e2,
        )

    pub created-Grown :
        let children = load_children db run.child_task_ids in
        let db1 = evaluate_children sv children db in
        let run1 = recosted (accumulated_cost db1 children) run in
        let m = to_create sv run1 children in
        Grown
          (length run.child_task_ids)
          m
          run
          (create_children sv m (length children) db1 run run1)
    created-Grown =
        let children = load_children db run.child_task_ids in
        let db1 = evaluate_children sv children db in
        let run1 = recosted (accumulated_cost db1 children) run in
        let g =
          create_children-Grown sv (to_create sv run1 children) (length children) db1 run run1
            evaluated_there evaluated_there (omega arith) refl refl in
        record {
          children_there = g.children_there;
          at_most = g.at_most;
          exactly = g.exactly;
          same_n = g.same_n;
          same_source = g.same_source;
        }

  pub ended_same :
      (sv : Services J) (db : Db J) (run : Run)
      → is_ended run.status ≡ true
      → advance_variance_run sv db run ≡ record { db = db; run = run; raised = false }
  unfolding advance_variance_run
  ended_same sv db run over = rw (advance_variance_run, over) refl

  -- For a run whose children are all in the table and at most as many as it asks for: one step leaves it as
  -- it is if it has ended; any other run keeps the number that it asks for, and still has its children in
  -- the table and at most as many; and where the step makes children, the costs of the run, read again, are
  -- below its cap if it has one, and those children and the ones in flight together are within the target.
  pub advance_variance_run-IsSized :
      (sv : Services J) (db : Db J) (run : Run)
      → IsSized db run
      → let children = load_children db run.child_task_ids in
        let cost = accumulated_cost (evaluate_children sv children db) children in
        let s = advance_variance_run sv db run in
        (is_ended run.status ≡ true → (s.run ≡ run) × (s.db ≡ db))
        × IsSized s.db s.run
        × (s.run.n ≡ run.n)
        × (length run.child_task_ids < length s.run.child_task_ids
            → (is_cost_exceeded (recosted cost run) ≡ false)
              × (count_in_flight children
                    + (length s.run.child_task_ids - length run.child_task_ids)
                  ≤ inflight_target sv run.parallel))
  advance_variance_run-IsSized sv db run sized = elim (Bool-cases (is_ended run.status)) [
    | inl over ↦
        let same : advance_variance_run sv db run ≡ record { db = db; run = run; raised = false } =
          ended_same sv db run over in
        rw same (
          λ e. (refl, refl),
          sized,
          refl,
          λ (more : length run.child_task_ids < length run.child_task_ids). ground arith,
        )
    | inr open_ ↦ elim (advance_variance_run_cases sv db run open_) [
      | inl (none_, same) ↦
          let (z, n, len) = conclude-IsSized sv db run sized in
          rw same (λ (over : is_ended run.status ≡ true). cc, z, n, λ more. ground (arith, len))
      | inr (some_, same) ↦
          let g = created-Grown sv db run sized in
          let children = load_children db run.child_task_ids in
          let run1 = recosted (accumulated_cost (evaluate_children sv children db) children) run in
          let (room, within) =
            to_create_bounds sv run1 children
              (omega (arith, loaded sv db run sized, sized.at_most_n)) in
          rw same (
            λ (over : is_ended run.status ≡ true). cc,
            record {
              children_there = g.children_there;
              at_most_n = omega (arith, g.at_most, g.same_n, room, loaded sv db run sized);
            },
            g.same_n,
            λ more. ((within some_).0, omega (arith, (within some_).1, g.at_most)),
          )
    ]
  ]
