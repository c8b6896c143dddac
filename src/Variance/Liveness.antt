-- ===== src/Variance/Liveness.antt =====
-- Runs from a specification over several ticks of the scheduler.
use eval_hive.Base.{
  ◌++◌, sym, ℕ, suc, zero, ◌+◌, ◌≡◌, ◌<◌, ◌==◌, nat_eq, true, false, ◌&&◌, ◌||◌, Option, none, some,
  List, [], ◌∷◌, refl, arith, length, Bool-cases, Option-cases, inl, inr, subst, if_both, ltb, leb,
  ap, ◌∙◌, if_given,
}
use eval_hive.Rerun.{Db, Task}
use eval_hive.Rerun.Clone.{add_task}
use eval_hive.Variance.{
  Run, Services, load_children, is_ended, is_over, count_in_flight, make_child, accumulated_cost,
  evaluate_children, task_of_spec, RunStatus, inflight_target,
}
use eval_hive.Variance.Advance.{
  Step, create_children, conclude, advance_variance_run, to_create, is_cost_exceeded, run_variance,
  Request, new_run, resolve_template,
}
use eval_hive.Variance.Children.{Keeps, AreThere-Keeps}
use eval_hive.Variance.Ends.{
  IsSized, recosted, ended_same, room_progress, advance_variance_run_cases, inflight_target_pos,
  created-Grown, to_create_bounds, loaded, advance_variance_run-IsSized, conclude_same,
}

module _ {J : Type 0} where
  -- What happens between two ticks: no task goes away, and every task ends.
  abbrev pub Finishes : (Db J → Db J) → Type 0
  Finishes between =
      (db : Db J)
      → Keeps db (between db)
        × ((i : ℕ) (t : Task J) → (between db).tasks i ≡ some t → is_over t.status ≡ true)

  -- Ticks of the scheduler for one run, each after what happens between. The services may change.
  pub ticks : (ℕ → Services J) → (Db J → Db J) → ℕ → Db J → Run → Run
  ticks sv between zero db run = run
  ticks sv between (suc f) db run =
      let s = advance_variance_run (sv f) (between db) run in ticks sv between f s.db s.run

  nothing_in_flight :
      (db : Db J) (ids : List ℕ)
      → ((i : ℕ) (t : Task J) → db.tasks i ≡ some t → is_over t.status ≡ true)
      → count_in_flight (load_children db ids) ≡ 0
  unfolding load_children count_in_flight
  nothing_in_flight db [] over = refl
  nothing_in_flight db (i ∷ ids) over = elim (Option-cases (db.tasks i)) [
    | inl e ↦ ground (arith, e, nothing_in_flight db ids over)
    | inr (t, e) ↦ ground (arith, e, over i t e, nothing_in_flight db ids over)
  ]

  raised-create_children :
      (sv : Services J) (m idx : ℕ) (db : Db J) (committed run : Run)
      → run.source_task_id ≡ none
      → (create_children sv m idx db committed run).raised ≡ false
  unfolding create_children make_child
  raised-create_children sv zero idx db committed run e = refl
  raised-create_children sv (suc m) idx db committed run e =
      let made : make_child sv.texts run idx db
          ≡ some (add_task (task_of_spec sv.texts run idx) db) =
        ground (arith, e) in
      let r = add_task (task_of_spec sv.texts run idx) db in
      rw (create_children, made)
        (raised-create_children sv m (idx + 1) r.0 run
          (record run { child_task_ids = run.child_task_ids ++ (r.1 ∷ []) }) e)

  stop_ends :
      (sv : Services J) (db : Db J) (run : Run) (children : List (Task J))
      → ((is_cost_exceeded run || leb run.n (length children)) && (count_in_flight children == 0))
        ≡ true
      → is_ended (conclude sv db run children).run.status ≡ true
  unfolding conclude is_ended
  stop_ends sv db run children halt =
      if_given (λ (s : Step J). is_ended s.run.status ≡ true)
        ((is_cost_exceeded run || leb run.n (length children)) && (count_in_flight children == 0))
        (λ _.
          if_both (λ (s : Step J). is_ended s.run.status ≡ true) (length children == 0) refl
            (if_both (λ (s : RunStatus). is_ended s ≡ true)
              (is_cost_exceeded run && ltb (length children) run.n) refl refl))
        (λ no_. ground (arith, halt, no_))

  conclude_ends :
      (sv : Services J) (db : Db J) (run : Run) (children : List (Task J))
      → count_in_flight children ≡ 0
      → to_create sv run children ≡ 0
      → is_ended (conclude sv db run children).run.status ≡ true
  unfolding conclude is_ended to_create
  conclude_ends sv db run children idle none_ =
      let stop : (is_cost_exceeded run || leb run.n (length children)) ≡ true =
        room_progress (length children) run.n (count_in_flight children)
          (inflight_target sv run.parallel) (is_cost_exceeded run)
          (inflight_target_pos sv run.parallel) idle none_ in
      let halt : ((is_cost_exceeded run || leb run.n (length children))
            && (count_in_flight children == 0))
          ≡ true =
        ground (arith, stop, idle) in
      stop_ends sv db run children halt

  ended_ticks :
      (sv : ℕ → Services J) (between : Db J → Db J) (f : ℕ) (db : Db J) (run : Run)
      → is_ended run.status ≡ true
      → ticks sv between f db run ≡ run
  unfolding ticks
  ended_ticks sv between zero db run over = refl
  ended_ticks sv between (suc f) db run over =
      let same = ended_same (sv f) (between db) run over in
      ap (λ (s : Step J). ticks sv between f s.db s.run) same
      ∙ ended_ticks sv between f (between db) run over

  -- As many ticks as children are missing, and one, end the run.
  ticks_end :
      (sv : ℕ → Services J) (between : Db J → Db J) (f : ℕ) (db : Db J) (run : Run)
      → Finishes between
      → run.source_task_id ≡ none
      → IsSized db run
      → run.n < f + length run.child_task_ids
      → is_ended (ticks sv between f db run).status ≡ true
  unfolding ticks
  ticks_end sv between zero db run finishes own sized few = ground (arith, sized.at_most_n, few)
  ticks_end sv between (suc f) db run finishes own sized few =
      elim (Bool-cases (is_ended run.status)) [
        | inl over ↦ rw (ended_ticks sv between (suc f) db run over) over
        | inr open_ ↦
            let db0 = between db in
            let sized0 : IsSized db0 run = record {
              children_there =
                  AreThere-Keeps db db0 run.child_task_ids (finishes db).0 sized.children_there;
              at_most_n = sized.at_most_n;
            } in
            let children = load_children db0 run.child_task_ids in
            let run1 =
              recosted (accumulated_cost (evaluate_children (sv f) children db0) children) run in
            elim (advance_variance_run_cases (sv f) db0 run open_) [
              | inl (none_, same) ↦
                  let end =
                    conclude_ends (sv f) (evaluate_children (sv f) children db0) run1 children
                      (nothing_in_flight db0 run.child_task_ids (finishes db).1) none_ in
                  let s = conclude (sv f) (evaluate_children (sv f) children db0) run1 children in
                  subst (λ (s : Step J). is_ended (ticks sv between f s.db s.run).status ≡ true)
                    (sym same) (rw (ended_ticks sv between f s.db s.run end) end)
              | inr (some_, same) ↦
                  let db1 = evaluate_children (sv f) children db0 in
                  let m = to_create (sv f) run1 children in
                  let s = create_children (sv f) m (length children) db1 run run1 in
                  let g = created-Grown (sv f) db0 run sized0 in
                  let len =
                    g.exactly
                      (raised-create_children (sv f) m (length children) db1 run run1 own) in
                  let room =
                    (to_create_bounds (sv f) run1 children
                      (omega (arith, loaded (sv f) db0 run sized0, sized.at_most_n))).0 in
                  let sized' : IsSized s.db s.run = record {
                    children_there = g.children_there;
                    at_most_n = omega (arith, len, g.same_n, room, loaded (sv f) db0 run sized0);
                  } in
                  subst (λ (s : Step J). is_ended (ticks sv between f s.db s.run).status ≡ true)
                    (sym same)
                    (ticks_end sv between f s.db s.run finishes (g.same_source ∙ own) sized'
                      (omega (arith, few, len, g.same_n, some_)))
            ]
      ]

  run_variance_run :
      (sv : Services J) (db : Db J) (r : Request) {s : Step J}
      → run_variance sv db r ≡ some s
      → (template : Option ℕ) × (advance_variance_run sv db (new_run r template) ≡ s)
  unfolding run_variance
  run_variance_run sv db r {s} h = elim (Option-cases (resolve_template db r)) [
    | inl e ↦ let bad : ◌≡◌ {A = Option (Step J)} none (some s) = ground (arith, e, h) in cc
    | inr (template, e) ↦ (template, ground (arith, e, h))
  ]

  source-advance_variance_run :
      (sv : Services J) (db : Db J) (run : Run)
      → IsSized db run
      → (advance_variance_run sv db run).run.source_task_id ≡ run.source_task_id
  source-advance_variance_run sv db run sized = elim (Bool-cases (is_ended run.status)) [
    | inl over ↦ ap (λ (s : Step J). s.run.source_task_id) (ended_same sv db run over)
    | inr open_ ↦ elim (advance_variance_run_cases sv db run open_) [
      | inl (none_, same) ↦
          ap (λ (s : Step J). s.run.source_task_id) same
          ∙ (conclude_same sv _ _ (load_children db run.child_task_ids)).3
      | inr (some_, same) ↦
          ap (λ (s : Step J). s.run.source_task_id) same
          ∙ (created-Grown sv db run sized).same_source
    ]
  ]

  -- A run from a specification that `run_variance` accepts has ended after as many ticks as it asks for
  -- children, and one more, if no task goes away and every task ends between two ticks, whatever the
  -- judges, the costs and the concurrency are at each tick.
  pub run_variance_ends :
      (sv0 : Services J) (sv : ℕ → Services J) (between : Db J → Db J) (db : Db J) (r : Request)
      (s : Step J)
      → run_variance sv0 db r ≡ some s
      → r.source_task_id ≡ none
      → Finishes between
      → is_ended (ticks sv between (suc r.n) s.db s.run).status ≡ true
  unfolding new_run
  run_variance_ends sv0 sv between db r s h own finishes =
      let (template, same) = run_variance_run sv0 db r h in
      let first : IsSized db (new_run r template) = record {
        children_there = tt;
        at_most_n = omega arith;
      } in
      let (over, sized, n, within) =
        advance_variance_run-IsSized sv0 db (new_run r template) first in
      let same_n : s.run.n ≡ r.n = sym (ap (λ (x : Step J). x.run.n) same) ∙ n in
      ticks_end sv between (suc r.n) s.db s.run finishes
        (sym (ap (λ (x : Step J). x.run.source_task_id) same)
          ∙ (source-advance_variance_run sv0 db (new_run r template) first ∙ own))
        (subst (λ (x : Step J). IsSized x.db x.run) same sized) (omega (arith, same_n))
