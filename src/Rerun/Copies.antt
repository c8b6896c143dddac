-- ===== src/Rerun/Copies.antt =====
-- What a copy for a rerun has of its source, and what not.
use eval_hive.Base.{
  ◌+◌, ◌||◌, subst, zero, suc, ℕ, ◌≡◌, ◌≢◌, ◌≤◌, nat_eq, text_eq, Option, some, none, refl, [], ◌∷◌,
  Text, codes, arith, Bool-cases, Option-cases, inl, inr, length, take, suc,
}
use eval_hive.Rerun.{Texts, Db, Task, Config, Value, get, or_empty}
use eval_hive.Rerun.Clone.{
  Overrides, clone_task_for_rerun, base_config, pin_template, is_given, add_task, copy_of,
  frozen_snapshot, choose_profile, profile_available, or_else, mode_text, new_conditions,
  with_harness, non_empty,
}
use eval_hive.Rerun.Keys.{
  IsCellKey, base_config-LacksKey, with_harness-LacksKey, new_conditions-LacksKey,
  pin_template-LacksKey,
}

length-take : (n : ℕ) (l : Text) → length (take n l) ≤ n
length-take zero l = ground arith
length-take (suc n) [] = ground arith
length-take (suc n) (x ∷ l) = ground (arith, length-take n l)

module _ {J : Type 0} where
  -- What a call that returns has added.
  clone_task_for_rerun_cases :
      (tx : Texts) (db : Db J) (source : Task J) (o : Overrides J) {r : Db J × ℕ}
      → clone_task_for_rerun tx db source o ≡ some r
      → let c = new_conditions (
          with_harness db source o.config (
            base_config source.run_config o.config (is_given o.title || is_given o.description))) in
        (template : Option ℕ) × (c1 : Config J) × (profile : Option ℕ) × (mode : Option (Value J))
        × (pin_template tx source c ≡ some (template, c1))
        × (add_task (copy_of source o template profile mode c1) db ≡ r)
  unfolding clone_task_for_rerun
  clone_task_for_rerun_cases tx db source o {r} h =
      let c = new_conditions (
        with_harness db source o.config
          (base_config source.run_config o.config (is_given o.title || is_given o.description))) in
      elim (Option-cases (pin_template tx source c)) [
        | inl e ↦ cc
        | inr ((template, c1), e) ↦ elim (Option-cases (frozen_snapshot c1)) [
          | inl e2 ↦ cc
          | inr (frozen, e2) ↦ elim (Option-cases (choose_profile tx source c1 frozen)) [
            | inl e3 ↦ cc
            | inr (profile, e3) ↦ elim (Bool-cases (profile_available db source profile)) [
              | inr e4 ↦ cc
              | inl e4 ↦ (
                template,
                c1,
                profile,
                or_else (get (codes "execution_mode") c1)
                    (or_else (mode_text frozen) source.execution_mode),
                e,
                ground (arith, e, e2, e3, e4, h),
              )
            ]
          ]
        ]
      ]

  -- The tables and the identifier after a copy.
  pub record IsCopy (db : Db J) (source : Task J) (o : Overrides J) (db' : Db J) (j : ℕ)
      : Type 0 where
    pub copy : Task J
    pub new : j ≡ db.next_id
    pub others_stay : (i : ℕ) → i ≢ db.next_id → db'.tasks i ≡ db.tasks i
    pub next : db'.next_id ≡ db.next_id + 1
    pub found : db'.tasks j ≡ some copy
    pub named : copy.id ≡ j
    pub same_workspace : copy.workspace_id ≡ source.workspace_id
    pub names_source : copy.replay_of_task_id ≡ some source.id
    pub short_title : length copy.title ≤ 500
    pub given_retries : copy.max_retries ≡ o.max_retries
    pub given_status : copy.status ≡ o.status
    pub no_attempt : copy.current_attempt_id ≡ none
    pub no_cost : copy.cost_usd ≡ none
    pub no_cell :
        (k : Text)
        → IsCellKey k
        → get k (or_empty o.config) ≡ none
        → get k (or_empty copy.run_config) ≡ none

  or_empty-non_empty : (c : Config J) → or_empty (non_empty c) ≡ c
  or_empty-non_empty [] = refl
  or_empty-non_empty (kv ∷ c) = refl

  added-IsCopy :
      (db : Db J) (source : Task J) (o : Overrides J) (template profile : Option ℕ)
      (mode : Option (Value J)) (c : Config J)
      → ((k : Text) → IsCellKey k → get k (or_empty o.config) ≡ none → get k c ≡ none)
      → let r = add_task (copy_of source o template profile mode c) db in IsCopy db source o r.0 r.1
  unfolding add_task copy_of
  added-IsCopy db source o template profile mode c cell = record {
    copy = record (copy_of source o template profile mode c) { id = db.next_id };
    new = refl;
    others_stay = λ i ne. ground arith;
    next = refl;
    found = ground arith;
    named = refl;
    same_workspace = refl;
    names_source = refl;
    short_title = length-take 500 _;
    given_retries = refl;
    given_status = refl;
    no_attempt = refl;
    no_cost = refl;
    no_cell = λ k is_cell not_given. rw (or_empty-non_empty c) (cell k is_cell not_given);
  }

  -- A copy is a new task of the same workspace that names its source, with a title of at most 500
  -- characters, the caller's retries and status, no attempt and no cost; its configuration has a key of
  -- an experiment's cell only if the caller gives it; and no other task changes.
  pub clone_task_for_rerun-IsCopy :
      (tx : Texts) (db : Db J) (source : Task J) (o : Overrides J) {r : Db J × ℕ}
      → clone_task_for_rerun tx db source o ≡ some r
      → IsCopy db source o r.0 r.1
  clone_task_for_rerun-IsCopy tx db source o {r} h =
      let (template, c1, profile, mode, pinned, added) =
        clone_task_for_rerun_cases tx db source o h in
      subst (λ (x : Db J × ℕ). IsCopy db source o x.0 x.1) added
        (added-IsCopy db source o template profile mode c1 (λ k is_cell not_given.
          pin_template-LacksKey k is_cell tx source _ pinned (
            new_conditions-LacksKey k is_cell _ (
              with_harness-LacksKey k is_cell db source o.config _ (
                base_config-LacksKey k is_cell source.run_config o.config
                  (is_given o.title || is_given o.description) not_given)))))
