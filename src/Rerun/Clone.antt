-- ===== src/Rerun/Clone.antt =====
-- The copy of a task that runs it again: `clone_task_for_rerun` of backend/app/orchestrator/rerun.py.
use eval_hive.Base.{
  ℕ, ◌+◌, Bool, true, false, ◌||◌, Option, none, some, List, [], ◌∷◌, ◌++◌, Text, codes, ◌==◌,
  nat_eq, text_eq, if◌then◌else◌, take, sorted, text_le,
}
use eval_hive.Loops.Keys.{is_empty}
use eval_hive.Attempts.Store.{TaskStatus, update}
use eval_hive.Rerun.{
  text, flag, names, snapshot, json, null, Snapshot, Value, Config, Task, Db, Texts, no_names,
  truthy, get, assign, merge, has, pop_all, config_keys, coerce_uuid, or_empty,
}

-- What a caller of `clone_task_for_rerun` may give.
pub record Overrides (J : Type 0) : Type 0 where
  pub config : Option (Config J)
  pub title : Option Text
  pub description : Option Text
  pub title_suffix : Text
  pub max_retries : ℕ
  pub status : TaskStatus

abbrev or_text : Option Text → Text → Text
or_text none t = t
or_text (some s) t = s

abbrev pub is_given : Option Text → Bool
is_given none = false
is_given (some t) = true

abbrev pub dropped_keys : List Text
dropped_keys =
    codes "experiment"
    ∷ codes "network_mode"
    ∷ codes "harness_snapshot"
    ∷ codes "new_harness_conditions"
    ∷ codes "replay_input_override"
    ∷ codes "replay_overrides"
    ∷ []

module _ {J : Type 0} where
  -- The configuration before a harness is chosen: `given` is the caller's, `edited` whether it gives a title or a
  -- description.
  unfoldable pub base_config : Option (Config J) → Option (Config J) → Bool → Config J
  unfolding pop_all merge assign config_keys get
  base_config own given edited =
      let c =
        assign (codes "replay_overrides") (names (sorted text_le (config_keys (or_empty given))))
          (merge (pop_all dropped_keys (or_empty own)) (or_empty given)) in
      let c1 : Config J = elim (get (codes "harness_profile_id") (or_empty given)) [
        | none ↦ c
        | some v ↦ assign (codes "new_harness_conditions") (flag true) c
      ] in
      if edited then assign (codes "replay_input_override") (flag true) c1 else c1

  -- The harness of the source's attempt is frozen, unless the caller chooses one or new conditions hold.
  unfoldable pub with_harness : Db J → Task J → Option (Config J) → Config J → Config J
  unfolding has assign
  with_harness db source given c =
      let chosen =
        has (codes "harness_profile_id") (or_empty given)
        || has (codes "new_harness_conditions") c
        || has (codes "harness_snapshot") (or_empty given) in
      elim source.current_attempt_id [
        | none ↦ c
        | some k ↦ if chosen then c else elim (db.harness_of k) [
          | none ↦ c
          | some s ↦ assign (codes "harness_snapshot") (snapshot s) c
        ]
      ]

  -- New conditions leave nothing of the old harness.
  unfoldable pub new_conditions : Config J → Config J
  unfolding has pop_all
  new_conditions c =
      if has (codes "new_harness_conditions") c
      then pop_all (codes "harness_snapshot" ∷ codes "harness_config" ∷ codes "agent_image" ∷ []) c
      else c

  -- The template of the copy, and the configuration that names it.
  unfoldable pub pin_template : Texts → Task J → Config J → Option (Option ℕ × Config J)
  unfolding has coerce_uuid assign get
  pin_template tx source c =
      if has (codes "template_id") c
      then elim (coerce_uuid tx (get (codes "template_id") c)) [
        | none ↦ none
        | some k ↦ some (k, c)
      ]
      else some (elim source.template_id [
        | none ↦ (none, c)
        | some k ↦ (some k, assign (codes "template_id") (text (tx.text_of k)) c)
      ])

  -- `rc.get("harness_snapshot") or {}`, which has to be an object.
  pub frozen_snapshot : Config J → Option (Option (Snapshot J))
  unfolding get truthy
  frozen_snapshot c = elim (get (codes "harness_snapshot") c) [
    | none ↦ some none
    | some (snapshot s) ↦ some (some s)
    | some (text t) ↦ if is_empty t then some none else none
    | some (flag b) ↦ if b then none else some none
    | some (names l) ↦ if no_names l then some none else none
    | some (json b j) ↦ if b then none else some none
    | some null ↦ some none
  ]

  abbrev profile_text : Option (Snapshot J) → Option (Value J)
  profile_text none = none
  profile_text (some s) = elim s.profile_id [ none ↦ none | some t ↦ some (text t) ]

  abbrev pub mode_text : Option (Snapshot J) → Option (Value J)
  mode_text none = none
  mode_text (some s) = elim s.execution_mode [ none ↦ none | some t ↦ some (text t) ]

  -- The harness profile of the copy.
  pub choose_profile : Texts → Task J → Config J → Option (Snapshot J) → Option (Option ℕ)
  unfolding has coerce_uuid get
  choose_profile tx source c frozen =
      if has (codes "new_harness_conditions") c
      then coerce_uuid tx (get (codes "harness_profile_id") c)
      else elim (coerce_uuid tx (profile_text frozen)) [
        | none ↦ none
        | some none ↦ some source.harness_profile_id
        | some (some k) ↦ some (some k)
      ]

  pub profile_available : Db J → Task J → Option ℕ → Bool
  profile_available db source none = true
  profile_available db source (some k) = elim (db.profile_workspace k) [
    | none ↦ false
    | some w ↦ w == source.workspace_id
  ]

  -- The first of two values that counts as true, or the last.
  abbrev pub or_else : Option (Value J) → Option (Value J) → Option (Value J)
  or_else none w = w
  or_else (some v) w = if truthy v then some v else w

  -- The row that is added.
  unfoldable pub add_task : Task J → Db J → Db J × ℕ
  add_task t db = (
    record db {
      tasks = update db.tasks db.next_id (some (record t { id = db.next_id }));
      next_id = db.next_id + 1;
    },
    db.next_id,
  )

  abbrev pub non_empty : Config J → Option (Config J)
  non_empty [] = none
  non_empty (kv ∷ c) = some (kv ∷ c)

  unfoldable pub copy_of :
      Task J → Overrides J → Option ℕ → Option ℕ → Option (Value J) → Config J → Task J
  copy_of source o template profile mode c = record {
    id = source.id;
    workspace_id = source.workspace_id;
    title = take 500 (or_text o.title source.title ++ o.title_suffix);
    description = elim o.description [ none ↦ source.description | some t ↦ some t ];
    priority = source.priority;
    reference_answer = source.reference_answer;
    canonical_trajectory = source.canonical_trajectory;
    capability_spec = source.capability_spec;
    replay_of_task_id = some source.id;
    run_config = non_empty c;
    template_id = template;
    harness_profile_id = profile;
    execution_mode = mode;
    current_attempt_id = none;
    max_retries = o.max_retries;
    status = o.status;
    cost_usd = none;
  }

  unfoldable pub clone_task_for_rerun : Texts → Db J → Task J → Overrides J → Option (Db J × ℕ)
  unfolding base_config with_harness new_conditions pin_template frozen_snapshot choose_profile
      profile_available add_task copy_of
  clone_task_for_rerun tx db source o =
      let c = new_conditions (
        with_harness db source o.config
          (base_config source.run_config o.config (is_given o.title || is_given o.description))) in
      elim (pin_template tx source c) [
        | none ↦ none
        | some (template, c1) ↦ elim (frozen_snapshot c1) [
          | none ↦ none
          | some frozen ↦ elim (choose_profile tx source c1 frozen) [
            | none ↦ none
            | some profile ↦
                if profile_available db source profile
                then some (
                    add_task
                      (copy_of source o template profile
                        (or_else (get (codes "execution_mode") c1)
                          (or_else (mode_text frozen) source.execution_mode))
                        c1)
                      db)
                else none
          ]
        ]
      ]
