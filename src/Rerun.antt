-- ===== src/Rerun.antt =====
-- Tasks and configurations of backend/app/orchestrator/rerun.py, with the tables that the runs over copies
-- use. A configuration is a JSON object, `none` stands for an exception, and identifiers are
-- numbers that have texts.
pub mod Clone
pub mod Keys
pub mod Copies
use eval_hive.Base.{
  ℕ, suc, ◌+◌, Bool, true, false, ◌&&◌, ◌||◌, not, Option, none, some, List, [], ◌∷◌, ◌++◌, map,
  Text, codes, ◌==◌, nat_eq, text_eq, if◌then◌else◌, take, sorted, text_le,
}
use eval_hive.Loops.Keys.{is_empty}
use eval_hive.Attempts.Store.{TaskStatus, update}

-- The harness that an attempt ran with, or another object under that key.
pub record Snapshot (J : Type 0) : Type 0 where
  pub profile_id : Option Text
  pub execution_mode : Option Text
  pub credential_roles : List Text
  pub details : J

-- A JSON value: another one is known by whether it counts as true.
pub data Value (J : Type 0) : Type 0 where
  text : Text → Value J
  flag : Bool → Value J
  names : List Text → Value J
  snapshot : Snapshot J → Value J
  json : Bool → J → Value J
  null : Value J

abbrev pub Config : Type 0 → Type 0
Config J = List (Text × Value J)

pub record Task (J : Type 0) : Type 0 where
  pub id : ℕ
  pub workspace_id : ℕ
  pub title : Text
  pub description : Option Text
  pub priority : ℕ
  pub reference_answer : Option Text
  pub canonical_trajectory : Option J
  pub capability_spec : Option J
  pub replay_of_task_id : Option ℕ
  pub run_config : Option (Config J)
  pub template_id : Option ℕ
  pub harness_profile_id : Option ℕ
  pub execution_mode : Option (Value J)
  pub current_attempt_id : Option ℕ
  pub max_retries : ℕ
  pub status : TaskStatus
  pub cost_usd : Option ℕ

-- A judged dimension of a quality record: its score and what the judge cost.
pub record Profile : Type 0 where
  pub score : Option ℕ
  pub judge_cost : ℕ

pub record QualityRecord : Type 0 where
  pub quality : Option Profile
  pub trajectory : Option Profile

-- The tables: the tasks, the next new identifier, the workspaces of the harness profiles, the harness of
-- each attempt as backend/app/harnesses/provenance.py reads it, with the roles of its credentials, and the
-- quality records.
pub record Db (J : Type 0) : Type 0 where
  pub tasks : ℕ → Option (Task J)
  pub next_id : ℕ
  pub profile_workspace : ℕ → Option ℕ
  pub harness_of : ℕ → Option (Snapshot J)
  pub records : ℕ → Option QualityRecord

-- Python's `uuid.UUID` and `str` for identifiers.
pub record Texts : Type 0 where
  pub uuid : Text → Option ℕ
  pub text_of : ℕ → Text

pub no_names : List Text → Bool
no_names [] = true
no_names (t ∷ l) = false

module _ {J : Type 0} where
  pub truthy : Value J → Bool
  truthy (text t) = not (is_empty t)
  truthy (flag b) = b
  truthy (names l) = not (no_names l)
  truthy (snapshot s) = true
  truthy (json b j) = b
  truthy null = false

  pub get : Text → Config J → Option (Value J)
  get k [] = none
  get k ((key, v) ∷ c) = if key == k then some v else get k c

  pub pop : Text → Config J → Config J
  pop k [] = []
  pop k ((key, v) ∷ c) = let rest = pop k c in if key == k then rest else (key, v) ∷ rest

  -- `c[k] = v`, and `c.update(d)`
  pub assign : Text → Value J → Config J → Config J
  assign k v [] = (k, v) ∷ []
  assign k v ((key, u) ∷ c) =
      let rest = assign k v c in if key == k then (key, v) ∷ c else (key, u) ∷ rest

  pub merge : Config J → Config J → Config J
  unfolding assign
  merge c [] = c
  merge c ((k, v) ∷ d) = merge (assign k v c) d

  -- Whether `c.get(k)` counts as true.
  pub has : Text → Config J → Bool
  unfolding get truthy
  has k c = elim (get k c) [ none ↦ false | some v ↦ truthy v ]

  pub pop_all : List Text → Config J → Config J
  unfolding pop
  pop_all [] c = c
  pop_all (k ∷ ks) c = pop_all ks (pop k c)

  pub config_keys : Config J → List Text
  config_keys [] = []
  config_keys ((k, v) ∷ c) = k ∷ config_keys c

  -- `_coerce_uuid`
  pub coerce_uuid : Texts → Option (Value J) → Option (Option ℕ)
  coerce_uuid tx none = some none
  coerce_uuid tx (some null) = some none
  coerce_uuid tx (some (text t)) =
      if is_empty t then some none else elim (tx.uuid t) [ none ↦ none | some i ↦ some (some i) ]
  coerce_uuid tx (some v) = none

  abbrev pub or_empty : Option (Config J) → Config J
  or_empty none = []
  or_empty (some c) = c
