-- ===== src/Attempts/Sound.antt =====
-- The invariant of the attempt tables. It is what the unique constraints of
-- backend/app/models/execution_attempt.py demand, and that every journal is well formed.
pub mod Change
pub mod Creation
pub mod Operations
use eval_hive.Base.{ℕ, ◌<◌, ◌≡◌, ◌≢◌, refl, false, Option, none, some, List, [], ◌∷◌, All}
use eval_hive.Attempts.Model.{is_terminal, Row, Attempt}
use eval_hive.Attempts.Store.{Task, Db, find_attempt}
use eval_hive.Attempts.Ingest.Contiguous.{IsJournal}

module _ {J : Type 0} where
  abbrev pub current_of : (ℕ → Option (Task J)) → ℕ → Option ℕ
  current_of tasks t = elim (tasks t) [ none ↦ none | some task ↦ task.current_attempt_id ]

  -- Each attempt has a greater number than the older ones of its task.
  abbrev pub IsNumbered : List (Attempt J) → Type 0
  IsNumbered [] = Unit
  IsNumbered (a ∷ l) = All (λ b. b.task_id ≡ a.task_id → b.number < a.number) l × IsNumbered l

  abbrev pub HasUniqueIds : List (Attempt J) → Type 0
  HasUniqueIds [] = Unit
  HasUniqueIds (a ∷ l) = (find_attempt a.id l ≡ none) × HasUniqueIds l

  pub record AreSound (tasks : ℕ → Option (Task J)) (attempts : List (Attempt J))
      (rows : ℕ → List (Row J)) : Type 0 where
    pub journals : All (λ a. IsJournal a (rows a.id)) attempts
    -- an attempt that has not ended is the current one of its task
    pub active :
        All (λ a. is_terminal a.status ≡ false → current_of tasks a.task_id ≡ some a.id) attempts
    pub numbered : IsNumbered attempts
    pub unique : HasUniqueIds attempts
    -- the foreign key of the journal
    pub owned : (k : ℕ) → find_attempt k attempts ≡ none → rows k ≡ []

  abbrev pub IsSound : Db J → Type 0
  IsSound db = AreSound db.tasks db.attempts db.rows
