-- ===== src/Attempts/Sound/Change.antt =====
-- Lemmas on changing the locked attempt and its rows of the journal.
use eval_hive.Base.{
  ℕ, ◌<◌, ◌≡◌, ◌≢◌, refl, ◌∙◌, none, some, List, [], ◌∷◌, All, arith, ◌==◌, nat_eq, Bool-cases, inl,
  inr, if◌then◌else◌,
}
use eval_hive.Attempts.Model.{Row, Attempt}
use eval_hive.Attempts.Store.{Db, ok, find_attempt, save_attempt}
use eval_hive.Attempts.Ingest.{locked_attempt}
use eval_hive.Attempts.Ingest.Contiguous.{IsJournal, SameKeys}
use eval_hive.Attempts.Sound.{current_of, IsNumbered, HasUniqueIds, AreSound}

module _ {J : Type 0} where
  pub id-find_attempt :
      (k : ℕ) (l : List (Attempt J)) {a : Attempt J} → find_attempt k l ≡ some a → a.id ≡ k
  unfolding find_attempt
  id-find_attempt k [] h = cc
  id-find_attempt k (b ∷ l) {a} h = ground (arith, id-find_attempt k l {a = a})

  pub All-find_attempt :
      (P : Attempt J → Type 0) (k : ℕ) (l : List (Attempt J)) {a : Attempt J}
      → find_attempt k l ≡ some a
      → All P l
      → P a
  unfolding find_attempt
  All-find_attempt P k [] h all = cc
  All-find_attempt P k (b ∷ l) {a} h all = elim (Bool-cases (b.id == k)) [
    | inl here ↦ let same : a ≡ b = ground arith in rw same all.0
    | inr there ↦ All-find_attempt P k l (rw there at h) all.1
  ]

  pub find_attempt-save_attempt :
      (k : ℕ) (l : List (Attempt J)) (a' : Attempt J)
      → find_attempt k (save_attempt a' l) ≡ elim (find_attempt k l) [
        | none ↦ none
        | some a ↦ if a.id == a'.id then some a' else some a
      ]
  unfolding find_attempt save_attempt
  find_attempt-save_attempt k [] a' = refl
  find_attempt-save_attempt k (b ∷ l) a' = ground (arith, find_attempt-save_attempt k l a')

  -- What a locked attempt is.
  pub record Locked (k : ℕ) (db : Db J) (a : Attempt J) : Type 0 where
    pub found : find_attempt k db.attempts ≡ some a
    pub named : a.id ≡ k
    pub is_current : current_of db.tasks a.task_id ≡ some a.id

  pub locked : (k : ℕ) (db : Db J) {a : Attempt J} → locked_attempt k db ≡ ok a → Locked k db a
  unfolding locked_attempt
  locked k db {a} h =
      let found : find_attempt k db.attempts ≡ some a = ground arith in
      record {
        found = found;
        named = id-find_attempt k db.attempts found;
        is_current = ground arith;
      }

  All-save_attempt :
      (P Q : Attempt J → Type 0) (a' : Attempt J) (l : List (Attempt J))
      → Q a'
      → ((b : Attempt J) → b.id ≢ a'.id → P b → Q b)
      → All P l
      → All Q (save_attempt a' l)
  unfolding save_attempt
  All-save_attempt P Q a' [] new keep all = tt
  All-save_attempt P Q a' (b ∷ l) new keep all =
      let rest = All-save_attempt P Q a' l new keep all.1 in
      elim (Bool-cases (b.id == a'.id)) [
        | inl same ↦ rw same (new, rest)
        | inr other ↦ rw other (keep b (λ e. ground (arith, e)) all.0, rest)
      ]

  -- Every row with the identifier of `a'` has its keys.
  abbrev HasKeysOf : Attempt J → List (Attempt J) → Type 0
  HasKeysOf a' l = All (λ b. b.id ≡ a'.id → SameKeys b a') l

  pub absent : (k : ℕ) (l : List (Attempt J)) → find_attempt k l ≡ none → All (λ b. b.id ≢ k) l
  unfolding find_attempt
  absent k [] h = tt
  absent k (b ∷ l) h = elim (Bool-cases (b.id == k)) [
    | inl here ↦ ground arith
    | inr there ↦ (ground arith, absent k l (rw there at h))
  ]

  HasKeysOf-of-absent :
      (a' : Attempt J) (l : List (Attempt J)) → All (λ b. b.id ≢ a'.id) l → HasKeysOf a' l
  HasKeysOf-of-absent a' [] none_there = tt
  HasKeysOf-of-absent a' (b ∷ l) none_there =
      (λ e. absurd (none_there.0 e), HasKeysOf-of-absent a' l none_there.1)

  HasKeysOf-of_unique :
      (a a' : Attempt J) (l : List (Attempt J))
      → HasUniqueIds l
      → SameKeys a a'
      → find_attempt a.id l ≡ some a
      → HasKeysOf a' l
  unfolding find_attempt
  HasKeysOf-of_unique a a' [] u same f = tt
  HasKeysOf-of_unique a a' (b ∷ l) u same f = elim (Bool-cases (b.id == a.id)) [
    | inl here ↦
        let it : b ≡ a = ground arith in
        let gone : find_attempt a'.id l ≡ none = rw (← same.0) (rw (← it) u.0) in
        (λ _. rw it same, HasKeysOf-of-absent a' l (absent a'.id l gone))
    | inr there ↦ (
      λ e. absurd (ground (arith, same.0, e)),
      HasKeysOf-of_unique a a' l u.1 same (rw there at f),
    )
  ]

  abbrev Older : Attempt J → List (Attempt J) → Type 0
  Older a l = All (λ b. b.task_id ≡ a.task_id → b.number < a.number) l

  save_attempt-Older :
      (a a' : Attempt J) (l : List (Attempt J))
      → HasKeysOf a' l
      → Older a l
      → Older a (save_attempt a' l)
  unfolding save_attempt
  save_attempt-Older a a' [] keys o = tt
  save_attempt-Older a a' (b ∷ l) keys o =
      let rest = save_attempt-Older a a' l keys.1 o.1 in
      elim (Bool-cases (b.id == a'.id)) [
        | inl same ↦
            let k = keys.0 (ground arith) in rw same (λ t. rw (← k.2) (o.0 (k.1 ∙ t)), rest)
        | inr other ↦ rw other (o.0, rest)
      ]

  save_attempt-IsNumbered :
      (a' : Attempt J) (l : List (Attempt J))
      → HasKeysOf a' l
      → IsNumbered l
      → IsNumbered (save_attempt a' l)
  unfolding save_attempt
  save_attempt-IsNumbered a' [] keys n = tt
  save_attempt-IsNumbered a' (b ∷ l) keys n =
      let rest = save_attempt-IsNumbered a' l keys.1 n.1 in
      let older = save_attempt-Older b a' l keys.1 n.0 in
      elim (Bool-cases (b.id == a'.id)) [
        | inl same ↦ let k = keys.0 (ground arith) in rw same (rw (← k.1, ← k.2) older, rest)
        | inr other ↦ rw other (older, rest)
      ]

  absent-save_attempt :
      (k : ℕ) (a' : Attempt J) (l : List (Attempt J))
      → find_attempt k l ≡ none
      → find_attempt k (save_attempt a' l) ≡ none
  absent-save_attempt k a' l h = rw (find_attempt-save_attempt k l a') (rw h)

  save_attempt-HasUniqueIds :
      (a' : Attempt J) (l : List (Attempt J)) → HasUniqueIds l → HasUniqueIds (save_attempt a' l)
  unfolding save_attempt
  save_attempt-HasUniqueIds a' [] u = tt
  save_attempt-HasUniqueIds a' (b ∷ l) u =
      let rest = save_attempt-HasUniqueIds a' l u.1 in
      elim (Bool-cases (b.id == a'.id)) [
        | inl same ↦
            let e : b.id ≡ a'.id = ground arith in
            rw same (rw (← e) (absent-save_attempt b.id a' l u.0), rest)
        | inr other ↦ rw other (absent-save_attempt b.id a' l u.0, rest)
      ]

  present-save_attempt :
      (k : ℕ) (a' : Attempt J) (l : List (Attempt J))
      → find_attempt k (save_attempt a' l) ≡ none
      → find_attempt k l ≡ none
  present-save_attempt k a' l h = ground (arith, find_attempt-save_attempt k l a')

  -- The change of a locked attempt and of its rows.
  pub change-AreSound :
      (k : ℕ) (db : Db J) (a a' : Attempt J) (rows : ℕ → List (Row J))
      → Locked k db a
      → SameKeys a a'
      → IsJournal a' (rows a'.id)
      → ((n : ℕ) → n ≢ a'.id → rows n ≡ db.rows n)
      → AreSound db.tasks db.attempts db.rows
      → AreSound db.tasks (save_attempt a' db.attempts) rows
  change-AreSound k db a a' rows l same journal other s = record {
    journals =
        All-save_attempt _ _ a' db.attempts journal (λ b n j. rw (other b.id n) j) s.journals;
    active =
        All-save_attempt _ _ a' db.attempts (λ _. rw (← same.0, ← same.1) (l.is_current))
          (λ b n p. p) s.active;
    numbered =
        save_attempt-IsNumbered a' db.attempts
          (HasKeysOf-of_unique a a' db.attempts s.unique same (simp (l.named) (l.found)))
          s.numbered;
    unique = save_attempt-HasUniqueIds a' db.attempts s.unique;
    owned = λ n h.
        let gone : find_attempt n db.attempts ≡ none = present-save_attempt n a' db.attempts h in
        let m : n ≢ a'.id = λ e. cc (l.found, l.named, same.0) in other n m ∙ s.owned n gone;
  }
