-- ===== src/Failures/Merge.antt =====
-- The reasons of one attempt, merged one after the other.
use eval_hive.Base.{
  if◌then◌else◌, ◌≡◌, refl, Bool, true, false, ◌||◌, Option, none, some, List, [], ◌∷◌, arith, sym,
  ◌∙◌,
}
use eval_hive.Failures.{FailureType, is_contaminated, merge_failure_type}

abbrev pub merge_all : Option FailureType → List (Option FailureType) → Option FailureType
merge_all existing [] = existing
merge_all existing (f ∷ l) = merge_all (merge_failure_type existing f) l

abbrev pub any_contaminated : List (Option FailureType) → Bool
any_contaminated [] = false
any_contaminated (f ∷ l) = is_contaminated f || any_contaminated l

abbrev all_unclassified : List (Option FailureType) → Bool
all_unclassified [] = true
all_unclassified (none ∷ l) = all_unclassified l
all_unclassified (some f ∷ l) = false

merge_contaminated :
    (e f : Option FailureType)
    → is_contaminated (merge_failure_type e f) ≡ (is_contaminated e || is_contaminated f)
unfolding merge_failure_type is_contaminated
merge_contaminated e none = ground arith
merge_contaminated e (some f) = ground arith

-- The last member of the list that has the property.
abbrev last_where : (Option FailureType → Bool) → List (Option FailureType) → Option FailureType
last_where p [] = none
last_where p (f ∷ l) =
    let rest = last_where p l in elim rest [ some x ↦ some x | none ↦ if p f then f else none ]

abbrev is_classified : Option FailureType → Bool
is_classified none = false
is_classified (some f) = true

-- The last contaminating reason, or the last reason where none contaminates.
abbrev pub decisive : List (Option FailureType) → Option FailureType
decisive l = elim (last_where is_contaminated l) [
  | some f ↦ some f
  | none ↦ last_where is_classified l
]

merge-decisive :
    (e f : Option FailureType) (l : List (Option FailureType))
    → decisive (merge_failure_type e f ∷ l) ≡ decisive (e ∷ (f ∷ l))
unfolding merge_failure_type is_contaminated
merge-decisive none none l = ground arith
merge-decisive none (some f) l = ground arith
merge-decisive (some e) none l = ground arith
merge-decisive (some e) (some f) l = ground arith

decisive_one : (e : Option FailureType) → decisive (e ∷ []) ≡ e
unfolding is_contaminated
decisive_one none = refl
decisive_one (some f) = ground arith

-- What is left of the reasons of an attempt, however many there are, is the last contaminating one,
-- and the last one of all where none contaminates. The attempt counts as contaminated exactly when
-- one of its reasons contaminates.
pub merge_all-decisive :
    (e : Option FailureType) (l : List (Option FailureType))
    → (merge_all e l ≡ decisive (e ∷ l))
      × (is_contaminated (merge_all e l) ≡ any_contaminated (e ∷ l))
merge_all-decisive e [] = (sym (decisive_one e), ground arith)
merge_all-decisive e (f ∷ l) =
    let r = merge_all-decisive (merge_failure_type e f) l in
    (r.0 ∙ merge-decisive e f l, ground (arith, r.1, merge_contaminated e f))
