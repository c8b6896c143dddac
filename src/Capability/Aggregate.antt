-- ===== src/Capability/Aggregate.antt =====
-- `aggregate_capability` of backend/app/quality/capability.py. The score of a bucket is the rounded quotient
-- of two of its counts, which stay apart here.
pub mod Sums
use eval_hive.Base.{
  ℕ, ◌+◌, ◌≡◌, Bool, true, false, ◌&&◌, ◌||◌, Option, none, some, List, [], ◌∷◌, Text, codes, ◌==◌,
  nat_eq, text_eq, if◌then◌else◌, refl, arith, Option-cases, inl, inr,
}
use eval_hive.Loops.Keys.{is_empty}
use eval_hive.Capability.{Class, CapabilityProfile}

pub record Counts : Type 0 where
  pub genuine : ℕ
  pub cheated : ℕ
  pub failed_with_tool : ℕ
  pub failed_no_tool : ℕ
  pub total : ℕ

-- `_blank_counts`
abbrev pub blank_counts : Counts
blank_counts = record {
  genuine = 0;
  cheated = 0;
  failed_with_tool = 0;
  failed_no_tool = 0;
  total = 0;
}

-- bucket[cls] += 1; bucket["total"] += 1
unfoldable pub add_class : Class → Counts → Counts
add_class Class.genuine b = record b { genuine = b.genuine + 1; total = b.total + 1 }
add_class Class.cheated b = record b { cheated = b.cheated + 1; total = b.total + 1 }
add_class Class.failed_with_tool b = record b {
  failed_with_tool = b.failed_with_tool + 1;
  total = b.total + 1;
}
add_class Class.failed_no_tool b = record b {
  failed_no_tool = b.failed_no_tool + 1;
  total = b.total + 1;
}

abbrev pub Buckets : Type 0
Buckets = List (Text × Counts)

-- `setdefault`, and the change of the bucket
pub add_to : Text → Class → Buckets → Buckets
unfolding add_class
add_to k c [] = (k, add_class c blank_counts) ∷ []
add_to k c ((j, b) ∷ t) =
    let rest = add_to k c t in if j == k then (j, add_class c b) ∷ t else (j, b) ∷ rest

-- A quality record with a capability profile.
pub record Record : Type 0 where
  pub workspace_id : ℕ
  pub model_used : Option Text
  pub template_name : Option Text
  pub template_id : Option Text
  pub benchmark_suite : Option Text
  pub profile : CapabilityProfile

pub record Filters : Type 0 where
  pub workspace_id : ℕ
  pub category : Option Text
  pub model_used : Option Text
  pub template_id : Option Text
  pub suite : Option Text

-- `x or default`
abbrev pub or_text : Option Text → Text → Text
or_text none d = d
or_text (some t) d = if is_empty t then d else t

abbrev same_text : Option Text → Text → Bool
same_text none t = false
same_text (some s) t = s == t

-- A filter that is not given, or empty, lets everything pass.
abbrev passes : Option Text → Option Text → Bool
passes none v = true
passes (some f) v = is_empty f || same_text v f

abbrev passes_id : Option Text → Option Text → Bool
passes_id none v = true
passes_id (some f) v = same_text v f

-- The query
unfoldable pub is_queried : Filters → Record → Bool
is_queried q r =
    r.workspace_id == q.workspace_id
    && passes q.model_used r.model_used
    && passes_id q.template_id r.template_id
    && passes q.suite r.benchmark_suite

abbrev pub category_of : Record → Text
category_of r = or_text r.profile.spec.category (codes "uncategorized")

-- The class of a record that counts.
unfoldable pub counted_class : Filters → Record → Option Class
unfolding is_queried
counted_class q r = elim r.profile.finding [
  | none ↦ none
  | some f ↦
      if is_queried q r && passes q.category (some (category_of r))
      then some f.classification
      else none
]

pub record Aggregate : Type 0 where
  pub overall : Counts
  pub by_category : Buckets
  pub by_model : Buckets
  pub by_template : Buckets

pub template_of : Record → Text
template_of r = or_text r.template_name (elim r.template_id [ none ↦ codes "unknown" | some t ↦ t ])

unfoldable pub add_record : Filters → Record → Aggregate → Aggregate
unfolding counted_class add_to template_of
add_record q r a = elim (counted_class q r) [
  | none ↦ a
  | some c ↦ record {
    overall = add_class c a.overall;
    by_category = add_to (category_of r) c a.by_category;
    by_model = add_to (or_text r.model_used (codes "unknown")) c a.by_model;
    by_template = add_to (template_of r) c a.by_template;
  }
]

unfoldable pub aggregate_from : Filters → Aggregate → List Record → Aggregate
unfolding add_record
aggregate_from q a [] = a
aggregate_from q a (r ∷ l) = aggregate_from q (add_record q r a) l

-- `aggregate_capability`, before the scores are divided and the keys sorted.
unfoldable pub aggregate_capability : Filters → List Record → Aggregate
unfolding aggregate_from
aggregate_capability q l =
    aggregate_from q
      (record { overall = blank_counts; by_category = []; by_model = []; by_template = [] }) l
