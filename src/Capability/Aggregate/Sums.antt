-- ===== src/Capability/Aggregate/Sums.antt =====
-- The counts of `aggregate_capability`, against a count of the records.
use eval_hive.Base.{
  ℕ, ◌+◌, ◌≡◌, subst, Bool, true, false, ◌&&◌, Option, none, some, List, [], ◌∷◌, Text, codes, ◌==◌,
  text_eq, if◌then◌else◌, refl, arith, Option-cases, Bool-cases, inl, inr, ==→≡,
}
use eval_hive.Capability.{Class, genuine, cheated, failed_with_tool, failed_no_tool}
use eval_hive.Capability.Aggregate.{
  Counts, blank_counts, add_class, Buckets, add_to, Record, Filters, or_text, category_of,
  counted_class, Aggregate, template_of, add_record, aggregate_from, aggregate_capability,
}

-- One of the counts of a bucket: that of a class, or the total.
abbrev pub count_in : Option Class → Counts → ℕ
count_in none b = b.total
count_in (some genuine) b = b.genuine
count_in (some cheated) b = b.cheated
count_in (some failed_with_tool) b = b.failed_with_tool
count_in (some failed_no_tool) b = b.failed_no_tool

-- Whether a record of the class belongs to the count.
abbrev pub belongs : Option Class → Class → Bool
belongs none c = true
belongs (some genuine) genuine = true
belongs (some cheated) cheated = true
belongs (some failed_with_tool) failed_with_tool = true
belongs (some failed_no_tool) failed_no_tool = true
belongs (some o) c = false

-- The bucket of a key, blank where there is none.
pub bucket : Text → Buckets → Counts
bucket k [] = blank_counts
bucket k ((j, b) ∷ t) = if j == k then b else bucket k t

pub sum_of : Option Class → Buckets → ℕ
sum_of o [] = 0
sum_of o ((k, b) ∷ t) = count_in o b + sum_of o t

-- How many of the records that count pass the test and belong to the count.
pub count_records : Filters → Option Class → (Record → Bool) → List Record → ℕ
count_records q o p [] = 0
count_records q o p (r ∷ l) =
    elim (counted_class q r) [ none ↦ 0 | some c ↦ if belongs o c && p r then 1 else 0 ]
    + count_records q o p l

abbrev pub model_of : Record → Text
model_of r = or_text r.model_used (codes "unknown")

count_in-add_class :
    (o : Option Class) (c : Class) (b : Counts)
    → count_in o (add_class c b) ≡ count_in o b + (if belongs o c then 1 else 0)
unfolding add_class
count_in-add_class o c b = ground arith

count_in-blank : (o : Option Class) → count_in o blank_counts ≡ 0
count_in-blank o = ground arith

bucket-add_to :
    (o : Option Class) (k j : Text) (c : Class) (t : Buckets)
    → count_in o (bucket k (add_to j c t))
      ≡ count_in o (bucket k t) + (if belongs o c && (j == k) then 1 else 0)
unfolding bucket add_to
bucket-add_to o k j c [] = ground (arith, count_in-add_class o c blank_counts, count_in-blank o)
bucket-add_to o k j c ((i, b) ∷ t) = elim (Bool-cases (i == j)) [
  | inl here ↦
      let e : i ≡ j = ==→≡ i j here in
      rw e (ground (arith, count_in-add_class o c b, text_eq.equals_iff j j))
  | inr there ↦ ground (
    arith,
    bucket-add_to o k j c t,
    text_eq.equals_iff i j,
    text_eq.equals_iff i k,
    text_eq.equals_iff j k,
  )
]

sum_of-add_to :
    (o : Option Class) (k : Text) (c : Class) (t : Buckets)
    → sum_of o (add_to k c t) ≡ sum_of o t + (if belongs o c then 1 else 0)
unfolding sum_of add_to
sum_of-add_to o k c [] = ground (arith, count_in-add_class o c blank_counts, count_in-blank o)
sum_of-add_to o k c ((j, b) ∷ t) = ground (arith, count_in-add_class o c b, sum_of-add_to o k c t)

-- A breakdown by a key of the records, against the records `l` on top of the breakdown `t0`.
record Grows (q : Filters) (key : Record → Text) (l : List Record) (t0 t : Buckets) : Type 0 where
  each :
      (o : Option Class) (k : Text)
      → count_in o (bucket k t) ≡ count_in o (bucket k t0) + count_records q o (λ r. key r == k) l
  sum : (o : Option Class) → sum_of o t ≡ sum_of o t0 + count_records q o (λ r. true) l

-- One record, and then the others.
Grows-none :
    (q : Filters) (key : Record → Text) (r : Record) (l : List Record) (t0 t : Buckets)
    → counted_class q r ≡ none
    → Grows q key l t0 t
    → Grows q key (r ∷ l) t0 t
unfolding count_records
Grows-none q key r l t0 t e g = record {
  each = λ o k. ground (arith, e, g.each o k);
  sum = λ o. ground (arith, e, g.sum o);
}

Grows-some :
    (q : Filters) (key : Record → Text) (r : Record) (l : List Record) (t0 t : Buckets) {c : Class}
    → counted_class q r ≡ some c
    → Grows q key l (add_to (key r) c t0) t
    → Grows q key (r ∷ l) t0 t
unfolding count_records
Grows-some q key r l t0 t {c} e g = record {
  each = λ o k. ground (arith, e, g.each o k, bucket-add_to o k (key r) c t0);
  sum = λ o. ground (arith, e, g.sum o, sum_of-add_to o (key r) c t0);
}

record Grown (q : Filters) (l : List Record) (a a' : Aggregate) : Type 0 where
  overall :
      (o : Option Class)
      → count_in o a'.overall ≡ count_in o a.overall + count_records q o (λ r. true) l
  categories : Grows q category_of l a.by_category a'.by_category
  models : Grows q model_of l a.by_model a'.by_model
  templates : Grows q template_of l a.by_template a'.by_template

aggregate_from-Grown :
    (q : Filters) (a : Aggregate) (l : List Record) → Grown q l a (aggregate_from q a l)
unfolding aggregate_from count_records
aggregate_from-Grown q a [] = record {
  overall = λ o. omega arith;
  categories = record { each = λ o k. omega arith; sum = λ o. omega arith };
  models = record { each = λ o k. omega arith; sum = λ o. omega arith };
  templates = record { each = λ o k. omega arith; sum = λ o. omega arith };
}
aggregate_from-Grown q a (r ∷ l) =
    let g = aggregate_from-Grown q (add_record q r a) l in
    elim (Option-cases (counted_class q r)) [
      | inl e ↦
          let same : add_record q r a ≡ a = rw (add_record, e) refl in
          let h : Grown q l a (aggregate_from q (add_record q r a) l) =
            subst (λ x. Grown q l x (aggregate_from q (add_record q r a) l)) same g in
          record {
            overall = λ o. ground (arith, e, h.overall o);
            categories = Grows-none q category_of r l _ _ e h.categories;
            models = Grows-none q model_of r l _ _ e h.models;
            templates = Grows-none q template_of r l _ _ e h.templates;
          }
      | inr (c, e) ↦
          let added : Aggregate = record {
            overall = add_class c a.overall;
            by_category = add_to (category_of r) c a.by_category;
            by_model = add_to (model_of r) c a.by_model;
            by_template = add_to (template_of r) c a.by_template;
          } in
          let same : add_record q r a ≡ added = rw (add_record, e) refl in
          let h : Grown q l added (aggregate_from q (add_record q r a) l) =
            subst (λ x. Grown q l x (aggregate_from q (add_record q r a) l)) same g in
          record {
            overall = λ o. ground (arith, e, h.overall o, count_in-add_class o c a.overall);
            categories = Grows-some q category_of r l _ _ e h.categories;
            models = Grows-some q model_of r l _ _ e h.models;
            templates = Grows-some q template_of r l _ _ e h.templates;
          }
    ]

-- A breakdown of the records by a key.
pub record IsBreakdown (q : Filters) (key : Record → Text) (l : List Record) (all : Counts)
    (t : Buckets) : Type 0 where
  pub each :
      (o : Option Class) (k : Text)
      → count_in o (bucket k t) ≡ count_records q o (λ r. key r == k) l
  pub adds_up : (o : Option Class) → sum_of o t ≡ count_in o all

breakdown :
    (q : Filters) (key : Record → Text) (l : List Record) (all : Counts) (t : Buckets)
    → ((o : Option Class) → count_in o all ≡ count_records q o (λ r. true) l)
    → Grows q key l [] t
    → IsBreakdown q key l all t
unfolding bucket sum_of
breakdown q key l all t whole g = record {
  each = λ o k. omega (arith, g.each o k, count_in-blank o);
  adds_up = λ o. omega (arith, g.sum o, whole o);
}

-- Each count of the workspace, for each of the four classes and in total, is the number of the records
-- that are counted and belong to it. Each count of a bucket by category, by model and by template is the
-- number of those of them that have the key of the bucket, and the buckets of each breakdown add up to
-- the count of the workspace.
pub aggregate_capability-AddsUp :
    (q : Filters) (l : List Record)
    → let a = aggregate_capability q l in
      ((o : Option Class) → count_in o a.overall ≡ count_records q o (λ r. true) l)
      × IsBreakdown q category_of l a.overall a.by_category
      × IsBreakdown q model_of l a.overall a.by_model
      × IsBreakdown q template_of l a.overall a.by_template
unfolding aggregate_capability
aggregate_capability-AddsUp q l =
    let start : Aggregate = record {
      overall = blank_counts;
      by_category = [];
      by_model = [];
      by_template = [];
    } in
    let g = aggregate_from-Grown q start l in
    let whole : (o : Option Class)
        → count_in o (aggregate_from q start l).overall ≡ count_records q o (λ r. true) l =
      λ o. omega (arith, g.overall o, count_in-blank o) in
    (
      whole,
      breakdown q category_of l _ _ whole g.categories,
      breakdown q model_of l _ _ whole g.models,
      breakdown q template_of l _ _ whole g.templates,
    )
