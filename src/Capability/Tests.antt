-- ===== src/Capability/Tests.antt =====
-- A task that needs a web search, solved with a tool of a server, and the counts of two records.
use eval_hive.Base.{
  List, Option, ℕ, ◌≡◌, refl, true, false, ◌&&◌, none, some, [], ◌∷◌, ◌++◌, codes, text_beq,
}
use eval_hive.Loops.Keys.{is_empty}
use eval_hive.Capability.{
  Strings, GivenSpec, Spec, Evidence, Finding, Class, genuine, match_all, normalize_spec,
  outcome_from_profile, evaluate_task_capability, tool_used,
}
use eval_hive.Capability.Tools.{calls_suffice, evaluate_task_capability_exact}
use eval_hive.Capability.Aggregate.{
  Filters, Record, aggregate_capability, aggregate_from, add_record, add_class, is_queried,
  category_of, template_of, counted_class,
}
use eval_hive.Capability.Aggregate.Sums.{
  count_in, count_records, model_of, IsBreakdown, aggregate_capability-AddsUp,
}

abbrev strings : Strings
strings = record { strip = λ t. t; lower = λ t. t }

abbrev given : GivenSpec
given = record {
  required_tools = some (codes "web_search" ∷ codes "" ∷ []);
  category = none;
  mode = none;
}

abbrev spec : Spec
spec = record { required_tools = codes "web_search" ∷ []; category = none; mode = match_all }

abbrev evidence : Evidence
evidence = record {
  trace_tools = some (codes "web__web_search" ∷ []);
  durable_tools = codes "web__web_search" ∷ codes "now" ∷ [];
  stored = some (record { dimensions = []; weighted_score = some 8 });
  judged = none;
}

usable : normalize_spec strings (some given) ≡ some spec
unfolding normalize_spec is_empty
usable = refl

evaluate_task_capability_exact_example :
    (f : Finding) × (evaluate_task_capability strings 7 (some given) evidence
      ≡ some (record { spec = spec; finding = some f }))
    × (f.outcome ≡ outcome_from_profile evidence.stored 7)
    × (f.passed ≡ (
        f.outcome.correct
        && calls_suffice strings spec.required_tools
            ((codes "web__web_search" ∷ []) ++ evidence.durable_tools)
            spec.mode))
evaluate_task_capability_exact_example =
    evaluate_task_capability_exact strings 7 (some given) evidence spec
      (codes "web__web_search" ∷ []) evidence.stored usable refl refl

-- The name of the tool on the server counts, another name does not.
found_bare :
    (tool_used strings (codes "web_search" ∷ []) (codes "web__web_search" ∷ []) match_all
      ≡ (true, []))
    × (tool_used strings (codes "web_search" ∷ []) (codes "web_search2" ∷ []) match_all
        ≡ (false, codes "web_search" ∷ []))
unfolding tool_used text_beq
found_bare = (refl, refl)

abbrev filters : Filters
filters = record {
  workspace_id = 1;
  category = none;
  model_used = none;
  template_id = none;
  suite = none;
}

abbrev failed_record : Record
failed_record = record {
  workspace_id = 1;
  model_used = none;
  template_name = none;
  template_id = none;
  benchmark_suite = none;
  profile = record { spec = spec; finding = none };
}

abbrev finding : Finding
finding = record {
  tools_called = [];
  used = true;
  missing = [];
  outcome = outcome_from_profile evidence.stored 7;
  classification = genuine;
  passed = true;
}

abbrev genuine_record : Record
genuine_record = record failed_record {
  model_used = some (codes "m");
  profile = record { spec = spec; finding = some finding };
}

abbrev records : List Record
records = failed_record ∷ genuine_record ∷ []

aggregate_capability-AddsUp_example :
    let a = aggregate_capability filters records in
    ((o : Option Class) → count_in o a.overall ≡ count_records filters o (λ r. true) records)
    × IsBreakdown filters category_of records a.overall a.by_category
    × IsBreakdown filters model_of records a.overall a.by_model
    × IsBreakdown filters template_of records a.overall a.by_template
aggregate_capability-AddsUp_example = aggregate_capability-AddsUp filters records

-- The record with a finding is counted.
one_genuine : ◌≡◌ {A = ℕ} ((aggregate_capability filters records).overall.genuine) 1
unfolding aggregate_capability aggregate_from add_record add_class counted_class is_queried
one_genuine = refl
