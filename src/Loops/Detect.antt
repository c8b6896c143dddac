-- ===== src/Loops/Detect.antt =====
-- `detect_loops` and `_loop_score` of backend/app/quality/trace_loops.py. The score, in steps of a half, is
-- counted in tenths; the ratio of repeated actions is kept as the number of repeated actions.
pub mod Verdict
use eval_hive.Base.{
  ℕ, zero, suc, ◌+◌, max, ℤ, pos, ◌-ℤ◌, ◌•ℤ◌, max_ℤ, min_ℤ, Bool, true, false, ◌&&◌, ◌||◌, not,
  Option, none, some, List, [], ◌∷◌, ◌++◌, Text, codes, ◌==◌, text_eq, nat_eq, Eq, if◌then◌else◌,
  leb, ltb, length, map,
}
use eval_hive.Loops.Keys.{
  AttemptField, absent, malformed, number, Step, Call, tool_calls, action_key, decimal,
}
use eval_hive.Loops.Runs.{longest_run}
use eval_hive.Loops.Tandem.{Cycle, tandem_cycles}

pub record Report : Type 0 where
  pub n_actions : ℕ
  pub max_repeat_run : ℕ
  pub repeated_actions : ℕ
  max_same_tool_run : ℕ
  pub max_cycle_repeats : ℕ
  pub cycles : List (Cycle Text)
  pub loop_detected : Bool
  pub loop_score : ℤ

-- `_empty(0)`
empty_report : Report
empty_report = record {
  n_actions = 0;
  max_repeat_run = 0;
  repeated_actions = 0;
  max_same_tool_run = 0;
  max_cycle_repeats = 0;
  cycles = [];
  loop_detected = false;
  loop_score = pos 100;
}

-- One of the penalties of `_loop_score`. The difference can be negative.
unfoldable pub penalty : ℕ → ℕ → ℕ → ℤ
penalty weight allowed n = max_ℤ (pos 0) (weight •ℤ (pos n -ℤ pos allowed))

unfoldable pub loop_score : ℕ → ℕ → ℕ → ℤ
unfolding penalty
loop_score max_repeat_run max_cycle_repeats max_same_tool_run =
    pos 100
    -ℤ min_ℤ (pos 100) (
        max_ℤ (max_ℤ (penalty 20 1 max_repeat_run) (penalty 25 1 max_cycle_repeats))
          (penalty 10 3 max_same_tool_run))

-- `int(s.get("attempt") or 1)` for each step
unfoldable pub attempt_number : AttemptField → Option ℕ
attempt_number absent = some 1
attempt_number malformed = none
attempt_number (number zero) = some 1
attempt_number (number (suc n)) = some (suc n)

module _ {A : Type 0} where
  unfoldable pub attempts_of : List (Call A) → Option (List ℕ)
  unfolding attempt_number
  attempts_of [] = some []
  attempts_of (c ∷ l) =
      let rest = attempts_of l in
      elim (attempt_number c.attempt) [
        | none ↦ none
        | some a ↦ elim rest [ none ↦ none | some as' ↦ some (a ∷ as') ]
      ]

  unfoldable pub keys_from : (A → Text) → ℕ → List (Call A) → List Text
  keys_from digest index [] = []
  keys_from digest index (c ∷ l) =
      action_key digest c.tool c.arguments index ∷ keys_from digest (index + 1) l

-- `len(set(attempts)) > 1`
unfoldable pub several : List ℕ → Bool
several [] = false
several (a ∷ []) = false
several (a ∷ (b ∷ l)) = not (a == b) || several (b ∷ l)

-- f"a{a}|{k}"
unfoldable pub tag_keys : List ℕ → List Text → List Text
tag_keys (a ∷ as') (k ∷ ks) = (codes "a" ++ (decimal a ++ (codes "|" ++ k))) ∷ tag_keys as' ks
tag_keys _ _ = []

-- The tool names, cut where the attempt changes.
abbrev push : Text → List (List Text) → List (List Text)
push tool [] = (tool ∷ []) ∷ []
push tool (seg ∷ segs) = (tool ∷ seg) ∷ segs

unfoldable pub segments : List (ℕ × Text) → List (List Text)
segments [] = []
segments ((a, t) ∷ []) = (t ∷ []) ∷ []
segments ((a, t) ∷ ((b, u) ∷ l)) =
    let rest = segments ((b, u) ∷ l) in if a == b then push t rest else (t ∷ []) ∷ rest

unfoldable pub pairs : List ℕ → List Text → List (ℕ × Text)
pairs (a ∷ as') (t ∷ ts) = (a, t) ∷ pairs as' ts
pairs _ _ = []

contains : List Text → Text → Bool
contains [] k = false
contains (x ∷ l) k = (x == k) || contains l k

-- The number of keys that stand earlier in the list.
count_repeated : List Text → List Text → ℕ
unfolding contains
count_repeated seen [] = 0
count_repeated seen (k ∷ l) =
    if contains seen k then 1 + count_repeated seen l else count_repeated (k ∷ seen) l

pub max_same_tool : List (List Text) → ℕ
max_same_tool [] = 1
max_same_tool (seg ∷ l) = max (longest_run seg) (max_same_tool l)

all_cycles : List (List Text) → List (Cycle Text)
all_cycles [] = []
all_cycles (seg ∷ l) = (tandem_cycles seg).0 ++ all_cycles l

unfoldable pub max_cycle : List (List Text) → ℕ
max_cycle [] = 0
max_cycle (seg ∷ l) = max (tandem_cycles seg).1 (max_cycle l)

-- The identities that are compared: those of the calls, with the attempt where there are several.
unfoldable pub tagged : List ℕ → List Text → List Text
unfolding several tag_keys
tagged attempts keys = if several attempts then tag_keys attempts keys else keys

unfoldable pub report : List Text → List Text → List ℕ → Report
unfolding loop_score count_repeated max_same_tool all_cycles max_cycle
report tools keys attempts =
    let segs = segments (pairs attempts tools) in
    let run = longest_run (tagged attempts keys) in
    let cyc = max_cycle segs in
    let same = max_same_tool segs in
    record {
      n_actions = length tools;
      max_repeat_run = run;
      repeated_actions = count_repeated [] (tagged attempts keys);
      max_same_tool_run = same;
      max_cycle_repeats = cyc;
      cycles = all_cycles segs;
      loop_detected = leb 3 run || leb 3 cyc;
      loop_score = loop_score run cyc same;
    }

module _ {A : Type 0} where
  unfoldable pub detect_calls : (A → Text) → List (Call A) → Report
  unfolding report keys_from attempts_of empty_report
  detect_calls digest [] = empty_report
  detect_calls digest (c ∷ l) = elim (attempts_of (c ∷ l)) [
    | none ↦ empty_report
    | some attempts ↦ report (map (λ x. x.tool) (c ∷ l)) (keys_from digest 0 (c ∷ l)) attempts
  ]

  unfoldable pub detect_loops : (A → Text) → List (Step A) → Report
  unfolding detect_calls tool_calls
  detect_loops digest steps = detect_calls digest (tool_calls steps)
