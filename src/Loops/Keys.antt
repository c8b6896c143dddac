-- ===== src/Loops/Keys.antt =====
-- Steps of a cleaned trace, and `_action_key` of backend/app/quality/trace_loops.py. The arguments of a
-- call are an abstract type; `digest` stands for the first 32 hexadecimal digits of the sha256 of
-- their canonical JSON, which the standard library computes.
use eval_hive.Base.{
  ℕ, zero, suc, ◌+◌, ◌/◌, ◌%◌, Bool, true, false, ◌&&◌, not, Option, none, some, List, [], ◌∷◌,
  ◌++◌, Text, codes, ◌==◌, text_eq, if◌then◌else◌, ltb,
}

-- `attempt` of a step: left out, a number, or what `int` refuses.
pub data AttemptField : Type 0 where
  absent malformed : AttemptField
  number : ℕ → AttemptField

pub record StepFields (A : Type 0) : Type 0 where
  pub kind : Text
  pub tool_name : Option Text
  pub arguments : Option A
  pub attempt : AttemptField

pub data Step (A : Type 0) : Type 0 where
  not_a_dict : Step A
  dict : StepFields A → Step A

-- A tool step, with its name.
pub record Call (A : Type 0) : Type 0 where
  pub tool : Text
  pub arguments : Option A
  pub attempt : AttemptField

unfoldable pub is_empty : Text → Bool
is_empty [] = true
is_empty (c ∷ cs) = false

-- `str` of a number.
unfoldable pub decimal_fuel : ℕ → ℕ → Text
decimal_fuel zero n = []
decimal_fuel (suc f) n =
    let upper = decimal_fuel f (n / 10) in
    if ltb n 10 then (n + 48) ∷ [] else upper ++ (n % 10 + 48) ∷ []

unfoldable pub decimal : ℕ → Text
unfolding decimal_fuel
decimal n = decimal_fuel (suc n) n

module _ {A : Type 0} where
  -- `s.get("kind") == "tool" and s.get("tool_name")`
  unfoldable pub as_call : Step A → Option (Call A)
  unfolding is_empty
  as_call not_a_dict = none
  as_call (dict s) = elim s.tool_name [
    | none ↦ none
    | some name ↦
        if (s.kind == codes "tool") && not (is_empty name)
        then some (record { tool = name; arguments = s.arguments; attempt = s.attempt })
        else none
  ]

  unfoldable pub tool_calls : List (Step A) → List (Call A)
  unfolding as_call
  tool_calls [] = []
  tool_calls (s ∷ l) =
      let rest = tool_calls l in elim (as_call s) [ none ↦ rest | some c ↦ c ∷ rest ]

  -- The identity of a call. Where the arguments were not recorded it is that of the position.
  unfoldable pub action_key : (A → Text) → Text → Option A → ℕ → Text
  action_key digest tool none index = tool ++ (codes " @" ++ decimal index)
  action_key digest tool (some a) index = tool ++ (codes " " ++ digest a)
