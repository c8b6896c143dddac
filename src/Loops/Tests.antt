-- ===== src/Loops/Tests.antt =====
-- A trace of six calls that alternates between two tools, and lists of numbers.
use eval_hive.Loops.Keys.{
  Step, dict, Call, tool_calls, as_call, is_empty, action_key, decimal, absent,
}
use eval_hive.Loops.Runs.{HasRun, longest_run, run_loop}
use eval_hive.Loops.Runs.Exact.{longest_run_exact}
use eval_hive.Loops.Tandem.{
  tandem_cycles, scan, scan_periods, scan_starts, probe, repeats_at, is_uniform, count_repeats,
  list_eq,
}
use eval_hive.Loops.Tandem.Exact.{HasCycle, tandem_cycles_exact}
use eval_hive.Loops.Tandem.Display.{DoNotOverlap, tandem_cycles-DoNotOverlap}
use eval_hive.Loops.Detect.{
  loop_score, penalty, attempt_number, attempts_of, keys_from, several, tag_keys, segments, pairs,
  max_cycle, tagged, report, detect_calls, detect_loops,
}
use eval_hive.Loops.Detect.Verdict.{
  InSome, identities, tool_segments, detect_loops_exact, loop_score_bounds,
}
use eval_hive.Base.{
  pos, ◌≤ℤ◌, false, text_beq, true, ◌↔◌, ◌⊎◌, ◌≤◌, length, ℕ, ◌≡◌, refl, List, [], ◌∷◌, Text, codes,
  nat_eq, text_eq, arith, none, some,
}

-- A tool step with a recorded argument.
abbrev tool_step : Text → ℕ → Step ℕ
tool_step name argument = dict (record {
  kind = codes "tool";
  tool_name = some name;
  arguments = some argument;
  attempt = absent;
})

abbrev thought : Step ℕ
thought =
    dict (record { kind = codes "thought"; tool_name = none; arguments = none; attempt = absent })

abbrev read : Text
read = codes "r"

abbrev write : Text
write = codes "w"

abbrev trace : List (Step ℕ)
trace =
    tool_step read 1
    ∷ tool_step write 2
    ∷ thought
    ∷ tool_step read 3
    ∷ tool_step write 4
    ∷ tool_step read 5
    ∷ tool_step write 6
    ∷ []

-- The argument as its own digest.
abbrev digest : ℕ → Text
digest n = n ∷ []

abbrev call : Text → ℕ → Call ℕ
call name argument = record { tool = name; arguments = some argument; attempt = absent }

abbrev later_calls : List (Call ℕ)
later_calls = call write 2 ∷ call read 3 ∷ call write 4 ∷ call read 5 ∷ call write 6 ∷ []

abbrev first_attempt : List ℕ
first_attempt = 1 ∷ 1 ∷ 1 ∷ 1 ∷ 1 ∷ 1 ∷ []

trace_calls : tool_calls trace ≡ call read 1 ∷ later_calls
unfolding tool_calls as_call is_empty text_beq
trace_calls = refl

trace_attempts : attempts_of (call read 1 ∷ later_calls) ≡ some first_attempt
unfolding attempts_of attempt_number
trace_attempts = refl

detect_loops_exact_example : ((detect_loops digest trace).loop_detected ≡ true) ↔ (
    HasRun 3 (identities digest first_attempt (call read 1 ∷ later_calls))
    ⊎ InSome (HasCycle 3) (tool_segments digest first_attempt (call read 1 ∷ later_calls)))
detect_loops_exact_example =
    detect_loops_exact digest trace (call read 1) later_calls first_attempt trace_calls
      trace_attempts

-- The alternation of the trace is a cycle of three rounds.
trace_loops : (detect_loops digest trace).loop_detected ≡ true
unfolding detect_loops detect_calls report tool_calls as_call is_empty text_beq attempts_of
    attempt_number keys_from action_key decimal tagged several tag_keys pairs segments max_cycle
    longest_run run_loop tandem_cycles scan scan_periods scan_starts probe repeats_at is_uniform
    count_repeats list_eq
trace_loops = refl

abbrev runs : List ℕ
runs = 4 ∷ 7 ∷ 7 ∷ 7 ∷ 4 ∷ []

longest_run_exact_example : (3 ≤ longest_run runs) ↔ HasRun 3 runs
longest_run_exact_example = longest_run_exact runs 3 (omega arith)

abbrev rounds : List ℕ
rounds = 9 ∷ 1 ∷ 2 ∷ 1 ∷ 2 ∷ 1 ∷ 2 ∷ []

tandem_cycles_exact_example : (3 ≤ (tandem_cycles rounds).1) ↔ HasCycle 3 rounds
tandem_cycles_exact_example = tandem_cycles_exact rounds 3 (omega arith)

tandem_cycles-DoNotOverlap_example :
    DoNotOverlap (tandem_cycles rounds).0 × (length (tandem_cycles rounds).0 ≤ 5)
tandem_cycles-DoNotOverlap_example = tandem_cycles-DoNotOverlap rounds

loop_score_bounds_example :
    let r = detect_loops digest trace in
    (pos 0 ≤ℤ r.loop_score)
    × (r.loop_score ≤ℤ pos 100)
    × ((r.loop_score ≡ pos 100) ↔ (
        (¬ HasRun 2 (identities digest first_attempt (call read 1 ∷ later_calls)))
        × (¬ InSome (HasCycle 2) (tool_segments digest first_attempt (call read 1 ∷ later_calls)))
        × (¬ InSome (HasRun 4) (tool_segments digest first_attempt (call read 1 ∷ later_calls)))))
    × ((r.loop_detected ≡ false) ⊎ (r.loop_score ≤ℤ pos 60))
loop_score_bounds_example =
    loop_score_bounds digest trace (call read 1) later_calls first_attempt trace_calls
      trace_attempts

-- Three rounds cost two penalties of 2.5.
trace_score : loop_score 1 3 1 ≡ pos 50
unfolding loop_score penalty
trace_score = refl
