-- ===== src/Lib.antt =====
-- EvalHive runs agents on tasks and measures what they do. This library models the parts of its
-- backend that keep the evidence of a run and that judge it.
--
-- * Attempts is backend/app/harnesses/attempts.py over backend/app/models/execution_attempt.py and
--   the columns of backend/app/models/task.py that it uses. A run of an agent on a task is an attempt;
--   its runner delivers batches of events, which enter a journal, and takes commands. Attempts/Model
--   has the rows, Attempts/Store the tables and the errors, Attempts/Ingest `locked_attempt` and
--   `ingest_events`, Attempts/Create `create_attempt` and `mark_attempt_lost`, Attempts/Control
--   `queue_command`, `acknowledge_command` and `prepare_configuration`. Attempts/Sound states the
--   invariant of the tables and Attempts/History runs any sequence of these calls.
-- * Loops is backend/app/quality/trace_loops.py. Loops/Keys filters the tool calls of a trace and
--   gives each its identity, Loops/Runs measures runs of equal elements, Loops/Tandem is
--   `_tandem_cycles`, and Loops/Detect is `_loop_score` and `detect_loops`.
-- * Trajectory is backend/app/quality/trajectory_match.py. Trajectory/Reference is `parse_reference`
--   with `_topological_order`, Trajectory/Dag is `dag_consistency`, and Trajectory/Match has the other
--   metrics and `match_trajectory`, with lemmas on chains in Trajectory/Match/Chain. It reads
--   the steps of a trace as Loops/Keys describes them.
-- * Failures is backend/app/utils/failures.py: why an attempt failed, what is retried, and which reason stays.
-- * Workflow is backend/app/harnesses/workflow.py with `check_parent_task_completion` of
--   backend/app/orchestrator/engine.py, over the tables of Attempts. Workflow/World has what a worker
--   sees, Workflow/Parent the completion of a parent task, Workflow/Stages archiving and the decision of a
--   review, and Workflow/Continue `continue_workflow`. Workflow/Locks, Workflow/Ended and
--   Workflow/Settle, and Workflow/Holds, Workflow/Invariant and Workflow/Promises prove its theorems.
-- * Rerun is backend/app/orchestrator/rerun.py: the copy of a task with its configuration. Rerun/Clone is
--   `clone_task_for_rerun`; Rerun/Keys and Rerun/Copies have its lemmas.
-- * Variance is backend/app/quality/variance.py with backend/app/quality/runs_common.py. Its children are copies of
--   Rerun or tasks of a specification; Variance/Advance is the step of a run. Variance/Liveness repeats the
--   step with what happens between two ticks of the scheduler.
-- * Ranking is backend/app/quality/aggregation.py, and Ranking/Matches and Ranking/Versions are
--   backend/app/quality/ranking.py, which leaves out the tasks that Failures calls contaminated.
-- * Capability is backend/app/quality/capability.py: whether the tools that a task needs were called, and the
--   counts over a workspace in Capability/Aggregate, with their lemmas in Capability/Aggregate/Sums.
--
-- A handler that raises returns an error without tables, since the code runs in a savepoint or raises
-- before it writes. Row locks make each call atomic, so that an interleaving of workers is a sequence
-- of calls. JSON values are an abstract type with equality; identifiers and times are numbers. The
-- checks of the harness SDK, the search for secrets, sha256, the clock, the similarity of difflib and the
-- normalization of names are parameters, on which no theorem makes an assumption.
--
-- The inner loop of `_tandem_cycles` runs on fuel, the length of the list: each round consumes at
-- least one more element, and so that it stops before the fuel does. The loop of
-- `_topological_order` has fuel for one node more than there are, since the code refuses a longer order.
--
-- A call of `continue_workflow` is a sequence of committed stages. What other workers commit between two of
-- them is a function of the tables, on which each theorem says what it assumes; uncommitted changes are
-- a world of their own, so that a rollback returns to an earlier one. The storage of records, the answer
-- of the reviewing model, the judges, and the arithmetic of floating-point numbers are parameters. The
-- ticks of a run are counted.
--
-- Not modelled: the HTTP interface, containers, model calls, prompts and reports, whose work is input,
-- output and text; the run condition that `prepare_configuration` records through the orchestrator;
-- the floating-point rounding of the ratio of repeated actions; the storing of a match in the database; the
-- broadcasting of events; the ratings of Bradley-Terry and Elo and their intervals, which `rank` takes as a
-- parameter; the distributions in the aggregate of a run; and what
-- executor.py and the review workflow write to attempts, in the sequences of Attempts/History.
mod Base
pub mod Attempts
pub mod Capability
pub mod Failures
pub mod Loops
pub mod Ranking
pub mod Rerun
pub mod Trajectory
pub mod Variance
pub mod Workflow
