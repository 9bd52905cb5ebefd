-- ===== src/Lib.antt =====
-- rayspec runs workflows: graphs of steps (prompts to agents, scripts, loops, gates that a person
-- answers) that are scheduled, recorded and resumed. This library models the decisions of the engine
-- and of its guardrails, and proves what makes them correct. Paths are from the root of the
-- repository.
--
-- How the parts interact: a workflow's steps become a graph (Engine/Graph), the scheduler decides
-- each step by its join over the outcomes of its needs (Engine/Graph/Join, Engine/Scheduler), a leaf
-- step runs its attempts (Engine/Leaf), a gate asks for an answer (Engine/Approval), a loop and an
-- `each:` step run their bodies (Engine/Loop, Engine/Each), every outcome is settled in its sibling
-- list (Engine/Settle), and the run is closed with a status (Engine/Verdict), its spend
-- going to the ledger through the envelope of the operator's ceilings (Limits). The policy files that
-- set ceilings, approval classes and permissions are found and merged by Policy.
--
-- Files and the code they are about:
-- - Prelude.antt and Prelude/: names of the libraries, Boolean tests, lists, Python's dict in insertion
--   order, results that may raise, integers, texts as code points.
-- - Schema.antt: src/rayspec/schema/common.py and steps.py, the statuses, joins and step fields;
--   Schema/Identifiers.antt: validate_identifier and validate_name of common.py.
-- - Engine/Graph/Join.antt: src/rayspec/engine/graph.py, classify and join_decision; Table holds the proofs.
-- - Engine/Graph/Acyclic.antt: _check_acyclic of the same file. Its recursion takes fuel, one more than
--   the number of steps; a search never goes deeper, since each level colours a step grey. Sound, Cycles
--   and Fuel below it hold the proofs.
-- - Engine/Graph/Build.antt: StepGraph.from_steps; Checked, Linked, Errors and Accepts hold its proofs.
-- - Engine/Approval/Classes.antt: src/rayspec/engine/approval_classes.py.
-- - Engine/Approval/Gate.antt: src/rayspec/engine/executors/approve.py, run_approve with
--   stored_decision, _ask, _pause and _warn_refused. The terminal, the options and the templates are
--   the record GateEnv; the warnings and events are kept in order in the state.
-- - Engine/Leaf.antt: src/rayspec/engine/retry.py and run_leaf of src/rayspec/engine/scheduler.py. The
--   attempts come from a function of their number. The loop's fuel is the attempts that the policy
--   allows, at least one.
-- - Engine/Settle.antt: settle, decidable and the constructors of outcomes in scheduler.py.
-- - Engine/Scheduler.antt: run_graph of scheduler.py, one decision (decide), one pass and the loop of
--   decide_and_launch, whose fuel is one more than the pending steps, since each pass that
--   progresses takes a step off them. WindDown below it is a round of wind_down. Reach is the step
--   relation: rounds of decisions, outcomes of running steps in any order, rounds of the wind-down;
--   the caps, the conditions and the cache are read afresh at every decision about a step. Decided,
--   Pending, Progress, Kept, Rounds, Unwind, Draining, Leftovers, Reach and Complete hold the proofs.
-- - Engine/Body.antt and Engine/Loop.antt: src/rayspec/engine/executors/loop.py. The caps, the
--   body's outcomes and the value of until are given by the number of the iteration.
-- - Engine/Each.antt: src/rayspec/engine/executors/each.py. The outcomes of the items' bodies are
--   given by their index, and the order in which the items end is any.
-- - Engine/FailurePolicy.antt and Engine/Caps.antt: src/rayspec/engine/context.py, on_step_failure in
--   nested scopes, and the totals, cap_reasons and check_budget. The answer of the operator's
--   envelope is a parameter there.
-- - Engine/Paths.antt: src/rayspec/engine/paths.py, on code points. The values of digits are a
--   parameter, since Python takes any of Unicode; the fuel of a printed number is one more than it.
-- - Engine/Verdict.antt and Engine/Verdict/Finish.antt: src/rayspec/engine/runner.py, run_failures and
--   _finalize with _refresh_envelope_pause and _settle_envelope. A step path is a list of segments.
-- - Limits/Ledger.antt: src/rayspec/limits/ledger.py, on the JSON document; Books below it is what a
--   commit and an outcome write into it, File the operations on the file. Amounts are exact in units
--   of 10^-10 USD, where the program rounds floats to ten digits.
-- - Limits/Slots.antt: src/rayspec/limits/slots.py, over the table of the locks of the host, which the
--   kernel keeps; a wait is the list of the hosts that its polls find, one list for each slot. Bound
--   and Restored hold the proofs.
-- - Limits/Lockfile.antt: src/rayspec/limits/lockfile.py, over what it reads of a resolved workflow;
--   the file itself is not modelled. Wanted, Drifts, Sync and Relocked hold the proofs.
-- - Limits/Policy.antt: src/rayspec/limits/policy.py, the readers of the policy's numbers; what `float`
--   makes of a text is a parameter.
-- - Limits/Envelope.antt: src/rayspec/limits/envelope.py. none, and the verdict raised, stand for the
--   exceptions of the ledger.
-- - Policy/Model.antt: src/rayspec/policy/model.py. Policy/Layers.antt and Policy/Merged.antt:
--   the accessors of EffectivePolicy in src/rayspec/policy/layers.py; Policy/Load.antt: load_policy,
--   over a file system, a YAML reader and a document parser that are parameters.
-- - Policy/Tightens.antt, and the modules below Policy/Layers, Policy/Merged and Policy/Load: the proofs
--   about them.
-- - Tests.antt and Tests/: concrete runs, and the theorems applied to them.
--
-- Not modelled: when the scheduler cancels its task group (an interrupted outcome may arrive at any
-- time), resume, the executors of includes and processes, the templates, the store's files,
-- the command line; rounding of floats; in the ledger the file lock, failing writes, the filter that
-- says a warning once, and a `day` that is no text, which the pruning takes for none here; fnmatch
-- patterns, a parameter; the names of slot files and their contents. Texts of messages are
-- constructors.
pub mod Prelude
pub mod Schema
pub mod Engine
pub mod Limits
pub mod Policy
pub mod Tests
