-- ===== src/Lib.antt =====
-- Verification of the ratcheting-consequence-inquiry core (src/rci).
--
-- The program keeps an event-sourced inquiry. A caller puts commands to the pure `decide` of
-- src/rci/core/transitions.py, which returns events; `evolve` folds an event into the aggregate
-- InquiryState, whose validators run at every step; src/rci/core/replay.py rebuilds a state from its events.
-- What to work on next is chosen by src/rci/orchestration/scheduler.py, whose step plans
-- (src/rci/core/planning.py) the aggregate records before any effect is requested for them. Propositions over
-- finite universes are settled by the exhaustive check of src/rci/formal.
--
-- Base: truth tests, Python's tuples and dictionaries as lists, sorting by a key over a lawful order,
--   equality of frozen records, and the exceptions as values of Result.
-- Canonical: JSON values and content fingerprints, and Canonical/Freeze: freeze_json
--   (src/rci/claims/models.py). A float is its IEEE 754 bit pattern. canonical_json and sha256 are those of
--   Python's json and hashlib: a Hashing is a parameter of all that uses them, and nothing is assumed of it
--   but that a digest is 64 hexadecimal digits.
-- Claims: scopes, obligations, their dispositions and fingerprints, and Claims/Records: claims, conflicts and
--   the other claim records (src/rci/claims/models.py). Claims/Logic: structural conflicts and the obligations
--   that they and claims carry, and Claims/Answers: bind_l0_answer (src/rci/claims/logic.py); the first
--   characters of a digest are the parameter `short`. Claims/Consequences: `_derive_claim_consequences` of
--   src/rci/core/transitions.py.
-- Planning: attempt keys and step plans, and build_step_plan (src/rci/core/planning.py).
-- Scheduler: deduplicate_obligations and plan_next (src/rci/orchestration/scheduler.py). An attempt count
--   and the budgets are Python ints, so integers here; checked, they are naturals.
-- Formal: formulas and evaluate (src/rci/formal/ast.py); universes, enumerate_assignments,
--   exhaustive_check and implication_attack (src/rci/formal/exhaustive.py). The loop over the assignments
--   is recursion on their list, with no fuel.
-- Core/Records: the effect records (src/rci/core/effects.py, src/rci/core/model.py).
-- Core/State: InquiryState and its lookups and validator (src/rci/core/state.py), and the validators of
--   AttemptState and EffectRequestState.
-- Core/Messages: commands and events (src/rci/core/commands.py, src/rci/core/events.py).
-- Core/Decide, Core/Evolve: `decide`, `evolve` and `replay`, one function per command and per event.
-- Core/Steps: `evolve` as a step relation, from which Core/Invariants, Core/Links, Core/History and
--   Core/Replay follow.
-- Core/Agreement, Core/Idempotence, Core/Repeats: how the events of `decide` and the guards of `evolve`
--   fit, and what a command gives when it is put again.
--
-- Warrant/Models, Warrant/Lemmas: evidence, checks, routes and lemmas with their validators
--   (src/rci/warrant/models.py). Warrant/Checks: check references (src/rci/warrant/checks.py).
-- Warrant/Routes, Warrant/Grounding, Warrant/Environments, Warrant/Theory, Warrant/Ancestry: the
--   calculations of src/rci/warrant/support.py. Warrant/Theory/Standing and Warrant/Theory/Current
--   tell apart from the code which routes and nogoods stand, and which lemmas are active. Grounding
--   runs on fuel, one pass more than there are lemmas, since every pass but the last grounds another
--   lemma; the depth-first searches run on fuel, one level more than there are nodes, since a path
--   holds different nodes.
-- Warrant/Promotion: evidence warrants and promotion (src/rci/warrant/policy.py).
-- Backlog/Reconcile, Backlog/Apply: findings to effects, effects to items (src/rci/backlog/reconcile.py).
--   str.strip, JSON text, SHA-256 and slices of texts are the fields of Texts, and nothing is assumed of them.
-- Project/Frontier: dominance and the frontier of successors (src/rci/project/selection.py).
--
-- Exceptions are values: a raised error ends the chain with its class. Text patterns and length limits
-- (src/rci/core/model.py, Base/Texts) are checked for the digests of step plans and attempt keys and for
-- the successors and frontiers of a project; other records leave them out. The text of messages is left
-- out. Times are UTC instants, as numbers. Recursion is structural everywhere. Sets whose order the code
-- does not show are lists.
--
-- Not modelled: the aggregate's other collections and their commands (claims, backlog, warrant, memory,
-- learning, probes, compression, project records), which the components above serve without the aggregate;
-- the report of support cycles; persistence, effect execution, the solver backend, generators, evaluation,
-- the SDK and the command line, which are I/O or glue.
pub mod Base
pub mod Canonical
pub mod Claims
pub mod Core
pub mod Planning
pub mod Scheduler
pub mod Formal
pub mod Warrant
pub mod Backlog
pub mod Project
