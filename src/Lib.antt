-- ===== src/Lib.antt =====
-- AI-kernel, a kernel for programs that act through language models: models of its decision-making
-- parts, with the theorems that make them correct.
--
-- The parts and how they interact. A tool call goes to the registry (crates/tools), which asks the
-- policy engine (crates/policy) about every capability and resource of the call, asks a person where
-- the policy says so, reads and writes the trust ledger, and publishes what it decided. A model call
-- goes through the resilience layer (crates/resilience): circuit breaker, concurrency limit, retry
-- loop. The scheduler (crates/scheduler) decides when a job runs, the quota guard (crates/quota)
-- whether a request is within its ceilings and what it is charged to. What a model is shown of a
-- conversation is a window (crates/context); older turns are replaced by a recap (crates/summary); a
-- person's answer comes through the broker (crates/approval); clients reach the host process by
-- frames (crates/ipc); a fetch reaches only addresses of the right class (crates/net). All of them
-- use the clock and the errors of crates/core, whose kernel starts the components after what they
-- depend on. What was decided and invoked is kept in the audit trail (crates/audit).
--
-- Which file models what:
--   Prelude and below: tests on numbers, lists, texts as lists of code points, words, results.
--   Policy/Permission: Principal, PermissionRequest and Decision of crates/api/src/permission.rs, and
--     the ExecutionContext of crates/api/src/execution.rs.
--   Policy/Pattern, Policy/Rule, Policy/Engine: crates/policy/src/pattern.rs; rule.rs and document.rs;
--     engine.rs. The child modules hold the proofs.
--   Core/Graph: crates/core/src/graph.rs. Clock: crates/core/src/clock.rs. Errors: crates/core/src/error.rs.
--   Resilience/Failure: crates/api/src/resilience.rs. Resilience/Breaker, Backoff, Limit, Retry:
--     breaker.rs, backoff.rs, limit.rs and provider.rs of crates/resilience/src.
--   Tools/Provenance, Tools/Audit: crates/api/src/provenance.rs and audit.rs. Tools/Ledger:
--     crates/tools/src/trust.rs. Tools/Registry: crates/tools/src/registry.rs up to enforce_trust, and
--     Tools/Registry/Run its invoke, with the Tool trait of crates/api/src/tool.rs.
--   Scheduler/Cron: crates/scheduler/src/cron.rs, with the search for the next occurrence in
--     Scheduler/Cron/Search. Scheduler/State: crates/scheduler/src/state.rs.
--   Context/Message: model.rs and context.rs of crates/api/src. Context/Elision, Context/Window:
--     crates/context/src/window.rs.
--   Approval/Broker: broker.rs and gate.rs of crates/approval/src. Summary/Excerpt, Summary/Plan:
--     excerpt.rs and plan.rs of crates/summary/src.
--   Audit/Record: the entries and queries of crates/api/src/audit.rs. Audit/Store: store.rs of
--     crates/audit/src, with the rule and the cutoff of its retention.rs.
--   Ipc/Frame: crates/ipc/src/frame.rs. Net/Address: crates/net/src/address.rs.
--   Quota/Ledger, Quota/Period, Quota/Document, Quota/Guard: ledger.rs, period.rs, document.rs and
--     guard.rs of crates/quota/src; Quota/Guard/Charge is the guard's record.
--
-- How state and time are modelled. A mutex-guarded state is a record that an operation takes and
-- returns with its result and the event that it publishes. What other tasks do between two awaits of
-- one call is an input of the model: a state of the breaker and the jitter per attempt in
-- Resilience/Retry, a function on the ledger in Tools/Registry/Run. A policy engine and an approval
-- sink are parameters that may answer every question differently. A running tool is a tree of the
-- resource questions that it asks, so that it can ask any number of them and depend on the answers.
-- JSON values, their fields and their equality are a parameter, and so is the calendar library.
-- Durations are nanoseconds and timestamps milliseconds; machine words keep their wrap-around or
-- saturation written out.
--
-- Bounds and fuel. The retry loop of Resilience/Retry runs on the number of attempts that the schedule
-- allows, which the schedule's own answer "exhausted" ends in time; the search for a cron occurrence on
-- the milliseconds of nine years, more than its horizon, since each round moves on; the loop over a
-- cron part on its last value and one more; the search for a prefix in Context/Elision on the length
-- of the interval that it halves; the loop of Core/Graph on the number of entries of its map, one of
-- which every round takes out; Decimals prints a number with itself as fuel, of which
-- every digit uses one.
--
-- Not modelled: durations that are only measured and published, log output, serialisation, the stream
-- wrapper that holds a permit of the limit, and the crates that are input and output or glue.

pub mod Prelude
pub mod Policy
pub mod Clock
pub mod Resilience
pub mod Errors
pub mod Tools
pub mod Scheduler
pub mod Quota
pub mod Context
pub mod Ipc
pub mod Net
pub mod Approval
pub mod Summary
pub mod Core
pub mod Audit
