-- ===== src/Lib.antt =====
-- ContextAgent: the core of an agent's context management, as definitions and theorems.
--
-- The program gathers context for a language model, decides what of it is shown, shrinks it, keeps
-- versions of it, and hands parts of it to sub-agents. The parts modelled here, and their code:
--
--   Models: `context_agent/models/*.py` and `context_agent/utils/errors.py`. Records and enumerations.
--   Aggregation: `context_agent/orchestration/context_aggregator.py`. `aggregate` asks the sources
--   (Sources), filters (Filters), deduplicates (Dedup), conditions, and cuts to the budget (Budget);
--   Aggregate composes them as the code does, Selection says what comes out.
--   Conditioning: `context_agent/core/retrieval/task_conditioning.py`, which Aggregation calls.
--   Exposure: `context_agent/core/context/exposure_controller.py`. The gates of a policy, and views.
--   Compression: `context_agent/strategies/registry.py`, `context_agent/orchestration/strategy_scheduler.py`
--   and `context_agent/orchestration/compression_router.py` (Registry, Scheduler, Router), over any
--   strategies, and the five of `context_agent/strategies` (Messages, Truncation, Strategies). Truncated
--   says what their truncations keep, and Composed puts the five into the router.
--   Jit: `context_agent/core/context/jit_resolver.py`. The cache (Cache), the resolver on it (Resolver).
--   Versions: `context_agent/core/context/version_manager.py`, over an object store.
--   Delegation: `context_agent/orchestration/sub_agent_manager.py`, which calls Versions and Exposure.
--   Tools: `context_agent/core/retrieval/tool_governor.py`.
--   Alerts: `context_agent/core/monitoring/alert_engine.py`.
--   Collector: `context_agent/core/monitoring/collector.py`, as a machine whose callers and worker act
--   in any order.
--   Processor: `context_agent/core/memory/async_processor.py`. What a task comes to (Tasks), and the
--   queue with its workers as a step relation (Queue).
--   Retrieval: `context_agent/core/retrieval/search_coordinator.py` and
--   `context_agent/core/memory/hotness.py`. The fusion of rankings, by
--   counting each item (Counted) and then scoring it.
--   WorkingMemory: `context_agent/core/memory/working_memory.py` and `context_agent/models/note.py`.
--   Tiers: `context_agent/core/memory/tiered_router.py`. The hot tier (Hot), and the search over the
--   three tiers (Router).
--   Health: `context_agent/core/context/health_checker.py`. The detectors and the reports.
--   Orchestrator: `context_agent/core/memory/orchestrator.py`. The classification of messages (Signals)
--   and their way into WorkingMemory and Processor (Ingest).
--   Prelude: lists, dicts with string keys, a stable sort, texts and floats, for all of them.
--   Examples: concrete inputs.
--
-- State is passed explicitly: a method takes the object's record and returns the one after it. What
-- a clock, a random id or a default factory returns is an argument. Times are whole: microseconds
-- for dates, ticks for the monotonic clock. Calls of other programs (retrievers, Redis, S3, models)
-- are parameters, given by what they come to, an exception included; what is assumed of them stands
-- among a theorem's hypotheses. A float is of any type with the operations that the code calls, and
-- with the order laws of floats that are not NaN where a theorem asks for them. The normal form of
-- a hint, `.strip().lower()`, is a parameter. A dict is an association list with distinct keys, in
-- the order of insertion. All loops are over lists, so that no fuel is needed.
--
-- Not modelled: the concurrency of a gathering (its tasks are their answers, and `resolve_batch` is
-- left out), logging and tracing, the HTTP API, the configuration files, the adapters to other
-- programs, the wording of prompts, and validation by the data library.
pub mod Prelude
pub mod Models
pub mod Conditioning
pub mod Aggregation
pub mod Exposure
pub mod Compression
pub mod Jit
pub mod Versions
pub mod Delegation
pub mod Tools
pub mod Alerts
pub mod Collector
pub mod Processor
pub mod Retrieval
pub mod WorkingMemory
pub mod Tiers
pub mod Health
pub mod Orchestrator
pub mod Examples
