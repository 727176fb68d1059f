-- ===== src/Examples/Running.antt =====
-- The collector and the memory queue.
use context_agent.Prelude.{
  ℕ, ◌+◌, ◌*◌, ◌≤◌, ◌≡◌, ◌↔◌, ◌⊎◌, inl, refl, none, some, true, false, List, [], ◌∷◌, ◌++◌, arith,
  map, length, All,
}
use mathlib.Core.List.{Perm}
use context_agent.Models.Errors.{context_agent_error, memory_write_failed}
use context_agent.Models.Metrics.{MetricRecord}
use context_agent.Collector.Worker.{Action, emit, stop, turn, run, start, MonitoringCollector}
use context_agent.Collector.Flushed.{exports, queued, emitted, exports-run}
use context_agent.Collector.Batches.{IsBatch, batches-run}
use context_agent.Collector.Stopped.{turns, stop_lem}
use context_agent.Processor.Tasks.{MemoryTask, add, Services}
use context_agent.Processor.Queue
use context_agent.Processor.Queue.{
  AsyncMemoryProcessor, fresh, enqueue, Reach, here, accepted, started, worked, takes, is_full,
  finish,
}
use context_agent.Processor.Conserved.{task_label, accounted, Reach-accounted, queue-bounded}
use context_agent.Processor.Drained.{Works, CanWork, IsIdle, Works-end}
use context_agent.Examples.Data.{note_item}

abbrev metric : MetricRecord ℕ
metric = record {
  record_id = "m1";
  scope_id = "team";
  uc_id = "";
  operation = "search";
  strategy = "";
  latency_ms = 12;
  status = "ok";
  token_count = none;
  health_score = none;
  latency_breakdown = record {
    hot_tier_ms = 0;
    warm_tier_ms = 0;
    cold_tier_ms = 0;
    rerank_ms = 0;
    exposure_control_ms = 0;
    compression_ms = 0;
  };
  quality_score = 100;
  token_input = 0;
  token_output = 0;
  degraded_count = 0;
  rerank_skipped = false;
  error = none;
  timestamp = 1;
}

-- Three records, of which two make a batch.
abbrev emissions : List (Action ℕ)
emissions = emit metric ∷ turn false 1 1 ∷ emit metric ∷ turn false 2 2 ∷ emit metric ∷ []

abbrev collector : MonitoringCollector ℕ
collector = run (start 2 10 1 0) emissions

exports-run_example :
    exports collector.outputs ++ (collector.batch ++ queued collector.queue) ≡ emitted emissions
exports-run_example = exports-run 2 10 1 0 emissions

batches-run_example : All (IsBatch 2) collector.outputs
batches-run_example = batches-run 2 10 1 0 emissions (omega arith)

abbrev clock : List (ℕ × ℕ)
clock = (3, 3) ∷ (4, 4) ∷ (5, 5) ∷ (6, 6) ∷ (7, 7) ∷ (8, 8) ∷ []

abbrev stopped_collector : MonitoringCollector ℕ
stopped_collector = run (start 2 10 1 0) (emissions ++ stop ∷ turns clock)

stop_lem_example :
    (stopped_collector.finished ≡ true) × (exports stopped_collector.outputs ≡ emitted emissions)
stop_lem_example = stop_lem 2 10 1 0 emissions clock tt (omega arith)

abbrev task : MemoryTask
task = record {
  scope_id = "team";
  task_type = add;
  session_id = "monday";
  user_id = "";
  messages = [];
  memory_id = "";
  updates = [];
  created_at = 1;
  callback_event = "MEMORY_UPDATED";
}

-- A long-term memory that counts its writes, and no checker.
abbrev services : Services ℕ ℕ ℕ
services = record {
  add_messages = λ l scope_id session_id messages user_id. (l + 1, true);
  delete_by_id = λ l scope_id memory_id. (l, false);
  update_by_id = λ l scope_id memory_id updates. (l, true);
  search = λ l scope_id query top_k. some (note_item ∷ []);
  check = none;
  warm_cache = some (λ h scope_id items. h + length items);
}

-- A queue of size 1, with a task in it, and then with the task in a worker's hands.
abbrev queued_one : AsyncMemoryProcessor ℕ ℕ
queued_one = record (fresh 1 2 0 0) { running = true; idle = 2; queue = some task ∷ [] }

abbrev taken_one : AsyncMemoryProcessor ℕ ℕ
taken_one = record queued_one { queue = []; idle = 1; busy = task ∷ [] }

abbrev started_one : AsyncMemoryProcessor ℕ ℕ
started_one = record (fresh 1 2 0 0) { running = true; idle = 2 }

started_Reach : Reach services (fresh 1 2 0 0) [] started_one
unfolding Queue.start fresh
started_Reach = started here

queued_Reach : Reach services (fresh 1 2 0 0) (task ∷ []) queued_one
unfolding enqueue is_full fresh
queued_Reach = accepted task started_Reach refl

taken_Reach : Reach services (fresh 1 2 0 0) (task ∷ []) taken_one
unfolding fresh
taken_Reach = worked queued_Reach (takes task [] refl (omega arith) refl)

Reach-accounted_example : Perm (map task_label (task ∷ [])) (accounted taken_one)
Reach-accounted_example = Reach-accounted services 1 2 0 0 taken_Reach

queue-bounded_example :
    (length queued_one.queue ≤ 1)
    × ((enqueue queued_one task ≡ inl (context_agent_error memory_write_failed))
        ↔ (length queued_one.queue ≡ 1))
queue-bounded_example = queue-bounded services 1 2 0 0 task (λ e. omega arith) queued_Reach

taken_Works : Works services queued_one 1 taken_one
unfolding fresh
taken_Works = Works.one_more Works.none_yet (takes task [] refl (omega arith) refl)

Works-end_example :
    (1 ≤ 2 * length queued_one.queue + length queued_one.busy)
    × (CanWork services taken_one ⊎ IsIdle services taken_one)
Works-end_example = Works-end services taken_Works
