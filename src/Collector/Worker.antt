-- ===== src/Collector/Worker.antt =====
-- The collector as a state machine: callers put records and the sentinel into the queue, the worker
-- takes turns of its loop. Times are whole ticks of the monotonic clock. What a flush sends to
-- OpenTelemetry, to Prometheus and to the callbacks leaves the program: it is a list of outputs.
use context_agent.Prelude.{
  ℕ, zero, suc, ◌+◌, Option, none, some, Bool, true, false, not, List, [], ◌∷◌, ◌++◌, ◌&&◌, ◌||◌,
  map, leb, if◌then◌else◌, is_nil, length,
}
use context_agent.Models.Metrics.{MetricRecord}

module _ (F : Type 0) where
  -- A record is emitted to the two backends, and a batch is passed to a callback, by its position.
  pub data Output : Type 0 where
    exported : MetricRecord F → Output
    notified : ℕ → List (MetricRecord F) → Output

  -- `batch` and `last_flush` are the variables of `_worker`; `finished` tells that it has returned.
  pub record MonitoringCollector : Type 0 where
    pub batch_size : ℕ
    pub flush_interval : ℕ
    pub subscribers : ℕ
    pub queue : List (Option (MetricRecord F))
    pub batch : List (MetricRecord F)
    pub last_flush : ℕ
    pub finished : Bool
    pub outputs : List Output

  -- What a caller or the worker does next. A turn of the worker has its readings of the clock, and
  -- tells whether `wait_for` gave up before the queue had an item.
  pub data Action : Type 0 where
    emit : MetricRecord F → Action
    stop : Action
    turn : Bool → ℕ → ℕ → Action

module _ {F : Type 0} where
  unfoldable pub notify : ℕ → List (MetricRecord F) → List (Output F)
  notify zero batch = []
  notify (suc n) batch = notify n batch ++ notified n batch ∷ []

  -- `_flush`: an exception of a callback or a backend is caught, and the next one is called.
  unfoldable pub flush : MonitoringCollector F → List (MetricRecord F) → List (Output F)
  unfolding notify
  flush c batch = map exported batch ++ notify c.subscribers batch

  unfoldable pub subscribe : MonitoringCollector F → MonitoringCollector F
  subscribe c = record c { subscribers = c.subscribers + 1 }

  -- `len(batch) >= batch_size or (monotonic() - last_flush >= flush_interval_s and batch)`
  unfoldable pub is_due : MonitoringCollector F → ℕ → Bool
  is_due c now =
      leb c.batch_size (length c.batch)
      || (leb (c.last_flush + c.flush_interval) now && not (is_nil c.batch))

  -- The second half of a turn.
  unfoldable pub flush_if_due : MonitoringCollector F → ℕ → ℕ → MonitoringCollector F
  flush_if_due c now flushed_at =
      if is_due c now
      then record c { outputs = c.outputs ++ flush c c.batch; batch = []; last_flush = flushed_at }
      else c

  -- The end of `_worker`.
  unfoldable pub finish : MonitoringCollector F → MonitoringCollector F
  finish c = record c {
    finished = true;
    outputs = if is_nil c.batch then c.outputs else c.outputs ++ flush c c.batch;
    batch = [];
  }

  -- The first half of a turn, where the queue gives its first item; if it has none until the wait
  -- is over, the turn has timed out.
  unfoldable pub receive :
      MonitoringCollector F → List (Option (MetricRecord F)) → ℕ → ℕ → MonitoringCollector F
  receive c [] now flushed_at = flush_if_due c now flushed_at
  receive c (none ∷ queue) now flushed_at = finish (record c { queue = queue })
  receive c (some r ∷ queue) now flushed_at =
      flush_if_due (record c { queue = queue; batch = c.batch ++ r ∷ [] }) now flushed_at

  unfoldable pub worker_turn : MonitoringCollector F → Bool → ℕ → ℕ → MonitoringCollector F
  worker_turn c timed_out now flushed_at =
      if c.finished
      then c
      else if timed_out
      then flush_if_due c now flushed_at
      else receive c c.queue now flushed_at

  unfoldable pub act : MonitoringCollector F → Action F → MonitoringCollector F
  act c (emit r) = record c { queue = c.queue ++ some r ∷ [] }
  act c stop = record c { queue = c.queue ++ none ∷ [] }
  act c (turn timed_out now flushed_at) = worker_turn c timed_out now flushed_at

  unfoldable pub run : MonitoringCollector F → List (Action F) → MonitoringCollector F
  run c [] = c
  run c (a ∷ actions) = run (act c a) actions

-- `MonitoringCollector(...)`, and `start`.
unfoldable pub start : {F : Type 0} → ℕ → ℕ → ℕ → ℕ → MonitoringCollector F
start batch_size flush_interval subscribers now = record {
  batch_size = batch_size;
  flush_interval = flush_interval;
  subscribers = subscribers;
  queue = [];
  batch = [];
  last_flush = now;
  finished = false;
  outputs = [];
}
