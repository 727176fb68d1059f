-- ===== src/Processor/Queue.antt =====
-- The queue and its workers, as steps that interleave in any order. `none` in the queue is the
-- sentinel. A worker takes the first item of the queue, and finishes what it has taken in one step.
use context_agent.Prelude.{
  ℕ, ◌+◌, ◌<◌, ◌-◌, ◌≡◌, ◌⊎◌, inl, inr, Option, none, some, Bool, true, false, not, List, [], ◌∷◌,
  ◌++◌, ◌&&◌, leb, eqb, if◌then◌else◌, length,
}
use context_agent.Models.Errors.{AgentError, context_agent_error, memory_write_failed}
use context_agent.Processor.Tasks.{MemoryTask, MemoryUpdatedEvent, Services, process}

module _ (L H : Type 0) where
  -- `idle` workers wait for the queue, and each task of `busy` is with one worker.
  pub record AsyncMemoryProcessor : Type 0 where
    pub queue_maxsize : ℕ
    pub worker_count : ℕ
    pub queue : List (Option MemoryTask)
    pub running : Bool
    pub idle : ℕ
    pub busy : List MemoryTask
    pub ltm : L
    pub hot : H
    pub events : List MemoryUpdatedEvent

module _ {L H : Type 0} where
  -- `Queue.full`: a queue of size 0 is never full.
  unfoldable pub is_full : AsyncMemoryProcessor L H → Bool
  is_full p = not (eqb p.queue_maxsize 0) && leb p.queue_maxsize (length p.queue)

  unfoldable pub enqueue :
      AsyncMemoryProcessor L H → MemoryTask → AgentError ⊎ AsyncMemoryProcessor L H
  enqueue p task =
      if is_full p
      then inl (context_agent_error memory_write_failed)
      else inr (record p { queue = p.queue ++ some task ∷ [] })

  unfoldable pub start : AsyncMemoryProcessor L H → AsyncMemoryProcessor L H
  start p = if p.running then p else record p { running = true; idle = p.idle + p.worker_count }

  -- The first line of `stop`, and each `put` of a sentinel, which waits until the queue has room.
  unfoldable pub stop : AsyncMemoryProcessor L H → AsyncMemoryProcessor L H
  stop p = record p { running = false }

  unfoldable pub put_sentinel : AsyncMemoryProcessor L H → AsyncMemoryProcessor L H
  put_sentinel p = record p { queue = p.queue ++ none ∷ [] }

module _ {F L H : Type 0} (b : Services F L H) where
  -- The end of one round of `_worker_loop`, for a task that is taken out of `busy`.
  unfoldable pub finish :
      AsyncMemoryProcessor L H
      → List MemoryTask
      → MemoryTask
      → List MemoryTask
      → AsyncMemoryProcessor L H
  finish p before task after =
      let (ltm, hot, event) = process b p.ltm p.hot task in
      record p { busy = before ++ after; ltm = ltm; hot = hot; events = p.events ++ event ∷ [] }

  -- The steps of the workers.
  pub data Work (p q : AsyncMemoryProcessor L H) : Type 0 where
    takes :
        (task : MemoryTask) (rest : List (Option MemoryTask))
        → p.queue ≡ some task ∷ rest
        → 0 < p.idle
        → q ≡ record p { queue = rest; idle = p.idle - 1; busy = p.busy ++ task ∷ [] }
        → Work p q
    leaves :
        (rest : List (Option MemoryTask))
        → p.queue ≡ none ∷ rest
        → 0 < p.idle
        → q ≡ record p { queue = rest; idle = p.idle - 1 }
        → Work p q
    finishes :
        (before : List MemoryTask) (task : MemoryTask) (after : List MemoryTask)
        → p.busy ≡ before ++ task ∷ after
        → q ≡ record (finish p before task after) { idle = p.idle + 1 }
        → Work p q

  -- The processors that can be reached from `p`, with the tasks that were accepted on the way.
  pub data Reach (p : AsyncMemoryProcessor L H)
      : List MemoryTask → AsyncMemoryProcessor L H → Type 0 where
    here : Reach p [] p
    worked :
        {tasks : List MemoryTask} {r q : AsyncMemoryProcessor L H}
        → Reach p tasks r
        → Work r q
        → Reach p tasks q
    accepted :
        {tasks : List MemoryTask} {r q : AsyncMemoryProcessor L H} (task : MemoryTask)
        → Reach p tasks r
        → enqueue r task ≡ inr q
        → Reach p (tasks ++ task ∷ []) q
    started :
        {tasks : List MemoryTask} {r : AsyncMemoryProcessor L H}
        → Reach p tasks r
        → Reach p tasks (start r)
    stopped :
        {tasks : List MemoryTask} {r : AsyncMemoryProcessor L H}
        → Reach p tasks r
        → Reach p tasks (stop r)
    sentinel :
        {tasks : List MemoryTask} {r : AsyncMemoryProcessor L H}
        → Reach p tasks r
        → is_full r ≡ false
        → Reach p tasks (put_sentinel r)

-- A processor that has just been made.
unfoldable pub fresh : {L H : Type 0} → ℕ → ℕ → L → H → AsyncMemoryProcessor L H
fresh queue_maxsize worker_count ltm hot = record {
  queue_maxsize = queue_maxsize;
  worker_count = worker_count;
  queue = [];
  running = false;
  idle = 0;
  busy = [];
  ltm = ltm;
  hot = hot;
  events = [];
}
