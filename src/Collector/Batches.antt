-- ===== src/Collector/Batches.antt =====
-- How large the batches are that the callbacks are given.
use context_agent.Prelude.{
  ℕ, zero, suc, ◌≤◌, ◌<◌, ◌≡◌, refl, Option, none, some, true, false, List, [], ◌∷◌, ◌++◌, arith,
  map, if_ind, is_nil, length, length-append, Bool-cases, inl, inr, All, All-append,
}
use context_agent.Models.Metrics.{MetricRecord}
use context_agent.Collector.Worker.{
  Output, exported, notified, MonitoringCollector, Action, emit, stop, turn, notify, flush, is_due,
  flush_if_due, finish, receive, worker_turn, act, run, start,
}

pos_of_not_nil : {A : Type 0} (l : List A) → is_nil l ≡ false → 0 < length l
pos_of_not_nil [] h = cc
pos_of_not_nil (x ∷ l) h = omega arith

module _ {F : Type 0} (n : ℕ) where
  -- A batch is never empty, and never larger than `n`.
  abbrev pub IsBatch : Output F → Type 0
  IsBatch (exported r) = Unit
  IsBatch (notified i b) = (0 < length b) × (length b ≤ n)

  record HasRoom (c : MonitoringCollector F) : Type 0 where
    size : c.batch_size ≡ n
    room : length c.batch < n
    sent : All IsBatch c.outputs

  exported-IsBatch : (b : List (MetricRecord F)) → All IsBatch (map exported b)
  exported-IsBatch [] = tt
  exported-IsBatch (r ∷ b) = (tt, exported-IsBatch b)

  notify-IsBatch :
      (k : ℕ) (b : List (MetricRecord F)) → 0 < length b → length b ≤ n → All IsBatch (notify k b)
  unfolding notify
  notify-IsBatch zero b h r = tt
  notify-IsBatch (suc k) b h r =
      All-append IsBatch (notify k b) (notified k b ∷ []) (notify-IsBatch k b h r) ((h, r), tt)

  flush-IsBatch :
      (c : MonitoringCollector F) (b : List (MetricRecord F))
      → 0 < length b
      → length b ≤ n
      → All IsBatch (flush c b)
  unfolding flush
  flush-IsBatch c b h r =
      All-append IsBatch (map exported b) (notify c.subscribers b) (exported-IsBatch b)
        (notify-IsBatch c.subscribers b h r)

  is_due_pos :
      (c : MonitoringCollector F) (now : ℕ)
      → 0 < c.batch_size
      → is_due c now ≡ true
      → 0 < length c.batch
  unfolding is_due
  is_due_pos c now h d = elim (Bool-cases (is_nil c.batch)) [
    | inl e ↦ ground arith
    | inr e ↦ pos_of_not_nil c.batch e
  ]

  not_due_room :
      (c : MonitoringCollector F) (now : ℕ) → is_due c now ≡ false → length c.batch < c.batch_size
  unfolding is_due
  not_due_room c now d = ground arith

  flush_if_due-HasRoom :
      (c : MonitoringCollector F) (now at : ℕ)
      → 0 < n
      → c.batch_size ≡ n
      → length c.batch ≤ n
      → All IsBatch c.outputs
      → HasRoom (flush_if_due c now at)
  unfolding flush_if_due
  flush_if_due-HasRoom c now at pos size fits sent = elim (Bool-cases (is_due c now)) [
    | inl d ↦ rw d (record {
      size = size;
      room = pos;
      sent =
          All-append IsBatch c.outputs (flush c c.batch) sent
            (flush-IsBatch c c.batch (is_due_pos c now (omega (arith, size)) d) fits);
    })
    | inr d ↦
        rw d (record { size = size; room = omega (arith, not_due_room c now d, size); sent = sent })
  ]

  finish-HasRoom :
      (c : MonitoringCollector F)
      → c.batch_size ≡ n
      → length c.batch < n
      → All IsBatch c.outputs
      → HasRoom (finish c)
  unfolding finish
  finish-HasRoom c size room sent = record {
    size = size;
    room = omega arith;
    sent =
        if_ind (λ l. All IsBatch l) (is_nil c.batch) c.outputs (c.outputs ++ flush c c.batch)
          (λ _. sent)
          (λ e.
            All-append IsBatch c.outputs (flush c c.batch) sent
              (flush-IsBatch c c.batch (pos_of_not_nil c.batch e) (omega arith)));
  }

  receive-HasRoom :
      (c : MonitoringCollector F) (q : List (Option (MetricRecord F))) (now at : ℕ)
      → HasRoom c
      → HasRoom (receive c q now at)
  unfolding receive
  receive-HasRoom c [] now at h =
      flush_if_due-HasRoom c now at (omega (arith, h.room)) h.size (omega (arith, h.room)) h.sent
  receive-HasRoom c (none ∷ q) now at h =
      finish-HasRoom (record c { queue = q }) h.size h.room h.sent
  receive-HasRoom c (some r ∷ q) now at h =
      flush_if_due-HasRoom (record c { queue = q; batch = c.batch ++ r ∷ [] }) now at
        (omega (arith, h.room)) h.size (omega (arith, h.room, length-append c.batch (r ∷ [])))
        h.sent

  act-HasRoom : (c : MonitoringCollector F) (a : Action F) → HasRoom c → HasRoom (act c a)
  unfolding act worker_turn
  act-HasRoom c (emit r) h = record { size = h.size; room = h.room; sent = h.sent }
  act-HasRoom c stop h = record { size = h.size; room = h.room; sent = h.sent }
  act-HasRoom c (turn t now at) h =
      if_ind HasRoom c.finished _ _ (λ _. h)
        λ _.
          if_ind HasRoom t _ _
            (λ _.
              flush_if_due-HasRoom c now at (omega (arith, h.room)) h.size (omega (arith, h.room))
                h.sent)
            (λ _. receive-HasRoom c c.queue now at h)

  run-HasRoom : (c : MonitoringCollector F) (l : List (Action F)) → HasRoom c → HasRoom (run c l)
  unfolding run
  run-HasRoom c [] h = h
  run-HasRoom c (a ∷ l) h = run-HasRoom (act c a) l (act-HasRoom c a h)

  -- With a positive batch size, every batch that a callback is given is not empty, and no larger than
  -- the batch size, whatever the callers and the worker do.
  pub batches-run :
      (flush_interval subscribers now : ℕ) (actions : List (Action F))
      → 0 < n
      → All IsBatch (run (start n flush_interval subscribers now) actions).outputs
  unfolding start
  batches-run flush_interval subscribers now actions pos =
      (run-HasRoom (start n flush_interval subscribers now) actions
        (record { size = refl; room = pos; sent = tt })).sent
