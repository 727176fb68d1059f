-- ===== src/Collector/Flushed.antt =====
-- What becomes of the records that are emitted.
use context_agent.Prelude.{
  ℕ, zero, suc, ◌≡◌, refl, sym, ap, ◌∙◌, Option, none, some, Bool, true, List, [], ◌∷◌, ◌++◌, map,
  if_ind, is_nil, Bool-cases, inl, inr,
}
use mathlib.Core.List.{append_assoc, append-nil}
use context_agent.Models.Metrics.{MetricRecord}
use context_agent.Collector.Worker.{
  Output, exported, notified, MonitoringCollector, Action, emit, stop, turn, notify, flush, is_due,
  flush_if_due, finish, receive, worker_turn, act, run, start,
}

module _ {F : Type 0} where
  -- The records that the outputs export, that a queue holds, and that the actions emit.
  abbrev pub exports : List (Output F) → List (MetricRecord F)
  exports [] = []
  exports (exported r ∷ l) = r ∷ exports l
  exports (notified n batch ∷ l) = exports l

  abbrev pub queued : List (Option (MetricRecord F)) → List (MetricRecord F)
  queued [] = []
  queued (none ∷ q) = queued q
  queued (some r ∷ q) = r ∷ queued q

  abbrev pub emitted : List (Action F) → List (MetricRecord F)
  emitted [] = []
  emitted (emit r ∷ l) = r ∷ emitted l
  emitted (stop ∷ l) = emitted l
  emitted (turn t n m ∷ l) = emitted l

  exports-append : (l m : List (Output F)) → exports (l ++ m) ≡ exports l ++ exports m
  exports-append [] m = refl
  exports-append (exported r ∷ l) m = ap (◌∷◌ r) (exports-append l m)
  exports-append (notified n b ∷ l) m = exports-append l m

  queued-append : (p q : List (Option (MetricRecord F))) → queued (p ++ q) ≡ queued p ++ queued q
  queued-append [] q = refl
  queued-append (none ∷ p) q = queued-append p q
  queued-append (some r ∷ p) q = ap (◌∷◌ r) (queued-append p q)

  exports-map : (l : List (MetricRecord F)) → exports (map exported l) ≡ l
  exports-map [] = refl
  exports-map (r ∷ l) = ap (◌∷◌ r) (exports-map l)

  exports-notify : (n : ℕ) (b : List (MetricRecord F)) → exports (notify n b) ≡ []
  unfolding notify
  exports-notify zero b = refl
  exports-notify (suc n) b =
      exports-append (notify n b) (notified n b ∷ []) ∙ rw (exports-notify n b) refl

  exports-flush : (c : MonitoringCollector F) (b : List (MetricRecord F)) → exports (flush c b) ≡ b
  unfolding flush
  exports-flush c b =
      exports-append (map exported b) (notify c.subscribers b)
      ∙ rw (exports-map b, exports-notify c.subscribers b) (append-nil b)

  -- Everything that a collector has been given: exported, in the batch, or in the queue.
  abbrev pub held : MonitoringCollector F → List (MetricRecord F)
  held c = exports c.outputs ++ (c.batch ++ queued c.queue)

  held-flush_if_due :
      (c : MonitoringCollector F) (now at : ℕ) → held (flush_if_due c now at) ≡ held c
  unfolding flush_if_due
  held-flush_if_due c now at = elim (Bool-cases (is_due c now)) [
    | inl q ↦ rw q (
        rw (exports-append c.outputs (flush c c.batch), exports-flush c c.batch)
          (simp append_assoc))
    | inr q ↦ rw q refl
  ]

  held-receive :
      (c : MonitoringCollector F) (now at : ℕ) (q : List (Option (MetricRecord F)))
      → c.queue ≡ q
      → held (receive c q now at) ≡ exports c.outputs ++ (c.batch ++ queued q)
  unfolding receive finish
  held-receive c now at [] h =
      held-flush_if_due c now at ∙ ap (λ x. exports c.outputs ++ (c.batch ++ queued x)) h
  held-receive c now at (none ∷ q) h = elim (Bool-cases (is_nil c.batch)) [
    | inl e ↦ rw (e, is_nil_eq c.batch e) refl
    | inr e ↦ rw e (
        rw
          (
            exports-append c.outputs (flush (record c { queue = q }) c.batch),
            exports-flush (record c { queue = q }) c.batch,
          )
          (simp append_assoc))
  ]
    where
      is_nil_eq : {A : Type 0} (l : List A) → is_nil l ≡ true → l ≡ []
      is_nil_eq [] e = refl
      is_nil_eq (x ∷ l) e = cc
  held-receive c now at (some r ∷ q) h =
      held-flush_if_due (record c { queue = q; batch = c.batch ++ r ∷ [] }) now at
      ∙ simp append_assoc

  held-worker_turn :
      (c : MonitoringCollector F) (t : Bool) (now at : ℕ) → held (worker_turn c t now at) ≡ held c
  unfolding worker_turn
  held-worker_turn c t now at =
      if_ind (λ (x : MonitoringCollector F). held x ≡ held c) c.finished _ _ (λ _. refl)
        λ _.
          if_ind (λ (x : MonitoringCollector F). held x ≡ held c) t _ _
            (λ _. held-flush_if_due c now at) (λ _. held-receive c now at c.queue refl)

  held-act :
      (c : MonitoringCollector F) (a : Action F) → held (act c a) ≡ held c ++ emitted (a ∷ [])
  unfolding act
  held-act c (emit r) = rw (queued-append c.queue (some r ∷ [])) (simp append_assoc)
  held-act c stop = rw (queued-append c.queue (none ∷ [])) (simp (append_assoc, append-nil))
  held-act c (turn t now at) = held-worker_turn c t now at ∙ sym (append-nil (held c))

  emitted-cons :
      (a : Action F) (l : List (Action F)) → emitted (a ∷ l) ≡ emitted (a ∷ []) ++ emitted l
  emitted-cons (emit r) l = refl
  emitted-cons stop l = refl
  emitted-cons (turn t now at) l = refl

  pub held-run :
      (c : MonitoringCollector F) (l : List (Action F)) → held (run c l) ≡ held c ++ emitted l
  unfolding run
  held-run c [] = sym (append-nil (held c))
  held-run c (a ∷ l) =
      held-run (act c a) l
      ∙ rw (held-act c a, emitted-cons a l) (append_assoc (held c) (emitted (a ∷ [])) (emitted l))

  -- The collector is a queue with nothing lost, repeated or put out of order: whatever the callers and
  -- the worker do, the records that were exported, then those of the batch, then those of the queue
  -- are the records that were emitted.
  pub exports-run :
      (batch_size flush_interval subscribers now : ℕ) (actions : List (Action F))
      → (let c = run (start {F = F} batch_size flush_interval subscribers now) actions in
          exports c.outputs ++ (c.batch ++ queued c.queue) ≡ emitted actions)
  unfolding start
  exports-run batch_size flush_interval subscribers now actions =
      held-run (start batch_size flush_interval subscribers now) actions
