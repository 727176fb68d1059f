-- ===== src/Collector/Stopped.antt =====
-- Stopping the collector.
use context_agent.Prelude.{
  ℕ, ◌+◌, ◌≤◌, ◌<◌, ◌≡◌, refl, sym, ap, subst, ◌∙◌, Option, none, some, Bool, true, false, List, [],
  ◌∷◌, ◌++◌, arith, map, if◌then◌else◌, length, length-append,
}
use mathlib.Core.List.{append-nil}
use context_agent.Models.Metrics.{MetricRecord}
use context_agent.Collector.Worker.{
  MonitoringCollector, Action, emit, stop, turn, flush_if_due, finish, receive, worker_turn, act,
  run, start,
}
use context_agent.Collector.Flushed.{exports, queued, emitted, exports-run, held}

-- Turns of the worker that find an item, or an empty queue, in time.
abbrev pub turns : {F : Type 0} → List (ℕ × ℕ) → List (Action F)
turns [] = []
turns ((now, at) ∷ ts) = turn false now at ∷ turns ts

abbrev pub BeforeStop : {F : Type 0} → List (Action F) → Type 0
BeforeStop [] = Unit
BeforeStop (emit r ∷ l) = BeforeStop l
BeforeStop (stop ∷ l) = ⊥
BeforeStop (turn t now at ∷ l) = BeforeStop l

module _ {F : Type 0} where
  -- The worker has not returned, and this is its queue.
  record IsRunning (c : MonitoringCollector F) (q : List (Option (MetricRecord F))) : Type 0 where
    active : c.finished ≡ false
    waiting : c.queue ≡ q

  -- The worker has returned with nothing left to flush.
  record IsDone (c : MonitoringCollector F) : Type 0 where
    returned : c.finished ≡ true
    no_batch : c.batch ≡ []
    no_queue : c.queue ≡ []

  flush_if_due-IsRunning :
      (c : MonitoringCollector F) (q : List (Option (MetricRecord F))) (now at : ℕ)
      → IsRunning c q
      → IsRunning (flush_if_due c now at) q
  unfolding flush_if_due
  flush_if_due-IsRunning c q now at h = record {
    active = ground (arith, h.active);
    waiting = ground (arith, h.waiting);
  }

  turn_running :
      (c : MonitoringCollector F) (q : List (Option (MetricRecord F))) (now at : ℕ)
      → IsRunning c q
      → worker_turn c false now at ≡ receive c q now at
  unfolding worker_turn
  turn_running c q now at h =
      ap (λ b. if b then c else receive c c.queue now at) (h.active)
      ∙ ap (λ x. receive c x now at) (h.waiting)

  finish-IsDone : (c : MonitoringCollector F) → c.queue ≡ [] → IsDone (finish c)
  unfolding finish
  finish-IsDone c h = record { returned = refl; no_batch = refl; no_queue = h }

  turns-IsDone :
      (c : MonitoringCollector F) (ts : List (ℕ × ℕ)) → IsDone c → IsDone (run c (turns ts))
  unfolding run act worker_turn
  turns-IsDone c [] h = h
  turns-IsDone c ((now, at) ∷ ts) h =
      turns-IsDone (worker_turn c false now at) ts
        (subst IsDone (sym (ap (λ b. if b then c else receive c c.queue now at) (h.returned))) h)

  drain :
      (rs : List (MetricRecord F)) (c : MonitoringCollector F) (ts : List (ℕ × ℕ))
      → IsRunning c (map some rs ++ none ∷ [])
      → length rs < length ts
      → IsDone (run c (turns ts))
  unfolding run act receive
  drain rs c [] h l = absurd (omega arith)
  drain [] c ((now, at) ∷ ts) h l =
      turns-IsDone (worker_turn c false now at) ts
        (rw (turn_running c (none ∷ []) now at h) (finish-IsDone (record c { queue = [] }) refl))
  drain (r ∷ rs) c ((now, at) ∷ ts) h l =
      drain rs (worker_turn c false now at) ts
        (rw (turn_running c (some r ∷ map some rs ++ none ∷ []) now at h) (
          flush_if_due-IsRunning
            (record c { queue = map some rs ++ none ∷ []; batch = c.batch ++ r ∷ [] })
            (map some rs ++ none ∷ []) now at (record { active = h.active; waiting = refl })))
        (omega arith)

  map-append : (rs ss : List (MetricRecord F)) → map some (rs ++ ss) ≡ map some rs ++ map some ss
  map-append [] ss = refl
  map-append (r ∷ rs) ss = ap (◌∷◌ (some r)) (map-append rs ss)

  timed_out_IsRunning :
      (c : MonitoringCollector F) (q : List (Option (MetricRecord F))) (now at : ℕ)
      → IsRunning c q
      → IsRunning (worker_turn c true now at) q
  unfolding worker_turn
  timed_out_IsRunning c q now at h =
      subst (λ x. IsRunning x q) (sym (ap (λ b. if b then c else flush_if_due c now at) (h.active)))
        (flush_if_due-IsRunning c q now at h)

  turn_keeps :
      (rs : List (MetricRecord F)) (c : MonitoringCollector F) (t : Bool) (now at : ℕ)
      → IsRunning c (map some rs)
      → (qs : List (MetricRecord F)) × IsRunning (worker_turn c t now at) (map some qs)
        × (length qs ≤ length rs)
  unfolding receive
  turn_keeps rs c true now at h = (rs, timed_out_IsRunning c (map some rs) now at h, omega arith)
  turn_keeps [] c false now at h =
      ([], rw (turn_running c [] now at h) (flush_if_due-IsRunning c [] now at h), omega arith)
  turn_keeps (r ∷ rs) c false now at h = (
    rs,
    rw (turn_running c (some r ∷ map some rs) now at h) (
        flush_if_due-IsRunning (record c { queue = map some rs; batch = c.batch ++ r ∷ [] })
          (map some rs) now at (record { active = h.active; waiting = refl })),
    omega arith,
  )

  -- The worker and the callers keep it running, with a queue of at most so many records.
  before_stop :
      (rs : List (MetricRecord F)) (c : MonitoringCollector F) (l : List (Action F))
      → IsRunning c (map some rs)
      → BeforeStop l
      → (qs : List (MetricRecord F)) × IsRunning (run c l) (map some qs)
        × (length qs ≤ length rs + length l)
  unfolding run act
  before_stop rs c [] h b = (rs, h, omega arith)
  before_stop rs c (emit r ∷ l) h b =
      let (qs, k, n) =
        before_stop (rs ++ r ∷ []) (record c { queue = c.queue ++ some r ∷ [] }) l
          (record {
            active = h.active;
            waiting = ap (λ q. q ++ some r ∷ []) h.waiting ∙ sym (map-append rs (r ∷ []));
          })
          b in
      (qs, k, omega (arith, n, length-append rs (r ∷ [])))
  before_stop rs c (stop ∷ l) h b = absurd b
  before_stop rs c (turn t now at ∷ l) h b =
      let (ps, k, n) = turn_keeps rs c t now at h in
      let (qs, k', n') = before_stop ps (worker_turn c t now at) l k b in
      (qs, k', omega (arith, n, n'))

  run-append :
      (c : MonitoringCollector F) (l m : List (Action F)) → run c (l ++ m) ≡ run (run c l) m
  unfolding run
  run-append c [] m = refl
  run-append c (a ∷ l) m = run-append (act c a) l m

  emitted-append : (l m : List (Action F)) → emitted (l ++ m) ≡ emitted l ++ emitted m
  emitted-append [] m = refl
  emitted-append (emit r ∷ l) m = ap (◌∷◌ r) (emitted-append l m)
  emitted-append (stop ∷ l) m = emitted-append l m
  emitted-append (turn t now at ∷ l) m = emitted-append l m

  emitted-turns : (ts : List (ℕ × ℕ)) → emitted {F = F} (turns ts) ≡ []
  emitted-turns [] = refl
  emitted-turns ((now, at) ∷ ts) = emitted-turns ts

  exports-IsDone : (c : MonitoringCollector F) → IsDone c → exports c.outputs ≡ held c
  exports-IsDone c d = sym (
      ap (λ x. exports c.outputs ++ (x ++ queued c.queue)) d.no_batch
      ∙ ap (λ x. exports c.outputs ++ queued x) d.no_queue
      ∙ append-nil (exports c.outputs))

  stopped :
      (c : MonitoringCollector F) (qs : List (MetricRecord F)) (ts : List (ℕ × ℕ))
      → IsRunning c (map some qs)
      → length qs < length ts
      → IsDone (run c (stop ∷ turns ts))
  unfolding run act
  stopped c qs ts k l =
      drain qs (record c { queue = c.queue ++ none ∷ [] }) ts
        (record { active = k.active; waiting = ap (λ q. q ++ none ∷ []) k.waiting }) l

  -- Stopping ends: after any run of callers and worker, once the sentinel is in the queue and the
  -- worker takes one turn more than there were actions, it has returned, and the records that it has
  -- exported are those that were emitted before, all of them and in order.
  pub stop_lem :
      (batch_size flush_interval subscribers now : ℕ) (actions : List (Action F))
      (ts : List (ℕ × ℕ))
      → BeforeStop actions
      → length actions < length ts
      → (let c =
            run (start batch_size flush_interval subscribers now) (actions ++ stop ∷ turns ts) in
          (c.finished ≡ true) × (exports c.outputs ≡ emitted actions))
  unfolding start
  stop_lem batch_size flush_interval subscribers now actions ts b enough = (
    done.returned,
    exports-IsDone _ done
        ∙ exports-run batch_size flush_interval subscribers now (actions ++ stop ∷ turns ts)
        ∙ emitted-append actions (stop ∷ turns ts)
        ∙ rw (emitted-turns ts) (append-nil (emitted actions)),
  )
    where
      c0 : MonitoringCollector F
      c0 = start batch_size flush_interval subscribers now

      done : IsDone (run c0 (actions ++ stop ∷ turns ts))
      done =
          let (qs, k, n) = before_stop [] c0 actions (record { active = refl; waiting = refl }) b in
          rw (run-append c0 actions (stop ∷ turns ts))
            (stopped (run c0 actions) qs ts k (omega (arith, n)))
