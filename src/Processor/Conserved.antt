-- ===== src/Processor/Conserved.antt =====
-- What becomes of the accepted tasks, and the size of the queue, in every interleaving.
use context_agent.Prelude.{
  ℕ, ◌≤◌, ◌<◌, ◌≡◌, ◌≢◌, refl, sym, ap, subst, ◌∙◌, String, Option, none, some, false, List, [],
  ◌∷◌, ◌++◌, arith, map, length, length-append, Bool-cases, inl, inr, ◌⊎◌, ◌↔◌,
}
use mathlib.Core.List.{append_assoc, append-nil, Perm, perm_middle}
use mathlib.Core.List.Perm
use context_agent.Models.Errors.{context_agent_error, memory_write_failed}
use context_agent.Processor.Tasks.{
  MemoryTask, MemoryTaskType, MemoryUpdatedEvent, Services, process,
}
use context_agent.Processor.Queue.{
  AsyncMemoryProcessor, is_full, enqueue, start, stop, put_sentinel, finish, Work, takes, leaves,
  finishes, Reach, here, worked, accepted, started, stopped, sentinel, fresh,
}

-- The scope and the type of a task, which an event repeats.
abbrev pub Label : Type 0
Label = String × MemoryTaskType

abbrev pub task_label : MemoryTask → Label
task_label t = (t.scope_id, t.task_type)

abbrev pub event_label : MemoryUpdatedEvent → Label
event_label e = (e.scope_id, e.task_type)

-- The tasks in the queue, without the sentinels.
abbrev pub waiting : List (Option MemoryTask) → List MemoryTask
waiting [] = []
waiting (none ∷ l) = waiting l
waiting (some t ∷ l) = t ∷ waiting l

waiting-append : (l m : List (Option MemoryTask)) → waiting (l ++ m) ≡ waiting l ++ waiting m
waiting-append [] m = refl
waiting-append (none ∷ l) m = waiting-append l m
waiting-append (some t ∷ l) m = ap (◌∷◌ t) (waiting-append l m)

module _ {L H : Type 0} where
  -- What has been reported, what the workers have, and what waits.
  abbrev pub accounted : AsyncMemoryProcessor L H → List Label
  accounted q =
      map event_label q.events ++ (map task_label q.busy ++ map task_label (waiting q.queue))

map-append {ℓ κ} :
    {A : Type ℓ} {B : Type κ} (f : A → B) (l m : List A) → map f (l ++ m) ≡ map f l ++ map f m
map-append f [] m = refl
map-append f (x ∷ l) m = ap (◌∷◌ (f x)) (map-append f l m)

not_both : {A B : Type 0} {a : A} {b : B} → inl a ≡ inr b → ⊥
not_both e = cc

inr_inj : {A B : Type 0} {a b : B} → Path (A ⊎ B) (inr a) (inr b) → a ≡ b
inr_inj e = cc

module _ {A : Type 0} where
  Perm_of_eq : {l m : List A} → l ≡ m → Perm l m
  Perm_of_eq {l} e = subst (Perm l) e (Perm.refl l)

  move_in : (e b : List A) (t : A) (q : List A) → e ++ ((b ++ t ∷ []) ++ q) ≡ e ++ (b ++ t ∷ q)
  move_in e b t q = ap (λ x. e ++ x) (append_assoc b (t ∷ []) q)

  move_out :
      (e b : List A) (t : A) (a q : List A)
      → Perm (e ++ ((b ++ t ∷ a) ++ q)) ((e ++ t ∷ []) ++ ((b ++ a) ++ q))
  move_out e b t a q =
      subst (Perm (e ++ ((b ++ t ∷ a) ++ q))) (sym (append_assoc e (t ∷ []) ((b ++ a) ++ q)))
        (Perm.append_left e (Perm.append_right q (perm_middle b a)))

module _ {F L H : Type 0} (b : Services F L H) where
  finish-event :
      (p : AsyncMemoryProcessor L H) (before : List MemoryTask) (task : MemoryTask)
      (after : List MemoryTask)
      → map event_label (finish b p before task after).events
        ≡ map event_label p.events ++ task_label task ∷ []
  unfolding finish process
  finish-event p before task after = map-append event_label p.events _

  finish-rest :
      (p : AsyncMemoryProcessor L H) (before : List MemoryTask) (task : MemoryTask)
      (after : List MemoryTask)
      → accounted (finish b p before task after)
        ≡ map event_label (finish b p before task after).events
          ++ (map task_label (before ++ after) ++ map task_label (waiting p.queue))
  unfolding finish
  finish-rest p before task after = refl

  Work-accounted : (p q : AsyncMemoryProcessor L H) → Work b p q → Perm (accounted p) (accounted q)
  Work-accounted p q (takes task rest e i d) = Perm_of_eq (
      ap (λ x. map event_label p.events ++ (map task_label p.busy ++ map task_label (waiting x))) e
      ∙ sym (
          move_in (map event_label p.events) (map task_label p.busy) (task_label task)
            (map task_label (waiting rest)))
      ∙ ap (λ x. map event_label p.events ++ (x ++ map task_label (waiting rest)))
          (sym (map-append task_label p.busy (task ∷ [])))
      ∙ sym (ap accounted d))
  Work-accounted p q (leaves rest e i d) = Perm_of_eq (
      ap (λ x. map event_label p.events ++ (map task_label p.busy ++ map task_label (waiting x))) e
      ∙ sym (ap accounted d))
  Work-accounted p q (finishes before task after e d) =
      let E : List Label = map event_label p.events in
      let Q : List Label = map task_label (waiting p.queue) in
      Perm.trans
        (Perm_of_eq (
          ap (λ x. E ++ (map task_label x ++ Q)) e
          ∙ ap (λ x. E ++ (x ++ Q)) (map-append task_label before (task ∷ after))))
        (Perm.trans (move_out E (map task_label before) (task_label task) (map task_label after) Q)
          (Perm_of_eq (
            ap (λ x. (E ++ task_label task ∷ []) ++ (x ++ Q))
              (sym (map-append task_label before after))
            ∙ ap (λ x. x ++ (map task_label (before ++ after) ++ Q))
                (sym (finish-event p before task after))
            ∙ sym (finish-rest p before task after)
            ∙ sym (ap accounted d))))

  enqueue_eq :
      (p q : AsyncMemoryProcessor L H) (task : MemoryTask)
      → enqueue p task ≡ inr q
      → (is_full p ≡ false) × (q ≡ record p { queue = p.queue ++ some task ∷ [] })
  unfolding enqueue
  enqueue_eq p q task e = elim (Bool-cases (is_full p)) [
    | inl f ↦ absurd (not_both (rw f at e))
    | inr f ↦ (f, sym (inr_inj (rw f at e)))
  ]

  enqueue-accounted :
      (tasks : List MemoryTask) (p q : AsyncMemoryProcessor L H) (task : MemoryTask)
      → enqueue p task ≡ inr q
      → Perm (map task_label tasks) (accounted p)
      → Perm (map task_label (tasks ++ task ∷ [])) (accounted q)
  enqueue-accounted tasks p q task e h =
      let E : List Label = map event_label p.events in
      let B : List Label = map task_label p.busy in
      let W : List Label = map task_label (waiting p.queue) in
      let t : List Label = task_label task ∷ [] in
      Perm.trans (Perm_of_eq (map-append task_label tasks (task ∷ []))) (
        Perm.trans (Perm.append_right t h) (
          Perm_of_eq (
            append_assoc E (B ++ W) t
            ∙ ap (λ x. E ++ x) (append_assoc B W t)
            ∙ ap (λ x. E ++ (B ++ x)) (sym (map-append task_label (waiting p.queue) (task ∷ [])))
            ∙ ap (λ x. E ++ (B ++ map task_label x)) (sym (waiting-append p.queue (some task ∷ [])))
            ∙ sym (ap accounted (enqueue_eq p q task e).1))))

  start-accounted : (p : AsyncMemoryProcessor L H) → accounted (start p) ≡ accounted p
  unfolding start
  start-accounted p = elim (Bool-cases p.running) [ inl r ↦ rw r refl | inr r ↦ rw r refl ]

  put_sentinel-accounted : (p : AsyncMemoryProcessor L H) → accounted (put_sentinel p) ≡ accounted p
  unfolding put_sentinel
  put_sentinel-accounted p =
      ap (λ x. map event_label p.events ++ (map task_label p.busy ++ map task_label x))
        (waiting-append p.queue (none ∷ []) ∙ append-nil (waiting p.queue))

  stop-accounted : (p : AsyncMemoryProcessor L H) → accounted (stop p) ≡ accounted p
  unfolding stop
  stop-accounted p = refl

  -- Nothing is lost and nothing is done twice: in every interleaving of callers and workers, the
  -- accepted tasks are, by scope and type and up to order, those that an event has been given for,
  -- those that a worker has in hand, and those in the queue.
  pub Reach-accounted :
      (queue_maxsize worker_count : ℕ) (ltm : L) (hot : H) {tasks : List MemoryTask}
      {q : AsyncMemoryProcessor L H}
      → Reach b (fresh queue_maxsize worker_count ltm hot) tasks q
      → Perm (map task_label tasks) (accounted q)
  unfolding fresh
  Reach-accounted n w ltm hot here = Perm.nil
  Reach-accounted n w ltm hot (worked {tasks} {r} {q} h s) =
      Perm.trans (Reach-accounted n w ltm hot h) (Work-accounted r q s)
  Reach-accounted n w ltm hot (accepted {tasks} {r} {q} task h e) =
      enqueue-accounted tasks r q task e (Reach-accounted n w ltm hot h)
  Reach-accounted n w ltm hot (started {tasks} {r} h) =
      subst (Perm (map task_label tasks)) (sym (start-accounted r)) (Reach-accounted n w ltm hot h)
  Reach-accounted n w ltm hot (stopped {tasks} {r} h) =
      subst (Perm (map task_label tasks)) (sym (stop-accounted r)) (Reach-accounted n w ltm hot h)
  Reach-accounted n w ltm hot (sentinel {tasks} {r} h f) =
      subst (Perm (map task_label tasks)) (sym (put_sentinel-accounted r))
        (Reach-accounted n w ltm hot h)

  -- The queue holds its bound, where there is one.
  record IsBounded (n : ℕ) (q : AsyncMemoryProcessor L H) : Type 0 where
    maxsize : q.queue_maxsize ≡ n
    bounded : length q.queue ≤ n

  not_full :
      (n : ℕ) (q : AsyncMemoryProcessor L H)
      → n ≢ 0
      → IsBounded n q
      → is_full q ≡ false
      → length q.queue < n
  unfolding is_full
  not_full n q z h f = let m : q.queue_maxsize ≡ n = h.maxsize in ground arith

  Work-IsBounded :
      (n : ℕ) (p q : AsyncMemoryProcessor L H) → Work b p q → IsBounded n p → IsBounded n q
  unfolding finish
  Work-IsBounded n p q (takes task rest e i d) h =
      subst (IsBounded n) (sym d)
        (record { maxsize = h.maxsize; bounded = omega (arith, h.bounded, ap length e) })
  Work-IsBounded n p q (leaves rest e i d) h =
      subst (IsBounded n) (sym d)
        (record { maxsize = h.maxsize; bounded = omega (arith, h.bounded, ap length e) })
  Work-IsBounded n p q (finishes before task after e d) h =
      subst (IsBounded n) (sym d) (record { maxsize = h.maxsize; bounded = h.bounded })

  start-IsBounded : (n : ℕ) (p : AsyncMemoryProcessor L H) → IsBounded n p → IsBounded n (start p)
  unfolding start
  start-IsBounded n p h = elim (Bool-cases p.running) [
    | inl r ↦ simp r h
    | inr r ↦ simp r (record { maxsize = h.maxsize; bounded = h.bounded })
  ]

  one_more :
      (n : ℕ) (p : AsyncMemoryProcessor L H) (x : Option MemoryTask)
      → n ≢ 0
      → IsBounded n p
      → is_full p ≡ false
      → IsBounded n (record p { queue = p.queue ++ x ∷ [] })
  one_more n p x z h f = record {
    maxsize = h.maxsize;
    bounded = omega (arith, not_full n p z h f, length-append p.queue (x ∷ []));
  }

  Reach-IsBounded :
      (n worker_count : ℕ) (ltm : L) (hot : H) {tasks : List MemoryTask}
      {q : AsyncMemoryProcessor L H}
      → n ≢ 0
      → Reach b (fresh n worker_count ltm hot) tasks q
      → IsBounded n q
  unfolding fresh put_sentinel stop
  Reach-IsBounded n w ltm hot z here = record { maxsize = refl; bounded = omega arith }
  Reach-IsBounded n w ltm hot z (worked {tasks} {r} {q} h s) =
      Work-IsBounded n r q s (Reach-IsBounded n w ltm hot z h)
  Reach-IsBounded n w ltm hot z (accepted {tasks} {r} {q} task h e) =
      let (f, d) = enqueue_eq r q task e in
      subst (IsBounded n) (sym d) (one_more n r (some task) z (Reach-IsBounded n w ltm hot z h) f)
  Reach-IsBounded n w ltm hot z (started {tasks} {r} h) =
      start-IsBounded n r (Reach-IsBounded n w ltm hot z h)
  Reach-IsBounded n w ltm hot z (stopped {tasks} {r} h) =
      let k : IsBounded n r = Reach-IsBounded n w ltm hot z h in
      record { maxsize = k.maxsize; bounded = k.bounded }
  Reach-IsBounded n w ltm hot z (sentinel {tasks} {r} h f) =
      one_more n r none z (Reach-IsBounded n w ltm hot z h) f

  -- A queue that was made with a size other than 0 never holds more than that, in any interleaving,
  -- and a task is refused, with an error of the kind `memory_write_failed`, exactly when it is full.
  pub queue-bounded :
      (n worker_count : ℕ) (ltm : L) (hot : H) {tasks : List MemoryTask}
      {q : AsyncMemoryProcessor L H} (task : MemoryTask)
      → n ≢ 0
      → Reach b (fresh n worker_count ltm hot) tasks q
      → (length q.queue ≤ n)
        × ((enqueue q task ≡ inl (context_agent_error memory_write_failed)) ↔ (length q.queue ≡ n))
  unfolding enqueue is_full
  queue-bounded n w ltm hot {q = q} task z h =
      let k : IsBounded n q = Reach-IsBounded n w ltm hot z h in
      let m : q.queue_maxsize ≡ n = k.maxsize in
      let l : length q.queue ≤ n = k.bounded in (l, ground arith)
