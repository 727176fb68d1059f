-- ===== src/Processor/Drained.antt =====
-- The steps of the workers end, and when they do, nothing is left in their hands.
use context_agent.Prelude.{
  ℕ, zero, suc, ◌+◌, ◌*◌, ◌≤◌, ◌<◌, ◌≡◌, refl, ap, Option, none, some, List, [], ◌∷◌, arith, length,
  length-append, ◌⊎◌, inl, inr,
}
use context_agent.Processor.Tasks.{MemoryTask, Services}
use context_agent.Processor.Queue.{AsyncMemoryProcessor, finish, Work, takes, leaves, finishes}

module _ {F L H : Type 0} (b : Services F L H) where
  -- So many steps of the workers, one after the other, with no call from outside.
  pub data Works (p : AsyncMemoryProcessor L H) : ℕ → AsyncMemoryProcessor L H → Type 0 where
    none_yet : Works p zero p
    one_more :
        {n : ℕ} {r q : AsyncMemoryProcessor L H} → Works p n r → Work b r q → Works p (suc n) q

  -- The steps that are left: two for what waits, one for what a worker has.
  abbrev pub left_over : AsyncMemoryProcessor L H → ℕ
  left_over p = 2 * length p.queue + length p.busy

  Work-left_over : (p q : AsyncMemoryProcessor L H) → Work b p q → left_over q < left_over p
  unfolding finish
  Work-left_over p q (takes task rest e i d) =
      omega (arith, ap left_over d, ap length e, length-append p.busy (task ∷ []))
  Work-left_over p q (leaves rest e i d) = omega (arith, ap left_over d, ap length e)
  Work-left_over p q (finishes before task after e d) = omega (
    arith,
    ap left_over d,
    ap length e,
    length-append before (task ∷ after),
    length-append before after,
  )

  Works-left_over :
      {p q : AsyncMemoryProcessor L H} {n : ℕ} → Works p n q → n + left_over q ≤ left_over p
  Works-left_over none_yet = omega arith
  Works-left_over (one_more {n} {r} {q} w s) =
      omega (arith, Works-left_over w, Work-left_over r q s)

  -- A step that the workers can take, or nothing that they could do.
  abbrev pub CanWork : AsyncMemoryProcessor L H → Type 0
  CanWork q = (r : AsyncMemoryProcessor L H) × Work b q r

  abbrev pub IsIdle : AsyncMemoryProcessor L H → Type 0
  IsIdle q = (q.busy ≡ []) × ((q.idle ≡ 0) ⊎ (q.queue ≡ []))

  try_queue :
      (q : AsyncMemoryProcessor L H) (l : List (Option MemoryTask)) (i : ℕ)
      → q.queue ≡ l
      → q.idle ≡ i
      → CanWork q ⊎ ((q.idle ≡ 0) ⊎ (q.queue ≡ []))
  try_queue q l zero e f = inr (inl f)
  try_queue q [] (suc i) e f = inr (inr e)
  try_queue q (some t ∷ l) (suc i) e f = inl (_, takes t l e (omega (arith, f)) refl)
  try_queue q (none ∷ l) (suc i) e f = inl (_, leaves l e (omega (arith, f)) refl)

  progress :
      (q : AsyncMemoryProcessor L H) (l : List MemoryTask) → q.busy ≡ l → CanWork q ⊎ IsIdle q
  progress q (t ∷ l) e = inl (_, finishes [] t l e refl)
  progress q [] e = elim (try_queue q q.queue q.idle refl refl) [
    | inl w ↦ inl w
    | inr i ↦ inr (e, i)
  ]

  -- Left to themselves the workers finish: they take at most two steps for what waits in the queue
  -- and one for what they have in hand, and wherever they stand they can take another step, unless
  -- no task is in hand and either no worker is left or the queue is empty.
  pub Works-end :
      {p q : AsyncMemoryProcessor L H} {n : ℕ}
      → Works p n q
      → (n ≤ 2 * length p.queue + length p.busy) × (CanWork q ⊎ IsIdle q)
  Works-end {p} {q} w = (omega (arith, Works-left_over w), progress q q.busy refl)
