-- ===== src/Compression/Outcome.antt =====
-- What the router returns: the first output that a scheduled strategy gives, or the raw fallback.
use context_agent.Prelude.{
  ℕ, String, ◌≡◌, refl, sym, ap, ◌∙◌, Option, none, some, Option-cases, eq_of_some, true, List, [],
  ◌∷◌, arith, All, All-imp, contains, inl, inr, ◌⊎◌,
}
use context_agent.Prelude.Dict.{get, has, keys, contains-keys}
use context_agent.Prelude.Floats.{Floats}
use context_agent.Models.Context.{ContextSnapshot, ContextOutput}
use context_agent.Compression.Registry.{
  Attempt, output, raised, Strategy, Registry, ok, find, Builtins, list_ids,
}
use context_agent.Compression.Scheduler.{StrategySelectionContext, StrategySchedule, plan, schedule}
use context_agent.Compression.Ensured.{Extends, builtin_ids, ensure_default-ok, plan-AllIn}
use context_agent.Compression.Router.{
  attempt, try_strategies, raw_fallback, apply_schedule, route_and_compress, Fails, FirstOutput,
  here, later,
}

module _ {F : Type 0} (o : Floats F) (not_found_text : String → String) where
  -- Either some strategy gave an output, and `out` is that of the first one, or all have failed and
  -- `out` is the raw text, marked as degraded, with every id on record.
  abbrev pub Outcome :
      Registry F → ContextSnapshot F → ℕ → List String → List String → ContextOutput F → Type 0
  Outcome r snapshot created_at attempted ids out =
      FirstOutput o not_found_text r snapshot ids out
      ⊎ (All (Fails o not_found_text r snapshot) ids
          × (e : Option String) × (out
              ≡ raw_fallback o not_found_text snapshot e attempted created_at))

  attempt_cases :
      (r : Registry F) (snapshot : ContextSnapshot F) (sid : String)
      → ((s : Strategy F) × (out : ContextOutput F) × (get r sid ≡ some s)
          × (s.compress s.llm snapshot ≡ output out)
          × (attempt o not_found_text r snapshot sid ≡ output out))
        ⊎ ((e : String) × (attempt o not_found_text r snapshot sid ≡ raised e)
            × Fails o not_found_text r snapshot sid)
  unfolding attempt find
  attempt_cases r snapshot sid = elim (Option-cases (get r sid)) [
    | inl e ↦ inr (not_found_text sid, ground arith, λ s out h k. cc (e, h))
    | inr (s, e) ↦ by_result s e (s.compress s.llm snapshot) refl
  ]
    where
      by_result :
          (s : Strategy F)
          → get r sid ≡ some s
          → (a : Attempt F) → s.compress s.llm snapshot ≡ a
          → ((s : Strategy F) × (out : ContextOutput F) × (get r sid ≡ some s)
              × (s.compress s.llm snapshot ≡ output out)
              × (attempt o not_found_text r snapshot sid ≡ output out))
            ⊎ ((e : String) × (attempt o not_found_text r snapshot sid ≡ raised e)
                × Fails o not_found_text r snapshot sid)
      by_result s e (output out) k = inl (s, out, e, k, ground arith)
      by_result s e (raised t) k =
          inr (t, ground arith, λ s' out h k'. failed s' out (eq_of_some (sym e ∙ h)) k')
        where
          failed :
              (s' : Strategy F) (out : ContextOutput F)
              → s ≡ s'
              → ¬ (s'.compress s'.llm snapshot ≡ output out)
          failed s' out same k' = cc (ap (λ (x : Strategy F). x.compress x.llm snapshot) same)

  try_strategies-Outcome :
      (r : Registry F) (snapshot : ContextSnapshot F) (created_at : ℕ) (attempted ids : List String)
      → (last_error : Option String)
      → Outcome r snapshot created_at attempted ids
          (try_strategies o not_found_text r snapshot created_at attempted ids last_error)
  unfolding try_strategies
  try_strategies-Outcome r snapshot created_at attempted [] last_error = inr (tt, last_error, refl)
  try_strategies-Outcome r snapshot created_at attempted (sid ∷ ids) last_error =
      elim (attempt_cases r snapshot sid) [
        | inl (s, out, found, k, e) ↦ rw (e, try_strategies) (inl (here s found k))
        | inr (t, e, fails) ↦
            rw (e, try_strategies)
              (extend fails (try_strategies-Outcome r snapshot created_at attempted ids (some t)))
      ]
    where
      extend :
          {out : ContextOutput F}
          → Fails o not_found_text r snapshot sid
          → Outcome r snapshot created_at attempted ids out
          → Outcome r snapshot created_at attempted (sid ∷ ids) out
      extend fails (inl first) = inl (later fails first)
      extend fails (inr (all, e, same)) = inr ((fails, all), e, same)

  -- Applying a schedule returns the output of the first of its strategies that is registered and
  -- does not raise; if there is none it returns the raw fallback.
  pub apply_schedule-Outcome :
      (r : Registry F) (snapshot : ContextSnapshot F) (s : StrategySchedule) (created_at : ℕ)
      → Outcome r snapshot created_at s.strategy_ids s.strategy_ids
          (apply_schedule o not_found_text r snapshot s created_at)
  unfolding apply_schedule
  apply_schedule-Outcome r snapshot s created_at =
      try_strategies-Outcome r snapshot created_at s.strategy_ids s.strategy_ids none

  module _ (b : Builtins F) where
    -- Routing never raises. It keeps what is registered, schedules ids that are all registered,
    -- and returns the outcome of that schedule.
    pub route_and_compress-Outcome :
        (trigger_ratio : F) (r : Registry F) (snapshot : ContextSnapshot F)
        → (ctx : StrategySelectionContext) (created_at : ℕ)
        → (r' : Registry F) × (s : StrategySchedule) × (out : ContextOutput F) × (schedule o b
              trigger_ratio r ctx
            ≡ ok (r', s))
          × (route_and_compress o not_found_text b trigger_ratio r snapshot ctx created_at
              ≡ ok (r', out))
          × Extends r r'
          × All (λ sid. has r' sid ≡ true) s.strategy_ids
          × Outcome r' snapshot created_at s.strategy_ids s.strategy_ids out
    unfolding route_and_compress schedule list_ids
    route_and_compress-Outcome trigger_ratio r snapshot ctx created_at =
        let (r', e, h, x) = ensure_default-ok b r none in
        let s = plan o trigger_ratio (keys r') ctx in
        let available =
          All-imp (λ sid. has r' sid ≡ true) (λ sid. contains (keys r') sid ≡ true)
            (λ sid q. contains-keys r' sid ∙ q) builtin_ids h in
        (
          r',
          s,
          apply_schedule o not_found_text r' snapshot s created_at,
          rw e refl,
          rw e refl,
          x,
          All-imp (λ sid. contains (keys r') sid ≡ true) (λ sid. has r' sid ≡ true)
              (λ sid q. sym (contains-keys r' sid) ∙ q) s.strategy_ids
              (plan-AllIn o trigger_ratio (keys r') ctx available),
          apply_schedule-Outcome r' snapshot s created_at,
        )
