-- ===== src/Compression/Composed.antt =====
-- The router over the registry that it makes itself, with the five strategies.
use context_agent.Prelude.{
  ℕ, ◌≤◌, String, ◌≡◌, ◌≢◌, ◌↔◌, refl, sym, ap, subst, ◌∙◌, Option, none, some, Bool, true, false,
  List, [], ◌∷◌, if◌then◌else◌, Bool-cases, inl, inr, leb, is_nil, All, All-imp, contains, ◌==◌,
  eq_of_some,
}
use context_agent.Prelude.Dict.{get, put, has, contains-keys, get_of_has, keys}
use context_agent.Prelude.Floats.{Floats}
use context_agent.Models.Context.{
  ContextSnapshot, ContextOutput, OutputType, compressed, structured, raw,
}
use context_agent.Compression.Messages.{
  Message, build_output, snapshot_to_messages, estimate_tokens,
}
use context_agent.Compression.Truncation.{fast_truncate}
use context_agent.Compression.Registry.{
  output, Strategy, Registry, ok, default_strategies, ensure_all, ensure_one, register,
  ensure_default_strategies_registered, list_ids,
}
use context_agent.Compression.Strategies.Calls.{
  Services, unless_fits, finished, fallen_back, marked,
}
use context_agent.Compression.Strategies.Qa.{qa_compress, qa_fallback, compressor_result}
use context_agent.Compression.Strategies.Task.{task_compress, task_summary, task_fallback}
use context_agent.Compression.Strategies.LongSession.{
  long_session_compress, offloaded, long_session_fallback,
}
use context_agent.Compression.Strategies.Realtime.{realtime_compress, round_compressed}
use context_agent.Compression.Strategies.Compaction.{compaction_compress, compacted}
use context_agent.Compression.Strategies.{builtins}
use context_agent.Compression.Scheduler.{
  StrategySelectionContext, schedule, plan, task_type_map, utilisation,
}
use context_agent.Compression.Ensured.{builtin_ids, plan-AllIn, plan-empty_iff, AllIn}
use context_agent.Compression.Router.{
  raw_fallback, apply_schedule, route_and_compress, FirstOutput, here, later,
}
use context_agent.Compression.Outcome.{Outcome, apply_schedule-Outcome}

-- Not the raw text.
record NotRaw {F : Type 0} (out : ContextOutput F) : Type 0 where
  type_lem : out.output_type ≢ raw

branch_NotRaw :
    {F : Type 0} (c : Bool) {x y : ContextOutput F}
    → NotRaw x
    → NotRaw y
    → NotRaw (if c then x else y)
branch_NotRaw true h k = h
branch_NotRaw false h k = k

compressed_lem : compressed ≢ raw
compressed_lem e = cc

structured_lem : structured ≢ raw
structured_lem e = cc

output_inj : {F : Type 0} {a b : ContextOutput F} → output a ≡ output b → a ≡ b
output_inj e = cc

by_id : {F : Type 0} → List (Strategy F) → Registry F
by_id [] = []
by_id (s ∷ l) = (s.strategy_id, s) ∷ by_id l

module _ {F : Type 0} (o : Floats F) (b : Services) (created_at : ℕ) where
  finished-NotRaw :
      (snapshot : ContextSnapshot F) (t : OutputType) (messages : List Message)
      → t ≢ raw
      → NotRaw (finished o b created_at snapshot t messages)
  unfolding finished build_output
  finished-NotRaw snapshot t messages h = record { type_lem = h }

  fallen_back-NotRaw :
      (snapshot : ContextSnapshot F) (error : String) (messages : List Message)
      → NotRaw (fallen_back o b created_at snapshot error messages)
  unfolding fallen_back build_output
  fallen_back-NotRaw snapshot error messages = record { type_lem = compressed_lem }

  unless_fits-NotRaw :
      (snapshot : ContextSnapshot F) (t : OutputType) (f : List Message → ContextOutput F)
      → t ≢ raw
      → ((messages : List Message) → NotRaw (f messages))
      → NotRaw (unless_fits o b created_at snapshot t f)
  unfolding unless_fits
  unless_fits-NotRaw snapshot t f h g =
      let messages = snapshot_to_messages b.show snapshot in
      branch_NotRaw (is_nil messages) (finished-NotRaw snapshot t [] h) (
        branch_NotRaw (leb (estimate_tokens b.show snapshot) snapshot.token_budget)
          (finished-NotRaw snapshot t messages h) (g messages))

  marked-NotRaw :
      (snapshot : ContextSnapshot F) (error : String) (messages truncated : List Message)
      → NotRaw (marked o b created_at snapshot error messages truncated)
  unfolding marked
  marked-NotRaw snapshot error messages truncated =
      branch_NotRaw _ (fallen_back-NotRaw snapshot error messages)
        (finished-NotRaw snapshot compressed messages compressed_lem)

  -- What a service gives, or else the fallback.
  kept_or :
      (snapshot : ContextSnapshot F) (kept : Option (List Message)) {other : ContextOutput F}
      → NotRaw other
      → NotRaw (elim kept [
        | some kept ↦ finished o b created_at snapshot compressed kept
        | none ↦ other
      ])
  kept_or snapshot none h = h
  kept_or snapshot (some kept) h = finished-NotRaw snapshot compressed kept compressed_lem

  qa_fallback-NotRaw :
      (llm : Option ℕ) (snapshot : ContextSnapshot F) (messages : List Message)
      → NotRaw (qa_fallback o b created_at llm snapshot messages)
  unfolding qa_fallback
  qa_fallback-NotRaw none snapshot messages = fallen_back-NotRaw snapshot _ _
  qa_fallback-NotRaw (some a) snapshot messages = marked-NotRaw snapshot _ _ _

  long_session_fallback-NotRaw :
      (llm : Option ℕ) (snapshot : ContextSnapshot F) (messages : List Message)
      → NotRaw (long_session_fallback o b created_at llm snapshot messages)
  unfolding long_session_fallback
  long_session_fallback-NotRaw none snapshot messages = fallen_back-NotRaw snapshot _ _
  long_session_fallback-NotRaw (some a) snapshot messages = marked-NotRaw snapshot _ _ _

  task_fallback-NotRaw :
      (llm : Option ℕ) (snapshot : ContextSnapshot F) (messages : List Message)
      → NotRaw (task_fallback o b created_at llm snapshot messages)
  unfolding task_fallback
  task_fallback-NotRaw llm snapshot messages = kept_or snapshot _ (fallen_back-NotRaw snapshot _ _)

  qa-NotRaw :
      (llm : Option ℕ) (snapshot : ContextSnapshot F)
      → NotRaw (qa_compress o b created_at llm snapshot)
  unfolding qa_compress
  qa-NotRaw llm snapshot = unless_fits-NotRaw snapshot compressed _ compressed_lem (λ messages.
      kept_or snapshot
        (compressor_result o b created_at messages snapshot.token_budget snapshot.query)
        (qa_fallback-NotRaw llm snapshot messages))

  task-NotRaw :
      (llm : Option ℕ) (snapshot : ContextSnapshot F)
      → NotRaw (task_compress o b created_at llm snapshot)
  unfolding task_compress
  task-NotRaw llm snapshot = unless_fits-NotRaw snapshot compressed _ compressed_lem (λ messages.
      kept_or snapshot (task_summary o b created_at messages snapshot.query snapshot.scope_id)
        (task_fallback-NotRaw llm snapshot messages))

  long_session-NotRaw :
      (llm : Option ℕ) (snapshot : ContextSnapshot F)
      → NotRaw (long_session_compress o b created_at llm snapshot)
  unfolding long_session_compress
  long_session-NotRaw llm snapshot =
      unless_fits-NotRaw snapshot compressed _ compressed_lem (λ messages.
        kept_or snapshot (offloaded o b created_at messages snapshot.token_budget snapshot.scope_id)
          (long_session_fallback-NotRaw llm snapshot messages))

  realtime-NotRaw :
      (llm : Option ℕ) (snapshot : ContextSnapshot F)
      → NotRaw (realtime_compress o b created_at llm snapshot)
  unfolding realtime_compress
  realtime-NotRaw llm snapshot =
      unless_fits-NotRaw snapshot compressed _ compressed_lem (λ messages.
        kept_or snapshot (round_compressed o b created_at messages snapshot.token_budget) (
          fallen_back-NotRaw snapshot "realtime_fallback_truncate"
            (fast_truncate b.keep_last_n messages snapshot.token_budget)))

  compaction-NotRaw :
      (llm : Option ℕ) (snapshot : ContextSnapshot F)
      → NotRaw (compaction_compress o b created_at llm snapshot)
  unfolding compaction_compress
  compaction-NotRaw llm snapshot =
      unless_fits-NotRaw snapshot structured _ structured_lem (λ messages.
        finished-NotRaw snapshot structured (compacted o b created_at llm snapshot messages)
          structured_lem)

  -- A strategy that gives an output, and not the raw text.
  abbrev Gives : ContextSnapshot F → Strategy F → Type 0
  Gives snapshot s = (out : ContextOutput F) × (s.compress s.llm snapshot ≡ output out) × NotRaw out

  defaults-Gives :
      (snapshot : ContextSnapshot F) (llm : Option ℕ)
      → All (Gives snapshot) (default_strategies (builtins o b created_at) llm)
  unfolding default_strategies builtins
  defaults-Gives snapshot llm = (
    (_, refl, qa-NotRaw llm snapshot),
    (
      (_, refl, task-NotRaw llm snapshot),
      (
        (_, refl, long_session-NotRaw llm snapshot),
        ((_, refl, realtime-NotRaw none snapshot), ((_, refl, compaction-NotRaw llm snapshot), tt)),
      ),
    ),
  )

  get_All :
      (P : Strategy F → Type 0) (l : List (Strategy F)) (sid : String) (s : Strategy F)
      → All P l
      → get (by_id l) sid ≡ some s
      → P s
  unfolding get by_id
  get_All P [] sid s h e = cc
  get_All P (t ∷ l) sid s h e = elim (Bool-cases (t.strategy_id == sid)) [
    | inl q ↦
        subst P (eq_of_some (ap (λ c. if c then some t else get (by_id l) sid) (sym q) ∙ e)) h.0
    | inr q ↦ get_All P l sid s h.1 (ap (λ c. if c then some t else get (by_id l) sid) (sym q) ∙ e)
  ]

  five : Registry F
  five = by_id (default_strategies (builtins o b created_at) none)

  five-AllIn : AllIn (keys five) builtin_ids
  unfolding five by_id default_strategies keys
  five-AllIn = (refl, (refl, (refl, (refl, (refl, tt)))))

  five-Gives :
      (snapshot : ContextSnapshot F) (sid : String) (s : Strategy F)
      → get five sid ≡ some s
      → Gives snapshot s
  unfolding five
  five-Gives snapshot sid s e =
      get_All (Gives snapshot) (default_strategies (builtins o b created_at) none) sid s
        (defaults-Gives snapshot none) e

  registered : ensure_default_strategies_registered (builtins o b created_at) [] none ≡ ok five
  unfolding ensure_default_strategies_registered five by_id default_strategies ensure_all ensure_one
      register has get put
  registered = refl

  module _ (not_found_text : String → String) (r : Registry F) (snapshot : ContextSnapshot F) where
    first-cons :
        {ids : List String} {out : ContextOutput F}
        → FirstOutput o not_found_text r snapshot ids out
        → ids ≢ []
    first-cons (here s e k) n = cc
    first-cons (later f h) n = cc

    module _ (gives : (sid : String) (s : Strategy F) → get r sid ≡ some s → Gives snapshot s) where
      first-NotRaw :
          {ids : List String} {out : ContextOutput F}
          → FirstOutput o not_found_text r snapshot ids out
          → NotRaw out
      first-NotRaw (here {sid} {out = out} s e k) =
          let (other, same, h) = gives sid s e in subst NotRaw (output_inj (sym same ∙ k)) h
      first-NotRaw (later f h) = first-NotRaw h

      none_left :
          (attempted ids : List String) (out : ContextOutput F)
          → All (λ sid. has r sid ≡ true) ids
          → Outcome o not_found_text r snapshot created_at attempted ids out
          → (out.output_type ≡ raw) ↔ (ids ≡ [])
      unfolding raw_fallback
      none_left attempted ids out h (inl first) =
          (λ e. absurd ((first-NotRaw first).type_lem e), λ e. absurd (first-cons first e))
      none_left attempted [] out h (inr (all, e, eq)) =
          (λ _. refl, λ _. ap (λ (x : ContextOutput F). x.output_type) eq)
      none_left attempted (sid ∷ ids) out h (inr (all, e, eq)) =
          let (s, found) = get_of_has r sid h.0 in
          let (other, same, n) = gives sid s found in absurd (all.0 s other found same)

  module _ (not_found_text : String → String) (trigger_ratio : F) where
    -- With no strategy registered before, a snapshot is routed through the five strategies whatever
    -- their services do, and the output is the raw text exactly when the task type is given and
    -- unknown, the session has at most 20 turns, and the utilisation is over neither the compaction
    -- ratio nor 0.95.
    pub route_and_compress-raw_iff :
        (snapshot : ContextSnapshot F) (ctx : StrategySelectionContext)
        → (r : Registry F) × (out : ContextOutput F) × (route_and_compress o not_found_text
              (builtins o b created_at)
              trigger_ratio
              []
              snapshot
              ctx
              created_at
            ≡ ok (r, out))
          × ((out.output_type ≡ raw) ↔ (
              (task_type_map ctx.task_type ≡ [])
              × (ctx.task_type ≢ "")
              × (ctx.turn_count ≤ 20)
              × (o.lt trigger_ratio (utilisation o ctx) ≡ false)
              × (o.lt (o.hundredths 95) (utilisation o ctx) ≡ false)))
    unfolding route_and_compress schedule list_ids
    route_and_compress-raw_iff snapshot ctx =
        let s = plan o trigger_ratio (keys five) ctx in
        let out = apply_schedule o not_found_text five snapshot s created_at in
        let empty = plan-empty_iff o trigger_ratio (keys five) ctx five-AllIn in
        let left =
          none_left not_found_text five snapshot (five-Gives snapshot) s.strategy_ids s.strategy_ids
            out
            (All-imp (λ sid. contains (keys five) sid ≡ true) (λ sid. has five sid ≡ true)
              (λ sid q. sym (contains-keys five sid) ∙ q) s.strategy_ids
              (plan-AllIn o trigger_ratio (keys five) ctx five-AllIn))
            (apply_schedule-Outcome o not_found_text five snapshot s created_at) in
        (five, out, rw registered refl, (λ e. empty.0 (left.0 e), λ c. left.1 (empty.1 c)))
