-- ===== src/Compression/Ensured.antt =====
-- What `ensure_default_strategies_registered` and `schedule` promise each other.
use mathlib.Core.List.{append_assoc, append-nil}
use mathlib.Core.Bool.{true≢false}
use context_agent.Prelude.{
  ℕ, ◌≤◌, String, ◌≡◌, ◌↔◌, refl, sym, ap, ◌∙◌, Option, none, some, true, false, List, [], ◌∷◌,
  ◌++◌, ◌≢◌, arith, if◌then◌else◌, ◌==◌, eq_iff, All, All-append, contains, is_nil, ltb, Bool-cases,
  if_ind, eq_of_some, inl, inr,
}
use context_agent.Prelude.Dict.{get, put, has, get-put, get_of_has, has_of_get}
use context_agent.Prelude.Floats.{Floats}
use context_agent.Compression.Registry.{
  Strategy, Registry, ok, register, find, refresh_llm_adapter, ensure_one, ensure_all, Builtins,
  default_strategies, ensure_default_strategies_registered,
}
use context_agent.Compression.Scheduler.{
  StrategySelectionContext, Note, prepended_realtime, task_type_map, prefer, utilisation,
  auto_select, override_realtime, plan,
}

module _ {F : Type 0} where
  -- What was registered stays registered, with the same `compress`.
  abbrev pub Extends : Registry F → Registry F → Type 0
  Extends r r' =
      (k : String) (s : Strategy F)
      → get r k ≡ some s
      → (s' : Strategy F) × (get r' k ≡ some s') × (s'.compress ≡ s.compress)

  compress-refresh_llm_adapter :
      (s : Strategy F) (a : Option ℕ) → (refresh_llm_adapter s a).compress ≡ s.compress
  unfolding refresh_llm_adapter
  compress-refresh_llm_adapter s none = refl
  compress-refresh_llm_adapter s (some a) = ground arith

  find-ok : (r : Registry F) (k : String) (s : Strategy F) → get r k ≡ some s → find r k ≡ ok s
  unfolding find
  find-ok r k s e = ground arith

  ensure_one-ok :
      (a : Option ℕ) (s : Strategy F) (r : Registry F)
      → (r' : Registry F) × (ensure_one a s r ≡ ok r')
        × (has r' s.strategy_id ≡ true)
        × Extends r r'
  unfolding ensure_one
  ensure_one-ok a s r = elim (Bool-cases (has r s.strategy_id)) [
    | inl q ↦
        let (found, e) = get_of_has r s.strategy_id q in
        let s' = refresh_llm_adapter found a in
        (
          put r s.strategy_id s',
          rw (q, find-ok r s.strategy_id found e) refl,
          has_of_get _ s.strategy_id s' (written r s.strategy_id s'),
          replaced found s' e (compress-refresh_llm_adapter found a),
        )
    | inr q ↦ (
      put r s.strategy_id s,
      unfold register in rw q refl,
      has_of_get _ s.strategy_id s (written r s.strategy_id s),
      added q,
    )
  ]
    where
      written : (r : Registry F) (k : String) (v : Strategy F) → get (put r k v) k ≡ some v
      written r k v = ground (arith, get-put r k k v, eq_iff k k)

      replaced :
          (found s' : Strategy F)
          → get r s.strategy_id ≡ some found
          → s'.compress ≡ found.compress
          → Extends r (put r s.strategy_id s')
      replaced found s' e same k t h = elim (Bool-cases (s.strategy_id == k)) [
        | inl q ↦ (
          s',
          get-put r s.strategy_id k s' ∙ rw q refl,
          same ∙ ap (λ x. x.compress) (eq_of_some (sym e ∙ ap (get r) ((eq_iff _ _).0 q) ∙ h)),
        )
        | inr q ↦ (t, get-put r s.strategy_id k s' ∙ rw q h, refl)
      ]

      added : has r s.strategy_id ≡ false → Extends r (put r s.strategy_id s)
      added absent k t h = elim (Bool-cases (s.strategy_id == k)) [
        | inl q ↦ absurd (
            true≢false
              (sym (has_of_get r s.strategy_id t (ap (get r) ((eq_iff _ _).0 q) ∙ h)) ∙ absent))
        | inr q ↦ (t, get-put r s.strategy_id k s ∙ rw q h, refl)
      ]

  Extends-trans : (a b c : Registry F) → Extends a b → Extends b c → Extends a c
  Extends-trans a b c f g k s h =
      let (s', h', e') = f k s h in let (s'', h'', e'') = g k s' h' in (s'', h'', e'' ∙ e')

  has-Extends : (r r' : Registry F) (k : String) → Extends r r' → has r k ≡ true → has r' k ≡ true
  has-Extends r r' k f h =
      let (s, e) = get_of_has r k h in let (s', e', _) = f k s e in has_of_get r' k s' e'

  ensure_all-ok :
      (a : Option ℕ) (l : List (Strategy F)) (r : Registry F)
      → (r' : Registry F) × (ensure_all a l r ≡ ok r')
        × All (λ s. has r' s.strategy_id ≡ true) l
        × Extends r r'
  unfolding ensure_all
  ensure_all-ok a [] r = (r, refl, tt, λ k s h. (s, h, refl))
  ensure_all-ok a (s ∷ l) r =
      let (r1, e1, h1, x1) = ensure_one-ok a s r in
      let (r2, e2, h2, x2) = ensure_all-ok a l r1 in
      (r2, rw e1 e2, (has-Extends r1 r2 s.strategy_id x2 h1, h2), Extends-trans r r1 r2 x1 x2)

-- The ids of the five built-in strategies.
abbrev pub builtin_ids : List String
builtin_ids = "qa" ∷ "task" ∷ "long_session" ∷ "realtime" ∷ "compaction" ∷ []

module _ {F : Type 0} (b : Builtins F) where
  -- Making the default strategies available never raises, whatever is registered. After it all
  -- five built-in ids are registered, and every strategy that was registered still is, and
  -- compresses as before.
  pub ensure_default-ok :
      (r : Registry F) (llm_adapter : Option ℕ)
      → (r' : Registry F) × (ensure_default_strategies_registered b r llm_adapter ≡ ok r')
        × All (λ sid. has r' sid ≡ true) builtin_ids
        × Extends r r'
  unfolding ensure_default_strategies_registered
  ensure_default-ok r llm_adapter =
      let (r', e, h, x) = ensure_all-ok llm_adapter (default_strategies b llm_adapter) r in
      (r', e, h, x)

-- Every id of the list is among the available ones.
abbrev pub AllIn : List String → List String → Type 0
AllIn available ids = All (λ sid. contains available sid ≡ true) ids

abbrev Chosen : List String → List String × List Note → Type 0
Chosen available s = AllIn available s.0

prefer-AllIn :
    (preferred available ids : List String) (notes : List Note)
    → AllIn available ids
    → AllIn available (prefer preferred available ids notes).0
unfolding prefer
prefer-AllIn [] available ids notes h = h
prefer-AllIn (sid ∷ preferred) available ids notes h = elim (Bool-cases (contains available sid)) [
  | inl q ↦ rw q (
      prefer-AllIn preferred available (ids ++ sid ∷ []) notes
        (All-append _ ids (sid ∷ []) h (q, tt)))
  | inr q ↦ rw q (prefer-AllIn preferred available ids _ h)
]

prefer-all :
    (preferred available ids : List String) (notes : List Note)
    → AllIn available preferred
    → prefer preferred available ids notes ≡ (ids ++ preferred, notes)
unfolding prefer
prefer-all [] available ids notes h = simp append-nil
prefer-all (sid ∷ preferred) available ids notes h =
    rw (h.0) (prefer-all preferred available (ids ++ sid ∷ []) notes h.1 ∙ simp append_assoc)

mapped-AllIn :
    (available : List String) (t : String)
    → AllIn available builtin_ids
    → AllIn available (task_type_map t)
unfolding task_type_map
mapped-AllIn available t h =
    if_ind (AllIn available) (t == "qa") _ _ (λ _. (h.0, tt))
      λ _.
        if_ind (AllIn available) (t == "task") _ _ (λ _. (h.1.0, tt))
          λ _.
            if_ind (AllIn available) (t == "long_session") _ _ (λ _. (h.1.1.0, tt))
              λ _.
                if_ind (AllIn available) (t == "realtime") _ _ (λ _. (h.1.1.1.0, tt))
                  λ _.
                    if_ind (AllIn available) (t == "compaction") _ _ (λ _. (h.1.1.1.1.0, tt))
                      λ _. tt

module _ {F : Type 0} (o : Floats F) where
  auto_select-AllIn :
      (trigger_ratio : F) (available : List String) (ctx : StrategySelectionContext)
      (notes : List Note)
      → AllIn available builtin_ids
      → AllIn available (auto_select o trigger_ratio ctx notes).0
  unfolding auto_select
  auto_select-AllIn trigger_ratio available ctx notes h =
      if_ind (Chosen available) (ltb 20 ctx.turn_count) _ _ (λ _. (h.1.1.0, tt))
        λ _.
          if_ind (Chosen available) (o.lt trigger_ratio (utilisation o ctx)) _ _
            (λ _. (h.1.1.1.1.0, tt))
            λ _. if_ind (Chosen available) (ctx.task_type == "") _ _ (λ _. (h.0, tt)) λ _. tt

  override_realtime-AllIn :
      (available : List String) (ctx : StrategySelectionContext) (sel : List String × List Note)
      → AllIn available sel.0
      → AllIn available (override_realtime o available ctx sel).0
  unfolding override_realtime
  override_realtime-AllIn available ctx (ids, notes) h =
      if_ind (Chosen available) _ ("realtime" ∷ ids, notes ++ prepended_realtime ∷ []) (ids, notes)
        (λ q. (ground arith, h)) (λ _. h)

  -- With the built-in strategies registered, every id of a plan is registered.
  pub plan-AllIn :
      (trigger_ratio : F) (available : List String) (ctx : StrategySelectionContext)
      → AllIn available builtin_ids
      → AllIn available (plan o trigger_ratio available ctx).strategy_ids
  unfolding plan
  plan-AllIn trigger_ratio available ctx h = override_realtime-AllIn available ctx _ (
      if_ind (Chosen available) (is_nil (prefer (task_type_map ctx.task_type) available [] []).0) _
        _ (λ _. auto_select-AllIn trigger_ratio available ctx _ h)
        (λ _. prefer-AllIn (task_type_map ctx.task_type) available [] [] tt))

  empty_core :
      (m available : List String) (trigger_ratio : F) (ctx : StrategySelectionContext)
      → contains available "realtime" ≡ true
      → ((override_realtime o available ctx
            (if is_nil m then auto_select o trigger_ratio ctx [] else (m, []))).0
          ≡ [])
        ↔ ((m ≡ [])
            × (ctx.task_type ≢ "")
            × (ctx.turn_count ≤ 20)
            × (o.lt trigger_ratio (utilisation o ctx) ≡ false)
            × (o.lt (o.hundredths 95) (utilisation o ctx) ≡ false))
  unfolding override_realtime auto_select
  empty_core [] available trigger_ratio ctx q = (
    λ e. (
      refl,
      λ t. ground (arith, eq_iff ctx.task_type ""),
      ground arith,
      ground arith,
      ground arith,
    ),
    λ (_, t, n, u, v). ground (arith, eq_iff ctx.task_type ""),
  )
  empty_core (x ∷ m) available trigger_ratio ctx q = (λ e. absurd (ground arith), λ r. cc (r.0))

  -- With the built-in strategies registered, the plan is empty exactly for a task type that is given and unknown, in a session of at most 20
  -- turns, with a utilisation over neither the compaction ratio nor 0.95.
  pub plan-empty_iff :
      (trigger_ratio : F) (available : List String) (ctx : StrategySelectionContext)
      → AllIn available builtin_ids
      → ((plan o trigger_ratio available ctx).strategy_ids ≡ []) ↔ (
          (task_type_map ctx.task_type ≡ [])
          × (ctx.task_type ≢ "")
          × (ctx.turn_count ≤ 20)
          × (o.lt trigger_ratio (utilisation o ctx) ≡ false)
          × (o.lt (o.hundredths 95) (utilisation o ctx) ≡ false))
  unfolding plan
  plan-empty_iff trigger_ratio available ctx h =
      rw
        (prefer-all (task_type_map ctx.task_type) available [] []
          (mapped-AllIn available ctx.task_type h))
        (empty_core (task_type_map ctx.task_type) available trigger_ratio ctx h.1.1.1.0)
