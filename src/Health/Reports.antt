-- ===== src/Health/Reports.antt =====
-- When a report says that a context is healthy.
use context_agent.Prelude.{
  ℕ, ◌≡◌, ◌≢◌, ◌↔◌, refl, String, Option, Bool, true, false, not, ◌&&◌, List, [], ◌∷◌, ◌++◌, map,
  keep, is_nil, length, ltb, eqb, if◌then◌else◌, if_ind, All,
}
use context_agent.Prelude.Floats.{Floats}
use context_agent.Models.Context.{ContextSnapshot, is_over_budget}
use context_agent.Health.Checker.{
  RiskType, poisoning, distraction, confusion, clash, RiskIndicator, HealthIssue, Thresholds,
  Advice, compress_context, no_risk, check_distraction, check_confusion, spread_risk, check_clash,
  conflicts_of, degraded_risk, threshold, is_risky, all_below, advice_of, advice_on,
  build_recommendations, graded, warned, check, quick_check,
}

map_nil_iff : {A B : Type 0} (f : A → B) (l : List A) → (map f l ≡ []) ↔ (l ≡ [])
map_nil_iff f [] = (λ _. refl, λ _. refl)
map_nil_iff f (x ∷ l) = (λ e. cc, λ e. cc)

append_nil_iff : {A : Type 0} (l m : List A) → (l ++ m ≡ []) ↔ ((l ≡ []) × (m ≡ []))
append_nil_iff [] m = (λ e. (refl, e), λ e. e.1)
append_nil_iff (x ∷ l) m = (λ e. cc, λ e. cc (e.0))

module _ {F : Type 0} (o : Floats F) where
  -- A risk that there is an advice on.
  abbrev IsAdvised : RiskIndicator F → Type 0
  IsAdvised r = r.risk_type ≢ poisoning

  below_step :
      (c rest : Bool) (r : RiskIndicator F) (k : List (RiskIndicator F))
      → (rest ≡ true) ↔ (k ≡ [])
      → ((c && rest) ≡ true) ↔ ((if not c then r ∷ k else k) ≡ [])
  below_step true rest r k h = h
  below_step false rest r k h = (λ e. cc, λ e. cc)

  all_below_iff :
      (t : Thresholds F) (l : List (RiskIndicator F))
      → (all_below o t l ≡ true) ↔ (keep (is_risky o t) l ≡ [])
  unfolding all_below is_risky
  all_below_iff t [] = (λ _. refl, λ _. refl)
  all_below_iff t (r ∷ l) =
      below_step (o.lt r.score (threshold o t r.risk_type)) (all_below o t l) r
        (keep (is_risky o t) l) (all_below_iff t l)

  advice_step :
      (c : Bool) (advice rest : List Advice) (r : RiskIndicator F) (k : List (RiskIndicator F))
      → advice ≢ []
      → (rest ≡ []) ↔ (k ≡ [])
      → (((if c then advice else []) ++ rest) ≡ []) ↔ ((if c then r ∷ k else k) ≡ [])
  advice_step true advice rest r k n h =
      (λ e. absurd (n ((append_nil_iff advice rest).0 e).0), λ e. cc)
  advice_step false advice rest r k n h = h

  advice_of_lem : (r : RiskType) → r ≢ poisoning → advice_of o r ≢ []
  unfolding advice_of
  advice_of_lem poisoning n e = n refl
  advice_of_lem distraction n e = cc
  advice_of_lem confusion n e = cc
  advice_of_lem clash n e = cc

  advice_on_iff :
      (t : Thresholds F) (l : List (RiskIndicator F))
      → All IsAdvised l
      → (advice_on o t l ≡ []) ↔ (keep (is_risky o t) l ≡ [])
  unfolding advice_on is_risky
  advice_on_iff t [] h = (λ _. refl, λ _. refl)
  advice_on_iff t (r ∷ l) h =
      advice_step (is_risky o t r) (advice_of o r.risk_type) (advice_on o t l) r
        (keep (is_risky o t) l) (advice_of_lem r.risk_type h.0) (advice_on_iff t l h.1)

  no_risk-IsAdvised : (r : RiskType) → r ≢ poisoning → IsAdvised (no_risk o r)
  unfolding no_risk
  no_risk-IsAdvised r h = h

  distraction-IsAdvised : (s : ContextSnapshot F) → IsAdvised (check_distraction o s)
  unfolding check_distraction
  distraction-IsAdvised s =
      if_ind IsAdvised (is_nil s.items) _ _ (λ _. no_risk-IsAdvised distraction (λ e. cc))
        (λ _ e. cc)

  spread-IsAdvised : (l : List F) → IsAdvised (spread_risk o l)
  unfolding spread_risk
  spread-IsAdvised [] = no_risk-IsAdvised confusion (λ e. cc)
  spread-IsAdvised (a ∷ []) = no_risk-IsAdvised confusion (λ e. cc)
  spread-IsAdvised (a ∷ b ∷ []) = no_risk-IsAdvised confusion (λ e. cc)
  spread-IsAdvised (a ∷ b ∷ c ∷ l) =
      if_ind IsAdvised (o.lt c (o.hundredths 80)) _ _ (λ _ e. cc)
        (λ _. no_risk-IsAdvised confusion (λ e. cc))

  confusion-IsAdvised : (s : ContextSnapshot F) → IsAdvised (check_confusion o s)
  unfolding check_confusion
  confusion-IsAdvised s =
      if_ind IsAdvised (ltb (length s.items) 5) _ _ (λ _. no_risk-IsAdvised confusion (λ e. cc))
        (λ _. spread-IsAdvised _)

  degraded-IsAdvised : (s : ContextSnapshot F) → IsAdvised (degraded_risk o s)
  unfolding degraded_risk
  degraded-IsAdvised s =
      if_ind IsAdvised (is_nil s.degraded_sources) _ _ (λ _. no_risk-IsAdvised clash (λ e. cc))
        (λ _ e. cc)

  clash-IsAdvised :
      (c : Option (List String → String → Option ℕ)) (s : ContextSnapshot F)
      → IsAdvised (check_clash o c s)
  unfolding check_clash
  clash-IsAdvised c s =
      if_ind IsAdvised (eqb (conflicts_of o c s) 0) _ _ (λ _. degraded-IsAdvised s) (λ _ e. cc)

  compress_iff :
      (s : ContextSnapshot F) (c : Bool) (a : Advice)
      → ((if c then a ∷ [] else []) ≡ []) ↔ (c ≡ false)
  compress_iff s true a = (λ e. cc, λ e. cc)
  compress_iff s false a = (λ _. refl, λ _. refl)

  issues_iff :
      (t : Thresholds F) (f : RiskIndicator F → HealthIssue F) (l : List (RiskIndicator F))
      → (all_below o t l ≡ true) ↔ (map f (keep (is_risky o t) l) ≡ [])
  issues_iff t f l =
      let below = all_below_iff t l in
      let mapped = map_nil_iff f (keep (is_risky o t) l) in
      (λ e. mapped.1 (below.0 e), λ e. below.1 (mapped.0 e))

  recommended_iff :
      (t : Thresholds F) (s : ContextSnapshot F) (l : List (RiskIndicator F))
      → All IsAdvised l
      → (build_recommendations o t l s ≡ [])
        ↔ ((map (graded o) (keep (is_risky o t) l) ≡ []) × (is_over_budget s ≡ false))
  unfolding build_recommendations
  recommended_iff t s l h =
      let advice = advice_on_iff t l h in
      let over = compress_iff s (is_over_budget s) compress_context in
      let mapped = map_nil_iff (graded o) (keep (is_risky o t) l) in
      let both =
        append_nil_iff (advice_on o t l) (if is_over_budget s then compress_context ∷ [] else []) in
      (
        λ e. (mapped.1 (advice.0 (both.0 e).0), over.0 (both.0 e).1),
        λ e. both.1 (advice.1 (mapped.0 e.0), over.1 e.1),
      )

  and_assoc : (a b c : Bool) → (a && (b && (c && true))) ≡ ((a && (b && true)) && c)
  and_assoc true true true = refl
  and_assoc true true false = refl
  and_assoc true false c = refl
  and_assoc false b c = refl

  -- A full check reports a context as healthy exactly when it reports no issue; it recommends nothing
  -- exactly when there is no issue and the snapshot is within its budget; and a context that it reports
  -- as healthy is healthy by the quick check too, which reports itself healthy exactly when it has no
  -- issue.
  pub check_iff :
      (t : Thresholds F) (checker : Option (List String → String → Option ℕ))
      (s : ContextSnapshot F)
      → (((check o t checker s).is_healthy ≡ true) ↔ ((check o t checker s).issues ≡ []))
        × (((check o t checker s).recommendations ≡ [])
            ↔ (((check o t checker s).issues ≡ []) × (is_over_budget s ≡ false)))
        × (((quick_check o t s).is_healthy ≡ true) ↔ ((quick_check o t s).issues ≡ []))
        × ((check o t checker s).is_healthy ≡ (
            (quick_check o t s).is_healthy
            && o.lt
                (check_clash o checker s).score
                (threshold o t (check_clash o checker s).risk_type)))
  unfolding check quick_check all_below
  check_iff t checker s =
      let d = check_distraction o s in
      let c = check_confusion o s in
      let k = check_clash o checker s in
      (
        issues_iff t (graded o) (d ∷ c ∷ k ∷ []),
        recommended_iff t s (d ∷ c ∷ k ∷ [])
            (distraction-IsAdvised s, (confusion-IsAdvised s, (clash-IsAdvised checker s, tt))),
        issues_iff t (warned o) (d ∷ c ∷ []),
        and_assoc (o.lt d.score (threshold o t d.risk_type))
            (o.lt c.score (threshold o t c.risk_type)) (o.lt k.score (threshold o t k.risk_type)),
      )
