-- ===== src/Health/Checker.antt =====
-- The detectors and the reports, without the wording of an issue. The checker of conflicts is another
-- program: it raises (`none`), or answers with so many conflicts.
use context_agent.Prelude.{
  ℕ, zero, suc, String, Option, none, some, Bool, true, not, ◌&&◌, List, [], ◌∷◌, ◌++◌, map, keep,
  is_nil, length, ltb, eqb, if◌then◌else◌,
}
use context_agent.Prelude.Floats.{Floats}
use context_agent.Prelude.Sort.{sort_desc}
use context_agent.Models.Context.{ContextItem, ContextSnapshot, is_over_budget}

pub data RiskType : Type 0 where
  poisoning distraction confusion clash : RiskType

pub data Severity : Type 0 where
  warning critical : Severity

pub data Advice : Type 0 where
  filter_items rerank_results resolve_conflicts compress_context investigate : Advice

pub record RiskIndicator (F : Type 0) : Type 0 where
  pub risk_type : RiskType
  pub score : F
  pub affected_item_ids : List String

-- An issue is about a risk, or about a check that has failed.
pub record HealthIssue (F : Type 0) : Type 0 where
  pub about : Option (RiskIndicator F)
  pub severity : Severity

pub record HealthReport (F : Type 0) : Type 0 where
  pub scope_id : String
  pub is_healthy : Bool
  pub risks : List (RiskIndicator F)
  pub recommendations : List Advice
  pub issues : List (HealthIssue F)
  pub total_tokens : ℕ
  pub token_budget : ℕ

pub record Thresholds (F : Type 0) : Type 0 where
  pub poisoning_threshold : F
  pub distraction_threshold : F
  pub confusion_threshold : F
  pub clash_threshold : F

module _ {F : Type 0} (o : Floats F) where
  unfoldable pub no_risk : RiskType → RiskIndicator F
  no_risk t = record { risk_type = t; score = o.zero; affected_item_ids = [] }

  -- `i.score < 0.4`
  unfoldable pub is_low : ContextItem F → Bool
  is_low i = o.lt i.score (o.hundredths 40)

  unfoldable pub check_distraction : ContextSnapshot F → RiskIndicator F
  unfolding no_risk is_low
  check_distraction snapshot =
      let low_score_items = keep is_low snapshot.items in
      if is_nil snapshot.items then no_risk distraction else record {
        risk_type = distraction;
        score = o.div (o.of_int (length low_score_items)) (o.of_int (length snapshot.items));
        affected_item_ids = map (λ (i : ContextItem F). i.item_id) low_score_items;
      }

  -- `max(0.0, v)`
  unfoldable pub floored : F → F
  floored v = if o.lt o.zero v then v else o.zero

  -- From the sorted scores: `none` where there are fewer than three.
  unfoldable pub spread_risk : List F → RiskIndicator F
  unfolding no_risk floored
  spread_risk (a ∷ b ∷ c ∷ scores) =
      if o.lt c (o.hundredths 80)
      then record {
        risk_type = confusion;
        score = floored (o.sub o.one (o.mul (o.sub a c) (o.of_int 2)));
        affected_item_ids = [];
      }
      else no_risk confusion
  spread_risk scores = no_risk confusion

  unfoldable pub check_confusion : ContextSnapshot F → RiskIndicator F
  unfolding no_risk spread_risk
  check_confusion snapshot =
      if ltb (length snapshot.items) 5
      then no_risk confusion
      else spread_risk (sort_desc o.lt (map (λ (i : ContextItem F). i.score) snapshot.items))

  -- `min(1.0, v)`
  unfoldable pub at_most_one : F → F
  at_most_one v = if o.lt v o.one then v else o.one

  -- `max(n, 1)`
  positive : ℕ → ℕ
  positive zero = 1
  positive (suc n) = suc n

  unfoldable pub degraded_risk : ContextSnapshot F → RiskIndicator F
  unfolding no_risk at_most_one
  degraded_risk snapshot = if is_nil snapshot.degraded_sources then no_risk clash else record {
    risk_type = clash;
    score = at_most_one (o.div (o.of_int (length snapshot.degraded_sources)) (o.of_int 3));
    affected_item_ids = [];
  }

  -- What the checker finds, where there is one, and it answers with a conflict.
  unfoldable pub conflicts_of : Option (List String → String → Option ℕ) → ContextSnapshot F → ℕ
  conflicts_of none snapshot = 0
  conflicts_of (some check) snapshot =
      elim (check (map (λ (i : ContextItem F). i.content) snapshot.items) snapshot.scope_id) [
        | none ↦ 0
        | some n ↦ n
      ]

  unfoldable pub check_clash :
      Option (List String → String → Option ℕ) → ContextSnapshot F → RiskIndicator F
  unfolding degraded_risk conflicts_of positive at_most_one
  check_clash checker snapshot =
      let conflicts = conflicts_of checker snapshot in
      if eqb conflicts 0 then degraded_risk snapshot else record {
        risk_type = clash;
        score =
            at_most_one (o.div (o.of_int conflicts) (o.of_int (positive (length snapshot.items))));
        affected_item_ids = [];
      }

  unfoldable pub threshold : Thresholds F → RiskType → F
  threshold t poisoning = t.poisoning_threshold
  threshold t distraction = t.distraction_threshold
  threshold t confusion = t.confusion_threshold
  threshold t clash = t.clash_threshold

  -- `r.score >= self._threshold(r.risk_type)`, the opposite of `<` for floats that are not NaN
  unfoldable pub is_risky : Thresholds F → RiskIndicator F → Bool
  unfolding threshold
  is_risky t r = not (o.lt r.score (threshold t r.risk_type))

  -- `all(r.score < self._threshold(r.risk_type) for r in risks)`
  unfoldable pub all_below : Thresholds F → List (RiskIndicator F) → Bool
  unfolding threshold
  all_below t [] = true
  all_below t (r ∷ risks) = o.lt r.score (threshold t r.risk_type) && all_below t risks

  -- The advice on a risk that is over its threshold.
  unfoldable pub advice_of : RiskType → List Advice
  advice_of poisoning = []
  advice_of distraction = filter_items ∷ []
  advice_of confusion = rerank_results ∷ []
  advice_of clash = resolve_conflicts ∷ []

  unfoldable pub advice_on : Thresholds F → List (RiskIndicator F) → List Advice
  unfolding is_risky advice_of
  advice_on t [] = []
  advice_on t (r ∷ risks) =
      (if is_risky t r then advice_of r.risk_type else []) ++ advice_on t risks

  unfoldable pub build_recommendations :
      Thresholds F → List (RiskIndicator F) → ContextSnapshot F → List Advice
  unfolding advice_on is_over_budget
  build_recommendations t risks snapshot =
      advice_on t risks ++ (if is_over_budget snapshot then compress_context ∷ [] else [])

  -- `"critical" if r.score >= 0.9 else "warning"`
  unfoldable pub graded : RiskIndicator F → HealthIssue F
  graded r = record {
    about = some r;
    severity = if o.lt r.score (o.hundredths 90) then warning else critical;
  }

  unfoldable pub warned : RiskIndicator F → HealthIssue F
  warned r = record { about = some r; severity = warning }

  unfoldable pub is_some_risk : RiskIndicator F → Bool
  is_some_risk r = o.lt o.zero r.score

  unfoldable pub check :
      Thresholds F → Option (List String → String → Option ℕ) → ContextSnapshot F → HealthReport F
  unfolding check_distraction check_confusion check_clash all_below build_recommendations graded
      is_risky is_some_risk
  check t checker snapshot =
      let risks =
        check_distraction snapshot ∷ check_confusion snapshot ∷ check_clash checker snapshot ∷ [] in
      record {
        scope_id = snapshot.scope_id;
        is_healthy = all_below t risks;
        risks = keep is_some_risk risks;
        recommendations = build_recommendations t risks snapshot;
        issues = map graded (keep (is_risky t) risks);
        total_tokens = snapshot.total_tokens;
        token_budget = snapshot.token_budget;
      }

  -- The detectors that it calls raise nothing, so its handler is never entered.
  unfoldable pub quick_check : Thresholds F → ContextSnapshot F → HealthReport F
  unfolding check_distraction check_confusion all_below warned is_risky is_some_risk
  quick_check t snapshot =
      let risks = check_distraction snapshot ∷ check_confusion snapshot ∷ [] in
      record {
        scope_id = snapshot.scope_id;
        is_healthy = all_below t risks;
        risks = keep is_some_risk risks;
        recommendations = [];
        issues = map warned (keep (is_risky t) risks);
        total_tokens = snapshot.total_tokens;
        token_budget = snapshot.token_budget;
      }
