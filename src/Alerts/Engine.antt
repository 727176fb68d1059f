-- ===== src/Alerts/Engine.antt =====
-- The alert engine: thresholds, cooldowns, and the alerts that it fires. Its clock and its webhook
-- are outside: an alert is a value, and the clock is what each check of a record reads.
use context_agent.Prelude.{
  ℕ, String, text_append, Option, none, some, Bool, false, List, [], ◌∷◌, ◌++◌, ◌==◌, ltb,
  if◌then◌else◌,
}
use context_agent.Prelude.Dict.{Dict, get, put}
use context_agent.Prelude.Floats.{Floats}
use context_agent.Models.Metrics.{MetricRecord, AlertConfig}

-- What `_fire` is called with, the rendered message and the record's own fields aside.
pub record Alert : Type 0 where
  pub alert_key : String
  pub scope_id : String
  pub operation : String

module _ (F : Type 0) where
  -- What `time.monotonic()` returns in `_in_cooldown`, and after the alert has been fired.
  pub record Readings : Type 0 where
    pub checked_at : F
    pub fired_at : F

  pub record AlertEngine : Type 0 where
    pub config : AlertConfig F
    pub cooldowns : Dict F

module _ {F : Type 0} (o : Floats F) where
  unfoldable pub update_config : AlertEngine F → AlertConfig F → AlertEngine F
  update_config e config = record e { config = config }

  over_token_budget : Option ℕ → ℕ → Bool
  over_token_budget none threshold = false
  over_token_budget (some n) threshold = ltb threshold n

  unhealthy : Option F → F → Bool
  unhealthy none minimum = false
  unhealthy (some h) minimum = o.lt h minimum

  -- The five checks of a record: whether it is triggered, and its key.
  unfoldable pub checks : AlertConfig F → MetricRecord F → List (Bool × String)
  unfolding over_token_budget unhealthy
  checks cfg r =
      (o.lt cfg.latency_p95_threshold_ms r.latency_ms, "latency_breach")
      ∷ (over_token_budget r.token_count cfg.token_budget_threshold, "token_budget_breach")
      ∷ (r.status == "error", "error_status")
      ∷ (unhealthy r.health_score cfg.health_score_min, "low_health_score")
      ∷ (o.lt r.quality_score cfg.quality_score_threshold, "quality_degradation")
      ∷ []

  -- f"{alert_key}:{scope_id}:{operation}"
  unfoldable pub full_key : Alert → String
  full_key a =
      text_append a.alert_key
        (text_append ":" (text_append a.scope_id (text_append ":" a.operation)))

  unfoldable pub still_cooling : Option F → F → F → Bool
  still_cooling none cooldown now = false
  still_cooling (some last) cooldown now = o.lt (o.sub now last) cooldown

  -- `_in_cooldown`
  unfoldable pub in_cooldown : AlertEngine F → String → F → Bool
  unfolding still_cooling
  in_cooldown e key now = still_cooling (get e.cooldowns key) e.config.cooldown_s now

  -- One turn of the loop over the checks: the engine after it, and the alert that it fires.
  unfoldable pub check_one : AlertEngine F → Bool → Alert → Readings F → AlertEngine F × List Alert
  check_one e triggered a now =
      if triggered
      then (if in_cooldown e (full_key a) now.checked_at
          then (e, [])
          else (record e { cooldowns = put e.cooldowns (full_key a) now.fired_at }, a ∷ []))
      else (e, [])

  unfoldable pub run_checks :
      AlertEngine F
      → List (Bool × String)
      → String
      → String
      → (String → Readings F)
      → AlertEngine F × List Alert
  run_checks e [] scope_id operation now = (e, [])
  run_checks e ((triggered, key) ∷ rest) scope_id operation now =
      let (e', fired) =
        check_one e triggered
          (record { alert_key = key; scope_id = scope_id; operation = operation }) (now key) in
      let (e'', later) = run_checks e' rest scope_id operation now in (e'', fired ++ later)

  -- `_evaluate_one`; `now` is the readings made in the check of each key.
  unfoldable pub evaluate_one :
      AlertEngine F → MetricRecord F → (String → Readings F) → AlertEngine F × List Alert
  evaluate_one e r now = run_checks e (checks e.config r) r.scope_id r.operation now

  -- Each record with the readings of the clock in its evaluation.
  unfoldable pub evaluate_batch :
      AlertEngine F → List (MetricRecord F × (String → Readings F)) → AlertEngine F × List Alert
  evaluate_batch e [] = (e, [])
  evaluate_batch e ((r, now) ∷ batch) =
      let (e', fired) = evaluate_one e r now in
      let (e'', later) = evaluate_batch e' batch in (e'', fired ++ later)
