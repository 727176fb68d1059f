-- ===== src/Models/Metrics.antt =====
-- `context_agent/models/metrics.py`
use context_agent.Prelude.{ℕ, String, Option, Bool, List}

pub record LatencyBreakdown (F : Type 0) : Type 0 where
  pub hot_tier_ms : F
  pub warm_tier_ms : F
  pub cold_tier_ms : F
  pub rerank_ms : F
  pub exposure_control_ms : F
  pub compression_ms : F

pub record MetricRecord (F : Type 0) : Type 0 where
  pub record_id : String
  pub scope_id : String
  pub uc_id : String
  pub operation : String
  pub strategy : String
  pub latency_ms : F
  pub status : String
  pub token_count : Option ℕ
  pub health_score : Option F
  pub latency_breakdown : LatencyBreakdown F
  pub quality_score : F
  pub token_input : ℕ
  pub token_output : ℕ
  pub degraded_count : ℕ
  pub rerank_skipped : Bool
  pub error : Option String
  pub timestamp : ℕ

pub record AlertConfig (F : Type 0) : Type 0 where
  pub config_id : String
  pub scope_id : Option String
  pub latency_p95_threshold_ms : F
  pub latency_p99_threshold_ms : F
  pub quality_score_threshold : F
  pub degradation_rate_threshold : F
  pub error_rate_threshold : F
  pub token_budget_threshold : ℕ
  pub health_score_min : F
  pub cooldown_s : F
  pub notification_channels : List String
  pub webhook_url : Option String
  pub updated_at : ℕ
