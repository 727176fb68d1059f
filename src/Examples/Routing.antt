-- ===== src/Examples/Routing.antt =====
-- Compression and alerts.
use context_agent.Prelude.{ℕ, refl, String, ◌≡◌, ◌≢◌, none, some, true, false, [], ◌∷◌, All}
use context_agent.Prelude.Dict.{has, get}
use context_agent.Models.Context.{ContextOutput}
use context_agent.Models.Metrics.{MetricRecord, AlertConfig}
use context_agent.Compression.Registry.{
  Strategy, Registry, output, Builtins, ok, ensure_default_strategies_registered,
}
use context_agent.Compression.Registry
use context_agent.Compression.Scheduler.{StrategySelectionContext, StrategySchedule, schedule}
use context_agent.Compression.Ensured.{Extends}
use context_agent.Compression.Router.{route_and_compress}
use context_agent.Compression.Outcome.{Outcome, route_and_compress-Outcome}
use context_agent.Alerts.Engine
use context_agent.Alerts.Engine.{
  Alert, AlertEngine, full_key, check_one, in_cooldown, still_cooling, evaluate_batch,
}
use context_agent.Alerts.Cooldown.{evaluate_batch_cooling, check_one_once}
use context_agent.Examples.Data.{cents, snapshot, summary}

-- A registry with one strategy of another name, which fails.
abbrev broken : Strategy ℕ
broken = record {
  strategy_id = "broken";
  has_llm = false;
  llm = none;
  compress = λ llm snapshot. Registry.raised "no";
}

abbrev registry : Registry.Registry ℕ
registry = ("broken", broken) ∷ []

-- Built-in strategies of which the first fails and the others answer.
abbrev builtins : Builtins ℕ
builtins = record {
  qa = λ llm snapshot. Registry.raised "no model";
  task = λ llm snapshot. output summary;
  long_session = λ llm snapshot. output summary;
  realtime = λ llm snapshot. output summary;
  compaction = λ llm snapshot. output summary;
}

abbrev selection_context : StrategySelectionContext
selection_context = record {
  scope_id = "team";
  task_type = "qa";
  agent_role = "";
  token_used = 99;
  token_budget = 100;
  turn_count = 3;
  has_multimodal = false;
  metadata = [];
}

abbrev poem_context : StrategySelectionContext
poem_context = record selection_context { task_type = "poem"; token_used = 9 }

abbrev not_found : String → String
not_found s = s

route_and_compress-Outcome_example :
    (r' : Registry.Registry ℕ) × (s : StrategySchedule) × (out : ContextOutput ℕ) × (schedule cents
        builtins 80 registry selection_context
      ≡ ok (r', s))
    × (route_and_compress cents not_found builtins 80 registry snapshot selection_context 7
        ≡ ok (r', out))
    × Extends registry r'
    × All (λ sid. has r' sid ≡ true) s.strategy_ids
    × Outcome cents not_found r' snapshot 7 s.strategy_ids s.strategy_ids out
route_and_compress-Outcome_example =
    route_and_compress-Outcome cents not_found builtins 80 registry snapshot selection_context 7

abbrev alert_config : AlertConfig ℕ
alert_config = record {
  config_id = "a1";
  scope_id = none;
  latency_p95_threshold_ms = 300;
  latency_p99_threshold_ms = 800;
  quality_score_threshold = 60;
  degradation_rate_threshold = 10;
  error_rate_threshold = 5;
  token_budget_threshold = 1000;
  health_score_min = 50;
  cooldown_s = 300;
  notification_channels = [];
  webhook_url = none;
  updated_at = 0;
}

abbrev slow_record : MetricRecord ℕ
slow_record = record {
  record_id = "m1";
  scope_id = "team";
  uc_id = "";
  operation = "aggregate";
  strategy = "";
  latency_ms = 900;
  status = "error";
  token_count = none;
  health_score = none;
  latency_breakdown = record {
    hot_tier_ms = 0;
    warm_tier_ms = 0;
    cold_tier_ms = 0;
    rerank_ms = 0;
    exposure_control_ms = 0;
    compression_ms = 0;
  };
  quality_score = 100;
  token_input = 0;
  token_output = 0;
  degraded_count = 0;
  rerank_skipped = false;
  error = none;
  timestamp = 0;
}

abbrev slow_key : String
slow_key = "latency_breach:team:aggregate"

-- The latency alert was fired at 1000.
abbrev engine : AlertEngine ℕ
engine = record { config = alert_config; cooldowns = (slow_key, 1000) ∷ [] }

abbrev at_1200 : String → Engine.Readings ℕ
at_1200 key = record { checked_at = 1200; fired_at = 1201 }

evaluate_batch_cooling_example :
    All
      (λ a. full_key cents a ≢ slow_key)
      (evaluate_batch cents engine ((slow_record, at_1200) ∷ [])).1
evaluate_batch_cooling_example =
    evaluate_batch_cooling cents slow_key 1000 300 engine ((slow_record, at_1200) ∷ []) slow_fired
      refl ((λ k. refl), tt)
  where
    slow_fired : get engine.cooldowns slow_key ≡ some 1000
    slow_fired = unfold get in refl

-- An alert whose key has not been fired yet.
abbrev new_alert : Alert
new_alert = record { alert_key = "error_status"; scope_id = "team"; operation = "aggregate" }

abbrev at_1100 : Engine.Readings ℕ
at_1100 = record { checked_at = 1100; fired_at = 1101 }

check_one_once_example :
    ((check_one cents engine true new_alert at_1100).1 ≡ new_alert ∷ [])
    × All
        (λ b. full_key cents b ≢ full_key cents new_alert)
        (evaluate_batch cents
          (check_one cents engine true new_alert at_1100).0
          ((slow_record, at_1200) ∷ [])).1
check_one_once_example =
    check_one_once cents engine new_alert at_1100 ((slow_record, at_1200) ∷ []) not_cooling
      ((λ k. refl), tt)
  where
    not_cooling : in_cooldown cents engine (full_key cents new_alert) 1100 ≡ false
    not_cooling = unfold in_cooldown still_cooling get full_key in refl
