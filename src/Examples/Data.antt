-- ===== src/Examples/Data.antt =====
-- The inputs: floats in whole hundredths, a few items, a snapshot, and the collaborators' answers.
use context_agent.Prelude.{
  ℕ, refl, ◌+◌, ◌-◌, ◌*◌, ◌/◌, String, none, some, true, false, List, [], ◌∷◌, arith, ltb,
}
use context_agent.Prelude.Floats.{Floats, IsOrdered}
use context_agent.Models.Values.{text}
use context_agent.Models.Context.{
  ContextItem, ContextSnapshot, ContextOutput, semantic, variable, detail, compressed,
}
use context_agent.Models.Policy.{ExposurePolicy}
use context_agent.Aggregation.Sources.{AggregationRequest, ContextAggregator, listed, raised, fast}

abbrev pub cents : Floats ℕ
cents = record {
  zero = 0;
  one = 100;
  hundredths = λ n. n;
  of_int = λ n. n * 100;
  lt = ltb;
  add = λ a b. a + b;
  sub = λ a b. a - b;
  mul = λ a b. a * b / 100;
  div = λ a b. a * 100 / b;
}

pub cents-IsOrdered : IsOrdered cents
cents-IsOrdered = record {
  lt_asymm = λ a b h. ground arith;
  not_lt_trans = λ a b c h k. ground arith;
  zero_lt_one = refl;
}

-- `s.strip().lower()` of texts that are so already
abbrev pub same_text : String → String
same_text s = s

abbrev pub note_item : ContextItem ℕ
note_item = record {
  item_id = "n1";
  snapshot_id = "";
  source_type = "scratchpad";
  tier = "hot";
  modality = "text";
  language = "zh";
  memory_type = some semantic;
  category = none;
  level = detail;
  score = 40;
  active_count = 0;
  content = "the plan of the day";
  raw_content_ref = none;
  metadata = ("field_name", text "plan") ∷ [];
  timestamp = 1;
  updated_at = 1;
}

-- The same note from another source, with a higher score.
abbrev pub better_note : ContextItem ℕ
better_note = record note_item { score = 70; source_type = "ltm" }

abbrev pub tool_item : ContextItem ℕ
tool_item = record note_item {
  item_id = "t1";
  source_type = "tool_result";
  memory_type = some variable;
  score = 50;
  content = "exit code 0";
  metadata = ("tool_id", text "shell") ∷ [];
}

abbrev pub three_items : List (ContextItem ℕ)
three_items = note_item ∷ tool_item ∷ better_note ∷ []

abbrev pub snapshot : ContextSnapshot ℕ
snapshot = record {
  snapshot_id = "s1";
  scope_id = "team";
  user_id = "";
  session_id = "monday";
  query = "what is next";
  items = three_items;
  total_tokens = 10;
  token_budget = 100;
  degraded_sources = [];
  metadata = [];
  created_at = 5;
}

-- A policy that shows the results of one tool, and of the notes one field.
abbrev pub strict_policy : ExposurePolicy
strict_policy = record {
  policy_id = "p1";
  scope_id = "team";
  session_id = none;
  allowed_memory_types = variable ∷ [];
  allowed_scratchpad_fields = "plan" ∷ [];
  allowed_tool_ids = "shell" ∷ [];
  state_only_fields = "ltm" ∷ [];
  allowed_source_types = [];
  updated_at = 0;
}

abbrev pub request : AggregationRequest
request = record {
  scope_id = "team";
  session_id = "monday";
  query = "what is next";
  refs = [];
  token_budget = 6;
  top_k = 5;
  enable_ltm = true;
  enable_working_memory = true;
  timeout_ms = 200;
  extra_metadata = [];
  task_type = "task";
  agent_role = "executor";
  mode = fast;
  max_level = detail;
  category_filter = none;
}

-- A long-term memory that answers, and a working memory that raises.
abbrev pub aggregator : ContextAggregator ℕ
aggregator = record {
  ltm = some (record { search = λ scope_id query top_k. listed three_items; agentic = none });
  wm = some (λ scope_id session_id. raised);
  jit = none;
}

abbrev pub summary : ContextOutput ℕ
summary = record {
  output_type = compressed;
  scope_id = "team";
  session_id = "monday";
  user_id = "";
  content = "all is well";
  token_count = 2;
  snapshot = none;
  compressed_text = some "all is well";
  search_items = none;
  latency_ms = 0;
  degraded = false;
  error = none;
  created_at = 6;
  metadata = [];
}
