-- ===== src/Models/Policy.antt =====
-- `context_agent/models/policy.py`
use context_agent.Prelude.{ℕ, String, Option, Bool, List, ◌||◌, is_nil, any, contains}
use context_agent.Models.Values.{Value, value_in}
use context_agent.Models.Context.{MemoryType, same_memory_type}

pub record ExposurePolicy : Type 0 where
  pub policy_id : String
  pub scope_id : String
  pub session_id : Option String
  pub allowed_memory_types : List MemoryType
  pub allowed_scratchpad_fields : List String
  pub allowed_tool_ids : List String
  pub state_only_fields : List String
  pub allowed_source_types : List String
  pub updated_at : ℕ

unfoldable pub allows_memory_type : ExposurePolicy → MemoryType → Bool
allows_memory_type p t =
    is_nil p.allowed_memory_types || any (λ a. same_memory_type t a) p.allowed_memory_types

unfoldable pub allows_source_type : ExposurePolicy → String → Bool
allows_source_type p t = is_nil p.allowed_source_types || contains p.allowed_source_types t

unfoldable pub allows_tool : ExposurePolicy → Value → Bool
allows_tool p t = is_nil p.allowed_tool_ids || value_in p.allowed_tool_ids t
