-- ===== src/Models/Version.antt =====
-- `context_agent/models/version.py`
use context_agent.Prelude.{ℕ, String, Bool}
use context_agent.Models.Values.{Metadata}

pub record ContextVersionRecord : Type 0 where
  pub version_id : String
  pub context_id : String
  pub scope_id : String
  pub label : String
  pub state_ref : String
  pub token_count : ℕ
  pub item_count : ℕ
  pub is_compressed : Bool
  pub created_by : String
  pub created_at : ℕ
  pub metadata : Metadata
