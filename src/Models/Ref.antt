-- ===== src/Models/Ref.antt =====
-- `context_agent/models/ref.py`. A time with no zone is read as UTC, so that a time is one number.
use context_agent.Prelude.{ℕ, String, Option, none, some, Bool, false, ltb}
use context_agent.Models.Values.{Metadata}

pub data RefType : Type 0 where
  vector graph memory scratchpad tool_result file object : RefType

pub record ContextRef : Type 0 where
  pub ref_id : String
  pub ref_type : RefType
  pub scope_id : String
  pub locator : String
  pub description : String
  pub resolved : Bool
  pub expires_at : Option ℕ
  pub metadata : Metadata
  pub created_at : ℕ

-- `now` is what `datetime.now` returns.
unfoldable pub is_expired : ContextRef → ℕ → Bool
is_expired r now = elim r.expires_at [ none ↦ false | some t ↦ ltb t now ]
