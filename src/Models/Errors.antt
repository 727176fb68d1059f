-- ===== src/Models/Errors.antt =====
-- `context_agent/utils/errors.py`: the codes and the exception classes, without their messages.
use context_agent.Prelude.{String}

pub data ErrorCode : Type 0 where
  internal_error timeout not_implemented configuration_error : ErrorCode
  invalid_scope_id invalid_output_type invalid_ref_type missing_required_field : ErrorCode
  invalid_policy : ErrorCode
  openjiuwen_unavailable redis_unavailable vector_db_unavailable : ErrorCode
  object_store_unavailable llm_service_error graph_db_unavailable : ErrorCode
  adapter_mapping_error : ErrorCode
  retrieval_failed no_results_found rerank_failed budget_exceeded : ErrorCode
  compression_failed strategy_not_found memory_write_failed memory_read_failed : ErrorCode
  version_not_found note_not_found : ErrorCode
  unauthorized policy_violation scope_mismatch : ErrorCode

-- A constructor for each class of the hierarchy, with what its constructor takes and keeps.
pub data AgentError : Type 0 where
  context_agent_error : ErrorCode → AgentError
  timeout_error : String → AgentError
  adapter_error : String → ErrorCode → AgentError
  retrieval_error : ErrorCode → AgentError
  compression_error : String → AgentError
  strategy_not_found_error : String → AgentError
  policy_violation_error : AgentError
  unauthorized_error : String → AgentError

unfoldable pub code_of : AgentError → ErrorCode
code_of (context_agent_error c) = c
code_of (timeout_error operation) = timeout
code_of (adapter_error adapter c) = c
code_of (retrieval_error c) = c
code_of (compression_error strategy_id) = compression_failed
code_of (strategy_not_found_error strategy_id) = strategy_not_found
code_of policy_violation_error = policy_violation
code_of (unauthorized_error scope_id) = unauthorized
