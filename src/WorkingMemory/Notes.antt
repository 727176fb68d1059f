-- ===== src/WorkingMemory/Notes.antt =====
-- `context_agent/models/note.py`
use context_agent.Prelude.{ℕ, String, Option, Bool, List, [], ◌∷◌, eqb, keep, not}
use context_agent.Prelude.Dict.{has}
use context_agent.Models.Values.{Metadata}

pub data NoteType : Type 0 where
  task_plan key_decision open_question risk_item : NoteType
  current_status key_constraint handoff_summary : NoteType

note_type_index : NoteType → ℕ
note_type_index task_plan = 0
note_type_index key_decision = 1
note_type_index open_question = 2
note_type_index risk_item = 3
note_type_index current_status = 4
note_type_index key_constraint = 5
note_type_index handoff_summary = 6

unfoldable pub same_note_type : NoteType → NoteType → Bool
unfolding note_type_index
same_note_type a b = eqb (note_type_index a) (note_type_index b)

-- `note_type.value`
unfoldable pub note_type_value : NoteType → String
note_type_value task_plan = "task_plan"
note_type_value key_decision = "key_decision"
note_type_value open_question = "open_question"
note_type_value risk_item = "risk_item"
note_type_value current_status = "current_status"
note_type_value key_constraint = "key_constraint"
note_type_value handoff_summary = "handoff_summary"

-- The keys of `NOTE_CONTENT_SCHEMAS[note_type]`; every type has a schema.
unfoldable pub note_content_schema : NoteType → List String
note_content_schema task_plan = "goal" ∷ "steps" ∷ "current_step_index" ∷ "completed_steps" ∷ []
note_content_schema key_decision = "decision" ∷ "rationale" ∷ "alternatives_rejected" ∷ []
note_content_schema open_question = "question" ∷ "context" ∷ "priority" ∷ []
note_content_schema risk_item = "risk" ∷ "impact" ∷ "mitigation" ∷ []
note_content_schema current_status = "phase" ∷ "progress_summary" ∷ "pending_actions" ∷ []
note_content_schema key_constraint = "constraint" ∷ "source" ∷ []
note_content_schema handoff_summary =
    "sub_agent_id" ∷ "task_summary" ∷ "result_summary" ∷ "artifacts" ∷ []

pub record WorkingNote : Type 0 where
  pub note_id : String
  pub scope_id : String
  pub session_id : String
  pub note_type : NoteType
  pub content : Metadata
  pub schema_version : ℕ
  pub tags : List String
  pub created_at : ℕ
  pub updated_at : ℕ
  pub expires_at : Option ℕ

-- `_validate_content`: the fields that it logs as missing. It rejects nothing.
unfoldable pub missing_fields : NoteType → Metadata → List String
missing_fields note_type content = keep (λ k. not (has content k)) (note_content_schema note_type)
