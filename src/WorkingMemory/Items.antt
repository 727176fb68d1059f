-- ===== src/WorkingMemory/Items.antt =====
-- The items of `WorkingMemoryManager`, and what reads items and notes together.
use context_agent.Prelude.{
  ℕ, ◌+◌, String, ◌⊎◌, inl, inr, Option, none, some, true, false, List, [], ◌∷◌, ◌++◌, map, is_nil,
  if◌then◌else◌, contains,
}
use context_agent.Prelude.Dict.{Dict, get, get_or, values}
use context_agent.Prelude.Floats.{Floats}
use context_agent.Models.Values.{Value, text, sequence}
use context_agent.Models.Context.{ContextItem, variable, detail}
use context_agent.Models.Errors.{
  AgentError, context_agent_error, memory_write_failed, memory_read_failed,
}
use context_agent.WorkingMemory.Notes.{WorkingNote, note_type_value}
use context_agent.WorkingMemory.Manager.{
  Redis, Json, WorkingMemoryManager, items_key, put_in, Called, list_notes, update_note,
}

pub record ItemJson (F : Type 0) : Type 0 where
  pub dump_item : ContextItem F → String
  pub load_item : String → Option (ContextItem F)
  -- the header and the JSON of a note's content, as `content`
  pub note_text : WorkingNote → String
  -- `content.get("_active_count", 0) + 1`; `none` where the sum raises
  pub count_up : Option Value → Option Value

module _ {R F : Type 0} (o : Floats F) (b : Redis R) (j : Json) (i : ItemJson F) where
  unfoldable pub write :
      WorkingMemoryManager R → String → String → ContextItem F → Called R (ContextItem F)
  write w scope_id session_id item =
      let key = items_key scope_id session_id in
      elim w.redis [
        | none ↦ (
          record w { local_items = put_in w.local_items key item.item_id (i.dump_item item) },
          inr item,
        )
        | some r ↦
            let (r', done) = b.hset r key item.item_id (i.dump_item item) in
            (
              record w { redis = some r' },
              if done then inr item else inl (context_agent_error memory_write_failed),
            )
      ]

  read_items : List String → Option (List (ContextItem F))
  read_items [] = some []
  read_items (raw ∷ raws) =
      let rest = read_items raws in
      elim (i.load_item raw) [
        | none ↦ none
        | some item ↦ elim rest [ none ↦ none | some items ↦ some (item ∷ items) ]
      ]

  raw_items : WorkingMemoryManager R → String → Option (Dict String)
  raw_items w key = elim w.redis [
    | none ↦ some (get_or w.local_items key [])
    | some r ↦ b.hgetall r key
  ]

  unfoldable pub list_items :
      WorkingMemoryManager R → String → String → AgentError ⊎ List (ContextItem F)
  unfolding raw_items read_items
  list_items w scope_id session_id = elim (raw_items w (items_key scope_id session_id)) [
    | none ↦ inl (context_agent_error memory_read_failed)
    | some d ↦ elim (read_items (values d)) [
      | none ↦ inl (context_agent_error memory_read_failed)
      | some items ↦ inr items
    ]
  ]

  -- `ContextItem(**item)` for a note; `timestamp` is what the default factory returns.
  unfoldable pub note_item : ℕ → WorkingNote → ContextItem F
  note_item now note = record {
    item_id = note.note_id;
    snapshot_id = "";
    source_type = "working_note";
    tier = "hot";
    modality = "text";
    language = "zh";
    memory_type = some variable;
    category = none;
    level = detail;
    score = o.one;
    active_count = 0;
    content = i.note_text note;
    raw_content_ref = none;
    metadata =
        ("note_type", text (note_type_value note.note_type)) ∷ ("tags", sequence note.tags) ∷ [];
    timestamp = now;
    updated_at = note.updated_at;
  }

  unfoldable pub to_context_items :
      WorkingMemoryManager R → String → String → ℕ → AgentError ⊎ List (ContextItem F)
  unfolding note_item
  to_context_items w scope_id session_id now = elim (list_items w scope_id session_id) [
    | inl e ↦ inl e
    | inr items ↦ elim (list_notes b j w scope_id session_id none now) [
      | inl e ↦ inl e
      | inr notes ↦ inr (items ++ map (note_item now) notes)
    ]
  ]

  -- The first loop of `mark_used`: an exception ends it, and what is written stays.
  unfoldable pub mark_items :
      WorkingMemoryManager R
      → String
      → String
      → List String
      → ℕ
      → List (ContextItem F)
      → ℕ
      → Called R ℕ
  unfolding write
  mark_items w scope_id session_id item_ids now [] updated = (w, inr updated)
  mark_items w scope_id session_id item_ids now (item ∷ items) updated =
      elim (contains item_ids item.item_id) [
        | false ↦ mark_items w scope_id session_id item_ids now items updated
        | true ↦
            let (w', r) =
              write w scope_id session_id
                (record item { active_count = item.active_count + 1; updated_at = now }) in
            elim r [
              | inl e ↦ (w', inl e)
              | inr _ ↦ mark_items w' scope_id session_id item_ids now items (updated + 1)
            ]
      ]

  -- The second loop. `none` as a sum ends it with Python's own exception, which has no code.
  unfoldable pub mark_notes :
      WorkingMemoryManager R
      → String
      → List String
      → ℕ
      → List WorkingNote
      → ℕ
      → WorkingMemoryManager R × (Option AgentError ⊎ ℕ)
  mark_notes w scope_id item_ids now [] updated = (w, inr updated)
  mark_notes w scope_id item_ids now (note ∷ notes) updated =
      elim (contains item_ids note.note_id) [
        | false ↦ mark_notes w scope_id item_ids now notes updated
        | true ↦ elim (i.count_up (get note.content "_active_count")) [
          | none ↦ (w, inl none)
          | some active ↦
              let (w', r) =
                update_note b j w scope_id note.session_id note.note_id
                  (("_active_count", active) ∷ []) now in
              elim r [
                | inl e ↦ (w', inl (some e))
                | inr _ ↦ mark_notes w' scope_id item_ids now notes (updated + 1)
              ]
        ]
      ]

  unfoldable pub mark_used :
      WorkingMemoryManager R
      → String
      → String
      → List String
      → ℕ
      → WorkingMemoryManager R × (Option AgentError ⊎ ℕ)
  unfolding mark_items mark_notes
  mark_used w scope_id session_id item_ids now =
      if is_nil item_ids then (w, inr 0) else elim (list_items w scope_id session_id) [
        | inl e ↦ (w, inl (some e))
        | inr items ↦
            let (w', r) = mark_items w scope_id session_id item_ids now items 0 in
            elim r [
              | inl e ↦ (w', inl (some e))
              | inr updated ↦ elim (list_notes b j w' scope_id session_id none now) [
                | inl e ↦ (w', inl (some e))
                | inr notes ↦ mark_notes w' scope_id item_ids now notes updated
              ]
            ]
      ]
