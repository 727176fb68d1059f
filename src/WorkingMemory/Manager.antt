-- ===== src/WorkingMemory/Manager.antt =====
-- The notes of `WorkingMemoryManager`. Redis and the JSON of a note are other programs: a command of
-- Redis gives its state afterwards and its answer, `none` where it raises.
use context_agent.Prelude.{
  ℕ, ◌-◌, ◌/◌, String, ◌⊎◌, inl, inr, Option, none, some, Bool, true, false, List, [], ◌∷◌,
  if◌then◌else◌, leb, ltb, length, text_append, ◌==◌,
}
use context_agent.Prelude.Dict.{Dict, get, put, remove, get_or, values}
use context_agent.Prelude.Sort.{sort_desc}
use context_agent.Models.Values.{Metadata}
use context_agent.Models.Errors.{
  AgentError, context_agent_error, internal_error, memory_write_failed, memory_read_failed,
  note_not_found,
}
use context_agent.WorkingMemory.Notes.{NoteType, WorkingNote, same_note_type}

pub record Redis (R : Type 0) : Type 0 where
  pub hset : R → String → String → String → R × Bool
  pub hget : R → String → String → Option (Option String)
  pub hgetall : R → String → Option (Dict String)
  pub hdel : R → String → String → R × Bool
  pub expire : R → String → ℕ → R × Bool
  pub delete : R → String → R × Bool

pub record Json : Type 0 where
  pub dump : WorkingNote → String
  pub load : String → Option WorkingNote

-- `redis` is `none` where there is no client.
pub record WorkingMemoryManager (R : Type 0) : Type 0 where
  pub redis : Option R
  pub local : Dict (Dict String)
  pub local_items : Dict (Dict String)

unfoldable pub hash_key : String → String → String
hash_key scope_id session_id =
    text_append "ca:wm:" (text_append scope_id (text_append ":" session_id))

unfoldable pub items_key : String → String → String
items_key scope_id session_id =
    text_append "ca:wm-items:" (text_append scope_id (text_append ":" session_id))

-- `self._local.setdefault(key, {})[field] = value`
abbrev pub put_in : Dict (Dict String) → String → String → String → Dict (Dict String)
put_in d key field value = put d key (put (get_or d key []) field value)

-- `self._local.get(key, {}).pop(note_id, None)`: a session that is not there is not made.
unfoldable pub remove_in : Dict (Dict String) → String → String → Dict (Dict String)
remove_in d key field = elim (get d key) [ none ↦ d | some notes ↦ put d key (remove notes field) ]

-- What a call comes to: the state after it, and a value or an exception.
abbrev pub Called : Type 0 → Type 0 → Type 0
Called R A = WorkingMemoryManager R × (AgentError ⊎ A)

module _ {R : Type 0} (b : Redis R) (j : Json) where
  -- The texts that Redis or the process holds under the key; `none` where it raises.
  unfoldable pub raw_map : WorkingMemoryManager R → String → Option (Dict String)
  raw_map w key = elim w.redis [ none ↦ some (get_or w.local key []) | some r ↦ b.hgetall r key ]

  -- `note.expires_at and note.expires_at < now`
  unfoldable pub is_expired : Option ℕ → ℕ → Bool
  is_expired none now = false
  is_expired (some t) now = ltb t now

  unfoldable pub is_listed : Option NoteType → ℕ → WorkingNote → Bool
  unfolding is_expired
  is_listed note_type now note =
      if is_expired note.expires_at now
      then false
      else elim note_type [ none ↦ true | some t ↦ same_note_type note.note_type t ]

  -- The loop; `none` where a text is no note.
  read_notes : Option NoteType → ℕ → List String → Option (List WorkingNote)
  unfolding is_listed
  read_notes note_type now [] = some []
  read_notes note_type now (raw ∷ raws) =
      let rest = read_notes note_type now raws in
      elim (j.load raw) [
        | none ↦ none
        | some note ↦ elim rest [
          | none ↦ none
          | some notes ↦ some (if is_listed note_type now note then note ∷ notes else notes)
        ]
      ]

  -- `sorted(notes, key=lambda n: n.created_at)`, which keeps the order of notes of one time: the
  -- descending sort by the opposite order.
  unfoldable pub sort_notes : List WorkingNote → List WorkingNote
  sort_notes notes = sort_desc (λ (a b : WorkingNote). ltb b.created_at a.created_at) notes

  unfoldable pub or_read_failed : {A : Type 0} → Option A → AgentError ⊎ A
  or_read_failed none = inl (context_agent_error memory_read_failed)
  or_read_failed (some a) = inr a

  unfoldable pub list_notes :
      WorkingMemoryManager R → String → String → Option NoteType → ℕ → AgentError ⊎ List WorkingNote
  unfolding or_read_failed raw_map read_notes sort_notes
  list_notes w scope_id session_id note_type now = elim (raw_map w (hash_key scope_id session_id)) [
    | none ↦ inl (context_agent_error memory_read_failed)
    | some d ↦ elim (read_notes note_type now (values d)) [
      | none ↦ inl (context_agent_error memory_read_failed)
      | some notes ↦ inr (sort_notes notes)
    ]
  ]

  -- `if raw: return WorkingNote.model_validate_json(raw)`; an empty text is no note.
  unfoldable pub read_note : Option String → AgentError ⊎ WorkingNote
  unfolding or_read_failed
  read_note none = inl (context_agent_error note_not_found)
  read_note (some raw) =
      if raw == "" then inl (context_agent_error note_not_found) else or_read_failed (j.load raw)

  unfoldable pub get_note :
      WorkingMemoryManager R → String → String → String → AgentError ⊎ WorkingNote
  unfolding read_note
  get_note w scope_id session_id note_id = elim w.redis [
    | none ↦ read_note (get (get_or w.local (hash_key scope_id session_id) []) note_id)
    | some r ↦ elim (b.hget r (hash_key scope_id session_id) note_id) [
      | none ↦ inl (context_agent_error memory_read_failed)
      | some raw ↦ read_note raw
    ]
  ]

  -- The end of a write to Redis.
  written : {A : Type 0} → WorkingMemoryManager R → R × Bool → A → Called R A
  written w (r, true) a = (record w { redis = some r }, inr a)
  written w (r, false) a =
      (record w { redis = some r }, inl (context_agent_error memory_write_failed))

  -- `hset`, and then what follows where it does not raise
  then_redis : R × Bool → (R → R × Bool) → R × Bool
  then_redis (r, true) f = f r
  then_redis (r, false) f = (r, false)

  -- The lifetime of the whole hash is set to that of the new note, in whole seconds.
  set_ttl : String → Option ℕ → ℕ → R → R × Bool
  set_ttl key none now r = (r, true)
  set_ttl key (some t) now r =
      let ttl = (t - now) / 1000000 in if ltb 0 ttl then b.expire r key ttl else (r, true)

  -- The write of a note: `now` is read for its lifetime, where it is given.
  unfoldable pub store :
      WorkingMemoryManager R → WorkingNote → (R → R × Bool) → Called R WorkingNote
  unfolding written then_redis
  store w note after =
      let key = hash_key note.scope_id note.session_id in
      elim w.redis [
        | none ↦ (record w { local = put_in w.local key note.note_id (j.dump note) }, inr note)
        | some r ↦ written w (then_redis (b.hset r key note.note_id (j.dump note)) after) note
      ]

  unfoldable pub create_note : ℕ → WorkingMemoryManager R → WorkingNote → ℕ → Called R WorkingNote
  unfolding store set_ttl
  create_note max_notes_per_session w note now =
      elim (list_notes w note.scope_id note.session_id none now) [
        | inl e ↦ (w, inl e)
        | inr existing ↦
            if leb max_notes_per_session (length existing)
            then (w, inl (context_agent_error internal_error))
            else store w note (set_ttl (hash_key note.scope_id note.session_id) note.expires_at now)
      ]

  -- `content.update(updates)`
  unfoldable pub update_all : Metadata → Metadata → Metadata
  update_all content [] = content
  update_all content ((k, v) ∷ updates) = update_all (put content k v) updates

  -- The note is read under the given session and written under it.
  unfoldable pub store_at : WorkingMemoryManager R → String → WorkingNote → Called R WorkingNote
  unfolding written
  store_at w key note = elim w.redis [
    | none ↦ (record w { local = put_in w.local key note.note_id (j.dump note) }, inr note)
    | some r ↦ written w (b.hset r key note.note_id (j.dump note)) note
  ]

  unfoldable pub update_note :
      WorkingMemoryManager R → String → String → String → Metadata → ℕ → Called R WorkingNote
  unfolding store_at update_all
  update_note w scope_id session_id note_id content_updates now =
      elim (get_note w scope_id session_id note_id) [
        | inl e ↦ (w, inl e)
        | inr note ↦
            store_at w (hash_key scope_id session_id)
              (record note { content = update_all note.content content_updates; updated_at = now })
      ]

  unfoldable pub delete_note : WorkingMemoryManager R → String → String → String → Called R Bool
  unfolding remove_in written
  delete_note w scope_id session_id note_id =
      let key = hash_key scope_id session_id in
      elim w.redis [
        | none ↦ (record w { local = remove_in w.local key note_id }, inr true)
        | some r ↦ written w (b.hdel r key note_id) true
      ]

  unfoldable pub clear_session : WorkingMemoryManager R → String → String → Called R Bool
  unfolding written then_redis
  clear_session w scope_id session_id =
      let key = hash_key scope_id session_id in
      let items = items_key scope_id session_id in
      elim w.redis [
        | none ↦ (
          record w { local = remove w.local key; local_items = remove w.local_items items },
          inr true,
        )
        | some r ↦ written w (then_redis (b.delete r key) (λ r'. b.delete r' items)) true
      ]
