-- ===== src/WorkingMemory/Kept.antt =====
-- What a reader finds after a write, where the notes are kept in the process.
use context_agent.Prelude.{
  ℕ, subst, ◌<◌, String, ◌≡◌, ◌≢◌, refl, sym, ap, ◌∙◌, ◌⊎◌, inl, inr, Option, none, some,
  Option-cases, Bool, true, false, List, [], if◌then◌else◌, arith, length, ◌==◌, eq_iff, ◌&&◌,
}
use context_agent.Prelude.Dict.{
  Dict, get, put, remove, get_or, get_or-put, get_or-none, get_or-some, get-put, get-remove,
  Distinct,
}
use context_agent.Models.Values.{Metadata}
use context_agent.Models.Errors.{
  AgentError, context_agent_error, note_not_found, memory_read_failed,
}
use context_agent.WorkingMemory.Notes.{WorkingNote}
use context_agent.WorkingMemory.Manager.{
  Redis, Json, WorkingMemoryManager, hash_key, put_in, list_notes, get_note, read_note,
  or_read_failed, remove_in, store, store_at, create_note, update_note, update_all, delete_note,
}

module _ {R : Type 0} (b : Redis R) (j : Json) where
  -- The note is the one with this id in this session (the sessions by their keys).
  abbrev pub is_at : String → String → String → String → String → String → Bool
  is_at scope_id session_id note_id scope session id =
      (hash_key scope_id session_id == hash_key scope session) && (note_id == id)

  lookup-put :
      (d : Dict (Dict String)) (key key' id id' raw : String)
      → get (get_or (put_in d key id raw) key' []) id'
        ≡ (if (key == key') && (id == id') then some raw else get (get_or d key' []) id')
  lookup-put d key key' id id' raw =
      ap (λ x. get x id') (get_or-put d key key' (put (get_or d key []) id raw) [])
      ∙ ground (arith, get-put (get_or d key []) id id' raw, eq_iff key key')

  get-nil : (id : String) → get {V = String} [] id ≡ none
  unfolding get
  get-nil id = refl

  lookup-remove :
      (d : Dict (Dict String)) (key key' id id' : String)
      → Distinct (get_or d key [])
      → get (get_or (remove_in d key id) key' []) id'
        ≡ (if (key == key') && (id == id') then none else get (get_or d key' []) id')
  unfolding remove_in
  lookup-remove d key key' id id' h = elim (Option-cases (get d key)) [
    | inl e ↦ ground (arith, eq_iff key key', get_or-none d key [], e, get-nil id')
    | inr (notes, e) ↦
        let k : get_or d key [] ≡ notes = get_or-some d key [] notes e in
        rw (e, remove_in)
          (ap (λ x. get x id') (get_or-put d key key' (remove notes id) [])
            ∙ ground (arith, get-remove notes id id' (subst Distinct k h), k, eq_iff key key'))
  ]

  -- Without Redis a note is looked up in the dict of its session.
  local-get_note :
      (w : WorkingMemoryManager R) (scope session id : String)
      → w.redis ≡ none
      → get_note b j w scope session id
        ≡ read_note b j (get (get_or w.local (hash_key scope session) []) id)
  unfolding get_note
  local-get_note w scope session id h =
      ap
        (λ (r : Option R). elim r [
          | none ↦ read_note b j (get (get_or w.local (hash_key scope session) []) id)
          | some r ↦ elim (b.hget r (hash_key scope session) id) [
            | none ↦ inl (context_agent_error memory_read_failed)
            | some raw ↦ read_note b j raw
          ]
        ])
        h

  -- The JSON of a note is a text that is read back as the note.
  abbrev pub ReadsBack : WorkingNote → Type 0
  ReadsBack note = (j.load (j.dump note) ≡ some note) × (j.dump note ≢ "")

  read_note-dump :
      (note : WorkingNote) → ReadsBack note → read_note b j (some (j.dump note)) ≡ inr note
  unfolding read_note or_read_failed
  read_note-dump note (e, n) =
      let full : (j.dump note == "") ≡ false = ground (arith, eq_iff (j.dump note) "") in
      ap
        (λ c.
          if c
          then inl (context_agent_error note_not_found)
          else or_read_failed b j (j.load (j.dump note)))
        full
      ∙ ap (λ x. or_read_failed b j x) e

  by_place :
      (c : Bool) (o : Option String) (raw : String) {new old : AgentError ⊎ WorkingNote}
      → read_note b j (some raw) ≡ new
      → old ≡ read_note b j o
      → read_note b j (if c then some raw else o) ≡ (if c then new else old)
  by_place true o raw h k = h
  by_place false o raw h k = sym k

  after_put :
      (w w' : WorkingMemoryManager R) (key : String) (note : WorkingNote)
      (scope session id : String)
      → w.redis ≡ none
      → w' ≡ record w { local = put_in w.local key note.note_id (j.dump note) }
      → ReadsBack note
      → get_note b j w' scope session id ≡ (
          if (key == hash_key scope session) && (note.note_id == id)
          then inr note
          else get_note b j w scope session id)
  after_put w w' key note scope session id h e r =
      local-get_note w' scope session id (ap (λ (x : WorkingMemoryManager R). x.redis) e ∙ h)
      ∙ ap
          (λ (x : WorkingMemoryManager R).
            read_note b j (get (get_or x.local (hash_key scope session) []) id))
          e
      ∙ ap (λ x. read_note b j x)
          (lookup-put w.local key (hash_key scope session) note.note_id id (j.dump note))
      ∙ by_place ((key == hash_key scope session) && (note.note_id == id))
          (get (get_or w.local (hash_key scope session) []) id) (j.dump note)
          (read_note-dump note r) (local-get_note w scope session id h)

  created :
      (max_notes_per_session now : ℕ) (w : WorkingMemoryManager R) (note : WorkingNote)
      (existing : List WorkingNote)
      → w.redis ≡ none
      → list_notes b j w note.scope_id note.session_id none now ≡ inr existing
      → length existing < max_notes_per_session
      → create_note b j max_notes_per_session w note now ≡ (
        record w {
          local =
              put_in w.local (hash_key note.scope_id note.session_id) note.note_id (j.dump note);
        },
        inr note,
      )
  unfolding create_note store
  created m now w note existing h l few = ground arith

  updated_to :
      (now : ℕ) (w : WorkingMemoryManager R) (note : WorkingNote) (updates : Metadata)
      (scope_id session_id : String)
      → w.redis ≡ none
      → get_note b j w scope_id session_id note.note_id ≡ inr note
      → (let new = record note {
        content = update_all b j note.content updates;
        updated_at = now;
      } in
          update_note b j w scope_id session_id note.note_id updates now ≡ (
            record w {
              local = put_in w.local (hash_key scope_id session_id) note.note_id (j.dump new);
            },
            inr new,
          ))
  unfolding update_note store_at
  updated_to now w note updates scope_id session_id h found = ground arith

  -- A note that is updated is found with its updated content in its own place, and every other place
  -- reads as before. This holds without Redis, for a note whose JSON reads back.
  pub get_note-update_note :
      (now : ℕ) (w : WorkingMemoryManager R) (note : WorkingNote) (updates : Metadata)
      → (scope_id session_id scope session id : String) → w.redis ≡ none
      → get_note b j w scope_id session_id note.note_id ≡ inr note
      → ReadsBack (record note { content = update_all b j note.content updates; updated_at = now })
      → (let new = record note {
        content = update_all b j note.content updates;
        updated_at = now;
      } in
          let (w', r) = update_note b j w scope_id session_id note.note_id updates now in
          (r ≡ inr new)
          × (get_note b j w' scope session id ≡ (
              if is_at scope_id session_id note.note_id scope session id
              then inr new
              else get_note b j w scope session id)))
  get_note-update_note now w note updates scope_id session_id scope session id h found r =
      let e = updated_to now w note updates scope_id session_id h found in
      (
        ap (λ x. x.1) e,
        after_put w (update_note b j w scope_id session_id note.note_id updates now).0
            (hash_key scope_id session_id)
            (record note { content = update_all b j note.content updates; updated_at = now }) scope
            session id h (ap (λ x. x.0) e) r,
      )

  deleted :
      (w : WorkingMemoryManager R) (scope_id session_id note_id : String)
      → w.redis ≡ none
      → (delete_note b j w scope_id session_id note_id).0
        ≡ record w { local = remove_in w.local (hash_key scope_id session_id) note_id }
  unfolding delete_note
  deleted w scope_id session_id note_id h = ground arith

  not_found :
      (c : Bool) (o : Option String) {old : AgentError ⊎ WorkingNote}
      → old ≡ read_note b j o
      → read_note b j (if c then none else o)
        ≡ (if c then inl (context_agent_error note_not_found) else old)
  unfolding read_note
  not_found true o k = refl
  not_found false o k = sym k

  -- A note that is deleted is not found any more, and every other place reads as before. This holds
  -- without Redis, where the ids of the session's notes are distinct.
  pub get_note-delete_note :
      (w : WorkingMemoryManager R) (scope_id session_id note_id scope session id : String)
      → w.redis ≡ none
      → Distinct (get_or w.local (hash_key scope_id session_id) [])
      → get_note b j (delete_note b j w scope_id session_id note_id).0 scope session id ≡ (
          if is_at scope_id session_id note_id scope session id
          then inl (context_agent_error note_not_found)
          else get_note b j w scope session id)
  get_note-delete_note w scope_id session_id note_id scope session id h d =
      let e = deleted w scope_id session_id note_id h in
      let key = hash_key scope_id session_id in
      ap (λ (x : WorkingMemoryManager R). get_note b j x scope session id) e
      ∙ local-get_note (record w { local = remove_in w.local key note_id }) scope session id h
      ∙ ap (λ x. read_note b j x) (lookup-remove w.local key (hash_key scope session) note_id id d)
      ∙ not_found ((key == hash_key scope session) && (note_id == id))
          (get (get_or w.local (hash_key scope session) []) id)
          (local-get_note w scope session id h)
