-- ===== src/Versions/History.antt =====
-- What a version gives back, and what a listing shows.
use context_agent.Prelude.{
  ℕ, ◌<◌, suc, take, All-take, String, ◌≡◌, refl, ap, ◌∙◌, Option, none, some, true, false, List,
  [], ◌∷◌, ◌++◌, arith, ◌==◌, eq_iff, if◌then◌else◌, All, keep, keep-In, All→, All-of, Option-cases,
  inl, inr,
}
use context_agent.Prelude.Dict.{
  Dict, get, put, has, get_or, get-put, get-remove, Distinct, get_or-put, get_or-map_values,
}
use context_agent.Prelude.Sort.{sort_desc, sort_desc-append_first, All-sort_desc}
use context_agent.Models.Context.{ContextSnapshot}
use context_agent.Models.Version.{ContextVersionRecord}
use context_agent.Models.Errors.{context_agent_error, version_not_found}
use context_agent.Versions.Manager.{
  ObjectStore, VersionManager, restored, failed, store, load, register, new_record, create_snapshot,
  restore, older, list_versions, other_version, delete_version, forget, context_key, object_key,
}

-- S3 gives back the object that was last put under a key.
abbrev pub ReadsBack : {S : Type 0} → ObjectStore S → Type 0
ReadsBack {S} b =
    (s s' : S) (bucket key body : String)
    → b.put_object s bucket key body ≡ some s'
    → b.get_object s' bucket key ≡ some body

-- No object stands under the version's key yet.
abbrev pub IsNewVersion : {S : Type 0} → ObjectStore S → VersionManager S → String → Type 0
IsNewVersion {S} b m version_id =
    (s : S) → m.s3 ≡ some s → b.get_object s m.bucket (object_key version_id) ≡ none

module _ {S : Type 0} (b : ObjectStore S) where
  load-store :
      (m : VersionManager S) (version_id state : String)
      → ReadsBack b
      → IsNewVersion b m version_id
      → load b (store b m version_id state) version_id ≡ inr (some state)
  unfolding load store has
  load-store m version_id state reads fresh = elim (Option-cases m.s3) [
    | inl e ↦
        ground
          (arith, eq_iff version_id version_id, get-put m.local_data version_id version_id state)
    | inr (s, e) ↦ elim (Option-cases (b.put_object s m.bucket (object_key version_id) state)) [
      | inl q ↦ ground (
        arith,
        fresh s e,
        eq_iff version_id version_id,
        get-put m.local_data version_id version_id state,
      )
      | inr (s', q) ↦ ground (arith, reads s s' m.bucket (object_key version_id) state q)
    ]
  ]

  local-store :
      (m : VersionManager S) (version_id state : String)
      → (store b m version_id state).local ≡ m.local
  unfolding store
  local-store m version_id state = elim (Option-cases m.s3) [
    | inl e ↦ rw e refl
    | inr (s, e) ↦ elim (Option-cases (b.put_object s m.bucket (object_key version_id) state)) [
      | inl q ↦ ground arith
      | inr (s', q) ↦ ground arith
    ]
  ]

  load-register :
      (m : VersionManager S) (context_id version_id : String) (r : ContextVersionRecord)
      → load b (register b m context_id r) version_id ≡ load b m version_id
  unfolding register load
  load-register m context_id version_id r = refl

  load-create_snapshot :
      {F : Type 0} (dump : ContextSnapshot F → String) (m : VersionManager S)
      (snapshot : ContextSnapshot F) (label created_by version_id : String) (now : ℕ)
      → ReadsBack b
      → IsNewVersion b m version_id
      → load b (create_snapshot b dump m snapshot label created_by version_id now).0 version_id
        ≡ inr (some (dump snapshot))
  unfolding create_snapshot
  load-create_snapshot dump m snapshot label created_by version_id now reads fresh =
      load-register (store b m version_id (dump snapshot)) _ version_id _
      ∙ load-store m version_id (dump snapshot) reads fresh

  restore_loaded :
      {F : Type 0} (parse : String → Option (ContextSnapshot F)) (m : VersionManager S)
      (scope_id session_id version_id text : String) (snapshot : ContextSnapshot F)
      → load b m version_id ≡ inr (some text)
      → parse text ≡ some snapshot
      → restore b parse m scope_id session_id version_id ≡ restored snapshot
  unfolding restore
  restore_loaded parse m scope_id session_id version_id text snapshot h k =
      rw (h, restore) (rw k refl)

  -- A snapshot that has been saved is what its version restores, whether the object store took it,
  -- failed, or is absent, and whatever scope and session the caller of `restore` names: when the
  -- store reads back what it took, the version's key is new, and the snapshot's JSON reads back.
  pub restore-create_snapshot :
      {F : Type 0} (dump : ContextSnapshot F → String) (parse : String → Option (ContextSnapshot F))
      (m : VersionManager S) (snapshot : ContextSnapshot F) (label created_by version_id : String)
      (now : ℕ) (scope_id session_id : String)
      → ReadsBack b
      → IsNewVersion b m version_id
      → parse (dump snapshot) ≡ some snapshot
      → restore b parse
          (create_snapshot b dump m snapshot label created_by version_id now).0
          scope_id
          session_id
          version_id
        ≡ restored snapshot
  restore-create_snapshot dump parse m snapshot label created_by version_id now scope_id session_id
        reads fresh trip =
      restore_loaded parse (create_snapshot b dump m snapshot label created_by version_id now).0
        scope_id session_id version_id (dump snapshot) snapshot
        (load-create_snapshot dump m snapshot label created_by version_id now reads fresh) trip

  newer_of :
      (r q : ContextVersionRecord) (now : ℕ)
      → q.created_at ≡ now
      → r.created_at < now
      → older r q ≡ true
  unfolding older
  newer_of r q now e h = ground arith

  -- A new version heads the listing of its context when the versions listed before are older: the
  -- rest of the listing is what was listed before.
  pub list_versions-create_snapshot :
      {F : Type 0} (dump : ContextSnapshot F → String) (m : VersionManager S)
      (snapshot : ContextSnapshot F) (label created_by version_id : String) (now limit : ℕ)
      → All
          (λ r. r.created_at < now)
          (get_or m.local (context_key snapshot.scope_id snapshot.session_id) [])
      → (let made = create_snapshot b dump m snapshot label created_by version_id now in
          list_versions b made.0 snapshot.scope_id snapshot.session_id (suc limit)
          ≡ made.1 ∷ list_versions b m snapshot.scope_id snapshot.session_id limit)
  unfolding create_snapshot list_versions register new_record
  list_versions-create_snapshot dump m snapshot label created_by version_id now limit earlier =
      ap (take (suc limit)) (
        ap (sort_desc older) (
          listed (store b m version_id (dump snapshot)).local _
          ∙ ap
              (λ l. get_or l key [] ++ new_record b m snapshot label created_by version_id now ∷ [])
              (local-store m version_id (dump snapshot)))
        ∙ sort_desc-append_first older _ (get_or m.local key [])
            (All-of _ _ (λ r i. newer r (All→ _ r _ earlier i))))
    where
      key : String
      key = context_key snapshot.scope_id snapshot.session_id

      newer :
          (r : ContextVersionRecord)
          → r.created_at < now
          → older r (new_record b m snapshot label created_by version_id now) ≡ true
      newer r h = newer_of r _ now refl h

      listed :
          (d : Dict (List ContextVersionRecord)) (v : List ContextVersionRecord)
          → get_or (put d key v) key [] ≡ v
      listed d v = ground (arith, get_or-put d key key v [], eq_iff key key)

  delete_version_local :
      (m : VersionManager S) (version_id : String)
      → m.s3 ≡ none
      → delete_version b m version_id ≡ inr (forget b m version_id)
  unfolding delete_version
  delete_version_local m version_id h = ground arith

  load_local :
      (m : VersionManager S) (version_id : String)
      → m.s3 ≡ none
      → load b m version_id ≡ inr (get m.local_data version_id)
  unfolding load
  load_local m version_id h = ground arith

  restore_missing :
      {F : Type 0} (parse : String → Option (ContextSnapshot F)) (m : VersionManager S)
      (scope_id session_id version_id : String)
      → load b m version_id ≡ inr none
      → restore b parse m scope_id session_id version_id
        ≡ failed (context_agent_error version_not_found)
  unfolding restore
  restore_missing parse m scope_id session_id version_id h = rw (h, restore) refl

  load-forget :
      (m : VersionManager S) (version_id other : String)
      → m.s3 ≡ none
      → Distinct m.local_data
      → load b (forget b m version_id) other
        ≡ (if version_id == other then inr none else load b m other)
  unfolding forget
  load-forget m version_id other h distinct =
      load_local (forget b m version_id) other h
      ∙ ground (arith, load_local m other h, get-remove m.local_data version_id other distinct)

  other_version-true :
      (version_id : String) (r : ContextVersionRecord)
      → other_version version_id r ≡ true
      → (r.version_id == version_id) ≡ false
  unfolding other_version
  other_version-true version_id r h = ground arith

  list_versions-forget :
      (m : VersionManager S) (version_id scope_id session_id : String) (limit : ℕ)
      → All
          (λ r. (r.version_id == version_id) ≡ false)
          (list_versions b (forget b m version_id) scope_id session_id limit)
  unfolding list_versions forget
  list_versions-forget m version_id scope_id session_id limit = All-take _ limit _ (
      All-sort_desc older _ _ (
        rw
          (get_or-map_values (keep (other_version version_id)) m.local
            (context_key scope_id session_id) [] refl)
          (All-of _ _
            (λ r i. other_version-true version_id r (keep-In (other_version version_id) r _ i).1))))

  -- In process, a version that has been deleted is not found any more and is in no listing, and
  -- every other version loads what it loaded before (the ids of the stored texts being distinct).
  pub restore-delete_version :
      {F : Type 0} (parse : String → Option (ContextSnapshot F)) (m : VersionManager S)
      (version_id other scope_id session_id : String) (limit : ℕ)
      → m.s3 ≡ none
      → Distinct m.local_data
      → (version_id == other) ≡ false
      → (m' : VersionManager S) × (delete_version b m version_id ≡ inr m')
        × (restore b parse m' scope_id session_id version_id
            ≡ failed (context_agent_error version_not_found))
        × All
            (λ r. (r.version_id == version_id) ≡ false)
            (list_versions b m' scope_id session_id limit)
        × (load b m' other ≡ load b m other)
  restore-delete_version parse m version_id other scope_id session_id limit no_store distinct ne = (
    forget b m version_id,
    delete_version_local m version_id no_store,
    restore_missing parse (forget b m version_id) scope_id session_id version_id (
        load-forget m version_id version_id no_store distinct
        ∙ rw ((eq_iff version_id version_id).1 refl) refl),
    list_versions-forget m version_id scope_id session_id limit,
    load-forget m version_id other no_store distinct ∙ rw ne refl,
  )
