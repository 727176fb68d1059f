-- ===== src/Versions/Manager.antt =====
-- The version manager: snapshots kept in an object store, or in process where there is none or it
-- fails. The object store is another program, and so is the model's JSON: both are parameters.
use context_agent.Prelude.{
  ℕ, String, text_append, ◌⊎◌, inl, inr, Option, none, some, Bool, false, not, List, [], ◌∷◌, ◌++◌,
  ◌==◌, ltb, if◌then◌else◌, length, take, keep,
}
use context_agent.Prelude.Dict.{Dict, get, put, remove, has, map_values, get_or}
use context_agent.Prelude.Sort.{sort_desc}
use context_agent.Models.Context.{ContextSnapshot}
use context_agent.Models.Version.{ContextVersionRecord}
use context_agent.Models.Errors.{
  AgentError, context_agent_error, object_store_unavailable, version_not_found,
}

-- The three calls of the S3 client, with the bucket and the key: `none` where the call raises.
pub record ObjectStore (S : Type 0) : Type 0 where
  pub put_object : S → String → String → String → Option S
  pub get_object : S → String → String → Option String
  pub delete_object : S → String → String → Option S

pub record VersionManager (S : Type 0) : Type 0 where
  pub s3 : Option S
  pub bucket : String
  pub local : Dict (List ContextVersionRecord)
  pub local_data : Dict String

-- How a restoration ends: `invalid` where the stored text is not that of a snapshot.
pub data Restored (F : Type 0) : Type 0 where
  restored : ContextSnapshot F → Restored F
  failed : AgentError → Restored F
  invalid : Restored F

-- f"{scope_id}:{session_id}"
unfoldable pub context_key : String → String → String
context_key scope_id session_id = text_append scope_id (text_append ":" session_id)

-- f"{version_id}.json"
unfoldable pub object_key : String → String
object_key version_id = text_append version_id ".json"

-- The order of `key=lambda r: r.created_at`
unfoldable pub older : ContextVersionRecord → ContextVersionRecord → Bool
older r q = ltb r.created_at q.created_at

-- `record.version_id != version_id`
unfoldable pub other_version : String → ContextVersionRecord → Bool
other_version version_id r = not (r.version_id == version_id)

module _ {S : Type 0} (b : ObjectStore S) where
  keep_locally : VersionManager S → String → String → VersionManager S
  keep_locally m version_id state = record m { local_data = put m.local_data version_id state }

  -- `_store`
  unfoldable pub store : VersionManager S → String → String → VersionManager S
  unfolding keep_locally
  store m version_id state = elim m.s3 [
    | none ↦ keep_locally m version_id state
    | some s ↦ elim (b.put_object s m.bucket (object_key version_id) state) [
      | none ↦ keep_locally m version_id state
      | some s' ↦ record m { s3 = some s' }
    ]
  ]

  -- `_load`
  unfoldable pub load : VersionManager S → String → AgentError ⊎ Option String
  load m version_id = elim m.s3 [
    | none ↦ inr (get m.local_data version_id)
    | some s ↦ elim (b.get_object s m.bucket (object_key version_id)) [
      | none ↦
          if has m.local_data version_id
          then inr (get m.local_data version_id)
          else inl (context_agent_error object_store_unavailable)
      | some body ↦ inr (some body)
    ]
  ]

  -- `self._local.setdefault(context_id, []).append(record)`
  unfoldable pub register : VersionManager S → String → ContextVersionRecord → VersionManager S
  register m context_id r = record m {
    local = put m.local context_id (get_or m.local context_id [] ++ r ∷ []);
  }

  -- The record of a new version; `version_id` and `now` are what the default factories return.
  unfoldable pub new_record :
      {F : Type 0}
      → VersionManager S
      → ContextSnapshot F
      → String
      → String
      → String
      → ℕ
      → ContextVersionRecord
  new_record m snapshot label created_by version_id now = record {
    version_id = version_id;
    context_id = context_key snapshot.scope_id snapshot.session_id;
    scope_id = snapshot.scope_id;
    label = label;
    state_ref = text_append m.bucket (text_append "/" (object_key version_id));
    token_count = snapshot.total_tokens;
    item_count = length snapshot.items;
    is_compressed = false;
    created_by = created_by;
    created_at = now;
    metadata = [];
  }

  unfoldable pub create_snapshot :
      {F : Type 0}
      → (ContextSnapshot F → String)
      → VersionManager S
      → ContextSnapshot F
      → String
      → String
      → String
      → ℕ
      → VersionManager S × ContextVersionRecord
  create_snapshot model_dump_json m snapshot label created_by version_id now =
      let r = new_record m snapshot label created_by version_id now in
      (
        register (store m version_id (model_dump_json snapshot))
            (context_key snapshot.scope_id snapshot.session_id) r,
        r,
      )

  unfoldable pub restore :
      {F : Type 0}
      → (String → Option (ContextSnapshot F))
      → VersionManager S
      → String
      → String
      → String
      → Restored F
  restore model_validate_json m scope_id session_id version_id = elim (load m version_id) [
    | inl e ↦ failed e
    | inr raw ↦ elim raw [
      | none ↦ failed (context_agent_error version_not_found)
      | some text ↦ elim (model_validate_json text) [
        | none ↦ invalid
        | some snapshot ↦ restored snapshot
      ]
    ]
  ]

  unfoldable pub list_versions : VersionManager S → String → String → ℕ → List ContextVersionRecord
  list_versions m scope_id session_id limit =
      take limit (sort_desc older (get_or m.local (context_key scope_id session_id) []))

  unfoldable pub forget : VersionManager S → String → VersionManager S
  forget m version_id = record m {
    local = map_values (keep (other_version version_id)) m.local;
    local_data = remove m.local_data version_id;
  }

  -- The manager after it, or the error that it raises, which leaves the manager as it was.
  unfoldable pub delete_version : VersionManager S → String → AgentError ⊎ VersionManager S
  unfolding forget
  delete_version m version_id = elim m.s3 [
    | none ↦ inr (forget m version_id)
    | some s ↦ elim (b.delete_object s m.bucket (object_key version_id)) [
      | none ↦ inl (context_agent_error object_store_unavailable)
      | some s' ↦ inr (record (forget m version_id) { s3 = some s' })
    ]
  ]
