-- ===== src/Agent/ToolCache/Stored.antt =====
-- `ToolArtifactCache` of src/l3store/agent/tool_cache.py over `UnifiedObjectStore` of
-- src/l3store/core/object_store.py.
use intellil.Common.{
  nat_key, string_key, ◌≟◌, if_neg, String, Bool, true, false, ◌&&◌, Option, none, some, ◌≡◌, ◌≢◌,
  refl, sym, ap, ◌∙◌, inl, inr, Result, ok, raise, Result-cases, ◌>>=◌, if◌then◌else◌,
}
use intellil.Common.Float.{Float}
use intellil.Core.Enums.{ArtifactScope, tool_call_artifact}
use intellil.Core.Types.{ObjectMeta, ToolCallArtifact, touch}
use intellil.Metadata.Store
use intellil.Metadata.Store.{Libraries}
use intellil.Metadata.Store.Existence
use intellil.Storage.{Backend, IsStorage}
use intellil.Storage.Keys.{meta_ext, object_key, object_key-injective}
use intellil.Core.ObjectStore.{
  UnifiedObjectStore, is_empty, put_and_index, put_meta_object, get_guarded, get_meta_object,
  delete_and_unindex, delete_meta_object,
}
use intellil.Core.ObjectStore.RoundTrip.{Loads, get_tool_artifact-put_tool_artifact}
use intellil.Core.ObjectStore.Objects.{Serializer, ObjectsConfig}
use intellil.Core.ObjectStore.Agent
use intellil.Core.ObjectStore.Agent.{
  prepared_tool_artifact, delete_tool_artifact, list_tool_artifacts,
}
use intellil.Agent.ToolCache.{
  ArtifactStore, Texts, ToolArtifactCache, tool_cache_key, normalize_tool_name, other_version,
  new_artifact, put_tool_artifact, get_tool_artifact,
}
use intellil.Agent.ToolCache.PutGet.{IsArtifactStore, put_tool_artifact_lem}

module _ {F Json Vector Index B Bytes : Type 0} ⦃fl : Float F⦄ (libs : Libraries F Vector Index)
    (b : Backend B Bytes) (ser : Serializer F Json Vector Bytes) (cfg : ObjectsConfig)
    (read : F) where
  -- The object store as the cache calls it; `read` is the time at which it reads.
  abbrev pub artifact_store : ArtifactStore (UnifiedObjectStore B Index) F Json
  artifact_store = record {
    put = Agent.put_tool_artifact libs b ser cfg;
    get = λ st x. Agent.get_tool_artifact libs b ser cfg st x read;
    delete = delete_tool_artifact libs b ser cfg;
    list_ids = list_tool_artifacts libs b ser cfg;
  }

  module _ (law : IsStorage b) where
    put-written :
        (st : UnifiedObjectStore B Index) (a : ToolCallArtifact F Json) (x : String)
        → (Agent.put_tool_artifact libs b ser cfg st a).0 ≡ ok x
        → (b.put st.backend
            (object_key cfg.tools_prefix a.tool_call_id meta_ext)
            (ser.tool_artifact.dump (prepared_tool_artifact libs b ser cfg a))).0
          ≡ ok tt
    unfolding Agent.put_tool_artifact put_meta_object put_and_index
    put-written st a x returned =
        let write =
          (b.put st.backend (object_key cfg.tools_prefix a.tool_call_id meta_ext)
            (ser.tool_artifact.dump (prepared_tool_artifact libs b ser cfg a))).0 in
        elim (Result-cases write) [
          | inl (u, e) ↦ e
          | inr (err, e) ↦
              let raised : (Agent.put_tool_artifact libs b ser cfg st a).0 ≡ raise err =
                rw (Agent.put_tool_artifact, put_meta_object, put_and_index, e) refl in
              absurd (cc (raised, returned))
        ]

    put-valid :
        (st : UnifiedObjectStore B Index) (a : ToolCallArtifact F Json)
        → Existence.IsValid st.metadata
        → Existence.IsValid (Agent.put_tool_artifact libs b ser cfg st a).1.metadata
    unfolding Agent.put_tool_artifact put_meta_object put_and_index
    put-valid st a valid =
        let write =
          (b.put st.backend (object_key cfg.tools_prefix a.tool_call_id meta_ext)
            (ser.tool_artifact.dump (prepared_tool_artifact libs b ser cfg a))).0 in
        elim (Result-cases write) [
          | inl (u, e) ↦
              rw (Agent.put_tool_artifact, put_meta_object, put_and_index, e)
                (Existence.on_object_added-Indexes libs st.metadata tool_call_artifact
                  a.tool_call_id none valid).1.0
          | inr (err, e) ↦ rw (Agent.put_tool_artifact, put_meta_object, put_and_index, e) valid
        ]

    -- A deletion of an artifact leaves the metadata store as it is.
    metadata_kept :
        (st : UnifiedObjectStore B Index) (x : String)
        → (delete_tool_artifact libs b ser cfg st x).0.metadata ≡ st.metadata
    unfolding delete_tool_artifact delete_meta_object delete_and_unindex Store.on_object_removed
    metadata_kept st x = either (b.delete st.backend (object_key cfg.tools_prefix x meta_ext)).1
      where
        either : (found : Bool) → (if found then st.metadata else st.metadata) ≡ st.metadata
        either true = refl
        either false = refl

    guarded_same :
        {T : Type 0} (st st' : UnifiedObjectStore B Index) (y : String) (found : Result (Option T))
        → st'.metadata ≡ st.metadata
        → get_guarded libs b st' y found ≡ get_guarded libs b st y found
    unfolding get_guarded
    guarded_same st st' y found same = rw (get_guarded, same) refl

    kept_apart :
        (st : UnifiedObjectStore B Index) (x y : String)
        → x ≢ y
        → Agent.get_tool_artifact libs b ser cfg (delete_tool_artifact libs b ser cfg st x).0 y read
          ≡ Agent.get_tool_artifact libs b ser cfg st y read
    unfolding Agent.get_tool_artifact delete_tool_artifact delete_meta_object delete_and_unindex
        get_meta_object
    kept_apart st x y apart =
        let kx = object_key cfg.tools_prefix x meta_ext in
        let ky = object_key cfg.tools_prefix y meta_ext in
        let other : kx ≢ ky = λ e. apart (object_key-injective cfg.tools_prefix x y meta_ext e) in
        let same : b.get (delete_tool_artifact libs b ser cfg st x).0.backend ky
            ≡ b.get st.backend ky =
          law.get-delete st.backend kx ky ∙ if_neg (kx ≟ ky) other none (b.get st.backend ky) in
        let found : Option Bytes → Result (Option (ToolCallArtifact F Json)) = λ o. elim o [
          | none ↦ ok none
          | some meta_data ↦ do
            a ← Agent.load_tool_artifact libs b ser cfg read meta_data
            ok (some a)
        ] in
        let st' = (delete_tool_artifact libs b ser cfg st x).0 in
        guarded_same st st' y (found (b.get st'.backend ky)) (metadata_kept st x)
        ∙ ap (λ o. get_guarded libs b st y (found o)) same

    stored :
        (st : UnifiedObjectStore B Index) (a : ToolCallArtifact F Json) (x : String)
        → a.tool_call_id ≡ x
        → Agent.get_tool_artifact libs b ser cfg
            (Agent.put_tool_artifact libs b ser cfg st a).1
            a.tool_call_id
            read
          ≡ ok (
              some (record (prepared_tool_artifact libs b ser cfg a) {
                meta = touch read (prepared_tool_artifact libs b ser cfg a).meta;
              }))
        → (m : ObjectMeta F) × (Agent.get_tool_artifact libs b ser cfg
              (Agent.put_tool_artifact libs b ser cfg st a).1
              x
              read
            ≡ ok (some (record a { meta = m })))
    unfolding prepared_tool_artifact
    stored st a x same found = (
      touch read (prepared_tool_artifact libs b ser cfg a).meta,
      ap
            (λ y.
              Agent.get_tool_artifact libs b ser cfg (Agent.put_tool_artifact libs b ser cfg st a).1
                y read)
            (sym same)
          ∙ found,
    )

    -- The object store keeps artifacts as the cache relies on, where its metadata store is valid and
    -- the bytes of the artifact load again.
    pub artifact_store-IsArtifactStore :
        IsArtifactStore artifact_store
          (λ st. Existence.IsValid st.metadata)
          (λ a. Loads ser.tool_artifact (prepared_tool_artifact libs b ser cfg a))
    artifact_store-IsArtifactStore = record {
      put-Sound = λ st a valid. put-valid st a valid;
      get-put = λ st a x valid loads returned.
          let (same, found) =
            get_tool_artifact-put_tool_artifact libs b ser cfg law st a read valid loads
              (put-written st a x returned) in
          stored st a x (cc (same, returned)) found;
      get-delete_ne = λ st x y a valid apart held. kept_apart st x y apart ∙ held;
    }

    -- Over a lawful backend and a valid metadata store, a put with a name that is not empty, a time to
    -- live that is positive and an expiry after it, and a version where one is required, whose
    -- artifact the backend writes and whose bytes load again, returns the id of the artifact; and until
    -- the artifact expires, a get with the same arguments and scope, and the same version or none,
    -- returns it, with the metadata of the read.
    pub get_tool_artifact-put_tool_artifact-stored :
        (texts : Texts Json) (c : ToolArtifactCache (UnifiedObjectStore B Index))
        (meta : ObjectMeta F) (name : String) (args output : Json) (ttl : F) (scope : ArtifactScope)
        (version : String) (created now : F) (asked : Option String)
        → let a =
            new_artifact artifact_store texts meta
              (texts.strip name)
              args
              output
              ttl
              scope
              version
              created in
          Existence.IsValid c.store.metadata
          → Loads ser.tool_artifact (prepared_tool_artifact libs b ser cfg a)
          → is_empty (texts.strip name) ≡ false
          → fl.le ttl (fl.of_nat 0) ≡ false
          → (c.require_source_version && is_empty version) ≡ false
          → fl.le (fl.add created ttl) created ≡ false
          → (b.put c.store.backend
              (object_key cfg.tools_prefix a.tool_call_id meta_ext)
              (ser.tool_artifact.dump (prepared_tool_artifact libs b ser cfg a))).0
            ≡ ok tt
          → other_version artifact_store texts asked version ≡ false
          → fl.le (fl.add created ttl) now ≡ false
          → let (r, c') =
              put_tool_artifact artifact_store texts c meta name args output ttl scope version
                created in
            (r ≡ ok a.tool_call_id)
            × (m : ObjectMeta F) × ((get_tool_artifact artifact_store texts c' name args scope asked
                  now).0
                ≡ ok (some (record a { meta = m })))
    unfolding normalize_tool_name
    get_tool_artifact-put_tool_artifact-stored texts c meta name args output ttl scope version
          created now asked valid loads named positive versioned later written same fresh =
        let a =
          new_artifact artifact_store texts meta (texts.strip name) args output ttl scope version
            created in
        let (returned, _) =
          get_tool_artifact-put_tool_artifact libs b ser cfg law c.store a read valid loads
            written in
        put_tool_artifact_lem artifact_store texts artifact_store-IsArtifactStore c meta name
          (texts.strip name) args output ttl scope version created now asked a.tool_call_id valid
          loads (rw (normalize_tool_name, named) refl) positive versioned later returned same fresh
