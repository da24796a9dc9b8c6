-- ===== src/Core/ObjectStore/RoundTrip.antt =====
-- What the methods of `UnifiedObjectStore` in src/l3store/core/object_store.py read back after they
-- have put or deleted.
use intellil.Common.{
  ℕ, string_key, ◌≟◌, if_pos, String, Option, none, some, Result, ok, raise, ◌≡◌, refl, ap, ◌∙◌,
  Error,
}
use intellil.Common.Float.{Float}
use intellil.Core.Enums.{kv_cache, tool_call_artifact, plan_cache}
use intellil.Core.Types.{KvCacheBlock, ToolCallArtifact, PlanCacheEntry, touch}
use intellil.Metadata.Bloom.Membership
use intellil.Metadata.Store
use intellil.Metadata.Store.{Libraries, last_dim}
use intellil.Metadata.Store.Existence
use intellil.Storage.{Backend, IsStorage}
use intellil.Storage.Keys.{meta_ext, npz_ext, npy_ext, object_key, meta-ne-npz, meta-ne-npy}
use intellil.Core.ObjectStore.{
  UnifiedObjectStore, put_pair, get_pair, put_object, put_and_index, get_object, get_meta_object,
  get_guarded,
}
use intellil.Core.ObjectStore.Pairs.{put_pair_undone}
use intellil.Core.ObjectStore.Guards.{
  get_object-put_object, get_meta_object-put_meta_object, get_object-delete_object,
  get_meta_object-delete_meta_object, get_guarded-init, get_guarded_absent,
}
use intellil.Core.ObjectStore.Objects.{
  Codec, Serializer, ObjectsConfig, prepared_kv_block, put_kv_block, load_kv_block, get_kv_block,
  delete_kv_block, get_rag_object, get_semantic_entry,
}
use intellil.Core.ObjectStore.Agent.{
  prepared_tool_artifact, put_tool_artifact, load_tool_artifact, get_tool_artifact,
  delete_tool_artifact, prepared_plan_cache_entry, put_plan_cache_entry, load_plan_cache_entry,
  get_plan_cache_entry, delete_plan_cache_entry, get_agent_workflow, get_agent_step,
  get_workflow_trace,
}

-- Bytes that are dumped load again as the value.
abbrev pub Loads : {T Bytes : Type 0} → Codec T Bytes → T → Type 0
Loads c t = c.load (c.dump t) ≡ ok t

module _ {F Json Vector Index B Bytes : Type 0} ⦃fl : Float F⦄ (libs : Libraries F Vector Index)
    (b : Backend B Bytes) (ser : Serializer F Json Vector Bytes) (cfg : ObjectsConfig)
    (law : IsStorage b) (st : UnifiedObjectStore B Index) where
  -- Where the backend writes both halves and they load again, `put_kv_block` returns the id of the
  -- block, and `get_kv_block` then returns the block, with its size and its token hash filled in and
  -- touched, and its tensors.
  pub get_kv_block-put_kv_block :
      (block : KvCacheBlock F) (ks vs : Vector) (now : F)
      → Existence.IsValid st.metadata
      → Loads ser.kv_block_meta (prepared_kv_block libs b ser cfg block ks vs)
      → Loads ser.kv_tensors (ks, vs)
      → (put_pair b st.backend
          (object_key cfg.kv_prefix block.meta.object_id meta_ext)
          (ser.kv_block_meta.dump (prepared_kv_block libs b ser cfg block ks vs))
          (object_key cfg.kv_prefix block.meta.object_id npz_ext)
          (ser.kv_tensors.dump (ks, vs))).0
        ≡ ok tt
      → ((put_kv_block libs b ser cfg st block ks vs).0 ≡ ok block.meta.object_id)
        × (get_kv_block libs b ser cfg
              (put_kv_block libs b ser cfg st block ks vs).1
              block.meta.object_id
              now
            ≡ ok (
                some (
                  record (prepared_kv_block libs b ser cfg block ks vs) {
                    meta = touch now (prepared_kv_block libs b ser cfg block ks vs).meta;
                  },
                  ks,
                  vs,
                )))
  unfolding put_kv_block get_kv_block load_kv_block
  get_kv_block-put_kv_block block ks vs now valid meta_loads data_loads written =
      let x = block.meta.object_id in
      let (indexed, after) =
        Existence.on_object_added-Indexes libs st.metadata kv_cache x (some block.token_ids)
          valid in
      let (returned, found) =
        get_object-put_object libs b law st cfg.kv_prefix x npz_ext _ _
          (λ m. Store.on_object_added libs m kv_cache x (some block.token_ids))
          (load_kv_block libs b ser cfg now) (meta-ne-npz cfg.kv_prefix x x) written indexed
          after.1 in
      (returned, found ∙ rw (meta_loads, data_loads) refl)

  -- Where the backend writes an artifact and its bytes load again, `put_tool_artifact` returns the
  -- id of the call, and `get_tool_artifact` then returns the artifact as it was stored, touched.
  pub get_tool_artifact-put_tool_artifact :
      (a : ToolCallArtifact F Json) (now : F)
      → Existence.IsValid st.metadata
      → Loads ser.tool_artifact (prepared_tool_artifact libs b ser cfg a)
      → (b.put st.backend
          (object_key cfg.tools_prefix a.tool_call_id meta_ext)
          (ser.tool_artifact.dump (prepared_tool_artifact libs b ser cfg a))).0
        ≡ ok tt
      → ((put_tool_artifact libs b ser cfg st a).0 ≡ ok a.tool_call_id)
        × (get_tool_artifact libs b ser cfg
              (put_tool_artifact libs b ser cfg st a).1
              a.tool_call_id
              now
            ≡ ok (
                some (record (prepared_tool_artifact libs b ser cfg a) {
                  meta = touch now (prepared_tool_artifact libs b ser cfg a).meta;
                })))
  unfolding put_tool_artifact get_tool_artifact load_tool_artifact
  get_tool_artifact-put_tool_artifact a now valid loads written =
      let (returned, found) =
        get_meta_object-put_meta_object libs b law st cfg.tools_prefix a.tool_call_id _
          tool_call_artifact (load_tool_artifact libs b ser cfg now) valid written in
      (returned, found ∙ rw loads refl)

  -- The same for a plan and the embedding of its task, which has a last dimension.
  pub get_plan_cache_entry-put_plan_cache_entry :
      (p : PlanCacheEntry F) (v : Vector) (dim : ℕ) (now : F)
      → Existence.IsValid st.metadata
      → last_dim (libs.hnswlib.shape v) ≡ ok dim
      → Loads ser.plan_cache_entry (prepared_plan_cache_entry libs b ser cfg p v dim)
      → Loads ser.embedding v
      → (put_pair b st.backend
          (object_key cfg.plans_prefix p.plan_id meta_ext)
          (ser.plan_cache_entry.dump (prepared_plan_cache_entry libs b ser cfg p v dim))
          (object_key cfg.plans_prefix p.plan_id npy_ext)
          (ser.embedding.dump v)).0
        ≡ ok tt
      → ((put_plan_cache_entry libs b ser cfg st p v).0 ≡ ok p.plan_id)
        × (get_plan_cache_entry libs b ser cfg
              (put_plan_cache_entry libs b ser cfg st p v).1
              p.plan_id
              now
            ≡ ok (
                some (
                  record (prepared_plan_cache_entry libs b ser cfg p v dim) {
                    meta = touch now (prepared_plan_cache_entry libs b ser cfg p v dim).meta;
                  },
                  v,
                )))
  unfolding put_plan_cache_entry get_plan_cache_entry load_plan_cache_entry
  get_plan_cache_entry-put_plan_cache_entry p v dim now valid shape meta_loads data_loads written =
      let (indexed, after) =
        Existence.on_object_added-Indexes libs st.metadata plan_cache p.plan_id none valid in
      let (returned, found) =
        get_object-put_object libs b law st cfg.plans_prefix p.plan_id npy_ext _ _
          (λ m. Store.on_object_added libs m plan_cache p.plan_id none)
          (load_plan_cache_entry libs b ser cfg now)
          (meta-ne-npy cfg.plans_prefix p.plan_id p.plan_id) written indexed after.1 in
      rw (put_plan_cache_entry, shape) (returned, found ∙ rw (meta_loads, data_loads) refl)

  -- Deleted blocks, artifacts and plans are not found, whatever the deletion answered.
  pub delete-get :
      (x : String) (now : F)
      → Existence.IsValid st.metadata
      → (get_kv_block libs b ser cfg (delete_kv_block libs b ser cfg st x).0 x now ≡ ok none)
        × (get_tool_artifact libs b ser cfg (delete_tool_artifact libs b ser cfg st x).0 x now
            ≡ ok none)
        × (get_plan_cache_entry libs b ser cfg (delete_plan_cache_entry libs b ser cfg st x).0 x now
            ≡ ok none)
  unfolding delete_kv_block get_kv_block delete_tool_artifact get_tool_artifact
      delete_plan_cache_entry get_plan_cache_entry
  delete-get x now valid = (
    (get_object-delete_object libs b law st kv_cache cfg.kv_prefix x npz_ext
        (load_kv_block libs b ser cfg now) valid).0,
    get_meta_object-delete_meta_object libs b law st tool_call_artifact cfg.tools_prefix x
        (load_tool_artifact libs b ser cfg now) valid,
    (get_object-delete_object libs b law st plan_cache cfg.plans_prefix x npy_ext
        (load_plan_cache_entry libs b ser cfg now) valid).0,
  )

  nothing :
      {T : Type 0} (expected size hashes : ℕ) (x : String) (found : Result (Option T))
      → get_guarded libs b (record st { metadata = Store.init libs expected size hashes }) x found
        ≡ ok none
  nothing expected size hashes x found =
      get_guarded-init libs b law st.backend x found expected size hashes

  -- A store that is opened with a new metadata store finds no object of any type, whatever the
  -- backend holds.
  pub get-init :
      (expected size hashes : ℕ) (x : String) (now : F)
      → let fresh : UnifiedObjectStore B Index = record st {
        metadata = Store.init libs expected size hashes;
      } in
        (get_kv_block libs b ser cfg fresh x now ≡ ok none)
        × (get_rag_object libs b ser cfg fresh x now ≡ ok none)
        × (get_semantic_entry libs b ser cfg fresh x now ≡ ok none)
        × (get_agent_workflow libs b ser cfg fresh x now ≡ ok none)
        × (get_agent_step libs b ser cfg fresh x now ≡ ok none)
        × (get_tool_artifact libs b ser cfg fresh x now ≡ ok none)
        × (get_plan_cache_entry libs b ser cfg fresh x now ≡ ok none)
        × (get_workflow_trace libs b ser cfg fresh x now ≡ ok none)
  unfolding get_kv_block get_rag_object get_semantic_entry get_agent_workflow get_agent_step
      get_tool_artifact get_plan_cache_entry get_workflow_trace get_object get_meta_object
  get-init expected size hashes x now = (
    nothing expected size hashes x _,
    nothing expected size hashes x _,
    nothing expected size hashes x _,
    nothing expected size hashes x _,
    nothing expected size hashes x _,
    nothing expected size hashes x _,
    nothing expected size hashes x _,
    nothing expected size hashes x _,
  )

  -- Where the metadata of a block is written and its data is not, `put_kv_block` raises what the
  -- backend raised, and the block that was stored under the same id before is not found any more.
  pub put_kv_block_failed :
      (block : KvCacheBlock F) (ks vs : Vector) (now : F) (e : Error)
      → Existence.IsValid st.metadata
      → (b.put st.backend
          (object_key cfg.kv_prefix block.meta.object_id meta_ext)
          (ser.kv_block_meta.dump (prepared_kv_block libs b ser cfg block ks vs))).0
        ≡ ok tt
      → (b.put
          (b.put st.backend
            (object_key cfg.kv_prefix block.meta.object_id meta_ext)
            (ser.kv_block_meta.dump (prepared_kv_block libs b ser cfg block ks vs))).1
          (object_key cfg.kv_prefix block.meta.object_id npz_ext)
          (ser.kv_tensors.dump (ks, vs))).0
        ≡ raise e
      → ((put_kv_block libs b ser cfg st block ks vs).0 ≡ raise e)
        × (get_kv_block libs b ser cfg
              (put_kv_block libs b ser cfg st block ks vs).1
              block.meta.object_id
              now
            ≡ ok none)
  unfolding put_kv_block get_kv_block put_object put_and_index get_pair get_object Store.might_exist
  put_kv_block_failed block ks vs now e valid first second =
      let x = block.meta.object_id in
      let mk = object_key cfg.kv_prefix x meta_ext in
      let dk = object_key cfg.kv_prefix x npz_ext in
      let mv = ser.kv_block_meta.dump (prepared_kv_block libs b ser cfg block ks vs) in
      let dv = ser.kv_tensors.dump (ks, vs) in
      let s₂ = (b.put (b.put st.backend mk mv).1 dk dv).1 in
      let s₃ = (b.delete s₂ mk).0 in
      let pair : put_pair b st.backend mk mv dk dv ≡ (raise e, s₃) =
        put_pair_undone b law st.backend mk dk mv dv e first second in
      let raised : (put_pair b st.backend mk mv dk dv).0 ≡ raise e = ap (λ q. q.0) pair in
      let stop : put_kv_block libs b ser cfg st block ks vs
          ≡ (raise e, record st { backend = (put_pair b st.backend mk mv dk dv).1 }) =
        rw (put_kv_block, put_object, put_and_index, raised) refl in
      let after : UnifiedObjectStore B Index = record st { backend = s₃ } in
      let state : put_kv_block libs b ser cfg st block ks vs ≡ (raise e, after) =
        stop ∙ ap (λ (q : Result (Unit {0}) × B). (raise e, record st { backend = q.1 })) pair in
      let gone : b.get s₃ mk ≡ none =
        law.get-delete s₂ mk mk ∙ if_pos (mk ≟ mk) refl none (b.get s₂ mk) in
      let (seen, known) =
        Membership.might_contain_total libs.sha256 libs.md5 st.metadata.bloom x valid.bloom in
      rw state (refl, get_guarded_absent libs b law after x _ seen known (rw gone refl))
