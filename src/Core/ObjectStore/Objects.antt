-- ===== src/Core/ObjectStore/Objects.antt =====
-- The methods of `UnifiedObjectStore` in src/l3store/core/object_store.py, one group for each type
-- of object. The codecs of src/l3store/storage/serialization.py are pydantic's and numpy's, and so an
-- interface. `now` is the clock at the `touch` of the object that was read.
use intellil.Common.{
  ℕ, ◌+◌, string_key, String, Bool, Option, none, some, List, map, Result, ok, raise, ◌>>=◌,
  if◌then◌else◌,
}
use intellil.Common.Float.{Float}
use intellil.Core.Enums.{kv_cache, rag, semantic_cache}
use intellil.Core.Types.{
  touch, AgentWorkflow, AgentStep, ToolCallArtifact, PlanCacheEntry, WorkflowTrace, KvCacheBlock,
  RagObject, SemanticCacheEntry,
}
use intellil.Metadata.PrefixTree.{PrefixMatch}
use intellil.Metadata.Store
use intellil.Metadata.Store.{Libraries, MetadataStore, last_dim, some_tokens}
use intellil.Storage.{Backend}
use intellil.Storage.Keys.{npz_ext, npy_ext}
use intellil.Core.ObjectStore.{
  UnifiedObjectStore, is_empty, put_object, get_object, delete_object, list_ids,
}

-- The bytes of a value, and the value of bytes.
pub record Codec (T Bytes : Type 0) : Type 0 where
  pub dump : T → Bytes
  pub load : Bytes → Result T

pub record Serializer (F Json Vector Bytes : Type 0) : Type 0 where
  pub kv_block_meta : Codec (KvCacheBlock F) Bytes
  pub kv_tensors : Codec (Vector × Vector) Bytes
  pub rag_meta : Codec (RagObject F) Bytes
  pub embedding : Codec Vector Bytes
  pub semantic_entry : Codec (SemanticCacheEntry F) Bytes
  pub agent_workflow : Codec (AgentWorkflow F) Bytes
  pub agent_step : Codec (AgentStep F) Bytes
  pub tool_artifact : Codec (ToolCallArtifact F Json) Bytes
  pub plan_cache_entry : Codec (PlanCacheEntry F) Bytes
  pub workflow_trace : Codec (WorkflowTrace F Json) Bytes
  -- `array.nbytes`, and `KVCacheBlock.compute_token_hash`, which are numpy's and hashlib's
  pub nbytes : Vector → ℕ
  pub compute_token_hash : List ℕ → String

-- `ObjectsConfig` of src/l3store/utils/config.py
pub record ObjectsConfig : Type 0 where
  pub kv_prefix : String
  pub rag_prefix : String
  pub sem_prefix : String
  pub workflows_prefix : String
  pub steps_prefix : String
  pub tools_prefix : String
  pub plans_prefix : String
  pub traces_prefix : String

module _ {F Json Vector Index B Bytes : Type 0} ⦃fl : Float F⦄ (libs : Libraries F Vector Index)
    (b : Backend B Bytes) (ser : Serializer F Json Vector Bytes) (cfg : ObjectsConfig) where
  -- The block as `put_kv_block` stores it.
  unfoldable pub prepared_kv_block : KvCacheBlock F → Vector → Vector → KvCacheBlock F
  prepared_kv_block block ks vs = record block {
    token_hash = elim (some_tokens (some block.token_ids)) [
      | none ↦ block.token_hash
      | some ts ↦ if is_empty block.token_hash then ser.compute_token_hash ts else block.token_hash
    ];
    meta = record block.meta { size_bytes = ser.nbytes ks + ser.nbytes vs };
  }

  unfoldable pub put_kv_block :
      UnifiedObjectStore B Index
      → KvCacheBlock F
      → Vector
      → Vector
      → Result String × UnifiedObjectStore B Index
  put_kv_block st block ks vs =
      put_object libs b st cfg.kv_prefix block.meta.object_id npz_ext
        (ser.kv_block_meta.dump (prepared_kv_block block ks vs)) (ser.kv_tensors.dump (ks, vs))
        (λ m. Store.on_object_added libs m kv_cache block.meta.object_id (some block.token_ids))

  unfoldable pub load_kv_block : F → Bytes → Bytes → Result (KvCacheBlock F × Vector × Vector)
  load_kv_block now meta_data data_bytes = do
    block ← ser.kv_block_meta.load meta_data
    (ks, vs) ← ser.kv_tensors.load data_bytes
    ok (record block { meta = touch now block.meta }, ks, vs)

  unfoldable pub get_kv_block :
      UnifiedObjectStore B Index → String → F → Result (Option (KvCacheBlock F × Vector × Vector))
  get_kv_block st x now = get_object libs b st cfg.kv_prefix x npz_ext (load_kv_block now)

  unfoldable pub delete_kv_block :
      UnifiedObjectStore B Index → String → UnifiedObjectStore B Index × Bool
  delete_kv_block st x = delete_object libs b st kv_cache cfg.kv_prefix x npz_ext

  unfoldable pub list_kv_blocks : UnifiedObjectStore B Index → List String
  list_kv_blocks st = list_ids libs b st cfg.kv_prefix

  unfoldable pub find_kv_prefix_matches : UnifiedObjectStore B Index → List ℕ → List String
  find_kv_prefix_matches st tokens =
      map (λ (m : PrefixMatch). m.object_id) (Store.find_prefix_matches libs st.metadata tokens)

  unfoldable pub find_kv_longest_prefix : UnifiedObjectStore B Index → List ℕ → Option String
  find_kv_longest_prefix st tokens = elim (Store.find_longest_prefix libs st.metadata tokens) [
    | none ↦ none
    | some m ↦ some m.object_id
  ]

  -- An embedding and the metadata that goes with it are put under one id.
  unfoldable pub put_rag_object :
      UnifiedObjectStore B Index → RagObject F → Vector → Result String × UnifiedObjectStore B Index
  put_rag_object st obj v = elim (last_dim (libs.hnswlib.shape v)) [
    | raise e ↦ (raise e, st)
    | ok dim ↦
        put_object libs b st cfg.rag_prefix obj.meta.object_id npy_ext
          (ser.rag_meta.dump (record obj {
            embedding_dim = dim;
            meta = record obj.meta { size_bytes = ser.nbytes v };
          }))
          (ser.embedding.dump v) (λ m. Store.on_object_added libs m rag obj.meta.object_id none)
  ]

  unfoldable pub load_rag_object : F → Bytes → Bytes → Result (RagObject F × Vector)
  load_rag_object now meta_data data_bytes = do
    obj ← ser.rag_meta.load meta_data
    v ← ser.embedding.load data_bytes
    ok (record obj { meta = touch now obj.meta }, v)

  unfoldable pub get_rag_object :
      UnifiedObjectStore B Index → String → F → Result (Option (RagObject F × Vector))
  get_rag_object st x now = get_object libs b st cfg.rag_prefix x npy_ext (load_rag_object now)

  unfoldable pub delete_rag_object :
      UnifiedObjectStore B Index → String → UnifiedObjectStore B Index × Bool
  delete_rag_object st x = delete_object libs b st rag cfg.rag_prefix x npy_ext

  unfoldable pub list_rag_objects : UnifiedObjectStore B Index → List String
  list_rag_objects st = list_ids libs b st cfg.rag_prefix

  unfoldable pub put_semantic_entry :
      UnifiedObjectStore B Index
      → SemanticCacheEntry F
      → Vector
      → Result String × UnifiedObjectStore B Index
  put_semantic_entry st entry v = elim (last_dim (libs.hnswlib.shape v)) [
    | raise e ↦ (raise e, st)
    | ok dim ↦
        put_object libs b st cfg.sem_prefix entry.meta.object_id npy_ext
          (ser.semantic_entry.dump (record entry {
            embedding_dim = dim;
            meta = record entry.meta { size_bytes = ser.nbytes v };
          }))
          (ser.embedding.dump v) (λ m. Store.on_semantic_entry_added libs m entry.meta.object_id v)
  ]

  unfoldable pub load_semantic_entry : F → Bytes → Bytes → Result (SemanticCacheEntry F × Vector)
  load_semantic_entry now meta_data data_bytes = do
    entry ← ser.semantic_entry.load meta_data
    v ← ser.embedding.load data_bytes
    ok (record entry { meta = touch now entry.meta }, v)

  unfoldable pub get_semantic_entry :
      UnifiedObjectStore B Index → String → F → Result (Option (SemanticCacheEntry F × Vector))
  get_semantic_entry st x now =
      get_object libs b st cfg.sem_prefix x npy_ext (load_semantic_entry now)

  unfoldable pub delete_semantic_entry :
      UnifiedObjectStore B Index → String → UnifiedObjectStore B Index × Bool
  delete_semantic_entry st x = delete_object libs b st semantic_cache cfg.sem_prefix x npy_ext

  unfoldable pub list_semantic_entries : UnifiedObjectStore B Index → List String
  list_semantic_entries st = list_ids libs b st cfg.sem_prefix
