-- ===== src/Api/Service.antt =====
-- `L3ServiceImpl` of src/l3store/api/grpc_server.py: the calls that put, get, delete and list. A
-- response whose `found` is false is `none`, and what a call raises is what gRPC reports as an error.
use intellil.Common.{String, Bool, Option, none, some, List, Result, ok, raise, ◌>>=◌}
use intellil.Common.Float.{Float}
use intellil.Core.Types.{KvCacheBlock, RagObject, SemanticCacheEntry}
use intellil.Metadata.Store.{Libraries}
use intellil.Storage.{Backend}
use intellil.Core.ObjectStore.{UnifiedObjectStore}
use intellil.Core.ObjectStore.Objects.{
  Serializer, ObjectsConfig, put_kv_block, get_kv_block, delete_kv_block, list_kv_blocks,
  put_rag_object, get_rag_object, put_semantic_entry, get_semantic_entry,
}
use intellil.Api.{
  NumpyIo, KvCacheBlockProto, RagObjectProto, SemanticCacheEntryProto, kv_block_to_proto,
  proto_to_kv_block, rag_object_to_proto, proto_to_rag_object, semantic_entry_to_proto,
  proto_to_semantic_entry,
}

-- A block with its tensors, in a request to put it and in a response
pub record KvMessage (F Raw : Type 0) : Type 0 where
  pub block : KvCacheBlockProto F
  pub key_states : Raw
  pub value_states : Raw

pub record RagMessage (F Raw : Type 0) : Type 0 where
  pub object : RagObjectProto F
  pub embedding : Raw

pub record SemanticMessage (F Raw : Type 0) : Type 0 where
  pub entry : SemanticCacheEntryProto F
  pub prompt_embedding : Raw

module _ {F Json Vector Index B Bytes Raw : Type 0} ⦃fl : Float F⦄ (libs : Libraries F Vector Index)
    (b : Backend B Bytes) (ser : Serializer F Json Vector Bytes) (cfg : ObjectsConfig)
    (io : NumpyIo Vector Raw) where
  abbrev pub read_kv : KvMessage F Raw → Result (KvCacheBlock F × Vector × Vector)
  read_kv request = do
    block ← proto_to_kv_block request.block
    ks ← io.load request.key_states
    vs ← io.load request.value_states
    ok (block, ks, vs)

  -- `PutKVBlock`
  unfoldable pub put_kv :
      UnifiedObjectStore B Index → KvMessage F Raw → Result String × UnifiedObjectStore B Index
  put_kv st request = elim (read_kv request) [
    | raise err ↦ (raise err, st)
    | ok (block, ks, vs) ↦ put_kv_block libs b ser cfg st block ks vs
  ]

  -- `_kv_response`
  unfoldable pub kv_response : KvCacheBlock F → Vector → Vector → Result (KvMessage F Raw)
  kv_response block ks vs = do
    message ← kv_block_to_proto block
    ok (record { block = message; key_states = io.save ks; value_states = io.save vs })

  unfoldable pub found_kv :
      Option (KvCacheBlock F × Vector × Vector) → Result (Option (KvMessage F Raw))
  found_kv none = ok none
  found_kv (some (block, ks, vs)) = do response ← kv_response block ks vs; ok (some response)

  -- `GetKVBlock`
  unfoldable pub get_kv :
      UnifiedObjectStore B Index → String → F → Result (Option (KvMessage F Raw))
  get_kv st x now = do found ← get_kv_block libs b ser cfg st x now; found_kv found

  -- `DeleteKVBlock` and `ListKVBlocks`
  unfoldable pub delete_kv : UnifiedObjectStore B Index → String → UnifiedObjectStore B Index × Bool
  delete_kv st x = delete_kv_block libs b ser cfg st x

  unfoldable pub list_kv : UnifiedObjectStore B Index → List String
  list_kv st = list_kv_blocks libs b ser cfg st

  abbrev pub read_rag : RagMessage F Raw → Result (RagObject F × Vector)
  read_rag request = do
    o ← proto_to_rag_object request.object
    v ← io.load request.embedding
    ok (o, v)

  -- `PutRAGObject`
  unfoldable pub put_rag :
      UnifiedObjectStore B Index → RagMessage F Raw → Result String × UnifiedObjectStore B Index
  put_rag st request = elim (read_rag request) [
    | raise err ↦ (raise err, st)
    | ok (o, v) ↦ put_rag_object libs b ser cfg st o v
  ]

  -- `_rag_response`
  unfoldable pub rag_response : RagObject F → Vector → Result (RagMessage F Raw)
  rag_response o v = do
    message ← rag_object_to_proto o
    ok (record { object = message; embedding = io.save v })

  unfoldable pub found_rag : Option (RagObject F × Vector) → Result (Option (RagMessage F Raw))
  found_rag none = ok none
  found_rag (some (o, v)) = do response ← rag_response o v; ok (some response)

  -- `GetRAGObject`
  unfoldable pub get_rag :
      UnifiedObjectStore B Index → String → F → Result (Option (RagMessage F Raw))
  get_rag st x now = do found ← get_rag_object libs b ser cfg st x now; found_rag found

  abbrev pub read_semantic : SemanticMessage F Raw → Result (SemanticCacheEntry F × Vector)
  read_semantic request = do
    e ← proto_to_semantic_entry request.entry
    v ← io.load request.prompt_embedding
    ok (e, v)

  -- `PutSemanticEntry`
  unfoldable pub put_semantic :
      UnifiedObjectStore B Index
      → SemanticMessage F Raw
      → Result String × UnifiedObjectStore B Index
  put_semantic st request = elim (read_semantic request) [
    | raise err ↦ (raise err, st)
    | ok (e, v) ↦ put_semantic_entry libs b ser cfg st e v
  ]

  -- `_semantic_response`
  unfoldable pub semantic_response : SemanticCacheEntry F → Vector → Result (SemanticMessage F Raw)
  semantic_response e v = do
    message ← semantic_entry_to_proto e
    ok (record { entry = message; prompt_embedding = io.save v })

  unfoldable pub found_semantic :
      Option (SemanticCacheEntry F × Vector) → Result (Option (SemanticMessage F Raw))
  found_semantic none = ok none
  found_semantic (some (e, v)) = do response ← semantic_response e v; ok (some response)

  -- `GetSemanticEntry`
  unfoldable pub get_semantic :
      UnifiedObjectStore B Index → String → F → Result (Option (SemanticMessage F Raw))
  get_semantic st x now = do
    found ← get_semantic_entry libs b ser cfg st x now
    found_semantic found
