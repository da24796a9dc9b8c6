-- ===== src/Api/Client.antt =====
-- `L3Client` of src/l3store/api/grpc_client.py over `L3ServiceImpl`: blocks, chunks and entries of the
-- semantic cache. The channel hands each message on as it is; a call that raises at the service raises
-- at the client.
use intellil.Common.{
  if◌then◌else◌, value_error, bind_ok, String, true, Option, none, some, Result, ok, raise, ◌>>=◌,
  ◌≡◌, refl, ◌∙◌, ap,
}
use intellil.Common.Float.{Float}
use intellil.Core.Types.{KvCacheBlock, RagObject, SemanticCacheEntry, touch}
use intellil.Metadata.Store.{Libraries}
use intellil.Metadata.Store.Existence
use intellil.Storage.{Backend, IsStorage}
use intellil.Storage.Keys.{meta_ext, npz_ext, object_key}
use intellil.Core.ObjectStore.{UnifiedObjectStore, put_pair}
use intellil.Core.ObjectStore.Objects.{Serializer, ObjectsConfig, prepared_kv_block, put_kv_block}
use intellil.Core.ObjectStore.RoundTrip.{Loads, get_kv_block-put_kv_block}
use intellil.Api.{
  NumpyIo, KvCacheBlockProto, kv_block_to_proto, proto_to_kv_block, rag_object_to_proto,
  semantic_entry_to_proto,
}
use intellil.Api.Service.{
  KvMessage, RagMessage, SemanticMessage, read_kv, put_kv, get_kv, kv_response, found_kv, read_rag,
  put_rag, get_rag, read_semantic, put_semantic, get_semantic,
}
use intellil.Api.RoundTrip.{kept_kv_block, kept_parent-kept_parent, kv_fits, kv_block-round_trip}

module _ {F Json Vector Index B Bytes Raw : Type 0} ⦃fl : Float F⦄ (libs : Libraries F Vector Index)
    (b : Backend B Bytes) (ser : Serializer F Json Vector Bytes) (cfg : ObjectsConfig)
    (io : NumpyIo Vector Raw) where
  -- `put_kv_block` and `get_kv_block`
  unfoldable pub client_put_kv :
      UnifiedObjectStore B Index
      → KvCacheBlock F
      → Vector
      → Vector
      → Result String × UnifiedObjectStore B Index
  client_put_kv st block ks vs = elim (kv_block_to_proto block) [
    | raise err ↦ (raise err, st)
    | ok message ↦
        put_kv libs b ser cfg io st
          (record { block = message; key_states = io.save ks; value_states = io.save vs })
  ]

  unfoldable pub read_kv_response :
      Option (KvMessage F Raw) → Result (Option (KvCacheBlock F × Vector × Vector))
  read_kv_response none = ok none
  read_kv_response (some response) = do found ← read_kv libs b ser cfg io response; ok (some found)

  unfoldable pub client_get_kv :
      UnifiedObjectStore B Index → String → F → Result (Option (KvCacheBlock F × Vector × Vector))
  client_get_kv st x now = do
    response ← get_kv libs b ser cfg io st x now
    read_kv_response response

  -- `put_rag_object` and `get_rag_object`
  unfoldable pub client_put_rag :
      UnifiedObjectStore B Index → RagObject F → Vector → Result String × UnifiedObjectStore B Index
  client_put_rag st o v = elim (rag_object_to_proto o) [
    | raise err ↦ (raise err, st)
    | ok message ↦ put_rag libs b ser cfg io st (record { object = message; embedding = io.save v })
  ]

  unfoldable pub read_rag_response :
      Option (RagMessage F Raw) → Result (Option (RagObject F × Vector))
  read_rag_response none = ok none
  read_rag_response (some response) = do
    found ← read_rag libs b ser cfg io response
    ok (some found)

  unfoldable pub client_get_rag :
      UnifiedObjectStore B Index → String → F → Result (Option (RagObject F × Vector))
  client_get_rag st x now = do
    response ← get_rag libs b ser cfg io st x now
    read_rag_response response

  -- `put_semantic_entry` and `get_semantic_entry`
  unfoldable pub client_put_semantic :
      UnifiedObjectStore B Index
      → SemanticCacheEntry F
      → Vector
      → Result String × UnifiedObjectStore B Index
  client_put_semantic st e v = elim (semantic_entry_to_proto e) [
    | raise err ↦ (raise err, st)
    | ok message ↦
        put_semantic libs b ser cfg io st (record { entry = message; prompt_embedding = io.save v })
  ]

  unfoldable pub read_semantic_response :
      Option (SemanticMessage F Raw) → Result (Option (SemanticCacheEntry F × Vector))
  read_semantic_response none = ok none
  read_semantic_response (some response) = do
    found ← read_semantic libs b ser cfg io response
    ok (some found)

  unfoldable pub client_get_semantic :
      UnifiedObjectStore B Index → String → F → Result (Option (SemanticCacheEntry F × Vector))
  client_get_semantic st x now = do
    response ← get_semantic libs b ser cfg io st x now
    read_semantic_response response

  -- The block as the service stores it, and as it serves it
  abbrev pub stored_kv : KvCacheBlock F → Vector → Vector → KvCacheBlock F
  stored_kv block ks vs = prepared_kv_block libs b ser cfg (kept_kv_block block) ks vs

  abbrev pub served_kv : KvCacheBlock F → Vector → Vector → F → KvCacheBlock F
  served_kv block ks vs now = record (stored_kv block ks vs) {
    meta = touch now (stored_kv block ks vs).meta;
  }

  -- A block that fits its message crosses the channel.
  message :
      (block : KvCacheBlock F)
      → kv_fits block ≡ true
      → (p : KvCacheBlockProto F) × (proto_to_kv_block p ≡ ok (kept_kv_block block))
        × (kv_block_to_proto block ≡ ok p)
  message block fits = bind_ok proto_to_kv_block (kv_block_to_proto block) (
      kv_block-round_trip block
      ∙ ap (λ t. if t then ok (kept_kv_block block) else raise value_error) fits)

  put_crosses :
      (st : UnifiedObjectStore B Index) (block : KvCacheBlock F) (ks vs : Vector)
      → kv_fits block ≡ true
      → io.load (io.save ks) ≡ ok ks
      → io.load (io.save vs) ≡ ok vs
      → client_put_kv st block ks vs ≡ put_kv_block libs b ser cfg st (kept_kv_block block) ks vs
  unfolding client_put_kv put_kv
  put_crosses st block ks vs fits keys values =
      let (p, read, written) = message block fits in
      rw (client_put_kv, written, put_kv, read, keys, values) refl

  get_crosses :
      (block : KvCacheBlock F) (ks vs : Vector)
      → kv_fits block ≡ true
      → io.load (io.save ks) ≡ ok ks
      → io.load (io.save vs) ≡ ok vs
      → (found_kv libs b ser cfg io (some (block, ks, vs)) >>= read_kv_response)
        ≡ ok (some (kept_kv_block block, ks, vs))
  unfolding kv_response found_kv read_kv_response
  get_crosses block ks vs fits keys values =
      let (p, read, written) = message block fits in rw (written, read, keys, values) refl

  served_kept :
      (block : KvCacheBlock F) (ks vs : Vector) (now : F)
      → kept_kv_block (served_kv block ks vs now) ≡ served_kv block ks vs now
  unfolding prepared_kv_block touch
  served_kept block ks vs now = rw (kept_parent-kept_parent block.parent_block_id) refl

  -- Where the messages hold the numbers of the block and of the block that is served, its tensors
  -- are read as they were saved, and the backend writes both halves and they load again, a client
  -- that puts a block is told its id, and gets back under that id the block without its agent
  -- fields, with its size and its token hash filled in and touched, and its tensors.
  pub client_get_kv-client_put_kv :
      (law : IsStorage b) (st : UnifiedObjectStore B Index) (block : KvCacheBlock F)
      (ks vs : Vector) (now : F)
      → Existence.IsValid st.metadata
      → kv_fits block ≡ true
      → kv_fits (served_kv block ks vs now) ≡ true
      → io.load (io.save ks) ≡ ok ks
      → io.load (io.save vs) ≡ ok vs
      → Loads ser.kv_block_meta (stored_kv block ks vs)
      → Loads ser.kv_tensors (ks, vs)
      → (put_pair b st.backend
          (object_key cfg.kv_prefix block.meta.object_id meta_ext)
          (ser.kv_block_meta.dump (stored_kv block ks vs))
          (object_key cfg.kv_prefix block.meta.object_id npz_ext)
          (ser.kv_tensors.dump (ks, vs))).0
        ≡ ok tt
      → ((client_put_kv st block ks vs).0 ≡ ok block.meta.object_id)
        × (client_get_kv (client_put_kv st block ks vs).1 block.meta.object_id now
            ≡ ok (some (served_kv block ks vs now, ks, vs)))
  unfolding client_get_kv get_kv
  client_get_kv-client_put_kv law st block ks vs now valid fits served keys values meta_loads
        data_loads written =
      let (returned, found) =
        get_kv_block-put_kv_block libs b ser cfg law st (kept_kv_block block) ks vs now valid
          meta_loads data_loads written in
      let back =
        get_crosses (served_kv block ks vs now) ks vs served keys values
        ∙ ap (λ k. ok (some (k, ks, vs))) (served_kept block ks vs now) in
      rw (put_crosses st block ks vs fits keys values) (returned, rw found back)
