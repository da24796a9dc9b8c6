-- ===== src/Api/Batches.antt =====
-- `PrefetchBatch` and `SearchSimilarPrompts` of `L3ServiceImpl` in src/l3store/api/grpc_server.py, with
-- the methods of `L3Client` in src/l3store/api/grpc_client.py that call them.
use intellil.Common.{
  ℕ, ◌==◌, string_key, ◌≟◌, holds, String, Option, none, some, List, [], ◌∷◌, map, Result, ok,
  raise, value_error, attribute_error, ◌>>=◌, if◌then◌else◌,
}
use intellil.Common.Float.{Float}
use intellil.Common.Dict.{Dict, get, put}
use intellil.Metadata.Store.{Libraries}
use intellil.Metadata.Store
use intellil.Storage.{Backend}
use intellil.Core.ObjectStore.{UnifiedObjectStore}
use intellil.Core.ObjectStore.Objects.{Serializer, ObjectsConfig}
use intellil.Core.ObjectStore.Prefetch.{Decision, Loaded, kv, rag, semantic, tool_artifact, plan}
use intellil.Core.ObjectStore.Prefetch
use intellil.Api.{NumpyIo, meta_to_proto}
use intellil.Api.Service.{
  KvMessage, RagMessage, SemanticMessage, kv_response, rag_response, semantic_response, read_kv,
  read_rag, read_semantic,
}

pub record PrefetchDecisionProto (F : Type 0) : Type 0 where
  pub object_id : String
  pub priority : F
  pub prefetch_type : String

pub data Payload (F Raw : Type 0) : Type 0 where
  kv_payload : KvMessage F Raw → Payload F Raw
  rag_payload : RagMessage F Raw → Payload F Raw
  semantic_payload : SemanticMessage F Raw → Payload F Raw

pub record PrefetchObjectProto (F Raw : Type 0) : Type 0 where
  pub object_id : String
  pub prefetch_type : String
  pub payload : Payload F Raw

-- A decision as the store reads it
unfoldable pub proto_to_prefetch_decision : {F : Type 0} → PrefetchDecisionProto F → Decision
proto_to_prefetch_decision d = record {
  object_id = some d.object_id;
  prefetch_type = some d.prefetch_type;
}

module _ {F Json Vector Index B Bytes Raw : Type 0} ⦃fl : Float F⦄ (libs : Libraries F Vector Index)
    (b : Backend B Bytes) (ser : Serializer F Json Vector Bytes) (cfg : ObjectsConfig)
    (io : NumpyIo Vector Raw) where
  -- The branches of `_prefetch_object_response`. A result that does not unpack into the parts of the
  -- type of the decision is a ValueError, one whose object lacks a field is an AttributeError.
  unfoldable pub as_kv : Loaded F Json Vector → Result (Payload F Raw)
  as_kv (kv (block, ks, vs)) = do
    response ← kv_response libs b ser cfg io block ks vs
    ok (kv_payload response)
  as_kv (rag result) = raise value_error
  as_kv (semantic result) = raise value_error
  as_kv (tool_artifact a) = raise value_error
  as_kv (plan result) = raise value_error

  unfoldable pub as_rag : Loaded F Json Vector → Result (Payload F Raw)
  as_rag (kv result) = raise value_error
  as_rag (rag (o, v)) = do response ← rag_response libs b ser cfg io o v; ok (rag_payload response)
  as_rag (semantic (e, v)) = do meta ← meta_to_proto e.meta; raise attribute_error
  as_rag (tool_artifact a) = raise value_error
  as_rag (plan (p, v)) = do meta ← meta_to_proto p.meta; raise attribute_error

  unfoldable pub as_semantic : Loaded F Json Vector → Result (Payload F Raw)
  as_semantic (kv result) = raise value_error
  as_semantic (rag (o, v)) = do meta ← meta_to_proto o.meta; raise attribute_error
  as_semantic (semantic (e, v)) = do
    response ← semantic_response libs b ser cfg io e v
    ok (semantic_payload response)
  as_semantic (tool_artifact a) = raise value_error
  as_semantic (plan (p, v)) = do meta ← meta_to_proto p.meta; raise attribute_error

  -- `_prefetch_object_response`
  unfoldable pub payload_of : String → Loaded F Json Vector → Result (Option (Payload F Raw))
  payload_of type result =
      if holds (type ≟ "kv_cache")
      then as_kv result >>= (λ p. ok (some p))
      else if holds (type ≟ "rag")
      then as_rag result >>= (λ p. ok (some p))
      else if holds (type ≟ "semantic")
      then as_semantic result >>= (λ p. ok (some p))
      else ok none

  abbrev pub answered :
      PrefetchDecisionProto F
      → Option (Payload F Raw)
      → List (PrefetchObjectProto F Raw)
      → List (PrefetchObjectProto F Raw)
  answered d none objects = objects
  answered d (some p) objects =
      record { object_id = d.object_id; prefetch_type = d.prefetch_type; payload = p } ∷ objects

  -- The loop of `PrefetchBatch`
  unfoldable pub answer_decisions :
      Dict String (Loaded F Json Vector)
      → List (PrefetchDecisionProto F)
      → Result (List (PrefetchObjectProto F Raw))
  answer_decisions prefetched [] = ok []
  answer_decisions prefetched (d ∷ ds) = elim (get prefetched d.object_id) [
    | none ↦ answer_decisions prefetched ds
    | some result ↦ do
      payload ← payload_of d.prefetch_type result
      objects ← answer_decisions prefetched ds
      ok (answered d payload objects)
  ]

  -- `PrefetchBatch`
  unfoldable pub prefetch_objects :
      UnifiedObjectStore B Index
      → (String → F)
      → List (PrefetchDecisionProto F)
      → Result (List (PrefetchObjectProto F Raw))
  prefetch_objects st clock ds = do
    prefetched ← Prefetch.prefetch_batch libs b ser cfg st clock (map proto_to_prefetch_decision ds)
    answer_decisions prefetched ds

  -- `_decode_prefetch_object`
  unfoldable pub decode_prefetch_object : Payload F Raw → Result (Loaded F Json Vector)
  decode_prefetch_object (kv_payload response) = do
    found ← read_kv libs b ser cfg io response
    ok (kv found)
  decode_prefetch_object (rag_payload response) = do
    found ← read_rag libs b ser cfg io response
    ok (rag found)
  decode_prefetch_object (semantic_payload response) = do
    found ← read_semantic libs b ser cfg io response
    ok (semantic found)

  unfoldable pub decode_objects :
      Dict String (Loaded F Json Vector)
      → List (PrefetchObjectProto F Raw)
      → Result (Dict String (Loaded F Json Vector))
  decode_objects results [] = ok results
  decode_objects results (o ∷ objects) = do
    found ← decode_prefetch_object o.payload
    decode_objects (put results o.object_id found) objects

  -- `L3Client.prefetch_batch`
  unfoldable pub client_prefetch_batch :
      UnifiedObjectStore B Index
      → (String → F)
      → List (PrefetchDecisionProto F)
      → Result (Dict String (Loaded F Json Vector))
  client_prefetch_batch st clock ds = do
    objects ← prefetch_objects st clock ds
    decode_objects [] objects

  -- `SearchSimilarPrompts`; a `top_k` of 0 is 5.
  unfoldable pub search_prompts :
      UnifiedObjectStore B Index → Raw → ℕ → F → Result (List (String × F))
  search_prompts st query top_k threshold = do
    v ← io.load query
    Store.search_similar_prompts libs st.metadata v (if top_k == 0 then 5 else top_k) threshold

  -- `L3Client.search_similar_prompts`
  unfoldable pub client_search_prompts :
      UnifiedObjectStore B Index → Vector → ℕ → F → Result (List (String × F))
  client_search_prompts st v top_k threshold = search_prompts st (io.save v) top_k threshold
