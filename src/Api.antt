-- ===== src/Api.antt =====
-- The converters between objects and protobuf messages, src/l3store/api/converters.py, with the
-- messages of src/l3store/api/proto/objects.proto. Protobuf refuses a number that its field cannot
-- hold, by a ValueError. `NumpyIo` is `np.save` and `np.load` on bytes.
pub mod Service
pub mod RoundTrip
pub mod Client
pub mod Batches
use intellil.Common.{
  ℕ, ◌^◌, ltb, string_key, ◌≟◌, holds, String, Bool, true, false, not, ◌&&◌, Option, none, some,
  List, [], ◌∷◌, Result, ok, raise, value_error, ◌>>=◌, ◌>>◌, raise_if, if◌then◌else◌, is_some,
  or_else,
}
use intellil.Common.Dict.{Dict}
use intellil.Core.Enums.{
  ObjectType, kv_cache, rag, semantic_cache, agent_workflow, agent_step, tool_call_artifact,
  plan_cache, workflow_trace,
}
use intellil.Core.Types.{ObjectMeta, KvCacheBlock, RagObject, SemanticCacheEntry}
use intellil.Core.ObjectStore.{is_empty}

pub record NumpyIo (Vector Raw : Type 0) : Type 0 where
  pub save : Vector → Raw
  pub load : Raw → Result Vector

pub record ObjectMetaProto (F : Type 0) : Type 0 where
  pub object_id : String
  pub object_type : String
  pub created_at : F
  pub last_accessed : F
  pub access_count : ℕ
  pub size_bytes : ℕ
  pub reuse_score : F
  pub ref_count : ℕ
  pub tags : Dict String String

pub record KvCacheBlockProto (F : Type 0) : Type 0 where
  pub meta : ObjectMetaProto F
  pub model_name : String
  pub token_ids : List ℕ
  pub block_index : ℕ
  pub token_hash : String
  pub parent_block_id : String
  pub shared_by_sessions : List String

pub record RagObjectProto (F : Type 0) : Type 0 where
  pub meta : ObjectMetaProto F
  pub document_id : String
  pub chunk_index : ℕ
  pub chunk_text : String
  pub embedding_dim : ℕ
  pub source : String
  pub page_number : ℕ
  pub has_page_number : Bool

pub record SemanticCacheEntryProto (F : Type 0) : Type 0 where
  pub meta : ObjectMetaProto F
  pub prompt_text : String
  pub response_text : String
  pub model_name : String
  pub embedding_dim : ℕ
  pub reuse_count : ℕ
  pub similarity_threshold : F

-- Whether an `int32` and a `uint64` hold the number
abbrev pub is_int32 : ℕ → Bool
is_int32 n = ltb n (2 ^ 31)

abbrev pub is_uint64 : ℕ → Bool
is_uint64 n = ltb n (2 ^ 64)

unfoldable pub all_int32 : List ℕ → Bool
all_int32 [] = true
all_int32 (n ∷ ns) = is_int32 n && all_int32 ns

-- `ObjectType.value`, and `ObjectType(text)`
unfoldable pub type_text : ObjectType → String
type_text kv_cache = "kv_cache"
type_text rag = "rag"
type_text semantic_cache = "semantic_cache"
type_text agent_workflow = "agent_workflow"
type_text agent_step = "agent_step"
type_text tool_call_artifact = "tool_call_artifact"
type_text plan_cache = "plan_cache"
type_text workflow_trace = "workflow_trace"

unfoldable pub find_type : List ObjectType → String → Result ObjectType
find_type [] text = raise value_error
find_type (t ∷ types) text =
    let rest = find_type types text in if holds (type_text t ≟ text) then ok t else rest

unfoldable pub type_of : String → Result ObjectType
type_of text =
    find_type
      (kv_cache ∷ rag ∷ semantic_cache ∷ agent_workflow ∷ agent_step ∷ tool_call_artifact
        ∷ plan_cache ∷ workflow_trace ∷ [])
      text

-- `text or None`
abbrev pub text_or_none : String → Option String
text_or_none s = if is_empty s then none else some s

module _ {F : Type 0} where
  abbrev pub meta_fits : ObjectMeta F → Bool
  meta_fits m = is_uint64 m.access_count && is_uint64 m.size_bytes && is_uint64 m.ref_count

  unfoldable pub meta_to_proto : ObjectMeta F → Result (ObjectMetaProto F)
  meta_to_proto m = do
    raise_if (not (meta_fits m)) value_error
    ok (record {
      object_id = m.object_id;
      object_type = type_text m.object_type;
      created_at = m.created_at;
      last_accessed = m.last_accessed;
      access_count = m.access_count;
      size_bytes = m.size_bytes;
      reuse_score = m.reuse_score;
      ref_count = m.ref_count;
      tags = m.tags;
    })

  unfoldable pub proto_to_meta : ObjectMetaProto F → Result (ObjectMeta F)
  proto_to_meta m = do
    type ← type_of m.object_type
    ok (record {
      object_id = m.object_id;
      object_type = type;
      created_at = m.created_at;
      last_accessed = m.last_accessed;
      access_count = m.access_count;
      size_bytes = m.size_bytes;
      reuse_score = m.reuse_score;
      ref_count = m.ref_count;
      tags = m.tags;
      workflow_id = none;
      agent_id = none;
      step_id = none;
      turn_id = none;
      tool_name = none;
      tool_args_hash = none;
      plan_id = none;
      expected_next_use_step = none;
      predicted_tool_latency_ms = none;
      valid_until = none;
      scope = none;
      consistency_class = none;
    })

  unfoldable pub kv_block_to_proto : KvCacheBlock F → Result (KvCacheBlockProto F)
  kv_block_to_proto block = do
    meta ← meta_to_proto block.meta
    raise_if (not (all_int32 block.token_ids && is_int32 block.block_index)) value_error
    ok (record {
      meta = meta;
      model_name = block.model_name;
      token_ids = block.token_ids;
      block_index = block.block_index;
      token_hash = block.token_hash;
      parent_block_id = or_else block.parent_block_id "";
      shared_by_sessions = block.shared_by_sessions;
    })

  unfoldable pub proto_to_kv_block : KvCacheBlockProto F → Result (KvCacheBlock F)
  proto_to_kv_block p = do
    meta ← proto_to_meta p.meta
    ok (record {
      meta = meta;
      model_name = p.model_name;
      token_ids = p.token_ids;
      block_index = p.block_index;
      token_hash = p.token_hash;
      parent_block_id = text_or_none p.parent_block_id;
      shared_by_sessions = p.shared_by_sessions;
    })

  unfoldable pub rag_object_to_proto : RagObject F → Result (RagObjectProto F)
  rag_object_to_proto o = do
    meta ← meta_to_proto o.meta
    raise_if
        (not (
          is_int32 o.chunk_index && is_int32 o.embedding_dim && is_int32 (or_else o.page_number 0)))
        value_error
    ok (record {
      meta = meta;
      document_id = o.document_id;
      chunk_index = o.chunk_index;
      chunk_text = o.chunk_text;
      embedding_dim = o.embedding_dim;
      source = o.source;
      page_number = or_else o.page_number 0;
      has_page_number = is_some o.page_number;
    })

  unfoldable pub proto_to_rag_object : RagObjectProto F → Result (RagObject F)
  proto_to_rag_object p = do
    meta ← proto_to_meta p.meta
    ok (record {
      meta = meta;
      document_id = p.document_id;
      chunk_index = p.chunk_index;
      chunk_text = p.chunk_text;
      embedding_dim = p.embedding_dim;
      source = p.source;
      page_number = if p.has_page_number then some p.page_number else none;
    })

  unfoldable pub semantic_entry_to_proto : SemanticCacheEntry F → Result (SemanticCacheEntryProto F)
  semantic_entry_to_proto e = do
    meta ← meta_to_proto e.meta
    raise_if (not (is_int32 e.embedding_dim && is_uint64 e.reuse_count)) value_error
    ok (record {
      meta = meta;
      prompt_text = e.prompt_text;
      response_text = e.response_text;
      model_name = e.model_name;
      embedding_dim = e.embedding_dim;
      reuse_count = e.reuse_count;
      similarity_threshold = e.similarity_threshold;
    })

  unfoldable pub proto_to_semantic_entry : SemanticCacheEntryProto F → Result (SemanticCacheEntry F)
  proto_to_semantic_entry p = do
    meta ← proto_to_meta p.meta
    ok (record {
      meta = meta;
      prompt_text = p.prompt_text;
      response_text = p.response_text;
      model_name = p.model_name;
      embedding_dim = p.embedding_dim;
      reuse_count = p.reuse_count;
      similarity_threshold = p.similarity_threshold;
    })
