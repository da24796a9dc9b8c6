-- ===== src/Api/RoundTrip.antt =====
-- What src/l3store/api/converters.py keeps of an object that is sent as a protobuf message and read
-- again.
use intellil.Common.{
  ℕ, String, Bool, true, false, ◌&&◌, Option, none, some, ok, raise, value_error, ◌>>=◌,
  if◌then◌else◌, or_else, is_some, ◌≡◌, refl, string_dec, Bool-cases, inl, inr, ℕ,
}
use intellil.Core.Enums.{
  ObjectType, kv_cache, rag, semantic_cache, agent_workflow, agent_step, tool_call_artifact,
  plan_cache, workflow_trace,
}
use intellil.Core.Types.{ObjectMeta, KvCacheBlock, RagObject, SemanticCacheEntry}
use intellil.Api.{
  ObjectMetaProto, is_int32, is_uint64, all_int32, type_text, find_type, type_of, text_or_none,
  meta_fits, meta_to_proto, proto_to_meta, kv_block_to_proto, proto_to_kv_block,
  rag_object_to_proto, proto_to_rag_object, semantic_entry_to_proto, proto_to_semantic_entry,
}

type_of-type_text : (t : ObjectType) → type_of (type_text t) ≡ ok t
unfolding string_dec find_type type_of type_text
type_of-type_text kv_cache = refl
type_of-type_text rag = refl
type_of-type_text semantic_cache = refl
type_of-type_text agent_workflow = refl
type_of-type_text agent_step = refl
type_of-type_text tool_call_artifact = refl
type_of-type_text plan_cache = refl
type_of-type_text workflow_trace = refl

-- An empty parent id reads as no parent.
unfoldable pub kept_parent : Option String → Option String
kept_parent none = none
kept_parent (some x) = text_or_none x

-- What is kept once is kept again.
pub kept_parent-kept_parent : (p : Option String) → kept_parent (kept_parent p) ≡ kept_parent p
unfolding kept_parent intellil.Core.ObjectStore.is_empty string_dec
kept_parent-kept_parent none = refl
kept_parent-kept_parent (some String.[]) = refl
kept_parent-kept_parent (some (String.◌∷◌ c s)) = refl

kept_parent_lem : (p : Option String) → text_or_none (or_else p "") ≡ kept_parent p
unfolding kept_parent intellil.Core.ObjectStore.is_empty string_dec
kept_parent_lem none = refl
kept_parent_lem (some x) = refl

kept_page : (p : Option ℕ) → (if is_some p then some (or_else p 0) else none) ≡ p
kept_page none = refl
kept_page (some n) = refl

module _ {F : Type 0} where
  -- A message has no field for what the policies read of an agent's object.
  abbrev pub kept_meta : ObjectMeta F → ObjectMeta F
  kept_meta m = record m {
    workflow_id = none;
    agent_id = none;
    step_id = none;
    turn_id = none;
    tool_name = none;
    tool_args_hash = none;
    plan_id = none;
    expected_next_use_step = none;
    predicted_tool_latency_ms = none;
    valid_until = none;
    scope = none;
    consistency_class = none;
  }

  abbrev pub kept_kv_block : KvCacheBlock F → KvCacheBlock F
  kept_kv_block block = record block {
    meta = kept_meta block.meta;
    parent_block_id = kept_parent block.parent_block_id;
  }

  -- Whether the fields of the message of a block, of a chunk and of an entry hold their numbers
  abbrev pub kv_fits : KvCacheBlock F → Bool
  kv_fits block = meta_fits block.meta && (all_int32 block.token_ids && is_int32 block.block_index)

  abbrev pub rag_fits : RagObject F → Bool
  rag_fits o =
      meta_fits o.meta
      && (is_int32 o.chunk_index && is_int32 o.embedding_dim && is_int32 (or_else o.page_number 0))

  abbrev pub semantic_fits : SemanticCacheEntry F → Bool
  semantic_fits e = meta_fits e.meta && (is_int32 e.embedding_dim && is_uint64 e.reuse_count)

  sent : ObjectMeta F → ObjectMetaProto F
  sent m = record {
    object_id = m.object_id;
    object_type = type_text m.object_type;
    created_at = m.created_at;
    last_accessed = m.last_accessed;
    access_count = m.access_count;
    size_bytes = m.size_bytes;
    reuse_score = m.reuse_score;
    ref_count = m.ref_count;
    tags = m.tags;
  }

  meta_sent : (m : ObjectMeta F) → meta_fits m ≡ true → meta_to_proto m ≡ ok (sent m)
  unfolding meta_to_proto sent
  meta_sent m fit = rw fit refl

  meta_refused : (m : ObjectMeta F) → meta_fits m ≡ false → meta_to_proto m ≡ raise value_error
  unfolding meta_to_proto
  meta_refused m unfit = rw unfit refl

  meta_read : (m : ObjectMeta F) → proto_to_meta (sent m) ≡ ok (kept_meta m)
  unfolding proto_to_meta sent
  meta_read m = rw (type_of-type_text m.object_type) refl

  -- A block that is sent and read is the block without its agent fields, and without a parent id
  -- that is empty. A block is sent exactly when the fields of its message hold its numbers.
  pub kv_block-round_trip :
      (block : KvCacheBlock F)
      → (kv_block_to_proto block >>= proto_to_kv_block)
        ≡ (if kv_fits block then ok (kept_kv_block block) else raise value_error)
  unfolding kv_block_to_proto proto_to_kv_block
  kv_block-round_trip block =
      let rest = all_int32 block.token_ids && is_int32 block.block_index in
      elim (Bool-cases (meta_fits block.meta)) [
        | inr unfit ↦ rw (meta_refused block.meta unfit, unfit) refl
        | inl fit ↦ elim (Bool-cases rest) [
          | inr unfit ↦ rw (meta_sent block.meta fit, fit, unfit) refl
          | inl fits ↦
              rw
                (
                  meta_sent block.meta fit,
                  fit,
                  fits,
                  meta_read block.meta,
                  kept_parent_lem block.parent_block_id,
                )
                refl
        ]
      ]

  -- The same for a chunk, which keeps its page, page 0 too.
  pub rag_object-round_trip :
      (o : RagObject F)
      → (rag_object_to_proto o >>= proto_to_rag_object)
        ≡ (if rag_fits o then ok (record o { meta = kept_meta o.meta }) else raise value_error)
  unfolding rag_object_to_proto proto_to_rag_object
  rag_object-round_trip o =
      let rest =
        is_int32 o.chunk_index && is_int32 o.embedding_dim && is_int32 (or_else o.page_number 0) in
      elim (Bool-cases (meta_fits o.meta)) [
        | inr unfit ↦ rw (meta_refused o.meta unfit, unfit) refl
        | inl fit ↦ elim (Bool-cases rest) [
          | inr unfit ↦ rw (meta_sent o.meta fit, fit, unfit) refl
          | inl fits ↦
              rw (meta_sent o.meta fit, fit, fits, meta_read o.meta, kept_page o.page_number) refl
        ]
      ]

  -- The same for an entry of the semantic cache.
  pub semantic_entry-round_trip :
      (e : SemanticCacheEntry F)
      → (semantic_entry_to_proto e >>= proto_to_semantic_entry)
        ≡ (if semantic_fits e then ok (record e { meta = kept_meta e.meta }) else raise value_error)
  unfolding semantic_entry_to_proto proto_to_semantic_entry
  semantic_entry-round_trip e =
      let rest = is_int32 e.embedding_dim && is_uint64 e.reuse_count in
      elim (Bool-cases (meta_fits e.meta)) [
        | inr unfit ↦ rw (meta_refused e.meta unfit, unfit) refl
        | inl fit ↦ elim (Bool-cases rest) [
          | inr unfit ↦ rw (meta_sent e.meta fit, fit, unfit) refl
          | inl fits ↦ rw (meta_sent e.meta fit, fit, fits, meta_read e.meta) refl
        ]
      ]
