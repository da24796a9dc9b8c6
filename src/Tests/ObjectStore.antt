-- ===== src/Tests/ObjectStore.antt =====
-- An object store over a memory backend: a block, an artifact and a plan.
use intellil.Common.{
  ℕ, string_key, string_dec, String, Bool, true, false, Option, none, some, List, [], ◌∷◌, ◌≡◌,
  refl, arith, Result, ok, raise, storage_error,
}
use intellil.Common.Dict.{get, put}
use intellil.Core.Enums.{ObjectType, kv_cache, tool_call_artifact, plan_cache, session, private}
use intellil.Core.Types.{ObjectMeta, KvCacheBlock, ToolCallArtifact, PlanCacheEntry, touch}
use intellil.Metadata.Bloom.{BloomFilter}
use intellil.Metadata.Bloom.Membership
use intellil.Metadata.PrefixTree
use intellil.Metadata.Store.{MetadataStore, init, on_object_added, might_exist, last_dim}
use intellil.Metadata.Store.Existence.{IsValid, Indexes, on_object_added-Indexes}
use intellil.Storage.{IsStorage}
use intellil.Storage.Keys.{object_key}
use intellil.Storage.Memory.{MemoryBackend, empty, memory, memory-IsStorage}
use intellil.Core.ObjectStore.{UnifiedObjectStore, put_pair}
use intellil.Core.ObjectStore.Objects.{
  prepared_kv_block, put_kv_block, get_kv_block, delete_kv_block, get_rag_object,
  get_semantic_entry,
}
use intellil.Core.ObjectStore.Agent.{
  prepared_tool_artifact, put_tool_artifact, get_tool_artifact, delete_tool_artifact,
  prepared_plan_cache_entry, put_plan_cache_entry, get_plan_cache_entry, delete_plan_cache_entry,
  get_agent_workflow, get_agent_step, get_workflow_trace,
}
use intellil.Core.ObjectStore.Prefetch.{
  Decision, Loaded, prefetch_one, prefetch_loop, prefetch_batch, prefetch_known, loaded,
}
use intellil.Core.ObjectStore.Prefetch.Batch.{fetched, prefetch_batch-fetched}
use intellil.Core.ObjectStore.RoundTrip.{
  get_kv_block-put_kv_block, get_tool_artifact-put_tool_artifact,
  get_plan_cache_entry-put_plan_cache_entry, delete-get, get-init, put_kv_block_failed,
}
use intellil.Tests.Fixtures.{
  counts, libraries, Blob, kv, tensors, serializer, config, refusing, refusing-IsStorage,
}

abbrev pub meta_of : ObjectType → ObjectMeta ℕ
meta_of type = record {
  object_id = "a";
  object_type = type;
  created_at = 10;
  last_accessed = 10;
  access_count = 0;
  size_bytes = 0;
  reuse_score = 0;
  ref_count = 0;
  tags = [];
  workflow_id = none;
  agent_id = none;
  step_id = none;
  turn_id = none;
  tool_name = none;
  tool_args_hash = none;
  plan_id = none;
  expected_next_use_step = none;
  predicted_tool_latency_ms = none;
  valid_until = none;
  scope = none;
  consistency_class = none;
}

abbrev pub block : KvCacheBlock ℕ
block = record {
  meta = meta_of kv_cache;
  model_name = "model";
  token_ids = 1 ∷ 2 ∷ [];
  block_index = 0;
  token_hash = "";
  parent_block_id = none;
  shared_by_sessions = [];
}

abbrev pub call : ToolCallArtifact ℕ String
call = record {
  meta = meta_of tool_call_artifact;
  tool_call_id = "a";
  tool_name = "search";
  tool_args_hash = "hash";
  tool_output_hash = "hash";
  tool_output_payload = "{}";
  ttl = 5;
  source_version = "";
  permission_scope = private;
  created_at = 10;
  expires_at = 15;
}

abbrev pub plan : PlanCacheEntry ℕ
plan = record {
  meta = meta_of plan_cache;
  plan_id = "a";
  task_embedding_dim = 0;
  plan_template = "template";
  required_tools = [];
  constraints = [];
  success_count = 0;
  failure_count = 0;
  last_validated_at = none;
  validity_scope = session;
}

pub fresh : MetadataStore (List ℕ)
fresh = init libraries 100 64 3

pub fresh-IsValid : IsValid fresh
unfolding fresh init
fresh-IsValid = record {
  bloom = (Membership.init-IsValid libraries.sha256 libraries.md5 64 3 "a").0;
  hnsw = λ h e. absurd (ground arith);
}

abbrev pub new_store : UnifiedObjectStore (MemoryBackend Blob) (List ℕ)
new_store = record { backend = empty; metadata = fresh }

memory-IsStorage_example : IsStorage (memory {Bytes = Blob})
memory-IsStorage_example = memory-IsStorage {Bytes = Blob}

on_object_added-Indexes_example :
    ((on_object_added libraries fresh kv_cache "a" (some (1 ∷ 2 ∷ []))).0 ≡ ok tt)
    × Indexes libraries fresh "a"
        (on_object_added libraries fresh kv_cache "a" (some (1 ∷ 2 ∷ []))).1
on_object_added-Indexes_example =
    on_object_added-Indexes libraries fresh kv_cache "a" (some (1 ∷ 2 ∷ [])) fresh-IsValid

abbrev stored_block : KvCacheBlock ℕ
stored_block = prepared_kv_block libraries memory serializer config block (3 ∷ []) (4 ∷ [])

get_kv_block-put_kv_block_example :
    ((put_kv_block libraries memory serializer config new_store block (3 ∷ []) (4 ∷ [])).0 ≡ ok "a")
    × (get_kv_block libraries memory serializer config
          (put_kv_block libraries memory serializer config new_store block (3 ∷ []) (4 ∷ [])).1
          "a"
          20
        ≡ ok (some (record stored_block { meta = touch 20 stored_block.meta }, 3 ∷ [], 4 ∷ [])))
unfolding put_pair
get_kv_block-put_kv_block_example =
    get_kv_block-put_kv_block libraries memory serializer config memory-IsStorage new_store block
      (3 ∷ []) (4 ∷ []) 20 fresh-IsValid refl refl refl

abbrev stored_call : ToolCallArtifact ℕ String
stored_call = prepared_tool_artifact libraries memory serializer config call

get_tool_artifact-put_tool_artifact_example :
    ((put_tool_artifact libraries memory serializer config new_store call).0 ≡ ok "a")
    × (get_tool_artifact libraries memory serializer config
          (put_tool_artifact libraries memory serializer config new_store call).1
          "a"
          20
        ≡ ok (some (record stored_call { meta = touch 20 stored_call.meta })))
get_tool_artifact-put_tool_artifact_example =
    get_tool_artifact-put_tool_artifact libraries memory serializer config memory-IsStorage
      new_store call 20 fresh-IsValid refl refl

abbrev pub stored_plan : PlanCacheEntry ℕ
stored_plan = prepared_plan_cache_entry libraries memory serializer config plan (3 ∷ 4 ∷ []) 2

pub plan_round_trip :
    get_plan_cache_entry libraries memory serializer config
      (put_plan_cache_entry libraries memory serializer config new_store plan (3 ∷ 4 ∷ [])).1
      "a"
      20
    ≡ ok (some (record stored_plan { meta = touch 20 stored_plan.meta }, 3 ∷ 4 ∷ []))
unfolding put_pair last_dim
plan_round_trip =
    (get_plan_cache_entry-put_plan_cache_entry libraries memory serializer config memory-IsStorage
      new_store plan (3 ∷ 4 ∷ []) 2 20 fresh-IsValid refl refl refl refl).1

get_plan_cache_entry-put_plan_cache_entry_example :
    ((put_plan_cache_entry libraries memory serializer config new_store plan (3 ∷ 4 ∷ [])).0
      ≡ ok "a")
    × (get_plan_cache_entry libraries memory serializer config
          (put_plan_cache_entry libraries memory serializer config new_store plan (3 ∷ 4 ∷ [])).1
          "a"
          20
        ≡ ok (some (record stored_plan { meta = touch 20 stored_plan.meta }, 3 ∷ 4 ∷ [])))
unfolding put_pair last_dim
get_plan_cache_entry-put_plan_cache_entry_example =
    get_plan_cache_entry-put_plan_cache_entry libraries memory serializer config memory-IsStorage
      new_store plan (3 ∷ 4 ∷ []) 2 20 fresh-IsValid refl refl refl refl

-- The store after the block has been put.
abbrev pub one_block : UnifiedObjectStore (MemoryBackend Blob) (List ℕ)
one_block = record new_store {
  backend = record {
    objects =
        ("kv/a.meta.json", kv stored_block) ∷ ("kv/a.data.npz", tensors (3 ∷ [], 4 ∷ [])) ∷ [];
    metadata = ("kv/a.meta.json", []) ∷ ("kv/a.data.npz", []) ∷ [];
  };
}

delete-get_example :
    (get_kv_block libraries memory serializer config
        (delete_kv_block libraries memory serializer config one_block "a").0
        "a"
        20
      ≡ ok none)
    × (get_tool_artifact libraries memory serializer config
          (delete_tool_artifact libraries memory serializer config one_block "a").0
          "a"
          20
        ≡ ok none)
    × (get_plan_cache_entry libraries memory serializer config
          (delete_plan_cache_entry libraries memory serializer config one_block "a").0
          "a"
          20
        ≡ ok none)
delete-get_example =
    delete-get libraries memory serializer config memory-IsStorage one_block "a" 20 fresh-IsValid

put_kv_block_failed_example :
    ((put_kv_block libraries
        (refusing "kv/a.data.npz")
        serializer
        config
        one_block
        block
        (3 ∷ [])
        (4 ∷ [])).0
      ≡ raise storage_error)
    × (get_kv_block libraries
          (refusing "kv/a.data.npz")
          serializer
          config
          (put_kv_block libraries
            (refusing "kv/a.data.npz")
            serializer
            config
            one_block
            block
            (3 ∷ [])
            (4 ∷ [])).1
          "a"
          20
        ≡ ok none)
unfolding object_key string_dec
put_kv_block_failed_example =
    put_kv_block_failed libraries (refusing "kv/a.data.npz") serializer config
      (refusing-IsStorage "kv/a.data.npz") one_block block (3 ∷ []) (4 ∷ []) 20 storage_error
      fresh-IsValid refl refl

-- A filter whose every bit is set.
abbrev full_filter : BloomFilter
full_filter = record {
  size = 64;
  num_hashes = 1;
  bits = 255 ∷ 255 ∷ 255 ∷ 255 ∷ 255 ∷ 255 ∷ 255 ∷ 255 ∷ [];
  count = 1;
}

abbrev known_block : UnifiedObjectStore (MemoryBackend Blob) (List ℕ)
known_block = record one_block {
  metadata = record {
    bloom = full_filter;
    prefix_tree = PrefixTree.init;
    expected_items = 100;
    hnsw = none;
  };
}

abbrev found_block : Loaded ℕ String (List ℕ)
found_block = Loaded.kv (record stored_block { meta = touch 20 stored_block.meta }, 3 ∷ [], 4 ∷ [])

abbrev decisions : List Decision
decisions =
    record { object_id = some ""; prefetch_type = some "kv_cache" }
    ∷ record { object_id = some "a"; prefetch_type = some "kv_cache" }
    ∷ record { object_id = some "a"; prefetch_type = none }
    ∷ record { object_id = some "b"; prefetch_type = some "rag" }
    ∷ []

prefetched :
    prefetch_batch libraries memory serializer config known_block (λ x. 20) decisions
    ≡ ok (("a", found_block) ∷ [])
unfolding prefetch_batch prefetch_loop prefetch_one prefetch_known loaded get_kv_block
    get_rag_object might_exist string_dec object_key get put intellil.Core.ObjectStore.is_empty
    intellil.Common.Sets.member intellil.Core.ObjectStore.get_object
    intellil.Core.ObjectStore.get_guarded intellil.Metadata.Bloom.might_contain
    intellil.Metadata.Bloom.all_set intellil.Metadata.Bloom.indices_from
    intellil.Core.ObjectStore.get_pair intellil.Storage.Memory.get_object
    intellil.Core.ObjectStore.Objects.load_kv_block intellil.Common.Sets.add
prefetched = refl

prefetch_batch-fetched_example :
    fetched libraries memory serializer config known_block (λ x. 20) decisions "a"
    ≡ ok (get {K = String} (("a", found_block) ∷ []) "a")
prefetch_batch-fetched_example =
    prefetch_batch-fetched libraries memory serializer config known_block (λ x. 20) decisions
      (("a", found_block) ∷ []) prefetched "a"

get-init_example :
    let shown : UnifiedObjectStore (MemoryBackend Blob) (List ℕ) = record one_block {
      metadata = init libraries 100 64 3;
    } in
    (get_kv_block libraries memory serializer config shown "a" 20 ≡ ok none)
    × (get_rag_object libraries memory serializer config shown "a" 20 ≡ ok none)
    × (get_semantic_entry libraries memory serializer config shown "a" 20 ≡ ok none)
    × (get_agent_workflow libraries memory serializer config shown "a" 20 ≡ ok none)
    × (get_agent_step libraries memory serializer config shown "a" 20 ≡ ok none)
    × (get_tool_artifact libraries memory serializer config shown "a" 20 ≡ ok none)
    × (get_plan_cache_entry libraries memory serializer config shown "a" 20 ≡ ok none)
    × (get_workflow_trace libraries memory serializer config shown "a" 20 ≡ ok none)
get-init_example =
    get-init libraries memory serializer config memory-IsStorage one_block 100 64 3 "a" 20
