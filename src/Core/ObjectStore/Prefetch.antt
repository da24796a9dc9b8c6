-- ===== src/Core/ObjectStore/Prefetch.antt =====
-- `prefetch_batch`, `_prefetch_one` and `stats` of `UnifiedObjectStore` in
-- src/l3store/core/object_store.py.
pub mod Batch
use intellil.Common.{
  ℕ, string_key, ◌≟◌, holds, String, Bool, true, false, ◌||◌, Option, none, some, List, [], ◌∷◌,
  Result, ok, raise, ◌>>=◌, ◌>>◌, length, if◌then◌else◌,
}
use intellil.Common.Float.{Float}
use intellil.Common.Sets.{member, add}
use intellil.Common.Dict.{Dict, put}
use intellil.Core.Types.{
  ToolCallArtifact, PlanCacheEntry, KvCacheBlock, RagObject, SemanticCacheEntry,
}
use intellil.Metadata.Store
use intellil.Metadata.Store.{Libraries, MetadataStats}
use intellil.Storage.{Backend}
use intellil.Core.ObjectStore.{UnifiedObjectStore, is_empty}
use intellil.Core.ObjectStore.Objects.{
  Serializer, ObjectsConfig, get_kv_block, get_rag_object, get_semantic_entry, list_kv_blocks,
  list_rag_objects, list_semantic_entries,
}
use intellil.Core.ObjectStore.Agent.{
  get_tool_artifact, get_plan_cache_entry, list_agent_workflows, list_agent_steps,
  list_tool_artifacts, list_plan_cache_entries, list_workflow_traces,
}

-- What is read of a decision: its `object_id` and its `prefetch_type`, if it has them.
pub record Decision : Type 0 where
  pub object_id : Option String
  pub prefetch_type : Option String

-- What a prefetch answers.
pub data Loaded (F Json Vector : Type 0) : Type 0 where
  kv : KvCacheBlock F × Vector × Vector → Loaded F Json Vector
  rag : RagObject F × Vector → Loaded F Json Vector
  semantic : SemanticCacheEntry F × Vector → Loaded F Json Vector
  tool_artifact : ToolCallArtifact F Json → Loaded F Json Vector
  plan : PlanCacheEntry F × Vector → Loaded F Json Vector

-- A result that is an object of one type, as one of any.
unfoldable pub loaded :
    {F Json Vector T : Type 0}
    → (T → Loaded F Json Vector)
    → Result (Option T)
    → Result (Option (Loaded F Json Vector))
loaded kind (raise e) = raise e
loaded kind (ok none) = ok none
loaded kind (ok (some t)) = ok (some (kind t))

pub record StoreStats : Type 0 where
  pub kv_cache_blocks : ℕ
  pub rag_objects : ℕ
  pub semantic_cache_entries : ℕ
  pub agent_workflows : ℕ
  pub agent_steps : ℕ
  pub tool_artifacts : ℕ
  pub plan_cache_entries : ℕ
  pub workflow_traces : ℕ
  pub metadata : MetadataStats

module _ {F Json Vector Index B Bytes : Type 0} ⦃fl : Float F⦄ (libs : Libraries F Vector Index)
    (b : Backend B Bytes) (ser : Serializer F Json Vector Bytes) (cfg : ObjectsConfig) where
  unfoldable pub prefetch_known :
      UnifiedObjectStore B Index → String → String → F → Result (Option (Loaded F Json Vector))
  prefetch_known st x type now =
      if holds (type ≟ "kv_cache")
      then loaded kv (get_kv_block libs b ser cfg st x now)
      else if holds (type ≟ "rag")
      then loaded rag (get_rag_object libs b ser cfg st x now)
      else if holds (type ≟ "semantic")
      then loaded semantic (get_semantic_entry libs b ser cfg st x now)
      else if holds (type ≟ "tool_artifact")
      then loaded tool_artifact (get_tool_artifact libs b ser cfg st x now)
      else if holds (type ≟ "plan_cache")
      then loaded plan (get_plan_cache_entry libs b ser cfg st x now)
      else ok none

  unfoldable pub prefetch_one :
      UnifiedObjectStore B Index
      → String
      → Option String
      → F
      → Result (Option (Loaded F Json Vector))
  prefetch_one st x none now = ok none
  prefetch_one st x (some type) now = prefetch_known st x type now

  -- The loop of `prefetch_batch`; `clock x` is the time at which `x` is read, which is once.
  unfoldable pub prefetch_loop :
      UnifiedObjectStore B Index
      → (String → F)
      → List String
      → Dict String (Loaded F Json Vector)
      → List Decision
      → Result (Dict String (Loaded F Json Vector))
  prefetch_loop st clock seen results [] = ok results
  prefetch_loop st clock seen results (d ∷ ds) = elim d.object_id [
    | none ↦ prefetch_loop st clock seen results ds
    | some x ↦ elim (is_empty x || member seen x) [
      | true ↦ prefetch_loop st clock seen results ds
      | false ↦ elim (prefetch_one st x d.prefetch_type (clock x)) [
        | raise e ↦ raise e
        | ok none ↦ prefetch_loop st clock (add seen x) results ds
        | ok (some r) ↦ prefetch_loop st clock (add seen x) (put results x r) ds
      ]
    ]
  ]

  unfoldable pub prefetch_batch :
      UnifiedObjectStore B Index
      → (String → F)
      → List Decision
      → Result (Dict String (Loaded F Json Vector))
  prefetch_batch st clock ds = prefetch_loop st clock [] [] ds

  unfoldable pub stats : UnifiedObjectStore B Index → StoreStats
  stats st = record {
    kv_cache_blocks = length (list_kv_blocks libs b ser cfg st);
    rag_objects = length (list_rag_objects libs b ser cfg st);
    semantic_cache_entries = length (list_semantic_entries libs b ser cfg st);
    agent_workflows = length (list_agent_workflows libs b ser cfg st);
    agent_steps = length (list_agent_steps libs b ser cfg st);
    tool_artifacts = length (list_tool_artifacts libs b ser cfg st);
    plan_cache_entries = length (list_plan_cache_entries libs b ser cfg st);
    workflow_traces = length (list_workflow_traces libs b ser cfg st);
    metadata = Store.stats st.metadata;
  }
