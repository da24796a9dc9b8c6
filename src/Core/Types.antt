-- ===== src/Core/Types.antt =====
-- The models of src/l3store/core/types.py: records, with their validators as checks that raise. A
-- `dict[str, Any]` is of a type `Json`. Counters, sizes, turns and token ids are natural numbers.
use intellil.Common.{
  ℕ, ℤ, ◌+◌, String, Bool, not, ◌&&◌, Option, none, some, List, Result, ok, value_error, ◌>>◌,
  raise_if,
}
use intellil.Common.Dict.{Dict}
use intellil.Common.Float.{Float}
use intellil.Core.Enums.{
  ObjectType, ArtifactScope, ConsistencyClass, AgentWorkflowType, AgentWorkflowStatus,
}

pub record ObjectMeta (F : Type 0) : Type 0 where
  pub object_id : String
  pub object_type : ObjectType
  pub created_at : F
  pub last_accessed : F
  pub access_count : ℕ
  pub size_bytes : ℕ
  pub reuse_score : F
  pub ref_count : ℕ
  pub tags : Dict String String
  pub workflow_id : Option String
  pub agent_id : Option String
  pub step_id : Option String
  pub turn_id : Option ℕ
  pub tool_name : Option String
  pub tool_args_hash : Option String
  pub plan_id : Option String
  pub expected_next_use_step : Option ℤ
  pub predicted_tool_latency_ms : Option F
  pub valid_until : Option F
  pub scope : Option ArtifactScope
  pub consistency_class : Option ConsistencyClass

unfoldable pub touch : {F : Type 0} → F → ObjectMeta F → ObjectMeta F
touch now m = record m { last_accessed = now; access_count = m.access_count + 1 }

pub record AgentWorkflow (F : Type 0) : Type 0 where
  pub meta : ObjectMeta F
  pub workflow_id : String
  pub session_id : String
  pub workflow_type : AgentWorkflowType
  pub created_at : F
  pub status : AgentWorkflowStatus
  pub agent_ids : List String
  pub step_ids : List String

pub record AgentStep (F : Type 0) : Type 0 where
  pub meta : ObjectMeta F
  pub step_id : String
  pub workflow_id : String
  pub agent_id : String
  pub turn_id : ℕ
  pub parent_step_id : Option String
  pub input_prompt_hash : String
  pub output_hash : String
  pub tool_call_id : Option String
  pub kv_block_ids : List String
  pub rag_object_ids : List String
  pub semantic_entry_ids : List String
  pub timestamp_start : F
  pub timestamp_end : Option F

pub record ToolCallArtifact (F Json : Type 0) : Type 0 where
  pub meta : ObjectMeta F
  pub tool_call_id : String
  pub tool_name : String
  pub tool_args_hash : String
  pub tool_output_hash : String
  pub tool_output_payload : Json
  pub ttl : F
  pub source_version : String
  pub permission_scope : ArtifactScope
  pub created_at : F
  pub expires_at : F

pub record PlanCacheEntry (F : Type 0) : Type 0 where
  pub meta : ObjectMeta F
  pub plan_id : String
  pub task_embedding_dim : ℕ
  pub plan_template : String
  pub required_tools : List String
  pub constraints : Dict String String
  pub success_count : ℕ
  pub failure_count : ℕ
  pub last_validated_at : Option F
  pub validity_scope : ArtifactScope

pub record WorkflowTrace (F Json : Type 0) : Type 0 where
  pub meta : ObjectMeta F
  pub workflow_id : String
  pub ordered_steps : List String
  pub tool_latencies : Dict String F
  pub prompt_lengths : Dict String ℕ
  pub shared_prefix_ratio : F
  pub branching_factor : F
  pub cache_events : List Json

pub record KvCacheBlock (F : Type 0) : Type 0 where
  pub meta : ObjectMeta F
  pub model_name : String
  pub token_ids : List ℕ
  pub block_index : ℕ
  pub token_hash : String
  pub parent_block_id : Option String
  pub shared_by_sessions : List String

pub record RagObject (F : Type 0) : Type 0 where
  pub meta : ObjectMeta F
  pub document_id : String
  pub chunk_index : ℕ
  pub chunk_text : String
  pub embedding_dim : ℕ
  pub source : String
  pub page_number : Option ℕ

pub record SemanticCacheEntry (F : Type 0) : Type 0 where
  pub meta : ObjectMeta F
  pub prompt_text : String
  pub response_text : String
  pub model_name : String
  pub embedding_dim : ℕ
  pub reuse_count : ℕ
  pub similarity_threshold : F

-- `AgentStep._validate_timestamps`
unfoldable pub validate_timestamps :
    {F : Type 0} ⦃fl : Float F⦄ → AgentStep F → Result (AgentStep F)
validate_timestamps ⦃fl⦄ s = elim s.timestamp_end [
  | none ↦ ok s
  | some end_time ↦ do raise_if (fl.lt end_time s.timestamp_start) value_error; ok s
]

module _ {F Json : Type 0} ⦃fl : Float F⦄ where
  -- `ToolCallArtifact`: the validator of `ttl`, then the one of the whole model
  unfoldable pub validate_artifact : ToolCallArtifact F Json → Result (ToolCallArtifact F Json)
  validate_artifact a = do
    raise_if (fl.le a.ttl (fl.of_nat 0)) value_error
    raise_if (fl.le a.expires_at a.created_at) value_error
    ok a

  unfoldable pub is_expired : ToolCallArtifact F Json → F → Bool
  is_expired a now = fl.le a.expires_at now

  -- `WorkflowTrace`: the validators of its two ratios
  unfoldable pub validate_trace : WorkflowTrace F Json → Result (WorkflowTrace F Json)
  validate_trace t = do
    raise_if
        (not
          (fl.le (fl.of_nat 0) t.shared_prefix_ratio && fl.le t.shared_prefix_ratio (fl.of_nat 1)))
        value_error
    raise_if (fl.lt t.branching_factor (fl.of_nat 1)) value_error
    ok t
