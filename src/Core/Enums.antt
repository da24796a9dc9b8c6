-- ===== src/Core/Enums.antt =====
-- The enumerations of src/l3store/core/types.py.
pub data ObjectType : Type 0 where
  kv_cache rag semantic_cache agent_workflow agent_step : ObjectType
  tool_call_artifact plan_cache workflow_trace : ObjectType

pub data AgentWorkflowType : Type 0 where
  react multi_agent rag_agent tool_agent : AgentWorkflowType

pub data AgentWorkflowStatus : Type 0 where
  created running completed failed cancelled : AgentWorkflowStatus

pub data ArtifactScope : Type 0 where
  public session user workflow private : ArtifactScope

pub data ConsistencyClass : Type 0 where
  immutable ttl source_versioned write_through write_back : ConsistencyClass
