-- ===== src/Core/ObjectStore/Agent.antt =====
-- The agentic objects of `UnifiedObjectStore` in src/l3store/core/object_store.py: workflows, steps,
-- tool artifacts, plans and traces.
use intellil.Common.{
  ℕ, string_key, String, Bool, Option, none, some, List, Result, ok, raise, ◌>>=◌,
}
use intellil.Common.Float.{Float}
use intellil.Core.Enums.{agent_workflow, agent_step, tool_call_artifact, plan_cache, workflow_trace}
use intellil.Core.Types.{
  touch, AgentWorkflow, AgentStep, ToolCallArtifact, PlanCacheEntry, WorkflowTrace,
}
use intellil.Metadata.Store
use intellil.Metadata.Store.{Libraries, last_dim}
use intellil.Storage.{Backend}
use intellil.Storage.Keys.{npy_ext}
use intellil.Core.ObjectStore.{
  UnifiedObjectStore, put_meta_object, get_meta_object, delete_meta_object, put_object, get_object,
  delete_object, list_ids,
}
use intellil.Core.ObjectStore.Objects.{Serializer, ObjectsConfig}

module _ {F Json Vector Index B Bytes : Type 0} ⦃fl : Float F⦄ (libs : Libraries F Vector Index)
    (b : Backend B Bytes) (ser : Serializer F Json Vector Bytes) (cfg : ObjectsConfig) where
  unfoldable pub put_agent_workflow :
      UnifiedObjectStore B Index → AgentWorkflow F → Result String × UnifiedObjectStore B Index
  put_agent_workflow st w =
      put_meta_object libs b st cfg.workflows_prefix w.workflow_id
        (ser.agent_workflow.dump (record w { meta = record w.meta { object_id = w.workflow_id } }))
        agent_workflow

  unfoldable pub load_agent_workflow : F → Bytes → Result (AgentWorkflow F)
  load_agent_workflow now meta_data = do
    w ← ser.agent_workflow.load meta_data
    ok (record w { meta = touch now w.meta })

  unfoldable pub get_agent_workflow :
      UnifiedObjectStore B Index → String → F → Result (Option (AgentWorkflow F))
  get_agent_workflow st x now =
      get_meta_object libs b st cfg.workflows_prefix x (load_agent_workflow now)

  unfoldable pub delete_agent_workflow :
      UnifiedObjectStore B Index → String → UnifiedObjectStore B Index × Bool
  delete_agent_workflow st x = delete_meta_object libs b st cfg.workflows_prefix x agent_workflow

  unfoldable pub list_agent_workflows : UnifiedObjectStore B Index → List String
  list_agent_workflows st = list_ids libs b st cfg.workflows_prefix

  unfoldable pub put_agent_step :
      UnifiedObjectStore B Index → AgentStep F → Result String × UnifiedObjectStore B Index
  put_agent_step st step =
      put_meta_object libs b st cfg.steps_prefix step.step_id
        (ser.agent_step.dump (record step { meta = record step.meta { object_id = step.step_id } }))
        agent_step

  unfoldable pub load_agent_step : F → Bytes → Result (AgentStep F)
  load_agent_step now meta_data = do
    step ← ser.agent_step.load meta_data
    ok (record step { meta = touch now step.meta })

  unfoldable pub get_agent_step :
      UnifiedObjectStore B Index → String → F → Result (Option (AgentStep F))
  get_agent_step st x now = get_meta_object libs b st cfg.steps_prefix x (load_agent_step now)

  unfoldable pub delete_agent_step :
      UnifiedObjectStore B Index → String → UnifiedObjectStore B Index × Bool
  delete_agent_step st x = delete_meta_object libs b st cfg.steps_prefix x agent_step

  unfoldable pub list_agent_steps : UnifiedObjectStore B Index → List String
  list_agent_steps st = list_ids libs b st cfg.steps_prefix

  -- The artifact as `put_tool_artifact` stores it.
  unfoldable pub prepared_tool_artifact : ToolCallArtifact F Json → ToolCallArtifact F Json
  prepared_tool_artifact a = record a {
    meta = record a.meta {
      object_id = a.tool_call_id;
      tool_name = some a.tool_name;
      tool_args_hash = some a.tool_args_hash;
      valid_until = some a.expires_at;
      scope = some a.permission_scope;
    };
  }

  unfoldable pub put_tool_artifact :
      UnifiedObjectStore B Index
      → ToolCallArtifact F Json
      → Result String × UnifiedObjectStore B Index
  put_tool_artifact st a =
      put_meta_object libs b st cfg.tools_prefix a.tool_call_id
        (ser.tool_artifact.dump (prepared_tool_artifact a)) tool_call_artifact

  unfoldable pub load_tool_artifact : F → Bytes → Result (ToolCallArtifact F Json)
  load_tool_artifact now meta_data = do
    a ← ser.tool_artifact.load meta_data
    ok (record a { meta = touch now a.meta })

  unfoldable pub get_tool_artifact :
      UnifiedObjectStore B Index → String → F → Result (Option (ToolCallArtifact F Json))
  get_tool_artifact st x now = get_meta_object libs b st cfg.tools_prefix x (load_tool_artifact now)

  unfoldable pub delete_tool_artifact :
      UnifiedObjectStore B Index → String → UnifiedObjectStore B Index × Bool
  delete_tool_artifact st x = delete_meta_object libs b st cfg.tools_prefix x tool_call_artifact

  unfoldable pub list_tool_artifacts : UnifiedObjectStore B Index → List String
  list_tool_artifacts st = list_ids libs b st cfg.tools_prefix

  -- The entry as `put_plan_cache_entry` stores it.
  unfoldable pub prepared_plan_cache_entry : PlanCacheEntry F → Vector → ℕ → PlanCacheEntry F
  prepared_plan_cache_entry p v dim = record p {
    task_embedding_dim = dim;
    meta = record p.meta {
      object_id = p.plan_id;
      plan_id = some p.plan_id;
      scope = some p.validity_scope;
      size_bytes = ser.nbytes v;
    };
  }

  unfoldable pub put_plan_cache_entry :
      UnifiedObjectStore B Index
      → PlanCacheEntry F
      → Vector
      → Result String × UnifiedObjectStore B Index
  put_plan_cache_entry st p v = elim (last_dim (libs.hnswlib.shape v)) [
    | raise e ↦ (raise e, st)
    | ok dim ↦
        put_object libs b st cfg.plans_prefix p.plan_id npy_ext
          (ser.plan_cache_entry.dump (prepared_plan_cache_entry p v dim)) (ser.embedding.dump v)
          (λ m. Store.on_object_added libs m plan_cache p.plan_id none)
  ]

  unfoldable pub load_plan_cache_entry : F → Bytes → Bytes → Result (PlanCacheEntry F × Vector)
  load_plan_cache_entry now meta_data data_bytes = do
    p ← ser.plan_cache_entry.load meta_data
    v ← ser.embedding.load data_bytes
    ok (record p { meta = touch now p.meta }, v)

  unfoldable pub get_plan_cache_entry :
      UnifiedObjectStore B Index → String → F → Result (Option (PlanCacheEntry F × Vector))
  get_plan_cache_entry st x now =
      get_object libs b st cfg.plans_prefix x npy_ext (load_plan_cache_entry now)

  unfoldable pub delete_plan_cache_entry :
      UnifiedObjectStore B Index → String → UnifiedObjectStore B Index × Bool
  delete_plan_cache_entry st x = delete_object libs b st plan_cache cfg.plans_prefix x npy_ext

  unfoldable pub list_plan_cache_entries : UnifiedObjectStore B Index → List String
  list_plan_cache_entries st = list_ids libs b st cfg.plans_prefix

  unfoldable pub put_workflow_trace :
      UnifiedObjectStore B Index → WorkflowTrace F Json → Result String × UnifiedObjectStore B Index
  put_workflow_trace st t =
      put_meta_object libs b st cfg.traces_prefix t.workflow_id
        (ser.workflow_trace.dump (record t { meta = record t.meta { object_id = t.workflow_id } }))
        workflow_trace

  unfoldable pub load_workflow_trace : F → Bytes → Result (WorkflowTrace F Json)
  load_workflow_trace now meta_data = do
    t ← ser.workflow_trace.load meta_data
    ok (record t { meta = touch now t.meta })

  unfoldable pub get_workflow_trace :
      UnifiedObjectStore B Index → String → F → Result (Option (WorkflowTrace F Json))
  get_workflow_trace st x now =
      get_meta_object libs b st cfg.traces_prefix x (load_workflow_trace now)

  unfoldable pub delete_workflow_trace :
      UnifiedObjectStore B Index → String → UnifiedObjectStore B Index × Bool
  delete_workflow_trace st x = delete_meta_object libs b st cfg.traces_prefix x workflow_trace

  unfoldable pub list_workflow_traces : UnifiedObjectStore B Index → List String
  list_workflow_traces st = list_ids libs b st cfg.traces_prefix
