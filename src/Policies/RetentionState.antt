-- ===== src/Policies/RetentionState.antt =====
-- What `AgentTTLPolicy` of src/l3store/policies/retention/agent_ttl.py keeps: its state and its
-- decisions, how they are stored and looked up, and what it is told about blocks.
use intellil.Common.{
  ℕ, ◌+◌, string_key, String, Bool, true, false, Option, none, some, List, [], length,
  if◌then◌else◌, is_some, keep, ◌&&◌,
}
use intellil.Common.Sets.{add_all, discard_all}
use intellil.Common.Dict.{Dict, values, get, put}
use intellil.Core.ObjectStore.{is_empty}
use intellil.Policies.Latency.{ToolLatencyEstimator}

pub data RetentionAction : Type 0 where
  pin offload prefetch_later retain : RetentionAction

pub data Reason : Type 0 where
  no_tool_call short_tool_call long_tool_call prefetch_window_reached : Reason

pub record AgentRetentionDecision (F : Type 0) : Type 0 where
  pub step_id : String
  pub kv_block_ids : List String
  pub action : RetentionAction
  pub ttl_ms : Option F
  pub reason : Reason
  pub tool_call_id : Option String
  pub predicted_tool_latency_ms : Option F
  pub reload_cost_ms : Option F
  pub prefetch_delay_ms : Option F

pub record ToolProfile : Type 0 where
  pub tool_name : String
  pub tool_args_class : Option String

pub record AgentTtlPolicy (F : Type 0) : Type 0 where
  pub latency_estimator : ToolLatencyEstimator F
  pub ttl_threshold_ms : F
  pub default_ttl_ms : F
  pub reload_cost_ms : F
  pub prefetch_margin_ms : F
  pub decisions_by_step : Dict String (AgentRetentionDecision F)
  pub decisions_by_tool_call : Dict String (AgentRetentionDecision F)
  pub tool_profiles : Dict String ToolProfile
  pub prefetch_triggered : List String
  pub pinned_blocks : List String
  pub offloaded_blocks : List String
  pub kv_retained : ℕ
  pub kv_evicted : ℕ
  pub kv_reloaded : ℕ
  pub recompute_avoided : ℕ
  pub tool_wait_hidden_ms : F
  pub prefetch_scheduled : ℕ
  pub prefetch_trigger_count : ℕ

-- `a or b` of optional texts: an empty one does not count.
unfoldable pub or_text : Option String → Option String → Option String
or_text none b = b
or_text (some a) b = if is_empty a then b else some a

abbrev pub is_offload : RetentionAction → Bool
is_offload offload = true
is_offload pin = false
is_offload prefetch_later = false
is_offload retain = false

unfoldable pub resolve_tool_name : (String → String) → Option String → Option String → String
resolve_tool_name strip step_tool tool_name = elim (or_text tool_name step_tool) [
  | none ↦ "unknown"
  | some name ↦ if is_empty (strip name) then "unknown" else strip name
]

-- The names that `on_tool_completed` takes from the profile of the call
unfoldable pub profile_name : Option ToolProfile → Option String
profile_name none = none
profile_name (some profile) = some profile.tool_name

unfoldable pub resolved_args : Option String → Option ToolProfile → Option String
resolved_args (some args) profile = some args
resolved_args none none = none
resolved_args none (some profile) = profile.tool_args_class

module _ {F : Type 0} where
  unfoldable pub store_tool_call :
      AgentTtlPolicy F → Option String → AgentRetentionDecision F → AgentTtlPolicy F
  store_tool_call p none d = p
  store_tool_call p (some c) d = record p {
    decisions_by_tool_call = put p.decisions_by_tool_call c d;
  }

  -- `_store_decision`
  unfoldable pub store_decision : AgentTtlPolicy F → AgentRetentionDecision F → AgentTtlPolicy F
  store_decision p d =
      store_tool_call (record p { decisions_by_step = put p.decisions_by_step d.step_id d })
        d.tool_call_id d

  unfoldable pub decide_retention : AgentTtlPolicy F → String → Option (AgentRetentionDecision F)
  decide_retention p step_id = get p.decisions_by_step step_id

  unfoldable pub pending_prefetches : AgentTtlPolicy F → List (AgentRetentionDecision F)
  pending_prefetches p =
      keep (λ (d : AgentRetentionDecision F). is_offload d.action && is_some d.prefetch_delay_ms)
        (values p.decisions_by_tool_call)

  unfoldable pub on_kv_reloaded : AgentTtlPolicy F → List String → AgentTtlPolicy F
  on_kv_reloaded p ids = record p {
    kv_reloaded = p.kv_reloaded + length (add_all [] ids);
    offloaded_blocks = discard_all p.offloaded_blocks (add_all [] ids);
  }

  unfoldable pub on_pinned_kv_released : AgentTtlPolicy F → List String → AgentTtlPolicy F
  on_pinned_kv_released p ids = record p { pinned_blocks = discard_all p.pinned_blocks ids }

  abbrev pub retained : String → List String → F → AgentRetentionDecision F
  retained step_id ids cost = record {
    step_id = step_id;
    kv_block_ids = ids;
    action = retain;
    ttl_ms = none;
    reason = no_tool_call;
    tool_call_id = none;
    predicted_tool_latency_ms = none;
    reload_cost_ms = some cost;
    prefetch_delay_ms = none;
  }

  -- The decision that `prefetch_due` returns
  abbrev pub reached : String → AgentRetentionDecision F → AgentRetentionDecision F
  reached c d = record {
    step_id = d.step_id;
    kv_block_ids = d.kv_block_ids;
    action = prefetch_later;
    ttl_ms = none;
    reason = prefetch_window_reached;
    tool_call_id = some c;
    predicted_tool_latency_ms = d.predicted_tool_latency_ms;
    reload_cost_ms = d.reload_cost_ms;
    prefetch_delay_ms = d.prefetch_delay_ms;
  }
