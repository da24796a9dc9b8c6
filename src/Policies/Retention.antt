-- ===== src/Policies/Retention.antt =====
-- `AgentTTLPolicy` of src/l3store/policies/retention/agent_ttl.py. `strip` is Python's `str.strip`.
-- A state stands beside what a method raises.
pub mod Decisions
pub mod Windows
pub mod Prefetches
use intellil.Common.{
  ℕ, ◌+◌, string_key, ◌≟◌, String, Bool, true, false, not, ◌||◌, Option, none, some, List, [], ◌∷◌,
  Result, ok, raise, value_error, ◌>>=◌, ◌>>◌, raise_if, length, if◌then◌else◌, or_else, is_some,
  keep, ◌&&◌,
}
use intellil.Common.Sort.{sort}
use intellil.Common.Sets.{member, add, add_all, discard_all}
use intellil.Common.Float.{Float, fmin, fmax}
use intellil.Common.Dict.{Dict, keys, values, get, put}
use intellil.Core.Types.{ObjectMeta, AgentStep}
use intellil.Core.ObjectStore.{is_empty}
use intellil.Storage.Memory.{le_text}
use intellil.Policies.Latency.{ToolLatencyEstimator, predict_latency, record_latency}
use intellil.Policies.RetentionState.{
  AgentRetentionDecision, AgentTtlPolicy, Reason, RetentionAction, ToolProfile, decide_retention,
  is_offload, long_tool_call, no_tool_call, offload, on_kv_reloaded, on_pinned_kv_released, or_text,
  pending_prefetches, pin, prefetch_later, prefetch_window_reached, profile_name, reached,
  resolve_tool_name, resolved_args, retain, retained, short_tool_call, store_decision,
  store_tool_call,
}

module _ {F : Type 0} ⦃fl : Float F⦄ where
  -- `__init__`
  unfoldable pub init : ToolLatencyEstimator F → F → F → F → F → Result (AgentTtlPolicy F)
  init estimator threshold default_ttl cost margin = do
    raise_if (fl.lt threshold (fl.of_nat 0)) value_error
    raise_if (fl.lt default_ttl (fl.of_nat 0)) value_error
    raise_if (fl.lt cost (fl.of_nat 0)) value_error
    raise_if (fl.lt margin (fl.of_nat 0)) value_error
    ok (record {
      latency_estimator = estimator;
      ttl_threshold_ms = threshold;
      default_ttl_ms = default_ttl;
      reload_cost_ms = cost;
      prefetch_margin_ms = margin;
      decisions_by_step = [];
      decisions_by_tool_call = [];
      tool_profiles = [];
      prefetch_triggered = [];
      pinned_blocks = [];
      offloaded_blocks = [];
      kv_retained = 0;
      kv_evicted = 0;
      kv_reloaded = 0;
      recompute_avoided = 0;
      tool_wait_hidden_ms = fl.of_nat 0;
      prefetch_scheduled = 0;
      prefetch_trigger_count = 0;
    })

  -- The two decisions about the blocks of a step that waits for a tool, and what they change
  abbrev pub pinned :
      AgentTtlPolicy F → String → List String → String → F → F → AgentRetentionDecision F
  pinned p step_id ids c latency cost = record {
    step_id = step_id;
    kv_block_ids = ids;
    action = pin;
    ttl_ms = some (fmax p.default_ttl_ms (fl.add latency cost));
    reason = short_tool_call;
    tool_call_id = some c;
    predicted_tool_latency_ms = some latency;
    reload_cost_ms = some cost;
    prefetch_delay_ms = none;
  }

  abbrev pub offloaded :
      AgentTtlPolicy F → String → List String → String → F → F → AgentRetentionDecision F
  offloaded p step_id ids c latency cost = record {
    step_id = step_id;
    kv_block_ids = ids;
    action = offload;
    ttl_ms = none;
    reason = long_tool_call;
    tool_call_id = some c;
    predicted_tool_latency_ms = some latency;
    reload_cost_ms = some cost;
    prefetch_delay_ms = some (fmax (fl.of_nat 0) (fl.sub latency p.prefetch_margin_ms));
  }

  unfoldable pub count_pinned : AgentTtlPolicy F → List String → F → F → AgentTtlPolicy F
  count_pinned p ids latency cost = record p {
    kv_retained = p.kv_retained + length ids;
    recompute_avoided = p.recompute_avoided + length ids;
    tool_wait_hidden_ms =
        fl.add p.tool_wait_hidden_ms (fl.mul (fmin latency cost) (fl.of_nat (length ids)));
    pinned_blocks = add_all p.pinned_blocks ids;
  }

  unfoldable pub count_offloaded : AgentTtlPolicy F → List String → AgentTtlPolicy F
  count_offloaded p ids = record p {
    kv_evicted = p.kv_evicted + length ids;
    prefetch_scheduled = p.prefetch_scheduled + length ids;
    offloaded_blocks = add_all p.offloaded_blocks ids;
  }

  -- The branch of a tool call whose latency has been predicted
  unfoldable pub decide :
      AgentTtlPolicy F
      → String
      → List String
      → String
      → F
      → F
      → AgentRetentionDecision F × AgentTtlPolicy F
  decide p step_id ids c latency cost =
      if fl.le latency p.ttl_threshold_ms
      then (
        pinned p step_id ids c latency cost,
        store_decision (count_pinned p ids latency cost) (pinned p step_id ids c latency cost),
      )
      else (
        offloaded p step_id ids c latency cost,
        store_decision (count_offloaded p ids) (offloaded p step_id ids c latency cost),
      )

module _ {F : Type 0} ⦃fl : Float F⦄ (strip : String → String) where
  unfoldable pub decide_call :
      AgentTtlPolicy F
      → String
      → List String
      → String
      → String
      → Option String
      → F
      → Result (AgentRetentionDecision F) × AgentTtlPolicy F
  decide_call p step_id ids c tool args cost =
      elim (predict_latency strip p.latency_estimator tool args) [
        | raise err ↦ (raise err, p)
        | ok latency ↦
            let profile : ToolProfile = record { tool_name = tool; tool_args_class = args } in
            let p' = record p { tool_profiles = put p.tool_profiles c profile } in
            let (d, p'') = decide p' step_id ids c latency cost in (ok d, p'')
      ]

  unfoldable pub on_llm_step_completed :
      AgentTtlPolicy F
      → AgentStep F
      → Option (List String)
      → Option String
      → Option String
      → Option String
      → Option F
      → Result (AgentRetentionDecision F) × AgentTtlPolicy F
  on_llm_step_completed p step ids tool_call_id tool_name args reload_cost =
      let blocks = or_else ids step.kv_block_ids in
      let cost = or_else reload_cost p.reload_cost_ms in
      if fl.lt cost (fl.of_nat 0)
      then (raise value_error, p)
      else elim (or_text tool_call_id step.tool_call_id) [
        | none ↦ (
          ok (retained step.step_id blocks cost),
          store_decision p (retained step.step_id blocks cost),
        )
        | some c ↦
            decide_call p step.step_id blocks c
              (resolve_tool_name strip step.meta.tool_name tool_name) args cost
      ]

  -- `on_tool_completed`, once the names are known
  unfoldable pub observe :
      AgentTtlPolicy F → String → F → Option String → Result (Unit {0}) × AgentTtlPolicy F
  observe p tool x args =
      let (r, e) = record_latency strip p.latency_estimator tool x args in
      (r, record p { latency_estimator = e })

  unfoldable pub on_tool_completed :
      AgentTtlPolicy F
      → String
      → F
      → Option String
      → Option String
      → Result (Unit {0}) × AgentTtlPolicy F
  on_tool_completed p c x tool_name args =
      if fl.lt x (fl.of_nat 0)
      then (raise value_error, p)
      else elim (or_text tool_name (profile_name (get p.tool_profiles c))) [
        | none ↦ (raise value_error, p)
        | some tool ↦ observe p tool x (resolved_args args (get p.tool_profiles c))
      ]

module _ {F : Type 0} ⦃fl : Float F⦄ where
  -- The guards of `prefetch_due` after the first two, on the decision of the call
  unfoldable pub due_decision :
      Option (AgentRetentionDecision F) → F → Option (AgentRetentionDecision F)
  due_decision none elapsed = none
  due_decision (some d) elapsed =
      if not (is_offload d.action) then none else elim d.prefetch_delay_ms [
        | none ↦ none
        | some delay ↦ if fl.lt elapsed delay then none else some d
      ]

  unfoldable pub prefetch_due :
      AgentTtlPolicy F → String → F → Result (Option (AgentRetentionDecision F)) × AgentTtlPolicy F
  prefetch_due p c elapsed =
      if fl.lt elapsed (fl.of_nat 0)
      then (raise value_error, p)
      else if member p.prefetch_triggered c
      then (ok none, p)
      else elim (due_decision (get p.decisions_by_tool_call c) elapsed) [
        | none ↦ (ok none, p)
        | some d ↦ (
          ok (some (reached c d)),
          record p {
            prefetch_triggered = add p.prefetch_triggered c;
            prefetch_trigger_count = p.prefetch_trigger_count + length d.kv_block_ids;
          },
        )
      ]

-- `stats` and `snapshot`
pub record RetentionStats (F : Type 0) : Type 0 where
  pub decisions : ℕ
  pub kv_retained : ℕ
  pub kv_evicted : ℕ
  pub kv_reloaded : ℕ
  pub recompute_avoided : ℕ
  pub tool_wait_hidden_ms : F
  pub prefetch_scheduled : ℕ
  pub prefetch_triggered : ℕ
  pub pinned_blocks : ℕ
  pub offloaded_blocks : ℕ

unfoldable pub stats : {F : Type 0} → AgentTtlPolicy F → RetentionStats F
stats p = record {
  decisions = length p.decisions_by_step;
  kv_retained = p.kv_retained;
  kv_evicted = p.kv_evicted;
  kv_reloaded = p.kv_reloaded;
  recompute_avoided = p.recompute_avoided;
  tool_wait_hidden_ms = p.tool_wait_hidden_ms;
  prefetch_scheduled = p.prefetch_scheduled;
  prefetch_triggered = p.prefetch_trigger_count;
  pinned_blocks = length p.pinned_blocks;
  offloaded_blocks = length p.offloaded_blocks;
}
