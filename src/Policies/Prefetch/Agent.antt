-- ===== src/Policies/Prefetch/Agent.antt =====
-- `AgentPrefetchPolicy` of src/l3store/policies/prefetch/agent_prefetch.py. The step graph, which
-- the policy shares, is given at the call that reads it. Sizes are natural numbers.
pub mod Predictions
pub mod Rates
use intellil.Common.{
  ℕ, zero, suc, ◌+◌, ◌-◌, ◌==◌, ltb, string_key, pair_key, Key, ◌≟◌, String, Bool, true, false, not,
  ◌&&◌, Option, none, some, List, [], ◌∷◌, ◌++◌, map, Result, ok, raise, value_error, ◌>>=◌, ◌>>◌,
  raise_if, length, keep, or_else, if◌then◌else◌,
}
use intellil.Common.Sort.{sort}
use intellil.Common.Sets.{member, add, add_all}
use intellil.Common.Float.{Float}
use intellil.Common.Dict.{Dict, keys, get, put}
use intellil.Core.Types.{AgentStep}
use intellil.Core.ObjectStore.{is_empty}
use intellil.Storage.Memory.{le_text}
use intellil.Metadata.StepGraph.{AgentStepGraph, AgentStepNode, predict_next_steps}
use intellil.Policies.Prefetch.{
  PrefetchType, prefetch_type_key, PrefetchDecision, kv_cache, rag, semantic, tool_artifact,
  plan_cache, keep_better, ranked,
}

pub record AgentStepObjects : Type 0 where
  pub kv_block_ids : List String
  pub rag_object_ids : List String
  pub semantic_entry_ids : List String
  pub tool_artifact_ids : List String
  pub plan_cache_entry_ids : List String

pub record AgentPrefetchPolicy (F : Type 0) : Type 0 where
  pub current_step_id : Option String
  pub next_step_top_k : ℕ
  pub max_decisions : ℕ
  pub step_objects : Dict String AgentStepObjects
  pub predicted_object_ids : List String
  pub used_prefetch_ids : List String
  pub wasted_prefetch_ids : List String
  pub requests : ℕ
  pub agent_prefetch_count : ℕ
  pub expected_object_count : ℕ
  pub recall_hit_count : ℕ
  pub wasted_prefetch_bytes : ℕ
  pub latency_saved_ms : F

-- `_dedupe`
unfoldable pub dedupe : List String → List String
dedupe names = add_all [] (keep (λ s. not (is_empty s)) names)

unfoldable pub dedupe_step_objects : AgentStepObjects → AgentStepObjects
dedupe_step_objects o = record {
  kv_block_ids = dedupe o.kv_block_ids;
  rag_object_ids = dedupe o.rag_object_ids;
  semantic_entry_ids = dedupe o.semantic_entry_ids;
  tool_artifact_ids = dedupe o.tool_artifact_ids;
  plan_cache_entry_ids = dedupe o.plan_cache_entry_ids;
}

-- `_iter_objects`
unfoldable pub iter_objects : AgentStepObjects → List (PrefetchType × List String)
iter_objects o =
    (kv_cache, o.kv_block_ids)
    ∷ (tool_artifact, o.tool_artifact_ids)
    ∷ (rag, o.rag_object_ids)
    ∷ (plan_cache, o.plan_cache_entry_ids)
    ∷ (semantic, o.semantic_entry_ids)
    ∷ []

-- The key of a decision
abbrev pub decision_key : {F : Type 0} → PrefetchDecision F → PrefetchType × String
decision_key d = (d.prefetch_type, d.object_id)

module _ {F : Type 0} ⦃fl : Float F⦄ where
  -- `__init__`
  unfoldable pub new_policy : Option String → ℕ → ℕ → Result (AgentPrefetchPolicy F)
  new_policy current top_k size = do
    raise_if (top_k == 0) value_error
    raise_if (size == 0) value_error
    ok (record {
      current_step_id = current;
      next_step_top_k = top_k;
      max_decisions = size;
      step_objects = [];
      predicted_object_ids = [];
      used_prefetch_ids = [];
      wasted_prefetch_ids = [];
      requests = 0;
      agent_prefetch_count = 0;
      expected_object_count = 0;
      recall_hit_count = 0;
      wasted_prefetch_bytes = 0;
      latency_saved_ms = fl.of_nat 0;
    })

  unfoldable pub set_current_step : AgentPrefetchPolicy F → Option String → AgentPrefetchPolicy F
  set_current_step p step = record p { current_step_id = step }

  unfoldable pub register_step_objects :
      AgentPrefetchPolicy F → String → AgentStepObjects → Result (AgentPrefetchPolicy F)
  register_step_objects p step o = do
    raise_if (is_empty step) value_error
    ok (record p { step_objects = put p.step_objects step (dedupe_step_objects o) })

  unfoldable pub register_step :
      AgentPrefetchPolicy F
      → AgentStep F
      → Option (List String)
      → Option (List String)
      → Result (AgentPrefetchPolicy F)
  register_step p step artifacts plans = register_step_objects p step.step_id (record {
    kv_block_ids = step.kv_block_ids;
    rag_object_ids = step.rag_object_ids;
    semantic_entry_ids = step.semantic_entry_ids;
    tool_artifact_ids = or_else artifacts [];
    plan_cache_entry_ids = or_else plans [];
  })

  -- `_TYPE_WEIGHTS`
  unfoldable pub type_weight : PrefetchType → F
  type_weight kv_cache = fl.of_nat 1
  type_weight tool_artifact = fl.div (fl.of_nat 9) (fl.of_nat 10)
  type_weight rag = fl.div (fl.of_nat 85) (fl.of_nat 100)
  type_weight plan_cache = fl.div (fl.of_nat 8) (fl.of_nat 10)
  type_weight semantic = fl.div (fl.of_nat 75) (fl.of_nat 100)

  -- The three loops of `_decisions_for_steps`, the innermost first; `rank` is the counter of
  -- `enumerate`.
  unfoldable pub keep_ids :
      Dict (PrefetchType × String) (PrefetchDecision F)
      → PrefetchType
      → F
      → List String
      → Dict (PrefetchType × String) (PrefetchDecision F)
  keep_ids best type priority [] = best
  keep_ids best type priority (x ∷ ids) =
      keep_ids
        (keep_better decision_key best
          (record { object_id = x; priority = priority; prefetch_type = type }))
        type priority ids

  unfoldable pub keep_types :
      Dict (PrefetchType × String) (PrefetchDecision F)
      → F
      → List (PrefetchType × List String)
      → Dict (PrefetchType × String) (PrefetchDecision F)
  keep_types best step_priority [] = best
  keep_types best step_priority ((type, ids) ∷ types) =
      keep_types (keep_ids best type (fl.mul step_priority (type_weight type)) ids) step_priority
        types

  abbrev pub step_priority : ℕ → F
  step_priority rank = fl.div (fl.of_nat 1) (fl.add (fl.of_nat 1) (fl.of_nat rank))

  unfoldable pub keep_steps :
      Dict String AgentStepObjects
      → Dict (PrefetchType × String) (PrefetchDecision F)
      → ℕ
      → List String
      → Dict (PrefetchType × String) (PrefetchDecision F)
  keep_steps known best rank [] = best
  keep_steps known best rank (s ∷ steps) = elim (get known s) [
    | none ↦ keep_steps known best (suc rank) steps
    | some o ↦
        keep_steps known (keep_types best (step_priority rank) (iter_objects o)) (suc rank) steps
  ]

  unfoldable pub decisions_for_steps :
      AgentPrefetchPolicy F → List String → List (PrefetchDecision F)
  decisions_for_steps p steps = ranked p.max_decisions (keep_steps p.step_objects [] 0 steps)

  -- What `predict_prefetch` notes of its decisions
  unfoldable pub count_decisions :
      AgentPrefetchPolicy F → List (PrefetchDecision F) → AgentPrefetchPolicy F
  count_decisions p ds = record p {
    agent_prefetch_count = p.agent_prefetch_count + length ds;
    predicted_object_ids =
        add_all p.predicted_object_ids (map (λ (d : PrefetchDecision F). d.object_id) ds);
  }

  unfoldable pub predict_current :
      AgentStepGraph
      → AgentPrefetchPolicy F
      → Option String
      → Result (List (PrefetchDecision F)) × AgentPrefetchPolicy F
  predict_current g p none = (ok [], p)
  predict_current g p (some s) = elim (get g.steps s) [
    | none ↦ (ok [], p)
    | some n ↦ elim (predict_next_steps g n.workflow_id s p.next_step_top_k) [
      | raise err ↦ (raise err, p)
      | ok steps ↦
          (ok (decisions_for_steps p steps), count_decisions p (decisions_for_steps p steps))
    ]
  ]

  unfoldable pub predict_prefetch :
      AgentStepGraph
      → AgentPrefetchPolicy F
      → Result (List (PrefetchDecision F)) × AgentPrefetchPolicy F
  predict_prefetch g p =
      predict_current g (record p { requests = p.requests + 1 }) p.current_step_id

  unfoldable pub on_prefetch_used :
      AgentPrefetchPolicy F → String → F → Result (Unit {0}) × AgentPrefetchPolicy F
  on_prefetch_used p x saved =
      if fl.lt saved (fl.of_nat 0)
      then (raise value_error, p)
      else if member p.predicted_object_ids x && not (member p.used_prefetch_ids x)
      then (
        ok tt,
        record p {
          used_prefetch_ids = add p.used_prefetch_ids x;
          latency_saved_ms = fl.add p.latency_saved_ms saved;
        },
      )
      else (ok tt, p)

  unfoldable pub on_prefetch_wasted : AgentPrefetchPolicy F → String → ℕ → AgentPrefetchPolicy F
  on_prefetch_wasted p x size =
      if member p.predicted_object_ids x && not (member p.wasted_prefetch_ids x)
      then record p {
        wasted_prefetch_ids = add p.wasted_prefetch_ids x;
        wasted_prefetch_bytes = p.wasted_prefetch_bytes + size;
      }
      else p

  unfoldable pub on_objects_requested : AgentPrefetchPolicy F → List String → AgentPrefetchPolicy F
  on_objects_requested p ids =
      let requested = add_all [] (keep (λ s. not (is_empty s)) ids) in
      record p {
        expected_object_count = p.expected_object_count + length requested;
        recall_hit_count =
            p.recall_hit_count + length (keep (λ s. member p.predicted_object_ids s) requested);
      }

  -- The two rates of `stats`
  unfoldable pub precision : AgentPrefetchPolicy F → F
  precision p =
      if p.agent_prefetch_count == 0
      then fl.of_nat 0
      else fl.div (fl.of_nat (length p.used_prefetch_ids)) (fl.of_nat p.agent_prefetch_count)

  unfoldable pub recall : AgentPrefetchPolicy F → F
  recall p =
      if p.expected_object_count == 0
      then fl.of_nat 0
      else fl.div (fl.of_nat p.recall_hit_count) (fl.of_nat p.expected_object_count)
