-- ===== src/Policies/WorkflowAware.antt =====
-- `WorkflowAwareEviction` of src/l3store/policies/eviction/workflow_aware.py. The step graph, which
-- the policy shares, is given at the call that reads it; a candidate stands with the clock at its
-- scoring. `parse` is `float` of a text, `none` where that raises.
pub mod Victims
use intellil.Common.{
  ℕ, pos, negsuc, ◌+◌, ◌==◌, max, string_key, String, Option, none, some, List, [], ◌∷◌, length,
  or_else, Error, Result, ok, raise, value_error, key_error, index_error, attribute_error,
  storage_error, ◌>>=◌, ◌>>◌, raise_if, if◌then◌else◌,
}
use intellil.Common.Float.{Float, fmin, fmax}
use intellil.Common.Dict.{get}
use intellil.Core.Types.{ObjectMeta, KvCacheBlock}
use intellil.Metadata.StepGraph.{AgentStepGraph, steps_to_execution}
use intellil.Policies.Lru.{EvictionDecision}
use intellil.Policies.Scores.{Accesses, accessed, added, evicted, choose_victim}

pub record Weights (F : Type 0) : Type 0 where
  pub recency : F
  pub frequency : F
  pub shared : F
  pub prefix : F
  pub workflow : F
  pub size : F
  pub reload : F

pub record WorkflowAwareEviction (F : Type 0) : Type 0 where
  pub current_step_id : Option String
  pub weights : Weights F
  pub size_normalizer : F
  pub reload_cost_normalizer : F
  pub accesses : Accesses F
  pub max_shared : ℕ

module _ {F : Type 0} ⦃fl : Float F⦄ where
  unfoldable pub validate_weight : F → Result (Unit {0})
  validate_weight value = raise_if (fl.lt value (fl.of_nat 0)) value_error

  -- `__init__`
  unfoldable pub new_policy : Option String → Weights F → ℕ → F → Result (WorkflowAwareEviction F)
  new_policy current w size_bytes reload_ms = do
    validate_weight w.recency
    validate_weight w.frequency
    validate_weight w.shared
    validate_weight w.prefix
    validate_weight w.workflow
    validate_weight w.size
    validate_weight w.reload
    raise_if (size_bytes == 0) value_error
    raise_if (fl.le reload_ms (fl.of_nat 0)) value_error
    ok (record {
      current_step_id = current;
      weights = w;
      size_normalizer = fl.of_nat size_bytes;
      reload_cost_normalizer = reload_ms;
      accesses = record { access_times = []; access_counts = [] };
      max_shared = 1;
    })

  unfoldable pub set_current_step :
      WorkflowAwareEviction F → Option String → WorkflowAwareEviction F
  set_current_step p step = record p { current_step_id = step }

  unfoldable pub track_shared : WorkflowAwareEviction F → KvCacheBlock F → WorkflowAwareEviction F
  track_shared p block = record p {
    max_shared = max p.max_shared (length block.shared_by_sessions);
  }

  unfoldable pub on_block_accessed :
      WorkflowAwareEviction F → KvCacheBlock F → F → WorkflowAwareEviction F
  on_block_accessed p block now =
      track_shared (record p { accesses = accessed p.accesses block.meta.object_id now }) block

  unfoldable pub on_block_added :
      WorkflowAwareEviction F → KvCacheBlock F → F → WorkflowAwareEviction F
  on_block_added p block now =
      track_shared (record p { accesses = added p.accesses block.meta.object_id now }) block

  unfoldable pub on_block_evicted : WorkflowAwareEviction F → String → WorkflowAwareEviction F
  on_block_evicted p x = record p { accesses = evicted p.accesses x }

  unfoldable pub recency_score : WorkflowAwareEviction F → String → F → F
  recency_score p x now = elim (get p.accesses.access_times x) [
    | none ↦ fl.of_nat 0
    | some last_access ↦
        fl.div (fl.of_nat 1) (fl.add (fl.of_nat 1) (fmax (fl.of_nat 0) (fl.sub now last_access)))
  ]

  unfoldable pub frequency : WorkflowAwareEviction F → String → F
  frequency p x =
      fmin (fl.of_nat 1)
        (fl.div (fl.of_nat (or_else (get p.accesses.access_counts x) 1)) (fl.of_nat 10))

  unfoldable pub shared : WorkflowAwareEviction F → KvCacheBlock F → F
  shared p block =
      fl.div (fl.of_nat (length block.shared_by_sessions)) (fl.of_nat (max 1 p.max_shared))

  unfoldable pub clamp01 : F → F
  clamp01 value = fmax (fl.of_nat 0) (fmin (fl.of_nat 1) value)

  -- `1.0 / (1.0 + steps)`
  abbrev pub closeness : ℕ → F
  closeness steps = fl.div (fl.of_nat 1) (fl.add (fl.of_nat 1) (fl.of_nat steps))

  -- The `try` of `_workflow_next_use_score`, which catches a `ValueError` only
  unfoldable pub distance_score : Result (Option ℕ) → Result F
  distance_score (ok none) = ok (fl.of_nat 0)
  distance_score (ok (some steps)) = ok (closeness steps)
  distance_score (raise value_error) = ok (fl.of_nat 0)
  distance_score (raise key_error) = raise key_error
  distance_score (raise index_error) = raise index_error
  distance_score (raise attribute_error) = raise attribute_error
  distance_score (raise storage_error) = raise storage_error

  unfoldable pub agent_score : Option AgentStepGraph → Option String → Option String → Result F
  agent_score (some g) (some step) (some agent) = distance_score (steps_to_execution g agent step)
  agent_score none step agent = ok (fl.of_nat 0)
  agent_score (some g) none agent = ok (fl.of_nat 0)
  agent_score (some g) (some step) none = ok (fl.of_nat 0)

  unfoldable pub workflow_next_use_score :
      Option AgentStepGraph → WorkflowAwareEviction F → KvCacheBlock F → Result F
  workflow_next_use_score g p block = elim block.meta.expected_next_use_step [
    | some (negsuc n) ↦ ok (fl.of_nat 0)
    | some (pos steps) ↦ ok (closeness steps)
    | none ↦ agent_score g p.current_step_id block.meta.agent_id
  ]

-- `_reload_cost_penalty` and what needs it
module _ {F : Type 0} ⦃fl : Float F⦄ (parse : String → Option F) where
  unfoldable pub parsed_cost : Option String → Option F
  parsed_cost none = none
  parsed_cost (some raw_value) = parse raw_value

  unfoldable pub reload_cost : KvCacheBlock F → Option F
  reload_cost block = elim block.meta.predicted_tool_latency_ms [
    | some cost ↦ some cost
    | none ↦ parsed_cost (get block.meta.tags "reload_cost_ms")
  ]

  unfoldable pub reload_cost_penalty : WorkflowAwareEviction F → KvCacheBlock F → F
  reload_cost_penalty p block = elim (reload_cost block) [
    | none ↦ fl.of_nat 0
    | some cost ↦
        if fl.le cost (fl.of_nat 0)
        then fl.of_nat 0
        else fmin (fl.of_nat 1) (fl.div cost p.reload_cost_normalizer)
  ]

  unfoldable pub size_penalty : WorkflowAwareEviction F → KvCacheBlock F → F
  size_penalty p block =
      fmin (fl.of_nat 1) (fl.div (fl.of_nat block.meta.size_bytes) p.size_normalizer)

  -- `score_components`, of which `score_block` takes the score
  unfoldable pub score_block :
      Option AgentStepGraph → WorkflowAwareEviction F → KvCacheBlock F → F → Result F
  score_block g p block now =
      let x = block.meta.object_id in
      let w = p.weights in
      do
        workflow ← workflow_next_use_score g p block
        ok (
            fl.sub
              (fl.sub
                (fl.add
                  (fl.add
                    (fl.add
                      (fl.add (fl.mul w.recency (recency_score p x now))
                        (fl.mul w.frequency (frequency p x)))
                      (fl.mul w.shared (shared p block)))
                    (fl.mul w.prefix (clamp01 block.meta.reuse_score)))
                  (fl.mul w.workflow workflow))
                (fl.mul w.size (size_penalty p block)))
              (fl.mul w.reload (reload_cost_penalty p block)))

  -- The list `scored` of `select_victim`
  unfoldable pub scores :
      Option AgentStepGraph
      → WorkflowAwareEviction F
      → List (KvCacheBlock F × F)
      → Result (List (String × F))
  scores g p [] = ok []
  scores g p ((block, now) ∷ candidates) =
      let later = scores g p candidates in
      do score ← score_block g p block now; rest ← later; ok ((block.meta.object_id, score) ∷ rest)

  unfoldable pub select_victim :
      Option AgentStepGraph
      → WorkflowAwareEviction F
      → List (KvCacheBlock F × F)
      → Result (Option (EvictionDecision F))
  select_victim g p [] = ok none
  select_victim g p (candidate ∷ candidates) = do
    scored ← scores g p (candidate ∷ candidates)
    ok (choose_victim scored)
