-- ===== src/Tests/Prefetch.antt =====
-- A session of two requests whose blocks are indexed, a policy over the workflow of the step graph's
-- tests, and two blocks to evict.
use intellil.Common.{
  ℕ, ◌≤◌, string_key, pair_key, String, none, some, List, [], ◌∷◌, ◌≡◌, refl, ok, All, In, length,
}
use intellil.Metadata.PrefixTree
use intellil.Metadata.Store.{MetadataStore}
use intellil.Metadata.StepGraph.{predict_next_steps}
use intellil.Metadata.StepGraph.Validity.Reach.{Reaches-IsValid}
use intellil.Metadata.StepGraph.Prediction.{Pending}
use intellil.Policies.Lru.{EvictionDecision}
use intellil.Policies.Prefetch.{PrefetchDecision, RequestContext, prefetch_type_key}
use intellil.Policies.Prefetch.Ranking.{IsTop}
use intellil.Policies.Prefetch.Session
use intellil.Policies.Prefetch.Session.{SessionPrefetchPolicy}
use intellil.Policies.Prefetch.Session.Histories.{Request, tokens_of, complete_all}
use intellil.Policies.Prefetch.Agent.{
  AgentStepObjects, AgentPrefetchPolicy, new_policy, decision_key, predict_prefetch,
}
use intellil.Policies.Prefetch.Agent.Predictions.{offers, IsNeeded, predict_prefetch-IsNeeded}
use intellil.Policies.Prefetch.Agent.Rates.{
  Event, predicted, used, wasted, requested, registered, run, IsValid, run-rates,
}
use intellil.Policies.WorkflowAware.{WorkflowAwareEviction, select_victim}
use intellil.Policies.WorkflowAware.Victims.{IsVictim, select_victim-IsVictim}
use intellil.Policies.Prefetch.Session.Longest.{kv_decision, IsLongest, predict_prefetch-IsLongest}
use intellil.Common.Float.{IsExact}
use intellil.Common.{arith, map, last}
use intellil.Tests.Fixtures.{counts, counts-IsOrdered, libraries}
use intellil.Tests.ObjectStore.{fresh, block}
use intellil.Tests.StepGraph.{g₃, reached, node_a, found_a}

abbrev sessions : SessionPrefetchPolicy
sessions = record { history_size = 2; top_k = 1; session_histories = [] }

abbrev requests : List Request
requests =
    ("s", 1 ∷ []) ∷ ("t", 9 ∷ []) ∷ ("s", 1 ∷ 2 ∷ []) ∷ ("s", []) ∷ ("s", 1 ∷ 2 ∷ 3 ∷ []) ∷ []

abbrev context : RequestContext (List ℕ)
context = record {
  prompt = "go on";
  session_id = "s";
  model_name = "model";
  prompt_embedding = none;
}

abbrev indexed : MetadataStore (List ℕ)
indexed = record fresh {
  prefix_tree = PrefixTree.insert (PrefixTree.insert PrefixTree.init (1 ∷ []) "a") (1 ∷ 2 ∷ []) "b";
}

counts-IsExact : IsExact counts
counts-IsExact = record { exact = λ a c small small'. refl }

predict_prefetch-IsLongest_example :
    (hits : List (String × ℕ)) × (Session.predict_prefetch libraries
        (complete_all sessions requests)
        context
        indexed
      ≡ map kv_decision hits)
    × IsLongest indexed (last 2 (tokens_of "s" requests)) 1 hits
unfolding Session.new_policy
predict_prefetch-IsLongest_example =
    predict_prefetch-IsLongest libraries counts-IsOrdered counts-IsExact indexed 2 1 requests
      context (omega arith, (omega arith, (omega arith, (omega arith, (omega arith, tt))))) refl

abbrev objects : AgentStepObjects
objects = record {
  kv_block_ids = "k" ∷ [];
  rag_object_ids = "r" ∷ [];
  semantic_entry_ids = [];
  tool_artifact_ids = [];
  plan_cache_entry_ids = [];
}

abbrev policy : AgentPrefetchPolicy ℕ
policy = record {
  current_step_id = some "a";
  next_step_top_k = 3;
  max_decisions = 2;
  step_objects = ("b", objects) ∷ [];
  predicted_object_ids = [];
  used_prefetch_ids = [];
  wasted_prefetch_ids = [];
  requests = 0;
  agent_prefetch_count = 0;
  expected_object_count = 0;
  recall_hit_count = 0;
  wasted_prefetch_bytes = 0;
  latency_saved_ms = 0;
}

predict_prefetch-IsNeeded_example :
    (steps : List String) × (ds : List (PrefetchDecision ℕ)) × (predict_next_steps g₃ "w" "a" 3
      ≡ ok steps)
    × ((predict_prefetch g₃ policy).0 ≡ ok ds)
    × All (Pending g₃ "w") steps
    × IsTop decision_key counts-IsOrdered 2 (offers policy.step_objects 0 steps) ds
    × ((d : PrefetchDecision ℕ) → In d ds → IsNeeded policy.step_objects 0 steps d)
predict_prefetch-IsNeeded_example =
    predict_prefetch-IsNeeded counts-IsOrdered g₃ policy "a" node_a (Reaches-IsValid reached) refl
      found_a

abbrev fresh_policy : AgentPrefetchPolicy ℕ
fresh_policy = record policy { step_objects = [] }

abbrev events : List (Event ℕ)
events =
    registered "b" objects
    ∷ predicted g₃
    ∷ used "k" 5
    ∷ wasted "r" 10
    ∷ requested ("k" ∷ "x" ∷ [])
    ∷ []

run-rates_example :
    IsValid (run fresh_policy events)
    × (length (run fresh_policy events).used_prefetch_ids
        ≤ (run fresh_policy events).agent_prefetch_count)
    × (length (run fresh_policy events).wasted_prefetch_ids
        ≤ (run fresh_policy events).agent_prefetch_count)
unfolding new_policy
run-rates_example = run-rates (some "a") 3 2 events refl

abbrev eviction : WorkflowAwareEviction ℕ
eviction = record {
  current_step_id = some "a";
  weights = record {
    recency = 1;
    frequency = 1;
    shared = 1;
    prefix = 1;
    workflow = 1;
    size = 1;
    reload = 1;
  };
  size_normalizer = 100;
  reload_cost_normalizer = 100;
  accesses = record { access_times = []; access_counts = [] };
  max_shared = 1;
}

select_victim-IsVictim_example :
    (d : EvictionDecision ℕ) × (select_victim
        (λ s. none)
        (some g₃)
        eviction
        ((block, 20) ∷ (block, 21) ∷ [])
      ≡ ok (some d))
    × IsVictim (λ s. none) (some g₃) eviction ((block, 20) ∷ (block, 21) ∷ []) d
select_victim-IsVictim_example =
    select_victim-IsVictim (λ s. none) counts-IsOrdered (some g₃) eviction block 20
      ((block, 21) ∷ []) (Reaches-IsValid reached)
