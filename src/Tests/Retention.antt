-- ===== src/Tests/Retention.antt =====
-- A policy whose estimator knows no tool, and a step that waits for a call.
use intellil.Common.{
  ℕ, string_key, ap, arith, String, false, none, some, List, [], ◌∷◌, ◌≡◌, ◌≢◌, refl, ok, All,
}
use Prim.Native.String.{len}
use intellil.Common.Sets.{member}
use intellil.Core.Types.{AgentStep}
use intellil.Core.Enums.{agent_step}
use intellil.Policies.Latency.{
  predict_latency, normalize_name, predict_normal, normalize_optional_name, predict_tool,
}
use intellil.Common.Dict.{get}
use intellil.Core.ObjectStore.{is_empty}
use intellil.Policies.RetentionState.{
  AgentTtlPolicy, AgentRetentionDecision, or_text, resolve_tool_name, reached,
}
use intellil.Policies.Retention.{
  on_llm_step_completed, prefetch_due, offloaded, decide_call, decide,
}
use intellil.Policies.Retention.Decisions.{IsStrip, Decided, Stored, on_llm_step_completed-Decided}
use intellil.Policies.Retention.Windows.{Event, due, kv_reloaded, tool_completed, run}
use intellil.Policies.Retention.Prefetches.{LeavesAlone, prefetch_due_once, offload-prefetch_due}
use intellil.Tests.Fixtures.{counts}
use intellil.Tests.ObjectStore.{meta_of}
use intellil.Tests.Latency.{fresh}

abbrev strip : String → String
strip s = s

strip-IsStrip : IsStrip strip
strip-IsStrip = record { strip_twice = λ s. refl; strip_unknown = refl }

abbrev policy : AgentTtlPolicy ℕ
policy = record {
  latency_estimator = fresh;
  ttl_threshold_ms = 750;
  default_ttl_ms = 1000;
  reload_cost_ms = 150;
  prefetch_margin_ms = 100;
  decisions_by_step = [];
  decisions_by_tool_call = [];
  tool_profiles = [];
  prefetch_triggered = [];
  pinned_blocks = [];
  offloaded_blocks = [];
  kv_retained = 0;
  kv_evicted = 0;
  kv_reloaded = 0;
  recompute_avoided = 0;
  tool_wait_hidden_ms = 0;
  prefetch_scheduled = 0;
  prefetch_trigger_count = 0;
}

abbrev step : AgentStep ℕ
step = record {
  meta = meta_of agent_step;
  step_id = "s1";
  workflow_id = "w";
  agent_id = "a";
  turn_id = 0;
  parent_step_id = none;
  input_prompt_hash = "";
  output_hash = "";
  tool_call_id = some "c1";
  kv_block_ids = "b1" ∷ "b2" ∷ [];
  rag_object_ids = [];
  semantic_entry_ids = [];
  timestamp_start = 0;
  timestamp_end = none;
}

abbrev decision : AgentRetentionDecision ℕ
decision = offloaded policy "s1" ("b1" ∷ "b2" ∷ []) "c1" 1000 150

abbrev after : AgentTtlPolicy ℕ
after = (on_llm_step_completed strip policy step none none none none none).1

on_llm_step_completed-Decided_example :
    (d : AgentRetentionDecision ℕ) × ((on_llm_step_completed strip policy step none none none none
        none).0
      ≡ ok d)
    × Decided strip policy step ("b1" ∷ "b2" ∷ []) (some "c1") none none 150 d
    × Stored after d
unfolding or_text
on_llm_step_completed-Decided_example =
    on_llm_step_completed-Decided strip strip-IsStrip policy step none none none none none refl

decided : (on_llm_step_completed strip policy step none none none none none).0 ≡ ok decision
unfolding on_llm_step_completed or_text decide_call resolve_tool_name predict_latency normalize_name
    predict_normal normalize_optional_name predict_tool decide get is_empty
decided = refl

abbrev other_call : String
other_call = "c2-search"

string_ne : other_call ≢ "c1"
string_ne e = let lengths : 9 ≡ 2 = ap len e in absurd (omega (arith, lengths))

abbrev events : List (Event ℕ)
events =
    due other_call 5
    ∷ kv_reloaded ("b7" ∷ [])
    ∷ tool_completed "c2-search" 30 (some "search") none
    ∷ []

offload-prefetch_due_example :
    (delay : ℕ) × (decision.prefetch_delay_ms ≡ some delay)
    × ((evs : List (Event ℕ)) (elapsed : ℕ)
        → All (LeavesAlone "c1") evs
        → counts.lt elapsed (counts.of_nat 0) ≡ false
        → counts.lt elapsed delay ≡ false
        → (prefetch_due (run strip after evs) "c1" elapsed).0 ≡ ok (some (reached "c1" decision)))
unfolding or_text member
offload-prefetch_due_example =
    offload-prefetch_due strip-IsStrip policy step none none none none none "c1" decision refl
      decided refl refl refl

window : (prefetch_due (run strip after events) "c1" 900).0 ≡ ok (some (reached "c1" decision))
window =
    let (delay, known, returns) = offload-prefetch_due_example in
    let same : 900 ≡ delay = cc in
    returns events 900 (string_ne, (tt, (tt, tt))) refl (rw (← same) refl)

prefetch_due_once_example :
    (prefetch_due (run strip (prefetch_due (run strip after events) "c1" 900).1 events) "c1" 2000).0
    ≡ ok none
prefetch_due_once_example =
    prefetch_due_once strip (run strip after events) "c1" 900 (reached "c1" decision) events 2000
      window refl
