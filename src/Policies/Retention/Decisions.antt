-- ===== src/Policies/Retention/Decisions.antt =====
-- The decisions of `on_llm_step_completed` in src/l3store/policies/retention/agent_ttl.py.
use intellil.Common.{
  string_key, String, true, false, Option, none, some, List, ◌≡◌, refl, inl, inr, ok, or_else,
  Bool-cases, Option-cases,
}
use intellil.Common.Float.{Float}
use intellil.Common.Dict.{get, put, get-put_self}
use intellil.Core.Types.{AgentStep}
use intellil.Core.ObjectStore.{is_empty}
use intellil.Policies.Latency.{
  ToolLatencyEstimator, predict_latency, normalize_name, predict_normal, normalize_optional_name,
}
use intellil.Policies.RetentionState.{
  AgentRetentionDecision, AgentTtlPolicy, ToolProfile, or_text, resolve_tool_name, store_tool_call,
  store_decision, decide_retention, retained,
}
use intellil.Policies.Retention.{
  pinned, offloaded, count_pinned, count_offloaded, decide, decide_call, on_llm_step_completed,
}

-- What is asked of `str.strip`: a second call changes nothing, and a word stays.
pub record IsStrip (strip : String → String) : Type 0 where
  pub strip_twice : (s : String) → strip (strip s) ≡ strip s
  pub strip_unknown : strip "unknown" ≡ "unknown"

module _ {strip : String → String} (strips : IsStrip strip) where
  normalize_name_known :
      (s : String) → strip s ≡ s → is_empty s ≡ false → normalize_name strip s ≡ ok s
  unfolding normalize_name
  normalize_name_known s same named = rw (normalize_name, same, named) refl

  -- A name that has been resolved is a name to the estimator.
  normalize_name-resolve_tool_name :
      (step_tool tool_name : Option String)
      → normalize_name strip (resolve_tool_name strip step_tool tool_name)
        ≡ ok (resolve_tool_name strip step_tool tool_name)
  unfolding resolve_tool_name is_empty
  normalize_name-resolve_tool_name step_tool tool_name =
      let unknown = normalize_name_known "unknown" strips.strip_unknown refl in
      elim (Option-cases (or_text tool_name step_tool)) [
        | inl missing ↦
            let e : resolve_tool_name strip step_tool tool_name ≡ "unknown" =
              rw (resolve_tool_name, missing) refl in
            rw e unknown
        | inr (name, found) ↦ elim (Bool-cases (is_empty (strip name))) [
          | inl empty ↦
              let e : resolve_tool_name strip step_tool tool_name ≡ "unknown" =
                rw (resolve_tool_name, found, empty) refl in
              rw e unknown
          | inr named ↦
              let e : resolve_tool_name strip step_tool tool_name ≡ strip name =
                rw (resolve_tool_name, found, named) refl in
              rw e (normalize_name_known (strip name) (strips.strip_twice name) named)
        ]
      ]

module _ {F : Type 0} where
  -- The decision is stored under its step, and under its call.
  abbrev pub Stored : AgentTtlPolicy F → AgentRetentionDecision F → Type 0
  Stored p d =
      (decide_retention p d.step_id ≡ some d)
      × ((c : String) → d.tool_call_id ≡ some c → get p.decisions_by_tool_call c ≡ some d)

  stored_call :
      (p : AgentTtlPolicy F) (call : Option String) (d : AgentRetentionDecision F)
      → decide_retention p d.step_id ≡ some d
      → (decide_retention (store_tool_call p call d) d.step_id ≡ some d)
        × ((c : String)
            → call ≡ some c
            → get (store_tool_call p call d).decisions_by_tool_call c ≡ some d)
  unfolding store_tool_call decide_retention
  stored_call p none d there = (there, λ c e. cc)
  stored_call p (some c) d there = (
    there,
    λ c' e. let same : c ≡ c' = cc in rw (← same) (get-put_self p.decisions_by_tool_call c d),
  )

  store_decision-Stored :
      (p : AgentTtlPolicy F) (d : AgentRetentionDecision F) → Stored (store_decision p d) d
  unfolding store_decision decide_retention
  store_decision-Stored p d =
      stored_call (record p { decisions_by_step = put p.decisions_by_step d.step_id d })
        d.tool_call_id d (get-put_self p.decisions_by_step d.step_id d)

module _ {F : Type 0} ⦃fl : Float F⦄ (strip : String → String) where
  -- The decision about the blocks of a step that waits for the call `c` of a tool
  pub data IsDecided (p : AgentTtlPolicy F) (step : String) (ids : List String) (c tool : String)
      (args : Option String) (cost : F) (d : AgentRetentionDecision F) : Type 0 where
    short :
        (latency : F)
        → predict_latency strip p.latency_estimator tool args ≡ ok latency
        → fl.le latency p.ttl_threshold_ms ≡ true
        → d ≡ pinned p step ids c latency cost
        → IsDecided p step ids c tool args cost d
    long :
        (latency : F)
        → predict_latency strip p.latency_estimator tool args ≡ ok latency
        → fl.le latency p.ttl_threshold_ms ≡ false
        → d ≡ offloaded p step ids c latency cost
        → IsDecided p step ids c tool args cost d

  decide-IsDecided :
      (p : AgentTtlPolicy F) (p' : AgentTtlPolicy F) (step : String) (ids : List String)
      (c tool : String) (args : Option String) (cost latency : F)
      → p'.ttl_threshold_ms ≡ p.ttl_threshold_ms
      → p'.default_ttl_ms ≡ p.default_ttl_ms
      → p'.prefetch_margin_ms ≡ p.prefetch_margin_ms
      → predict_latency strip p.latency_estimator tool args ≡ ok latency
      → IsDecided p step ids c tool args cost (decide p' step ids c latency cost).0
        × Stored (decide p' step ids c latency cost).1 (decide p' step ids c latency cost).0
  unfolding decide
  decide-IsDecided p p' step ids c tool args cost latency same_threshold same_ttl same_margin
        predicted =
      elim (Bool-cases (fl.le latency p'.ttl_threshold_ms)) [
        | inl brief ↦
            let d = pinned p' step ids c latency cost in
            let state : decide p' step ids c latency cost
                ≡ (d, store_decision (count_pinned p' ids latency cost) d) =
              rw (decide, brief) refl in
            rw state (
              short latency predicted (cc) (rw same_ttl refl),
              store_decision-Stored (count_pinned p' ids latency cost) d,
            )
        | inr lengthy ↦
            let d = offloaded p' step ids c latency cost in
            let state : decide p' step ids c latency cost
                ≡ (d, store_decision (count_offloaded p' ids) d) =
              rw (decide, lengthy) refl in
            rw state (
              long latency predicted (cc) (rw same_margin refl),
              store_decision-Stored (count_offloaded p' ids) d,
            )
      ]

  -- What `on_llm_step_completed` decides, by the call that it is told of or that the step names
  abbrev pub Decided :
      AgentTtlPolicy F
      → AgentStep F
      → List String
      → Option String
      → Option String
      → Option String
      → F
      → AgentRetentionDecision F
      → Type 0
  Decided p step ids none tool_name args cost d = d ≡ retained step.step_id ids cost
  Decided p step ids (some c) tool_name args cost d =
      IsDecided p step.step_id ids c (resolve_tool_name strip step.meta.tool_name tool_name) args
        cost d

  predict_latency_known :
      (e : ToolLatencyEstimator F) (tool : String) (args : Option String)
      → normalize_name strip tool ≡ ok tool
      → predict_latency strip e tool args
        ≡ ok (predict_normal strip e tool (normalize_optional_name strip args))
  unfolding predict_latency
  predict_latency_known e tool args named = rw (predict_latency, named) refl

  decide_call-IsDecided :
      (p : AgentTtlPolicy F) (step : String) (ids : List String) (c tool : String)
      (args : Option String) (cost : F)
      → normalize_name strip tool ≡ ok tool
      → (d : AgentRetentionDecision F) × ((decide_call strip p step ids c tool args cost).0 ≡ ok d)
        × IsDecided p step ids c tool args cost d
        × Stored (decide_call strip p step ids c tool args cost).1 d
  unfolding decide_call
  decide_call-IsDecided p step ids c tool args cost named =
      let latency =
        predict_normal strip p.latency_estimator tool (normalize_optional_name strip args) in
      let predicted = predict_latency_known p.latency_estimator tool args named in
      let profile : ToolProfile = record { tool_name = tool; tool_args_class = args } in
      let p' = record p { tool_profiles = put p.tool_profiles c profile } in
      let made = decide p' step ids c latency cost in
      let state : decide_call strip p step ids c tool args cost ≡ (ok made.0, made.1) =
        rw (decide_call, predicted) refl in
      rw state (
        made.0,
        refl,
        (decide-IsDecided p p' step ids c tool args cost latency refl refl refl predicted).0,
        (decide-IsDecided p p' step ids c tool args cost latency refl refl refl predicted).1,
      )

  module _ (strips : IsStrip strip) where
    -- Where the cost of a reload is not negative, `on_llm_step_completed` returns a decision: to retain
    -- the blocks where neither the caller nor the step names a call of a tool, to pin them where the
    -- latency that is predicted for the tool is within the threshold, and else to offload them. The
    -- decision is stored under its step, where `decide_retention` finds it, and under its call.
    pub on_llm_step_completed-Decided :
        (p : AgentTtlPolicy F) (step : AgentStep F) (ids : Option (List String))
        (call tool_name args : Option String) (cost : Option F)
        → fl.lt (or_else cost p.reload_cost_ms) (fl.of_nat 0) ≡ false
        → (d : AgentRetentionDecision F) × ((on_llm_step_completed strip p step ids call tool_name
              args cost).0
            ≡ ok d)
          × Decided p step
              (or_else ids step.kv_block_ids)
              (or_text call step.tool_call_id)
              tool_name
              args
              (or_else cost p.reload_cost_ms)
              d
          × Stored (on_llm_step_completed strip p step ids call tool_name args cost).1 d
    unfolding on_llm_step_completed
    on_llm_step_completed-Decided p step ids call tool_name args cost paid =
        let blocks = or_else ids step.kv_block_ids in
        let price = or_else cost p.reload_cost_ms in
        elim (Option-cases (or_text call step.tool_call_id)) [
          | inl no_call ↦
              let d = retained step.step_id blocks price in
              let state : on_llm_step_completed strip p step ids call tool_name args cost
                  ≡ (ok d, store_decision p d) =
                rw (on_llm_step_completed, paid, no_call) refl in
              rw (state, no_call) (d, refl, refl, store_decision-Stored p d)
          | inr (c, named) ↦
              let tool = resolve_tool_name strip step.meta.tool_name tool_name in
              let state : on_llm_step_completed strip p step ids call tool_name args cost
                  ≡ decide_call strip p step.step_id blocks c tool args price =
                rw (on_llm_step_completed, paid, named) refl in
              rw (state, named)
                (decide_call-IsDecided p step.step_id blocks c tool args price
                  (normalize_name-resolve_tool_name strips step.meta.tool_name tool_name))
        ]
