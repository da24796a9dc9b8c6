-- ===== src/Policies/Retention/Windows.antt =====
-- The prefetch windows of src/l3store/policies/retention/agent_ttl.py: `prefetch_due` over the life
-- of a policy.
use intellil.Common.{
  string_key, ◌≟◌, String, true, Option, none, some, List, [], ◌∷◌, ◌≡◌, ◌≢◌, refl, ◌∙◌, arith, inl,
  inr, ◌⊎◌, if_neg, Bool-cases, Option-cases, or_else, Result-cases, ap,
}
use intellil.Common.Float.{Float}
use intellil.Common.Sets.{member, add, member-add}
use intellil.Common.Dict.{get, put, get-put}
use intellil.Core.Types.{AgentStep}
use intellil.Policies.Latency.{predict_latency}
use intellil.Policies.RetentionState.{
  AgentRetentionDecision, AgentTtlPolicy, ToolProfile, or_text, resolve_tool_name, store_tool_call,
  store_decision, retained, reached, profile_name, on_kv_reloaded, on_pinned_kv_released,
}
use intellil.Policies.Retention.{
  count_pinned, count_offloaded, pinned, offloaded, decide, decide_call, on_llm_step_completed,
  on_tool_completed, observe, due_decision, prefetch_due,
}

-- The calls that change a policy, and a sequence of them; what they raise is dropped.
pub data Event (F : Type 0) : Type 0 where
  step_completed :
      AgentStep F
      → Option (List String)
      → Option String
      → Option String
      → Option String
      → Option F
      → Event F
  due : String → F → Event F
  tool_completed : String → F → Option String → Option String → Event F
  kv_reloaded pinned_kv_released : List String → Event F

module _ {F : Type 0} ⦃fl : Float F⦄ (strip : String → String) where
  unfoldable pub next : AgentTtlPolicy F → Event F → AgentTtlPolicy F
  next p (step_completed step ids call tool args cost) =
      (on_llm_step_completed strip p step ids call tool args cost).1
  next p (due c elapsed) = (prefetch_due p c elapsed).1
  next p (tool_completed c x tool args) = (on_tool_completed strip p c x tool args).1
  next p (kv_reloaded ids) = on_kv_reloaded p ids
  next p (pinned_kv_released ids) = on_pinned_kv_released p ids

  unfoldable pub run : AgentTtlPolicy F → List (Event F) → AgentTtlPolicy F
  run p [] = p
  run p (ev ∷ events) = run (next p ev) events

module _ {F : Type 0} ⦃fl : Float F⦄ where
  -- What a method leaves that decides at most about one call: the decisions of the others, and the
  -- calls that were triggered.
  pub record DecidesFor (o : Option String) (p p' : AgentTtlPolicy F) : Type 0 where
    pub decision :
        (c : String) → o ≢ some c → get p'.decisions_by_tool_call c ≡ get p.decisions_by_tool_call c
    pub triggered : p'.prefetch_triggered ≡ p.prefetch_triggered

  store_tool_call_lem :
      (p : AgentTtlPolicy F) (o : Option String) (d : AgentRetentionDecision F)
      → DecidesFor o p (store_tool_call p o d)
  unfolding store_tool_call
  store_tool_call_lem p none d = record { decision = λ c other. refl; triggered = refl }
  store_tool_call_lem p (some b) d = record {
    decision = λ c other.
        get-put p.decisions_by_tool_call b c d
        ∙ if_neg (b ≟ c) (λ e. other (ap some e)) (some d) (get p.decisions_by_tool_call c);
    triggered = refl;
  }

  store_decision_lem :
      (p : AgentTtlPolicy F) (d : AgentRetentionDecision F)
      → DecidesFor d.tool_call_id p (store_decision p d)
  unfolding store_decision
  store_decision_lem p d =
      let k =
        store_tool_call_lem (record p { decisions_by_step = put p.decisions_by_step d.step_id d })
          d.tool_call_id d in
      record { decision = k.decision; triggered = k.triggered }

  decide_lem :
      (p : AgentTtlPolicy F) (step : String) (ids : List String) (b : String) (latency cost : F)
      → DecidesFor (some b) p (decide p step ids b latency cost).1
  unfolding decide count_pinned count_offloaded
  decide_lem p step ids b latency cost = elim (Bool-cases (fl.le latency p.ttl_threshold_ms)) [
    | inl brief ↦
        let k =
          store_decision_lem (count_pinned p ids latency cost) (pinned p step ids b latency cost) in
        rw (decide, brief) (record { decision = k.decision; triggered = k.triggered })
    | inr lengthy ↦
        let k = store_decision_lem (count_offloaded p ids) (offloaded p step ids b latency cost) in
        rw (decide, lengthy) (record { decision = k.decision; triggered = k.triggered })
  ]

module _ {F : Type 0} ⦃fl : Float F⦄ (strip : String → String) where
  decide_call_lem :
      (p : AgentTtlPolicy F) (step : String) (ids : List String) (b tool : String)
      (args : Option String) (cost : F)
      → DecidesFor (some b) p (decide_call strip p step ids b tool args cost).1
  unfolding decide_call
  decide_call_lem p step ids b tool args cost =
      let profile : ToolProfile = record { tool_name = tool; tool_args_class = args } in
      elim (Result-cases (predict_latency strip p.latency_estimator tool args)) [
        | inr (e, failed) ↦
            rw (decide_call, failed) (record { decision = λ c other. refl; triggered = refl })
        | inl (latency, predicted) ↦
            let k =
              decide_lem (record p { tool_profiles = put p.tool_profiles b profile }) step ids b
                latency cost in
            rw (decide_call, predicted) (record { decision = k.decision; triggered = k.triggered })
      ]

  pub on_llm_step_completed_lem :
      (p : AgentTtlPolicy F) (step : AgentStep F) (ids : Option (List String))
      (call tool args : Option String) (cost : Option F)
      → DecidesFor
          (or_text call step.tool_call_id)
          p
          (on_llm_step_completed strip p step ids call tool args cost).1
  unfolding on_llm_step_completed
  on_llm_step_completed_lem p step ids call tool args cost =
      let blocks = or_else ids step.kv_block_ids in
      let price = or_else cost p.reload_cost_ms in
      elim (Bool-cases (fl.lt (or_else cost p.reload_cost_ms) (fl.of_nat 0))) [
        | inl negative ↦
            rw (on_llm_step_completed, negative)
              (record { decision = λ c other. refl; triggered = refl })
        | inr paid ↦ elim (Option-cases (or_text call step.tool_call_id)) [
          | inl no_call ↦
              rw (on_llm_step_completed, paid, no_call)
                (store_decision_lem p (retained step.step_id blocks price))
          | inr (c, named) ↦
              rw (on_llm_step_completed, paid, named)
                (decide_call_lem p step.step_id blocks c
                  (resolve_tool_name strip step.meta.tool_name tool) args price)
        ]
      ]

  pub on_tool_completed_lem :
      (p : AgentTtlPolicy F) (b : String) (x : F) (tool args : Option String)
      → DecidesFor none p (on_tool_completed strip p b x tool args).1
  unfolding on_tool_completed observe
  on_tool_completed_lem p b x tool args = elim (Bool-cases (fl.lt x (fl.of_nat 0))) [
    | inl negative ↦
        rw (on_tool_completed, negative) (record { decision = λ c other. refl; triggered = refl })
    | inr fine ↦ elim (Option-cases (or_text tool (profile_name (get p.tool_profiles b)))) [
      | inl unknown ↦
          rw (on_tool_completed, fine, unknown)
            (record { decision = λ c other. refl; triggered = refl })
      | inr (name, known) ↦
          rw (on_tool_completed, fine, known)
            (record { decision = λ c other. refl; triggered = refl })
    ]
  ]

module _ {F : Type 0} ⦃fl : Float F⦄ where
  -- What `prefetch_due` leaves: the decisions, and the triggered calls, with perhaps this one more.
  pub record Asks (b : String) (p p' : AgentTtlPolicy F) : Type 0 where
    pub decisions : p'.decisions_by_tool_call ≡ p.decisions_by_tool_call
    pub triggered :
        (p'.prefetch_triggered ≡ p.prefetch_triggered)
        ⊎ (p'.prefetch_triggered ≡ add p.prefetch_triggered b)

  pub prefetch_due-Asks :
      (p : AgentTtlPolicy F) (b : String) (elapsed : F) → Asks b p (prefetch_due p b elapsed).1
  unfolding prefetch_due
  prefetch_due-Asks p b elapsed = elim (Bool-cases (fl.lt elapsed (fl.of_nat 0))) [
    | inl negative ↦ rw (prefetch_due, negative) (record { decisions = refl; triggered = inl refl })
    | inr fine ↦ elim (Bool-cases (member p.prefetch_triggered b)) [
      | inl before ↦
          rw (prefetch_due, fine, before) (record { decisions = refl; triggered = inl refl })
      | inr fresh ↦ elim (Option-cases (due_decision (get p.decisions_by_tool_call b) elapsed)) [
        | inl early ↦
            rw (prefetch_due, fine, fresh, early)
              (record { decisions = refl; triggered = inl refl })
        | inr (d, reached) ↦
            rw (prefetch_due, fine, fresh, reached)
              (record { decisions = refl; triggered = inr refl })
      ]
    ]
  ]

module _ {F : Type 0} ⦃fl : Float F⦄ (strip : String → String) where
  -- A call that was triggered stays so.
  triggered-next :
      (p : AgentTtlPolicy F) (ev : Event F) (c : String)
      → member p.prefetch_triggered c ≡ true
      → member (next strip p ev).prefetch_triggered c ≡ true
  unfolding next on_kv_reloaded on_pinned_kv_released
  triggered-next p (step_completed step ids call tool args cost) c seen =
      rw (on_llm_step_completed_lem strip p step ids call tool args cost).triggered seen
  triggered-next p (tool_completed b x tool args) c seen =
      rw (on_tool_completed_lem strip p b x tool args).triggered seen
  triggered-next p (kv_reloaded ids) c seen = seen
  triggered-next p (pinned_kv_released ids) c seen = seen
  triggered-next p (due b elapsed) c seen = elim (prefetch_due-Asks p b elapsed).triggered [
    | inl e ↦ rw e seen
    | inr e ↦ rw e (ground (arith, member-add p.prefetch_triggered b c))
  ]

  pub triggered-run :
      (p : AgentTtlPolicy F) (events : List (Event F)) (c : String)
      → member p.prefetch_triggered c ≡ true
      → member (run strip p events).prefetch_triggered c ≡ true
  unfolding run
  triggered-run p [] c seen = seen
  triggered-run p (ev ∷ events) c seen =
      triggered-run (next strip p ev) events c (triggered-next p ev c seen)
