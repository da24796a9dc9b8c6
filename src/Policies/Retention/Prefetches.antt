-- ===== src/Policies/Retention/Prefetches.antt =====
-- When `prefetch_due` of src/l3store/policies/retention/agent_ttl.py returns a decision: once its
-- window is reached, and once only.
use intellil.Common.{
  string_key, ◌≟◌, String, true, false, Option, none, some, List, [], ◌∷◌, ◌≡◌, ◌≢◌, refl, ◌∙◌, inl,
  inr, if_pos, if_neg, ok, Bool-cases, Option-cases, All, ap, or_else,
}
use intellil.Common.Float.{Float}
use intellil.Common.Sets.{member, member-add}
use intellil.Common.Dict.{get}
use intellil.Core.Types.{AgentStep}
use intellil.Policies.RetentionState.{
  AgentRetentionDecision, AgentTtlPolicy, offload, or_text, reached, on_kv_reloaded,
  on_pinned_kv_released,
}
use intellil.Policies.Retention.{on_llm_step_completed, due_decision, prefetch_due}
use intellil.Policies.Retention.Decisions.{
  IsStrip, short, long, Decided, on_llm_step_completed-Decided,
}
use intellil.Policies.Retention.Windows.{
  Event, step_completed, due, tool_completed, kv_reloaded, pinned_kv_released, next, run,
  on_llm_step_completed_lem, on_tool_completed_lem, prefetch_due-Asks, triggered-run,
}

module _ {F : Type 0} ⦃fl : Float F⦄ (strip : String → String) where
  -- A decision is returned only as the call is marked.
  returned-triggered :
      (p : AgentTtlPolicy F) (c : String) (elapsed : F) (d : AgentRetentionDecision F)
      → (prefetch_due p c elapsed).0 ≡ ok (some d)
      → member (prefetch_due p c elapsed).1.prefetch_triggered c ≡ true
  unfolding prefetch_due
  returned-triggered p c elapsed d returned = elim (Bool-cases (fl.lt elapsed (fl.of_nat 0))) [
    | inl negative ↦ absurd (cc (rw (prefetch_due, negative) at returned))
    | inr fine ↦ elim (Bool-cases (member p.prefetch_triggered c)) [
      | inl before ↦ rw (prefetch_due, fine, before) before
      | inr fresh ↦ elim (Option-cases (due_decision (get p.decisions_by_tool_call c) elapsed)) [
        | inl early ↦ absurd (cc (rw (prefetch_due, fine, fresh, early) at returned))
        | inr (d', window) ↦
            rw (prefetch_due, fine, fresh, window)
              (member-add p.prefetch_triggered c c
                ∙ if_pos (c ≟ c) refl true (member p.prefetch_triggered c))
      ]
    ]
  ]

  -- Where `prefetch_due` has returned a decision for a call, it returns none for that call ever after,
  -- whatever calls come between.
  pub prefetch_due_once :
      (p : AgentTtlPolicy F) (c : String) (elapsed : F) (d : AgentRetentionDecision F)
      (events : List (Event F)) (later : F)
      → (prefetch_due p c elapsed).0 ≡ ok (some d)
      → fl.lt later (fl.of_nat 0) ≡ false
      → (prefetch_due (run strip (prefetch_due p c elapsed).1 events) c later).0 ≡ ok none
  unfolding prefetch_due
  prefetch_due_once p c elapsed d events later returned fine =
      let p' = (prefetch_due p c elapsed).1 in
      let marked = triggered-run strip p' events c (returned-triggered p c elapsed d returned) in
      rw (prefetch_due, fine, marked) refl

-- The event neither decides about the call `c` nor asks whether it is due.
abbrev pub LeavesAlone : {F : Type 0} → String → Event F → Type 0
LeavesAlone c (step_completed step ids call tool args cost) =
    or_text call step.tool_call_id ≢ some c
LeavesAlone c (due b elapsed) = b ≢ c
LeavesAlone c (tool_completed b x tool args) = Unit
LeavesAlone c (kv_reloaded ids) = Unit
LeavesAlone c (pinned_kv_released ids) = Unit

-- The decision about the call `c`, which has not been triggered.
abbrev Waits : {F : Type 0} → String → AgentRetentionDecision F → AgentTtlPolicy F → Type 0
Waits c d p = (get p.decisions_by_tool_call c ≡ some d) × (member p.prefetch_triggered c ≡ false)

module _ {F : Type 0} ⦃fl : Float F⦄ (strip : String → String) where
  Waits-next :
      (p : AgentTtlPolicy F) (ev : Event F) (c : String) (d : AgentRetentionDecision F)
      → LeavesAlone c ev
      → Waits c d p
      → Waits c d (next strip p ev)
  unfolding next on_kv_reloaded on_pinned_kv_released
  Waits-next p (step_completed step ids call tool args cost) c d other (there, fresh) =
      let k = on_llm_step_completed_lem strip p step ids call tool args cost in
      (k.decision c other ∙ there, rw k.triggered fresh)
  Waits-next p (tool_completed b x tool args) c d other (there, fresh) =
      let k = on_tool_completed_lem strip p b x tool args in
      (k.decision c (λ e. cc e) ∙ there, rw k.triggered fresh)
  Waits-next p (kv_reloaded ids) c d other waits = waits
  Waits-next p (pinned_kv_released ids) c d other waits = waits
  Waits-next p (due b elapsed) c d other (there, fresh) =
      let k = prefetch_due-Asks p b elapsed in
      (
        rw k.decisions there,
        elim k.triggered [
          | inl e ↦ rw e fresh
          | inr e ↦ rw e (
              member-add p.prefetch_triggered b c
              ∙ if_neg (b ≟ c) other true (member p.prefetch_triggered c)
              ∙ fresh)
        ],
      )

  Waits-run :
      (p : AgentTtlPolicy F) (events : List (Event F)) (c : String) (d : AgentRetentionDecision F)
      → All (LeavesAlone c) events
      → Waits c d p
      → Waits c d (run strip p events)
  unfolding run
  Waits-run p [] c d others waits = waits
  Waits-run p (ev ∷ events) c d (other, others) waits =
      Waits-run (next strip p ev) events c d others (Waits-next p ev c d other waits)

  -- A decision to offload names its call and the delay of its prefetch.
  offload_delay :
      (p : AgentTtlPolicy F) (step : AgentStep F) (ids : List String)
      (call tool_name args : Option String) (cost : F) (d : AgentRetentionDecision F)
      → Decided strip p step ids call tool_name args cost d
      → d.action ≡ offload
      → (delay : F) × (d.prefetch_delay_ms ≡ some delay) × (d.tool_call_id ≡ call)
  offload_delay p step ids none tool_name args cost d decided off =
      absurd (cc (off, ap (λ (r : AgentRetentionDecision F). r.action) decided))
  offload_delay p step ids (some c) tool_name args cost d (short latency a b e) off =
      absurd (cc (e, off))
  offload_delay p step ids (some c) tool_name args cost d (long latency a b e) off = (
    _,
    ap (λ (r : AgentRetentionDecision F). r.prefetch_delay_ms) e,
    ap (λ (r : AgentRetentionDecision F). r.tool_call_id) e,
  )

module _ {F : Type 0} ⦃fl : Float F⦄ where
  prefetch_due_lem :
      (p : AgentTtlPolicy F) (c : String) (d : AgentRetentionDecision F) (delay elapsed : F)
      → Waits c d p
      → d.action ≡ offload
      → d.prefetch_delay_ms ≡ some delay
      → fl.lt elapsed (fl.of_nat 0) ≡ false
      → fl.lt elapsed delay ≡ false
      → (prefetch_due p c elapsed).0 ≡ ok (some (reached c d))
  unfolding prefetch_due due_decision
  prefetch_due_lem p c d delay elapsed (there, fresh) off window fine over =
      let now : due_decision (some d) elapsed ≡ some d = simp (off, window, over) in
      rw (prefetch_due, fine, fresh, there, now) refl

module _ {F : Type 0} ⦃fl : Float F⦄ {strip : String → String} (strips : IsStrip strip) where
  -- Where `on_llm_step_completed` decides to offload the blocks of a step whose call has not been
  -- triggered, the decision has a delay, and whatever happens that is not about this call,
  -- `prefetch_due` returns the prefetch of these blocks as soon as the delay is over.
  pub offload-prefetch_due :
      (p : AgentTtlPolicy F) (step : AgentStep F) (ids : Option (List String))
      (call tool_name args : Option String) (cost : Option F) (c : String)
      (d : AgentRetentionDecision F)
      → fl.lt (or_else cost p.reload_cost_ms) (fl.of_nat 0) ≡ false
      → (on_llm_step_completed strip p step ids call tool_name args cost).0 ≡ ok d
      → d.action ≡ offload
      → or_text call step.tool_call_id ≡ some c
      → member p.prefetch_triggered c ≡ false
      → (delay : F) × (d.prefetch_delay_ms ≡ some delay)
        × ((events : List (Event F)) (elapsed : F)
            → All (LeavesAlone c) events
            → fl.lt elapsed (fl.of_nat 0) ≡ false
            → fl.lt elapsed delay ≡ false
            → (prefetch_due
                (run strip
                  (on_llm_step_completed strip p step ids call tool_name args cost).1
                  events)
                c
                elapsed).0
              ≡ ok (some (reached c d)))
  offload-prefetch_due p step ids call tool_name args cost c d paid returned off named fresh =
      let after = (on_llm_step_completed strip p step ids call tool_name args cost).1 in
      let (d', returned', decided, stored) =
        on_llm_step_completed-Decided strip strips p step ids call tool_name args cost paid in
      let same : d' ≡ d = cc in
      let off' : d'.action ≡ offload = rw same off in
      let (delay, window, known) =
        offload_delay strip p step (or_else ids step.kv_block_ids) (or_text call step.tool_call_id)
          tool_name args (or_else cost p.reload_cost_ms) d' decided off' in
      let there : get after.decisions_by_tool_call c ≡ some d =
        rw (← same) (stored.1 c (known ∙ named)) in
      let k = on_llm_step_completed_lem strip p step ids call tool_name args cost in
      let window' : d.prefetch_delay_ms ≡ some delay = rw (← same) window in
      (
        delay,
        window',
        λ events elapsed others fine over.
            prefetch_due_lem (run strip after events) c d delay elapsed
              (Waits-run strip after events c d others (there, rw k.triggered fresh)) off window'
              fine over,
      )
