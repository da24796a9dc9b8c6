-- ===== src/Policies/Prefetch/Agent/Rates.antt =====
-- The counters of src/l3store/policies/prefetch/agent_prefetch.py over the life of a policy.
use intellil.Common.{
  ℕ, ◌+◌, ◌≤◌, string_key, String, Bool, true, false, not, ◌&&◌, Option, none, some, List, [], ◌∷◌,
  map, ◌≡◌, refl, arith, inl, inr, ok, raise, value_error, length, length-map, length-keep-le, keep,
  In, Distinct, Bool-cases, Option-cases, Result, Result-cases, passed, ◌==◌,
}
use mathlib.Core.Path.{subst}
use intellil.Common.Float.{Float}
use intellil.Common.Sets.{
  member, add_all, In-of_member, In-add, add-Distinct, length-add_all, add_all-In_left,
  length-Distinct,
}
use intellil.Common.Dict.{Dict, get, put}
use intellil.Metadata.StepGraph.{AgentStepGraph, predict_next_steps}
use intellil.Core.ObjectStore.{is_empty}
use intellil.Policies.Prefetch.{PrefetchDecision}
use intellil.Policies.Prefetch.Agent.{
  AgentStepObjects, dedupe_step_objects, AgentPrefetchPolicy, new_policy, set_current_step,
  register_step_objects, decisions_for_steps, count_decisions, predict_current, predict_prefetch,
  on_prefetch_used, on_prefetch_wasted, on_objects_requested,
}

-- The calls that change a policy; what they raise is dropped.
pub data Event (F : Type 0) : Type 0 where
  current_step : Option String → Event F
  registered : String → AgentStepObjects → Event F
  predicted : AgentStepGraph → Event F
  used : String → F → Event F
  wasted : String → ℕ → Event F
  requested : List String → Event F

-- What stands at the true side of the two guards of a report
both_true : (a b : Bool) → a && not b ≡ true → (a ≡ true) × (b ≡ false)
both_true true true e = cc
both_true true false e = (refl, refl)
both_true false b e = cc

module _ {F : Type 0} ⦃fl : Float F⦄ where
  abbrev pub or_same :
      AgentPrefetchPolicy F → Result (AgentPrefetchPolicy F) → AgentPrefetchPolicy F
  or_same p (ok p') = p'
  or_same p (raise err) = p

  unfoldable pub next : AgentPrefetchPolicy F → Event F → AgentPrefetchPolicy F
  next p (current_step s) = set_current_step p s
  next p (registered s o) = or_same p (register_step_objects p s o)
  next p (predicted g) = (predict_prefetch g p).1
  next p (used x saved) = (on_prefetch_used p x saved).1
  next p (wasted x size) = on_prefetch_wasted p x size
  next p (requested ids) = on_objects_requested p ids

  unfoldable pub run : AgentPrefetchPolicy F → List (Event F) → AgentPrefetchPolicy F
  run p [] = p
  run p (ev ∷ events) = run (next p ev) events

  -- What was used or wasted had been predicted, and the counters of successes stay below those of all.
  pub record IsValid (p : AgentPrefetchPolicy F) : Type 0 where
    pub used_predicted : (x : String) → In x p.used_prefetch_ids → In x p.predicted_object_ids
    pub wasted_predicted : (x : String) → In x p.wasted_prefetch_ids → In x p.predicted_object_ids
    pub used_once : Distinct p.used_prefetch_ids
    pub wasted_once : Distinct p.wasted_prefetch_ids
    pub counted : length p.predicted_object_ids ≤ p.agent_prefetch_count
    pub hits : p.recall_hit_count ≤ p.expected_object_count

  count_decisions-IsValid :
      (p : AgentPrefetchPolicy F) (ds : List (PrefetchDecision F))
      → IsValid p
      → IsValid (count_decisions p ds)
  unfolding count_decisions
  count_decisions-IsValid p ds valid =
      let ids = map (λ (d : PrefetchDecision F). d.object_id) ds in
      record {
        used_predicted =
            λ x i. add_all-In_left p.predicted_object_ids ids x (valid.used_predicted x i);
        wasted_predicted =
            λ x i. add_all-In_left p.predicted_object_ids ids x (valid.wasted_predicted x i);
        used_once = valid.used_once;
        wasted_once = valid.wasted_once;
        counted = omega (
          arith,
          valid.counted,
          length-add_all p.predicted_object_ids ids,
          length-map (λ (d : PrefetchDecision F). d.object_id) ds,
        );
        hits = valid.hits;
      }

  -- The invariant reads neither the current step, nor the known objects, nor the requests.
  abbrev copied :
      (p : AgentPrefetchPolicy F) (current : Option String) (known : Dict String AgentStepObjects)
      (n : ℕ)
      → IsValid p
      → IsValid (record p { current_step_id = current; step_objects = known; requests = n })
  copied p current known n valid = record {
    used_predicted = valid.used_predicted;
    wasted_predicted = valid.wasted_predicted;
    used_once = valid.used_once;
    wasted_once = valid.wasted_once;
    counted = valid.counted;
    hits = valid.hits;
  }

  predict_current-IsValid :
      (g : AgentStepGraph) (p : AgentPrefetchPolicy F) (current : Option String)
      → IsValid p
      → IsValid (predict_current g p current).1
  unfolding predict_current
  predict_current-IsValid g p none valid = valid
  predict_current-IsValid g p (some s) valid = elim (Option-cases (get g.steps s)) [
    | inl unknown ↦ rw (predict_current, unknown) valid
    | inr (n, found) ↦
        elim (Result-cases (predict_next_steps g n.workflow_id s p.next_step_top_k)) [
          | inr (err, failed) ↦ rw (predict_current, found, failed) valid
          | inl (steps, done) ↦
              rw (predict_current, found, done)
                (count_decisions-IsValid p (decisions_for_steps p steps) valid)
        ]
  ]

  on_prefetch_used-IsValid :
      (p : AgentPrefetchPolicy F) (x : String) (saved : F)
      → IsValid p
      → IsValid (on_prefetch_used p x saved).1
  unfolding on_prefetch_used
  on_prefetch_used-IsValid p x saved valid = elim (Bool-cases (fl.lt saved (fl.of_nat 0))) [
    | inl negative ↦ rw (on_prefetch_used, negative) valid
    | inr fine ↦
        elim (Bool-cases (member p.predicted_object_ids x && not (member p.used_prefetch_ids x))) [
          | inr old ↦ rw (on_prefetch_used, fine, old) valid
          | inl new ↦
              let (known, _) =
                both_true (member p.predicted_object_ids x) (member p.used_prefetch_ids x) new in
              rw (on_prefetch_used, fine, new)
                (record {
                  used_predicted = λ y i. elim (In-add p.used_prefetch_ids x y i) [
                    | inl j ↦ valid.used_predicted y j
                    | inr e ↦ rw e (In-of_member p.predicted_object_ids x known)
                  ];
                  wasted_predicted = valid.wasted_predicted;
                  used_once = add-Distinct p.used_prefetch_ids x valid.used_once;
                  wasted_once = valid.wasted_once;
                  counted = valid.counted;
                  hits = valid.hits;
                })
        ]
  ]

  on_prefetch_wasted-IsValid :
      (p : AgentPrefetchPolicy F) (x : String) (size : ℕ)
      → IsValid p
      → IsValid (on_prefetch_wasted p x size)
  unfolding on_prefetch_wasted
  on_prefetch_wasted-IsValid p x size valid =
      elim (Bool-cases (member p.predicted_object_ids x && not (member p.wasted_prefetch_ids x))) [
        | inr old ↦ rw (on_prefetch_wasted, old) valid
        | inl new ↦
            let (known, _) =
              both_true (member p.predicted_object_ids x) (member p.wasted_prefetch_ids x) new in
            rw (on_prefetch_wasted, new)
              (record {
                used_predicted = valid.used_predicted;
                wasted_predicted = λ y i. elim (In-add p.wasted_prefetch_ids x y i) [
                  | inl j ↦ valid.wasted_predicted y j
                  | inr e ↦ rw e (In-of_member p.predicted_object_ids x known)
                ];
                used_once = valid.used_once;
                wasted_once = add-Distinct p.wasted_prefetch_ids x valid.wasted_once;
                counted = valid.counted;
                hits = valid.hits;
              })
      ]

  next-IsValid : (p : AgentPrefetchPolicy F) (ev : Event F) → IsValid p → IsValid (next p ev)
  unfolding next set_current_step register_step_objects predict_prefetch on_objects_requested
  next-IsValid p (current_step s) valid = copied p s p.step_objects p.requests valid
  next-IsValid p (registered s o) valid = elim (Bool-cases (is_empty s)) [
    | inl nameless ↦ rw (register_step_objects, nameless) valid
    | inr named ↦
        rw (register_step_objects, named)
          (copied p p.current_step_id (put p.step_objects s (dedupe_step_objects o)) p.requests
            valid)
  ]
  next-IsValid p (predicted g) valid =
      predict_current-IsValid g (record p { requests = p.requests + 1 }) p.current_step_id
        (copied p p.current_step_id p.step_objects (p.requests + 1) valid)
  next-IsValid p (used x saved) valid = on_prefetch_used-IsValid p x saved valid
  next-IsValid p (wasted x size) valid = on_prefetch_wasted-IsValid p x size valid
  next-IsValid p (requested ids) valid = record {
    used_predicted = valid.used_predicted;
    wasted_predicted = valid.wasted_predicted;
    used_once = valid.used_once;
    wasted_once = valid.wasted_once;
    counted = valid.counted;
    hits = omega (
      arith,
      valid.hits,
      length-keep-le (λ s. member p.predicted_object_ids s)
          (add_all [] (keep (λ s. not (is_empty s)) ids)),
    );
  }

  run-valid :
      (p : AgentPrefetchPolicy F) (events : List (Event F)) → IsValid p → IsValid (run p events)
  unfolding run
  run-valid p [] valid = valid
  run-valid p (ev ∷ events) valid = run-valid (next p ev) events (next-IsValid p ev valid)

  -- After any calls, a policy that the constructor has built has reported as used, and as wasted, only
  -- objects that it had predicted, no more of either than it has made decisions; and no more of the
  -- requested objects were hits than were requested.
  pub run-rates :
      {p : AgentPrefetchPolicy F} (current : Option String) (top_k size : ℕ)
      (events : List (Event F))
      → new_policy current top_k size ≡ ok p
      → IsValid (run p events)
        × (length (run p events).used_prefetch_ids ≤ (run p events).agent_prefetch_count)
        × (length (run p events).wasted_prefetch_ids ≤ (run p events).agent_prefetch_count)
  unfolding new_policy
  run-rates {p} current top_k size events made =
      let (_, made) = passed value_error (top_k == 0) _ made in
      let (_, made) = passed value_error (size == 0) _ made in
      let new : AgentPrefetchPolicy F = record {
        current_step_id = current;
        next_step_top_k = top_k;
        max_decisions = size;
        step_objects = [];
        predicted_object_ids = [];
        used_prefetch_ids = [];
        wasted_prefetch_ids = [];
        requests = 0;
        agent_prefetch_count = 0;
        expected_object_count = 0;
        recall_hit_count = 0;
        wasted_prefetch_bytes = 0;
        latency_saved_ms = fl.of_nat 0;
      } in
      let same : new ≡ p = cc in
      let start : IsValid new = record {
        used_predicted = λ x i. i;
        wasted_predicted = λ x i. i;
        used_once = tt;
        wasted_once = tt;
        counted = omega arith;
        hits = omega arith;
      } in
      let q = run p events in
      let valid = run-valid p events (subst IsValid same start) in
      let used_few =
        length-Distinct q.used_prefetch_ids q.predicted_object_ids valid.used_once
          valid.used_predicted in
      let wasted_few =
        length-Distinct q.wasted_prefetch_ids q.predicted_object_ids valid.wasted_once
          valid.wasted_predicted in
      (valid, omega (arith, used_few, valid.counted), omega (arith, wasted_few, valid.counted))
