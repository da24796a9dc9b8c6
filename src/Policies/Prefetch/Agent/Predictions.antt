-- ===== src/Policies/Prefetch/Agent/Predictions.antt =====
-- What `AgentPrefetchPolicy` of src/l3store/policies/prefetch/agent_prefetch.py predicts: the best of
-- the objects that are known of the steps that the graph predicts.
use mathlib.Core.Path.{subst}
use intellil.Common.{
  ℕ, suc, ◌+◌, string_key, pair_key, String, none, some, List, [], ◌∷◌, ◌++◌, map, ◌≡◌, refl, sym,
  ap, ◌∙◌, arith, inl, inr, ok, All, In, In-map, In-append, Option-cases, get_elem?,
}
use intellil.Common.Float.{Float, IsOrdered}
use intellil.Common.Dict.{Dict, get}
use intellil.Metadata.StepGraph.{AgentStepGraph, AgentStepNode, predict_next_steps}
use intellil.Metadata.StepGraph.Validity.{IsValid}
use intellil.Metadata.StepGraph.Prediction.{Pending, predict_next_steps-Pending}
use intellil.Policies.Prefetch.{
  PrefetchType, prefetch_type_key, PrefetchDecision, kv_cache, rag, semantic, tool_artifact,
  plan_cache, keep_better, keep_all,
}
use intellil.Policies.Prefetch.Ranking.{IsTop, ranked-keep_all, keep_all-append}
use intellil.Policies.Prefetch.Agent.{
  AgentStepObjects, AgentPrefetchPolicy, iter_objects, decision_key, type_weight, keep_ids,
  keep_types, step_priority, keep_steps, decisions_for_steps, predict_current, predict_prefetch,
}

-- The objects of a type that a step needs
unfoldable pub ids_of : AgentStepObjects → PrefetchType → List String
ids_of o kv_cache = o.kv_block_ids
ids_of o rag = o.rag_object_ids
ids_of o semantic = o.semantic_entry_ids
ids_of o tool_artifact = o.tool_artifact_ids
ids_of o plan_cache = o.plan_cache_entry_ids

module _ {F : Type 0} ⦃fl : Float F⦄ where
  abbrev pub offer : PrefetchType → F → String → PrefetchDecision F
  offer type priority x = record { object_id = x; priority = priority; prefetch_type = type }

  -- The decisions that the loops go through, in their order
  unfoldable pub type_offers : F → List (PrefetchType × List String) → List (PrefetchDecision F)
  type_offers p [] = []
  type_offers p ((type, ids) ∷ types) =
      map (offer type (fl.mul p (type_weight type))) ids ++ type_offers p types

  unfoldable pub offers : Dict String AgentStepObjects → ℕ → List String → List (PrefetchDecision F)
  offers known rank [] = []
  offers known rank (s ∷ steps) = elim (get known s) [
    | none ↦ offers known (suc rank) steps
    | some o ↦ type_offers (step_priority rank) (iter_objects o) ++ offers known (suc rank) steps
  ]

  -- The object is one of step number `i` of `steps`, with the priority of its type at this distance.
  pub record IsNeeded (known : Dict String AgentStepObjects) (rank : ℕ) (steps : List String)
      (d : PrefetchDecision F) : Type 0 where
    pub place : ℕ
    pub step : String
    pub objects : AgentStepObjects
    pub predicted : get_elem? steps place ≡ some step
    pub registered : get known step ≡ some objects
    pub needed : In d.object_id (ids_of objects d.prefetch_type)
    pub priced : d.priority ≡ fl.mul (step_priority (rank + place)) (type_weight d.prefetch_type)

  type_offers_sound :
      (p : F) (types : List (PrefetchType × List String)) (d : PrefetchDecision F)
      → In d (type_offers p types)
      → (ids : List String) × In (d.prefetch_type, ids) types
        × In d.object_id ids
        × (d.priority ≡ fl.mul p (type_weight d.prefetch_type))
  unfolding type_offers
  type_offers_sound p [] d i = absurd i
  type_offers_sound p ((type, ids) ∷ types) d i =
      elim (In-append d (map (offer type (fl.mul p (type_weight type))) ids) (type_offers p types)
        i) [
          | inl here ↦
              let (x, j, e) = In-map (offer type (fl.mul p (type_weight type))) d ids here in
              rw e (ids, inl refl, j, refl)
          | inr there ↦
              let (ids', j, k, price) = type_offers_sound p types d there in (ids', inr j, k, price)
        ]

iter_objects-ids_of :
    (o : AgentStepObjects) (type : PrefetchType) (ids : List String)
    → In (type, ids) (iter_objects o)
    → ids ≡ ids_of o type
unfolding iter_objects ids_of
iter_objects-ids_of o type ids i =
    let types = kv_cache ∷ tool_artifact ∷ rag ∷ plan_cache ∷ semantic ∷ [] in
    let (t, j, e) = In-map (λ u. (u, ids_of o u)) (type, ids) types i in
    cc (
      ap (λ (q : PrefetchType × List String). q.0) e,
      ap (λ (q : PrefetchType × List String). q.1) e,
    )

module _ {F : Type 0} ⦃fl : Float F⦄ where
  offers_sound :
      (known : Dict String AgentStepObjects) (rank : ℕ) (steps : List String)
      (d : PrefetchDecision F)
      → In d (offers known rank steps)
      → IsNeeded known rank steps d
  unfolding offers
  offers_sound known rank [] d i = absurd i
  offers_sound known rank (s ∷ steps) d i = elim (Option-cases (get known s)) [
    | inl unknown ↦ later (offers_sound known (suc rank) steps d (rw (offers, unknown) at i))
    | inr (o, found) ↦
        elim (In-append d (type_offers (step_priority rank) (iter_objects o))
          (offers known (suc rank) steps) (rw (offers, found) at i)) [
            | inl here ↦
                let (ids, j, k, price) =
                  type_offers_sound (step_priority rank) (iter_objects o) d here in
                record {
                  place = 0;
                  step = s;
                  objects = o;
                  predicted = refl;
                  registered = found;
                  needed =
                      subst (λ l. In d.object_id l) (iter_objects-ids_of o d.prefetch_type ids j) k;
                  priced = let same : rank + 0 ≡ rank = omega arith in rw same price;
                }
            | inr there ↦ later (offers_sound known (suc rank) steps d there)
          ]
  ]
    where
      later : IsNeeded known (suc rank) steps d → IsNeeded known rank (s ∷ steps) d
      later n =
          let same : suc rank + n.place ≡ rank + suc n.place = omega arith in
          record {
            place = suc n.place;
            step = n.step;
            objects = n.objects;
            predicted = n.predicted;
            registered = n.registered;
            needed = n.needed;
            priced = rw (← same) n.priced;
          }

module _ {F : Type 0} ⦃fl : Float F⦄ (order : IsOrdered fl) where
  keep_ids-keep_all :
      (best : Dict (PrefetchType × String) (PrefetchDecision F)) (type : PrefetchType) (p : F)
      (ids : List String)
      → keep_ids best type p ids ≡ keep_all decision_key best (map (offer type p) ids)
  unfolding keep_ids keep_all
  keep_ids-keep_all best type p [] = refl
  keep_ids-keep_all best type p (x ∷ ids) =
      keep_ids-keep_all (keep_better decision_key best (offer type p x)) type p ids

  keep_types-keep_all :
      (best : Dict (PrefetchType × String) (PrefetchDecision F)) (p : F)
      (types : List (PrefetchType × List String))
      → keep_types best p types ≡ keep_all decision_key best (type_offers p types)
  unfolding keep_types type_offers keep_all
  keep_types-keep_all best p [] = refl
  keep_types-keep_all best p ((type, ids) ∷ types) =
      let price = fl.mul p (type_weight type) in
      keep_types-keep_all (keep_ids best type price ids) p types
      ∙ ap
          (λ (b : Dict (PrefetchType × String) (PrefetchDecision F)).
            keep_all decision_key b (type_offers p types))
          (keep_ids-keep_all best type price ids)
      ∙ sym (
          keep_all-append decision_key order best (map (offer type price) ids)
            (type_offers p types))

  keep_steps-keep_all :
      (known : Dict String AgentStepObjects)
      (best : Dict (PrefetchType × String) (PrefetchDecision F)) (rank : ℕ) (steps : List String)
      → keep_steps known best rank steps ≡ keep_all decision_key best (offers known rank steps)
  unfolding keep_steps offers keep_all
  keep_steps-keep_all known best rank [] = refl
  keep_steps-keep_all known best rank (s ∷ steps) = elim (Option-cases (get known s)) [
    | inl unknown ↦
        rw (keep_steps, offers, unknown) (keep_steps-keep_all known best (suc rank) steps)
    | inr (o, found) ↦
        let mine = type_offers (step_priority rank) (iter_objects o) in
        let best' = keep_types best (step_priority rank) (iter_objects o) in
        rw (keep_steps, offers, found)
          (keep_steps-keep_all known best' (suc rank) steps
            ∙ ap
                (λ (b : Dict (PrefetchType × String) (PrefetchDecision F)).
                  keep_all decision_key b (offers known (suc rank) steps))
                (keep_types-keep_all best (step_priority rank) (iter_objects o))
            ∙ sym (keep_all-append decision_key order best mine (offers known (suc rank) steps)))
  ]

  -- Where the graph is valid and knows the current step, `predict_prefetch` returns, and its decisions
  -- are the best of the objects that are registered for the pending steps that the graph predicts, at
  -- most as many as the policy allows, each object of a type once, by priority; each is an object that
  -- a predicted step needs, at the weight of its type divided by the place of the step.
  pub predict_prefetch-IsNeeded :
      (g : AgentStepGraph) (p : AgentPrefetchPolicy F) (s : String) (n : AgentStepNode)
      → IsValid g
      → p.current_step_id ≡ some s
      → get g.steps s ≡ some n
      → (steps : List String) × (ds : List (PrefetchDecision F)) × (predict_next_steps g
            n.workflow_id s p.next_step_top_k
          ≡ ok steps)
        × ((predict_prefetch g p).0 ≡ ok ds)
        × All (Pending g n.workflow_id) steps
        × IsTop decision_key order p.max_decisions (offers p.step_objects 0 steps) ds
        × ((d : PrefetchDecision F) → In d ds → IsNeeded p.step_objects 0 steps d)
  unfolding predict_prefetch predict_current decisions_for_steps
  predict_prefetch-IsNeeded g p s n valid current found =
      let (steps, predicted, few, pending) =
        predict_next_steps-Pending g n.workflow_id s p.next_step_top_k valid (n, found, refl) in
      let top : IsTop decision_key order p.max_decisions (offers p.step_objects 0 steps)
          (decisions_for_steps p steps) =
        rw (decisions_for_steps, keep_steps-keep_all)
          (ranked-keep_all decision_key order p.max_decisions (offers p.step_objects 0 steps)) in
      (
        steps,
        decisions_for_steps p steps,
        predicted,
        rw (predict_prefetch, current, predict_current, found, predicted) refl,
        pending,
        top,
        λ d i. offers_sound p.step_objects 0 steps d ((top.best d i).offered),
      )
