-- ===== src/Policies/WorkflowAware/Victims.antt =====
-- The victims of src/l3store/policies/eviction/workflow_aware.py.
use mathlib.Core.Path.{subst}
use intellil.Common.{
  sym, ap, ◌∙◌, ℕ, pos, negsuc, true, In, string_key, String, Option, none, some, List, [], ◌∷◌,
  ◌≡◌, refl, inl, inr, ok, Result, Option-cases, ◌>>=◌,
}
use intellil.Common.Float.{Float, IsOrdered}
use intellil.Common.Dict.{get}
use intellil.Core.Types.{KvCacheBlock}
use intellil.Metadata.StepGraph.{AgentStepGraph, require_step, steps_to_execution}
use intellil.Metadata.StepGraph.Validity.{IsValid}
use intellil.Metadata.StepGraph.Prediction.{steps_to_execution-FirstRun}
use intellil.Policies.Lru.{EvictionDecision}
use intellil.Policies.Scores.{choose_victim-IsLowest}
use intellil.Policies.WorkflowAware.{
  WorkflowAwareEviction, closeness, distance_score, agent_score, workflow_next_use_score,
  score_block, scores, select_victim,
}

-- The graph, where there is one, is valid.
abbrev pub AllValid : Option AgentStepGraph → Type 0
AllValid none = Unit
AllValid (some g) = IsValid g

module _ {F : Type 0} ⦃fl : Float F⦄ where
  -- A valid graph answers, or raises the error that the score catches.
  distance_score_total :
      (g : AgentStepGraph) (a s : String)
      → IsValid g
      → (score : F) × (distance_score (steps_to_execution g a s) ≡ ok score)
  unfolding distance_score steps_to_execution require_step
  distance_score_total g a s valid = elim (Option-cases (get g.steps s)) [
    | inl unknown ↦ (fl.of_nat 0, rw (steps_to_execution, require_step, unknown) refl)
    | inr (n, found) ↦
        let (later, d, follows, answer, first) = steps_to_execution-FirstRun g a s n valid found in
        rw answer (answered d)
  ]
    where
      answered : (d : Option ℕ) → (score : F) × (distance_score (ok d) ≡ ok score)
      answered none = (_, refl)
      answered (some d) = (_, refl)

  agent_score_total :
      (g : Option AgentStepGraph) (step agent : Option String)
      → AllValid g
      → (score : F) × (agent_score g step agent ≡ ok score)
  unfolding agent_score
  agent_score_total none step agent valid = (_, refl)
  agent_score_total (some g) none agent valid = (_, refl)
  agent_score_total (some g) (some step) none valid = (_, refl)
  agent_score_total (some g) (some step) (some agent) valid =
      distance_score_total g agent step valid

  workflow_total :
      (g : Option AgentStepGraph) (p : WorkflowAwareEviction F) (block : KvCacheBlock F)
      → AllValid g
      → (score : F) × (workflow_next_use_score g p block ≡ ok score)
  unfolding workflow_next_use_score
  workflow_total g p block valid = elim (Option-cases block.meta.expected_next_use_step) [
    | inr (pos steps, known) ↦ (closeness steps, rw (workflow_next_use_score, known) refl)
    | inr (negsuc n, known) ↦ (fl.of_nat 0, rw (workflow_next_use_score, known) refl)
    | inl unknown ↦
        let (score, answer) = agent_score_total g p.current_step_id block.meta.agent_id valid in
        (score, rw (workflow_next_use_score, unknown) answer)
  ]

  module _ (parse : String → Option F) where
    score_block_total :
        (g : Option AgentStepGraph) (p : WorkflowAwareEviction F) (block : KvCacheBlock F) (now : F)
        → AllValid g
        → (score : F) × (score_block parse g p block now ≡ ok score)
    unfolding score_block
    score_block_total g p block now valid =
        let (workflow, answer) = workflow_total g p block valid in
        (_, then_ok (workflow_next_use_score g p block) _ workflow answer)
      where
        then_ok :
            (first : Result F) (last : F → F) (w : F)
            → first ≡ ok w
            → (first >>= λ v. ok (last v)) ≡ ok (last w)
        then_ok first last w e = rw e refl

    -- The score is that of a candidate of this id.
    abbrev HasScore :
        Option AgentStepGraph
        → WorkflowAwareEviction F
        → List (KvCacheBlock F × F)
        → String
        → F
        → Type 0
    HasScore g p candidates x s =
        (block : KvCacheBlock F) × (now : F) × In (block, now) candidates
        × (block.meta.object_id ≡ x)
        × (score_block parse g p block now ≡ ok s)

    -- Every candidate gets its score, and there are no other scores.
    record AllScored (g : Option AgentStepGraph) (p : WorkflowAwareEviction F)
        (candidates : List (KvCacheBlock F × F)) (scored : List (String × F)) : Type 0 where
      sound : (x : String) (s : F) → In (x, s) scored → HasScore g p candidates x s
      complete :
          (block : KvCacheBlock F) (now : F)
          → In (block, now) candidates
          → (s : F) × (score_block parse g p block now ≡ ok s) × In (block.meta.object_id, s) scored

    AllScored-cons :
        (g : Option AgentStepGraph) (p : WorkflowAwareEviction F) (block : KvCacheBlock F) (now : F)
        (candidates : List (KvCacheBlock F × F)) (score : F) (rest : List (String × F))
        → score_block parse g p block now ≡ ok score
        → AllScored g p candidates rest
        → AllScored g p ((block, now) ∷ candidates) ((block.meta.object_id, score) ∷ rest)
    AllScored-cons g p block now candidates score rest mine others = record {
      sound = λ x s i. elim i [
        | inl e ↦ (
          block,
          now,
          inl refl,
          sym (ap (λ (q : String × F). q.0) e),
          mine ∙ ap ok (sym (ap (λ (q : String × F). q.1) e)),
        )
        | inr j ↦ let (b, t, k, named, scored) = others.sound x s j in (b, t, inr k, named, scored)
      ];
      complete = λ b t i. elim i [
        | inl e ↦
            subst
              (λ (q : KvCacheBlock F × F).
                (s : F) × (score_block parse g p q.0 q.1 ≡ ok s)
                × In (q.0.meta.object_id, s) ((block.meta.object_id, score) ∷ rest))
              (sym e) (score, mine, inl refl)
        | inr j ↦ let (s, known, k) = others.complete b t j in (s, known, inr k)
      ];
    }

    scores_total :
        (g : Option AgentStepGraph) (p : WorkflowAwareEviction F)
        (candidates : List (KvCacheBlock F × F))
        → AllValid g
        → (scored : List (String × F)) × (scores parse g p candidates ≡ ok scored)
          × AllScored g p candidates scored
    unfolding scores
    scores_total g p [] valid =
        ([], refl, record { sound = λ x s i. absurd i; complete = λ b t i. absurd i })
    scores_total g p ((block, now) ∷ candidates) valid =
        let (score, mine) = score_block_total g p block now valid in
        let (rest, later, others) = scores_total g p candidates valid in
        (
          (block.meta.object_id, score) ∷ rest,
          rw (scores, mine, later) refl,
          AllScored-cons g p block now candidates score rest mine others,
        )

    -- The decision is for a candidate whose score no score of a candidate undercuts, and its priority
    -- is this score, negated.
    pub record IsVictim (g : Option AgentStepGraph) (p : WorkflowAwareEviction F)
        (candidates : List (KvCacheBlock F × F)) (d : EvictionDecision F) : Type 0 where
      pub block : KvCacheBlock F
      pub now : F
      pub score : F
      pub candidate : In (block, now) candidates
      pub named : block.meta.object_id ≡ d.object_id
      pub scored : score_block parse g p block now ≡ ok score
      pub negated : d.priority ≡ fl.neg score
      pub lowest :
          (other : KvCacheBlock F) (at : F)
          → In (other, at) candidates
          → (s : F) × (score_block parse g p other at ≡ ok s) × (fl.le score s ≡ true)

    -- Where the step graph is valid, or there is none, `select_victim` returns a victim for any
    -- candidates, of which there is one: every candidate has a score, an unknown current step included,
    -- and the victim is a candidate whose score no other undercuts; its priority is that score, negated.
    pub select_victim-IsVictim :
        (order : IsOrdered fl) (g : Option AgentStepGraph) (p : WorkflowAwareEviction F)
        (block : KvCacheBlock F) (now : F) (candidates : List (KvCacheBlock F × F))
        → AllValid g
        → (d : EvictionDecision F) × (select_victim parse g p ((block, now) ∷ candidates)
            ≡ ok (some d))
          × IsVictim g p ((block, now) ∷ candidates) d
    unfolding select_victim scores
    select_victim-IsVictim order g p block now candidates valid =
        let (score, mine) = score_block_total g p block now valid in
        let (rest, later, others) = scores_total g p candidates valid in
        let all = AllScored-cons g p block now candidates score rest mine others in
        let (d, chosen, low) = choose_victim-IsLowest order (block.meta.object_id, score) rest in
        let (b, at, i, named, scored) = all.sound d.object_id low.score low.candidate in
        (
          d,
          rw (select_victim, scores, mine, later, chosen) refl,
          record {
            block = b;
            now = at;
            score = low.score;
            candidate = i;
            named = named;
            scored = scored;
            negated = low.negated;
            lowest = λ other t j.
                let (s, known, k) = all.complete other t j in
                (s, known, low.lowest other.meta.object_id s k);
          },
        )
