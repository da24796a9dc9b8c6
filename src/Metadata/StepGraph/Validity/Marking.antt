-- ===== src/Metadata/StepGraph/Validity/Marking.antt =====
-- `mark_step_completed` keeps a graph valid.
use intellil.Common.{
  string_key, Option-cases, inl, inr, ap, ◌∙◌, sym, String, some, ◌≡◌, arith, ◌≟◌, ite, In, ok,
}
use mathlib.Core.Path.{subst}
use intellil.Common.Dict.{get, put, get-put}
use intellil.Common.Groups.{group}
use intellil.Metadata.StepGraph.{AgentStepNode, AgentStepGraph, completed, mark_step_completed}
use intellil.Metadata.StepGraph.Validity.{IsValid}

module _ (g : AgentStepGraph) (s : String) {n : AgentStepNode}
    (found : get g.steps s ≡ some n) where
  -- A node after the mark is the node before, or its completed version.
  marked_origin :
      (r : String) (n' : AgentStepNode)
      → get (put g.steps s (completed n)) r ≡ some n'
      → (m : AgentStepNode) × (get g.steps r ≡ some m) × (n' ≡ ite (s ≟ r) (completed m) m)
  marked_origin r n' h = elim (s ≟ r) [
    | yes e ↦
        (n, ap (get g.steps) (sym e) ∙ found, ground (arith, get-put g.steps s r (completed n)))
    | no q ↦ (n', ground (arith, get-put g.steps s r (completed n)), ground arith)
  ]

  marked_kept :
      (r : String) (m : AgentStepNode)
      → get g.steps r ≡ some m
      → get (put g.steps s (completed n)) r ≡ some (ite (s ≟ r) (completed m) m)
  marked_kept r m h = elim (s ≟ r) [
    | yes e ↦
        let same : n ≡ m = cc (found, h, ap (get g.steps) e) in
        ground (arith, get-put g.steps s r (completed n), same)
    | no q ↦ ground (arith, get-put g.steps s r (completed n))
  ]

  -- The mark changes nothing but the flag.
  mark_keeps :
      (r : String) (m : AgentStepNode)
      → ((ite (s ≟ r) (completed m) m).workflow_id ≡ m.workflow_id)
        × ((ite (s ≟ r) (completed m) m).step_id ≡ m.step_id)
        × ((ite (s ≟ r) (completed m) m).parent_step_id ≡ m.parent_step_id)
        × ((ite (s ≟ r) (completed m) m).child_step_ids ≡ m.child_step_ids)
  mark_keeps r m = ground arith

  marked-IsValid : IsValid g → IsValid (record g { steps = put g.steps s (completed n) })
  marked-IsValid v = record {
    named = λ r n' h.
        let (m, old, e) = marked_origin r n' h in
        ap (λ (k : AgentStepNode). k.step_id) e ∙ (mark_keeps r m).1 ∙ v.named r m old;
    listed = λ u r i.
        let (m, old, e) = v.listed u r i in
        (ite (s ≟ r) (completed m) m, marked_kept r m old, (mark_keeps r m).0 ∙ e);
    indexed = λ r n' h.
        let (m, old, e) = marked_origin r n' h in
        let same = ap (λ (k : AgentStepNode). k.workflow_id) e ∙ (mark_keeps r m).0 in
        subst (λ u. In r (group g.workflow_steps u)) (sym same) (v.indexed r m old);
    children = λ r n' c h i.
        let (m, old, e) = marked_origin r n' h in
        let same = ap (λ (k : AgentStepNode). k.workflow_id) e ∙ (mark_keeps r m).0 in
        let kids = ap (λ (k : AgentStepNode). k.child_step_ids) e ∙ (mark_keeps r m).3 in
        let (k, hk, wk, pk) = v.children r m c old (subst (In c) kids i) in
        (
          ite (s ≟ c) (completed k) k,
          marked_kept c k hk,
          (mark_keeps c k).0 ∙ wk ∙ sym same,
          (mark_keeps c k).2 ∙ pk,
        );
  }

mark_inv :
    (g : AgentStepGraph) (s : String) {g' : AgentStepGraph}
    → mark_step_completed g s ≡ ok g'
    → (n : AgentStepNode) × (get g.steps s ≡ some n)
      × (g' ≡ record g { steps = put g.steps s (completed n) })
unfolding mark_step_completed
mark_inv g s {g'} h = elim (Option-cases (get g.steps s)) [
  | inl missing ↦ ground arith
  | inr (n, found) ↦ (n, found, ground arith)
]

pub mark_step_completed-IsValid :
    (g : AgentStepGraph) (s : String) {g' : AgentStepGraph}
    → IsValid g
    → mark_step_completed g s ≡ ok g'
    → IsValid g'
mark_step_completed-IsValid g s v h =
    let (n, found, e) = mark_inv g s h in subst IsValid (sym e) (marked-IsValid g s found v)
