-- ===== src/Metadata/StepGraph/Links.antt =====
-- What the steps, the order and the links are after a change, key by key.
use intellil.Common.{
  string_key, Option-cases, inl, inr, ap, ◌∙◌, String, Option, none, some, ◌≡◌, refl, arith, ◌≟◌,
  ite, ◌∷◌, [], ◌++◌, ℕ,
}
use intellil.Common.Dict.{Dict, get, put, set_default, get-put}
use intellil.Common.Groups.{group, get-append_to}
use intellil.Metadata.StepGraph.{
  AgentStepNode, AgentStepGraph, new_node, add_child, link_parent, insert_step,
}

-- A step after its parent has been told of the new child.
abbrev pub linked : Option String → String → String → Option AgentStepNode → Option AgentStepNode
linked none s r found = found
linked (some p) s r none = none
linked (some p) s r (some n) = some (ite (p ≟ r) (add_child s n) n)

pub get-link_parent :
    (steps : Dict String AgentStepNode) (parent : Option String) (s r : String)
    → get (link_parent steps parent s) r ≡ linked parent s r (get steps r)
unfolding link_parent
get-link_parent steps none s r = refl
get-link_parent steps (some p) s r = elim (Option-cases (get steps p)) [
  | inl e ↦ ground (arith)
  | inr (n, e) ↦ ground (arith, get-put steps p r (add_child s n))
]

pub group-set_default :
    (g : AgentStepGraph) (w r : String)
    → group (set_default g.workflow_steps w []) r ≡ group g.workflow_steps r
group-set_default g w r = ground (arith, get-put g.workflow_steps w r [])

module _ (g : AgentStepGraph) (w s a : String) (parent : Option String) (turn : ℕ)
    (r : String) where
  pub steps-insert_step :
      get (insert_step g w s a parent turn).steps r
      ≡ linked parent s r (ite (s ≟ r) (some (new_node w s a parent turn)) (get g.steps r))
  unfolding insert_step
  steps-insert_step =
      get-link_parent (put g.steps s (new_node w s a parent turn)) parent s r
      ∙ ap (linked parent s r) (get-put g.steps s r (new_node w s a parent turn))

  pub order-insert_step :
      group (insert_step g w s a parent turn).workflow_steps r
      ≡ ite (w ≟ r) (group g.workflow_steps r ++ s ∷ []) (group g.workflow_steps r)
  unfolding insert_step
  order-insert_step = ground (
    arith,
    get-append_to (set_default g.workflow_steps w []) w r s,
    group-set_default g w r,
    group-set_default g w w,
  )
