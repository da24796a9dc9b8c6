-- ===== src/Metadata/StepGraph/Validity.antt =====
-- The invariant of a step graph: the order and the links name known steps, of the right workflow.
pub mod Insertion
pub mod Marking
pub mod Reach
use intellil.Common.{
  string_key, Option-cases, inl, inr, ap, ◌∙◌, sym, String, Option, none, some, ◌≡◌, ◌≢◌, ◌⊎◌, refl,
  arith, ◌≟◌, ite, if_pos, if_neg, List, ◌∷◌, [], ◌++◌, ℕ, true, false, In, In-append,
  In-append_left, In-append_right, Result, ok, raise, Bool, Bool-cases, ◌↔◌,
}
use mathlib.Core.Path.{subst}
use intellil.Common.Dict.{Dict, get, put, get-put}
use intellil.Common.Groups.{group}
use intellil.Metadata.StepGraph.{
  AgentStepNode, AgentStepGraph, init, new_node, add_child, insert_step, add_step, check_parent,
  completed, mark_step_completed, add_step_object, require_step, add_workflow,
}
use intellil.Metadata.StepGraph.Links.{
  linked, steps-insert_step, order-insert_step, group-set_default,
}

-- Each node is filed under its own id; the order of a workflow lists exactly its steps; a child is a
-- step of the same workflow that names its parent.
pub record IsValid (g : AgentStepGraph) : Type 0 where
  pub named : (s : String) (n : AgentStepNode) → get g.steps s ≡ some n → n.step_id ≡ s
  pub listed :
      (w s : String)
      → In s (group g.workflow_steps w)
      → (n : AgentStepNode) × (get g.steps s ≡ some n) × (n.workflow_id ≡ w)
  pub indexed :
      (s : String) (n : AgentStepNode)
      → get g.steps s ≡ some n
      → In s (group g.workflow_steps n.workflow_id)
  pub children :
      (s : String) (n : AgentStepNode) (c : String)
      → get g.steps s ≡ some n
      → In c n.child_step_ids
      → (m : AgentStepNode) × (get g.steps c ≡ some m)
        × (m.workflow_id ≡ n.workflow_id)
        × (m.parent_step_id ≡ some s)

pub init-IsValid : IsValid init
unfolding get
init-IsValid = record {
  named = λ s n h. cc;
  listed = λ w s h. absurd h;
  indexed = λ s n h. cc;
  children = λ s n c h i. cc;
}
