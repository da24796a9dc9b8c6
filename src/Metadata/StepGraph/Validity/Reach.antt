-- ===== src/Metadata/StepGraph/Validity/Reach.antt =====
-- Every graph that the calls of the class build is valid.
use intellil.Common.{
  string_key, sym, String, Option, ◌≡◌, ℕ, In, ok, Bool, true, false, if◌then◌else◌, bind_ok,
}
use mathlib.Core.Path.{subst}
use intellil.Metadata.StepGraph.{
  AgentStepGraph, init, add_step, mark_step_completed, add_step_object, add_workflow,
}
use intellil.Metadata.StepGraph.Links.{group-set_default}
use intellil.Metadata.StepGraph.Validity.{IsValid, init-IsValid}
use intellil.Metadata.StepGraph.Validity.Insertion.{add_step-IsValid}
use intellil.Metadata.StepGraph.Validity.Marking.{mark_step_completed-IsValid}

ok-injective {ℓ} : {A : Type ℓ} {a b : A} → ok a ≡ ok b → a ≡ b
ok-injective h = cc

-- `add_step_object` and `add_workflow` keep the graph valid too.
pub add_step_object-IsValid :
    (g : AgentStepGraph) (w s a : String) (parent : Option String) (turn : ℕ) (ended : Bool)
    {g' : AgentStepGraph}
    → IsValid g
    → add_step_object g w s a parent turn ended ≡ ok g'
    → IsValid g'
unfolding add_step_object
add_step_object-IsValid g w s a parent turn ended {g'} v h =
    let (g₁, rest, first) = bind_ok _ (add_step g w s a parent turn) h in
    finish ended g₁ (add_step-IsValid g w s a parent turn v first) rest
  where
    finish :
        (b : Bool) (g₁ : AgentStepGraph)
        → IsValid g₁
        → (if b then mark_step_completed g₁ s else ok g₁) ≡ ok g'
        → IsValid g'
    finish true g₁ v₁ rest = mark_step_completed-IsValid g₁ s v₁ rest
    finish false g₁ v₁ rest = subst IsValid (ok-injective rest) v₁

pub add_workflow-IsValid :
    (g : AgentStepGraph) (w : String) → IsValid g → IsValid (add_workflow g w)
unfolding add_workflow
add_workflow-IsValid g w v = record {
  named = v.named;
  listed = λ u s i. v.listed u s (subst (In s) (group-set_default g w u) i);
  indexed = λ s n h. subst (In s) (sym (group-set_default g w n.workflow_id)) (v.indexed s n h);
  children = v.children;
}

-- The graphs that calls of the class build. A call that raises leaves the graph alone.
pub data Reaches : AgentStepGraph → Type 0 where
  start : Reaches init
  added_workflow : (g : AgentStepGraph) (w : String) → Reaches g → Reaches (add_workflow g w)
  added_step :
      (g g' : AgentStepGraph) (w s a : String) (parent : Option String) (turn : ℕ) (ended : Bool)
      → Reaches g
      → add_step_object g w s a parent turn ended ≡ ok g'
      → Reaches g'
  marked_step :
      (g g' : AgentStepGraph) (s : String)
      → Reaches g
      → mark_step_completed g s ≡ ok g'
      → Reaches g'

-- Every graph that calls of the class build from the empty one is valid.
pub Reaches-IsValid : {g : AgentStepGraph} → Reaches g → IsValid g
Reaches-IsValid start = init-IsValid
Reaches-IsValid (added_workflow g w r) = add_workflow-IsValid g w (Reaches-IsValid r)
Reaches-IsValid (added_step g g' w s a parent turn ended r h) =
    add_step_object-IsValid g w s a parent turn ended (Reaches-IsValid r) h
Reaches-IsValid (marked_step g g' s r h) = mark_step_completed-IsValid g s (Reaches-IsValid r) h
