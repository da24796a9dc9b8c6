-- ===== src/Tests/StepGraph.antt =====
-- A workflow of three steps: `a` plans, its child `b` searches, then `c` answers.
use intellil.Common.{
  string_key, string_dec, String, Option, none, some, List, [], ◌∷◌, ◌≡◌, ◌⊎◌, raise, value_error,
  refl, ok, false, ◌≤◌, length, All, keep,
}
use intellil.Common.Dict.{get, put}
use intellil.Common.Groups.{append_to, group}
use intellil.Metadata.StepGraph.{
  AgentStepGraph, AgentStepNode, init, add_workflow, add_step, insert_step, check_parent,
  link_parent, add_step_object, mark_step_completed, require_step, uncompleted, after,
  future_uncompleted_steps, predict_next_steps, first_of_agent, steps_to_execution,
}
use intellil.Metadata.StepGraph.Validity.{IsValid}
use intellil.Metadata.StepGraph.Validity.Insertion.{ParentFits, IsAdded, add_step_cases}
use intellil.Metadata.StepGraph.Validity.Reach.{Reaches, start, added_step, Reaches-IsValid}
use intellil.Metadata.StepGraph.Prediction.{
  Pending, is_pending, Follows, FirstRun, predict_next_steps-Pending, steps_to_execution-FirstRun,
}

program : Unit {0}
unfolding get put append_to string_dec add_workflow add_step insert_step check_parent link_parent
    add_step_object mark_step_completed require_step uncompleted after future_uncompleted_steps
    predict_next_steps first_of_agent steps_to_execution
program = tt

abbrev g₁ : AgentStepGraph
g₁ = insert_step init "w" "a" "planner" none 0

abbrev g₂ : AgentStepGraph
g₂ = insert_step g₁ "w" "b" "searcher" (some "a") 1

abbrev pub g₃ : AgentStepGraph
g₃ = insert_step g₂ "w" "c" "writer" none 2

pub reached : Reaches g₃
unfolding program
reached =
    added_step g₂ g₃ "w" "c" "writer" none 2 false
      (added_step g₁ g₂ "w" "b" "searcher" (some "a") 1 false
        (added_step init g₁ "w" "a" "planner" none 0 false start refl) refl)
      refl

predicts : predict_next_steps g₃ "w" "a" 3 ≡ ok ("b" ∷ [])
unfolding program
predicts = refl

distance : steps_to_execution g₃ "writer" "a" ≡ ok (some 2)
unfolding program
distance = refl

Reaches-IsValid_example : IsValid g₃
Reaches-IsValid_example = Reaches-IsValid reached

abbrev pub node_a : AgentStepNode
node_a = record {
  workflow_id = "w";
  step_id = "a";
  agent_id = "planner";
  parent_step_id = none;
  completed = false;
  child_step_ids = "b" ∷ [];
  turn_id = 0;
}

pub found_a : get g₃.steps "a" ≡ some node_a
unfolding program
found_a = refl

predict_next_steps-Pending_example :
    (ids : List String) × (predict_next_steps g₃ "w" "a" 3 ≡ ok ids)
    × (length ids ≤ 3)
    × All (Pending g₃ "w") ids
predict_next_steps-Pending_example =
    predict_next_steps-Pending g₃ "w" "a" 3 (Reaches-IsValid reached) (node_a, found_a, refl)

steps_to_execution-FirstRun_example :
    (later : List String) × (d : Option _) × Follows "a" (group g₃.workflow_steps "w") later
    × (steps_to_execution g₃ "writer" "a" ≡ ok d)
    × FirstRun g₃ "writer" 1 (keep (is_pending g₃) later) d
steps_to_execution-FirstRun_example =
    steps_to_execution-FirstRun g₃ "writer" "a" node_a (Reaches-IsValid reached) found_a

add_step_cases_example :
    ((get g₁.steps "b" ≡ none)
      × ParentFits g₁ "w" (some "a")
      × (g' : AgentStepGraph) × (add_step g₁ "w" "b" "searcher" (some "a") 1 ≡ ok g')
      × IsAdded g₁ "w" "b" "searcher" (some "a") 1 g')
    ⊎ (¬ ((get g₁.steps "b" ≡ none) × ParentFits g₁ "w" (some "a"))
        × (add_step g₁ "w" "b" "searcher" (some "a") 1 ≡ raise value_error))
add_step_cases_example = add_step_cases g₁ "w" "b" "searcher" (some "a") 1
