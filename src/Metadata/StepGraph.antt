-- ===== src/Metadata/StepGraph.antt =====
-- `AgentStepGraph` of src/l3store/metadata/agent_step_graph.py: the steps of agent workflows, their
-- order and their parent and child links. Every dictionary is in insertion order. A method that
-- raises has changed nothing when it raises, so its result is the error alone.
pub mod Validity
pub mod Links
pub mod Prediction
use intellil.Common.{
  ℕ, zero, suc, string_key, String, Bool, true, false, not, Option, none, some, List, [], ◌∷◌,
  Result, ok, raise, value_error, key_error, ◌>>=◌, ◌>>◌, raise_if, ◌≟◌, holds, if◌then◌else◌,
  or_else, take, length, keep, ◌++◌, ◌-◌, map,
}
use intellil.Common.Dict.{Dict, get, put, has, set_default, values}
use intellil.Common.Groups.{append_to, group}

pub record AgentStepNode : Type 0 where
  pub workflow_id : String
  pub step_id : String
  pub agent_id : String
  pub parent_step_id : Option String
  pub completed : Bool
  pub child_step_ids : List String
  pub turn_id : ℕ

pub record AgentStepGraph : Type 0 where
  pub workflow_steps : Dict String (List String)
  pub steps : Dict String AgentStepNode
  pub agent_steps : Dict String (List String)

abbrev pub init : AgentStepGraph
init = record { workflow_steps = []; steps = []; agent_steps = [] }

unfoldable pub add_workflow : AgentStepGraph → String → AgentStepGraph
add_workflow g w = record g { workflow_steps = set_default g.workflow_steps w [] }

-- The guards of `add_step`, in their order.
unfoldable pub check_parent : AgentStepGraph → String → Option String → Result (Unit {0})
check_parent g w none = ok tt
check_parent g w (some p) = elim (get g.steps p) [
  | none ↦ raise value_error
  | some parent ↦ raise_if (not (holds (parent.workflow_id ≟ w))) value_error
]

abbrev pub add_child : String → AgentStepNode → AgentStepNode
add_child s n = record n { child_step_ids = n.child_step_ids ++ s ∷ [] }

unfoldable pub link_parent :
    Dict String AgentStepNode → Option String → String → Dict String AgentStepNode
link_parent steps none s = steps
link_parent steps (some p) s = elim (get steps p) [
  | none ↦ steps
  | some parent ↦ put steps p (add_child s parent)
]

abbrev pub new_node : String → String → String → Option String → ℕ → AgentStepNode
new_node w s a parent turn = record {
  workflow_id = w;
  step_id = s;
  agent_id = a;
  parent_step_id = parent;
  completed = false;
  child_step_ids = [];
  turn_id = turn;
}

-- What `add_step` writes once its guards have passed.
unfoldable pub insert_step :
    AgentStepGraph → String → String → String → Option String → ℕ → AgentStepGraph
unfolding add_workflow
insert_step g w s a parent turn =
    let g' = add_workflow g w in
    record {
      workflow_steps = append_to g'.workflow_steps w s;
      steps = link_parent (put g'.steps s (new_node w s a parent turn)) parent s;
      agent_steps = append_to g'.agent_steps a s;
    }

unfoldable pub add_step :
    AgentStepGraph → String → String → String → Option String → ℕ → Result AgentStepGraph
add_step g w s a parent turn = do
  raise_if (has g.steps s) value_error
  check_parent g w parent
  ok (insert_step g w s a parent turn)

unfoldable pub require_step : AgentStepGraph → String → Result AgentStepNode
require_step g s = elim (get g.steps s) [ none ↦ raise value_error | some n ↦ ok n ]

abbrev pub completed : AgentStepNode → AgentStepNode
completed n = record n { completed = true }

unfoldable pub mark_step_completed : AgentStepGraph → String → Result AgentStepGraph
unfolding require_step
mark_step_completed g s = do
  n ← require_step g s
  ok (record g { steps = put g.steps s (completed n) })

-- `add_step_object`; a step is over when it has an end time.
unfoldable pub add_step_object :
    AgentStepGraph → String → String → String → Option String → ℕ → Bool → Result AgentStepGraph
add_step_object g w s a parent turn ended = do
  g' ← add_step g w s a parent turn
  if ended then mark_step_completed g' s else ok g'

-- `[s for s in ids if not self._steps[s].completed]`, which raises on an unknown id
unfoldable pub uncompleted : AgentStepGraph → List String → Result (List String)
uncompleted g [] = ok []
uncompleted g (s ∷ ids) =
    let rest = uncompleted g ids in
    elim (get g.steps s) [
      | none ↦ raise key_error
      | some n ↦ do r ← rest; ok (if n.completed then r else s ∷ r)
    ]

-- `ids[ids.index(s) + 1 :]`, which raises if `s` is not there
unfoldable pub after : String → List String → Result (List String)
after s [] = raise value_error
after s (t ∷ ids) = let rest = after s ids in if holds (t ≟ s) then ok ids else rest

unfoldable pub future_uncompleted_steps : AgentStepGraph → String → String → Result (List String)
future_uncompleted_steps g w s = do later ← after s (group g.workflow_steps w); uncompleted g later

abbrev pub or_future : AgentStepGraph → String → String → List String → Result (List String)
or_future g w s [] = future_uncompleted_steps g w s
or_future g w s (c ∷ cs) = ok (c ∷ cs)

-- A `top_k` that is not positive is 0 here.
unfoldable pub predict_next_steps : AgentStepGraph → String → String → ℕ → Result (List String)
unfolding require_step
predict_next_steps g w s zero = ok []
predict_next_steps g w s (suc k) = do
  current ← require_step g s
  raise_if (not (holds (current.workflow_id ≟ w))) value_error
  children ← uncompleted g current.child_step_ids
  candidates ← or_future g w s children
  ok (take (suc k) candidates)

-- The loop of `steps_to_execution`; `distance` is the counter of `enumerate`.
unfoldable pub first_of_agent : AgentStepGraph → String → ℕ → List String → Result (Option ℕ)
first_of_agent g a distance [] = ok none
first_of_agent g a distance (s ∷ ids) =
    let rest = first_of_agent g a (suc distance) ids in
    elim (get g.steps s) [
      | none ↦ raise key_error
      | some n ↦ if holds (n.agent_id ≟ a) then ok (some distance) else rest
    ]

unfoldable pub steps_to_execution : AgentStepGraph → String → String → Result (Option ℕ)
unfolding require_step
steps_to_execution g a s = do
  current ← require_step g s
  future ← future_uncompleted_steps g current.workflow_id s
  first_of_agent g a 1 future

-- `stats`: workflows, steps, agents, completed steps and pending steps
pub record GraphStats : Type 0 where
  pub workflows : ℕ
  pub steps : ℕ
  pub agents : ℕ
  pub completed_steps : ℕ
  pub pending_steps : ℕ

unfoldable pub stats : AgentStepGraph → GraphStats
stats g =
    let done = length (keep (λ (n : AgentStepNode). n.completed) (values g.steps)) in
    record {
      workflows = length g.workflow_steps;
      steps = length g.steps;
      agents = length g.agent_steps;
      completed_steps = done;
      pending_steps = length g.steps - done;
    }
