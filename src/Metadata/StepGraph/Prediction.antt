-- ===== src/Metadata/StepGraph/Prediction.antt =====
-- What a valid graph predicts: `predict_next_steps` and `steps_to_execution` never raise on a known
-- step, and name pending steps of its workflow.
use intellil.Common.{
  string_key, Bool-cases, inl, inr, ap, ◌∙◌, sym, String, Option, none, some, ◌≡◌, refl, arith, ◌≟◌,
  List, ◌∷◌, [], ℕ, zero, suc, ◌≤◌, ◌+◌, false, In, take, length, length-take, All, All-take,
  All-map, ok, Bool, true, not, keep, ◌++◌, In-append_right, get_elem?, ◌>>=◌,
}
use mathlib.Core.Path.{subst}
use intellil.Common.Dict.{get}
use intellil.Common.Groups.{group}
use intellil.Metadata.StepGraph.{
  AgentStepNode, AgentStepGraph, uncompleted, after, future_uncompleted_steps, predict_next_steps,
  or_future, first_of_agent, steps_to_execution,
}
use intellil.Metadata.StepGraph.Validity.{IsValid}

-- The step is known and has not been completed.
abbrev pub Pending : AgentStepGraph → String → String → Type 0
Pending g w s =
    (n : AgentStepNode) × (get g.steps s ≡ some n) × (n.workflow_id ≡ w) × (n.completed ≡ false)

-- The step is known, and belongs to the workflow.
abbrev Known : AgentStepGraph → String → String → Type 0
Known g w s = (n : AgentStepNode) × (get g.steps s ≡ some n) × (n.workflow_id ≡ w)

module _ (g : AgentStepGraph) (w : String) where
  -- Of known steps `uncompleted` keeps the pending ones, and does not raise.
  uncompleted-Pending :
      (ids : List String)
      → ((s : String) → In s ids → Known g w s)
      → (r : List String) × (uncompleted g ids ≡ ok r) × All (λ s. Pending g w s × In s ids) r
  unfolding uncompleted
  uncompleted-Pending [] known = ([], refl, tt)
  uncompleted-Pending (s ∷ ids) known =
      let (n, found, e) = known s (inl refl) in
      let (r, total, all) = uncompleted-Pending ids (λ t i. known t (inr i)) in
      let all' =
        All-map (λ t. Pending g w t × In t ids) (λ t. Pending g w t × In t (s ∷ ids))
          (λ t q. (q.0, inr q.1)) r all in
      elim (Bool-cases n.completed) [
        | inl d ↦ (r, ground arith, all')
        | inr d ↦ (s ∷ r, ground arith, (((n, found, e, d), inl refl), all'))
      ]

  after_total :
      (s : String) (ids : List String)
      → In s ids
      → (r : List String) × (after s ids ≡ ok r) × ((t : String) → In t r → In t ids)
  unfolding after
  after_total s [] i = absurd i
  after_total s (t ∷ ids) i = elim (t ≟ s) [
    | yes e ↦ (ids, ground arith, λ u j. inr j)
    | no q ↦ elim i [
      | inl e ↦ absurd (q (sym e))
      | inr j ↦ let (r, total, sub) = after_total s ids j in (r, ground arith, λ u k. inr (sub u k))
    ]
  ]

  future_total :
      (s : String)
      → IsValid g
      → In s (group g.workflow_steps w)
      → (r : List String) × (future_uncompleted_steps g w s ≡ ok r) × All (Pending g w) r
  unfolding future_uncompleted_steps
  future_total s v i =
      let (later, found, sub) = after_total s (group g.workflow_steps w) i in
      let (r, total, all) = uncompleted-Pending later (λ t j. v.listed w t (sub t j)) in
      (r, rw (found, ◌>>=◌) total, All-map _ _ (λ t (q : Pending g w t × In t later). q.0) r all)

  candidates_total :
      (s : String) (children : List String)
      → IsValid g
      → In s (group g.workflow_steps w)
      → All (Pending g w) children
      → (r : List String) × (or_future g w s children ≡ ok r) × All (Pending g w) r
  candidates_total s [] v i all = future_total s v i
  candidates_total s (c ∷ cs) v i all = (c ∷ cs, refl, all)

-- In a valid graph, asked about a step of the workflow, `predict_next_steps` returns at most `k`
-- ids, and each is a step of that workflow that has not been completed.
pub predict_next_steps-Pending :
    (g : AgentStepGraph) (w s : String) (k : ℕ)
    → IsValid g
    → Known g w s
    → (ids : List String) × (predict_next_steps g w s k ≡ ok ids)
      × (length ids ≤ k)
      × All (Pending g w) ids
unfolding predict_next_steps
predict_next_steps-Pending g w s zero v known = ([], refl, omega arith, tt)
predict_next_steps-Pending g w s (suc k) v (n, found, e) =
    let (children, total, all) =
      uncompleted-Pending g w n.child_step_ids
        (λ c i. let (m, hm, wm, pm) = v.children s n c found i in (m, hm, wm ∙ e)) in
    let pending = All-map _ _ (λ t (q : Pending g w t × In t n.child_step_ids). q.0) children all in
    let here : In s (group g.workflow_steps w) =
      subst (λ u. In s (group g.workflow_steps u)) e (v.indexed s n found) in
    let (r, chosen, good) = candidates_total g w s children v here pending in
    (
      take (suc k) r,
      predicted children r found e total chosen,
      rw length-take (omega arith),
      All-take (Pending g w) (suc k) r good,
    )
  where
    predicted :
        (children r : List String)
        → get g.steps s ≡ some n
        → n.workflow_id ≡ w
        → uncompleted g n.child_step_ids ≡ ok children
        → or_future g w s children ≡ ok r
        → predict_next_steps g w s (suc k) ≡ ok (take (suc k) r)
    predicted children r found e total chosen = ground arith

-- Whether the agent runs the step.
abbrev Runs : AgentStepGraph → String → String → Type 0
Runs g a s = (n : AgentStepNode) × (get g.steps s ≡ some n) × (n.agent_id ≡ a)

-- The answer `none` says that the agent runs none of the steps, and `some d` that the step number `d`,
-- counted from `from`, is the first that it runs.
abbrev pub FirstRun : AgentStepGraph → String → ℕ → List String → Option ℕ → Type 0
FirstRun g a from ids none = All (λ s. ¬ Runs g a s) ids
FirstRun g a from ids (some d) =
    (i : ℕ) × (s : String) × (d ≡ from + i)
    × (get_elem? ids i ≡ some s)
    × Runs g a s
    × All (λ t. ¬ Runs g a t) (take i ids)

first_of_agent-FirstRun :
    (g : AgentStepGraph) (w a : String) (from : ℕ) (ids : List String)
    → All (Pending g w) ids
    → (d : Option ℕ) × (first_of_agent g a from ids ≡ ok d) × FirstRun g a from ids d
unfolding first_of_agent
first_of_agent-FirstRun g w a from [] all = (none, refl, tt)
first_of_agent-FirstRun g w a from (s ∷ ids) ((n, found, e, p), all) = elim (n.agent_id ≟ a) [
  | yes q ↦ (some from, ground arith, (0, s, omega arith, refl, (n, found, q), tt))
  | no q ↦
      let not_this : ¬ Runs g a s =
        λ (m, hm, am). q (ap (λ (x : AgentStepNode). x.agent_id) (node_eq m hm) ∙ am) in
      let (d, total, first) = first_of_agent-FirstRun g w a (suc from) ids all in
      (d, ground arith, later d not_this first)
]
  where
    node_eq : (m : AgentStepNode) → get g.steps s ≡ some m → n ≡ m
    node_eq m h = cc

    later :
        (d : Option ℕ)
        → ¬ Runs g a s
        → FirstRun g a (suc from) ids d
        → FirstRun g a from (s ∷ ids) d
    later none nope all = (nope, all)
    later (some d) nope (i, t, e, at, runs, before) =
        (suc i, t, omega arith, at, runs, (nope, before))

-- The step is known, and not completed.
abbrev pub is_pending : AgentStepGraph → String → Bool
is_pending g s = elim (get g.steps s) [ none ↦ false | some n ↦ not n.completed ]

-- `uncompleted` keeps the pending ones.
uncompleted-keep :
    (g : AgentStepGraph) (w : String) (ids : List String)
    → ((s : String) → In s ids → Known g w s)
    → uncompleted g ids ≡ ok (keep (is_pending g) ids)
unfolding uncompleted
uncompleted-keep g w [] known = refl
uncompleted-keep g w (s ∷ ids) known =
    let (n, found, e) = known s (inl refl) in
    let rest = uncompleted-keep g w ids (λ t i. known t (inr i)) in
    elim (Bool-cases n.completed) [
      | inl d ↦
          let over : is_pending g s ≡ false = rw (is_pending, found, d) refl in
          rw (uncompleted, found, rest, d, over) refl
      | inr d ↦
          let open_yet : is_pending g s ≡ true = rw (is_pending, found, d) refl in
          rw (uncompleted, found, rest, d, open_yet) refl
    ]

-- The ids after the first `s`
abbrev pub Follows : String → List String → List String → Type 0
Follows s ids later = (before : List String) × (ids ≡ before ++ s ∷ later) × ¬ In s before

after-Follows :
    (s : String) (ids : List String)
    → In s ids
    → (later : List String) × (after s ids ≡ ok later) × Follows s ids later
unfolding after
after-Follows s [] i = absurd i
after-Follows s (t ∷ ids) i = elim (t ≟ s) [
  | yes e ↦ (ids, ground arith, ([], ap (λ u. u ∷ ids) e, λ j. j))
  | no q ↦ elim i [
    | inl e ↦ absurd (q (sym e))
    | inr j ↦
        let (later, total, (before, split, new)) = after-Follows s ids j in
        (
          later,
          ground arith,
          (t ∷ before, ap (λ l. t ∷ l) split, λ k. elim k [ inl e ↦ q (sym e) | inr m ↦ new m ]),
        )
  ]
]

-- In a valid graph, asked about a known step, `steps_to_execution` returns the distance from 1, among
-- the pending steps that come after the given one in the order of its workflow, to the first that
-- the agent runs, or `none` if it runs none of them.
pub steps_to_execution-FirstRun :
    (g : AgentStepGraph) (a s : String) (n : AgentStepNode)
    → IsValid g
    → get g.steps s ≡ some n
    → (later : List String) × (d : Option ℕ) × Follows s
        (group g.workflow_steps n.workflow_id)
        later
      × (steps_to_execution g a s ≡ ok d)
      × FirstRun g a 1 (keep (is_pending g) later) d
unfolding steps_to_execution future_uncompleted_steps
steps_to_execution-FirstRun g a s n v found =
    let w = n.workflow_id in
    let (later, total, follows) =
      after-Follows s (group g.workflow_steps w) (v.indexed s n found) in
    let known : (t : String) → In t later → Known g w t =
      λ t j. v.listed w t (In-Follows s (group g.workflow_steps w) later t follows j) in
    let kept = uncompleted-keep g w later known in
    let (r, same, all) = uncompleted-Pending g w later known in
    let pending : All (Pending g w) r =
      All-map _ _ (λ t (q : Pending g w t × In t later). q.0) r all in
    let (d, answer, first) = first_of_agent-FirstRun g w a 1 r pending in
    let eq : r ≡ keep (is_pending g) later = cc (same, kept) in
    let known_future : future_uncompleted_steps g w s ≡ ok r =
      rw (future_uncompleted_steps, total) same in
    (later, d, follows, ground arith, subst (λ l. FirstRun g a 1 l d) eq first)
  where
    In-Follows :
        (s : String) (ids later : List String) (t : String)
        → Follows s ids later
        → In t later
        → In t ids
    In-Follows s ids later t (before, split, new) j =
        subst (In t) (sym split) (In-append_right t before (s ∷ later) (inr j))
