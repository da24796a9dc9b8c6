-- ===== src/Metadata/StepGraph/Validity/Insertion.antt =====
-- `add_step` keeps a graph valid, and goes through exactly when its guards say so.
use intellil.Common.{
  string_key, Option-cases, inl, inr, ap, ◌∙◌, sym, String, Option, none, some, ◌≡◌, ◌≢◌, ◌⊎◌, refl,
  arith, ◌≟◌, ite, if_pos, if_neg, ◌∷◌, [], ◌++◌, ℕ, In, In-append, In-append_left, In-append_right,
  ok, raise, value_error,
}
use mathlib.Core.Path.{subst}
use intellil.Common.Dict.{get}
use intellil.Common.Groups.{group}
use intellil.Metadata.StepGraph.{
  AgentStepNode, AgentStepGraph, new_node, add_child, insert_step, add_step, check_parent,
}
use intellil.Metadata.StepGraph.Links.{linked, steps-insert_step, order-insert_step}
use intellil.Metadata.StepGraph.Validity.{IsValid}

-- The parent, if one is given, is a step of the workflow `w`.
abbrev pub ParentFits : AgentStepGraph → String → Option String → Type 0
ParentFits g w none = Unit
ParentFits g w (some p) = (n : AgentStepNode) × (get g.steps p ≡ some n) × (n.workflow_id ≡ w)

abbrev pub link : Option String → String → String → AgentStepNode → AgentStepNode
link none s r n = n
link (some p) s r n = ite (p ≟ r) (add_child s n) n

linked-some :
    (parent : Option String) (s r : String) (n : AgentStepNode)
    → linked parent s r (some n) ≡ some (link parent s r n)
linked-some none s r n = refl
linked-some (some p) s r n = refl

linked-none : (parent : Option String) (s r : String) → linked parent s r none ≡ none
linked-none none s r = refl
linked-none (some p) s r = refl

-- The link changes nothing but the children.
link_keeps :
    (parent : Option String) (s r : String) (n : AgentStepNode)
    → ((link parent s r n).workflow_id ≡ n.workflow_id)
      × ((link parent s r n).step_id ≡ n.step_id)
      × ((link parent s r n).parent_step_id ≡ n.parent_step_id)
link_keeps none s r n = (refl, refl, refl)
link_keeps (some p) s r n = ground arith

-- A child after the link is an old one, or the new step under its parent.
link_children :
    (parent : Option String) (s r c : String) (n : AgentStepNode)
    → In c (link parent s r n).child_step_ids
    → In c n.child_step_ids ⊎ ((c ≡ s) × (parent ≡ some r))
link_children none s r c n i = inl i
link_children (some p) s r c n i = elim (p ≟ r) [
  | yes e ↦
      let i' : In c (n.child_step_ids ++ s ∷ []) =
        subst (λ (m : AgentStepNode). In c m.child_step_ids) (if_pos (p ≟ r) e (add_child s n) n)
          i in
      elim (In-append c n.child_step_ids (s ∷ []) i') [
        | inl old ↦ inl old
        | inr (inl new) ↦ inr (new, ap some e)
        | inr (inr h) ↦ absurd h
      ]
  | no q ↦
      inl (
        subst (λ (m : AgentStepNode). In c m.child_step_ids) (if_neg (p ≟ r) q (add_child s n) n) i)
]

link_self :
    (g : AgentStepGraph) (w : String) (parent : Option String) (s : String) (n : AgentStepNode)
    → get g.steps s ≡ none
    → ParentFits g w parent
    → link parent s s n ≡ n
link_self g w none s n fresh fits = refl
link_self g w (some p) s n fresh (m, h, e) =
    if_neg (p ≟ s) (λ q. cc (fresh, h, ap (get g.steps) q)) (add_child s n) n

module _ (g : AgentStepGraph) (w s a : String) (parent : Option String) (turn : ℕ)
    (fresh : get g.steps s ≡ none) (fits : ParentFits g w parent) where
  kept :
      (r : String) (n : AgentStepNode)
      → get g.steps r ≡ some n
      → get (insert_step g w s a parent turn).steps r ≡ some (link parent s r n)
  kept r n h =
      let other : s ≢ r = λ e. cc (fresh, h, ap (get g.steps) e) in
      steps-insert_step g w s a parent turn r
      ∙ ap (linked parent s r) (if_neg (s ≟ r) other (some (new_node w s a parent turn)) _ ∙ h)
      ∙ linked-some parent s r n

  added : get (insert_step g w s a parent turn).steps s ≡ some (new_node w s a parent turn)
  added =
      let node = new_node w s a parent turn in
      steps-insert_step g w s a parent turn s
      ∙ ap (linked parent s s) (if_pos (s ≟ s) refl (some node) _)
      ∙ linked-some parent s s node
      ∙ ap some (link_self g w parent s node fresh fits)

  origin :
      (r : String) (n' : AgentStepNode)
      → get (insert_step g w s a parent turn).steps r ≡ some n'
      → ((r ≡ s) × (n' ≡ new_node w s a parent turn))
        ⊎ ((n : AgentStepNode) × (get g.steps r ≡ some n) × (n' ≡ link parent s r n))
  origin r n' h = elim (s ≟ r) [
    | yes e ↦ inl (sym e, cc (h, added, ap (get (insert_step g w s a parent turn).steps) e))
    | no q ↦ elim (Option-cases (get g.steps r)) [
      | inl gone ↦
          let found =
            steps-insert_step g w s a parent turn r
            ∙ ap (linked parent s r)
                (if_neg (s ≟ r) q (some (new_node w s a parent turn)) (get g.steps r) ∙ gone)
            ∙ linked-none parent s r in
          cc (found, h)
      | inr (n, old) ↦ inr (n, old, cc (kept r n old, h))
    ]
  ]

  parent_workflow :
      (r : String) (n : AgentStepNode)
      → parent ≡ some r
      → get g.steps r ≡ some n
      → w ≡ n.workflow_id
  parent_workflow r n p h =
      let (m, found, e) = subst (ParentFits g w) p fits in
      let same : m ≡ n = cc (found, h) in sym e ∙ ap (λ (k : AgentStepNode). k.workflow_id) same

  -- The new step is listed once more, in its own workflow.
  order_back :
      (v r : String)
      → In r (group (insert_step g w s a parent turn).workflow_steps v)
      → In r (group g.workflow_steps v) ⊎ ((r ≡ s) × (w ≡ v))
  order_back v r i = elim (w ≟ v) [
    | yes e ↦
        elim (In-append r (group g.workflow_steps v) (s ∷ [])
          (subst (In r) (order-insert_step g w s a parent turn v ∙ if_pos (w ≟ v) e _ _) i)) [
            | inl old ↦ inl old
            | inr (inl new) ↦ inr (new, e)
            | inr (inr h) ↦ absurd h
          ]
    | no q ↦ inl (subst (In r) (order-insert_step g w s a parent turn v ∙ if_neg (w ≟ v) q _ _) i)
  ]

  order_forth :
      (v r : String)
      → In r (group g.workflow_steps v) ⊎ ((r ≡ s) × (w ≡ v))
      → In r (group (insert_step g w s a parent turn).workflow_steps v)
  order_forth v r i = elim (w ≟ v) [
    | yes e ↦
        subst (In r) (sym (order-insert_step g w s a parent turn v ∙ if_pos (w ≟ v) e _ _))
          (elim i [
            | inl old ↦ In-append_left r (group g.workflow_steps v) (s ∷ []) old
            | inr (new, _) ↦ In-append_right r (group g.workflow_steps v) (s ∷ []) (inl new)
          ])
    | no q ↦
        subst (In r) (sym (order-insert_step g w s a parent turn v ∙ if_neg (w ≟ v) q _ _))
          (elim i [ inl old ↦ old | inr (_, e) ↦ absurd (q e) ])
  ]

  insert_step-IsValid : IsValid g → IsValid (insert_step g w s a parent turn)
  insert_step-IsValid v = record {
    named = λ r n' h. elim (origin r n' h) [
      | inl (e, new) ↦ cc (e, ap (λ (m : AgentStepNode). m.step_id) new)
      | inr (n, old, l) ↦
          ap (λ (m : AgentStepNode). m.step_id) l ∙ (link_keeps parent s r n).1 ∙ v.named r n old
    ];
    listed = λ u r i. elim (order_back u r i) [
      | inl old ↦
          let (n, h, e) = v.listed u r old in
          (link parent s r n, kept r n h, (link_keeps parent s r n).0 ∙ e)
      | inr (e, f) ↦ (
        new_node w s a parent turn,
        ap (get (insert_step g w s a parent turn).steps) e ∙ added,
        f,
      )
    ];
    indexed = λ r n' h. elim (origin r n' h) [
      | inl (e, new) ↦
          order_forth n'.workflow_id r
            (inr (e, sym (ap (λ (m : AgentStepNode). m.workflow_id) new)))
      | inr (n, old, l) ↦
          let same = ap (λ (m : AgentStepNode). m.workflow_id) l ∙ (link_keeps parent s r n).0 in
          order_forth n'.workflow_id r
            (inl (subst (λ u. In r (group g.workflow_steps u)) (sym same) (v.indexed r n old)))
    ];
    children = λ r n' c h i. elim (origin r n' h) [
      | inl (_, new) ↦ absurd (subst (λ (m : AgentStepNode). In c m.child_step_ids) new i)
      | inr (n, old, l) ↦
          let same = ap (λ (m : AgentStepNode). m.workflow_id) l ∙ (link_keeps parent s r n).0 in
          elim (link_children parent s r c n
            (subst (λ (m : AgentStepNode). In c m.child_step_ids) l i)) [
              | inl before ↦
                  let (m, hm, wm, pm) = v.children r n c old before in
                  (
                    link parent s c m,
                    kept c m hm,
                    (link_keeps parent s c m).0 ∙ wm ∙ sym same,
                    (link_keeps parent s c m).2 ∙ pm,
                  )
              | inr (e, p) ↦ (
                new_node w s a parent turn,
                ap (get (insert_step g w s a parent turn).steps) e ∙ added,
                parent_workflow r n p old ∙ sym same,
                p,
              )
            ]
    ];
  }

ParentFits-dec :
    (g : AgentStepGraph) (w : String) (parent : Option String) → Dec (ParentFits g w parent)
ParentFits-dec g w none = yes tt
ParentFits-dec g w (some p) = elim (Option-cases (get g.steps p)) [
  | inl gone ↦ no (λ (n, h, e). cc (h, gone))
  | inr (n, there) ↦ elim (n.workflow_id ≟ w) [
    | yes e ↦ yes (n, there, e)
    | no q ↦ no (λ (m, h, e).
        let same : m ≡ n = cc (h, there) in
        q (sym (ap (λ (k : AgentStepNode). k.workflow_id) same) ∙ e))
  ]
]

ParentFits-of_check :
    (g : AgentStepGraph) (w : String) (parent : Option String)
    → check_parent g w parent ≡ ok tt
    → ParentFits g w parent
unfolding check_parent
ParentFits-of_check g w none h = tt
ParentFits-of_check g w (some p) h = ground arith

add_step_inv :
    (g : AgentStepGraph) (w s a : String) (parent : Option String) (turn : ℕ) {g' : AgentStepGraph}
    → add_step g w s a parent turn ≡ ok g'
    → (get g.steps s ≡ none)
      × (check_parent g w parent ≡ ok tt)
      × (g' ≡ insert_step g w s a parent turn)
unfolding add_step
add_step_inv g w s a parent turn {g'} h = elim (Option-cases (get g.steps s)) [
  | inl fresh ↦ (fresh, ground arith, ground arith)
  | inr (n, old) ↦ ground arith
]

-- A graph that `add_step` returns is valid if the graph before was.
pub add_step-IsValid :
    (g : AgentStepGraph) (w s a : String) (parent : Option String) (turn : ℕ) {g' : AgentStepGraph}
    → IsValid g
    → add_step g w s a parent turn ≡ ok g'
    → IsValid g'
add_step-IsValid g w s a parent turn v h =
    let (fresh, checked, e) = add_step_inv g w s a parent turn h in
    subst IsValid (sym e)
      (insert_step-IsValid g w s a parent turn fresh (ParentFits-of_check g w parent checked) v)

-- What `add_step` writes: the new step, one more child of its parent and the same of the other
-- steps, and the step at the end of the order of its workflow, and of no other.
pub record IsAdded (g : AgentStepGraph) (w s a : String) (parent : Option String) (turn : ℕ)
    (g' : AgentStepGraph) : Type 0 where
  pub new : get g'.steps s ≡ some (new_node w s a parent turn)
  pub others :
      (r : String) (n : AgentStepNode)
      → get g.steps r ≡ some n
      → get g'.steps r ≡ some (link parent s r n)
  pub ordered :
      (v : String)
      → group g'.workflow_steps v
        ≡ ite (w ≟ v) (group g.workflow_steps v ++ s ∷ []) (group g.workflow_steps v)

refused :
    (g : AgentStepGraph) (w s a : String) (parent : Option String) (turn : ℕ)
    → ¬ ((get g.steps s ≡ none) × ParentFits g w parent)
    → add_step g w s a parent turn ≡ raise value_error
unfolding add_step check_parent
refused g w s a none turn unfit = ground arith
refused g w s a (some p) turn unfit = elim (Option-cases (get g.steps s)) [
  | inr (m, known) ↦ ground arith
  | inl fresh ↦ elim (Option-cases (get g.steps p)) [
    | inl gone ↦ ground arith
    | inr (n, there) ↦ elim (n.workflow_id ≟ w) [
      | yes e ↦ absurd (unfit (fresh, (n, there, e)))
      | no q ↦ ground arith
    ]
  ]
]

passes :
    (g : AgentStepGraph) (w s a : String) (parent : Option String) (turn : ℕ)
    → get g.steps s ≡ none
    → ParentFits g w parent
    → add_step g w s a parent turn ≡ ok (insert_step g w s a parent turn)
unfolding add_step check_parent
passes g w s a none turn fresh fits = ground arith
passes g w s a (some p) turn fresh fits = ground arith

-- On any graph, `add_step` adds the step where it is new and its parent, if one is given, is a known
-- step of the same workflow, and raises a ValueError where it is known or its parent does not fit.
pub add_step_cases :
    (g : AgentStepGraph) (w s a : String) (parent : Option String) (turn : ℕ)
    → ((get g.steps s ≡ none)
        × ParentFits g w parent
        × (g' : AgentStepGraph) × (add_step g w s a parent turn ≡ ok g')
        × IsAdded g w s a parent turn g')
      ⊎ (¬ ((get g.steps s ≡ none) × ParentFits g w parent)
          × (add_step g w s a parent turn ≡ raise value_error))
add_step_cases g w s a parent turn = elim (Option-cases (get g.steps s)) [
  | inr (n, known) ↦
      let unfit : ¬ ((get g.steps s ≡ none) × ParentFits g w parent) = λ h. cc (h.0, known) in
      inr (unfit, refused g w s a parent turn unfit)
  | inl fresh ↦ elim (ParentFits-dec g w parent) [
    | no n ↦
        let unfit : ¬ ((get g.steps s ≡ none) × ParentFits g w parent) = λ h. n h.1 in
        inr (unfit, refused g w s a parent turn unfit)
    | yes fits ↦ inl (
      fresh,
      fits,
      insert_step g w s a parent turn,
      passes g w s a parent turn fresh fits,
      record {
        new = added g w s a parent turn fresh fits;
        others = kept g w s a parent turn fresh fits;
        ordered = order-insert_step g w s a parent turn;
      },
    )
  ]
]
