-- ===== src/Metadata/PrefixTree/Index.antt =====
-- The trie and `_object_to_tokens` together: what `insert` and `remove` do to the index.
use intellil.Common.{
  ℕ, ◌<◌, nat_key, string_key, String, Bool, true, false, none, some, List, [], ◌∷◌, ◌≡◌, ◌≢◌, ◌⊎◌,
  inl, inr, refl, sym, ap, ◌∙◌, arith, In, Option-cases, length, take, ◌≟◌, is_some, ◌++◌,
  length-append, take-append,
}
use mathlib.Core.Path.{subst}
use mathlib.Core.List.{List-discrete}
use native.Mathlib.Decide.{ℕ_discrete}
use intellil.Common.Sets.{In-add, add-In, In-discard, discard-In}
use intellil.Common.Dict.{
  get, put, pop, has, get-put, get-pop, get-put_self, get-put_ne, get-pop_self, get-pop_ne,
}
use intellil.Metadata.PrefixTree.{
  PrefixTree, Node, init, insert, remove, search, insert_at, remove_at,
}
use intellil.Metadata.PrefixTree.Paths.{
  ids_at, ids_at-insert_at_self, ids_at-insert_at_ne, ids_at-remove_at_self, ids_at-remove_at_ne,
  remove_at_total, ids_at-new_node,
}
use intellil.Metadata.PrefixTree.Search.{match_of, search_iff}

-- Each id stands in the trie at the tokens that are filed for it, and nowhere else.
pub record IsIndexed (t : PrefixTree) : Type 0 where
  pub tracked :
      (x : String) (ts : List ℕ) → get t.object_to_tokens x ≡ some ts → In x (ids_at t.root ts)
  pub found :
      (x : String) (ts : List ℕ) → In x (ids_at t.root ts) → get t.object_to_tokens x ≡ some ts

tokens_dec : Discrete (List ℕ)
tokens_dec = List-discrete ℕ_discrete

pub init-IsIndexed : IsIndexed init
unfolding get
init-IsIndexed = record {
  tracked = λ x ts h. cc;
  found = λ x ts i. absurd (subst (In x) (ids_at-new_node ts) i);
}

module _ (ts : List ℕ) (x : String) (n : Node) (us : List ℕ) (y : String) where
  -- What stands at a path after an insertion: what stood there, and the new id at its own path.
  insert_forth : In y (ids_at n us) ⊎ ((y ≡ x) × (ts ≡ us)) → In y (ids_at (insert_at ts x n) us)
  insert_forth i = elim (tokens_dec ts us) [
    | yes e ↦
        subst (λ q. In y (ids_at (insert_at ts x n) q)) e
          (subst (In y) (sym (ids_at-insert_at_self ts x n)) (
            add-In (ids_at n ts) x y (elim i [
              | inl old ↦ inl (subst (λ q. In y (ids_at n q)) (sym e) old)
              | inr (same, _) ↦ inr same
            ])))
    | no q ↦
        subst (In y) (sym (ids_at-insert_at_ne ts us x n q))
          (elim i [ inl old ↦ old | inr (_, e) ↦ absurd (q e) ])
  ]

  insert_back : In y (ids_at (insert_at ts x n) us) → In y (ids_at n us) ⊎ ((y ≡ x) × (ts ≡ us))
  insert_back i = elim (tokens_dec ts us) [
    | yes e ↦
        elim (In-add (ids_at n ts) x y (
          subst (In y) (ids_at-insert_at_self ts x n)
            (subst (λ q. In y (ids_at (insert_at ts x n) q)) (sym e) i))) [
              | inl old ↦ inl (subst (λ q. In y (ids_at n q)) e old)
              | inr same ↦ inr (same, e)
            ]
    | no q ↦ inl (subst (In y) (ids_at-insert_at_ne ts us x n q) i)
  ]

-- The empty tree is indexed, and `insert` keeps the index, where the id is new or comes with the
-- tokens that it had.
pub insert-IsIndexed :
    (t : PrefixTree) (ts : List ℕ) (x : String)
    → IsIndexed t
    → (get t.object_to_tokens x ≡ none) ⊎ (get t.object_to_tokens x ≡ some ts)
    → IsIndexed (insert t ts x)
unfolding insert
insert-IsIndexed t ts x v fits = record {
  tracked = λ y us h. insert_forth ts x t.root us y (elim (x ≟ y) [
    | yes e ↦ inr (sym e, ground (arith, get-put t.object_to_tokens x y ts))
    | no q ↦ inl (v.tracked y us (sym (get-put_ne t.object_to_tokens x y ts q) ∙ h))
  ]);
  found = λ y us i. elim (insert_back ts x t.root us y i) [
    | inl old ↦
        let known = v.found y us old in
        elim (x ≟ y) [
          | yes e ↦
              let here : get t.object_to_tokens x ≡ some us =
                ap (get t.object_to_tokens) e ∙ known in
              let same : ts ≡ us = elim fits [ inl f ↦ cc (f, here) | inr f ↦ cc (f, here) ] in
              ap (get (put t.object_to_tokens x ts)) (sym e)
              ∙ get-put_self t.object_to_tokens x ts
              ∙ ap some same
          | no q ↦ get-put_ne t.object_to_tokens x y ts q ∙ known
        ]
    | inr (e, same) ↦
        ap (get (put t.object_to_tokens x ts)) e
        ∙ get-put_self t.object_to_tokens x ts
        ∙ ap some same
  ];
}

remove_inv :
    (t : PrefixTree) (x : String) (ts : List ℕ)
    → IsIndexed t
    → get t.object_to_tokens x ≡ some ts
    → (n : Node) × (remove_at ts x t.root ≡ some n)
      × (remove t x ≡ (record { root = n; object_to_tokens = pop t.object_to_tokens x }, true))
unfolding remove
remove_inv t x ts v h =
    let (n, found) = remove_at_total ts x t.root (v.tracked x ts h) in (n, found, ground arith)

removed-IsIndexed :
    (t : PrefixTree) (x : String) (ts : List ℕ) (n : Node)
    → IsIndexed t
    → get t.object_to_tokens x ≡ some ts
    → remove_at ts x t.root ≡ some n
    → IsIndexed (record { root = n; object_to_tokens = pop t.object_to_tokens x })
removed-IsIndexed t x ts n v h e = record {
  tracked = λ y us k. elim (x ≟ y) [
    | yes p ↦ ground (arith, get-pop t.object_to_tokens x y)
    | no p ↦
        let old = v.tracked y us (sym (get-pop_ne t.object_to_tokens x y p) ∙ k) in
        elim (tokens_dec ts us) [
          | yes q ↦
              subst (λ r. In y (ids_at n r)) q
                (subst (In y) (sym (ids_at-remove_at_self ts x t.root e)) (
                  discard-In (ids_at t.root ts) x y
                    (subst (λ r. In y (ids_at t.root r)) (sym q) old) (λ r. p (sym r))))
          | no q ↦ subst (In y) (sym (ids_at-remove_at_ne ts us x t.root q e)) old
        ]
  ];
  found = λ y us i. elim (tokens_dec ts us) [
    | yes q ↦
        let (old, other) = In-discard (ids_at t.root ts) x y (
          subst (In y) (ids_at-remove_at_self ts x t.root e)
            (subst (λ r. In y (ids_at n r)) (sym q) i)) in
        get-pop_ne t.object_to_tokens x y (λ r. other (sym r)) ∙ v.found y ts old ∙ ap some q
    | no q ↦
        let known = v.found y us (subst (In y) (ids_at-remove_at_ne ts us x t.root q e) i) in
        let other : x ≢ y = λ p. q (cc (h, known, ap (get t.object_to_tokens) p)) in
        get-pop_ne t.object_to_tokens x y other ∙ known
  ];
}

no_match :
    (t : PrefixTree) (x : String)
    → IsIndexed t
    → get t.object_to_tokens x ≡ none
    → (tokens : List ℕ) (k : ℕ) → ¬ In (match_of x k) (search t tokens)
no_match t x v h tokens k i =
    let (pos, le, at) = (search_iff t tokens x k).0 i in
    let known = v.found x (take k tokens) at in cc (h, known)

-- A tree and an answer that a removal of `x` from `t` may give: an indexed tree in which no search
-- matches `x` and the other ids keep their tokens, and whether `x` was there.
abbrev pub Removes : PrefixTree → String → PrefixTree × Bool → Type 0
Removes t x (t', there) =
    IsIndexed t'
    × (there ≡ has t.object_to_tokens x)
    × ((tokens : List ℕ) (k : ℕ) → ¬ In (match_of x k) (search t' tokens))
    × ((y : String) → x ≢ y → get t'.object_to_tokens y ≡ get t.object_to_tokens y)

-- On an indexed tree `remove` keeps the index, answers whether the id was there, leaves no match of
-- the id to any search, and keeps the tokens of the other ids.
pub remove-Removes : (t : PrefixTree) (x : String) → IsIndexed t → Removes t x (remove t x)
remove-Removes t x v = elim (Option-cases (get t.object_to_tokens x)) [
  | inl absent ↦
      subst (Removes t x) (sym (unchanged absent))
        (v, ap is_some (sym absent), no_match t x v absent, λ y n. refl)
  | inr (ts, h) ↦
      let (n, found, e) = remove_inv t x ts v h in
      let v' = removed-IsIndexed t x ts n v h found in
      subst (Removes t x) (sym e) (
        v',
        ap is_some (sym h),
        no_match _ x v' (get-pop_self t.object_to_tokens x),
        λ y n. get-pop_ne t.object_to_tokens x y n,
      )
]
  where
    unchanged : get t.object_to_tokens x ≡ none → remove t x ≡ (t, false)
    unchanged absent = unfold remove in ground arith

-- Where an id that is filed under the tokens `us` is inserted again with other tokens, removing it
-- afterwards answers true and leaves it matched by every search that begins with `us`.
pub remove_stale :
    (t : PrefixTree) (x : String) (us ts rest : List ℕ)
    → IsIndexed t
    → get t.object_to_tokens x ≡ some us
    → us ≢ ts
    → us ≢ []
    → ((remove (insert t ts x) x).1 ≡ true)
      × In (match_of x (length us)) (search (remove (insert t ts x) x).0 (us ++ rest))
remove_stale t x us ts rest v h other nonempty =
    let old = insert_forth ts x t.root us x (inl (v.tracked x us h)) in
    let new = insert_forth ts x t.root ts x (inr (refl, refl)) in
    let (n, found) = remove_at_total ts x (insert_at ts x t.root) new in
    let stale =
      subst (In x)
        (sym (ids_at-remove_at_ne ts us x (insert_at ts x t.root) (λ e. other (sym e)) found))
        old in
    let e = removes n found in
    (
      ap (λ (r : PrefixTree × Bool). r.1) e,
      subst (λ (r : PrefixTree × Bool). In (match_of x (length us)) (search r.0 (us ++ rest)))
          (sym e)
          ((search_iff _ (us ++ rest) x (length us)).1 (
            positive us nonempty,
            rw length-append (omega arith),
            subst (λ q. In x (ids_at n q)) (sym (take-append us rest)) stale,
          )),
    )
  where
    removes :
        (n : Node)
        → remove_at ts x (insert_at ts x t.root) ≡ some n
        → remove (insert t ts x) x
          ≡ (record { root = n; object_to_tokens = pop (insert t ts x).object_to_tokens x }, true)
    removes n found = unfold remove insert in ground (arith, get-put_self t.object_to_tokens x ts)

    positive : (q : List ℕ) → q ≢ [] → 0 < length q
    positive [] h = absurd (h refl)
    positive (u ∷ q) h = omega arith
