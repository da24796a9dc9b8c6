-- ===== src/Metadata/PrefixTree/Paths.antt =====
-- The abstract view of a trie: which ids stand at which path of tokens.
use intellil.Common.{
  ℕ, nat_key, string_key, String, none, some, List, [], ◌∷◌, ◌≟◌, ite, ◌≡◌, ◌≢◌, refl, arith, In,
  inl, inr, Option-cases,
}
use intellil.Common.Sets.{add, discard}
use intellil.Metadata.PrefixTree.{
  Node, Children, node, nil, cons, children, object_ids, new_node, child, set_child, delete_child,
  child_or_new, insert_at, prune, remove_at,
}

child-set_child :
    (c : Children) (t u : ℕ) (n : Node)
    → child (set_child c t n) u ≡ ite (t ≟ u) (some n) (child c u)
unfolding child set_child
child-set_child nil t u n = refl
child-set_child (cons v m c) t u n = ground (arith, child-set_child c t u n)

child-delete_child :
    (c : Children) (t u : ℕ) → child (delete_child c t) u ≡ ite (t ≟ u) none (child c u)
unfolding child delete_child
child-delete_child nil t u = ground arith
child-delete_child (cons v m c) t u = ground (arith, child-delete_child c t u)

-- The ids at the end of a path.
unfoldable pub ids_at : Node → List ℕ → List String
ids_at n [] = object_ids n
ids_at n (t ∷ ts) = elim (child (children n) t) [ none ↦ [] | some m ↦ ids_at m ts ]

pub ids_at-new_node : (q : List ℕ) → ids_at new_node q ≡ []
unfolding ids_at child
ids_at-new_node [] = refl
ids_at-new_node (t ∷ ts) = refl

ids_at-child_or_new :
    (c : Children) (t : ℕ) (ids : List String) (ts : List ℕ)
    → ids_at (child_or_new (child c t)) ts ≡ ids_at (node c ids) (t ∷ ts)
unfolding ids_at
ids_at-child_or_new c t ids ts = ground (arith, ids_at-new_node ts)

-- `insert` adds the id at its path.
pub ids_at-insert_at_self :
    (ts : List ℕ) (x : String) (n : Node) → ids_at (insert_at ts x n) ts ≡ add (ids_at n ts) x
unfolding ids_at insert_at
ids_at-insert_at_self [] x (node c ids) = refl
ids_at-insert_at_self (t ∷ ts) x (node c ids) =
    let m = child_or_new (child c t) in
    ground (
      arith,
      child-set_child c t t (insert_at ts x m),
      ids_at-insert_at_self ts x m,
      ids_at-child_or_new c t ids ts,
    )

-- It changes no other path.
pub ids_at-insert_at_ne :
    (ts q : List ℕ) (x : String) (n : Node) → ts ≢ q → ids_at (insert_at ts x n) q ≡ ids_at n q
unfolding ids_at insert_at
ids_at-insert_at_ne [] [] x (node c ids) h = absurd (h refl)
ids_at-insert_at_ne [] (u ∷ q) x (node c ids) h = refl
ids_at-insert_at_ne (t ∷ ts) [] x (node c ids) h = refl
ids_at-insert_at_ne (t ∷ ts) (u ∷ q) x (node c ids) h =
    let m = child_or_new (child c t) in
    elim (t ≟ u) [
      | yes e ↦ ground (
        arith,
        child-set_child c t u (insert_at ts x m),
        ids_at-insert_at_ne ts q x m (λ r. h (cc (e, r))),
        ids_at-child_or_new c t ids q,
      )
      | no n ↦ ground (arith, child-set_child c t u (insert_at ts x m))
    ]

ids_at-prune :
    (t : ℕ) (n m : Node) (u : ℕ) (q : List ℕ)
    → ids_at (prune t n m) (u ∷ q) ≡ ite (t ≟ u) (ids_at m q) (ids_at n (u ∷ q))
unfolding ids_at
ids_at-prune t (node c ids) (node nil []) u q =
    ground (arith, child-delete_child c t u, ids_at-new_node q)
ids_at-prune t (node c ids) (node nil (x ∷ xs)) u q =
    ground (arith, child-set_child c t u (node nil (x ∷ xs)))
ids_at-prune t (node c ids) (node (cons v m d) xs) u q =
    ground (arith, child-set_child c t u (node (cons v m d) xs))

object_ids-prune : (t : ℕ) (n m : Node) → object_ids (prune t n m) ≡ object_ids n
object_ids-prune t (node c ids) (node nil []) = refl
object_ids-prune t (node c ids) (node nil (x ∷ xs)) = refl
object_ids-prune t (node c ids) (node (cons u m d) xs) = refl

remove_at_inv :
    (t : ℕ) (ts : List ℕ) (x : String) (n : Node) {n' : Node}
    → remove_at (t ∷ ts) x n ≡ some n'
    → (m m' : Node) × (child (children n) t ≡ some m)
      × (remove_at ts x m ≡ some m')
      × (n' ≡ prune t n m')
unfolding remove_at
remove_at_inv t ts x n h = elim (Option-cases (child (children n) t)) [
  | inl e ↦ cc (rw (e, remove_at) at h)
  | inr (m, e) ↦ elim (Option-cases (remove_at ts x m)) [
    | inl f ↦ cc (rw (e, remove_at, f) at h)
    | inr (m', f) ↦ (m, m', e, f, ground arith)
  ]
]

-- Where the path is there, `remove` takes the id off its end and leaves every other path alone,
-- whatever nodes it prunes.
pub ids_at-remove_at_self :
    (ts : List ℕ) (x : String) (n : Node) {n' : Node}
    → remove_at ts x n ≡ some n'
    → ids_at n' ts ≡ discard (ids_at n ts) x
unfolding ids_at remove_at
ids_at-remove_at_self [] x (node c ids) h = ground arith
ids_at-remove_at_self (t ∷ ts) x n h =
    let (m, m', found, rest, e) = remove_at_inv t ts x n h in
    ground (arith, ids_at-prune t n m' t ts, ids_at-remove_at_self ts x m rest)

pub ids_at-remove_at_ne :
    (ts q : List ℕ) (x : String) (n : Node) {n' : Node}
    → ts ≢ q
    → remove_at ts x n ≡ some n'
    → ids_at n' q ≡ ids_at n q
unfolding ids_at remove_at
ids_at-remove_at_ne [] [] x n r h = absurd (r refl)
ids_at-remove_at_ne [] (u ∷ q) x (node c ids) r h = ground arith
ids_at-remove_at_ne (t ∷ ts) [] x n r h =
    let (m, m', found, rest, e) = remove_at_inv t ts x n h in
    ground (arith, object_ids-prune t n m')
ids_at-remove_at_ne (t ∷ ts) (u ∷ q) x n r h =
    let (m, m', found, rest, e) = remove_at_inv t ts x n h in
    elim (t ≟ u) [
      | yes p ↦
          ground
            (arith, ids_at-prune t n m' u q, ids_at-remove_at_ne ts q x m (λ s. r (cc (p, s))) rest)
      | no p ↦ ground (arith, ids_at-prune t n m' u q)
    ]

-- It finds the path of every id that stands at it.
pub remove_at_total :
    (ts : List ℕ) (x : String) (n : Node)
    → In x (ids_at n ts)
    → (n' : Node) × (remove_at ts x n ≡ some n')
unfolding ids_at remove_at
remove_at_total [] x (node c ids) i = (node c (discard ids x), refl)
remove_at_total (t ∷ ts) x n i = elim (Option-cases (child (children n) t)) [
  | inl e ↦ absurd (rw (e, ids_at) at i)
  | inr (m, e) ↦
      let (m', f) = remove_at_total ts x m (rw (e, ids_at) at i) in
      (prune t n m', rw (e, remove_at, f))
]
