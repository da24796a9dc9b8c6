-- ===== src/Metadata/PrefixTree.antt =====
-- `PrefixTree` of src/l3store/metadata/prefix_tree.py: a trie over token ids. A node's children are a
-- dictionary, its object ids a set, kept here in the order of insertion (Python leaves the order of
-- a set open, so no theorem is about the order within one node).
pub mod Paths
pub mod Search
pub mod Index
use intellil.Common.{
  ℕ, zero, suc, nat_key, string_key, String, Bool, true, false, Option, none, some, List, [], ◌∷◌,
  ◌++◌, ◌≟◌, ite, map, is_some, length, holds, not, keep,
}
use mathlib.Core.Option
use intellil.Common.Sets.{add, discard}
use intellil.Common.Dict.{Dict, get, put, pop, has}

pub record PrefixMatch : Type 0 where
  pub object_id : String
  pub matched_length : ℕ

mutual
  pub data Node : Type 0 where
    node : Children → List String → Node

  pub data Children : Type 0 where
    nil : Children
    cons : ℕ → Node → Children → Children

abbrev pub children : Node → Children
children (node c ids) = c

abbrev pub object_ids : Node → List String
object_ids (node c ids) = ids

abbrev pub new_node : Node
new_node = node nil []

-- `node.children.get(token)`
unfoldable pub child : Children → ℕ → Option Node
child nil t = none
child (cons u n c) t = ite (u ≟ t) (some n) (child c t)

-- `node.children[token] = n`
unfoldable pub set_child : Children → ℕ → Node → Children
set_child nil t n = cons t n nil
set_child (cons u m c) t n = let rest = set_child c t n in ite (u ≟ t) (cons u n c) (cons u m rest)

-- `del node.children[token]`
unfoldable pub delete_child : Children → ℕ → Children
delete_child nil t = nil
delete_child (cons u m c) t = let rest = delete_child c t in ite (u ≟ t) rest (cons u m rest)

abbrev pub child_or_new : Option Node → Node
child_or_new none = new_node
child_or_new (some n) = n

-- The loop of `insert`: go down the tokens, make the nodes that are missing, add the id at the end.
unfoldable pub insert_at : List ℕ → String → Node → Node
insert_at [] x (node c ids) = node c (add ids x)
insert_at (t ∷ ts) x (node c ids) =
    node (set_child c t (insert_at ts x (child_or_new (child c t)))) ids

-- The loop of `search`; `depth` tokens have been matched.
unfoldable pub search_from : ℕ → Node → List ℕ → List PrefixMatch
search_from depth n [] = []
search_from depth n (t ∷ ts) = elim (child (children n) t) [
  | none ↦ []
  | some m ↦
      map (λ x. record { object_id = x; matched_length = suc depth }) (object_ids m)
      ++ search_from (suc depth) m ts
]

abbrev pub is_empty : Node → Bool
is_empty (node nil []) = true
is_empty (node nil (x ∷ ids)) = false
is_empty (node (cons t n c) ids) = false

-- One round of the upward loop of `remove`: an empty child goes. A child that stays is not empty, so
-- no node above it is, and the loop's `break` changes nothing.
abbrev pub prune : ℕ → Node → Node → Node
prune t (node c ids) (node nil []) = node (delete_child c t) ids
prune t (node c ids) (node nil (x ∷ xs)) = node (set_child c t (node nil (x ∷ xs))) ids
prune t (node c ids) (node (cons u m d) xs) = node (set_child c t (node (cons u m d) xs)) ids

-- The body of `remove`; `none` where the tokens lead to no node, and then nothing has changed.
unfoldable pub remove_at : List ℕ → String → Node → Option Node
remove_at [] x (node c ids) = some (node c (discard ids x))
remove_at (t ∷ ts) x n = elim (child (children n) t) [
  | none ↦ none
  | some m ↦ Option.map (prune t n) (remove_at ts x m)
]

pub record PrefixTree : Type 0 where
  pub root : Node
  pub object_to_tokens : Dict String (List ℕ)

abbrev pub init : PrefixTree
init = record { root = new_node; object_to_tokens = [] }

unfoldable pub insert : PrefixTree → List ℕ → String → PrefixTree
insert t tokens x = record {
  root = insert_at tokens x t.root;
  object_to_tokens = put t.object_to_tokens x tokens;
}

unfoldable pub search : PrefixTree → List ℕ → List PrefixMatch
search t tokens = search_from 0 t.root tokens

abbrev pub last : List PrefixMatch → Option PrefixMatch
last [] = none
last (m ∷ []) = some m
last (m ∷ m' ∷ ms) = last (m' ∷ ms)

unfoldable pub longest_match : PrefixTree → List ℕ → Option PrefixMatch
unfolding search
longest_match t tokens = last (search t tokens)

unfoldable pub remove : PrefixTree → String → PrefixTree × Bool
remove t x = elim (get t.object_to_tokens x) [
  | none ↦ (t, false)
  | some tokens ↦
      let tracked = pop t.object_to_tokens x in
      elim (remove_at tokens x t.root) [
        | none ↦ (record t { object_to_tokens = tracked }, false)
        | some root ↦ (record { root = root; object_to_tokens = tracked }, true)
      ]
]

-- `len(tree)`
abbrev pub size : PrefixTree → ℕ
size t = length t.object_to_tokens
