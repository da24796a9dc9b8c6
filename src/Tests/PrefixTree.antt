-- ===== src/Tests/PrefixTree.antt =====
-- Two blocks, the tokens of one a prefix of the other's.
use intellil.Common.{
  ℕ, ◌<◌, ◌≤◌, string_key, string_dec, none, some, List, [], ◌∷◌, ◌++◌, ◌≡◌, ◌≢◌, ◌↔◌, inl, refl,
  ap, arith, true, In, All, length, take,
}
use native.Mathlib.Decide.{ℕ_discrete}
use intellil.Common.Dict.{get, put, pop}
use intellil.Common.Sets.{add, discard}
use intellil.Metadata.PrefixTree.{
  PrefixTree, PrefixMatch, init, insert, remove, search, longest_match, child, set_child,
  delete_child, insert_at, search_from, remove_at,
}
use intellil.Metadata.PrefixTree.Paths.{ids_at}
use intellil.Metadata.PrefixTree.Search.{match_of, search_iff, longest_match-max}
use intellil.Metadata.PrefixTree.Index.{
  IsIndexed, Removes, init-IsIndexed, insert-IsIndexed, remove-Removes, remove_stale,
}

program : Unit {0}
unfolding get put pop string_dec add discard ℕ_discrete child set_child delete_child insert_at
    search_from remove_at insert remove search longest_match
program = tt

abbrev short : PrefixTree
short = insert init (1 ∷ 2 ∷ []) "x"

abbrev both : PrefixTree
both = insert short (1 ∷ 2 ∷ 3 ∷ []) "y"

abbrev query : List ℕ
query = 1 ∷ 2 ∷ 3 ∷ 4 ∷ []

finds : search both query ≡ match_of "x" 2 ∷ match_of "y" 3 ∷ []
unfolding program
finds = refl

pruned : (remove both "y").0.root ≡ short.root
unfolding program
pruned = refl

short-IsIndexed : IsIndexed short
unfolding get
short-IsIndexed = insert-IsIndexed init (1 ∷ 2 ∷ []) "x" init-IsIndexed (inl refl)

new_y : get short.object_to_tokens "y" ≡ none
unfolding program
new_y = refl

insert-IsIndexed_example : IsIndexed both
insert-IsIndexed_example = insert-IsIndexed short (1 ∷ 2 ∷ 3 ∷ []) "y" short-IsIndexed (inl new_y)

both-IsIndexed : IsIndexed both
both-IsIndexed = insert-IsIndexed short (1 ∷ 2 ∷ 3 ∷ []) "y" short-IsIndexed (inl new_y)

search_iff_example :
    In (match_of "x" 2) (search both query)
    ↔ ((0 < 2) × (2 ≤ length query) × In "x" (ids_at both.root (take 2 query)))
search_iff_example = search_iff both query "x" 2

longest_match-max_example :
    ((longest_match both query ≡ none) ↔ (search both query ≡ []))
    × ((m : PrefixMatch)
        → longest_match both query ≡ some m
        → In m (search both query)
          × All (λ k. k.matched_length ≤ m.matched_length) (search both query))
longest_match-max_example = longest_match-max both query

remove-Removes_example : Removes both "y" (remove both "y")
remove-Removes_example = remove-Removes both "y" both-IsIndexed

filed_x : get short.object_to_tokens "x" ≡ some (1 ∷ 2 ∷ [])
unfolding program
filed_x = refl

abbrev old_tokens : List ℕ
old_tokens = 1 ∷ 2 ∷ []

abbrev new_tokens : List ℕ
new_tokens = 7 ∷ []

tokens_differ : old_tokens ≢ new_tokens
tokens_differ e = grind (arith, ap (λ (l : List ℕ). length l) e)

not_empty : old_tokens ≢ []
not_empty e = cc

remove_stale_example :
    ((remove (insert short new_tokens "x") "x").1 ≡ true)
    × In
        (match_of "x" 2)
        (search (remove (insert short new_tokens "x") "x").0 (old_tokens ++ 3 ∷ []))
remove_stale_example =
    remove_stale short "x" old_tokens new_tokens (3 ∷ []) short-IsIndexed filed_x tokens_differ
      not_empty
