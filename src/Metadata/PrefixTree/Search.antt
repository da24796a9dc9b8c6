-- ===== src/Metadata/PrefixTree/Search.antt =====
-- `search` and `longest_match` against the abstract view of the trie.
use intellil.Common.{
  ℕ, zero, suc, ◌+◌, ◌≤◌, ◌<◌, String, Bool, true, none, some, List, [], ◌∷◌, map, ◌≡◌, ◌↔◌, refl,
  sym, ap, ◌∙◌, arith, In, inl, inr, Option-cases, length, take, leb, In-append, In-append_left,
  In-append_right, In-map, map-In, All, All-map, All-append,
}
use mathlib.Core.Path.{subst}
use intellil.Common.Sort.{IsSorted, IsSorted-append}
use intellil.Metadata.PrefixTree.{
  PrefixTree, PrefixMatch, Node, children, object_ids, child, search_from, search, last,
  longest_match,
}
use intellil.Metadata.PrefixTree.Paths.{ids_at}

abbrev pub match_of : String → ℕ → PrefixMatch
match_of x k = record { object_id = x; matched_length = k }

search_from_sound :
    (d : ℕ) (n : Node) (ts : List ℕ) (m : PrefixMatch)
    → In m (search_from d n ts)
    → (j : ℕ) × (m.matched_length ≡ d + suc j)
      × (j < length ts)
      × In m.object_id (ids_at n (take (suc j) ts))
unfolding search_from ids_at
search_from_sound d n [] m i = absurd i
search_from_sound d n (t ∷ ts) m i = elim (Option-cases (child (children n) t)) [
  | inl e ↦ absurd (rw (e, search_from) at i)
  | inr (c, e) ↦
      elim (In-append m (map (λ x. match_of x (suc d)) (object_ids c)) (search_from (suc d) c ts)
        (rw (e, search_from) at i)) [
          | inl here ↦
              let (x, j, q) = In-map (λ x. match_of x (suc d)) m (object_ids c) here in
              (
                0,
                ap (λ (r : PrefixMatch). r.matched_length) q ∙ omega arith,
                omega arith,
                rw (e, ids_at)
                    (subst (λ y. In y (object_ids c))
                      (sym (ap (λ (r : PrefixMatch). r.object_id) q)) j),
              )
          | inr deeper ↦
              let (j, len, lt, found) = search_from_sound (suc d) c ts m deeper in
              (suc j, omega arith, omega arith, rw (e, ids_at) found)
        ]
]

search_from_complete :
    (d : ℕ) (n : Node) (ts : List ℕ) (x : String) (j : ℕ)
    → j < length ts
    → In x (ids_at n (take (suc j) ts))
    → In (match_of x (d + suc j)) (search_from d n ts)
unfolding search_from ids_at
search_from_complete d n [] x j lt i = absurd (omega arith)
search_from_complete d n (t ∷ ts) x zero lt i = elim (Option-cases (child (children n) t)) [
  | inl e ↦ absurd (rw (e, ids_at) at i)
  | inr (c, e) ↦
      let here = map-In (λ y. match_of y (suc d)) x (object_ids c) (rw (e, ids_at) at i) in
      let at : suc d ≡ d + suc zero = omega arith in
      subst (λ k. In (match_of x k) (search_from d n (t ∷ ts))) at
        (rw (e, search_from)
          (In-append_left (match_of x (suc d)) (map (λ y. match_of y (suc d)) (object_ids c))
            (search_from (suc d) c ts) here))
]
search_from_complete d n (t ∷ ts) x (suc j) lt i = elim (Option-cases (child (children n) t)) [
  | inl e ↦ absurd (rw (e, ids_at) at i)
  | inr (c, e) ↦
      let deeper = search_from_complete (suc d) c ts x j (omega arith) (rw (e, ids_at) at i) in
      let at : suc d + suc j ≡ d + suc (suc j) = omega arith in
      subst (λ k. In (match_of x k) (search_from d n (t ∷ ts))) at
        (rw (e, search_from)
          (In-append_right (match_of x (suc d + suc j))
            (map (λ y. match_of y (suc d)) (object_ids c)) (search_from (suc d) c ts) deeper))
]

-- `search` finds the id `x` at length `k` exactly when `x` stands at the first `k` of the tokens, for
-- a `k` from 1 to their number.
pub search_iff :
    (t : PrefixTree) (tokens : List ℕ) (x : String) (k : ℕ)
    → In (match_of x k) (search t tokens)
      ↔ ((0 < k) × (k ≤ length tokens) × In x (ids_at t.root (take k tokens)))
unfolding search
search_iff t tokens x k = (
  λ i.
      let (j, e, lt, found) = search_from_sound 0 t.root tokens (match_of x k) i in
      let e' : suc j ≡ k = omega arith in
      (omega arith, omega arith, subst (λ c. In x (ids_at t.root (take c tokens))) e' found),
  found_at k,
)
  where
    found_at :
        (c : ℕ)
        → (0 < c) × (c ≤ length tokens) × In x (ids_at t.root (take c tokens))
        → In (match_of x c) (search_from 0 t.root tokens)
    found_at zero (pos, le, i) = absurd (omega arith)
    found_at (suc j) (pos, le, i) =
        let at : 0 + suc j ≡ suc j = omega arith in
        subst (λ c. In (match_of x c) (search_from 0 t.root tokens)) at
          (search_from_complete 0 t.root tokens x j (omega arith) i)

-- The comparison by matched length.
abbrev pub shorter : PrefixMatch → PrefixMatch → Bool
shorter a b = leb a.matched_length b.matched_length

-- The matches of one node, all of one length.
abbrev block : ℕ → List String → List PrefixMatch
block k ids = map (λ x. match_of x k) ids

All-block :
    (P : PrefixMatch → Type 0) (k : ℕ)
    → ((x : String) → P (match_of x k))
    → (ids : List String) → All P (block k ids)
All-block P k h [] = tt
All-block P k h (x ∷ ids) = (h x, All-block P k h ids)

block-IsSorted : (k : ℕ) (ids : List String) → IsSorted shorter (block k ids)
block-IsSorted k [] = tt
block-IsSorted k (x ∷ ids) = (
  All-block (λ m. shorter (match_of x k) m ≡ true) k (λ y. ground arith) ids,
  block-IsSorted k ids,
)

search_from-longer :
    (d : ℕ) (n : Node) (ts : List ℕ) → All (λ m. d < m.matched_length) (search_from d n ts)
unfolding search_from
search_from-longer d n [] = tt
search_from-longer d n (t ∷ ts) = elim (Option-cases (child (children n) t)) [
  | inl e ↦ rw (e, search_from) tt
  | inr (c, e) ↦
      rw (e, search_from)
        (All-append (λ m. d < m.matched_length) (block (suc d) (object_ids c))
          (search_from (suc d) c ts)
          (All-block (λ m. d < m.matched_length) (suc d) (λ x. omega arith) (object_ids c))
          (All-map (λ m. suc d < m.matched_length) (λ m. d < m.matched_length) (λ m h. omega arith)
            (search_from (suc d) c ts) (search_from-longer (suc d) c ts)))
]

search_from-IsSorted : (d : ℕ) (n : Node) (ts : List ℕ) → IsSorted shorter (search_from d n ts)
unfolding search_from
search_from-IsSorted d n [] = tt
search_from-IsSorted d n (t ∷ ts) = elim (Option-cases (child (children n) t)) [
  | inl e ↦ rw (e, search_from) tt
  | inr (c, e) ↦
      let rest = search_from (suc d) c ts in
      rw (e, search_from)
        (IsSorted-append shorter (block (suc d) (object_ids c)) rest
          (block-IsSorted (suc d) (object_ids c)) (search_from-IsSorted (suc d) c ts)
          (All-block (λ m. All (λ k. shorter m k ≡ true) rest) (suc d)
            (λ x.
              All-map (λ m. suc d < m.matched_length) (λ k. shorter (match_of x (suc d)) k ≡ true)
                (λ m h. ground arith) rest (search_from-longer (suc d) c ts))
            (object_ids c)))
]

-- `search` lists its matches from the shortest to the longest.
pub search-IsSorted : (t : PrefixTree) (tokens : List ℕ) → IsSorted shorter (search t tokens)
unfolding search
search-IsSorted t tokens = search_from-IsSorted 0 t.root tokens

-- The last of a sorted list is in it, and is the greatest.
last-max :
    (ms : List PrefixMatch) {m : PrefixMatch}
    → IsSorted shorter ms
    → last ms ≡ some m
    → In m ms × All (λ k. k.matched_length ≤ m.matched_length) ms
last-max [] s e = cc
last-max (k ∷ []) s e = (inl (cc), (ground arith, tt))
last-max (k ∷ k' ∷ ms) {m} s e =
    let (i, all) = last-max (k' ∷ ms) s.1 e in (inr i, (ground (arith, s.0.0, all.0), all))

last-none : (ms : List PrefixMatch) → last ms ≡ none → ms ≡ []
last-none [] h = refl
last-none (m ∷ []) h = cc
last-none (m ∷ m' ∷ ms) h = let e = last-none (m' ∷ ms) h in cc

-- `longest_match` returns a match of `search` of the greatest length, and nothing exactly when
-- `search` finds nothing.
pub longest_match-max :
    (t : PrefixTree) (tokens : List ℕ)
    → ((longest_match t tokens ≡ none) ↔ (search t tokens ≡ []))
      × ((m : PrefixMatch)
          → longest_match t tokens ≡ some m
          → In m (search t tokens)
            × All (λ k. k.matched_length ≤ m.matched_length) (search t tokens))
unfolding longest_match
longest_match-max t tokens = (
  (last-none (search t tokens), λ e. ap last e),
  λ m e. last-max (search t tokens) (search-IsSorted t tokens) e,
)
