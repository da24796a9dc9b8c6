-- ===== src/Policies/Prefetch/Session/Longest.antt =====
-- The longest prefixes of the last requests, by which `SessionPrefetchPolicy` of
-- src/l3store/policies/prefetch/session_prefetch.py ranks the blocks.
use mathlib.Core.Path.{subst}
use intellil.Common.{
  ℕ, Bool-cases, ◌^◌, ◌≤◌, ◌<◌, string_key, ◌≟◌, holds, String, true, List, [], ◌∷◌, map, ◌≡◌, ◌⊎◌,
  inl, inr, refl, sym, ap, ◌∙◌, arith, ok, length, In-drop, reversed, last, leb, take, In,
  In-append, In-append_left, In-append_right, In-map, map-In, All, Distinct, length-map, ◌-◌,
}
use intellil.Common.Float.{Float, IsOrdered, IsExact}
use intellil.Common.Sort.{IsSorted}
use intellil.Metadata.PrefixTree.{search}
use intellil.Metadata.PrefixTree.Paths.{ids_at}
use intellil.Metadata.PrefixTree.Search.{search_iff}
use intellil.Metadata.Store.{Libraries, MetadataStore, find_prefix_matches}
use intellil.Policies.Prefetch.{PrefetchDecision, RequestContext, kv_cache, before}
use intellil.Policies.Prefetch.Ranking.{IsTop}
use intellil.Policies.Prefetch.Session.{
  SessionPrefetchPolicy, new_policy, decision_of, predict_prefetch,
}
use intellil.Policies.Prefetch.Session.Histories.{
  Request, tokens_of, complete_all, offers, predict_prefetch-IsTop,
}

module _ {Index : Type 0} (store : MetadataStore Index) (requests : List (List ℕ)) where
  -- The block stands in the prefix tree at the first `k` tokens of one of the requests.
  abbrev pub IsPrefix : String → ℕ → Type 0
  IsPrefix x k =
      (tokens : List ℕ) × In tokens requests
      × (0 < k)
      × (k ≤ length tokens)
      × In x (ids_at store.prefix_tree.root (take k tokens))

  -- The best `n` of these blocks with the lengths of their longest prefixes, the longest first: each
  -- block once, and a block is left out only where `n` are at least as long.
  pub record IsLongest (n : ℕ) (hits : List (String × ℕ)) : Type 0 where
    pub few : length hits ≤ n
    pub best :
        (x : String) (k : ℕ) → In (x, k) hits → IsPrefix x k × ((j : ℕ) → IsPrefix x j → j ≤ k)
    pub sorted : IsSorted (λ (a c : String × ℕ). leb c.1 a.1) hits
    pub once : Distinct (map (λ (h : String × ℕ). h.0) hits)
    pub others :
        (x : String) (k : ℕ)
        → IsPrefix x k
        → ((j : ℕ) × In (x, j) hits) ⊎ (length hits ≡ n) × All (λ (h : String × ℕ). k ≤ h.1) hits

-- The decision to prefetch a block, with the length of its prefix as its priority
abbrev pub kv_decision : {F : Type 0} ⦃fl : Float F⦄ → String × ℕ → PrefetchDecision F
kv_decision ⦃fl⦄ (x, k) = record { object_id = x; priority = fl.of_nat k; prefetch_type = kv_cache }

In-reversed : {A : Type 0} (a : A) (xs : List A) → In a (reversed xs) → In a xs
In-reversed a [] i = i
In-reversed a (x ∷ xs) i = elim (In-append a (reversed xs) (x ∷ []) i) [
  | inl j ↦ inr (In-reversed a xs j)
  | inr (inl e) ↦ inl e
  | inr (inr h) ↦ absurd h
]

reversed-In : {A : Type 0} (a : A) (xs : List A) → In a xs → In a (reversed xs)
reversed-In a [] i = i
reversed-In a (x ∷ xs) (inl e) = In-append_right a (reversed xs) (x ∷ []) (inl e)
reversed-In a (x ∷ xs) (inr i) = In-append_left a (reversed xs) (x ∷ []) (reversed-In a xs i)

-- The lengths of requests are those of the tokens.
short_tokens :
    (session : String) (requests : List Request) (tokens : List ℕ)
    → All (λ (r : Request). length r.1 < 2 ^ 53) requests
    → In tokens (tokens_of session requests)
    → length tokens < 2 ^ 53
unfolding tokens_of
short_tokens session [] tokens all i = absurd i
short_tokens session ((s, []) ∷ rest) tokens all i = short_tokens session rest tokens all.1 i
short_tokens session ((s, t ∷ ts) ∷ rest) tokens all i = elim (Bool-cases (holds (s ≟ session))) [
  | inl e ↦ elim (rw e at i) [
    | inl same ↦ rw same (all.0)
    | inr j ↦ short_tokens session rest tokens all.1 j
  ]
  | inr e ↦ short_tokens session rest tokens all.1 (rw e at i)
]

module _ {F Vector Index : Type 0} ⦃fl : Float F⦄ (libs : Libraries F Vector Index)
    (store : MetadataStore Index) where
  offers_sound :
      (history : List (List ℕ)) (d : PrefetchDecision F)
      → In d (offers libs store history)
      → (x : String) × (k : ℕ) × IsPrefix store history x k × (d ≡ kv_decision (x, k))
  unfolding offers find_prefix_matches
  offers_sound [] d i = absurd i
  offers_sound (tokens ∷ history) d i =
      elim (In-append d (map decision_of (search store.prefix_tree tokens))
        (offers libs store history) i) [
          | inl here ↦
              let (m, j, e) = In-map decision_of d (search store.prefix_tree tokens) here in
              let (pos, short, found) =
                (search_iff store.prefix_tree tokens m.object_id m.matched_length).0 j in
              (m.object_id, m.matched_length, (tokens, inl refl, pos, short, found), e)
          | inr there ↦
              let (x, k, (ts, j, pos, short, found), e) = offers_sound history d there in
              (x, k, (ts, inr j, pos, short, found), e)
        ]

  offers_complete :
      (history : List (List ℕ)) (x : String) (k : ℕ)
      → IsPrefix store history x k
      → In (kv_decision (x, k)) (offers libs store history)
  unfolding offers find_prefix_matches
  offers_complete [] x k (tokens, i, pos, short, found) = absurd i
  offers_complete (ts ∷ history) x k (tokens, inl e, pos, short, found) =
      let there =
        subst (λ us. (0 < k) × (k ≤ length us) × In x (ids_at store.prefix_tree.root (take k us))) e
          (pos, short, found) in
      In-append_left _ (map decision_of (search store.prefix_tree ts)) (offers libs store history) (
        map-In decision_of _ (search store.prefix_tree ts)
          ((search_iff store.prefix_tree ts x k).1 there))
  offers_complete (ts ∷ history) x k (tokens, inr i, pos, short, found) =
      In-append_right _ (map decision_of (search store.prefix_tree ts)) (offers libs store history)
        (offers_complete history x k (tokens, i, pos, short, found))

-- A list of which each element is of some hit.
unmapped :
    {F : Type 0} ⦃fl : Float F⦄ (P : String × ℕ → Type 0) (ds : List (PrefetchDecision F))
    → ((d : PrefetchDecision F) → In d ds → (h : String × ℕ) × P h × (d ≡ kv_decision h))
    → (hits : List (String × ℕ)) × (ds ≡ map kv_decision hits)
      × ((h : String × ℕ) → In h hits → P h)
unmapped P [] made = ([], refl, λ h i. absurd i)
unmapped P (d ∷ ds) made =
    let (h, p, e) = made d (inl refl) in
    let (hits, es, ps) = unmapped P ds (λ c i. made c (inr i)) in
    (
      h ∷ hits,
      ap (λ c. c ∷ ds) e ∙ ap (λ l. kv_decision h ∷ l) es,
      λ g i. elim i [ inl same ↦ subst P (sym same) p | inr j ↦ ps g j ],
    )

Distinct-unmap : {A C : Type 0} (f : A → C) (xs : List A) → Distinct (map f xs) → Distinct xs
Distinct-unmap f [] once = tt
Distinct-unmap f (x ∷ xs) (new, once) = (λ i. new (map-In f x xs i), Distinct-unmap f xs once)

-- Pairs that are distinct and have one length for each id have distinct ids.
ids-Distinct :
    (hits : List (String × ℕ))
    → ((x : String) (j k : ℕ) → In (x, j) hits → In (x, k) hits → j ≡ k)
    → Distinct hits
    → Distinct (map (λ (h : String × ℕ). h.0) hits)
ids-Distinct [] one once = tt
ids-Distinct ((x, k) ∷ hits) one (new, once) = (
  λ i.
      let ((y, j), there, e) = In-map (λ (h : String × ℕ). h.0) x hits i in
      let there' : In (x, j) hits = subst (λ z. In (z, j) hits) (sym e) there in
      new (subst (λ n. In (x, n) hits) (one x j k (inr there') (inl refl)) there'),
  ids-Distinct hits (λ y j l i i'. one y j l (inr i) (inr i')) once,
)

module _ {F : Type 0} ⦃fl : Float F⦄ (exact : IsExact fl) where
  -- Priorities are compared as lengths.
  compared_lengths :
      (j k : ℕ) → j < 2 ^ 53 → k < 2 ^ 53 → fl.le (fl.of_nat j) (fl.of_nat k) ≡ true → j ≤ k
  compared_lengths j k small small' le =
      let e = exact.exact j k small small' in
      let both : leb j k ≡ true = sym e ∙ le in ground (arith, both)

  lengths-IsSorted :
      (hits : List (String × ℕ))
      → ((x : String) (k : ℕ) → In (x, k) hits → k < 2 ^ 53)
      → IsSorted before (map (λ (h : String × ℕ). kv_decision {F = F} h) hits)
      → IsSorted (λ (a c : String × ℕ). leb c.1 a.1) hits
  lengths-IsSorted [] small sorted = tt
  lengths-IsSorted ((x, k) ∷ hits) small (first, rest) = (
    first_le hits (λ y j i. small y j (inr i)) first,
    lengths-IsSorted hits (λ y j i. small y j (inr i)) rest,
  )
    where
      first_le :
          (later : List (String × ℕ))
          → ((y : String) (j : ℕ) → In (y, j) later → j < 2 ^ 53)
          → All
              (λ c. before (kv_decision {F = F} (x, k)) c ≡ true)
              (map (λ (h : String × ℕ). kv_decision {F = F} h) later)
          → All (λ (c : String × ℕ). leb c.1 k ≡ true) later
      first_le [] small' all = tt
      first_le ((y, j) ∷ later) small' (h, all) = (
        sym (exact.exact j k (small' y j (inl refl)) (small x k (inl refl))) ∙ h,
        first_le later (λ z l i. small' z l (inr i)) all,
      )

module _ {F Vector Index : Type 0} ⦃fl : Float F⦄ (libs : Libraries F Vector Index)
    (order : IsOrdered fl) (exact : IsExact fl) (store : MetadataStore Index) where
  top-IsLongest :
      (n : ℕ) (history : List (List ℕ)) (hits : List (String × ℕ))
      → ((tokens : List ℕ) → In tokens history → length tokens < 2 ^ 53)
      → ((h : String × ℕ) → In h hits → IsPrefix store history h.0 h.1)
      → IsTop
          (λ (d : PrefetchDecision F). d.object_id)
          order
          n
          (offers libs store history)
          (map kv_decision hits)
      → IsLongest store history n hits
  top-IsLongest n history hits small made top = record {
    few = omega (arith, length-map (kv_decision {F = F}) hits, top.few);
    best = best;
    sorted = lengths-IsSorted exact hits (λ x k i. prefix_small x k (best x k i).0) top.sorted;
    once =
        ids-Distinct hits
          (λ x j k i i'.
            omega (arith, (best x j i).1 k (best x k i').0, (best x k i').1 j (best x j i).0))
          (Distinct-unmap (kv_decision {F = F}) hits top.once);
    others = λ x k there. elim (top.others _ (offers_complete libs store history x k there)) [
      | inl (d, i, same) ↦
          let ((y, j), h, e) = In-map (kv_decision {F = F}) d hits i in
          let named : y ≡ x = sym (ap (λ (c : PrefetchDecision F). c.object_id) e) ∙ same in
          inl (j, subst (λ z. In (z, j) hits) named h)
      | inr (full, all) ↦ inr (
        sym (length-map (kv_decision {F = F}) hits) ∙ full,
        longer hits k (prefix_small x k there) (λ y j i. prefix_small y j (best y j i).0) all,
      )
    ];
  }
    where
      prefix_small : (x : String) (k : ℕ) → IsPrefix store history x k → k < 2 ^ 53
      prefix_small x k (tokens, i, pos, short, found) = omega (arith, small tokens i, short)

      best :
          (x : String) (k : ℕ)
          → In (x, k) hits
          → IsPrefix store history x k × ((j : ℕ) → IsPrefix store history x j → j ≤ k)
      best x k i = (
        made (x, k) i,
        λ j there.
            compared_lengths exact j k (prefix_small x j there) (prefix_small x k (made (x, k) i)) (
              (top.best (kv_decision (x, k)) (map-In (kv_decision {F = F}) (x, k) hits i)).greatest
                (kv_decision (x, j)) (offers_complete libs store history x j there) refl),
      )

      longer :
          (later : List (String × ℕ)) (k : ℕ)
          → k < 2 ^ 53
          → ((y : String) (j : ℕ) → In (y, j) later → j < 2 ^ 53)
          → All
              (λ (y : PrefetchDecision F). fl.le (fl.of_nat k) y.priority ≡ true)
              (map kv_decision later)
          → All (λ (h : String × ℕ). k ≤ h.1) later
      longer [] k s s' all = tt
      longer ((y, j) ∷ later) k s s' (h, all) = (
        compared_lengths exact k j s (s' y j (inl refl)) h,
        longer later k s (λ z l i. s' z l (inr i)) all,
      )

  -- Where lengths of less than 2 ^ 53 are floats, and no request is longer, a policy that the
  -- constructor has built, after any requests, predicts the best `top_k` of the blocks whose tokens are
  -- a prefix of one of the last requests of the session, as many requests as the history holds: each
  -- block once, with the length of its longest prefix as its priority, the longest first; a block is
  -- left out only where `top_k` others are at least as long.
  pub predict_prefetch-IsLongest :
      {p : SessionPrefetchPolicy} (size top_k : ℕ) (requests : List Request)
      (request : RequestContext Vector)
      → All (λ (r : Request). length r.1 < 2 ^ 53) requests
      → new_policy size top_k ≡ ok p
      → (hits : List (String × ℕ)) × (predict_prefetch libs (complete_all p requests) request store
          ≡ map kv_decision hits)
        × IsLongest store (last size (tokens_of request.session_id requests)) top_k hits
  predict_prefetch-IsLongest {p} size top_k requests request small made =
      let session = request.session_id in
      let history = last size (tokens_of session requests) in
      let ds = predict_prefetch libs (complete_all p requests) request store in
      let top = predict_prefetch-IsTop libs order store size top_k requests request made in
      let short : (tokens : List ℕ) → In tokens (reversed history) → length tokens < 2 ^ 53 =
        λ tokens i. short_tokens session requests tokens small (
          In-drop tokens (length (tokens_of session requests) - size) (tokens_of session requests)
            (In-reversed tokens history i)) in
      let P : String × ℕ → Type 0 = λ h. IsPrefix store (reversed history) h.0 h.1 in
      let (hits, same, all) = unmapped P ds (λ d i.
        let (x, k, there, e) =
          offers_sound libs store (reversed history) d (top.best d i).offered in
        ((x, k), there, e)) in
      let found = top-IsLongest top_k (reversed history) hits short all (
        subst
          (IsTop (λ (d : PrefetchDecision F). d.object_id) order top_k
            (offers libs store (reversed history)))
          same top) in
      (hits, same, unreversed history top_k hits found)
    where
      turned :
          (history : List (List ℕ)) (x : String) (k : ℕ)
          → IsPrefix store history x k
          → IsPrefix store (reversed history) x k
      turned history x k (tokens, i, pos, short, found) =
          (tokens, reversed-In tokens history i, pos, short, found)

      unreversed :
          (history : List (List ℕ)) (n : ℕ) (hits : List (String × ℕ))
          → IsLongest store (reversed history) n hits
          → IsLongest store history n hits
      unreversed history n hits found = record {
        few = found.few;
        best = λ x k i.
            let ((tokens, j, pos, short, there), longest) = found.best x k i in
            (
              (tokens, In-reversed tokens history j, pos, short, there),
              λ m h. longest m (turned history x m h),
            );
        sorted = found.sorted;
        once = found.once;
        others = λ x k h. found.others x k (turned history x k h);
      }
