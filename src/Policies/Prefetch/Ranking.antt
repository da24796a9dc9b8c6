-- ===== src/Policies/Prefetch/Ranking.antt =====
-- What is left of many decisions by src/l3store/policies/prefetch/session_prefetch.py and
-- agent_prefetch.py: the best of each key, and of these the best.
use mathlib.Core.Path.{subst}
use intellil.Common.{
  ℕ, ◌≤◌, ◌≟◌, Key, ite, if_pos, if_neg, true, some, List, [], ◌∷◌, ◌++◌, ◌≡◌, ◌⊎◌, inl, inr, refl,
  sym, ap, ◌∙◌, arith, take, length, length-take, All, In, In-take, Distinct, take-Distinct,
  All-map, Bool-cases, Option-cases, In-append, In-append_left, In-append_right, append-nil,
  append_assoc,
}
use intellil.Common.Sort.{
  compared, IsOrder, sort, IsSorted, sort-IsSorted, IsSorted-take, take-first, In-sort, sort-In,
  sort-Distinct,
}
use intellil.Common.Float.{Float, IsOrdered, descending}
use intellil.Common.Dict.{Dict, keys, values, get, put, get-put}
use intellil.Common.Counting.{put-Distinct, get-values, values-get, values-Distinct}
use intellil.Policies.Prefetch.{PrefetchDecision, keep_better, keep_all, before, ranked}

module _ {F K : Type 0} ⦃fl : Float F⦄ ⦃k : Key K⦄ (key : PrefetchDecision F → K)
    (order : IsOrdered fl) where
  -- The decision `d` is one of the offers, and has a priority as great as any of its key.
  pub record IsBest (offers : List (PrefetchDecision F)) (d : PrefetchDecision F) : Type 0 where
    pub offered : In d offers
    pub greatest :
        (other : PrefetchDecision F)
        → In other offers
        → key other ≡ key d
        → fl.le other.priority d.priority ≡ true

  -- A dictionary of the best offers
  pub record Holds (offers : List (PrefetchDecision F)) (best : Dict K (PrefetchDecision F))
      : Type 0 where
    pub sound :
        (q : K) (d : PrefetchDecision F) → get best q ≡ some d → (key d ≡ q) × IsBest offers d
    pub complete :
        (d : PrefetchDecision F)
        → In d offers
        → (b : PrefetchDecision F) × (get best (key d) ≡ some b)
    pub once : Distinct (keys best)

  le_refl : (a : F) → fl.le a a ≡ true
  le_refl a = elim (order.total a a) [ inl h ↦ h | inr h ↦ h ]

  -- What one offer leaves: of its key the better one, and the others
  record Kept (best : Dict K (PrefetchDecision F)) (d : PrefetchDecision F) : Type 0 where
    chosen : PrefetchDecision F
    at : (q : K) → get (keep_better key best d) q ≡ ite (key d ≟ q) (some chosen) (get best q)
    better :
        ((chosen ≡ d)
          × ((c : PrefetchDecision F)
              → get best (key d) ≡ some c
              → fl.le c.priority d.priority ≡ true))
        ⊎ (get best (key d) ≡ some chosen) × (fl.le d.priority chosen.priority ≡ true)
    once : Distinct (keys best) → Distinct (keys (keep_better key best d))

  keep_better-Kept : (best : Dict K (PrefetchDecision F)) (d : PrefetchDecision F) → Kept best d
  unfolding keep_better
  keep_better-Kept best d = elim (Option-cases (get best (key d))) [
    | inl none_yet ↦
        let state : keep_better key best d ≡ put best (key d) d = rw (keep_better, none_yet) refl in
        record {
          chosen = d;
          at = rw state (λ q. get-put best (key d) q d);
          better = inl (refl, λ c found. cc);
          once = rw state (λ u. put-Distinct best (key d) d u);
        }
    | inr (c, found) ↦ elim (Bool-cases (fl.lt c.priority d.priority)) [
      | inl less ↦
          let state : keep_better key best d ≡ put best (key d) d =
            rw (keep_better, found, less) refl in
          record {
            chosen = d;
            at = rw state (λ q. get-put best (key d) q d);
            better = inl (
              refl,
              λ c' found'.
                  let same : c ≡ c' = cc in
                  rw (← same) (elim (order.total c.priority d.priority) [
                    | inl h ↦ h
                    | inr h ↦ absurd (cc (less, h, order.strict c.priority d.priority))
                  ]),
            );
            once = rw state (λ u. put-Distinct best (key d) d u);
          }
      | inr not_less ↦
          let state : keep_better key best d ≡ best = rw (keep_better, found, not_less) refl in
          record {
            chosen = c;
            at = rw state (λ q. elim (key d ≟ q) [
              | yes e ↦ rw (← e) found ∙ sym (if_pos (key d ≟ q) e (some c) (get best q))
              | no n ↦ sym (if_neg (key d ≟ q) n (some c) (get best q))
            ]);
            better = inr (
              found,
              elim (Bool-cases (fl.le d.priority c.priority)) [
                | inl h ↦ h
                | inr h ↦ absurd (cc (not_less, h, order.strict c.priority d.priority))
              ],
            );
            once = rw state (λ u. u);
          }
    ]
  ]

  -- The decision that replaces the best of its key is the best.
  keep_better-IsBest :
      (offers : List (PrefetchDecision F)) (best : Dict K (PrefetchDecision F))
      (d : PrefetchDecision F)
      → Holds offers best
      → ((c : PrefetchDecision F) → get best (key d) ≡ some c → fl.le c.priority d.priority ≡ true)
      → IsBest (offers ++ d ∷ []) d
  keep_better-IsBest offers best d old over = record {
    offered = In-append_right d offers (d ∷ []) (inl refl);
    greatest = λ other i same. elim (In-append other offers (d ∷ []) i) [
      | inl j ↦
          let (c, there) = old.complete other j in
          let s = old.sound (key other) c there in
          order.trans other.priority c.priority d.priority (s.1.greatest other j (sym s.0))
            (over c (ap (get best) (sym same) ∙ there))
      | inr (inl e) ↦ rw e (le_refl d.priority)
      | inr (inr j) ↦ absurd j
    ];
  }

  append-IsBest :
      (offers : List (PrefetchDecision F)) (d b : PrefetchDecision F)
      → IsBest offers b
      → (key d ≡ key b → fl.le d.priority b.priority ≡ true)
      → IsBest (offers ++ d ∷ []) b
  append-IsBest offers d b old under = record {
    offered = In-append_left b offers (d ∷ []) old.offered;
    greatest = λ other i same. elim (In-append other offers (d ∷ []) i) [
      | inl j ↦ old.greatest other j same
      | inr (inl e) ↦ rw e (under (ap key (sym e) ∙ same))
      | inr (inr j) ↦ absurd j
    ];
  }

  -- Two lists of offers, one after the other
  pub keep_all-append :
      (best : Dict K (PrefetchDecision F)) (xs ys : List (PrefetchDecision F))
      → keep_all key best (xs ++ ys) ≡ keep_all key (keep_all key best xs) ys
  unfolding keep_all
  keep_all-append best [] ys = refl
  keep_all-append best (x ∷ xs) ys = keep_all-append (keep_better key best x) xs ys

  -- One more offer.
  keep_better-Holds :
      (offers : List (PrefetchDecision F)) (best : Dict K (PrefetchDecision F))
      (d : PrefetchDecision F)
      → Holds offers best
      → Holds (offers ++ d ∷ []) (keep_better key best d)
  keep_better-Holds offers best d old =
      let kept = keep_better-Kept best d in
      record {
        sound = λ q d' found. elim (key d ≟ q) [
          | yes e ↦
              let same : kept.chosen ≡ d' =
                cc (found, kept.at q, if_pos (key d ≟ q) e (some kept.chosen) (get best q)) in
              elim kept.better [
                | inl (is_new, over) ↦
                    subst (λ x. (key x ≡ q) × IsBest (offers ++ d ∷ []) x) (sym is_new ∙ same)
                      (e, keep_better-IsBest offers best d old over)
                | inr (there, under) ↦
                    let (named, was_best) = old.sound (key d) kept.chosen there in
                    subst (λ x. (key x ≡ q) × IsBest (offers ++ d ∷ []) x) same
                      (named ∙ e, append-IsBest offers d kept.chosen was_best (λ _. under))
              ]
          | no n ↦
              let before' =
                sym (kept.at q ∙ if_neg (key d ≟ q) n (some kept.chosen) (get best q)) ∙ found in
              let (named, was_best) = old.sound q d' before' in
              (named, append-IsBest offers d d' was_best (λ e. absurd (n (e ∙ named))))
        ];
        complete = λ x i. elim (key d ≟ key x) [
          | yes e ↦ (
            kept.chosen,
            kept.at (key x) ∙ if_pos (key d ≟ key x) e (some kept.chosen) (get best (key x)),
          )
          | no n ↦ elim (In-append x offers (d ∷ []) i) [
            | inl j ↦
                let (b, there) = old.complete x j in
                (
                  b,
                  kept.at (key x)
                      ∙ if_neg (key d ≟ key x) n (some kept.chosen) (get best (key x))
                      ∙ there,
                )
            | inr (inl e) ↦ absurd (n (ap key (sym e)))
            | inr (inr j) ↦ absurd j
          ]
        ];
        once = kept.once old.once;
      }

  keep_all-Holds :
      (offers : List (PrefetchDecision F)) (best : Dict K (PrefetchDecision F))
      (ds : List (PrefetchDecision F))
      → Holds offers best
      → Holds (offers ++ ds) (keep_all key best ds)
  unfolding keep_all
  keep_all-Holds offers best [] old = subst (λ l. Holds l best) (sym (append-nil offers)) old
  keep_all-Holds offers best (d ∷ ds) old =
      subst (λ l. Holds l (keep_all key (keep_better key best d) ds))
        (append_assoc offers (d ∷ []) ds)
        (keep_all-Holds (offers ++ d ∷ []) (keep_better key best d) ds
          (keep_better-Holds offers best d old))

  nothing-Holds : Holds [] []
  unfolding get
  nothing-Holds = record { sound = λ q d found. cc; complete = λ d i. absurd i; once = tt }

  -- The decisions `ds` are the first `n` of the best offers: each is the best offer of its key, they
  -- stand by priority, the greatest first, and an offer whose key is not among them has no greater
  -- priority than any of them, and is left out only where there are `n`.
  pub record IsTop (n : ℕ) (offers ds : List (PrefetchDecision F)) : Type 0 where
    pub few : length ds ≤ n
    pub best : (d : PrefetchDecision F) → In d ds → IsBest offers d
    pub sorted : IsSorted before ds
    pub once : Distinct ds
    pub others :
        (d : PrefetchDecision F)
        → In d offers
        → ((b : PrefetchDecision F) × In b ds × (key b ≡ key d))
          ⊎ (length ds ≡ n) × All (λ y. fl.le d.priority y.priority ≡ true) ds

  pub ranked-IsTop :
      (n : ℕ) (offers : List (PrefetchDecision F)) (dict : Dict K (PrefetchDecision F))
      → Holds offers dict
      → IsTop n offers (ranked n dict)
  unfolding ranked
  ranked-IsTop n offers dict held =
      let all = sort before (values dict) in
      let by_priority : IsOrder (before {F = F}) =
        compared (λ (d : PrefetchDecision F). d.priority) (descending order) in
      record {
        few = rw length-take (omega arith);
        best = λ d i.
            let (q, found) =
              values-get dict d held.once (In-sort before d (values dict) (In-take d n all i)) in
            (held.sound q d found).1;
        sorted = IsSorted-take before n all (sort-IsSorted before by_priority (values dict));
        once = take-Distinct n all (
            sort-Distinct before (values dict)
              (values-Distinct key dict held.once (λ q d found. (held.sound q d found).0)));
        others = λ d i.
            let (b, there) = held.complete d i in
            let (named, good) = held.sound (key d) b there in
            elim (take-first before n b all (sort-IsSorted before by_priority (values dict))
              (sort-In before b (values dict) (get-values dict (key d) there))) [
                | inl j ↦ inl (b, j, named)
                | inr (full, over) ↦ inr (
                  full,
                  All-map (λ y. before y b ≡ true) (λ y. fl.le d.priority y.priority ≡ true)
                      (λ y h.
                        order.trans d.priority b.priority y.priority (good.greatest d i (sym named))
                          h)
                      (take n all) over,
                )
              ];
      }

  -- The loops and the sort of the two policies: the first `n` of the best offers.
  pub ranked-keep_all :
      (n : ℕ) (offers : List (PrefetchDecision F))
      → IsTop n offers (ranked n (keep_all key [] offers))
  ranked-keep_all n offers =
      ranked-IsTop n offers (keep_all key [] offers) (keep_all-Holds [] [] offers nothing-Holds)
