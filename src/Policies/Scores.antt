-- ===== src/Policies/Scores.antt =====
-- What src/l3store/policies/eviction/prefix_reuse.py and workflow_aware.py share: the records of
-- accesses, and the choice of the candidate with the lowest score.
use intellil.Common.{
  ℕ, ◌+◌, string_key, String, Bool, true, Option, none, some, List, [], ◌∷◌, ◌≡◌, ◌≢◌, refl, ap,
  arith, inl, inr, In, All-In, length, or_else,
}
use intellil.Common.Sort.{
  sort, IsSorted, IsOrder, compared, sort-IsSorted, In-sort, sort-In, length-sort,
}
use intellil.Common.Float.{Float, IsOrdered, ascending}
use intellil.Common.Dict.{Dict, get, put, pop}
use intellil.Policies.Lru.{EvictionDecision}

pub record Accesses (F : Type 0) : Type 0 where
  pub access_times : Dict String F
  pub access_counts : Dict String ℕ

module _ {F : Type 0} where
  unfoldable pub accessed : Accesses F → String → F → Accesses F
  accessed a x now = record {
    access_times = put a.access_times x now;
    access_counts = put a.access_counts x (or_else (get a.access_counts x) 0 + 1);
  }

  unfoldable pub added : Accesses F → String → F → Accesses F
  added a x now = record {
    access_times = put a.access_times x now;
    access_counts = put a.access_counts x 1;
  }

  unfoldable pub evicted : Accesses F → String → Accesses F
  evicted a x = record {
    access_times = pop a.access_times x;
    access_counts = pop a.access_counts x;
  }

module _ {F : Type 0} ⦃fl : Float F⦄ where
  abbrev pub by_score : String × F → String × F → Bool
  by_score a b = fl.le a.1 b.1

  abbrev pub victim : List (String × F) → Option (EvictionDecision F)
  victim [] = none
  victim ((x, score) ∷ rest) = some (record { object_id = x; priority = fl.neg score })

  -- `scored.sort(…)`, and the decision for `scored[0]`
  unfoldable pub choose_victim : List (String × F) → Option (EvictionDecision F)
  choose_victim scored = victim (sort by_score scored)

  -- The decision is for a candidate whose score no other undercuts.
  pub record IsLowest (scored : List (String × F)) (d : EvictionDecision F) : Type 0 where
    pub score : F
    pub candidate : In (d.object_id, score) scored
    pub negated : d.priority ≡ fl.neg score
    pub lowest : (x : String) (other : F) → In (x, other) scored → fl.le score other ≡ true

module _ {F : Type 0} ⦃fl : Float F⦄ (order : IsOrdered fl) where
  victim-IsLowest :
      (scored ordered : List (String × F))
      → ((x : String) (s : F) → In (x, s) ordered → In (x, s) scored)
      → ((x : String) (s : F) → In (x, s) scored → In (x, s) ordered)
      → IsSorted by_score ordered
      → length ordered ≢ 0
      → (d : EvictionDecision F) × (victim ordered ≡ some d) × IsLowest scored d
  victim-IsLowest scored [] sub sup sorted some_left = absurd (some_left refl)
  victim-IsLowest scored ((x, s) ∷ rest) sub sup sorted some_left = (
    record { object_id = x; priority = fl.neg s },
    refl,
    record {
      score = s;
      candidate = sub x s (inl refl);
      negated = refl;
      lowest = λ y other i. elim (sup y other i) [
        | inl e ↦
            let same : other ≡ s = ap (λ (q : String × F). q.1) e in
            rw same (elim (order.total s s) [ inl h ↦ h | inr h ↦ h ])
        | inr j ↦ All-In (λ (q : String × F). by_score (x, s) q ≡ true) rest sorted.0 (y, other) j
      ];
    },
  )

  -- Of candidates, of which there is one, a lowest is chosen.
  pub choose_victim-IsLowest :
      (first : String × F) (rest : List (String × F))
      → (d : EvictionDecision F) × (choose_victim (first ∷ rest) ≡ some d)
        × IsLowest (first ∷ rest) d
  unfolding choose_victim
  choose_victim-IsLowest first rest =
      let scored = first ∷ rest in
      let by : IsOrder (by_score {F = F}) = compared (λ (q : String × F). q.1) (ascending order) in
      victim-IsLowest scored (sort by_score scored) (λ x s i. In-sort by_score (x, s) scored i)
        (λ x s i. sort-In by_score (x, s) scored i) (sort-IsSorted by_score by scored)
        (λ e. absurd (omega (arith, e, length-sort by_score scored)))
