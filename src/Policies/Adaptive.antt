-- ===== src/Policies/Adaptive.antt =====
-- `AdaptivePrefetchPolicy` of src/l3store/policies/prefetch/adaptive.py. The base policy is a
-- parameter: the list of what it predicts.
use intellil.Common.{
  ℕ, ◌+◌, ◌-◌, ◌≤◌, ◌<◌, min, max, ltb, leb, ◌==◌, Bool, true, false, not, ◌&&◌, List, [], ◌∷◌, ◌≡◌,
  refl, arith, Result, ok, value_error, ◌>>◌, raise_if, take, inl, inr, Bool-cases,
}
use intellil.Common.Float.{Float}

pub record AdaptivePrefetchPolicy (F : Type 0) : Type 0 where
  pub depth : ℕ
  pub min_depth : ℕ
  pub max_depth : ℕ
  pub interval : ℕ
  pub high_hit_rate : F
  pub low_hit_rate : F
  pub total_prefetch : ℕ
  pub useful_prefetch : ℕ
  pub events_since_adjust : ℕ

module _ {F : Type 0} ⦃fl : Float F⦄ where
  -- `__init__`
  unfoldable pub new_policy : ℕ → ℕ → ℕ → ℕ → F → F → Result (AdaptivePrefetchPolicy F)
  new_policy initial low_depth high_depth interval high low = do
    raise_if (low_depth == 0) value_error
    raise_if (ltb high_depth low_depth) value_error
    raise_if (not (leb low_depth initial && leb initial high_depth)) value_error
    raise_if (interval == 0) value_error
    raise_if (not (fl.le (fl.of_nat 0) low && fl.le low high && fl.le high (fl.of_nat 1)))
        value_error
    ok (record {
      depth = initial;
      min_depth = low_depth;
      max_depth = high_depth;
      interval = interval;
      high_hit_rate = high;
      low_hit_rate = low;
      total_prefetch = 0;
      useful_prefetch = 0;
      events_since_adjust = 0;
    })

  -- The depth that `_adjust_depth` chooses.
  unfoldable pub adjusted : AdaptivePrefetchPolicy F → ℕ
  adjusted p =
      let hit_rate = fl.div (fl.of_nat p.useful_prefetch) (fl.of_nat p.total_prefetch) in
      elim (fl.lt p.high_hit_rate hit_rate) [
        | true ↦ min (p.depth + 1) p.max_depth
        | false ↦ elim (fl.lt hit_rate p.low_hit_rate) [
          | true ↦ max (p.depth - 1) p.min_depth
          | false ↦ p.depth
        ]
      ]

  unfoldable pub adjust_depth : AdaptivePrefetchPolicy F → AdaptivePrefetchPolicy F
  adjust_depth p = elim (p.total_prefetch == 0) [
    | true ↦ record p { events_since_adjust = 0 }
    | false ↦ record p {
      depth = adjusted p;
      total_prefetch = 0;
      useful_prefetch = 0;
      events_since_adjust = 0;
    }
  ]

  abbrev pub counted : AdaptivePrefetchPolicy F → Bool → AdaptivePrefetchPolicy F
  counted p true = record p {
    total_prefetch = p.total_prefetch + 1;
    events_since_adjust = p.events_since_adjust + 1;
    useful_prefetch = p.useful_prefetch + 1;
  }
  counted p false = record p {
    total_prefetch = p.total_prefetch + 1;
    events_since_adjust = p.events_since_adjust + 1;
  }

  unfoldable pub adjust_if_due : AdaptivePrefetchPolicy F → AdaptivePrefetchPolicy F
  adjust_if_due p = elim (leb p.interval p.events_since_adjust) [
    | true ↦ adjust_depth p
    | false ↦ p
  ]

  unfoldable pub on_prefetch_used : AdaptivePrefetchPolicy F → Bool → AdaptivePrefetchPolicy F
  on_prefetch_used p useful = adjust_if_due (counted p useful)

  unfoldable pub predict_prefetch : {D : Type 0} → AdaptivePrefetchPolicy F → List D → List D
  predict_prefetch p decisions = take p.depth decisions

  -- The depth is within its bounds, and the interval has not run out.
  pub record IsValid (p : AdaptivePrefetchPolicy F) : Type 0 where
    pub low : p.min_depth ≤ p.depth
    pub high : p.depth ≤ p.max_depth
    pub positive : 0 < p.min_depth
    pub room : p.events_since_adjust < p.interval
    pub useful : p.useful_prefetch ≤ p.total_prefetch

  adjusted-bounds :
      (p : AdaptivePrefetchPolicy F)
      → p.min_depth ≤ p.depth
      → p.depth ≤ p.max_depth
      → (p.min_depth ≤ adjusted p)
        × (adjusted p ≤ p.max_depth)
        × (adjusted p ≤ p.depth + 1)
        × (p.depth ≤ adjusted p + 1)
  unfolding adjusted
  adjusted-bounds p low high =
      let hit_rate = fl.div (fl.of_nat p.useful_prefetch) (fl.of_nat p.total_prefetch) in
      elim (Bool-cases (fl.lt p.high_hit_rate hit_rate)) [
        | inl e ↦ rw (adjusted, e) (omega arith, omega arith, omega arith, omega arith)
        | inr e ↦ elim (Bool-cases (fl.lt hit_rate p.low_hit_rate)) [
          | inl f ↦ rw (adjusted, e, f) (omega arith, omega arith, omega arith, omega arith)
          | inr f ↦ rw (adjusted, e, f) (omega arith, omega arith, omega arith, omega arith)
        ]
      ]

  -- A run of the policy from `p` over the outcomes of prefetches.
  unfoldable pub run : AdaptivePrefetchPolicy F → List Bool → AdaptivePrefetchPolicy F
  run p [] = p
  run p (useful ∷ outcomes) = run (on_prefetch_used p useful) outcomes

  adjust_depth-IsValid :
      (p : AdaptivePrefetchPolicy F)
      → p.min_depth ≤ p.depth
      → p.depth ≤ p.max_depth
      → 0 < p.min_depth
      → 0 < p.interval
      → p.useful_prefetch ≤ p.total_prefetch
      → IsValid (adjust_depth p)
        × ((adjust_depth p).min_depth ≡ p.min_depth)
        × ((adjust_depth p).max_depth ≡ p.max_depth)
        × ((adjust_depth p).depth ≤ p.depth + 1)
        × (p.depth ≤ (adjust_depth p).depth + 1)
  unfolding adjust_depth
  adjust_depth-IsValid p low high positive room useful = elim (Bool-cases (p.total_prefetch == 0)) [
    | inl e ↦
        let state : adjust_depth p ≡ record p { events_since_adjust = 0 } =
          rw (adjust_depth, e) refl in
        rw state (
          record { low = low; high = high; positive = positive; room = room; useful = useful },
          refl,
          refl,
          omega arith,
          omega arith,
        )
    | inr e ↦
        let (above, below, up, down) = adjusted-bounds p low high in
        let state : adjust_depth p ≡ record p {
          depth = adjusted p;
          total_prefetch = 0;
          useful_prefetch = 0;
          events_since_adjust = 0;
        } =
          rw (adjust_depth, e) refl in
        rw state (
          record {
            low = above;
            high = below;
            positive = positive;
            room = room;
            useful = omega arith;
          },
          refl,
          refl,
          up,
          down,
        )
  ]

  adjust_if_due-IsValid :
      (p : AdaptivePrefetchPolicy F)
      → p.min_depth ≤ p.depth
      → p.depth ≤ p.max_depth
      → 0 < p.min_depth
      → 0 < p.interval
      → p.useful_prefetch ≤ p.total_prefetch
      → IsValid (adjust_if_due p)
        × ((adjust_if_due p).min_depth ≡ p.min_depth)
        × ((adjust_if_due p).max_depth ≡ p.max_depth)
        × ((adjust_if_due p).depth ≤ p.depth + 1)
        × (p.depth ≤ (adjust_if_due p).depth + 1)
  unfolding adjust_if_due
  adjust_if_due-IsValid p low high positive room useful =
      elim (Bool-cases (leb p.interval p.events_since_adjust)) [
        | inl due ↦
            let state : adjust_if_due p ≡ adjust_depth p = rw (adjust_if_due, due) refl in
            rw state (adjust_depth-IsValid p low high positive room useful)
        | inr early ↦
            let state : adjust_if_due p ≡ p = rw (adjust_if_due, early) refl in
            rw state (
              record {
                low = low;
                high = high;
                positive = positive;
                room = ground arith;
                useful = useful;
              },
              refl,
              refl,
              omega arith,
              omega arith,
            )
      ]

  -- An outcome keeps the policy valid and its bounds as they are, and moves the depth by at most one.
  pub on_prefetch_used-IsValid :
      (p : AdaptivePrefetchPolicy F) (useful : Bool)
      → IsValid p
      → IsValid (on_prefetch_used p useful)
        × ((on_prefetch_used p useful).min_depth ≡ p.min_depth)
        × ((on_prefetch_used p useful).max_depth ≡ p.max_depth)
        × ((on_prefetch_used p useful).depth ≤ p.depth + 1)
        × (p.depth ≤ (on_prefetch_used p useful).depth + 1)
  unfolding on_prefetch_used
  on_prefetch_used-IsValid p true valid =
      adjust_if_due-IsValid (counted p true) valid.low valid.high valid.positive
        (omega (arith, valid.room)) (omega (arith, valid.useful))
  on_prefetch_used-IsValid p false valid =
      adjust_if_due-IsValid (counted p false) valid.low valid.high valid.positive
        (omega (arith, valid.room)) (omega (arith, valid.useful))
