-- ===== src/Policies/Lru.antt =====
-- `LRUEviction` of src/l3store/policies/eviction/lru.py. A block is given by its id, which is all
-- that the policy reads; `now` is the clock at the call.
use intellil.Common.{
  string_key, String, true, false, Option, none, some, List, [], ◌∷◌, ◌++◌, ◌≡◌, refl, ap, ◌⊎◌, inl,
  inr, All, In, Bool-cases,
}
use intellil.Common.Float.{Float}
use intellil.Common.Dict.{Dict, has, put, pop, put_last}
use intellil.Common.Sets.{member, In-of_member}

pub record EvictionDecision (F : Type 0) : Type 0 where
  pub object_id : String
  pub priority : F

pub record LruEviction (F : Type 0) : Type 0 where
  pub access_order : Dict String F

module _ {F : Type 0} ⦃fl : Float F⦄ where
  unfoldable pub on_block_accessed : LruEviction F → String → F → LruEviction F
  on_block_accessed p x now = record {
    access_order = elim (has p.access_order x) [
      | true ↦ put_last p.access_order x now
      | false ↦ put p.access_order x now
    ];
  }

  unfoldable pub on_block_added : LruEviction F → String → F → LruEviction F
  on_block_added p x now = record { access_order = put p.access_order x now }

  unfoldable pub on_block_evicted : LruEviction F → String → LruEviction F
  on_block_evicted p x = record { access_order = pop p.access_order x }

  -- The loop of `select_victim`.
  unfoldable pub oldest : Dict String F → List String → Option (EvictionDecision F)
  oldest [] ids = none
  oldest ((x, time) ∷ order) ids = elim (member ids x) [
    | true ↦ some (record { object_id = x; priority = time })
    | false ↦ oldest order ids
  ]

  unfoldable pub select_victim : LruEviction F → List String → Option (EvictionDecision F)
  select_victim p [] = none
  select_victim p (b ∷ blocks) = elim (oldest p.access_order (b ∷ blocks)) [
    | none ↦ some (record { object_id = b; priority = fl.of_nat 0 })
    | some d ↦ some d
  ]

  -- No id of the order is a candidate.
  abbrev pub Untracked : Dict String F → List String → Type 0
  Untracked order ids = All (λ e. member ids e.0 ≡ false) order

  -- The decision is the first entry of the order that is a candidate.
  abbrev pub IsOldest : Dict String F → List String → EvictionDecision F → Type 0
  IsOldest order ids d =
      (front : Dict String F) × (back : Dict String F) × (order
        ≡ front ++ (d.object_id, d.priority) ∷ back)
      × Untracked front ids
      × In d.object_id ids

  oldest-IsOldest :
      (order : Dict String F) (ids : List String)
      → ((oldest order ids ≡ none) × Untracked order ids)
        ⊎ ((d : EvictionDecision F) × (oldest order ids ≡ some d) × IsOldest order ids d)
  unfolding oldest
  oldest-IsOldest [] ids = inl (refl, tt)
  oldest-IsOldest ((x, time) ∷ order) ids = elim (Bool-cases (member ids x)) [
    | inl here ↦ inr (
      record { object_id = x; priority = time },
      rw (oldest, here) refl,
      ([], order, refl, tt, In-of_member ids x here),
    )
    | inr away ↦ elim (oldest-IsOldest order ids) [
      | inl (e, none_there) ↦ inl (rw (oldest, away) e, (away, none_there))
      | inr (d, e, (front, back, split, clear, there)) ↦ inr (
        d,
        rw (oldest, away) e,
        ((x, time) ∷ front, back, ap (◌∷◌ (x, time)) split, (away, clear), there),
      )
    ]
  ]

  -- Among candidates, of which there is one, `select_victim` takes the one that is first in the order
  -- of accesses; where none of them is in the order, it takes the first candidate.
  pub select_victim-IsOldest :
      (p : LruEviction F) (b : String) (blocks : List String)
      → (d : EvictionDecision F) × (select_victim p (b ∷ blocks) ≡ some d)
        × (IsOldest p.access_order (b ∷ blocks) d
            ⊎ (d.object_id ≡ b) × Untracked p.access_order (b ∷ blocks))
  unfolding select_victim
  select_victim-IsOldest p b blocks = elim (oldest-IsOldest p.access_order (b ∷ blocks)) [
    | inl (e, clear) ↦ (
      record { object_id = b; priority = fl.of_nat 0 },
      rw (select_victim, e) refl,
      inr (refl, clear),
    )
    | inr (d, e, first) ↦ (d, rw (select_victim, e) refl, inl first)
  ]
