-- ===== src/Common/Counting.antt =====
-- The size of a dictionary: how `d[key] = value` and `d.pop(key, None)` change it.
use Prim.Native.Nat.{suc}
use mathlib.Core.Path.{◌≡◌, refl, sym, ap, ◌∙◌, subst}
use mathlib.Core.Logic.{◌⊎◌, inl, inr, if_pos, if_neg}
use mathlib.Core.List.{[], ◌∷◌}
use mathlib.Core.Option.{none, some}
use native.Mathlib.Omega.{arith}
use intellil.Common.Keys.{Key, ◌≟◌}
use intellil.Common.Lists.{In, Distinct, length}
use intellil.Common.Dict.{Dict, keys, values, get, put, pop, get-put, get-pop, In-keys, get-In}

module _ {K V : Type 0} ⦃k : Key K⦄ where
  pub length-put_new :
      (d : Dict K V) (q : K) (w : V) → get d q ≡ none → length (put d q w) ≡ suc (length d)
  unfolding get put
  length-put_new [] q w h = refl
  length-put_new ((j, v) ∷ d) q w h = ground (arith, length-put_new d q w)

  pub length-put_old :
      (d : Dict K V) (q : K) (w : V) {v : V} → get d q ≡ some v → length (put d q w) ≡ length d
  unfolding get put
  length-put_old [] q w h = cc
  length-put_old ((j, u) ∷ d) q w {v} h = ground (arith, length-put_old d q w {v = v})

  pub pop_absent : (d : Dict K V) (q : K) → get d q ≡ none → pop d q ≡ d
  unfolding get pop
  pop_absent [] q h = refl
  pop_absent ((j, v) ∷ d) q h = ground (arith, pop_absent d q)

  absent : (d : Dict K V) (q : K) → ¬ In q (keys d) → get d q ≡ none
  unfolding get
  absent [] q h = refl
  absent ((j, v) ∷ d) q h =
      if_neg (j ≟ q) (λ e. h (inl (sym e))) (some v) (get d q) ∙ absent d q (λ i. h (inr i))

  pub length-pop :
      (d : Dict K V) (q : K) {v : V}
      → Distinct (keys d)
      → get d q ≡ some v
      → suc (length (pop d q)) ≡ length d
  unfolding get pop
  length-pop [] q u h = cc
  length-pop ((j, w) ∷ d) q {v} u h = elim (j ≟ q) [
    | yes e ↦
        let gone = pop_absent d q (absent d q (λ i. u.0 (subst (λ r. In r (keys d)) (sym e) i))) in
        ground (arith, gone)
    | no n ↦ ground (arith, length-pop d q {v = v} u.1)
  ]

  pub In-keys-put :
      (d : Dict K V) (q r : K) (w : V) → In r (keys (put d q w)) → In r (keys d) ⊎ (r ≡ q)
  In-keys-put d q r w i = elim (q ≟ r) [
    | yes e ↦ inr (sym e)
    | no n ↦
        let (v, found) = get-In (put d q w) r i in
        inl (In-keys d r (sym (get-put d q r w ∙ if_neg (q ≟ r) n (some w) (get d r)) ∙ found))
  ]

  pub In-keys-pop : (d : Dict K V) (q r : K) → In r (keys (pop d q)) → In r (keys d)
  In-keys-pop d q r i =
      let (v, found) = get-In (pop d q) r i in
      elim (q ≟ r) [
        | yes e ↦ absurd (cc (found, get-pop d q r, if_pos (q ≟ r) e none (get d r)))
        | no n ↦ In-keys d r (sym (get-pop d q r ∙ if_neg (q ≟ r) n none (get d r)) ∙ found)
      ]

  pub put-Distinct :
      (d : Dict K V) (q : K) (w : V) → Distinct (keys d) → Distinct (keys (put d q w))
  unfolding put
  put-Distinct [] q w u = (λ i. i, tt)
  put-Distinct ((j, v) ∷ d) q w u = elim (j ≟ q) [
    | yes e ↦ rw (if_pos (j ≟ q) e) u
    | no n ↦ rw (if_neg (j ≟ q) n) (
      λ i. elim (In-keys-put d q j w i) [ inl old ↦ u.0 old | inr e ↦ n e ],
      put-Distinct d q w u.1,
    )
  ]

  pub pop-Distinct : (d : Dict K V) (q : K) → Distinct (keys d) → Distinct (keys (pop d q))
  unfolding pop
  pop-Distinct [] q u = tt
  pop-Distinct ((j, v) ∷ d) q u = elim (j ≟ q) [
    | yes e ↦ rw (if_pos (j ≟ q) e) (pop-Distinct d q u.1)
    | no n ↦ rw (if_neg (j ≟ q) n) (λ i. u.0 (In-keys-pop d q j i), pop-Distinct d q u.1)
  ]

  -- The values are those of the keys, as each key stands once.
  pub get-values : (d : Dict K V) (q : K) {v : V} → get d q ≡ some v → In v (values d)
  unfolding get
  get-values [] q h = cc
  get-values ((j, w) ∷ d) q {v} h = elim (j ≟ q) [
    | yes e ↦ let same : w ≡ v = cc (h, if_pos (j ≟ q) e (some w) (get d q)) in inl (sym same)
    | no n ↦ inr (get-values d q (sym (if_neg (j ≟ q) n (some w) (get d q)) ∙ h))
  ]

  pub values-get :
      (d : Dict K V) (v : V) → Distinct (keys d) → In v (values d) → (q : K) × (get d q ≡ some v)
  unfolding get
  values-get [] v u i = absurd i
  values-get ((j, w) ∷ d) v u (inl e) =
      (j, if_pos (j ≟ j) refl (some w) (get d j) ∙ ap some (sym e))
  values-get ((j, w) ∷ d) v u (inr i) =
      let (q, found) = values-get d v u.1 i in
      (
        q,
        if_neg (j ≟ q) (λ e. u.0 (subst (λ r. In r (keys d)) (sym e) (In-keys d q found))) (some w)
              (get d q)
            ∙ found,
      )

  -- Values that tell their keys stand once, too.
  pub values-Distinct :
      (key : V → K) (d : Dict K V)
      → Distinct (keys d)
      → ((q : K) (v : V) → get d q ≡ some v → key v ≡ q)
      → Distinct (values d)
  unfolding get
  values-Distinct key [] u told = tt
  values-Distinct key ((j, w) ∷ d) u told =
      let apart : (q : K) (v : V) → get d q ≡ some v → ¬ j ≡ q =
        λ q v found e. u.0 (subst (λ r. In r (keys d)) (sym e) (In-keys d q found)) in
      let rest : (q : K) (v : V) → get d q ≡ some v → key v ≡ q =
        λ q v found. told q v (if_neg (j ≟ q) (apart q v found) (some w) (get d q) ∙ found) in
      (
        λ i.
            let (q, found) = values-get d w u.1 i in
            apart q w found
              (sym (told j w (if_pos (j ≟ j) refl (some w) (get d j))) ∙ rest q w found),
        values-Distinct key d u.1 rest,
      )
