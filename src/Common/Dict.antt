-- ===== src/Common/Dict.antt =====
-- Python's `dict`: keys in the order of their first insertion, each once. `OrderedDict` adds
-- `move_to_end`. A set is a dictionary whose values carry nothing.
use mathlib.Core.Path.{◌≡◌, refl, sym, ◌∙◌}
use mathlib.Core.Logic.{◌≢◌, inl, inr, ite, if_pos, if_neg}
use mathlib.Core.Bool.{Bool}
use mathlib.Core.List.{List, [], ◌∷◌, ◌++◌, map}
use mathlib.Core.Option.{Option, none, some}
use native.Mathlib.Omega.{arith}
use intellil.Common.Keys.{Key, ◌≟◌}
use intellil.Common.Tests.{is_some}
use intellil.Common.Lists.{In}

abbrev pub Dict : Type 0 → Type 0 → Type 0
Dict K V = List (K × V)

module _ {K V : Type 0} where
  -- `list(d)`
  abbrev pub keys : Dict K V → List K
  keys = map (λ e. e.0)

  -- `list(d.values())`
  abbrev pub values : Dict K V → List V
  values = map (λ e. e.1)

module _ {K V : Type 0} ⦃k : Key K⦄ where
  -- `d.get(key)`
  unfoldable pub get : Dict K V → K → Option V
  get [] q = none
  get ((j, v) ∷ d) q = ite (j ≟ q) (some v) (get d q)

  -- `key in d`
  abbrev pub has : Dict K V → K → Bool
  has d q = is_some (get d q)

  -- `d[key] = value`: in its old place, or at the end
  unfoldable pub put : Dict K V → K → V → Dict K V
  put [] q w = (q, w) ∷ []
  put ((j, v) ∷ d) q w = let rest = put d q w in ite (j ≟ q) ((j, w) ∷ d) ((j, v) ∷ rest)

  -- `d.pop(key, None)`
  unfoldable pub pop : Dict K V → K → Dict K V
  pop [] q = []
  pop ((j, v) ∷ d) q = let rest = pop d q in ite (j ≟ q) rest ((j, v) ∷ rest)

  -- `d.move_to_end(key)` and `d[key] = value`
  abbrev pub put_last : Dict K V → K → V → Dict K V
  put_last d q w = pop d q ++ (q, w) ∷ []

  pub get-put :
      (d : Dict K V) (q r : K) (w : V) → get (put d q w) r ≡ ite (q ≟ r) (some w) (get d r)
  unfolding get put
  get-put [] q r w = refl
  get-put ((j, v) ∷ d) q r w = ground (arith, get-put d q r w)

  pub get-pop : (d : Dict K V) (q r : K) → get (pop d q) r ≡ ite (q ≟ r) none (get d r)
  unfolding get pop
  get-pop [] q r = ground arith
  get-pop ((j, v) ∷ d) q r = ground (arith, get-pop d q r)

  pub get-put_self : (d : Dict K V) (q : K) (w : V) → get (put d q w) q ≡ some w
  get-put_self d q w = get-put d q q w ∙ if_pos (q ≟ q) refl (some w) (get d q)

  pub get-put_ne : (d : Dict K V) (q r : K) (w : V) → q ≢ r → get (put d q w) r ≡ get d r
  get-put_ne d q r w h = get-put d q r w ∙ if_neg (q ≟ r) h (some w) (get d r)

  pub get-pop_self : (d : Dict K V) (q : K) → get (pop d q) q ≡ none
  get-pop_self d q = get-pop d q q ∙ if_pos (q ≟ q) refl none (get d q)

  pub get-pop_ne : (d : Dict K V) (q r : K) → q ≢ r → get (pop d q) r ≡ get d r
  get-pop_ne d q r h = get-pop d q r ∙ if_neg (q ≟ r) h none (get d r)

  pub get-append : (d e : Dict K V) (q : K) → get d q ≡ none → get (d ++ e) q ≡ get e q
  unfolding get
  get-append [] e q h = refl
  get-append ((j, v) ∷ d) e q h = ground (arith, get-append d e q)

  pub get-put_last :
      (d : Dict K V) (q r : K) (w : V) → get (put_last d q w) r ≡ ite (q ≟ r) (some w) (get d r)
  unfolding get pop
  get-put_last [] q r w = refl
  get-put_last ((j, v) ∷ d) q r w = ground (arith, get-put_last d q r w)

  -- A key is present exactly when it is listed.
  pub In-keys : (d : Dict K V) (q : K) {v : V} → get d q ≡ some v → In q (keys d)
  unfolding get
  In-keys [] q h = cc
  In-keys ((j, v) ∷ d) q h = elim (j ≟ q) [
    | yes e ↦ inl (sym e)
    | no n ↦ inr (In-keys d q (sym (if_neg (j ≟ q) n (some v) (get d q)) ∙ h))
  ]

  pub get-In : (d : Dict K V) (q : K) → In q (keys d) → (v : V) × (get d q ≡ some v)
  unfolding get
  get-In [] q h = elim h [ ]
  get-In ((j, v) ∷ d) q (inl e) = (v, ground arith)
  get-In ((j, v) ∷ d) q (inr h) = elim (j ≟ q) [
    | yes e ↦ (v, ground arith)
    | no n ↦ let (w, g) = get-In d q h in (w, ground arith)
  ]

  -- `d.setdefault(key, value)`
  abbrev pub set_default : Dict K V → K → V → Dict K V
  set_default d q w = elim (get d q) [ none ↦ put d q w | some _ ↦ d ]
