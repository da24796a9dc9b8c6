-- ===== src/Common/Groups.antt =====
-- Dictionaries of lists: `d.setdefault(key, []).append(x)`, and what it changes.
use mathlib.Core.Path.{◌≡◌}
use mathlib.Core.Logic.{ite}
use mathlib.Core.List.{List, [], ◌∷◌, ◌++◌}
use mathlib.Core.Option.{some}
use native.Mathlib.Omega.{arith}
use intellil.Common.Keys.{Key, ◌≟◌}
use intellil.Common.Tests.{or_else}
use intellil.Common.Dict.{Dict, get, put, set_default, get-put}

module _ {K A : Type 0} ⦃k : Key K⦄ where
  -- `d.get(key, [])`
  abbrev pub group : Dict K (List A) → K → List A
  group d q = or_else (get d q) []

  unfoldable pub append_to : Dict K (List A) → K → A → Dict K (List A)
  append_to d q x = let d' = set_default d q [] in put d' q (group d' q ++ x ∷ [])

  pub get-append_to :
      (d : Dict K (List A)) (q r : K) (x : A)
      → get (append_to d q x) r ≡ ite (q ≟ r) (some (group d q ++ x ∷ [])) (get d r)
  unfolding append_to
  get-append_to d q r x =
      let d' = set_default d q [] in
      ground (arith, get-put d q q [], get-put d q r [], get-put d' q r (group d' q ++ x ∷ []))
