-- ===== src/Common/Float.antt =====
-- Python's `float` is not computed here: its operations are an interface. `IsOrdered` is the part of
-- IEEE arithmetic that theorems may ask for: on numbers that are not NaN, `<=` is a total preorder
-- and `<` is its strict part.
use mathlib.Core.Path.{◌≡◌}
use mathlib.Core.Bool.{Bool, true, not}
use Prim.Native.Nat.{ℕ, ◌<◌, ◌^◌}
use mathlib.Core.Logic.{◌⊎◌}
use intellil.Common.Tests.{if◌then◌else◌, leb}
use intellil.Common.Sort.{IsOrder}

pub record Float (F : Type 0) : Type 0 where
  pub of_nat : ℕ → F
  pub add : F → F → F
  pub sub : F → F → F
  pub mul : F → F → F
  pub div : F → F → F
  pub neg : F → F
  -- `int(a)`, of a number that is not negative
  pub floor : F → ℕ
  -- `a <= b` and `a < b`
  pub le : F → F → Bool
  pub lt : F → F → Bool

module _ {F : Type 0} ⦃fl : Float F⦄ where
  -- Python's `min(a, b)` and `max(a, b)` keep the first of equals.
  abbrev pub fmin : F → F → F
  fmin a b = if fl.lt b a then b else a

  abbrev pub fmax : F → F → F
  fmax a b = if fl.lt a b then b else a

pub record IsOrdered {F : Type 0} (f : Float F) : Type 0 where
  pub total : (a b : F) → (f.le a b ≡ true) ⊎ (f.le b a ≡ true)
  pub trans : (a b c : F) → f.le a b ≡ true → f.le b c ≡ true → f.le a c ≡ true
  pub strict : (a b : F) → f.lt a b ≡ not (f.le b a)

-- Whole numbers below 2 ^ 53 are floats, in their order.
pub record IsExact {F : Type 0} (f : Float F) : Type 0 where
  pub exact : (a b : ℕ) → a < 2 ^ 53 → b < 2 ^ 53 → f.le (f.of_nat a) (f.of_nat b) ≡ leb a b

-- Such numbers can be sorted, from the smallest or from the greatest.
module _ {F : Type 0} {fl : Float F} (order : IsOrdered fl) where
  pub ascending : IsOrder fl.le
  ascending = record { total = order.total; trans = order.trans }

  pub descending : IsOrder (λ a b. fl.le b a)
  descending = record { total = λ a b. order.total b a; trans = λ a b c p q. order.trans c b a q p }
