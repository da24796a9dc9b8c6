-- ===== src/Common/Keys.antt =====
-- Keys of dictionaries and members of sets: types whose equality is decided.
use Prim.Native.Nat.{ℕ}
use Prim.Native.String.{String}
use mathlib.Core.Path.{◌≡◌, refl, ap}
use mathlib.Core.Option.{Option, none, some}
use mathlib.Core.Logic.{ite, inl, inr}
use mathlib.Core.Bool.{Bool, true, false}
use native.Mathlib.Decide.{ℕ_discrete}
use text.Mathlib.Text.{◌==◌ as str_eq}
use text.Mathlib.TextEquality.{eq_iff}
use intellil.Common.Tests.{Bool-cases}

pub record Key {ℓ} (K : Type ℓ) : Type ℓ where
  pub dec : Discrete K

infix 50 ◌≟◌
abbrev pub ◌≟◌ {ℓ} : {K : Type ℓ} ⦃k : Key K⦄ (a b : K) → Dec (a ≡ b)
◌≟◌ ⦃k⦄ = k.dec

-- A decision as a Boolean.
abbrev pub holds {ℓ} : {P : Type ℓ} → Dec P → Bool
holds d = ite d true false

module _ {ℓ} {P : Type ℓ} where
  pub holds-yes : (d : Dec P) → P → holds d ≡ true
  holds-yes (yes p) q = refl
  holds-yes (no n) q = absurd (n q)

  pub holds-no : (d : Dec P) → ¬ P → holds d ≡ false
  holds-no (yes p) n = absurd (n p)
  holds-no (no m) n = refl

  pub holds-true : (d : Dec P) → holds d ≡ true → P
  holds-true (yes p) h = p
  holds-true (no n) h = cc

  pub holds-false : (d : Dec P) → holds d ≡ false → ¬ P
  holds-false (yes p) h = cc
  holds-false (no n) h = n

instance abbrev pub nat_key : Key ℕ
nat_key = record { dec = ℕ_discrete }

unfoldable pub string_dec : Discrete String
unfolding Bool-cases
string_dec a b = elim (Bool-cases (str_eq a b)) [
  | inl h ↦ yes ((eq_iff a b).0 h)
  | inr h ↦ no (λ e. cc (h, (eq_iff a b).1 e))
]

instance abbrev pub string_key : Key String
string_key = record { dec = string_dec }

-- Pairs of keys, and keys that may be missing, are keys.
unfoldable pub pair_dec {ℓ} : {K L : Type ℓ} → Discrete K → Discrete L → Discrete (K × L)
pair_dec k l (a, b) (c, d) = elim (k a c) [
  | no n ↦ no (λ e. n (ap (λ p. p.0) e))
  | yes p ↦ elim (l b d) [ no n ↦ no (λ e. n (ap (λ p. p.1) e)) | yes q ↦ yes (cc) ]
]

unfoldable pub option_dec {ℓ} : {K : Type ℓ} → Discrete K → Discrete (Option K)
option_dec k none none = yes refl
option_dec k none (some b) = no (λ e. cc)
option_dec k (some a) none = no (λ e. cc)
option_dec k (some a) (some b) = elim (k a b) [ yes p ↦ yes (ap some p) | no n ↦ no (λ e. n (cc)) ]

instance abbrev pub pair_key {ℓ} : {K L : Type ℓ} ⦃k : Key K⦄ ⦃l : Key L⦄ → Key (K × L)
pair_key ⦃k⦄ ⦃l⦄ = record { dec = pair_dec k.dec l.dec }

instance abbrev pub option_key {ℓ} : {K : Type ℓ} ⦃k : Key K⦄ → Key (Option K)
option_key ⦃k⦄ = record { dec = option_dec k.dec }
