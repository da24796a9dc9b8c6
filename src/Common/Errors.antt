-- ===== src/Common/Errors.antt =====
-- Python exceptions as values: a call returns, or raises one of the exceptions the program names.
use mathlib.Core.Path.{◌≡◌, refl}
use mathlib.Core.Bool.{Bool, true, false}
use mathlib.Core.Logic.{◌⊎◌, inl, inr}

pub data Error : Type 0 where
  value_error key_error index_error attribute_error : Error
  -- raised by a storage backend
  storage_error : Error

pub data Result {ℓ} (A : Type ℓ) : Type ℓ where
  ok : A → Result A
  raise : Error → Result A

infixl 5 ◌>>=◌ ◌>>◌
abbrev pub ◌>>=◌ {ℓ κ} : {A : Type ℓ} {B : Type κ} → Result A → (A → Result B) → Result B
ok a >>= f = f a
raise e >>= f = raise e

abbrev pub ◌>>◌ {ℓ} : {B : Type ℓ} → Result (Unit {0}) → Result B → Result B
m >> k = m >>= λ _. k

-- `if test: raise error`
abbrev pub raise_if : Bool → Error → Result (Unit {0})
raise_if true e = raise e
raise_if false e = ok tt

-- A chain returns only if its first step does.
pub bind_ok {ℓ κ} :
    {S : Type ℓ} {T : Type κ} {t : T} (next : S → Result T) (first : Result S)
    → (first >>= next) ≡ ok t
    → (s : S) × (next s ≡ ok t) × (first ≡ ok s)
bind_ok next (raise e) returned = cc
bind_ok next (ok s) returned = (s, returned, refl)

-- A chain that returns has passed its first guard.
pub passed {ℓ} :
    {S : Type ℓ} {s : S} (e : Error) (test : Bool) (rest : Result S)
    → (raise_if test e >> rest) ≡ ok s
    → (test ≡ false) × (rest ≡ ok s)
passed e true rest returned = cc
passed e false rest returned = (refl, returned)

-- A call returns or raises.
pub Result-cases {ℓ} :
    {A : Type ℓ} (r : Result A) → ((a : A) × (r ≡ ok a)) ⊎ ((e : Error) × (r ≡ raise e))
Result-cases (ok a) = inl (a, refl)
Result-cases (raise e) = inr (e, refl)
