-- ===== src/Common/Sort.antt =====
-- Python's `sorted` with a key: stable, so equal elements keep their order.
use Prim.Native.Nat.{ℕ, zero, suc}
use mathlib.Core.Path.{◌≡◌, refl, sym, ap}
use mathlib.Core.Logic.{◌⊎◌, inl, inr}
use mathlib.Core.Bool.{Bool, true}
use mathlib.Core.List.{List, [], ◌∷◌, ◌++◌, Perm}
use mathlib.Core.List.Perm
use native.Mathlib.Omega.{arith}
use intellil.Common.Tests.{if◌then◌else◌, Bool-cases}
use intellil.Common.Lists.{In, Distinct, All, length, take, All-take, All-append, All-In}

-- A comparison that orders: total and transitive.
pub record IsOrder {A : Type 0} (le : A → A → Bool) : Type 0 where
  pub total : (a b : A) → (le a b ≡ true) ⊎ (le b a ≡ true)
  pub trans : (a b c : A) → le a b ≡ true → le b c ≡ true → le a c ≡ true

-- Elements in the order of a part of theirs
pub compared :
    {A B : Type 0} {le : B → B → Bool} (part : A → B)
    → IsOrder le
    → IsOrder (λ (a b : A). le (part a) (part b))
compared part order = record {
  total = λ a b. order.total (part a) (part b);
  trans = λ a b c p q. order.trans (part a) (part b) (part c) p q;
}

module _ {A : Type 0} (le : A → A → Bool) where
  insert : A → List A → List A
  insert x [] = x ∷ []
  insert x (y ∷ ys) = let rest = insert x ys in if le x y then x ∷ y ∷ ys else y ∷ rest

  unfoldable pub sort : List A → List A
  unfolding insert
  sort [] = []
  sort (x ∷ xs) = insert x (sort xs)

  -- Each element comes before those that follow it.
  abbrev pub IsSorted : List A → Type 0
  IsSorted [] = Unit
  IsSorted (x ∷ xs) = All (λ y. le x y ≡ true) xs × IsSorted xs

  insert-perm : (x : A) (ys : List A) → Perm (insert x ys) (x ∷ ys)
  unfolding insert
  insert-perm x [] = Perm.refl (x ∷ [])
  insert-perm x (y ∷ ys) = elim (Bool-cases (le x y)) [
    | inl t ↦ rw t (Perm.refl (x ∷ y ∷ ys))
    | inr f ↦ rw f (Perm.trans (Perm.cons y (insert-perm x ys)) (Perm.swap x y ys))
  ]

  -- Sorting rearranges.
  pub sort-perm : (xs : List A) → Perm (sort xs) xs
  unfolding sort
  sort-perm [] = Perm.refl []
  sort-perm (x ∷ xs) = Perm.trans (insert-perm x (sort xs)) (Perm.cons x (sort-perm xs))

  length-insert : (x : A) (ys : List A) → length (insert x ys) ≡ suc (length ys)
  unfolding insert
  length-insert x [] = refl
  length-insert x (y ∷ ys) = ground (arith, length-insert x ys)

  pub length-sort : (xs : List A) → length (sort xs) ≡ length xs
  unfolding sort
  length-sort [] = refl
  length-sort (x ∷ xs) = omega (arith, length-insert x (sort xs), length-sort xs)

  All-insert {κ} : (P : A → Type κ) (x : A) (ys : List A) → P x → All P ys → All P (insert x ys)
  unfolding insert
  All-insert P x [] px h = (px, tt)
  All-insert P x (y ∷ ys) px h = elim (Bool-cases (le x y)) [
    | inl t ↦ rw t (px, h)
    | inr f ↦ rw f (h.0, All-insert P x ys px h.1)
  ]

  pub All-sort {κ} : (P : A → Type κ) (xs : List A) → All P xs → All P (sort xs)
  unfolding sort
  All-sort P [] h = tt
  All-sort P (x ∷ xs) h = All-insert P x (sort xs) h.0 (All-sort P xs h.1)

  In-insert : (a x : A) (ys : List A) → In a (insert x ys) → (a ≡ x) ⊎ In a ys
  unfolding insert
  In-insert a x [] h = h
  In-insert a x (y ∷ ys) h = elim (Bool-cases (le x y)) [
    | inl t ↦ rw t at h
    | inr f ↦ elim (rw f at h) [
      | inl e ↦ inr (inl e)
      | inr r ↦ elim (In-insert a x ys r) [ inl e ↦ inl e | inr i ↦ inr (inr i) ]
    ]
  ]

  insert-In : (a x : A) (ys : List A) → (a ≡ x) ⊎ In a ys → In a (insert x ys)
  unfolding insert
  insert-In a x [] h = h
  insert-In a x (y ∷ ys) h = elim (Bool-cases (le x y)) [
    | inl t ↦ rw t h
    | inr f ↦ rw f (elim h [
      | inl e ↦ inr (insert-In a x ys (inl e))
      | inr (inl e) ↦ inl e
      | inr (inr i) ↦ inr (insert-In a x ys (inr i))
    ])
  ]

  pub In-sort : (a : A) (xs : List A) → In a (sort xs) → In a xs
  unfolding sort
  In-sort a [] h = h
  In-sort a (x ∷ xs) h = elim (In-insert a x (sort xs) h) [
    | inl e ↦ inl e
    | inr i ↦ inr (In-sort a xs i)
  ]

  pub sort-In : (a : A) (xs : List A) → In a xs → In a (sort xs)
  unfolding sort
  sort-In a [] h = h
  sort-In a (x ∷ xs) (inl e) = insert-In a x (sort xs) (inl e)
  sort-In a (x ∷ xs) (inr h) = insert-In a x (sort xs) (inr (sort-In a xs h))

  insert-Distinct : (x : A) (ys : List A) → ¬ In x ys → Distinct ys → Distinct (insert x ys)
  unfolding insert
  insert-Distinct x [] new d = (new, tt)
  insert-Distinct x (y ∷ ys) new d = elim (Bool-cases (le x y)) [
    | inl t ↦ rw t (new, d)
    | inr f ↦ rw f (
      λ i. elim (In-insert y x ys i) [ inl e ↦ new (inl (sym e)) | inr j ↦ d.0 j ],
      insert-Distinct x ys (λ i. new (inr i)) d.1,
    )
  ]

  pub sort-Distinct : (xs : List A) → Distinct xs → Distinct (sort xs)
  unfolding sort
  sort-Distinct [] d = tt
  sort-Distinct (x ∷ xs) d =
      insert-Distinct x (sort xs) (λ i. d.0 (In-sort x xs i)) (sort-Distinct xs d.1)

  module _ (order : IsOrder le) where
    All-le :
        (x y : A) (ys : List A)
        → le x y ≡ true
        → All (λ z. le y z ≡ true) ys
        → All (λ z. le x z ≡ true) ys
    All-le x y [] h hs = tt
    All-le x y (z ∷ ys) h hs = (order.trans x y z h hs.0, All-le x y ys h hs.1)

    insert-IsSorted : (x : A) (ys : List A) → IsSorted ys → IsSorted (insert x ys)
    unfolding insert
    insert-IsSorted x [] h = (tt, tt)
    insert-IsSorted x (y ∷ ys) h = elim (Bool-cases (le x y)) [
      | inl t ↦ rw t ((t, All-le x y ys t h.0), h)
      | inr f ↦ rw f (
        All-insert (λ z. le y z ≡ true) x ys
            (elim (order.total x y) [ inl t ↦ cc (f, t) | inr t ↦ t ]) h.0,
        insert-IsSorted x ys h.1,
      )
    ]

    -- Sorting sorts.
    pub sort-IsSorted : (xs : List A) → IsSorted (sort xs)
    unfolding sort
    sort-IsSorted [] = tt
    sort-IsSorted (x ∷ xs) = insert-IsSorted x (sort xs) (sort-IsSorted xs)

  pub IsSorted-take : (n : ℕ) (xs : List A) → IsSorted xs → IsSorted (take n xs)
  IsSorted-take zero xs h = tt
  IsSorted-take (suc n) [] h = tt
  IsSorted-take (suc n) (x ∷ xs) h =
      (All-take (λ y. le x y ≡ true) n xs h.0, IsSorted-take n xs h.1)

  pub IsSorted-append :
      (xs ys : List A)
      → IsSorted xs
      → IsSorted ys
      → All (λ x. All (λ y. le x y ≡ true) ys) xs
      → IsSorted (xs ++ ys)
  IsSorted-append [] ys hx hy h = hy
  IsSorted-append (x ∷ xs) ys hx hy h =
      (All-append (λ y. le x y ≡ true) xs ys hx.0 h.0, IsSorted-append xs ys hx.1 hy h.1)

  -- Where the first `n` of a sorted list leave an element out, they are `n`, and come before it.
  pub take-first :
      (n : ℕ) (x : A) (xs : List A)
      → IsSorted xs
      → In x xs
      → In x (take n xs) ⊎ (length (take n xs) ≡ n) × All (λ y. le y x ≡ true) (take n xs)
  take-first zero x xs h i = inr (refl, tt)
  take-first (suc n) x [] h i = absurd i
  take-first (suc n) x (y ∷ ys) h (inl e) = inl (inl e)
  take-first (suc n) x (y ∷ ys) h (inr i) = elim (take-first n x ys h.1 i) [
    | inl j ↦ inl (inr j)
    | inr (len, all) ↦ inr (ap suc len, (All-In (λ z. le y z ≡ true) ys h.0 x i, all))
  ]
