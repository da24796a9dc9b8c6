-- ===== src/Common/Sets.antt =====
-- Python's `set`, as a list without repetition. Its order is that of insertion, which Python leaves
-- open: theorems about a set speak of its members and its size.
use mathlib.Core.Path.{◌≡◌, refl, sym, subst}
use mathlib.Core.Logic.{◌≢◌, ◌⊎◌, inl, inr, ite, if_pos, if_neg}
use mathlib.Core.Bool.{Bool, true, false}
use mathlib.Core.List.{List, [], ◌∷◌}
use native.Mathlib.Omega.{arith}
use intellil.Common.Keys.{Key, ◌≟◌}
use Prim.Native.Nat.{suc, ◌+◌, ◌≤◌, ◌<◌}
use intellil.Common.Lists.{In, Distinct, length}

module _ {A : Type 0} ⦃k : Key A⦄ where
  -- `x in s`
  unfoldable pub member : List A → A → Bool
  member [] x = false
  member (y ∷ s) x = ite (y ≟ x) true (member s x)

  -- `s.add(x)`
  unfoldable pub add : List A → A → List A
  add [] x = x ∷ []
  add (y ∷ s) x = let rest = add s x in ite (y ≟ x) (y ∷ s) (y ∷ rest)

  -- `s.discard(x)`
  unfoldable pub discard : List A → A → List A
  discard [] x = []
  discard (y ∷ s) x = let rest = discard s x in ite (y ≟ x) rest (y ∷ rest)

  -- `s.update(xs)` and `s.difference_update(xs)`
  unfoldable pub add_all : List A → List A → List A
  add_all s [] = s
  add_all s (x ∷ xs) = add_all (add s x) xs

  unfoldable pub discard_all : List A → List A → List A
  discard_all s [] = s
  discard_all s (x ∷ xs) = discard_all (discard s x) xs

  pub member-add : (s : List A) (x y : A) → member (add s x) y ≡ ite (x ≟ y) true (member s y)
  unfolding member add
  member-add [] x y = refl
  member-add (z ∷ s) x y = ground (arith, member-add s x y)

  pub member-discard :
      (s : List A) (x y : A) → member (discard s x) y ≡ ite (x ≟ y) false (member s y)
  unfolding member discard
  member-discard [] x y = ground arith
  member-discard (z ∷ s) x y = ground (arith, member-discard s x y)

  -- Membership by test and by place agree.
  pub In-of_member : (s : List A) (x : A) → member s x ≡ true → In x s
  unfolding member
  In-of_member [] x h = cc
  In-of_member (y ∷ s) x h = elim (y ≟ x) [
    | yes e ↦ inl (sym e)
    | no n ↦ inr (In-of_member s x (ground arith))
  ]

  pub member-of_In : (s : List A) (x : A) → In x s → member s x ≡ true
  unfolding member
  member-of_In [] x h = absurd h
  member-of_In (y ∷ s) x (inl e) = ground arith
  member-of_In (y ∷ s) x (inr i) = ground (arith, member-of_In s x i)

  pub In-add : (s : List A) (x y : A) → In y (add s x) → In y s ⊎ (y ≡ x)
  In-add s x y i = elim (x ≟ y) [
    | yes e ↦ inr (sym e)
    | no n ↦ inl (In-of_member s y (ground (arith, member-add s x y, member-of_In (add s x) y i)))
  ]

  pub add-In : (s : List A) (x y : A) → In y s ⊎ (y ≡ x) → In y (add s x)
  add-In s x y (inl i) =
      In-of_member (add s x) y (ground (arith, member-add s x y, member-of_In s y i))
  add-In s x y (inr e) = In-of_member (add s x) y (ground (arith, member-add s x y))

  pub In-discard : (s : List A) (x y : A) → In y (discard s x) → In y s × (y ≢ x)
  In-discard s x y i =
      let h = member-of_In (discard s x) y i in
      (
        In-of_member s y (ground (arith, member-discard s x y)),
        λ e. ground (arith, member-discard s x y),
      )

  pub discard-In : (s : List A) (x y : A) → In y s → y ≢ x → In y (discard s x)
  discard-In s x y i n =
      In-of_member (discard s x) y (ground (arith, member-discard s x y, member-of_In s y i))

  pub add-Distinct : (s : List A) (x : A) → Distinct s → Distinct (add s x)
  unfolding add
  add-Distinct [] x d = (λ i. i, tt)
  add-Distinct (y ∷ s) x d = elim (y ≟ x) [
    | yes e ↦ subst Distinct (sym (if_pos (y ≟ x) e (y ∷ s) (y ∷ add s x))) d
    | no n ↦
        subst Distinct (sym (if_neg (y ≟ x) n (y ∷ s) (y ∷ add s x)))
          (λ i. elim (In-add s x y i) [ inl old ↦ d.0 old | inr e ↦ n e ], add-Distinct s x d.1)
  ]

  pub length-add : (s : List A) (x : A) → length (add s x) ≤ suc (length s)
  unfolding add
  length-add [] x = omega arith
  length-add (y ∷ s) x = ground (arith, length-add s x)

  pub length-add_all : (s xs : List A) → length (add_all s xs) ≤ length s + length xs
  unfolding add_all
  length-add_all s [] = omega arith
  length-add_all s (x ∷ xs) = omega (arith, length-add_all (add s x) xs, length-add s x)

  pub add_all-In_left : (s xs : List A) (y : A) → In y s → In y (add_all s xs)
  unfolding add_all
  add_all-In_left s [] y i = i
  add_all-In_left s (x ∷ xs) y i = add_all-In_left (add s x) xs y (add-In s x y (inl i))

  length-discard_le : (s : List A) (x : A) → length (discard s x) ≤ length s
  unfolding discard
  length-discard_le [] x = omega arith
  length-discard_le (y ∷ s) x = ground (arith, length-discard_le s x)

  length-discard : (s : List A) (x : A) → In x s → length (discard s x) < length s
  unfolding discard
  length-discard [] x i = absurd i
  length-discard (y ∷ s) x (inl e) = ground (arith, length-discard_le s x)
  length-discard (y ∷ s) x (inr i) = ground (arith, length-discard s x i)

  -- A list without repetition is no longer than one that has all its elements.
  pub length-Distinct :
      (xs ys : List A) → Distinct xs → ((x : A) → In x xs → In x ys) → length xs ≤ length ys
  length-Distinct [] ys d sub = omega arith
  length-Distinct (x ∷ xs) ys d sub =
      let rest =
        length-Distinct xs (discard ys x) d.1
          (λ y i. discard-In ys x y (sub y (inr i)) (λ e. d.0 (subst (λ z. In z xs) e i))) in
      let less = length-discard ys x (sub x (inl refl)) in omega (arith, rest, less)
