-- ===== src/Base/Counting.antt =====
-- Sets as lists: a list without repetitions that lies in a list that is no longer holds all of it.
use ratcheting_consequence_i.Base.Tests.{if◌then◌else◌}
use ratcheting_consequence_i.Base.Equality.{Eq, ◌==◌}
use ratcheting_consequence_i.Base.Lists.{
  In, length, distinct, subset, In-contains, subset_sound, subset_complete,
}
use Prim.Native.Nat.{suc, ◌≤◌}
use mathlib.Core.Path.{◌≡◌, refl}
use mathlib.Core.Logic.{◌⊎◌, inl, inr}
use mathlib.Core.Bool.{true}
use mathlib.Core.List.{List, [], ◌∷◌}
use native.Mathlib.Omega.{arith}

module _ {A : Type 0} ⦃e : Eq A⦄ where
  -- The list without the first occurrence of the value.
  without : A → List A → List A
  without a [] = []
  without a (x ∷ xs) = if a == x then xs else x ∷ without a xs

  length-without : (a : A) (xs : List A) → In a xs → suc (length (without a xs)) ≡ length xs
  unfolding without
  length-without a [] m = absurd m
  length-without a (x ∷ xs) m = ground (arith, length-without a xs)

  without-In : (a b : A) (xs : List A) → In b xs → (b ≡ a) ⊎ In b (without a xs)
  unfolding without
  without-In a b [] m = absurd m
  without-In a b (x ∷ xs) m = ground (arith, without-In a b xs)

  within_whole :
      (xs ys : List A)
      → distinct xs ≡ true
      → ((a : A) → In a xs → In a ys)
      → length ys ≤ length xs
      → (a : A) → In a ys
      → In a xs
  unfolding distinct
  within_whole [] [] d within short a m = absurd m
  within_whole [] (y ∷ ys) d within short a m = absurd (omega arith)
  within_whole (x ∷ xs) ys d within short a m = elim (without-In x a ys m) [
    | inl first ↦ inl first
    | inr other ↦
        let others : (b : A) → In b xs → In b (without x ys) =
          λ b k. ground (arith, without-In x b ys (within b (inr k)), In-contains xs b k) in
        inr (
          within_whole xs (without x ys) (ground arith) others
            (omega (arith, length-without x ys (within x (inl refl)))) a other)
  ]

  -- A list without repetitions is no longer than a list that holds its entries.
  pub length_within :
      (xs ys : List A) → distinct xs ≡ true → ((a : A) → In a xs → In a ys) → length xs ≤ length ys
  unfolding distinct
  length_within [] ys d within = omega arith
  length_within (x ∷ xs) ys d within =
      let others : (b : A) → In b xs → In b (without x ys) =
        λ b k. ground (arith, without-In x b ys (within b (inr k)), In-contains xs b k) in
      omega (
        arith,
        length-without x ys (within x (inl refl)),
        length_within xs (without x ys) (ground arith) others,
      )

  -- Of two sets without repetitions, one that lies in another that is no larger is all of it.
  pub subset_of_no_larger :
      (xs ys : List A)
      → distinct xs ≡ true
      → length ys ≤ length xs
      → subset xs ys ≡ true
      → subset ys xs ≡ true
  subset_of_no_larger xs ys d short within =
      subset_complete ys xs (λ a m. within_whole xs ys d (subset_sound xs ys within) short a m)
