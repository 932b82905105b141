-- ===== src/Base/Lists.antt =====
-- Python's tuples: counting, comprehensions with a test, `any`, `all`, `next(..., None)`, `in`.
use Prim.Native.Nat.{ℕ, suc}
use mathlib.Core.Path.{◌≡◌, refl}
use mathlib.Core.Logic.{◌⊎◌, inl, inr}
use mathlib.Core.Bool.{Bool, true, false, ◌&&◌, ◌||◌, not}
use mathlib.Core.Option.{Option, none, some}
use mathlib.Core.List.{List, [], ◌∷◌, ◌++◌}
use native.Mathlib.Omega.{arith}
use ratcheting_consequence_i.Base.Tests.{if◌then◌else◌}
use ratcheting_consequence_i.Base.Equality.{Eq, ◌==◌}

module _ {ℓ} {A : Type ℓ} where
  abbrev pub length : List A → ℕ
  length [] = 0
  length (x ∷ xs) = suc (length xs)

  unfoldable pub any : (A → Bool) → List A → Bool
  any p [] = false
  any p (x ∷ xs) = p x || any p xs

  unfoldable pub all : (A → Bool) → List A → Bool
  all p [] = true
  all p (x ∷ xs) = p x && all p xs

  -- `[x for x in xs if p(x)]`
  unfoldable pub keep : (A → Bool) → List A → List A
  keep p [] = []
  keep p (x ∷ xs) = let rest = keep p xs in if p x then x ∷ rest else rest

  -- `next((x for x in xs if p(x)), None)`
  unfoldable pub find : (A → Bool) → List A → Option A
  find p [] = none
  find p (x ∷ xs) = if p x then some x else find p xs

  -- `tuple(f(x) if p(x) else x for x in xs)`
  unfoldable pub update_where : (A → Bool) → (A → A) → List A → List A
  update_where p f [] = []
  update_where p f (x ∷ xs) = (if p x then f x else x) ∷ update_where p f xs

  unfoldable pub last? : List A → Option A
  last? [] = none
  last? (x ∷ []) = some x
  last? (x ∷ y ∷ xs) = last? (y ∷ xs)

  abbrev pub is_empty : List A → Bool
  is_empty [] = true
  is_empty (x ∷ xs) = false

  -- A property of every entry; it computes, so tactics read it.
  abbrev pub All {κ} : (A → Type κ) → List A → Type κ
  All P [] = Unit
  All P (x ∷ xs) = P x × All P xs

module _ {ℓ κ} {A : Type ℓ} {B : Type κ} where
  -- `[y for x in xs for y in f(x)]`
  unfoldable pub gather : (A → List B) → List A → List B
  gather f [] = []
  gather f (x ∷ xs) = f x ++ gather f xs

-- Membership, with the position kept.
abbrev pub In : {A : Type 0} → A → List A → Type 0
In a [] = ⊥
In a (x ∷ xs) = (a ≡ x) ⊎ In a xs

module _ {ℓ} {A : Type ℓ} ⦃e : Eq A⦄ where
  -- `a in xs`
  unfoldable pub contains : List A → A → Bool
  contains [] a = false
  contains (x ∷ xs) a = a == x || contains xs a

  -- `set(xs) <= set(ys)`
  unfoldable pub subset : List A → List A → Bool
  subset [] ys = true
  subset (x ∷ xs) ys = contains ys x && subset xs ys

  -- `len(set(xs)) == len(xs)`
  unfoldable pub distinct : List A → Bool
  unfolding contains
  distinct [] = true
  distinct (x ∷ xs) = not (contains xs x) && distinct xs

  -- `set(xs)`, with the last occurrence of each entry
  unfoldable pub unique : List A → List A
  unfolding contains
  unique [] = []
  unique (x ∷ xs) = let rest = unique xs in if contains xs x then rest else x ∷ rest

  -- `set(xs) - set(ys)`, in the order of `xs`
  unfoldable pub minus : List A → List A → List A
  unfolding keep contains
  minus xs ys = keep (λ x. not (contains ys x)) xs

module _ {A : Type 0} ⦃e : Eq A⦄ where
  pub contains-In : (xs : List A) (a : A) → contains xs a ≡ true → In a xs
  unfolding contains
  contains-In [] a h = cc
  contains-In (x ∷ xs) a h = ground (arith, contains-In xs a)

  pub In-contains : (xs : List A) (a : A) → In a xs → contains xs a ≡ true
  unfolding contains
  In-contains [] a h = absurd h
  In-contains (x ∷ xs) a h = ground (arith, In-contains xs a)

  pub subset_sound : (xs ys : List A) → subset xs ys ≡ true → (a : A) → In a xs → In a ys
  unfolding subset
  subset_sound [] ys h a m = absurd m
  subset_sound (x ∷ xs) ys h a (inl e) = contains-In ys a (ground arith)
  subset_sound (x ∷ xs) ys h a (inr m) = subset_sound xs ys (ground arith) a m

  pub subset_complete : (xs ys : List A) → ((a : A) → In a xs → In a ys) → subset xs ys ≡ true
  unfolding subset
  subset_complete [] ys h = refl
  subset_complete (x ∷ xs) ys h =
      ground (arith, In-contains ys x (h x (inl refl)), subset_complete xs ys (λ a m. h a (inr m)))
