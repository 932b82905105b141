-- ===== src/Base/Members.antt =====
-- Membership in what the list operations build.
use mathlib.Core.Path.{◌≡◌, refl, ap, sym, subst}
use mathlib.Core.Logic.{◌⊎◌, inl, inr}
use mathlib.Core.Bool.{Bool, true, false, not}
use mathlib.Core.Option.{none, some}
use mathlib.Core.List.{List, [], ◌∷◌, ◌++◌, map}
use native.Mathlib.Omega.{arith}
use Prim.Native.Nat.{◌+◌}
use ratcheting_consequence_i.Base.Tests.{Bool-cases, not_parts}
use ratcheting_consequence_i.Base.Equality.{Eq}
use ratcheting_consequence_i.Base.Lists.{
  In, All, length, any, all, keep, find, gather, contains, unique, minus, is_empty, contains-In,
  In-contains,
}

module _ {B : Type 0} where
  pub In-append_left : (b : B) (xs ys : List B) → In b xs → In b (xs ++ ys)
  In-append_left b [] ys m = absurd m
  In-append_left b (x ∷ xs) ys (inl e) = inl e
  In-append_left b (x ∷ xs) ys (inr m) = inr (In-append_left b xs ys m)

  pub In-append_right : (b : B) (xs ys : List B) → In b ys → In b (xs ++ ys)
  In-append_right b [] ys m = m
  In-append_right b (x ∷ xs) ys m = inr (In-append_right b xs ys m)

  pub In-append : (b : B) (xs ys : List B) → In b (xs ++ ys) → In b xs ⊎ In b ys
  In-append b [] ys m = inr m
  In-append b (x ∷ xs) ys (inl e) = inl (inl e)
  In-append b (x ∷ xs) ys (inr m) = elim (In-append b xs ys m) [
    | inl k ↦ inl (inr k)
    | inr k ↦ inr k
  ]

  pub length-append : (xs ys : List B) → length (xs ++ ys) ≡ length xs + length ys
  length-append [] ys = omega arith
  length-append (x ∷ xs) ys = omega (arith, length-append xs ys)

module _ {A B : Type 0} where
  pub In-map : (f : A → B) (b : B) (xs : List A) → In b (map f xs) → (a : A) × In a xs × (b ≡ f a)
  In-map f b [] m = absurd m
  In-map f b (x ∷ xs) (inl e) = (x, inl refl, e)
  In-map f b (x ∷ xs) (inr m) = let (a, k, e) = In-map f b xs m in (a, inr k, e)

  pub map-In : (f : A → B) (a : A) (xs : List A) → In a xs → In (f a) (map f xs)
  map-In f a [] m = absurd m
  map-In f a (x ∷ xs) (inl e) = inl (ap f e)
  map-In f a (x ∷ xs) (inr m) = inr (map-In f a xs m)

  pub length-map : (f : A → B) (xs : List A) → length (map f xs) ≡ length xs
  length-map f [] = refl
  length-map f (x ∷ xs) = omega (arith, length-map f xs)

  pub In-gather :
      (f : A → List B) (b : B) (xs : List A) → In b (gather f xs) → (a : A) × In a xs × In b (f a)
  unfolding gather
  In-gather f b [] m = absurd m
  In-gather f b (x ∷ xs) m = elim (In-append b (f x) (gather f xs) m) [
    | inl here ↦ (x, inl refl, here)
    | inr later ↦ let (a, k, e) = In-gather f b xs later in (a, inr k, e)
  ]

  pub gather-In :
      (f : A → List B) (a : A) (b : B) (xs : List A) → In a xs → In b (f a) → In b (gather f xs)
  unfolding gather
  gather-In f a b [] m k = absurd m
  gather-In f a b (x ∷ xs) (inl e) k =
      In-append_left b (f x) (gather f xs) (subst (λ y. In b (f y)) e k)
  gather-In f a b (x ∷ xs) (inr m) k =
      In-append_right b (f x) (gather f xs) (gather-In f a b xs m k)

module _ {A : Type 0} where
  pub In-keep : (p : A → Bool) (a : A) (xs : List A) → In a (keep p xs) → In a xs × (p a ≡ true)
  unfolding keep
  In-keep p a [] m = absurd m
  In-keep p a (x ∷ xs) m = ground (arith, In-keep p a xs)

  pub keep-In : (p : A → Bool) (a : A) (xs : List A) → In a xs → p a ≡ true → In a (keep p xs)
  unfolding keep
  keep-In p a [] m h = absurd m
  keep-In p a (x ∷ xs) (inl e) h = ground arith
  keep-In p a (x ∷ xs) (inr m) h = ground (arith, keep-In p a xs m h)

  pub all_sound : (p : A → Bool) (xs : List A) → all p xs ≡ true → (a : A) → In a xs → p a ≡ true
  unfolding all
  all_sound p [] h a m = absurd m
  all_sound p (x ∷ xs) h a (inl e) = ground arith
  all_sound p (x ∷ xs) h a (inr m) = all_sound p xs (ground arith) a m

  pub all_complete :
      (p : A → Bool) (xs : List A) → ((a : A) → In a xs → p a ≡ true) → all p xs ≡ true
  unfolding all
  all_complete p [] h = refl
  all_complete p (x ∷ xs) h = rw (h x (inl refl)) (all_complete p xs (λ a m. h a (inr m)))

  pub any_sound : (p : A → Bool) (xs : List A) → any p xs ≡ true → (a : A) × In a xs × (p a ≡ true)
  unfolding any
  any_sound p [] h = cc
  any_sound p (x ∷ xs) h = elim (Bool-cases (p x)) [
    | inl here ↦ (x, inl refl, here)
    | inr no_match ↦ let (a, m, e) = any_sound p xs (rw no_match at h) in (a, inr m, e)
  ]

  pub any_complete : (p : A → Bool) (a : A) (xs : List A) → In a xs → p a ≡ true → any p xs ≡ true
  unfolding any
  any_complete p a [] m h = absurd m
  any_complete p a (x ∷ xs) (inl e) h = ground arith
  any_complete p a (x ∷ xs) (inr m) h = ground (arith, any_complete p a xs m h)

  pub any_none : (p : A → Bool) (a : A) (xs : List A) → any p xs ≡ false → In a xs → p a ≡ false
  unfolding any
  any_none p a [] h m = absurd m
  any_none p a (x ∷ xs) h (inl e) = ground arith
  any_none p a (x ∷ xs) h (inr m) = any_none p a xs (ground arith) m

  pub find_sound :
      (p : A → Bool) (a : A) (xs : List A) → find p xs ≡ some a → In a xs × (p a ≡ true)
  unfolding find
  find_sound p a [] h = cc
  find_sound p a (x ∷ xs) h = ground (arith, find_sound p a xs)

  pub find-none : (p : A → Bool) (a : A) (xs : List A) → find p xs ≡ none → In a xs → p a ≡ false
  unfolding find
  find-none p a [] h m = absurd m
  find-none p a (x ∷ xs) h (inl e) = ground arith
  find-none p a (x ∷ xs) h (inr m) = find-none p a xs (ground arith) m

module _ {A : Type 0} ⦃e : Eq A⦄ where
  pub In-unique : (a : A) (xs : List A) → In a (unique xs) → In a xs
  unfolding unique
  In-unique a [] m = absurd m
  In-unique a (x ∷ xs) m = ground (arith, In-unique a xs)

  pub unique-In : (a : A) (xs : List A) → In a xs → In a (unique xs)
  unfolding unique
  unique-In a [] m = absurd m
  unique-In a (x ∷ xs) (inl same) = elim (Bool-cases (contains xs x)) [
    | inl again ↦
        rw again (unique-In a xs (subst (λ y. In y xs) (sym same) (contains-In xs x again)))
    | inr first ↦ rw first (inl same)
  ]
  unique-In a (x ∷ xs) (inr m) = elim (Bool-cases (contains xs x)) [
    | inl again ↦ rw again (unique-In a xs m)
    | inr first ↦ rw first (inr (unique-In a xs m))
  ]

  pub In-minus : (a : A) (xs ys : List A) → In a (minus xs ys) → In a xs × ¬ In a ys
  unfolding minus
  In-minus a xs ys m =
      let (k, h) = In-keep (λ x. not (contains ys x)) a xs m in
      (k, λ there. cc (In-contains ys a there, not_parts h))

  pub minus-In : (a : A) (xs ys : List A) → In a xs → ¬ In a ys → In a (minus xs ys)
  unfolding minus
  minus-In a xs ys m absent =
      keep-In (λ x. not (contains ys x)) a xs m
        (elim (Bool-cases (contains ys a)) [
          | inl there ↦ absurd (absent (contains-In ys a there))
          | inr missing ↦ rw missing
        ])

module _ {A : Type 0} where
  pub some_entry : (xs : List A) → is_empty xs ≡ false → (a : A) × In a xs
  some_entry [] h = cc
  some_entry (x ∷ xs) h = (x, inl refl)

  pub no_entry : (xs : List A) → ((a : A) → ¬ In a xs) → is_empty xs ≡ true
  no_entry [] h = refl
  no_entry (x ∷ xs) h = absurd (h x (inl refl))

module _ {A : Type 0} where
  pub All-In : (P : A → Type 0) (a : A) (xs : List A) → All P xs → In a xs → P a
  All-In P a [] h m = absurd m
  All-In P a (x ∷ xs) h (inl e) = subst P (sym e) h.0
  All-In P a (x ∷ xs) h (inr m) = All-In P a xs h.1 m
