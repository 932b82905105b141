-- ===== src/Base/Sort.antt =====
-- `sorted(xs, key=...)` and `min(xs, key=...)` of Python: a stable insertion sort, and the first
-- entry whose key no other entry's key is below.
use mathlib.Core.Path.{◌≡◌, refl, sym, subst, ◌∙◌}
use mathlib.Core.Logic.{◌⊎◌, inl, inr}
use mathlib.Core.Bool.{true}
use mathlib.Core.List.{List, [], ◌∷◌}
use native.Mathlib.Omega.{arith}
use ratcheting_consequence_i.Base.Tests.{if◌then◌else◌, Bool-cases}
use ratcheting_consequence_i.Base.Lists.{In, All}
use ratcheting_consequence_i.Base.Order.{Ord, le, less, le_total, le_trans, le_refl, less_iff_le}

module _ {A K : Type 0} ⦃o : Ord K⦄ (key : A → K) where
  unfoldable pub insert_by : A → List A → List A
  insert_by x [] = x ∷ []
  insert_by x (y ∷ ys) =
      let later = insert_by x ys in if le (key x) (key y) then x ∷ y ∷ ys else y ∷ later

  unfoldable pub sorted : List A → List A
  unfolding insert_by
  sorted [] = []
  sorted (x ∷ xs) = insert_by x (sorted xs)

  unfoldable pub min_of : A → List A → A
  min_of x [] = x
  min_of x (y ∷ ys) = min_of (if less (key y) (key x) then y else x) ys

  -- Every entry's key is at most the keys after it.
  abbrev pub IsSorted : List A → Type 0
  IsSorted [] = Unit
  IsSorted (x ∷ xs) = All (λ y. le (key x) (key y) ≡ true) xs × IsSorted xs

  In-insert_by : (a x : A) (ys : List A) → In a (insert_by x ys) → (a ≡ x) ⊎ In a ys
  unfolding insert_by
  In-insert_by a x [] h = h
  In-insert_by a x (y ∷ ys) h = ground (arith, In-insert_by a x ys)

  insert_by-In : (a x : A) (ys : List A) → (a ≡ x) ⊎ In a ys → In a (insert_by x ys)
  unfolding insert_by
  insert_by-In a x [] h = h
  insert_by-In a x (y ∷ ys) (inl e) = ground (arith, insert_by-In a x ys (inl e))
  insert_by-In a x (y ∷ ys) (inr (inl e)) = ground arith
  insert_by-In a x (y ∷ ys) (inr (inr m)) = ground (arith, insert_by-In a x ys (inr m))

  -- Sorting keeps the entries.
  pub In-sorted : (a : A) (xs : List A) → In a (sorted xs) → In a xs
  unfolding sorted
  In-sorted a [] h = h
  In-sorted a (x ∷ xs) h = ground (arith, In-insert_by a x (sorted xs), In-sorted a xs)

  pub sorted-In : (a : A) (xs : List A) → In a xs → In a (sorted xs)
  unfolding sorted
  sorted-In a [] h = h
  sorted-In a (x ∷ xs) (inl e) = insert_by-In a x (sorted xs) (inl e)
  sorted-In a (x ∷ xs) (inr m) = insert_by-In a x (sorted xs) (inr (sorted-In a xs m))

  All-insert_by : (P : A → Type 0) (x : A) (ys : List A) → P x → All P ys → All P (insert_by x ys)
  unfolding insert_by
  All-insert_by P x [] px h = (px, tt)
  All-insert_by P x (y ∷ ys) px h = elim (Bool-cases (le (key x) (key y))) [
    | inl below ↦ rw below (px, h)
    | inr above ↦ rw above (h.0, All-insert_by P x ys px h.1)
  ]

  All-le :
      (x y : A) (ys : List A)
      → le (key x) (key y) ≡ true
      → All (λ z. le (key y) (key z) ≡ true) ys
      → All (λ z. le (key x) (key z) ≡ true) ys
  All-le x y [] below h = tt
  All-le x y (z ∷ zs) below h =
      (le_trans (key x) (key y) (key z) below h.0, All-le x y zs below h.1)

  insert_by-IsSorted : (x : A) (ys : List A) → IsSorted ys → IsSorted (insert_by x ys)
  unfolding insert_by
  insert_by-IsSorted x [] h = (tt, tt)
  insert_by-IsSorted x (y ∷ ys) h = elim (Bool-cases (le (key x) (key y))) [
    | inl below ↦ rw below ((below, All-le x y ys below h.0), h)
    | inr above ↦ rw above (
      All-insert_by (λ z. le (key y) (key z) ≡ true) x ys (le_total (key x) (key y) above) h.0,
      insert_by-IsSorted x ys h.1,
    )
  ]

  pub sorted-IsSorted : (xs : List A) → IsSorted (sorted xs)
  unfolding sorted
  sorted-IsSorted [] = tt
  sorted-IsSorted (x ∷ xs) = insert_by-IsSorted x (sorted xs) (sorted-IsSorted xs)

  lower_of : A → A → A
  lower_of x y = if less (key y) (key x) then y else x

  lower_of-cases : (x y : A) → (lower_of x y ≡ x) ⊎ (lower_of x y ≡ y)
  unfolding lower_of
  lower_of-cases x y = ground arith

  lower_of-le :
      (x y : A)
      → (le (key (lower_of x y)) (key x) ≡ true) × (le (key (lower_of x y)) (key y) ≡ true)
  unfolding lower_of
  lower_of-le x y = ground (
    arith,
    less_iff_le (key y) (key x),
    le_refl (key x),
    le_refl (key y),
    o.cmp_swap (key x) (key y),
  )

  min_of-cons : (x y : A) (ys : List A) → min_of x (y ∷ ys) ≡ min_of (lower_of x y) ys
  unfolding min_of lower_of
  min_of-cons x y ys = refl

  In-widen :
      {b m : A} (x y : A) (ys : List A) → (b ≡ x) ⊎ (b ≡ y) → In m (b ∷ ys) → In m (x ∷ y ∷ ys)
  In-widen x y ys first (inr later) = inr (inr later)
  In-widen x y ys (inl e) (inl same) = inl (same ∙ e)
  In-widen x y ys (inr e) (inl same) = inr (inl (same ∙ e))

  -- The minimum is an entry, and its key is at most every entry's key.
  pub In-min_of : (x : A) (xs : List A) → In (min_of x xs) (x ∷ xs)
  In-min_of x [] = inl (unfold min_of in refl)
  In-min_of x (y ∷ ys) =
      subst (λ m. In m (x ∷ y ∷ ys)) (sym (min_of-cons x y ys))
        (In-widen x y ys (lower_of-cases x y) (In-min_of (lower_of x y) ys))

  min_of-le-first : (x : A) (xs : List A) → le (key (min_of x xs)) (key x) ≡ true
  min_of-le-first x [] = unfold min_of in le_refl (key x)
  min_of-le-first x (y ∷ ys) =
      rw min_of-cons
        (le_trans {A = K} _ _ _ (min_of-le-first (lower_of x y) ys) (lower_of-le x y).0)

  pub min_of-le :
      (x : A) (xs : List A) (a : A) → In a (x ∷ xs) → le (key (min_of x xs)) (key a) ≡ true
  min_of-le x xs a (inl e) = rw e (min_of-le-first x xs)
  min_of-le x (y ∷ ys) a (inr (inl e)) =
      rw (e, min_of-cons)
        (le_trans {A = K} _ _ _ (min_of-le-first (lower_of x y) ys) (lower_of-le x y).1)
  min_of-le x (y ∷ ys) a (inr (inr m)) = rw min_of-cons (min_of-le (lower_of x y) ys a (inr m))
  min_of-le x [] a (inr m) = absurd m
