-- ===== src/Base/Distinct.antt =====
-- Sorting, filtering and the greedy loop keep the distinct identities of the entries distinct.
use ratcheting_consequence_i.Base.{
  String, ◌≡◌, refl, sym, ap, subst, Bool, true, false, List, [], ◌∷◌, ◌++◌, map, any, keep,
  contains, distinct, arith, Bool-cases, string_eq, inl, inr, In, ap, subst, map-In, In-contains,
}
use mathlib.Core.List.{append-nil}
use ratcheting_consequence_i.Base.Order.{Ord}
use ratcheting_consequence_i.Base.Sort.{insert_by, sorted}
use ratcheting_consequence_i.Base.Minimal.{keep_minimal}

module _ {A : Type 0} (f : A → String) where
  abbrev pub IsDistinct : List A → Type 0
  IsDistinct xs = distinct (map f xs) ≡ true

  contains-keep :
      (p : A → Bool) (a : String) (xs : List A)
      → contains (map f xs) a ≡ false
      → contains (map f (keep p xs)) a ≡ false
  unfolding keep contains
  contains-keep p a [] h = refl
  contains-keep p a (x ∷ xs) h = ground (arith, contains-keep p a xs)

  pub IsDistinct-keep : (p : A → Bool) (xs : List A) → IsDistinct xs → IsDistinct (keep p xs)
  unfolding keep distinct
  IsDistinct-keep p [] d = refl
  IsDistinct-keep p (x ∷ xs) d = ground (arith, contains-keep p (f x) xs, IsDistinct-keep p xs)

  module _ {K : Type 0} ⦃o : Ord K⦄ (key : A → K) where
    contains-insert :
        (a : String) (x : A) (ys : List A)
        → contains (map f (insert_by key x ys)) a ≡ contains (map f (x ∷ ys)) a
    unfolding insert_by contains
    contains-insert a x [] = refl
    contains-insert a x (y ∷ ys) = ground (arith, contains-insert a x ys)

    IsDistinct-insert :
        (x : A) (ys : List A) → IsDistinct (x ∷ ys) → IsDistinct (insert_by key x ys)
    unfolding insert_by distinct contains
    IsDistinct-insert x [] d = d
    IsDistinct-insert x (y ∷ ys) d =
        ground (arith, contains-insert (f y) x ys, IsDistinct-insert x ys)

    contains-sorted :
        (a : String) (xs : List A) → contains (map f (sorted key xs)) a ≡ contains (map f xs) a
    unfolding sorted contains
    contains-sorted a [] = refl
    contains-sorted a (x ∷ xs) =
        ground (arith, contains-insert a x (sorted key xs), contains-sorted a xs)

    pub IsDistinct-sorted : (xs : List A) → IsDistinct xs → IsDistinct (sorted key xs)
    unfolding sorted distinct
    IsDistinct-sorted [] d = refl
    IsDistinct-sorted (x ∷ xs) d =
        IsDistinct-insert x (sorted key xs)
          (ground (arith, contains-sorted (f x) xs, IsDistinct-sorted xs))

  contains-drop :
      (a : String) (x : A) (ks xs : List A)
      → contains (map f (ks ++ x ∷ xs)) a ≡ false
      → contains (map f (ks ++ xs)) a ≡ false
  unfolding contains
  contains-drop a x [] xs h = ground arith
  contains-drop a x (k ∷ ks) xs h = ground (arith, contains-drop a x ks xs)

  IsDistinct-drop : (x : A) (ks xs : List A) → IsDistinct (ks ++ x ∷ xs) → IsDistinct (ks ++ xs)
  unfolding distinct
  IsDistinct-drop x [] xs d = ground arith
  IsDistinct-drop x (k ∷ ks) xs d =
      ground (arith, contains-drop (f k) x ks xs, IsDistinct-drop x ks xs)

  append_one : (ks xs : List A) (x : A) → (ks ++ x ∷ []) ++ xs ≡ ks ++ x ∷ xs
  append_one [] xs x = refl
  append_one (k ∷ ks) xs x = ap (k ∷◌) (append_one ks xs x)

  IsDistinct-keep_minimal :
      (covers : A → A → Bool) (ks xs : List A)
      → IsDistinct (ks ++ xs)
      → IsDistinct (keep_minimal covers ks xs)
  unfolding keep_minimal
  IsDistinct-keep_minimal covers ks [] d = subst IsDistinct (append-nil ks) d
  IsDistinct-keep_minimal covers ks (x ∷ xs) d = elim (Bool-cases (any (λ k. covers k x) ks)) [
    | inl covered ↦
        rw (covered, keep_minimal)
          (IsDistinct-keep_minimal covers ks xs (IsDistinct-drop x ks xs d))
    | inr new ↦
        rw (new, keep_minimal)
          (IsDistinct-keep_minimal covers (ks ++ x ∷ []) xs
            (subst IsDistinct (sym (append_one ks xs x)) d))
  ]

  pub IsDistinct-minimal :
      (covers : A → A → Bool) (xs : List A) → IsDistinct xs → IsDistinct (keep_minimal covers [] xs)
  IsDistinct-minimal covers xs d = IsDistinct-keep_minimal covers [] xs d

  -- Among entries with distinct identities an identity belongs to one entry.
  pub distinct_injective :
      (a b : A) (xs : List A) → IsDistinct xs → In a xs → In b xs → f a ≡ f b → a ≡ b
  unfolding distinct
  distinct_injective a b [] d m n same = absurd m
  distinct_injective a b (x ∷ xs) d (inl p) (inl q) same = cc
  distinct_injective a b (x ∷ xs) d (inr m) (inr n) same =
      distinct_injective a b xs (ground arith) m n same
  distinct_injective a b (x ∷ xs) d (inl p) (inr n) same =
      ground (arith, In-contains (map f xs) (f b) (map-In f b xs n), ap f p)
  distinct_injective a b (x ∷ xs) d (inr m) (inl q) same =
      ground (arith, In-contains (map f xs) (f a) (map-In f a xs m), ap f q)
