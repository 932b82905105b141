-- ===== src/Base/Minimal.antt =====
-- The greedy loop that the source uses for antichains: candidates in an order, each kept unless a
-- kept one covers it.
use ratcheting_consequence_i.Base.Tests.{if◌then◌else◌, Bool-cases}
use ratcheting_consequence_i.Base.Equality.{string_eq}
use ratcheting_consequence_i.Base.Lists.{In, All, any}
use ratcheting_consequence_i.Base.Members.{
  any_sound, any_none, In-append, In-append_left, In-append_right, All-In,
}
use mathlib.Core.Path.{◌≡◌, refl, sym, subst}
use mathlib.Core.Logic.{◌⊎◌, inl, inr}
use mathlib.Core.Bool.{Bool, true, false}
use mathlib.Core.List.{List, [], ◌∷◌, ◌++◌}
use native.Mathlib.Omega.{arith}

module _ {A : Type 0} (covers : A → A → Bool) where
  unfoldable pub keep_minimal : List A → List A → List A
  unfolding any
  keep_minimal kept [] = kept
  keep_minimal kept (x ∷ xs) =
      if any (λ k. covers k x) kept then keep_minimal kept xs else keep_minimal (kept ++ x ∷ []) xs

  -- Neither of two entries covers the other.
  abbrev pub IsAntichain : List A → Type 0
  IsAntichain [] = Unit
  IsAntichain (k ∷ ks) = All (λ x. (covers k x ≡ false) × (covers x k ≡ false)) ks × IsAntichain ks

  -- A later entry covers an earlier one only if the earlier one covers it.
  abbrev pub IsOrdered : List A → Type 0
  IsOrdered [] = Unit
  IsOrdered (x ∷ xs) = All (λ y. covers y x ≡ true → covers x y ≡ true) xs × IsOrdered xs

  pub In-keep_minimal :
      (kept xs : List A) (a : A) → In a (keep_minimal kept xs) → In a kept ⊎ In a xs
  unfolding keep_minimal
  In-keep_minimal kept [] a m = inl m
  In-keep_minimal kept (x ∷ xs) a m = elim (Bool-cases (any (λ k. covers k x) kept)) [
    | inl covered ↦ elim (In-keep_minimal kept xs a (rw (covered, keep_minimal) at m)) [
      | inl old ↦ inl old
      | inr later ↦ inr (inr later)
    ]
    | inr new ↦ elim (In-keep_minimal (kept ++ x ∷ []) xs a (rw (new, keep_minimal) at m)) [
      | inr later ↦ inr (inr later)
      | inl among ↦ elim (In-append a kept (x ∷ []) among) [
        | inl old ↦ inl old
        | inr (inl here) ↦ inr (inl here)
        | inr (inr none_here) ↦ absurd none_here
      ]
    ]
  ]

  pub keep_minimal-In : (kept xs : List A) (a : A) → In a kept → In a (keep_minimal kept xs)
  unfolding keep_minimal
  keep_minimal-In kept [] a m = m
  keep_minimal-In kept (x ∷ xs) a m = elim (Bool-cases (any (λ k. covers k x) kept)) [
    | inl covered ↦ rw (covered, keep_minimal) (keep_minimal-In kept xs a m)
    | inr new ↦
        rw (new, keep_minimal)
          (keep_minimal-In (kept ++ x ∷ []) xs a (In-append_left a kept (x ∷ []) m))
  ]

  -- Every candidate is covered by a kept one.
  pub keep_minimal_covers :
      ((a : A) → covers a a ≡ true)
      → (kept xs : List A) (a : A) → In a xs
      → (k : A) × In k (keep_minimal kept xs) × (covers k a ≡ true)
  unfolding keep_minimal
  keep_minimal_covers self kept [] a m = absurd m
  keep_minimal_covers self kept (x ∷ xs) a m = elim (Bool-cases (any (λ k. covers k x) kept)) [
    | inl covered ↦
        rw (covered, keep_minimal)
          (elim m [
            | inl here ↦
                let (k, old, over) = any_sound (λ k. covers k x) kept covered in
                (k, keep_minimal-In kept xs k old, subst (λ y. covers k y ≡ true) (sym here) over)
            | inr later ↦ keep_minimal_covers self kept xs a later
          ])
    | inr new ↦
        rw (new, keep_minimal)
          (elim m [
            | inl here ↦ (
              x,
              keep_minimal-In (kept ++ x ∷ []) xs x (In-append_right x kept (x ∷ []) (inl refl)),
              subst (λ y. covers x y ≡ true) (sym here) (self x),
            )
            | inr later ↦ keep_minimal_covers self (kept ++ x ∷ []) xs a later
          ])
  ]

  IsAntichain-append :
      (kept : List A) (x : A)
      → IsAntichain kept
      → ((k : A) → In k kept → (covers k x ≡ false) × (covers x k ≡ false))
      → IsAntichain (kept ++ x ∷ [])
  IsAntichain-append [] x chain apart = (tt, tt)
  IsAntichain-append (k ∷ kept) x chain apart =
      (all_append kept chain.0, IsAntichain-append kept x chain.1 (λ j m. apart j (inr m)))
    where
      all_append :
          (js : List A)
          → All (λ y. (covers k y ≡ false) × (covers y k ≡ false)) js
          → All (λ y. (covers k y ≡ false) × (covers y k ≡ false)) (js ++ x ∷ [])
      all_append [] h = (apart k (inl refl), tt)
      all_append (j ∷ js) h = (h.0, all_append js h.1)

  -- In the order of the candidates the kept ones are pairwise incomparable.
  pub keep_minimal-IsAntichain :
      (kept xs : List A)
      → IsAntichain kept
      → IsOrdered xs
      → ((k x : A) → In k kept → In x xs → covers x k ≡ true → covers k x ≡ true)
      → IsAntichain (keep_minimal kept xs)
  unfolding keep_minimal
  keep_minimal-IsAntichain kept [] chain order across = chain
  keep_minimal-IsAntichain kept (x ∷ xs) chain order across =
      elim (Bool-cases (any (λ k. covers k x) kept)) [
        | inl covered ↦
            rw (covered, keep_minimal)
              (keep_minimal-IsAntichain kept xs chain order.1 (λ k y m n. across k y m (inr n)))
        | inr new ↦
            let apart : (k : A) → In k kept → (covers k x ≡ false) × (covers x k ≡ false) = λ k m.
              ground (arith, any_none (λ j. covers j x) k kept new m, across k x m (inl refl)) in
            rw (new, keep_minimal)
              (keep_minimal-IsAntichain (kept ++ x ∷ []) xs (IsAntichain-append kept x chain apart)
                order.1
                (λ k y m n above. elim (In-append k kept (x ∷ []) m) [
                  | inl old ↦ across k y old (inr n) above
                  | inr (inl here) ↦
                      subst (λ j. covers j y ≡ true) (sym here)
                        (All-In (λ z. covers z x ≡ true → covers x z ≡ true) y xs order.0 n
                          (subst (λ j. covers y j ≡ true) here above))
                  | inr (inr none_here) ↦ absurd none_here
                ]))
      ]
