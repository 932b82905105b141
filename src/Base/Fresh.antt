-- ===== src/Base/Fresh.antt =====
-- The loops of the source that take each entry whose key is not known yet, and note its key.
use ratcheting_consequence_i.Base.{
  String, ◌≡◌, ◌≢◌, refl, sym, ap, subst, true, false, List, [], ◌∷◌, map, contains, distinct, In,
  ◌⊎◌, inl, inr, Bool-cases, string_eq, In-map, contains-In, In-contains,
}
use ratcheting_consequence_i.Base.Distinct.{IsDistinct}

module _ {A : Type 0} (key : A → String) where
  -- What a loop keeps that takes each entry whose key is not known yet.
  pub record IsNew (known : List String) (xs found : List A) : Type 0 where
    pub fresh : (x : A) → In x found → ¬ In (key x) known
    pub once : IsDistinct key found
    pub given : (x : A) → In x found → In x xs
    pub covered : (x : A) → In x xs → In (key x) known ⊎ In (key x) (map key found)

  pub IsNew-none : (known : List String) → IsNew known [] []
  unfolding distinct
  IsNew-none known = record {
    fresh = λ x m. absurd m;
    once = refl;
    given = λ x m. m;
    covered = λ x m. absurd m;
  }

  pub IsNew-skip :
      (known : List String) (x : A) (xs found : List A)
      → contains known (key x) ≡ true
      → IsNew known xs found
      → IsNew known (x ∷ xs) found
  IsNew-skip known x xs found old n = record {
    fresh = n.fresh;
    once = n.once;
    given = λ y m. inr (n.given y m);
    covered = λ y m. elim m [
      | inl here ↦ inl (subst (λ z. In (key z) known) (sym here) (contains-In known (key x) old))
      | inr later ↦ n.covered y later
    ];
  }

  absent : (k : String) (ks : List String) → contains ks k ≡ false → ¬ In k ks
  absent k ks no_match m = cc (no_match, In-contains ks k m)

  not_there :
      (y : A) (ys : List A)
      → ((z : A) → In z ys → key z ≢ key y)
      → contains (map key ys) (key y) ≡ false
  not_there y ys apart = elim (Bool-cases (contains (map key ys) (key y))) [
    | inr away ↦ away
    | inl there ↦
        let (z, m, same) = In-map key (key y) ys (contains-In (map key ys) (key y) there) in
        absurd (apart z m (sym same))
  ]

  pub IsNew-take :
      (known : List String) (x : A) (xs found : List A)
      → contains known (key x) ≡ false
      → IsNew (key x ∷ known) xs found
      → IsNew known (x ∷ xs) (x ∷ found)
  unfolding distinct
  IsNew-take known x xs found new n = record {
    fresh = λ y m k. elim m [
      | inl here ↦ absent (key x) known new (subst (λ z. In (key z) known) here k)
      | inr later ↦ n.fresh y later (inr k)
    ];
    once = rw (not_there x found (λ y m same. n.fresh y m (inl same)), n.once) refl;
    given = λ y m. elim m [ inl here ↦ inl here | inr later ↦ inr (n.given y later) ];
    covered = λ y m. elim m [
      | inl here ↦ inr (inl (ap key here))
      | inr later ↦ elim (n.covered y later) [
        | inl (inl same) ↦ inr (inl same)
        | inl (inr old) ↦ inl old
        | inr listed ↦ inr (inr listed)
      ]
    ];
  }
