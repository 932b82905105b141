-- ===== src/Warrant/Theory/Standing.antt =====
-- src/rci/warrant/support.py: what stands by an append-only history of changes, of which the last one about an
-- identity counts.
use ratcheting_consequence_i.Base.{
  String, ◌≡◌, ◌≢◌, refl, sym, ◌∙◌, true, Option, none, some, List, [], ◌∷◌, arith, In, ◌⊎◌, inl,
  inr, ◌↔◌, string_eq, ◌==◌, ==_iff, Bool, Bool-cases, ==_refl,
}
use mathlib.Core.Option.{some-injective}
use ratcheting_consequence_i.Base.Keyed.{lookup, put, lookup-put}
use ratcheting_consequence_i.Warrant.Models.{
  SupportRoute, SupportStanding, SupportRouteStandingChange, NogoodStandingChange, Nogood, standing,
  standing_eq,
}
use ratcheting_consequence_i.Warrant.Checks.{index_by}
use ratcheting_consequence_i.Warrant.Theory.{is_standing, route_is_standing, nogood_is_standing}

module _ {A : Type 0} (about : A → String) (k : String) where
  abbrev pub IsUnmentioned : List A → Type 0
  IsUnmentioned xs = (x : A) → In x xs → about x ≢ k

  -- The last change about the identity.
  pub data Last : List A → A → Type 0 where
    now : {x : A} {xs : List A} → about x ≡ k → IsUnmentioned xs → Last (x ∷ xs) x
    later : {x y : A} {xs : List A} → Last xs y → Last (x ∷ xs) y

  unmentioned-lookup :
      (d : List (String × A)) (xs : List A)
      → IsUnmentioned xs
      → lookup k (index_by about d xs) ≡ lookup k d
  unfolding index_by
  unmentioned-lookup d [] absent = refl
  unmentioned-lookup d (x ∷ xs) absent =
      unmentioned-lookup (put (about x) x d) xs (λ y m. absent y (inr m))
      ∙ ground (arith, lookup-put (about x) k x d, ==_iff (about x) k, absent x (inl refl))

  Last-lookup :
      (d : List (String × A)) (xs : List A) (y : A)
      → Last xs y
      → lookup k (index_by about d xs) ≡ some y
  unfolding index_by
  Last-lookup d (x ∷ xs) _ (now same absent) =
      unmentioned-lookup (put (about x) x d) xs absent
      ∙ ground (arith, lookup-put (about x) k x d, ==_iff (about x) k)
  Last-lookup d (x ∷ xs) y (later last) = Last-lookup (put (about x) x d) xs y last
  Last-lookup d [] y last = elim last [ ]

  Last-cases : (xs : List A) → IsUnmentioned xs ⊎ ((y : A) × Last xs y)
  Last-cases [] = inl (λ x m. absurd m)
  Last-cases (x ∷ xs) = elim (Last-cases xs) [
    | inr (y, last) ↦ inr (y, later last)
    | inl absent ↦ elim (Bool-cases (about x == k)) [
      | inl same ↦ inr (x, now ((==_iff (about x) k).0 same) absent)
      | inr other ↦ inl (λ y m. elim m [
        | inl here ↦ (λ e. ground (arith, ==_iff (about x) k))
        | inr rest ↦ absent y rest
      ])
    ]
  ]

  -- No change mentions the identity, or the last one that does says that it stands.
  pub Stands : (A → SupportStanding) → List A → Type 0
  Stands says xs = IsUnmentioned xs ⊎ ((y : A) × Last xs y × (says y ≡ standing))

  found_standing : (A → SupportStanding) → List A → Bool
  found_standing says xs = elim (lookup k (index_by about [] xs)) [
    | none ↦ true
    | some y ↦ is_standing (says y)
  ]

  found-Stands :
      (says : A → SupportStanding) (xs : List A) → (found_standing says xs ≡ true) ↔ Stands says xs
  unfolding found_standing Stands lookup
  found-Stands says xs = elim (Last-cases xs) [
    | inl absent ↦
        let missing = unmentioned-lookup [] xs absent in
        ((λ _. inl absent), (λ _. rw (missing, found_standing) refl))
    | inr (y, last) ↦
        let found = Last-lookup [] xs y last in
        (
          (λ h.
              let says_so : is_standing (says y) ≡ true = rw (found, found_standing) at h in
              inr (y, last, (==_iff (says y) standing).0 says_so)),
          (λ s. elim s [
            | inl absent ↦ absurd (some-ne (sym (unmentioned-lookup [] xs absent) ∙ found))
            | inr (z, also, stands) ↦
                let one = some-injective _ _ (sym (Last-lookup [] xs z also) ∙ found) in
                rw (found, sym one, stands, found_standing) (==_refl standing)
          ]),
        )
  ]
    where
      some-ne : {y : A} → ◌≡◌ {A = Option A} none (some y) → ⊥
      some-ne e = cc

-- The route stands by the changes.
abbrev pub RouteStands : List SupportRouteStandingChange → SupportRoute → Type 0
RouteStands changes r =
    Stands (λ (ch : SupportRouteStandingChange). ch.support_route_id) r.id
      (λ (ch : SupportRouteStandingChange). ch.standing) changes

abbrev pub NogoodStands : List NogoodStandingChange → Nogood → Type 0
NogoodStands changes n =
    Stands (λ (ch : NogoodStandingChange). ch.nogood_id) n.id
      (λ (ch : NogoodStandingChange). ch.standing) changes

pub route_is_standing-Stands :
    (changes : List SupportRouteStandingChange) (r : SupportRoute)
    → (route_is_standing changes r ≡ true) ↔ RouteStands changes r
unfolding route_is_standing found_standing
route_is_standing-Stands changes r = found-Stands _ r.id _ changes

pub nogood_is_standing-Stands :
    (changes : List NogoodStandingChange) (n : Nogood)
    → (nogood_is_standing changes n ≡ true) ↔ NogoodStands changes n
unfolding nogood_is_standing found_standing
nogood_is_standing-Stands changes n = found-Stands _ n.id _ changes
