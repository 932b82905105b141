-- ===== src/Warrant/Environments.antt =====
-- src/rci/warrant/support.py: `minimize_support_environments`.
use ratcheting_consequence_i.Base.{
  ℕ, ◌≤◌, String, ◌≡◌, refl, sym, ap, subst, ◌∙◌, Bool, true, ◌&&◌, Option, none, some, List, [],
  ◌∷◌, map, ◌==◌, subset, length, In, ◌⊎◌, inl, inr, arith, All, string_eq, option_eq, In-map,
  map-In, subset_complete, and_parts,
}
use ratcheting_consequence_i.Base.Keyed.{put, keys, In-put, put-In, put_keeps, keys-In}
use ratcheting_consequence_i.Base.Order.{
  le, le_first, le_rest, nat_ord, string_ord, pair_ord, list_ord,
}
use ratcheting_consequence_i.Base.Sort.{sorted, IsSorted, In-sorted, sorted-In, sorted-IsSorted}
use ratcheting_consequence_i.Base.Minimal.{
  keep_minimal, IsAntichain, IsOrdered, In-keep_minimal, keep_minimal_covers,
  keep_minimal-IsAntichain,
}
use ratcheting_consequence_i.Base.Counting.{subset_of_no_larger}
use ratcheting_consequence_i.Warrant.Models.{SupportEnvironment, valid_environment}
use ratcheting_consequence_i.Warrant.Checks.{index_by}

abbrev EnvironmentKey : Type 0
EnvironmentKey = String × (String × (String × (ℕ × (List String × String))))

-- `item.finite_universe_hash or ""`
abbrev universe_or_empty : Option String → String
universe_or_empty none = ""
universe_or_empty (some u) = u

unfoldable pub environment_key : SupportEnvironment → EnvironmentKey
environment_key e = (
  e.scope_fingerprint,
  (
    e.binding_revision,
    (universe_or_empty e.finite_universe_hash, (length e.assumption_ids, (e.assumption_ids, e.id))),
  ),
)

unfoldable pub same_universe : SupportEnvironment → SupportEnvironment → Bool
same_universe a b =
    (a.scope_fingerprint == b.scope_fingerprint)
    && (a.binding_revision == b.binding_revision)
    && (a.finite_universe_hash == b.finite_universe_hash)

-- Whether a kept environment makes a candidate superfluous.
unfoldable pub environment_covers : SupportEnvironment → SupportEnvironment → Bool
unfolding same_universe
environment_covers kept candidate =
    same_universe kept candidate && subset kept.assumption_ids candidate.assumption_ids

-- `{environment.id: environment for environment in environments}.values()`
unfoldable pub unique_environments : List SupportEnvironment → List SupportEnvironment
unfolding index_by
unique_environments es =
    map (λ (p : String × SupportEnvironment). p.1)
      (index_by (λ (e : SupportEnvironment). e.id) [] es)

unfoldable pub minimize_support_environments : List SupportEnvironment → List SupportEnvironment
unfolding unique_environments environment_covers keep_minimal
minimize_support_environments es =
    keep_minimal environment_covers []
      (sorted {K = EnvironmentKey} environment_key (unique_environments es))

key_order :
    (a b : SupportEnvironment)
    → le {A = EnvironmentKey} (environment_key a) (environment_key b) ≡ true
    → same_universe b a ≡ true
    → length a.assumption_ids ≤ length b.assumption_ids
unfolding environment_key same_universe nat_ord
key_order a b below same =
    let scopes : a.scope_fingerprint ≡ b.scope_fingerprint = ground arith in
    let bindings : a.binding_revision ≡ b.binding_revision = ground arith in
    let universes : a.finite_universe_hash ≡ b.finite_universe_hash = ground arith in
    let after_scope = le_rest _ _ _ _ below scopes in
    let after_binding = le_rest _ _ _ _ after_scope bindings in
    let after_universe = le_rest _ _ _ _ after_binding (ap universe_or_empty universes) in
    let counts : le (length a.assumption_ids) (length b.assumption_ids) ≡ true =
      le_first _ _ _ _ after_universe in
    ground arith

covers_back :
    (a b : SupportEnvironment)
    → valid_environment b ≡ true
    → le {A = EnvironmentKey} (environment_key a) (environment_key b) ≡ true
    → environment_covers b a ≡ true
    → environment_covers a b ≡ true
unfolding environment_covers same_universe valid_environment
covers_back a b ok below covered =
    let (same, within) = and_parts covered in
    let shorter = key_order a b below same in
    let back =
      subset_of_no_larger b.assumption_ids a.assumption_ids (ground arith) shorter within in
    ground arith

All-ordered :
    (x : SupportEnvironment) (ys : List SupportEnvironment)
    → ((y : SupportEnvironment) → In y ys → valid_environment y ≡ true)
    → All (λ y. le {A = EnvironmentKey} (environment_key x) (environment_key y) ≡ true) ys
    → All (λ y. environment_covers y x ≡ true → environment_covers x y ≡ true) ys
All-ordered x [] ok below = tt
All-ordered x (y ∷ ys) ok below =
    (covers_back x y (ok y (inl refl)) below.0, All-ordered x ys (λ z m. ok z (inr m)) below.1)

environments-IsOrdered :
    (es : List SupportEnvironment)
    → ((e : SupportEnvironment) → In e es → valid_environment e ≡ true)
    → IsSorted {K = EnvironmentKey} environment_key es
    → IsOrdered environment_covers es
environments-IsOrdered [] ok s = tt
environments-IsOrdered (x ∷ xs) ok s = (
  All-ordered x xs (λ y m. ok y (inr m)) s.0,
  environments-IsOrdered xs (λ y m. ok y (inr m)) s.1,
)

covers_itself : (e : SupportEnvironment) → environment_covers e e ≡ true
unfolding environment_covers same_universe
covers_itself e = ground (arith, subset_complete e.assumption_ids e.assumption_ids (λ a m. m))

abbrev Pair : Type 0
Pair = String × SupportEnvironment

abbrev index_from : List Pair → List SupportEnvironment → List Pair
index_from = index_by (λ (e : SupportEnvironment). e.id)

In-index_by :
    (d : List Pair) (es : List SupportEnvironment) (p : Pair)
    → In p (index_from d es)
    → In p d ⊎ (In p.1 es × (p.0 ≡ p.1.id))
unfolding index_by
In-index_by d [] p m = inl m
In-index_by d (e ∷ es) p m = elim (In-index_by (put e.id e d) es p m) [
  | inr (later, named) ↦ inr (inr later, named)
  | inl old ↦ elim (In-put e.id e d p old) [
    | inl before ↦ inl before
    | inr (key, new) ↦ inr (inl new, key ∙ sym (ap (λ (x : SupportEnvironment). x.id) new))
  ]
]

keys-index_by :
    (d : List Pair) (es : List SupportEnvironment) (k : String)
    → In k (map (λ (e : SupportEnvironment). e.id) es) ⊎ In k (keys d)
    → In k (keys (index_from d es))
unfolding index_by
keys-index_by d [] k (inl m) = absurd m
keys-index_by d [] k (inr kept) = kept
keys-index_by d (x ∷ xs) k (inl (inr m)) = keys-index_by (put x.id x d) xs k (inl m)
keys-index_by d (x ∷ xs) k (inl (inl here)) =
    keys-index_by (put x.id x d) xs k
      (inr (subst (λ j. In j (keys (put x.id x d))) (sym here) (put-In x.id x d)))
keys-index_by d (x ∷ xs) k (inr m) =
    keys-index_by (put x.id x d) xs k (inr (put_keeps x.id k x d m))

In-unique_environments :
    (es : List SupportEnvironment) (e : SupportEnvironment)
    → In e (unique_environments es)
    → In e es
unfolding unique_environments
In-unique_environments es e m =
    let (p, listed, same) = In-map (λ (x : Pair). x.1) e _ m in
    elim (In-index_by [] es p listed) [
      | inl nothing ↦ absurd nothing
      | inr (given, _) ↦ subst (λ x. In x es) (sym same) given
    ]

unique_environments-In :
    (es : List SupportEnvironment) (e : SupportEnvironment)
    → In e es
    → (u : SupportEnvironment) × In u (unique_environments es) × In u es × (u.id ≡ e.id)
unfolding unique_environments
unique_environments-In es e m =
    let present =
      keys-index_by [] es e.id (inl (map-In (λ (x : SupportEnvironment). x.id) e es m)) in
    let (p, listed, named) = keys-In e.id (index_from [] es) present in
    elim (In-index_by [] es p listed) [
      | inl nothing ↦ absurd nothing
      | inr (given, key) ↦
          (p.1, map-In (λ (x : Pair). x.1) p (index_from [] es) listed, given, sym key ∙ named)
    ]

-- What minimization promises of its result.
pub record IsMinimization (es kept : List SupportEnvironment) : Type 0 where
  pub given : (e : SupportEnvironment) → In e kept → In e es
  pub covered :
      (e : SupportEnvironment)
      → In e es
      → (k : SupportEnvironment) × In k kept × (environment_covers k e ≡ true)
  pub antichain : IsAntichain environment_covers kept

-- For valid environments, of which no two different ones share an identity, minimization keeps given
-- environments only; every given environment has a kept one of the same scope, binding and universe
-- that assumes no more; and no kept environment covers another one in this way.
pub minimize_support_environments-IsMinimization :
    (es : List SupportEnvironment)
    → ((e : SupportEnvironment) → In e es → valid_environment e ≡ true)
    → ((a b : SupportEnvironment) → In a es → In b es → a.id ≡ b.id → a ≡ b)
    → IsMinimization es (minimize_support_environments es)
unfolding minimize_support_environments
minimize_support_environments-IsMinimization es ok named =
    let ordered = sorted {K = EnvironmentKey} environment_key (unique_environments es) in
    let source : (e : SupportEnvironment) → In e ordered → In e es =
      λ e m. In-unique_environments es e (In-sorted {K = EnvironmentKey} environment_key e _ m) in
    record {
      given = λ e m. elim (In-keep_minimal environment_covers [] ordered e m) [
        | inl nothing ↦ absurd nothing
        | inr listed ↦ source e listed
      ];
      covered = λ e m.
          let (u, unique, among, same) = unique_environments-In es e m in
          let (k, kept, over) =
            keep_minimal_covers environment_covers covers_itself [] ordered u
              (sorted-In {K = EnvironmentKey} environment_key u _ unique) in
          (k, kept, subst (λ x. environment_covers k x ≡ true) (named u e among m same) over);
      antichain =
          keep_minimal-IsAntichain environment_covers [] ordered tt
            (environments-IsOrdered ordered (λ e m. ok e (source e m))
              (sorted-IsSorted {K = EnvironmentKey} environment_key (unique_environments es)))
            (λ k x m. absurd m);
    }
