-- ===== src/Base/Keyed.antt =====
-- Python's `dict`: an association list in insertion order, in which writing a present key keeps its
-- place.
use mathlib.Core.Path.{◌≡◌, refl, sym}
use mathlib.Core.Bool.{true, ◌||◌}
use mathlib.Core.Logic.{◌⊎◌, inl, inr}
use ratcheting_consequence_i.Base.Lists.{In, contains, distinct}
use mathlib.Core.Option.{Option, none, some}
use mathlib.Core.List.{List, [], ◌∷◌}
use native.Mathlib.Omega.{arith}
use ratcheting_consequence_i.Base.Tests.{if◌then◌else◌}
use ratcheting_consequence_i.Base.Equality.{Eq, ◌==◌}

module _ {ℓ} {K V : Type ℓ} ⦃e : Eq K⦄ where
  -- `d.get(k)`
  unfoldable pub lookup : K → List (K × V) → Option V
  lookup k [] = none
  lookup k ((j, v) ∷ d) = if j == k then some v else lookup k d

  -- `d[k] = v`
  unfoldable pub put : K → V → List (K × V) → List (K × V)
  put k v [] = (k, v) ∷ []
  put k v ((j, w) ∷ d) = if j == k then (j, v) ∷ d else (j, w) ∷ put k v d

  -- `d.setdefault(k, v)`
  unfoldable pub set_default : K → V → List (K × V) → List (K × V)
  set_default k v [] = (k, v) ∷ []
  set_default k v ((j, w) ∷ d) = if j == k then (j, w) ∷ d else (j, w) ∷ set_default k v d

  pub lookup-put :
      (k j : K) (v : V) (d : List (K × V))
      → lookup j (put k v d) ≡ (if k == j then some v else lookup j d)
  unfolding lookup put
  lookup-put k j v [] = refl
  lookup-put k j v ((i, w) ∷ d) = ground (arith, lookup-put k j v d)

  pub lookup-set_default :
      (k j : K) (v : V) (d : List (K × V))
      → lookup j (set_default k v d)
        ≡ elim (lookup j d) [ some w ↦ some w | none ↦ if k == j then some v else none ]
  unfolding lookup set_default
  lookup-set_default k j v [] = refl
  lookup-set_default k j v ((i, w) ∷ d) = ground (arith, lookup-set_default k j v d)

-- `set_default` keeps every entry, adds at most the one that is offered, and leaves its key present.
module _ {K V : Type 0} ⦃e : Eq K⦄ where
  abbrev pub keys : List (K × V) → List K
  keys [] = []
  keys ((k, v) ∷ d) = k ∷ keys d

  pub In-set_default :
      (k : K) (v : V) (d : List (K × V)) (x : K × V)
      → In x (set_default k v d)
      → In x d ⊎ (x ≡ (k, v))
  unfolding set_default
  In-set_default k v [] x (inl same) = inr same
  In-set_default k v [] x (inr m) = absurd m
  In-set_default k v ((j, w) ∷ d) x m = ground (arith, In-set_default k v d x)

  pub set_default-In :
      (k : K) (v : V) (d : List (K × V)) (x : K × V) → In x d → In x (set_default k v d)
  unfolding set_default
  set_default-In k v [] x m = absurd m
  set_default-In k v ((j, w) ∷ d) x m = ground (arith, set_default-In k v d x)

  pub set_default_present :
      (k : K) (v : V) (d : List (K × V))
      → (x : K × V) × In x (set_default k v d) × (x.0 ≡ k) × (In x d ⊎ (x.1 ≡ v))
  unfolding set_default
  set_default_present k v [] = ((k, v), inl refl, refl, inr refl)
  set_default_present k v ((j, w) ∷ d) = elim (e.dec j k) [
    | yes p ↦ ((j, w), ground arith, p, inl (inl refl))
    | no p ↦
        let (x, m, same, from) = set_default_present k v d in (x, ground arith, same, ground arith)
  ]

  contains-set_default :
      (k j : K) (v : V) (d : List (K × V))
      → contains (keys (set_default k v d)) j ≡ (contains (keys d) j || (j == k))
  unfolding set_default contains
  contains-set_default k j v [] = ground arith
  contains-set_default k j v ((i, w) ∷ d) = ground (arith, contains-set_default k j v d)

  pub distinct-set_default :
      (k : K) (v : V) (d : List (K × V))
      → distinct (keys d) ≡ true
      → distinct (keys (set_default k v d)) ≡ true
  unfolding set_default distinct
  distinct-set_default k v [] h = refl
  distinct-set_default k v ((j, w) ∷ d) h =
      ground (arith, contains-set_default k j v d, distinct-set_default k v d)

  -- What `put` leaves: the old entries and the new one; and every key, with the new one.
  pub In-put :
      (k : K) (v : V) (d : List (K × V)) (x : K × V)
      → In x (put k v d)
      → In x d ⊎ ((x.0 ≡ k) × (x.1 ≡ v))
  unfolding put
  In-put k v [] x (inl same) = inr (ground arith)
  In-put k v [] x (inr m) = absurd m
  In-put k v ((j, w) ∷ d) x m = ground (arith, In-put k v d x)

  pub put-In : (k : K) (v : V) (d : List (K × V)) → In k (keys (put k v d))
  unfolding put
  put-In k v [] = inl refl
  put-In k v ((j, w) ∷ d) = ground (arith, put-In k v d)

  pub put_keeps : (k j : K) (v : V) (d : List (K × V)) → In j (keys d) → In j (keys (put k v d))
  unfolding put
  put_keeps k j v [] m = absurd m
  put_keeps k j v ((i, w) ∷ d) m = ground (arith, put_keeps k j v d)

  pub keys-In : (k : K) (d : List (K × V)) → In k (keys d) → (x : K × V) × In x d × (x.0 ≡ k)
  keys-In k [] m = absurd m
  keys-In k ((j, w) ∷ d) (inl same) = ((j, w), inl refl, sym same)
  keys-In k ((j, w) ∷ d) (inr m) = let (x, there, e) = keys-In k d m in (x, inr there, e)

  pub keys-put :
      (k j : K) (v : V) (d : List (K × V)) → In j (keys (put k v d)) → In j (keys d) ⊎ (j ≡ k)
  unfolding put
  keys-put k j v [] (inl same) = inr same
  keys-put k j v [] (inr m) = absurd m
  keys-put k j v ((i, w) ∷ d) m = ground (arith, keys-put k j v d)
