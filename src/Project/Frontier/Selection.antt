-- ===== src/Project/Frontier/Selection.antt =====
-- The frontier that src/rci/project/selection.py derives.
use ratcheting_consequence_i.Base.{
  String, ◌≡◌, refl, ap, ◌∙◌, Bool, true, false, List, [], ◌∷◌, map, keep, arith, In, All, inl, inr,
  string_eq, Bool-cases,
}
use ratcheting_consequence_i.Base.Order.{Ord, le, string_ord}
use ratcheting_consequence_i.Base.Sort.{sorted, insert_by, IsSorted}
use ratcheting_consequence_i.Base.Distinct.{IsDistinct}
use ratcheting_consequence_i.Project.Models.{CapabilitySuccessorCandidate, canonical}
use ratcheting_consequence_i.Project.Frontier.{Candidates, candidate_id, candidate_dominates}
use ratcheting_consequence_i.Project.Frontier.Dominance.{dominates_trans, dominates_irreflexive}

-- In a list there is a candidate that no candidate of the list dominates.
pub some_maximal :
    (c : CapabilitySuccessorCandidate) (cs : Candidates)
    → (m : CapabilitySuccessorCandidate) × In m (c ∷ cs)
      × ((x : CapabilitySuccessorCandidate) → In x (c ∷ cs) → candidate_dominates x m ≡ false)
some_maximal c [] = (
  c,
  inl refl,
  λ x m. elim m [
    | inl here ↦ ap (λ y. candidate_dominates y c) here ∙ dominates_irreflexive c
    | inr nothing ↦ absurd nothing
  ],
)
some_maximal c (d ∷ ds) =
    let (m, listed, top) = some_maximal d ds in
    elim (Bool-cases (candidate_dominates c m)) [
      | inr below ↦ (
        m,
        inr listed,
        λ x k. elim k [
          | inl here ↦ ap (λ y. candidate_dominates y m) here ∙ below
          | inr there ↦ top x there
        ],
      )
      | inl above ↦ (
        c,
        inl refl,
        λ x k. elim k [
          | inl here ↦ ap (λ y. candidate_dominates y c) here ∙ dominates_irreflexive c
          | inr there ↦ elim (Bool-cases (candidate_dominates x c)) [
            | inr not_over ↦ not_over
            | inl over ↦ absurd (contradiction (dominates_trans x c m over above) (top x there))
          ]
        ],
      )
    ]
  where
    contradiction : {b : Bool} → b ≡ true → b ≡ false → ⊥
    contradiction h k = cc (h, k)

module _ {A K : Type 0} ⦃o : Ord K⦄ (key : A → K) where
  insert_first :
      (x : A) (ys : List A) → All (λ y. le (key x) (key y) ≡ true) ys → insert_by key x ys ≡ x ∷ ys
  unfolding insert_by
  insert_first x [] h = refl
  insert_first x (y ∷ ys) h = rw (h.0, insert_by) refl

  -- Sorting a sorted list changes nothing.
  sorted-of_sorted : (xs : List A) → IsSorted key xs → sorted key xs ≡ xs
  unfolding sorted
  sorted-of_sorted [] s = refl
  sorted-of_sorted (x ∷ xs) s = rw (sorted-of_sorted xs s.1) (insert_first x xs s.0)

  All-keep : (P : A → Type 0) (p : A → Bool) (xs : List A) → All P xs → All P (keep p xs)
  unfolding keep
  All-keep P p [] h = tt
  All-keep P p (x ∷ xs) h = elim (Bool-cases (p x)) [
    | inl kept ↦ rw (kept, keep) (h.0, All-keep P p xs h.1)
    | inr left ↦ rw (left, keep) (All-keep P p xs h.1)
  ]

  pub IsSorted-keep : (p : A → Bool) (xs : List A) → IsSorted key xs → IsSorted key (keep p xs)
  unfolding keep
  IsSorted-keep p [] s = tt
  IsSorted-keep p (x ∷ xs) s = elim (Bool-cases (p x)) [
    | inl kept ↦
        rw (kept, keep) (All-keep (λ y. le (key x) (key y) ≡ true) p xs s.0, IsSorted-keep p xs s.1)
    | inr left ↦ rw (left, keep) (IsSorted-keep p xs s.1)
  ]

-- The identities of candidates in the order of their identities are in order.
All-ids :
    (x : String) (cs : Candidates)
    → All (λ (c : CapabilitySuccessorCandidate). le x c.id ≡ true) cs
    → All (λ y. le x y ≡ true) (map candidate_id cs)
All-ids x [] h = tt
All-ids x (c ∷ cs) h = (h.0, All-ids x cs h.1)

ids-IsSorted :
    (cs : Candidates)
    → IsSorted candidate_id cs
    → IsSorted (λ (s : String). s) (map candidate_id cs)
ids-IsSorted [] s = tt
ids-IsSorted (c ∷ cs) s = (All-ids c.id cs s.0, ids-IsSorted cs s.1)

pub ids_canonical :
    (cs : Candidates)
    → IsSorted candidate_id cs
    → IsDistinct candidate_id cs
    → canonical (map candidate_id cs) ≡ true
unfolding canonical
ids_canonical cs s d =
    let fixed = sorted-of_sorted (λ (x : String). x) (map candidate_id cs) (ids-IsSorted cs s) in
    ground arith
