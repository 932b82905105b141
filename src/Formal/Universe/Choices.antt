-- ===== src/Formal/Universe/Choices.antt =====
-- The choices of one value for each domain, and the enumeration of a universe.
use ratcheting_consequence_i.Base.{
  ℕ, ◌*◌, ◌≡◌, ◌↔◌, refl, ◌∙◌, List, [], ◌∷◌, map, gather, length, In, inl, inr, arith, subst, sym,
  In-map, map-In, In-gather, gather-In, length-append, length-map,
}
use ratcheting_consequence_i.Formal.Ast.{Scalar}
use ratcheting_consequence_i.Formal.Universe.{
  FiniteDomain, FiniteUniverse, AssignmentValue, Assignment, assignments, count_assignments,
  enumerate_assignments, assignment_count,
}

-- One value of each domain, in the order of the domains.
abbrev pub Chooses : List FiniteDomain → Assignment → Type 0
Chooses [] [] = Unit
Chooses [] (v ∷ vs) = ⊥
Chooses (d ∷ ds) [] = ⊥
Chooses (d ∷ ds) (v ∷ vs) = (v.symbol ≡ d.symbol) × In v.value d.values × Chooses ds vs

abbrev item : FiniteDomain → Scalar → AssignmentValue
item d v = record { symbol = d.symbol; value = v }

abbrev choices_with : FiniteDomain → List FiniteDomain → Scalar → List Assignment
choices_with d ds v = map (λ rest. item d v ∷ rest) (assignments ds)

In-assignments : (ds : List FiniteDomain) (a : Assignment) → In a (assignments ds) → Chooses ds a
unfolding assignments
In-assignments [] [] m = tt
In-assignments [] (v ∷ vs) (inl e) = cc
In-assignments [] (v ∷ vs) (inr m) = m
In-assignments (d ∷ ds) a m =
    let (v, from_domain, k) = In-gather (choices_with d ds) a d.values m in
    let (rest, from_rest, e) = In-map (λ rest. item d v ∷ rest) a (assignments ds) k in
    subst (Chooses (d ∷ ds)) (sym e) (refl, from_domain, In-assignments ds rest from_rest)

assignments-In : (ds : List FiniteDomain) (a : Assignment) → Chooses ds a → In a (assignments ds)
unfolding assignments
assignments-In [] [] c = inl refl
assignments-In [] (v ∷ vs) c = absurd c
assignments-In (d ∷ ds) [] c = absurd c
assignments-In (d ∷ ds) (v ∷ vs) (named, chosen, rest) =
    gather-In (choices_with d ds) v.value (v ∷ vs) d.values chosen (
      subst (λ (w : AssignmentValue). In (w ∷ vs) (choices_with d ds v.value)) (cc)
        (map-In (λ r. item d v.value ∷ r) vs (assignments ds) (assignments-In ds vs rest)))

length-gather :
    (f : Scalar → List Assignment) (n : ℕ) (vs : List Scalar)
    → ((v : Scalar) → length (f v) ≡ n)
    → length (gather f vs) ≡ length vs * n
unfolding gather
length-gather f n [] h = omega arith
length-gather f n (v ∷ vs) h =
    omega (arith, length-append (f v) (gather f vs), h v, length-gather f n vs h)

length-assignments : (ds : List FiniteDomain) → length (assignments ds) ≡ count_assignments ds
unfolding assignments count_assignments
length-assignments [] = refl
length-assignments (d ∷ ds) =
    length-gather (choices_with d ds) (count_assignments ds) d.values
      λ v. length-map (λ r. item d v ∷ r) (assignments ds) ∙ length-assignments ds

-- The enumeration of a universe holds exactly the assignments that take one value of each domain,
-- and its length is the assignment count that the budget is compared with.
pub enumerate_complete :
    (u : FiniteUniverse)
    → ((a : Assignment) → In a (enumerate_assignments u) ↔ Chooses u.domains a)
      × (length (enumerate_assignments u) ≡ assignment_count u)
unfolding enumerate_assignments assignment_count
enumerate_complete u =
    (λ a. (In-assignments u.domains a, assignments-In u.domains a), length-assignments u.domains)
