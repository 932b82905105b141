-- ===== src/Project/Frontier/Derived.antt =====
-- What `derive_capability_frontier` of src/rci/project/selection.py returns.
use ratcheting_consequence_i.Base.{
  String, ◌≡◌, refl, sym, subst, true, false, not, ◌&&◌, some, [], ◌∷◌, ◌==◌, map, any, arith, In,
  inl, inr, ◌↔◌, string_eq, In-keep, keep-In, In-map, map-In, ok,
}
use ratcheting_consequence_i.Base.Order.{string_ord}
use ratcheting_consequence_i.Base.Sort.{sorted, IsSorted, In-sorted, sorted-In, sorted-IsSorted}
use ratcheting_consequence_i.Base.Distinct.{IsDistinct, IsDistinct-keep, IsDistinct-sorted}
use ratcheting_consequence_i.Base.Texts.{is_identifier}
use ratcheting_consequence_i.Project.Models.{
  valid_successor, CapabilitySuccessorCandidate, CapabilityFrontier, valid_frontier,
}
use ratcheting_consequence_i.Project.Frontier.{
  Candidates, candidate_id, costs_of, cost_no_worse, is_dominated, nondominated, selectable,
  frontier_of, derive_ordered, derive_capability_frontier,
}
use ratcheting_consequence_i.Project.Frontier.Chosen.{
  IsMaximal, is_selectable, In-nondominated, IsMaximal-kept, select_from-least, selected_id-some,
  status_of, subset_ids, nonempty_ids,
}
use ratcheting_consequence_i.Project.Frontier.Identified.{
  IsNamed, valid_successor-Named, frontier_of-Named,
}
use ratcheting_consequence_i.Project.Frontier.Selection.{some_maximal, IsSorted-keep, ids_canonical}

-- What a derived frontier says of the candidates.
pub record IsFrontier (cs : Candidates) (f : CapabilityFrontier) : Type 0 where
  pub accepted : valid_frontier f ≡ true
  pub members : (x : String) → In x f.candidate_ids ↔ In x (map candidate_id cs)
  pub maximal :
      (x : String)
      → In x f.nondominated_candidate_ids
        ↔ ((c : CapabilitySuccessorCandidate) × In c cs × (x ≡ c.id) × IsMaximal cs c)
  pub least :
      (x : String)
      → f.selected_discriminator_candidate_id ≡ some x
      → (c : CapabilitySuccessorCandidate) × In c cs
        × (x ≡ c.id)
        × IsMaximal cs c
        × (is_selectable c ≡ true)
        × ((other : CapabilitySuccessorCandidate)
            → In other cs
            → IsMaximal cs other
            → is_selectable other ≡ true
            → cost_no_worse (costs_of c) (costs_of other) ≡ true)

module _ (frontier_id : String) (first : CapabilitySuccessorCandidate) (others : Candidates) where
  abbrev ordered : Candidates
  ordered = first ∷ others

  frontier-accepted :
      is_identifier frontier_id ≡ true
      → ((c : CapabilitySuccessorCandidate) → In c ordered → IsNamed c)
      → IsDistinct candidate_id ordered
      → IsSorted candidate_id ordered
      → valid_frontier (frontier_of frontier_id first ordered) ≡ true
  unfolding valid_frontier frontier_of
  frontier-accepted named all_named d s =
      let (m, listed, top) = some_maximal first others in
      let kept = (IsMaximal-kept ordered d m listed).1 top in
      let some_kept = nonempty_ids m (nondominated ordered) kept in
      let in_order = ids_canonical ordered s d in
      let kept_in_order =
        ids_canonical (nondominated ordered)
          (IsSorted-keep candidate_id (λ c. not (is_dominated ordered c)) ordered s)
          (IsDistinct-keep candidate_id (λ c. not (is_dominated ordered c)) ordered d) in
      rw
        (
          frontier_of-Named frontier_id first others named all_named,
          some_kept,
          in_order,
          kept_in_order,
          subset_ids ordered,
        )
        (status_of _)

  In-selectable :
      (cs : Candidates) (c : CapabilitySuccessorCandidate)
      → In c (selectable cs) ↔ (In c cs × (is_selectable c ≡ true))
  unfolding selectable
  In-selectable cs c =
      (In-keep is_selectable c cs, λ both. keep-In is_selectable c cs both.0 both.1)

  frontier_of-IsFrontier :
      is_identifier frontier_id ≡ true
      → ((c : CapabilitySuccessorCandidate) → In c ordered → IsNamed c)
      → IsDistinct candidate_id ordered
      → IsSorted candidate_id ordered
      → IsFrontier ordered (frontier_of frontier_id first ordered)
  unfolding frontier_of
  frontier_of-IsFrontier named all_named d s = record {
    accepted = frontier-accepted named all_named d s;
    members = λ x. ((λ m. m), (λ m. m));
    maximal = λ x. (
      (λ m.
          let (c, kept, same) = In-map candidate_id x (nondominated ordered) m in
          let listed = In-nondominated ordered c kept in
          (c, listed, same, (IsMaximal-kept ordered d c listed).0 kept)),
      (λ found.
          let (c, listed, same, top) = found in
          subst (λ y. In y (map candidate_id (nondominated ordered))) (sym same)
            (map-In candidate_id c (nondominated ordered)
              ((IsMaximal-kept ordered d c listed).1 top))),
    );
    least = λ x chosen.
        let (c, picked, same) = selected_id-some _ x chosen in
        let (among, cheapest) = select_from-least (selectable (nondominated ordered)) c picked in
        let (kept, fits) = (In-selectable (nondominated ordered) c).0 among in
        let listed = In-nondominated ordered c kept in
        (
          c,
          listed,
          same,
          (IsMaximal-kept ordered d c listed).0 kept,
          fits,
          λ other m top also. cheapest other (
              (In-selectable (nondominated ordered) other).1
                ((IsMaximal-kept ordered d other m).1 top, also)),
        );
  }

-- All candidates are about one anchor and one limitation.
abbrev pub IsAbout : String → String → Candidates → Type 0
IsAbout anchor limitation cs =
    (c : CapabilitySuccessorCandidate)
    → In c cs
    → (c.anchor_id ≡ anchor) × (c.limitation_id ≡ limitation)

shares :
    (anchor limitation : String) (first : CapabilitySuccessorCandidate) (cs : Candidates)
    → (first.anchor_id ≡ anchor) × (first.limitation_id ≡ limitation)
    → IsAbout anchor limitation cs
    → any
        (λ (x : CapabilitySuccessorCandidate).
          not ((x.anchor_id == first.anchor_id) && (x.limitation_id == first.limitation_id)))
        cs
      ≡ false
unfolding any
shares anchor limitation first [] here about = refl
shares anchor limitation first (c ∷ cs) here about =
    let (anchors, limits) = about c (inl refl) in
    ground (arith, anchors, limits, shares anchor limitation first cs here (λ x m. about x (inr m)))

derive_ordered-Returns :
    (frontier_id anchor limitation : String) (c : CapabilitySuccessorCandidate) (cs : Candidates)
    → is_identifier frontier_id ≡ true
    → ((x : CapabilitySuccessorCandidate) → In x cs → IsNamed x)
    → In c cs
    → IsDistinct candidate_id cs
    → IsSorted candidate_id cs
    → IsAbout anchor limitation cs
    → (f : CapabilityFrontier) × (derive_ordered frontier_id cs ≡ ok f) × IsFrontier cs f
unfolding derive_ordered
derive_ordered-Returns frontier_id anchor limitation c [] named all_named m d s about = absurd m
derive_ordered-Returns frontier_id anchor limitation c (first ∷ others) named all_named m d s
      about =
    (
      frontier_of frontier_id first (first ∷ others),
      rw
          (
            shares anchor limitation first (first ∷ others) (about first (inl refl)) about,
            frontier-accepted frontier_id first others named all_named d s,
            d,
          )
          refl,
      frontier_of-IsFrontier frontier_id first others named all_named d s,
    )

-- For an identifier and valid candidates with distinct identities that share an anchor and a limitation,
-- of which there is at least one, deriving the frontier returns one that its validator accepts. Its candidates are the
-- given ones; its nondominated candidates are exactly those that no given candidate dominates; and a
-- selected candidate is nondominated, reversible, has a discriminator, and costs no more on any axis
-- than any other such candidate.
pub derive_capability_frontier-IsFrontier :
    (frontier_id anchor limitation : String) (c : CapabilitySuccessorCandidate) (cs : Candidates)
    → is_identifier frontier_id ≡ true
    → ((x : CapabilitySuccessorCandidate) → In x cs → valid_successor x ≡ true)
    → In c cs
    → IsDistinct candidate_id cs
    → IsAbout anchor limitation cs
    → (f : CapabilityFrontier) × (derive_capability_frontier frontier_id cs ≡ ok f)
      × IsFrontier (sorted candidate_id cs) f
unfolding derive_capability_frontier
derive_capability_frontier-IsFrontier frontier_id anchor limitation c cs named valid m d about =
    derive_ordered-Returns frontier_id anchor limitation c (sorted candidate_id cs) named
      (λ x k. valid_successor-Named x (valid x (In-sorted candidate_id x cs k)))
      (sorted-In candidate_id c cs m) (IsDistinct-sorted candidate_id candidate_id cs d)
      (sorted-IsSorted candidate_id cs) (λ x k. about x (In-sorted candidate_id x cs k))
