-- ===== src/Project/Frontier/Identified.antt =====
-- src/rci/project/selection.py: a frontier of validated candidates has identifiers of the required form.
use ratcheting_consequence_i.Base.{
  String, ◌≡◌, refl, sym, subst, Bool, true, not, ◌&&◌, [], ◌∷◌, map, all, keep, arith, In, inl,
  inr, In-append, In-map, In-keep, all_complete, Option-cases,
}
use ratcheting_consequence_i.Base.Texts.{is_identifier}
use ratcheting_consequence_i.Project.Models.{
  CapabilitySuccessorCandidate, optional_identifier, has_successor_texts, valid_successor,
  has_frontier_identifiers,
}
use ratcheting_consequence_i.Project.Frontier.{
  Candidates, candidate_id, candidate_dominates, nondominated, incomparable_pairs, selectable,
  cost_minima, select_from, selected_id, frontier_of,
}
use ratcheting_consequence_i.Project.Frontier.Chosen.{In-nondominated, select_from-least}

-- The identifiers of a candidate that a frontier takes over.
pub record IsNamed (c : CapabilitySuccessorCandidate) : Type 0 where
  pub id : is_identifier c.id ≡ true
  pub anchor : is_identifier c.anchor_id ≡ true
  pub limitation : is_identifier c.limitation_id ≡ true

pub valid_successor-Named :
    (c : CapabilitySuccessorCandidate) → valid_successor c ≡ true → IsNamed c
unfolding valid_successor has_successor_texts
valid_successor-Named c valid = record {
  id = ground arith;
  anchor = ground arith;
  limitation = ground arith;
}

AllNamed : Candidates → Type 0
AllNamed cs = (c : CapabilitySuccessorCandidate) → In c cs → IsNamed c

ids-Named : (cs : Candidates) → AllNamed cs → all is_identifier (map candidate_id cs) ≡ true
unfolding AllNamed
ids-Named cs named = all_complete is_identifier (map candidate_id cs) (λ x m.
    let (c, listed, same) = In-map candidate_id x cs m in
    subst (λ y. is_identifier y ≡ true) (sym same) (named c listed).id)

abbrev pair_named : String × String → Bool
pair_named p = is_identifier p.0 && is_identifier p.1

pairs-In :
    (cs : Candidates)
    → AllNamed cs
    → (p : String × String) → In p (incomparable_pairs cs)
    → pair_named p ≡ true
unfolding incomparable_pairs AllNamed
pairs-In [] named p m = absurd m
pairs-In (l ∷ rest) named p m =
    let apart = λ (r : CapabilitySuccessorCandidate).
      not (candidate_dominates l r) && not (candidate_dominates r l) in
    elim (In-append p (map (λ (r : CapabilitySuccessorCandidate). (l.id, r.id)) (keep apart rest)) _
      m) [
        | inr later ↦ pairs-In rest (λ c k. named c (inr k)) p later
        | inl first ↦
            let (r, kept, same) =
              In-map (λ (r : CapabilitySuccessorCandidate). (l.id, r.id)) p (keep apart rest)
                first in
            let right = (named r (inr (In-keep apart r rest kept).0)).id in
            subst (λ q. pair_named q ≡ true) (sym same) (rw ((named l (inl refl)).id, right) refl)
      ]

selected-Named :
    (cs : Candidates)
    → AllNamed cs
    → optional_identifier (selected_id (select_from (cost_minima (selectable (nondominated cs)))))
      ≡ true
unfolding selectable AllNamed
selected-Named cs named =
    elim (Option-cases (select_from (cost_minima (selectable (nondominated cs))))) [
      | inl nothing ↦ rw nothing refl
      | inr (c, chosen) ↦
          let listed = (select_from-least (selectable (nondominated cs)) c chosen).0 in
          let kept = (In-keep _ c (nondominated cs) listed).0 in
          rw (chosen, (named c (In-nondominated cs c kept)).id) refl
    ]

pub frontier_of-Named :
    (frontier_id : String) (first : CapabilitySuccessorCandidate) (others : Candidates)
    → is_identifier frontier_id ≡ true
    → ((c : CapabilitySuccessorCandidate) → In c (first ∷ others) → IsNamed c)
    → has_frontier_identifiers (frontier_of frontier_id first (first ∷ others)) ≡ true
unfolding has_frontier_identifiers frontier_of AllNamed
frontier_of-Named frontier_id first others named all_named =
    let cs = first ∷ others in
    let kept = ids-Named (nondominated cs) (λ c m. all_named c (In-nondominated cs c m)) in
    let pairs =
      all_complete pair_named (incomparable_pairs (nondominated cs))
        (pairs-In (nondominated cs) (λ c m. all_named c (In-nondominated cs c m))) in
    let one = all_named first (inl refl) in
    rw
      (
        named,
        one.anchor,
        one.limitation,
        ids-Named cs all_named,
        kept,
        pairs,
        selected-Named cs all_named,
      )
      refl
