-- ===== src/Project/Frontier/Chosen.antt =====
-- src/rci/project/selection.py: which candidates are nondominated, and which one is selected.
use ratcheting_consequence_i.Base.{
  String, ◌≡◌, refl, sym, ap, subst, ◌∙◌, Bool, true, false, not, ◌&&◌, Option, none, some, [], ◌∷◌,
  ◌==◌, map, all, arith, In, inl, inr, ◌↔◌, subset, is_some, is_empty, if◌then◌else◌, string_eq,
  Bool-cases, and_parts, In-keep, keep-In, In-map, map-In, any_none, any_sound, all_sound,
  subset_complete, not_parts,
}
use mathlib.Core.Option.{some-injective}
use ratcheting_consequence_i.Base.Order.{string_ord}
use ratcheting_consequence_i.Base.Sort.{In-min_of}
use ratcheting_consequence_i.Base.Distinct.{IsDistinct, distinct_injective}
use ratcheting_consequence_i.Project.Models.{
  CapabilitySuccessorCandidate, ready, unknown, status_fits,
}
use ratcheting_consequence_i.Project.Frontier.{
  Candidates, candidate_id, costs_of, cost_no_worse, candidate_dominates, is_dominated,
  nondominated, comparable, cost_minima, select_from, selected_id,
}
use ratcheting_consequence_i.Project.Frontier.Dominance.{dominates_irreflexive}

-- No candidate of the list dominates this one.
abbrev pub IsMaximal : Candidates → CapabilitySuccessorCandidate → Type 0
IsMaximal cs c = (x : CapabilitySuccessorCandidate) → In x cs → candidate_dominates x c ≡ false

abbrev pub is_selectable : CapabilitySuccessorCandidate → Bool
is_selectable c = c.reversible && is_some c.discriminator_id

pub In-nondominated :
    (cs : Candidates) (c : CapabilitySuccessorCandidate) → In c (nondominated cs) → In c cs
unfolding nondominated
In-nondominated cs c m = (In-keep (λ c. not (is_dominated cs c)) c cs m).0

clash : {b : Bool} → b ≡ true → b ≡ false → ⊥
clash h k = cc (h, k)

module _ (cs : Candidates) (d : IsDistinct candidate_id cs) where
  pub IsMaximal-kept :
      (c : CapabilitySuccessorCandidate) → In c cs → (In c (nondominated cs)) ↔ IsMaximal cs c
  unfolding nondominated is_dominated
  IsMaximal-kept c m = (
    (λ kept x k.
        let free = not_parts (In-keep (λ c. not (is_dominated cs c)) c cs kept).1 in
        let apart =
          any_none (λ other. not (other.id == c.id) && candidate_dominates other c) x cs free k in
        elim (Bool-cases (x.id == c.id)) [
          | inl same ↦
              let one = distinct_injective candidate_id x c cs d k m (ground arith) in
              ap (λ y. candidate_dominates y c) one ∙ dominates_irreflexive c
          | inr other ↦ ground arith
        ]),
    (λ top.
        keep-In (λ c. not (is_dominated cs c)) c cs m
          (elim (Bool-cases (is_dominated cs c)) [
            | inr free ↦ rw free refl
            | inl below ↦
                let (x, k, over) =
                  any_sound (λ other. not (other.id == c.id) && candidate_dominates other c) cs
                    below in
                absurd (clash (and_parts over).1 (top x k))
          ])),
  )

pub In-select_from :
    (cs : Candidates) (c : CapabilitySuccessorCandidate) → select_from cs ≡ some c → In c cs
unfolding select_from
In-select_from [] c h = cc
In-select_from (x ∷ xs) c h =
    subst (λ y. In y (x ∷ xs)) (some-injective _ _ h) (In-min_of candidate_id x xs)

-- The selected candidate is one of the given ones, and no other one costs less on any axis.
pub select_from-least :
    (cs : Candidates) (c : CapabilitySuccessorCandidate)
    → select_from (cost_minima cs) ≡ some c
    → In c cs
      × ((other : CapabilitySuccessorCandidate)
          → In other cs
          → cost_no_worse (costs_of c) (costs_of other) ≡ true)
unfolding cost_minima
select_from-least cs c h =
    let m = In-select_from (cost_minima cs) c h in
    elim (Bool-cases (comparable cs)) [
      | inr unlike ↦ absurd (rw (unlike, cost_minima) at m)
      | inl all_known ↦
          let (listed, least) =
            In-keep (λ c. all (λ other. cost_no_worse (costs_of c) (costs_of other)) cs) c cs
              (rw (all_known, cost_minima) at m) in
          (
            listed,
            λ other k.
                all_sound (λ other. cost_no_worse (costs_of c) (costs_of other)) cs least other k,
          )
    ]

pub selected_id-some :
    (o : Option CapabilitySuccessorCandidate) (x : String)
    → selected_id o ≡ some x
    → (c : CapabilitySuccessorCandidate) × (o ≡ some c) × (x ≡ c.id)
selected_id-some none x h = cc
selected_id-some (some c) x h = (c, refl, sym (some-injective _ _ h))

pub status_of :
    (o : Option CapabilitySuccessorCandidate)
    → status_fits (if is_some o then ready else unknown) (selected_id o) ≡ true
status_of none = refl
status_of (some c) = refl

pub subset_ids :
    (cs : Candidates) → subset (map candidate_id (nondominated cs)) (map candidate_id cs) ≡ true
subset_ids cs = subset_complete (map candidate_id (nondominated cs)) (map candidate_id cs) (λ x m.
    let (c, k, e) = In-map candidate_id x (nondominated cs) m in
    subst (λ y. In y (map candidate_id cs)) (sym e)
      (map-In candidate_id c cs (In-nondominated cs c k)))

pub nonempty_ids :
    (c : CapabilitySuccessorCandidate) (cs : Candidates)
    → In c cs
    → is_empty (map candidate_id cs) ≡ false
nonempty_ids c [] m = absurd m
nonempty_ids c (x ∷ xs) m = refl
