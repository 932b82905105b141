-- ===== src/Project/Frontier.antt =====
-- src/rci/project/selection.py: dominance between successor candidates, and the frontier.
use ratcheting_consequence_i.Base.{
  ℕ, String, Bool, true, false, not, ◌&&◌, ◌||◌, Option, none, some, List, [], ◌∷◌, ◌++◌, map, Eq,
  ◌==◌, any, all, keep, contains, subset, distinct, is_some, is_none, is_empty, ltb, leb,
  if◌then◌else◌, string_eq, Result, ok, raise, value_error, ◌>>=◌, ◌>>◌, require, refuse,
}
use ratcheting_consequence_i.Base.Keyed.{lookup, put, keys}
use ratcheting_consequence_i.Base.Order.{string_ord}
use ratcheting_consequence_i.Base.Sort.{sorted, min_of}
use ratcheting_consequence_i.Project.Models.{
  ProjectCost, CapabilitySuccessorCandidate, CapabilityFrontier, ready, unknown, gain_eq,
  valid_frontier,
}
pub mod Dominance
pub mod Selection
pub mod Chosen
pub mod Identified
pub mod Derived

abbrev pub Costs : Type 0
Costs = List (String × Option ℕ)

-- `{item.axis: item.value for item in estimated_costs}`, over what the dictionary holds.
unfoldable pub index_costs : Costs → List ProjectCost → Costs
unfolding put
index_costs d [] = d
index_costs d (c ∷ cs) = index_costs (put c.axis c.value d) cs

unfoldable pub costs_of : CapabilitySuccessorCandidate → Costs
unfolding index_costs
costs_of c = index_costs [] c.estimated_costs

abbrev pub has_unknown_cost : Costs → Bool
has_unknown_cost d = any (λ (p : String × Option ℕ). is_none p.1) d

-- `left[axis] <= right[axis]` and `<`. They are only asked where both values are known; elsewhere the
-- tests fail.
abbrev pub known_le : Option (Option ℕ) → Option (Option ℕ) → Bool
known_le (some (some a)) (some (some b)) = leb a b
known_le _ _ = false

abbrev pub known_less : Option (Option ℕ) → Option (Option ℕ) → Bool
known_less (some (some a)) (some (some b)) = ltb a b
known_less _ _ = false

unfoldable pub cost_no_worse : Costs → Costs → Bool
unfolding all lookup
cost_no_worse left right = all (λ axis. known_le (lookup axis left) (lookup axis right)) (keys left)

unfoldable pub cost_better : Costs → Costs → Bool
unfolding any lookup
cost_better left right = any (λ axis. known_less (lookup axis left) (lookup axis right)) (keys left)

-- `left_costs.keys() == right_costs.keys()`
unfoldable pub same_axes : Costs → Costs → Bool
unfolding subset
same_axes left right = subset (keys left) (keys right) && subset (keys right) (keys left)

-- `set(left) > set(right)`
abbrev pub strictly_more {ℓ} : {A : Type ℓ} ⦃e : Eq A⦄ → List A → List A → Bool
strictly_more left right = subset right left && not (subset left right)

unfoldable pub candidate_dominates :
    CapabilitySuccessorCandidate → CapabilitySuccessorCandidate → Bool
unfolding costs_of same_axes cost_no_worse cost_better subset any
candidate_dominates l r =
    let left = costs_of l in
    let right = costs_of r in
    if not ((l.anchor_id == r.anchor_id) && (l.limitation_id == r.limitation_id))
    then false
    else if not (same_axes left right) || (has_unknown_cost left || has_unknown_cost right)
    then false
    else subset r.preserved_capability_ids l.preserved_capability_ids
      && subset r.gain_kinds l.gain_kinds
      && cost_no_worse left right
      && (strictly_more l.preserved_capability_ids r.preserved_capability_ids
          || strictly_more l.gain_kinds r.gain_kinds
          || cost_better left right)

abbrev pub Candidates : Type 0
Candidates = List CapabilitySuccessorCandidate

abbrev pub candidate_id : CapabilitySuccessorCandidate → String
candidate_id c = c.id

unfoldable pub is_dominated : Candidates → CapabilitySuccessorCandidate → Bool
unfolding candidate_dominates any
is_dominated ordered c =
    any (λ other. not (other.id == c.id) && candidate_dominates other c) ordered

unfoldable pub nondominated : Candidates → Candidates
unfolding is_dominated keep
nondominated ordered = keep (λ c. not (is_dominated ordered c)) ordered

-- The pairs in order, neither of which dominates the other.
unfoldable pub incomparable_pairs : Candidates → List (String × String)
unfolding candidate_dominates keep
incomparable_pairs [] = []
incomparable_pairs (l ∷ rest) =
    map (λ (r : CapabilitySuccessorCandidate). (l.id, r.id))
      (keep (λ r. not (candidate_dominates l r) && not (candidate_dominates r l)) rest)
    ++ incomparable_pairs rest

unfoldable pub selectable : Candidates → Candidates
unfolding keep
selectable = keep (λ (c : CapabilitySuccessorCandidate). c.reversible && is_some c.discriminator_id)

-- Whether the costs of all selectable candidates are known, on the same axes.
unfoldable pub comparable : Candidates → Bool
unfolding costs_of same_axes any all
comparable [] = false
comparable (c ∷ cs) =
    not (any (λ x. has_unknown_cost (costs_of x)) (c ∷ cs))
    && all (λ x. same_axes (costs_of c) (costs_of x)) cs

unfoldable pub cost_minima : Candidates → Candidates
unfolding comparable cost_no_worse costs_of keep all
cost_minima cs =
    if comparable cs
    then keep (λ c. all (λ other. cost_no_worse (costs_of c) (costs_of other)) cs) cs
    else []

-- `min(cost_minima, key=...)`, if there is one.
unfoldable pub select_from : Candidates → Option CapabilitySuccessorCandidate
unfolding min_of
select_from [] = none
select_from (c ∷ cs) = some (min_of candidate_id c cs)

abbrev pub selected_id : Option CapabilitySuccessorCandidate → Option String
selected_id none = none
selected_id (some c) = some c.id

unfoldable pub frontier_of : String → CapabilitySuccessorCandidate → Candidates → CapabilityFrontier
unfolding nondominated incomparable_pairs selectable cost_minima select_from
frontier_of frontier_id first ordered =
    let best = select_from (cost_minima (selectable (nondominated ordered))) in
    record {
      id = frontier_id;
      anchor_id = first.anchor_id;
      limitation_id = first.limitation_id;
      candidate_ids = map candidate_id ordered;
      nondominated_candidate_ids = map candidate_id (nondominated ordered);
      incomparable_pairs = incomparable_pairs (nondominated ordered);
      selected_discriminator_candidate_id = selected_id best;
      status = if is_some best then ready else unknown;
    }

unfoldable pub derive_ordered : String → Candidates → Result CapabilityFrontier
unfolding frontier_of valid_frontier any distinct
derive_ordered frontier_id [] = raise value_error
derive_ordered frontier_id (first ∷ others) = do
  refuse
      (any
        (λ (c : CapabilitySuccessorCandidate).
          not ((c.anchor_id == first.anchor_id) && (c.limitation_id == first.limitation_id)))
        (first ∷ others))
      value_error
  require (distinct (map candidate_id (first ∷ others))) value_error
  require (valid_frontier (frontier_of frontier_id first (first ∷ others))) value_error
  ok (frontier_of frontier_id first (first ∷ others))

unfoldable pub derive_capability_frontier : String → Candidates → Result CapabilityFrontier
unfolding derive_ordered sorted
derive_capability_frontier frontier_id candidates =
    derive_ordered frontier_id (sorted candidate_id candidates)
