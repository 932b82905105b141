-- ===== src/Project/Frontier/Dominance.antt =====
-- Dominance of src/rci/project/selection.py is a strict partial order.
use ratcheting_consequence_i.Base.{
  ℕ, ◌≡◌, ◌∙◌, true, false, ◌||◌, Option, List, Eq, arith, inl, inr, subset, string_eq,
  subset_sound, subset_complete, all_sound, all_complete, any_sound, any_complete, Bool-cases,
  and_parts,
}
use ratcheting_consequence_i.Base.Keyed.{lookup, keys}
use ratcheting_consequence_i.Project.Models.{CapabilitySuccessorCandidate, gain_eq}
use ratcheting_consequence_i.Project.Frontier.{
  Costs, costs_of, has_unknown_cost, known_le, known_less, cost_no_worse, cost_better, same_axes,
  strictly_more, candidate_dominates,
}

-- The parts of a dominance.
record Dominates (l r : CapabilitySuccessorCandidate) : Type 0 where
  anchor : l.anchor_id ≡ r.anchor_id
  limitation : l.limitation_id ≡ r.limitation_id
  axes : same_axes (costs_of l) (costs_of r) ≡ true
  left_known : has_unknown_cost (costs_of l) ≡ false
  right_known : has_unknown_cost (costs_of r) ≡ false
  preserves : subset r.preserved_capability_ids l.preserved_capability_ids ≡ true
  gains : subset r.gain_kinds l.gain_kinds ≡ true
  costs : cost_no_worse (costs_of l) (costs_of r) ≡ true
  strict :
      (strictly_more l.preserved_capability_ids r.preserved_capability_ids
        || strictly_more l.gain_kinds r.gain_kinds
        || cost_better (costs_of l) (costs_of r))
      ≡ true

Dominates-parts :
    (l r : CapabilitySuccessorCandidate) → candidate_dominates l r ≡ true → Dominates l r
unfolding candidate_dominates
Dominates-parts l r h = record {
  anchor = ground arith;
  limitation = ground arith;
  axes = ground arith;
  left_known = ground arith;
  right_known = ground arith;
  preserves = ground arith;
  gains = ground arith;
  costs = ground arith;
  strict = ground arith;
}

Dominates-whole :
    (l r : CapabilitySuccessorCandidate) → Dominates l r → candidate_dominates l r ≡ true
unfolding candidate_dominates
Dominates-whole l r d = ground (
  arith, d.anchor, d.limitation, d.axes, d.left_known, d.right_known, d.preserves, d.gains, d.costs,
  d.strict,
)

known_le_trans :
    (x y z : Option (Option ℕ)) → known_le x y ≡ true → known_le y z ≡ true → known_le x z ≡ true
known_le_trans x y z h k = ground arith

known_less_le :
    (x y z : Option (Option ℕ))
    → known_less x y ≡ true
    → known_le y z ≡ true
    → known_less x z ≡ true
known_less_le x y z h k = ground arith

known_le_less :
    (x y z : Option (Option ℕ))
    → known_le x y ≡ true
    → known_less y z ≡ true
    → known_less x z ≡ true
known_le_less x y z h k = ground arith

known_less_irreflexive : (x : Option (Option ℕ)) → known_less x x ≡ false
known_less_irreflexive x = ground arith

module _ {A : Type 0} ⦃e : Eq A⦄ where
  subset_trans :
      (xs ys zs : List A) → subset xs ys ≡ true → subset ys zs ≡ true → subset xs zs ≡ true
  subset_trans xs ys zs h k =
      subset_complete xs zs (λ a m. subset_sound ys zs k a (subset_sound xs ys h a m))

  pub subset_refl : (xs : List A) → subset xs xs ≡ true
  subset_refl xs = subset_complete xs xs (λ a m. m)

  -- More than something that holds something else, or no less than something that has more.
  more_trans :
      (l m r : List A)
      → subset m l ≡ true
      → subset r m ≡ true
      → (strictly_more l m || strictly_more m r) ≡ true
      → strictly_more l r ≡ true
  more_trans l m r h k more =
      ground (arith, subset_trans r m l k h, subset_trans l r m, subset_trans m l r)

module _ (left mid right : Costs) where
  costs_trans :
      same_axes left mid ≡ true
      → cost_no_worse left mid ≡ true
      → cost_no_worse mid right ≡ true
      → cost_no_worse left right ≡ true
  unfolding cost_no_worse same_axes
  costs_trans axes h k = all_complete _ (keys left) (λ a m.
      known_le_trans (lookup a left) (lookup a mid) (lookup a right) (all_sound _ (keys left) h a m)
        (all_sound _ (keys mid) k a (subset_sound (keys left) (keys mid) (and_parts axes).0 a m)))

  better_first :
      same_axes left mid ≡ true
      → cost_better left mid ≡ true
      → cost_no_worse mid right ≡ true
      → cost_better left right ≡ true
  unfolding cost_better cost_no_worse same_axes
  better_first axes h k =
      let (a, m, less) = any_sound _ (keys left) h in
      any_complete _ a (keys left) m (
        known_less_le (lookup a left) (lookup a mid) (lookup a right) less
          (all_sound _ (keys mid) k a (subset_sound (keys left) (keys mid) (and_parts axes).0 a m)))

  better_second :
      same_axes left mid ≡ true
      → cost_no_worse left mid ≡ true
      → cost_better mid right ≡ true
      → cost_better left right ≡ true
  unfolding cost_better cost_no_worse same_axes
  better_second axes h k =
      let (a, m, less) = any_sound _ (keys mid) k in
      let there = subset_sound (keys mid) (keys left) (and_parts axes).1 a m in
      any_complete _ a (keys left) there (
        known_le_less (lookup a left) (lookup a mid) (lookup a right)
          (all_sound _ (keys left) h a there) less)

  axes_trans : same_axes left mid ≡ true → same_axes mid right ≡ true → same_axes left right ≡ true
  unfolding same_axes
  axes_trans h k = ground (
    arith,
    subset_trans (keys left) (keys mid) (keys right),
    subset_trans (keys right) (keys mid) (keys left),
  )

strict_cases :
    (l m r : CapabilitySuccessorCandidate)
    → Dominates l m
    → Dominates m r
    → (strictly_more l.preserved_capability_ids r.preserved_capability_ids
        || strictly_more l.gain_kinds r.gain_kinds
        || cost_better (costs_of l) (costs_of r))
      ≡ true
strict_cases l m r d e = ground (
  arith,
  d.strict,
  more_trans l.preserved_capability_ids m.preserved_capability_ids r.preserved_capability_ids
      d.preserves e.preserves,
  more_trans l.gain_kinds m.gain_kinds r.gain_kinds d.gains e.gains,
  better_first (costs_of l) (costs_of m) (costs_of r) d.axes,
  e.costs,
)

pub dominates_trans :
    (l m r : CapabilitySuccessorCandidate)
    → candidate_dominates l m ≡ true
    → candidate_dominates m r ≡ true
    → candidate_dominates l r ≡ true
dominates_trans l m r h k =
    let d = Dominates-parts l m h in
    let e = Dominates-parts m r k in
    Dominates-whole l r (record {
      anchor = d.anchor ∙ e.anchor;
      limitation = d.limitation ∙ e.limitation;
      axes = axes_trans (costs_of l) (costs_of m) (costs_of r) d.axes e.axes;
      left_known = d.left_known;
      right_known = e.right_known;
      preserves =
          subset_trans r.preserved_capability_ids m.preserved_capability_ids
            l.preserved_capability_ids e.preserves d.preserves;
      gains = subset_trans r.gain_kinds m.gain_kinds l.gain_kinds e.gains d.gains;
      costs = costs_trans (costs_of l) (costs_of m) (costs_of r) d.axes d.costs e.costs;
      strict = strict_cases l m r d e;
    })

better_irreflexive : (d : Costs) → ¬ (cost_better d d ≡ true)
unfolding cost_better
better_irreflexive d h =
    let (a, m, less) = any_sound _ (keys d) h in cc (less, known_less_irreflexive (lookup a d))

pub dominates_irreflexive : (c : CapabilitySuccessorCandidate) → candidate_dominates c c ≡ false
dominates_irreflexive c = elim (Bool-cases (candidate_dominates c c)) [
  | inr never ↦ never
  | inl itself ↦
      let d = Dominates-parts c c itself in
      absurd (better_irreflexive (costs_of c) (ground (arith, d.strict)))
]

-- Dominance between successor candidates is transitive, and no candidate dominates itself: it is a
-- strict partial order.
pub candidate_dominates_order :
    ((l m r : CapabilitySuccessorCandidate)
      → candidate_dominates l m ≡ true
      → candidate_dominates m r ≡ true
      → candidate_dominates l r ≡ true)
    × ((c : CapabilitySuccessorCandidate) → candidate_dominates c c ≡ false)
candidate_dominates_order = (dominates_trans, dominates_irreflexive)
