-- ===== src/Warrant/Grounding.antt =====
-- src/rci/warrant/support.py: `grounded_lemma_ids`, the fixed point that grounds lemmas.
use ratcheting_consequence_i.Base.{
  ℕ, zero, suc, ◌+◌, String, Bool, true, false, not, ◌&&◌, ◌||◌, Option, none, some, List, [], ◌∷◌,
  ◌==◌, any, contains, subset, length, if◌then◌else◌, string_eq,
}
use ratcheting_consequence_i.Canonical.{Hashing}
use ratcheting_consequence_i.Warrant.Models.{SupportRoute, hard, warrant_class_eq}
use ratcheting_consequence_i.Warrant.Lemmas.{WarrantedLemma, lemma_id}
use ratcheting_consequence_i.Warrant.Routes.{Circumstances, route_applicable}
pub mod Loop
pub mod Least

-- `grounded` and `changed`
abbrev pub Pass : Type 0
Pass = List String × Bool

module _ (h : Hashing) (c : Circumstances) where
  unfoldable pub route_grounded : List String → WarrantedLemma → SupportRoute → Bool
  unfolding route_applicable
  route_grounded grounded l r =
      route_applicable h c l r && subset r.required_dependency_ids grounded

  unfoldable pub route_stands : List String → WarrantedLemma → Bool
  unfolding route_grounded any
  route_stands grounded l = any (route_grounded grounded l) l.support.support_routes

  -- One lemma of the inner loop.
  unfoldable pub consider : WarrantedLemma → Pass → Pass
  unfolding route_stands
  consider l (grounded, changed) =
      if contains grounded (lemma_id l) || not (l.support.warrant_class == hard)
      then (grounded, changed)
      else if route_stands grounded l
      then (lemma_id l ∷ grounded, true)
      else (grounded, changed)

  -- The inner loop.
  unfoldable pub pass : List WarrantedLemma → Pass → Pass
  unfolding consider
  pass [] s = s
  pass (l ∷ ls) s = pass ls (consider l s)

  -- `while changed`, on fuel.
  unfoldable pub ground_from : ℕ → List WarrantedLemma → List String → List String
  unfolding pass
  ground_from zero ls grounded = grounded
  ground_from (suc fuel) ls grounded =
      let after = pass ls (grounded, false) in
      let rest = ground_from fuel ls after.0 in if after.1 then rest else after.0

  -- Each pass but the last grounds one more lemma, so the loop ends within this fuel.
  unfoldable pub grounded_lemma_ids : List WarrantedLemma → List String
  unfolding ground_from
  grounded_lemma_ids ls = ground_from (suc (length ls)) ls []
