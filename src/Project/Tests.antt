-- ===== src/Project/Tests.antt =====
-- Two candidates, one of which costs less on the one axis.
use ratcheting_consequence_i.Base.Texts.{is_identifier, is_nonempty_text}
use ratcheting_consequence_i.Base.{
  In, all, any, list_eq, ap, ◌∙◌, ℕ, String, ◌≡◌, refl, true, some, [], ◌∷◌, inl, inr, ok, distinct,
  contains, string_eq, String-discrete,
}
use ratcheting_consequence_i.Base.Order.{string_ord}
use ratcheting_consequence_i.Base.Sort.{sorted}
use ratcheting_consequence_i.Base.Distinct.{IsDistinct}
use ratcheting_consequence_i.Project.Models.{
  canonical, has_successor_texts, valid_successor, CapabilitySuccessorCandidate, CapabilityFrontier,
  implementation, repaired_failure,
}
use ratcheting_consequence_i.Project.Frontier.{Candidates, candidate_id, derive_capability_frontier}
use ratcheting_consequence_i.Project.Frontier.Derived.{
  IsAbout, IsFrontier, derive_capability_frontier-IsFrontier,
}

abbrev successor : String → ℕ → CapabilitySuccessorCandidate
successor id cost = record {
  id = id;
  anchor_id = "anchor";
  limitation_id = "limitation";
  kind = implementation;
  current_state = "now";
  desired_state = "then";
  preserved_capability_ids = "p" ∷ [];
  explicitly_disposed_capability_ids = [];
  gain_kinds = repaired_failure ∷ [];
  discriminator_id = some "d";
  evidence_mechanism_ids = "m" ∷ [];
  estimated_costs = record { axis = "time"; value = some cost } ∷ [];
  reversible = true;
}

abbrev successors : Candidates
successors = successor "s2" 3 ∷ successor "s1" 5 ∷ []

successors-IsDistinct : IsDistinct candidate_id successors
unfolding distinct contains string_eq String-discrete
successors-IsDistinct = refl

successors-IsAbout : IsAbout "anchor" "limitation" successors
successors-IsAbout c (inl e) = rw e (refl, refl)
successors-IsAbout c (inr (inl e)) = rw e (refl, refl)
successors-IsAbout c (inr (inr n)) = absurd n

-- What validation computes with.
validation : Unit {0}
unfolding valid_successor has_successor_texts canonical is_identifier is_nonempty_text all any
    contains distinct sorted string_ord string_eq list_eq String-discrete
validation = tt

named : is_identifier "f" ≡ true
unfolding validation
named = refl

first_valid : valid_successor (successor "s2" 3) ≡ true
unfolding validation
first_valid = refl

second_valid : valid_successor (successor "s1" 5) ≡ true
unfolding validation
second_valid = refl

successors_valid : (c : CapabilitySuccessorCandidate) → In c successors → valid_successor c ≡ true
successors_valid c (inl e) = ap valid_successor e ∙ first_valid
successors_valid c (inr (inl e)) = ap valid_successor e ∙ second_valid
successors_valid c (inr (inr n)) = absurd n

derive_capability_frontier-IsFrontier_example :
    (f : CapabilityFrontier) × (derive_capability_frontier "f" successors ≡ ok f)
    × IsFrontier (sorted candidate_id successors) f
derive_capability_frontier-IsFrontier_example =
    derive_capability_frontier-IsFrontier "f" "anchor" "limitation" (successor "s2" 3) successors
      named successors_valid (inl refl) successors-IsDistinct successors-IsAbout
