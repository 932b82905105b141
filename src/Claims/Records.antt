-- ===== src/Claims/Records.antt =====
-- src/rci/claims/models.py: claims, conflicts, candidates, residuals, corrections and guard changes, with
-- the conditions that their validators check. Freezing of a payload's containers is not shown, and freezing
-- refuses numbers that are not finite.
use ratcheting_consequence_i.Base.{
  ◌≡◌, refl, Result, ok, ◌>>=◌, String, Bool, true, false, not, ◌&&◌, ◌||◌, Option, none, some,
  List, map, Eq, ◌==◌, contains, distinct, String-discrete, string_eq, option_eq,
}
use ratcheting_consequence_i.Base.Order.{le, string_ord}
use ratcheting_consequence_i.Canonical.{Json, Hashing, array}
use ratcheting_consequence_i.Canonical.Freeze.{freeze_json, IsFinite, freeze_json-Finite}
use ratcheting_consequence_i.Claims.{BoundArgument, Scope, argument_items, scope_fingerprint}
use ratcheting_consequence_i.Core.Records.{ArtifactRef}

pub data InertPayload : Type 0 where
  artifact : ArtifactRef → InertPayload
  json : Json → InertPayload

-- `validate_payload`
unfoldable pub freeze_payload : InertPayload → Result InertPayload
unfolding freeze_json
freeze_payload (artifact ref) = ok (artifact ref)
freeze_payload (json value) = freeze_json value >>= λ frozen. ok (json frozen)

abbrev pub IsFinitePayload : InertPayload → Type 0
IsFinitePayload (artifact ref) = Unit
IsFinitePayload (json value) = IsFinite value

pub freeze_payload-Finite : (p : InertPayload) → IsFinitePayload p → freeze_payload p ≡ ok p
unfolding freeze_payload
freeze_payload-Finite (artifact ref) finite = refl
freeze_payload-Finite (json value) finite = rw (freeze_json-Finite value finite) refl

pub data ClaimRole : Type 0 where
  observation characterization variation boundary factor necessity sufficiency prerequisite :
      ClaimRole
  conflict residual localization generalization actualization invariant pattern : ClaimRole
  interpretation unknown_role : ClaimRole

unfoldable pub ClaimRole-discrete : Discrete ClaimRole
ClaimRole-discrete = hlevel

pub data ClaimStatus : Type 0 where
  provisional suspended superseded : ClaimStatus

pub data ClaimAssessment : Type 0 where
  unassessed supported contested refuted unknown_assessment : ClaimAssessment

pub data RepresentationLevel : Type 0 where
  l0_opaque l1_structured l2_formal l3_promoted_view : RepresentationLevel

unfoldable pub RepresentationLevel-discrete : Discrete RepresentationLevel
RepresentationLevel-discrete = hlevel

instance unfoldable pub level_eq : Eq RepresentationLevel
unfolding RepresentationLevel-discrete
level_eq = record { dec = RepresentationLevel-discrete }

pub data Polarity : Type 0 where
  positive negative unspecified : Polarity

pub data ConflictKind : Type 0 where
  structural_polarity candidate_semantic : ConflictKind

pub data CandidateKind : Type 0 where
  question_answer formalization reconstruction generated_probe : CandidateKind

pub data CorrectionKind : Type 0 where
  supersedes splits_from merges_from rebinds refutes suspends promotes reopens : CorrectionKind

pub data GuardStanding : Type 0 where
  guard_standing guard_invalidated : GuardStanding

pub record Provenance : Type 0 where
  pub kind : String
  pub source_id : String
  pub source_revision : Option String

unfoldable pub valid_provenance : Provenance → Bool
valid_provenance p = not (p.kind == "" || p.source_id == "")

pub record Claim : Type 0 where
  pub id : String
  pub role : ClaimRole
  pub bound_args : List BoundArgument
  pub payload : InertPayload
  pub scope : Scope
  pub provenance : Provenance
  pub status : ClaimStatus
  pub assessment : ClaimAssessment
  pub representation_level : RepresentationLevel
  pub parent_ids : List String
  pub proposition_id : Option String
  pub polarity : Polarity

unfoldable pub valid_claim : Claim → Bool
valid_claim c =
    not (c.id == "")
    && distinct (map (λ (a : BoundArgument). a.name) c.bound_args)
    && distinct c.parent_ids
    && not (c.representation_level == l3_promoted_view)

pub record Conflict : Type 0 where
  pub id : String
  pub claim_ids : String × String
  pub kind : ConflictKind
  pub scope : Scope
  pub proposition_id : Option String

-- Two identities, in order.
unfoldable pub valid_conflict : Conflict → Bool
unfolding string_ord
valid_conflict c = not (c.claim_ids.0 == c.claim_ids.1) && le c.claim_ids.0 c.claim_ids.1

pub record Candidate : Type 0 where
  pub id : String
  pub kind : CandidateKind
  pub payload : InertPayload
  pub scope : Scope
  pub provenance : Provenance
  pub source_ids : List String

unfoldable pub valid_candidate : Candidate → Bool
valid_candidate c = not (c.id == "") && distinct c.source_ids

pub record Residual : Type 0 where
  pub id : String
  pub carrier_id : String
  pub payload : InertPayload
  pub scope : Scope
  pub provenance : Provenance
  pub source_obligation_ids : List String

unfoldable pub valid_residual : Residual → Bool
valid_residual r = not (r.id == "" || r.carrier_id == "") && distinct r.source_obligation_ids

pub record Correction : Type 0 where
  pub id : String
  pub kind : CorrectionKind
  pub target_id : String
  pub related_ids : List String
  pub scope : Scope
  pub provenance : Provenance

unfoldable pub valid_correction : Correction → Bool
valid_correction c =
    not (c.id == "" || c.target_id == "")
    && distinct c.related_ids
    && not (contains c.related_ids c.target_id)

pub record GuardChange : Type 0 where
  pub id : String
  pub condition_id : String
  pub scope_fingerprint : String
  pub standing : GuardStanding
  pub reason : String
  pub predecessor_id : Option String

unfoldable pub valid_guard_change : GuardChange → Bool
valid_guard_change g =
    not (g.id == "" || g.condition_id == "" || g.scope_fingerprint == "" || g.reason == "")
    && not (g.predecessor_id == some g.id)

pub record StructuralKey : Type 0 where
  pub proposition : String
  pub role : ClaimRole
  pub args : String
  pub scope : String

unfoldable pub StructuralKey-discrete : Discrete StructuralKey
unfolding String-discrete ClaimRole-discrete
StructuralKey-discrete = hlevel (String-discrete, ClaimRole-discrete)

instance unfoldable pub structural_key_eq : Eq StructuralKey
unfolding StructuralKey-discrete
structural_key_eq = record { dec = StructuralKey-discrete }

abbrev pub is_unspecified : Polarity → Bool
is_unspecified unspecified = true
is_unspecified positive = false
is_unspecified negative = false

module _ (h : Hashing) where
  -- `Claim.structural_key`
  unfoldable pub structural_key : Claim → Option StructuralKey
  unfolding scope_fingerprint
  structural_key c = elim c.proposition_id [
    | none ↦ none
    | some p ↦ elim (is_unspecified c.polarity) [
      | true ↦ none
      | false ↦ some (record {
        proposition = p;
        role = c.role;
        args = h.canonical_json (array (argument_items c.bound_args));
        scope = scope_fingerprint h c.scope;
      })
    ]
  ]
