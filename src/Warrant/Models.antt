-- ===== src/Warrant/Models.antt =====
-- src/rci/warrant/models.py: the immutable records of evidence, checks, support and lemmas, with the
-- conditions that their validators check.
use ratcheting_consequence_i.Base.{
  String, Bool, not, ◌&&◌, ◌||◌, Option, some, List, [], ◌∷◌, Eq, ◌==◌, any, all, subset, distinct,
  is_none, is_empty, string_eq, option_eq, list_eq,
}
use ratcheting_consequence_i.Base.Order.{string_ord}
use ratcheting_consequence_i.Base.Sort.{sorted}
use ratcheting_consequence_i.Core.Records.{ArtifactRef}

pub data CheckerVerdict : Type 0 where
  valid invalid indeterminate timeout unsupported failed : CheckerVerdict

pub data WarrantClass : Type 0 where
  unwarranted soft solver_trusted hard : WarrantClass

pub data SupportStanding : Type 0 where
  standing withdrawn : SupportStanding

pub data EvidenceKind : Type 0 where
  model_output reification heuristic retrieval observation : EvidenceKind
  independent_witness exhaustive_unsat z3_unsat : EvidenceKind

pub data PropositionKind : Type 0 where
  existential universal relation : PropositionKind

-- `tuple(sorted(values)) == values`
unfoldable pub in_canonical_order : List String → Bool
unfolding sorted
in_canonical_order values = sorted (λ (s : String). s) values == values

pub record Applicability : Type 0 where
  pub condition_id : String
  pub required_context_ids : List String

unfoldable pub valid_applicability : Applicability → Bool
valid_applicability a = not (a.condition_id == "") && distinct a.required_context_ids

pub record CheckReference : Type 0 where
  pub evidence_id : String
  pub checker_verdict_id : String

unfoldable pub valid_reference : CheckReference → Bool
valid_reference r = not (r.evidence_id == "" || r.checker_verdict_id == "")

pub record SupportEnvironment : Type 0 where
  pub id : String
  pub scope_fingerprint : String
  pub binding_revision : String
  pub assumption_ids : List String
  pub finite_universe_hash : Option String
  pub realizability_check : CheckReference

unfoldable pub valid_environment : SupportEnvironment → Bool
unfolding in_canonical_order
valid_environment e =
    not (e.id == "" || e.scope_fingerprint == "" || e.binding_revision == "")
    && distinct e.assumption_ids
    && in_canonical_order e.assumption_ids

pub record Nogood : Type 0 where
  pub id : String
  pub scope_fingerprint : String
  pub binding_revision : String
  pub finite_universe_hash : Option String
  pub policy_version : String
  pub incompatible_assumption_ids : List String
  pub check : CheckReference
  pub warrant_decision_id : String
  pub reason : String

unfoldable pub valid_nogood : Nogood → Bool
unfolding in_canonical_order any
valid_nogood n =
    not (
      any (λ value. value == "")
        (n.id ∷ n.scope_fingerprint ∷ n.binding_revision ∷ n.policy_version ∷ n.warrant_decision_id
          ∷ [])
      || is_empty n.incompatible_assumption_ids)
    && not (n.reason == "")
    && distinct n.incompatible_assumption_ids
    && in_canonical_order n.incompatible_assumption_ids

pub record SupportRouteStandingChange : Type 0 where
  pub id : String
  pub support_route_id : String
  pub standing : SupportStanding
  pub reason : String
  pub predecessor_id : Option String

unfoldable pub valid_route_change : SupportRouteStandingChange → Bool
valid_route_change c =
    not (c.id == "" || c.support_route_id == "" || c.reason == "")
    && not (some c.id == c.predecessor_id)

pub record NogoodStandingChange : Type 0 where
  pub id : String
  pub nogood_id : String
  pub standing : SupportStanding
  pub reason : String
  pub predecessor_id : Option String

unfoldable pub valid_nogood_change : NogoodStandingChange → Bool
valid_nogood_change c =
    not (c.id == "" || c.nogood_id == "" || c.reason == "") && not (some c.id == c.predecessor_id)

pub record SupportRoute : Type 0 where
  pub id : String
  pub conclusion_id : String
  pub environment : SupportEnvironment
  pub required_dependency_ids : List String
  pub open_dependency_ids : List String
  pub certificate_check : CheckReference
  pub warrant_refs : List String
  pub justification_refs : List String
  pub provenance_refs : List String

unfoldable pub valid_support_route : SupportRoute → Bool
unfolding in_canonical_order all
valid_support_route r =
    not (r.id == "" || r.conclusion_id == "")
    && all distinct (
        r.required_dependency_ids ∷ r.open_dependency_ids ∷ r.warrant_refs ∷ r.justification_refs
        ∷ r.provenance_refs ∷ [])
    && in_canonical_order r.required_dependency_ids
    && in_canonical_order r.open_dependency_ids
    && subset r.open_dependency_ids r.required_dependency_ids

pub record Evidence : Type 0 where
  pub id : String
  pub kind : EvidenceKind
  pub proposition_id : String
  pub proposition_kind : PropositionKind
  pub scope_fingerprint : String
  pub artifact : ArtifactRef
  pub closed_finite_universe : Bool
  pub finite_universe_hash : Option String

unfoldable pub valid_evidence : Evidence → Bool
valid_evidence e =
    not (e.id == "" || e.proposition_id == "" || e.scope_fingerprint == "")
    && not (e.closed_finite_universe && is_none e.finite_universe_hash)

pub record CheckerVerdictRecord : Type 0 where
  pub id : String
  pub evidence_id : String
  pub evidence_artifact : ArtifactRef
  pub proposition_id : String
  pub proposition_kind : PropositionKind
  pub scope_fingerprint : String
  pub checker_id : String
  pub checker_version : String
  pub verdict : CheckerVerdict
  pub verdict_artifact : ArtifactRef
  pub certificate_artifact : Option ArtifactRef

unfoldable pub CheckerVerdict-discrete : Discrete CheckerVerdict
CheckerVerdict-discrete = hlevel

instance unfoldable pub checker_verdict_eq : Eq CheckerVerdict
unfolding CheckerVerdict-discrete
checker_verdict_eq = record { dec = CheckerVerdict-discrete }

unfoldable pub WarrantClass-discrete : Discrete WarrantClass
WarrantClass-discrete = hlevel

instance unfoldable pub warrant_class_eq : Eq WarrantClass
unfolding WarrantClass-discrete
warrant_class_eq = record { dec = WarrantClass-discrete }

unfoldable pub SupportStanding-discrete : Discrete SupportStanding
SupportStanding-discrete = hlevel

instance unfoldable pub standing_eq : Eq SupportStanding
unfolding SupportStanding-discrete
standing_eq = record { dec = SupportStanding-discrete }

unfoldable pub PropositionKind-discrete : Discrete PropositionKind
PropositionKind-discrete = hlevel

instance unfoldable pub proposition_kind_eq : Eq PropositionKind
unfolding PropositionKind-discrete
proposition_kind_eq = record { dec = PropositionKind-discrete }

unfoldable pub valid_verdict : CheckerVerdictRecord → Bool
unfolding any
valid_verdict v =
    not (
      any (λ value. value == "")
        (v.id ∷ v.evidence_id ∷ v.proposition_id ∷ v.scope_fingerprint ∷ v.checker_id
          ∷ v.checker_version ∷ []))
    && not (v.verdict == valid && is_none v.certificate_artifact)
