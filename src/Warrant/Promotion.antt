-- ===== src/Warrant/Promotion.antt =====
-- src/rci/warrant/policy.py: which evidence warrants what, and the promotion of a lemma.
use ratcheting_consequence_i.Base.{
  String, Bool, true, false, not, ◌&&◌, ◌||◌, Option, none, some, List, [], ◌∷◌, ◌++◌, map, Eq,
  ◌==◌, any, keep, gather, contains, subset, unique, is_some, is_none, is_empty, if◌then◌else◌,
  string_eq, option_eq, bool_eq, String-discrete, Result, ok, raise, value_error, ◌>>=◌, ◌>>◌,
  require,
}
use ratcheting_consequence_i.Base.Keyed.{lookup, put}
use ratcheting_consequence_i.Base.Order.{nat_ord, string_ord, pair_ord, list_ord}
use ratcheting_consequence_i.Base.Sort.{sorted}
use ratcheting_consequence_i.Canonical.{Hashing}
use ratcheting_consequence_i.Claims.{Scope, scope_fingerprint}
use ratcheting_consequence_i.Core.Records.{ArtifactRef, ArtifactRef-discrete, artifact_eq}
use ratcheting_consequence_i.Warrant.Models.{
  Applicability, Evidence, EvidenceKind, CheckerVerdictRecord, CheckerVerdict-discrete,
  PropositionKind, PropositionKind-discrete, SupportRoute, WarrantClass, unwarranted, soft,
  solver_trusted, hard, existential, model_output, reification, heuristic, retrieval, observation,
  independent_witness, exhaustive_unsat, z3_unsat, proposition_kind_eq, warrant_class_eq,
}
use ratcheting_consequence_i.Warrant.Lemmas.{
  LemmaVersion, LemmaSupport, WarrantedLemma, lemma_id, assumptions, valid_version, valid_support,
  valid_lemma,
}
use ratcheting_consequence_i.Warrant.Checks.{
  Question, evidence_index, checker_verdict_index, validate_checked_evidence,
  resolve_check_reference,
}
use ratcheting_consequence_i.Warrant.Routes.{Circumstances, resolves, realizability_question}
use ratcheting_consequence_i.Warrant.Grounding.{grounded_lemma_ids}
use ratcheting_consequence_i.Warrant.Theory.{RouteKey, route_key, route_covers, minimal_routes}
use ratcheting_consequence_i.Warrant.Ancestry.{ancestry_is_acyclic, support_graph_is_acyclic}
pub mod Sound

unfoldable pub EvidenceKind-discrete : Discrete EvidenceKind
EvidenceKind-discrete = hlevel

instance unfoldable pub evidence_kind_eq : Eq EvidenceKind
unfolding EvidenceKind-discrete
evidence_kind_eq = record { dec = EvidenceKind-discrete }

unfoldable pub Evidence-discrete : Discrete Evidence
unfolding String-discrete ArtifactRef-discrete EvidenceKind-discrete PropositionKind-discrete
Evidence-discrete =
    hlevel (String-discrete, ArtifactRef-discrete, EvidenceKind-discrete, PropositionKind-discrete)

instance unfoldable pub evidence_eq : Eq Evidence
unfolding Evidence-discrete
evidence_eq = record { dec = Evidence-discrete }

unfoldable pub CheckerVerdictRecord-discrete : Discrete CheckerVerdictRecord
unfolding String-discrete ArtifactRef-discrete CheckerVerdict-discrete PropositionKind-discrete
CheckerVerdictRecord-discrete =
    hlevel
      (String-discrete, ArtifactRef-discrete, CheckerVerdict-discrete, PropositionKind-discrete)

instance unfoldable pub verdict_record_eq : Eq CheckerVerdictRecord
unfolding CheckerVerdictRecord-discrete
verdict_record_eq = record { dec = CheckerVerdictRecord-discrete }

pub data PromotionOutcome : Type 0 where
  accepted rejected : PromotionOutcome

pub record PromotionDecision : Type 0 where
  pub outcome : PromotionOutcome
  pub warrant_class : WarrantClass
  pub reason : String
  pub lemma : Option WarrantedLemma

abbrev pub reject : WarrantClass → String → PromotionDecision
reject class reason = record {
  outcome = rejected;
  warrant_class = class;
  reason = reason;
  lemma = none;
}

-- The arguments of `decide_promotion`.
pub record Proposal : Type 0 where
  pub id : String
  pub relation_id : String
  pub proposition_kind : PropositionKind
  pub scope : Scope
  pub applicability : Applicability
  pub support_routes : List SupportRoute
  pub evidence : Evidence
  pub checker_verdict : CheckerVerdictRecord
  pub evidence_records : List Evidence
  pub checker_verdicts : List CheckerVerdictRecord
  pub authorized_checker_ids : List String
  pub policy_version : String
  pub provenance_refs : List String
  pub source_claim_ids : List String
  pub predecessor_refs : List String
  pub existing_lemmas : List WarrantedLemma
  pub current_assumption_ids : List String
  pub current_context_ids : List String

-- The kinds of checked evidence, and the class that each warrants.
unfoldable pub checked_warrant : Evidence → PropositionKind → Scope → WarrantClass × String
checked_warrant e kind scope = elim e.kind [
  | independent_witness ↦
      if not (kind == existential)
      then (unwarranted, "a witness warrants only its exact existential")
      else (hard, "exact scoped existential witness")
  | exhaustive_unsat ↦
      if e.closed_finite_universe
        && (not scope.closed_world
            || is_none scope.finite_universe_hash
            || not (e.finite_universe_hash == scope.finite_universe_hash))
      then (unwarranted, "closed-finite evidence does not match the scoped universe")
      else if e.closed_finite_universe
      then (hard, "exhaustive UNSAT over a closed finite universe")
      else (soft, "UNSAT universe was not declared closed")
  | z3_unsat ↦ (solver_trusted, "Z3-only UNSAT remains soft")
  | heuristic ↦ (soft, "policy-authorized evidence is provisional support")
  | retrieval ↦ (soft, "policy-authorized evidence is provisional support")
  | observation ↦ (soft, "policy-authorized evidence is provisional support")
  | model_output ↦ (unwarranted, "unsupported evidence kind")
  | reification ↦ (unwarranted, "unsupported evidence kind")
]

unfoldable pub decide_evidence_warrant :
    Evidence → CheckerVerdictRecord → Question → Scope → WarrantClass × String
unfolding checked_warrant validate_checked_evidence
decide_evidence_warrant e v q scope =
    let checked = validate_checked_evidence e v q in
    if e.kind == model_output || e.kind == reification
    then (unwarranted, "model output and reification provide no warrant")
    else if not checked.0
    then (unwarranted, checked.1)
    else checked_warrant e q.proposition_kind scope

-- The digests of the certificates of the verdicts that the routes and the proposal refer to.
unfoldable pub certificate_digest : List CheckerVerdictRecord → String → List String
unfolding lookup
certificate_digest verdicts id = elim (lookup id (checker_verdict_index verdicts)) [
  | none ↦ []
  | some v ↦ elim v.certificate_artifact [ none ↦ [] | some a ↦ a.digest ∷ [] ]
]

unfoldable pub certificate_refs : Proposal → List String
unfolding certificate_digest gather unique
certificate_refs p =
    let referenced =
      p.checker_verdict.id
      ∷ gather
          (λ (r : SupportRoute).
            r.certificate_check.checker_verdict_id
            ∷ r.environment.realizability_check.checker_verdict_id ∷ [])
          p.support_routes in
    sorted (λ (s : String). s) (gather (certificate_digest p.checker_verdicts) (unique referenced))

-- The routes that the greedy loop leaves out, over the kept ones so far.
unfoldable pub covered_routes : List SupportRoute → List SupportRoute → List SupportRoute
unfolding any
covered_routes kept [] = []
covered_routes kept (r ∷ rs) =
    let later = covered_routes kept rs in
    let with_kept = covered_routes (kept ++ r ∷ []) rs in
    if any (λ k. route_covers k r) kept then r ∷ later else with_kept

unfoldable pub historical_routes : List SupportRoute → List SupportRoute
unfolding covered_routes
historical_routes routes = covered_routes [] (sorted {K = RouteKey} route_key routes)

unfoldable pub candidate : Proposal → WarrantedLemma
unfolding minimal_routes historical_routes certificate_refs
candidate p = record {
  version = record {
    id = p.id;
    relation_id = p.relation_id;
    proposition_kind = p.proposition_kind;
    scope = p.scope;
    applicability = p.applicability;
    source_claim_ids = p.source_claim_ids;
    predecessor_refs = p.predecessor_refs;
  };
  support = record {
    lemma_version_id = p.id;
    policy_version = p.policy_version;
    support_routes = minimal_routes p.support_routes;
    historical_support_routes = historical_routes p.support_routes;
    warrant_class = hard;
    certificate_refs = certificate_refs p;
    provenance_refs = p.provenance_refs;
  };
}

-- `{lemma.id: lemma.version.predecessor_refs for lemma in all_lemmas}`
unfoldable pub predecessor_map :
    List (String × List String) → List WarrantedLemma → List (String × List String)
unfolding put
predecessor_map d [] = d
predecessor_map d (l ∷ ls) = predecessor_map (put (lemma_id l) l.version.predecessor_refs d) ls

unfoldable pub guard_active : Proposal → Bool
guard_active p =
    (p.applicability.condition_id == "always"
      || contains p.current_context_ids p.applicability.condition_id)
    && subset p.applicability.required_context_ids p.current_context_ids

unfoldable pub circumstances : Proposal → Circumstances
circumstances p = record {
  current_assumption_ids = p.current_assumption_ids;
  current_context_ids = p.current_context_ids;
  nogoods = [];
  evidence_records = p.evidence_records;
  checker_verdicts = p.checker_verdicts;
  authorized_checker_ids = p.authorized_checker_ids;
}

module _ (h : Hashing) where
  unfoldable pub question : Proposal → Question
  question p = record {
    proposition_id = p.relation_id;
    proposition_kind = p.proposition_kind;
    scope_fingerprint = scope_fingerprint h p.scope;
    authorized_checker_ids = p.authorized_checker_ids;
  }

  unfoldable pub environment_question : Proposal → SupportRoute → Question
  environment_question p r = record {
    proposition_id = r.environment.id;
    proposition_kind = existential;
    scope_fingerprint = scope_fingerprint h p.scope;
    authorized_checker_ids = p.authorized_checker_ids;
  }

  unfoldable pub same_support_class : Proposal → List WarrantedLemma
  unfolding keep
  same_support_class p =
      keep
        (λ (l : WarrantedLemma).
          (scope_fingerprint h l.version.scope == scope_fingerprint h p.scope)
          && (l.version.scope.binding_revision == p.scope.binding_revision)
          && (l.version.scope.finite_universe_hash == p.scope.finite_universe_hash)
          && (l.support.policy_version == p.policy_version))
        p.existing_lemmas

  unfoldable pub is_closed : Proposal → List String → SupportRoute → Bool
  unfolding resolves circumstances question environment_question
  is_closed p grounded r =
      is_empty r.open_dependency_ids
      && subset r.required_dependency_ids grounded
      && resolves (circumstances p) r.certificate_check (question p)
      && resolves (circumstances p) r.environment.realizability_check (environment_question p r)
      && (r.environment.scope_fingerprint == scope_fingerprint h p.scope)
      && (r.environment.binding_revision == p.scope.binding_revision)
      && (r.environment.finite_universe_hash == p.scope.finite_universe_hash)

  unfoldable pub grounded_dependencies : Proposal → List String
  unfolding grounded_lemma_ids same_support_class circumstances
  grounded_dependencies p = grounded_lemma_ids h (circumstances p) (same_support_class p)

  -- The last gates, over a candidate that was built.
  unfoldable pub promote_candidate : Proposal → String → PromotionDecision
  unfolding candidate support_graph_is_acyclic ancestry_is_acyclic predecessor_map guard_active
      is_closed any grounded_dependencies
  promote_candidate p reason =
      let all_lemmas = p.existing_lemmas ++ candidate p ∷ [] in
      if not (support_graph_is_acyclic all_lemmas)
      then reject unwarranted "positive support cycle rejected atomically by the active milestone"
      else if not (ancestry_is_acyclic (predecessor_map [] all_lemmas))
      then reject unwarranted "authoritative version ancestry would become cyclic"
      else if not (guard_active p)
      then reject unwarranted "the applicability guard is not active in the checked context"
      else if not (any (is_closed p (grounded_dependencies p)) (candidate p).support.support_routes)
      then reject unwarranted "no support route is dependency-closed and independently realizable"
      else record {
        outcome = accepted;
        warrant_class = hard;
        reason = reason;
        lemma = some (candidate p);
      }

  unfoldable pub decide_promotion : Proposal → Result PromotionDecision
  unfolding decide_evidence_warrant question promote_candidate valid_version valid_support
      valid_lemma any
  decide_promotion p =
      let warrant = decide_evidence_warrant p.evidence p.checker_verdict (question p) p.scope in
      if p.policy_version == ""
      then ok (reject unwarranted "promotion requires an exact warrant-policy version")
      else if not (lookup p.evidence.id (evidence_index p.evidence_records) == some p.evidence)
      then ok (reject unwarranted "promotion evidence is not an owned immutable record")
      else if not (
          lookup p.checker_verdict.id (checker_verdict_index p.checker_verdicts)
          == some p.checker_verdict)
      then ok (reject unwarranted "promotion checker verdict is not an owned immutable record")
      else if not (warrant.0 == hard)
      then ok (reject warrant.0 warrant.1)
      else if is_empty p.support_routes
      then ok (reject unwarranted "promotion requires an explicit support environment")
      else if any (λ (r : SupportRoute). not (r.conclusion_id == p.id)) p.support_routes
      then ok (reject unwarranted "support route conclusion does not match the proposed lemma")
      else do
        require (valid_version (candidate p).version) value_error
        require (valid_support (candidate p).support) value_error
        require (valid_lemma h (candidate p)) value_error
        ok (promote_candidate p warrant.1)
