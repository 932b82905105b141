-- ===== src/Warrant/Routes.antt =====
-- src/rci/warrant/support.py: when a support environment stands, when a route of a lemma applies,
-- and which dependencies stay open.
use ratcheting_consequence_i.Base.{
  String, Bool, false, not, ◌&&◌, ◌||◌, List, ◌++◌, ◌==◌, any, contains, subset, unique, minus,
  if◌then◌else◌, string_eq, option_eq,
}
use ratcheting_consequence_i.Base.Order.{string_ord}
use ratcheting_consequence_i.Base.Sort.{sorted}
use ratcheting_consequence_i.Canonical.{Hashing}
use ratcheting_consequence_i.Claims.{scope_fingerprint}
use ratcheting_consequence_i.Warrant.Models.{
  CheckReference, Evidence, CheckerVerdictRecord, Nogood, SupportEnvironment, SupportRoute,
  existential,
}
use ratcheting_consequence_i.Warrant.Lemmas.{WarrantedLemma}
use ratcheting_consequence_i.Warrant.Checks.{Question, resolve_check_reference, check_answer}

-- What the applicability of routes is computed from, besides the lemmas.
pub record Circumstances : Type 0 where
  pub current_assumption_ids : List String
  pub current_context_ids : List String
  pub nogoods : List Nogood
  pub evidence_records : List Evidence
  pub checker_verdicts : List CheckerVerdictRecord
  pub authorized_checker_ids : List String

-- Whether a check resolves over the recorded evidence and verdicts.
unfoldable pub resolves : Circumstances → CheckReference → Question → Bool
unfolding resolve_check_reference
resolves c r q = (check_answer r c.evidence_records c.checker_verdicts q).0

unfoldable pub realizability_question : Circumstances → SupportEnvironment → Question
realizability_question c e = record {
  proposition_id = e.id;
  proposition_kind = existential;
  scope_fingerprint = e.scope_fingerprint;
  authorized_checker_ids = c.authorized_checker_ids;
}

unfoldable pub nogood_question : Circumstances → Nogood → Question
nogood_question c n = record {
  proposition_id = n.id;
  proposition_kind = existential;
  scope_fingerprint = n.scope_fingerprint;
  authorized_checker_ids = c.authorized_checker_ids;
}

-- The conditions under which a checked nogood rules an environment out.
unfoldable pub rules_out : Circumstances → String → SupportEnvironment → Nogood → Bool
unfolding resolves nogood_question
rules_out c policy_version e n =
    (n.scope_fingerprint == e.scope_fingerprint)
    && (n.binding_revision == e.binding_revision)
    && (n.finite_universe_hash == e.finite_universe_hash)
    && (n.policy_version == policy_version)
    && resolves c n.check (nogood_question c n)
    && subset n.incompatible_assumption_ids e.assumption_ids

unfoldable pub support_environment_stands : Circumstances → String → SupportEnvironment → Bool
unfolding resolves rules_out realizability_question
support_environment_stands c policy_version e =
    if not (resolves c e.realizability_check (realizability_question c e))
    then false
    else if not (subset e.assumption_ids c.current_assumption_ids)
    then false
    else not (any (rules_out c policy_version e) c.nogoods)

-- `_applicability_stands`
unfoldable pub applicability_stands : List String → WarrantedLemma → Bool
applicability_stands context l =
    (l.version.applicability.condition_id == "always"
      || contains context l.version.applicability.condition_id)
    && subset l.version.applicability.required_context_ids context

unfoldable pub compute_open_boundary : List String → SupportEnvironment → List String → List String
unfolding minus
compute_open_boundary required e discharged =
    sorted (λ (s : String). s) (minus (unique required) (e.assumption_ids ++ discharged))

module _ (h : Hashing) where
  unfoldable pub certificate_question : Circumstances → WarrantedLemma → Question
  certificate_question c l = record {
    proposition_id = l.version.relation_id;
    proposition_kind = l.version.proposition_kind;
    scope_fingerprint = scope_fingerprint h l.version.scope;
    authorized_checker_ids = c.authorized_checker_ids;
  }

  -- `_route_applicable`
  unfoldable pub route_applicable : Circumstances → WarrantedLemma → SupportRoute → Bool
  unfolding resolves certificate_question applicability_stands support_environment_stands
  route_applicable c l r =
      (r.environment.scope_fingerprint == scope_fingerprint h l.version.scope)
      && (r.environment.binding_revision == l.version.scope.binding_revision)
      && (r.environment.finite_universe_hash == l.version.scope.finite_universe_hash)
      && resolves c r.certificate_check (certificate_question c l)
      && applicability_stands c.current_context_ids l
      && support_environment_stands c l.support.policy_version r.environment
