-- ===== src/Warrant/Lemmas.antt =====
-- src/rci/warrant/models.py: lemma versions with their support, and the views and records made of
-- them.
use ratcheting_consequence_i.Base.{
  String, Bool, true, false, not, ◌&&◌, ◌||◌, Option, List, [], ◌∷◌, ◌++◌, map, ◌==◌, any, all,
  contains, subset, distinct, is_empty, string_eq, option_eq, list_eq,
}
use ratcheting_consequence_i.Canonical.{Hashing}
use ratcheting_consequence_i.Claims.{Scope, scope_fingerprint}
use ratcheting_consequence_i.Warrant.Models.{
  PropositionKind, Applicability, SupportRoute, WarrantClass, in_canonical_order,
}

pub record LemmaVersion : Type 0 where
  pub id : String
  pub relation_id : String
  pub proposition_kind : PropositionKind
  pub scope : Scope
  pub applicability : Applicability
  pub source_claim_ids : List String
  pub predecessor_refs : List String

unfoldable pub valid_version : LemmaVersion → Bool
valid_version v =
    not (v.id == "" || v.relation_id == "")
    && not (contains v.predecessor_refs v.id)
    && distinct v.predecessor_refs
    && distinct v.source_claim_ids

pub record LemmaSupport : Type 0 where
  pub lemma_version_id : String
  pub policy_version : String
  pub support_routes : List SupportRoute
  pub historical_support_routes : List SupportRoute
  pub warrant_class : WarrantClass
  pub certificate_refs : List String
  pub provenance_refs : List String

-- `LemmaSupport.all_support_routes`
abbrev pub all_support_routes : LemmaSupport → List SupportRoute
all_support_routes s = s.support_routes ++ s.historical_support_routes

-- `route.environment.assumptions`
abbrev pub assumptions : SupportRoute → List String
assumptions r = r.environment.assumption_ids

-- `left < right`, of sets
abbrev pub proper_subset : List String → List String → Bool
proper_subset left right = subset left right && not (subset right left)

-- No two of the environments are strictly nested.
unfoldable pub is_antichain : List SupportRoute → Bool
unfolding all subset
is_antichain [] = true
is_antichain (r ∷ rest) =
    all
      (λ other. not (
        proper_subset (assumptions r) (assumptions other)
        || proper_subset (assumptions other) (assumptions r)))
      rest
    && is_antichain rest

unfoldable pub valid_support : LemmaSupport → Bool
unfolding any all is_antichain
valid_support s =
    not (s.policy_version == "")
    && not (is_empty s.support_routes)
    && distinct (map (λ (r : SupportRoute). r.id) (all_support_routes s))
    && all (λ (r : SupportRoute). r.conclusion_id == s.lemma_version_id) (all_support_routes s)
    && is_antichain s.support_routes
    && all
        (λ historical.
          any (λ current. subset (assumptions current) (assumptions historical)) s.support_routes)
        s.historical_support_routes
    && distinct s.certificate_refs
    && distinct s.provenance_refs

pub record WarrantedLemma : Type 0 where
  pub version : LemmaVersion
  pub support : LemmaSupport

-- `WarrantedLemma.id`
abbrev pub lemma_id : WarrantedLemma → String
lemma_id l = l.version.id

pub record ActiveLemmaView : Type 0 where
  pub lemma_version_id : String
  pub relation_id : String
  pub standing_support_route_id : String
  pub standing_support_route_ids : List String
  pub scope_fingerprint : String
  pub binding_revision : String
  pub finite_universe_hash : Option String
  pub policy_version : String

unfoldable pub valid_view : ActiveLemmaView → Bool
unfolding distinct
valid_view v = elim v.standing_support_route_ids [
  | [] ↦ false
  | first ∷ rest ↦ v.standing_support_route_id == first && distinct (first ∷ rest)
]

pub record TheorySelector : Type 0 where
  pub scope_fingerprint : String
  pub binding_revision : String
  pub finite_universe_hash : Option String
  pub policy_version : String
  pub current_assumption_ids : List String
  pub current_context_ids : List String

unfoldable pub valid_selector : TheorySelector → Bool
valid_selector s =
    not (s.scope_fingerprint == "" || s.binding_revision == "" || s.policy_version == "")
    && distinct s.current_assumption_ids
    && in_canonical_order s.current_assumption_ids
    && distinct s.current_context_ids
    && in_canonical_order s.current_context_ids

pub record WarrantDecisionRecord : Type 0 where
  pub id : String
  pub evidence_id : String
  pub checker_verdict_id : String
  pub proposition_id : String
  pub proposition_kind : PropositionKind
  pub scope_fingerprint : String
  pub warrant_class : WarrantClass
  pub reason : String
  pub policy_version : String

unfoldable pub valid_warrant_decision : WarrantDecisionRecord → Bool
unfolding any
valid_warrant_decision d = not (
    any (λ value. value == "")
      (d.id ∷ d.evidence_id ∷ d.checker_verdict_id ∷ d.proposition_id ∷ d.scope_fingerprint
        ∷ d.reason ∷ d.policy_version ∷ []))

pub record PromotionLink : Type 0 where
  pub id : String
  pub lemma_version_id : String
  pub source_claim_ids : List String
  pub warrant_decision_id : String

unfoldable pub valid_link : PromotionLink → Bool
valid_link l =
    not (l.id == "" || l.lemma_version_id == "" || l.warrant_decision_id == "")
    && not (is_empty l.source_claim_ids)
    && distinct l.source_claim_ids

module _ (h : Hashing) where
  -- `WarrantedLemma.validate_join`
  unfoldable pub valid_lemma : WarrantedLemma → Bool
  unfolding all
  valid_lemma l =
      (l.version.id == l.support.lemma_version_id)
      && all
          (λ (r : SupportRoute).
            (r.environment.scope_fingerprint == scope_fingerprint h l.version.scope)
            && (r.environment.binding_revision == l.version.scope.binding_revision)
            && (r.environment.finite_universe_hash == l.version.scope.finite_universe_hash))
          (all_support_routes l.support)
