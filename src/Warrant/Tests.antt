-- ===== src/Warrant/Tests.antt =====
-- Two lemmas over one checked witness: the second is promoted by a route that requires the first. Two
-- further lemmas support only each other.
use ratcheting_consequence_i.Base.Texts.{is_sha256_digest}
use ratcheting_consequence_i.Base.{
  String, ◌≡◌, refl, sym, subst, ◌∙◌, true, false, none, some, List, [], ◌∷◌, In, inl, inr, ◌⊎◌, ok,
  ◌↔◌, distinct, any, all, keep, find, gather, subset, contains, unique, minus, string_eq, nat_eq,
  bool_eq, option_eq, list_eq, String-discrete, ==_iff,
}
use ratcheting_consequence_i.Base.Keyed.{lookup, put, keys}
use ratcheting_consequence_i.Base.Order.{nat_ord, string_ord, pair_ord, list_ord}
use ratcheting_consequence_i.Base.Sort.{sorted}
use ratcheting_consequence_i.Base.Minimal.{keep_minimal}
use ratcheting_consequence_i.Canonical.{Hashing, content_fingerprint}
use ratcheting_consequence_i.Claims.{Scope, scope_fingerprint}
use ratcheting_consequence_i.Core.Records.{ArtifactRef, artifact_eq, ArtifactRef-discrete}
use ratcheting_consequence_i.Warrant.Models.{
  Applicability, CheckReference, Evidence, CheckerVerdictRecord, SupportEnvironment, SupportRoute,
  existential, independent_witness, valid, hard, in_canonical_order, valid_environment,
  CheckerVerdict-discrete, WarrantClass-discrete, PropositionKind-discrete, checker_verdict_eq,
  warrant_class_eq, proposition_kind_eq, SupportStanding-discrete, standing_eq,
}
use ratcheting_consequence_i.Warrant.Lemmas.{
  WarrantedLemma, lemma_id, TheorySelector, ActiveLemmaView, valid_version, valid_support,
  valid_lemma, valid_view, is_antichain,
}
use ratcheting_consequence_i.Warrant.Checks.{
  Question, index_by, resolve_check_reference, validate_checked_evidence, check_answer,
  IsResolvedTo, resolve_check_reference-Exact,
}
use ratcheting_consequence_i.Warrant.Routes.{
  Circumstances, resolves, realizability_question, nogood_question, rules_out,
  support_environment_stands, applicability_stands, certificate_question, route_applicable,
}
use ratcheting_consequence_i.Warrant.Grounding.{
  pass, consider, ground_from, grounded_lemma_ids, route_grounded, route_stands,
}
use ratcheting_consequence_i.Warrant.Grounding.Least.{
  IsUnseeded, Grounded, grounded_lemma_ids-Grounded, grounded_lemma_ids_monotone,
  grounded_lemma_ids_no_cycle,
}
use ratcheting_consequence_i.Warrant.Environments.{
  environment_covers, same_universe, environment_key, unique_environments,
  minimize_support_environments, IsMinimization, minimize_support_environments-IsMinimization,
}
use ratcheting_consequence_i.Warrant.Theory.{
  Histories, circumstances_of, selected, selected_lemmas, is_selected, standing_routes,
  route_is_standing, with_routes, standing_nogoods, nogood_is_standing, minimal_routes,
  applicable_routes, make_view, views_of, select_active_theory, route_key,
}
use ratcheting_consequence_i.Base.Distinct.{IsDistinct}
use ratcheting_consequence_i.Warrant.Theory.Current.{IsTheory, select_active_theory-IsTheory}
use ratcheting_consequence_i.Warrant.Ancestry.{
  Graph, targets, visit, visit_each, search, ancestry_is_acyclic, support_targets,
  support_graph_from, support_graph, support_graph_is_acyclic,
}
use ratcheting_consequence_i.Warrant.Ancestry.Acyclic.{Rooted, ancestry_is_acyclic_decides}
use ratcheting_consequence_i.Warrant.Ancestry.Support.{Founded, support_graph_is_acyclic_decides}
use ratcheting_consequence_i.Warrant.Promotion.{
  Proposal, PromotionDecision, accepted, decide_promotion, candidate, checked_warrant,
  decide_evidence_warrant, certificate_refs, certificate_digest, covered_routes, historical_routes,
  predecessor_map, guard_active, circumstances, question, environment_question, same_support_class,
  is_closed, grounded_dependencies, promote_candidate, evidence_eq, Evidence-discrete,
  EvidenceKind-discrete, evidence_kind_eq, verdict_record_eq, CheckerVerdictRecord-discrete,
}
use ratcheting_consequence_i.Warrant.Promotion.Sound.{
  IsPromotion, IsRefusal, decide_promotion-Sound,
}

abbrev digest : String
digest = "0000000000000000000000000000000000000000000000000000000000000000"

is_digest : is_sha256_digest digest ≡ true
unfolding is_sha256_digest
is_digest = refl

abbrev hashing : Hashing
hashing = record {
  canonical_json = λ _. "{}";
  sha256 = λ _. digest;
  sha256-Digest = λ _. is_digest;
}

abbrev scope : Scope
scope = record {
  id = "scope";
  binding_revision = "b1";
  assumption_ids = [];
  applicability_guard_id = none;
  finite_universe_hash = none;
  closed_world = false;
}

abbrev print : String
print = digest

abbrev artifact : String → ArtifactRef
artifact digest = record { digest = digest; size = 1; media_type = none; encoding = none }

abbrev evidence : String → String → Evidence
evidence id proposition = record {
  id = id;
  kind = independent_witness;
  proposition_id = proposition;
  proposition_kind = existential;
  scope_fingerprint = print;
  artifact = artifact id;
  closed_finite_universe = false;
  finite_universe_hash = none;
}

abbrev verdict : String → String → String → CheckerVerdictRecord
verdict id evidence_id proposition = record {
  id = id;
  evidence_id = evidence_id;
  evidence_artifact = artifact evidence_id;
  proposition_id = proposition;
  proposition_kind = existential;
  scope_fingerprint = print;
  checker_id = "checker";
  checker_version = "1";
  verdict = valid;
  verdict_artifact = artifact id;
  certificate_artifact = some (artifact id);
}

abbrev reference : String → String → CheckReference
reference e v = record { evidence_id = e; checker_verdict_id = v }

abbrev environment : String → List String → SupportEnvironment
environment id assumption_ids = record {
  id = id;
  scope_fingerprint = print;
  binding_revision = "b1";
  assumption_ids = assumption_ids;
  finite_universe_hash = none;
  realizability_check = reference "e2" "v2";
}

abbrev route : String → String → List String → SupportRoute
route id conclusion required = record {
  id = id;
  conclusion_id = conclusion;
  environment = environment "env" ("a" ∷ []);
  required_dependency_ids = required;
  open_dependency_ids = [];
  certificate_check = reference "e1" "v1";
  warrant_refs = [];
  justification_refs = [];
  provenance_refs = [];
}

abbrev always : Applicability
always = record { condition_id = "always"; required_context_ids = [] }

abbrev lemma_with : String → SupportRoute → WarrantedLemma
lemma_with id r = record {
  version = record {
    id = id;
    relation_id = "relation";
    proposition_kind = existential;
    scope = scope;
    applicability = always;
    source_claim_ids = [];
    predecessor_refs = [];
  };
  support = record {
    lemma_version_id = id;
    policy_version = "p1";
    support_routes = r ∷ [];
    historical_support_routes = [];
    warrant_class = hard;
    certificate_refs = [];
    provenance_refs = [];
  };
}

abbrev first : WarrantedLemma
first = lemma_with "l0" (route "r0" "l0" [])

abbrev second : WarrantedLemma
second = lemma_with "l1" (route "r1" "l1" ("l0" ∷ []))

-- These two require each other.
abbrev egg : WarrantedLemma
egg = lemma_with "egg" (route "r2" "egg" ("hen" ∷ []))

abbrev hen : WarrantedLemma
hen = lemma_with "hen" (route "r3" "hen" ("egg" ∷ []))

abbrev evidence_records : List Evidence
evidence_records = evidence "e1" "relation" ∷ evidence "e2" "env" ∷ []

abbrev checker_verdicts : List CheckerVerdictRecord
checker_verdicts = verdict "v1" "e1" "relation" ∷ verdict "v2" "e2" "env" ∷ []

abbrev now : Circumstances
now = record {
  current_assumption_ids = "a" ∷ [];
  current_context_ids = [];
  nogoods = [];
  evidence_records = evidence_records;
  checker_verdicts = checker_verdicts;
  authorized_checker_ids = "checker" ∷ [];
}

abbrev proposal : Proposal
proposal = record {
  id = "l1";
  relation_id = "relation";
  proposition_kind = existential;
  scope = scope;
  applicability = always;
  support_routes = route "r1" "l1" ("l0" ∷ []) ∷ [];
  evidence = evidence "e1" "relation";
  checker_verdict = verdict "v1" "e1" "relation";
  evidence_records = evidence_records;
  checker_verdicts = checker_verdicts;
  authorized_checker_ids = "checker" ∷ [];
  policy_version = "p1";
  provenance_refs = [];
  source_claim_ids = [];
  predecessor_refs = [];
  existing_lemmas = first ∷ [];
  current_assumption_ids = "a" ∷ [];
  current_context_ids = [];
}

abbrev promotion : PromotionDecision
promotion = record {
  outcome = accepted;
  warrant_class = hard;
  reason = "exact scoped existential witness";
  lemma = some (candidate proposal);
}

program : Unit {0}
unfolding decide_promotion candidate checked_warrant decide_evidence_warrant certificate_refs
    certificate_digest covered_routes historical_routes predecessor_map guard_active circumstances
    question environment_question same_support_class is_closed grounded_dependencies
    promote_candidate evidence_eq Evidence-discrete EvidenceKind-discrete evidence_kind_eq
    verdict_record_eq CheckerVerdictRecord-discrete targets visit visit_each search
    ancestry_is_acyclic support_targets support_graph_from support_graph support_graph_is_acyclic
    select_active_theory views_of make_view applicable_routes minimal_routes nogood_is_standing
    standing_nogoods with_routes route_is_standing standing_routes is_selected selected
    selected_lemmas circumstances_of minimize_support_environments route_stands route_grounded
    grounded_lemma_ids ground_from consider pass route_applicable certificate_question
    applicability_stands support_environment_stands rules_out nogood_question realizability_question
    resolves validate_checked_evidence resolve_check_reference index_by is_antichain valid_view
    valid_lemma valid_support valid_version valid_environment in_canonical_order
    CheckerVerdict-discrete WarrantClass-discrete PropositionKind-discrete SupportStanding-discrete
    checker_verdict_eq warrant_class_eq proposition_kind_eq standing_eq artifact_eq
    ArtifactRef-discrete scope_fingerprint content_fingerprint keep_minimal sorted nat_ord
    string_ord pair_ord list_ord lookup put distinct any all keep find gather subset contains unique
    minus string_eq nat_eq bool_eq option_eq list_eq String-discrete route_key
program = tt

promoted : decide_promotion hashing proposal ≡ ok promotion
unfolding program
promoted = refl

decide_promotion-Sound_example :
    IsPromotion hashing proposal promotion ⊎ IsRefusal hashing proposal promotion
decide_promotion-Sound_example = decide_promotion-Sound hashing proposal promotion promoted

abbrev lemmas : List WarrantedLemma
lemmas = egg ∷ second ∷ first ∷ hen ∷ []

-- Two passes ground the two supported lemmas, a third one changes nothing.
grounded : grounded_lemma_ids hashing now lemmas ≡ "l1" ∷ "l0" ∷ []
unfolding program
grounded = refl

grounded_lemma_ids-Grounded_example :
    (pass hashing now lemmas (grounded_lemma_ids hashing now lemmas, false)
      ≡ (grounded_lemma_ids hashing now lemmas, false))
    × ((x : String) → In x (grounded_lemma_ids hashing now lemmas) ↔ Grounded hashing now lemmas x)
grounded_lemma_ids-Grounded_example = grounded_lemma_ids-Grounded hashing now lemmas

among : (l : WarrantedLemma) → In l (first ∷ []) → In l lemmas
among l (inl e) = inr (inr (inl e))
among l (inr m) = absurd m

first_grounded : In "l0" (grounded_lemma_ids hashing now (first ∷ []))
unfolding program
first_grounded = inl refl

grounded_lemma_ids_monotone_example : In "l0" (grounded_lemma_ids hashing now lemmas)
grounded_lemma_ids_monotone_example =
    grounded_lemma_ids_monotone hashing now (first ∷ []) lemmas among "l0" first_grounded

abbrev names : List String
names = "egg" ∷ "hen" ∷ []

abbrev Named : String → Type 0
Named x = contains names x ≡ true

needs :
    (id conclusion d : String) (r : SupportRoute)
    → Named d
    → In r (route id conclusion (d ∷ []) ∷ [])
    → (x : String) × In x r.required_dependency_ids × Named x
needs id conclusion d r named (inl e) =
    (d, subst (λ (k : SupportRoute). In d k.required_dependency_ids) (sym e) (inl refl), named)
needs id conclusion d r named (inr n) = absurd n

not_second : ¬ Named "l1"
unfolding program
not_second h = cc

not_first : ¬ Named "l0"
unfolding program
not_first h = cc

hen-Named : Named "hen"
unfolding program
hen-Named = refl

egg-Named : Named "egg"
unfolding program
egg-Named = refl

pair-IsUnseeded : IsUnseeded Named lemmas
pair-IsUnseeded l r (inl e) p m =
    needs "r2" "egg" "hen" r hen-Named
      (subst (λ (k : WarrantedLemma). In r k.support.support_routes) e m)
pair-IsUnseeded l r (inr (inl e)) p m =
    absurd (not_second (subst (λ (k : WarrantedLemma). Named (lemma_id k)) e p))
pair-IsUnseeded l r (inr (inr (inl e))) p m =
    absurd (not_first (subst (λ (k : WarrantedLemma). Named (lemma_id k)) e p))
pair-IsUnseeded l r (inr (inr (inr (inl e)))) p m =
    needs "r3" "hen" "egg" r egg-Named
      (subst (λ (k : WarrantedLemma). In r k.support.support_routes) e m)
pair-IsUnseeded l r (inr (inr (inr (inr n)))) p m = absurd n

second_grounded : In "l1" (grounded_lemma_ids hashing now lemmas)
unfolding program
second_grounded = inl refl

grounded_lemma_ids_no_cycle_example : ¬ Named "l1"
grounded_lemma_ids_no_cycle_example =
    grounded_lemma_ids_no_cycle hashing now Named lemmas pair-IsUnseeded "l1" second_grounded

abbrev environments : List SupportEnvironment
environments = environment "x" ("a" ∷ "b" ∷ []) ∷ environment "y" ("a" ∷ []) ∷ []

smaller_kept : minimize_support_environments environments ≡ environment "y" ("a" ∷ []) ∷ []
unfolding program minimize_support_environments environment_covers same_universe environment_key
    unique_environments
smaller_kept = refl

environments_valid : (e : SupportEnvironment) → In e environments → valid_environment e ≡ true
unfolding program
environments_valid e (inl p) = rw (p, valid_environment) refl
environments_valid e (inr (inl p)) = rw (p, valid_environment) refl
environments_valid e (inr (inr n)) = absurd n

different : ¬ (◌≡◌ {A = String} "x" "y")
unfolding program
different p = let same = (==_iff {A = String} "x" "y").1 p in cc (same)

environments_named :
    (a b : SupportEnvironment) → In a environments → In b environments → a.id ≡ b.id → a ≡ b
environments_named a b (inl p) (inl q) same = p ∙ sym q
environments_named a b (inl p) (inr (inl q)) same = absurd (different cc)
environments_named a b (inr (inl p)) (inl q) same = absurd (different cc)
environments_named a b (inr (inl p)) (inr (inl q)) same = p ∙ sym q
environments_named a b (inr (inr n)) m same = absurd n
environments_named a b m (inr (inr n)) same = absurd n

minimize_support_environments-IsMinimization_example :
    IsMinimization environments (minimize_support_environments environments)
minimize_support_environments-IsMinimization_example =
    minimize_support_environments-IsMinimization environments environments_valid environments_named

abbrev histories : Histories
histories = record {
  nogoods = [];
  route_changes = [];
  nogood_changes = [];
  evidence_records = evidence_records;
  checker_verdicts = checker_verdicts;
  authorized_checker_ids = "checker" ∷ [];
}

abbrev selector : TheorySelector
selector = record {
  scope_fingerprint = print;
  binding_revision = "b1";
  finite_universe_hash = none;
  policy_version = "p1";
  current_assumption_ids = "a" ∷ [];
  current_context_ids = [];
}

lemmas-IsDistinct : IsDistinct lemma_id lemmas
unfolding program
lemmas-IsDistinct = refl

lemmas_valid : (l : WarrantedLemma) → In l lemmas → valid_support l.support ≡ true
unfolding program
lemmas_valid l (inl e) = rw (e, valid_support) refl
lemmas_valid l (inr (inl e)) = rw (e, valid_support) refl
lemmas_valid l (inr (inr (inl e))) = rw (e, valid_support) refl
lemmas_valid l (inr (inr (inr (inl e)))) = rw (e, valid_support) refl
lemmas_valid l (inr (inr (inr (inr n)))) = absurd n

select_active_theory-IsTheory_example :
    (c : Circumstances) × (vs : List ActiveLemmaView) × (select_active_theory hashing histories
        selector lemmas
      ≡ ok vs)
    × IsTheory hashing histories selector c lemmas vs
select_active_theory-IsTheory_example =
    select_active_theory-IsTheory hashing histories selector lemmas lemmas-IsDistinct lemmas_valid

-- A version, its predecessor, and a version that succeeds itself by way of another one.
abbrev versions : Graph
versions = ("v2", "v1" ∷ []) ∷ ("v1", []) ∷ ("a", "b" ∷ []) ∷ ("b", "a" ∷ []) ∷ []

versions_cyclic : ancestry_is_acyclic versions ≡ false
unfolding program
versions_cyclic = refl

ancestry_is_acyclic_decides_example :
    (ancestry_is_acyclic versions ≡ true)
    ↔ ((v : String) → In v (keys versions) → Rooted (contains (keys versions)) versions v)
ancestry_is_acyclic_decides_example = ancestry_is_acyclic_decides versions

support_graph_is_acyclic_decides_example :
    (support_graph_is_acyclic lemmas ≡ true)
    ↔ ((l : WarrantedLemma) → In l lemmas → Founded lemmas (lemma_id l))
support_graph_is_acyclic_decides_example = support_graph_is_acyclic_decides lemmas lemmas-IsDistinct

abbrev asked : Question
asked = record {
  proposition_id = "relation";
  proposition_kind = existential;
  scope_fingerprint = print;
  authorized_checker_ids = "checker" ∷ [];
}

answered : (check_answer (reference "e1" "v1") evidence_records checker_verdicts asked).0 ≡ true
unfolding program
answered = refl

resolve_check_reference-Exact_example :
    (e : Evidence) × (v : CheckerVerdictRecord) × IsResolvedTo
      (reference "e1" "v1")
      evidence_records
      checker_verdicts
      asked
      e
      v
resolve_check_reference-Exact_example =
    resolve_check_reference-Exact (reference "e1" "v1") evidence_records checker_verdicts asked
      answered
