-- ===== src/Warrant/Promotion/Sound.antt =====
-- What every promotion decision of src/rci/warrant/policy.py guarantees.
use ratcheting_consequence_i.Base.{
  String, ◌≡◌, refl, subst, true, false, not, none, some, List, [], ◌∷◌, ◌++◌, ◌==◌, any, subset,
  is_empty, arith, In, ◌⊎◌, inl, inr, Bool-cases, if_split, not_parts, any_sound, subset_sound,
  string_eq, option_eq, ok, require-ok, value_error, ok_injective, contains,
}
use ratcheting_consequence_i.Base.Keyed.{lookup, keys}
use ratcheting_consequence_i.Canonical.{Hashing}
use ratcheting_consequence_i.Warrant.Models.{
  Evidence, CheckerVerdictRecord, SupportRoute, WarrantClass, hard, unwarranted, warrant_class_eq,
}
use ratcheting_consequence_i.Warrant.Lemmas.{
  WarrantedLemma, valid_version, valid_support, valid_lemma,
}
use ratcheting_consequence_i.Warrant.Checks.{
  IsExactCheck, IsResolvedTo, validate_checked_evidence, validate_sound, evidence_index,
  checker_verdict_index, indexed, resolve_check_reference-Exact,
}
use ratcheting_consequence_i.Warrant.Routes.{resolves}
use ratcheting_consequence_i.Warrant.Grounding.Least.{Grounded, grounded_lemma_ids-Grounded}
use ratcheting_consequence_i.Warrant.Ancestry.{
  support_graph, support_graph_is_acyclic, ancestry_is_acyclic,
}
use ratcheting_consequence_i.Warrant.Ancestry.Acyclic.{Rooted, ancestry_is_acyclic_decides}
use ratcheting_consequence_i.Warrant.Ancestry.Support.{support_graph_is_acyclic-Rooted}
use ratcheting_consequence_i.Warrant.Promotion.{
  Proposal, PromotionDecision, accepted, rejected, reject, candidate, checked_warrant,
  decide_evidence_warrant, guard_active, predecessor_map, circumstances, question,
  environment_question, same_support_class, is_closed, grounded_dependencies, promote_candidate,
  decide_promotion, evidence_eq, verdict_record_eq, evidence_kind_eq,
}

module _ (h : Hashing) (p : Proposal) where
  abbrev all_lemmas : List WarrantedLemma
  all_lemmas = p.existing_lemmas ++ candidate p ∷ []

  -- A route of the candidate whose dependencies are discharged, and whose checks resolve.
  pub record IsDischarged (r : SupportRoute) : Type 0 where
    pub listed : In r (candidate p).support.support_routes
    pub nothing_open : is_empty r.open_dependency_ids ≡ true
    pub supplied :
        (d : String)
        → In d r.required_dependency_ids
        → Grounded h (circumstances p) (same_support_class h p) d
    pub certified :
        (e : Evidence) × (v : CheckerVerdictRecord) × IsResolvedTo r.certificate_check
          p.evidence_records p.checker_verdicts
          (question h p)
          e
          v
    pub realizable :
        (e : Evidence) × (v : CheckerVerdictRecord) × IsResolvedTo r.environment.realizability_check
          p.evidence_records p.checker_verdicts
          (environment_question h p r)
          e
          v

  -- What an accepted promotion rests on.
  pub record IsPromotion (d : PromotionDecision) : Type 0 where
    pub is_accepted : d.outcome ≡ accepted
    pub class : d.warrant_class ≡ hard
    pub lemma : d.lemma ≡ some (candidate p)
    pub owned_evidence : In p.evidence p.evidence_records
    pub owned_verdict : In p.checker_verdict p.checker_verdicts
    pub exact : IsExactCheck p.evidence p.checker_verdict (question h p)
    pub warranted : (checked_warrant p.evidence p.proposition_kind p.scope).0 ≡ hard
    pub good_version : valid_version (candidate p).version ≡ true
    pub good_support : valid_support (candidate p).support ≡ true
    pub good_lemma : valid_lemma h (candidate p) ≡ true
    pub no_support_cycle :
        (v : String)
        → In v (keys (support_graph all_lemmas))
        → Rooted (λ _. true) (support_graph all_lemmas) v
    pub no_ancestry_cycle :
        (v : String)
        → In v (keys (predecessor_map [] all_lemmas))
        → Rooted (contains (keys (predecessor_map [] all_lemmas))) (predecessor_map [] all_lemmas) v
    pub guarded : guard_active p ≡ true
    pub discharged : (r : SupportRoute) × IsDischarged r

  -- A refusal carries no lemma and no hard warrant.
  pub record IsRefusal (d : PromotionDecision) : Type 0 where
    pub is_rejected : d.outcome ≡ rejected
    pub no_lemma : d.lemma ≡ none
    pub not_hard : (d.warrant_class == hard) ≡ false

  closed-IsDischarged :
      (r : SupportRoute)
      → In r (candidate p).support.support_routes
      → is_closed h p (grounded_dependencies h p) r ≡ true
      → IsDischarged r
  unfolding is_closed grounded_dependencies resolves
  closed-IsDischarged r m closed =
      let empty : is_empty r.open_dependency_ids ≡ true = ground arith in
      let within : subset r.required_dependency_ids (grounded_dependencies h p) ≡ true =
        ground arith in
      let certificate : resolves (circumstances p) r.certificate_check (question h p) ≡ true =
        ground arith in
      let environment : resolves (circumstances p) r.environment.realizability_check
            (environment_question h p r)
          ≡ true =
        ground arith in
      record {
        listed = m;
        nothing_open = empty;
        supplied = λ d needed.
            ((grounded_lemma_ids-Grounded h (circumstances p) (same_support_class h p)).1 d).0
              (subset_sound r.required_dependency_ids _ within d needed);
        certified = resolve_check_reference-Exact _ _ _ _ certificate;
        realizable = resolve_check_reference-Exact _ _ _ _ environment;
      }

  hard_warrant :
      (decide_evidence_warrant p.evidence p.checker_verdict (question h p) p.scope).0 ≡ hard
      → IsExactCheck p.evidence p.checker_verdict (question h p)
        × ((checked_warrant p.evidence p.proposition_kind p.scope).0 ≡ hard)
  unfolding decide_evidence_warrant question
  hard_warrant strong =
      let checked : (validate_checked_evidence p.evidence p.checker_verdict (question h p)).0
          ≡ true =
        ground arith in
      (validate_sound _ _ _ checked, ground arith)

  reject-IsRefusal : (reason : String) → IsRefusal (reject unwarranted reason)
  unfolding warrant_class_eq
  reject-IsRefusal reason = record { is_rejected = refl; no_lemma = refl; not_hard = refl }

  -- The gates over the built candidate.
  promote_candidate-Sound :
      (reason : String)
      → In p.evidence p.evidence_records
      → In p.checker_verdict p.checker_verdicts
      → (decide_evidence_warrant p.evidence p.checker_verdict (question h p) p.scope).0 ≡ hard
      → valid_version (candidate p).version ≡ true
      → valid_support (candidate p).support ≡ true
      → valid_lemma h (candidate p) ≡ true
      → IsPromotion (promote_candidate h p reason) ⊎ IsRefusal (promote_candidate h p reason)
  unfolding promote_candidate
  promote_candidate-Sound reason own_e own_v strong v_ok s_ok l_ok =
      elim (Bool-cases (support_graph_is_acyclic all_lemmas)) [
        | inr cyclic ↦ inr (rw (cyclic, promote_candidate) (reject-IsRefusal _))
        | inl acyclic ↦ elim (Bool-cases (ancestry_is_acyclic (predecessor_map [] all_lemmas))) [
          | inr cyclic ↦ inr (rw (acyclic, cyclic, promote_candidate) (reject-IsRefusal _))
          | inl rooted ↦ elim (Bool-cases (guard_active p)) [
            | inr inactive ↦
                inr (rw (acyclic, rooted, inactive, promote_candidate) (reject-IsRefusal _))
            | inl active ↦
                elim (Bool-cases (
                  any (is_closed h p (grounded_dependencies h p))
                    (candidate p).support.support_routes)) [
                      | inr open_routes ↦ inr (
                          rw (acyclic, rooted, active, open_routes, promote_candidate)
                            (reject-IsRefusal _))
                      | inl closed ↦
                          let (r, listed, works) =
                            any_sound _ (candidate p).support.support_routes closed in
                          let (exact, warranted) = hard_warrant strong in
                          inl (
                            rw (acyclic, rooted, active, closed, promote_candidate)
                              (record {
                                is_accepted = refl;
                                class = refl;
                                lemma = refl;
                                owned_evidence = own_e;
                                owned_verdict = own_v;
                                exact = exact;
                                warranted = warranted;
                                good_version = v_ok;
                                good_support = s_ok;
                                good_lemma = l_ok;
                                no_support_cycle =
                                    (support_graph_is_acyclic-Rooted all_lemmas).0 acyclic;
                                no_ancestry_cycle =
                                    (ancestry_is_acyclic_decides (predecessor_map [] all_lemmas)).0
                                      rooted;
                                guarded = active;
                                discharged = (r, closed-IsDischarged r listed works);
                              }))
                    ]
          ]
        ]
      ]

  refused :
      (reason : String) {d : PromotionDecision}
      → ok (reject unwarranted reason) ≡ ok d
      → IsPromotion d ⊎ IsRefusal d
  refused reason same = inr (subst IsRefusal (ok_injective same) (reject-IsRefusal reason))

  weak_refused :
      (class : WarrantClass) (reason : String) {d : PromotionDecision}
      → not (class == hard) ≡ true
      → ok (reject class reason) ≡ ok d
      → IsPromotion d ⊎ IsRefusal d
  weak_refused class reason weak same = inr (
      subst IsRefusal (ok_injective same)
        (record { is_rejected = refl; no_lemma = refl; not_hard = not_parts weak }))

  is_hard : (class : WarrantClass) → not (class == hard) ≡ false → class ≡ hard
  is_hard class strong = ground arith

  owned_evidence_record :
      not (lookup p.evidence.id (evidence_index p.evidence_records) == some p.evidence) ≡ false
      → In p.evidence p.evidence_records
  owned_evidence_record kept =
      (indexed (λ (x : Evidence). x.id) p.evidence_records p.evidence.id p.evidence
        (ground arith)).0

  owned_verdict_record :
      not (
          lookup p.checker_verdict.id (checker_verdict_index p.checker_verdicts)
          == some p.checker_verdict)
        ≡ false
      → In p.checker_verdict p.checker_verdicts
  owned_verdict_record kept =
      (indexed (λ (x : CheckerVerdictRecord). x.id) p.checker_verdicts p.checker_verdict.id
        p.checker_verdict (ground arith)).0

  -- Whatever promotion returns is sound. An accepted decision carries the candidate lemma with a hard
  -- warrant, and rests on recorded evidence and a recorded verdict that are an exact check of the
  -- relation, on evidence whose kind warrants hard, on a candidate that passes its validators, on
  -- support and ancestry graphs without cycles that include it, on an active guard, and on one of its
  -- routes with no open dependency, grounded required dependencies and both checks resolved. Any other
  -- decision is a rejection without a lemma and without a hard warrant.
  pub decide_promotion-Sound :
      (d : PromotionDecision) → decide_promotion h p ≡ ok d → IsPromotion d ⊎ IsRefusal d
  unfolding decide_promotion
  decide_promotion-Sound d e =
      if_split (p.policy_version == "") e (λ _ r. refused _ r)
        (λ _ e1.
          if_split
            (not (lookup p.evidence.id (evidence_index p.evidence_records) == some p.evidence)) e1
            (λ _ r. refused _ r)
            (λ own_e e2.
              if_split
                (not (
                  lookup p.checker_verdict.id (checker_verdict_index p.checker_verdicts)
                  == some p.checker_verdict))
                e2 (λ _ r. refused _ r)
                (λ own_v e3.
                  if_split
                    (not (
                      (decide_evidence_warrant p.evidence p.checker_verdict (question h p)
                        p.scope).0
                      == hard))
                    e3 (λ weak r. weak_refused _ _ weak r)
                    (λ strong e4.
                      if_split (is_empty p.support_routes) e4 (λ _ r. refused _ r)
                        (λ _ e5.
                          if_split
                            (any (λ (r : SupportRoute). not (r.conclusion_id == p.id))
                              p.support_routes)
                            e5 (λ _ r. refused _ r)
                            (λ _ e6.
                              let (v_ok, e7) = require-ok _ value_error e6 in
                              let (s_ok, e8) = require-ok _ value_error e7 in
                              let (l_ok, e9) = require-ok _ value_error e8 in
                              subst (λ x. IsPromotion x ⊎ IsRefusal x) (ok_injective e9)
                                (promote_candidate-Sound _ (owned_evidence_record own_e)
                                  (owned_verdict_record own_v) (is_hard _ strong) v_ok s_ok
                                  l_ok)))))))
