-- ===== src/Core/State.antt =====
-- src/rci/core/state.py, with the validators of AttemptState and EffectRequestState (effects.py) and
-- of InquiryContext (model.py). The aggregate is projected to the fields the modelled commands read and write;
-- the collections left out are read by none of them, every step carries them over as they are, and the
-- validator's conditions on them are left out with them.
use ratcheting_consequence_i.Base.{
  ℕ, String, Bool, true, false, not, ◌&&◌, ◌||◌, Option, none, some, List, [], ◌∷◌, map, Eq, ◌==◌,
  String-discrete, string_eq, bool_eq, option_eq, list_eq, is_some, is_none, distinct, all, find,
  keep, gather, contains, last?, is_empty, nat_eq,
}
use ratcheting_consequence_i.Claims.{
  Obligation, ObligationStatus, ObligationDisposition, obligation_fingerprint,
}
use ratcheting_consequence_i.Canonical.{Hashing}
use ratcheting_consequence_i.Planning.{StepPlan, AttemptKey, is_ready}
use ratcheting_consequence_i.Core.Records.{
  ArtifactRef, EffectRequest, AttemptState, AttemptOutcome, NoAttemptDisposition, DecodeOutcome,
  Decoding, decoded, returned, CanonicalResult, ExternalReturn, base_of, ArtifactRef-discrete,
  artifact_eq,
}

pub record InquiryContext : Type 0 where
  pub binding_revision : String
  pub carrier_schema_ids : List String
  pub relation_schema_ids : List String
  pub consequence_profile_id : String
  pub protected_horizon_id : String
  pub admissible_operation_ids : List String
  pub discharge_mechanism_ids : List String
  pub scope_id : String
  pub scope_fingerprint : String
  pub assumption_ids : List String
  pub guard_condition_id : Option String
  pub guard_ast : Option ArtifactRef
  pub finite_universe_hash : Option String
  pub closed_world : Bool
  pub catalog_manifest_digest : String
  pub scheduler_policy_version : String
  pub warrant_policy_version : String
  pub provenance_refs : List String

-- `InquiryContext.validate_context`
unfoldable pub valid_context : InquiryContext → Bool
valid_context c =
    not (is_empty c.carrier_schema_ids || is_empty c.relation_schema_ids)
    && not (is_empty c.provenance_refs)
    && distinct c.carrier_schema_ids
    && distinct c.relation_schema_ids
    && distinct c.admissible_operation_ids
    && distinct c.discharge_mechanism_ids
    && distinct c.assumption_ids
    && distinct c.provenance_refs
    && not (c.closed_world && is_none c.finite_universe_hash)
    && (is_none c.guard_condition_id == is_none c.guard_ast)

unfoldable pub InquiryContext-discrete : Discrete InquiryContext
unfolding String-discrete ArtifactRef-discrete
InquiryContext-discrete = hlevel (String-discrete, ArtifactRef-discrete)

instance unfoldable pub context_eq : Eq InquiryContext
unfolding InquiryContext-discrete
context_eq = record { dec = InquiryContext-discrete }

-- `AttemptState.validate_lifecycle`
unfoldable pub valid_attempt : AttemptState → Bool
valid_attempt a =
    (a.started == (is_some a.started_event_id && is_some a.started_at))
    && not (is_some a.outcome && not a.started)

pub record EffectRequestState : Type 0 where
  pub request : EffectRequest
  pub attempts : List AttemptState
  pub no_attempt_dispositions : List NoAttemptDisposition
  pub decode_outcomes : List DecodeOutcome
  pub accepted_decoded_outcome_id : Option String

abbrev return_of_outcome : Option AttemptOutcome → List ExternalReturn
return_of_outcome (some (returned l x)) = x ∷ []
return_of_outcome _ = []

-- The external returns of the attempts that returned.
unfoldable pub returns_of : List AttemptState → List ExternalReturn
unfolding gather
returns_of = gather (λ (a : AttemptState). return_of_outcome a.outcome)

unfoldable pub return_ids : EffectRequestState → List String
unfolding returns_of
return_ids r = map (λ (x : ExternalReturn). x.id) (returns_of r.attempts)

abbrev pub attempt_id : AttemptState → String
attempt_id a = a.plan.id

abbrev pub decode_id : DecodeOutcome → String
decode_id d = d.id

abbrev pub no_attempt_id : NoAttemptDisposition → String
no_attempt_id d = d.id

abbrev decoded_result : Option DecodeOutcome → Option CanonicalResult
decoded_result none = none
decoded_result (some d) = result_of d.decoding
  where
    result_of : Decoding → Option CanonicalResult
    result_of (decoded r) = some r
    result_of _ = none

-- `next((o for o in decode_outcomes if o.id == id), None)`, and its result when it is a `Decoded`.
unfoldable pub decoded_by_id : List DecodeOutcome → String → Option CanonicalResult
unfolding find
decoded_by_id ds id = decoded_result (find (λ (d : DecodeOutcome). d.id == id) ds)

abbrev accepted_of : List DecodeOutcome → Option String → Option CanonicalResult
accepted_of ds none = none
accepted_of ds (some id) = decoded_by_id ds id

-- `EffectRequestState.accepted_result`
abbrev pub accepted_result : EffectRequestState → Option CanonicalResult
accepted_result r = accepted_of r.decode_outcomes r.accepted_decoded_outcome_id

-- `EffectRequestState.validate_cardinalities`
unfoldable pub valid_request_state : EffectRequestState → Bool
unfolding return_ids
valid_request_state r =
    distinct (map attempt_id r.attempts)
    && distinct (map no_attempt_id r.no_attempt_dispositions)
    && distinct (return_ids r)
    && distinct (map decode_id r.decode_outcomes)
    && all (λ (d : DecodeOutcome). contains (return_ids r) d.external_return_id) r.decode_outcomes
    && (is_none r.accepted_decoded_outcome_id || is_some (accepted_result r))

pub data InquiryStatus : Type 0 where
  not_started active : InquiryStatus

abbrev pub is_active : InquiryStatus → Bool
is_active active = true
is_active not_started = false

pub record InquiryState : Type 0 where
  pub status : InquiryStatus
  pub inquiry_id : Option String
  pub sequence : ℕ
  pub manifest_artifact : Option ArtifactRef
  pub policy_version : Option String
  pub context : Option InquiryContext
  pub step_plans : List StepPlan
  pub effect_requests : List EffectRequestState
  pub obligations : List Obligation
  pub obligation_dispositions : List ObligationDisposition

unfoldable pub initial_state : InquiryState
initial_state = record {
  status = not_started;
  inquiry_id = none;
  sequence = 0;
  manifest_artifact = none;
  policy_version = none;
  context = none;
  step_plans = [];
  effect_requests = [];
  obligations = [];
  obligation_dispositions = [];
}

abbrev pub request_id : EffectRequestState → String
request_id r = r.request.id

unfoldable pub request_by_id : InquiryState → String → Option EffectRequestState
unfolding find
request_by_id st id = find (λ (r : EffectRequestState). r.request.id == id) st.effect_requests

unfoldable pub step_plan_by_id : InquiryState → String → Option StepPlan
unfolding find
step_plan_by_id st id = find (λ (p : StepPlan). p.id == id) st.step_plans

unfoldable pub obligation_by_id : InquiryState → String → Option Obligation
unfolding find
obligation_by_id st id = find (λ (o : Obligation). o.id == id) st.obligations

abbrev latest_status : Option ObligationDisposition → ObligationStatus → ObligationStatus
latest_status none s = s
latest_status (some d) s = d.status

-- `InquiryState.current_obligation_status`: that of the latest disposition, else the obligation's own.
unfoldable pub current_obligation_status : InquiryState → String → Option ObligationStatus
unfolding obligation_by_id keep last?
current_obligation_status st id = status_from (obligation_by_id st id)
  where
    status_from : Option Obligation → Option ObligationStatus
    status_from none = none
    status_from (some o) = some (
        latest_status
          (last? (
            keep (λ (d : ObligationDisposition). d.obligation_id == id) st.obligation_dispositions))
          o.status)

-- `x or ""`
abbrev pub or_empty : Option String → String
or_empty none = ""
or_empty (some s) = s

abbrev result_id_of : Option CanonicalResult → List String
result_id_of none = []
result_id_of (some r) = (base_of r).id ∷ []

unfoldable pub accepted_result_ids : List EffectRequestState → List String
accepted_result_ids = gather (λ (r : EffectRequestState). result_id_of (accepted_result r))

abbrev pub policy_matches : Option InquiryContext → StepPlan → Bool
policy_matches none p = false
policy_matches (some c) p = p.policy_version == c.scheduler_policy_version

module _ (h : Hashing) where
  -- The attempt key is the one of the obligation: `key.obligation_fingerprint`, `key.binding_revision`.
  unfoldable pub matches_obligation : AttemptKey → Obligation → Bool
  matches_obligation k o =
      (k.obligation_fingerprint == obligation_fingerprint h o)
      && (k.binding_revision == o.binding_revision)

  abbrev selects : Option Obligation → Option AttemptKey → Bool
  selects (some o) (some k) = matches_obligation k o
  selects _ _ = false

  -- The selected obligation is recorded, and the plan's attempt key is its own.
  unfoldable pub owns_selection : InquiryState → StepPlan → Bool
  unfolding obligation_by_id matches_obligation
  owns_selection st p =
      selects (obligation_by_id st (or_empty p.selected_obligation_id)) p.selected_attempt_key

  unfoldable pub valid_started : InquiryState → Bool
  valid_started st = started st.status
    where
      started : InquiryStatus → Bool
      started not_started =
          (st.sequence == 0)
          && is_none st.inquiry_id
          && is_none st.manifest_artifact
          && is_none st.policy_version
          && is_none st.context
          && is_empty st.step_plans
          && is_empty st.effect_requests
          && is_empty st.obligations
          && is_empty st.obligation_dispositions
      started active =
          is_some st.inquiry_id
          && is_some st.manifest_artifact
          && is_some st.policy_version
          && is_some st.context

  unfoldable pub valid_requests : InquiryState → Bool
  unfolding gather
  valid_requests st =
      distinct (map request_id st.effect_requests)
      && all
          (λ (r : EffectRequestState).
            contains (map (λ (p : StepPlan). p.id) st.step_plans) r.request.step_plan_id)
          st.effect_requests
      && distinct
          (map attempt_id (gather (λ (r : EffectRequestState). r.attempts) st.effect_requests))
      && distinct (gather return_ids st.effect_requests)
      && distinct (
          map decode_id (gather (λ (r : EffectRequestState). r.decode_outcomes) st.effect_requests))
      && distinct (accepted_result_ids st.effect_requests)

  unfoldable pub valid_plans : InquiryState → Bool
  valid_plans st =
      distinct (map (λ (p : StepPlan). p.id) st.step_plans)
      && all
          (λ (p : StepPlan).
            policy_matches st.context p && (not (is_ready p.status) || owns_selection st p))
          st.step_plans

  unfoldable pub valid_obligations : InquiryState → Bool
  valid_obligations st =
      distinct (map (λ (o : Obligation). o.id) st.obligations)
      && distinct (map (λ (d : ObligationDisposition). d.id) st.obligation_dispositions)
      && all
          (λ (d : ObligationDisposition).
            contains (map (λ (o : Obligation). o.id) st.obligations) d.obligation_id)
          st.obligation_dispositions

  -- `InquiryState.validate_lifecycle`, the parts of it that read the modelled fields
  unfoldable pub valid_state : InquiryState → Bool
  unfolding valid_started valid_requests valid_plans valid_obligations
  valid_state st = valid_started st && valid_requests st && valid_plans st && valid_obligations st
