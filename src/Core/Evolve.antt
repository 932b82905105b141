-- ===== src/Core/Evolve.antt =====
-- src/rci/core/transitions.py, `evolve`, and src/rci/core/replay.py. Records already in the state passed their
-- validators where they were made; the ones made here are validated here, and so is the new state.
use ratcheting_consequence_i.Base.{
  suc, String, true, false, ◌&&◌, none, some, List, [], ◌∷◌, ◌++◌, ◌==◌, string_eq, option_eq,
  list_eq, is_some, is_none, any, contains, update_where, Result, ok, raise, ◌>>=◌, ◌>>◌, require,
  refuse, value_error, invalid_command, invalid_transition, identity_conflict, effect_lifecycle,
  runtime_error, if◌then◌else◌,
}
use ratcheting_consequence_i.Canonical.{Hashing}
use ratcheting_consequence_i.Claims.{Obligation}
use ratcheting_consequence_i.Planning.{StepPlan}
use ratcheting_consequence_i.Core.Records.{
  ArtifactRef, EffectRequest, EffectAttemptPlan, NoAttemptDisposition, AttemptOutcome, AttemptState,
  DecodeOutcome, link_of,
}
use ratcheting_consequence_i.Core.State.{
  InquiryState, active, is_active, InquiryContext, EffectRequestState, initial_state, request_by_id,
  step_plan_by_id, return_ids, decoded_by_id, valid_attempt, valid_request_state, valid_state,
}
use ratcheting_consequence_i.Core.Messages.{
  Metadata, DomainCommand, DomainEvent, event_eq, inquiry_started, obligation_opened,
  step_plan_recorded, effect_requested, effect_attempt_planned, effect_attempt_started,
  effect_no_attempt_disposition_recorded, effect_attempt_outcome_recorded,
  effect_decode_outcome_recorded, effect_result_accepted, open_obligation, record_step_plan,
  open_obligation,
}
use ratcheting_consequence_i.Core.Decide.{
  demand, decide, all_attempts, all_dispositions, all_decodes, containing_request, attempt_of,
}

-- `_replace_request`
unfoldable pub replace_request : InquiryState → EffectRequestState → List EffectRequestState
unfolding update_where
replace_request st new =
    update_where (λ (r : EffectRequestState). r.request.id == new.request.id) (λ _. new)
      st.effect_requests

-- `EffectRequestState(...)`
unfoldable pub make_request : EffectRequestState → Result EffectRequestState
make_request r = if valid_request_state r then ok r else raise value_error

-- `AttemptState(...)`
unfoldable pub make_attempt : AttemptState → Result AttemptState
make_attempt a = if valid_attempt a then ok a else raise value_error

-- `tuple(AttemptState(...) if item.plan.id == id else item for item in attempts)`
unfoldable pub rebuild_attempt :
    (AttemptState → AttemptState) → String → List AttemptState → Result (List AttemptState)
unfolding make_attempt
rebuild_attempt f id [] = ok []
rebuild_attempt f id (a ∷ rest) =
    let others = rebuild_attempt f id rest in
    (if a.plan.id == id then make_attempt (f a) else ok a) >>= λ new.
    others >>= λ more. ok (new ∷ more)

-- An error of `decide` is one of a transition.
abbrev pub as_transition {ℓ} : {A : Type ℓ} → Result A → Result A
as_transition (raise invalid_command) = raise invalid_transition
as_transition (raise identity_conflict) = raise invalid_transition
as_transition (raise effect_lifecycle) = raise invalid_transition
as_transition (raise e) = raise e
as_transition (ok a) = ok a

-- `if state.status != "active" or state.inquiry_id != event.inquiry_id: raise ...`
unfoldable pub require_same : InquiryState → String → Result (Unit {0})
require_same st id = require (is_active st.status && (st.inquiry_id == some id)) invalid_transition

module _ (h : Hashing) where
  -- `_require_matching_decision`
  unfoldable pub require_matching : InquiryState → DomainEvent → DomainCommand → Result (Unit {0})
  require_matching st event command = as_transition (decide h st command) >>= λ expected.
      require (expected == (event ∷ [])) invalid_transition

  -- `InquiryState(...)`
  unfoldable pub make_state : InquiryState → Result InquiryState
  make_state st = if valid_state h st then ok st else raise value_error

  -- The state with the requests replaced, and the next sequence number.
  unfoldable pub with_requests : InquiryState → List EffectRequestState → Result InquiryState
  unfolding make_state
  with_requests st rs = make_state (record st { sequence = suc st.sequence; effect_requests = rs })

  -- The end of every effect step: the replacement is validated, and put in the place of its request.
  unfoldable pub with_replacement : InquiryState → EffectRequestState → Result InquiryState
  unfolding make_request with_requests replace_request
  with_replacement st new = make_request new >>= λ r. with_requests st (replace_request st r)

  unfoldable pub evolve_started :
      InquiryState → Metadata → ArtifactRef → String → InquiryContext → Result InquiryState
  unfolding make_state initial_state
  evolve_started st m manifest policy context =
      refuse (is_active st.status) invalid_transition
      >> make_state (record initial_state {
        status = active;
        inquiry_id = some m.inquiry_id;
        sequence = 1;
        manifest_artifact = some manifest;
        policy_version = some policy;
        context = some context;
      })

  -- `_advance_domain_state` with the new step plan
  unfoldable pub evolve_step_plan : InquiryState → Metadata → StepPlan → Result InquiryState
  unfolding require_matching make_state
  evolve_step_plan st m p =
      require_matching st (step_plan_recorded m p) (record_step_plan m p)
      >> make_state
          (record st { sequence = suc st.sequence; step_plans = st.step_plans ++ (p ∷ []) })

  -- `_advance_domain_state` with the new obligation
  unfoldable pub evolve_opened : InquiryState → Metadata → Obligation → Result InquiryState
  unfolding require_matching make_state
  evolve_opened st m o =
      require_matching st (obligation_opened m o) (open_obligation m o)
      >> make_state
          (record st { sequence = suc st.sequence; obligations = st.obligations ++ (o ∷ []) })

  unfoldable pub evolve_requested : InquiryState → EffectRequest → Result InquiryState
  unfolding make_request with_requests
  evolve_requested st r =
      refuse (is_some (request_by_id st r.id)) invalid_transition
      >> refuse (is_none (step_plan_by_id st r.step_plan_id)) invalid_transition
      >> make_request (record {
        request = r;
        attempts = [];
        no_attempt_dispositions = [];
        decode_outcomes = [];
        accepted_decoded_outcome_id = none;
      })
      >>= λ new. with_requests st (st.effect_requests ++ (new ∷ []))

  unfoldable pub evolve_planned : InquiryState → EffectAttemptPlan → Result InquiryState
  unfolding any all_attempts make_attempt with_replacement
  evolve_planned st p = demand (request_by_id st p.request_id) invalid_transition >>= λ r.
      refuse (any (λ (a : AttemptState). a.plan.id == p.id) (all_attempts st)) invalid_transition
      >> refuse (is_some r.accepted_decoded_outcome_id) invalid_transition
      >> make_attempt (record {
        plan = p;
        started = false;
        started_event_id = none;
        started_at = none;
        outcome = none;
      })
      >>= λ a. with_replacement st (record r { attempts = r.attempts ++ (a ∷ []) })

  unfoldable pub evolve_attempt_started : InquiryState → Metadata → String → Result InquiryState
  unfolding containing_request attempt_of rebuild_attempt with_replacement
  evolve_attempt_started st m id = demand (containing_request st id) invalid_transition >>= λ r.
      demand (attempt_of r id) runtime_error >>= λ a.
      refuse a.started invalid_transition
      >> refuse (is_some r.accepted_decoded_outcome_id) invalid_transition
      >> rebuild_attempt
          (λ (x : AttemptState). record {
            plan = x.plan;
            started = true;
            started_event_id = some m.event_id;
            started_at = some m.occurred_at;
            outcome = none;
          })
          id r.attempts
      >>= λ attempts. with_replacement st (record r { attempts = attempts })

  unfoldable pub evolve_no_attempt : InquiryState → NoAttemptDisposition → Result InquiryState
  unfolding any all_dispositions with_replacement
  evolve_no_attempt st d = demand (request_by_id st d.request_id) invalid_transition >>= λ r.
      require (d.step_plan_id == r.request.step_plan_id) invalid_transition
      >> refuse (any (λ (x : NoAttemptDisposition). x.id == d.id) (all_dispositions st))
          invalid_transition
      >> refuse (is_some r.accepted_decoded_outcome_id) invalid_transition
      >> with_replacement st
          (record r { no_attempt_dispositions = r.no_attempt_dispositions ++ (d ∷ []) })

  unfoldable pub evolve_outcome : InquiryState → String → AttemptOutcome → Result InquiryState
  unfolding attempt_of rebuild_attempt with_replacement
  evolve_outcome st id o = demand (request_by_id st id) invalid_transition >>= λ r.
      demand (attempt_of r (link_of o).attempt_id) invalid_transition >>= λ a.
      require a.started invalid_transition
      >> refuse (is_some a.outcome) invalid_transition
      >> require (a.plan.route.id == (link_of o).route_id) invalid_transition
      >> rebuild_attempt (λ (x : AttemptState). record x { outcome = some o }) a.plan.id r.attempts
      >>= λ attempts. with_replacement st (record r { attempts = attempts })

  unfoldable pub evolve_decode : InquiryState → String → DecodeOutcome → Result InquiryState
  unfolding any all_decodes return_ids with_replacement
  evolve_decode st id d = demand (request_by_id st id) invalid_transition >>= λ r.
      refuse (any (λ (x : DecodeOutcome). x.id == d.id) (all_decodes st)) invalid_transition
      >> require (contains (return_ids r) d.external_return_id) invalid_transition
      >> with_replacement st (record r { decode_outcomes = r.decode_outcomes ++ (d ∷ []) })

  unfoldable pub evolve_accept : InquiryState → String → String → Result InquiryState
  unfolding decoded_by_id with_replacement
  evolve_accept st id decode = demand (request_by_id st id) invalid_transition >>= λ r.
      refuse (is_some r.accepted_decoded_outcome_id) invalid_transition
      >> require (is_some (decoded_by_id r.decode_outcomes decode)) invalid_transition
      >> with_replacement st (record r { accepted_decoded_outcome_id = some decode })

  unfoldable pub evolve : InquiryState → DomainEvent → Result InquiryState
  unfolding require_same evolve_started evolve_opened evolve_step_plan evolve_requested
      evolve_planned evolve_attempt_started evolve_no_attempt evolve_outcome evolve_decode
      evolve_accept
  evolve st (inquiry_started m manifest policy context) =
      evolve_started st m manifest policy context
  evolve st (obligation_opened m o) = require_same st m.inquiry_id >> evolve_opened st m o
  evolve st (step_plan_recorded m p) = require_same st m.inquiry_id >> evolve_step_plan st m p
  evolve st (effect_requested m r) = require_same st m.inquiry_id >> evolve_requested st r
  evolve st (effect_attempt_planned m p) = require_same st m.inquiry_id >> evolve_planned st p
  evolve st (effect_attempt_started m id) =
      require_same st m.inquiry_id >> evolve_attempt_started st m id
  evolve st (effect_no_attempt_disposition_recorded m d) =
      require_same st m.inquiry_id >> evolve_no_attempt st d
  evolve st (effect_attempt_outcome_recorded m id o) =
      require_same st m.inquiry_id >> evolve_outcome st id o
  evolve st (effect_decode_outcome_recorded m id d) =
      require_same st m.inquiry_id >> evolve_decode st id d
  evolve st (effect_result_accepted m id decode) =
      require_same st m.inquiry_id >> evolve_accept st id decode

  -- `replay`, from a state the caller gives
  unfoldable pub replay : List DomainEvent → InquiryState → Result InquiryState
  unfolding evolve
  replay [] st = ok st
  replay (event ∷ events) st = evolve st event >>= λ next. replay events next
