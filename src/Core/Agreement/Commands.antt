-- ===== src/Core/Agreement/Commands.antt =====
-- core/transitions.py: command by command, the event that `decide` gives, put to `evolve`.
use ratcheting_consequence_i.Base.{
  ◌≡◌, String, false, [], ◌∷◌, ◌==◌, string_eq, option_eq, list_eq, is_some, find, contains, subset,
  map, ok, require-ok, refuse-ok, >>=-eq-ok, if_split, arith, invalid_transition, invalid_command,
  effect_lifecycle, identity_conflict, runtime_error, if◌then◌else◌,
}
use ratcheting_consequence_i.Canonical.{Hashing}
use ratcheting_consequence_i.Claims.{Obligation, obligation_eq, obligation_status_eq, open_status}
use ratcheting_consequence_i.Planning.{StepPlan, is_ready, step_plan_eq}
use ratcheting_consequence_i.Core.Records.{
  EffectRequest, EffectAttemptPlan, NoAttemptDisposition, AttemptOutcome, AttemptState,
  DecodeOutcome, ArtifactRef, link_of, effect_request_eq, attempt_plan_eq, no_attempt_eq,
  outcome_eq, decode_eq,
}
use ratcheting_consequence_i.Core.State.{
  InquiryState, InquiryContext, is_active, request_by_id, step_plan_by_id, obligation_by_id,
  return_ids, decoded_by_id,
}
use ratcheting_consequence_i.Core.Messages.{
  Metadata, DomainEvent, event_eq, inquiry_started, obligation_opened, step_plan_recorded,
  effect_requested, effect_attempt_planned, effect_attempt_started,
  effect_no_attempt_disposition_recorded, effect_attempt_outcome_recorded,
  effect_decode_outcome_recorded, effect_result_accepted,
}
use ratcheting_consequence_i.Core.Decide.{
  Events, check_selection, known_fingerprint, scope_matches_context, require_request, decide_start,
  decide_open_obligation, decide_step_plan, decide_request, decide_plan_attempt,
  decide_start_attempt, decide_no_attempt, decide_outcome, decide_decode, decide_accept,
  all_attempts, all_dispositions, all_decodes, containing_request, attempt_of, existing_plan,
  existing_request, duplicate_return,
}
use ratcheting_consequence_i.Core.Evolve.{
  evolve_requested, evolve_planned, evolve_attempt_started, evolve_no_attempt, evolve_outcome,
  evolve_decode, evolve_accept,
}
use ratcheting_consequence_i.Core.Steps.{demand-ok, planned, start_with, finish_with, opened}
use ratcheting_consequence_i.Core.Agreement.{
  Applicable, after_demand, after_require, after_refuse, after_call, unless_recorded-ok, no_event,
  one_event, find-any, no_existing_plan, no_existing_request, nothing, something,
  make_attempt-Applicable, rebuild_attempt-Applicable, with_requests-Applicable,
  make_request-Applicable, with_replacement-Applicable,
}

module _ (h : Hashing) where
  pub planned-Applicable :
      (st : InquiryState) (m : Metadata) (p : EffectAttemptPlan) {event : DomainEvent}
      {events : Events}
      → decide_plan_attempt st m p ≡ ok (event ∷ events)
      → (event ∷ events ≡ effect_attempt_planned m p ∷ []) × Applicable (evolve_planned h st p)
  unfolding decide_plan_attempt require_request evolve_planned
  planned-Applicable st m p e =
      let (r, found, e1) = demand-ok (request_by_id st p.request_id) invalid_command _ e in
      let (fresh, e2) =
        unless_recorded-ok
          (existing_plan (find (λ (a : AttemptState). a.plan.id == p.id) (all_attempts st))) p
          identity_conflict e1 in
      let (unresolved, e3) =
        refuse-ok (is_some r.accepted_decoded_outcome_id) effect_lifecycle e2 in
      (
        one_event e3,
        after_demand (request_by_id st p.request_id) invalid_transition _ found (
            after_refuse _ invalid_transition
              (find-any (λ (a : AttemptState). a.plan.id == p.id) (all_attempts st)
                (no_existing_plan _ fresh))
              (after_refuse _ invalid_transition unresolved (
                after_call _ (make_attempt-Applicable (planned p))
                  (λ a. with_replacement-Applicable h st _)))),
      )

  pub started-Applicable :
      (st : InquiryState) (m : Metadata) (id : String) {event : DomainEvent} {events : Events}
      → decide_start_attempt st m id ≡ ok (event ∷ events)
      → (event ∷ events ≡ effect_attempt_started m id ∷ [])
        × Applicable (evolve_attempt_started h st m id)
  unfolding decide_start_attempt evolve_attempt_started
  started-Applicable st m id e =
      let (r, found, e1) = demand-ok (containing_request st id) effect_lifecycle _ e in
      let (a, its, e2) = demand-ok (attempt_of r id) runtime_error _ e1 in
      if_split a.started e2 (λ _ none_given. cc)
        (λ idle e3.
          let (unresolved, e4) =
            refuse-ok (is_some r.accepted_decoded_outcome_id) effect_lifecycle e3 in
          let (pending, e5) = refuse-ok (is_some a.outcome) effect_lifecycle e4 in
          (
            one_event e5,
            after_demand (containing_request st id) invalid_transition _ found (
                after_demand (attempt_of r id) runtime_error _ its (
                  after_refuse _ invalid_transition idle (
                    after_refuse _ invalid_transition unresolved (
                      after_call _ (rebuild_attempt-Applicable (start_with m) id r.attempts)
                        (λ attempts. with_replacement-Applicable h st _))))),
          ))

  pub disposition-Applicable :
      (st : InquiryState) (m : Metadata) (d : NoAttemptDisposition) {event : DomainEvent}
      {events : Events}
      → decide_no_attempt st m d ≡ ok (event ∷ events)
      → (event ∷ events ≡ effect_no_attempt_disposition_recorded m d ∷ [])
        × Applicable (evolve_no_attempt h st d)
  unfolding decide_no_attempt require_request evolve_no_attempt
  disposition-Applicable st m d e =
      let (r, found, e1) = demand-ok (request_by_id st d.request_id) invalid_command _ e in
      let (planned_for, e2) =
        require-ok (d.step_plan_id == r.request.step_plan_id) effect_lifecycle e1 in
      let (fresh, e3) =
        unless_recorded-ok (find (λ (x : NoAttemptDisposition). x.id == d.id) (all_dispositions st))
          d identity_conflict e2 in
      let (unresolved, e4) =
        refuse-ok (is_some r.accepted_decoded_outcome_id) effect_lifecycle e3 in
      (
        one_event e4,
        after_demand (request_by_id st d.request_id) invalid_transition _ found (
            after_require _ invalid_transition planned_for (
              after_refuse _ invalid_transition
                (find-any (λ (x : NoAttemptDisposition). x.id == d.id) (all_dispositions st) fresh)
                (after_refuse _ invalid_transition unresolved
                  (with_replacement-Applicable h st _)))),
      )

  pub outcome-Applicable :
      (st : InquiryState) (m : Metadata) (id : String) (o : AttemptOutcome) {event : DomainEvent}
      {events : Events}
      → decide_outcome st m id o ≡ ok (event ∷ events)
      → (event ∷ events ≡ effect_attempt_outcome_recorded m id o ∷ [])
        × Applicable (evolve_outcome h st id o)
  unfolding decide_outcome require_request evolve_outcome
  outcome-Applicable st m id o e =
      let (r, found, e1) = demand-ok (request_by_id st id) invalid_command _ e in
      let (a, its, e2) = demand-ok (attempt_of r (link_of o).attempt_id) effect_lifecycle _ e1 in
      let (begun, e3) = require-ok a.started effect_lifecycle e2 in
      let (route, e4) = require-ok (a.plan.route.id == (link_of o).route_id) effect_lifecycle e3 in
      let (pending, e5) = unless_recorded-ok a.outcome o effect_lifecycle e4 in
      let (fresh, e6) = refuse-ok (duplicate_return st o) identity_conflict e5 in
      (
        one_event e6,
        after_demand (request_by_id st id) invalid_transition _ found (
            after_demand (attempt_of r (link_of o).attempt_id) invalid_transition _ its (
              after_require _ invalid_transition begun (
                after_refuse _ invalid_transition (nothing pending) (
                  after_require _ invalid_transition route (
                    after_call _ (rebuild_attempt-Applicable (finish_with o) a.plan.id r.attempts)
                      (λ attempts. with_replacement-Applicable h st _)))))),
      )

  pub decode-Applicable :
      (st : InquiryState) (m : Metadata) (id : String) (d : DecodeOutcome) {event : DomainEvent}
      {events : Events}
      → decide_decode st m id d ≡ ok (event ∷ events)
      → (event ∷ events ≡ effect_decode_outcome_recorded m id d ∷ [])
        × Applicable (evolve_decode h st id d)
  unfolding decide_decode require_request evolve_decode
  decode-Applicable st m id d e =
      let (r, found, e1) = demand-ok (request_by_id st id) invalid_command _ e in
      let (fresh, e2) =
        unless_recorded-ok (find (λ (x : DecodeOutcome). x.id == d.id) (all_decodes st)) d
          identity_conflict e1 in
      let (captured, e3) =
        require-ok (contains (return_ids r) d.external_return_id) effect_lifecycle e2 in
      (
        one_event e3,
        after_demand (request_by_id st id) invalid_transition _ found (
            after_refuse _ invalid_transition
              (find-any (λ (x : DecodeOutcome). x.id == d.id) (all_decodes st) fresh)
              (after_require _ invalid_transition captured (with_replacement-Applicable h st _))),
      )

  pub accept-Applicable :
      (st : InquiryState) (m : Metadata) (id decode : String) {event : DomainEvent}
      {events : Events}
      → decide_accept st m id decode ≡ ok (event ∷ events)
      → (event ∷ events ≡ effect_result_accepted m id decode ∷ [])
        × Applicable (evolve_accept h st id decode)
  unfolding decide_accept require_request evolve_accept
  accept-Applicable st m id decode e =
      let (r, found, e1) = demand-ok (request_by_id st id) invalid_command _ e in
      let (unresolved, e2) =
        unless_recorded-ok r.accepted_decoded_outcome_id decode effect_lifecycle e1 in
      let (good, e3) =
        require-ok (is_some (decoded_by_id r.decode_outcomes decode)) effect_lifecycle e2 in
      (
        one_event e3,
        after_demand (request_by_id st id) invalid_transition _ found (
            after_refuse _ invalid_transition (nothing unresolved)
              (after_require _ invalid_transition good (with_replacement-Applicable h st _))),
      )

  pub requested-Applicable :
      (st : InquiryState) (m : Metadata) (r : EffectRequest) {event : DomainEvent} {events : Events}
      → decide_request h st m r ≡ ok (event ∷ events)
      → (event ∷ events ≡ effect_requested m r ∷ []) × Applicable (evolve_requested h st r)
  unfolding decide_request evolve_requested
  requested-Applicable st m r e =
      let (fresh, e1) =
        unless_recorded-ok (existing_request (request_by_id st r.id)) r identity_conflict e in
      let (p, known, e2) = demand-ok (step_plan_by_id st r.step_plan_id) effect_lifecycle _ e1 in
      let (ready_plan, e3) = require-ok (is_ready p.status) effect_lifecycle e2 in
      let (owned, e4) = require-ok _ effect_lifecycle e3 in
      (
        one_event e4,
        after_refuse _ invalid_transition (nothing (no_existing_request _ fresh)) (
            after_refuse _ invalid_transition (something known) (
              after_call _ (make_request-Applicable h (opened r))
                (λ new. with_requests-Applicable h st _))),
      )

  pub opened-given :
      (st : InquiryState) (m : Metadata) (o : Obligation) {event : DomainEvent} {events : Events}
      → decide_open_obligation h st m o ≡ ok (event ∷ events)
      → event ∷ events ≡ obligation_opened m o ∷ []
  unfolding decide_open_obligation
  opened-given st m o e =
      let (fresh, e1) = unless_recorded-ok (obligation_by_id st o.id) o identity_conflict e in
      if_split (known_fingerprint h st o) e1 (λ _ none_given. absurd (no_event none_given))
        (λ _ e2.
          let (begins_open, e3) = require-ok (o.status == open_status) invalid_command e2 in
          let (scoped, e4) = require-ok (scope_matches_context h st o.scope) invalid_command e3 in
          let (parented, e5) =
            require-ok
              (subset o.parent_obligation_ids (map (λ (x : Obligation). x.id) st.obligations))
              invalid_command e4 in
          one_event e5)

  pub step_plan-given :
      (st : InquiryState) (m : Metadata) (p : StepPlan) {event : DomainEvent} {events : Events}
      → decide_step_plan h st m p ≡ ok (event ∷ events)
      → event ∷ events ≡ step_plan_recorded m p ∷ []
  unfolding decide_step_plan
  step_plan-given st m p e =
      let (fresh, e1) = unless_recorded-ok (step_plan_by_id st p.id) p identity_conflict e in
      let (pinned, e2) = require-ok _ invalid_command e1 in
      let (_, checked, e3) =
        >>=-eq-ok (if is_ready p.status then check_selection h st p else ok tt)
          (λ _. ok (step_plan_recorded m p ∷ [])) e2 in
      one_event e3

  pub start-given :
      (st : InquiryState) (m : Metadata) (manifest : ArtifactRef) (policy : String)
      (context : InquiryContext) {event : DomainEvent} {events : Events}
      → decide_start st m manifest policy context ≡ ok (event ∷ events)
      → (event ∷ events ≡ inquiry_started m manifest policy context ∷ [])
        × (is_active st.status ≡ false)
  unfolding decide_start
  start-given st m manifest policy context e = ground arith
