-- ===== src/Core/Agreement/Decisions.antt =====
-- core/transitions.py: the events of `decide`, put to `evolve`.
use ratcheting_consequence_i.Base.{
  ◌≡◌, refl, sym, ap, subst, ◌∙◌, String, List, [], ◌∷◌, ==_refl, string_eq, option_eq, list_eq,
  Result, ok, ◌>>◌, require, arith, invalid_transition,
}
use ratcheting_consequence_i.Canonical.{Hashing}
use ratcheting_consequence_i.Claims.{obligation_eq, obligation_status_eq}
use ratcheting_consequence_i.Planning.{step_plan_eq}
use ratcheting_consequence_i.Core.Records.{
  effect_request_eq, attempt_plan_eq, no_attempt_eq, outcome_eq, decode_eq,
}
use ratcheting_consequence_i.Core.State.{InquiryState}
use ratcheting_consequence_i.Core.Messages.{
  DomainCommand, DomainEvent, event_eq, start_inquiry, open_obligation, record_step_plan,
  request_effect, plan_effect_attempt, start_effect_attempt, record_no_attempt_disposition,
  record_attempt_outcome, record_decode_outcome, accept_effect_result, inquiry_started,
  obligation_opened, step_plan_recorded, effect_requested, effect_attempt_planned,
  effect_attempt_started, effect_no_attempt_disposition_recorded, effect_attempt_outcome_recorded,
  effect_decode_outcome_recorded, effect_result_accepted,
}
use ratcheting_consequence_i.Core.Decide.{Events, require_active, decide}
use ratcheting_consequence_i.Core.Evolve.{
  require_same, require_matching, evolve_started, evolve_step_plan, evolve_opened, evolve,
}
use ratcheting_consequence_i.Core.Agreement.{Applicable, after_refuse, make_state-Applicable}
use ratcheting_consequence_i.Core.Agreement.Commands.{
  planned-Applicable, started-Applicable, disposition-Applicable, outcome-Applicable,
  decode-Applicable, accept-Applicable, requested-Applicable, opened-given, step_plan-given,
  start-given,
}

module _ (h : Hashing) where
  require_matching-eq-ok :
      (st : InquiryState) (event : DomainEvent) (command : DomainCommand)
      → decide h st command ≡ ok (event ∷ [])
      → require_matching h st event command ≡ ok tt
  unfolding require_matching
  require_matching-eq-ok st event command e =
      rw e (subst (λ b. require b invalid_transition ≡ ok tt) (sym (==_refl (event ∷ []))) refl)

  pub require_active-ok :
      (st : InquiryState) (id : String) {k : Result Events} {events : Events}
      → (require_active st id >> k) ≡ ok events
      → (require_same st id ≡ ok tt) × (k ≡ ok events)
  unfolding require_active require_same
  require_active-ok st id e = ground arith

  after_same :
      (st : InquiryState) (id : String) {k : Result InquiryState}
      → require_same st id ≡ ok tt
      → Applicable k
      → Applicable (require_same st id >> k)
  after_same st id {k} same rest = subst (λ g. Applicable (g >> k)) (sym same) rest

  after_matching :
      (st : InquiryState) (event : DomainEvent) (command : DomainCommand) {k : Result InquiryState}
      → decide h st command ≡ ok (event ∷ [])
      → Applicable k
      → Applicable (require_matching h st event command >> k)
  after_matching st event command {k} e rest =
      subst (λ g. Applicable (g >> k)) (sym (require_matching-eq-ok st event command e)) rest

  -- The event of a command is the given one, and it can be applied.
  Agreed :
      (st : InquiryState) (given : DomainEvent) {event : DomainEvent} {events : Events}
      → event ∷ events ≡ given ∷ []
      → Applicable (evolve h st given)
      → (events ≡ []) × Applicable (evolve h st event)
  Agreed st given {event} same applies =
      let this : given ≡ event = cc same in
      (cc same, subst (λ x. Applicable (evolve h st x)) this applies)

  -- Of a command that `decide` accepts with an event, that event is the only one, and `evolve` applies it to
  -- the same state unless a validator refuses what it makes: no transition error is possible.
  pub decide-Applicable :
      (st : InquiryState) (command : DomainCommand) (event : DomainEvent)
      (events : List DomainEvent)
      → decide h st command ≡ ok (event ∷ events)
      → (events ≡ []) × Applicable (evolve h st event)
  unfolding decide evolve evolve_started evolve_opened evolve_step_plan
  decide-Applicable st (start_inquiry m manifest policy context) event events e =
      let (same, idle) = start-given h st m manifest policy context e in
      Agreed st (inquiry_started m manifest policy context) same
        (after_refuse _ invalid_transition idle (make_state-Applicable h _))
  decide-Applicable st (open_obligation m o) event events e =
      let (active_one, rest) = require_active-ok st m.inquiry_id e in
      let same = opened-given h st m o rest in
      Agreed st (obligation_opened m o) same (
        after_same st m.inquiry_id active_one (
          after_matching st (obligation_opened m o) (open_obligation m o) (e ∙ ap ok same)
            (make_state-Applicable h _)))
  decide-Applicable st (record_step_plan m p) event events e =
      let (active_one, rest) = require_active-ok st m.inquiry_id e in
      let same = step_plan-given h st m p rest in
      Agreed st (step_plan_recorded m p) same (
        after_same st m.inquiry_id active_one (
          after_matching st (step_plan_recorded m p) (record_step_plan m p) (e ∙ ap ok same)
            (make_state-Applicable h _)))
  decide-Applicable st (request_effect m r) event events e =
      let (active_one, rest) = require_active-ok st m.inquiry_id e in
      let (same, applies) = requested-Applicable h st m r rest in
      Agreed st (effect_requested m r) same (after_same st m.inquiry_id active_one applies)
  decide-Applicable st (plan_effect_attempt m p) event events e =
      let (active_one, rest) = require_active-ok st m.inquiry_id e in
      let (same, applies) = planned-Applicable h st m p rest in
      Agreed st (effect_attempt_planned m p) same (after_same st m.inquiry_id active_one applies)
  decide-Applicable st (start_effect_attempt m id) event events e =
      let (active_one, rest) = require_active-ok st m.inquiry_id e in
      let (same, applies) = started-Applicable h st m id rest in
      Agreed st (effect_attempt_started m id) same (after_same st m.inquiry_id active_one applies)
  decide-Applicable st (record_no_attempt_disposition m d) event events e =
      let (active_one, rest) = require_active-ok st m.inquiry_id e in
      let (same, applies) = disposition-Applicable h st m d rest in
      Agreed st (effect_no_attempt_disposition_recorded m d) same
        (after_same st m.inquiry_id active_one applies)
  decide-Applicable st (record_attempt_outcome m id o) event events e =
      let (active_one, rest) = require_active-ok st m.inquiry_id e in
      let (same, applies) = outcome-Applicable h st m id o rest in
      Agreed st (effect_attempt_outcome_recorded m id o) same
        (after_same st m.inquiry_id active_one applies)
  decide-Applicable st (record_decode_outcome m id d) event events e =
      let (active_one, rest) = require_active-ok st m.inquiry_id e in
      let (same, applies) = decode-Applicable h st m id d rest in
      Agreed st (effect_decode_outcome_recorded m id d) same
        (after_same st m.inquiry_id active_one applies)
  decide-Applicable st (accept_effect_result m id decode) event events e =
      let (active_one, rest) = require_active-ok st m.inquiry_id e in
      let (same, applies) = accept-Applicable h st m id decode rest in
      Agreed st (effect_result_accepted m id decode) same
        (after_same st m.inquiry_id active_one applies)
