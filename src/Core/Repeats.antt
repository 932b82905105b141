-- ===== src/Core/Repeats.antt =====
-- core/transitions.py: deciding a command again after its event was applied.
use ratcheting_consequence_i.Base.{
  ◌≡◌, refl, sym, ap, subst, ◌∙◌, String, true, some, List, [], ◌∷◌, ◌==◌, ==_refl, string_eq,
  option_eq, list_eq, find, Result, ok, ◌>>◌, refuse-ok, >>=-eq-ok, arith, invalid_transition,
  identity_conflict,
}
use ratcheting_consequence_i.Base.Finding.{find-append-none}
use ratcheting_consequence_i.Canonical.{Hashing}
use ratcheting_consequence_i.Claims.{Obligation, obligation_eq}
use ratcheting_consequence_i.Planning.{StepPlan, step_plan_eq}
use ratcheting_consequence_i.Core.Records.{
  ArtifactRef, artifact_eq, effect_request_eq, attempt_plan_eq, no_attempt_eq, outcome_eq,
  decode_eq,
}
use ratcheting_consequence_i.Core.State.{
  InquiryState, InquiryContext, is_active, context_eq, initial_state, step_plan_by_id,
  obligation_by_id,
}
use ratcheting_consequence_i.Core.Messages.{
  Metadata, DomainCommand, DomainEvent, start_inquiry, open_obligation, record_step_plan,
  request_effect, plan_effect_attempt, start_effect_attempt, record_no_attempt_disposition,
  record_attempt_outcome, record_decode_outcome, accept_effect_result, inquiry_started,
  obligation_opened, step_plan_recorded, effect_requested, effect_attempt_planned,
  effect_attempt_started, effect_no_attempt_disposition_recorded, effect_attempt_outcome_recorded,
  effect_decode_outcome_recorded, effect_result_accepted,
}
use ratcheting_consequence_i.Core.Decide.{
  Events, decide, decide_start, decide_open_obligation, decide_step_plan, require_active,
}
use ratcheting_consequence_i.Core.Evolve.{
  evolve, require_same, evolve_started, evolve_opened, evolve_step_plan, require_matching,
}
use ratcheting_consequence_i.Core.Steps.{
  Step, began, plan_recorded, obligation_added, requested, request_changed,
}
use ratcheting_consequence_i.Core.Steps.Inversion.{require_same-ok, evolve-Lawful}
use ratcheting_consequence_i.Core.Agreement.{unless_recorded-ok}
use ratcheting_consequence_i.Core.Agreement.Commands.{
  planned-Applicable, started-Applicable, disposition-Applicable, outcome-Applicable,
  decode-Applicable, accept-Applicable, requested-Applicable, opened-given, step_plan-given,
  start-given,
}
use ratcheting_consequence_i.Core.Agreement.Decisions.{require_active-ok}
use ratcheting_consequence_i.Core.Idempotence.{recorded, make_state-shape}
use ratcheting_consequence_i.Core.Idempotence.Commands.{
  again_planned, again_disposition, again_decode, again_accept, again_outcome, again_started,
  again_requested,
}

Step-identity :
    {st next : InquiryState}
    → Step st next
    → is_active st.status ≡ true
    → (next.status ≡ st.status) × (next.inquiry_id ≡ st.inquiry_id)
Step-identity (began next idle one running empty) live = cc
Step-identity (plan_recorded p running) live = (refl, refl)
Step-identity (obligation_added o running) live = (refl, refl)
Step-identity (requested r running fresh none_yet good bare) live = (refl, refl)
Step-identity (request_changed r new running member step good) live = (refl, refl)

same-active :
    (st : InquiryState) (id : String)
    → require_same st id ≡ ok tt
    → (is_active st.status ≡ true) × ((st.inquiry_id == some id) ≡ true)
unfolding require_same
same-active st id h = ground arith

active-goes_on :
    (st next : InquiryState) (id : String) {k : Result Events}
    → require_same st id ≡ ok tt
    → (next.status ≡ st.status) × (next.inquiry_id ≡ st.inquiry_id)
    → k ≡ ok []
    → (require_active next id >> k) ≡ ok []
unfolding require_active
active-goes_on st next id {k} h same rest =
    let (live, named) = same-active st id h in
    let live_next : is_active next.status ≡ true = ap is_active same.0 ∙ live in
    let named_next : (next.inquiry_id == some id) ≡ true =
      subst (λ i. (i == some id) ≡ true) (sym same.1) named in
    rw (live_next, named_next) rest

module _ (h : Hashing) where
  again_started_inquiry :
      (st next : InquiryState) (m : Metadata) (manifest : ArtifactRef) (policy : String)
      (context : InquiryContext)
      → evolve_started h st m manifest policy context ≡ ok next
      → decide_start next m manifest policy context ≡ ok []
  unfolding evolve_started decide_start initial_state
  again_started_inquiry st next m manifest policy context e =
      let (_, made) = refuse-ok (is_active st.status) invalid_transition e in
      subst (λ s. decide_start s m manifest policy context ≡ ok [])
        (sym (make_state-shape h _ made))
        (rw
          (
            ==_refl (some m.inquiry_id),
            ==_refl (some manifest),
            ==_refl (some policy),
            ==_refl (some context),
          )
          refl)

  again_opened :
      (st next : InquiryState) (m : Metadata) (o : Obligation) {event : DomainEvent}
      {events : Events}
      → decide_open_obligation h st m o ≡ ok (event ∷ events)
      → evolve_opened h st m o ≡ ok next
      → decide_open_obligation h next m o ≡ ok []
  unfolding decide_open_obligation evolve_opened obligation_by_id find
  again_opened st next m o d e =
      let (fresh, _) = unless_recorded-ok (obligation_by_id st o.id) o identity_conflict d in
      let (_, _, made) =
        >>=-eq-ok (require_matching h st (obligation_opened m o) (open_obligation m o)) _ e in
      let single : find (λ (x : Obligation). x.id == o.id) (o ∷ []) ≡ some o = ground arith in
      subst (λ s. decide_open_obligation h s m o ≡ ok []) (sym (make_state-shape h _ made))
        (rw
          (find-append-none (λ (x : Obligation). x.id == o.id) (some o) st.obligations (o ∷ [])
            fresh single)
          (recorded o identity_conflict))

  again_step_plan :
      (st next : InquiryState) (m : Metadata) (p : StepPlan) {event : DomainEvent} {events : Events}
      → decide_step_plan h st m p ≡ ok (event ∷ events)
      → evolve_step_plan h st m p ≡ ok next
      → decide_step_plan h next m p ≡ ok []
  unfolding decide_step_plan evolve_step_plan step_plan_by_id find
  again_step_plan st next m p d e =
      let (fresh, _) = unless_recorded-ok (step_plan_by_id st p.id) p identity_conflict d in
      let (_, _, made) =
        >>=-eq-ok (require_matching h st (step_plan_recorded m p) (record_step_plan m p)) _ e in
      let single : find (λ (x : StepPlan). x.id == p.id) (p ∷ []) ≡ some p = ground arith in
      subst (λ s. decide_step_plan h s m p ≡ ok []) (sym (make_state-shape h _ made))
        (rw
          (find-append-none (λ (x : StepPlan). x.id == p.id) (some p) st.step_plans (p ∷ []) fresh
            single)
          (recorded p identity_conflict))

  -- The step of the given event, which is the one that was applied.
  as_given :
      (st next : InquiryState) (given : DomainEvent) {event : DomainEvent} {events : Events}
      → event ∷ events ≡ given ∷ []
      → evolve h st event ≡ ok next
      → evolve h st given ≡ ok next
  as_given st next given {event} same e =
      let this : event ≡ given = cc same in subst (λ x. evolve h st x ≡ ok next) this e

  goes_on :
      (st next : InquiryState) (id : String) (event : DomainEvent) {k : Result Events}
      → require_same st id ≡ ok tt
      → evolve h st event ≡ ok next
      → k ≡ ok []
      → (require_active next id >> k) ≡ ok []
  goes_on st next id event live e rest =
      active-goes_on st next id live
        (Step-identity (evolve-Lawful h st event e).0 (same-active st id live).0) rest

  -- A command whose event was applied is decided again with no event: repeating it changes nothing.
  pub decide-repeated :
      (st next : InquiryState) (command : DomainCommand) (event : DomainEvent)
      (events : List DomainEvent)
      → decide h st command ≡ ok (event ∷ events)
      → evolve h st event ≡ ok next
      → decide h next command ≡ ok []
  unfolding decide evolve
  decide-repeated st next (start_inquiry m manifest policy context) event events d e =
      let (same, _) = start-given h st m manifest policy context d in
      again_started_inquiry st next m manifest policy context
        (as_given st next (inquiry_started m manifest policy context) same e)
  decide-repeated st next (open_obligation m o) event events d e =
      let (live, rest) = require_active-ok h st m.inquiry_id d in
      let (_, step) =
        require_same-ok h st m.inquiry_id
          (as_given st next (obligation_opened m o) (opened-given h st m o rest) e) in
      goes_on st next m.inquiry_id event live e (again_opened st next m o rest step)
  decide-repeated st next (record_step_plan m p) event events d e =
      let (live, rest) = require_active-ok h st m.inquiry_id d in
      let (_, step) =
        require_same-ok h st m.inquiry_id
          (as_given st next (step_plan_recorded m p) (step_plan-given h st m p rest) e) in
      goes_on st next m.inquiry_id event live e (again_step_plan st next m p rest step)
  decide-repeated st next (request_effect m r) event events d e =
      let (live, rest) = require_active-ok h st m.inquiry_id d in
      let (_, step) =
        require_same-ok h st m.inquiry_id
          (as_given st next (effect_requested m r) ((requested-Applicable h st m r rest).0) e) in
      goes_on st next m.inquiry_id event live e (again_requested h st next m r rest step)
  decide-repeated st next (plan_effect_attempt m p) event events d e =
      let (live, rest) = require_active-ok h st m.inquiry_id d in
      let (_, step) =
        require_same-ok h st m.inquiry_id (
          as_given st next (effect_attempt_planned m p) ((planned-Applicable h st m p rest).0) e) in
      goes_on st next m.inquiry_id event live e (again_planned h st next m p rest step)
  decide-repeated st next (start_effect_attempt m id) event events d e =
      let (live, rest) = require_active-ok h st m.inquiry_id d in
      let (_, step) = require_same-ok h st m.inquiry_id (
        as_given st next (effect_attempt_started m id) ((started-Applicable h st m id rest).0) e) in
      goes_on st next m.inquiry_id event live e (again_started h st next m id step)
  decide-repeated st next (record_no_attempt_disposition m x) event events d e =
      let (live, rest) = require_active-ok h st m.inquiry_id d in
      let (_, step) = require_same-ok h st m.inquiry_id (
        as_given st next (effect_no_attempt_disposition_recorded m x)
          ((disposition-Applicable h st m x rest).0) e) in
      goes_on st next m.inquiry_id event live e (again_disposition h st next m x rest step)
  decide-repeated st next (record_attempt_outcome m id o) event events d e =
      let (live, rest) = require_active-ok h st m.inquiry_id d in
      let (_, step) = require_same-ok h st m.inquiry_id (
        as_given st next (effect_attempt_outcome_recorded m id o)
          ((outcome-Applicable h st m id o rest).0) e) in
      goes_on st next m.inquiry_id event live e (again_outcome h st next m id o step)
  decide-repeated st next (record_decode_outcome m id x) event events d e =
      let (live, rest) = require_active-ok h st m.inquiry_id d in
      let (_, step) = require_same-ok h st m.inquiry_id (
        as_given st next (effect_decode_outcome_recorded m id x)
          ((decode-Applicable h st m id x rest).0) e) in
      goes_on st next m.inquiry_id event live e (again_decode h st next m id x rest step)
  decide-repeated st next (accept_effect_result m id decode) event events d e =
      let (live, rest) = require_active-ok h st m.inquiry_id d in
      let (_, step) = require_same-ok h st m.inquiry_id (
        as_given st next (effect_result_accepted m id decode)
          ((accept-Applicable h st m id decode rest).0) e) in
      goes_on st next m.inquiry_id event live e (again_accept h st next m id decode step)
