-- ===== src/Core/Steps/Inversion.antt =====
-- core/transitions.py, `evolve`: the step of the relation that each event takes.
use ratcheting_consequence_i.Base.{
  ==_iff, ◌≡◌, refl, sym, subst, suc, String, true, false, Option, none, some, [], ◌∷◌, ◌++◌, ◌==◌,
  ◌&&◌, string_eq, option_eq, list_eq, is_some, is_none, any, find, find_sound, contains, In,
  Result, ok, ◌>>◌, require-ok, refuse-ok, >>=-eq-ok, ok_injective, raise-ne-ok, if_split,
  and_parts, invalid_transition, runtime_error,
}
use ratcheting_consequence_i.Canonical.{Hashing}
use ratcheting_consequence_i.Claims.{Obligation}
use ratcheting_consequence_i.Planning.{StepPlan}
use ratcheting_consequence_i.Core.Records.{
  EffectRequest, EffectAttemptPlan, NoAttemptDisposition, AttemptOutcome, AttemptState,
  DecodeOutcome, ArtifactRef, link_of,
}
use ratcheting_consequence_i.Core.State.{
  InquiryState, InquiryContext, is_active, EffectRequestState, request_by_id, step_plan_by_id,
  return_ids, decoded_by_id, valid_attempt, valid_request_state, valid_state,
}
use ratcheting_consequence_i.Core.Messages.{
  Metadata, DomainEvent, event_eq, inquiry_started, obligation_opened, open_obligation,
  step_plan_recorded, effect_requested, effect_attempt_planned, effect_attempt_started,
  effect_no_attempt_disposition_recorded, effect_attempt_outcome_recorded,
  effect_decode_outcome_recorded, effect_result_accepted, record_step_plan,
}
use ratcheting_consequence_i.Core.Decide.{containing_request, attempt_of}
use ratcheting_consequence_i.Core.Evolve.{
  replace_request, make_request, make_attempt, rebuild_attempt, require_matching, make_state,
  with_requests, with_replacement, evolve_started, evolve_step_plan, evolve_opened,
  evolve_requested, evolve_planned, evolve_attempt_started, evolve_no_attempt, evolve_outcome,
  evolve_decode, evolve_accept, require_same, evolve,
}
use ratcheting_consequence_i.Core.Steps.{
  rebuild_attempt-Rebuilt, demand-ok, planned, opened, start_with, finish_with, RequestStep,
  attempt_planned, attempt_started, disposition_recorded, outcome_recorded, decode_recorded,
  result_accepted, Step, began, plan_recorded, obligation_added, requested, request_changed,
}

is_none-some {ℓ} : {A : Type ℓ} {o : Option A} → is_some o ≡ false → o ≡ none
is_none-some {o = none} h = refl
is_none-some {o = some a} h = cc

request_by_id-In :
    (st : InquiryState) (id : String) {r : EffectRequestState}
    → request_by_id st id ≡ some r
    → In r st.effect_requests
unfolding request_by_id find
request_by_id-In st id {r} h =
    (find_sound (λ (x : EffectRequestState). x.request.id == id) r st.effect_requests h).0

request_by_id-named :
    (st : InquiryState) (id : String) {r : EffectRequestState}
    → request_by_id st id ≡ some r
    → r.request.id ≡ id
unfolding request_by_id find
request_by_id-named st id {r} h =
    (==_iff _ _).0
      (find_sound (λ (x : EffectRequestState). x.request.id == id) r st.effect_requests h).1

containing_request-In :
    (st : InquiryState) (id : String) {r : EffectRequestState}
    → containing_request st id ≡ some r
    → In r st.effect_requests
unfolding containing_request find
containing_request-In st id {r} h =
    (find_sound (λ (x : EffectRequestState). any (λ (a : AttemptState). a.plan.id == id) x.attempts)
      r st.effect_requests h).0

pub make_request-ok :
    (r : EffectRequestState) {s : EffectRequestState}
    → make_request r ≡ ok s
    → (r ≡ s) × (valid_request_state r ≡ true)
unfolding make_request
make_request-ok r h =
    if_split (valid_request_state r) h (λ valid e. (ok_injective e, valid))
      (λ _ e. absurd (raise-ne-ok e))

pub make_attempt-ok :
    (a : AttemptState) {b : AttemptState}
    → make_attempt a ≡ ok b
    → (a ≡ b) × (valid_attempt a ≡ true)
unfolding make_attempt
make_attempt-ok a h =
    if_split (valid_attempt a) h (λ valid e. (ok_injective e, valid))
      (λ _ e. absurd (raise-ne-ok e))

module _ (h : Hashing) where
  -- What a step of `evolve` from `st` to `next` is.
  abbrev pub Lawful : InquiryState → InquiryState → Type 0
  Lawful st next = Step st next × (valid_state h next ≡ true)

  make_state-Lawful :
      (st new : InquiryState) {next : InquiryState}
      → Step st new
      → make_state h new ≡ ok next
      → Lawful st next
  unfolding make_state
  make_state-Lawful st new step e =
      if_split (valid_state h new) e
        (λ valid made. (
          subst (Step st) (ok_injective made) step,
          subst (λ s. valid_state h s ≡ true) (ok_injective made) valid,
        ))
        (λ _ made. absurd (raise-ne-ok made))

  with_replacement-Lawful :
      (st : InquiryState) (r new : EffectRequestState) {next : InquiryState}
      → is_active st.status ≡ true
      → In r st.effect_requests
      → RequestStep r new
      → with_replacement h st new ≡ ok next
      → Lawful st next
  unfolding with_replacement with_requests
  with_replacement-Lawful st r new {next} running member step e =
      let (made, e1, e2) =
        >>=-eq-ok (make_request new) (λ x. with_requests h st (replace_request st x)) e in
      let (same, valid) = make_request-ok new e1 in
      make_state-Lawful st
        (record st { sequence = suc st.sequence; effect_requests = replace_request st new })
        (request_changed r new running member step valid)
        (subst (λ x. with_requests h st (replace_request st x) ≡ ok next) (sym same) e2)

  started-Lawful :
      (st : InquiryState) (m : Metadata) (manifest : ArtifactRef) (policy : String)
      (context : InquiryContext) {next : InquiryState}
      → evolve_started h st m manifest policy context ≡ ok next
      → Lawful st next
  unfolding evolve_started
  started-Lawful st m manifest policy context e =
      let (idle, made) = refuse-ok (is_active st.status) invalid_transition e in
      make_state-Lawful st _ (began _ idle refl refl refl) made

  planned-Lawful :
      (st : InquiryState) (p : EffectAttemptPlan) {next : InquiryState}
      → is_active st.status ≡ true
      → evolve_planned h st p ≡ ok next
      → Lawful st next
  unfolding evolve_planned
  planned-Lawful st p {next} running e =
      let (r, found, e1) = demand-ok (request_by_id st p.request_id) invalid_transition _ e in
      let (fresh, e2) = refuse-ok _ invalid_transition e1 in
      let (unresolved, e3) =
        refuse-ok (is_some r.accepted_decoded_outcome_id) invalid_transition e2 in
      let (a, e4, e5) = >>=-eq-ok (make_attempt (planned p)) _ e3 in
      let (same, valid) = make_attempt-ok (planned p) e4 in
      with_replacement-Lawful st r (record r { attempts = r.attempts ++ (planned p ∷ []) }) running
        (request_by_id-In st p.request_id found)
        (attempt_planned p (is_none-some unresolved) valid
          (sym (request_by_id-named st p.request_id found)))
        (subst
          (λ x. with_replacement h st (record r { attempts = r.attempts ++ (x ∷ []) }) ≡ ok next)
          (sym same) e5)

  started_attempt-Lawful :
      (st : InquiryState) (m : Metadata) (id : String) {next : InquiryState}
      → is_active st.status ≡ true
      → evolve_attempt_started h st m id ≡ ok next
      → Lawful st next
  unfolding evolve_attempt_started
  started_attempt-Lawful st m id running e =
      let (r, found, e1) = demand-ok (containing_request st id) invalid_transition _ e in
      let (a, its, e2) = demand-ok (attempt_of r id) runtime_error _ e1 in
      let (idle, e3) = refuse-ok a.started invalid_transition e2 in
      let (unresolved, e4) =
        refuse-ok (is_some r.accepted_decoded_outcome_id) invalid_transition e3 in
      let (attempts, rebuilt, e5) = >>=-eq-ok (rebuild_attempt (start_with m) id r.attempts) _ e4 in
      with_replacement-Lawful st r (record r { attempts = attempts }) running
        (containing_request-In st id found)
        (attempt_started m id a its idle (is_none-some unresolved)
          (rebuild_attempt-Rebuilt (start_with m) id r.attempts rebuilt))
        e5

  disposition-Lawful :
      (st : InquiryState) (d : NoAttemptDisposition) {next : InquiryState}
      → is_active st.status ≡ true
      → evolve_no_attempt h st d ≡ ok next
      → Lawful st next
  unfolding evolve_no_attempt
  disposition-Lawful st d running e =
      let (r, found, e1) = demand-ok (request_by_id st d.request_id) invalid_transition _ e in
      let (planned_for, e2) =
        require-ok (d.step_plan_id == r.request.step_plan_id) invalid_transition e1 in
      let (fresh, e3) = refuse-ok _ invalid_transition e2 in
      let (unresolved, e4) =
        refuse-ok (is_some r.accepted_decoded_outcome_id) invalid_transition e3 in
      with_replacement-Lawful st r
        (record r { no_attempt_dispositions = r.no_attempt_dispositions ++ (d ∷ []) }) running
        (request_by_id-In st d.request_id found)
        (disposition_recorded d (is_none-some unresolved)
          (sym (request_by_id-named st d.request_id found), (==_iff _ _).0 planned_for))
        e4

  outcome-Lawful :
      (st : InquiryState) (id : String) (o : AttemptOutcome) {next : InquiryState}
      → is_active st.status ≡ true
      → evolve_outcome h st id o ≡ ok next
      → Lawful st next
  unfolding evolve_outcome
  outcome-Lawful st id o running e =
      let (r, found, e1) = demand-ok (request_by_id st id) invalid_transition _ e in
      let (a, its, e2) = demand-ok (attempt_of r (link_of o).attempt_id) invalid_transition _ e1 in
      let (begun, e3) = require-ok a.started invalid_transition e2 in
      let (pending, e4) = refuse-ok (is_some a.outcome) invalid_transition e3 in
      let (route, e5) =
        require-ok (a.plan.route.id == (link_of o).route_id) invalid_transition e4 in
      let (attempts, rebuilt, e6) =
        >>=-eq-ok (rebuild_attempt (finish_with o) a.plan.id r.attempts) _ e5 in
      with_replacement-Lawful st r (record r { attempts = attempts }) running
        (request_by_id-In st id found)
        (outcome_recorded o (link_of o).attempt_id a its begun (is_none-some pending)
          (rebuild_attempt-Rebuilt (finish_with o) a.plan.id r.attempts rebuilt)
          (refl, sym ((==_iff _ _).0 route)))
        e6

  decode-Lawful :
      (st : InquiryState) (id : String) (d : DecodeOutcome) {next : InquiryState}
      → is_active st.status ≡ true
      → evolve_decode h st id d ≡ ok next
      → Lawful st next
  unfolding evolve_decode
  decode-Lawful st id d running e =
      let (r, found, e1) = demand-ok (request_by_id st id) invalid_transition _ e in
      let (fresh, e2) = refuse-ok _ invalid_transition e1 in
      let (captured, e3) =
        require-ok (contains (return_ids r) d.external_return_id) invalid_transition e2 in
      with_replacement-Lawful st r (record r { decode_outcomes = r.decode_outcomes ++ (d ∷ []) })
        running (request_by_id-In st id found) (decode_recorded d captured) e3

  accept-Lawful :
      (st : InquiryState) (id decode : String) {next : InquiryState}
      → is_active st.status ≡ true
      → evolve_accept h st id decode ≡ ok next
      → Lawful st next
  unfolding evolve_accept
  accept-Lawful st id decode running e =
      let (r, found, e1) = demand-ok (request_by_id st id) invalid_transition _ e in
      let (unresolved, e2) =
        refuse-ok (is_some r.accepted_decoded_outcome_id) invalid_transition e1 in
      let (good, e3) =
        require-ok (is_some (decoded_by_id r.decode_outcomes decode)) invalid_transition e2 in
      with_replacement-Lawful st r (record r { accepted_decoded_outcome_id = some decode }) running
        (request_by_id-In st id found) (result_accepted decode (is_none-some unresolved) good) e3

  requested-Lawful :
      (st : InquiryState) (r : EffectRequest) {next : InquiryState}
      → is_active st.status ≡ true
      → evolve_requested h st r ≡ ok next
      → Lawful st next
  unfolding evolve_requested with_requests
  requested-Lawful st r {next} running e =
      let (fresh, e1) = refuse-ok (is_some (request_by_id st r.id)) invalid_transition e in
      let (known, e2) =
        refuse-ok (is_none (step_plan_by_id st r.step_plan_id)) invalid_transition e1 in
      let (new, e3, e4) = >>=-eq-ok (make_request (opened r)) _ e2 in
      let (same, valid) = make_request-ok (opened r) e3 in
      make_state-Lawful st
        (record st {
          sequence = suc st.sequence;
          effect_requests = st.effect_requests ++ (opened r ∷ []);
        })
        (requested (opened r) running (is_none-some fresh) refl valid refl)
        (subst (λ x. with_requests h st (st.effect_requests ++ (x ∷ [])) ≡ ok next) (sym same) e4)

  step_plan-Lawful :
      (st : InquiryState) (m : Metadata) (p : StepPlan) {next : InquiryState}
      → is_active st.status ≡ true
      → evolve_step_plan h st m p ≡ ok next
      → Lawful st next
  unfolding evolve_step_plan
  step_plan-Lawful st m p running e =
      let (_, matching, made) =
        >>=-eq-ok (require_matching h st (step_plan_recorded m p) (record_step_plan m p)) _ e in
      make_state-Lawful st
        (record st { sequence = suc st.sequence; step_plans = st.step_plans ++ (p ∷ []) })
        (plan_recorded p running) made

  opened-Lawful :
      (st : InquiryState) (m : Metadata) (o : Obligation) {next : InquiryState}
      → is_active st.status ≡ true
      → evolve_opened h st m o ≡ ok next
      → Lawful st next
  unfolding evolve_opened
  opened-Lawful st m o running e =
      let (_, matching, made) =
        >>=-eq-ok (require_matching h st (obligation_opened m o) (open_obligation m o)) _ e in
      make_state-Lawful st
        (record st { sequence = suc st.sequence; obligations = st.obligations ++ (o ∷ []) })
        (obligation_added o running) made

  pub require_same-ok :
      (st : InquiryState) (id : String) {k : Result InquiryState} {next : InquiryState}
      → (require_same st id >> k) ≡ ok next
      → (is_active st.status ≡ true) × (k ≡ ok next)
  unfolding require_same
  require_same-ok st id e =
      let (both, rest) =
        require-ok (is_active st.status && (st.inquiry_id == some id)) invalid_transition e in
      ((and_parts both).0, rest)

  pub evolve-Lawful :
      (st : InquiryState) (event : DomainEvent) {next : InquiryState}
      → evolve h st event ≡ ok next
      → Lawful st next
  unfolding evolve
  evolve-Lawful st (inquiry_started m manifest policy context) e =
      started-Lawful st m manifest policy context e
  evolve-Lawful st (obligation_opened m o) e =
      let (running, k) = require_same-ok st m.inquiry_id e in opened-Lawful st m o running k
  evolve-Lawful st (step_plan_recorded m p) e =
      let (running, k) = require_same-ok st m.inquiry_id e in step_plan-Lawful st m p running k
  evolve-Lawful st (effect_requested m r) e =
      let (running, k) = require_same-ok st m.inquiry_id e in requested-Lawful st r running k
  evolve-Lawful st (effect_attempt_planned m p) e =
      let (running, k) = require_same-ok st m.inquiry_id e in planned-Lawful st p running k
  evolve-Lawful st (effect_attempt_started m id) e =
      let (running, k) = require_same-ok st m.inquiry_id e in
      started_attempt-Lawful st m id running k
  evolve-Lawful st (effect_no_attempt_disposition_recorded m d) e =
      let (running, k) = require_same-ok st m.inquiry_id e in disposition-Lawful st d running k
  evolve-Lawful st (effect_attempt_outcome_recorded m id o) e =
      let (running, k) = require_same-ok st m.inquiry_id e in outcome-Lawful st id o running k
  evolve-Lawful st (effect_decode_outcome_recorded m id d) e =
      let (running, k) = require_same-ok st m.inquiry_id e in decode-Lawful st id d running k
  evolve-Lawful st (effect_result_accepted m id decode) e =
      let (running, k) = require_same-ok st m.inquiry_id e in accept-Lawful st id decode running k
