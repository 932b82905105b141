-- ===== src/Core/Idempotence/Commands.antt =====
-- core/transitions.py: command by command, deciding it again after its step.
use ratcheting_consequence_i.Base.{
  ◌≡◌, refl, sym, ap, subst, ◌∙◌, suc, String, some, [], ◌∷◌, ◌++◌, ◌==◌, ==_refl, string_eq,
  option_eq, list_eq, is_some, is_none, any, find, contains, ok, require-ok, refuse-ok, >>=-eq-ok,
  arith, invalid_transition, invalid_command, effect_lifecycle, identity_conflict, runtime_error,
}
use ratcheting_consequence_i.Base.Finding.{find-append-none, find-update}
use ratcheting_consequence_i.Canonical.{Hashing}
use ratcheting_consequence_i.Claims.{obligation_eq}
use ratcheting_consequence_i.Planning.{step_plan_eq}
use ratcheting_consequence_i.Core.Records.{
  EffectRequest, EffectAttemptPlan, NoAttemptDisposition, AttemptOutcome, AttemptState,
  DecodeOutcome, link_of, effect_request_eq, attempt_plan_eq, no_attempt_eq, outcome_eq, decode_eq,
}
use ratcheting_consequence_i.Core.State.{
  InquiryState, EffectRequestState, request_by_id, step_plan_by_id, return_ids, decoded_by_id,
}
use ratcheting_consequence_i.Core.Messages.{Metadata, DomainEvent}
use ratcheting_consequence_i.Core.Decide.{
  Events, require_request, decide_plan_attempt, decide_start_attempt, decide_no_attempt,
  decide_outcome, decide_decode, decide_accept, decide_request, all_attempts, all_dispositions,
  all_decodes, containing_request, attempt_of, existing_plan, existing_request,
}
use ratcheting_consequence_i.Core.Evolve.{
  make_request, make_attempt, rebuild_attempt, with_requests, replace_request, evolve_requested,
  evolve_planned, evolve_attempt_started, evolve_no_attempt, evolve_outcome, evolve_decode,
  evolve_accept,
}
use ratcheting_consequence_i.Core.Steps.{
  Rebuilt, rebuild_attempt-Rebuilt, demand-ok, planned, start_with, finish_with, opened,
}
use ratcheting_consequence_i.Core.Steps.Inversion.{make_attempt-ok, make_request-ok}
use ratcheting_consequence_i.Core.History.Requests.{attempt_of-id}
use ratcheting_consequence_i.Core.Agreement.{
  unless_recorded-ok, no_existing_plan, no_existing_request,
}
use ratcheting_consequence_i.Core.Idempotence.{
  recorded, replaced, request_by_id-replaced, find-appended, find-any-true, find-Rebuilt,
  make_state-shape, with_replacement-shape,
}

module _ (h : Hashing) where
  pub again_planned :
      (st next : InquiryState) (m : Metadata) (p : EffectAttemptPlan) {event : DomainEvent}
      {events : Events}
      → decide_plan_attempt st m p ≡ ok (event ∷ events)
      → evolve_planned h st p ≡ ok next
      → decide_plan_attempt next m p ≡ ok []
  unfolding decide_plan_attempt require_request evolve_planned all_attempts
  again_planned st next m p d e =
      let (r, found, e1) = demand-ok (request_by_id st p.request_id) invalid_transition _ e in
      let (_, e2) =
        refuse-ok (any (λ (a : AttemptState). a.plan.id == p.id) (all_attempts st))
          invalid_transition e1 in
      let (_, e3) = refuse-ok (is_some r.accepted_decoded_outcome_id) invalid_transition e2 in
      let (a, made, e4) = >>=-eq-ok (make_attempt (planned p)) _ e3 in
      let (old, _, d1) = demand-ok (request_by_id st p.request_id) invalid_command _ d in
      let (fresh, _) =
        unless_recorded-ok
          (existing_plan (find (λ (x : AttemptState). x.plan.id == p.id) (all_attempts st))) p
          identity_conflict d1 in
      let new : EffectRequestState = record r { attempts = r.attempts ++ (planned p ∷ []) } in
      let shape : next ≡ replaced st new =
        with_replacement-shape h st (record r { attempts = r.attempts ++ (a ∷ []) }) e4
        ∙ ap (λ x. replaced st (record r { attempts = r.attempts ++ (x ∷ []) }))
            (sym (make_attempt-ok (planned p) made).0) in
      let there = request_by_id-replaced st p.request_id r new found refl in
      let again =
        find-appended (λ (x : AttemptState). x.plan.id == p.id)
          (λ (x : EffectRequestState). x.attempts) st p.request_id r new (planned p) found refl refl
          (no_existing_plan _ fresh) (==_refl p.id) in
      subst (λ s. decide_plan_attempt s m p ≡ ok []) (sym shape)
        (rw (there, again) (recorded p identity_conflict))

  pub again_disposition :
      (st next : InquiryState) (m : Metadata) (d : NoAttemptDisposition) {event : DomainEvent}
      {events : Events}
      → decide_no_attempt st m d ≡ ok (event ∷ events)
      → evolve_no_attempt h st d ≡ ok next
      → decide_no_attempt next m d ≡ ok []
  unfolding decide_no_attempt require_request evolve_no_attempt all_dispositions
  again_disposition st next m d decided e =
      let (r, found, e1) = demand-ok (request_by_id st d.request_id) invalid_transition _ e in
      let (planned_for, e2) =
        require-ok (d.step_plan_id == r.request.step_plan_id) invalid_transition e1 in
      let (_, e3) =
        refuse-ok (any (λ (x : NoAttemptDisposition). x.id == d.id) (all_dispositions st))
          invalid_transition e2 in
      let (_, e4) = refuse-ok (is_some r.accepted_decoded_outcome_id) invalid_transition e3 in
      let (old, _, d1) = demand-ok (request_by_id st d.request_id) invalid_command _ decided in
      let (_, d2) = require-ok (d.step_plan_id == old.request.step_plan_id) effect_lifecycle d1 in
      let (fresh, _) =
        unless_recorded-ok (find (λ (x : NoAttemptDisposition). x.id == d.id) (all_dispositions st))
          d identity_conflict d2 in
      let new : EffectRequestState = record r {
        no_attempt_dispositions = r.no_attempt_dispositions ++ (d ∷ []);
      } in
      let there = request_by_id-replaced st d.request_id r new found refl in
      let again =
        find-appended (λ (x : NoAttemptDisposition). x.id == d.id)
          (λ (x : EffectRequestState). x.no_attempt_dispositions) st d.request_id r new d found refl
          refl fresh (==_refl d.id) in
      subst (λ s. decide_no_attempt s m d ≡ ok []) (sym (with_replacement-shape h st new e4))
        (rw (there, planned_for, again) (recorded d identity_conflict))

  pub again_decode :
      (st next : InquiryState) (m : Metadata) (id : String) (d : DecodeOutcome)
      {event : DomainEvent} {events : Events}
      → decide_decode st m id d ≡ ok (event ∷ events)
      → evolve_decode h st id d ≡ ok next
      → decide_decode next m id d ≡ ok []
  unfolding decide_decode require_request evolve_decode all_decodes
  again_decode st next m id d decided e =
      let (r, found, e1) = demand-ok (request_by_id st id) invalid_transition _ e in
      let (_, e2) =
        refuse-ok (any (λ (x : DecodeOutcome). x.id == d.id) (all_decodes st)) invalid_transition
          e1 in
      let (_, e3) =
        require-ok (contains (return_ids r) d.external_return_id) invalid_transition e2 in
      let (old, _, d1) = demand-ok (request_by_id st id) invalid_command _ decided in
      let (fresh, _) =
        unless_recorded-ok (find (λ (x : DecodeOutcome). x.id == d.id) (all_decodes st)) d
          identity_conflict d1 in
      let new : EffectRequestState = record r { decode_outcomes = r.decode_outcomes ++ (d ∷ []) } in
      let there = request_by_id-replaced st id r new found refl in
      let again =
        find-appended (λ (x : DecodeOutcome). x.id == d.id)
          (λ (x : EffectRequestState). x.decode_outcomes) st id r new d found refl refl fresh
          (==_refl d.id) in
      subst (λ s. decide_decode s m id d ≡ ok []) (sym (with_replacement-shape h st new e3))
        (rw (there, again) (recorded d identity_conflict))

  pub again_accept :
      (st next : InquiryState) (m : Metadata) (id decode : String)
      → evolve_accept h st id decode ≡ ok next
      → decide_accept next m id decode ≡ ok []
  unfolding decide_accept require_request evolve_accept
  again_accept st next m id decode e =
      let (r, found, e1) = demand-ok (request_by_id st id) invalid_transition _ e in
      let (_, e2) = refuse-ok (is_some r.accepted_decoded_outcome_id) invalid_transition e1 in
      let (_, e3) =
        require-ok (is_some (decoded_by_id r.decode_outcomes decode)) invalid_transition e2 in
      let new : EffectRequestState = record r { accepted_decoded_outcome_id = some decode } in
      subst (λ s. decide_accept s m id decode ≡ ok []) (sym (with_replacement-shape h st new e3))
        (rw (request_by_id-replaced st id r new found refl) (recorded decode effect_lifecycle))

  pub again_outcome :
      (st next : InquiryState) (m : Metadata) (id : String) (o : AttemptOutcome)
      → evolve_outcome h st id o ≡ ok next
      → decide_outcome next m id o ≡ ok []
  unfolding decide_outcome require_request evolve_outcome attempt_of
  again_outcome st next m id o e =
      let (r, found, e1) = demand-ok (request_by_id st id) invalid_transition _ e in
      let (a, its, e2) = demand-ok (attempt_of r (link_of o).attempt_id) invalid_transition _ e1 in
      let (begun, e3) = require-ok a.started invalid_transition e2 in
      let (_, e4) = refuse-ok (is_some a.outcome) invalid_transition e3 in
      let (route, e5) =
        require-ok (a.plan.route.id == (link_of o).route_id) invalid_transition e4 in
      let (attempts, rebuilt, e6) =
        >>=-eq-ok (rebuild_attempt (finish_with o) a.plan.id r.attempts) _ e5 in
      let new : EffectRequestState = record r { attempts = attempts } in
      let again =
        find-Rebuilt (finish_with o) (link_of o).attempt_id a (λ x. refl)
          (subst (λ k. Rebuilt (finish_with o) k r.attempts attempts)
            (attempt_of-id r (link_of o).attempt_id a its)
            (rebuild_attempt-Rebuilt (finish_with o) a.plan.id r.attempts rebuilt))
          its in
      subst (λ s. decide_outcome s m id o ≡ ok []) (sym (with_replacement-shape h st new e6))
        (rw (request_by_id-replaced st id r new found refl, again, begun, route)
          (recorded o effect_lifecycle))

  pub again_started :
      (st next : InquiryState) (m : Metadata) (id : String)
      → evolve_attempt_started h st m id ≡ ok next
      → decide_start_attempt next m id ≡ ok []
  unfolding decide_start_attempt evolve_attempt_started attempt_of containing_request
      replace_request
  again_started st next m id e =
      let (r, found, e1) = demand-ok (containing_request st id) invalid_transition _ e in
      let (a, its, e2) = demand-ok (attempt_of r id) runtime_error _ e1 in
      let (_, e3) = refuse-ok a.started invalid_transition e2 in
      let (_, e4) = refuse-ok (is_some r.accepted_decoded_outcome_id) invalid_transition e3 in
      let (attempts, rebuilt, e5) = >>=-eq-ok (rebuild_attempt (start_with m) id r.attempts) _ e4 in
      let new : EffectRequestState = record r { attempts = attempts } in
      let again =
        find-Rebuilt (start_with m) id a (λ x. refl)
          (rebuild_attempt-Rebuilt (start_with m) id r.attempts rebuilt) its in
      let there =
        find-update (λ (x : EffectRequestState). x.request.id == new.request.id)
          (λ (x : EffectRequestState). any (λ (y : AttemptState). y.plan.id == id) x.attempts) new r
          st.effect_requests found (==_refl r.request.id)
          (find-any-true (λ (y : AttemptState). y.plan.id == id) (start_with m a) attempts again) in
      subst (λ s. decide_start_attempt s m id ≡ ok []) (sym (with_replacement-shape h st new e5))
        (rw (there, again) refl)

  pub again_requested :
      (st next : InquiryState) (m : Metadata) (r : EffectRequest) {event : DomainEvent}
      {events : Events}
      → decide_request h st m r ≡ ok (event ∷ events)
      → evolve_requested h st r ≡ ok next
      → decide_request h next m r ≡ ok []
  unfolding decide_request evolve_requested with_requests request_by_id find
  again_requested st next m r d e =
      let (fresh, _) =
        unless_recorded-ok (existing_request (request_by_id st r.id)) r identity_conflict d in
      let (_, e1) = refuse-ok (is_some (request_by_id st r.id)) invalid_transition e in
      let (_, e2) = refuse-ok (is_none (step_plan_by_id st r.step_plan_id)) invalid_transition e1 in
      let (made, built, e3) = >>=-eq-ok (make_request (opened r)) _ e2 in
      let added =
        make_state-shape h
          (record st {
            sequence = suc st.sequence;
            effect_requests = st.effect_requests ++ (made ∷ []);
          })
          e3
        ∙ ap
            (λ x. record st {
              sequence = suc st.sequence;
              effect_requests = st.effect_requests ++ (x ∷ []);
            })
            (sym (make_request-ok (opened r) built).0) in
      let single : find (λ (x : EffectRequestState). x.request.id == r.id) (opened r ∷ [])
          ≡ some (opened r) =
        ground arith in
      let there =
        find-append-none (λ (x : EffectRequestState). x.request.id == r.id) (some (opened r))
          st.effect_requests (opened r ∷ []) (no_existing_request _ fresh) single in
      subst (λ s. decide_request h s m r ≡ ok []) (sym added)
        (rw there (recorded r identity_conflict))
