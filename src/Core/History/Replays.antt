-- ===== src/Core/History/Replays.antt =====
-- core/transitions.py `evolve` and core/replay.py: recorded effects in later states.
use ratcheting_consequence_i.Base.{
  ◌≡◌, refl, sym, ap, subst, ◌∙◌, true, false, List, [], ◌∷◌, map, inl, inr, string_eq, distinct,
  In, In-append_left, ok, >>=-eq-ok, ok_injective, arith,
}
use ratcheting_consequence_i.Canonical.{Hashing}
use ratcheting_consequence_i.Core.Records.{EffectRequest}
use ratcheting_consequence_i.Core.State.{
  InquiryState, is_active, EffectRequestState, valid_state, valid_requests, valid_started,
  request_id,
}
use ratcheting_consequence_i.Core.Messages.{DomainEvent}
use ratcheting_consequence_i.Core.Evolve.{evolve, replay}
use ratcheting_consequence_i.Core.Steps.{
  RequestStep, attempt_planned, attempt_started, disposition_recorded, outcome_recorded,
  decode_recorded, result_accepted, Step, began, plan_recorded, obligation_added, requested,
  request_changed,
}
use ratcheting_consequence_i.Core.Steps.Inversion.{evolve-Lawful}
use ratcheting_consequence_i.Core.Invariants.{WellFormed, evolve-WellFormed}
use ratcheting_consequence_i.Core.History.{Extends, HistoryKept, Extends-refl, Extends-trans}
use ratcheting_consequence_i.Core.History.Requests.{
  same_key, RequestStep-Extends, replace_request-kept,
}

request_ids-distinct :
    (h : Hashing) (st : InquiryState)
    → valid_state h st ≡ true
    → distinct (map request_id st.effect_requests) ≡ true
unfolding valid_state valid_requests
request_ids-distinct h st valid = ground arith

RequestStep-request : {r new : EffectRequestState} → RequestStep r new → new.request ≡ r.request
RequestStep-request (attempt_planned p free valid owner) = refl
RequestStep-request (attempt_started m id b its idle free rebuilt) = refl
RequestStep-request (disposition_recorded d free owner) = refl
RequestStep-request (outcome_recorded o id b its begun pending rebuilt link) = refl
RequestStep-request (decode_recorded d captured) = refl
RequestStep-request (result_accepted id free found) = refl

idle-no_requests :
    (h : Hashing) (st : InquiryState) (r : EffectRequestState)
    → valid_state h st ≡ true
    → is_active st.status ≡ false
    → In r st.effect_requests
    → ⊥
unfolding valid_state valid_started
idle-no_requests h st r valid idle m = ground arith

Step-HistoryKept :
    (h : Hashing) {st next : InquiryState} → WellFormed h st → Step st next → HistoryKept st next
Step-HistoryKept h {st} good (began next idle one running empty) r m =
    absurd (idle-no_requests h st r good.lifecycle idle m)
Step-HistoryKept h good (plan_recorded p running) r m = (r, m, Extends-refl r)
Step-HistoryKept h good (obligation_added o running) r m = (r, m, Extends-refl r)
Step-HistoryKept h {st} good (requested new running fresh none_yet valid bare) r m =
    (r, In-append_left r st.effect_requests (new ∷ []) m, Extends-refl r)
Step-HistoryKept h {st} good (request_changed old new running member step valid) r m =
    elim (replace_request-kept st new r m) [
      | inl (differ, k) ↦ (r, k, Extends-refl r)
      | inr (same, k) ↦ (
        new,
        k,
        subst (λ x. Extends x new)
            (sym (
              same_key request_id st.effect_requests r old
                (request_ids-distinct h st good.lifecycle) m member
                (same ∙ ap (λ (q : EffectRequest). q.id) (RequestStep-request step))))
            (RequestStep-Extends (good.requests old member) step),
      )
    ]

module _ (h : Hashing) where
  -- A replay that returns, from a state whose validators pass, loses nothing that was recorded of an effect: every
  -- request is still there, with its request, its attempts' plans, their recorded outcomes, its no-attempt
  -- dispositions, its decode outcomes and, once a result was accepted, the same accepted result.
  pub replay-Extends :
      (events : List DomainEvent) (st : InquiryState) {next : InquiryState}
      → WellFormed h st
      → replay h events st ≡ ok next
      → (r : EffectRequestState) → In r st.effect_requests
      → (s : EffectRequestState) × In s next.effect_requests × Extends r s
  unfolding replay
  replay-Extends [] st good e r m =
      (r, subst (λ s. In r s.effect_requests) (ok_injective e) m, Extends-refl r)
  replay-Extends (event ∷ events) st good e r m =
      let (middle, first, rest) = >>=-eq-ok (evolve h st event) (replay h events) e in
      let (s, m1, x1) = Step-HistoryKept h good (evolve-Lawful h st event first).0 r m in
      let (t, m2, x2) =
        replay-Extends events middle (evolve-WellFormed h st event good first) rest s m1 in
      (t, m2, Extends-trans x1 x2)
