-- ===== src/Core/Idempotence.antt =====
-- core/transitions.py: what is found in the state after a step.
pub mod Commands
use ratcheting_consequence_i.Base.{
  ◌≡◌, refl, sym, ap, subst, ◌∙◌, ℕ, suc, String, Bool, true, false, Option, none, some, List, [],
  ◌∷◌, ◌++◌, map, ◌==◌, ==_refl, ◌&&◌, string_eq, option_eq, list_eq, is_some, is_none, any, find,
  find_sound, gather, update_where, contains, In, Eq, Result, ok, raise, ◌>>=◌, ◌>>◌, require,
  refuse, require-ok, refuse-ok, >>=-eq-ok, ok_injective, raise-ne-ok, if_split, arith, Error,
  value_error, invalid_transition, invalid_command, effect_lifecycle, identity_conflict,
  runtime_error, if◌then◌else◌,
}
use ratcheting_consequence_i.Base.Finding.{
  none-gather, find-append-none, find-update, find-gather-update,
}
use ratcheting_consequence_i.Canonical.{Hashing}
use ratcheting_consequence_i.Claims.{Obligation, obligation_eq}
use ratcheting_consequence_i.Planning.{StepPlan, is_ready, step_plan_eq}
use ratcheting_consequence_i.Core.Records.{
  EffectRequest, EffectAttemptPlan, NoAttemptDisposition, AttemptOutcome, AttemptState,
  DecodeOutcome, ArtifactRef, link_of, effect_request_eq, attempt_plan_eq, no_attempt_eq,
  outcome_eq, decode_eq,
}
use ratcheting_consequence_i.Core.State.{
  InquiryState, EffectRequestState, request_by_id, step_plan_by_id, obligation_by_id, return_ids,
  decoded_by_id, valid_state,
}
use ratcheting_consequence_i.Core.Messages.{Metadata, DomainEvent}
use ratcheting_consequence_i.Core.Decide.{
  Events, demand, unless_recorded, require_request, decide_plan_attempt, decide_start_attempt,
  decide_no_attempt, decide_outcome, decide_decode, decide_accept, decide_request, all_attempts,
  all_dispositions, all_decodes, containing_request, attempt_of, existing_plan, existing_request,
  duplicate_return,
}
use ratcheting_consequence_i.Core.Evolve.{
  make_state, make_request, make_attempt, rebuild_attempt, with_requests, with_replacement,
  replace_request, evolve_requested, evolve_planned, evolve_attempt_started, evolve_no_attempt,
  evolve_outcome, evolve_decode, evolve_accept,
}
use ratcheting_consequence_i.Core.Steps.{
  Rebuilt, done, changed, kept, rebuild_attempt-Rebuilt, demand-ok, planned, start_with,
  finish_with, opened,
}
use ratcheting_consequence_i.Core.Steps.Inversion.{make_attempt-ok, make_request-ok}
use ratcheting_consequence_i.Core.History.Requests.{attempt_of-id}
use ratcheting_consequence_i.Core.Agreement.{
  unless_recorded-ok, no_existing_plan, no_existing_request,
}

-- No event.
abbrev pub silent : Result Events
silent = ok []

-- What was recorded as it is given again: no event.
pub recorded {ℓ} :
    {A : Type ℓ} ⦃e : Eq A⦄ (value : A) (error : Error)
    → (if value == value then silent else raise error) ≡ silent
recorded value error = ground (arith, ==_refl value)

-- The state after a request was replaced.
abbrev pub replaced : InquiryState → EffectRequestState → InquiryState
replaced st new = record st { sequence = suc st.sequence; effect_requests = replace_request st new }

pub same_id :
    (r new : EffectRequestState) → new.request ≡ r.request → (r.request.id == new.request.id) ≡ true
same_id r new same =
    subst (λ (q : EffectRequest). (r.request.id == q.id) ≡ true) (sym same) (==_refl r.request.id)

pub request_by_id-replaced :
    (st : InquiryState) (id : String) (r new : EffectRequestState)
    → request_by_id st id ≡ some r
    → new.request ≡ r.request
    → request_by_id (replaced st new) id ≡ some new
unfolding request_by_id replace_request
request_by_id-replaced st id r new found same =
    find-update (λ (x : EffectRequestState). x.request.id == new.request.id)
      (λ (x : EffectRequestState). x.request.id == id) new r st.effect_requests found
      (same_id r new same)
      (subst (λ (q : EffectRequest). (q.id == id) ≡ true) (sym same)
        (find_sound (λ (x : EffectRequestState). x.request.id == id) r st.effect_requests found).1)

-- What is found in the replacement's list, and in no list before, is found after.
pub find-replaced :
    {B : Type 0} (q : B → Bool) (f : EffectRequestState → List B) (st : InquiryState) (id : String)
    (r new : EffectRequestState) (v : B)
    → request_by_id st id ≡ some r
    → new.request ≡ r.request
    → find q (gather f st.effect_requests) ≡ none
    → find q (f new) ≡ some v
    → find q (gather f (replace_request st new)) ≡ some v
unfolding request_by_id replace_request
find-replaced q f st id r new v found same fresh has =
    find-gather-update (λ (x : EffectRequestState). x.request.id == new.request.id)
      (λ (x : EffectRequestState). x.request.id == id) q f new r v st.effect_requests found
      (same_id r new same) fresh has

-- What was appended to the request's list is found after.
pub find-appended :
    {B : Type 0} (q : B → Bool) (f : EffectRequestState → List B) (st : InquiryState) (id : String)
    (r new : EffectRequestState) (v : B)
    → request_by_id st id ≡ some r
    → new.request ≡ r.request
    → f new ≡ f r ++ (v ∷ [])
    → find q (gather f st.effect_requests) ≡ none
    → q v ≡ true
    → find q (gather f (replace_request st new)) ≡ some v
unfolding request_by_id find
find-appended q f st id r new v found same added fresh passes =
    let absent =
      none-gather (λ (x : EffectRequestState). x.request.id == id) q f r st.effect_requests found
        fresh in
    let single : find q (v ∷ []) ≡ some v = ground arith in
    find-replaced q f st id r new v found same fresh (
      subst (λ l. find q l ≡ some v) (sym added)
        (find-append-none q (some v) (f r) (v ∷ []) absent single))

pub find-any-true :
    {A : Type 0} (p : A → Bool) (v : A) (xs : List A) → find p xs ≡ some v → any p xs ≡ true
unfolding find any
find-any-true p v [] h = cc
find-any-true p v (x ∷ xs) h = ground (arith, find-any-true p v xs)

-- The attempt that was rebuilt is found under its id.
pub find-Rebuilt :
    (f : AttemptState → AttemptState) (id : String) (a : AttemptState) {xs ys : List AttemptState}
    → ((x : AttemptState) → (f x).plan ≡ x.plan)
    → Rebuilt f id xs ys
    → find (λ (x : AttemptState). x.plan.id == id) xs ≡ some a
    → find (λ (x : AttemptState). x.plan.id == id) ys ≡ some (f a)
unfolding find
find-Rebuilt f id a plans done h = cc
find-Rebuilt f id a plans (changed {a = x} {xs} {ys} same valid rest) h =
    let is_it : x ≡ a = ground arith in
    let named : (f x).plan.id ≡ id = ap (λ (q : EffectAttemptPlan). q.id) (plans x) ∙ same in
    let headed : find (λ (y : AttemptState). y.plan.id == id) (f x ∷ ys) ≡ some (f x) =
      ground arith in
    headed ∙ ap (λ y. some (f y)) is_it
find-Rebuilt f id a plans (kept {a = x} {xs} {ys} differ rest) h =
    let further : find (λ (y : AttemptState). y.plan.id == id) xs ≡ some a = ground arith in
    let more = find-Rebuilt f id a plans rest further in ground arith

module _ (h : Hashing) where
  pub make_state-shape :
      (st : InquiryState) {next : InquiryState} → make_state h st ≡ ok next → next ≡ st
  unfolding make_state
  make_state-shape st e =
      if_split (valid_state h st) e (λ _ made. sym (ok_injective made))
        (λ _ failed. absurd (raise-ne-ok failed))

  pub with_replacement-shape :
      (st : InquiryState) (new : EffectRequestState) {next : InquiryState}
      → with_replacement h st new ≡ ok next
      → next ≡ replaced st new
  unfolding with_replacement with_requests
  with_replacement-shape st new e =
      let (made, e1, e2) =
        >>=-eq-ok (make_request new) (λ x. with_requests h st (replace_request st x)) e in
      make_state-shape
        (record st { sequence = suc st.sequence; effect_requests = replace_request st made }) e2
      ∙ ap (replaced st) (sym (make_request-ok new e1).0)
