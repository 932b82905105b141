-- ===== src/Core/Agreement.antt =====
-- core/transitions.py, `decide` and `evolve`: what it takes for a step to be applied, but for the validators.
pub mod Commands
pub mod Decisions
use ratcheting_consequence_i.Base.{
  ◌≡◌, refl, sym, ap, subst, ◌∙◌, ℕ, String, Bool, true, false, Option, none, some, List, [], ◌∷◌,
  ◌++◌, ◌==◌, ==_refl, ◌&&◌, string_eq, option_eq, list_eq, is_some, is_none, any, find, contains,
  subset, map, In, Eq, Result, ok, raise, ◌>>=◌, ◌>>◌, require, refuse, require-ok, refuse-ok,
  >>=-eq-ok, ok_injective, raise-ne-ok, if_split, arith, Error, value_error, invalid_transition,
  invalid_command, effect_lifecycle, identity_conflict, runtime_error, if◌then◌else◌,
}
use ratcheting_consequence_i.Canonical.{Hashing}
use ratcheting_consequence_i.Claims.{Obligation, obligation_eq, obligation_status_eq, open_status}
use ratcheting_consequence_i.Planning.{StepPlan, is_ready, step_plan_eq}
use ratcheting_consequence_i.Core.Records.{
  EffectRequest, EffectAttemptPlan, NoAttemptDisposition, AttemptOutcome, AttemptState,
  DecodeOutcome, ArtifactRef, link_of, effect_request_eq, attempt_plan_eq, no_attempt_eq,
  outcome_eq, decode_eq,
}
use ratcheting_consequence_i.Core.State.{
  InquiryState, InquiryStatus, InquiryContext, not_started, active, is_active, EffectRequestState,
  request_by_id, step_plan_by_id, obligation_by_id, return_ids, decoded_by_id, valid_attempt,
  valid_request_state, valid_state, initial_state,
}
use ratcheting_consequence_i.Core.Messages.{
  Metadata, DomainCommand, DomainEvent, event_eq, start_inquiry, open_obligation, record_step_plan,
  request_effect, plan_effect_attempt, start_effect_attempt, record_no_attempt_disposition,
  record_attempt_outcome, record_decode_outcome, accept_effect_result, inquiry_started,
  obligation_opened, step_plan_recorded, effect_requested, effect_attempt_planned,
  effect_attempt_started, effect_no_attempt_disposition_recorded, effect_attempt_outcome_recorded,
  effect_decode_outcome_recorded, effect_result_accepted,
}
use ratcheting_consequence_i.Core.Decide.{
  Events, check_selection, known_fingerprint, scope_matches_context, demand, unless_recorded,
  require_active, require_request, decide_start, decide_open_obligation, decide_step_plan,
  decide_request, decide_plan_attempt, decide_start_attempt, decide_no_attempt, decide_outcome,
  decide_decode, decide_accept, decide, all_attempts, all_dispositions, all_decodes,
  containing_request, attempt_of, existing_plan, existing_request, duplicate_return,
}
use ratcheting_consequence_i.Core.Evolve.{
  as_transition, require_same, require_matching, make_state, make_request, make_attempt,
  rebuild_attempt, with_requests, with_replacement, replace_request, evolve_started,
  evolve_step_plan, evolve_opened, evolve_requested, evolve_planned, evolve_attempt_started,
  evolve_no_attempt, evolve_outcome, evolve_decode, evolve_accept, evolve,
}
use ratcheting_consequence_i.Core.Steps.{demand-ok, planned, start_with, finish_with, opened}

-- A step that ends in a state, or that only a validator refuses.
pub data Applicable {ℓ} {A : Type ℓ} : Result A → Type ℓ where
  applied : (a : A) → Applicable (ok a)
  invalid : Applicable (raise value_error)

module _ {ℓ} {A : Type ℓ} where
  pub after_demand {κ} :
      {B : Type κ} (a : Option B) {v : B} (e : Error) (f : B → Result A)
      → a ≡ some v
      → Applicable (f v)
      → Applicable (demand a e >>= f)
  after_demand a e f found h = subst (λ o. Applicable (demand o e >>= f)) (sym found) h

  pub after_require :
      (b : Bool) (e : Error) {m : Result A}
      → b ≡ true
      → Applicable m
      → Applicable (require b e >> m)
  after_require b e {m} holds h = subst (λ c. Applicable (require c e >> m)) (sym holds) h

  pub after_refuse :
      (b : Bool) (e : Error) {m : Result A}
      → b ≡ false
      → Applicable m
      → Applicable (refuse b e >> m)
  after_refuse b e {m} fails h = subst (λ c. Applicable (refuse c e >> m)) (sym fails) h

  pub Applicable-if : (b : Bool) (x : A) → Applicable (if b then ok x else raise value_error)
  Applicable-if true x = applied x
  Applicable-if false x = invalid

  pub after_call {κ} :
      {B : Type κ} {m : Result B} (f : B → Result A)
      → Applicable m
      → ((b : B) → Applicable (f b))
      → Applicable (m >>= f)
  after_call f (applied b) next = next b
  after_call f invalid next = invalid

-- A command that gives an event has found nothing recorded under its id.
pub unless_recorded-ok {ℓ} :
    {A : Type ℓ} ⦃e : Eq A⦄ (old : Option A) (new : A) (error : Error) {next : Result Events}
    {event : DomainEvent} {events : Events}
    → unless_recorded old new error next ≡ ok (event ∷ events)
    → (old ≡ none) × (next ≡ ok (event ∷ events))
unless_recorded-ok none new error h = (refl, h)
unless_recorded-ok (some old) new error h = ground arith

pub no_event : {event : DomainEvent} {events : Events} → ok [] ≡ ok (event ∷ events) → ⊥
no_event h = cc

pub one_event :
    {given event : DomainEvent} {events : Events}
    → ok (given ∷ []) ≡ ok (event ∷ events)
    → event ∷ events ≡ given ∷ []
one_event h = sym (ok_injective h)

pub find-any : {A : Type 0} (p : A → Bool) (xs : List A) → find p xs ≡ none → any p xs ≡ false
unfolding find any
find-any p [] h = refl
find-any p (x ∷ xs) h = ground (arith, find-any p xs)

pub no_existing_plan : (o : Option AttemptState) → existing_plan o ≡ none → o ≡ none
no_existing_plan none h = refl
no_existing_plan (some a) h = cc

pub no_existing_request : (o : Option EffectRequestState) → existing_request o ≡ none → o ≡ none
no_existing_request none h = refl
no_existing_request (some a) h = cc

pub nothing {ℓ} : {A : Type ℓ} {o : Option A} → o ≡ none → is_some o ≡ false
nothing h = ground arith

pub something {ℓ} : {A : Type ℓ} {o : Option A} {v : A} → o ≡ some v → is_none o ≡ false
something h = ground arith

pub make_attempt-Applicable : (a : AttemptState) → Applicable (make_attempt a)
unfolding make_attempt
make_attempt-Applicable a = Applicable-if (valid_attempt a) a

pub rebuild_attempt-Applicable :
    (f : AttemptState → AttemptState) (id : String) (xs : List AttemptState)
    → Applicable (rebuild_attempt f id xs)
unfolding rebuild_attempt
rebuild_attempt-Applicable f id [] = applied []
rebuild_attempt-Applicable f id (a ∷ xs) =
    after_call _ (one (a.plan.id == id))
      (λ new. after_call _ (rebuild_attempt-Applicable f id xs) (λ more. applied (new ∷ more)))
  where
    one : (b : Bool) → Applicable (if b then make_attempt (f a) else ok a)
    one true = make_attempt-Applicable (f a)
    one false = applied a

module _ (h : Hashing) where
  pub make_state-Applicable : (st : InquiryState) → Applicable (make_state h st)
  unfolding make_state
  make_state-Applicable st = Applicable-if (valid_state h st) st

  pub with_requests-Applicable :
      (st : InquiryState) (rs : List EffectRequestState) → Applicable (with_requests h st rs)
  unfolding with_requests
  with_requests-Applicable st rs = make_state-Applicable _

  pub make_request-Applicable : (r : EffectRequestState) → Applicable (make_request r)
  unfolding make_request
  make_request-Applicable r = Applicable-if (valid_request_state r) r

  pub with_replacement-Applicable :
      (st : InquiryState) (r : EffectRequestState) → Applicable (with_replacement h st r)
  unfolding with_replacement
  with_replacement-Applicable st r =
      after_call _ (make_request-Applicable r) (λ new. with_requests-Applicable st _)
