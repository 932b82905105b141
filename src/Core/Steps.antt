-- ===== src/Core/Steps.antt =====
-- core/transitions.py, `evolve` seen as a step relation: what one event may do to the aggregate, and what
-- it may do to one effect request.
pub mod Inversion
use ratcheting_consequence_i.Base.{
  ◌≡◌, refl, sym, ap, subst, ◌∙◌, ℕ, suc, String, Bool, true, false, Option, none, some, List, [],
  ◌∷◌, ◌++◌, map, ◌==◌, string_eq, option_eq, list_eq, is_some, is_none, any, find, contains, All,
  In, Result, ok, raise, ◌>>=◌, ◌>>◌, require, refuse, require-ok, refuse-ok, >>=-eq-ok,
  ok_injective, raise-ne-ok, if_split, arith, Error, value_error, if◌then◌else◌,
}
use ratcheting_consequence_i.Canonical.{Hashing}
use ratcheting_consequence_i.Claims.{Obligation}
use ratcheting_consequence_i.Planning.{StepPlan}
use ratcheting_consequence_i.Core.Records.{
  EffectRequest, EffectAttemptPlan, NoAttemptDisposition, AttemptOutcome, AttemptState,
  DecodeOutcome, link_of,
}
use ratcheting_consequence_i.Core.State.{
  InquiryState, InquiryStatus, not_started, active, is_active, EffectRequestState, request_by_id,
  return_ids, decoded_by_id, valid_attempt, valid_request_state, valid_state,
}
use ratcheting_consequence_i.Core.Messages.{Metadata, DomainEvent}
use ratcheting_consequence_i.Core.Decide.{demand, containing_request, attempt_of, all_attempts}
use ratcheting_consequence_i.Core.Evolve.{rebuild_attempt, make_attempt, replace_request}

pub demand-ok {ℓ κ} :
    {A : Type ℓ} {B : Type κ} (a : Option A) (e : Error) (f : A → Result B) {x : B}
    → (demand a e >>= f) ≡ ok x
    → (v : A) × (a ≡ some v) × (f v ≡ ok x)
demand-ok none e f h = cc
demand-ok (some v) e f h = (v, refl, h)

-- The attempts with those of one id given other lifecycle fields: plans stay, and what changed is valid.
pub data Rebuilt (f : AttemptState → AttemptState) (id : String)
    : List AttemptState → List AttemptState → Type 0 where
  done : Rebuilt f id [] []
  changed :
      {a : AttemptState} {xs ys : List AttemptState}
      → a.plan.id ≡ id
      → valid_attempt (f a) ≡ true
      → Rebuilt f id xs ys
      → Rebuilt f id (a ∷ xs) (f a ∷ ys)
  kept :
      {a : AttemptState} {xs ys : List AttemptState}
      → (a.plan.id ≡ id → ⊥)
      → Rebuilt f id xs ys
      → Rebuilt f id (a ∷ xs) (a ∷ ys)

Rebuilt-head :
    (f : AttemptState → AttemptState) (id : String) (a : AttemptState) {new : AttemptState}
    {xs ys : List AttemptState}
    → (if a.plan.id == id then make_attempt (f a) else ok a) ≡ ok new
    → Rebuilt f id xs ys
    → Rebuilt f id (a ∷ xs) (new ∷ ys)
unfolding make_attempt
Rebuilt-head f id a {xs = xs} {ys = ys} h rest =
    if_split (a.plan.id == id) h
      (λ same made.
        if_split (valid_attempt (f a)) made
          (λ valid e.
            subst (λ n. Rebuilt f id (a ∷ xs) (n ∷ ys)) (ok_injective e)
              (changed (ground arith) valid rest))
          (λ _ e. absurd (raise-ne-ok e)))
      (λ differ e.
        subst (λ n. Rebuilt f id (a ∷ xs) (n ∷ ys)) (ok_injective e) (kept (ground arith) rest))

pub rebuild_attempt-Rebuilt :
    (f : AttemptState → AttemptState) (id : String) (xs : List AttemptState)
    {ys : List AttemptState}
    → rebuild_attempt f id xs ≡ ok ys
    → Rebuilt f id xs ys
unfolding rebuild_attempt make_attempt
rebuild_attempt-Rebuilt f id [] h = subst (λ zs. Rebuilt f id [] zs) (ok_injective h) done
rebuild_attempt-Rebuilt f id (a ∷ xs) h =
    let (new, head, h1) =
      >>=-eq-ok (if a.plan.id == id then make_attempt (f a) else ok a)
        (λ n. rebuild_attempt f id xs >>= λ more. ok (n ∷ more)) h in
    let (more, tail, h2) = >>=-eq-ok (rebuild_attempt f id xs) (λ more. ok (new ∷ more)) h1 in
    subst (λ zs. Rebuilt f id (a ∷ xs) zs) (ok_injective h2)
      (Rebuilt-head f id a head (rebuild_attempt-Rebuilt f id xs tail))

-- The attempt of a new plan, and one with its start or its outcome recorded.
abbrev pub planned : EffectAttemptPlan → AttemptState
planned p = record {
  plan = p;
  started = false;
  started_event_id = none;
  started_at = none;
  outcome = none;
}

abbrev pub start_with : Metadata → AttemptState → AttemptState
start_with m x = record {
  plan = x.plan;
  started = true;
  started_event_id = some m.event_id;
  started_at = some m.occurred_at;
  outcome = none;
}

abbrev pub finish_with : AttemptOutcome → AttemptState → AttemptState
finish_with o x = record x { outcome = some o }

-- The state of a new request.
abbrev pub opened : EffectRequest → EffectRequestState
opened r = record {
  request = r;
  attempts = [];
  no_attempt_dispositions = [];
  decode_outcomes = [];
  accepted_decoded_outcome_id = none;
}

pub data RequestStep (r : EffectRequestState) : EffectRequestState → Type 0 where
  attempt_planned :
      (p : EffectAttemptPlan)
      → r.accepted_decoded_outcome_id ≡ none
      → valid_attempt (planned p) ≡ true
      → p.request_id ≡ r.request.id
      → RequestStep r (record r { attempts = r.attempts ++ (planned p ∷ []) })
  attempt_started :
      (m : Metadata) (id : String) (a : AttemptState) {attempts : List AttemptState}
      → attempt_of r id ≡ some a
      → a.started ≡ false
      → r.accepted_decoded_outcome_id ≡ none
      → Rebuilt (start_with m) id r.attempts attempts
      → RequestStep r (record r { attempts = attempts })
  disposition_recorded :
      (d : NoAttemptDisposition)
      → r.accepted_decoded_outcome_id ≡ none
      → (d.request_id ≡ r.request.id) × (d.step_plan_id ≡ r.request.step_plan_id)
      → RequestStep r (record r { no_attempt_dispositions = r.no_attempt_dispositions ++ (d ∷ []) })
  outcome_recorded :
      (o : AttemptOutcome) (id : String) (a : AttemptState) {attempts : List AttemptState}
      → attempt_of r id ≡ some a
      → a.started ≡ true
      → a.outcome ≡ none
      → Rebuilt (finish_with o) a.plan.id r.attempts attempts
      → ((link_of o).attempt_id ≡ id) × ((link_of o).route_id ≡ a.plan.route.id)
      → RequestStep r (record r { attempts = attempts })
  decode_recorded :
      (d : DecodeOutcome)
      → contains (return_ids r) d.external_return_id ≡ true
      → RequestStep r (record r { decode_outcomes = r.decode_outcomes ++ (d ∷ []) })
  result_accepted :
      (id : String)
      → r.accepted_decoded_outcome_id ≡ none
      → is_some (decoded_by_id r.decode_outcomes id) ≡ true
      → RequestStep r (record r { accepted_decoded_outcome_id = some id })

pub data Step (st : InquiryState) : InquiryState → Type 0 where
  began :
      (next : InquiryState)
      → is_active st.status ≡ false
      → next.sequence ≡ 1
      → next.status ≡ active
      → next.effect_requests ≡ []
      → Step st next
  plan_recorded :
      (p : StepPlan)
      → is_active st.status ≡ true
      → Step st (record st { sequence = suc st.sequence; step_plans = st.step_plans ++ (p ∷ []) })
  obligation_added :
      (o : Obligation)
      → is_active st.status ≡ true
      → Step st (record st { sequence = suc st.sequence; obligations = st.obligations ++ (o ∷ []) })
  requested :
      (r : EffectRequestState)
      → is_active st.status ≡ true
      → request_by_id st r.request.id ≡ none
      → r.attempts ≡ []
      → valid_request_state r ≡ true
      → r.no_attempt_dispositions ≡ []
      → Step st (record st {
        sequence = suc st.sequence;
        effect_requests = st.effect_requests ++ (r ∷ []);
      })
  request_changed :
      (r new : EffectRequestState)
      → is_active st.status ≡ true
      → In r st.effect_requests
      → RequestStep r new
      → valid_request_state new ≡ true
      → Step st (record st { sequence = suc st.sequence; effect_requests = replace_request st new })
