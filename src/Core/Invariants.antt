-- ===== src/Core/Invariants.antt =====
-- core/transitions.py `evolve` and core/replay.py: what every step keeps.
use ratcheting_consequence_i.Base.{
  ◌≡◌, sym, subst, String, true, List, [], ◌∷◌, ◌==◌, ◌⊎◌, inl, inr, string_eq, In, In-append, ok,
  >>=-eq-ok, ok_injective, arith, update_where,
}
use ratcheting_consequence_i.Canonical.{Hashing}
use ratcheting_consequence_i.Core.Records.{AttemptState}
use ratcheting_consequence_i.Core.State.{
  InquiryState, EffectRequestState, valid_attempt, valid_request_state, valid_state,
}
use ratcheting_consequence_i.Core.Messages.{DomainEvent}
use ratcheting_consequence_i.Core.Evolve.{evolve, replay, replace_request}
use ratcheting_consequence_i.Core.Steps.{
  Rebuilt, done, changed, kept, planned, RequestStep, attempt_planned, attempt_started,
  disposition_recorded, outcome_recorded, decode_recorded, result_accepted, Step, began,
  plan_recorded, obligation_added, requested, request_changed,
}
use ratcheting_consequence_i.Core.Steps.Inversion.{evolve-Lawful}

-- The validators of a request and of its attempts all pass.
pub record ValidRequest (r : EffectRequestState) : Type 0 where
  pub cardinalities : valid_request_state r ≡ true
  pub attempts : (a : AttemptState) → In a r.attempts → valid_attempt a ≡ true

-- The validators of the state, of its requests and of their attempts all pass.
pub record WellFormed (h : Hashing) (st : InquiryState) : Type 0 where
  pub lifecycle : valid_state h st ≡ true
  pub requests : (r : EffectRequestState) → In r st.effect_requests → ValidRequest r

Rebuilt-valid :
    {f : AttemptState → AttemptState} {id : String} {xs ys : List AttemptState}
    → Rebuilt f id xs ys
    → ((a : AttemptState) → In a xs → valid_attempt a ≡ true)
    → (a : AttemptState) → In a ys
    → valid_attempt a ≡ true
Rebuilt-valid done all a m = absurd m
Rebuilt-valid (changed same valid rest) all a (inl e) =
    subst (λ x. valid_attempt x ≡ true) (sym e) valid
Rebuilt-valid (changed same valid rest) all a (inr m) =
    Rebuilt-valid rest (λ b k. all b (inr k)) a m
Rebuilt-valid (kept differ rest) all a (inl e) = all a (inl e)
Rebuilt-valid (kept differ rest) all a (inr m) = Rebuilt-valid rest (λ b k. all b (inr k)) a m

RequestStep-attempts :
    {r new : EffectRequestState}
    → RequestStep r new
    → ((a : AttemptState) → In a r.attempts → valid_attempt a ≡ true)
    → (a : AttemptState) → In a new.attempts
    → valid_attempt a ≡ true
RequestStep-attempts {r} (attempt_planned p free valid owner) all a m =
    elim (In-append a r.attempts (planned p ∷ []) m) [
      | inl old ↦ all a old
      | inr (inl e) ↦ subst (λ x. valid_attempt x ≡ true) (sym e) valid
      | inr (inr k) ↦ absurd k
    ]
RequestStep-attempts (attempt_started m id b its idle free rebuilt) all x k =
    Rebuilt-valid rebuilt all x k
RequestStep-attempts (disposition_recorded d free owner) all x k = all x k
RequestStep-attempts (outcome_recorded o id b its begun pending rebuilt link) all x k =
    Rebuilt-valid rebuilt all x k
RequestStep-attempts (decode_recorded d captured) all x k = all x k
RequestStep-attempts (result_accepted id free good) all x k = all x k

-- An entry of the replaced list is the replacement or was there before.
pub replace_request-In :
    (st : InquiryState) (new r : EffectRequestState)
    → In r (replace_request st new)
    → (r ≡ new) ⊎ In r st.effect_requests
unfolding replace_request update_where
replace_request-In st new r = walk st.effect_requests
  where
    walk :
        (xs : List EffectRequestState)
        → In r (
            update_where (λ (x : EffectRequestState). x.request.id == new.request.id) (λ _. new) xs)
        → (r ≡ new) ⊎ In r xs
    walk [] m = absurd m
    walk (x ∷ xs) (inl e) = ground arith
    walk (x ∷ xs) (inr m) = elim (walk xs m) [ inl e ↦ inl e | inr k ↦ inr (inr k) ]

Step-requests :
    {st next : InquiryState}
    → Step st next
    → ((r : EffectRequestState) → In r st.effect_requests → ValidRequest r)
    → (r : EffectRequestState) → In r next.effect_requests
    → ValidRequest r
Step-requests (began next idle one running empty) all r m = absurd (subst (In r) empty m)
Step-requests (plan_recorded p running) all r m = all r m
Step-requests (obligation_added o running) all r m = all r m
Step-requests {st} (requested new running fresh none_yet valid bare) all r m =
    elim (In-append r st.effect_requests (new ∷ []) m) [
      | inl old ↦ all r old
      | inr (inl e) ↦
          subst ValidRequest (sym e)
            (record { cardinalities = valid; attempts = λ a k. absurd (subst (In a) none_yet k) })
      | inr (inr k) ↦ absurd k
    ]
Step-requests {st} (request_changed old new running member step valid) all r m =
    elim (replace_request-In st new r m) [
      | inl e ↦ subst ValidRequest (sym e) (record {
        cardinalities = valid;
        attempts = RequestStep-attempts step (all old member).attempts;
      })
      | inr k ↦ all r k
    ]

module _ (h : Hashing) where
  -- A step that `evolve` takes from a state whose validators pass ends in a state whose validators pass:
  -- the state's own, those of its requests, and those of their attempts.
  pub evolve-WellFormed :
      (st : InquiryState) (event : DomainEvent) {next : InquiryState}
      → WellFormed h st
      → evolve h st event ≡ ok next
      → WellFormed h next
  evolve-WellFormed st event good e =
      let (step, valid) = evolve-Lawful h st event e in
      record { lifecycle = valid; requests = Step-requests step good.requests }

  -- A replay that returns, from a state whose validators pass, ends in a state whose own validators and
  -- those of its requests and attempts pass.
  pub replay-WellFormed :
      (events : List DomainEvent) (st : InquiryState) {next : InquiryState}
      → WellFormed h st
      → replay h events st ≡ ok next
      → WellFormed h next
  unfolding replay
  replay-WellFormed [] st good e = subst (WellFormed h) (ok_injective e) good
  replay-WellFormed (event ∷ events) st good e =
      let (middle, first, rest) = >>=-eq-ok (evolve h st event) (replay h events) e in
      replay-WellFormed events middle (evolve-WellFormed st event good first) rest
