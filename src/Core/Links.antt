-- ===== src/Core/Links.antt =====
-- src/rci/core/transitions.py, `evolve`: what an effect request holds is about that request. No validator
-- checks this: the guards of the transitions alone keep it.
use ratcheting_consequence_i.Base.{
  String, ◌≡◌, refl, sym, subst, ap, ◌∙◌, true, Option, none, some, List, [], ◌∷◌, In, ◌⊎◌, inl,
  inr, In-append, find_sound, string_eq, ==_iff, ◌==◌, ok, ok_injective, >>=-eq-ok, arith,
}
use mathlib.Core.Option.{some-injective}
use ratcheting_consequence_i.Base.Distinct.{IsDistinct, distinct_injective}
use ratcheting_consequence_i.Canonical.{Hashing}
use ratcheting_consequence_i.Core.Records.{
  AttemptState, AttemptOutcome, NoAttemptDisposition, link_of,
}
use ratcheting_consequence_i.Core.State.{
  InquiryState, EffectRequestState, attempt_id, valid_request_state,
}
use ratcheting_consequence_i.Core.Decide.{attempt_of}
use ratcheting_consequence_i.Core.Messages.{DomainEvent}
use ratcheting_consequence_i.Core.Evolve.{evolve, replay}
use ratcheting_consequence_i.Core.Steps.{
  Rebuilt, done, changed, kept, planned, RequestStep, attempt_planned, attempt_started,
  disposition_recorded, outcome_recorded, decode_recorded, result_accepted, Step, began,
  plan_recorded, obligation_added, requested, request_changed,
}
use ratcheting_consequence_i.Core.Steps.Inversion.{evolve-Lawful}
use ratcheting_consequence_i.Core.Invariants.{WellFormed, evolve-WellFormed, replace_request-In}

-- The attempts are planned for the request, each recorded outcome is of its attempt and of the route that
-- was planned for it, and the dispositions are of the request and of its step plan.
pub record IsLinked (r : EffectRequestState) : Type 0 where
  pub plans : (a : AttemptState) → In a r.attempts → a.plan.request_id ≡ r.request.id
  pub outcomes :
      (a : AttemptState) (o : AttemptOutcome)
      → In a r.attempts
      → a.outcome ≡ some o
      → ((link_of o).attempt_id ≡ a.plan.id) × ((link_of o).route_id ≡ a.plan.route.id)
  pub dispositions :
      (d : NoAttemptDisposition)
      → In d r.no_attempt_dispositions
      → (d.request_id ≡ r.request.id) × (d.step_plan_id ≡ r.request.step_plan_id)

abbrev pub AllLinked : InquiryState → Type 0
AllLinked st = (r : EffectRequestState) → In r st.effect_requests → IsLinked r

-- A rebuilt attempt is one of the old ones, or one of the identity that was rebuilt.
Rebuilt-In :
    {f : AttemptState → AttemptState} {id : String} {xs ys : List AttemptState}
    → Rebuilt f id xs ys
    → (b : AttemptState) → In b ys
    → In b xs ⊎ ((x : AttemptState) × In x xs × (x.plan.id ≡ id) × (b ≡ f x))
Rebuilt-In done b m = absurd m
Rebuilt-In (changed {a} same valid rest) b (inl e) = inr (a, inl refl, same, e)
Rebuilt-In (kept differ rest) b (inl e) = inl (inl e)
Rebuilt-In (changed same valid rest) b (inr m) = elim (Rebuilt-In rest b m) [
  | inl old ↦ inl (inr old)
  | inr (x, k, named, e) ↦ inr (x, inr k, named, e)
]
Rebuilt-In (kept differ rest) b (inr m) = elim (Rebuilt-In rest b m) [
  | inl old ↦ inl (inr old)
  | inr (x, k, named, e) ↦ inr (x, inr k, named, e)
]

attempt_of-In :
    (r : EffectRequestState) (id : String) (a : AttemptState)
    → attempt_of r id ≡ some a
    → In a r.attempts × (a.plan.id ≡ id)
unfolding attempt_of
attempt_of-In r id a h =
    let (m, e) = find_sound (λ (x : AttemptState). x.plan.id == id) a r.attempts h in
    (m, (==_iff (a.plan.id) id).0 e)

attempts-IsDistinct :
    (r : EffectRequestState) → valid_request_state r ≡ true → IsDistinct attempt_id r.attempts
unfolding valid_request_state
attempts-IsDistinct r valid = ground arith

RequestStep-IsLinked :
    {r new : EffectRequestState}
    → valid_request_state r ≡ true
    → RequestStep r new
    → IsLinked r
    → IsLinked new
RequestStep-IsLinked {r} valid (attempt_planned p free good owner) l = record {
  plans = λ a m. elim (In-append a r.attempts (planned p ∷ []) m) [
    | inl old ↦ l.plans a old
    | inr (inl e) ↦ ap (λ (x : AttemptState). x.plan.request_id) e ∙ owner
    | inr (inr n) ↦ absurd n
  ];
  outcomes = λ a o m e. elim (In-append a r.attempts (planned p ∷ []) m) [
    | inl old ↦ l.outcomes a o old e
    | inr (inl same) ↦ absurd (none-some (sym (ap (λ (x : AttemptState). x.outcome) same) ∙ e))
    | inr (inr n) ↦ absurd n
  ];
  dispositions = l.dispositions;
}
  where
    none-some : {o : AttemptOutcome} → ◌≡◌ {A = Option AttemptOutcome} none (some o) → ⊥
    none-some h = cc
RequestStep-IsLinked {r} valid (attempt_started m id a its idle free rebuilt) l = record {
  plans = λ b k. elim (Rebuilt-In rebuilt b k) [
    | inl old ↦ l.plans b old
    | inr (x, listed, named, e) ↦ ap (λ (y : AttemptState). y.plan.request_id) e ∙ l.plans x listed
  ];
  outcomes = λ b o k e. elim (Rebuilt-In rebuilt b k) [
    | inl old ↦ l.outcomes b o old e
    | inr (x, listed, named, same) ↦
        absurd (none-some (sym (ap (λ (y : AttemptState). y.outcome) same) ∙ e))
  ];
  dispositions = l.dispositions;
}
  where
    none-some : {o : AttemptOutcome} → ◌≡◌ {A = Option AttemptOutcome} none (some o) → ⊥
    none-some h = cc
RequestStep-IsLinked {r} valid (disposition_recorded d free owner) l = record {
  plans = l.plans;
  outcomes = l.outcomes;
  dispositions = λ x m. elim (In-append x r.no_attempt_dispositions (d ∷ []) m) [
    | inl old ↦ l.dispositions x old
    | inr (inl e) ↦ (
      ap (λ (y : NoAttemptDisposition). y.request_id) e ∙ owner.0,
      ap (λ (y : NoAttemptDisposition). y.step_plan_id) e ∙ owner.1,
    )
    | inr (inr n) ↦ absurd n
  ];
}
RequestStep-IsLinked {r} valid (outcome_recorded o id a its begun pending rebuilt link) l = record {
  plans = λ b k. elim (Rebuilt-In rebuilt b k) [
    | inl old ↦ l.plans b old
    | inr (x, listed, named, e) ↦ ap (λ (y : AttemptState). y.plan.request_id) e ∙ l.plans x listed
  ];
  outcomes = λ b p k e. elim (Rebuilt-In rebuilt b k) [
    | inl old ↦ l.outcomes b p old e
    | inr (x, listed, named, same) ↦
        let (m, is) = attempt_of-In r id a its in
        let one =
          distinct_injective attempt_id x a r.attempts (attempts-IsDistinct r valid) listed m
            named in
        let given = some-injective _ _ (sym (ap (λ (y : AttemptState). y.outcome) same) ∙ e) in
        subst (λ q. ((link_of q).attempt_id ≡ b.plan.id) × ((link_of q).route_id ≡ b.plan.route.id))
          given
          (
            link.0 ∙ sym is ∙ sym named ∙ sym (ap (λ (y : AttemptState). y.plan.id) same),
            link.1
                ∙ sym (ap (λ (y : AttemptState). y.plan.route.id) one)
                ∙ sym (ap (λ (y : AttemptState). y.plan.route.id) same),
          )
  ];
  dispositions = l.dispositions;
}
RequestStep-IsLinked valid (decode_recorded d captured) l = record {
  plans = l.plans;
  outcomes = l.outcomes;
  dispositions = l.dispositions;
}
RequestStep-IsLinked valid (result_accepted id free good) l = record {
  plans = l.plans;
  outcomes = l.outcomes;
  dispositions = l.dispositions;
}

module _ (h : Hashing) where
  Step-AllLinked :
      {st next : InquiryState} → WellFormed h st → Step st next → AllLinked st → AllLinked next
  Step-AllLinked good (began next idle one running empty) all r m = absurd (subst (In r) empty m)
  Step-AllLinked good (plan_recorded p running) all r m = all r m
  Step-AllLinked good (obligation_added o running) all r m = all r m
  Step-AllLinked {st} good (requested new running fresh none_yet valid bare) all r m =
      elim (In-append r st.effect_requests (new ∷ []) m) [
        | inl old ↦ all r old
        | inr (inl e) ↦ subst IsLinked (sym e) (record {
          plans = λ a k. absurd (subst (In a) none_yet k);
          outcomes = λ a o k. absurd (subst (In a) none_yet k);
          dispositions = λ d k. absurd (subst (In d) bare k);
        })
        | inr (inr n) ↦ absurd n
      ]
  Step-AllLinked {st} good (request_changed old new running member step valid) all r m =
      elim (replace_request-In st new r m) [
        | inl e ↦
            subst IsLinked (sym e)
              (RequestStep-IsLinked (good.requests old member).cardinalities step (all old member))
        | inr k ↦ all r k
      ]

  -- A replay that returns, from a state whose validators pass and whose requests are linked, ends in a
  -- state whose requests are linked: each attempt is planned for the request that holds it, each recorded
  -- outcome is of its attempt and of the route planned for it, and each no-attempt disposition is of its
  -- request and of the step plan of that request.
  pub replay-AllLinked :
      (events : List DomainEvent) (st : InquiryState) {next : InquiryState}
      → WellFormed h st
      → AllLinked st
      → replay h events st ≡ ok next
      → AllLinked next
  unfolding replay
  replay-AllLinked [] st good all e = subst AllLinked (ok_injective e) all
  replay-AllLinked (event ∷ events) st good all e =
      let (middle, first, rest) = >>=-eq-ok (evolve h st event) (replay h events) e in
      replay-AllLinked events middle (evolve-WellFormed h st event good first)
        (Step-AllLinked good (evolve-Lawful h st event first).0 all) rest
