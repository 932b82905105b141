-- ===== src/Core/History/Requests.antt =====
-- core/transitions.py `evolve`: what a step to one request keeps of it.
use ratcheting_consequence_i.Base.{
  ◌≡◌, refl, sym, ap, subst, ◌∙◌, String, true, false, none, some, List, [], ◌∷◌, map, ◌==◌, ◌⊎◌,
  inl, inr, string_eq, contains, distinct, In, In-append_left, map-In, In-contains, find_sound,
  arith, update_where,
}
use ratcheting_consequence_i.Core.Records.{AttemptState}
use ratcheting_consequence_i.Core.State.{
  InquiryState, EffectRequestState, valid_attempt, valid_request_state, attempt_id,
}
use ratcheting_consequence_i.Core.Decide.{attempt_of}
use ratcheting_consequence_i.Core.Evolve.{replace_request}
use ratcheting_consequence_i.Core.Steps.{
  Rebuilt, done, changed, kept, planned, RequestStep, attempt_planned, attempt_started,
  disposition_recorded, outcome_recorded, decode_recorded, result_accepted,
}
use ratcheting_consequence_i.Core.Invariants.{ValidRequest}
use ratcheting_consequence_i.Core.History.{AttemptKept, Extends, AttemptKept-refl}

-- Two entries with one key are the same entry.
module _ {A : Type 0} where
  distinct_parts :
      (key : A → String) (x : A) (xs : List A)
      → distinct (map key (x ∷ xs)) ≡ true
      → (contains (map key xs) (key x) ≡ false) × (distinct (map key xs) ≡ true)
  unfolding distinct
  distinct_parts key x xs h = ground arith

  head-fresh :
      (key : A → String) (x b : A) (xs : List A)
      → distinct (map key (x ∷ xs)) ≡ true
      → In b xs
      → key x ≡ key b
      → ⊥
  head-fresh key x b xs h n e = ground (
    arith,
    distinct_parts key x xs h,
    In-contains (map key xs) (key x) (subst (λ k. In k (map key xs)) (sym e) (map-In key b xs n)),
  )

  pub same_key :
      (key : A → String) (xs : List A) (a b : A)
      → distinct (map key xs) ≡ true
      → In a xs
      → In b xs
      → key a ≡ key b
      → a ≡ b
  same_key key [] a b unique m n e = absurd m
  same_key key (x ∷ xs) a b unique (inl p) (inl q) e = p ∙ sym q
  same_key key (x ∷ xs) a b unique (inl p) (inr n) e =
      absurd (head-fresh key x b xs unique n (ap key (sym p) ∙ e))
  same_key key (x ∷ xs) a b unique (inr m) (inl q) e =
      absurd (head-fresh key x a xs unique m (sym (e ∙ ap key q)))
  same_key key (x ∷ xs) a b unique (inr m) (inr n) e =
      same_key key xs a b (distinct_parts key x xs unique).1 m n e

-- Attempts rebuilt by a change that keeps the plan, of an attempt that has no outcome yet.
Rebuilt-kept :
    {f : AttemptState → AttemptState} {id : String} {xs ys : List AttemptState}
    → ((a : AttemptState) → (f a).plan ≡ a.plan)
    → Rebuilt f id xs ys
    → ((a : AttemptState) → In a xs → a.plan.id ≡ id → a.outcome ≡ none)
    → (a : AttemptState) → In a xs
    → (b : AttemptState) × In b ys × AttemptKept a b
Rebuilt-kept plans done free a m = absurd m
Rebuilt-kept {f} plans (changed {a = x} same valid rest) free a (inl e) = (
  f x,
  inl refl,
  record {
    plan = plans x ∙ ap (λ (y : AttemptState). y.plan) (sym e);
    outcome =
        λ o p. absurd (cc (p, free x (inl refl) same, ap (λ (y : AttemptState). y.outcome) e));
  },
)
Rebuilt-kept plans (changed same valid rest) free a (inr m) =
    let (b, k, kept_too) = Rebuilt-kept plans rest (λ c n. free c (inr n)) a m in
    (b, inr k, kept_too)
Rebuilt-kept plans (kept differ rest) free a (inl e) = (a, inl e, AttemptKept-refl a)
Rebuilt-kept plans (kept differ rest) free a (inr m) =
    let (b, k, kept_too) = Rebuilt-kept plans rest (λ c n. free c (inr n)) a m in
    (b, inr k, kept_too)

attempt_ids-distinct :
    (r : EffectRequestState)
    → valid_request_state r ≡ true
    → distinct (map attempt_id r.attempts) ≡ true
unfolding valid_request_state
attempt_ids-distinct r valid = ground arith

-- The attempt found by an id is the only one with it.
attempt_of-only :
    (r : EffectRequestState) (id : String) (a b : AttemptState)
    → ValidRequest r
    → attempt_of r id ≡ some a
    → In b r.attempts
    → b.plan.id ≡ id
    → (a.plan.id ≡ id) × (b ≡ a)
unfolding attempt_of
attempt_of-only r id a b good its m e =
    let (member, named) = find_sound (λ (x : AttemptState). x.plan.id == id) a r.attempts its in
    let same : a.plan.id ≡ id = ground arith in
    (
      same,
      same_key attempt_id r.attempts b a (attempt_ids-distinct r good.cardinalities) m member
          (e ∙ sym same),
    )

pub attempt_of-id :
    (r : EffectRequestState) (id : String) (a : AttemptState)
    → attempt_of r id ≡ some a
    → a.plan.id ≡ id
unfolding attempt_of
attempt_of-id r id a its =
    let (member, named) = find_sound (λ (x : AttemptState). x.plan.id == id) a r.attempts its in
    ground arith

attempt_of-In :
    (r : EffectRequestState) (id : String) (a : AttemptState)
    → attempt_of r id ≡ some a
    → In a r.attempts
unfolding attempt_of
attempt_of-In r id a its = (find_sound (λ (x : AttemptState). x.plan.id == id) a r.attempts its).0

idle_pending : (a : AttemptState) → valid_attempt a ≡ true → a.started ≡ false → a.outcome ≡ none
unfolding valid_attempt
idle_pending a valid idle = ground arith

pub RequestStep-Extends :
    {r new : EffectRequestState} → ValidRequest r → RequestStep r new → Extends r new
RequestStep-Extends {r} good (attempt_planned p free valid owner) = record {
  request = refl;
  attempts = λ a m. (a, In-append_left a r.attempts (planned p ∷ []) m, AttemptKept-refl a);
  dispositions = λ d m. m;
  decodes = λ d m. m;
  accepted = λ id e. e;
}
RequestStep-Extends {r} good (attempt_started m id b its idle free rebuilt) = record {
  request = refl;
  attempts =
      Rebuilt-kept (λ a. refl) rebuilt
        (λ a n e.
          ap (λ (y : AttemptState). y.outcome) (attempt_of-only r id b a good its n e).1
          ∙ idle_pending b (good.attempts b (attempt_of-In r id b its)) idle);
  dispositions = λ d m. m;
  decodes = λ d m. m;
  accepted = λ id e. e;
}
RequestStep-Extends {r} good (disposition_recorded d free owner) = record {
  request = refl;
  attempts = λ a m. (a, m, AttemptKept-refl a);
  dispositions = λ x m. In-append_left x r.no_attempt_dispositions (d ∷ []) m;
  decodes = λ d m. m;
  accepted = λ id e. e;
}
RequestStep-Extends {r} good (outcome_recorded o id b its begun pending rebuilt link) = record {
  request = refl;
  attempts =
      Rebuilt-kept (λ a. refl) rebuilt
        (λ a n e.
          ap (λ (y : AttemptState). y.outcome)
            (attempt_of-only r id b a good its n (e ∙ attempt_of-id r id b its)).1
          ∙ pending);
  dispositions = λ d m. m;
  decodes = λ d m. m;
  accepted = λ id e. e;
}
RequestStep-Extends {r} good (decode_recorded d captured) = record {
  request = refl;
  attempts = λ a m. (a, m, AttemptKept-refl a);
  dispositions = λ d m. m;
  decodes = λ x m. In-append_left x r.decode_outcomes (d ∷ []) m;
  accepted = λ id e. e;
}
RequestStep-Extends {r} good (result_accepted id free found) = record {
  request = refl;
  attempts = λ a m. (a, m, AttemptKept-refl a);
  dispositions = λ d m. m;
  decodes = λ d m. m;
  accepted = λ old e. absurd (cc (e, free));
}

-- A replaced request is found in its place.
pub replace_request-kept :
    (st : InquiryState) (new r : EffectRequestState)
    → In r st.effect_requests
    → ((r.request.id ≡ new.request.id → ⊥) × In r (replace_request st new))
      ⊎ ((r.request.id ≡ new.request.id) × In new (replace_request st new))
unfolding replace_request update_where
replace_request-kept st new r = walk st.effect_requests
  where
    replaced : List EffectRequestState → List EffectRequestState
    replaced = update_where (λ (x : EffectRequestState). x.request.id == new.request.id) (λ _. new)

    walk :
        (xs : List EffectRequestState)
        → In r xs
        → ((r.request.id ≡ new.request.id → ⊥) × In r (replaced xs))
          ⊎ ((r.request.id ≡ new.request.id) × In new (replaced xs))
    walk [] m = absurd m
    walk (x ∷ xs) (inl e) = elim (string_eq.dec r.request.id new.request.id) [
      | yes same ↦ inr (same, inl (ground arith))
      | no differ ↦ inl (differ, inl (ground arith))
    ]
    walk (x ∷ xs) (inr m) = elim (walk xs m) [
      | inl (differ, k) ↦ inl (differ, inr k)
      | inr (same, k) ↦ inr (same, inr k)
    ]
