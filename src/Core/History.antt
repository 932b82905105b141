-- ===== src/Core/History.antt =====
-- core/transitions.py: what it is for a later state to keep what was recorded of an effect.
pub mod Requests
pub mod Replays
use ratcheting_consequence_i.Base.{
  ◌≡◌, refl, sym, ap, subst, ◌∙◌, String, true, false, none, some, List, [], ◌∷◌, map, ◌==◌, ◌⊎◌,
  inl, inr, string_eq, contains, distinct, In, In-append_left, map-In, In-contains, find_sound, ok,
  >>=-eq-ok, ok_injective, arith, update_where,
}
use ratcheting_consequence_i.Canonical.{Hashing}
use ratcheting_consequence_i.Core.Records.{
  AttemptState, AttemptOutcome, EffectRequest, DecodeOutcome, NoAttemptDisposition,
}
use ratcheting_consequence_i.Core.State.{
  InquiryState, is_active, EffectRequestState, valid_attempt, valid_request_state, valid_state,
  valid_requests, valid_started, request_id, attempt_id,
}
use ratcheting_consequence_i.Core.Messages.{DomainEvent}
use ratcheting_consequence_i.Core.Decide.{attempt_of}
use ratcheting_consequence_i.Core.Evolve.{evolve, replay, replace_request}
use ratcheting_consequence_i.Core.Steps.{
  Rebuilt, done, changed, kept, planned, RequestStep, attempt_planned, attempt_started,
  disposition_recorded, outcome_recorded, decode_recorded, result_accepted, Step, began,
  plan_recorded, obligation_added, requested, request_changed,
}
use ratcheting_consequence_i.Core.Steps.Inversion.{evolve-Lawful}
use ratcheting_consequence_i.Core.Invariants.{ValidRequest, WellFormed, evolve-WellFormed}

-- One attempt later: the same plan, and an outcome, once recorded, the same.
pub record AttemptKept (a b : AttemptState) : Type 0 where
  pub plan : b.plan ≡ a.plan
  pub outcome : (o : AttemptOutcome) → a.outcome ≡ some o → b.outcome ≡ some o

-- One request later: nothing that was recorded is lost, and an accepted result stays the accepted one.
pub record Extends (r s : EffectRequestState) : Type 0 where
  pub request : s.request ≡ r.request
  pub attempts :
      (a : AttemptState) → In a r.attempts → (b : AttemptState) × In b s.attempts × AttemptKept a b
  pub dispositions :
      (d : NoAttemptDisposition) → In d r.no_attempt_dispositions → In d s.no_attempt_dispositions
  pub decodes : (d : DecodeOutcome) → In d r.decode_outcomes → In d s.decode_outcomes
  pub accepted :
      (id : String)
      → r.accepted_decoded_outcome_id ≡ some id
      → s.accepted_decoded_outcome_id ≡ some id

-- Every request of the first state is in the second, extended.
abbrev pub HistoryKept : InquiryState → InquiryState → Type 0
HistoryKept st next =
    (r : EffectRequestState)
    → In r st.effect_requests
    → (s : EffectRequestState) × In s next.effect_requests × Extends r s

pub AttemptKept-refl : (a : AttemptState) → AttemptKept a a
AttemptKept-refl a = record { plan = refl; outcome = λ o e. e }

pub Extends-refl : (r : EffectRequestState) → Extends r r
Extends-refl r = record {
  request = refl;
  attempts = λ a m. (a, m, AttemptKept-refl a);
  dispositions = λ d m. m;
  decodes = λ d m. m;
  accepted = λ id e. e;
}

pub Extends-trans : {r s t : EffectRequestState} → Extends r s → Extends s t → Extends r t
Extends-trans {r} {s} {t} f g = record {
  request = g.request ∙ f.request;
  attempts = λ a m.
      let (b, m1, k1) = f.attempts a m in
      let (c, m2, k2) = g.attempts b m1 in
      (c, m2, record { plan = k2.plan ∙ k1.plan; outcome = λ o e. k2.outcome o (k1.outcome o e) });
  dispositions = λ d m. g.dispositions d (f.dispositions d m);
  decodes = λ d m. g.decodes d (f.decodes d m);
  accepted = λ id e. g.accepted id (f.accepted id e);
}
