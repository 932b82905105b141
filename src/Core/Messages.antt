-- ===== src/Core/Messages.antt =====
-- src/rci/core/commands.py and src/rci/core/events.py: the commands of inquiry start, obligations, step
-- plans and effects, and the events they give.
use ratcheting_consequence_i.Base.{ℕ, String, Eq, String-discrete, ℕ_discrete}
use ratcheting_consequence_i.Claims.{Obligation, Obligation-discrete}
use ratcheting_consequence_i.Planning.{StepPlan, StepPlan-discrete}
use ratcheting_consequence_i.Core.Records.{
  ArtifactRef, EffectRequest, EffectAttemptPlan, NoAttemptDisposition, AttemptOutcome,
  DecodeOutcome, ArtifactRef-discrete, EffectRequest-discrete, EffectAttemptPlan-discrete,
  NoAttemptDisposition-discrete, AttemptOutcome-discrete, DecodeOutcome-discrete,
}
use ratcheting_consequence_i.Core.State.{InquiryContext, InquiryContext-discrete}

-- `CommandBase` and `EventMetadata`: what is nondeterministic, supplied by the caller.
pub record Metadata : Type 0 where
  pub event_id : String
  pub inquiry_id : String
  pub occurred_at : ℕ

pub data DomainCommand : Type 0 where
  start_inquiry :
      Metadata → ArtifactRef → (policy_version : String) → InquiryContext → DomainCommand
  open_obligation : Metadata → Obligation → DomainCommand
  record_step_plan : Metadata → StepPlan → DomainCommand
  request_effect : Metadata → EffectRequest → DomainCommand
  plan_effect_attempt : Metadata → EffectAttemptPlan → DomainCommand
  start_effect_attempt : Metadata → (attempt_id : String) → DomainCommand
  record_no_attempt_disposition : Metadata → NoAttemptDisposition → DomainCommand
  record_attempt_outcome : Metadata → (request_id : String) → AttemptOutcome → DomainCommand
  record_decode_outcome : Metadata → (request_id : String) → DecodeOutcome → DomainCommand
  accept_effect_result : Metadata → (request_id decoded_outcome_id : String) → DomainCommand

pub data DomainEvent : Type 0 where
  inquiry_started :
      Metadata → ArtifactRef → (policy_version : String) → InquiryContext → DomainEvent
  obligation_opened : Metadata → Obligation → DomainEvent
  step_plan_recorded : Metadata → StepPlan → DomainEvent
  effect_requested : Metadata → EffectRequest → DomainEvent
  effect_attempt_planned : Metadata → EffectAttemptPlan → DomainEvent
  effect_attempt_started : Metadata → (attempt_id : String) → DomainEvent
  effect_no_attempt_disposition_recorded : Metadata → NoAttemptDisposition → DomainEvent
  effect_attempt_outcome_recorded : Metadata → (request_id : String) → AttemptOutcome → DomainEvent
  effect_decode_outcome_recorded : Metadata → (request_id : String) → DecodeOutcome → DomainEvent
  effect_result_accepted : Metadata → (request_id decoded_outcome_id : String) → DomainEvent

unfoldable pub DomainEvent-discrete : Discrete DomainEvent
unfolding String-discrete ℕ_discrete StepPlan-discrete Obligation-discrete
DomainEvent-discrete = hlevel (
  String-discrete, ℕ_discrete, StepPlan-discrete, Obligation-discrete, ArtifactRef-discrete,
  EffectRequest-discrete, EffectAttemptPlan-discrete, NoAttemptDisposition-discrete,
  AttemptOutcome-discrete, DecodeOutcome-discrete, InquiryContext-discrete,
)

instance unfoldable pub event_eq : Eq DomainEvent
unfolding DomainEvent-discrete
event_eq = record { dec = DomainEvent-discrete }
