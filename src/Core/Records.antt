-- ===== src/Core/Records.antt =====
-- src/rci/core/model.py and src/rci/core/effects.py: the immutable records of an effect's life.
-- Times are UTC instants, as numbers. Pydantic's own constraints on texts (patterns and lengths of
-- identifiers and digests) are not repeated.
use ratcheting_consequence_i.Base.{
  ℕ, String, Bool, true, ◌&&◌, Option, List, map, Eq, ◌==◌, String-discrete, ℕ_discrete, string_eq,
  distinct, leb,
}

pub record ArtifactRef : Type 0 where
  pub digest : String
  pub size : ℕ
  pub media_type : Option String
  pub encoding : Option String

-- A byte payload has an artifact, and a null payload has none.
pub data CapturedPayload : Type 0 where
  bytes : ArtifactRef → CapturedPayload
  null : CapturedPayload

pub record TransformEvidence : Type 0 where
  pub id : String
  pub version : String
  pub input_artifact : ArtifactRef
  pub output_artifact : ArtifactRef

pub record RouteSnapshot : Type 0 where
  pub id : String
  pub definition_id : String
  pub definition_version : String
  pub definition_artifact : ArtifactRef
  pub backend_id : String
  pub adapter_id : String
  pub adapter_version : String
  pub endpoint_or_channel : Option String
  pub transport : Option String
  pub execution_environment_artifact : ArtifactRef
  pub request_or_action_digest : String
  pub transform_evidence : List TransformEvidence

unfoldable pub valid_route : RouteSnapshot → Bool
valid_route r = distinct (map (λ (t : TransformEvidence). t.id) r.transform_evidence)

pub record EffectRequest : Type 0 where
  pub id : String
  pub step_plan_id : String
  pub effect_kind : String
  pub adapter_id : String
  pub input_artifact : ArtifactRef
  pub timeout_seconds : ℕ

unfoldable pub valid_effect_request : EffectRequest → Bool
valid_effect_request r = leb 1 r.timeout_seconds && leb r.timeout_seconds 86400

pub record EffectAttemptPlan : Type 0 where
  pub id : String
  pub request_id : String
  pub route : RouteSnapshot

pub data NoAttemptReason : Type 0 where
  policy_denied unsupported budget_exhausted dependencies_open : NoAttemptReason

pub data NotPresentedReason : Type 0 where
  policy_denied unsupported preflight_failed : NotPresentedReason

pub data CaptureFailureReason : Type 0 where
  capture_error output_limit storage_error : CaptureFailureReason

pub data PresentationUnknownReason : Type 0 where
  timeout transport_error internal_failure : PresentationUnknownReason

pub data CancellationReason : Type 0 where
  caller_cancelled policy_cancelled shutdown : CancellationReason

pub record NoAttemptDisposition : Type 0 where
  pub id : String
  pub request_id : String
  pub step_plan_id : String
  pub reason_kind : NoAttemptReason
  pub diagnostics : Option ArtifactRef

pub record ExternalReturn : Type 0 where
  pub id : String
  pub attempt_id : String
  pub route_id : String
  pub source_id : Option String
  pub source_revision : Option String
  pub capture_boundary : String
  pub capture_encoding : String
  pub captured_at : ℕ
  pub raw_payload : CapturedPayload

-- What every outcome names: its attempt and its route.
pub record OutcomeLink : Type 0 where
  pub attempt_id : String
  pub route_id : String

pub data AttemptOutcome : Type 0 where
  not_presented : OutcomeLink → NotPresentedReason → Option ArtifactRef → AttemptOutcome
  capture_failed : OutcomeLink → CaptureFailureReason → ArtifactRef → AttemptOutcome
  presentation_unknown : OutcomeLink → PresentationUnknownReason → ArtifactRef → AttemptOutcome
  cancelled : OutcomeLink → CancellationReason → Option ArtifactRef → AttemptOutcome
  returned : OutcomeLink → ExternalReturn → AttemptOutcome

abbrev pub link_of : AttemptOutcome → OutcomeLink
link_of (not_presented l r d) = l
link_of (capture_failed l r d) = l
link_of (presentation_unknown l r d) = l
link_of (cancelled l r d) = l
link_of (returned l x) = l

-- `ReturnedOutcome.validate_external_return_link`
unfoldable pub valid_outcome : AttemptOutcome → Bool
valid_outcome (returned l x) = (x.attempt_id == l.attempt_id) && (x.route_id == l.route_id)
valid_outcome _ = true

pub record ResultBase : Type 0 where
  pub id : String
  pub semantic_artifact : ArtifactRef

pub data CanonicalResult : Type 0 where
  witness : ResultBase → (proposition_id : String) → (artifact : ArtifactRef) → CanonicalResult
  counterexample :
      ResultBase → (proposition_id : String) → (artifact : ArtifactRef) → CanonicalResult
  separator : ResultBase → (left_class_id right_class_id : String) → ArtifactRef → CanonicalResult
  equivalence_certificate : ResultBase → (relation_id : String) → ArtifactRef → CanonicalResult
  conflict : ResultBase → (left_proposition_id right_proposition_id : String) → CanonicalResult
  prerequisite : ResultBase → (condition_id consequence_id : String) → ArtifactRef → CanonicalResult
  reachability_witness : ResultBase → (source_id target_id : String) → ArtifactRef → CanonicalResult
  unreachability_certificate :
      ResultBase → (source_id target_id : String) → ArtifactRef → CanonicalResult
  success : ResultBase → (operation_id : String) → CanonicalResult
  failure : ResultBase → (failure_kind : String) → Option ArtifactRef → CanonicalResult
  unknown : ResultBase → (reason_kind : String) → CanonicalResult

abbrev pub base_of : CanonicalResult → ResultBase
base_of (witness b p a) = b
base_of (counterexample b p a) = b
base_of (separator b l r a) = b
base_of (equivalence_certificate b r a) = b
base_of (conflict b l r) = b
base_of (prerequisite b c d a) = b
base_of (reachability_witness b s t a) = b
base_of (unreachability_certificate b s t a) = b
base_of (success b o) = b
base_of (failure b k d) = b
base_of (unknown b k) = b

pub data Decoding : Type 0 where
  decoded : CanonicalResult → Decoding
  malformed : ArtifactRef → Decoding
  unsupported : String → Decoding
  failed : ArtifactRef → Decoding

-- `DecodeBase` with what its subclasses add.
pub record DecodeOutcome : Type 0 where
  pub id : String
  pub external_return_id : String
  pub decoder_id : String
  pub decoder_version : String
  pub decoding : Decoding

pub record AttemptState : Type 0 where
  pub plan : EffectAttemptPlan
  pub started : Bool
  pub started_event_id : Option String
  pub started_at : Option ℕ
  pub outcome : Option AttemptOutcome

unfoldable pub EffectAttemptPlan-discrete : Discrete EffectAttemptPlan
unfolding String-discrete ℕ_discrete
EffectAttemptPlan-discrete = hlevel (String-discrete, ℕ_discrete)

instance unfoldable pub attempt_plan_eq : Eq EffectAttemptPlan
unfolding EffectAttemptPlan-discrete
attempt_plan_eq = record { dec = EffectAttemptPlan-discrete }

unfoldable pub EffectRequest-discrete : Discrete EffectRequest
unfolding String-discrete ℕ_discrete
EffectRequest-discrete = hlevel (String-discrete, ℕ_discrete)

instance unfoldable pub effect_request_eq : Eq EffectRequest
unfolding EffectRequest-discrete
effect_request_eq = record { dec = EffectRequest-discrete }

unfoldable pub NoAttemptDisposition-discrete : Discrete NoAttemptDisposition
unfolding String-discrete ℕ_discrete
NoAttemptDisposition-discrete = hlevel (String-discrete, ℕ_discrete)

instance unfoldable pub no_attempt_eq : Eq NoAttemptDisposition
unfolding NoAttemptDisposition-discrete
no_attempt_eq = record { dec = NoAttemptDisposition-discrete }

unfoldable pub AttemptOutcome-discrete : Discrete AttemptOutcome
unfolding String-discrete ℕ_discrete
AttemptOutcome-discrete = hlevel (String-discrete, ℕ_discrete)

instance unfoldable pub outcome_eq : Eq AttemptOutcome
unfolding AttemptOutcome-discrete
outcome_eq = record { dec = AttemptOutcome-discrete }

unfoldable pub DecodeOutcome-discrete : Discrete DecodeOutcome
unfolding String-discrete ℕ_discrete
DecodeOutcome-discrete = hlevel (String-discrete, ℕ_discrete)

instance unfoldable pub decode_eq : Eq DecodeOutcome
unfolding DecodeOutcome-discrete
decode_eq = record { dec = DecodeOutcome-discrete }

unfoldable pub ArtifactRef-discrete : Discrete ArtifactRef
unfolding String-discrete ℕ_discrete
ArtifactRef-discrete = hlevel (String-discrete, ℕ_discrete)

instance unfoldable pub artifact_eq : Eq ArtifactRef
unfolding ArtifactRef-discrete
artifact_eq = record { dec = ArtifactRef-discrete }
