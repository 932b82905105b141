-- ===== src/Core/Tests.antt =====
-- The life of one effect, from the initial state to its accepted result.
use ratcheting_consequence_i.Base.Texts.{is_sha256_digest}
use ratcheting_consequence_i.Base.{
  pos, String, ◌≡◌, refl, true, false, none, some, List, [], ◌∷◌, In, inl, ok, raise, ◌+◌, length,
  value_error, string_eq, option_eq, list_eq, nat_eq, bool_eq, String-discrete, find, any, all,
  keep, gather, contains, distinct, update_where, last?, subset,
}
use ratcheting_consequence_i.Base.Order.{string_ord}
use ratcheting_consequence_i.Base.Sort.{sorted}
use ratcheting_consequence_i.Canonical.{Hashing, content_fingerprint, Json-discrete, ℤ-discrete}
use ratcheting_consequence_i.Claims.{
  Obligation, necessity_counterexample, open_status, scope_fingerprint, obligation_fingerprint,
  normalized_args, obligation_eq, Obligation-discrete, obligation_status_eq,
  ObligationStatus-discrete,
}
use ratcheting_consequence_i.Planning.{
  StepPlan, ready, deterministic_priority, step_plan_eq, StepPlan-discrete, AttemptKey-discrete,
}
use ratcheting_consequence_i.Core.Records.{
  ArtifactRef, null, EffectRequest, EffectAttemptPlan, AttemptOutcome, returned, success,
  DecodeOutcome, decoded, AttemptState, artifact_eq, ArtifactRef-discrete,
}
use ratcheting_consequence_i.Core.State.{
  InquiryContext, InquiryState, active, initial_state, EffectRequestState, valid_state,
  valid_request_state, valid_attempt, valid_started, valid_requests, valid_plans, valid_obligations,
  request_by_id, step_plan_by_id, obligation_by_id, current_obligation_status, owns_selection,
  matches_obligation, returns_of, return_ids, decoded_by_id, accepted_result_ids, context_eq,
  InquiryContext-discrete,
}
use ratcheting_consequence_i.Core.Messages.{
  Metadata, DomainEvent, DomainEvent-discrete, event_eq, inquiry_started, obligation_opened,
  step_plan_recorded, effect_requested, effect_attempt_planned, effect_attempt_started,
  effect_attempt_outcome_recorded, effect_decode_outcome_recorded, effect_result_accepted,
  accept_effect_result, start_effect_attempt,
}
use ratcheting_consequence_i.Core.Decide.{decide}
use ratcheting_consequence_i.Core.Agreement.{Applicable}
use ratcheting_consequence_i.Core.Agreement.Decisions.{decide-Applicable}
use ratcheting_consequence_i.Core.Repeats.{decide-repeated}
use ratcheting_consequence_i.Core.Evolve.{evolve, replay}
use ratcheting_consequence_i.Core.Invariants.{WellFormed, replay-WellFormed}
use ratcheting_consequence_i.Core.History.{Extends}
use ratcheting_consequence_i.Core.History.Replays.{replay-Extends}
use ratcheting_consequence_i.Core.Links.{AllLinked, replay-AllLinked}
use ratcheting_consequence_i.Core.Replay.{replay-sequence}

abbrev digest : String
digest = "0000000000000000000000000000000000000000000000000000000000000000"

is_digest : is_sha256_digest digest ≡ true
unfolding is_sha256_digest
is_digest = refl

abbrev hashing : Hashing
hashing = record {
  canonical_json = λ _. "{}";
  sha256 = λ _. digest;
  sha256-Digest = λ _. is_digest;
}

abbrev scope_digest : String
scope_digest = digest

abbrev artifact : ArtifactRef
artifact = record { digest = "d"; size = 2; media_type = none; encoding = none }

abbrev context : InquiryContext
context = record {
  binding_revision = "b1";
  carrier_schema_ids = "c" ∷ [];
  relation_schema_ids = "r" ∷ [];
  consequence_profile_id = "profile";
  protected_horizon_id = "horizon";
  admissible_operation_ids = [];
  discharge_mechanism_ids = [];
  scope_id = "scope";
  scope_fingerprint = scope_digest;
  assumption_ids = [];
  guard_condition_id = none;
  guard_ast = none;
  finite_universe_hash = none;
  closed_world = false;
  catalog_manifest_digest = "m";
  scheduler_policy_version = "s1";
  warrant_policy_version = "w1";
  provenance_refs = "p" ∷ [];
}

abbrev at : String → Metadata
at id = record { event_id = id; inquiry_id = "inquiry"; occurred_at = 7 }

abbrev obligation : Obligation
obligation = record {
  id = "o1";
  kind = necessity_counterexample;
  carrier_id = "c";
  args = [];
  scope = record {
    id = "scope";
    binding_revision = "b1";
    assumption_ids = [];
    applicability_guard_id = none;
    finite_universe_hash = none;
    closed_world = false;
  };
  binding_revision = "b1";
  parent_obligation_ids = [];
  priority_vector = pos 0 ∷ [];
  status = open_status;
}

abbrev plan : StepPlan
plan = record {
  id = "step-plan:0000000000000000000000000000000000000000000000000000000000000000";
  input_fingerprint = "i";
  policy_version = "s1";
  status = ready;
  selected_obligation_id = some "o1";
  selected_attempt_key = some (record {
    obligation_fingerprint = digest;
    contract_id = "k";
    contract_version = "1";
    binding_revision = "b1";
  });
  reason = deterministic_priority;
  remaining_budget = 3;
}

abbrev request : EffectRequest
request = record {
  id = "q1";
  step_plan_id = "step-plan:0000000000000000000000000000000000000000000000000000000000000000";
  effect_kind = "probe";
  adapter_id = "a";
  input_artifact = artifact;
  timeout_seconds = 5;
}

abbrev attempt : EffectAttemptPlan
attempt = record {
  id = "t1";
  request_id = "q1";
  route = record {
    id = "route";
    definition_id = "d";
    definition_version = "1";
    definition_artifact = artifact;
    backend_id = "b";
    adapter_id = "a";
    adapter_version = "1";
    endpoint_or_channel = none;
    transport = none;
    execution_environment_artifact = artifact;
    request_or_action_digest = "x";
    transform_evidence = [];
  };
}

abbrev outcome : AttemptOutcome
outcome =
    returned (record { attempt_id = "t1"; route_id = "route" })
      (record {
        id = "x1";
        attempt_id = "t1";
        route_id = "route";
        source_id = none;
        source_revision = none;
        capture_boundary = "stdout";
        capture_encoding = "utf8";
        captured_at = 9;
        raw_payload = null;
      })

abbrev decode : DecodeOutcome
decode = record {
  id = "d1";
  external_return_id = "x1";
  decoder_id = "json";
  decoder_version = "1";
  decoding = decoded (success (record { id = "result"; semantic_artifact = artifact }) "op");
}

abbrev opening : List DomainEvent
opening =
    inquiry_started (at "e1") artifact "p1" context
    ∷ obligation_opened (at "e2") obligation
    ∷ step_plan_recorded (at "e3") plan
    ∷ effect_requested (at "e4") request
    ∷ effect_attempt_planned (at "e5") attempt
    ∷ effect_attempt_started (at "e6") "t1"
    ∷ effect_attempt_outcome_recorded (at "e7") "q1" outcome
    ∷ []

abbrev closing : List DomainEvent
closing =
    effect_decode_outcome_recorded (at "e8") "q1" decode
    ∷ effect_result_accepted (at "e9") "q1" "d1"
    ∷ []

abbrev finished : AttemptState
finished = record {
  plan = attempt;
  started = true;
  started_event_id = some "e6";
  started_at = some 7;
  outcome = some outcome;
}

abbrev answered : EffectRequestState
answered = record {
  request = request;
  attempts = finished ∷ [];
  no_attempt_dispositions = [];
  decode_outcomes = [];
  accepted_decoded_outcome_id = none;
}

abbrev resolved : EffectRequestState
resolved = record answered {
  decode_outcomes = decode ∷ [];
  accepted_decoded_outcome_id = some "d1";
}

abbrev after_opening : InquiryState
after_opening = record {
  status = active;
  inquiry_id = some "inquiry";
  sequence = 7;
  manifest_artifact = some artifact;
  policy_version = some "p1";
  context = some context;
  step_plans = plan ∷ [];
  effect_requests = answered ∷ [];
  obligations = obligation ∷ [];
  obligation_dispositions = [];
}

abbrev after_closing : InquiryState
after_closing = record after_opening { sequence = 9; effect_requests = resolved ∷ [] }

-- What the tests compute with.
program : Unit {0}
unfolding decide evolve replay initial_state valid_state valid_started valid_requests valid_plans
    valid_obligations valid_request_state valid_attempt request_by_id step_plan_by_id
    obligation_by_id current_obligation_status owns_selection matches_obligation returns_of
    return_ids decoded_by_id accepted_result_ids context_eq InquiryContext-discrete event_eq
    DomainEvent-discrete artifact_eq ArtifactRef-discrete scope_fingerprint obligation_fingerprint
    normalized_args obligation_eq Obligation-discrete obligation_status_eq ObligationStatus-discrete
    step_plan_eq StepPlan-discrete AttemptKey-discrete content_fingerprint Json-discrete ℤ-discrete
    string_eq option_eq list_eq nat_eq bool_eq String-discrete find any all keep gather contains
    distinct update_where last? subset sorted string_ord
program = tt

opened : replay hashing opening initial_state ≡ ok after_opening
unfolding program
opened = refl

closed : replay hashing closing after_opening ≡ ok after_closing
unfolding program
closed = refl

initial-WellFormed : WellFormed hashing initial_state
unfolding program
initial-WellFormed = record { lifecycle = refl; requests = λ r m. absurd m }

after_opening-WellFormed : WellFormed hashing after_opening
after_opening-WellFormed = replay-WellFormed hashing opening initial_state initial-WellFormed opened

initial-AllLinked : AllLinked initial_state
unfolding initial_state
initial-AllLinked r m = absurd m

after_opening-AllLinked : AllLinked after_opening
after_opening-AllLinked =
    replay-AllLinked hashing opening initial_state initial-WellFormed initial-AllLinked opened

replay-AllLinked_example : AllLinked after_closing
replay-AllLinked_example =
    replay-AllLinked hashing closing after_opening after_opening-WellFormed after_opening-AllLinked
      closed

replay-Extends_example :
    (s : EffectRequestState) × In s after_closing.effect_requests × Extends answered s
replay-Extends_example =
    replay-Extends hashing closing after_opening after_opening-WellFormed closed answered (inl refl)

replay-sequence_example : 7 ≡ 0 + length opening
unfolding initial_state
replay-sequence_example = replay-sequence hashing opening initial_state initial-WellFormed opened

-- A second request whose decoded result has the id of the accepted one.
abbrev second : EffectRequestState
second = record {
  request = record request { id = "q2" };
  attempts =
      record finished {
        plan = record attempt { id = "t2"; request_id = "q2" };
        outcome = some (
            returned (record { attempt_id = "t2"; route_id = "route" })
              (record {
                id = "x2";
                attempt_id = "t2";
                route_id = "route";
                source_id = none;
                source_revision = none;
                capture_boundary = "stdout";
                capture_encoding = "utf8";
                captured_at = 9;
                raw_payload = null;
              }));
      }
      ∷ [];
  no_attempt_dispositions = [];
  decode_outcomes = record decode { id = "d2"; external_return_id = "x2" } ∷ [];
  accepted_decoded_outcome_id = none;
}

abbrev two_requests : InquiryState
two_requests = record after_closing { effect_requests = resolved ∷ second ∷ [] }

two_requests_valid : valid_state hashing two_requests ≡ true
unfolding program
two_requests_valid = refl

second_valid : valid_request_state second ≡ true
unfolding program
second_valid = refl

-- `decide` accepts the command, and `evolve` cannot apply the event it gives.
reused_result_decided :
    decide hashing two_requests (accept_effect_result (at "e10") "q2" "d2")
    ≡ ok (effect_result_accepted (at "e10") "q2" "d2" ∷ [])
unfolding program
reused_result_decided = refl

reused_result_refused :
    evolve hashing two_requests (effect_result_accepted (at "e10") "q2" "d2") ≡ raise value_error
unfolding program
reused_result_refused = refl

-- The start of the attempt, decided before it happened.
abbrev before_start : InquiryState
before_start = record after_opening {
  sequence = 5;
  effect_requests =
      record answered {
        attempts =
            record finished {
              started = false;
              started_event_id = none;
              started_at = none;
              outcome = none;
            }
            ∷ [];
      }
      ∷ [];
}

start_decided :
    decide hashing before_start (start_effect_attempt (at "e6") "t1")
    ≡ ok (effect_attempt_started (at "e6") "t1" ∷ [])
unfolding program
start_decided = refl

abbrev no_events : List DomainEvent
no_events = []

decide-Applicable_example :
    ([] ≡ no_events)
    × Applicable (evolve hashing before_start (effect_attempt_started (at "e6") "t1"))
decide-Applicable_example =
    decide-Applicable hashing before_start (start_effect_attempt (at "e6") "t1")
      (effect_attempt_started (at "e6") "t1") [] start_decided

abbrev after_start : InquiryState
after_start = record before_start {
  sequence = 6;
  effect_requests = record answered { attempts = record finished { outcome = none } ∷ [] } ∷ [];
}

start_applied : evolve hashing before_start (effect_attempt_started (at "e6") "t1") ≡ ok after_start
unfolding program
start_applied = refl

decide-repeated_example :
    decide hashing after_start (start_effect_attempt (at "e6") "t1") ≡ ok no_events
decide-repeated_example =
    decide-repeated hashing before_start after_start (start_effect_attempt (at "e6") "t1")
      (effect_attempt_started (at "e6") "t1") [] start_decided start_applied
