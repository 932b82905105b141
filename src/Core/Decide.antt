-- ===== src/Core/Decide.antt =====
-- src/rci/core/transitions.py, `decide`: what a command means in a state, one function per command.
use ratcheting_consequence_i.Base.{
  String, Bool, false, ◌&&◌, Option, none, some, List, [], ◌∷◌, map, Eq, ◌==◌, string_eq, option_eq,
  is_some, any, subset, list_eq, bool_eq, find, gather, contains, Result, ok, raise, ◌>>=◌, ◌>>◌,
  require, refuse, Error, invalid_command, identity_conflict, effect_lifecycle, runtime_error,
  if◌then◌else◌,
}
use ratcheting_consequence_i.Canonical.{Hashing}
use ratcheting_consequence_i.Claims.{
  Obligation, Scope, open_status, scope_fingerprint, obligation_fingerprint, obligation_eq,
  obligation_status_eq,
}
use ratcheting_consequence_i.Planning.{StepPlan, is_ready, step_plan_eq}
use ratcheting_consequence_i.Core.Records.{
  ArtifactRef, EffectRequest, EffectAttemptPlan, NoAttemptDisposition, AttemptOutcome, AttemptState,
  DecodeOutcome, ExternalReturn, returned, link_of, artifact_eq, effect_request_eq, attempt_plan_eq,
  no_attempt_eq, outcome_eq, decode_eq,
}
use ratcheting_consequence_i.Core.State.{
  InquiryState, InquiryStatus, not_started, active, is_active, InquiryContext, context_eq,
  EffectRequestState, request_by_id, step_plan_by_id, obligation_by_id, current_obligation_status,
  or_empty, matches_obligation, owns_selection, policy_matches, returns_of, return_ids,
  decoded_by_id,
}
use ratcheting_consequence_i.Core.Messages.{
  Metadata, DomainCommand, DomainEvent, event_eq, start_inquiry, open_obligation, record_step_plan,
  request_effect, plan_effect_attempt, start_effect_attempt, record_no_attempt_disposition,
  record_attempt_outcome, record_decode_outcome, accept_effect_result, inquiry_started,
  obligation_opened, step_plan_recorded, effect_requested, effect_attempt_planned,
  effect_attempt_started, effect_no_attempt_disposition_recorded, effect_attempt_outcome_recorded,
  effect_decode_outcome_recorded, effect_result_accepted,
}

abbrev pub Events : Type 0
Events = List DomainEvent

-- `if existing is not None: if existing == new: return (); raise error`, before what follows.
abbrev pub unless_recorded {ℓ} :
    {A : Type ℓ} → ⦃e : Eq A⦄ → Option A → A → Error → Result Events → Result Events
unless_recorded none new e next = next
unless_recorded (some old) new e next = if old == new then ok [] else raise e

-- `if value is None: raise error`
abbrev pub demand {ℓ} : {A : Type ℓ} → Option A → Error → Result A
demand none e = raise e
demand (some a) e = ok a

unfoldable pub require_active : InquiryState → String → Result (Unit {0})
require_active st id =
    require (is_active st.status) invalid_command
    >> require (st.inquiry_id == some id) invalid_command

-- `_require_request`
unfoldable pub require_request : InquiryState → String → Result EffectRequestState
require_request st id = demand (request_by_id st id) invalid_command

unfoldable pub decide_start :
    InquiryState → Metadata → ArtifactRef → String → InquiryContext → Result Events
decide_start st m manifest policy context = by_status st.status
  where
    by_status : InquiryStatus → Result Events
    by_status not_started = ok (inquiry_started m manifest policy context ∷ [])
    by_status active =
        if (st.inquiry_id == some m.inquiry_id)
          && (st.manifest_artifact == some manifest)
          && (st.policy_version == some policy)
          && (st.context == some context)
        then ok []
        else raise identity_conflict

unfoldable pub all_attempts : InquiryState → List AttemptState
unfolding gather
all_attempts st = gather (λ (r : EffectRequestState). r.attempts) st.effect_requests

unfoldable pub all_dispositions : InquiryState → List NoAttemptDisposition
unfolding gather
all_dispositions st =
    gather (λ (r : EffectRequestState). r.no_attempt_dispositions) st.effect_requests

unfoldable pub all_decodes : InquiryState → List DecodeOutcome
unfolding gather
all_decodes st = gather (λ (r : EffectRequestState). r.decode_outcomes) st.effect_requests

abbrev pub existing_request : Option EffectRequestState → Option EffectRequest
existing_request none = none
existing_request (some r) = some r.request

module _ (h : Hashing) where
  -- `_scope_matches_context`
  unfoldable pub scope_matches_context : InquiryState → Scope → Bool
  scope_matches_context st s = matches st.context
    where
      matches : Option InquiryContext → Bool
      matches none = false
      matches (some c) =
          (s.id == c.scope_id)
          && (scope_fingerprint h s == c.scope_fingerprint)
          && (s.binding_revision == c.binding_revision)
          && (s.assumption_ids == c.assumption_ids)
          && (s.applicability_guard_id == c.guard_condition_id)
          && (s.finite_universe_hash == c.finite_universe_hash)
          && (s.closed_world == c.closed_world)

  -- The recorded obligations have the fingerprint.
  unfoldable pub known_fingerprint : InquiryState → Obligation → Bool
  unfolding any
  known_fingerprint st o =
      any (λ (x : Obligation). obligation_fingerprint h x == obligation_fingerprint h o)
        st.obligations

  unfoldable pub decide_open_obligation : InquiryState → Metadata → Obligation → Result Events
  unfolding scope_matches_context known_fingerprint
  decide_open_obligation st m o = unless_recorded (obligation_by_id st o.id) o identity_conflict (
      if known_fingerprint st o
      then ok []
      else (require (o.status == open_status) invalid_command
          >> require (scope_matches_context st o.scope) invalid_command
          >> require
              (subset o.parent_obligation_ids (map (λ (x : Obligation). x.id) st.obligations))
              invalid_command
          >> ok (obligation_opened m o ∷ [])))

  -- The checks of a ready plan: it selects an obligation of the inquiry, open, with its own attempt key.
  unfoldable pub check_selection : InquiryState → StepPlan → Result (Unit {0})
  check_selection st p =
      demand (obligation_by_id st (or_empty p.selected_obligation_id)) invalid_command >>= λ o.
      demand p.selected_attempt_key invalid_command >>= λ k.
      require (current_obligation_status st o.id == some open_status) invalid_command
      >> require (matches_obligation h k o) invalid_command

  unfoldable pub decide_step_plan : InquiryState → Metadata → StepPlan → Result Events
  unfolding check_selection
  decide_step_plan st m p = unless_recorded (step_plan_by_id st p.id) p identity_conflict (
      require (policy_matches st.context p) invalid_command
      >> (if is_ready p.status then check_selection st p else ok tt)
      >> ok (step_plan_recorded m p ∷ []))

  unfoldable pub decide_request : InquiryState → Metadata → EffectRequest → Result Events
  decide_request st m r =
      unless_recorded (existing_request (request_by_id st r.id)) r identity_conflict (
        demand (step_plan_by_id st r.step_plan_id) effect_lifecycle >>= λ p.
        require (is_ready p.status) effect_lifecycle
        >> require (owns_selection h st p) effect_lifecycle
        >> ok (effect_requested m r ∷ []))

abbrev pub existing_plan : Option AttemptState → Option EffectAttemptPlan
existing_plan none = none
existing_plan (some a) = some a.plan

unfoldable pub decide_plan_attempt : InquiryState → Metadata → EffectAttemptPlan → Result Events
unfolding require_request all_attempts find
decide_plan_attempt st m p = require_request st p.request_id >>= λ r.
    unless_recorded
      (existing_plan (find (λ (a : AttemptState). a.plan.id == p.id) (all_attempts st))) p
      identity_conflict
      (refuse (is_some r.accepted_decoded_outcome_id) effect_lifecycle
        >> ok (effect_attempt_planned m p ∷ []))

-- The first request that holds the attempt.
unfoldable pub containing_request : InquiryState → String → Option EffectRequestState
unfolding find any
containing_request st id =
    find (λ (r : EffectRequestState). any (λ (a : AttemptState). a.plan.id == id) r.attempts)
      st.effect_requests

-- `next(...)` without a default raises StopIteration, a runtime error, when nothing is found.
unfoldable pub attempt_of : EffectRequestState → String → Option AttemptState
unfolding find
attempt_of r id = find (λ (a : AttemptState). a.plan.id == id) r.attempts

unfoldable pub decide_start_attempt : InquiryState → Metadata → String → Result Events
unfolding containing_request attempt_of
decide_start_attempt st m id = demand (containing_request st id) effect_lifecycle >>= λ r.
    demand (attempt_of r id) runtime_error >>= λ a.
    if a.started
    then ok []
    else (refuse (is_some r.accepted_decoded_outcome_id) effect_lifecycle
        >> refuse (is_some a.outcome) effect_lifecycle
        >> ok (effect_attempt_started m id ∷ []))

unfoldable pub decide_no_attempt : InquiryState → Metadata → NoAttemptDisposition → Result Events
unfolding require_request all_dispositions find
decide_no_attempt st m d = require_request st d.request_id >>= λ r.
    require (d.step_plan_id == r.request.step_plan_id) effect_lifecycle
    >> unless_recorded (find (λ (x : NoAttemptDisposition). x.id == d.id) (all_dispositions st)) d
        identity_conflict
        (refuse (is_some r.accepted_decoded_outcome_id) effect_lifecycle
          >> ok (effect_no_attempt_disposition_recorded m d ∷ []))

-- A return whose id an attempt of the inquiry has captured already.
unfoldable pub duplicate_return : InquiryState → AttemptOutcome → Bool
unfolding any returns_of all_attempts
duplicate_return st (returned l x) =
    any (λ (y : ExternalReturn). y.id == x.id) (returns_of (all_attempts st))
duplicate_return st _ = false

unfoldable pub decide_outcome : InquiryState → Metadata → String → AttemptOutcome → Result Events
unfolding require_request attempt_of duplicate_return
decide_outcome st m id o = require_request st id >>= λ r.
    demand (attempt_of r (link_of o).attempt_id) effect_lifecycle >>= λ a.
    require a.started effect_lifecycle
    >> require (a.plan.route.id == (link_of o).route_id) effect_lifecycle
    >> unless_recorded a.outcome o effect_lifecycle (
        refuse (duplicate_return st o) identity_conflict
        >> ok (effect_attempt_outcome_recorded m id o ∷ []))

unfoldable pub decide_decode : InquiryState → Metadata → String → DecodeOutcome → Result Events
unfolding require_request all_decodes find return_ids
decide_decode st m id d = require_request st id >>= λ r.
    unless_recorded (find (λ (x : DecodeOutcome). x.id == d.id) (all_decodes st)) d
      identity_conflict
      (require (contains (return_ids r) d.external_return_id) effect_lifecycle
        >> ok (effect_decode_outcome_recorded m id d ∷ []))

unfoldable pub decide_accept : InquiryState → Metadata → String → String → Result Events
unfolding require_request decoded_by_id
decide_accept st m id decode = require_request st id >>= λ r.
    unless_recorded r.accepted_decoded_outcome_id decode effect_lifecycle (
      require (is_some (decoded_by_id r.decode_outcomes decode)) effect_lifecycle
      >> ok (effect_result_accepted m id decode ∷ []))

module _ (h : Hashing) where
  unfoldable pub decide : InquiryState → DomainCommand → Result Events
  unfolding require_active decide_start decide_open_obligation decide_step_plan decide_request
      decide_plan_attempt decide_start_attempt decide_no_attempt decide_outcome decide_decode
      decide_accept
  decide st (start_inquiry m manifest policy context) = decide_start st m manifest policy context
  decide st (open_obligation m o) =
      require_active st m.inquiry_id >> decide_open_obligation h st m o
  decide st (record_step_plan m p) = require_active st m.inquiry_id >> decide_step_plan h st m p
  decide st (request_effect m r) = require_active st m.inquiry_id >> decide_request h st m r
  decide st (plan_effect_attempt m p) = require_active st m.inquiry_id >> decide_plan_attempt st m p
  decide st (start_effect_attempt m id) =
      require_active st m.inquiry_id >> decide_start_attempt st m id
  decide st (record_no_attempt_disposition m d) =
      require_active st m.inquiry_id >> decide_no_attempt st m d
  decide st (record_attempt_outcome m id o) =
      require_active st m.inquiry_id >> decide_outcome st m id o
  decide st (record_decode_outcome m id d) =
      require_active st m.inquiry_id >> decide_decode st m id d
  decide st (accept_effect_result m id decode) =
      require_active st m.inquiry_id >> decide_accept st m id decode
