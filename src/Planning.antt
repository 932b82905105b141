-- ===== src/Planning.antt =====
-- src/rci/core/planning.py: attempt keys, and step plans whose identity is a hash of their content.
pub mod Build
use ratcheting_consequence_i.Base.{
  ℕ, String, ◌≡◌, Bool, true, false, not, ◌&&◌, ◌||◌, Option, none, some, Eq, ◌==◌, Result, ok,
  raise, value_error, is_some, is_none, String-discrete, ℕ_discrete, string_eq, bool_eq,
  if◌then◌else◌,
}
use ratcheting_consequence_i.Canonical.{
  Json, null, str, object, no_members, member, Hashing, content_fingerprint, optional, nat_json,
}
use ratcheting_consequence_i.Base.Texts.{is_sha256_digest}
use Prim.Native.String

pub data PlanStatus : Type 0 where
  ready satisfied unknown : PlanStatus

abbrev pub plan_status_value : PlanStatus → String
plan_status_value ready = "ready"
plan_status_value satisfied = "satisfied"
plan_status_value unknown = "unknown_under_present_binding"

pub data PlanReason : Type 0 where
  step_budget_exhausted insufficient_event_budget no_open_obligation : PlanReason
  unresolved_nonopen_obligation dependencies_or_attempts_exhausted : PlanReason
  deterministic_priority : PlanReason

abbrev pub plan_reason_value : PlanReason → String
plan_reason_value step_budget_exhausted = "step_budget_exhausted"
plan_reason_value insufficient_event_budget = "insufficient_event_budget"
plan_reason_value no_open_obligation = "no_open_obligation"
plan_reason_value unresolved_nonopen_obligation = "unresolved_nonopen_obligation"
plan_reason_value dependencies_or_attempts_exhausted = "dependencies_or_attempt_budget_exhausted"
plan_reason_value deterministic_priority = "deterministic_priority_order"

pub record AttemptKey : Type 0 where
  pub obligation_fingerprint : String
  pub contract_id : String
  pub contract_version : String
  pub binding_revision : String

unfoldable pub valid_attempt_key : AttemptKey → Bool
valid_attempt_key k =
    is_sha256_digest k.obligation_fingerprint
    && not (k.contract_id == "")
    && not (k.contract_version == "")
    && not (k.binding_revision == "")

abbrev pub attempt_key_json : AttemptKey → Json
attempt_key_json k = object (
    member "obligation_fingerprint" (str k.obligation_fingerprint) (
      member "contract_id" (str k.contract_id) (
        member "contract_version" (str k.contract_version)
          (member "binding_revision" (str k.binding_revision) no_members))))

abbrev optional_key : Option AttemptKey → Json
optional_key none = null
optional_key (some k) = attempt_key_json k

pub record StepPlan : Type 0 where
  pub id : String
  pub input_fingerprint : String
  pub policy_version : String
  pub status : PlanStatus
  pub selected_obligation_id : Option String
  pub selected_attempt_key : Option AttemptKey
  pub reason : PlanReason
  pub remaining_budget : ℕ

abbrev pub is_ready : PlanStatus → Bool
is_ready ready = true
is_ready _ = false

module _ (h : Hashing) where
  -- `_step_plan_id`: the identity covers every other field.
  unfoldable pub step_plan_id : StepPlan → String
  step_plan_id p = String.◌++◌ "step-plan:" (
      content_fingerprint h "rci.step-plan.v1" (
        object (
          member "input_fingerprint" (str p.input_fingerprint) (
            member "policy_version" (str p.policy_version) (
              member "status" (str (plan_status_value p.status)) (
                member "selected_obligation_id" (optional p.selected_obligation_id) (
                  member "selected_attempt_key" (optional_key p.selected_attempt_key) (
                    member "reason" (str (plan_reason_value p.reason))
                      (member "remaining_budget" (nat_json p.remaining_budget) no_members)))))))))

  -- The digest of the input, and `StepPlan.validate_selection`
  unfoldable pub valid_step_plan : StepPlan → Bool
  valid_step_plan p =
      (is_ready p.status == (is_some p.selected_obligation_id && is_some p.selected_attempt_key))
      && (is_none p.selected_obligation_id == is_none p.selected_attempt_key)
      && not (p.policy_version == "")
      && (p.id == step_plan_id p)
      && is_sha256_digest p.input_fingerprint

  -- The keyword arguments of `StepPlan(...)`, with the id computed from the others.
  unfoldable pub identified :
      String → String → PlanStatus → Option String → Option AttemptKey → PlanReason → ℕ → StepPlan
  identified input_fingerprint policy_version status obligation_id attempt_key reason remaining =
      let content : StepPlan = record {
        id = "";
        input_fingerprint = input_fingerprint;
        policy_version = policy_version;
        status = status;
        selected_obligation_id = obligation_id;
        selected_attempt_key = attempt_key;
        reason = reason;
        remaining_budget = remaining;
      } in
      record content { id = step_plan_id content }

  -- `build_step_plan`: the model is validated as it is constructed.
  unfoldable pub build_step_plan :
      String
      → String
      → PlanStatus
      → Option String
      → Option AttemptKey
      → PlanReason
      → ℕ
      → Result StepPlan
  unfolding identified
  build_step_plan input_fingerprint policy_version status obligation_id attempt_key reason
        remaining =
      let plan =
        identified input_fingerprint policy_version status obligation_id attempt_key reason
          remaining in
      if valid_step_plan plan then ok plan else raise value_error

unfoldable pub AttemptKey-discrete : Discrete AttemptKey
unfolding String-discrete
AttemptKey-discrete = hlevel String-discrete

instance unfoldable pub attempt_key_eq : Eq AttemptKey
unfolding AttemptKey-discrete
attempt_key_eq = record { dec = AttemptKey-discrete }

unfoldable pub StepPlan-discrete : Discrete StepPlan
unfolding String-discrete AttemptKey-discrete ℕ_discrete
StepPlan-discrete = hlevel (String-discrete, AttemptKey-discrete, ℕ_discrete)

instance unfoldable pub step_plan_eq : Eq StepPlan
unfolding StepPlan-discrete
step_plan_eq = record { dec = StepPlan-discrete }
