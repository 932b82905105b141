-- ===== src/Scheduler.antt =====
-- src/rci/orchestration/scheduler.py: deterministic bounded obligation scheduling.
pub mod Dedupe
pub mod Selection
pub mod Outcomes
pub mod Plans
mod Tests
use ratcheting_consequence_i.Base.{
  ℕ, ℤ, pos, negsuc, neg, ◌-◌, nat_eq, String, ◌≡◌, Bool, true, false, not, ◌&&◌, ◌||◌, Option,
  none, some, List, [], ◌∷◌, map, Eq, ◌==◌, Result, ok, raise, value_error, ◌>>=◌, ◌>>◌, refuse,
  any, all, keep, subset, is_empty, ltb, if◌then◌else◌, string_eq,
}
use ratcheting_consequence_i.Base.Keyed.{lookup, set_default}
use ratcheting_consequence_i.Base.Order.{Ord, nat_ord, int_ord, string_ord, pair_ord, list_ord}
use ratcheting_consequence_i.Base.Sort.{sorted, min_of}
use ratcheting_consequence_i.Canonical.{
  Json, Items, int, str, array, object, no_items, item, no_members, member, Hashing,
  content_fingerprint, nat_json, strings,
}
use ratcheting_consequence_i.Claims.{
  Obligation, ObligationKind, localize_conflict, discharge_open_dependency, ObligationStatus,
  open_status, obligation_status_eq, obligation_json, obligation_fingerprint,
}
use ratcheting_consequence_i.Claims
use ratcheting_consequence_i.Planning.{
  AttemptKey, attempt_key_eq, attempt_key_json, PlanStatus, PlanReason, StepPlan, build_step_plan,
  ready, unknown, step_budget_exhausted, insufficient_event_budget, no_open_obligation,
  unresolved_nonopen_obligation, dependencies_or_attempts_exhausted, deterministic_priority,
}
use ratcheting_consequence_i.Planning

-- `creation_sequence` and `dependency_depth` are `int`s that the validator keeps nonnegative.
pub record ObligationEntry : Type 0 where
  pub obligation : Obligation
  pub attempt_key : AttemptKey
  pub creation_sequence : ℕ
  pub dependency_depth : ℕ

abbrev pub is_safety_kind : ObligationKind → Bool
is_safety_kind localize_conflict = true
is_safety_kind discharge_open_dependency = true
is_safety_kind _ = false

abbrev pub is_open : ObligationStatus → Bool
is_open open_status = true
is_open _ = false

abbrev pub is_satisfied : ObligationStatus → Bool
is_satisfied Claims.satisfied = true
is_satisfied _ = false

-- The order of first occurrence: by creation, then by identity.
abbrev pub creation_key : ObligationEntry → ℕ × String
creation_key e = (e.creation_sequence, e.obligation.id)

abbrev pub PriorityKey : Type 0
PriorityKey = ℕ × (List ℤ × (ℕ × (ℕ × String)))

unfoldable pub priority_key : ObligationEntry → PriorityKey
priority_key e = (
  (if is_safety_kind e.obligation.kind then 0 else 1),
  (
    map neg e.obligation.priority_vector,
    (e.dependency_depth, (e.creation_sequence, e.obligation.id)),
  ),
)

-- `counts.get(key, 0)`
abbrev pub count_of : AttemptKey → List (AttemptKey × ℕ) → ℕ
count_of key counts = elim (lookup key counts) [ some n ↦ n | none ↦ 0 ]

-- `set(parents) <= completed and counts.get(...) < max_attempts_per_key`
unfoldable pub is_eligible : List String → List (AttemptKey × ℕ) → ℕ → ObligationEntry → Bool
is_eligible completed counts max_attempts e =
    subset e.obligation.parent_obligation_ids completed
    && ltb (count_of e.attempt_key counts) max_attempts

-- The arguments that the guards read as plain `int`s.
pub record Limits : Type 0 where
  pub steps_used : ℤ
  pub step_budget : ℤ
  pub ready_event_cost : ℤ
  pub max_attempts_per_key : ℤ

abbrev pub default_limits : Limits
default_limits = record {
  steps_used = pos 0;
  step_budget = pos 100;
  ready_event_cost = pos 1;
  max_attempts_per_key = pos 3;
}

-- An `int` argument that must be at least a lower bound of 0 or 1.
abbrev pub at_least : ℕ → ℤ → Result ℕ
at_least low (pos n) = if ltb n low then raise value_error else ok n
at_least low (negsuc n) = raise value_error

abbrev pub nonnegative_counts : List (AttemptKey × ℤ) → Result (List (AttemptKey × ℕ))
nonnegative_counts [] = ok []
nonnegative_counts ((key, count) ∷ counts) = do
  n ← at_least 0 count
  rest ← nonnegative_counts counts
  ok ((key, n) ∷ rest)

abbrev entry_json : ObligationEntry → Json
entry_json e = object (
    member "obligation" (obligation_json e.obligation) (
      member "attempt_key" (attempt_key_json e.attempt_key) (
        member "creation_sequence" (nat_json e.creation_sequence)
          (member "dependency_depth" (nat_json e.dependency_depth) no_members))))

abbrev entry_items : List ObligationEntry → Items
entry_items [] = no_items
entry_items (e ∷ rest) = item (entry_json e) (entry_items rest)

abbrev count_items : List (AttemptKey × ℕ) → Items
count_items [] = no_items
count_items ((key, n) ∷ rest) =
    item
      (object
        (member "attempt_key" (attempt_key_json key) (member "count" (nat_json n) no_members)))
      (count_items rest)

abbrev KeyOrder : Type 0
KeyOrder = String × (String × (String × String))

abbrev key_order : AttemptKey × ℕ → KeyOrder
key_order (k, n) =
    (k.obligation_fingerprint, (k.contract_id, (k.contract_version, k.binding_revision)))

-- The checked arguments of `plan_next`.
pub record Bounds : Type 0 where
  pub used : ℕ
  pub budget : ℕ
  pub event_cost : ℕ
  pub max_attempts : ℕ

abbrev pub remaining_of : Bounds → ℕ
remaining_of b = b.budget - b.used

unfoldable pub check_limits : Limits → Result Bounds
check_limits l = do
  used ← at_least 0 l.steps_used
  budget ← at_least 1 l.step_budget
  event_cost ← at_least 1 l.ready_event_cost
  max_attempts ← at_least 1 l.max_attempts_per_key
  ok (record { used = used; budget = budget; event_cost = event_cost; max_attempts = max_attempts })

module _ (h : Hashing) where
  -- `ObligationEntry.validate_order_fields`, with the signs carried by the types.
  unfoldable pub valid_entry : ObligationEntry → Bool
  valid_entry e =
      (e.attempt_key.obligation_fingerprint == obligation_fingerprint h e.obligation)
      && (e.attempt_key.binding_revision == e.obligation.binding_revision)

  -- The loop of `setdefault`s, over what is kept so far.
  unfoldable pub keep_first :
      List (String × ObligationEntry) → List ObligationEntry → List (String × ObligationEntry)
  keep_first kept [] = kept
  keep_first kept (e ∷ rest) =
      keep_first (set_default (obligation_fingerprint h e.obligation) e kept) rest

  unfoldable pub deduplicate_obligations : List ObligationEntry → List ObligationEntry
  unfolding keep_first
  deduplicate_obligations entries =
      map (λ (k : String × ObligationEntry). k.1) (keep_first [] (sorted creation_key entries))

  unfoldable pub scheduler_input :
      List ObligationEntry → List String → List (AttemptKey × ℕ) → Bounds → String → String
  scheduler_input entries completed counts b policy_version =
      content_fingerprint h "rci.scheduler-input.v1" (
        object (
          member "entries" (array (entry_items (sorted creation_key entries))) (
            member "completed_obligation_ids"
              (array (strings (sorted (λ (s : String). s) completed)))
              (member "attempt_counts"
                (array (count_items (sorted {K = KeyOrder} key_order counts)))
                (member "steps_used" (nat_json b.used) (
                  member "step_budget" (nat_json b.budget) (
                    member "ready_event_cost" (nat_json b.event_cost) (
                      member "max_attempts_per_key" (nat_json b.max_attempts)
                        (member "policy_version" (str policy_version) no_members)))))))))

  open_entries : List ObligationEntry → List ObligationEntry
  open_entries = keep (λ e. is_open e.obligation.status)

  -- The ready entries, of those that are open after deduplication.
  unfoldable pub ready_entries :
      List ObligationEntry → List String → List (AttemptKey × ℕ) → Bounds → List ObligationEntry
  unfolding open_entries
  ready_entries entries completed counts b =
      keep (is_eligible completed counts b.max_attempts)
        (open_entries (deduplicate_obligations entries))

  -- What `plan_next` decides, before the plan is built: the last `if`s, over the ready entries.
  unfoldable pub choose : String → String → Bounds → List ObligationEntry → Result StepPlan
  choose input policy b [] =
      build_step_plan h input policy unknown none none dependencies_or_attempts_exhausted
        (remaining_of b)
  choose input policy b (first ∷ others) =
      let selected = min_of {K = PriorityKey} priority_key first others in
      if ltb (remaining_of b) b.event_cost
      then build_step_plan h input policy unknown none none insufficient_event_budget
          (remaining_of b)
      else build_step_plan h input policy ready (some selected.obligation.id)
          (some selected.attempt_key) deterministic_priority (remaining_of b - b.event_cost)

  unfoldable pub settle : String → String → Bounds → List ObligationEntry → Result StepPlan
  settle input policy b deduplicated =
      if any (λ e. not (is_satisfied e.obligation.status)) deduplicated
      then build_step_plan h input policy unknown none none unresolved_nonopen_obligation
          (remaining_of b)
      else build_step_plan h input policy Planning.satisfied none none no_open_obligation
          (remaining_of b)

  unfoldable pub plan_checked :
      List ObligationEntry → List String → List (AttemptKey × ℕ) → Bounds → String → Result StepPlan
  unfolding choose settle open_entries
  plan_checked entries completed counts b policy =
      let input = scheduler_input entries completed counts b policy in
      if remaining_of b == 0
      then build_step_plan h input policy unknown none none step_budget_exhausted 0
      else if is_empty (open_entries (deduplicate_obligations entries))
      then settle input policy b (deduplicate_obligations entries)
      else choose input policy b (ready_entries entries completed counts b)

  unfoldable pub plan_next :
      List ObligationEntry → List String → List (AttemptKey × ℤ) → Limits → String → Result StepPlan
  unfolding check_limits plan_checked
  plan_next entries completed attempt_counts limits policy = do
    b ← check_limits limits
    refuse (policy == "") value_error
    counts ← nonnegative_counts attempt_counts
    plan_checked entries completed counts b policy
