-- ===== src/Scheduler/Tests.antt =====
-- The scheduler on two entries, which are one obligation asked twice.
use ratcheting_consequence_i.Base.Texts.{is_sha256_digest}
use ratcheting_consequence_i.Base.{
  ℕ, pos, String, ◌≡◌, refl, true, false, none, some, List, [], ◌∷◌, inl, ok, distinct, any, all,
  keep, subset, contains, string_eq, nat_eq, bool_eq, arith,
}
use ratcheting_consequence_i.Base.Keyed.{lookup, put, set_default}
use ratcheting_consequence_i.Base.Order.{nat_ord, int_ord, string_ord, pair_ord, list_ord}
use ratcheting_consequence_i.Base.Sort.{sorted, min_of}
use ratcheting_consequence_i.Canonical.{Hashing, content_fingerprint}
use ratcheting_consequence_i.Claims.{
  Obligation, ObligationKind, necessity_counterexample, open_status, obligation_fingerprint,
  scope_fingerprint, normalized_args,
}
use ratcheting_consequence_i.Planning.{
  AttemptKey, StepPlan, ready, deterministic_priority, build_step_plan, identified, step_plan_id,
  valid_step_plan, attempt_key_eq,
}
use ratcheting_consequence_i.Planning.Build.{build_step_plan_returns}
use ratcheting_consequence_i.Scheduler.{
  ObligationEntry, Bounds, default_limits, deduplicate_obligations, keep_first, priority_key,
  plan_next, plan_checked, check_limits, ready_entries, is_eligible, choose, scheduler_input,
}
use ratcheting_consequence_i.Scheduler.Dedupe.{
  IsDeduplication, deduplicate_obligations-IsDeduplication,
}
use ratcheting_consequence_i.Scheduler.Selection.{Candidate, Settled}
use ratcheting_consequence_i.Scheduler.Plans.{Accepted, plan_next-Lawful, plan_next_ready}

-- A hash of one value, since the texts of all the tests' values are taken to be equal.
abbrev digest : String
digest = "0000000000000000000000000000000000000000000000000000000000000000"

is_digest : is_sha256_digest digest ≡ true
unfolding is_sha256_digest
is_digest = refl

abbrev hashing : Hashing
hashing = record {
  canonical_json = λ _. "{}";
  sha256 = λ _. digest;
  sha256-Digest = λ _. is_digest;
}

abbrev asked : String → ObligationKind → Obligation
asked id kind = record {
  id = id;
  kind = kind;
  carrier_id = "c";
  args = [];
  scope = record {
    id = "scope";
    binding_revision = "b1";
    assumption_ids = [];
    applicability_guard_id = none;
    finite_universe_hash = none;
    closed_world = false;
  };
  binding_revision = "b1";
  parent_obligation_ids = [];
  priority_vector = pos 0 ∷ [];
  status = open_status;
}

abbrev key : AttemptKey
key = record {
  obligation_fingerprint = digest;
  contract_id = "k";
  contract_version = "1";
  binding_revision = "b1";
}

abbrev entry : String → ObligationKind → ℕ → ObligationEntry
entry id kind created = record {
  obligation = asked id kind;
  attempt_key = key;
  creation_sequence = created;
  dependency_depth = 0;
}

abbrev early : ObligationEntry
early = entry "o1" necessity_counterexample 1

abbrev entries : List ObligationEntry
entries = entry "o2" necessity_counterexample 4 ∷ early ∷ []

abbrev bounds : Bounds
bounds = record { used = 0; budget = 100; event_cost = 1; max_attempts = 3 }

-- What the tests compute with.
program : Unit {0}
unfolding is_sha256_digest deduplicate_obligations keep_first plan_next plan_checked check_limits
    ready_entries is_eligible choose scheduler_input priority_key build_step_plan identified
    step_plan_id valid_step_plan sorted min_of lookup put set_default nat_ord int_ord string_ord
    pair_ord list_ord content_fingerprint obligation_fingerprint scope_fingerprint normalized_args
    attempt_key_eq distinct any all keep subset contains string_eq nat_eq bool_eq
program = tt

deduplicated : deduplicate_obligations hashing entries ≡ early ∷ []
unfolding program
deduplicated = refl

deduplicate_obligations-IsDeduplication_example :
    IsDeduplication hashing entries (deduplicate_obligations hashing entries)
deduplicate_obligations-IsDeduplication_example =
    deduplicate_obligations-IsDeduplication hashing entries

abbrev plan : StepPlan
plan = record {
  id = "step-plan:0000000000000000000000000000000000000000000000000000000000000000";
  input_fingerprint = digest;
  policy_version = "s1";
  status = ready;
  selected_obligation_id = some "o1";
  selected_attempt_key = some key;
  reason = deterministic_priority;
  remaining_budget = 99;
}

planned : plan_next hashing entries [] [] default_limits "s1" ≡ ok plan
unfolding program
planned = refl

accepted : Accepted hashing entries [] [] default_limits "s1" bounds []
unfolding program
accepted = record { limits_hold = refl; counts_hold = refl; policy_named = refl }

candidate : Candidate hashing entries [] [] bounds early
unfolding program
candidate = (inl refl, record { opened = refl; parents = λ p m. absurd m; attempts = omega arith })

plan_next-Lawful_example :
    (b : Bounds) × (counts : List (AttemptKey × ℕ)) × Accepted hashing entries [] [] default_limits
      "s1" b counts
    × Settled hashing entries [] counts b plan
plan_next-Lawful_example = plan_next-Lawful hashing entries [] [] default_limits "s1" plan planned

plan_next_ready_example :
    (p : StepPlan) × (plan_next hashing entries [] [] default_limits "s1" ≡ ok p)
    × (p.status ≡ ready)
plan_next_ready_example =
    plan_next_ready hashing entries [] [] default_limits "s1" bounds [] early accepted candidate
      (omega arith)

built :
    build_step_plan hashing digest "s1" ready (some "o1") (some key) deterministic_priority 99
    ≡ ok plan
unfolding program
built = refl

build_step_plan_returns_example :
    (p : StepPlan) × (build_step_plan hashing digest "s1" ready
        (some "o1")
        (some key)
        deterministic_priority
        99
      ≡ ok p)
unfolding string_eq
build_step_plan_returns_example =
    build_step_plan_returns hashing digest "s1" ready (some "o1") (some key) deterministic_priority
      99 is_digest refl tt
