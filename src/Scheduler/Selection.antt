-- ===== src/Scheduler/Selection.antt =====
-- What `plan_next` selects, when it selects, and what its other outcomes say.
use ratcheting_consequence_i.Base.{
  ℕ, ◌+◌, ◌≤◌, ◌<◌, String, ◌≡◌, ◌≢◌, refl, sym, subst, Bool, true, ◌&&◌, Option, some, List, In,
  ltb→lt, In-keep, keep-In, subset_sound, subset_complete, and_parts, lt→ltb, arith, string_eq,
  nat_eq,
}
use ratcheting_consequence_i.Base.Order.{le, nat_ord, int_ord, string_ord, pair_ord, list_ord}
use ratcheting_consequence_i.Canonical.{Hashing}
use ratcheting_consequence_i.Claims.{open_status}
use ratcheting_consequence_i.Claims
use ratcheting_consequence_i.Planning.{
  AttemptKey, StepPlan, ready, satisfied, unknown, PlanReason, PlanStatus, valid_step_plan,
  step_budget_exhausted, insufficient_event_budget, no_open_obligation,
  unresolved_nonopen_obligation, dependencies_or_attempts_exhausted, deterministic_priority,
}
use ratcheting_consequence_i.Planning.Build.{Carries}
use ratcheting_consequence_i.Scheduler.{
  ObligationEntry, Bounds, priority_key, is_open, is_eligible, count_of, open_entries,
  ready_entries, deduplicate_obligations,
}

-- An entry may run: it is open, its parents are completed, and its key has attempts left.
pub record MayRun (completed : List String) (counts : List (AttemptKey × ℕ)) (max_attempts : ℕ)
    (e : ObligationEntry) : Type 0 where
  pub opened : e.obligation.status ≡ open_status
  pub parents : (p : String) → In p e.obligation.parent_obligation_ids → In p completed
  pub attempts : count_of e.attempt_key counts < max_attempts

opened_of : (s : Claims.ObligationStatus) → is_open s ≡ true → s ≡ open_status
opened_of open_status h = refl
opened_of _ h = cc

both_true : (a b : Bool) → a ≡ true → b ≡ true → (a && b) ≡ true
both_true a b p q = ground arith

module _ (h : Hashing) (entries : List ObligationEntry) (completed : List String)
    (counts : List (AttemptKey × ℕ)) (b : Bounds) where
  abbrev pub Candidate : ObligationEntry → Type 0
  Candidate e = In e (deduplicate_obligations h entries) × MayRun completed counts b.max_attempts e

  pub In-ready_entries :
      (e : ObligationEntry) → In e (ready_entries h entries completed counts b) → Candidate e
  unfolding ready_entries is_eligible
  In-ready_entries e m =
      let (among_open, eligible) = In-keep (is_eligible completed counts b.max_attempts) e _ m in
      let (listed, opened) = In-keep (λ x. is_open x.obligation.status) e _ among_open in
      let (parents, attempts) = and_parts eligible in
      (
        listed,
        record {
          opened = opened_of e.obligation.status opened;
          parents = subset_sound e.obligation.parent_obligation_ids completed parents;
          attempts = ltb→lt _ _ attempts;
        },
      )

  pub ready_entries-In :
      (e : ObligationEntry) → Candidate e → In e (ready_entries h entries completed counts b)
  unfolding ready_entries is_eligible open_entries
  ready_entries-In e (listed, may) =
      keep-In (is_eligible completed counts b.max_attempts) e _
        (keep-In (λ x. is_open x.obligation.status) e _ listed (rw may.opened))
        (both_true _ _ (subset_complete e.obligation.parent_obligation_ids completed may.parents)
          (lt→ltb _ _ may.attempts))

  pub record Selected (p : StepPlan) : Type 0 where
    pub entry : ObligationEntry
    pub candidate : Candidate entry
    pub named : p.selected_obligation_id ≡ some entry.obligation.id
    pub keyed : p.selected_attempt_key ≡ some entry.attempt_key
    pub affordable : b.used + b.event_cost + p.remaining_budget ≡ b.budget
    pub least :
        (e : ObligationEntry) → Candidate e → le (priority_key entry) (priority_key e) ≡ true

  -- What each status and reason says of the entries that are left after deduplication.
  abbrev pub Lawful : PlanStatus → PlanReason → StepPlan → Type 0
  Lawful ready deterministic_priority p = Selected p
  Lawful satisfied no_open_obligation p =
      (e : ObligationEntry)
      → In e (deduplicate_obligations h entries)
      → e.obligation.status ≡ Claims.satisfied
  Lawful unknown step_budget_exhausted p = b.budget ≤ b.used
  Lawful unknown dependencies_or_attempts_exhausted p = (e : ObligationEntry) → ¬ Candidate e
  Lawful unknown insufficient_event_budget p =
      ((e : ObligationEntry) × Candidate e) × (b.budget < b.used + b.event_cost)
  Lawful unknown unresolved_nonopen_obligation p =
      ((e : ObligationEntry)
        → In e (deduplicate_obligations h entries)
        → e.obligation.status ≢ open_status)
      × ((e : ObligationEntry) × In e (deduplicate_obligations h entries)
          × (e.obligation.status ≢ Claims.satisfied))
  Lawful _ _ p = ⊥

  abbrev pub Settled : StepPlan → Type 0
  Settled p = Lawful p.status p.reason p × (valid_step_plan h p ≡ true)

  pub Settled-as :
      {input policy : String} {st : PlanStatus} {id : Option String} {key : Option AttemptKey}
      {r : PlanReason} {n : ℕ} (p : StepPlan)
      → Carries h input policy st id key r n p
      → Lawful st r p
      → Settled p
  Settled-as {st} {r} p c l = (
    subst (λ s. Lawful s p.reason p) (sym c.has_status)
        (subst (λ t. Lawful st t p) (sym c.has_reason) l),
    c.valid,
  )
