-- ===== src/Scheduler/Plans.antt =====
-- `plan_next` as a whole: its guards, what it returns, and when it returns a ready plan.
use ratcheting_consequence_i.Base.{
  ℕ, ℤ, ◌+◌, ◌≤◌, ◌<◌, String, ◌≡◌, refl, ◌∙◌, Bool, true, false, List, ok, >>=-eq-ok, raise-ne-ok,
  refuse, value_error, arith, ◌==◌, string_eq, nat_eq,
}
use ratcheting_consequence_i.Base.Order.{nat_ord, int_ord, string_ord, pair_ord, list_ord}
use ratcheting_consequence_i.Canonical.{Hashing}
use ratcheting_consequence_i.Planning.{AttemptKey, StepPlan, ready}
use ratcheting_consequence_i.Scheduler.{
  ObligationEntry, Bounds, Limits, plan_checked, plan_next, check_limits, nonnegative_counts,
}
use ratcheting_consequence_i.Scheduler.Selection.{Candidate, Settled}
use ratcheting_consequence_i.Scheduler.Outcomes.{
  plan_checked-Settled, plan_checked_returns, Lawful-ready,
}

not_refused_named : (t : Bool) {u : Unit {0}} → refuse t value_error ≡ ok u → t ≡ false
not_refused_named true h = absurd (raise-ne-ok h)
not_refused_named false h = refl

positive_cost : (limits : Limits) (b : Bounds) → check_limits limits ≡ ok b → 0 < b.event_cost
unfolding check_limits
positive_cost limits b h = ground arith

module _ (h : Hashing) (entries : List ObligationEntry) (completed : List String)
    (attempt_counts : List (AttemptKey × ℤ)) (limits : Limits) (policy : String) where
  -- The arguments pass the guards of `plan_next`, as these bounds and counts.
  pub record Accepted (b : Bounds) (counts : List (AttemptKey × ℕ)) : Type 0 where
    pub limits_hold : check_limits limits ≡ ok b
    pub counts_hold : nonnegative_counts attempt_counts ≡ ok counts
    pub policy_named : (policy == "") ≡ false

  plan_next-Accepted :
      (b : Bounds) (counts : List (AttemptKey × ℕ))
      → Accepted b counts
      → plan_next h entries completed attempt_counts limits policy
        ≡ plan_checked h entries completed counts b policy
  unfolding plan_next
  plan_next-Accepted b counts a = rw (a.limits_hold, a.policy_named, a.counts_hold)

  -- Every returned plan comes from arguments that pass the guards, is identified by its content, and
  -- is lawful: a ready plan selects an entry of least priority key among those that may run and are
  -- paid for, a satisfied one finds every obligation satisfied, and each unknown has its reason.
  pub plan_next-Lawful :
      (p : StepPlan)
      → plan_next h entries completed attempt_counts limits policy ≡ ok p
      → (b : Bounds) × (counts : List (AttemptKey × ℕ)) × Accepted b counts
        × Settled h entries completed counts b p
  unfolding plan_next
  plan_next-Lawful p e =
      let (b, bounded, e₁) = >>=-eq-ok (check_limits limits) _ e in
      let (_, not_refused, e₂) = >>=-eq-ok (refuse (policy == "") value_error) _ e₁ in
      let (counts, counted, e₃) = >>=-eq-ok (nonnegative_counts attempt_counts) _ e₂ in
      (
        b,
        counts,
        record {
          limits_hold = bounded;
          counts_hold = counted;
          policy_named = not_refused_named (policy == "") not_refused;
        },
        plan_checked-Settled h entries completed counts b policy p e₃,
      )

  -- Whenever the guards pass, some entry may run and the budget pays for it, a ready plan is returned.
  pub plan_next_ready :
      (b : Bounds) (counts : List (AttemptKey × ℕ)) (e : ObligationEntry)
      → Accepted b counts
      → Candidate h entries completed counts b e
      → b.used + b.event_cost ≤ b.budget
      → (p : StepPlan) × (plan_next h entries completed attempt_counts limits policy ≡ ok p)
        × (p.status ≡ ready)
  plan_next_ready b counts e a c fits =
      let (p, found) = plan_checked_returns h entries completed counts b policy a.policy_named in
      (
        p,
        plan_next-Accepted b counts a ∙ found,
        Lawful-ready h entries completed counts b p.status p.reason p e
            (plan_checked-Settled h entries completed counts b policy p found).0 c fits
            (positive_cost limits b a.limits_hold),
      )
