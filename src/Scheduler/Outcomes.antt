-- ===== src/Scheduler/Outcomes.antt =====
-- The last tests of `plan_next`, over the deduplicated entries: their plans, and when they return one.
use ratcheting_consequence_i.Base.{
  ℕ, ◌+◌, ◌-◌, ◌≤◌, ◌<◌, String, ◌≡◌, ◌≢◌, refl, sym, subst, ap, ◌∙◌, Bool, true, false, not, inl,
  none, some, List, [], ◌∷◌, In, Result, ok, if_split, if◌then◌else◌, ltb, ltb→lt, any, any_none,
  any_sound, keep, keep-In, is_empty, arith, ◌==◌, string_eq, nat_eq, ==_iff,
}
use ratcheting_consequence_i.Base.Order.{nat_ord, int_ord, string_ord, pair_ord, list_ord}
use ratcheting_consequence_i.Base.Sort.{min_of, In-min_of, min_of-le}
use ratcheting_consequence_i.Base.Texts.{is_sha256_digest}
use ratcheting_consequence_i.Canonical.{Hashing, content_fingerprint}
use ratcheting_consequence_i.Claims.{open_status}
use ratcheting_consequence_i.Claims
use ratcheting_consequence_i.Planning.{
  AttemptKey, StepPlan, ready, satisfied, unknown, PlanReason, PlanStatus, step_budget_exhausted,
  insufficient_event_budget, no_open_obligation, unresolved_nonopen_obligation,
  dependencies_or_attempts_exhausted, deterministic_priority,
}
use ratcheting_consequence_i.Planning.Build.{build_step_plan-Carries, build_step_plan_returns}
use ratcheting_consequence_i.Scheduler.{
  ObligationEntry, Bounds, PriorityKey, priority_key, is_open, is_satisfied, remaining_of,
  open_entries, ready_entries, deduplicate_obligations, choose, settle, plan_checked,
  scheduler_input,
}
use ratcheting_consequence_i.Scheduler.Selection.{
  Candidate, Lawful, Settled, Settled-as, In-ready_entries, ready_entries-In,
}

satisfied_of : (s : Claims.ObligationStatus) → not (is_satisfied s) ≡ false → s ≡ Claims.satisfied
satisfied_of Claims.satisfied h = refl
satisfied_of _ h = cc

unsatisfied_of : (s : Claims.ObligationStatus) → not (is_satisfied s) ≡ true → s ≢ Claims.satisfied
unsatisfied_of s h e = cc (ap is_satisfied e)

empty_keeps : {A : Type 0} (xs : List A) → is_empty xs ≡ true → (a : A) → ¬ In a xs
empty_keeps [] h a m = m
empty_keeps (x ∷ xs) h a m = cc

affordable_of :
    (used budget cost left : ℕ)
    → ltb (budget - used) cost ≡ false
    → left ≡ budget - used - cost
    → used < budget
    → used + cost + left ≡ budget
affordable_of used budget cost left h e k = ground arith

left_of : (used budget : ℕ) → (budget - used == 0) ≡ false → used < budget
left_of used budget h = ground arith

module _ (h : Hashing) (entries : List ObligationEntry) (completed : List String)
    (counts : List (AttemptKey × ℕ)) (b : Bounds) where
  choose-Settled :
      (input policy : String) (p : StepPlan) (candidates : List ObligationEntry)
      → candidates ≡ ready_entries h entries completed counts b
      → b.used < b.budget
      → choose h input policy b candidates ≡ ok p
      → Settled h entries completed counts b p
  unfolding choose
  choose-Settled input policy p [] same left e =
      Settled-as h entries completed counts b p
        (build_step_plan-Carries h input policy unknown none none dependencies_or_attempts_exhausted
          (remaining_of b) p e)
        (λ x c. subst (In x) (sym same) (ready_entries-In h entries completed counts b x c))
  choose-Settled input policy p (first ∷ others) same left e =
      let selected = min_of {K = PriorityKey} priority_key first others in
      let candidate = λ (x : ObligationEntry) (m : In x (first ∷ others)).
        In-ready_entries h entries completed counts b x (subst (In x) same m) in
      if_split (ltb (remaining_of b) b.event_cost) e
        (λ short e₁.
          Settled-as h entries completed counts b p
            (build_step_plan-Carries h input policy unknown none none insufficient_event_budget
              (remaining_of b) p e₁)
            ((first, candidate first (inl refl)), omega (arith, ltb→lt _ _ short)))
        λ enough e₁.
          let carried =
            build_step_plan-Carries h input policy ready (some selected.obligation.id)
              (some selected.attempt_key) deterministic_priority (remaining_of b - b.event_cost) p
              e₁ in
          Settled-as h entries completed counts b p carried (record {
            entry = selected;
            candidate = candidate selected (In-min_of {K = PriorityKey} priority_key first others);
            named = carried.has_id;
            keyed = carried.has_key;
            affordable =
                affordable_of b.used b.budget b.event_cost p.remaining_budget enough
                  carried.has_remaining left;
            least = λ x c.
                min_of-le {K = PriorityKey} priority_key first others x
                  (subst (In x) (sym same) (ready_entries-In h entries completed counts b x c));
          })

  settle-Settled :
      (input policy : String) (p : StepPlan)
      → is_empty (open_entries h (deduplicate_obligations h entries)) ≡ true
      → settle h input policy b (deduplicate_obligations h entries) ≡ ok p
      → Settled h entries completed counts b p
  unfolding settle open_entries
  settle-Settled input policy p none_open e =
      if_split
        (any (λ (x : ObligationEntry). not (is_satisfied x.obligation.status))
          (deduplicate_obligations h entries))
        e
        (λ unresolved e₁.
          let (x, listed, unsatisfied) =
            any_sound _ (deduplicate_obligations h entries) unresolved in
          Settled-as h entries completed counts b p
            (build_step_plan-Carries h input policy unknown none none unresolved_nonopen_obligation
              (remaining_of b) p e₁)
            (
              λ y m opened.
                  empty_keeps
                    (keep (λ (z : ObligationEntry). is_open z.obligation.status)
                      (deduplicate_obligations h entries))
                    none_open y (keep-In (λ z. is_open z.obligation.status) y _ m (rw opened)),
              (x, listed, unsatisfied_of x.obligation.status unsatisfied),
            ))
        (λ resolved e₁.
          Settled-as h entries completed counts b p
            (build_step_plan-Carries h input policy satisfied none none no_open_obligation
              (remaining_of b) p e₁)
            (λ y m.
              satisfied_of y.obligation.status
                (any_none _ y (deduplicate_obligations h entries) resolved m)))

  pub plan_checked-Settled :
      (policy : String) (p : StepPlan)
      → plan_checked h entries completed counts b policy ≡ ok p
      → Settled h entries completed counts b p
  unfolding plan_checked
  plan_checked-Settled policy p e =
      let input = scheduler_input h entries completed counts b policy in
      if_split (remaining_of b == 0) e
        (λ exhausted e₁.
          Settled-as h entries completed counts b p
            (build_step_plan-Carries h input policy unknown none none step_budget_exhausted 0 p e₁)
            (omega (arith, (==_iff (remaining_of b) 0).0 exhausted)))
        λ left e₁.
          if_split (is_empty (open_entries h (deduplicate_obligations h entries))) e₁
            (λ none_open e₂. settle-Settled input policy p none_open e₂)
            (λ _ e₂.
              choose-Settled input policy p (ready_entries h entries completed counts b) refl
                (left_of b.used b.budget left) e₂)

open≢satisfied : open_status ≢ Claims.satisfied
open≢satisfied h = cc

-- A ready plan is what is left when an entry may run and the budget pays for it.
pub Lawful-ready :
    (h : Hashing) (entries : List ObligationEntry) (completed : List String)
    (counts : List (AttemptKey × ℕ)) (b : Bounds) (st : PlanStatus) (r : PlanReason) (p : StepPlan)
    (e : ObligationEntry)
    → Lawful h entries completed counts b st r p
    → Candidate h entries completed counts b e
    → b.used + b.event_cost ≤ b.budget
    → 0 < b.event_cost
    → st ≡ ready
Lawful-ready h entries completed counts b ready r p e l c fits positive = refl
Lawful-ready h entries completed counts b satisfied no_open_obligation p e l c fits positive =
    absurd (open≢satisfied (sym c.1.opened ∙ l e c.0))
Lawful-ready h entries completed counts b unknown step_budget_exhausted p e l c fits positive =
    absurd (omega arith)
Lawful-ready h entries completed counts b unknown dependencies_or_attempts_exhausted p e l c fits
      positive =
    absurd (l e c)
Lawful-ready h entries completed counts b unknown insufficient_event_budget p e l c fits positive =
    absurd (omega (arith, l.1))
Lawful-ready h entries completed counts b unknown unresolved_nonopen_obligation p e l c fits
      positive =
    absurd (l.0 e c.0 c.1.opened)
Lawful-ready h entries completed counts b satisfied _ p e l c fits positive = absurd l
Lawful-ready h entries completed counts b unknown _ p e l c fits positive = absurd l

if_Returns :
    {A : Type 0} (t : Bool) {x y : Result A}
    → (a : A) × (x ≡ ok a)
    → (a : A) × (y ≡ ok a)
    → (a : A) × ((if t then x else y) ≡ ok a)
if_Returns true on_true on_false = on_true
if_Returns false on_true on_false = on_false

module _ (h : Hashing) (entries : List ObligationEntry) (completed : List String)
    (counts : List (AttemptKey × ℕ)) (b : Bounds) (policy : String)
    (named : (policy == "") ≡ false) where
  choose_returns :
      (input : String) (candidates : List ObligationEntry)
      → is_sha256_digest input ≡ true
      → (p : StepPlan) × (choose h input policy b candidates ≡ ok p)
  unfolding choose
  choose_returns input [] hashed =
      build_step_plan_returns h input policy unknown none none dependencies_or_attempts_exhausted
        (remaining_of b) hashed named tt
  choose_returns input (first ∷ others) hashed =
      let selected = min_of {K = PriorityKey} priority_key first others in
      if_Returns (ltb (remaining_of b) b.event_cost)
        (build_step_plan_returns h input policy unknown none none insufficient_event_budget
          (remaining_of b) hashed named tt)
        (build_step_plan_returns h input policy ready (some selected.obligation.id)
          (some selected.attempt_key) deterministic_priority (remaining_of b - b.event_cost) hashed
          named tt)

  settle_returns :
      (input : String) (kept : List ObligationEntry)
      → is_sha256_digest input ≡ true
      → (p : StepPlan) × (settle h input policy b kept ≡ ok p)
  unfolding settle
  settle_returns input kept hashed =
      if_Returns (any (λ (x : ObligationEntry). not (is_satisfied x.obligation.status)) kept)
        (build_step_plan_returns h input policy unknown none none unresolved_nonopen_obligation
          (remaining_of b) hashed named tt)
        (build_step_plan_returns h input policy satisfied none none no_open_obligation
          (remaining_of b) hashed named tt)

  input_hashed : is_sha256_digest (scheduler_input h entries completed counts b policy) ≡ true
  unfolding scheduler_input content_fingerprint
  input_hashed = h.sha256-Digest _

  pub plan_checked_returns :
      (p : StepPlan) × (plan_checked h entries completed counts b policy ≡ ok p)
  unfolding plan_checked
  plan_checked_returns =
      let input = scheduler_input h entries completed counts b policy in
      let hashed = input_hashed in
      if_Returns (remaining_of b == 0)
        (build_step_plan_returns h input policy unknown none none step_budget_exhausted 0 hashed
          named tt)
        (if_Returns (is_empty (open_entries h (deduplicate_obligations h entries)))
          (settle_returns input (deduplicate_obligations h entries) hashed)
          (choose_returns input (ready_entries h entries completed counts b) hashed))
