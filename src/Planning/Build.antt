-- ===== src/Planning/Build.antt =====
-- Which plans `build_step_plan` returns.
use ratcheting_consequence_i.Base.{
  ℕ, String, ◌≡◌, refl, true, false, Option, none, some, ◌==◌, ok, arith, string_eq, bool_eq,
  if_split, ok_injective, raise-ne-ok, subst,
}
use ratcheting_consequence_i.Base.Texts.{is_sha256_digest}
use ratcheting_consequence_i.Canonical.{Hashing}
use ratcheting_consequence_i.Planning.{
  PlanStatus, ready, satisfied, unknown, PlanReason, AttemptKey, StepPlan, step_plan_id,
  valid_step_plan, build_step_plan, identified,
}

module _ (h : Hashing) where
  -- A built plan carries what it was built from, and passes the model's validator.
  pub record Carries (input policy : String) (status : PlanStatus) (id : Option String)
      (key : Option AttemptKey) (reason : PlanReason) (remaining : ℕ) (p : StepPlan) : Type 0 where
    pub has_input : p.input_fingerprint ≡ input
    pub has_policy : p.policy_version ≡ policy
    pub has_status : p.status ≡ status
    pub has_id : p.selected_obligation_id ≡ id
    pub has_key : p.selected_attempt_key ≡ key
    pub has_reason : p.reason ≡ reason
    pub has_remaining : p.remaining_budget ≡ remaining
    pub valid : valid_step_plan h p ≡ true

  pub build_step_plan-Carries :
      (input policy : String) (status : PlanStatus) (id : Option String) (key : Option AttemptKey)
      (reason : PlanReason) (remaining : ℕ) (p : StepPlan)
      → build_step_plan h input policy status id key reason remaining ≡ ok p
      → Carries input policy status id key reason remaining p
  unfolding build_step_plan
  build_step_plan-Carries input policy status id key reason remaining p e =
      if_split (valid_step_plan h (identified h input policy status id key reason remaining)) e
        (λ valid same.
          subst (Carries input policy status id key reason remaining) (ok_injective same) (record {
            has_input = refl;
            has_policy = refl;
            has_status = refl;
            has_id = refl;
            has_key = refl;
            has_reason = refl;
            has_remaining = refl;
            valid = valid;
          }))
        (λ _ failed. absurd (raise-ne-ok failed))

  -- A plan that selects an obligation with its key and is ready, or selects nothing and is not.
  abbrev pub Fits : PlanStatus → Option String → Option AttemptKey → Type 0
  Fits ready (some id) (some key) = Unit
  Fits ready _ _ = ⊥
  Fits _ none none = Unit
  Fits _ _ _ = ⊥

  valid_identified :
      (input policy : String) (status : PlanStatus) (id : Option String) (key : Option AttemptKey)
      (reason : PlanReason) (remaining : ℕ)
      → is_sha256_digest input ≡ true
      → (policy == "") ≡ false
      → Fits status id key
      → valid_step_plan h (identified h input policy status id key reason remaining) ≡ true
  unfolding valid_step_plan identified step_plan_id
  valid_identified input policy ready (some id) (some key) reason remaining hashed named fits =
      ground arith
  valid_identified input policy ready (some id) none reason remaining hashed named fits =
      absurd fits
  valid_identified input policy ready none key reason remaining hashed named fits = absurd fits
  valid_identified input policy satisfied none none reason remaining hashed named fits =
      ground arith
  valid_identified input policy satisfied none (some key) reason remaining hashed named fits =
      absurd fits
  valid_identified input policy satisfied (some id) key reason remaining hashed named fits =
      absurd fits
  valid_identified input policy unknown none none reason remaining hashed named fits = ground arith
  valid_identified input policy unknown none (some key) reason remaining hashed named fits =
      absurd fits
  valid_identified input policy unknown (some id) key reason remaining hashed named fits =
      absurd fits

  -- With a digest of the input and a policy version, a fitting selection is always built: validation does
  -- not fail.
  pub build_step_plan_returns :
      (input policy : String) (status : PlanStatus) (id : Option String) (key : Option AttemptKey)
      (reason : PlanReason) (remaining : ℕ)
      → is_sha256_digest input ≡ true
      → (policy == "") ≡ false
      → Fits status id key
      → (p : StepPlan) × (build_step_plan h input policy status id key reason remaining ≡ ok p)
  unfolding build_step_plan
  build_step_plan_returns input policy status id key reason remaining hashed named fits = (
    identified h input policy status id key reason remaining,
    rw (valid_identified input policy status id key reason remaining hashed named fits),
  )
