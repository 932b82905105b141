-- ===== src/Backlog/Apply/Errors.antt =====
-- The errors of applying effects under a valid policy (src/rci/backlog/reconcile.py).
use ratcheting_consequence_i.Base.{
  ◌≡◌, refl, sym, subst, true, false, not, List, [], ◌∷◌, ◌==◌, contains, arith, In, ◌⊎◌, inl, inr,
  if_split, Bool-cases, Option-cases, contains-In, string_eq, raise, Error, value_error,
  permission_error, raise-ne-ok, raise_injective, Result-cases, ◌∙◌, any, any_none,
}
use ratcheting_consequence_i.Base.Keyed.{lookup}
use ratcheting_consequence_i.Base.Order.{int_ord, string_ord, pair_ord}
use ratcheting_consequence_i.Backlog.Models.{
  create, close, effect_kind_eq, BacklogItem, BacklogEffect, BacklogPolicy, valid_policy,
}
use ratcheting_consequence_i.Backlog.Apply.{
  ById, index_by_id, change_item, apply_effect, apply_all, apply_effects,
}

-- The two ways in which applying effects fails under a valid policy: an effect of a kind that is not
-- allowed, or an effect that does not fit its target.
abbrev pub IsExpected : BacklogPolicy → List BacklogEffect → Error → Type 0
IsExpected policy es error =
    ((error ≡ permission_error)
      × ((e : BacklogEffect) × In e es × (contains policy.allowed_apply_effects e.kind ≡ false)))
    ⊎ (error ≡ value_error)

close_forbidden :
    (policy : BacklogPolicy)
    → valid_policy policy ≡ true
    → contains policy.allowed_apply_effects close ≡ false
unfolding valid_policy
close_forbidden policy ok_policy =
    let overlap : any (contains policy.proposal_only_effects) policy.allowed_apply_effects ≡ false =
      ground arith in
    let reserved : contains policy.proposal_only_effects close ≡ true = ground arith in
    elim (Bool-cases (contains policy.allowed_apply_effects close)) [
      | inr absent ↦ absent
      | inl allowed ↦
          let clear =
            any_none (contains policy.proposal_only_effects) close policy.allowed_apply_effects
              overlap (contains-In policy.allowed_apply_effects close allowed) in
          cc (clear, reserved)
    ]

change_item-raises :
    (d : ById) (e : BacklogEffect) (i : BacklogItem) (error : Error)
    → (e.kind == close) ≡ false
    → change_item d e i ≡ raise error
    → error ≡ value_error
unfolding change_item
change_item-raises d e i error other h = ground arith

apply_effect-raises :
    (policy : BacklogPolicy) (d : ById) (e : BacklogEffect) (error : Error)
    → contains policy.allowed_apply_effects close ≡ false
    → apply_effect policy d e ≡ raise error
    → ((error ≡ permission_error) × (contains policy.allowed_apply_effects e.kind ≡ false))
      ⊎ (error ≡ value_error)
unfolding apply_effect
apply_effect-raises policy d e error forbidden h =
    if_split (not (contains policy.allowed_apply_effects e.kind)) h
      (λ refused r. inl (sym (raise_injective r), ground arith))
      (λ allowed r.
        let other : (e.kind == close) ≡ false = ground arith in
        elim (Option-cases (lookup e.target_item_id d)) [
          | inl fresh ↦
              if_split (e.kind == create) (rw fresh at r)
                (λ _ fine. absurd (raise-ne-ok (sym fine)))
                (λ _ fails. inr (sym (raise_injective fails)))
          | inr (i, found) ↦ inr (change_item-raises d e i error other (rw found at r))
        ])

apply_all-raises :
    (policy : BacklogPolicy) (d : ById) (es : List BacklogEffect) (error : Error)
    → contains policy.allowed_apply_effects close ≡ false
    → apply_all policy d es ≡ raise error
    → IsExpected policy es error
unfolding apply_all
apply_all-raises policy d [] error forbidden h = absurd (raise-ne-ok (sym h))
apply_all-raises policy d (e ∷ es) error forbidden h =
    elim (Result-cases (apply_effect policy d e)) [
      | inl (next, first) ↦
          elim (apply_all-raises policy next es error forbidden (rw (first, apply_all) at h)) [
            | inl (same, (x, m, refused)) ↦ inl (same, (x, inr m, refused))
            | inr same ↦ inr same
          ]
      | inr (first, fails) ↦ elim (apply_effect-raises policy d e first forbidden fails) [
        | inl (same, refused) ↦
            inl (sym (raise_injective (rw (fails, apply_all) at h)) ∙ same, (e, inl refl, refused))
        | inr same ↦ inr (sym (raise_injective (rw (fails, apply_all) at h)) ∙ same)
      ]
    ]

-- Under a policy that its own validator accepts, applying effects fails only with a permission error,
-- when one of the effects is of a kind that the policy does not allow, or with a value error. The case
-- that the code leaves for an unhandled authorized effect is never reached.
pub apply_effects_errors :
    (items : List BacklogItem) (effects : List BacklogEffect) (policy : BacklogPolicy)
    (error : Error)
    → valid_policy policy ≡ true
    → apply_effects items effects policy ≡ raise error
    → IsExpected policy effects error
unfolding apply_effects
apply_effects_errors items effects policy error ok_policy h =
    elim (Result-cases (apply_all policy (index_by_id [] items) effects)) [
      | inl (d, applied) ↦ absurd (raise-ne-ok (sym (rw applied at h)))
      | inr (first, fails) ↦ subst (IsExpected policy effects) (raise_injective (rw fails at h)) (
          apply_all-raises policy (index_by_id [] items) effects first
            (close_forbidden policy ok_policy) fails)
    ]
