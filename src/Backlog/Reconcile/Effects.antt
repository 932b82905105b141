-- ===== src/Backlog/Reconcile/Effects.antt =====
-- The effects that `reconcile` of src/rci/backlog/reconcile.py returns.
use ratcheting_consequence_i.Base.{
  ℤ, String, ◌≡◌, refl, sym, ap, subst, ◌∙◌, Bool, true, Option, none, some, List, [], ◌∷◌, ◌==◌,
  contains, keep, arith, In, ◌⊎◌, inl, inr, Bool-cases, Option-cases, is_none, string_eq, ok,
}
use ratcheting_consequence_i.Base.Order.{int_ord, string_ord, pair_ord}
use ratcheting_consequence_i.Backlog.Models.{
  Texts, checked_evidence_statuses, checked_blocked, checked_closable, evidence_status_eq,
  BacklogEffectKind, create, dedupe, rank, block, close, effect_kind_eq, BacklogFinding,
  BacklogEffect, valid_finding, fingerprint_of,
}
use ratcheting_consequence_i.Backlog.Reconcile.{
  ByFingerprint, effect_of, make_effect, matched_item, effective_finding, target_of, match_effect,
  status_effects, finding_effects,
}

abbrev pub is_checked : BacklogFinding → Bool
is_checked f = contains checked_evidence_statuses f.evidence_status

abbrev pub is_create : BacklogEffect → Bool
is_create e = e.kind == create

-- A valid checked finding has a digest.
pub checked_digest :
    (f : BacklogFinding)
    → valid_finding f ≡ true
    → is_checked f ≡ true
    → (digest : String) × (f.evidence_digest ≡ some digest)
unfolding valid_finding
checked_digest f good checked = elim (Option-cases f.evidence_digest) [
  | inl missing ↦ ground arith
  | inr found ↦ found
]

module _ (t : Texts) where
  -- An effect that states the finding's own identity, fingerprint and checked evidence.
  pub record IsEffectOf (f : BacklogFinding) (e : BacklogEffect) : Type 0 where
    pub names : e.finding_id ≡ f.id
    pub print : e.fingerprint ≡ fingerprint_of t f
    pub evidence : f.evidence_digest ≡ some e.evidence_digest

  -- The effects of one finding: the match or creation, the rank, and what the status adds.
  pub record IsFindingEffects (existing : ByFingerprint) (f : BacklogFinding)
      (es : List BacklogEffect) : Type 0 where
    pub first : BacklogEffect
    pub ranked : BacklogEffect
    pub others : List BacklogEffect
    pub shape : es ≡ first ∷ ranked ∷ others
    pub first_of : IsEffectOf f first
    pub ranked_of : IsEffectOf f ranked
    pub others_of : (e : BacklogEffect) → In e others → IsEffectOf f e
    pub ranks : (ranked.kind ≡ rank) × (ranked.rank ≡ some f.priority)
    pub creates : is_create first ≡ is_none (matched_item t existing f)
    pub no_more_creates : keep is_create others ≡ []

  make_effect-Returns :
      (kind : BacklogEffectKind) (f : BacklogFinding) (target reason : String) (r : Option ℤ)
      (digest : String)
      → f.evidence_digest ≡ some digest
      → (e : BacklogEffect) × (make_effect t kind f target reason r ≡ ok e)
        × IsEffectOf f e
        × (e.kind ≡ kind)
        × (e.rank ≡ r)
  unfolding make_effect effect_of
  make_effect-Returns kind f target reason r digest found = (
    effect_of t kind f target reason r digest,
    rw found refl,
    record { names = refl; print = refl; evidence = found },
    refl,
    refl,
  )

  effective_finding-cases :
      (existing closed_items : ByFingerprint) (f : BacklogFinding)
      → (effective_finding t existing closed_items f ≡ f)
        ⊎ ((prior : String) × (effective_finding t existing closed_items f
              ≡ record f { recurrence_of = some prior }))
  unfolding effective_finding
  effective_finding-cases existing closed_items f =
      elim (Option-cases (matched_item t existing f)) [
        | inr (i, found) ↦ inl (rw (found, effective_finding) refl)
        | inl fresh ↦ elim (Option-cases (matched_item t closed_items f)) [
          | inl never ↦ inl (rw (fresh, never, effective_finding) refl)
          | inr (prior, found) ↦ elim (Bool-cases (is_none f.recurrence_of)) [
            | inl unlinked ↦ inr (prior.id, rw (fresh, found, unlinked, effective_finding) refl)
            | inr linked ↦ inl (rw (fresh, found, linked, effective_finding) refl)
          ]
        ]
      ]

  -- The effective finding has the finding's identity, fingerprint and digest.
  effective_effect :
      (existing closed_items : ByFingerprint) (f : BacklogFinding) (e : BacklogEffect)
      → IsEffectOf (effective_finding t existing closed_items f) e
      → IsEffectOf f e
  unfolding fingerprint_of
  effective_effect existing closed_items f e is_effect =
      elim (effective_finding-cases existing closed_items f) [
        | inl same ↦ subst (λ g. IsEffectOf g e) same is_effect
        | inr (prior, linked) ↦
            let moved = subst (λ g. IsEffectOf g e) linked is_effect in
            record { names = moved.names; print = moved.print; evidence = moved.evidence }
      ]

  effective_digest :
      (existing closed_items : ByFingerprint) (f : BacklogFinding)
      → (effective_finding t existing closed_items f).evidence_digest ≡ f.evidence_digest
  effective_digest existing closed_items f =
      elim (effective_finding-cases existing closed_items f) [
        | inl same ↦ ap (λ (g : BacklogFinding). g.evidence_digest) same
        | inr (prior, linked) ↦ ap (λ (g : BacklogFinding). g.evidence_digest) linked
      ]

  match_effect-Returns :
      (existing closed_items : ByFingerprint) (f : BacklogFinding) (digest : String)
      → f.evidence_digest ≡ some digest
      → (e : BacklogEffect) × (match_effect t existing closed_items f ≡ ok e)
        × IsEffectOf f e
        × (is_create e ≡ is_none (matched_item t existing f))
  unfolding match_effect effect_of effect_kind_eq
  match_effect-Returns existing closed_items f digest found =
      elim (Option-cases (matched_item t existing f)) [
        | inr (i, matched) ↦
            rw (matched, match_effect)
              (let (e, made, states, kind, _) =
                  make_effect-Returns dedupe f (target_of t existing closed_items f)
                    "exact fingerprint match" none digest found in
                (e, made, states, rw kind refl))
        | inl fresh ↦
            rw (fresh, match_effect)
              (let (e, made, states, kind, _) =
                  make_effect-Returns create (effective_finding t existing closed_items f)
                    (target_of t existing closed_items f) _ none digest
                    (effective_digest existing closed_items f ∙ found) in
                (e, made, effective_effect existing closed_items f e states, rw kind refl))
      ]

  status_effects-Returns :
      (f : BacklogFinding) (target digest : String)
      → f.evidence_digest ≡ some digest
      → (es : List BacklogEffect) × (status_effects t f target ≡ ok es)
        × ((e : BacklogEffect) → In e es → IsEffectOf f e)
        × (keep is_create es ≡ [])
  unfolding status_effects keep effect_kind_eq
  status_effects-Returns f target digest found =
      elim (Bool-cases (f.evidence_status == checked_blocked)) [
        | inl blocked ↦ rw blocked (
            let (e, made, states, kind, _) =
              make_effect-Returns block f target "checked prerequisite is open" none digest found in
            (e ∷ [], rw made refl, only e states, rw kind refl))
        | inr free ↦ elim (Bool-cases (f.evidence_status == checked_closable)) [
          | inl closable ↦
              rw (free, closable)
                (let (e, made, states, kind, _) =
                    make_effect-Returns close f target
                      "fresh checked closure evidence; proposal-only in G1" none digest found in
                  (e ∷ [], rw made refl, only e states, rw kind refl))
          | inr still ↦ rw (free, still) ([], refl, (λ e m. absurd m), refl)
        ]
      ]
    where
      only :
          (e : BacklogEffect)
          → IsEffectOf f e
          → (x : BacklogEffect) → In x (e ∷ [])
          → IsEffectOf f x
      only e states x (inl here) = subst (IsEffectOf f) (sym here) states
      only e states x (inr nothing) = absurd nothing

  pub finding_effects-Returns :
      (existing closed_items : ByFingerprint) (f : BacklogFinding) (digest : String)
      → f.evidence_digest ≡ some digest
      → (es : List BacklogEffect) × (finding_effects t existing closed_items f ≡ ok es)
        × IsFindingEffects existing f es
  unfolding finding_effects
  finding_effects-Returns existing closed_items f digest found =
      let (first, matched, first_states, creates) =
        match_effect-Returns existing closed_items f digest found in
      let (ranked, ranks, ranked_states, kind, value) =
        make_effect-Returns rank f (target_of t existing closed_items f)
          "deterministic checked-evidence priority" (some f.priority) digest found in
      let (others, added, others_state, none_created) =
        status_effects-Returns f (target_of t existing closed_items f) digest found in
      (
        first ∷ ranked ∷ others,
        rw (matched, ranks, added) refl,
        record {
          first = first;
          ranked = ranked;
          others = others;
          shape = refl;
          first_of = first_states;
          ranked_of = ranked_states;
          others_of = others_state;
          ranks = (kind, value);
          creates = creates;
          no_more_creates = none_created;
        },
      )
