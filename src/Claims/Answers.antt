-- ===== src/Claims/Answers.antt =====
-- src/rci/claims/logic.py: an answer bound as an opaque claim. `[:24]` of a digest is the parameter `short`.
use Prim.Native.String
use ratcheting_consequence_i.Base.{
  ◌>>=◌, ℕ, raise, String, ◌≡◌, ◌≢◌, refl, true, false, Option, none, some, List, [], ◌∷◌, ◌++◌,
  map, ◌==◌, distinct, Bool-cases, inl, inr, if◌then◌else◌, string_eq, option_eq, Result, ok,
  value_error, require, ◌>>◌, arith, ==_iff,
}
use ratcheting_consequence_i.Base.Order.{string_ord}
use ratcheting_consequence_i.Base.Sort.{sorted}
use ratcheting_consequence_i.Canonical.{
  Json, str, array, object, no_members, member, Hashing, content_fingerprint, optional, nat_json,
}
use ratcheting_consequence_i.Claims.{
  BoundArgument, Scope, Obligation, argument_items, scope_fingerprint, obligation_fingerprint,
}
use ratcheting_consequence_i.Canonical.Freeze.{HasReal, is_finite, freeze_json-Refuses}
use ratcheting_consequence_i.Claims.Records.{
  freeze_payload, IsFinitePayload, freeze_payload-Finite, InertPayload, artifact, json, ClaimRole,
  observation, characterization, variation, boundary, factor, necessity, sufficiency, prerequisite,
  conflict, residual, localization, generalization, actualization, invariant, pattern,
  interpretation, unknown_role, Provenance, Claim, valid_claim, provisional, unassessed, l0_opaque,
  Polarity, positive, negative, unspecified, RepresentationLevel-discrete, level_eq,
}
use ratcheting_consequence_i.Claims.Logic.{opposed, opposite_polarity, structural_conflict}
use ratcheting_consequence_i.Claims.Consequences.{
  Admitted, conflict_ids, new_conflicts, new_obligations, attack_candidates,
  derive_claim_consequences,
}

abbrev role_value : ClaimRole → String
role_value observation = "observation"
role_value characterization = "characterization"
role_value variation = "variation"
role_value boundary = "boundary"
role_value factor = "factor"
role_value necessity = "necessity"
role_value sufficiency = "sufficiency"
role_value prerequisite = "prerequisite"
role_value conflict = "conflict"
role_value residual = "residual"
role_value localization = "localization"
role_value generalization = "generalization"
role_value actualization = "actualization"
role_value invariant = "invariant"
role_value pattern = "pattern"
role_value interpretation = "interpretation"
role_value unknown_role = "unknown"

-- A payload as `_json_ready` dumps it.
abbrev payload_json : InertPayload → Json
payload_json (json value) = value
payload_json (artifact ref) = object (
    member "algorithm" (str "sha256") (
      member "digest" (str ref.digest) (
        member "size" (nat_json ref.size) (
          member "media_type" (optional ref.media_type)
            (member "encoding" (optional ref.encoding) no_members)))))

abbrev provenance_json : Provenance → Json
provenance_json p = object (
    member "kind" (str p.kind) (
      member "source_id" (str p.source_id)
        (member "source_revision" (optional p.source_revision) no_members)))

-- The arguments of `bind_l0_answer`.
pub record AnswerBinding : Type 0 where
  pub question_contract_id : String
  pub role : ClaimRole
  pub answer : InertPayload
  pub bound_args : List BoundArgument
  pub scope : Scope
  pub provenance : Provenance
  pub claim_id : Option String

-- `claim_id or derived`
abbrev given_or : Option String → String → String
given_or none derived = derived
given_or (some id) derived = if id == "" then derived else id

abbrev pub argument_names : AnswerBinding → List String
argument_names a = map (λ (x : BoundArgument). x.name) a.bound_args

module _ (h : Hashing) (short : String → String) where
  unfoldable pub stable_id : AnswerBinding → String
  unfolding scope_fingerprint
  stable_id a = given_or a.claim_id (
      String.◌++◌ "clm_" (
        short (
          content_fingerprint h "rci.claim.l0.v1" (
            object (
              member "contract" (str a.question_contract_id) (
                member "role" (str (role_value a.role)) (
                  member "answer" (payload_json a.answer) (
                    member "bound_args" (array (argument_items a.bound_args)) (
                      member "scope" (str (scope_fingerprint h a.scope))
                        (member "provenance" (provenance_json a.provenance) no_members))))))))))

  unfoldable pub opaque_claim : AnswerBinding → Claim
  unfolding stable_id
  opaque_claim a = record {
    id = stable_id a;
    role = a.role;
    bound_args = a.bound_args;
    payload = a.answer;
    scope = a.scope;
    provenance = a.provenance;
    status = provisional;
    assessment = unassessed;
    representation_level = l0_opaque;
    parent_ids = [];
    proposition_id = none;
    polarity = unspecified;
  }

  -- `Claim(...)`: the payload is frozen, and then the claim is checked.
  unfoldable pub bind_l0_answer : AnswerBinding → Result Claim
  unfolding opaque_claim valid_claim freeze_payload
  bind_l0_answer a = do
    frozen ← freeze_payload a.answer
    require (valid_claim (record (opaque_claim a) { payload = frozen })) value_error
    ok (record (opaque_claim a) { payload = frozen })

  opaque_claim-Valid :
      (a : AnswerBinding)
      → stable_id a ≢ ""
      → distinct (argument_names a) ≡ true
      → valid_claim (opaque_claim a) ≡ true
  unfolding valid_claim opaque_claim level_eq RepresentationLevel-discrete distinct
  opaque_claim-Valid a named once = elim (Bool-cases (stable_id a == "")) [
    | inl empty ↦ absurd (named ((==_iff (stable_id a) "").0 empty))
    | inr full ↦ rw (full, once) refl
  ]

  opposite-unspecified : (p : Polarity) → opposite_polarity p unspecified ≡ false
  opposite-unspecified positive = refl
  opposite-unspecified negative = refl
  opposite-unspecified unspecified = refl

  opposed-opaque : (c : Claim) (a : AnswerBinding) → opposed h short c (opaque_claim a) ≡ false
  unfolding opposed opaque_claim
  opposed-opaque c a = ground (arith, opposite-unspecified c.polarity)

  new_conflicts-opaque :
      (a : AnswerBinding) (known : List String) (cs : List Claim)
      → new_conflicts h short (opaque_claim a) known cs ≡ ok []
  unfolding new_conflicts structural_conflict
  new_conflicts-opaque a known [] = refl
  new_conflicts-opaque a known (c ∷ cs) =
      rw (opposed-opaque c a, structural_conflict) (new_conflicts-opaque a known cs)

  -- An answer whose argument names are distinct, whose identity, given or derived, is not empty, and whose
  -- numbers, if it is JSON, are finite, is bound to a claim that asserts nothing: it holds the answer as given, no claim opposes it, and against
  -- any admitted claims its consequences are derived with no conflict.
  pub bind_l0_answer-Inert :
      (a : AnswerBinding) (st : Admitted)
      → stable_id a ≢ ""
      → distinct (argument_names a) ≡ true
      → IsFinitePayload a.answer
      → (c : Claim) × (bind_l0_answer a ≡ ok c)
        × (c.payload ≡ a.answer)
        × ((x : Claim) → opposed h short x c ≡ false)
        × (obligations : List Obligation) × (derive_claim_consequences h short st c
            ≡ ok ([], obligations))
  unfolding bind_l0_answer derive_claim_consequences opaque_claim sorted
  bind_l0_answer-Inert a st named once finite =
      let c = opaque_claim a in
      let bound : bind_l0_answer a ≡ ok c =
        rw (freeze_payload-Finite a.answer finite, opaque_claim-Valid a named once, bind_l0_answer)
          refl in
      (
        c,
        bound,
        refl,
        (λ x. opposed-opaque x a),
        sorted (λ (o : Obligation). o.id)
            (new_obligations h short (map (obligation_fingerprint h) st.obligations)
              (attack_candidates h short st c ++ [])),
        rw (new_conflicts-opaque a (conflict_ids st.conflicts) st.claims) refl,
      )

  -- An answer that holds a number that is not finite is refused with a value error, whatever the rest.
  pub bind_l0_answer-Refuses :
      (a : AnswerBinding) (v : Json) (b : ℕ)
      → a.answer ≡ json v
      → HasReal b v
      → is_finite b ≡ false
      → bind_l0_answer a ≡ raise value_error
  unfolding bind_l0_answer freeze_payload
  bind_l0_answer-Refuses a v b same holds bad = rw (same, freeze_json-Refuses b v holds bad) refl
