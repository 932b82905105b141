-- ===== src/Claims/Logic.antt =====
-- src/rci/claims/logic.py: structural conflicts, and the obligations that conflicts and claims carry.
-- `[:24]` of a digest is the parameter `short`.
use Prim.Native.String
use ratcheting_consequence_i.Base.{
  pos, String, Bool, true, false, not, ◌&&◌, Option, none, some, [], ◌∷◌, ◌==◌, if◌then◌else◌,
  is_some, string_eq, option_eq, Result, ok, value_error, ◌>>◌, require,
}
use ratcheting_consequence_i.Base.Order.{le, string_ord}
use ratcheting_consequence_i.Canonical.{
  str, array, object, no_items, item, no_members, member, Hashing, content_fingerprint,
}
use ratcheting_consequence_i.Claims.{
  Obligation, ObligationKind, necessity_counterexample, sufficiency_counterexample,
  prerequisite_bypass, localize_conflict, kind_value, open_status, scope_fingerprint,
}
use ratcheting_consequence_i.Claims.Records.{
  Claim, ClaimRole, necessity, sufficiency, prerequisite, Polarity, positive, negative, Conflict,
  structural_polarity, valid_conflict, structural_key, structural_key_eq,
}

-- `{left, right} == {POSITIVE, NEGATIVE}`
abbrev pub opposite_polarity : Polarity → Polarity → Bool
opposite_polarity positive negative = true
opposite_polarity negative positive = true
opposite_polarity _ _ = false

-- `sorted((left, right))`
unfoldable pub ordered_pair : String → String → String × String
unfolding string_ord
ordered_pair left right = if le left right then (left, right) else (right, left)

-- `_ATTACK_BY_ROLE.get(role)`
abbrev pub attack_by_role : ClaimRole → Option ObligationKind
attack_by_role necessity = some necessity_counterexample
attack_by_role sufficiency = some sufficiency_counterexample
attack_by_role prerequisite = some prerequisite_bypass
attack_by_role _ = none

abbrev pub is_negative : Polarity → Bool
is_negative negative = true
is_negative _ = false

-- `claim.proposition_id or claim.id`
abbrev pub carrier_or_id : Option String → String → String
carrier_or_id none id = id
carrier_or_id (some p) id = if p == "" then id else p

module _ (h : Hashing) (short : String → String) where
  unfoldable pub conflict_id : String × String → String
  conflict_id ids = String.◌++◌ "cnf_" (
      short (
        content_fingerprint h "rci.conflict.v1"
          (array (item (str ids.0) (item (str ids.1) no_items)))))

  unfoldable pub make_conflict : Claim → Claim → Conflict
  unfolding conflict_id ordered_pair
  make_conflict left right =
      let ids = ordered_pair left.id right.id in
      record {
        id = conflict_id ids;
        claim_ids = ids;
        kind = structural_polarity;
        scope = left.scope;
        proposition_id = left.proposition_id;
      }

  -- Whether the claims say the opposite of one proposition.
  unfoldable pub opposed : Claim → Claim → Bool
  unfolding structural_key
  opposed left right =
      is_some (structural_key h left)
      && (structural_key h left == structural_key h right)
      && opposite_polarity left.polarity right.polarity

  unfoldable pub structural_conflict : Claim → Claim → Result (Option Conflict)
  unfolding opposed make_conflict valid_conflict
  structural_conflict left right =
      if not (opposed left right)
      then ok none
      else require (valid_conflict (make_conflict left right)) value_error
        >> ok (some (make_conflict left right))

  unfoldable pub conflict_obligation : Conflict → Obligation
  conflict_obligation c = record {
    id = String.◌++◌ "obl_" (short (content_fingerprint h "rci.obligation.conflict.v1" (str c.id)));
    kind = localize_conflict;
    carrier_id = c.id;
    args =
        record { name = "left_claim_id"; value = str c.claim_ids.0 }
        ∷ record { name = "right_claim_id"; value = str c.claim_ids.1 }
        ∷ [];
    scope = c.scope;
    binding_revision = c.scope.binding_revision;
    parent_obligation_ids = [];
    priority_vector = pos 100 ∷ [];
    status = open_status;
  }

  unfoldable pub attack_of : Claim → ObligationKind → Obligation
  attack_of c kind =
      let carrier = carrier_or_id c.proposition_id c.id in
      record {
        id = String.◌++◌ "obl_" (
            short (
              content_fingerprint h "rci.obligation.attack.v1" (
                object (
                  member "carrier" (str carrier) (
                    member "kind" (str (kind_value kind))
                      (member "scope" (str (scope_fingerprint h c.scope)) no_members))))));
        kind = kind;
        carrier_id = carrier;
        args =
            record {
              name = if is_some c.proposition_id then "proposition_id" else "claim_id";
              value = str carrier;
            }
            ∷ [];
        scope = c.scope;
        binding_revision = c.scope.binding_revision;
        parent_obligation_ids = [];
        priority_vector = pos 90 ∷ [];
        status = open_status;
      }

  unfoldable pub mandatory_attack_obligation : Claim → Option Obligation
  unfolding attack_of
  mandatory_attack_obligation c = elim (attack_by_role c.role) [
    | none ↦ none
    | some kind ↦ if is_negative c.polarity then none else some (attack_of c kind)
  ]
