-- ===== src/Claims.antt =====
-- src/rci/claims/models.py: scopes, obligations and their dispositions, and the exact fingerprints
-- by which scopes and obligations are identified.
use ratcheting_consequence_i.Base.{
  ℤ, String, Bool, not, ◌&&◌, ◌||◌, Option, some, List, [], ◌∷◌, map, Eq, ◌==◌, String-discrete,
  distinct, is_none, string_eq, option_eq,
}
use ratcheting_consequence_i.Base.Order.{string_ord, pair_ord}
use ratcheting_consequence_i.Base.Sort.{sorted}
use ratcheting_consequence_i.Canonical.{
  Json, Items, bool, str, array, object, no_items, item, no_members, member, Json-discrete,
  ℤ-discrete, Hashing, content_fingerprint, optional, strings, ints,
}
pub mod Records
pub mod Logic
pub mod Consequences
pub mod Answers
mod Tests

pub record BoundArgument : Type 0 where
  pub name : String
  pub value : Json

pub record Scope : Type 0 where
  pub id : String
  pub binding_revision : String
  pub assumption_ids : List String
  pub applicability_guard_id : Option String
  pub finite_universe_hash : Option String
  pub closed_world : Bool

unfoldable pub valid_scope : Scope → Bool
valid_scope s =
    not (s.id == "" || s.binding_revision == "")
    && distinct s.assumption_ids
    && not (s.closed_world && is_none s.finite_universe_hash)

abbrev scope_json : Scope → Json
scope_json s = object (
    member "id" (str s.id) (
      member "binding_revision" (str s.binding_revision) (
        member "assumption_ids" (array (strings s.assumption_ids)) (
          member "applicability_guard_id" (optional s.applicability_guard_id) (
            member "finite_universe_hash" (optional s.finite_universe_hash)
              (member "closed_world" (bool s.closed_world) no_members))))))

pub data ObligationKind : Type 0 where
  characterize same_class_variation minimal_boundary_crossing propose_factor : ObligationKind
  necessity_counterexample sufficiency_counterexample prerequisite_bypass : ObligationKind
  localize_conflict characterize_residual discharge_open_dependency clarify_reification :
      ObligationKind
  discriminate_reconstruction separate_consequence_classes : ObligationKind

abbrev pub kind_value : ObligationKind → String
kind_value characterize = "characterize"
kind_value same_class_variation = "same_class_variation"
kind_value minimal_boundary_crossing = "minimal_boundary_crossing"
kind_value propose_factor = "propose_factor"
kind_value necessity_counterexample = "necessity_counterexample"
kind_value sufficiency_counterexample = "sufficiency_counterexample"
kind_value prerequisite_bypass = "prerequisite_bypass"
kind_value localize_conflict = "localize_conflict"
kind_value characterize_residual = "characterize_residual"
kind_value discharge_open_dependency = "discharge_open_dependency"
kind_value clarify_reification = "clarify_reification"
kind_value discriminate_reconstruction = "discriminate_reconstruction"
kind_value separate_consequence_classes = "separate_consequence_classes"

pub data ObligationStatus : Type 0 where
  open_status blocked satisfied impossible unknown : ObligationStatus

abbrev pub status_value : ObligationStatus → String
status_value open_status = "open"
status_value blocked = "blocked"
status_value satisfied = "satisfied"
status_value impossible = "impossible"
status_value unknown = "unknown"

unfoldable pub ObligationStatus-discrete : Discrete ObligationStatus
ObligationStatus-discrete = hlevel

instance unfoldable pub obligation_status_eq : Eq ObligationStatus
unfolding ObligationStatus-discrete
obligation_status_eq = record { dec = ObligationStatus-discrete }

pub record Obligation : Type 0 where
  pub id : String
  pub kind : ObligationKind
  pub carrier_id : String
  pub args : List BoundArgument
  pub scope : Scope
  pub binding_revision : String
  pub parent_obligation_ids : List String
  pub priority_vector : List ℤ
  pub status : ObligationStatus

unfoldable pub valid_obligation : Obligation → Bool
valid_obligation o =
    not (o.id == "" || o.carrier_id == "")
    && (o.binding_revision == o.scope.binding_revision)
    && distinct (map (λ (a : BoundArgument). a.name) o.args)
    && distinct o.parent_obligation_ids

abbrev pub argument_items : List BoundArgument → Items
argument_items [] = no_items
argument_items (a ∷ rest) =
    item (object (member "name" (str a.name) (member "value" a.value no_members)))
      (argument_items rest)

-- `entry.model_dump(mode="json")` of an obligation.
abbrev pub obligation_json : Obligation → Json
obligation_json o = object (
    member "id" (str o.id) (
      member "kind" (str (kind_value o.kind)) (
        member "carrier_id" (str o.carrier_id) (
          member "args" (array (argument_items o.args)) (
            member "scope" (scope_json o.scope) (
              member "binding_revision" (str o.binding_revision) (
                member "parent_obligation_ids" (array (strings o.parent_obligation_ids)) (
                  member "priority_vector" (array (ints o.priority_vector))
                    (member "status" (str (status_value o.status)) no_members)))))))))

module _ (h : Hashing) where
  -- `Scope.fingerprint`
  unfoldable pub scope_fingerprint : Scope → String
  scope_fingerprint s = content_fingerprint h "rci.scope.v1" (scope_json s)

  unfoldable pub normalized_args : List BoundArgument → List BoundArgument
  normalized_args args =
      sorted {K = String × String} (λ (a : BoundArgument). (a.name, h.canonical_json a.value)) args

  -- `Obligation.fingerprint`: the carrier, the parents, the priority and the status are left out.
  unfoldable pub obligation_fingerprint : Obligation → String
  unfolding scope_fingerprint normalized_args
  obligation_fingerprint o = content_fingerprint h "rci.obligation.v1" (
      object (
        member "kind" (str (kind_value o.kind)) (
          member "args" (array (argument_items (normalized_args o.args))) (
            member "scope" (str (scope_fingerprint o.scope))
              (member "binding_revision" (str o.binding_revision) no_members)))))

pub record ObligationDisposition : Type 0 where
  pub id : String
  pub obligation_id : String
  pub status : ObligationStatus
  pub reason : String
  pub evidence_refs : List String
  pub predecessor_id : Option String

unfoldable pub valid_disposition : ObligationDisposition → Bool
valid_disposition d =
    not (d.id == "" || d.obligation_id == "" || d.reason == "")
    && distinct d.evidence_refs
    && not (d.predecessor_id == some d.id)

unfoldable pub Obligation-discrete : Discrete Obligation
unfolding String-discrete Json-discrete ℤ-discrete ObligationStatus-discrete
Obligation-discrete = hlevel (String-discrete, Json-discrete, ℤ-discrete)

instance unfoldable pub obligation_eq : Eq Obligation
unfolding Obligation-discrete
obligation_eq = record { dec = Obligation-discrete }

unfoldable pub ObligationDisposition-discrete : Discrete ObligationDisposition
unfolding String-discrete ObligationStatus-discrete
ObligationDisposition-discrete = hlevel (String-discrete, ObligationStatus-discrete)

instance unfoldable pub disposition_eq : Eq ObligationDisposition
unfolding ObligationDisposition-discrete
disposition_eq = record { dec = ObligationDisposition-discrete }
