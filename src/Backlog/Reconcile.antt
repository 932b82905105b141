-- ===== src/Backlog/Reconcile.antt =====
-- src/rci/backlog/reconcile.py: `reconcile`, which turns findings into proposed effects.
use Prim.Native.String
use ratcheting_consequence_i.Base.{
  ℤ, neg, String, Bool, true, false, not, Option, none, some, List, [], ◌∷◌, ◌++◌, Eq, ◌==◌,
  contains, keep, if◌then◌else◌, is_some, is_none, string_eq, Result, ok, raise, value_error, ◌>>=◌,
  ◌>>◌,
}
use ratcheting_consequence_i.Base.Keyed.{lookup, put, set_default}
use ratcheting_consequence_i.Base.Order.{int_ord, string_ord, pair_ord}
use ratcheting_consequence_i.Base.Sort.{sorted}
use ratcheting_consequence_i.Backlog.Models.{
  Texts, EvidenceStatus, checked_blocked, checked_closable, checked_evidence_statuses,
  evidence_status_eq, BacklogEffectKind, create, dedupe, rank, block, close, effect_kind_value,
  BacklogFinding, BacklogItem, BacklogEffect, fingerprint_of,
}
pub mod Effects
pub mod Fold

abbrev pub ByFingerprint : Type 0
ByFingerprint = List (String × BacklogItem)

-- `{item.fingerprint: item for item in items if test(item)}`, over what the dictionary holds.
unfoldable pub index_items : (BacklogItem → Bool) → ByFingerprint → List BacklogItem → ByFingerprint
unfolding put
index_items test d [] = d
index_items test d (i ∷ is) = index_items test (if test i then put i.fingerprint i d else d) is

abbrev FindingKey : Type 0
FindingKey = ℤ × String

unfoldable pub finding_key : BacklogFinding → FindingKey
finding_key f = (neg f.priority, f.id)

module _ (t : Texts) where
  abbrev join : String → String → String
  join a b = String.◌++◌ a b

  unfoldable pub effect_id : BacklogEffectKind → BacklogFinding → String → String → String
  effect_id kind f target digest = join "bfx_" (
      t.first_chars (
        t.sha256_hex (
          join (effect_kind_value kind)
            (join "\0" (join f.id (join "\0" (join target (join "\0" digest))))))))

  unfoldable pub effect_of :
      BacklogEffectKind → BacklogFinding → String → String → Option ℤ → String → BacklogEffect
  unfolding effect_id fingerprint_of
  effect_of kind f target reason rank_value digest = record {
    id = effect_id kind f target digest;
    kind = kind;
    finding_id = f.id;
    target_item_id = target;
    fingerprint = fingerprint_of t f;
    title = f.title;
    protected_consequence = f.protected_consequence;
    source = f.source;
    recurrence_of = f.recurrence_of;
    rank = rank_value;
    evidence_digest = digest;
    workspace_digest = f.workspace_digest;
    reason = reason;
  }

  -- `_effect`
  unfoldable pub make_effect :
      BacklogEffectKind → BacklogFinding → String → String → Option ℤ → Result BacklogEffect
  unfolding effect_of
  make_effect kind f target reason rank_value = elim f.evidence_digest [
    | none ↦ raise value_error
    | some digest ↦ ok (effect_of kind f target reason rank_value digest)
  ]

  -- What one finding is reconciled with.
  unfoldable pub matched_item : ByFingerprint → BacklogFinding → Option BacklogItem
  unfolding lookup fingerprint_of
  matched_item d f = lookup (fingerprint_of t f) d

  -- `effective_finding`
  unfoldable pub effective_finding : ByFingerprint → ByFingerprint → BacklogFinding → BacklogFinding
  unfolding matched_item
  effective_finding existing closed_items f = elim (matched_item existing f) [
    | some i ↦ f
    | none ↦ elim (matched_item closed_items f) [
      | none ↦ f
      | some prior ↦
          if is_none f.recurrence_of then record f { recurrence_of = some prior.id } else f
    ]
  ]

  unfoldable pub target_of : ByFingerprint → ByFingerprint → BacklogFinding → String
  unfolding matched_item effective_finding fingerprint_of
  target_of existing closed_items f = elim (matched_item existing f) [
    | some i ↦ i.id
    | none ↦
        if is_some (effective_finding existing closed_items f).recurrence_of
        then join "item_" (join (t.short_chars (fingerprint_of t f)) (join "_" (t.last_chars f.id)))
        else join "item_" (t.first_chars (fingerprint_of t f))
  ]

  -- The first effect of a finding: an item is created, or the match is recorded.
  unfoldable pub match_effect :
      ByFingerprint → ByFingerprint → BacklogFinding → Result BacklogEffect
  unfolding matched_item effective_finding target_of make_effect
  match_effect existing closed_items f = elim (matched_item existing f) [
    | none ↦
        make_effect create (effective_finding existing closed_items f)
          (target_of existing closed_items f)
          (if is_some (matched_item closed_items f)
            then "linked recurrence"
            else "new exact fingerprint")
          none
    | some i ↦
        make_effect dedupe f (target_of existing closed_items f) "exact fingerprint match" none
  ]

  -- The last effect, by the status of the evidence.
  unfoldable pub status_effects : BacklogFinding → String → Result (List BacklogEffect)
  unfolding make_effect
  status_effects f target =
      if f.evidence_status == checked_blocked
      then (do e ← make_effect block f target "checked prerequisite is open" none; ok (e ∷ []))
      else if f.evidence_status == checked_closable
      then (do
        e ← make_effect close f target "fresh checked closure evidence; proposal-only in G1" none
        ok (e ∷ []))
      else ok []

  -- The item that `existing` gets by `setdefault`.
  unfoldable pub new_item : ByFingerprint → ByFingerprint → BacklogFinding → BacklogItem
  unfolding target_of effective_finding fingerprint_of
  new_item existing closed_items f = record {
    id = target_of existing closed_items f;
    fingerprint = fingerprint_of t f;
    title = f.title;
    protected_consequence = f.protected_consequence;
    source = f.source;
    rank = f.priority;
    blocked = false;
    closed = false;
    recurrence_of = (effective_finding existing closed_items f).recurrence_of;
  }

  unfoldable pub finding_effects :
      ByFingerprint → ByFingerprint → BacklogFinding → Result (List BacklogEffect)
  unfolding match_effect status_effects target_of make_effect
  finding_effects existing closed_items f = do
    first ← match_effect existing closed_items f
    ranked ←
        make_effect rank f (target_of existing closed_items f)
          "deterministic checked-evidence priority" (some f.priority)
    others ← status_effects f (target_of existing closed_items f)
    ok (first ∷ ranked ∷ others)

  unfoldable pub reconcile_from :
      ByFingerprint → ByFingerprint → List BacklogFinding → Result (List BacklogEffect)
  unfolding finding_effects new_item set_default contains
  reconcile_from existing closed_items [] = ok []
  reconcile_from existing closed_items (f ∷ fs) =
      let skipped = reconcile_from existing closed_items fs in
      let rest =
        reconcile_from
          (set_default (fingerprint_of t f) (new_item existing closed_items f) existing)
          closed_items fs in
      if not (contains checked_evidence_statuses f.evidence_status)
      then skipped
      else do effects ← finding_effects existing closed_items f; later ← rest; ok (effects ++ later)

  unfoldable pub reconcile : List BacklogItem → List BacklogFinding → Result (List BacklogEffect)
  unfolding reconcile_from index_items sorted
  reconcile items findings =
      reconcile_from (index_items (λ (i : BacklogItem). not i.closed) [] items)
        (index_items (λ (i : BacklogItem). i.closed) [] items)
        (sorted {K = FindingKey} finding_key findings)
