-- ===== src/Backlog/Tests.antt =====
-- A backlog with one open item: a finding that repeats it, a new finding, and one that is not checked.
use ratcheting_consequence_i.Base.{
  pos, neg, String, ◌≡◌, refl, true, false, none, some, List, [], ◌∷◌, In, inl, inr, ok, raise,
  permission_error, all, any, contains, minus, keep, string_eq, String-discrete,
}
use ratcheting_consequence_i.Base.Keyed.{lookup, put, set_default}
use ratcheting_consequence_i.Base.Order.{int_ord, string_ord, pair_ord}
use ratcheting_consequence_i.Base.Sort.{sorted}
use ratcheting_consequence_i.Backlog.Models.{
  Texts, EvidenceStatus, checked_open, checked_closable, stale, create, close, effect_kind_eq,
  BacklogEffectKind-discrete, evidence_status_eq, EvidenceStatus-discrete, BacklogFinding,
  BacklogItem, BacklogEffect, BacklogPolicy, applicable_effect_kinds, valid_finding, valid_policy,
  backlog_fingerprint, fingerprint_of,
}
use ratcheting_consequence_i.Backlog.Reconcile.{
  index_items, finding_key, effect_id, effect_of, make_effect, matched_item, effective_finding,
  target_of, match_effect, status_effects, new_item, finding_effects, reconcile_from, reconcile,
}
use ratcheting_consequence_i.Backlog.Reconcile.Fold.{IsReconciliation, reconcile-IsReconciliation}
use ratcheting_consequence_i.Backlog.Apply.{
  index_by_id, created_item, change_item, apply_effect, apply_all, apply_effects, item_key,
}
use ratcheting_consequence_i.Backlog.Apply.Keeps.{IsProjection, apply_effects-IsProjection}
use ratcheting_consequence_i.Backlog.Apply.Errors.{IsExpected, apply_effects_errors}

-- Texts in which the fingerprint of a finding is its first text.
abbrev first_text : List String → String
first_text [] = ""
first_text (s ∷ rest) = s

abbrev texts : Texts
texts = record {
  strip = λ s. s;
  json_array = first_text;
  sha256_hex = λ s. s;
  first_chars = λ s. s;
  short_chars = λ s. s;
  last_chars = λ s. s;
}

abbrev finding : String → String → EvidenceStatus → BacklogFinding
finding id title status = record {
  id = id;
  title = title;
  protected_consequence = "c";
  source = "s";
  evidence_status = status;
  evidence_digest = some "digest";
  workspace_digest = "w";
  priority = pos 2;
  recurrence_of = none;
}

abbrev old_item : BacklogItem
old_item = record {
  id = "item_old";
  fingerprint = "old";
  title = "old";
  protected_consequence = "c";
  source = "s";
  rank = pos 0;
  blocked = false;
  closed = false;
  recurrence_of = none;
}

abbrev findings : List BacklogFinding
findings =
    finding "f1" "old" checked_closable
    ∷ finding "f2" "new" checked_open
    ∷ finding "f3" "x" stale
    ∷ []

abbrev effect : String → EvidenceStatus → BacklogEffect
effect title status = record {
  id = "e";
  kind = create;
  finding_id = "f2";
  target_item_id = "item_new";
  fingerprint = title;
  title = title;
  protected_consequence = "c";
  source = "s";
  recurrence_of = none;
  rank = none;
  evidence_digest = "digest";
  workspace_digest = "w";
  reason = "new exact fingerprint";
}

abbrev creation : BacklogEffect
creation = effect "new" checked_open

abbrev closing : BacklogEffect
closing = record creation { kind = close; target_item_id = "item_old"; fingerprint = "old" }

abbrev policy : BacklogPolicy
policy = record {
  allowed_apply_effects = applicable_effect_kinds;
  proposal_only_effects = close ∷ [];
}

program : Unit {0}
unfolding index_items finding_key effect_id effect_of make_effect matched_item effective_finding
    target_of match_effect status_effects new_item finding_effects reconcile_from reconcile
    index_by_id created_item change_item apply_effect apply_all apply_effects item_key valid_finding
    valid_policy backlog_fingerprint fingerprint_of effect_kind_eq BacklogEffectKind-discrete
    evidence_status_eq EvidenceStatus-discrete lookup put set_default sorted int_ord string_ord
    pair_ord all any contains minus keep string_eq String-discrete neg
program = tt

findings_valid : (f : BacklogFinding) → In f findings → valid_finding f ≡ true
unfolding program
findings_valid f (inl e) = rw (e, valid_finding) refl
findings_valid f (inr (inl e)) = rw (e, valid_finding) refl
findings_valid f (inr (inr (inl e))) = rw (e, valid_finding) refl
findings_valid f (inr (inr (inr n))) = absurd n

reconcile-IsReconciliation_example :
    (es : List BacklogEffect) × (reconcile texts (old_item ∷ []) findings ≡ ok es)
    × IsReconciliation texts (old_item ∷ []) findings es
reconcile-IsReconciliation_example =
    reconcile-IsReconciliation texts (old_item ∷ []) findings findings_valid

abbrev after_creation : List BacklogItem
after_creation = created_item creation ∷ old_item ∷ []

created : apply_effects (old_item ∷ []) (creation ∷ []) policy ≡ ok after_creation
unfolding program
created = refl

apply_effects-IsProjection_example :
    IsProjection policy (old_item ∷ []) (creation ∷ []) after_creation
apply_effects-IsProjection_example =
    apply_effects-IsProjection policy (old_item ∷ []) (creation ∷ []) after_creation created

policy_valid : valid_policy policy ≡ true
unfolding program
policy_valid = refl

closing_refused :
    apply_effects (old_item ∷ []) (creation ∷ closing ∷ []) policy ≡ raise permission_error
unfolding program
closing_refused = refl

apply_effects_errors_example : IsExpected policy (creation ∷ closing ∷ []) permission_error
apply_effects_errors_example =
    apply_effects_errors (old_item ∷ []) (creation ∷ closing ∷ []) policy permission_error
      policy_valid closing_refused
