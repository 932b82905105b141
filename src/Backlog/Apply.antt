-- ===== src/Backlog/Apply.antt =====
-- src/rci/backlog/reconcile.py: `apply_effects`, the projection of authorized effects.
use ratcheting_consequence_i.Base.{
  ℤ, pos, neg, String, Bool, true, false, not, Option, none, some, List, [], ◌∷◌, map, Eq, ◌==◌,
  contains, if◌then◌else◌, string_eq, Result, ok, raise, value_error, permission_error,
  runtime_error, ◌>>=◌, ◌>>◌,
}
use ratcheting_consequence_i.Base.Keyed.{lookup, put}
use ratcheting_consequence_i.Base.Order.{int_ord, string_ord, pair_ord}
use ratcheting_consequence_i.Base.Sort.{sorted}
use ratcheting_consequence_i.Backlog.Models.{
  BacklogEffectKind, create, dedupe, rank, block, close, effect_kind_eq, BacklogItem, BacklogEffect,
  BacklogPolicy,
}
pub mod Keeps
pub mod Errors

abbrev pub ById : Type 0
ById = List (String × BacklogItem)

-- `{item.id: item for item in items}`, over what the dictionary holds.
unfoldable pub index_by_id : ById → List BacklogItem → ById
unfolding put
index_by_id d [] = d
index_by_id d (i ∷ is) = index_by_id (put i.id i d) is

unfoldable pub created_item : BacklogEffect → BacklogItem
created_item e = record {
  id = e.target_item_id;
  fingerprint = e.fingerprint;
  title = e.title;
  protected_consequence = e.protected_consequence;
  source = e.source;
  rank = pos 0;
  blocked = false;
  closed = false;
  recurrence_of = e.recurrence_of;
}

-- `effect.rank or 0`
abbrev pub rank_or_zero : Option ℤ → ℤ
rank_or_zero none = pos 0
rank_or_zero (some r) = r

-- What an authorized effect does to the item that has its target's identity.
unfoldable pub change_item : ById → BacklogEffect → BacklogItem → Result ById
unfolding put
change_item d e i = elim e.kind [
  | create ↦ if i.fingerprint == e.fingerprint then ok d else raise value_error
  | rank ↦
      if i.fingerprint == e.fingerprint
      then ok (put i.id (record i { rank = rank_or_zero e.rank }) d)
      else raise value_error
  | block ↦
      if i.fingerprint == e.fingerprint
      then ok (put i.id (record i { blocked = true }) d)
      else raise value_error
  | dedupe ↦ if i.fingerprint == e.fingerprint then ok d else raise value_error
  | close ↦ if i.fingerprint == e.fingerprint then raise runtime_error else raise value_error
]

unfoldable pub apply_effect : BacklogPolicy → ById → BacklogEffect → Result ById
unfolding contains lookup change_item created_item put
apply_effect policy d e =
    if not (contains policy.allowed_apply_effects e.kind)
    then raise permission_error
    else elim (lookup e.target_item_id d) [
      | some i ↦ change_item d e i
      | none ↦
          if e.kind == create
          then ok (put e.target_item_id (created_item e) d)
          else raise value_error
    ]

unfoldable pub apply_all : BacklogPolicy → ById → List BacklogEffect → Result ById
unfolding apply_effect
apply_all policy d [] = ok d
apply_all policy d (e ∷ es) = do next ← apply_effect policy d e; apply_all policy next es

abbrev pub ItemKey : Type 0
ItemKey = ℤ × String

unfoldable pub item_key : BacklogItem → ItemKey
item_key i = (neg i.rank, i.id)

unfoldable pub apply_effects :
    List BacklogItem → List BacklogEffect → BacklogPolicy → Result (List BacklogItem)
unfolding apply_all index_by_id sorted
apply_effects items effects policy = do
  by_id ← apply_all policy (index_by_id [] items) effects
  ok (sorted {K = ItemKey} item_key (map (λ (p : String × BacklogItem). p.1) by_id))
