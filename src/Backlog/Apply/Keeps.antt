-- ===== src/Backlog/Apply/Keeps.antt =====
-- What applying effects keeps, and which errors it can end in (src/rci/backlog/reconcile.py).
use ratcheting_consequence_i.Base.{
  ℤ, String, ◌≡◌, refl, sym, ap, subst, ◌∙◌, true, not, some, List, [], ◌∷◌, map, ◌==◌, contains,
  arith, In, ◌⊎◌, inl, inr, if_split, Option-cases, In-map, map-In, string_eq, ok, ok_injective,
  raise-ne-ok, >>=-eq-ok, ==_iff,
}
use ratcheting_consequence_i.Base.Keyed.{lookup, put, keys, In-put, put-In, put_keeps, keys-In}
use ratcheting_consequence_i.Base.Order.{int_ord, string_ord, pair_ord}
use ratcheting_consequence_i.Base.Sort.{sorted, In-sorted, sorted-In}
use ratcheting_consequence_i.Backlog.Models.{
  create, effect_kind_eq, BacklogItem, BacklogEffect, BacklogPolicy,
}
use ratcheting_consequence_i.Backlog.Apply.{
  ById, ItemKey, item_key, index_by_id, created_item, change_item, apply_effect, apply_all,
  apply_effects, rank_or_zero,
}

-- Everything but the rank and the block.
pub record IsSameItem (a b : BacklogItem) : Type 0 where
  pub id : a.id ≡ b.id
  pub fingerprint : a.fingerprint ≡ b.fingerprint
  pub title : a.title ≡ b.title
  pub protected_consequence : a.protected_consequence ≡ b.protected_consequence
  pub source : a.source ≡ b.source
  pub closed : a.closed ≡ b.closed
  pub recurrence_of : a.recurrence_of ≡ b.recurrence_of

same_item : (a : BacklogItem) → IsSameItem a a
same_item a = record {
  id = refl;
  fingerprint = refl;
  title = refl;
  protected_consequence = refl;
  source = refl;
  closed = refl;
  recurrence_of = refl;
}

ranked_same : (a b : BacklogItem) (r : ℤ) → IsSameItem a b → IsSameItem a (record b { rank = r })
ranked_same a b r s = record {
  id = s.id;
  fingerprint = s.fingerprint;
  title = s.title;
  protected_consequence = s.protected_consequence;
  source = s.source;
  closed = s.closed;
  recurrence_of = s.recurrence_of;
}

blocked_same : (a b : BacklogItem) → IsSameItem a b → IsSameItem a (record b { blocked = true })
blocked_same a b s = record {
  id = s.id;
  fingerprint = s.fingerprint;
  title = s.title;
  protected_consequence = s.protected_consequence;
  source = s.source;
  closed = s.closed;
  recurrence_of = s.recurrence_of;
}

-- Where an item comes from: a given item, or an effect that creates it.
pub data Origin (items : List BacklogItem) (effects : List BacklogEffect) (i : BacklogItem)
    : Type 0 where
  given : (g : BacklogItem) → In g items → IsSameItem g i → Origin items effects i
  made :
      (e : BacklogEffect)
      → In e effects
      → e.kind ≡ create
      → IsSameItem (created_item e) i
      → Origin items effects i

Origin-map :
    (items : List BacklogItem) (effects : List BacklogEffect) (i j : BacklogItem)
    → ((a : BacklogItem) → IsSameItem a i → IsSameItem a j)
    → Origin items effects i
    → Origin items effects j
Origin-map items effects i j step (given g m s) = given g m (step g s)
Origin-map items effects i j step (made e m k s) = made e m k (step (created_item e) s)

lookup-In : (k : String) (d : ById) (i : BacklogItem) → lookup k d ≡ some i → In (k, i) d
unfolding lookup
lookup-In k [] i h = cc
lookup-In k ((j, w) ∷ d) i h = ground (arith, lookup-In k d i)

-- An effect that applies to an item leaves the dictionary, ranks the item or blocks it.
change_item-cases :
    (d next : ById) (e : BacklogEffect) (i : BacklogItem)
    → change_item d e i ≡ ok next
    → (next ≡ d)
      ⊎ ((next ≡ put i.id (record i { rank = rank_or_zero e.rank }) d)
          ⊎ (next ≡ put i.id (record i { blocked = true }) d))
unfolding change_item
change_item-cases d next e i h = ground arith

module _ (policy : BacklogPolicy) (items : List BacklogItem) (effects : List BacklogEffect) where
  -- The dictionary files every item under its identity, and each has an origin.
  abbrev IsFiled : ById → Type 0
  IsFiled d = (p : String × BacklogItem) → In p d → (p.0 ≡ p.1.id) × Origin items effects p.1

  put-IsFiled :
      (d : ById) (i : BacklogItem) → IsFiled d → Origin items effects i → IsFiled (put i.id i d)
  put-IsFiled d i filed from p m = elim (In-put i.id i d p m) [
    | inl old ↦ filed p old
    | inr (key, new) ↦ (
      key ∙ sym (ap (λ (x : BacklogItem). x.id) new),
      subst (Origin items effects) (sym new) from,
    )
  ]

  index-IsFiled :
      (d : ById) (is : List BacklogItem)
      → ((i : BacklogItem) → In i is → In i items)
      → IsFiled d
      → IsFiled (index_by_id d is)
  unfolding index_by_id
  index-IsFiled d [] within filed = filed
  index-IsFiled d (i ∷ is) within filed =
      index-IsFiled (put i.id i d) is (λ j m. within j (inr m))
        (put-IsFiled d i filed (given i (within i (inl refl)) (same_item i)))

  abbrev Keeps : ById → ById → Type 0
  Keeps d next = IsFiled next × ((k : String) → In k (keys d) → In k (keys next))

  put-Keeps :
      (d : ById) (i : BacklogItem) → IsFiled d → Origin items effects i → Keeps d (put i.id i d)
  put-Keeps d i filed from = (put-IsFiled d i filed from, λ k m. put_keeps i.id k i d m)

  change_item-Keeps :
      (d next : ById) (e : BacklogEffect) (i : BacklogItem)
      → IsFiled d
      → Origin items effects i
      → change_item d e i ≡ ok next
      → Keeps d next
  change_item-Keeps d next e i filed from h = elim (change_item-cases d next e i h) [
    | inl same ↦ subst (Keeps d) (sym same) (filed, λ k m. m)
    | inr (inl ranked) ↦ subst (Keeps d) (sym ranked) (
        put-Keeps d (record i { rank = rank_or_zero e.rank }) filed
          (Origin-map items effects i _ (λ a s. ranked_same a i (rank_or_zero e.rank) s) from))
    | inr (inr blocks) ↦ subst (Keeps d) (sym blocks) (
        put-Keeps d (record i { blocked = true }) filed
          (Origin-map items effects i _ (λ a s. blocked_same a i s) from))
  ]

  apply_effect-IsStep :
      (d next : ById) (e : BacklogEffect)
      → In e effects
      → IsFiled d
      → apply_effect policy d e ≡ ok next
      → (contains policy.allowed_apply_effects e.kind ≡ true) × Keeps d next
  unfolding apply_effect created_item
  apply_effect-IsStep d next e m filed h =
      if_split (not (contains policy.allowed_apply_effects e.kind)) h
        (λ _ r. absurd (raise-ne-ok r))
        (λ allowed r. elim (Option-cases (lookup e.target_item_id d)) [
          | inl fresh ↦
              if_split (e.kind == create) (rw fresh at r)
                (λ creates same. (
                  ground arith,
                  subst (Keeps d) (ok_injective same) (
                      put-Keeps d (created_item e) filed
                        (made e m ((==_iff e.kind create).0 creates) (same_item (created_item e)))),
                ))
                (λ _ fails. absurd (raise-ne-ok fails))
          | inr (i, found) ↦ (
            ground arith,
            change_item-Keeps d next e i filed (filed _ (lookup-In e.target_item_id d i found)).1
                (rw found at r),
          )
        ])

  apply_all-Keeps :
      (d next : ById) (es : List BacklogEffect)
      → ((e : BacklogEffect) → In e es → In e effects)
      → IsFiled d
      → apply_all policy d es ≡ ok next
      → ((e : BacklogEffect) → In e es → contains policy.allowed_apply_effects e.kind ≡ true)
        × Keeps d next
  unfolding apply_all
  apply_all-Keeps d next [] within filed h =
      ((λ e m. absurd m), subst (Keeps d) (ok_injective h) (filed, λ k m. m))
  apply_all-Keeps d next (e ∷ es) within filed h =
      let (middle, first, rest) = >>=-eq-ok (apply_effect policy d e) _ h in
      let (allowed, (filed_middle, kept)) =
        apply_effect-IsStep d middle e (within e (inl refl)) filed first in
      let (others, (filed_next, kept_on)) =
        apply_all-Keeps middle next es (λ x m. within x (inr m)) filed_middle rest in
      (
        (λ x m. elim m [
          | inl here ↦
              subst (λ y. contains policy.allowed_apply_effects y.kind ≡ true) (sym here) allowed
          | inr later ↦ others x later
        ]),
        (filed_next, λ k m. kept_on k (kept k m)),
      )

  keys-index :
      (d : ById) (is : List BacklogItem) (k : String)
      → In k (map (λ (i : BacklogItem). i.id) is) ⊎ In k (keys d)
      → In k (keys (index_by_id d is))
  unfolding index_by_id
  keys-index d [] k (inl m) = absurd m
  keys-index d [] k (inr m) = m
  keys-index d (i ∷ is) k (inl (inr m)) = keys-index (put i.id i d) is k (inl m)
  keys-index d (i ∷ is) k (inl (inl here)) =
      keys-index (put i.id i d) is k
        (inr (subst (λ j. In j (keys (put i.id i d))) (sym here) (put-In i.id i d)))
  keys-index d (i ∷ is) k (inr m) = keys-index (put i.id i d) is k (inr (put_keeps i.id k i d m))

  -- What a returned projection guarantees.
  pub record IsProjection (result : List BacklogItem) : Type 0 where
    pub authorized :
        (e : BacklogEffect) → In e effects → contains policy.allowed_apply_effects e.kind ≡ true
    pub origin : (i : BacklogItem) → In i result → Origin items effects i
    pub present : (g : BacklogItem) → In g items → (i : BacklogItem) × In i result × (i.id ≡ g.id)

  -- When applying effects returns, every effect was of a kind that the policy allows; every resulting
  -- item is a given one, or one that an effect creates, with at most its rank and its block changed; and
  -- every given identity is still there. So no item is ever closed, reopened, renamed or dropped.
  pub apply_effects-IsProjection :
      (result : List BacklogItem)
      → apply_effects items effects policy ≡ ok result
      → IsProjection result
  unfolding apply_effects
  apply_effects-IsProjection result h =
      let (d, applied, shown) = >>=-eq-ok (apply_all policy (index_by_id [] items) effects) _ h in
      let start = index-IsFiled [] items (λ i m. m) (λ p m. absurd m) in
      let (allowed, (filed, kept)) =
        apply_all-Keeps (index_by_id [] items) d effects (λ e m. m) start applied in
      let values = map (λ (p : String × BacklogItem). p.1) d in
      let same : sorted {K = ItemKey} item_key values ≡ result = ok_injective shown in
      record {
        authorized = allowed;
        origin = λ i m.
            let (p, listed, e) =
              In-map (λ (p : String × BacklogItem). p.1) i d
                (In-sorted {K = ItemKey} item_key i values (subst (In i) (sym same) m)) in
            subst (Origin items effects) (sym e) (filed p listed).1;
        present = λ g m.
            let there =
              kept g.id
                (keys-index [] items g.id (inl (map-In (λ (i : BacklogItem). i.id) g items m))) in
            let (p, listed, key) = keys-In g.id d there in
            (
              p.1,
              subst (In p.1) same (
                  sorted-In {K = ItemKey} item_key p.1 values
                    (map-In (λ (p : String × BacklogItem). p.1) p d listed)),
              sym (filed p listed).0 ∙ key,
            );
      }
