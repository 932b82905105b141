-- ===== src/Backlog/Reconcile/Fold.antt =====
-- What `reconcile` of src/rci/backlog/reconcile.py returns over all findings.
use ratcheting_consequence_i.Base.{
  String, ◌≡◌, refl, sym, ap, subst, ◌∙◌, Bool, true, false, not, none, some, List, [], ◌∷◌, ◌++◌,
  map, ◌==◌, contains, keep, distinct, arith, In, ◌⊎◌, inl, inr, if◌then◌else◌, Bool-cases,
  Option-cases, In-append, In-append_left, In-append_right, contains-In, is_none, string_eq, ok,
}
use ratcheting_consequence_i.Base.Keyed.{
  lookup, put, keys, set_default, lookup-set_default, put-In, put_keeps,
}
use ratcheting_consequence_i.Base.Order.{int_ord, string_ord, pair_ord}
use ratcheting_consequence_i.Base.Sort.{sorted, In-sorted, sorted-In}
use ratcheting_consequence_i.Backlog.Models.{
  Texts, evidence_status_eq, rank, effect_kind_eq, BacklogFinding, BacklogItem, BacklogEffect,
  valid_finding, fingerprint_of,
}
use ratcheting_consequence_i.Backlog.Reconcile.{
  ByFingerprint, index_items, FindingKey, finding_key, matched_item, new_item, reconcile_from,
  reconcile,
}
use ratcheting_consequence_i.Backlog.Reconcile.Effects.{
  is_checked, is_create, checked_digest, IsEffectOf, IsFindingEffects, finding_effects-Returns,
}

-- The fingerprints for which effects create an item.
unfoldable pub created_prints : List BacklogEffect → List String
unfolding keep
created_prints es = map (λ (e : BacklogEffect). e.fingerprint) (keep is_create es)

created-append :
    (xs ys : List BacklogEffect)
    → created_prints (xs ++ ys) ≡ created_prints xs ++ created_prints ys
unfolding created_prints keep
created-append [] ys = refl
created-append (x ∷ xs) ys = elim (Bool-cases (is_create x)) [
  | inl creates ↦ rw (creates, keep) (ap (λ l. x.fingerprint ∷ l) (created-append xs ys))
  | inr other ↦ rw (other, keep) (created-append xs ys)
]

other_itself : (k : String) → ¬ ((k == k) ≡ false)
other_itself k h = ground arith

unchecked : (g f : BacklogFinding) → g ≡ f → is_checked f ≡ false → ¬ (is_checked g ≡ true)
unchecked g f same skipped is = cc (sym skipped ∙ ap is_checked (sym same) ∙ is)

lookup-none : (k : String) (d : ByFingerprint) → lookup k d ≡ none → ¬ In k (keys d)
unfolding lookup
lookup-none k [] h m = m
lookup-none k ((j, w) ∷ d) h m = ground (arith, lookup-none k d)

-- Every item that passes the test has its fingerprint in the index.
keys-index_items :
    (test : BacklogItem → Bool) (d : ByFingerprint) (is : List BacklogItem) (k : String)
    → ((i : BacklogItem) × In i is × (test i ≡ true) × (i.fingerprint ≡ k)) ⊎ In k (keys d)
    → In k (keys (index_items test d is))
unfolding index_items
keys-index_items test d [] k (inl (i, m, passes, same)) = absurd m
keys-index_items test d [] k (inr m) = m
keys-index_items test d (x ∷ is) k (inl (i, inl here, passes, same)) =
    let taken : test x ≡ true = ap test (sym here) ∙ passes in
    keys-index_items test (if test x then put x.fingerprint x d else d) is k (
      inr (
        rw taken (
          subst (λ j. In j (keys (put x.fingerprint x d)))
            (ap (λ (y : BacklogItem). y.fingerprint) (sym here) ∙ same)
            (put-In x.fingerprint x d))))
keys-index_items test d (x ∷ is) k (inl (i, inr m, passes, same)) =
    keys-index_items test (if test x then put x.fingerprint x d else d) is k
      (inl (i, m, passes, same))
keys-index_items test d (x ∷ is) k (inr m) =
    keys-index_items test (if test x then put x.fingerprint x d else d) is k (
      inr (elim (Bool-cases (test x)) [
        | inl taken ↦ rw taken (put_keeps x.fingerprint k x d m)
        | inr left ↦ rw left m
      ]))

module _ (t : Texts) where
  -- What a returned list of effects holds, given the open items by fingerprint.
  record Holds (existing : ByFingerprint) (fs : List BacklogFinding) (es : List BacklogEffect)
      : Type 0 where
    sound :
        (e : BacklogEffect)
        → In e es
        → (f : BacklogFinding) × In f fs × (is_checked f ≡ true) × IsEffectOf t f e
    ranked :
        (f : BacklogFinding)
        → In f fs
        → is_checked f ≡ true
        → (e : BacklogEffect) × In e es
          × IsEffectOf t f e
          × (e.kind ≡ rank)
          × (e.rank ≡ some f.priority)
    fresh : (k : String) → In k (created_prints es) → lookup k existing ≡ none
    once : distinct (created_prints es) ≡ true

  not_create : (e : BacklogEffect) → e.kind ≡ rank → is_create e ≡ false
  unfolding effect_kind_eq
  not_create e is_rank = rw is_rank refl

  -- The creations among one finding's effects: one, for a fingerprint without an open item.
  created_here :
      (existing : ByFingerprint) (f : BacklogFinding) (es : List BacklogEffect)
      → IsFindingEffects t existing f es
      → created_prints es
        ≡ (if is_none (matched_item t existing f) then fingerprint_of t f ∷ [] else [])
  unfolding created_prints keep
  created_here existing f es parts =
      let plain = not_create parts.ranked parts.ranks.0 in
      rw (parts.shape, ← parts.creates)
        (elim (Bool-cases (is_create parts.first)) [
          | inl creates ↦
              rw (creates, plain, parts.no_more_creates, keep)
                (ap (λ k. k ∷ []) parts.first_of.print)
          | inr other ↦ rw (other, plain, parts.no_more_creates, keep) refl
        ])

  effects_sound :
      (existing : ByFingerprint) (f : BacklogFinding) (es : List BacklogEffect)
      → IsFindingEffects t existing f es
      → (e : BacklogEffect) → In e es
      → IsEffectOf t f e
  effects_sound existing f es parts e m = elim (subst (In e) parts.shape m) [
    | inl here ↦ subst (IsEffectOf t f) (sym here) parts.first_of
    | inr (inl here) ↦ subst (IsEffectOf t f) (sym here) parts.ranked_of
    | inr (inr other) ↦ parts.others_of e other
  ]

  -- What is found under a key after `setdefault` was not there before, or is what was there.
  fresh_before :
      (k j : String) (i : BacklogItem) (d : ByFingerprint)
      → lookup k (set_default j i d) ≡ none
      → (lookup k d ≡ none) × ((j == k) ≡ false)
  fresh_before k j i d h = ground (arith, lookup-set_default j k i d)

  -- Nothing that is created later has this finding's fingerprint.
  apart :
      (existing : ByFingerprint) (f : BacklogFinding) (fs : List BacklogFinding) (i : BacklogItem)
      (later : List BacklogEffect)
      → Holds (set_default (fingerprint_of t f) i existing) fs later
      → contains (created_prints later) (fingerprint_of t f) ≡ false
  apart existing f fs i later rest =
      elim (Bool-cases (contains (created_prints later) (fingerprint_of t f))) [
        | inr absent ↦ absent
        | inl there ↦
            let (_, other) =
              fresh_before (fingerprint_of t f) (fingerprint_of t f) i existing
                (rest.fresh _ (contains-In (created_prints later) (fingerprint_of t f) there)) in
            absurd (other_itself (fingerprint_of t f) other)
      ]

  once_more :
      (existing : ByFingerprint) (f : BacklogFinding) (fs : List BacklogFinding) (i : BacklogItem)
      (es later : List BacklogEffect)
      → IsFindingEffects t existing f es
      → Holds (set_default (fingerprint_of t f) i existing) fs later
      → distinct (created_prints (es ++ later)) ≡ true
  unfolding distinct
  once_more existing f fs i es later parts rest =
      rw (created-append es later, created_here existing f es parts)
        (elim (Option-cases (matched_item t existing f)) [
          | inl unmatched ↦ rw (unmatched, apart existing f fs i later rest, rest.once) refl
          | inr (j, matched) ↦ rw matched rest.once
        ])

  hold_more :
      (existing : ByFingerprint) (f : BacklogFinding) (fs : List BacklogFinding) (i : BacklogItem)
      (es later : List BacklogEffect)
      → is_checked f ≡ true
      → IsFindingEffects t existing f es
      → Holds (set_default (fingerprint_of t f) i existing) fs later
      → Holds existing (f ∷ fs) (es ++ later)
  unfolding matched_item distinct
  hold_more existing f fs i es later checked parts rest = record {
    sound = λ e m. elim (In-append e es later m) [
      | inl here ↦ (f, inl refl, checked, effects_sound existing f es parts e here)
      | inr after ↦ let (g, listed, is, states) = rest.sound e after in (g, inr listed, is, states)
    ];
    ranked = λ g m is. elim m [
      | inl here ↦ (
        parts.ranked,
        In-append_left parts.ranked es later
            (subst (In parts.ranked) (sym parts.shape) (inr (inl refl))),
        subst (λ x. IsEffectOf t x parts.ranked) (sym here) parts.ranked_of,
        parts.ranks.0,
        parts.ranks.1 ∙ ap (λ (x : BacklogFinding). some x.priority) (sym here),
      )
      | inr after ↦
          let (e, listed, states, kind, value) = rest.ranked g after is in
          (e, In-append_right e es later listed, states, kind, value)
    ];
    fresh = λ k m.
        elim (In-append k (created_prints es) (created_prints later)
          (subst (In k) (created-append es later) m)) [
            | inr after ↦ (fresh_before k (fingerprint_of t f) i existing (rest.fresh k after)).0
            | inl here ↦ elim (Option-cases (matched_item t existing f)) [
              | inl unmatched ↦
                  let one : In k (fingerprint_of t f ∷ []) =
                    rw (created_here existing f es parts, unmatched) at here in
                  elim one [
                    | inl same ↦ subst (λ x. lookup x existing ≡ none) (sym same) unmatched
                    | inr nothing ↦ absurd nothing
                  ]
              | inr (j, matched) ↦ absurd (rw (created_here existing f es parts, matched) at here)
            ]
          ];
    once = once_more existing f fs i es later parts rest;
  }

  hold_skipped :
      (existing : ByFingerprint) (f : BacklogFinding) (fs : List BacklogFinding)
      (es : List BacklogEffect)
      → is_checked f ≡ false
      → Holds existing fs es
      → Holds existing (f ∷ fs) es
  hold_skipped existing f fs es skipped holds = record {
    sound = λ e m. let (g, listed, is, states) = holds.sound e m in (g, inr listed, is, states);
    ranked = λ g m is. elim m [
      | inl here ↦ absurd (unchecked g f here skipped is)
      | inr after ↦ holds.ranked g after is
    ];
    fresh = holds.fresh;
    once = holds.once;
  }

  -- Reconciling valid findings returns.
  reconcile_from-Holds :
      (existing closed_items : ByFingerprint) (fs : List BacklogFinding)
      → ((f : BacklogFinding) → In f fs → valid_finding f ≡ true)
      → (es : List BacklogEffect) × (reconcile_from t existing closed_items fs ≡ ok es)
        × Holds existing fs es
  unfolding reconcile_from created_prints distinct
  reconcile_from-Holds existing closed_items [] good = (
    [],
    refl,
    record {
      sound = λ e m. absurd m;
      ranked = λ f m. absurd m;
      fresh = λ k m. absurd m;
      once = refl;
    },
  )
  reconcile_from-Holds existing closed_items (f ∷ fs) good = elim (Bool-cases (is_checked f)) [
    | inr skipped ↦
        let (es, made, holds) =
          reconcile_from-Holds existing closed_items fs (λ g m. good g (inr m)) in
        (es, rw (skipped, reconcile_from) made, hold_skipped existing f fs es skipped holds)
    | inl checked ↦
        let (digest, found) = checked_digest f (good f (inl refl)) checked in
        let (es, here, parts) = finding_effects-Returns t existing closed_items f digest found in
        let item = new_item t existing closed_items f in
        let (later, made, holds) =
          reconcile_from-Holds (set_default (fingerprint_of t f) item existing) closed_items fs
            (λ g m. good g (inr m)) in
        (
          es ++ later,
          rw (checked, here, made, reconcile_from) refl,
          hold_more existing f fs item es later checked parts holds,
        )
  ]

  -- What reconciliation promises of the effects that it returns.
  pub record IsReconciliation (items : List BacklogItem) (findings : List BacklogFinding)
      (es : List BacklogEffect) : Type 0 where
    pub checked_only :
        (e : BacklogEffect)
        → In e es
        → (f : BacklogFinding) × In f findings × (is_checked f ≡ true) × IsEffectOf t f e
    pub all_ranked :
        (f : BacklogFinding)
        → In f findings
        → is_checked f ≡ true
        → (e : BacklogEffect) × In e es
          × IsEffectOf t f e
          × (e.kind ≡ rank)
          × (e.rank ≡ some f.priority)
    pub created_once : distinct (created_prints es) ≡ true
    pub created_new :
        (i : BacklogItem) → In i items → i.closed ≡ false → ¬ In i.fingerprint (created_prints es)

  -- Reconciling any items with valid findings returns. Each effect states the identity, the fingerprint
  -- and the evidence digest of a given finding whose evidence is checked; each such finding gets a rank
  -- effect with its priority; no fingerprint is created twice, and none that an open item has.
  pub reconcile-IsReconciliation :
      (items : List BacklogItem) (findings : List BacklogFinding)
      → ((f : BacklogFinding) → In f findings → valid_finding f ≡ true)
      → (es : List BacklogEffect) × (reconcile t items findings ≡ ok es)
        × IsReconciliation items findings es
  unfolding reconcile
  reconcile-IsReconciliation items findings good =
      let ordered = sorted {K = FindingKey} finding_key findings in
      let back : (f : BacklogFinding) → In f ordered → In f findings =
        λ f m. In-sorted {K = FindingKey} finding_key f findings m in
      let (es, made, holds) =
        reconcile_from-Holds (index_items (λ (i : BacklogItem). not i.closed) [] items)
          (index_items (λ (i : BacklogItem). i.closed) [] items) ordered
          (λ f m. good f (back f m)) in
      (
        es,
        made,
        record {
          checked_only = λ e m.
              let (f, listed, is, states) = holds.sound e m in (f, back f listed, is, states);
          all_ranked = λ f m. holds.ranked f (sorted-In {K = FindingKey} finding_key f findings m);
          created_once = holds.once;
          created_new = λ i m opened again.
              lookup-none i.fingerprint _ (holds.fresh i.fingerprint again) (
                keys-index_items (λ (x : BacklogItem). not x.closed) [] items i.fingerprint
                  (inl (i, m, rw opened refl, refl)));
        },
      )
