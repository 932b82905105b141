-- ===== src/Scheduler/Dedupe.antt =====
-- What `deduplicate_obligations` keeps of the given entries.
use ratcheting_consequence_i.Base.{
  String, ◌≡◌, ◌∙◌, refl, sym, ap, ap₂, true, ◌⊎◌, inl, inr, List, [], ◌∷◌, map, In, distinct,
  subst, In-map, map-In, All-In, string_eq,
}
use ratcheting_consequence_i.Base.Keyed.{
  keys, set_default, In-set_default, set_default-In, set_default_present, distinct-set_default,
}
use ratcheting_consequence_i.Base.Order.{le, le_refl, nat_ord, string_ord, pair_ord}
use ratcheting_consequence_i.Base.Sort.{sorted, IsSorted, In-sorted, sorted-In, sorted-IsSorted}
use ratcheting_consequence_i.Canonical.{Hashing}
use ratcheting_consequence_i.Claims.{obligation_fingerprint}
use ratcheting_consequence_i.Scheduler.{
  ObligationEntry, creation_key, keep_first, deduplicate_obligations,
}

abbrev pub Kept : Type 0
Kept = String × ObligationEntry

module _ (h : Hashing) where
  abbrev pub print_of : ObligationEntry → String
  print_of e = obligation_fingerprint h e.obligation

  -- Where the kept pairs come from.
  In-keep_first :
      (kept : List Kept) (entries : List ObligationEntry) (k : Kept)
      → In k (keep_first h kept entries)
      → In k kept ⊎ (In k.1 entries × (k.0 ≡ print_of k.1))
  unfolding keep_first
  In-keep_first kept [] k m = inl m
  In-keep_first kept (e ∷ rest) k m =
      elim (In-keep_first (set_default (print_of e) e kept) rest k m) [
        | inl old ↦ elim (In-set_default (print_of e) e kept k old) [
          | inl before ↦ inl before
          | inr new ↦ inr (inl (ap (λ (x : Kept). x.1) new), cc)
        ]
        | inr later ↦ inr (inr later.0, later.1)
      ]

  keep_first-In :
      (kept : List Kept) (entries : List ObligationEntry) (k : Kept)
      → In k kept
      → In k (keep_first h kept entries)
  unfolding keep_first
  keep_first-In kept [] k m = m
  keep_first-In kept (e ∷ rest) k m =
      keep_first-In (set_default (print_of e) e kept) rest k
        (set_default-In (print_of e) e kept k m)

  keys-keep_first :
      (kept : List Kept) (entries : List ObligationEntry)
      → distinct (keys kept) ≡ true
      → distinct (keys (keep_first h kept entries)) ≡ true
  unfolding keep_first
  keys-keep_first kept [] d = d
  keys-keep_first kept (e ∷ rest) d =
      keys-keep_first (set_default (print_of e) e kept) rest
        (distinct-set_default (print_of e) e kept d)

  -- A kept pair for the entry's fingerprint, which was there before or is no later than the entry.
  Covers : List Kept → List Kept → ObligationEntry → Type 0
  Covers kept result e =
      (k : Kept) × In k result
      × (k.0 ≡ print_of e)
      × (In k kept ⊎ (le (creation_key k.1) (creation_key e) ≡ true))

  abbrev pub LeKey : ObligationEntry → ObligationEntry → Type 0
  LeKey a b = le (creation_key a) (creation_key b) ≡ true

  LeKey-same : (a e first : ObligationEntry) → a ≡ first → e ≡ first → LeKey a e
  LeKey-same a e first p q = subst (λ x. LeKey x e) (sym (p ∙ sym q)) (le_refl (creation_key e))

  keep_first-Covers :
      (kept : List Kept) (entries : List ObligationEntry)
      → IsSorted creation_key entries
      → (e : ObligationEntry) → In e entries
      → Covers kept (keep_first h kept entries) e
  unfolding keep_first Covers
  keep_first-Covers kept [] s e m = absurd m
  keep_first-Covers kept (first ∷ rest) s e (inl same) =
      let (k, present, named, from) = set_default_present (print_of first) first kept in
      (
        k,
        keep_first-In (set_default (print_of first) first kept) rest k present,
        named ∙ ap print_of (sym same),
        elim from [ inl before ↦ inl before | inr new ↦ inr (LeKey-same k.1 e first new same) ],
      )
  keep_first-Covers kept (first ∷ rest) s e (inr m) =
      let (k, present, named, from) =
        keep_first-Covers (set_default (print_of first) first kept) rest s.1 e m in
      (
        k,
        present,
        named,
        elim from [
          | inl among ↦ elim (In-set_default (print_of first) first kept k among) [
            | inl before ↦ inl before
            | inr new ↦ inr (
                subst (λ x. LeKey x e) (sym (ap (λ (x : Kept). x.1) new))
                  (All-In (LeKey first) e rest s.0 m))
          ]
          | inr earlier ↦ inr earlier
        ],
      )

  In-deduplicate :
      (entries : List ObligationEntry) (e : ObligationEntry)
      → In e (deduplicate_obligations h entries)
      → (k : Kept) × In k (keep_first h [] (sorted creation_key entries))
        × (e ≡ k.1)
        × In k.1 entries
        × (k.0 ≡ print_of k.1)
  unfolding deduplicate_obligations
  In-deduplicate entries e m =
      let (k, present, same) = In-map (λ (x : Kept). x.1) e _ m in
      elim (In-keep_first [] (sorted creation_key entries) k present) [
        | inl old ↦ absurd old
        | inr (listed, named) ↦ (k, present, same, In-sorted creation_key k.1 entries listed, named)
      ]

  keys_are_prints :
      (kept : List Kept)
      → ((k : Kept) → In k kept → k.0 ≡ print_of k.1)
      → keys kept ≡ map print_of (map (λ (x : Kept). x.1) kept)
  keys_are_prints [] named = refl
  keys_are_prints ((f, e) ∷ kept) named =
      ap₂ ◌∷◌ (named (f, e) (inl refl)) (keys_are_prints kept (λ k m. named k (inr m)))

  -- What deduplication gives: no two entries with one fingerprint; only given entries; and for every
  -- given entry one with its fingerprint that is no later, by creation and then by identity.
  pub record IsDeduplication (entries kept : List ObligationEntry) : Type 0 where
    pub prints_distinct : distinct (map print_of kept) ≡ true
    pub given : (e : ObligationEntry) → In e kept → In e entries
    pub earliest :
        (e : ObligationEntry)
        → In e entries
        → (k : ObligationEntry) × In k kept × (print_of k ≡ print_of e) × LeKey k e

  -- Deduplication keeps, of each fingerprint among the given entries, exactly one entry, which is
  -- given and is the earliest by creation sequence and then by identity.
  pub deduplicate_obligations-IsDeduplication :
      (entries : List ObligationEntry) → IsDeduplication entries (deduplicate_obligations h entries)
  unfolding deduplicate_obligations distinct Covers
  deduplicate_obligations-IsDeduplication entries =
      let kept = keep_first h [] (sorted creation_key entries) in
      let named : (k : Kept) → In k kept → k.0 ≡ print_of k.1 = λ k m.
        elim (In-keep_first [] (sorted creation_key entries) k m) [
          | inl old ↦ absurd old
          | inr found ↦ found.1
        ] in
      record {
        prints_distinct =
            subst (λ l. distinct l ≡ true) (keys_are_prints kept named)
              (keys-keep_first [] (sorted creation_key entries) refl);
        given = λ e m.
            let (k, present, same, listed, _) = In-deduplicate entries e m in
            subst (λ x. In x entries) (sym same) listed;
        earliest = λ e m.
            let (k, present, print, from) =
              keep_first-Covers [] (sorted creation_key entries)
                (sorted-IsSorted creation_key entries) e (sorted-In creation_key e entries m) in
            (
              k.1,
              map-In (λ (x : Kept). x.1) k kept present,
              sym (named k present) ∙ print,
              elim from [ inl old ↦ absurd old | inr earlier ↦ earlier ],
            );
      }
