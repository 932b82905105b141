-- ===== src/Warrant/Theory/Views.antt =====
-- What `select_active_theory` of src/rci/warrant/support.py makes of the lemmas and routes that it selects.
use ratcheting_consequence_i.Base.{
  String, ◌≡◌, refl, sym, ap, subst, ◌∙◌, true, false, List, [], ◌∷◌, map, gather, contains,
  distinct, arith, Bool-cases, string_eq, In, inl, inr, ◌⊎◌, ◌↔◌, In-map, In-keep, keep-In,
  In-gather, contains-In, In-contains, subset_complete, ok, ==_refl,
}
use ratcheting_consequence_i.Base.Order.{nat_ord, string_ord, pair_ord, list_ord}
use ratcheting_consequence_i.Base.Sort.{sorted, In-sorted, sorted-In}
use ratcheting_consequence_i.Base.Minimal.{In-keep_minimal, keep_minimal_covers}
use ratcheting_consequence_i.Canonical.{Hashing}
use ratcheting_consequence_i.Warrant.Models.{SupportRoute}
use ratcheting_consequence_i.Warrant.Lemmas.{
  WarrantedLemma, lemma_id, all_support_routes, assumptions, valid_support, ActiveLemmaView,
  TheorySelector, valid_view,
}
use ratcheting_consequence_i.Warrant.Grounding.{grounded_lemma_ids, route_grounded}
use ratcheting_consequence_i.Warrant.Grounding.Least.{
  Grounded, by_route, grounded_lemma_ids-Grounded,
}
use ratcheting_consequence_i.Warrant.Theory.{
  Histories, RouteKey, route_key, route_covers, route_is_standing, standing_routes, with_routes,
  minimal_routes, circumstances_of, selected, selected_lemmas, applicable_routes, view_of,
  make_view, views_of, select_active_theory,
}
use ratcheting_consequence_i.Base.Distinct.{
  IsDistinct, IsDistinct-keep, IsDistinct-sorted, IsDistinct-minimal, distinct_injective,
}

abbrev route_id : SupportRoute → String
route_id r = r.id

-- The minimal routes are some of the routes, and there is one if there is a route.
In-minimal_routes :
    (r : SupportRoute) (routes : List SupportRoute) → In r (minimal_routes routes) → In r routes
unfolding minimal_routes
In-minimal_routes r routes m = elim (In-keep_minimal route_covers [] _ r m) [
  | inl nothing ↦ absurd nothing
  | inr listed ↦ In-sorted {K = RouteKey} route_key r routes listed
]

some_minimal_route :
    (r : SupportRoute) (routes : List SupportRoute)
    → In r routes
    → (k : SupportRoute) × In k (minimal_routes routes)
unfolding minimal_routes
some_minimal_route r routes m =
    let (k, kept, _) =
      keep_minimal_covers route_covers
        (λ a. subset_complete (assumptions a) (assumptions a) (λ x n. n)) [] _ r
        (sorted-In {K = RouteKey} route_key r routes m) in
    (k, kept)

IsDistinct-minimal_routes :
    (routes : List SupportRoute)
    → IsDistinct route_id routes
    → IsDistinct route_id (minimal_routes routes)
unfolding minimal_routes
IsDistinct-minimal_routes routes d =
    IsDistinct-minimal route_id route_covers _
      (IsDistinct-sorted route_id {K = RouteKey} route_key routes d)

module _ (h : Hashing) (hist : Histories) (sel : TheorySelector) where
  pub selected-cases :
      (l : WarrantedLemma)
      → (selected h hist sel l ≡ [])
        ⊎ (selected h hist sel l ≡ with_routes l (standing_routes hist l) ∷ [])
  unfolding selected
  selected-cases l = ground arith

  contains-selected :
      (a : String) (ls : List WarrantedLemma)
      → contains (map lemma_id ls) a ≡ false
      → contains (map lemma_id (selected_lemmas h hist sel ls)) a ≡ false
  unfolding selected_lemmas gather contains with_routes
  contains-selected a [] absent = refl
  contains-selected a (l ∷ ls) absent =
      let later = contains-selected a ls (ground arith) in
      elim (selected-cases l) [
        | inl e ↦ rw (e, gather) later
        | inr e ↦ rw (e, gather) (ground arith)
      ]

  IsDistinct-selected :
      (ls : List WarrantedLemma)
      → IsDistinct lemma_id ls
      → IsDistinct lemma_id (selected_lemmas h hist sel ls)
  unfolding selected_lemmas gather distinct with_routes
  IsDistinct-selected [] d = refl
  IsDistinct-selected (l ∷ ls) d =
      let later = IsDistinct-selected ls (ground arith) in
      let absent = contains-selected (lemma_id l) ls (ground arith) in
      elim (selected-cases l) [
        | inl e ↦ rw (e, gather) later
        | inr e ↦ rw (e, gather) (ground arith)
      ]

  -- The routes of a selected lemma keep distinct identities.
  IsDistinct-routes :
      (ls : List WarrantedLemma)
      → ((l : WarrantedLemma) → In l ls → valid_support l.support ≡ true)
      → (l : WarrantedLemma) → In l (selected_lemmas h hist sel ls)
      → IsDistinct route_id l.support.support_routes
  unfolding selected_lemmas with_routes standing_routes valid_support
  IsDistinct-routes ls ok_support l m =
      let (k, given, made) = In-gather (selected h hist sel) l ls m in
      let valid = ok_support k given in
      let d : IsDistinct route_id (all_support_routes k.support) = ground arith in
      elim (selected-cases k) [
        | inl e ↦ absurd (subst (In l) e made)
        | inr e ↦ elim (subst (In l) e made) [
          | inr nothing ↦ absurd nothing
          | inl same ↦
              subst (λ (x : WarrantedLemma). IsDistinct route_id x.support.support_routes)
                (sym same)
                (IsDistinct-keep route_id (route_is_standing hist.route_changes)
                  (all_support_routes k.support) d)
        ]
      ]

  -- What a view says of its lemma: the routes it lists are routes of the lemma that apply and whose
  -- dependencies are grounded.
  abbrev pub IsViewOf : List String → WarrantedLemma → ActiveLemmaView → Type 0
  IsViewOf g l v =
      (v.lemma_version_id ≡ lemma_id l)
      × ((x : String)
          → In x v.standing_support_route_ids
          → (r : SupportRoute) × In r l.support.support_routes
            × (x ≡ r.id)
            × (route_grounded h (circumstances_of hist sel) g l r ≡ true))

  make_view-ok :
      (l : WarrantedLemma) (k : SupportRoute) (routes : List SupportRoute)
      → In k routes
      → IsDistinct route_id routes
      → (v : ActiveLemmaView) × (make_view h hist sel l routes ≡ ok v)
        × (v.lemma_version_id ≡ lemma_id l)
        × (v.standing_support_route_ids ≡ map route_id routes)
  unfolding make_view valid_view
  make_view-ok l k [] m d = absurd m
  make_view-ok l k (primary ∷ others) m d =
      (view_of h hist sel l primary (primary ∷ others), rw (==_refl primary.id, d) refl, refl, refl)

  view_made :
      (g : List String) (l : WarrantedLemma) (r : SupportRoute)
      → IsDistinct route_id l.support.support_routes
      → In r l.support.support_routes
      → route_grounded h (circumstances_of hist sel) g l r ≡ true
      → (v : ActiveLemmaView) × (make_view h hist sel l
            (minimal_routes (applicable_routes h hist sel g l))
          ≡ ok v)
        × IsViewOf g l v
  unfolding applicable_routes
  view_made g l r d listed works =
      let test = route_grounded h (circumstances_of hist sel) g l in
      let (k, minimal) =
        some_minimal_route r (applicable_routes h hist sel g l)
          (keep-In test r l.support.support_routes listed works) in
      let (v, made, named, ids) = make_view-ok l k _ minimal (
        IsDistinct-minimal_routes (applicable_routes h hist sel g l)
          (IsDistinct-keep route_id test l.support.support_routes d)) in
      (
        v,
        made,
        (
          named,
          λ x m.
              let (s, among, same) = In-map route_id x _ (subst (In x) ids m) in
              let (there, applies) =
                In-keep test s l.support.support_routes (In-minimal_routes s _ among) in
              (s, there, same, applies),
        ),
      )

  -- The views of some of the lemmas, when every one of them that is grounded has an applicable route.
  views_made :
      (g : List String) (ls : List WarrantedLemma)
      → ((l : WarrantedLemma) → In l ls → IsDistinct route_id l.support.support_routes)
      → ((l : WarrantedLemma)
          → In l ls
          → In (lemma_id l) g
          → (r : SupportRoute) × In r l.support.support_routes
            × (route_grounded h (circumstances_of hist sel) g l r ≡ true))
      → (vs : List ActiveLemmaView) × (views_of h hist sel g ls ≡ ok vs)
        × ((v : ActiveLemmaView)
            → In v vs
            → (l : WarrantedLemma) × In l ls × In (lemma_id l) g × IsViewOf g l v)
        × ((l : WarrantedLemma)
            → In l ls
            → In (lemma_id l) g
            → In (lemma_id l) (map (λ (v : ActiveLemmaView). v.lemma_version_id) vs))
  unfolding views_of
  views_made g [] d some_route = ([], refl, (λ v m. absurd m), (λ l m. absurd m))
  views_made g (l ∷ ls) d some_route =
      let (vs, made, sound, complete) =
        views_made g ls (λ k m. d k (inr m)) (λ k m. some_route k (inr m)) in
      elim (Bool-cases (contains g (lemma_id l))) [
        | inr missing ↦ (
          vs,
          rw (missing, views_of) made,
          (λ v m. let (k, listed, has, rest) = sound v m in (k, inr listed, has, rest)),
          (λ k m known. elim m [
            | inl here ↦ cc (missing, In-contains g (lemma_id k) known, ap lemma_id here)
            | inr later ↦ complete k later known
          ]),
        )
        | inl there ↦
            let known = contains-In g (lemma_id l) there in
            let (r, listed, works) = some_route l (inl refl) known in
            let (v, first, shows) = view_made g l r (d l (inl refl)) listed works in
            (
              v ∷ vs,
              rw (there, views_of, first, made) refl,
              (λ u m. elim m [
                | inl here ↦ (l, inl refl, known, subst (IsViewOf g l) (sym here) shows)
                | inr later ↦ let (k, among, has, rest) = sound u later in (k, inr among, has, rest)
              ]),
              (λ k m also. elim m [
                | inl here ↦ inl (ap lemma_id here ∙ sym shows.0)
                | inr later ↦ inr (complete k later also)
              ]),
            )
      ]

  -- What the view of the active theory shows.
  pub record IsShown (ls : List WarrantedLemma) (vs : List ActiveLemmaView) : Type 0 where
    pub exact :
        (x : String)
        → In x (map (λ (v : ActiveLemmaView). v.lemma_version_id) vs)
          ↔ Grounded h (circumstances_of hist sel) ls x
    pub shown :
        (v : ActiveLemmaView)
        → In v vs
        → (l : WarrantedLemma) × In l ls
          × IsViewOf (grounded_lemma_ids h (circumstances_of hist sel) ls) l v

  grounded_lemma :
      (ls : List WarrantedLemma) (x : String)
      → Grounded h (circumstances_of hist sel) ls x
      → (l : WarrantedLemma) × In l ls × (x ≡ lemma_id l)
  grounded_lemma ls _ (by_route l r listed is_hard among applies needs) = (l, listed, refl)

  grounded_route :
      (ls : List WarrantedLemma) (l : WarrantedLemma)
      → IsDistinct lemma_id ls
      → In l ls
      → (x : String) → x ≡ lemma_id l
      → Grounded h (circumstances_of hist sel) ls x
      → (r : SupportRoute) × In r l.support.support_routes
        × (route_grounded h
              (circumstances_of hist sel)
              (grounded_lemma_ids h (circumstances_of hist sel) ls)
              l
              r
            ≡ true)
  unfolding route_grounded
  grounded_route ls l d m _ same (by_route k r listed is_hard among applies needs) =
      let exact = grounded_lemma_ids-Grounded h (circumstances_of hist sel) ls in
      let one = distinct_injective lemma_id k l ls d listed m same in
      subst
        (λ (j : WarrantedLemma).
          (s : SupportRoute) × In s j.support.support_routes
          × (route_grounded h (circumstances_of hist sel)
                (grounded_lemma_ids h (circumstances_of hist sel) ls) j s
              ≡ true))
        one
        (
          r,
          among,
          rw (applies, route_grounded)
              (subset_complete r.required_dependency_ids _ (λ x n. (exact.1 x).1 (needs x n))),
        )

  -- The views that are returned are those of the grounded ones of the selected lemmas.
  pub select_active_theory-IsShown :
      (lemmas : List WarrantedLemma)
      → IsDistinct lemma_id lemmas
      → ((l : WarrantedLemma) → In l lemmas → valid_support l.support ≡ true)
      → (vs : List ActiveLemmaView) × (select_active_theory h hist sel lemmas ≡ ok vs)
        × IsShown (selected_lemmas h hist sel lemmas) vs
  unfolding select_active_theory
  select_active_theory-IsShown lemmas d ok_support =
      let ls = selected_lemmas h hist sel lemmas in
      let c = circumstances_of hist sel in
      let exact = grounded_lemma_ids-Grounded h c ls in
      let unique = IsDistinct-selected lemmas d in
      let (vs, made, sound, complete) =
        views_made (grounded_lemma_ids h c ls) (sorted lemma_id ls)
          (λ l m. IsDistinct-routes lemmas ok_support l (In-sorted lemma_id l ls m))
          (λ l m known.
            grounded_route ls l unique (In-sorted lemma_id l ls m) (lemma_id l) refl
              ((exact.1 (lemma_id l)).0 known)) in
      (
        vs,
        made,
        record {
          exact = λ x. (
            (λ m.
                let (v, listed, same) =
                  In-map (λ (u : ActiveLemmaView). u.lemma_version_id) x vs m in
                let (l, _, known, shows) = sound v listed in
                subst (Grounded h c ls) (sym (same ∙ shows.0)) ((exact.1 (lemma_id l)).0 known)),
            (λ by.
                let (l, listed, same) = grounded_lemma ls x by in
                subst (λ y. In y (map (λ (u : ActiveLemmaView). u.lemma_version_id) vs)) (sym same)
                  (complete l (sorted-In lemma_id l ls listed)
                    ((exact.1 (lemma_id l)).1 (subst (Grounded h c ls) same by)))),
          );
          shown = λ v m.
              let (l, listed, _, shows) = sound v m in (l, In-sorted lemma_id l ls listed, shows);
        },
      )
