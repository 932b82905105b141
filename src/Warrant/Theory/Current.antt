-- ===== src/Warrant/Theory/Current.antt =====
-- `select_active_theory` of src/rci/warrant/support.py against the meaning of its arguments: the lemmas of
-- the selector, with the routes and nogoods that stand by their histories.
use ratcheting_consequence_i.Base.{
  String, ◌≡◌, refl, sym, ap, subst, ◌∙◌, Bool, true, false, ◌&&◌, List, [], ◌∷◌, map, arith,
  Bool-cases, string_eq, option_eq, In, inl, inr, ◌⊎◌, ◌↔◌, In-append, In-append_left,
  In-append_right, In-keep, keep-In, In-gather, gather-In, subset_sound, and_parts, ok, ◌==◌,
  is_empty,
}
use ratcheting_consequence_i.Canonical.{Hashing}
use ratcheting_consequence_i.Claims.{scope_fingerprint}
use ratcheting_consequence_i.Base.Distinct.{IsDistinct}
use ratcheting_consequence_i.Warrant.Models.{SupportRoute, Nogood, hard}
use ratcheting_consequence_i.Warrant.Lemmas.{
  WarrantedLemma, lemma_id, all_support_routes, valid_support, ActiveLemmaView, TheorySelector,
}
use ratcheting_consequence_i.Warrant.Routes.{Circumstances, route_applicable}
use ratcheting_consequence_i.Warrant.Grounding.{route_grounded}
use ratcheting_consequence_i.Warrant.Grounding.Least.{
  Grounded, by_route, grounded_lemma_ids-Grounded,
}
use ratcheting_consequence_i.Warrant.Theory.{
  Histories, route_is_standing, nogood_is_standing, standing_routes, standing_nogoods, with_routes,
  circumstances_of, is_selected, selected, selected_lemmas, select_active_theory,
}
use ratcheting_consequence_i.Warrant.Theory.Standing.{
  RouteStands, NogoodStands, route_is_standing-Stands, nogood_is_standing-Stands,
}
use ratcheting_consequence_i.Warrant.Theory.Views.{select_active_theory-IsShown}

module _ (h : Hashing) (hist : Histories) (sel : TheorySelector) where
  -- The lemma is of the selector's scope, binding, universe and policy.
  pub record IsOf (l : WarrantedLemma) : Type 0 where
    pub scope : scope_fingerprint h l.version.scope ≡ sel.scope_fingerprint
    pub binding : l.version.scope.binding_revision ≡ sel.binding_revision
    pub universe : l.version.scope.finite_universe_hash ≡ sel.finite_universe_hash
    pub policy : l.support.policy_version ≡ sel.policy_version

  -- The nogood is given, of the selector, and stands.
  pub record IsNogood (n : Nogood) : Type 0 where
    pub given : In n hist.nogoods
    pub scope : n.scope_fingerprint ≡ sel.scope_fingerprint
    pub binding : n.binding_revision ≡ sel.binding_revision
    pub universe : n.finite_universe_hash ≡ sel.finite_universe_hash
    pub policy : n.policy_version ≡ sel.policy_version
    pub stands : NogoodStands hist.nogood_changes n

  -- The circumstances are the selector's, the recorded evidence, and the nogoods that count.
  pub record IsCurrent (c : Circumstances) : Type 0 where
    pub assumptions : c.current_assumption_ids ≡ sel.current_assumption_ids
    pub contexts : c.current_context_ids ≡ sel.current_context_ids
    pub evidence : c.evidence_records ≡ hist.evidence_records
    pub verdicts : c.checker_verdicts ≡ hist.checker_verdicts
    pub checkers : c.authorized_checker_ids ≡ hist.authorized_checker_ids
    pub nogoods : (n : Nogood) → In n c.nogoods ↔ IsNogood n

  -- A current or historical route of the lemma that stands and applies.
  pub record Serves (c : Circumstances) (l : WarrantedLemma) (r : SupportRoute) : Type 0 where
    pub owned : In r l.support.support_routes ⊎ In r l.support.historical_support_routes
    pub stands : RouteStands hist.route_changes r
    pub applies : route_applicable h c l r ≡ true

  -- A hard lemma of the selector is active by a serving route whose required dependencies are active.
  pub data Active (c : Circumstances) (lemmas : List WarrantedLemma) : String → Type 0 where
    active_by :
        (l : WarrantedLemma) (r : SupportRoute)
        → In l lemmas
        → IsOf l
        → l.support.warrant_class ≡ hard
        → Serves c l r
        → ((d : String) → In d r.required_dependency_ids → Active c lemmas d)
        → Active c lemmas (lemma_id l)

  is_selected-IsOf : (l : WarrantedLemma) → (is_selected h hist sel l ≡ true) ↔ IsOf l
  unfolding is_selected
  is_selected-IsOf l = (
    (λ e. record {
      scope = ground arith;
      binding = ground arith;
      universe = ground arith;
      policy = ground arith;
    }),
    (λ o. ground (arith, o.scope, o.binding, o.universe, o.policy)),
  )

  abbrev nogood_counts : Nogood → Bool
  nogood_counts n =
      (n.scope_fingerprint == sel.scope_fingerprint)
      && (n.binding_revision == sel.binding_revision)
      && (n.finite_universe_hash == sel.finite_universe_hash)
      && (n.policy_version == sel.policy_version)
      && nogood_is_standing hist.nogood_changes n

  circumstances_of-IsCurrent : IsCurrent (circumstances_of hist sel)
  unfolding circumstances_of standing_nogoods
  circumstances_of-IsCurrent = record {
    assumptions = refl;
    contexts = refl;
    evidence = refl;
    verdicts = refl;
    checkers = refl;
    nogoods = λ n. (
      (λ m.
          let (given, e) = In-keep nogood_counts n hist.nogoods m in
          record {
            given = given;
            scope = ground arith;
            binding = ground arith;
            universe = ground arith;
            policy = ground arith;
            stands = (nogood_is_standing-Stands hist.nogood_changes n).0 (ground arith);
          }),
      (λ i.
          let stands = (nogood_is_standing-Stands hist.nogood_changes n).1 i.stands in
          keep-In nogood_counts n hist.nogoods i.given
            (ground (arith, i.scope, i.binding, i.universe, i.policy))),
    );
  }

  selected-made :
      (k l : WarrantedLemma)
      → In l (selected h hist sel k)
      → (is_selected h hist sel k ≡ true) × (l ≡ with_routes k (standing_routes hist k))
  unfolding selected
  selected-made k l m = elim (Bool-cases (is_selected h hist sel k)) [
    | inr other ↦ absurd (rw (other, selected) at m)
    | inl is ↦ elim (Bool-cases (is_empty (standing_routes hist k))) [
      | inl none_stands ↦ absurd (rw (is, none_stands, selected) at m)
      | inr some_stands ↦ elim (rw (is, some_stands, selected) at m) [
        | inl same ↦ (is, same)
        | inr nothing ↦ absurd nothing
      ]
    ]
  ]

  In-standing_routes :
      (l : WarrantedLemma) (r : SupportRoute)
      → In r (standing_routes hist l) ↔ (
          (In r l.support.support_routes ⊎ In r l.support.historical_support_routes)
          × RouteStands hist.route_changes r)
  unfolding standing_routes
  In-standing_routes l r = (
    (λ m.
        let (among, e) =
          In-keep (route_is_standing hist.route_changes) r (all_support_routes l.support) m in
        (
          In-append r l.support.support_routes l.support.historical_support_routes among,
          (route_is_standing-Stands hist.route_changes r).0 e,
        )),
    (λ both.
        let among : In r (all_support_routes l.support) = elim both.0 [
          | inl present ↦ In-append_left r l.support.support_routes _ present
          | inr past ↦ In-append_right r l.support.support_routes _ past
        ] in
        keep-In (route_is_standing hist.route_changes) r (all_support_routes l.support) among
          ((route_is_standing-Stands hist.route_changes r).1 both.1)),
  )

  nonempty : (r : SupportRoute) (rs : List SupportRoute) → In r rs → is_empty rs ≡ false
  nonempty r [] m = absurd m
  nonempty r (x ∷ rs) m = refl

  made-selected :
      (l : WarrantedLemma) (r : SupportRoute) (lemmas : List WarrantedLemma)
      → In l lemmas
      → IsOf l
      → In r (standing_routes hist l)
      → In (with_routes l (standing_routes hist l)) (selected_lemmas h hist sel lemmas)
  unfolding selected_lemmas
  made-selected l r lemmas m o listed = gather-In (selected h hist sel) l _ lemmas m (
      rw ((is_selected-IsOf l).1 o, nonempty r (standing_routes hist l) listed, selected)
        (inl refl))

  -- A selected lemma comes from a given one of the selector, and its routes are the standing ones.
  selected_lemmas-from :
      (lemmas : List WarrantedLemma) (l : WarrantedLemma)
      → In l (selected_lemmas h hist sel lemmas)
      → (k : WarrantedLemma) × In k lemmas × IsOf k × (l ≡ with_routes k (standing_routes hist k))
  unfolding selected_lemmas
  selected_lemmas-from lemmas l m =
      let (k, given, made) = In-gather (selected h hist sel) l lemmas m in
      let (is, same) = selected-made k l made in (k, given, (is_selected-IsOf k).0 is, same)

  made-Serves :
      (c : Circumstances) (k l : WarrantedLemma) (r : SupportRoute)
      → l ≡ with_routes k (standing_routes hist k)
      → In r l.support.support_routes
      → route_applicable h c l r ≡ true
      → Serves c k r
  unfolding with_routes route_applicable
  made-Serves c k l r same among applies =
      let listed = subst (λ (y : WarrantedLemma). In r y.support.support_routes) same among in
      let (owned, stands) = (In-standing_routes k r).0 listed in
      record {
        owned = owned;
        stands = stands;
        applies = ap (λ y. route_applicable h c y r) (sym same) ∙ applies;
      }

  Grounded-Active :
      (c : Circumstances) (lemmas : List WarrantedLemma) (x : String)
      → Grounded h c (selected_lemmas h hist sel lemmas) x
      → Active c lemmas x
  unfolding with_routes
  Grounded-Active c lemmas _ (by_route l r listed is_hard among applies needs) =
      let (k, given, of, same) = selected_lemmas-from lemmas l listed in
      subst (Active c lemmas) (ap lemma_id (sym same)) (
        active_by k r given of
          (ap (λ (y : WarrantedLemma). y.support.warrant_class) (sym same) ∙ is_hard)
          (made-Serves c k l r same among applies) (λ d n. Grounded-Active c lemmas d (needs d n)))

  Active-Grounded :
      (c : Circumstances) (lemmas : List WarrantedLemma) (x : String)
      → Active c lemmas x
      → Grounded h c (selected_lemmas h hist sel lemmas) x
  unfolding with_routes route_applicable
  Active-Grounded c lemmas _ (active_by l r given of is_hard serves needs) =
      let listed = (In-standing_routes l r).1 (serves.owned, serves.stands) in
      by_route (with_routes l (standing_routes hist l)) r (made-selected l r lemmas given of listed)
        is_hard listed serves.applies (λ d n. Active-Grounded c lemmas d (needs d n))

  -- A view of a given lemma of the selector lists routes that serve, with active dependencies.
  pub record IsViewOf (c : Circumstances) (lemmas : List WarrantedLemma) (l : WarrantedLemma)
      (v : ActiveLemmaView) : Type 0 where
    pub given : In l lemmas
    pub of : IsOf l
    pub named : v.lemma_version_id ≡ lemma_id l
    pub routes :
        (x : String)
        → In x v.standing_support_route_ids
        → (r : SupportRoute) × (x ≡ r.id)
          × Serves c l r
          × ((d : String) → In d r.required_dependency_ids → Active c lemmas d)

  pub record IsTheory (c : Circumstances) (lemmas : List WarrantedLemma) (vs : List ActiveLemmaView)
      : Type 0 where
    pub current : IsCurrent c
    pub exact :
        (x : String)
        → In x (map (λ (v : ActiveLemmaView). v.lemma_version_id) vs) ↔ Active c lemmas x
    pub shown : (v : ActiveLemmaView) → In v vs → (l : WarrantedLemma) × IsViewOf c lemmas l v

  -- For lemmas with distinct identities whose support records are valid, selecting the active theory
  -- returns, under the selector's circumstances with the nogoods that stand. Its views show exactly the
  -- active identities: those of hard lemmas of the selector's scope, binding, universe and policy with a
  -- current or historical route that stands by the last change about it, applies, and requires only
  -- active identities. Each view lists only such routes of its lemma.
  pub select_active_theory-IsTheory :
      (lemmas : List WarrantedLemma)
      → IsDistinct lemma_id lemmas
      → ((l : WarrantedLemma) → In l lemmas → valid_support l.support ≡ true)
      → (c : Circumstances) × (vs : List ActiveLemmaView) × (select_active_theory h hist sel lemmas
          ≡ ok vs)
        × IsTheory c lemmas vs
  unfolding route_grounded with_routes
  select_active_theory-IsTheory lemmas d valid =
      let c = circumstances_of hist sel in
      let ls = selected_lemmas h hist sel lemmas in
      let (vs, made, shows) = select_active_theory-IsShown h hist sel lemmas d valid in
      (
        c,
        vs,
        made,
        record {
          current = circumstances_of-IsCurrent;
          exact = λ x. (
            (λ m. Grounded-Active c lemmas x ((shows.exact x).0 m)),
            (λ a. (shows.exact x).1 (Active-Grounded c lemmas x a)),
          );
          shown = λ v m.
              let (l, listed, (named, routes)) = shows.shown v m in
              let (k, given, of, same) = selected_lemmas-from lemmas l listed in
              (
                k,
                record {
                  given = given;
                  of = of;
                  named = named ∙ ap lemma_id same;
                  routes = λ x n.
                      let (r, among, is, works) = routes x n in
                      let (applies, supplied) = and_parts works in
                      (
                        r,
                        is,
                        made-Serves c k l r same among applies,
                        λ y needed. Grounded-Active c lemmas y (
                            ((grounded_lemma_ids-Grounded h c ls).1 y).0
                              (subset_sound r.required_dependency_ids _ supplied y needed)),
                      );
                },
              );
        },
      )
