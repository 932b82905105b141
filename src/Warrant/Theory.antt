-- ===== src/Warrant/Theory.antt =====
-- src/rci/warrant/support.py: `select_active_theory`, the current view of the lemmas.
use ratcheting_consequence_i.Base.{
  ℕ, String, Bool, true, false, not, ◌&&◌, ◌||◌, Option, none, some, List, [], ◌∷◌, ◌++◌, map, ◌==◌,
  any, keep, gather, contains, subset, length, is_empty, if◌then◌else◌, string_eq, option_eq,
  Result, ok, raise, value_error, index_error, ◌>>=◌, ◌>>◌, require,
}
use ratcheting_consequence_i.Base.Keyed.{lookup}
use ratcheting_consequence_i.Base.Order.{nat_ord, string_ord, pair_ord, list_ord}
use ratcheting_consequence_i.Base.Sort.{sorted}
use ratcheting_consequence_i.Base.Minimal.{keep_minimal}
use ratcheting_consequence_i.Canonical.{Hashing}
use ratcheting_consequence_i.Claims.{scope_fingerprint}
use ratcheting_consequence_i.Warrant.Models.{
  SupportRoute, SupportStanding, SupportRouteStandingChange, NogoodStandingChange, Nogood, Evidence,
  CheckerVerdictRecord, standing, standing_eq,
}
use ratcheting_consequence_i.Warrant.Lemmas.{
  WarrantedLemma, LemmaSupport, lemma_id, all_support_routes, assumptions, ActiveLemmaView,
  TheorySelector, valid_view,
}
use ratcheting_consequence_i.Warrant.Checks.{index_by}
use ratcheting_consequence_i.Warrant.Routes.{Circumstances, route_applicable}
use ratcheting_consequence_i.Warrant.Grounding.{grounded_lemma_ids, route_grounded}
pub mod Views
pub mod Standing
pub mod Current

-- The arguments of `select_active_theory` besides the lemmas and the selector.
pub record Histories : Type 0 where
  pub nogoods : List Nogood
  pub route_changes : List SupportRouteStandingChange
  pub nogood_changes : List NogoodStandingChange
  pub evidence_records : List Evidence
  pub checker_verdicts : List CheckerVerdictRecord
  pub authorized_checker_ids : List String

abbrev pub is_standing : SupportStanding → Bool
is_standing s = s == standing

-- `route_standing.get(route.id, STANDING) is STANDING`, by the last change of the route.
unfoldable pub route_is_standing : List SupportRouteStandingChange → SupportRoute → Bool
unfolding index_by lookup
route_is_standing changes r =
    elim (lookup r.id
      (index_by (λ (ch : SupportRouteStandingChange). ch.support_route_id) [] changes)) [
        | none ↦ true
        | some ch ↦ is_standing ch.standing
      ]

unfoldable pub nogood_is_standing : List NogoodStandingChange → Nogood → Bool
unfolding index_by lookup
nogood_is_standing changes n =
    elim (lookup n.id (index_by (λ (ch : NogoodStandingChange). ch.nogood_id) [] changes)) [
      | none ↦ true
      | some ch ↦ is_standing ch.standing
    ]

unfoldable pub standing_routes : Histories → WarrantedLemma → List SupportRoute
unfolding keep route_is_standing
standing_routes hist l = keep (route_is_standing hist.route_changes) (all_support_routes l.support)

-- `lemma.model_copy(update={"support": ...})`
unfoldable pub with_routes : WarrantedLemma → List SupportRoute → WarrantedLemma
with_routes l routes = record l {
  support = record l.support { support_routes = routes; historical_support_routes = [] };
}

-- The order in which the minimal routes are looked for.
abbrev pub RouteKey : Type 0
RouteKey = ℕ × (List String × String)

unfoldable pub route_key : SupportRoute → RouteKey
route_key r = (length (assumptions r), (assumptions r, r.id))

abbrev pub route_covers : SupportRoute → SupportRoute → Bool
route_covers current r = subset (assumptions current) (assumptions r)

unfoldable pub minimal_routes : List SupportRoute → List SupportRoute
unfolding keep_minimal
minimal_routes routes = keep_minimal route_covers [] (sorted {K = RouteKey} route_key routes)

unfoldable pub standing_nogoods : Histories → TheorySelector → List Nogood
unfolding keep nogood_is_standing
standing_nogoods hist sel =
    keep
      (λ (n : Nogood).
        (n.scope_fingerprint == sel.scope_fingerprint)
        && (n.binding_revision == sel.binding_revision)
        && (n.finite_universe_hash == sel.finite_universe_hash)
        && (n.policy_version == sel.policy_version)
        && nogood_is_standing hist.nogood_changes n)
      hist.nogoods

unfoldable pub circumstances_of : Histories → TheorySelector → Circumstances
unfolding standing_nogoods
circumstances_of hist sel = record {
  current_assumption_ids = sel.current_assumption_ids;
  current_context_ids = sel.current_context_ids;
  nogoods = standing_nogoods hist sel;
  evidence_records = hist.evidence_records;
  checker_verdicts = hist.checker_verdicts;
  authorized_checker_ids = hist.authorized_checker_ids;
}

module _ (h : Hashing) (hist : Histories) (sel : TheorySelector) where
  unfoldable pub is_selected : WarrantedLemma → Bool
  is_selected l =
      (scope_fingerprint h l.version.scope == sel.scope_fingerprint)
      && (l.version.scope.binding_revision == sel.binding_revision)
      && (l.version.scope.finite_universe_hash == sel.finite_universe_hash)
      && (l.support.policy_version == sel.policy_version)

  unfoldable pub selected : WarrantedLemma → List WarrantedLemma
  unfolding is_selected standing_routes with_routes
  selected l =
      if not (is_selected l)
      then []
      else if is_empty (standing_routes hist l)
      then []
      else with_routes l (standing_routes hist l) ∷ []

  unfoldable pub selected_lemmas : List WarrantedLemma → List WarrantedLemma
  unfolding selected gather
  selected_lemmas = gather selected

  unfoldable pub applicable_routes : List String → WarrantedLemma → List SupportRoute
  unfolding route_grounded circumstances_of keep
  applicable_routes grounded l =
      keep (route_grounded h (circumstances_of hist sel) grounded l) l.support.support_routes

  -- `ActiveLemmaView(...)`
  abbrev pub view_of : WarrantedLemma → SupportRoute → List SupportRoute → ActiveLemmaView
  view_of l primary routes = record {
    lemma_version_id = lemma_id l;
    relation_id = l.version.relation_id;
    standing_support_route_id = primary.id;
    standing_support_route_ids = map (λ (r : SupportRoute). r.id) routes;
    scope_fingerprint = sel.scope_fingerprint;
    binding_revision = sel.binding_revision;
    finite_universe_hash = sel.finite_universe_hash;
    policy_version = sel.policy_version;
  }

  -- The view of a lemma by its minimal routes, of which `minimal_routes[0]` must be there.
  unfoldable pub make_view : WarrantedLemma → List SupportRoute → Result ActiveLemmaView
  unfolding valid_view
  make_view l [] = raise index_error
  make_view l (primary ∷ others) =
      require (valid_view (view_of l primary (primary ∷ others))) value_error
      >> ok (view_of l primary (primary ∷ others))

  unfoldable pub views_of : List String → List WarrantedLemma → Result (List ActiveLemmaView)
  unfolding make_view minimal_routes applicable_routes
  views_of grounded [] = ok []
  views_of grounded (l ∷ ls) =
      let rest = views_of grounded ls in
      if not (contains grounded (lemma_id l)) then rest else do
        view ← make_view l (minimal_routes (applicable_routes grounded l))
        others ← rest
        ok (view ∷ others)

  unfoldable pub select_active_theory : List WarrantedLemma → Result (List ActiveLemmaView)
  unfolding selected_lemmas grounded_lemma_ids views_of circumstances_of
  select_active_theory lemmas =
      let ls = selected_lemmas lemmas in
      views_of (grounded_lemma_ids h (circumstances_of hist sel) ls) (sorted lemma_id ls)

  -- `active_lemma_ids`
  unfoldable pub active_lemma_ids : List WarrantedLemma → Result (List String)
  unfolding select_active_theory
  active_lemma_ids lemmas = do
    views ← select_active_theory lemmas
    ok (map (λ (v : ActiveLemmaView). v.lemma_version_id) views)
