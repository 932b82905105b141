-- ===== src/Warrant/Ancestry/Support.antt =====
-- The depth-first search of src/rci/warrant/support.py over the graph of support dependencies.
use ratcheting_consequence_i.Base.{
  false, refl, ◌∙◌, distinct, In-append, In-append_left, In-append_right, In-map, map-In,
  In-contains, gather-In, keep-In, String, ◌≡◌, sym, subst, true, List, [], ◌∷◌, map, In, ◌⊎◌, inl,
  inr, ◌↔◌, contains, contains-In, In-gather, In-keep, Bool-cases, arith, string_eq, ◌==◌,
  if◌then◌else◌,
}
use ratcheting_consequence_i.Base.Keyed.{put, keys, lookup-put, put-In, put_keeps, keys-put}
use ratcheting_consequence_i.Base.Distinct.{IsDistinct}
use ratcheting_consequence_i.Warrant.Models.{SupportRoute}
use ratcheting_consequence_i.Warrant.Lemmas.{WarrantedLemma, lemma_id, all_support_routes}
use ratcheting_consequence_i.Warrant.Ancestry.{
  Graph, targets, support_targets, support_graph_from, support_graph, support_graph_is_acyclic,
}
use ratcheting_consequence_i.Warrant.Ancestry.Acyclic.{Rooted, root, search-Rooted}

support_targets_known :
    (known : List String) (l : WarrantedLemma) (p : String)
    → In p (support_targets known l)
    → In p known
unfolding support_targets
support_targets_known known l p m =
    let (r, _, kept) = In-gather _ p (all_support_routes l.support) m in
    contains-In known p (In-keep (contains known) p r.required_dependency_ids kept).1

targets-put :
    (k u : String) (vs : List String) (g : Graph)
    → targets (put k vs g) u ≡ (if k == u then vs else targets g u)
unfolding targets
targets-put k u vs g = ground (arith, lookup-put k u vs g)

targets_put :
    (known : List String) (l : WarrantedLemma) (g : Graph)
    → ((u p : String) → In p (targets g u) → In p known)
    → (u p : String) → In p (targets (put (lemma_id l) (support_targets known l) g) u)
    → In p known
targets_put known l g within u p m =
    let split = subst (In p) (targets-put (lemma_id l) u (support_targets known l) g) m in
    elim (Bool-cases (lemma_id l == u)) [
      | inl same ↦ support_targets_known known l p (rw same at split)
      | inr other ↦ within u p (rw other at split)
    ]

targets_known :
    (known : List String) (g : Graph) (ls : List WarrantedLemma)
    → ((u p : String) → In p (targets g u) → In p known)
    → (u p : String) → In p (targets (support_graph_from known g ls) u)
    → In p known
unfolding support_graph_from
targets_known known g [] within u p m = within u p m
targets_known known g (l ∷ ls) within u p m =
    targets_known known (put (lemma_id l) (support_targets known l) g) ls
      (targets_put known l g within) u p m

keys_known :
    (known : List String) (g : Graph) (ls : List WarrantedLemma) (k : String)
    → In k (map lemma_id ls) ⊎ In k (keys g)
    → In k (keys (support_graph_from known g ls))
unfolding support_graph_from
keys_known known g [] k (inl m) = absurd m
keys_known known g [] k (inr kept) = kept
keys_known known g (l ∷ ls) k (inl (inr m)) =
    keys_known known (put (lemma_id l) (support_targets known l) g) ls k (inl m)
keys_known known g (l ∷ ls) k (inl (inl here)) =
    keys_known known (put (lemma_id l) (support_targets known l) g) ls k (
      inr (
        subst (λ j. In j (keys (put (lemma_id l) (support_targets known l) g))) (sym here)
          (put-In (lemma_id l) (support_targets known l) g)))
keys_known known g (l ∷ ls) k (inr m) =
    keys_known known (put (lemma_id l) (support_targets known l) g) ls k
      (inr (put_keeps (lemma_id l) k (support_targets known l) g m))

keys_only :
    (known : List String) (g : Graph) (ls : List WarrantedLemma) (k : String)
    → In k (keys (support_graph_from known g ls))
    → In k (map lemma_id ls) ⊎ In k (keys g)
unfolding support_graph_from
keys_only known g [] k m = inr m
keys_only known g (l ∷ ls) k m =
    elim (keys_only known (put (lemma_id l) (support_targets known l) g) ls k m) [
      | inl later ↦ inl (inr later)
      | inr now ↦ elim (keys-put (lemma_id l) k (support_targets known l) g now) [
        | inl before ↦ inr before
        | inr same ↦ inl (inl same)
      ]
    ]

-- The targets of an identity that no further lemma has stay.
targets_stay :
    (known : List String) (g : Graph) (ls : List WarrantedLemma) (u : String)
    → contains (map lemma_id ls) u ≡ false
    → targets (support_graph_from known g ls) u ≡ targets g u
unfolding support_graph_from contains
targets_stay known g [] u absent = refl
targets_stay known g (l ∷ ls) u absent =
    targets_stay known (put (lemma_id l) (support_targets known l) g) ls u (ground arith)
    ∙ ground (arith, targets-put (lemma_id l) u (support_targets known l) g)

targets-of :
    (known : List String) (g : Graph) (ls : List WarrantedLemma) (l : WarrantedLemma)
    → IsDistinct lemma_id ls
    → In l ls
    → targets (support_graph_from known g ls) (lemma_id l) ≡ support_targets known l
unfolding support_graph_from distinct
targets-of known g [] l d m = absurd m
targets-of known g (x ∷ ls) l d (inr later) =
    targets-of known (put (lemma_id x) (support_targets known x) g) ls l (ground arith) later
targets-of known g (x ∷ ls) l d (inl here) =
    let g' = put (lemma_id x) (support_targets known x) g in
    let absent : contains (map lemma_id ls) (lemma_id x) ≡ false = ground arith in
    subst (λ y. targets (support_graph_from known g' ls) (lemma_id y) ≡ support_targets known y)
      (sym here)
      (targets_stay known g' ls (lemma_id x) absent
        ∙ ground (arith, targets-put (lemma_id x) (lemma_id x) (support_targets known x) g))

-- Some route of the lemma, current or historical, requires the lemma of this identity among those given.
pub record Requires (ls : List WarrantedLemma) (l : WarrantedLemma) (d : String) : Type 0 where
  pub route : SupportRoute
  pub owned : In route l.support.support_routes ⊎ In route l.support.historical_support_routes
  pub required : In d route.required_dependency_ids
  pub dependency : WarrantedLemma
  pub listed : In dependency ls
  pub named : d ≡ lemma_id dependency

-- Following requirements from the lemma always ends.
pub data Founded (ls : List WarrantedLemma) : String → Type 0 where
  founded :
      (l : WarrantedLemma)
      → In l ls
      → ((d : String) → Requires ls l d → Founded ls d)
      → Founded ls (lemma_id l)

-- The test decides whether every node of the graph that it builds is rooted.
pub support_graph_is_acyclic-Rooted :
    (ls : List WarrantedLemma)
    → (support_graph_is_acyclic ls ≡ true)
      ↔ ((v : String) → In v (keys (support_graph ls)) → Rooted (λ _. true) (support_graph ls) v)
unfolding support_graph_is_acyclic support_graph targets
support_graph_is_acyclic-Rooted ls =
    search-Rooted (λ _. true) (support_graph ls)
      (λ u p m _.
        keys_known (map lemma_id ls) [] ls p
          (inl (targets_known (map lemma_id ls) [] ls (λ v q k. absurd k) u p m)))

module _ (ls : List WarrantedLemma) (distinct_ids : IsDistinct lemma_id ls) where
  targets-Requires :
      (l : WarrantedLemma) (d : String)
      → In l ls
      → In d (targets (support_graph ls) (lemma_id l)) ↔ Requires ls l d
  unfolding support_graph support_targets
  targets-Requires l d m =
      let same = targets-of (map lemma_id ls) [] ls l distinct_ids m in
      let known = contains (map lemma_id ls) in
      (
        (λ t.
            let (r, among, kept) =
              In-gather _ d (all_support_routes l.support) (subst (In d) same t) in
            let (needed, is_known) = In-keep known d r.required_dependency_ids kept in
            let (k, listed, named) =
              In-map lemma_id d ls (contains-In (map lemma_id ls) d is_known) in
            record {
              route = r;
              owned =
                  In-append r l.support.support_routes l.support.historical_support_routes among;
              required = needed;
              dependency = k;
              listed = listed;
              named = named;
            }),
        (λ q.
            let among : In q.route (all_support_routes l.support) = elim q.owned [
              | inl now ↦ In-append_left q.route l.support.support_routes _ now
              | inr past ↦ In-append_right q.route l.support.support_routes _ past
            ] in
            let is_known = In-contains (map lemma_id ls) d (
              subst (λ y. In y (map lemma_id ls)) (sym q.named)
                (map-In lemma_id q.dependency ls q.listed)) in
            subst (In d) (sym same) (
              gather-In _ q.route d (all_support_routes l.support) among
                (keep-In known d q.route.required_dependency_ids q.required is_known))),
      )

  Rooted-Founded :
      (v : String)
      → Rooted (λ _. true) (support_graph ls) v
      → (l : WarrantedLemma) → In l ls
      → v ≡ lemma_id l
      → Founded ls (lemma_id l)
  Rooted-Founded _ (root v allowed below) l m same = founded l m (λ d q.
      let there =
        subst (λ u. In d (targets (support_graph ls) u)) (sym same)
          ((targets-Requires l d m).1 q) in
      subst (Founded ls) (sym q.named)
        (Rooted-Founded d (below d there) q.dependency q.listed q.named))

  Founded-Rooted : (v : String) → Founded ls v → Rooted (λ _. true) (support_graph ls) v
  Founded-Rooted _ (founded l m below) =
      root (lemma_id l) (λ p t. refl)
        (λ p t. Founded-Rooted p (below p ((targets-Requires l p m).0 t)))

  -- For lemmas with distinct identities, the support-graph test decides whether every lemma is founded:
  -- whether following what its routes require among the lemmas, current and historical ones, always ends.
  pub support_graph_is_acyclic_decides :
      (support_graph_is_acyclic ls ≡ true)
      ↔ ((l : WarrantedLemma) → In l ls → Founded ls (lemma_id l))
  unfolding support_graph
  support_graph_is_acyclic_decides =
      let searched = support_graph_is_acyclic-Rooted ls in
      (
        (λ accepted l m.
            Rooted-Founded (lemma_id l)
              (searched.0 accepted (lemma_id l)
                (keys_known (map lemma_id ls) [] ls (lemma_id l) (inl (map-In lemma_id l ls m))))
              l m refl),
        (λ all_founded. searched.1 (λ v m. elim (keys_only (map lemma_id ls) [] ls v m) [
          | inr nothing ↦ absurd nothing
          | inl listed ↦
              let (l, k, same) = In-map lemma_id v ls listed in
              Founded-Rooted v (subst (Founded ls) (sym same) (all_founded l k))
        ])),
      )
