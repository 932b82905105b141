-- ===== src/Warrant/Ancestry.antt =====
-- src/rci/warrant/support.py: `ancestry_is_acyclic` and `support_graph_is_acyclic`, one depth-first
-- search over two graphs. A search that finds a cycle stops everything, so `visiting` is the path to
-- the node, and only `visited` is threaded.
use ratcheting_consequence_i.Base.{
  ℕ, zero, suc, String, Bool, true, false, not, Option, none, some, List, [], ◌∷◌, ◌++◌, map, ◌==◌,
  keep, gather, contains, length, if◌then◌else◌, string_eq, is_some,
}
use ratcheting_consequence_i.Base.Keyed.{lookup, put, keys}
use ratcheting_consequence_i.Warrant.Models.{SupportRoute}
use ratcheting_consequence_i.Warrant.Lemmas.{WarrantedLemma, lemma_id, all_support_routes}
pub mod Acyclic
pub mod Support

abbrev pub Graph : Type 0
Graph = List (String × List String)

-- `graph.get(node, ())`
unfoldable pub targets : Graph → String → List String
unfolding lookup
targets g v = elim (lookup v g) [ none ↦ [] | some vs ↦ vs ]

-- `all(go(v) for v in vs)`, with what was visited so far; `none` is false.
unfoldable pub visit_each :
    (String → List String → Option (List String)) → List String → List String → Option (List String)
visit_each go [] visited = some visited
visit_each go (v ∷ vs) visited = elim (go v visited) [
  | none ↦ none
  | some seen ↦ visit_each go vs seen
]

-- A node is first tested by `admits`; the nested search descends on fuel.
unfoldable pub visit :
    (String → Bool) → Graph → ℕ → List String → String → List String → Option (List String)
unfolding targets visit_each contains
visit admits g zero path v visited = none
visit admits g (suc fuel) path v visited =
    let below =
      visit_each
        (λ p seen. elim (admits p) [ false ↦ none | true ↦ visit admits g fuel (v ∷ path) p seen ])
        (targets g v) visited in
    if contains path v
    then none
    else if contains visited v
    then some visited
    else elim below [ none ↦ none | some seen ↦ some (v ∷ seen) ]

-- The path holds different nodes, so one level more than there are nodes is enough.
unfoldable pub search : (String → Bool) → Graph → Option (List String)
unfolding visit visit_each
search admits g = visit_each (visit admits g (suc (length (keys g))) []) (keys g) []

-- A predecessor that is no version of the map makes the ancestry invalid.
unfoldable pub ancestry_is_acyclic : Graph → Bool
unfolding search contains
ancestry_is_acyclic g = is_some (search (contains (keys g)) g)

-- `{lemma.id: {dependency ... if dependency in known} for lemma in lemmas}`
unfoldable pub support_targets : List String → WarrantedLemma → List String
unfolding gather keep contains
support_targets known l =
    gather (λ (r : SupportRoute). keep (contains known) r.required_dependency_ids)
      (all_support_routes l.support)

unfoldable pub support_graph_from : List String → Graph → List WarrantedLemma → Graph
unfolding support_targets put
support_graph_from known g [] = g
support_graph_from known g (l ∷ ls) =
    support_graph_from known (put (lemma_id l) (support_targets known l) g) ls

unfoldable pub support_graph : List WarrantedLemma → Graph
unfolding support_graph_from
support_graph ls = support_graph_from (map lemma_id ls) [] ls

unfoldable pub support_graph_is_acyclic : List WarrantedLemma → Bool
unfolding search support_graph
support_graph_is_acyclic ls = is_some (search (λ _. true) (support_graph ls))
