-- ===== src/Warrant/Ancestry/Acyclic.antt =====
-- What the depth-first search of src/rci/warrant/support.py decides: whether every node is rooted, that
-- is, whether descending from it always ends.
use ratcheting_consequence_i.Base.{
  ℕ, zero, suc, ◌+◌, ◌<◌, String, ◌≡◌, refl, sym, subst, Bool, true, false, Option, none, some,
  List, [], ◌∷◌, contains, distinct, length, arith, In, ◌⊎◌, inl, inr, ◌↔◌, contains-In, Bool-cases,
  Option-cases, string_eq, is_some, if_split,
}
use mathlib.Core.Option.{some-injective, none-ne-some}
use ratcheting_consequence_i.Base.Keyed.{keys}
use ratcheting_consequence_i.Base.Counting.{length_within}
use ratcheting_consequence_i.Warrant.Ancestry.{
  Graph, targets, visit_each, visit, search, ancestry_is_acyclic,
}

module _ (admits : String → Bool) (g : Graph) where
  abbrev Go : Type 0
  Go = String → List String → Option (List String)

  abbrev descend : ℕ → List String → String → List String → Option (List String)
  descend fuel path p seen = elim (admits p) [
    | false ↦ none
    | true ↦ visit admits g fuel path p seen
  ]

-- Every target of the node is admitted and rooted in turn.
pub data Rooted (admits : String → Bool) (g : Graph) : String → Type 0 where
  root :
      (v : String)
      → ((p : String) → In p (targets g v) → admits p ≡ true)
      → ((p : String) → In p (targets g v) → Rooted admits g p)
      → Rooted admits g v

-- A path of one edge or more.
data Reaches (g : Graph) (v : String) : String → Type 0 where
  edge : (p : String) → In p (targets g v) → Reaches g v p
  onward : (u p : String) → Reaches g v u → In p (targets g u) → Reaches g v p

first_step :
    (g : Graph) (v u : String)
    → Reaches g v u
    → (p : String) × In p (targets g v) × ((p ≡ u) ⊎ Reaches g p u)
first_step g v _ (edge p m) = (p, m, inl refl)
first_step g v _ (onward u p before m) =
    let (q, first, rest) = first_step g v u before in
    (
      q,
      first,
      elim rest [
        | inl same ↦ inr (edge p (subst (λ x. In p (targets g x)) (sym same) m))
        | inr path ↦ inr (onward u p path m)
      ],
    )

Rooted-no_cycle :
    (admits : String → Bool) (g : Graph) (v : String) → Rooted admits g v → ¬ Reaches g v v
Rooted-no_cycle admits g _ (root v allowed below) around =
    let (p, first, rest) = first_step g v v around in
    Rooted-no_cycle admits g p (below p first) (elim rest [
      | inl same ↦ edge p (subst (λ x. In p (targets g x)) (sym same) first)
      | inr path ↦ onward v p path first
    ])

module _ (admits : String → Bool) (g : Graph) where
  AllRooted : List String → Type 0
  AllRooted vs = (v : String) → In v vs → Rooted admits g v

  each_sound :
      (go : String → List String → Option (List String)) (P : String → Type 0)
      → ((v : String) (seen r : List String)
          → AllRooted seen
          → go v seen ≡ some r
          → AllRooted r × P v)
      → (vs seen r : List String) → AllRooted seen
      → visit_each go vs seen ≡ some r
      → AllRooted r × ((v : String) → In v vs → P v)
  unfolding visit_each
  each_sound go P step [] seen r rooted h =
      (subst AllRooted (some-injective seen r h) rooted, λ v m. absurd m)
  each_sound go P step (v ∷ vs) seen r rooted h = elim (Option-cases (go v seen)) [
    | inl failed ↦ absurd (none-ne-some r (rw (failed, visit_each) at h))
    | inr (next, found) ↦
        let (kept, here) = step v seen next rooted found in
        let (all_kept, later) = each_sound go P step vs next r kept (rw (found, visit_each) at h) in
        (all_kept, λ u m. elim m [ inl e ↦ subst P (sym e) here | inr k ↦ later u k ])
  ]

  descend_sound :
      (fuel : ℕ) (path : List String)
      → ((v : String) (seen r : List String)
          → AllRooted seen
          → visit admits g fuel path v seen ≡ some r
          → AllRooted r × Rooted admits g v)
      → (p : String) (before after : List String) → AllRooted before
      → descend admits g fuel path p before ≡ some after
      → AllRooted after × ((admits p ≡ true) × Rooted admits g p)
  descend_sound fuel path sound p before after ok found = elim (Bool-cases (admits p)) [
    | inr refused ↦ absurd (none-ne-some after (rw (refused, descend) at found))
    | inl allowed ↦
        let (kept, rooted) = sound p before after ok (rw (allowed, descend) at found) in
        (kept, (allowed, rooted))
  ]

  visit_sound :
      (fuel : ℕ) (path : List String) (v : String) (seen r : List String)
      → AllRooted seen
      → visit admits g fuel path v seen ≡ some r
      → AllRooted r × Rooted admits g v
  unfolding visit AllRooted
  visit_sound zero path v seen r rooted h = absurd (none-ne-some r h)
  visit_sound (suc fuel) path v seen r rooted h =
      if_split (contains path v) h (λ _ e. absurd (none-ne-some r e))
        (λ _ h1.
          if_split (contains seen v) h1
            (λ old e.
              (subst AllRooted (some-injective seen r e) rooted, rooted v (contains-In seen v old)))
            (λ _ h2.
              elim (Option-cases
                (visit_each (descend admits g fuel (v ∷ path)) (targets g v) seen)) [
                  | inl failed ↦ absurd (none-ne-some r (rw failed at h2))
                  | inr (next, found) ↦
                      let (kept, each) =
                        each_sound (descend admits g fuel (v ∷ path))
                          (λ p. (admits p ≡ true) × Rooted admits g p)
                          (descend_sound fuel (v ∷ path) (visit_sound fuel (v ∷ path)))
                          (targets g v) seen next rooted found in
                      let here = root v (λ p m. (each p m).0) (λ p m. (each p m).1) in
                      let same : v ∷ next ≡ r = some-injective (v ∷ next) r (rw found at h2) in
                      (
                        subst AllRooted same (λ u m. elim m [
                          | inl e ↦ subst (Rooted admits g) (sym e) here
                          | inr k ↦ kept u k
                        ]),
                        here,
                      )
                ]))

  each_complete :
      (go : String → List String → Option (List String)) (vs : List String)
      → ((v : String) (seen : List String) → In v vs → (r : List String) × (go v seen ≡ some r))
      → (seen : List String) → (r : List String) × (visit_each go vs seen ≡ some r)
  unfolding visit_each
  each_complete go [] each seen = (seen, refl)
  each_complete go (v ∷ vs) each seen =
      let (next, found) = each v seen (inl refl) in
      let (r, rest) = each_complete go vs (λ u s m. each u s (inr m)) next in
      (r, rw (found, visit_each) rest)

  -- A path to a node: different nodes of the graph, each of which reaches the node.
  record IsPathTo (path : List String) (v : String) : Type 0 where
    different : distinct path ≡ true
    nodes : (w : String) → In w path → In w (keys g)
    reaching : (w : String) → In w path → Reaches g w v

  longer_path :
      (path : List String) (v p : String)
      → IsPathTo path v
      → In v (keys g)
      → contains path v ≡ false
      → In p (targets g v)
      → IsPathTo (v ∷ path) p
  unfolding distinct
  longer_path path v p is_path node new m = record {
    different = rw (new, is_path.different) refl;
    nodes = λ w k. elim k [
      | inl e ↦ subst (λ x. In x (keys g)) (sym e) node
      | inr old ↦ is_path.nodes w old
    ];
    reaching = λ w k. elim k [
      | inl e ↦ subst (λ x. Reaches g x p) (sym e) (edge p m)
      | inr old ↦ onward v p (is_path.reaching w old) m
    ];
  }

  visit_complete :
      (v : String)
      → Rooted admits g v
      → (fuel : ℕ) (path seen : List String)
      → ((u p : String) → In p (targets g u) → admits p ≡ true → In p (keys g))
      → IsPathTo path v
      → In v (keys g)
      → length (keys g) < fuel + length path
      → (r : List String) × (visit admits g fuel path v seen ≡ some r)
  unfolding visit
  visit_complete v rooted zero path seen within is_path node enough =
      absurd (omega (arith, length_within path (keys g) is_path.different is_path.nodes))
  visit_complete _ (root v allowed below) (suc fuel) path seen within is_path node enough =
      elim (Bool-cases (contains path v)) [
        | inl again ↦ absurd (
            Rooted-no_cycle admits g v (root v allowed below)
              (is_path.reaching v (contains-In path v again)))
        | inr new ↦ elim (Bool-cases (contains seen v)) [
          | inl old ↦ (seen, rw (new, old, visit) refl)
          | inr first ↦
              let each : (p : String) (s : List String)
                  → In p (targets g v)
                  → (r : List String) × (descend admits g fuel (v ∷ path) p s ≡ some r) =
                λ p s m.
                  let (r, found) =
                    visit_complete p (below p m) fuel (v ∷ path) s within
                      (longer_path path v p is_path node new m) (within v p m (allowed p m))
                      (omega arith) in
                  (r, rw (allowed p m, descend) found) in
              let (next, found) =
                each_complete (descend admits g fuel (v ∷ path)) (targets g v) each seen in
              (v ∷ next, rw (new, first, visit, found) refl)
        ]
      ]

  -- When the admitted targets are nodes, the search succeeds exactly when every node is rooted.
  pub search-Rooted :
      ((u p : String) → In p (targets g u) → admits p ≡ true → In p (keys g))
      → (is_some (search admits g) ≡ true) ↔ ((v : String) → In v (keys g) → Rooted admits g v)
  unfolding search AllRooted distinct
  search-Rooted within = (
    (λ h. elim (Option-cases (search admits g)) [
      | inl failed ↦ cc
      | inr (r, found) ↦
          (each_sound (visit admits g (suc (length (keys g))) []) (Rooted admits g)
            (visit_sound (suc (length (keys g))) []) (keys g) [] r (λ v m. absurd m) found).1
    ]),
    (λ rooted.
        let (r, found) =
          each_complete (visit admits g (suc (length (keys g))) []) (keys g)
            (λ v s m.
              visit_complete v (rooted v m) (suc (length (keys g))) [] s within
                (record { different = refl; nodes = λ w k. absurd k; reaching = λ w k. absurd k }) m
                (omega arith))
            [] in
        rw (found) refl),
  )

-- The ancestry test decides, for every map of predecessors, whether each version is rooted: all of its
-- predecessors are versions of the map, and so on without end, until versions that have none. The
-- depth of the search, one level more than there are versions, is always enough.
pub ancestry_is_acyclic_decides :
    (g : Graph)
    → (ancestry_is_acyclic g ≡ true)
      ↔ ((v : String) → In v (keys g) → Rooted (contains (keys g)) g v)
unfolding ancestry_is_acyclic
ancestry_is_acyclic_decides g =
    search-Rooted (contains (keys g)) g (λ u p m known. contains-In (keys g) p known)
