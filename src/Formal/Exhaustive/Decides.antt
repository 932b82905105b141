-- ===== src/Formal/Exhaustive/Decides.antt =====
-- When the check decides: within the budget, on a formula that reads each symbol at its domain's kind.
use ratcheting_consequence_i.Base.{
  ℕ, ◌≤◌, String, ◌≡◌, ap, ◌∙◌, ◌⊎◌, Bool, refl, true, false, Option, none, some, List, [], ◌∷◌, ok,
  In, inl, inr, arith, subst, sym, distinct, In-append, In-minus, In-unique, no_entry, minus,
  unique, ltb, string_eq,
}
use ratcheting_consequence_i.Base.Keyed.{lookup}
use ratcheting_consequence_i.Formal.Ast.{
  Formula, Formulas, Scalar, boolean, text, bool_literal, symbol, enum_equals, negation,
  conjunction, disjunction, implies, equivalence, none_left, operand, formula_symbols,
  operand_symbols,
}
use ratcheting_consequence_i.Formal.Ast.Typing.{
  Reads, ReadsAll, BoundBool, BoundEnum, Reads-mono, evaluate_total,
}
use ratcheting_consequence_i.Formal.Universe.{
  FiniteDomain, FiniteUniverse, Assignment, names_of, as_environment, assignment_count,
  enumerate_assignments, is_bool,
}
use ratcheting_consequence_i.Formal.Universe.Choices.{Chooses, enumerate_complete}
use ratcheting_consequence_i.Formal.Universe.Bindings.{lookup-as_environment}
use ratcheting_consequence_i.Formal.Exhaustive.{
  sat, unsat, ExhaustiveResult, exhaustive_check, searched_result,
}
use ratcheting_consequence_i.Formal.Exhaustive.Search.{search_from-Returns}

-- The symbol has a domain, and the domain is of the kind.
abbrev pub HasDomain : Bool → List FiniteDomain → String → Type 0
HasDomain kind ds name =
    (d : FiniteDomain) × In d ds
    × (name ≡ d.symbol)
    × ((v : Scalar) → In v d.values → is_bool v ≡ kind)

module _ (ds : List FiniteDomain) where
  In-names_of : (d : FiniteDomain) (es : List FiniteDomain) → In d es → In d.symbol (names_of es)
  unfolding names_of
  In-names_of d [] m = absurd m
  In-names_of d (e ∷ es) (inl same) = inl (cc)
  In-names_of d (e ∷ es) (inr m) = inr (In-names_of d es m)

  mutual
    unfolding formula_symbols operand_symbols

    symbols_known :
        (f : Formula)
        → Reads (HasDomain true ds) (HasDomain false ds) f
        → (name : String) → In name (formula_symbols f)
        → In name (names_of ds)
    symbols_known (bool_literal b) h name m = absurd m
    symbols_known (symbol s) (d, from, e, _) name (inl same) =
        subst (λ x. In x (names_of ds)) (sym (same ∙ e)) (In-names_of d ds from)
    symbols_known (symbol s) h name (inr m) = absurd m
    symbols_known (enum_equals s v) (d, from, e, _) name (inl same) =
        subst (λ x. In x (names_of ds)) (sym (same ∙ e)) (In-names_of d ds from)
    symbols_known (enum_equals s v) h name (inr m) = absurd m
    symbols_known (negation f) h name m = symbols_known f h name m
    symbols_known (conjunction fs) h name m = operands_known fs h name m
    symbols_known (disjunction fs) h name m = operands_known fs h name m
    symbols_known (implies f g) h name m = elim (In-append name (formula_symbols f) _ m) [
      | inl k ↦ symbols_known f h.0 name k
      | inr k ↦ symbols_known g h.1 name k
    ]
    symbols_known (equivalence f g) h name m = elim (In-append name (formula_symbols f) _ m) [
      | inl k ↦ symbols_known f h.0 name k
      | inr k ↦ symbols_known g h.1 name k
    ]

    operands_known :
        (fs : Formulas)
        → ReadsAll (HasDomain true ds) (HasDomain false ds) fs
        → (name : String) → In name (operand_symbols fs)
        → In name (names_of ds)
    operands_known none_left h name m = absurd m
    operands_known (operand f fs) h name m = elim (In-append name (formula_symbols f) _ m) [
      | inl k ↦ symbols_known f h.0 name k
      | inr k ↦ operands_known fs h.1 name k
    ]

bool_of : (v : Scalar) → is_bool v ≡ true → (b : Bool) × (v ≡ boolean b)
bool_of (boolean b) h = (b, refl)
bool_of (text s) h = cc

text_of : (v : Scalar) → is_bool v ≡ false → (s : String) × (v ≡ text s)
text_of (text s) h = (s, refl)
text_of (boolean b) h = cc

module _ (ds : List FiniteDomain) (a : Assignment) (c : Chooses ds a)
    (named_once : distinct (names_of ds) ≡ true) where
  bound_bool : (name : String) → HasDomain true ds name → BoundBool (as_environment a) name
  bound_bool name (d, m, e, kind) =
      let (v, found, chosen) = lookup-as_environment d ds a c named_once m in
      let (b, same) = bool_of v (kind v chosen) in
      (b, ap (λ n. lookup n (as_environment a)) e ∙ found ∙ ap some same)

  bound_enum : (name : String) → HasDomain false ds name → BoundEnum (as_environment a) name
  bound_enum name (d, m, e, kind) =
      let (v, found, chosen) = lookup-as_environment d ds a c named_once m in
      let (s, same) = text_of v (kind v chosen) in
      (s, ap (λ n. lookup n (as_environment a)) e ∙ found ∙ ap some same)

not_below : (a b : ℕ) → a ≤ b → ltb b a ≡ false
not_below a b h = ground arith

two_verdicts :
    (fingerprint : FiniteUniverse → String) (u : FiniteUniverse) (o : ℕ × Option Assignment)
    → ((searched_result fingerprint u o).verdict ≡ sat)
      ⊎ ((searched_result fingerprint u o).verdict ≡ unsat)
unfolding searched_result
two_verdicts fingerprint u (n, some w) = inl refl
two_verdicts fingerprint u (n, none) = inr refl

-- Within a positive budget, a formula that reads each symbol at the kind of its domain, in a universe whose
-- symbols are distinct, is decided: the check returns SAT or UNSAT and raises nothing.
pub exhaustive_check_decides :
    (fingerprint : FiniteUniverse → String) (f : Formula) (u : FiniteUniverse) (budget : ℕ)
    → distinct (names_of u.domains) ≡ true
    → Reads (HasDomain true u.domains) (HasDomain false u.domains) f
    → 1 ≤ budget
    → assignment_count u ≤ budget
    → (r : ExhaustiveResult) × (exhaustive_check fingerprint f u budget ≡ ok r)
      × ((r.verdict ≡ sat) ⊎ (r.verdict ≡ unsat))
unfolding exhaustive_check searched_result
exhaustive_check_decides fingerprint f u budget named_once reads positive fits =
    let known = no_entry (unique (minus (formula_symbols f) (names_of u.domains))) (λ s m.
      let (listed, absent) =
        In-minus s (formula_symbols f) (names_of u.domains) (In-unique s _ m) in
      absent (symbols_known u.domains f reads s listed)) in
    let (o, found) = search_from-Returns f 0 (enumerate_assignments u) (λ a m.
      let c = ((enumerate_complete u).0 a).0 m in
      evaluate_total (as_environment a) f (
        Reads-mono (bound_bool u.domains a c named_once) (bound_enum u.domains a c named_once) f
          reads)) in
    (
      searched_result fingerprint u o,
      rw (not_below 1 budget positive, not_below (assignment_count u) budget fits, known, found)
          refl,
      two_verdicts fingerprint u o,
    )
