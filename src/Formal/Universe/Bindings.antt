-- ===== src/Formal/Universe/Bindings.antt =====
-- What `as_environment` binds, when the symbols of the universe are distinct.
use ratcheting_consequence_i.Base.{
  String, ◌≡◌, refl, sym, subst, ◌∙◌, true, false, some, List, [], ◌∷◌, In, inl, inr, arith,
  contains, distinct, string_eq,
}
use ratcheting_consequence_i.Base.Keyed.{lookup, put, lookup-put}
use ratcheting_consequence_i.Formal.Ast.{Scalar, Environment}
use ratcheting_consequence_i.Formal.Universe.{
  FiniteDomain, Assignment, names_of, fill, as_environment,
}
use ratcheting_consequence_i.Formal.Universe.Choices.{Chooses}

-- What is bound at a name after the assignment's values have been written over `env`.
lookup-fill_other :
    (name : String) (ds : List FiniteDomain) (a : Assignment) (env : Environment)
    → Chooses ds a
    → contains (names_of ds) name ≡ false
    → lookup name (fill env a) ≡ lookup name env
unfolding contains names_of
lookup-fill_other name [] [] env c h = refl
lookup-fill_other name [] (v ∷ vs) env c h = absurd c
lookup-fill_other name (d ∷ ds) [] env c h = absurd c
lookup-fill_other name (d ∷ ds) (v ∷ vs) env c h =
    lookup-fill_other name ds vs (put v.symbol v.value env) c.2 (ground arith)
    ∙ ground (arith, lookup-put v.symbol name v.value env, c.0)

-- The environment binds the symbol of each domain to a value of that domain.
lookup-fill :
    (d : FiniteDomain) (ds : List FiniteDomain) (a : Assignment) (env : Environment)
    → Chooses ds a
    → distinct (names_of ds) ≡ true
    → In d ds
    → (v : Scalar) × (lookup d.symbol (fill env a) ≡ some v) × In v d.values
unfolding distinct names_of
lookup-fill d [] a env c h m = absurd m
lookup-fill d (e ∷ ds) [] env c h m = absurd c
lookup-fill d (e ∷ ds) (v ∷ vs) env c h (inl same) = (
  v.value,
  lookup-fill_other d.symbol ds vs (put v.symbol v.value env) c.2 (ground arith)
      ∙ ground (arith, lookup-put v.symbol d.symbol v.value env, c.0),
  subst (λ (x : FiniteDomain). In v.value x.values) (sym same) c.1,
)
lookup-fill d (e ∷ ds) (v ∷ vs) env c h (inr m) =
    lookup-fill d ds vs (put v.symbol v.value env) c.2 (ground arith) m

pub lookup-as_environment :
    (d : FiniteDomain) (ds : List FiniteDomain) (a : Assignment)
    → Chooses ds a
    → distinct (names_of ds) ≡ true
    → In d ds
    → (v : Scalar) × (lookup d.symbol (as_environment a) ≡ some v) × In v d.values
unfolding as_environment
lookup-as_environment d ds a c h m = lookup-fill d ds a [] c h m
