-- ===== src/Formal/Ast/Typing.antt =====
-- When evaluation returns: every symbol is bound to a scalar of the kind that the formula reads.
use ratcheting_consequence_i.Base.{
  String, ◌≡◌, Bool, true, false, some, Result, ok, ◌>>=◌, refl, not, ◌==◌, if◌then◌else◌, bool_eq,
  string_eq,
}
use ratcheting_consequence_i.Base.Keyed.{lookup}
use ratcheting_consequence_i.Formal.Ast.{
  Formula, Formulas, Environment, boolean, text, bool_literal, symbol, enum_equals, negation,
  conjunction, disjunction, implies, equivalence, none_left, operand, evaluate, evaluate_all,
  evaluate_any,
}

-- The kinds that a formula reads its symbols at, for any account of what is bound to what.
module _ (IsBool IsEnum : String → Type 0) where
  abbrev mutual
    pub Reads : Formula → Type 0
    Reads (bool_literal b) = Unit
    Reads (symbol name) = IsBool name
    Reads (enum_equals s v) = IsEnum s
    Reads (negation f) = Reads f
    Reads (conjunction fs) = ReadsAll fs
    Reads (disjunction fs) = ReadsAll fs
    Reads (implies f g) = Reads f × Reads g
    Reads (equivalence f g) = Reads f × Reads g

    pub ReadsAll : Formulas → Type 0
    ReadsAll none_left = Unit
    ReadsAll (operand f fs) = Reads f × ReadsAll fs

abbrev pub Returns : Result Bool → Type 0
Returns r = (b : Bool) × (r ≡ ok b)

module _ (env : Environment) where
  abbrev pub BoundBool : String → Type 0
  BoundBool name = (b : Bool) × (lookup name env ≡ some (boolean b))

  abbrev pub BoundEnum : String → Type 0
  BoundEnum name = (s : String) × (lookup name env ≡ some (text s))

  and_then :
      (r : Result Bool) (f : Bool → Result Bool)
      → Returns r
      → ((b : Bool) → Returns (f b))
      → Returns (r >>= f)
  and_then r f (b, e) h = let (c, k) = h b in (c, rw e k)

  if_Returns : (b : Bool) (x y : Result Bool) → Returns x → Returns y → Returns (if b then x else y)
  if_Returns true x y hx hy = hx
  if_Returns false x y hx hy = hy

  mutual
    unfolding evaluate evaluate_all evaluate_any

    evaluate-Returns : (f : Formula) → Reads BoundBool BoundEnum f → Returns (evaluate f env)
    evaluate-Returns (bool_literal b) h = (b, refl)
    evaluate-Returns (symbol name) (b, e) = (b, rw e)
    evaluate-Returns (enum_equals s v) (w, e) = (w == v, rw e)
    evaluate-Returns (negation f) h =
        and_then (evaluate f env) _ (evaluate-Returns f h) (λ b. (not b, refl))
    evaluate-Returns (conjunction fs) h = evaluate_all-Returns fs h
    evaluate-Returns (disjunction fs) h = evaluate_any-Returns fs h
    evaluate-Returns (implies f g) h =
        and_then (evaluate f env) _ (evaluate-Returns f h.0)
          λ b. if_Returns b _ _ (evaluate-Returns g h.1) (true, refl)
    evaluate-Returns (equivalence f g) h =
        and_then (evaluate f env) _ (evaluate-Returns f h.0)
          λ b. and_then (evaluate g env) _ (evaluate-Returns g h.1) (λ c. (b == c, refl))

    evaluate_all-Returns :
        (fs : Formulas) → ReadsAll BoundBool BoundEnum fs → Returns (evaluate_all fs env)
    evaluate_all-Returns none_left h = (true, refl)
    evaluate_all-Returns (operand f fs) h =
        and_then (evaluate f env) _ (evaluate-Returns f h.0)
          λ b. if_Returns b _ _ (evaluate_all-Returns fs h.1) (false, refl)

    evaluate_any-Returns :
        (fs : Formulas) → ReadsAll BoundBool BoundEnum fs → Returns (evaluate_any fs env)
    evaluate_any-Returns none_left h = (false, refl)
    evaluate_any-Returns (operand f fs) h =
        and_then (evaluate f env) _ (evaluate-Returns f h.0)
          λ b. if_Returns b _ _ (true, refl) (evaluate_any-Returns fs h.1)

  -- Evaluation returns a truth value in every environment that binds each symbol which the formula
  -- reads to a scalar of the kind that it reads.
  pub evaluate_total : (f : Formula) → Reads BoundBool BoundEnum f → Returns (evaluate f env)
  evaluate_total f h = evaluate-Returns f h

module _ {P Q P' Q' : String → Type 0} (p : (s : String) → P s → P' s)
    (q : (s : String) → Q s → Q' s) where
  mutual
    Reads-map : (f : Formula) → Reads P Q f → Reads P' Q' f
    Reads-map (bool_literal b) h = tt
    Reads-map (symbol s) h = p s h
    Reads-map (enum_equals s v) h = q s h
    Reads-map (negation f) h = Reads-map f h
    Reads-map (conjunction fs) h = ReadsAll-map fs h
    Reads-map (disjunction fs) h = ReadsAll-map fs h
    Reads-map (implies f g) h = (Reads-map f h.0, Reads-map g h.1)
    Reads-map (equivalence f g) h = (Reads-map f h.0, Reads-map g h.1)

    ReadsAll-map : (fs : Formulas) → ReadsAll P Q fs → ReadsAll P' Q' fs
    ReadsAll-map none_left h = tt
    ReadsAll-map (operand f fs) h = (Reads-map f h.0, ReadsAll-map fs h.1)

  pub Reads-mono : (f : Formula) → Reads P Q f → Reads P' Q' f
  Reads-mono f h = Reads-map f h
