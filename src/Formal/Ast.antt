-- ===== src/Formal/Ast.antt =====
-- src/rci/formal/ast.py: Boolean and finite-enum formulas, their interpreter, and their symbols.
pub mod Typing
use ratcheting_consequence_i.Base.{
  ℕ, String, ◌≡◌, Bool, true, false, not, ◌&&◌, ◌||◌, Option, none, some, List, [], ◌∷◌, ◌++◌, Eq,
  ◌==◌, Result, ok, raise, evaluation_error, ◌>>=◌, if◌then◌else◌, string_eq, bool_eq,
}
use ratcheting_consequence_i.Base.Keyed.{lookup}

-- `type Scalar = bool | str`
pub data Scalar : Type 0 where
  boolean : Bool → Scalar
  text : String → Scalar

abbrev pub Environment : Type 0
Environment = List (String × Scalar)

mutual
  pub data Formula : Type 0 where
    bool_literal : Bool → Formula
    symbol : String → Formula
    enum_equals : String → String → Formula
    negation : Formula → Formula
    conjunction : Formulas → Formula
    disjunction : Formulas → Formula
    implies : Formula → Formula → Formula
    equivalence : Formula → Formula → Formula

  pub data Formulas : Type 0 where
    none_left : Formulas
    operand : Formula → Formulas → Formulas

abbrev no_operands : Formulas → Bool
no_operands none_left = true
no_operands (operand f fs) = false

-- The model validators: names are not empty, and `and` and `or` have an operand.
unfoldable mutual
  pub valid_formula : Formula → Bool
  valid_formula (bool_literal b) = true
  valid_formula (symbol name) = not (name == "")
  valid_formula (enum_equals s v) = not (s == "") && not (v == "")
  valid_formula (negation f) = valid_formula f
  valid_formula (conjunction fs) = not (no_operands fs) && valid_formulas fs
  valid_formula (disjunction fs) = not (no_operands fs) && valid_formulas fs
  valid_formula (implies f g) = valid_formula f && valid_formula g
  valid_formula (equivalence f g) = valid_formula f && valid_formula g

  pub valid_formulas : Formulas → Bool
  valid_formulas none_left = true
  valid_formulas (operand f fs) = valid_formula f && valid_formulas fs

-- `value = environment.get(name)` and the test of its type.
abbrev pub bool_value : Option Scalar → Result Bool
bool_value (some (boolean b)) = ok b
bool_value (some (text s)) = raise evaluation_error
bool_value none = raise evaluation_error

abbrev pub text_value : Option Scalar → Result String
text_value (some (text s)) = ok s
text_value (some (boolean b)) = raise evaluation_error
text_value none = raise evaluation_error

-- `all` and `any` stop at the first operand that decides, and so do `or` and an implication.
unfoldable mutual
  pub evaluate : Formula → Environment → Result Bool
  evaluate (bool_literal b) env = ok b
  evaluate (symbol name) env = bool_value (lookup name env)
  evaluate (enum_equals s v) env = do value ← text_value (lookup s env); ok (value == v)
  evaluate (negation f) env = do b ← evaluate f env; ok (not b)
  evaluate (conjunction fs) env = evaluate_all fs env
  evaluate (disjunction fs) env = evaluate_any fs env
  evaluate (implies f g) env = do b ← evaluate f env; if b then evaluate g env else ok true
  evaluate (equivalence f g) env = do b ← evaluate f env; c ← evaluate g env; ok (b == c)

  pub evaluate_all : Formulas → Environment → Result Bool
  evaluate_all none_left env = ok true
  evaluate_all (operand f fs) env = do
    b ← evaluate f env
    if b then evaluate_all fs env else ok false

  pub evaluate_any : Formulas → Environment → Result Bool
  evaluate_any none_left env = ok false
  evaluate_any (operand f fs) env = do
    b ← evaluate f env
    if b then ok true else evaluate_any fs env

-- A set of names, as a list.
unfoldable mutual
  pub formula_symbols : Formula → List String
  formula_symbols (bool_literal b) = []
  formula_symbols (symbol name) = name ∷ []
  formula_symbols (enum_equals s v) = s ∷ []
  formula_symbols (negation f) = formula_symbols f
  formula_symbols (conjunction fs) = operand_symbols fs
  formula_symbols (disjunction fs) = operand_symbols fs
  formula_symbols (implies f g) = formula_symbols f ++ formula_symbols g
  formula_symbols (equivalence f g) = formula_symbols f ++ formula_symbols g

  pub operand_symbols : Formulas → List String
  operand_symbols none_left = []
  operand_symbols (operand f fs) = formula_symbols f ++ operand_symbols fs
