-- ===== src/Formal/Exhaustive/Tests.antt =====
-- The check on a small circuit: a lamp that a switch and one of two supplies light.
use ratcheting_consequence_i.Base.{
  ◌≡◌, ◌↔◌, ◌⊎◌, refl, Bool, true, false, some, none, [], ◌∷◌, ok, raise, In, inl, inr, length,
  arith, String, evaluation_error, unique, minus, string_eq, list_eq, gather, distinct, all,
}
use ratcheting_consequence_i.Base.Keyed.{lookup, put}
use ratcheting_consequence_i.Base.Order.{string_ord}
use ratcheting_consequence_i.Base.Sort.{sorted}
use ratcheting_consequence_i.Formal.Ast.{
  Formula, Scalar, boolean, text, formula_symbols, symbol, enum_equals, disjunction, implies,
  operand, none_left, evaluate,
}
use ratcheting_consequence_i.Formal.Ast.Typing.{Returns, evaluate_total}
use ratcheting_consequence_i.Formal.Universe.{
  FiniteDomain, FiniteUniverse, Assignment, AssignmentValue, as_environment, valid_universe,
  enumerate_assignments, assignment_count, count_assignments, names_of, scalar_eq, is_bool,
}
use ratcheting_consequence_i.Formal.Universe.Choices.{Chooses, enumerate_complete}
use ratcheting_consequence_i.Formal.Exhaustive.{
  sat, unsat, unknown, necessity, ExhaustiveResult, exhaustive_check, both, implication_attack,
}
use ratcheting_consequence_i.Formal.Exhaustive.Search.{At}
use ratcheting_consequence_i.Formal.Exhaustive.Verdicts.{Sound, exhaustive_check-Justified}
use ratcheting_consequence_i.Formal.Exhaustive.Decides.{exhaustive_check_decides}
use ratcheting_consequence_i.Formal.Exhaustive.Attack.{implication_attack_refuted}

abbrev closed : FiniteDomain
closed = record { symbol = "closed"; values = boolean false ∷ boolean true ∷ [] }

abbrev supply : FiniteDomain
supply = record { symbol = "supply"; values = text "main" ∷ text "none" ∷ text "ups" ∷ [] }

abbrev circuit : FiniteUniverse
circuit = record {
  id = "circuit";
  revision = "1";
  domains = closed ∷ supply ∷ [];
  closed_world = true;
}

abbrev hash : FiniteUniverse → String
hash u = u.id

abbrev powered : Formula
powered =
    disjunction
      (operand (enum_equals "supply" "main") (operand (enum_equals "supply" "ups") none_left))

abbrev lit : Formula
lit = both (symbol "closed") powered

-- What the tests compute with.
program : Unit {0}
unfolding exhaustive_check implication_attack valid_universe assignment_count count_assignments
    unique minus formula_symbols names_of string_eq list_eq scalar_eq enumerate_assignments gather
    evaluate lookup as_environment put sorted string_ord distinct all
program = tt

circuit_valid : valid_universe circuit ≡ true
unfolding program
circuit_valid = refl

abbrev value : String → Bool → AssignmentValue
value name b = record { symbol = name; value = boolean b }

abbrev supplied : String → Assignment
supplied s = value "closed" true ∷ record { symbol = "supply"; value = text s } ∷ []

-- The lamp is lit at the fourth assignment, with the main supply.
abbrev lit_result : ExhaustiveResult
lit_result = record {
  verdict = sat;
  universe_id = "circuit";
  universe_revision = "1";
  universe_fingerprint = "circuit";
  closed_world = true;
  assignments_checked = 4;
  witness = some (supplied "main");
  reason = none;
}

lit_check : exhaustive_check hash lit circuit 6 ≡ ok lit_result
unfolding program
lit_check = refl

abbrev attack_result : ExhaustiveResult
attack_result = record lit_result { verdict = unsat; assignments_checked = 6; witness = none }

-- Nothing lights the lamp with the switch open.
necessity_check :
    implication_attack hash necessity (symbol "closed") lit circuit 6 ≡ ok attack_result
unfolding program
necessity_check = refl

budget_check :
    exhaustive_check hash lit circuit 5
    ≡ ok (record lit_result {
      verdict = unknown;
      assignments_checked = 0;
      witness = none;
      reason = some "assignment_budget_exceeded";
    })
unfolding program
budget_check = refl

unbound_check :
    exhaustive_check hash (implies (symbol "b") (both (symbol "a") (symbol "b"))) circuit 6
    ≡ ok (record lit_result {
      verdict = unknown;
      assignments_checked = 0;
      witness = none;
      reason = some "unbound_symbols:a,b";
    })
unfolding program
unbound_check = refl

-- A symbol that is bound to a domain of the other kind passes the test for unbound symbols.
kind_check : exhaustive_check hash (symbol "supply") circuit 6 ≡ raise evaluation_error
unfolding program
kind_check = refl

enumerate_complete_example :
    ((a : Assignment) → In a (enumerate_assignments circuit) ↔ Chooses circuit.domains a)
    × (length (enumerate_assignments circuit) ≡ assignment_count circuit)
enumerate_complete_example = enumerate_complete circuit

evaluate_total_example : Returns (evaluate lit (as_environment (supplied "ups")))
unfolding program
evaluate_total_example =
    evaluate_total (as_environment (supplied "ups")) lit
      ((true, refl), ((("ups", refl), (("ups", refl), tt)), tt))

exhaustive_check-Justified_example : Sound lit circuit 6 lit_result
exhaustive_check-Justified_example =
    exhaustive_check-Justified hash lit circuit 6 lit_result lit_check

bools : (v : Scalar) → In v closed.values → is_bool v ≡ true
bools v (inl e) = rw e
bools v (inr (inl e)) = rw e
bools v (inr (inr m)) = absurd m

names : (v : Scalar) → In v supply.values → is_bool v ≡ false
names v (inl e) = rw e
names v (inr (inl e)) = rw e
names v (inr (inr (inl e))) = rw e
names v (inr (inr (inr m))) = absurd m

exhaustive_check_decides_example :
    (r : ExhaustiveResult) × (exhaustive_check hash lit circuit 6 ≡ ok r)
    × ((r.verdict ≡ sat) ⊎ (r.verdict ≡ unsat))
unfolding program
exhaustive_check_decides_example =
    exhaustive_check_decides hash lit circuit 6 refl
      (
        (closed, inl refl, refl, bools),
        (((supply, inr (inl refl), refl, names), ((supply, inr (inl refl), refl, names), tt)), tt),
      )
      (omega arith) (omega arith)

implication_attack_refuted_example : At (symbol "closed") true (supplied "ups")
unfolding program
implication_attack_refuted_example =
    implication_attack_refuted hash necessity (symbol "closed") lit circuit 6 attack_result
      necessity_check refl (supplied "ups") (refl, inr (inl refl), (refl, inr (inr (inl refl)), tt))
      refl
