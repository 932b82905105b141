-- ===== src/Formal/Exhaustive.antt =====
-- src/rci/formal/exhaustive.py: the bounded search for a satisfying assignment, and the attack
-- profiles that are put to it. A universe's fingerprint is a hash, which is a parameter here.
pub mod Search
pub mod Verdicts
pub mod Decides
pub mod Attack
mod Tests
use Prim.Native.String
use ratcheting_consequence_i.Base.{
  ℕ, ◌+◌, String, ◌≡◌, Bool, true, false, ◌&&◌, Option, none, some, List, [], ◌∷◌, Result, ok,
  raise, value_error, ◌>>=◌, ltb, minus, unique, is_empty, is_some, is_none, if◌then◌else◌,
  string_eq,
}
use ratcheting_consequence_i.Base.Order.{string_ord}
use ratcheting_consequence_i.Base.Sort.{sorted}
use ratcheting_consequence_i.Formal.Ast.{
  Formula, negation, conjunction, none_left, operand, evaluate, formula_symbols,
}
use ratcheting_consequence_i.Formal.Universe.{
  FiniteUniverse, Assignment, names_of, as_environment, assignment_count, enumerate_assignments,
}

pub data AttackProfile : Type 0 where
  necessity sufficiency prerequisite localization generalization actualization : AttackProfile

pub data ExhaustiveVerdict : Type 0 where
  sat unsat unknown : ExhaustiveVerdict

pub record ExhaustiveResult : Type 0 where
  pub verdict : ExhaustiveVerdict
  pub universe_id : String
  pub universe_revision : String
  pub universe_fingerprint : String
  pub closed_world : Bool
  pub assignments_checked : ℕ
  pub witness : Option Assignment
  pub reason : Option String

abbrev fits : ExhaustiveVerdict → Option Assignment → Option String → Bool
fits sat witness reason = is_some witness
fits unsat witness reason = is_none witness
fits unknown witness reason = is_none witness && is_some reason

-- The model validator: exactly the SAT results carry a witness, and an unknown result has a reason.
unfoldable pub valid_result : ExhaustiveResult → Bool
valid_result r = fits r.verdict r.witness r.reason

abbrev is_unsat : ExhaustiveVerdict → Bool
is_unsat unsat = true
is_unsat _ = false

unfoldable pub hard_unsat_eligible : ExhaustiveResult → Bool
hard_unsat_eligible r = is_unsat r.verdict && r.closed_world

-- `",".join(names)`
unfoldable pub joined : List String → String
joined [] = ""
joined (name ∷ []) = name
joined (name ∷ other ∷ names) = String.◌++◌ name (String.◌++◌ "," (joined (other ∷ names)))

-- The `for` loop: how many assignments were checked, and the first that satisfies the formula.
unfoldable pub search_from : Formula → ℕ → List Assignment → Result (ℕ × Option Assignment)
search_from formula checked [] = ok (checked, none)
search_from formula checked (assignment ∷ later) =
    let rest = search_from formula (checked + 1) later in
    do
      holds ← evaluate formula (as_environment assignment)
      if holds then ok (checked + 1, some assignment) else rest

abbrev pub both : Formula → Formula → Formula
both f g = conjunction (operand f (operand g none_left))

-- The counterexample that a profile asks for.
unfoldable pub counterexample : AttackProfile → Formula → Formula → Formula
counterexample necessity condition consequence = both consequence (negation condition)
counterexample prerequisite condition consequence = both consequence (negation condition)
counterexample _ condition consequence = both condition (negation consequence)

module _ (fingerprint : FiniteUniverse → String) where
  unfoldable pub unknown_result : FiniteUniverse → String → ExhaustiveResult
  unknown_result u reason = record {
    verdict = unknown;
    universe_id = u.id;
    universe_revision = u.revision;
    universe_fingerprint = fingerprint u;
    closed_world = u.closed_world;
    assignments_checked = 0;
    witness = none;
    reason = some reason;
  }

  unfoldable pub searched_result : FiniteUniverse → ℕ × Option Assignment → ExhaustiveResult
  searched_result u (checked, found) = record {
    verdict = elim found [ some w ↦ sat | none ↦ unsat ];
    universe_id = u.id;
    universe_revision = u.revision;
    universe_fingerprint = fingerprint u;
    closed_world = u.closed_world;
    assignments_checked = checked;
    witness = found;
    reason = none;
  }

  unfoldable pub exhaustive_check : Formula → FiniteUniverse → ℕ → Result ExhaustiveResult
  unfolding unknown_result searched_result search_from joined
  exhaustive_check formula u max_assignments =
      let missing = unique (minus (formula_symbols formula) (names_of u.domains)) in
      if ltb max_assignments 1
      then raise value_error
      else if ltb max_assignments (assignment_count u)
      then ok (unknown_result u "assignment_budget_exceeded")
      else if is_empty missing
      then (do
        outcome ← search_from formula 0 (enumerate_assignments u)
        ok (searched_result u outcome))
      else ok (
          unknown_result u
            (String.◌++◌ "unbound_symbols:" (joined (sorted (λ name. name) missing))))

  unfoldable pub implication_attack :
      AttackProfile → Formula → Formula → FiniteUniverse → ℕ → Result ExhaustiveResult
  unfolding counterexample exhaustive_check
  implication_attack profile condition consequence u max_assignments =
      exhaustive_check (counterexample profile condition consequence) u max_assignments
