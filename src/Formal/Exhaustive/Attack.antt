-- ===== src/Formal/Exhaustive/Attack.antt =====
-- What an unsatisfiable attack establishes of the condition and the consequence.
use ratcheting_consequence_i.Base.{ℕ, String, ◌≡◌, subst, true, false, ok, arith}
use ratcheting_consequence_i.Formal.Ast.{Formula, negation, evaluate}
use ratcheting_consequence_i.Formal.Universe.{FiniteUniverse, Assignment}
use ratcheting_consequence_i.Formal.Universe.Choices.{Chooses}
use ratcheting_consequence_i.Formal.Exhaustive.{
  AttackProfile, necessity, prerequisite, unsat, ExhaustiveResult, both, exhaustive_check,
  implication_attack,
}
use ratcheting_consequence_i.Formal.Exhaustive.Search.{At}
use ratcheting_consequence_i.Formal.Exhaustive.Verdicts.{Justified, exhaustive_check-Justified}

-- The implication that a profile attacks: for necessity and prerequisites the consequence needs the
-- condition, for the others the condition gives the consequence.
abbrev pub premise : AttackProfile → Formula → Formula → Formula
premise necessity condition consequence = consequence
premise prerequisite condition consequence = consequence
premise _ condition consequence = condition

abbrev pub conclusion : AttackProfile → Formula → Formula → Formula
conclusion necessity condition consequence = condition
conclusion prerequisite condition consequence = condition
conclusion _ condition consequence = consequence

both-false :
    (p q : Formula) (a : Assignment) → At (both p (negation q)) false a → At p true a → At q true a
unfolding evaluate
both-false p q a h k = ground arith

module _ (fingerprint : FiniteUniverse → String) (p q : Formula) (u : FiniteUniverse) (budget : ℕ)
    (r : ExhaustiveResult) where
  refuted_both :
      exhaustive_check fingerprint (both p (negation q)) u budget ≡ ok r
      → r.verdict ≡ unsat
      → (a : Assignment) → Chooses u.domains a
      → At p true a
      → At q true a
  refuted_both h e a c =
      let sound = exhaustive_check-Justified fingerprint (both p (negation q)) u budget r h in
      both-false p q a ((subst (λ v. Justified (both p (negation q)) u budget v r) e sound.0).0 a c)

-- After an unsatisfiable attack the attacked implication holds at every choice of the universe.
pub implication_attack_refuted :
    (fingerprint : FiniteUniverse → String) (profile : AttackProfile)
    (condition consequence : Formula) (u : FiniteUniverse) (budget : ℕ) (r : ExhaustiveResult)
    → implication_attack fingerprint profile condition consequence u budget ≡ ok r
    → r.verdict ≡ unsat
    → (a : Assignment) → Chooses u.domains a
    → At (premise profile condition consequence) true a
    → At (conclusion profile condition consequence) true a
unfolding implication_attack
implication_attack_refuted fp necessity p q u n r h e = refuted_both fp q p u n r h e
implication_attack_refuted fp prerequisite p q u n r h e = refuted_both fp q p u n r h e
implication_attack_refuted fp _ p q u n r h e = refuted_both fp p q u n r h e
