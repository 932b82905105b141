-- ===== src/Formal/Exhaustive/Verdicts.antt =====
-- What each verdict of the exhaustive check says of the formula and the universe.
use ratcheting_consequence_i.Base.{
  ℕ, ◌<◌, ◌≡◌, ◌⊎◌, refl, true, false, Option, none, some, List, ◌∷◌, ok, >>=-eq-ok, ok_injective,
  In, inl, inr, arith, subst, sym, String, minus, unique, is_empty, if_split, ltb→lt,
  In-append_right, All-In, some_entry, In-minus, In-unique, ltb, string_eq,
}
use ratcheting_consequence_i.Base.Order.{string_ord}
use ratcheting_consequence_i.Formal.Ast.{Formula, formula_symbols}
use ratcheting_consequence_i.Formal.Universe.{
  FiniteUniverse, Assignment, names_of, assignment_count, enumerate_assignments,
}
use ratcheting_consequence_i.Formal.Universe.Choices.{Chooses, enumerate_complete}
use ratcheting_consequence_i.Formal.Exhaustive.{
  ExhaustiveVerdict, sat, unsat, unknown, ExhaustiveResult, valid_result, exhaustive_check,
  search_from, searched_result,
}
use ratcheting_consequence_i.Formal.Exhaustive.Search.{Outcome, At, search_from-Outcome}

-- What a verdict claims: a SAT witness is a choice of the universe that satisfies the formula; after
-- UNSAT no choice satisfies it, and every choice was tried; UNKNOWN has one of its two causes.
abbrev pub Justified : Formula → FiniteUniverse → ℕ → ExhaustiveVerdict → ExhaustiveResult → Type 0
Justified f u budget sat r =
    (w : Assignment) × (r.witness ≡ some w) × Chooses u.domains w × At f true w
Justified f u budget unsat r =
    ((a : Assignment) → Chooses u.domains a → At f false a)
    × (r.assignments_checked ≡ assignment_count u)
Justified f u budget unknown r =
    (budget < assignment_count u)
    ⊎ ((name : String) × In name (formula_symbols f) × ¬ In name (names_of u.domains))

abbrev pub Sound : Formula → FiniteUniverse → ℕ → ExhaustiveResult → Type 0
Sound f u budget r = Justified f u budget r.verdict r × (valid_result r ≡ true)

module _ (fingerprint : FiniteUniverse → String) (f : Formula) (u : FiniteUniverse)
    (budget : ℕ) where
  searched-Justified :
      (o : ℕ × Option Assignment)
      → Outcome f 0 (enumerate_assignments u) o
      → Sound f u budget (searched_result fingerprint u o)
  unfolding searched_result valid_result
  searched-Justified (checked, none) (all_false, n) = (
    (
      λ a c. All-In (At f false) a _ all_false (((enumerate_complete u).0 a).1 c),
      omega (arith, (enumerate_complete u).1),
    ),
    refl,
  )
  searched-Justified (checked, some w) found = (
    (
      w,
      refl,
      ((enumerate_complete u).0 w).0 (
          subst (In w) (sym found.split)
            (In-append_right w found.before (w ∷ found.after) (inl refl))),
      found.holds,
    ),
    refl,
  )

  missing_symbol :
      (missing : List String)
      → missing ≡ unique (minus (formula_symbols f) (names_of u.domains))
      → is_empty missing ≡ false
      → (name : String) × In name (formula_symbols f) × ¬ In name (names_of u.domains)
  missing_symbol missing e h =
      let (name, m) = some_entry missing h in
      let (listed, absent) =
        In-minus name (formula_symbols f) (names_of u.domains)
          (In-unique name _ (subst (In name) e m)) in
      (name, listed, absent)

-- Every result of the check is justified by its verdict, and passes the result's own validator.
pub exhaustive_check-Justified :
    (fingerprint : FiniteUniverse → String) (f : Formula) (u : FiniteUniverse) (budget : ℕ)
    (r : ExhaustiveResult)
    → exhaustive_check fingerprint f u budget ≡ ok r
    → Sound f u budget r
unfolding exhaustive_check valid_result
exhaustive_check-Justified fingerprint f u budget r h =
    let missing = unique (minus (formula_symbols f) (names_of u.domains)) in
    if_split (ltb budget 1) h (λ _ e. cc)
      λ _ e₁.
        if_split (ltb budget (assignment_count u)) e₁
          (λ over e. subst (Sound f u budget) (ok_injective e) (inl (ltb→lt _ _ over), refl))
          λ _ e₂.
            if_split (is_empty missing) e₂
              (λ _ e.
                let (o, found, same) = >>=-eq-ok (search_from f 0 (enumerate_assignments u)) _ e in
                subst (Sound f u budget) (ok_injective same)
                  (searched-Justified fingerprint f u budget o (search_from-Outcome f 0 _ o found)))
              (λ some_missing e.
                subst (Sound f u budget) (ok_injective e)
                  (inr (missing_symbol fingerprint f u budget missing refl some_missing), refl))
