-- ===== src/Formal/Exhaustive/Search.antt =====
-- The loop over the assignments: what it returns, and when.
use ratcheting_consequence_i.Base.{
  ℕ, ◌+◌, ◌≡◌, refl, Bool, true, false, Option, none, some, List, [], ◌∷◌, ◌++◌, Result, ok,
  >>=-eq-ok, ok_injective, Bool-cases, In, inl, inr, All, length, arith, if◌then◌else◌, subst,
}
use ratcheting_consequence_i.Formal.Ast.{Formula, evaluate}
use ratcheting_consequence_i.Formal.Ast.Typing.{Returns}
use ratcheting_consequence_i.Formal.Universe.{Assignment, as_environment}
use ratcheting_consequence_i.Formal.Exhaustive.{search_from}

abbrev pub At : Formula → Bool → Assignment → Type 0
At f b a = evaluate f (as_environment a) ≡ ok b

-- The witness, with what the loop passed before it.
pub record Found (f : Formula) (start checked : ℕ) (candidates : List Assignment) (w : Assignment)
    : Type 0 where
  pub before : List Assignment
  pub after : List Assignment
  pub split : candidates ≡ before ++ w ∷ after
  pub refuted : All (At f false) before
  pub holds : At f true w
  pub counted : checked ≡ start + length before + 1

abbrev pub Outcome : Formula → ℕ → List Assignment → ℕ × Option Assignment → Type 0
Outcome f start candidates (checked, none) =
    All (At f false) candidates × (checked ≡ start + length candidates)
Outcome f start candidates (checked, some w) = Found f start checked candidates w

Outcome-later :
    (f : Formula) (start : ℕ) (a : Assignment) (later : List Assignment) (o : ℕ × Option Assignment)
    → At f false a
    → Outcome f (start + 1) later o
    → Outcome f start (a ∷ later) o
Outcome-later f start a later (checked, none) h (all_false, n) = ((h, all_false), omega arith)
Outcome-later f start a later (checked, some w) h found = record {
  before = a ∷ found.before;
  after = found.after;
  split = cc found.split;
  refuted = (h, found.refuted);
  holds = found.holds;
  counted = omega (arith, found.counted);
}

Outcome-step :
    (f : Formula) (start : ℕ) (a : Assignment) (later : List Assignment) (b : Bool)
    (rest : Result (ℕ × Option Assignment)) (o : ℕ × Option Assignment)
    → At f b a
    → (rest ≡ ok o → Outcome f (start + 1) later o)
    → (if b then ok (start + 1, some a) else rest) ≡ ok o
    → Outcome f start (a ∷ later) o
Outcome-step f start a later true rest o holds ih e =
    subst (Outcome f start (a ∷ later)) (ok_injective e) (record {
      before = [];
      after = later;
      split = refl;
      refuted = tt;
      holds = holds;
      counted = omega arith;
    })
Outcome-step f start a later false rest o fails ih e = Outcome-later f start a later o fails (ih e)

pub search_from-Outcome :
    (f : Formula) (start : ℕ) (candidates : List Assignment) (o : ℕ × Option Assignment)
    → search_from f start candidates ≡ ok o
    → Outcome f start candidates o
unfolding search_from
search_from-Outcome f start [] o h = subst (Outcome f start []) (ok_injective h) (tt, omega arith)
search_from-Outcome f start (a ∷ later) o h =
    let (b, e, k) = >>=-eq-ok (evaluate f (as_environment a)) _ h in
    Outcome-step f start a later b (search_from f (start + 1) later) o e
      (search_from-Outcome f (start + 1) later o) k

-- Where every evaluation returns, the loop returns.
pub search_from-Returns :
    (f : Formula) (start : ℕ) (candidates : List Assignment)
    → ((a : Assignment) → In a candidates → Returns (evaluate f (as_environment a)))
    → (o : ℕ × Option Assignment) × (search_from f start candidates ≡ ok o)
unfolding search_from
search_from-Returns f start [] h = ((start, none), refl)
search_from-Returns f start (a ∷ later) h =
    let (b, e) = h a (inl refl) in
    let (o, rest) = search_from-Returns f (start + 1) later (λ c m. h c (inr m)) in
    elim (Bool-cases b) [
      | inl yes_here ↦ ((start + 1, some a), rw (e, yes_here))
      | inr not_here ↦ (o, rw (e, not_here) rest)
    ]
