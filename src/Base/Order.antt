-- ===== src/Base/Order.antt =====
-- The total orders behind `sorted`, `min` and the tuple keys of the source: Python compares `int`,
-- `str` (by code points) and tuples (entry by entry) in these ways.
use Prim.Native.Char.{Char, code}
use Prim.Native.Nat.{ℕ, compare, Ordering}
use Prim.Native.Nat.Ordering.{lt, eq, gt}
use Prim.Native.String.{String, compare as compare_text}
use Prim.Native.String.compare as text_clauses
use mathlib.Core.Path.{◌≡◌, refl}
use mathlib.Core.Bool.{Bool, true, false}
use mathlib.Core.List.{List, [], ◌∷◌}
use native.Mathlib.Omega.{arith}
use text.Mathlib.TextEquality.{path_by_compare}
use text.Mathlib.TextPositions.{compare_refl}
use ratcheting_consequence_i.Base.Int.{ℤ, pos, negsuc}

abbrev pub opposite : Ordering → Ordering
opposite lt = gt
opposite eq = eq
opposite gt = lt

abbrev pub next_by : Ordering → Ordering → Ordering
next_by lt second = lt
next_by eq second = second
next_by gt second = gt

pub record IsLawful {ℓ} {A : Type ℓ} (cmp : A → A → Ordering) : Type ℓ where
  pub eq_of_cmp : (a b : A) → cmp a b ≡ eq → a ≡ b
  pub cmp_refl : (a : A) → cmp a a ≡ eq
  pub cmp_swap : (a b : A) → cmp b a ≡ opposite (cmp a b)
  pub lt_trans : (a b c : A) → cmp a b ≡ lt → cmp b c ≡ lt → cmp a c ≡ lt

pub record Ord {ℓ} (A : Type ℓ) : Type ℓ where
  pub cmp : A → A → Ordering
  pub lawful : IsLawful cmp
  pub open lawful use *

module _ {ℓ} {A : Type ℓ} ⦃o : Ord A⦄ where
  -- `a <= b` and `a < b`
  abbrev pub le : A → A → Bool
  le a b = elim (o.cmp a b) [ gt ↦ false | _ ↦ true ]

  abbrev pub less : A → A → Bool
  less a b = elim (o.cmp a b) [ lt ↦ true | _ ↦ false ]

  pub le_refl : (a : A) → le a a ≡ true
  le_refl a = ground (arith, o.cmp_refl a)

  pub le_total : (a b : A) → le a b ≡ false → le b a ≡ true
  le_total a b h = ground (arith, o.cmp_swap a b)

  pub le_antisymm : (a b : A) → le a b ≡ true → le b a ≡ true → a ≡ b
  le_antisymm a b h k = ground (arith, o.cmp_swap a b, o.eq_of_cmp a b)

  pub le_trans : (a b c : A) → le a b ≡ true → le b c ≡ true → le a c ≡ true
  le_trans a b c h k =
      ground (arith, o.lt_trans a b c, o.eq_of_cmp a b, o.eq_of_cmp b c, o.cmp_refl a)

  pub less_iff_le : (a b : A) → less a b ≡ true → (le a b ≡ true) × (le b a ≡ false)
  less_iff_le a b h = ground (arith, o.cmp_swap a b)

pub nat-IsLawful : IsLawful compare
nat-IsLawful = record {
  eq_of_cmp = λ a b h. ground arith;
  cmp_refl = λ a. ground arith;
  cmp_swap = λ a b. ground arith;
  lt_trans = λ a b c h k. ground arith;
}

instance unfoldable pub nat_ord : Ord ℕ
nat_ord = record { cmp = compare; lawful = nat-IsLawful }

abbrev pub int_compare : ℤ → ℤ → Ordering
int_compare (pos m) (pos n) = compare m n
int_compare (pos m) (negsuc n) = gt
int_compare (negsuc m) (pos n) = lt
int_compare (negsuc m) (negsuc n) = compare n m

int_swap : (a b : ℤ) → int_compare b a ≡ opposite (int_compare a b)
int_swap (pos m) (pos n) = ground arith
int_swap (negsuc m) (negsuc n) = ground arith
int_swap (pos m) (negsuc n) = refl
int_swap (negsuc m) (pos n) = refl

pub int-IsLawful : IsLawful int_compare
int-IsLawful = record {
  eq_of_cmp = λ a b h. ground arith;
  cmp_refl = λ a. ground arith;
  cmp_swap = int_swap;
  lt_trans = λ a b c h k. ground arith;
}

instance unfoldable pub int_ord : Ord ℤ
int_ord = record { cmp = int_compare; lawful = int-IsLawful }

-- Texts compare by the code points of their characters.
text_step :
    (c d : Char) (s t : String)
    → compare_text (String.◌∷◌ c s) (String.◌∷◌ d t)
      ≡ next_by (compare (code c) (code d)) (compare_text s t)
text_step c d s t = text_clauses.cons-cons c d s t

text_swap : (s t : String) → compare_text t s ≡ opposite (compare_text s t)
text_swap String.[] String.[] = rw text_clauses.nil-nil refl
text_swap String.[] (String.◌∷◌ d t) =
    ground (arith, text_clauses.nil-cons d t, text_clauses.cons-nil d t)
text_swap (String.◌∷◌ c s) String.[] =
    ground (arith, text_clauses.nil-cons c s, text_clauses.cons-nil c s)
text_swap (String.◌∷◌ c s) (String.◌∷◌ d t) =
    ground (arith, text_step c d s t, text_step d c t s, text_swap s t)

text_empty : (t : String) → compare_text t String.[] ≡ lt → ⊥
text_empty String.[] h = cc text_clauses.nil-nil
text_empty (String.◌∷◌ d t) h = cc (text_clauses.cons-nil d t)

text_lt_trans :
    (s t u : String) → compare_text s t ≡ lt → compare_text t u ≡ lt → compare_text s u ≡ lt
text_lt_trans String.[] t String.[] h k = absurd (text_empty t k)
text_lt_trans String.[] t (String.◌∷◌ e u) h k = text_clauses.nil-cons e u
text_lt_trans (String.◌∷◌ c s) String.[] u h k = cc (text_clauses.cons-nil c s)
text_lt_trans (String.◌∷◌ c s) (String.◌∷◌ d t) String.[] h k = cc (text_clauses.cons-nil d t)
text_lt_trans (String.◌∷◌ c s) (String.◌∷◌ d t) (String.◌∷◌ e u) h k =
    ground (arith, text_step c d s t, text_step d e t u, text_step c e s u, text_lt_trans s t u)

pub text-IsLawful : IsLawful compare_text
text-IsLawful = record {
  eq_of_cmp = path_by_compare;
  cmp_refl = compare_refl;
  cmp_swap = text_swap;
  lt_trans = text_lt_trans;
}

instance unfoldable pub string_ord : Ord String
string_ord = record { cmp = compare_text; lawful = text-IsLawful }

module _ {ℓ κ} {A : Type ℓ} {B : Type κ} ⦃a : Ord A⦄ ⦃b : Ord B⦄ where
  abbrev pub pair_compare : A × B → A × B → Ordering
  pair_compare x y = next_by (a.cmp x.0 y.0) (b.cmp x.1 y.1)

  pub pair-IsLawful : IsLawful {A = A × B} pair_compare
  pair-IsLawful = record {
    eq_of_cmp = λ x y h. ground (arith, a.eq_of_cmp x.0 y.0, b.eq_of_cmp x.1 y.1);
    cmp_refl = λ x. ground (arith, a.cmp_refl x.0, b.cmp_refl x.1);
    cmp_swap = λ x y. ground (arith, a.cmp_swap x.0 y.0, b.cmp_swap x.1 y.1);
    lt_trans = λ x y z h k. ground (
      arith,
      a.eq_of_cmp x.0 y.0,
      a.eq_of_cmp y.0 z.0,
      a.lt_trans x.0 y.0 z.0,
      b.lt_trans x.1 y.1 z.1,
      a.cmp_refl x.0,
    );
  }

  instance unfoldable pub pair_ord : Ord (A × B)
  pair_ord = record { cmp = pair_compare; lawful = pair-IsLawful }

  pub le_first : (p q : A) (x y : B) → le {A = A × B} (p, x) (q, y) ≡ true → le p q ≡ true
  unfolding pair_ord
  le_first p q x y below = ground arith

  -- A pair that is no greater than another with the same first entry has a second entry no greater.
  pub le_rest : (p q : A) (x y : B) → le {A = A × B} (p, x) (q, y) ≡ true → p ≡ q → le x y ≡ true
  unfolding pair_ord
  le_rest p q x y below same = ground (arith, a.cmp_refl p)

module _ {ℓ} {A : Type ℓ} ⦃a : Ord A⦄ where
  pub list_compare : List A → List A → Ordering
  list_compare [] [] = eq
  list_compare [] (y ∷ ys) = lt
  list_compare (x ∷ xs) [] = gt
  list_compare (x ∷ xs) (y ∷ ys) = next_by (a.cmp x y) (list_compare xs ys)

  list_eq : (s t : List A) → list_compare s t ≡ eq → s ≡ t
  unfolding list_compare
  list_eq [] [] h = refl
  list_eq [] (y ∷ ys) h = cc
  list_eq (x ∷ xs) [] h = cc
  list_eq (x ∷ xs) (y ∷ ys) h = ground (arith, a.eq_of_cmp x y, list_eq xs ys)

  list_refl : (s : List A) → list_compare s s ≡ eq
  unfolding list_compare
  list_refl [] = refl
  list_refl (x ∷ xs) = ground (arith, a.cmp_refl x, list_refl xs)

  list_swap : (s t : List A) → list_compare t s ≡ opposite (list_compare s t)
  unfolding list_compare
  list_swap [] [] = refl
  list_swap [] (y ∷ ys) = refl
  list_swap (x ∷ xs) [] = refl
  list_swap (x ∷ xs) (y ∷ ys) = ground (arith, a.cmp_swap x y, list_swap xs ys)

  list_lt_trans :
      (s t u : List A) → list_compare s t ≡ lt → list_compare t u ≡ lt → list_compare s u ≡ lt
  unfolding list_compare
  list_lt_trans [] [] u h k = cc
  list_lt_trans [] (y ∷ ys) [] h k = cc
  list_lt_trans [] (y ∷ ys) (z ∷ zs) h k = refl
  list_lt_trans (x ∷ xs) [] u h k = cc
  list_lt_trans (x ∷ xs) (y ∷ ys) [] h k = cc
  list_lt_trans (x ∷ xs) (y ∷ ys) (z ∷ zs) h k = ground (
    arith,
    a.eq_of_cmp x y,
    a.eq_of_cmp y z,
    a.lt_trans x y z,
    a.cmp_refl x,
    list_lt_trans xs ys zs,
  )

  pub list-IsLawful : IsLawful list_compare
  list-IsLawful = record {
    eq_of_cmp = list_eq;
    cmp_refl = list_refl;
    cmp_swap = list_swap;
    lt_trans = list_lt_trans;
  }

  instance unfoldable pub list_ord : Ord (List A)
  unfolding list_compare
  list_ord = record { cmp = list_compare; lawful = list-IsLawful }
