-- ===== src/Base/Finding.antt =====
-- What `find` gives in lists that were appended to or changed.
use mathlib.Core.Path.{◌≡◌, refl, subst}
use mathlib.Core.Bool.{Bool, true, false}
use mathlib.Core.Option.{Option, none, some, some-injective}
use mathlib.Core.List.{List, [], ◌∷◌, ◌++◌}
use native.Mathlib.Omega.{arith}
use ratcheting_consequence_i.Base.Tests.{if◌then◌else◌, if_split}
use ratcheting_consequence_i.Base.Lists.{find, gather, update_where}

module _ {A : Type 0} (p : A → Bool) where
  pub find-append-some : (v : A) (xs ys : List A) → find p xs ≡ some v → find p (xs ++ ys) ≡ some v
  unfolding find
  find-append-some v [] ys h = cc
  find-append-some v (x ∷ xs) ys h = ground (arith, find-append-some v xs ys)

  pub find-append-none :
      (o : Option A) (xs ys : List A) → find p xs ≡ none → find p ys ≡ o → find p (xs ++ ys) ≡ o
  unfolding find
  find-append-none o [] ys h k = k
  find-append-none o (x ∷ xs) ys h k = ground (arith, find-append-none o xs ys)

  pub none-append-left : (xs ys : List A) → find p (xs ++ ys) ≡ none → find p xs ≡ none
  unfolding find
  none-append-left [] ys h = refl
  none-append-left (x ∷ xs) ys h = ground (arith, none-append-left xs ys)

  pub none-append-right : (xs ys : List A) → find p (xs ++ ys) ≡ none → find p ys ≡ none
  unfolding find
  none-append-right [] ys h = h
  none-append-right (x ∷ xs) ys h = ground (arith, none-append-right xs ys)

-- An entry was replaced by one that passes the test by which it was found.
pub find-update :
    {A : Type 0} (key p : A → Bool) (new r : A) (xs : List A)
    → find p xs ≡ some r
    → key r ≡ true
    → p new ≡ true
    → find p (update_where key (λ _. new) xs) ≡ some new
unfolding find update_where
find-update key p new r [] found same passes = cc
find-update key p new r (x ∷ xs) found same passes = ground (arith, find-update key p new r xs)

-- The first entry is the replaced one, or the search goes on after it.
replaced_head :
    {A B : Type 0} (q : B → Bool) (f : A → List B) (new x : A) (v : B) (rest : List B) (b : Bool)
    → find q (f new) ≡ some v
    → (b ≡ false → (find q (f x) ≡ none) × (find q rest ≡ some v))
    → find q (f (if b then new else x) ++ rest) ≡ some v
replaced_head q f new x v rest true has later = find-append-some q v (f new) rest has
replaced_head q f new x v rest false has later =
    let (absent, found) = later refl in find-append-none q (some v) (f x) rest absent found

-- An entry that is not replaced is not the one found.
found_later :
    {A : Type 0} (key p : A → Bool) (r x : A) (xs : List A)
    → find p (x ∷ xs) ≡ some r
    → key r ≡ true
    → key x ≡ false
    → find p xs ≡ some r
unfolding find
found_later key p r x xs found same differs = ground arith

-- What was not in the lists of the entries is found in that of the replacement.
pub find-gather-update :
    {A B : Type 0} (key p : A → Bool) (q : B → Bool) (f : A → List B) (new r : A) (v : B)
    (xs : List A)
    → find p xs ≡ some r
    → key r ≡ true
    → find q (gather f xs) ≡ none
    → find q (f new) ≡ some v
    → find q (gather f (update_where key (λ _. new) xs)) ≡ some v
unfolding find gather update_where
find-gather-update key p q f new r v [] found same fresh has = cc
find-gather-update key p q f new r v (x ∷ xs) found same fresh has =
    replaced_head q f new x v (gather f (update_where key (λ _. new) xs)) (key x) has (λ differs. (
      none-append-left q (f x) (gather f xs) fresh,
      find-gather-update key p q f new r v xs (found_later key p r x xs found same differs) same
          (none-append-right q (f x) (gather f xs) fresh) has,
    ))

-- What is in no list is not in that of an entry that was found.
pub none-gather :
    {A B : Type 0} (p : A → Bool) (q : B → Bool) (f : A → List B) (r : A) (xs : List A)
    → find p xs ≡ some r
    → find q (gather f xs) ≡ none
    → find q (f r) ≡ none
unfolding find gather
none-gather p q f r [] found fresh = cc
none-gather p q f r (x ∷ xs) found fresh =
    if_split (p x) found
      (λ _ e.
        subst (λ y. find q (f y) ≡ none) (some-injective x r e)
          (none-append-left q (f x) (gather f xs) fresh))
      (λ _ later. none-gather p q f r xs later (none-append-right q (f x) (gather f xs) fresh))
