-- ===== src/Canonical/Freeze.antt =====
-- src/rci/claims/models.py: `freeze_json`, which refuses numbers that are not finite.
use Prim.Native.Nat.{◌/◌, ◌%◌}
use ratcheting_consequence_i.Base.{
  ℕ, String, ◌⊎◌, ◌≡◌, refl, Bool, true, false, not, ◌==◌, nat_eq, if◌then◌else◌, Result, ok, raise,
  value_error, ◌>>=◌, inl, inr, arith,
}
use ratcheting_consequence_i.Canonical.{
  Json, null, bool, int, real, str, array, object, Items, no_items, item, Members, no_members,
  member,
}

-- `math.isfinite`: the eleven exponent bits are not all ones.
unfoldable pub is_finite : ℕ → Bool
unfolding nat_eq
is_finite bits = not ((bits / 4503599627370496) % 2048 == 2047)

unfoldable mutual
  pub freeze_json : Json → Result Json
  freeze_json null = ok null
  freeze_json (bool b) = ok (bool b)
  freeze_json (int n) = ok (int n)
  freeze_json (real bits) = if is_finite bits then ok (real bits) else raise value_error
  freeze_json (str s) = ok (str s)
  freeze_json (array xs) = freeze_items xs >>= λ ys. ok (array ys)
  freeze_json (object ms) = freeze_members ms >>= λ ns. ok (object ns)

  pub freeze_items : Items → Result Items
  freeze_items no_items = ok no_items
  freeze_items (item v rest) =
      freeze_json v >>= λ w. freeze_items rest >>= λ others. ok (item w others)

  pub freeze_members : Members → Result Members
  freeze_members no_members = ok no_members
  freeze_members (member k v rest) =
      freeze_json v >>= λ w. freeze_members rest >>= λ others. ok (member k w others)

-- A value that holds the number of these bits somewhere.
mutual
  pub data HasReal : ℕ → Json → Type 0 where
    here : {b : ℕ} → HasReal b (real b)
    in_array : {b : ℕ} {xs : Items} → HasRealItem b xs → HasReal b (array xs)
    in_object : {b : ℕ} {ms : Members} → HasRealMember b ms → HasReal b (object ms)

  pub data HasRealItem : ℕ → Items → Type 0 where
    first_item : {b : ℕ} {v : Json} {xs : Items} → HasReal b v → HasRealItem b (item v xs)
    later_item : {b : ℕ} {v : Json} {xs : Items} → HasRealItem b xs → HasRealItem b (item v xs)

  pub data HasRealMember : ℕ → Members → Type 0 where
    first_member :
        {b : ℕ} {k : String} {v : Json} {ms : Members}
        → HasReal b v
        → HasRealMember b (member k v ms)
    later_member :
        {b : ℕ} {k : String} {v : Json} {ms : Members}
        → HasRealMember b ms
        → HasRealMember b (member k v ms)

-- All numbers in a value are finite.
abbrev pub IsFinite : Json → Type 0
IsFinite v = (b : ℕ) → HasReal b v → is_finite b ≡ true

mutual
  unfolding freeze_json

  -- Freezing a value of finite numbers returns it as it is.
  pub freeze_json-Finite : (v : Json) → IsFinite v → freeze_json v ≡ ok v
  freeze_json-Finite null f = refl
  freeze_json-Finite (bool b) f = refl
  freeze_json-Finite (int n) f = refl
  freeze_json-Finite (real bits) f = rw (f bits here) refl
  freeze_json-Finite (str s) f = refl
  freeze_json-Finite (array xs) f = rw (freeze_items-Finite xs (λ b r. f b (in_array r))) refl
  freeze_json-Finite (object ms) f = rw (freeze_members-Finite ms (λ b r. f b (in_object r))) refl

  freeze_items-Finite :
      (xs : Items) → ((b : ℕ) → HasRealItem b xs → is_finite b ≡ true) → freeze_items xs ≡ ok xs
  freeze_items-Finite no_items f = refl
  freeze_items-Finite (item v rest) f =
      rw
        (
          freeze_json-Finite v (λ b r. f b (first_item r)),
          freeze_items-Finite rest (λ b r. f b (later_item r)),
        )
        refl

  freeze_members-Finite :
      (ms : Members)
      → ((b : ℕ) → HasRealMember b ms → is_finite b ≡ true)
      → freeze_members ms ≡ ok ms
  freeze_members-Finite no_members f = refl
  freeze_members-Finite (member k v rest) f =
      rw
        (
          freeze_json-Finite v (λ b r. f b (first_member r)),
          freeze_members-Finite rest (λ b r. f b (later_member r)),
        )
        refl

mutual
  unfolding freeze_json

  -- Freezing keeps every value that it does not refuse.
  freeze_json-cases : (v : Json) → (freeze_json v ≡ ok v) ⊎ (freeze_json v ≡ raise value_error)
  freeze_json-cases null = inl refl
  freeze_json-cases (bool b) = inl refl
  freeze_json-cases (int n) = inl refl
  freeze_json-cases (real bits) = ground arith
  freeze_json-cases (str s) = inl refl
  freeze_json-cases (array xs) = elim (freeze_items-cases xs) [
    | inl kept ↦ inl (rw kept refl)
    | inr refused ↦ inr (rw refused refl)
  ]
  freeze_json-cases (object ms) = elim (freeze_members-cases ms) [
    | inl kept ↦ inl (rw kept refl)
    | inr refused ↦ inr (rw refused refl)
  ]

  freeze_items-cases :
      (xs : Items) → (freeze_items xs ≡ ok xs) ⊎ (freeze_items xs ≡ raise value_error)
  freeze_items-cases no_items = inl refl
  freeze_items-cases (item v rest) = elim (freeze_json-cases v) [
    | inr refused ↦ inr (rw refused refl)
    | inl kept ↦ elim (freeze_items-cases rest) [
      | inl others ↦ inl (rw (kept, others) refl)
      | inr refused ↦ inr (rw (kept, refused) refl)
    ]
  ]

  freeze_members-cases :
      (ms : Members) → (freeze_members ms ≡ ok ms) ⊎ (freeze_members ms ≡ raise value_error)
  freeze_members-cases no_members = inl refl
  freeze_members-cases (member k v rest) = elim (freeze_json-cases v) [
    | inr refused ↦ inr (rw refused refl)
    | inl kept ↦ elim (freeze_members-cases rest) [
      | inl others ↦ inl (rw (kept, others) refl)
      | inr refused ↦ inr (rw (kept, refused) refl)
    ]
  ]

mutual
  unfolding freeze_json

  -- Freezing refuses a value that holds a number that is not finite.
  pub freeze_json-Refuses :
      (b : ℕ) (v : Json) → HasReal b v → is_finite b ≡ false → freeze_json v ≡ raise value_error
  freeze_json-Refuses b _ here bad = rw bad refl
  freeze_json-Refuses b (array xs) (in_array r) bad = rw (freeze_items-Refuses b xs r bad) refl
  freeze_json-Refuses b (object ms) (in_object r) bad = rw (freeze_members-Refuses b ms r bad) refl

  freeze_items-Refuses :
      (b : ℕ) (xs : Items)
      → HasRealItem b xs
      → is_finite b ≡ false
      → freeze_items xs ≡ raise value_error
  freeze_items-Refuses b no_items r bad = elim r [ ]
  freeze_items-Refuses b (item v rest) (first_item r) bad = rw (freeze_json-Refuses b v r bad) refl
  freeze_items-Refuses b (item v rest) (later_item r) bad = elim (freeze_json-cases v) [
    | inr refused ↦ rw refused refl
    | inl kept ↦ rw (kept, freeze_items-Refuses b rest r bad) refl
  ]

  freeze_members-Refuses :
      (b : ℕ) (ms : Members)
      → HasRealMember b ms
      → is_finite b ≡ false
      → freeze_members ms ≡ raise value_error
  freeze_members-Refuses b no_members r bad = elim r [ ]
  freeze_members-Refuses b (member k v rest) (first_member r) bad =
      rw (freeze_json-Refuses b v r bad) refl
  freeze_members-Refuses b (member k v rest) (later_member r) bad = elim (freeze_json-cases v) [
    | inr refused ↦ rw refused refl
    | inl kept ↦ rw (kept, freeze_members-Refuses b rest r bad) refl
  ]
