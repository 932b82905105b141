-- ===== src/Base/Errors.antt =====
-- The exceptions of the source as values (core/errors.py, and Python's own), and their monad.
use mathlib.Core.Path.{◌≡◌, refl}
use mathlib.Core.Logic.{◌⊎◌, inl, inr}
use mathlib.Core.Bool.{Bool, true, false}

pub data Error : Type 0 where
  value_error index_error permission_error runtime_error evaluation_error : Error
  invalid_command invalid_transition identity_conflict effect_lifecycle : Error

pub data Result {ℓ} (A : Type ℓ) : Type ℓ where
  ok : A → Result A
  raise : Error → Result A

module _ {ℓ} {A : Type ℓ} where
  pub raise-ne-ok : {x : A} {e : Error} → raise e ≡ ok x → ⊥
  raise-ne-ok h = cc

  pub raise_injective : {e f : Error} → ◌≡◌ {A = Result A} (raise e) (raise f) → e ≡ f
  raise_injective h = cc

  pub Result-cases : (r : Result A) → ((x : A) × (r ≡ ok x)) ⊎ ((e : Error) × (r ≡ raise e))
  Result-cases (ok x) = inl (x, refl)
  Result-cases (raise e) = inr (e, refl)

  pub ok_injective : {x y : A} → ok x ≡ ok y → x ≡ y
  ok_injective h = cc

-- `if not b: raise e`
abbrev pub require : Bool → Error → Result (Unit {0})
require true error = ok tt
require false error = raise error

-- `if b: raise e`
abbrev pub refuse : Bool → Error → Result (Unit {0})
refuse true error = raise error
refuse false error = ok tt

-- What follows a call, unless it raises.
infixr 5 ◌>>=◌
abbrev pub ◌>>=◌ {ℓ κ} : {A : Type ℓ} {B : Type κ} → Result A → (A → Result B) → Result B
raise error >>= next = raise error
ok value >>= next = next value

-- A chain that returned: the call returned, and so did what follows it.
pub >>=-eq-ok {ℓ κ} :
    {A : Type ℓ} {B : Type κ} (call : Result A) (next : A → Result B) {y : B}
    → (call >>= next) ≡ ok y
    → (x : A) × (call ≡ ok x) × (next x ≡ ok y)
>>=-eq-ok (raise error) next h = cc
>>=-eq-ok (ok x) next h = (x, refl, h)

module _ {ℓ} {B : Type ℓ} where
  infixr 5 ◌>>◌
  abbrev pub ◌>>◌ : Result (Unit {0}) → Result B → Result B
  call >> rest = call >>= λ _. rest

  pub require-ok :
      (b : Bool) (e : Error) {m : Result B} {x : B}
      → (require b e >> m) ≡ ok x
      → (b ≡ true) × (m ≡ ok x)
  require-ok true e h = (refl, h)
  require-ok false e h = cc

  pub refuse-ok :
      (b : Bool) (e : Error) {m : Result B} {x : B}
      → (refuse b e >> m) ≡ ok x
      → (b ≡ false) × (m ≡ ok x)
  refuse-ok true e h = cc
  refuse-ok false e h = (refl, h)
