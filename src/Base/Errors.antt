-- ===== src/Base/Errors.antt =====
-- The exceptions of the modelled code, and a result that may be one: `Conflict`, `NotFound` and
-- `AppError` with its codes (backend/app/errors.py), and the built-in `ValueError` and `IndexError`.
use mathlib.Core.Path.{◌≡◌, refl, ap}
use mathlib.Core.Bool.{Bool, true, false}
use mtg_vault.Base.Tests.{if◌then◌else◌}

pub data Error : Type 0 where
  conflict not_found unknown_board bad_quantity invalid_quantity ambiguous_card : Error
  unidentified_card integrity_error value_error index_error : Error

pub data Result {ℓ} (A : Type ℓ) : Type ℓ where
  ok : A → Result A
  raise : Error → Result A

infixl 5 ◌>>=◌
abbrev pub ◌>>=◌ {ℓ κ} : {A : Type ℓ} {B : Type κ} → Result A → (A → Result B) → Result B
ok a >>= f = f a
raise e >>= f = raise e

module _ {ℓ} {A : Type ℓ} where
  pub ok-injective : (a b : A) → ok a ≡ ok b → a ≡ b
  ok-injective a b h = ap (λ (r : Result A). value r) h
    where
      value : Result A → A
      value (ok c) = c
      value (raise e) = a

  -- A guard that the code has passed.
  pub guard_passed :
      (b : Bool) (e : Error) (a c : A)
      → (if b then raise e else ok a) ≡ ok c
      → (b ≡ false) × (a ≡ c)
  guard_passed true e a c h = absurd (cc)
  guard_passed false e a c h = (refl, ok-injective a c h)

  -- A step that the code has got through.
  pub bind_passed {κ} :
      {B : Type κ} (r : Result A) (f : A → Result B) (b : B)
      → r >>= f ≡ ok b
      → (a : A) × (r ≡ ok a) × (f a ≡ ok b)
  bind_passed (ok a) f b h = (a, refl, h)
  bind_passed (raise e) f b h = absurd (cc)
