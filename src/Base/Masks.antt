-- ===== src/Base/Masks.antt =====
-- Colour-identity bit masks (`models/cards.py`: W 1, U 2, B 4, R 8, G 16) and the laws of `&`, `|`
-- and `& ~` on them, by evaluation over all 32 masks.
use Prim.Native.Nat.{ℕ, zero, suc, ◌<◌, bit_and, bit_or, bit_xor}
use mathlib.Core.Path.{◌≡◌, refl}
use mathlib.Core.Bool.{Bool, true, not, ◌&&◌, ◌||◌, beq}
use native.Mathlib.Omega.{arith}
use mtg_vault.Base.Tests.{nat_beq, ltb, ltb→lt}

-- `x & ~y`, for `x` and `y` that are not negative.
unfoldable pub and_not : ℕ → ℕ → ℕ
and_not x y = bit_xor x (bit_and x y)

-- `x | y`
unfoldable pub mask_or : ℕ → ℕ → ℕ
mask_or x y = bit_or x y

-- `bool(mask & bit)`
unfoldable pub has_bit : ℕ → ℕ → Bool
has_bit mask bit = not (nat_beq (bit_and mask bit) 0)

-- A mask of the five colours.
abbrev pub IsMask : ℕ → Type 0
IsMask m = m < 32

-- Every colour of the first mask is one of the second's.
abbrev pub within : ℕ → ℕ → Bool
within x y =
    (not (has_bit x 1) || has_bit y 1)
    && (not (has_bit x 2) || has_bit y 2)
    && (not (has_bit x 4) || has_bit y 4)
    && (not (has_bit x 8) || has_bit y 8)
    && (not (has_bit x 16) || has_bit y 16)

-- A test of every mask below a bound.
every : (ℕ → Bool) → ℕ → Bool
every test zero = true
every test (suc bound) = every test bound && test bound

every_sound : (test : ℕ → Bool) (bound m : ℕ) → every test bound ≡ true → m < bound → test m ≡ true
unfolding every
every_sound test zero m h below = elim below [ ]
every_sound test (suc bound) m h below = ground (arith, every_sound test bound m)

-- Check a test of two masks on all of them.
pairs : (ℕ → ℕ → Bool) → Bool
pairs p = every (λ x. every (p x) 32) 32

pairs_sound : (p : ℕ → ℕ → Bool) → pairs p ≡ true → (x y : ℕ) → IsMask x → IsMask y → p x y ≡ true
unfolding pairs
pairs_sound p h x y hx hy = every_sound (p x) 32 y (every_sound (λ x. every (p x) 32) 32 x h hx) hy

beq_sound : (a b : Bool) → beq a b ≡ true → a ≡ b
beq_sound a b h = ground arith

and_not_test : ℕ → ℕ → Bool
and_not_test x y = beq (nat_beq (and_not x y) 0) (within x y)

and_not_table : pairs and_not_test ≡ true
unfolding pairs every and_not_test and_not has_bit
and_not_table = refl

-- `x & ~y` is zero exactly when every colour of `x` is one of `y`'s.
pub and_not-within : (x y : ℕ) → IsMask x → IsMask y → nat_beq (and_not x y) 0 ≡ within x y
unfolding and_not_test
and_not-within x y hx hy = beq_sound _ _ (pairs_sound and_not_test and_not_table x y hx hy)

or_test : ℕ → ℕ → Bool
or_test x y = ltb (mask_or x y) 32

or_table : pairs or_test ≡ true
unfolding pairs every or_test mask_or
or_table = refl

pub mask_or-IsMask : (x y : ℕ) → IsMask x → IsMask y → IsMask (mask_or x y)
unfolding or_test
mask_or-IsMask x y hx hy = ltb→lt (mask_or x y) 32 (pairs_sound or_test or_table x y hx hy)

or_bits_test : ℕ → ℕ → Bool
or_bits_test x y = same 1 && same 2 && same 4 && same 8 && same 16
  where
    same : ℕ → Bool
    same bit = beq (has_bit (mask_or x y) bit) (has_bit x bit || has_bit y bit)

or_bits_table : pairs or_bits_test ≡ true
unfolding pairs every or_bits_test mask_or has_bit
or_bits_table = refl

-- The colours of `x | y` are those of `x` and those of `y`.
pub has_bit-mask_or :
    (x y : ℕ)
    → IsMask x
    → IsMask y
    → (has_bit (mask_or x y) 1 ≡ (has_bit x 1 || has_bit y 1))
      × (has_bit (mask_or x y) 2 ≡ (has_bit x 2 || has_bit y 2))
      × (has_bit (mask_or x y) 4 ≡ (has_bit x 4 || has_bit y 4))
      × (has_bit (mask_or x y) 8 ≡ (has_bit x 8 || has_bit y 8))
      × (has_bit (mask_or x y) 16 ≡ (has_bit x 16 || has_bit y 16))
unfolding or_bits_test
has_bit-mask_or x y hx hy = ground (arith, pairs_sound or_bits_test or_bits_table x y hx hy)
