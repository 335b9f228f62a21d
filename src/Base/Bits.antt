-- ===== src/Base/Bits.antt =====
-- Single bits of a number, for every width: `x & (1 << i)`, `x | (1 << i)` and `x & ~(1 << i)`.
use Prim.Native.Nat.{ℕ, zero, suc, ◌+◌, ◌*◌, ◌/◌, ◌%◌}
use mathlib.Core.Path.{◌≡◌, refl}
use mathlib.Core.Logic.{◌≢◌}
use mathlib.Core.Bool.{Bool, true, false}
use native.Mathlib.Omega.{arith}
use embedded_operating_syste.Base.Tests.{◌==◌}

unfoldable pub has_bit : ℕ → ℕ → Bool
has_bit x zero = x % 2 == 1
has_bit x (suc i) = has_bit (x / 2) i

unfoldable pub set_bit : ℕ → ℕ → ℕ
set_bit x zero = x / 2 * 2 + 1
set_bit x (suc i) = set_bit (x / 2) i * 2 + x % 2

unfoldable pub clear_bit : ℕ → ℕ → ℕ
clear_bit x zero = x / 2 * 2
clear_bit x (suc i) = clear_bit (x / 2) i * 2 + x % 2

pub has_bit-set_bit_self : (x i : ℕ) → has_bit (set_bit x i) i ≡ true
unfolding has_bit set_bit
has_bit-set_bit_self x zero = ground arith
has_bit-set_bit_self x (suc i) =
    let half : (set_bit (x / 2) i * 2 + x % 2) / 2 ≡ set_bit (x / 2) i = omega arith in
    rw half (has_bit-set_bit_self (x / 2) i)

pub has_bit-set_bit_ne : (x i j : ℕ) → i ≢ j → has_bit (set_bit x i) j ≡ has_bit x j
unfolding has_bit set_bit
has_bit-set_bit_ne x zero zero h = absurd (h refl)
has_bit-set_bit_ne x zero (suc j) h =
    let half : (x / 2 * 2 + 1) / 2 ≡ x / 2 = omega arith in rw half
has_bit-set_bit_ne x (suc i) zero h = ground arith
has_bit-set_bit_ne x (suc i) (suc j) h =
    let half : (set_bit (x / 2) i * 2 + x % 2) / 2 ≡ set_bit (x / 2) i = omega arith in
    rw half (has_bit-set_bit_ne (x / 2) i j (omega arith))

pub has_bit-clear_bit_self : (x i : ℕ) → has_bit (clear_bit x i) i ≡ false
unfolding has_bit clear_bit
has_bit-clear_bit_self x zero = ground arith
has_bit-clear_bit_self x (suc i) =
    let half : (clear_bit (x / 2) i * 2 + x % 2) / 2 ≡ clear_bit (x / 2) i = omega arith in
    rw half (has_bit-clear_bit_self (x / 2) i)

pub has_bit-clear_bit_ne : (x i j : ℕ) → i ≢ j → has_bit (clear_bit x i) j ≡ has_bit x j
unfolding has_bit clear_bit
has_bit-clear_bit_ne x zero zero h = absurd (h refl)
has_bit-clear_bit_ne x zero (suc j) h = let half : x / 2 * 2 / 2 ≡ x / 2 = omega arith in rw half
has_bit-clear_bit_ne x (suc i) zero h = ground arith
has_bit-clear_bit_ne x (suc i) (suc j) h =
    let half : (clear_bit (x / 2) i * 2 + x % 2) / 2 ≡ clear_bit (x / 2) i = omega arith in
    rw half (has_bit-clear_bit_ne (x / 2) i j (omega arith))

-- `0` has no bit set.
pub has_bit_zero : (i : ℕ) → has_bit 0 i ≡ false
unfolding has_bit
has_bit_zero zero = refl
has_bit_zero (suc i) = has_bit_zero i
