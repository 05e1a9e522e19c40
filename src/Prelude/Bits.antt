-- ===== src/Prelude/Bits.antt =====
-- Single bits of a machine word, by recursion on the bit's position.
use robot_ethercat_master_ig.Prelude.Tests.{◌==◌}
use Prim.Native.Nat.{ℕ, zero, suc, ◌+◌, ◌*◌, ◌/◌, ◌%◌}
use mathlib.Core.Path.{◌≡◌, refl, ap}
use mathlib.Core.Logic.{◌≢◌}
use mathlib.Core.Bool.{Bool, true, false}
use native.Mathlib.Omega.{arith}

-- `(x & (1 << k)) != 0`
unfoldable pub test_bit : ℕ → ℕ → Bool
test_bit x zero = x % 2 == 1
test_bit x (suc k) = test_bit (x / 2) k

-- `x | (1 << k)`
unfoldable pub set_bit : ℕ → ℕ → ℕ
set_bit x zero = x / 2 * 2 + 1
set_bit x (suc k) = set_bit (x / 2) k * 2 + x % 2

-- `x & ~(1 << k)`
unfoldable pub clear_bit : ℕ → ℕ → ℕ
clear_bit x zero = x / 2 * 2
clear_bit x (suc k) = clear_bit (x / 2) k * 2 + x % 2

halve : (a x : ℕ) → (a * 2 + x % 2) / 2 ≡ a
halve a x = omega arith

parity : (a x : ℕ) → (a * 2 + x % 2) % 2 ≡ x % 2
parity a x = omega arith

pub test_bit-zero : (k : ℕ) → test_bit 0 k ≡ false
unfolding test_bit
test_bit-zero zero = refl
test_bit-zero (suc k) = test_bit-zero k

pub test_bit-set_bit : (x k : ℕ) → test_bit (set_bit x k) k ≡ true
unfolding test_bit set_bit
test_bit-set_bit x zero = ground arith
test_bit-set_bit x (suc k) = rw halve (test_bit-set_bit (x / 2) k)

pub test_bit-clear_bit : (x k : ℕ) → test_bit (clear_bit x k) k ≡ false
unfolding test_bit clear_bit
test_bit-clear_bit x zero = ground arith
test_bit-clear_bit x (suc k) = rw halve (test_bit-clear_bit (x / 2) k)

pub test_bit-set_bit_ne : (x k j : ℕ) → k ≢ j → test_bit (set_bit x k) j ≡ test_bit x j
unfolding test_bit set_bit
test_bit-set_bit_ne x zero zero h = absurd (h refl)
test_bit-set_bit_ne x zero (suc j) h = ap (λ y. test_bit y j) (omega arith)
test_bit-set_bit_ne x (suc k) zero h = ap (λ y. y == 1) (parity (set_bit (x / 2) k) x)
test_bit-set_bit_ne x (suc k) (suc j) h =
    rw halve (test_bit-set_bit_ne (x / 2) k j (λ e. h (ap suc e)))

pub test_bit-clear_bit_ne : (x k j : ℕ) → k ≢ j → test_bit (clear_bit x k) j ≡ test_bit x j
unfolding test_bit clear_bit
test_bit-clear_bit_ne x zero zero h = absurd (h refl)
test_bit-clear_bit_ne x zero (suc j) h = ap (λ y. test_bit y j) (omega arith)
test_bit-clear_bit_ne x (suc k) zero h = ap (λ y. y == 1) (parity (clear_bit (x / 2) k) x)
test_bit-clear_bit_ne x (suc k) (suc j) h =
    rw halve (test_bit-clear_bit_ne (x / 2) k j (λ e. h (ap suc e)))
