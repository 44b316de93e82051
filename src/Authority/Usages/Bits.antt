-- ===== src/Authority/Usages/Bits.antt =====
-- The bits of a key usage mask, for pkg/pki/authority/policies.go.
use Prim.Native.Nat.{bit_or, bit_or-bitwise, bitwise, digits, max}
use native.Mathlib.Nat.{le_refl}
use kucero.Base.{ℕ, zero, suc, ◌+◌, ◌*◌, ◌/◌, ◌%◌, ◌≤◌, ◌≡◌, refl, Bool, ◌||◌, false, arith, leb}

-- Bit j of a number.
pub test_bit : ℕ → ℕ → Bool
test_bit zero x = leb 1 (x % 2)
test_bit (suc j) x = test_bit j (x / 2)

-- `bit_or` means a recursion on binary digits with fuel; the fuel does not count once it suffices.
fuel_irrelevant :
    (n m a b : ℕ) → a ≤ n → a ≤ m → digits (λ y. y) max n a b ≡ digits (λ y. y) max m a b
fuel_irrelevant zero zero a b p q = refl
fuel_irrelevant zero (suc m) zero b p q = refl
fuel_irrelevant zero (suc m) (suc a) b p q = absurd (omega arith)
fuel_irrelevant (suc n) zero zero b p q = refl
fuel_irrelevant (suc n) zero (suc a) b p q = absurd (omega arith)
fuel_irrelevant (suc n) (suc m) zero b p q = refl
fuel_irrelevant (suc n) (suc m) (suc a) b p q =
    rw (fuel_irrelevant n m (suc a / 2) (b / 2) (omega arith) (omega arith))

bitwise-max-suc :
    (a b : ℕ)
    → bitwise (λ y. y) max (suc a) b
      ≡ bitwise (λ y. y) max (suc a / 2) (b / 2) * 2 + max (suc a % 2) (b % 2)
bitwise-max-suc a b =
    omega (arith, fuel_irrelevant a (suc a / 2) (suc a / 2) (b / 2) (omega arith) (le_refl _))

bit_or_digit : (a b : ℕ) → bit_or a b ≡ bit_or (a / 2) (b / 2) * 2 + max (a % 2) (b % 2)
bit_or_digit zero b = simp bit_or-bitwise (omega arith)
bit_or_digit (suc a) b = simp bit_or-bitwise (bitwise-max-suc a b)

half-bit_or : (a b : ℕ) → bit_or a b / 2 ≡ bit_or (a / 2) (b / 2)
half-bit_or a b = omega (arith, bit_or_digit a b)

low-bit_or : (a b : ℕ) → bit_or a b % 2 ≡ max (a % 2) (b % 2)
low-bit_or a b = omega (arith, bit_or_digit a b)

pub test_bit-bit_or : (j a b : ℕ) → test_bit j (bit_or a b) ≡ (test_bit j a || test_bit j b)
unfolding test_bit
test_bit-bit_or zero a b = rw low-bit_or (ground arith)
test_bit-bit_or (suc j) a b = rw half-bit_or (test_bit-bit_or j (a / 2) (b / 2))

pub test_bit-zero : (j : ℕ) → test_bit j 0 ≡ false
unfolding test_bit
test_bit-zero zero = refl
test_bit-zero (suc j) = test_bit-zero j
