-- ===== src/Base/Bits.antt =====
-- `|` of a low field and a shifted one is a sum.
use Prim.Native.Nat.{ℕ, zero, suc, ◌+◌, ◌*◌, ◌/◌, ◌^◌, ◌≤◌, ◌<◌, max, digits}
use Prim.Native.Nat.{bit_or, bit_or-bitwise}
use mathlib.Core.Path.{◌≡◌, ap}
use native.Mathlib.Nat.{pow-suc, le_refl}
use native.Mathlib.Omega.{arith}

-- The digits of `a` end below the digits of `y * 2 ^ k`.
digits-low : (k n a y : ℕ) → a ≤ n → a < 2 ^ k → digits (λ b. b) max n a (y * 2 ^ k) ≡ a + y * 2 ^ k
digits-low k zero zero y h lt = omega arith
digits-low k zero (suc a) y h lt = absurd (omega arith)
digits-low k (suc n) zero y h lt = omega arith
digits-low zero (suc n) (suc a) y h lt = absurd (omega arith)
digits-low (suc k) (suc n) (suc a) y h lt =
    let twice : y * 2 ^ suc k ≡ 2 * (y * 2 ^ k) =
      omega (arith, ap (λ (t : ℕ). y * t) (pow-suc 2 k)) in
    let half : (y * 2 ^ suc k) / 2 ≡ y * 2 ^ k = omega arith in
    rw half (
      omega (
        arith,
        pow-suc 2 k,
        digits-low k n (suc a / 2) y (omega arith) (omega (arith, pow-suc 2 k)),
      ))

pub bit_or-shifted : (k a y : ℕ) → a < 2 ^ k → bit_or a (y * 2 ^ k) ≡ a + y * 2 ^ k
bit_or-shifted k a y lt = simp bit_or-bitwise (digits-low k a a y (le_refl a) lt)
