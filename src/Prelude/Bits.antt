-- ===== src/Prelude/Bits.antt =====
-- `(q << k) | r` at every width: the two operands have no digit in common, so their sum.
use Prim.Native.Nat.{
  ℕ, zero, suc, ◌+◌, ◌*◌, ◌/◌, ◌^◌, ◌≤◌, ◌<◌, max, bit_or, digits, bit_or-bitwise,
}
use mathlib.Core.Path.{◌≡◌, ◌∙◌, ap}
use native.Mathlib.Nat.{pow-suc}
use native.Mathlib.Omega.{arith}

-- Half of a multiple of a larger power.
half_shifted : (k q a : ℕ) → a ≡ q * 2 ^ suc k → (a / 2 ≡ q * 2 ^ k) × (a / 2 * 2 ≡ a)
half_shifted k q a e =
    let twice : q * 2 ^ suc k ≡ q * (2 ^ k * 2) = ap (λ (t : ℕ). q * t) (pow-suc 2 k) in
    omega (arith, twice)

digits_disjoint :
    (fuel k q a r : ℕ) → a ≤ fuel → a ≡ q * 2 ^ k → r < 2 ^ k → digits (λ y. y) max fuel a r ≡ a + r
digits_disjoint zero k q a r f e b = omega arith
digits_disjoint (suc fuel) k q zero r f e b = omega arith
digits_disjoint (suc fuel) zero q (suc a) r f e b =
    omega (arith, digits_disjoint fuel 0 (suc a / 2) (suc a / 2) (r / 2))
digits_disjoint (suc fuel) (suc k) q (suc a) r f e b =
    let (half, even) = half_shifted k q (suc a) e in
    omega
      (arith, pow-suc 2 k, even, digits_disjoint fuel k q (suc a / 2) (r / 2) (omega arith) half)

pub bit_or_shifted : (k q r : ℕ) → r < 2 ^ k → bit_or (q * 2 ^ k) r ≡ q * 2 ^ k + r
bit_or_shifted k q r h =
    bit_or-bitwise (q * 2 ^ k) r
    ∙ digits_disjoint (q * 2 ^ k) k q (q * 2 ^ k) r (omega arith) (λ _. q * 2 ^ k) h
