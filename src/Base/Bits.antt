-- ===== src/Base/Bits.antt =====
-- Masks of the C code: a mask and its complement split a word, and a mask of one bit reads as
-- nothing or as itself. Both are shown for the digit-wise operation at any number of rounds, of
-- which the native `bit_and` is the case of as many rounds as its first argument.
use Prim.Native.Nat.{
  ℕ, zero, suc, ◌+◌, ◌-◌, ◌/◌, ◌%◌, ◌^◌, ◌≤◌, ◌<◌, min, bit_and, digits, bit_and-bitwise,
}
use mathlib.Core.Path.{◌≡◌, refl}
use mathlib.Core.Logic.{◌⊎◌, inl, inr}
use native.Mathlib.Nat.{pow-suc}
use native.Mathlib.Omega.{arith}

abbrev rounds : ℕ → ℕ → ℕ → ℕ
rounds = digits (λ b. zero) min

-- Half of a power of two and of a complement.
halves :
    (w m : ℕ)
    → m < 2 ^ suc w
    → ((2 ^ suc w - 1 - m) / 2 ≡ 2 ^ w - 1 - m / 2) × ((2 ^ suc w - 1 - m) % 2 + m % 2 ≡ 1)
halves w m h = omega (arith, pow-suc 2 w)

half_power : (k : ℕ) → (2 ^ suc k / 2 ≡ 2 ^ k) × (2 ^ suc k % 2 ≡ 0)
half_power k = omega (arith, pow-suc 2 k)

rounds_split :
    (n w x m : ℕ) → x ≤ n → x < 2 ^ w → m < 2 ^ w → rounds n x m + rounds n x (2 ^ w - 1 - m) ≡ x
rounds_split zero w zero m le hx hm = refl
rounds_split (suc n) w zero m le hx hm = refl
rounds_split zero w (suc x) m le hx hm = absurd (omega arith)
rounds_split (suc n) zero (suc x) m le hx hm = absurd (omega arith)
rounds_split (suc n) (suc w) (suc x) m le hx hm =
    let (half, rest) = halves w m hm in
    let in_half =
      rounds_split n w (suc x / 2) (m / 2) (omega arith) (omega (arith, pow-suc 2 w))
        (omega (arith, pow-suc 2 w)) in
    rw half (omega (arith, in_half, rest))

rounds_none : (n x : ℕ) → rounds n x 0 ≡ 0
rounds_none zero x = refl
rounds_none (suc n) zero = refl
rounds_none (suc n) (suc x) = omega (arith, rounds_none n (suc x / 2))

rounds_bit : (n k x : ℕ) → x ≤ n → (rounds n x (2 ^ k) ≡ 0) ⊎ (rounds n x (2 ^ k) ≡ 2 ^ k)
rounds_bit zero k x le = inl refl
rounds_bit (suc n) k zero le = inl refl
rounds_bit (suc n) zero (suc x) le = omega (arith, rounds_none n (suc x / 2))
rounds_bit (suc n) (suc k) (suc x) le =
    let (half, even) = half_power k in
    rw (half, even)
      (elim (rounds_bit n k (suc x / 2) (omega arith)) [
        | inl e ↦ inl (omega (arith, e))
        | inr e ↦ inr (omega (arith, e, pow-suc 2 k))
      ])

-- `x & m` and `x & ~m` add up to x, in a word of w bits.
pub split_mask : (w x m : ℕ) → x < 2 ^ w → m < 2 ^ w → bit_and x m + bit_and x (2 ^ w - 1 - m) ≡ x
split_mask w x m hx hm = omega (
  arith,
  bit_and-bitwise x m,
  bit_and-bitwise x (2 ^ w - 1 - m),
  rounds_split x w x m (omega arith) hx hm,
)

-- `x & 2^k` is 0 or 2^k.
pub bit_and-pow : (k x : ℕ) → (bit_and x (2 ^ k) ≡ 0) ⊎ (bit_and x (2 ^ k) ≡ 2 ^ k)
bit_and-pow k x = omega (arith, bit_and-bitwise x (2 ^ k), rounds_bit x k x (omega arith))
