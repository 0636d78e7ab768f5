-- ===== src/Base/Mod.antt =====
-- Remainders of sums below twice the divisor.
use Prim.Native.Nat.{ℕ, ◌+◌, ◌-◌, ◌%◌, ◌≤◌, ◌<◌}
use mathlib.Core.Path.{◌≡◌, ◌∙◌}
use mathlib.Core.Logic.{◌≢◌, ◌⊎◌, inl, inr}
use native.Mathlib.Nat.{mod-eq_of_lt, mod-eq-sub-mod}
use native.Mathlib.Omega.{arith}
use native.Mathlib.Decide.{dec_lt}

pub mod_wrap : (x n : ℕ) → n ≤ x → x < n + n → x % n ≡ x - n
mod_wrap x n h k = mod-eq-sub-mod h ∙ mod-eq_of_lt (omega arith)

mod-cases : (x n : ℕ) → x < n + n → ((x < n) × (x % n ≡ x)) ⊎ ((n ≤ x) × (x % n ≡ x - n))
mod-cases x n h = elim (dec_lt x n) [
  | yes k ↦ inl (k, mod-eq_of_lt k)
  | no k ↦ inr (omega arith, mod_wrap x n (omega arith) h)
]

-- Different offsets below the divisor lead to different remainders.
pub mod_ne : (s j k n : ℕ) → s < n → j < k → k < n → (s + j) % n ≢ (s + k) % n
mod_ne s j k n a b c e =
    ground (arith, mod-cases (s + j) n (omega arith), mod-cases (s + k) n (omega arith))
