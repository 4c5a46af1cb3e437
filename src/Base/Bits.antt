-- ===== src/Base/Bits.antt =====
-- The marker bit of a varint byte, as a table over all bytes.
use Prim.Native.Nat.{ℕ, zero, suc, ◌+◌, ◌%◌, ◌<◌, bit_or}
use mathlib.Core.Path.{◌≡◌, refl}
use mathlib.Core.Bool.{Bool, true, ◌&&◌}
use native.Mathlib.Omega.{arith}
use hdc_remote_kit.Base.Tests.{◌==◌, ==_iff}

every_below : ℕ → (ℕ → Bool) → Bool
every_below zero p = true
every_below (suc n) p = p n && every_below n p

every_below_at : (n : ℕ) (p : ℕ → Bool) (x : ℕ) → every_below n p ≡ true → x < n → p x ≡ true
unfolding every_below
every_below_at zero p x h lt = absurd (omega arith)
every_below_at (suc n) p x h lt = ground (arith, every_below_at n p x)

-- `byte(x) | 0x80`.
pub bit_or-marker : (b : ℕ) → b < 256 → bit_or b 0x80 ≡ b % 128 + 128
unfolding every_below
bit_or-marker b h =
    (==_iff _ _).0 (every_below_at 256 (λ x. bit_or x 0x80 == x % 128 + 128) b refl h)
