-- ===== src/Prelude/Bits.antt =====
-- Masks and flag bits of a byte as arithmetic, each from a table of all bytes.
use Prim.Native.Nat.{ℕ, zero, suc, ◌-◌, ◌*◌, ◌/◌, ◌%◌, ◌^◌, ◌<◌, bit_and}
use mathlib.Core.Bool.{Bool, true, ◌&&◌}
use mathlib.Core.Path.{◌≡◌, refl}
use native.Mathlib.Omega.{arith}
use honeybeepf_llm.Prelude.Tests.{◌==◌, ==→eq}

-- A test that holds of every number below the bound.
unfoldable pub holds_below : ℕ → (ℕ → Bool) → Bool
holds_below zero test = true
holds_below (suc n) test = holds_below n test && test n

pub holds_below_at :
    (n : ℕ) (test : ℕ → Bool) (x : ℕ) → x < n → holds_below n test ≡ true → test x ≡ true
unfolding holds_below
holds_below_at zero test x lt h = absurd (omega arith)
holds_below_at (suc n) test x lt h = ground (arith, holds_below_at n test x)

mask_table : holds_below 9 (λ p. holds_below 256 (λ x. bit_and x (2 ^ p - 1) == x % 2 ^ p)) ≡ true
unfolding holds_below
mask_table = refl

-- A mask of at most eight ones keeps the low bits of a byte.
pub mask_byte : (p x : ℕ) → p < 9 → x < 256 → bit_and x (2 ^ p - 1) ≡ x % 2 ^ p
mask_byte p x hp hx = ==→eq _ _ (holds_below_at 256 _ x hx (holds_below_at 9 _ p hp mask_table))

top_table : holds_below 256 (λ x. bit_and x 0x80 == x / 128 * 128) ≡ true
unfolding holds_below
top_table = refl

pub top_bit : (x : ℕ) → x < 256 → bit_and x 0x80 ≡ x / 128 * 128
top_bit x h = ==→eq _ _ (holds_below_at 256 _ x h top_table)

pub low_seven : (x : ℕ) → x < 256 → bit_and x 0x7f ≡ x % 128
low_seven x h = mask_byte 7 x (omega arith) h
