-- ===== src/Hooks/Branch.antt =====
-- Where the branch that hook.c writes leads.
use Prim.Native.Nat.{digits, bit_and-bitwise}
use android_device_motorola.Prelude.{
  ℕ, zero, suc, min, ap, sym, ◌∙◌, ◌+◌, ◌-◌, ◌*◌, ◌/◌, ◌%◌, ◌^◌, ◌≤◌, ◌<◌, ◌≡◌, ◌⊎◌, ltb,
  if◌then◌else◌, u32, sub32, bit_and, arith, refl,
}
use android_device_motorola.Hooks.{branch_to}

-- The ARM instruction B: 0xea in the high byte, and the distance in words from the second
-- instruction behind it, as 24 bits with a sign.
abbrev pub branch_target : ℕ → ℕ → ℕ
branch_target address instruction =
    let words = instruction % 2 ^ 24 in
    u32 (address + 8 + (if ltb words (2 ^ 23) then words * 4 else words * 4 + 2 ^ 32 - 2 ^ 26))

-- `bit_and` counts down from its first number; any count that is not less gives the same.
digits-counts :
    (n m a b : ℕ) → a ≤ n → a ≤ m → digits (λ x. 0) min n a b ≡ digits (λ x. 0) min m a b
digits-counts zero zero a b p q = refl
digits-counts zero (suc m) zero b p q = refl
digits-counts zero (suc m) (suc a) b p q = absurd (omega arith)
digits-counts (suc n) zero zero b p q = refl
digits-counts (suc n) zero (suc a) b p q = absurd (omega arith)
digits-counts (suc n) (suc m) zero b p q = refl
digits-counts (suc n) (suc m) (suc a) b p q =
    ap (λ t. t * 2 + min (suc a % 2) (b % 2))
      (digits-counts n m (suc a / 2) (b / 2) (omega arith) (omega arith))

-- The lowest bit apart.
low_bit : (a b : ℕ) → bit_and (suc a) b ≡ bit_and (suc a / 2) (b / 2) * 2 + min (suc a % 2) (b % 2)
low_bit a b =
    bit_and-bitwise (suc a) b
    ∙ ap (λ t. t * 2 + min (suc a % 2) (b % 2))
        (digits-counts a (suc a / 2) (suc a / 2) (b / 2) (omega arith) (omega arith)
          ∙ sym (bit_and-bitwise (suc a / 2) (b / 2)))

nothing_left : (b : ℕ) → bit_and 0 b ≡ 0
nothing_left b = bit_and-bitwise 0 b

low_4 : (n : ℕ) → bit_and 15 n ≡ n % 16
low_4 n = omega (
  arith,
  low_bit 14 n,
  low_bit 6 (n / 2),
  low_bit 2 (n / 2 / 2),
  low_bit 0 (n / 2 / 2 / 2),
  nothing_left (n / 2 / 2 / 2 / 2),
)

low_8 : (n : ℕ) → bit_and 255 n ≡ n % 256
low_8 n = omega (
  arith,
  low_bit 254 n,
  low_bit 126 (n / 2),
  low_bit 62 (n / 2 / 2),
  low_bit 30 (n / 2 / 2 / 2),
  low_4 (n / 2 / 2 / 2 / 2),
)

low_12 : (n : ℕ) → bit_and 4095 n ≡ n % 4096
low_12 n = omega (
  arith,
  low_bit 4094 n,
  low_bit 2046 (n / 2),
  low_bit 1022 (n / 2 / 2),
  low_bit 510 (n / 2 / 2 / 2),
  low_8 (n / 2 / 2 / 2 / 2),
)

low_16 : (n : ℕ) → bit_and 65535 n ≡ n % 65536
low_16 n = omega (
  arith,
  low_bit 65534 n,
  low_bit 32766 (n / 2),
  low_bit 16382 (n / 2 / 2),
  low_bit 8190 (n / 2 / 2 / 2),
  low_12 (n / 2 / 2 / 2 / 2),
)

low_20 : (n : ℕ) → bit_and 1048575 n ≡ n % 1048576
low_20 n = omega (
  arith,
  low_bit 1048574 n,
  low_bit 524286 (n / 2),
  low_bit 262142 (n / 2 / 2),
  low_bit 131070 (n / 2 / 2 / 2),
  low_16 (n / 2 / 2 / 2 / 2),
)

low_24 : (n : ℕ) → bit_and 16777215 n ≡ n % 16777216
low_24 n = omega (
  arith,
  low_bit 16777214 n,
  low_bit 8388606 (n / 2),
  low_bit 4194302 (n / 2 / 2),
  low_bit 2097150 (n / 2 / 2 / 2),
  low_20 (n / 2 / 2 / 2 / 2),
)

-- A branch to a function whose address is a multiple of 4, within 32 MB of the patched instruction,
-- leads to that function.
pub branch_to-leads :
    (newfunc target : ℕ)
    → newfunc < 2 ^ 32
    → target < 2 ^ 32
    → newfunc % 4 ≡ 0
    → target % 4 ≡ 0
    → let distance = sub32 newfunc (u32 (target + 8)) in
      (distance < 2 ^ 25) ⊎ (2 ^ 32 ≤ distance + 2 ^ 25)
      → branch_target target (branch_to newfunc target) ≡ newfunc
unfolding branch_to
branch_to-leads newfunc target a b c d near =
    ground (arith, low_24 (sub32 newfunc (u32 (target + 8)) / 4))
