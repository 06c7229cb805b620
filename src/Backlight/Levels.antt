-- ===== src/Backlight/Levels.antt =====
-- The conversion of a level to the value of the register.
use android_device_motorola.Prelude.{
  all_below, all_below-lt, ℕ, zero, suc, ◌+◌, ◌-◌, ◌%◌, ◌≤◌, ◌<◌, ◌≡◌, ◌⊎◌, Bool, true, false, ◌&&◌,
  ◌||◌, leb, ◌==◌, u16, bit_and, refl, arith, subst,
}
use android_device_motorola.Backlight.{Backlight, wr_mask, level_value, brightness_to_cpcap}

-- A value that the register allows on a Defy: 0, or the low four bits set, from 0x1f to 0x3ff.
abbrev pub Allowed : ℕ → Type 0
Allowed v = (v ≡ 0) ⊎ ((v % 16 ≡ 15) × (0x1f ≤ v) × (v ≤ 0x3ff))

allowed : ℕ → Bool
allowed v = v == 0 || ((v % 16 == 15) && (leb 0x1f v && leb v 0x3ff))

-- The value of the level, under the mask that the module starts with.
abbrev pub masked : Bool → ℕ → ℕ
masked plus level = bit_and (level_value plus level) wr_mask

tests_pass :
    (all_below 256 (λ v. allowed (masked false v)) ≡ true)
    × (all_below 255 (λ v. leb (masked false v) (masked false (v + 1))) ≡ true)
    × (all_below 255 (λ v. leb (masked true v) (masked true (v + 1))) ≡ true)
unfolding all_below allowed level_value
tests_pass = (refl, refl, refl)

pub bytes_pass : all_below 256 (λ v. bit_and v 0xff == v) ≡ true
unfolding all_below
bytes_pass = refl

allowed-Allowed : (v : ℕ) → allowed v ≡ true → Allowed v
unfolding allowed
allowed-Allowed v e = ground arith

-- From a step to any distance.
ascending :
    (f : ℕ → ℕ) (bound a n : ℕ)
    → ((v : ℕ) → v < bound → f v ≤ f (v + 1))
    → a + n ≤ bound
    → f a ≤ f (a + n)
ascending f bound a zero step h =
    let same : a ≡ a + 0 = omega arith in
    let reflexive : f a ≤ f a = omega arith in subst (λ k. f a ≤ f k) same reflexive
ascending f bound a (suc n) step h =
    let last : a + n + 1 ≡ a + suc n = omega arith in
    let below = ascending f bound a n step (omega arith) in
    let next = step (a + n) (omega arith) in
    let reaches : f a ≤ f (a + n + 1) = omega (arith, below, next) in
    subst (λ k. f a ≤ f k) last reaches

masked-step : (plus : Bool) (v : ℕ) → v < 255 → masked plus v ≤ masked plus (v + 1)
masked-step false v h =
    ground
      (arith, all_below-lt 255 (λ v. leb (masked false v) (masked false (v + 1))) tests_pass.1 v h)
masked-step true v h =
    ground
      (arith, all_below-lt 255 (λ v. leb (masked true v) (masked true (v + 1))) tests_pass.2 v h)

masked_mono : (plus : Bool) (a b : ℕ) → a ≤ b → b < 256 → masked plus a ≤ masked plus b
masked_mono plus a b p q =
    let e : a + (b - a) ≡ b = omega arith in
    subst (λ k. masked plus a ≤ masked plus k) e
      (ascending (masked plus) 255 a (b - a) (masked-step plus) (omega arith))

pub low_byte : (n : ℕ) → n < 256 → bit_and (u16 n) 0xff ≡ n
low_byte n h =
    let same : u16 n ≡ n = omega arith in
    rw same (ground (arith, all_below-lt 256 (λ v. bit_and v 0xff == v) bytes_pass n h))

-- With the mask that the module starts with, a higher level of one byte never gives a lower value
-- of the register, on either phone, and on a Defy each level gives a value that the register
-- allows.
pub brightness_to_cpcap_mono :
    (s : Backlight) (a b : ℕ)
    → s.g_mask_wr ≡ wr_mask
    → a ≤ b
    → b < 256
    → (brightness_to_cpcap s a ≤ brightness_to_cpcap s b)
      × (s.defy_plus ≡ false → Allowed (brightness_to_cpcap s b))
unfolding brightness_to_cpcap
brightness_to_cpcap_mono s a b m p q =
    rw (low_byte a (omega arith), low_byte b q, m)
      (
        masked_mono s.defy_plus a b p q,
        λ plus. rw plus (
            allowed-Allowed (masked false b)
              (all_below-lt 256 (λ v. allowed (masked false v)) tests_pass.0 b q)),
      )
