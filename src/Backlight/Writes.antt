-- ===== src/Backlight/Writes.antt =====
-- A brightness that is written to /proc, and the hooked write of the register that follows it.
use android_device_motorola.Prelude.{
  ◌&&◌, if◌then◌else◌, ◌≢◌, ℕ, ◌<◌, ◌≡◌, true, false, Option, none, some, List, [], ◌∷◌, ◌==◌, ◌!=◌,
  bit_and, refl, sym, arith, ap, ◌∙◌, all_below-lt, subst,
}
use android_device_motorola.Proc.{Input, Accepted, written-Accepted}
use android_device_motorola.Backlight.{
  Backlight, RegWrite, wr_mask, reg_write, brightness_to_cpcap, current_brightness,
  cpcap_regacc_write, flat, set_brightness, proc_brightness_write,
}
use android_device_motorola.Backlight.Levels.{bytes_pass}

masked_byte : (n : ℕ) → n < 256 → bit_and n 0xff ≡ n
masked_byte n h = ground (arith, all_below-lt 256 (λ v. bit_and v 0xff == v) bytes_pass n h)

kept :
    (s : Backlight) (d : Option ℕ) (b : ℕ)
    → b < 256
    → current_brightness
        (record s { brightness = b; button_dev = elim d [ none ↦ none | some old ↦ some b ] })
      ≡ b
kept s none b h = refl
kept s (some old) b h = ground arith

current_brightness-set :
    (n : ℕ) (s : Backlight) → n < 256 → current_brightness (set_brightness n s).0 ≡ n
current_brightness-set n s h =
    let same = masked_byte n h in kept s s.button_dev (bit_and n 0xff) (omega arith) ∙ same

-- A value depends on the brightness that is asked for, not on the one that is stored.
value-set :
    (n b : ℕ) (s : Backlight)
    → brightness_to_cpcap (record ((set_brightness n s).0) { brightness = b }) b
      ≡ brightness_to_cpcap s b
unfolding brightness_to_cpcap
value-set n b s = refl

proc_brightness_write-Accepted :
    (i : Input) (n : ℕ) (s : Backlight)
    → Accepted i n
    → proc_brightness_write i s ≡ (i.len, (set_brightness n s).0, (set_brightness n s).1)
unfolding proc_brightness_write
proc_brightness_write-Accepted i n s a =
    ap flat (written-Accepted (λ m r. set_brightness m r.0) i n (s, []) a)

-- What the hooked write makes of a write, after the brightness `n` was set: another register gets
-- what was asked for; the one of the backlight gets the value for `n`, under a wider mask on a
-- Defy+ where the mask is 0xf, and the brightness stays.
abbrev pub Keeps : ℕ → Backlight → ℕ → ℕ → ℕ → ℕ → Backlight × RegWrite → Type 0
Keeps n s backlight reg value mask (s', w) =
    (reg ≡ backlight
      → (s'.brightness ≡ n)
        × (w
            ≡ reg_write reg (brightness_to_cpcap s n)
                (if s.defy_plus && mask == 0xf then wr_mask else mask)))
    × (reg ≢ backlight → w ≡ reg_write reg value mask)

cpcap_regacc_write-Keeps :
    (n : ℕ) (s : Backlight) (backlight reg value mask : ℕ)
    → n < 256
    → Keeps n s backlight reg value mask
        (cpcap_regacc_write backlight reg value mask (set_brightness n s).0)
unfolding cpcap_regacc_write
cpcap_regacc_write-Keeps n s backlight reg value mask h = (
  λ e.
      let hooked : (reg != backlight) ≡ false = ground arith in
      let b = current_brightness (set_brightness n s).0 in
      let cb = current_brightness-set n s h in
      rw hooked (
        cb,
        ap (λ v. reg_write reg v (if s.defy_plus && mask == 0xf then wr_mask else mask))
            (value-set n b s ∙ ap (brightness_to_cpcap s) cb),
      ),
  λ e. let other : (reg != backlight) ≡ true = ground arith in rw other refl,
)

-- A brightness of one byte that is written to /proc goes to the register, and the hooked write puts
-- the same value there in the place of any other. A write of another register is left alone.
pub proc_brightness_write-Keeps :
    (i : Input) (n : ℕ) (s : Backlight) (backlight reg value mask : ℕ)
    → n < 256
    → Accepted i n
    → let (len, s', writes) = proc_brightness_write i s in
      (len ≡ i.len)
      × (writes ≡ reg_write s.g_reg (brightness_to_cpcap s n) s.g_mask_wr ∷ [])
      × Keeps n s backlight reg value mask (cpcap_regacc_write backlight reg value mask s')
proc_brightness_write-Keeps i n s backlight reg value mask h a =
    subst
      (λ (r : ℕ × Backlight × List RegWrite).
        (r.0 ≡ i.len)
        × (r.2 ≡ reg_write s.g_reg (brightness_to_cpcap s n) s.g_mask_wr ∷ [])
        × Keeps n s backlight reg value mask (cpcap_regacc_write backlight reg value mask r.1))
      (sym (proc_brightness_write-Accepted i n s a))
      (refl, refl, cpcap_regacc_write-Keeps n s backlight reg value mask h)
