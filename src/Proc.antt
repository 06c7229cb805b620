-- ===== src/Proc.antt =====
-- What the modules share for their files under /proc: the frame of a write function, which copies
-- the text into a buffer of 32 bytes and reads a number from it.
use android_device_motorola.Prelude.{
  ℕ, ◌<◌, ◌-◌, ◌^◌, ◌≡◌, refl, Bool, true, false, not, ◌||◌, Option, none, some, leb, ◌==◌,
  if◌then◌else◌, arith, if_cases, Option-cases, inl, inr,
}

-- What a write function gets: the length, whether the text can be copied, and the number that
-- sscanf reads from it.
pub record Input : Type 0 where
  pub len : ℕ
  pub copies : Bool
  pub parsed : Option ℕ

abbrev pub enospc : ℕ
enospc = 2 ^ 32 - 28

abbrev pub efault : ℕ
efault = 2 ^ 32 - 14

module _ {ℓ} {S : Type ℓ} where
  abbrev pub with_number : (ℕ → S → S) → Option ℕ → S → S
  with_number f none s = s
  with_number f (some n) s = f n s

  -- `buf` has 32 bytes.
  abbrev pub written : (ℕ → S → S) → Input → S → ℕ × S
  written f i s =
      if i.len == 0 || leb 32 i.len
      then (enospc, s)
      else (if not i.copies then (efault, s) else (i.len, with_number f i.parsed s))

-- An input that is taken: a text of less than 32 bytes with a number.
pub record Accepted (i : Input) (n : ℕ) : Type 0 where
  pub some_text : 0 < i.len
  pub fits : i.len < 32
  pub copied : i.copies ≡ true
  pub number_read : i.parsed ≡ some n

pub len-Accepted : {i : Input} {n : ℕ} → Accepted i n → (i.len == 0 || leb 32 i.len) ≡ false
len-Accepted a = ground (arith, a.some_text, a.fits)

pub written-Accepted {ℓ} :
    {S : Type ℓ} (f : ℕ → S → S) (i : Input) (n : ℕ) (s : S)
    → Accepted i n
    → written f i s ≡ (i.len, f n s)
written-Accepted f i n s a = rw (len-Accepted a, a.copied, a.number_read) refl

-- What holds of a state and of what each number that can be read makes of it, holds after a write.
pub written_cases {ℓ κ} :
    {S : Type ℓ} (P : S → Type κ) (f : ℕ → S → S) (i : Input) (s : S)
    → P s
    → ((n : ℕ) → i.parsed ≡ some n → P (f n s))
    → P (written f i s).1
written_cases {S} P f i s old new =
    if_cases (λ (r : ℕ × S). P r.1) (i.len == 0 || leb 32 i.len) (λ e. old)
      λ e.
        if_cases (λ (r : ℕ × S). P r.1) (not i.copies) (λ e. old)
          λ e. elim (Option-cases i.parsed) [
            | inl missing ↦ rw missing old
            | inr (n, given) ↦ let p = new n given in rw given p
          ]
