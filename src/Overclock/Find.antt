-- ===== src/Overclock/Find.antt =====
-- What omap2_find_addrs of modules/overclock/overclock.c finds.
use android_device_motorola.Prelude.{
  ℕ, zero, suc, ◌+◌, ◌≡◌, Bool, true, List, [], ◌∷◌, if◌then◌else◌, ◌<◌, ◌*◌, ◌/◌, ◌%◌, ◌^◌, ◌==◌,
  ◌||◌, u32,
}
use android_device_motorola.Overclock.{Addrs, is_load, literal}

-- The offsets of the loads of a literal among `n` instructions from `i`.
loads : (ℕ → ℕ) → ℕ → ℕ → List ℕ
loads func zero i = []
loads func (suc n) i = let rest = loads func n (i + 4) in if is_load func i then i ∷ rest else rest

module _ (word : ℕ → ℕ) (base : ℕ) (func : ℕ → ℕ) where
  -- The word that the first of the loads reads, or 0.
  abbrev first_word : List ℕ → ℕ
  first_word [] = 0
  first_word (i ∷ l) = word (literal base func i)

  -- And the second.
  abbrev second_word : List ℕ → ℕ
  second_word [] = 0
  second_word (i ∷ l) = first_word l

  abbrev found : Bool → ℕ → ℕ → Bool → Addrs
  found first m q left = record {
    first = first;
    mpu_opps_addr = m;
    freq_table_addr = q;
    left = left;
  }

  -- Both addresses are as two lists of loads say.
  abbrev Reads : Addrs → ℕ → List ℕ → Type 0
  Reads a m l = (a.mpu_opps_addr ≡ m) × (a.freq_table_addr ≡ first_word l)

-- An instruction of ARM, the 32-bit word of its four bytes, the lowest first.
abbrev pub instruction : (ℕ → ℕ) → ℕ → ℕ
instruction func i = func i + 2 ^ 8 * func (i + 1) + 2 ^ 16 * func (i + 2) + 2 ^ 24 * func (i + 3)

-- `ldr rd, [pc, #offset]`, always or if not equal: rd and a 12-bit offset are the lower bits.
abbrev pub loads_literal : ℕ → Bool
loads_literal w = w / 2 ^ 16 == 0xe59f || w / 2 ^ 16 == 0x159f

-- The address of the literal: pc is 8 bytes ahead of the instruction.
abbrev pub address_of : ℕ → ℕ → ℕ → ℕ
address_of base i w = u32 (base + i + 8 + w % 2 ^ 12)

-- The addresses of the literals that `n` instructions from `i` load, in order.
pub literals : ℕ → (ℕ → ℕ) → ℕ → ℕ → List ℕ
literals base func zero i = []
literals base func (suc n) i =
    let w = instruction func i in
    let rest = literals base func n (i + 4) in
    if loads_literal w then address_of base i w ∷ rest else rest

-- The 100 numbers of the code that is searched are bytes.
abbrev pub Bytes : (ℕ → ℕ) → Type 0
Bytes func = (k : ℕ) → k < 100 → func k < 256

-- None of its loads of a literal has an offset above 255.
abbrev pub Near : (ℕ → ℕ) → Type 0
Near func =
    (i : ℕ) → i < 97 → loads_literal (instruction func i) ≡ true → instruction func i % 2 ^ 12 < 256

-- The word at the first address of a list, or at the second, and 0 where the list is too short.
abbrev pub read_first : (ℕ → ℕ) → List ℕ → ℕ
read_first word [] = 0
read_first word (x ∷ l) = word x

abbrev pub read_second : (ℕ → ℕ) → List ℕ → ℕ
read_second word [] = 0
read_second word (x ∷ l) = read_first word l
