-- ===== src/Logcap/Record.antt =====
-- What the accesses leave in the array: for each register the bits that were ever written and the
-- value that was last read.
use android_device_motorola.Prelude.{
  ℕ, ◌+◌, ◌<◌, ◌≡◌, ◌≢◌, refl, true, false, Option, none, some, List, [], ◌∷◌, ltb, ◌==◌,
  if◌then◌else◌, u32, bit_or, arith, ap, ◌∙◌, inl, inr, Bool-cases,
}
use android_device_motorola.Proc.{Input}
use android_device_motorola.Logcap.{
  max_regs, Logcap, Kernel, map_rep, needs_entry, map_if_needed, cpcap_regacc_read,
  cpcap_regacc_write, proc_log_enable_write,
}

-- An access through the hooked functions, or a write to log_enable.
pub data Access : Type 0 where
  reads : ℕ → ℕ → ℕ → Access
  writes : ℕ → ℕ → ℕ → Access
  enables : Input → Access

abbrev pub register : Access → ℕ
register (reads reg val ret) = reg
register (writes reg mask ret) = reg
register (enables i) = 0

abbrev pub result : Access → Logcap → ℕ
result (reads reg val ret) s = ret
result (writes reg mask ret) s = ret
result (enables i) s = (proc_log_enable_write i s).0

abbrev pub access : Kernel → Access → Logcap → Option (ℕ × Logcap)
access k (reads reg val ret) s = cpcap_regacc_read k reg val ret s
access k (writes reg mask ret) s = cpcap_regacc_write k reg mask ret s
access k (enables i) s = some (proc_log_enable_write i s)

-- The accesses one after the other; `none` is a fault.
abbrev pub and_then : (Logcap → Option Logcap) → Option (ℕ × Logcap) → Option Logcap
and_then f none = none
and_then f (some (ret, s)) = f s

unfoldable pub accesses : Kernel → List Access → Logcap → Option Logcap
accesses k [] s = some s
accesses k (a ∷ rest) s = and_then (accesses k rest) (access k a s)

-- What the accesses make of the mask, of the value, and of the counts.
abbrev pub mask_after : ℕ → Access → ℕ → ℕ
mask_after r (reads reg val ret) m = m
mask_after r (writes reg mask ret) m = if r == reg then bit_or m mask else m
mask_after r (enables i) m = m

abbrev pub value_after : ℕ → Access → ℕ → ℕ
value_after r (reads reg val ret) v = if r == reg then val else v
value_after r (writes reg mask ret) v = v
value_after r (enables i) v = v

abbrev pub reads_in : Access → ℕ
reads_in (reads reg val ret) = 1
reads_in (writes reg mask ret) = 0
reads_in (enables i) = 0

abbrev pub writes_in : Access → ℕ
writes_in (reads reg val ret) = 0
writes_in (writes reg mask ret) = 1
writes_in (enables i) = 0

abbrev pub all_masks : ℕ → List Access → ℕ → ℕ
all_masks r [] m = m
all_masks r (a ∷ rest) m = all_masks r rest (mask_after r a m)

abbrev pub last_read : ℕ → List Access → ℕ → ℕ
last_read r [] v = v
last_read r (a ∷ rest) v = last_read r rest (value_after r a v)

abbrev pub total_reads : List Access → ℕ
total_reads [] = 0
total_reads (a ∷ rest) = reads_in a + total_reads rest

abbrev pub total_writes : List Access → ℕ
total_writes [] = 0
total_writes (a ∷ rest) = writes_in a + total_writes rest

-- No access is to the register behind the array.
abbrev pub InArray : List Access → Type 0
InArray [] = Unit
InArray (a ∷ rest) = (register a ≢ max_regs) × InArray rest

-- The state `s'` holds the record of an access to `s`.
pub record Records (a : Access) (s s' : Logcap) : Type 0 where
  pub masks : (r : ℕ) → r < max_regs → (s'.store r).mask_wr ≡ mask_after r a (s.store r).mask_wr
  pub values :
      (r : ℕ) → r < max_regs → (s'.store r).last_value ≡ value_after r a (s.store r).last_value
  pub reads_counted : u32 s'.rd_count ≡ u32 (s.rd_count + reads_in a)
  pub writes_counted : u32 s'.wr_count ≡ u32 (s.wr_count + writes_in a)

-- The same of all accesses: the bits that were ever written to a register, the value that was last
-- read from it, and the counts modulo 2 ^ 32.
pub record AllRecorded (l : List Access) (s s' : Logcap) : Type 0 where
  pub masks : (r : ℕ) → r < max_regs → (s'.store r).mask_wr ≡ all_masks r l (s.store r).mask_wr
  pub values :
      (r : ℕ) → r < max_regs → (s'.store r).last_value ≡ last_read r l (s.store r).last_value
  pub reads_counted : u32 s'.rd_count ≡ u32 (s.rd_count + total_reads l)
  pub writes_counted : u32 s'.wr_count ≡ u32 (s.wr_count + total_writes l)

-- An entry in /proc changes nothing of the record.
record Same (s s' : Logcap) : Type 0 where
  masks_same : (r : ℕ) → (s'.store r).mask_wr ≡ (s.store r).mask_wr
  values_same : (r : ℕ) → (s'.store r).last_value ≡ (s.store r).last_value
  reads_same : s'.rd_count ≡ s.rd_count
  writes_same : s'.wr_count ≡ s.wr_count

module _ (k : Kernel) (makes : (r : ℕ) → k.makes_value r ≡ true) where
  map_if_needed-Same :
      (reg : ℕ) (s : Logcap) → (s' : Logcap) × (map_if_needed k reg s ≡ some s') × Same s s'
  unfolding map_if_needed map_rep
  map_if_needed-Same reg s = elim (Bool-cases (needs_entry s reg)) [
    | inl yes' ↦
        rw (yes', makes reg)
          (
            _,
            refl,
            record {
              masks_same = λ r. ground arith;
              values_same = λ r. ground arith;
              reads_same = refl;
              writes_same = refl;
            },
          )
    | inr no' ↦ rw no' (
      s,
      refl,
      record {
        masks_same = λ r. refl;
        values_same = λ r. refl;
        reads_same = refl;
        writes_same = refl;
      },
    )
  ]

  access-Records :
      (a : Access) (s : Logcap)
      → register a ≢ max_regs
      → (s' : Logcap) × (access k a s ≡ some (result a s, s')) × Records a s s'
  unfolding cpcap_regacc_read cpcap_regacc_write proc_log_enable_write
  access-Records (reads reg val ret) s h = elim (Bool-cases (ltb max_regs reg)) [
    | inl beyond ↦ rw beyond (
      _,
      refl,
      record {
        masks = λ r l. refl;
        values = λ r l. ground arith;
        reads_counted = omega arith;
        writes_counted = omega arith;
      },
    )
    | inr within ↦
        let other : (reg == max_regs) ≡ false = ground arith in
        let (s', e, same) = map_if_needed-Same reg (record s { rd_count = u32 (s.rd_count + 1) }) in
        rw (within, e, other)
          (
            _,
            refl,
            record {
              masks = λ r l. ground (arith, same.masks_same r, same.masks_same reg);
              values = λ r l. ground (arith, same.values_same r);
              reads_counted = omega (arith, same.reads_same);
              writes_counted = omega arith;
            },
          )
  ]
  access-Records (writes reg mask ret) s h = elim (Bool-cases (ltb max_regs reg)) [
    | inl beyond ↦ rw beyond (
      _,
      refl,
      record {
        masks = λ r l. ground arith;
        values = λ r l. refl;
        reads_counted = omega arith;
        writes_counted = omega arith;
      },
    )
    | inr within ↦
        let other : (reg == max_regs) ≡ false = ground arith in
        let (s', e, same) = map_if_needed-Same reg (record s { wr_count = u32 (s.wr_count + 1) }) in
        rw (within, e, other)
          (
            _,
            refl,
            record {
              masks = λ r l. ground (arith, same.masks_same r, same.masks_same reg);
              values = λ r l. ground (arith, same.values_same r, same.values_same reg);
              reads_counted = omega (arith, same.reads_same);
              writes_counted = omega (arith, same.writes_same);
            },
          )
  ]
  access-Records (enables i) s h = (
    _,
    refl,
    record {
      masks = λ r l. ground arith;
      values = λ r l. ground arith;
      reads_counted = ground arith;
      writes_counted = ground arith;
    },
  )

  -- With all entries named "val" created, accesses of which none is to register 256, and writes to
  -- log_enable, meet no fault. For each
  -- register of the array they leave the bits that were ever written and the value that was last
  -- read, and the accesses are counted modulo 2 ^ 32.
  pub accesses-AllRecorded :
      (l : List Access) (s : Logcap)
      → InArray l
      → (s' : Logcap) × (accesses k l s ≡ some s') × AllRecorded l s s'
  unfolding accesses
  accesses-AllRecorded [] s h = (
    s,
    refl,
    record {
      masks = λ r m. refl;
      values = λ r m. refl;
      reads_counted = omega arith;
      writes_counted = omega arith;
    },
  )
  accesses-AllRecorded (a ∷ l) s h =
      let (s1, e1, one) = access-Records a s h.0 in
      let (s2, e2, rest) = accesses-AllRecorded l s1 h.1 in
      (
        s2,
        rw e1 e2,
        record {
          masks = λ r m. rest.masks r m ∙ ap (all_masks r l) (one.masks r m);
          values = λ r m. rest.values r m ∙ ap (last_read r l) (one.values r m);
          reads_counted = omega (arith, rest.reads_counted, one.reads_counted);
          writes_counted = omega (arith, rest.writes_counted, one.writes_counted);
        },
      )
