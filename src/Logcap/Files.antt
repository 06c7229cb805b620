-- ===== src/Logcap/Files.antt =====
-- The files under /proc/logcap: what they show, and what is written to them.
--
-- The kernel's scnprintf is an argument: what it returns for a size and the length of a text.
use android_device_motorola.Prelude.{
  ◌^◌, ◌⊎◌, none, ℕ, zero, suc, ◌+◌, ◌-◌, ◌<◌, ◌≡◌, ◌≢◌, refl, Bool, true, false, List, [], ◌∷◌,
  Option, some, ltb, leb, ◌==◌, ◌!=◌, ◌&&◌, if◌then◌else◌, u16, bit_and, arith, ap, Bool-cases, inl,
  inr,
}
use android_device_motorola.Proc.{Input, written, Accepted, written-Accepted}
use android_device_motorola.Logcap.{max_regs, Reg, Logcap, Kernel}
use android_device_motorola.Logcap.Record.{
  Access, accesses, InArray, AllRecorded, all_masks, last_read, accesses-AllRecorded,
}

-- The arguments are the size of the buffer and the length of the text.
abbrev pub Scnprintf : Type 0
Scnprintf = ℕ → ℕ → ℕ

-- It returns the number of bytes that it wrote, without the 0 behind them.
abbrev pub Prints : Scnprintf → Type 0
Prints scnprintf = (size len : ℕ) → scnprintf size len ≡ (if ltb len size then len else size - 1)

-- The loop of proc_map_read, with `more` registers from `r` on; `len` gives the length of the line
-- of a register.
unfoldable pub map_lines : Scnprintf → (ℕ → Reg → ℕ) → ℕ → (ℕ → Reg) → ℕ → ℕ → ℕ → ℕ
map_lines scnprintf len count store zero r wr = wr
map_lines scnprintf len count store (suc more) r wr =
    map_lines scnprintf len count store more (r + 1)
      (if (store r).reg == 0 then wr else wr + scnprintf (count - wr) (len r (store r)))

-- proc_map_read: the result, `*eof`, and where in the page it starts. `count` and `offset` are not
-- negative.
unfoldable pub proc_map_read : Scnprintf → (ℕ → Reg → ℕ) → ℕ → ℕ → Logcap → ℕ × Bool × ℕ
proc_map_read scnprintf len offset count s =
    let wr = map_lines scnprintf len count s.store max_regs 0 0 in
    let left = wr - offset in
    (if ltb count left then count else left, leb wr (offset + count), offset)

-- A write of a register, by its number, value and mask.
pub data DirectWrite : Type 0 where
  direct_write : ℕ → ℕ → ℕ → DirectWrite

-- proc_reg_val_write for the register `r` of the array: the calls of cpcap_direct_misc_write.
abbrev pub write_reg : Logcap → Reg → ℕ → List DirectWrite
write_reg s reg newval =
    if reg.reg != 0 && s.hooked
    then direct_write reg.reg (u16 (bit_and newval reg.mask_wr)) reg.mask_wr ∷ []
    else []

abbrev pub ebusy : ℕ
ebusy = 2 ^ 32 - 16

-- `found` tells whether the kernel's symbol is found; without it a write that needs it fails.
unfoldable pub proc_reg_val_write : Bool → ℕ → Input → Logcap → ℕ × List DirectWrite
proc_reg_val_write found r i s =
    let (ret, calls) = written (λ newval w. write_reg s (s.store r) newval) i [] in
    if found then (ret, calls) else elim calls [ [] ↦ (ret, []) | c ∷ cs ↦ (ebusy, []) ]

-- What the files of a register show, at the start of the file.
pub data RegFile : Type 0 where
  mask val : RegFile

unfoldable pub shown_reg : RegFile → ℕ → Reg → Option ℕ
shown_reg mask offset reg = if offset == 0 then some reg.mask_wr else none
shown_reg val offset reg = if offset == 0 then some reg.last_value else none

-- Each line stops before the end of the buffer.
map_lines-lt :
    (scnprintf : Scnprintf) (len : ℕ → Reg → ℕ) (count : ℕ) (store : ℕ → Reg) (more r wr : ℕ)
    → Prints scnprintf
    → wr < count
    → map_lines scnprintf len count store more r wr < count
unfolding map_lines
map_lines-lt scnprintf len count store zero r wr p h = h
map_lines-lt scnprintf len count store (suc more) r wr p h =
    let fits : wr + scnprintf (count - wr) (len r (store r)) < count =
      ground (arith, p (count - wr) (len r (store r))) in
    map_lines-lt scnprintf len count store more (r + 1) _ p (ground arith)

-- What a reader gets of the map: the end is reported at once, the bytes come from the asked offset
-- of the page, and none stands at or behind `count - 1`.
abbrev pub EndsBefore : ℕ → ℕ → ℕ × Bool × ℕ → Type 0
EndsBefore count offset (ret, eof, start) =
    (eof ≡ true) × (start ≡ offset) × ((ret ≡ 0) ⊎ (start + ret < count))

-- If scnprintf returns what it wrote, a read of the map with a buffer reports the end of the file,
-- starts at the asked offset, and returns nothing or bytes before the last one of the buffer. So a
-- longer map is cut there, at any offset.
pub proc_map_read-EndsBefore :
    (scnprintf : Scnprintf) (len : ℕ → Reg → ℕ) (offset count : ℕ) (s : Logcap)
    → Prints scnprintf
    → 0 < count
    → EndsBefore count offset (proc_map_read scnprintf len offset count s)
unfolding proc_map_read
proc_map_read-EndsBefore scnprintf len offset count s p h =
    let e = map_lines-lt scnprintf len count s.store max_regs 0 0 p h in
    let wr = map_lines scnprintf len count s.store max_regs 0 0 in
    let whole : ltb count (wr - offset) ≡ false = ground (arith, e) in
    (
      ground (arith, e),
      refl,
      elim (Bool-cases (leb wr offset)) [
        | inl past ↦ inl (rw whole (ground arith))
        | inr before ↦ inr (rw whole (ground (arith, e)))
      ],
    )

-- What the files of the register `r` show and do in the state `s'` after accesses to `s`: `mask`
-- shows the bits that were ever written, `val` the value that was last read, and a number that
-- goes to `val` is written with those bits only, if the register has a directory.
pub record Shows (l : List Access) (s s' : Logcap) (r : ℕ) : Type 0 where
  pub mask_shown : shown_reg mask 0 (s'.store r) ≡ some (all_masks r l (s.store r).mask_wr)
  pub val_shown : shown_reg val 0 (s'.store r) ≡ some (last_read r l (s.store r).last_value)
  pub val_written :
      (i : Input) (n : ℕ)
      → Accepted i n
      → (s'.store r).reg ≢ 0
      → s'.hooked ≡ true
      → let m = all_masks r l (s.store r).mask_wr in
        proc_reg_val_write true r i s'
        ≡ (i.len, direct_write (s'.store r).reg (u16 (bit_and n m)) m ∷ [])

AllRecorded-Shows :
    (l : List Access) (s s' : Logcap) (r : ℕ) → r < max_regs → AllRecorded l s s' → Shows l s s' r
unfolding shown_reg proc_reg_val_write
AllRecorded-Shows l s s' r h a = record {
  mask_shown = ap some (a.masks r h);
  val_shown = ap some (a.values r h);
  val_written = λ i n t has hooked.
      let e = written-Accepted (λ newval w. write_reg s' (s'.store r) newval) i n [] t in
      let k : ((s'.store r).reg != 0 && s'.hooked) ≡ true = ground (arith, has, hooked) in
      rw (e, k, a.masks r h) refl;
}

-- With all entries named "val" created, accesses of which none is to register 256, and writes to
-- log_enable in between, meet no fault. Afterwards the file "mask" of each register of the array
-- shows the bits that were ever written to it, "val" shows the value that was last read, and an
-- accepted number for the "val" of a register with a directory writes those bits of it only, while
-- the module is hooked and finds the symbol.
pub accesses-Shows :
    (k : Kernel) (l : List Access) (s : Logcap)
    → ((r : ℕ) → k.makes_value r ≡ true)
    → InArray l
    → (s' : Logcap) × (accesses k l s ≡ some s') × ((r : ℕ) → r < max_regs → Shows l s s' r)
accesses-Shows k l s makes h =
    let (s', e, a) = accesses-AllRecorded k makes l s h in
    (s', e, λ r m. AllRecorded-Shows l s s' r m a)
