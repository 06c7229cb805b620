-- ===== src/Logcap.antt =====
-- modules/logcap/log-cpcap.c: the log of the accesses to the registers of the CPCAP chip.
--
-- A register number is an unsigned word, as `enum cpcap_reg` is, and so are the `int`s that it is
-- compared with. An access behind the array `store` is a fault, `none`, and so is a write through
-- the entry "val" that could not be created. Of the entries only "mask" and "val" may fail to be
-- created. What is printed is left out, and the files of the log stand in Logcap/Files. The hooked
-- functions get the results of the original ones as arguments.
mod Record
mod Entries
mod Files
mod Tests
use android_device_motorola.Prelude.{
  ℕ, zero, suc, ◌+◌, Bool, true, false, Option, none, some, List, [], ◌∷◌, ◌++◌, ltb, ◌==◌, ◌!=◌,
  ◌&&◌, if◌then◌else◌, put, u32, bit_and, bit_or,
}
use android_device_motorola.Proc.{Input, written}

abbrev pub max_regs : ℕ
max_regs = 0x100

-- L_PROC, and L_DMESG | L_PROC.
abbrev pub l_proc : ℕ
l_proc = 2

abbrev pub l_both : ℕ
l_both = 3

-- The entries below /proc/logcap, itself the root.
pub data Entry : Type 0 where
  root rd_count_file wr_count_file map_file log_enable_file : Entry
  reg_dir reg_mask reg_val : ℕ → Entry

-- st_logcap_reg; of the pointers to entries only whether they are set.
pub record Reg : Type 0 where
  pub reg : ℕ
  pub proc_mask : Bool
  pub mask_wr : ℕ
  pub proc_value : Bool
  pub last_value : ℕ

-- The variables of the module, with the entries of /proc that it created and removed so far, the
-- latest first.
pub record Logcap : Type 0 where
  pub store : ℕ → Reg
  pub log_enable : ℕ
  pub log_reg_min : ℕ
  pub log_reg_max : ℕ
  pub rd_count : ℕ
  pub wr_count : ℕ
  pub hooked : Bool
  pub created : List Entry
  pub removed : List Entry

-- Whether the kernel can create the entries of a register.
pub record Kernel : Type 0 where
  pub makes_mask : ℕ → Bool
  pub makes_value : ℕ → Bool

abbrev pub mask_entry : Bool → ℕ → List Entry
mask_entry true r = reg_mask r ∷ []
mask_entry false r = []

abbrev pub value_entry : Bool → ℕ → List Entry
value_entry true r = reg_val r ∷ []
value_entry false r = []

unfoldable pub map_rep : Kernel → ℕ → Logcap → Option Logcap
map_rep k reg s =
    if k.makes_value reg
    then some (record s {
      store =
          put s.store reg
            (record (s.store reg) { reg = reg; proc_mask = k.makes_mask reg; proc_value = true });
      created = reg_val reg ∷ mask_entry (k.makes_mask reg) reg ++ (reg_dir reg ∷ s.created);
    })
    else none

-- The tests around the call of map_rep in both hooked functions.
unfoldable pub needs_entry : Logcap → ℕ → Bool
needs_entry s reg =
    s.log_enable != 0
    && (ltb reg s.log_reg_max
        && (ltb s.log_reg_min reg && (bit_and s.log_enable l_proc != 0 && (s.store reg).reg == 0)))

unfoldable pub map_if_needed : Kernel → ℕ → Logcap → Option Logcap
map_if_needed k reg s = if needs_entry s reg then map_rep k reg s else some s

-- A change of the last fields of a register, behind the array for `max_regs`.
abbrev pub change_reg : (Reg → Reg) → ℕ → ℕ → Option Logcap → Option (ℕ × Logcap)
change_reg f reg ret none = none
change_reg f reg ret (some s) =
    if reg == max_regs
    then none
    else some (ret, record s { store = put s.store reg (f (s.store reg)) })

abbrev pub set_value : ℕ → Reg → Reg
set_value val r = record r { last_value = val }

abbrev pub add_mask : ℕ → Reg → Reg
add_mask mask r = record r { mask_wr = bit_or r.mask_wr mask }

-- The hooked functions. `ret` is the result of the original one, and `val` the value that it read.
unfoldable pub cpcap_regacc_read : Kernel → ℕ → ℕ → ℕ → Logcap → Option (ℕ × Logcap)
cpcap_regacc_read k reg val ret s =
    let s' = record s { rd_count = u32 (s.rd_count + 1) } in
    if ltb max_regs reg
    then some (ret, s')
    else change_reg (set_value val) reg ret (map_if_needed k reg s')

unfoldable pub cpcap_regacc_write : Kernel → ℕ → ℕ → ℕ → Logcap → Option (ℕ × Logcap)
cpcap_regacc_write k reg mask ret s =
    let s' = record s { wr_count = u32 (s.wr_count + 1) } in
    if ltb max_regs reg
    then some (ret, s')
    else change_reg (add_mask mask) reg ret (map_if_needed k reg s')

unfoldable pub proc_log_enable_write : Input → Logcap → ℕ × Logcap
proc_log_enable_write i s = written (λ enable s. record s { log_enable = enable }) i s

abbrev pub unused : Reg
unused = record { reg = 0; proc_mask = false; mask_wr = 0; proc_value = false; last_value = 0 }

-- logcap_init, with the parameters of the module.
unfoldable pub logcap_init : ℕ → ℕ → ℕ → Logcap
logcap_init log_enable log_reg_min log_reg_max = record {
  store = λ r. unused;
  log_enable = log_enable;
  log_reg_min = log_reg_min;
  log_reg_max = log_reg_max;
  rd_count = 0;
  wr_count = 0;
  hooked = true;
  created = log_enable_file ∷ map_file ∷ wr_count_file ∷ rd_count_file ∷ root ∷ [];
  removed = [];
}

-- The cleanup of one register in logcap_exit.
unfoldable pub cleanup : ℕ → Logcap → Logcap
cleanup r s = if (s.store r).reg == 0 then s else record s {
  store = put s.store r (record (s.store r) { reg = 0; proc_mask = false; proc_value = false });
  removed =
      reg_dir r ∷ value_entry (s.store r).proc_value r
      ++ (mask_entry (s.store r).proc_mask r ++ s.removed);
}

-- Its loop, with `more` registers from `r` on.
unfoldable pub cleanup_from : ℕ → ℕ → Logcap → Logcap
cleanup_from zero r s = s
cleanup_from (suc more) r s = cleanup_from more (r + 1) (cleanup r s)

unfoldable pub logcap_exit : Logcap → Logcap
logcap_exit s =
    let s' = cleanup_from max_regs 0 (record s {
      hooked = false;
      removed = map_file ∷ log_enable_file ∷ wr_count_file ∷ rd_count_file ∷ s.removed;
    }) in
    record s' { removed = root ∷ s'.removed }
