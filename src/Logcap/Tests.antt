-- ===== src/Logcap/Tests.antt =====
-- The log of register accesses at concrete runs.
use android_device_motorola.Prelude.{
  ℕ, ◌-◌, ◌<◌, ◌≡◌, true, some, none, List, [], ◌∷◌, ltb, if◌then◌else◌, refl, arith,
}
use android_device_motorola.Logcap.{
  Logcap, Kernel, l_both, max_regs, logcap_init, logcap_exit, cpcap_regacc_write, map_if_needed,
  needs_entry,
}
use android_device_motorola.Logcap.Record.{Access, reads, writes, enables, accesses}
use android_device_motorola.Logcap.Entries.{SameEntries, logcap_exit-SameEntries}
use android_device_motorola.Logcap.Files.{
  Scnprintf, EndsBefore, proc_map_read, proc_map_read-EndsBefore, Shows, accesses-Shows,
}

abbrev kernel : Kernel
kernel = record { makes_mask = λ r. true; makes_value = λ r. true }

-- Parameters as the module has them when none is given.
abbrev fresh : Logcap
fresh = logcap_init l_both 0 max_regs

abbrev run : List Access
run =
    writes 0x1d 0x7ff 0
    ∷ reads 0x1d 0x3f 0
    ∷ enables (record { len = 2; copies = true; parsed = some 1 })
    ∷ writes 0x1d 0x800 0
    ∷ reads 7 0xff 0
    ∷ []

-- A write to the register behind the array.
behind_array : cpcap_regacc_write kernel max_regs 1 0 fresh ≡ none
unfolding cpcap_regacc_write map_if_needed needs_entry logcap_init
behind_array = refl

logcap_exit-SameEntries_example :
    (s : Logcap) × (accesses kernel run (logcap_init l_both 0 max_regs) ≡ some s)
    × SameEntries (logcap_exit s).created (logcap_exit s).removed
logcap_exit-SameEntries_example =
    logcap_exit-SameEntries kernel l_both 0 max_regs run (λ r. refl) (omega arith)

accesses-Shows_example :
    (s : Logcap) × (accesses kernel run fresh ≡ some s)
    × ((r : ℕ) → r < max_regs → Shows run fresh s r)
accesses-Shows_example = accesses-Shows kernel run fresh (λ r. refl) (omega arith)

abbrev scnprintf : Scnprintf
scnprintf size len = if ltb len size then len else size - 1

proc_map_read-EndsBefore_example :
    EndsBefore 1024 1024 (proc_map_read scnprintf (λ r reg. 16) 1024 1024 fresh)
proc_map_read-EndsBefore_example =
    proc_map_read-EndsBefore scnprintf (λ r reg. 16) 1024 1024 fresh (λ size len. refl)
      (omega arith)
