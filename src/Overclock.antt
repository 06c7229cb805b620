-- ===== src/Overclock.antt =====
-- modules/overclock/overclock.c: the kernel's two tables of clock rates are found, made of one
-- length, and changed through /proc/overclock/mpu_opps.
--
-- An array is a list; an access outside of it, or through a null pointer, is the result `none`. The
-- last operating point, MAX_VDD1_OPP, is a constant of the kernel, here the argument `max_opp`.
pub mod Find
pub mod Init
pub mod Write
pub mod Tests
use android_device_motorola.Prelude.{
  ℕ, zero, suc, ◌+◌, ◌*◌, ◌-◌, ◌/◌, ◌^◌, Bool, true, false, Option, none, some, List, [], ◌∷◌,
  length, get_or, set, ltb, leb, ◌==◌, ◌&&◌, ◌||◌, if◌then◌else◌, u32,
}
use android_device_motorola.FreqStats.{Stats, table_end, cpufreq_stats_freq_update}

-- `struct cpufreq_frequency_table`, and what is used of `struct omap_opp`.
pub record Entry : Type 0 where
  pub index : ℕ
  pub frequency : ℕ

pub record Opp : Type 0 where
  pub rate : ℕ
  pub vsel : ℕ
  pub sr_adjust_vsel : ℕ

-- The limits that a policy has three times: its own, the hardware's and the user's.
pub record Limits : Type 0 where
  pub min : ℕ
  pub max : ℕ
  pub cpuinfo_min : ℕ
  pub cpuinfo_max : ℕ
  pub user_min : ℕ
  pub user_max : ℕ

pub record Tables : Type 0 where
  pub freq_table : List Entry
  pub my_mpu_opps : List Opp
  pub policy : Limits
  pub stats : Option Stats

-- What omap2_find_addrs has found: whether `first` is still 1, and whether the loop was left.
pub record Addrs : Type 0 where
  pub first : Bool
  pub mpu_opps_addr : ℕ
  pub freq_table_addr : ℕ
  pub left : Bool

-- The bytes of ldr or ldrne of a literal, in the function's code at `func`.
unfoldable pub is_load : (ℕ → ℕ) → ℕ → Bool
is_load func i = (func (i + 3) == 0xe5 || func (i + 3) == 0x15) && func (i + 2) == 0x9f

-- The address of the literal, with the 32 bits of a `uint`.
abbrev pub literal : ℕ → (ℕ → ℕ) → ℕ → ℕ
literal base func i = u32 (base + i + 8 + func i)

unfoldable pub find_step : (ℕ → ℕ) → ℕ → (ℕ → ℕ) → ℕ → Addrs → Addrs
find_step word base func i a =
    if a.left
    then a
    else (if is_load func i
        then (if a.first
            then record a { first = false; mpu_opps_addr = word (literal base func i) }
            else record a { freq_table_addr = word (literal base func i); left = true })
        else a)

-- The loop of omap2_find_addrs, for `n` steps from `i`.
unfoldable pub find_from : (ℕ → ℕ) → ℕ → (ℕ → ℕ) → ℕ → ℕ → Addrs → Addrs
find_from word base func zero i a = a
find_from word base func (suc n) i a =
    find_from word base func n (i + 4) (find_step word base func i a)

-- omap2_find_addrs on the code `func` at address `base`; `word` reads 32 bits of memory. The loop
-- goes to 100 by 4.
unfoldable pub omap2_find_addrs : (ℕ → ℕ) → ℕ → (ℕ → ℕ) → Addrs
omap2_find_addrs word base func =
    find_from word base func 25 0
      (record { first = true; mpu_opps_addr = 0; freq_table_addr = 0; left = false })

abbrev pub no_entry : Entry
no_entry = record { index = 0; frequency = 0 }

abbrev pub frequency_at : List Entry → ℕ → ℕ
frequency_at t i = (get_or t i no_entry).frequency

-- overclock_init: the first loop, to CPUFREQ_TABLE_END.
unfoldable pub find_end : ℕ → List Entry → Option ℕ
find_end i [] = none
find_end i (e ∷ t) = if e.frequency == table_end then some i else find_end (i + 1) t

-- The body of the second loop: entry `i` gets the frequency of the one before.
unfoldable pub copy_prev : ℕ → List Entry → Option (List Entry)
copy_prev zero t = none
copy_prev (suc i) t =
    if ltb (suc i) (length t)
    then some (set t (suc i) (record { index = suc i; frequency = frequency_at t i }))
    else none

-- The second loop, for `n` steps from `i`.
unfoldable pub extend : ℕ → ℕ → Option (List Entry) → Option (List Entry)
extend zero i t = t
extend (suc n) i none = none
extend (suc n) i (some t) = extend n (i + 1) (copy_prev i t)

abbrev pub extend_from : ℕ → Option ℕ → List Entry → Option (List Entry)
extend_from max_opp none t = none
extend_from max_opp (some i) t = extend (max_opp - i) i (some t)

-- overclock_init on the table.
unfoldable pub init_table : ℕ → List Entry → Option (List Entry)
init_table max_opp t =
    let t1 = set t max_opp (record { index = max_opp; frequency = table_end }) in
    if ltb max_opp (length t) then extend_from max_opp (find_end 0 t1) t1 else none

abbrev pub enospc : ℕ
enospc = 2 ^ 32 - 28

abbrev pub efault : ℕ
efault = 2 ^ 32 - 14

pub record Written : Type 0 where
  pub ret : ℕ
  pub tables : Tables

-- The limits after a change of operating point `index` to `khz`.
abbrev pub new_limits : ℕ → ℕ → ℕ → Limits → Limits
new_limits max_opp index khz l =
    if index == max_opp
    then record l { max = khz; cpuinfo_max = khz; user_max = khz }
    else (if index == 1 then record l { min = khz; cpuinfo_min = khz; user_min = khz } else l)

abbrev pub with_stats : ℕ → Tables → Option Stats → Option Written
with_stats len w none = none
with_stats len w (some s) = some (record { ret = len; tables = record w { stats = some s } })

-- The writes of proc_mpu_opps_write, for three numbers of 32 bits.
unfoldable pub change_opp : ℕ → ℕ → ℕ → ℕ → ℕ → Tables → Option Written
change_opp max_opp len index rate vsel w =
    if ltb index 1 || ltb max_opp index
    then some (record { ret = efault; tables = w })
    else (if ltb index (length w.my_mpu_opps) && ltb (max_opp - index) (length w.freq_table)
        then with_stats len
            (record w {
              my_mpu_opps =
                  set w.my_mpu_opps index
                    (record { rate = rate; vsel = vsel; sr_adjust_vsel = vsel });
              freq_table =
                  set w.freq_table (max_opp - index)
                    (record (get_or w.freq_table (max_opp - index) no_entry) {
                      frequency = rate / 1000;
                    });
              policy = new_limits max_opp index (rate / 1000) w.policy;
            })
            (cpufreq_stats_freq_update (max_opp - index) (rate / 1000) w.stats)
        else none)

-- What sscanf has read: the three numbers, or fewer.
abbrev pub on_numbers : ℕ → ℕ → Tables → Option (ℕ × ℕ × ℕ) → Option Written
on_numbers max_opp len w none = some (record { ret = len; tables = w })
on_numbers max_opp len w (some (index, rate, vsel)) =
    change_opp max_opp len (u32 index) (u32 rate) (u32 vsel) w

-- The text that copy_from_user has copied, if it has.
abbrev pub on_copied :
    (List ℕ → Option (ℕ × ℕ × ℕ)) → ℕ → ℕ → Tables → Option (List ℕ) → Option Written
on_copied sscanf max_opp len w none = some (record { ret = efault; tables = w })
on_copied sscanf max_opp len w (some text) = on_numbers max_opp len w (sscanf text)

-- proc_mpu_opps_write; `buf_size` is PAGE_SIZE.
unfoldable pub proc_mpu_opps_write :
    (List ℕ → Option (ℕ × ℕ × ℕ)) → ℕ → ℕ → ℕ → Option (List ℕ) → Tables → Option Written
proc_mpu_opps_write sscanf buf_size max_opp len copied w =
    if len == 0 || leb buf_size len
    then some (record { ret = enospc; tables = w })
    else on_copied sscanf max_opp len w copied
