-- ===== src/Logcap/Entries.antt =====
-- The entries of /proc that the log creates, and their removal with the module.
use android_device_motorola.Prelude.{
  ℕ, zero, suc, ◌+◌, ◌≤◌, ◌<◌, ◌≡◌, ◌≢◌, refl, Bool, true, false, Option, none, some, List, [], ◌∷◌,
  ◌++◌, ltb, ◌==◌, if◌then◌else◌, put, arith, ap, ◌∙◌, Bool-cases, inl, inr, subst, ==_iff, ==_refl,
}
use android_device_motorola.Logcap.{
  max_regs, Entry, root, rd_count_file, wr_count_file, map_file, log_enable_file, reg_dir, reg_val,
  Reg, Logcap, Kernel, mask_entry, value_entry, map_rep, needs_entry, map_if_needed, change_reg,
  set_value, add_mask, cpcap_regacc_read, cpcap_regacc_write, proc_log_enable_write, logcap_init,
  unused, cleanup, cleanup_from, logcap_exit,
}
use android_device_motorola.Logcap.Record.{
  and_then, register, InArray, Access, reads, writes, enables, access, accesses,
  accesses-AllRecorded,
}

-- The entries of a list, weighed. Two lists hold the same entries as often if they weigh the same
-- by every weight.
abbrev pub weight : (Entry → ℕ) → List Entry → ℕ
weight w [] = 0
weight w (e ∷ es) = w e + weight w es

module _ (w : Entry → ℕ) where
  -- The entries that exist for a register.
  abbrev of_reg : ℕ → Reg → ℕ
  of_reg i r =
      if r.reg == 0
      then 0
      else (weight w (value_entry r.proc_value i)
          + weight w (mask_entry r.proc_mask i)
          + w (reg_dir i))

  held : ℕ → ℕ → (ℕ → Reg) → ℕ
  held zero r f = 0
  held (suc more) r f = of_reg r (f r) + held more (r + 1) f

  held-unused : (more r : ℕ) → held more r (λ i. unused) ≡ 0
  unfolding held
  held-unused zero r = refl
  held-unused (suc more) r = omega (arith, held-unused more (r + 1))

  held-outside :
      (more r i : ℕ) (f : ℕ → Reg) (x : Reg) → i < r → held more r (put f i x) ≡ held more r f
  unfolding held
  held-outside zero r i f x h = refl
  held-outside (suc more) r i f x h =
      let other : (r == i) ≡ false = ground arith in
      rw other (ap (λ n. of_reg r (f r) + n) (held-outside more (r + 1) i f x (omega arith)))

  held-put :
      (more r i : ℕ) (f : ℕ → Reg) (x : Reg)
      → r ≤ i
      → i < r + more
      → held more r (put f i x) + of_reg i (f i) ≡ held more r f + of_reg i x
  unfolding held
  held-put zero r i f x h k = absurd (omega arith)
  held-put (suc more) r i f x h k = elim (Bool-cases (r == i)) [
    | inl here ↦
        subst
          (λ j. held (suc more) r (put f j x) + of_reg j (f j) ≡ held (suc more) r f + of_reg j x)
          ((==_iff r i).0 here)
          (rw (==_refl r) (omega (arith, held-outside more (r + 1) r f x (omega arith))))
    | inr there ↦ rw there (omega (arith, held-put more (r + 1) i f x (ground arith) (omega arith)))
  ]

  -- What is created and not removed are the directory of the log with its files, and the entries
  -- of the registers of the array.
  abbrev own : List Entry
  own = log_enable_file ∷ map_file ∷ wr_count_file ∷ rd_count_file ∷ root ∷ []

  abbrev Balanced : Logcap → Type 0
  Balanced s = weight w s.created ≡ weight w s.removed + weight w own + held max_regs 0 s.store

  -- A change of a register that keeps its entries keeps them all.
  held-same :
      (f : ℕ → Reg) (i : ℕ) (x : Reg)
      → i < max_regs
      → of_reg i (f i) ≡ of_reg i x
      → held max_regs 0 (put f i x) ≡ held max_regs 0 f
  held-same f i x h e = omega (arith, held-put max_regs 0 i f x (omega arith) h, e)

  weight-mask :
      (b : Bool) (r : ℕ) (es : List Entry)
      → weight w (mask_entry b r ++ es) ≡ weight w (mask_entry b r) + weight w es
  weight-mask true r es = omega arith
  weight-mask false r es = omega arith

  weight-value :
      (b : Bool) (r : ℕ) (es : List Entry)
      → weight w (value_entry b r ++ es) ≡ weight w (value_entry b r) + weight w es
  weight-value true r es = omega arith
  weight-value false r es = omega arith

  abbrev AllBalanced : Option Logcap → Type 0
  AllBalanced none = Unit
  AllBalanced (some s) = Balanced s

  abbrev ResultBalanced : Option (ℕ × Logcap) → Type 0
  ResultBalanced none = Unit
  ResultBalanced (some (ret, s)) = Balanced s

  map_rep-AllBalanced :
      (k : Kernel) (reg : ℕ) (s : Logcap)
      → reg < max_regs
      → reg ≢ 0
      → (s.store reg).reg ≡ 0
      → Balanced s
      → AllBalanced (map_rep k reg s)
  unfolding map_rep
  map_rep-AllBalanced k reg s l n fresh b = elim (Bool-cases (k.makes_value reg)) [
    | inl made ↦
        let x : Reg = record (s.store reg) {
          reg = reg;
          proc_mask = k.makes_mask reg;
          proc_value = true;
        } in
        let old : of_reg reg (s.store reg) ≡ 0 = rw fresh refl in
        let other : (reg == 0) ≡ false = ground arith in
        let new : of_reg reg x
            ≡ w (reg_val reg) + 0 + weight w (mask_entry (k.makes_mask reg) reg) + w (reg_dir reg) =
          rw other refl in
        rw made (
          omega (
            arith,
            b,
            old,
            new,
            held-put max_regs 0 reg s.store x (omega arith) l,
            weight-mask (k.makes_mask reg) reg (reg_dir reg ∷ s.created),
          ))
    | inr failed ↦ rw failed tt
  ]

  needs_entry-fresh :
      (s : Logcap) (reg : ℕ) → needs_entry s reg ≡ true → (reg ≢ 0) × ((s.store reg).reg ≡ 0)
  unfolding needs_entry
  needs_entry-fresh s reg h = ground arith

  map_if_needed-AllBalanced :
      (k : Kernel) (reg : ℕ) (s : Logcap)
      → reg < max_regs
      → Balanced s
      → AllBalanced (map_if_needed k reg s)
  unfolding map_if_needed
  map_if_needed-AllBalanced k reg s l b = elim (Bool-cases (needs_entry s reg)) [
    | inl new ↦
        let (n, fresh) = needs_entry-fresh s reg new in
        rw new (map_rep-AllBalanced k reg s l n fresh b)
    | inr old ↦ rw old b
  ]

  change_reg-ResultBalanced :
      (f : Reg → Reg) (reg ret : ℕ) (o : Option Logcap)
      → ((r : Reg) → of_reg reg r ≡ of_reg reg (f r))
      → reg < max_regs
      → AllBalanced o
      → ResultBalanced (change_reg f reg ret o)
  change_reg-ResultBalanced f reg ret none keeps l b = tt
  change_reg-ResultBalanced f reg ret (some s) keeps l b =
      let other : (reg == max_regs) ≡ false = ground arith in
      rw other (omega (arith, b, held-same s.store reg (f (s.store reg)) l (keeps (s.store reg))))

  hooked-ResultBalanced :
      (k : Kernel) (f : Reg → Reg) (reg ret : ℕ) (s : Logcap)
      → ((r : Reg) → of_reg reg r ≡ of_reg reg (f r))
      → reg ≢ max_regs
      → Balanced s
      → ResultBalanced
          (if ltb max_regs reg then some (ret, s) else change_reg f reg ret (map_if_needed k reg s))
  hooked-ResultBalanced k f reg ret s keeps n b = elim (Bool-cases (ltb max_regs reg)) [
    | inl beyond ↦ rw beyond b
    | inr within ↦
        let l : reg < max_regs = ground arith in
        rw within (
          change_reg-ResultBalanced f reg ret (map_if_needed k reg s) keeps l
            (map_if_needed-AllBalanced k reg s l b))
  ]

  access-ResultBalanced :
      (k : Kernel) (a : Access) (s : Logcap)
      → register a ≢ max_regs
      → Balanced s
      → ResultBalanced (access k a s)
  unfolding cpcap_regacc_read cpcap_regacc_write proc_log_enable_write
  access-ResultBalanced k (reads reg val ret) s n b =
      hooked-ResultBalanced k (set_value val) reg ret _ (λ r. refl) n b
  access-ResultBalanced k (writes reg mask ret) s n b =
      hooked-ResultBalanced k (add_mask mask) reg ret _ (λ r. refl) n b
  access-ResultBalanced k (enables i) s n b = ground (arith, b)

  and_then-AllBalanced :
      (f : Logcap → Option Logcap) (o : Option (ℕ × Logcap))
      → ((s : Logcap) → Balanced s → AllBalanced (f s))
      → ResultBalanced o
      → AllBalanced (and_then f o)
  and_then-AllBalanced f none keeps b = tt
  and_then-AllBalanced f (some (ret, s)) keeps b = keeps s b

  accesses-AllBalanced :
      (k : Kernel) (l : List Access) (s : Logcap)
      → InArray l
      → Balanced s
      → AllBalanced (accesses k l s)
  unfolding accesses
  accesses-AllBalanced k [] s h b = b
  accesses-AllBalanced k (a ∷ l) s h b =
      and_then-AllBalanced (accesses k l) (access k a s)
        (λ s' b'. accesses-AllBalanced k l s' h.1 b') (access-ResultBalanced k a s h.0 b)

  -- The cleanup of a register removes its entries, and touches no other register.
  cleanup-held :
      (more r : ℕ) (s : Logcap) → held more (r + 1) (cleanup r s).store ≡ held more (r + 1) s.store
  unfolding cleanup
  cleanup-held more r s = elim (Bool-cases ((s.store r).reg == 0)) [
    | inl free ↦ rw free refl
    | inr used ↦ rw used (held-outside more (r + 1) r s.store _ (omega arith))
  ]

  cleanup-removed :
      (r : ℕ) (s : Logcap)
      → (weight w (cleanup r s).removed ≡ weight w s.removed + of_reg r (s.store r))
        × ((cleanup r s).created ≡ s.created)
  unfolding cleanup
  cleanup-removed r s = elim (Bool-cases ((s.store r).reg == 0)) [
    | inl free ↦ rw free (omega arith, refl)
    | inr used ↦
        let v =
          weight-value (s.store r).proc_value r (mask_entry (s.store r).proc_mask r ++ s.removed) in
        let m = weight-mask (s.store r).proc_mask r s.removed in rw used (omega (arith, v, m), refl)
  ]

  cleanup_from-removed :
      (more r : ℕ) (s : Logcap)
      → (weight w (cleanup_from more r s).removed ≡ weight w s.removed + held more r s.store)
        × ((cleanup_from more r s).created ≡ s.created)
  unfolding cleanup_from held
  cleanup_from-removed zero r s = (omega arith, refl)
  cleanup_from-removed (suc more) r s =
      let (n, c) = cleanup_from-removed more (r + 1) (cleanup r s) in
      let (n', c') = cleanup-removed r s in (omega (arith, n, n', cleanup-held more r s), c ∙ c')

  logcap_init-Balanced : (e mn mx : ℕ) → Balanced (logcap_init e mn mx)
  unfolding logcap_init held
  logcap_init-Balanced e mn mx = omega (arith, held-unused max_regs 0)

  logcap_exit-weight :
      (s : Logcap)
      → Balanced s
      → weight w (logcap_exit s).created ≡ weight w (logcap_exit s).removed
  unfolding logcap_exit
  logcap_exit-weight s b =
      let (n, c) = cleanup_from-removed max_regs 0 (record s {
        hooked = false;
        removed = map_file ∷ log_enable_file ∷ wr_count_file ∷ rd_count_file ∷ s.removed;
      }) in
      rw c (omega (arith, n, b))

-- The entries that were created and those that were removed are the same, each as often.
abbrev pub SameEntries : List Entry → List Entry → Type 0
SameEntries created removed = (w : Entry → ℕ) → weight w created ≡ weight w removed

-- With all entries named "val" created, a start with any parameters, then accesses of which none
-- is to register 256 and writes to log_enable in any order, and the removal of the module meet no
-- fault, and every entry of /proc that was created is removed, as often as it was created.
pub logcap_exit-SameEntries :
    (k : Kernel) (log_enable log_reg_min log_reg_max : ℕ) (l : List Access)
    → ((r : ℕ) → k.makes_value r ≡ true)
    → InArray l
    → (s : Logcap) × (accesses k l (logcap_init log_enable log_reg_min log_reg_max) ≡ some s)
      × SameEntries (logcap_exit s).created (logcap_exit s).removed
logcap_exit-SameEntries k e mn mx l makes h =
    let (s, runs, _) = accesses-AllRecorded k makes l (logcap_init e mn mx) h in
    (
      s,
      runs,
      λ w. logcap_exit-weight w s (
          subst (AllBalanced w) runs
            (accesses-AllBalanced w k l (logcap_init e mn mx) h (logcap_init-Balanced w e mn mx))),
    )
