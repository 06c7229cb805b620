-- ===== src/Proximity/Retries.antt =====
-- The attempts at the registers of the proximity sensor.
use android_device_motorola.Prelude.{
  ℕ, zero, suc, ◌+◌, ◌-◌, ◌≤◌, ◌≡◌, ◌≢◌, ◌⊎◌, inl, inr, true, false, none, some, ◌==◌, put, u8,
  refl, arith, Bool-cases, ap, ◌∙◌, subst,
}
use android_device_motorola.Proximity.{
  Header, Sensor, Answer, read_error, read_loop, defy_isl_read_reg, eio, write_loop,
  defy_isl_write_reg, isl_read_reg, isl_write_reg,
}

-- One of the attempts from `i` to `i + more` gives what is wanted, or none does.
abbrev pub Some : (ℕ → ℕ) → ℕ → ℕ → ℕ → Type 0
Some answer wanted more i = (j : ℕ) × (i ≤ j) × (j ≤ i + more) × (answer j ≡ wanted)

abbrev pub Never : (ℕ → ℕ) → ℕ → ℕ → ℕ → Type 0
Never answer wanted more i = (j : ℕ) → i ≤ j → j ≤ i + more → answer j ≢ wanted

-- What is left after an attempt that failed.
Some-later :
    (answer : ℕ → ℕ) (wanted more i : ℕ)
    → Some answer wanted more (i + 1)
    → Some answer wanted (suc more) i
Some-later answer wanted more i (j, a, b, e) = (j, omega arith, omega arith, e)

Never-later :
    (answer : ℕ → ℕ) (wanted more i : ℕ)
    → answer i ≢ wanted
    → Never answer wanted more (i + 1)
    → Never answer wanted (suc more) i
Never-later answer wanted more i d n j a b = elim (Bool-cases (i == j)) [
  | inl e ↦ let same : i ≡ j = ground arith in subst (λ k. answer k ≢ wanted) same d
  | inr e ↦ n j (ground arith) (omega arith)
]

differs : (a b : ℕ) → (a == b) ≡ false → a ≢ b
differs a b e p = ground arith

-- A read tries at most one time more than `more`. Where one of the attempts moves the byte, its
-- result is 0 with that byte; where none does, it is the error of the last one.
pub read_loop_lem :
    (answers : ℕ → Answer) (byte more i : ℕ)
    → let errors = λ (j : ℕ). read_error (answers j) in
      (Some errors 1 more i × (read_loop answers byte more i ≡ (0, some byte)))
      ⊎ (Never errors 1 more i × (read_loop answers byte more i ≡ (errors (i + more), none)))
unfolding read_loop
read_loop_lem answers byte zero i =
    let errors = λ (j : ℕ). read_error (answers j) in
    elim (Bool-cases (errors i == 1)) [
      | inl e ↦ inl ((i, omega arith, omega arith, ground arith), rw e refl)
      | inr e ↦
          let last : i + 0 ≡ i = omega arith in
          inr (
            λ j a b.
                let same : i ≡ j = omega arith in
                subst (λ k. errors k ≢ 1) same (differs (errors i) 1 e),
            rw (e, last) refl,
          )
    ]
read_loop_lem answers byte (suc more) i =
    let errors = λ (j : ℕ). read_error (answers j) in
    elim (Bool-cases (errors i == 1)) [
      | inl e ↦ inl ((i, omega arith, omega arith, ground arith), rw e refl)
      | inr e ↦ elim (read_loop_lem answers byte more (i + 1)) [
        | inl (s, r) ↦ inl (Some-later errors 1 more i s, rw e r)
        | inr (n, r) ↦ inr (
          Never-later errors 1 more i (differs (errors i) 1 e) n,
          rw e (r ∙ ap (λ k. (errors k, none)) (omega arith)),
        )
      ]
    ]

-- The same of a write, which fails with -EIO and changes one register where it works.
pub write_loop_lem :
    (h : Header) (answers : ℕ → ℕ) (regs : ℕ → ℕ) (reg value more i : ℕ)
    → let result = write_loop h answers regs reg value more i in
      (Some answers h.allowed_w_bytes more i × (result ≡ (0, put regs reg value)))
      ⊎ (Never answers h.allowed_w_bytes more i × (result ≡ (eio, regs)))
unfolding write_loop
write_loop_lem h answers regs reg value zero i =
    elim (Bool-cases (answers i == h.allowed_w_bytes)) [
      | inl e ↦ inl ((i, omega arith, omega arith, ground arith), rw e refl)
      | inr e ↦ inr (
        λ j a b.
            let same : i ≡ j = omega arith in
            subst (λ k. answers k ≢ h.allowed_w_bytes) same
              (differs (answers i) h.allowed_w_bytes e),
        rw e refl,
      )
    ]
write_loop_lem h answers regs reg value (suc more) i =
    elim (Bool-cases (answers i == h.allowed_w_bytes)) [
      | inl e ↦ inl ((i, omega arith, omega arith, ground arith), rw e refl)
      | inr e ↦ elim (write_loop_lem h answers regs reg value more (i + 1)) [
        | inl (s, r) ↦ inl (Some-later answers h.allowed_w_bytes more i s, rw e r)
        | inr (n, r) ↦ inr (
          Never-later answers h.allowed_w_bytes more i (differs (answers i) h.allowed_w_bytes e) n,
          rw e r,
        )
      ]
    ]

-- A read or a write works: some attempt succeeds before the retries are used up.
abbrev pub ReadWorks : Header → (ℕ → Answer) → Type 0
ReadWorks h answers = Some (λ j. read_error (answers j)) 1 (h.max_rw_retries - 1) 0

abbrev pub WriteWorks : Header → (ℕ → ℕ) → Type 0
WriteWorks h answers = Some answers h.allowed_w_bytes (h.max_rw_retries - 1) 0

pub isl_read_reg-works :
    (h : Header) (answers : ℕ → Answer) (s : Sensor) (reg old : ℕ)
    → s.misc_data ≡ true
    → ReadWorks h answers
    → isl_read_reg h answers s reg old ≡ (0, s.regs reg)
unfolding isl_read_reg defy_isl_read_reg
isl_read_reg-works h answers s reg old m (j, a, b, e) =
    elim (read_loop_lem answers (s.regs reg) (h.max_rw_retries - 1) 0) [
      | inl (_, r) ↦ rw (m, r) refl
      | inr (n, _) ↦ absurd (n j a b e)
    ]

pub isl_write_reg-works :
    (h : Header) (answers : ℕ → ℕ) (s : Sensor) (reg val : ℕ)
    → s.misc_data ≡ true
    → WriteWorks h answers
    → isl_write_reg h answers s reg val ≡ (0, record s { regs = put s.regs reg (u8 val) })
unfolding isl_write_reg defy_isl_write_reg
isl_write_reg-works h answers s reg val m (j, a, b, e) =
    elim (write_loop_lem h answers s.regs reg (u8 val) (h.max_rw_retries - 1) 0) [
      | inl (_, r) ↦ rw (m, r) refl
      | inr (n, _) ↦ absurd (n j a b e)
    ]

pub isl_read_reg-fails :
    (h : Header) (answers : ℕ → Answer) (s : Sensor) (reg old : ℕ)
    → s.misc_data ≡ true
    → Never (λ j. read_error (answers j)) 1 (h.max_rw_retries - 1) 0
    → read_error (answers (h.max_rw_retries - 1)) ≢ 0
    → isl_read_reg h answers s reg old ≡ (read_error (answers (h.max_rw_retries - 1)), old)
unfolding isl_read_reg defy_isl_read_reg
isl_read_reg-fails h answers s reg old m n d =
    elim (read_loop_lem answers (s.regs reg) (h.max_rw_retries - 1) 0) [
      | inl ((j, a, b, e), _) ↦ absurd (n j a b e)
      | inr (_, r) ↦
          let last : 0 + (h.max_rw_retries - 1) ≡ h.max_rw_retries - 1 = omega arith in
          let failed : (read_error (answers (h.max_rw_retries - 1)) == 0) ≡ false = ground arith in
          rw (m, r, last, failed) refl
    ]
