-- ===== src/Hooks.antt =====
-- modules/backlight/hook.c: replacing the first instruction of a kernel function by a branch.
--
-- The memory holds a word at each address. What kallsyms finds for a name is an argument, 0 where it
-- finds nothing. Addresses and words have 32 bits.
pub mod Branch
pub mod Undo
mod Tests
use android_device_motorola.Prelude.{
  ℕ, ◌+◌, ◌/◌, ◌^◌, ◌-◌, Option, none, some, List, [], ◌∷◌, ◌==◌, if◌then◌else◌, put, u32, sub32,
  bit_and,
}

-- `struct hook_info`; a null pointer is `none`, or 0 for an address.
pub record HookInfo : Type 0 where
  pub asm0 : ℕ
  pub jmp : ℕ
  pub target_cont : ℕ
  pub target : ℕ
  pub target_name : Option ℕ
  pub newfunc : ℕ

abbrev pub Memory : Type 0
Memory = ℕ → ℕ

-- The target that hook uses, and keeps.
unfoldable pub find_target : (ℕ → ℕ) → HookInfo → ℕ
find_target lookup hi =
    if hi.target == 0 then elim hi.target_name [ none ↦ 0 | some name ↦ lookup name ] else hi.target

-- The branch instruction that is written at `target`.
unfoldable pub branch_to : ℕ → ℕ → ℕ
branch_to newfunc target = 0xea000000 + bit_and 0xffffff (sub32 newfunc (u32 (target + 8)) / 4)

-- The result -1.
abbrev pub not_found : ℕ
not_found = 2 ^ 32 - 1

-- hook: the result, the hook, and the memory. A pointer to a word that is one further is 4 bytes
-- further.
unfoldable pub hook : (ℕ → ℕ) → HookInfo → Memory → ℕ × HookInfo × Memory
hook lookup hi mem =
    let target = find_target lookup hi in
    if target == 0 then (not_found, record hi { target = 0 }, mem) else (
      0,
      record hi {
        target = target;
        asm0 = mem target;
        jmp = 0xe51ff004;
        target_cont = u32 (target + 4);
      },
      put mem target (branch_to hi.newfunc target),
    )

unfoldable pub unhook : HookInfo → Memory → Memory
unhook hi mem = if hi.target == 0 then mem else put mem hi.target hi.asm0

-- hook_init over `g_hi`, which a hook with `newfunc` 0 ends.
unfoldable pub hook_init : (ℕ → ℕ) → List HookInfo → Memory → List HookInfo × Memory
hook_init lookup [] mem = ([], mem)
hook_init lookup (hi ∷ rest) mem =
    let (ret, hi', mem') = hook lookup hi mem in
    let (rest', mem'') = hook_init lookup rest mem' in
    if hi.newfunc == 0 then (hi ∷ rest, mem) else (hi' ∷ rest', mem'')

unfoldable pub hook_exit : List HookInfo → Memory → Memory
hook_exit [] mem = mem
hook_exit (hi ∷ rest) mem =
    let undone = hook_exit rest (unhook hi mem) in if hi.newfunc == 0 then mem else undone
