-- ===== src/Hooks/Tests.antt =====
-- Two hooks, one of them of a function that is not found.
use android_device_motorola.Prelude.{
  ℕ, ◌≡◌, ◌==◌, if◌then◌else◌, none, some, List, [], ◌∷◌, refl, arith, inr,
}
use android_device_motorola.Hooks.{HookInfo, find_target, branch_to, hook_init, hook_exit}
use android_device_motorola.Hooks.Branch.{branch_target, branch_to-leads}
use android_device_motorola.Hooks.Undo.{Once, hook_exit-hook_init}

abbrev lookup : ℕ → ℕ
lookup name = if name == 1 then 0xc0100000 else 0

abbrev unset : HookInfo
unset = record { asm0 = 0; jmp = 0; target_cont = 0; target = 0; target_name = none; newfunc = 0 }

abbrev hooks : List HookInfo
hooks =
    record unset { target_name = some 1; newfunc = 0xbf000100 }
    ∷ (record unset { target_name = some 2; newfunc = 0xbf000200 } ∷ (unset ∷ []))

hooks-Once : Once lookup hooks
unfolding find_target
hooks-Once a = ground arith

hook_exit-hook_init_example :
    (let (hooked, mem') = hook_init lookup hooks (λ a. 7) in hook_exit hooked mem' 0xc0100000) ≡ 7
hook_exit-hook_init_example = hook_exit-hook_init lookup hooks (λ a. 7) hooks-Once 0xc0100000

branch_to-leads_example : branch_target 0xc0100000 (branch_to 0xbf000100 0xc0100000) ≡ 0xbf000100
branch_to-leads_example =
    branch_to-leads 0xbf000100 0xc0100000 (omega arith) (omega arith) refl refl (inr (omega arith))
