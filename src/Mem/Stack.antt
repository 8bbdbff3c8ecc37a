-- ===== src/Mem/Stack.antt =====
-- The stacks of kernel threads: `VirtualKernelStackAllocator` of src/mem/stack.rs.
--
-- `support` stands for the frames of a fresh stack and their mapping, on a state of type `T`: it
-- panics where no frame is left.
pub mod Fresh
mod Examples
use fzkernel.Base.{ℕ, ◌+◌, ◌%◌, Bool, true, false, List, [], ◌∷◌, ◌==◌, if◌then◌else◌}
use fzkernel.Base.Outcome.{Outcome, done, panic, ◌>>=◌}
use fzkernel.Mem.Address.{virt_add, virt_sub, virt_is_aligned_with, align_4kb}

abbrev pub kernel_stack_size : ℕ
kernel_stack_size = 8388608

-- The last of the free stacks comes first.
pub record VirtualKernelStackAllocator : Type 0 where
  pub running_ptr : ℕ
  pub free_stacks : List ℕ

pub new : ℕ → VirtualKernelStackAllocator
new base = record { running_ptr = base; free_stacks = [] }

-- The branch of a fresh stack.
pub fresh_stack :
    {T : Type 0}
    → (ℕ → T → Outcome T)
    → VirtualKernelStackAllocator
    → T
    → Outcome (ℕ × VirtualKernelStackAllocator × T)
fresh_stack support s t = do
  t' ← support s.running_ptr t
  done (
    virt_sub (virt_add s.running_ptr kernel_stack_size) 1,
    record s { running_ptr = virt_add s.running_ptr kernel_stack_size },
    t',
  )

pub alloc_from :
    {T : Type 0}
    → List ℕ
    → (ℕ → T → Outcome T)
    → VirtualKernelStackAllocator
    → T
    → Outcome (ℕ × VirtualKernelStackAllocator × T)
unfolding fresh_stack
alloc_from [] support s t = fresh_stack support s t
alloc_from (stack ∷ stacks) support s t =
    done (virt_add stack kernel_stack_size, record s { free_stacks = stacks }, t)

pub alloc_stack :
    {T : Type 0}
    → (ℕ → T → Outcome T)
    → VirtualKernelStackAllocator
    → T
    → Outcome (ℕ × VirtualKernelStackAllocator × T)
unfolding alloc_from
alloc_stack support s t = alloc_from s.free_stacks support s t

pub free_stack : VirtualKernelStackAllocator → ℕ → Outcome VirtualKernelStackAllocator
free_stack s stack =
    if virt_is_aligned_with stack align_4kb
    then done (record s { free_stacks = stack ∷ s.free_stacks })
    else panic
