-- ===== src/Mem/Stack/Examples.antt =====
-- The first stack of the kernel.
use fzkernel.Base.{ℕ, ◌+◌, refl, arith, []}
use fzkernel.Base.Outcome.{Outcome, done}
use fzkernel.Mem.Stack.{VirtualKernelStackAllocator, alloc_stack}
use fzkernel.Mem.Stack.Fresh.{IsFresh, alloc_stack-IsFresh}

abbrev stacks : VirtualKernelStackAllocator
stacks = record { running_ptr = 18446620928407240704; free_stacks = [] }

abbrev count_pages : ℕ → ℕ → Outcome ℕ
count_pages stack pages = done (pages + 2048)

alloc_stack-IsFresh_example : IsFresh stacks 2048 (alloc_stack count_pages stacks 0)
alloc_stack-IsFresh_example =
    alloc_stack-IsFresh count_pages stacks 0 2048 refl
      (record { upper = omega arith; room = omega arith }) refl refl
