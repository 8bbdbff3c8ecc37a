-- ===== src/Mem/Stack/Fresh.antt =====
-- A fresh stack: where it lies, and that the address that is given cannot be given back.
use fzkernel.Base.{
  ℕ, suc, ◌+◌, ◌-◌, ◌%◌, ◌^◌, ◌≤◌, ◌<◌, ◌≡◌, ◌≢◌, refl, ap, ◌∙◌, inr, arith, [], ne→==, u64,
  u64_mod,
}
use fzkernel.Base.Outcome.{Outcome, done, panic}
use fzkernel.Mem.Address.{virt_new, virt_add, virt_sub, virt_is_aligned_with}
use fzkernel.Mem.Address.Canonical.{IsCanonical, virt_new-canonical}
use fzkernel.Mem.Stack.{
  VirtualKernelStackAllocator, kernel_stack_size, fresh_stack, alloc_from, alloc_stack, free_stack,
}

-- An address of the upper half, with room for a stack above it.
pub record IsRoomy (a : ℕ) : Type 0 where
  pub upper : u64_mod - 2 ^ 47 ≤ a
  pub room : a + kernel_stack_size < u64_mod

virt_new-upper : (a : ℕ) → u64_mod - 2 ^ 47 ≤ a → a < u64_mod → virt_new a ≡ a
virt_new-upper a low high = virt_new-canonical a high (unfold IsCanonical in inr (omega arith))

top : (a : ℕ) → IsRoomy a → virt_add a kernel_stack_size ≡ a + kernel_stack_size
top a r =
    let small : u64 (a + kernel_stack_size) ≡ a + kernel_stack_size = omega (arith, r.room) in
    unfold virt_add in
    ap virt_new small ∙ virt_new-upper (a + kernel_stack_size) (omega (arith, r.upper)) r.room

last_byte : (a : ℕ) → IsRoomy a → virt_sub (a + kernel_stack_size) 1 ≡ a + kernel_stack_size - 1
last_byte a r =
    let small : u64 (a + kernel_stack_size + (u64_mod - 1)) ≡ a + kernel_stack_size - 1 =
      omega (arith, r.room) in
    unfold virt_sub in
    ap virt_new small
    ∙ virt_new-upper (a + kernel_stack_size - 1) (omega (arith, r.upper)) (omega (arith, r.room))

free_stack-panic :
    (s : VirtualKernelStackAllocator) (stack : ℕ) → stack % 4096 ≢ 0 → free_stack s stack ≡ panic
unfolding free_stack virt_is_aligned_with
free_stack-panic s stack odd = rw (ne→== (stack % 4096) 0 odd)

-- What a call without free stacks comes to.
pub record IsFresh {T : Type 0} (s : VirtualKernelStackAllocator) (after : T)
    (o : Outcome (ℕ × VirtualKernelStackAllocator × T)) : Type 0 where
  pub stack : ℕ
  pub state : VirtualKernelStackAllocator
  pub returns : o ≡ done (stack, state, after)
  pub last_of_stack : stack ≡ s.running_ptr + kernel_stack_size - 1
  pub next_behind : state.running_ptr ≡ suc stack
  pub not_returned : free_stack state stack ≡ panic

-- Without free stacks, at a page address of the upper half with room above it, and with frames and
-- a mapping for it: `alloc_stack` gives the last byte of the stack that starts there, the next fresh
-- stack starts at the byte behind it, and `free_stack` panics on the address that was given.
pub alloc_stack-IsFresh :
    {T : Type 0} (support : ℕ → T → Outcome T) (s : VirtualKernelStackAllocator) (t after : T)
    → s.free_stacks ≡ []
    → IsRoomy s.running_ptr
    → s.running_ptr % 4096 ≡ 0
    → support s.running_ptr t ≡ done after
    → IsFresh s after (alloc_stack support s t)
alloc_stack-IsFresh support s t after none_free r page supported =
    let a : ℕ = s.running_ptr in
    record {
      stack = a + kernel_stack_size - 1;
      state = record s { running_ptr = a + kernel_stack_size };
      returns =
          unfold alloc_stack alloc_from fresh_stack in
          rw (none_free, supported, top a r, last_byte a r);
      last_of_stack = refl;
      next_behind = omega arith;
      not_returned =
          free_stack-panic (record s { running_ptr = a + kernel_stack_size })
            (a + kernel_stack_size - 1) (λ z. absurd (omega (arith, z, page, r.upper)));
    }
