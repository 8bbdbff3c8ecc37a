-- ===== src/Scheduler/Examples.antt =====
-- Two tasks that take turns.
use fzkernel.Base.{ℕ, ◌≡◌, refl, arith, none, some, [], ◌∷◌, ◌==◌, if◌then◌else◌}
use fzkernel.Scheduler.{Task, running, uninitialized, InterruptStackFrame, System}
use fzkernel.Scheduler.Rotation.{turns, each, next_task-turns}
use fzkernel.Scheduler.Switch.{Returns, switch_to-Returns}

abbrev first : Task ℕ
first = record {
  id = 0;
  pid = 0;
  tid = 0;
  state = running;
  kernel_stack = 0;
  stack = 0;
  rip = 0;
  gpr = 0;
}

abbrev second : Task ℕ
second = record {
  id = 1;
  pid = 0;
  tid = 1;
  state = uninitialized 64;
  kernel_stack = 0;
  stack = 8191;
  rip = 32;
  gpr = 0;
}

abbrev two : System ℕ
two = record {
  task_queue = 1 ∷ 0 ∷ [];
  tasks = λ id. if id == 0 then some first else if id == 1 then some second else none;
  current_task_id = 0;
  current_process_id = 0;
  current_thread_id = 0;
}

abbrev frame_at : ℕ → InterruptStackFrame ℕ
frame_at rip = record {
  rip = rip;
  cs = 8;
  rflags = 2;
  stack_ptr = 4096;
  stack_segment = 16;
  registers = 7;
}

next_task-turns_example : turns 2 (1 ∷ 0 ∷ []) ≡ (each (1 ∷ 0 ∷ []), 1 ∷ 0 ∷ [])
next_task-turns_example = next_task-turns (1 ∷ 0 ∷ [])

switch_to-Returns_example : Returns two (frame_at 100) (frame_at 200) 1 second
switch_to-Returns_example =
    switch_to-Returns two (frame_at 100) (frame_at 200) 1 first second
      (λ e. absurd (omega (arith, e))) refl refl
