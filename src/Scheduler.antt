-- ===== src/Scheduler.antt =====
-- The scheduler: src/fzboot/scheduler (the queue, its round-robin strategy, tasks, and the switch
-- that the timer interrupt makes).
--
-- The map of tasks is a function from task identifiers. The instruction that returns from the
-- interrupt is the frame it returns to; locks, which are free here, are not modelled.
pub mod Rotation
pub mod Switch
mod Examples
use fzkernel.Base.{
  ℕ, suc, Bool, true, false, Option, none, some, List, [], ◌∷◌, ◌++◌, length, ◌==◌, if◌then◌else◌,
  get_elem?, ltb, ◌+◌, ◌-◌, ◌/◌, zero, ◌*◌,
}
use fzkernel.Base.Outcome.{Outcome, done, panic, hang}

pub data TaskState : Type 0 where
  running : TaskState
  waiting : TaskState
  uninitialized : ℕ → TaskState

-- The registers are one value of a type `G`.
pub record Task (G : Type 0) : Type 0 where
  pub id : ℕ
  pub pid : ℕ
  pub tid : ℕ
  pub state : TaskState
  pub kernel_stack : ℕ
  pub stack : ℕ
  pub rip : ℕ
  pub gpr : G

pub record InterruptStackFrame (G : Type 0) : Type 0 where
  pub rip : ℕ
  pub cs : ℕ
  pub rflags : ℕ
  pub stack_ptr : ℕ
  pub stack_segment : ℕ
  pub registers : G

pub record System (G : Type 0) : Type 0 where
  pub task_queue : List ℕ
  pub tasks : ℕ → Option (Task G)
  pub current_task_id : ℕ
  pub current_process_id : ℕ
  pub current_thread_id : ℕ

-- `RoundRobinScheduling`: the queue of task identifiers.
pub insert_task : List ℕ → ℕ → List ℕ
insert_task task_queue task_id = task_queue ++ (task_id ∷ [])

pub next_task : List ℕ → Option ℕ × List ℕ
unfolding insert_task
next_task [] = (none, [])
next_task (task_id ∷ task_queue) = (some task_id, insert_task task_queue task_id)

abbrev pub size : List ℕ → ℕ
size task_queue = length task_queue

pub start_running : TaskState → TaskState
start_running (uninitialized entry) = uninitialized entry
start_running _ = running

module _ {G : Type 0} where
  abbrev pub put_task : (ℕ → Option (Task G)) → ℕ → Task G → ℕ → Option (Task G)
  put_task tasks id task other = if id == other then some task else tasks other

  -- `schedule_sys_task`
  pub schedule_sys_task : System G → ℕ → System G
  unfolding insert_task
  schedule_sys_task s task_id = record s { task_queue = insert_task s.task_queue task_id }

  -- The context of the task that runs is kept in the frame of the interrupt.
  pub save :
      Option (Task G) → ℕ → InterruptStackFrame G → (ℕ → Option (Task G)) → ℕ → Option (Task G)
  save none id frame tasks = tasks
  save (some task) id frame tasks = put_task tasks id (record task {
    state = waiting;
    gpr = frame.registers;
    rip = frame.rip;
    stack = frame.stack_ptr;
  })

  -- The frame that the interrupt returns to, and the system then.
  pub resume :
      System G
      → InterruptStackFrame G
      → (ℕ → Option (Task G))
      → ℕ
      → Option (Task G)
      → Outcome (Option (InterruptStackFrame G) × System G)
  unfolding start_running
  resume s frame tasks next_id none = panic
  resume s frame tasks next_id (some next) = done (
    some (record {
      rip = next.rip;
      cs = frame.cs;
      rflags = frame.rflags;
      stack_ptr = next.stack;
      stack_segment = frame.stack_segment;
      registers = next.gpr;
    }),
    record s {
      tasks = put_task tasks next_id (record next { state = start_running next.state });
      current_task_id = next_id;
      current_process_id = next.pid;
      current_thread_id = next.tid;
    },
  )

  -- The rest of `irq_schedule_next_task`, when a task comes next.
  pub switch_to :
      System G → InterruptStackFrame G → ℕ → Outcome (Option (InterruptStackFrame G) × System G)
  switch_to s frame next_id =
      if s.current_task_id == next_id
      then done (none, s)
      else (let saved = save (s.tasks s.current_task_id) s.current_task_id frame s.tasks in
          resume s frame saved next_id (saved next_id))

  -- No frame where the interrupt returns to the task that it came from.
  pub irq_schedule_next_task :
      System G → InterruptStackFrame G → Outcome (Option (InterruptStackFrame G) × System G)
  irq_schedule_next_task s frame =
      let queued = next_task s.task_queue in
      let turned = record s { task_queue = queued.1 } in
      elim queued.0 [ none ↦ done (none, turned) | some next_id ↦ switch_to turned frame next_id ]
