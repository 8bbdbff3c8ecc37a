-- ===== src/Scheduler/Switch.antt =====
-- The switch of the timer interrupt: a context comes back as it was saved, and one task runs.
use fzkernel.Base.{ℕ, ◌≡◌, ◌≢◌, refl, sym, ◌∙◌, Option, some, eq→==, ne→==}
use fzkernel.Base.Outcome.{done}
use fzkernel.Scheduler.{
  Task, waiting, InterruptStackFrame, System, put_task, save, start_running, resume, switch_to,
}

module _ {G : Type 0} where
  -- The task with the context of the frame.
  abbrev pub saved : Task G → InterruptStackFrame G → Task G
  saved task frame = record task {
    state = waiting;
    gpr = frame.registers;
    rip = frame.rip;
    stack = frame.stack_ptr;
  }

  abbrev pub started : Task G → Task G
  started task = record task { state = start_running task.state }

  abbrev pub frame_of : Task G → InterruptStackFrame G → InterruptStackFrame G
  frame_of task frame = record {
    rip = task.rip;
    cs = frame.cs;
    rflags = frame.rflags;
    stack_ptr = task.stack;
    stack_segment = frame.stack_segment;
    registers = task.gpr;
  }

  abbrev pub switched : System G → InterruptStackFrame G → ℕ → Task G → Task G → System G
  switched s frame next_id a b = record s {
    tasks = put_task (put_task s.tasks s.current_task_id (saved a frame)) next_id (started b);
    current_task_id = next_id;
    current_process_id = b.pid;
    current_thread_id = b.tid;
  }

  put_task-other :
      (tasks : ℕ → Option (Task G)) (id : ℕ) (t : Task G) (other : ℕ)
      → id ≢ other
      → put_task tasks id t other ≡ tasks other
  put_task-other tasks id t other ne = rw (ne→== id other ne)

  put_task-here :
      (tasks : ℕ → Option (Task G)) (id : ℕ) (t : Task G) → put_task tasks id t id ≡ some t
  put_task-here tasks id t = rw (eq→== id id refl)

  switch_to-switched :
      (s : System G) (frame : InterruptStackFrame G) (next_id : ℕ) (a b : Task G)
      → s.current_task_id ≢ next_id
      → s.tasks s.current_task_id ≡ some a
      → s.tasks next_id ≡ some b
      → switch_to s frame next_id ≡ done (some (frame_of b frame), switched s frame next_id a b)
  unfolding switch_to resume save
  switch_to-switched s frame next_id a b ne has_a has_b =
      let apart = ne→== s.current_task_id next_id ne in rw (apart, has_a, apart, has_b)

  -- Two switches, from the task that runs to another and back.
  pub record Returns (s : System G) (first second : InterruptStackFrame G) (next_id : ℕ)
      (b : Task G) : Type 0 where
    pub middle : System G
    pub end : System G
    pub resumed : InterruptStackFrame G
    pub out : switch_to s first next_id ≡ done (some (frame_of b first), middle)
    pub back : switch_to middle second s.current_task_id ≡ done (some resumed, end)
    pub same_rip : resumed.rip ≡ first.rip
    pub same_stack : resumed.stack_ptr ≡ first.stack_ptr
    pub same_registers : resumed.registers ≡ first.registers
    pub same_task : end.current_task_id ≡ s.current_task_id
    pub kept : end.tasks next_id ≡ some (saved (started b) second)
    pub others : (id : ℕ) → s.current_task_id ≢ id → next_id ≢ id → end.tasks id ≡ s.tasks id

  -- Where the running task and another one are in the map of tasks: an interrupt that switches to
  -- the other resumes it with the context that the map holds for it. A second interrupt that
  -- switches back resumes the first task with the registers, the instruction and the stack that the
  -- first interrupt stopped it with, whatever was done between; the other task is kept waiting with
  -- the context of the second interrupt, and no third task is changed.
  pub switch_to-Returns :
      (s : System G) (first second : InterruptStackFrame G) (next_id : ℕ) (a b : Task G)
      → s.current_task_id ≢ next_id
      → s.tasks s.current_task_id ≡ some a
      → s.tasks next_id ≡ some b
      → Returns s first second next_id b
  switch_to-Returns s first second next_id a b ne has_a has_b =
      let here : ℕ = s.current_task_id in
      let middle : System G = switched s first next_id a b in
      let back_ne : next_id ≢ here = λ e. ne (sym e) in
      let holds_a : middle.tasks here ≡ some (saved a first) =
        put_task-other (put_task s.tasks here (saved a first)) next_id (started b) here back_ne
        ∙ put_task-here s.tasks here (saved a first) in
      let holds_b : middle.tasks next_id ≡ some (started b) =
        put_task-here (put_task s.tasks here (saved a first)) next_id (started b) in
      let end : System G = switched middle second here (started b) (saved a first) in
      record {
        middle = middle;
        end = end;
        resumed = frame_of (saved a first) second;
        out = switch_to-switched s first next_id a b ne has_a has_b;
        back =
            switch_to-switched middle second here (started b) (saved a first) back_ne holds_b
              holds_a;
        same_rip = refl;
        same_stack = refl;
        same_registers = refl;
        same_task = refl;
        kept =
            put_task-other (put_task middle.tasks next_id (saved (started b) second)) here
              (started (saved a first)) next_id ne
            ∙ put_task-here middle.tasks next_id (saved (started b) second);
        others = λ id away gone.
            put_task-other (put_task middle.tasks next_id (saved (started b) second)) here
              (started (saved a first)) id away
            ∙ put_task-other middle.tasks next_id (saved (started b) second) id gone
            ∙ put_task-other (put_task s.tasks here (saved a first)) next_id (started b) id gone
            ∙ put_task-other s.tasks here (saved a first) id away;
      }
