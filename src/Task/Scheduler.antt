-- ===== src/Task/Scheduler.antt =====
-- The scheduler (kernel/src/task/scheduler.rs). UPTIME_TICKS, SCHEDULER and the processor's state
-- are one record; a call meets SCHEDULER free or locked.
pub mod RoundRobin
pub mod Invariant
pub mod History
use new_os.Base.{
  ℕ, zero, suc, ◌+◌, ◌%◌, Bool, true, false, Option, none, some, List, [], ◌∷◌, ◌++◌, Run, returned,
  panicked, if◌then◌else◌, ◌==◌, u64_mod,
}
use new_os.Task.{Task, TaskState, Process, Cpu, ready, running, blocked, zombie, switch_to}

pub record Scheduler : Type 0 where
  pub tasks : List Task
  pub current_task : Option Task
  pub task_count : ℕ
  pub current_task_id : Option ℕ

abbrev pub new : Scheduler
new = record { tasks = []; current_task = none; task_count = 0; current_task_id = none }

pub record Sys : Type 0 where
  pub sched : Scheduler
  pub uptime_ticks : ℕ
  pub cpu : Cpu

-- Where the interrupt returns to, or the halt after the last task's exit.
pub data Tick : Type 0 where
  resume : ℕ → Tick
  halted : Tick

unfoldable pub add_task : Task → Sys → Sys
add_task task s = record s {
  sched = record s.sched {
    tasks = s.sched.tasks ++ task ∷ [];
    task_count = s.sched.task_count + 1;
  };
}

is_running : TaskState → Bool
is_running running = true
is_running ready = false
is_running blocked = false
is_running zombie = false

is_zombie : TaskState → Bool
is_zombie zombie = true
is_zombie ready = false
is_zombie running = false
is_zombie blocked = false

-- `next_task.switch_to(); state = Running; current_task = Some(next_task)`
make_current : Task → List Task → Sys → Sys
make_current next queue s = record s {
  sched = record s.sched {
    tasks = queue;
    current_task = some (record next { state = running });
    current_task_id = some next.id;
  };
  cpu = switch_to next s.cpu;
}

-- The queue that the preempted task is put back into, if it was running.
requeue : Task → List Task → List Task
unfolding is_running
requeue prev queue =
    if is_running prev.state then queue ++ record prev { state = ready } ∷ [] else queue

-- The case of no other task.
stay : Task → ℕ → Sys → Tick × Sys
unfolding is_zombie
stay prev sp s =
    if is_zombie prev.state
    then (halted, record s { sched = record s.sched { current_task = none } })
    else (
      resume sp,
      record s {
        sched = record s.sched { current_task = some prev; current_task_id = some prev.id };
      },
    )

-- `prev` is the current task with the stack pointer of the interrupt saved.
preempt : Task → ℕ → List Task → Sys → Tick × Sys
unfolding requeue make_current stay
preempt prev sp [] s = stay prev sp s
preempt prev sp (next ∷ queue) s = (resume next.stack_ptr, make_current next (requeue prev queue) s)

tick_unlocked : ℕ → Option Task → Sys → Tick × Sys
unfolding preempt
tick_unlocked sp none s = (resume sp, s)
tick_unlocked sp (some prev) s = preempt (record prev { stack_ptr = sp }) sp s.sched.tasks s

count_tick : Sys → Sys
count_tick s = record s { uptime_ticks = (s.uptime_ticks + 1) % u64_mod }

-- `timer_tick`; `locked` says whether `try_lock` fails.
unfoldable pub timer_tick : Bool → ℕ → Sys → Tick × Sys
unfolding tick_unlocked count_tick
timer_tick locked sp s =
    let s' = count_tick s in
    if locked then (resume sp, s') else tick_unlocked sp s'.sched.current_task s'

-- The part of `exit_current_task` before `yield_task`.
pub mark_zombie : Sys → Sys
mark_zombie s = record s {
  sched = record s.sched {
    current_task = elim s.sched.current_task [
      | none ↦ none
      | some task ↦ some (record task { state = zombie })
    ];
  };
}

-- `yield_task` raises interrupt 0x81, whose handler is a tick with the stack pointer of the caller.
unfoldable pub yield_task : ℕ → Sys → Tick × Sys
unfolding timer_tick
yield_task sp s = timer_tick false sp s

unfoldable pub exit_current_task : ℕ → Sys → Tick × Sys
unfolding mark_zombie yield_task
exit_current_task sp s = yield_task sp (mark_zombie s)

start_with : List Task → Sys → Run (ℕ × Sys)
unfolding make_current
start_with [] s = panicked
start_with (next ∷ queue) s =
    if next.stack_ptr == 0 then panicked else returned (next.stack_ptr, make_current next queue s)

-- `start_scheduling`: the stack pointer that is loaded, or the panic.
unfoldable pub start_scheduling : Sys → Run (ℕ × Sys)
unfolding start_with
start_scheduling s = start_with s.sched.tasks s

unfoldable pub get_current_kernel_stack_top : Sys → ℕ
get_current_kernel_stack_top s = elim s.sched.current_task [
  | none ↦ 0
  | some task ↦ task.kernel_stack_top
]

abbrev pub get_uptime_ticks : Sys → ℕ
get_uptime_ticks s = s.uptime_ticks

abbrev pub get_task_count : Sys → ℕ
get_task_count s = s.sched.task_count

abbrev pub get_current_task_id : Sys → Option ℕ
get_current_task_id s = s.sched.current_task_id
