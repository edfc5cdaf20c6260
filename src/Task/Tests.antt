-- ===== src/Task/Tests.antt =====
-- The theorems on tasks and the scheduler at concrete states.
use new_os.Base.{ℕ, ◌+◌, ◌*◌, ◌≡◌, ◌≢◌, ◌⊎◌, refl, some, [], ◌∷◌, arith, returned, false}
use new_os.Task.{
  Task, Process, Cpu, NewTask, ready, running, kernel_stack_region_base, stack_stride,
}
use new_os.Task.Stacks.{IsPlaced, create, user_task, Below, stacks_disjoint}
use new_os.Task.Scheduler
use new_os.Task.Scheduler.{Sys, resume, timer_tick, add_task, exit_current_task}
use new_os.Task.Scheduler.Invariant as SchedulerInvariant
use new_os.Task.Scheduler.History.{
  boot, step, step_spawn, Reach-IsValid, exit_current_task-switches,
}
use new_os.Task.Scheduler.RoundRobin.{ticks, Runs, round_robin}

abbrev process : Process
process = record { pml4_frame = 0x1000; entry_point = 0x400000; stack_top = 0x700000 }

abbrev task : ℕ → Task
task id = record {
  id = id;
  stack_ptr = id * 4096;
  kernel_stack_top = id * 8192;
  process = process;
  state = ready;
}

abbrev cpu : Cpu
cpu = record { privilege_stack = 0; kernel_stack_ptr = 0; cr3 = 0 }

abbrev idle : Sys
idle = record { sched = Scheduler.new; uptime_ticks = 0; cpu = cpu }

-- Task 1 runs, 2 and 3 are queued.
abbrev busy : Sys
busy = record idle {
  sched = record {
    tasks = task 2 ∷ task 3 ∷ [];
    current_task = some (record (task 1) { state = running });
    task_count = 3;
    current_task_id = some 1;
  };
}

busy-Runs : Runs busy (record (task 1) { state = running }) (task 2 ∷ task 3 ∷ [])
busy-Runs = record { current_task = refl; tasks = refl; is_running = refl }

abbrev after_two : Sys
after_two = ticks (70 ∷ 80 ∷ []) busy

round_robin_example :
    ((timer_tick false 90 after_two).0 ≡ resume 70)
    × ((timer_tick false 90 after_two).1.sched.current_task
        ≡ some (record (task 1) { stack_ptr = 70; state = running }))
    × (SchedulerInvariant.ids (timer_tick false 90 after_two).1.sched.tasks ≡ 2 ∷ 3 ∷ [])
round_robin_example =
    round_robin busy (record (task 1) { state = running }) (task 2) (task 3 ∷ []) 70 90 (80 ∷ [])
      busy-Runs refl

Reach-IsValid_example : SchedulerInvariant.IsValid 2 (add_task (task 1) idle)
Reach-IsValid_example = Reach-IsValid (step (boot 0 cpu) (step_spawn 1 (task 1) idle refl refl))

exit_current_task-switches_example :
    ((exit_current_task 60 busy).0 ≡ resume (2 * 4096))
    × (SchedulerInvariant.ids (
          SchedulerInvariant.held
            (exit_current_task 60 busy).1.sched.current_task
            (exit_current_task 60 busy).1.sched.tasks)
        ≡ 2 ∷ 3 ∷ [])
    × ((exit_current_task 60 busy).1.cpu.cr3 ≡ 0x1000)
    × ((exit_current_task 60 busy).1.cpu.kernel_stack_ptr ≡ 2 * 8192)
    × ((exit_current_task 60 busy).1.cpu.privilege_stack ≡ 2 * 8192)
    × ((exit_current_task 60 busy).1.sched.task_count ≡ 3)
exit_current_task-switches_example =
    exit_current_task-switches busy (record (task 1) { state = running }) (task 2) (task 3 ∷ []) 60
      refl refl

two_ne_one : ◌≢◌ {A = ℕ} 2 1
two_ne_one = λ e. omega (arith, e)

stacks_disjoint_example :
    (a : NewTask) × (b : NewTask) × (create 2 (user_task process) ≡ returned a)
    × (create 1 (user_task process) ≡ returned b)
    × (IsPlaced a (kernel_stack_region_base + 2 * stack_stride))
    × (IsPlaced b (kernel_stack_region_base + 1 * stack_stride))
    × (Below a b ⊎ Below b a)
stacks_disjoint_example =
    stacks_disjoint 2 1 (user_task process) (user_task process) two_ne_one (omega arith)
      (omega arith)
