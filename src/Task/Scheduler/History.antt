-- ===== src/Task/Scheduler/History.antt =====
-- Histories of the scheduler (kernel/src/task/scheduler.rs): every order of calls and interrupts.
use new_os.Base.{
  ℕ, suc, ◌≤◌, ◌≡◌, refl, ◌⊎◌, inl, inr, Bool, true, false, Option, none, some, List, [], ◌∷◌, ◌++◌,
  arith, length, length-append, All, returned,
}
use new_os.Task.{Task, Cpu, ready, running, zombie, switch_to}
use new_os.Task.Scheduler
use new_os.Task.Scheduler.{
  Scheduler, Sys, Tick, resume, halted, timer_tick, tick_unlocked, preempt, stay, requeue,
  start_with, make_current, count_tick, add_task, exit_current_task, start_scheduling, mark_zombie,
  get_current_task_id,
}
use new_os.Task.Scheduler.Invariant.{
  IsValid, IsReady, IsCurrent, Distinct, ids, held, All-append_one, ids-append, Distinct-rotate,
  add_task-IsValid, mark_zombie-IsValid,
}

make_current-IsValid :
    (n : ℕ) (next : Task) (q : List Task) (s : Sys)
    → All IsReady q
    → Distinct n (next.id ∷ ids q)
    → suc (length q) ≤ s.sched.task_count
    → IsValid n (make_current next q s)
unfolding make_current
make_current-IsValid n next q s r d k = record {
  queue = r;
  current = (inl refl, refl);
  distinct = d;
  counted = k;
}

requeue-running :
    (p : Task) (q : List Task)
    → p.state ≡ running
    → requeue p q ≡ q ++ record p { state = ready } ∷ []
unfolding requeue
requeue-running p q h = rw h

requeue-zombie : (p : Task) (q : List Task) → p.state ≡ zombie → requeue p q ≡ q
unfolding requeue
requeue-zombie p q h = rw h

-- The identifiers after a switch from p to the front of the queue.
rotated :
    (n : ℕ) (p next : Task) (q : List Task)
    → Distinct n (p.id ∷ next.id ∷ ids q)
    → Distinct n (next.id ∷ ids (q ++ record p { state = ready } ∷ []))
rotated n p next q d =
    rw (ids-append q (record p { state = ready })) (Distinct-rotate n p.id (next.id ∷ ids q) d)

preempt-IsValid :
    (n : ℕ) (p : Task) (sp : ℕ) (q : List Task) (s : Sys)
    → s.sched.tasks ≡ q
    → All IsReady q
    → (p.state ≡ running) ⊎ (p.state ≡ zombie)
    → Distinct n (p.id ∷ ids q)
    → suc (length q) ≤ s.sched.task_count
    → IsValid n (preempt p sp q s).1
unfolding preempt stay
preempt-IsValid n p sp [] s e r (inl run) d k =
    rw run
      (record { queue = rw e tt; current = (inl refl, refl); distinct = rw e d; counted = rw e k })
preempt-IsValid n p sp [] s e r (inr dead) d k =
    rw dead
      (record { queue = rw e tt; current = tt; distinct = rw e tt; counted = rw e (omega arith) })
preempt-IsValid n p sp (next ∷ q) s e r (inl run) d k = rw (requeue-running p q run) (
    make_current-IsValid n next (q ++ record p { state = ready } ∷ []) s
      (All-append_one IsReady q (record p { state = ready }) r.1 refl) (rotated n p next q d)
      (omega (arith, length-append {0} q (record p { state = ready } ∷ []))))
preempt-IsValid n p sp (next ∷ q) s e r (inr dead) d k =
    rw (requeue-zombie p q dead) (make_current-IsValid n next q s r.1 d.2 (omega arith))

tick_unlocked-IsValid :
    (n sp : ℕ) (c : Option Task) (s : Sys)
    → s.sched.current_task ≡ c
    → IsValid n s
    → IsValid n (tick_unlocked sp c s).1
unfolding tick_unlocked
tick_unlocked-IsValid n sp none s e h = h
tick_unlocked-IsValid n sp (some p) s e h =
    let current : IsCurrent (some p) s.sched.current_task_id = rw e at h.current in
    let distinct : Distinct n (ids (held (some p) s.sched.tasks)) = rw e at h.distinct in
    let counted : length (held (some p) s.sched.tasks) ≤ s.sched.task_count = rw e at h.counted in
    preempt-IsValid n (record p { stack_ptr = sp }) sp s.sched.tasks s refl h.queue current.0
      distinct counted

count_tick-IsValid : (n : ℕ) (s : Sys) → IsValid n s → IsValid n (count_tick s)
unfolding count_tick
count_tick-IsValid n s h = record {
  queue = h.queue;
  current = h.current;
  distinct = h.distinct;
  counted = h.counted;
}

pub timer_tick-IsValid :
    (n sp : ℕ) (locked : Bool) (s : Sys) → IsValid n s → IsValid n (timer_tick locked sp s).1
unfolding timer_tick
timer_tick-IsValid n sp true s h = count_tick-IsValid n s h
timer_tick-IsValid n sp false s h =
    tick_unlocked-IsValid n sp _ (count_tick s) refl (count_tick-IsValid n s h)

start-IsValid :
    (n sp : ℕ) (s s' : Sys)
    → s.sched.current_task ≡ none
    → start_scheduling s ≡ returned (sp, s')
    → IsValid n s
    → IsValid n s'
start-IsValid n sp s s' idle e h =
    go s.sched.tasks refl h.queue (rw idle at h.distinct) (rw idle at h.counted)
  where
    go :
        (q : List Task)
        → s.sched.tasks ≡ q
        → All IsReady q
        → Distinct n (ids q)
        → length q ≤ s.sched.task_count
        → IsValid n s'
    go [] t r d k = absurd (unfold start_scheduling start_with in ground (arith, e, t))
    go (next ∷ q) t r d k =
        let same : make_current next q s ≡ s' =
          unfold start_scheduling start_with in ground (arith, e, t) in
        rw (← same) (make_current-IsValid n next q s r.1 d k)

-- One call or interrupt, with the value of the NEXT_ID counter. An exit is the mark and, at once or
-- after timer interrupts, a tick.
pub data Step : ℕ → Sys → ℕ → Sys → Type 0 where
  step_spawn :
      (n : ℕ) (t : Task) (s : Sys) → t.id ≡ n → t.state ≡ ready → Step n s (suc n) (add_task t s)
  step_tick : (n sp : ℕ) (locked : Bool) (s : Sys) → Step n s n (timer_tick locked sp s).1
  step_mark : (n : ℕ) (s : Sys) → Step n s n (mark_zombie s)
  step_start :
      (n sp : ℕ) (s s' : Sys)
      → s.sched.current_task ≡ none
      → start_scheduling s ≡ returned (sp, s')
      → Step n s n s'

pub data Reach : ℕ → Sys → Type 0 where
  boot :
      (uptime : ℕ) (cpu : Cpu)
      → Reach 1 (record { sched = Scheduler.new; uptime_ticks = uptime; cpu = cpu })
  step : {m n : ℕ} {s s' : Sys} → Reach m s → Step m s n s' → Reach n s'

Step-IsValid : {m n : ℕ} {s s' : Sys} → Step m s n s' → IsValid m s → IsValid n s'
Step-IsValid (step_spawn n t s e r) h = add_task-IsValid n t s e r h
Step-IsValid (step_tick n sp locked s) h = timer_tick-IsValid n sp locked s h
Step-IsValid (step_mark n s) h = mark_zombie-IsValid n s h
Step-IsValid (step_start n sp s s' idle e) h = start-IsValid n sp s s' idle e h

-- In every history of the scheduler from boot, of spawned tasks, ticks that meet it locked or
-- unlocked, exits and the start: every task in the queue is ready; the current task, if any, is
-- running or has exited, and has the identifier that `getpid` reads; no two tasks held have the
-- same identifier, and none has one that is yet to be given out; and `task_count` is at least the
-- number of tasks held.
pub Reach-IsValid : {n : ℕ} {s : Sys} → Reach n s → IsValid n s
Reach-IsValid (boot uptime cpu) = record {
  queue = tt;
  current = tt;
  distinct = tt;
  counted = omega arith;
}
Reach-IsValid (step r st) = Step-IsValid st (Reach-IsValid r)

-- The exit of the current task switches to the front of the queue: the processor resumes that task
-- on its saved stack pointer, kernel stack and address space, the exited task is held no longer and
-- the other tasks keep their order; `task_count` still counts the exited task.
pub exit_current_task-switches :
    (s : Sys) (p next : Task) (q : List Task) (sp : ℕ)
    → s.sched.current_task ≡ some p
    → s.sched.tasks ≡ next ∷ q
    → let r = exit_current_task sp s in
      (r.0 ≡ resume next.stack_ptr)
      × (ids (held r.1.sched.current_task r.1.sched.tasks) ≡ next.id ∷ ids q)
      × (r.1.cpu.cr3 ≡ next.process.pml4_frame)
      × (r.1.cpu.kernel_stack_ptr ≡ next.kernel_stack_top)
      × (r.1.cpu.privilege_stack ≡ next.kernel_stack_top)
      × (r.1.sched.task_count ≡ s.sched.task_count)
unfolding exit_current_task switch_to
exit_current_task-switches s p next q sp c t = (
  ground (arith, c, t),
  ground (arith, c, t),
  ground (arith, c, t),
  ground (arith, c, t),
  ground (arith, c, t),
  ground (arith, c, t),
)
