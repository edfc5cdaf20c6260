-- ===== src/Task/Scheduler/RoundRobin.antt =====
-- The order in which `timer_tick` (kernel/src/task/scheduler.rs) runs the tasks.
use mathlib.Core.List.{append_assoc, append-nil}
use new_os.Base.{ℕ, ◌≡◌, refl, ap, ◌∙◌, false, some, List, [], ◌∷◌, ◌++◌, arith, length, map}
use new_os.Task.{Task, ready, running}
use new_os.Task.Scheduler.{Sys, resume, timer_tick}

-- Ticks that meet the scheduler unlocked, each with the stack pointer at that moment.
abbrev pub ticks : List ℕ → Sys → Sys
ticks [] s = s
ticks (sp ∷ sps) s = ticks sps (timer_tick false sp s).1

-- A task as the queue holds it, and as it runs.
abbrev pub queued : Task → ℕ → Task
queued t sp = record t { stack_ptr = sp; state = ready }

abbrev pub started : Task → Task
started t = record t { state = running }

-- One running task and a queue.
pub record Runs (s : Sys) (current : Task) (queue : List Task) : Type 0 where
  pub current_task : s.sched.current_task ≡ some current
  pub tasks : s.sched.tasks ≡ queue
  pub is_running : current.state ≡ running

-- What is left of a queue, and who runs, after ticks that go once through it.
abbrev last_of : Task → List Task → Task
last_of p [] = p
last_of p (n ∷ q) = last_of (started n) q

abbrev saved : Task → List Task → List ℕ → List Task
saved p [] sps = []
saved p (n ∷ q) [] = []
saved p (n ∷ q) (sp ∷ sps) = queued p sp ∷ saved (started n) q sps

tick_lem :
    (s : Sys) (p n : Task) (q : List Task) (sp : ℕ)
    → Runs s p (n ∷ q)
    → Runs (timer_tick false sp s).1 (started n) (q ++ queued p sp ∷ [])
unfolding timer_tick
tick_lem s p n q sp h = record {
  current_task = ground (arith, h.current_task, h.tasks);
  tasks = ground (arith, h.current_task, h.tasks, h.is_running);
  is_running = refl;
}

tick_resume :
    (s : Sys) (p n : Task) (q : List Task) (sp : ℕ)
    → Runs s p (n ∷ q)
    → (timer_tick false sp s).0 ≡ resume n.stack_ptr
unfolding timer_tick
tick_resume s p n q sp h = ground (arith, h.current_task, h.tasks)

ticks-Runs :
    (sps : List ℕ) (s : Sys) (p : Task) (q r : List Task)
    → length sps ≡ length q
    → Runs s p (q ++ r)
    → Runs (ticks sps s) (last_of p q) (r ++ saved p q sps)
ticks-Runs [] s p [] r e h = rw append-nil h
ticks-Runs [] s p (n ∷ q) r e h = absurd (omega arith)
ticks-Runs (sp ∷ sps) s p [] r e h = absurd (omega arith)
ticks-Runs (sp ∷ sps) s p (n ∷ q) r e h =
    let one : Runs (timer_tick false sp s).1 (started n) (q ++ (r ++ queued p sp ∷ [])) =
      rw (← append_assoc q r (queued p sp ∷ [])) (tick_lem s p n (q ++ r) sp h) in
    rw (← append_assoc r (queued p sp ∷ []) (saved (started n) q sps)) (
      ticks-Runs sps (timer_tick false sp s).1 (started n) q (r ++ queued p sp ∷ []) (omega arith)
        one)

abbrev pub ids : List Task → List ℕ
ids = map (λ t. t.id)

ids-saved :
    (p : Task) (q : List Task) (sps : List ℕ) (sp : ℕ)
    → length sps ≡ length q
    → ids (saved p q sps ++ queued (last_of p q) sp ∷ []) ≡ p.id ∷ ids q
ids-saved p [] sps sp e = refl
ids-saved p (n ∷ q) [] sp e = absurd (omega arith)
ids-saved p (n ∷ q) (x ∷ sps) sp e =
    ap (λ t. p.id ∷ t) (ids-saved (started n) q sps sp (omega arith))

-- Round robin, while the tasks keep running and the scheduler is unlocked: from a running task p and
-- a queue of ready ones, after as many ticks as there are tasks in all, p runs again. The last of
-- these ticks resumes it at exactly the stack pointer with which the first one interrupted it, and
-- the queue then holds the same tasks in the same order.
pub round_robin :
    (s : Sys) (p n : Task) (q : List Task) (sp sp' : ℕ) (sps : List ℕ)
    → Runs s p (n ∷ q)
    → length sps ≡ length q
    → let before = ticks (sp ∷ sps) s in
      let after = timer_tick false sp' before in
      (after.0 ≡ resume sp)
      × (after.1.sched.current_task ≡ some (record p { stack_ptr = sp; state = running }))
      × (ids after.1.sched.tasks ≡ n.id ∷ ids q)
round_robin s p n q sp sp' sps h e =
    let h' : Runs s p ((n ∷ q) ++ []) = rw (append-nil (n ∷ q)) h in
    let before = ticks-Runs (sp ∷ sps) s p (n ∷ q) [] (omega arith) h' in
    let after =
      tick_lem (ticks (sp ∷ sps) s) (last_of p (n ∷ q)) (queued p sp) (saved (started n) q sps) sp'
        before in
    (
      tick_resume (ticks (sp ∷ sps) s) (last_of p (n ∷ q)) (queued p sp) (saved (started n) q sps)
          sp' before,
      after.current_task,
      ap ids after.tasks ∙ ids-saved (started n) q sps sp' e,
    )
