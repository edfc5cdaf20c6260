-- ===== src/Task/Scheduler/Invariant.antt =====
-- The invariant of the scheduler (kernel/src/task/scheduler.rs) over all histories of its calls.

use new_os.Base.{
  ℕ, suc, ◌≤◌, ◌<◌, ◌≡◌, ◌≢◌, refl, sym, ap, ◌⊎◌, inr, Option, none, some, List, [], ◌∷◌, ◌++◌, map,
  arith, length, length-append, All,
}
use new_os.Task.{Task, ready, running, zombie}
use new_os.Task.Scheduler.{Sys, add_task, mark_zombie}

-- The identifiers of a list are below a bound and pairwise different.
abbrev pub Distinct : ℕ → List ℕ → Type 0
Distinct bound [] = Unit
Distinct bound (x ∷ xs) = (x < bound) × All (λ y. x ≢ y) xs × Distinct bound xs

abbrev pub IsReady : Task → Type 0
IsReady t = t.state ≡ ready

abbrev pub ids : List Task → List ℕ
ids = map (λ t. t.id)

-- The tasks that the scheduler holds: the current one first.
abbrev pub held : Option Task → List Task → List Task
held none q = q
held (some t) q = t ∷ q

-- What is current runs or has exited, and its identifier is the one that `getpid` reads.
abbrev pub IsCurrent : Option Task → Option ℕ → Type 0
IsCurrent none id = Unit
IsCurrent (some t) id = ((t.state ≡ running) ⊎ (t.state ≡ zombie)) × (id ≡ some t.id)

-- `next_id` is the value of the NEXT_ID counter of `TaskId::new`.
pub record IsValid (next_id : ℕ) (s : Sys) : Type 0 where
  pub queue : All IsReady s.sched.tasks
  pub current : IsCurrent s.sched.current_task s.sched.current_task_id
  pub distinct : Distinct next_id (ids (held s.sched.current_task s.sched.tasks))
  pub counted : length (held s.sched.current_task s.sched.tasks) ≤ s.sched.task_count

pub All-append_one {ℓ κ} :
    {A : Type ℓ} (P : A → Type κ) (xs : List A) (x : A) → All P xs → P x → All P (xs ++ x ∷ [])
All-append_one P [] x h hx = (hx, tt)
All-append_one P (y ∷ xs) x h hx = (h.0, All-append_one P xs x h.1 hx)

pub ids-append : (q : List Task) (t : Task) → ids (q ++ t ∷ []) ≡ ids q ++ t.id ∷ []
ids-append [] t = refl
ids-append (x ∷ q) t = ap (λ l. x.id ∷ l) (ids-append q t)

All-ne_sym : (x : ℕ) (xs : List ℕ) → All (λ y. x ≢ y) xs → All (λ y. y ≢ x) xs
All-ne_sym x [] h = tt
All-ne_sym x (y ∷ xs) h = ((λ e. h.0 (sym e)), All-ne_sym x xs h.1)

-- A new element at the end.
Distinct-append_one :
    (bound x : ℕ) (xs : List ℕ)
    → x < bound
    → All (λ y. y ≢ x) xs
    → Distinct bound xs
    → Distinct bound (xs ++ x ∷ [])
Distinct-append_one bound x [] lt ne h = (lt, tt, tt)
Distinct-append_one bound x (y ∷ xs) lt ne h =
    (h.0, All-append_one (λ z. y ≢ z) xs x h.1 ne.0, Distinct-append_one bound x xs lt ne.1 h.2)

Distinct-mono : (m n : ℕ) (xs : List ℕ) → m ≤ n → Distinct m xs → Distinct n xs
Distinct-mono m n [] le h = tt
Distinct-mono m n (x ∷ xs) le h = (omega arith, h.1, Distinct-mono m n xs le h.2)

All-ne_of_lt : (n : ℕ) (xs : List ℕ) → Distinct n xs → All (λ y. y ≢ n) xs
All-ne_of_lt n [] h = tt
All-ne_of_lt n (x ∷ xs) h = (omega arith, All-ne_of_lt n xs h.2)

-- The preempted task goes behind the queue, and the identifiers stay different.
pub Distinct-rotate :
    (bound x : ℕ) (xs : List ℕ) → Distinct bound (x ∷ xs) → Distinct bound (xs ++ x ∷ [])
Distinct-rotate bound x xs h = Distinct-append_one bound x xs h.0 (All-ne_sym x xs h.1) h.2

-- `add_task(Task::new(..))`: the task has the next identifier, and is ready.
pub add_task-IsValid :
    (n : ℕ) (t : Task) (s : Sys)
    → t.id ≡ n
    → t.state ≡ ready
    → IsValid n s
    → IsValid (suc n) (add_task t s)
unfolding add_task
add_task-IsValid n t s e r h = record {
  queue = All-append_one IsReady s.sched.tasks t h.queue r;
  current = h.current;
  distinct =
      at_end (held s.sched.current_task s.sched.tasks)
        (held-append s.sched.current_task s.sched.tasks) h.distinct;
  counted = omega (
    arith,
    h.counted,
    ap length (held-append s.sched.current_task s.sched.tasks),
    length-append {0} (held s.sched.current_task s.sched.tasks) (t ∷ []),
  );
}
  where
    held-append : (c : Option Task) (q : List Task) → held c (q ++ t ∷ []) ≡ held c q ++ t ∷ []
    held-append none q = refl
    held-append (some x) q = refl

    at_end :
        (l : List Task)
        → held s.sched.current_task (s.sched.tasks ++ t ∷ []) ≡ l ++ t ∷ []
        → Distinct n (ids l)
        → Distinct (suc n) (ids (held s.sched.current_task (s.sched.tasks ++ t ∷ [])))
    at_end l same d =
        rw (same, ids-append l t, e)
          (Distinct-append_one (suc n) n (ids l) (omega arith) (All-ne_of_lt n (ids l) d)
            (Distinct-mono n (suc n) (ids l) (omega arith) d))

pub mark_zombie-IsValid : (n : ℕ) (s : Sys) → IsValid n s → IsValid n (mark_zombie s)
unfolding mark_zombie
mark_zombie-IsValid n s h = go s.sched.current_task h.current h.distinct h.counted
  where
    mark : Option Task → Option Task
    mark none = none
    mark (some t) = some (record t { state = zombie })

    go :
        (c : Option Task)
        → IsCurrent c s.sched.current_task_id
        → Distinct n (ids (held c s.sched.tasks))
        → length (held c s.sched.tasks) ≤ s.sched.task_count
        → IsValid n (record s {
          sched = record s.sched {
            current_task = elim c [ none ↦ none | some t ↦ some (record t { state = zombie }) ];
          };
        })
    go none i d k = record { queue = h.queue; current = i; distinct = d; counted = k }
    go (some t) i d k = record {
      queue = h.queue;
      current = (inr refl, i.1);
      distinct = d;
      counted = k;
    }
