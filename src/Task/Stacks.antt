-- ===== src/Task/Stacks.antt =====
-- Kernel stacks of different tasks (kernel/src/task/mod.rs).
use new_os.Base.{
  ℕ, ◌+◌, ◌-◌, ◌*◌, ◌%◌, ◌/◌, ◌≤◌, ◌<◌, ◌≡◌, ◌≢◌, ◌⊎◌, inl, inr, refl, List, arith, Run, returned,
  length, u64_mod, lt→ltb,
}
use new_os.Task.{
  Process, NewTask, new, new_user, place, stack_region_base, stack_pages, stack_stride, stack_size,
  kernel_stack_region_base, usable_stack_start, stack_top_of, pages_between, pages_from,
  context_frame,
}

-- Identifiers whose stack region fits into the address space.
abbrev pub max_task_id : ℕ
max_task_id = 53687090

pub stack_region_base_lem :
    (id : ℕ)
    → id ≤ max_task_id
    → stack_region_base id ≡ returned (kernel_stack_region_base + id * stack_stride)
unfolding stack_region_base
stack_region_base_lem id h = ground (
  arith,
  lt→ltb (id * stack_stride) u64_mod (omega arith),
  lt→ltb (kernel_stack_region_base + id * stack_stride) u64_mod (omega arith),
)

different : (i j : ℕ) → i ≢ j → (i < j) ⊎ (j < i)
different i j ne = ground arith

-- The shape of a task that was placed at a region base.
pub record IsPlaced (t : NewTask) (base : ℕ) : Type 0 where
  pub top : t.task.kernel_stack_top ≡ base + 9 * 4096
  pub pointer : t.task.stack_ptr + 8 * length t.words ≡ t.task.kernel_stack_top
  pub frame : length t.words ≡ 20
  pub pages : t.pages ≡ pages_from stack_pages (base + 4096)

length-context_frame : (rip cs rsp ss : ℕ) → length (context_frame rip cs rsp ss) ≡ 20
unfolding context_frame
length-context_frame rip cs rsp ss = refl

pages_between-eq :
    (base : ℕ)
    → base % 4096 ≡ 0
    → pages_between (usable_stack_start base) (stack_top_of base - 1)
      ≡ pages_from stack_pages (base + 4096)
unfolding pages_between
pages_between-eq base h =
    let count : (stack_top_of base - 1) / 4096 + 1 - usable_stack_start base / 4096 ≡ 8 =
      omega arith in
    let first : usable_stack_start base / 4096 * 4096 ≡ base + 4096 = omega arith in
    rw (count, first)

place-IsPlaced :
    (id base : ℕ) (process : Process) (words : List ℕ)
    → base % 4096 ≡ 0
    → length words ≡ 20
    → IsPlaced (place id base process words) base
unfolding place
place-IsPlaced id base process words aligned n = record {
  top = omega arith;
  pointer = omega (arith, n);
  frame = n;
  pages = pages_between-eq base aligned;
}

abbrev base_of : ℕ → ℕ
base_of id = kernel_stack_region_base + id * stack_stride

-- A kernel task and a user task get stacks of eight pages above a guard page in the region of their
-- identifier, with the twenty words of the first context frame at the top.
new-IsPlaced :
    (id entry : ℕ) (p : Process)
    → id ≤ max_task_id
    → (t : NewTask) × (new id entry p ≡ returned t) × (IsPlaced t (base_of id))
unfolding new
new-IsPlaced id entry p h = (
  place id (base_of id) p (context_frame entry 0x08 (stack_top_of (base_of id)) 0x10),
  rw (stack_region_base_lem id h),
  place-IsPlaced id (base_of id) p _ (omega arith)
      (length-context_frame entry 0x08 (stack_top_of (base_of id)) 0x10),
)

new_user-IsPlaced :
    (id : ℕ) (p : Process)
    → id ≤ max_task_id
    → (t : NewTask) × (new_user id p ≡ returned t) × (IsPlaced t (base_of id))
unfolding new_user
new_user-IsPlaced id p h = (
  place id (base_of id) p (context_frame p.entry_point 0x2b p.stack_top 0x23),
  rw (stack_region_base_lem id h),
  place-IsPlaced id (base_of id) p _ (omega arith)
      (length-context_frame p.entry_point 0x2b p.stack_top 0x23),
)

-- How a task is created: a kernel task from its entry and process, or a user task from its process.
pub data Creation : Type 0 where
  kernel_task : ℕ → Process → Creation
  user_task : Process → Creation

abbrev pub create : ℕ → Creation → Run NewTask
create id (kernel_task entry p) = new id entry p
create id (user_task p) = new_user id p

create-IsPlaced :
    (id : ℕ) (c : Creation)
    → id ≤ max_task_id
    → (t : NewTask) × (create id c ≡ returned t) × (IsPlaced t (base_of id))
create-IsPlaced id (kernel_task entry p) h = new-IsPlaced id entry p h
create-IsPlaced id (user_task p) h = new_user-IsPlaced id p h

-- The first stack ends at least two pages below the first page of the second.
abbrev pub Below : NewTask → NewTask → Type 0
Below a b = a.task.kernel_stack_top + 2 * 4096 ≤ b.task.kernel_stack_top - stack_size

-- For any two different identifiers up to 53687090 and any two tasks, each of them a kernel task of
-- `Task::new` or a user task of `Task::new_user`: both calls return. Each stack has eight pages in
-- the region of its identifier and the twenty words of the first context frame directly below its
-- top, and one of the two stacks ends at least two pages below the other's first page.
pub stacks_disjoint :
    (i j : ℕ) (c d : Creation)
    → i ≢ j
    → i ≤ max_task_id
    → j ≤ max_task_id
    → (a : NewTask) × (b : NewTask) × (create i c ≡ returned a)
      × (create j d ≡ returned b)
      × (IsPlaced a (base_of i))
      × (IsPlaced b (base_of j))
      × (Below a b ⊎ Below b a)
stacks_disjoint i j c d ne li lj =
    let (a, ra, ia) = create-IsPlaced i c li in
    let (b, rb, ib) = create-IsPlaced j d lj in
    (
      a,
      b,
      ra,
      rb,
      ia,
      ib,
      elim (different i j ne) [
        | inl lt ↦ inl (omega (arith, ia.top, ib.top, lt))
        | inr gt ↦ inr (omega (arith, ia.top, ib.top, gt))
      ],
    )
