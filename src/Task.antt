-- ===== src/Task.antt =====
-- Tasks (kernel/src/task/mod.rs): identifiers, kernel stacks, the first context frame. The page
-- tables and the frame allocator that the stack pages are mapped with are left out.
pub mod Stacks
pub mod Scheduler
pub mod Tests
use new_os.Base.{
  ℕ, zero, suc, ◌+◌, ◌-◌, ◌*◌, ◌/◌, ◌%◌, ◌^◌, Bool, true, false, Option, none, some, List, [], ◌∷◌,
  ◌++◌, Run, returned, panicked, ◌>>=◌, add64, if◌then◌else◌, ltb, ◌==◌, replicate, u64_mod, unwrap,
  checked_mul,
}

abbrev pub kernel_stack_region_base : ℕ
kernel_stack_region_base = 0xFFFF_FE00_0000_0000

pub data TaskState : Type 0 where
  ready running blocked zombie : TaskState

-- What the kernel reads of a process: its address space, and where it starts.
pub record Process : Type 0 where
  pub pml4_frame : ℕ
  pub entry_point : ℕ
  pub stack_top : ℕ

pub record Task : Type 0 where
  pub id : ℕ
  pub stack_ptr : ℕ
  pub kernel_stack_top : ℕ
  pub process : Process
  pub state : TaskState

abbrev pub stack_pages : ℕ
stack_pages = 8

abbrev pub guard_pages : ℕ
guard_pages = 1

abbrev pub stack_size : ℕ
stack_size = stack_pages * 4096

abbrev pub stack_stride : ℕ
stack_stride = (stack_pages + guard_pages + 1) * 4096

-- `stack_region_base`, of a build with overflow checks.
unfoldable pub stack_region_base : ℕ → Run ℕ
stack_region_base id = do
  offset ← unwrap (checked_mul id stack_stride)
  add64 kernel_stack_region_base offset

abbrev pub usable_stack_start : ℕ → ℕ
usable_stack_start base = base + guard_pages * 4096

abbrev pub stack_top_of : ℕ → ℕ
stack_top_of base = usable_stack_start base + stack_size

-- `n` pages from one on.
pub pages_from : ℕ → ℕ → List ℕ
pages_from zero start = []
pages_from (suc n) start = start ∷ pages_from n (start + 4096)

-- `Page::range_inclusive(containing(first), containing(last))`, by start addresses.
unfoldable pub pages_between : ℕ → ℕ → List ℕ
unfolding pages_from
pages_between first last = pages_from (last / 4096 + 1 - first / 4096) (first / 4096 * 4096)

-- A task with the words that stand on its stack from `stack_ptr` up, and the pages mapped for it.
pub record NewTask : Type 0 where
  pub task : Task
  pub words : List ℕ
  pub pages : List ℕ

-- From the lowest address up: fifteen registers, RIP, CS, RFLAGS, RSP, SS.
unfoldable pub context_frame : ℕ → ℕ → ℕ → ℕ → List ℕ
context_frame rip cs rsp ss = replicate 15 0 ++ rip ∷ cs ∷ 0x202 ∷ rsp ∷ ss ∷ []

-- The common part of `Task::new` and `Task::new_user`: twenty words are pushed.
unfoldable pub place : ℕ → ℕ → Process → List ℕ → NewTask
unfolding pages_between
place id base process words =
    let top = stack_top_of base in
    record {
      task = record {
        id = id;
        stack_ptr = top - 20 * 8;
        kernel_stack_top = top;
        process = process;
        state = ready;
      };
      words = words;
      pages = pages_between (usable_stack_start base) (top - 1);
    }

-- `Task::new`, with the identifier that `TaskId::new` has drawn and the kernel's process.
unfoldable pub new : ℕ → ℕ → Process → Run NewTask
unfolding stack_region_base place context_frame
new id entry kernel_process = do
  base ← stack_region_base id
  returned (place id base kernel_process (context_frame entry 0x08 (stack_top_of base) 0x10))

-- `Task::new_user`
unfoldable pub new_user : ℕ → Process → Run NewTask
unfolding stack_region_base place context_frame
new_user id process = do
  base ← stack_region_base id
  returned (place id base process (context_frame process.entry_point 0x2b process.stack_top 0x23))

-- The processor's state that `switch_to` writes: TSS.RSP0 with PER_CPU.kernel_stack_ptr, and CR3.
pub record Cpu : Type 0 where
  pub privilege_stack : ℕ
  pub kernel_stack_ptr : ℕ
  pub cr3 : ℕ

-- `gdt::set_interrupt_stack` (kernel/src/gdt.rs)
unfoldable pub set_interrupt_stack : ℕ → Cpu → Cpu
set_interrupt_stack top cpu = record cpu { privilege_stack = top; kernel_stack_ptr = top }

unfoldable pub switch_to : Task → Cpu → Cpu
unfolding set_interrupt_stack
switch_to task cpu =
    let cpu' = set_interrupt_stack task.kernel_stack_top cpu in
    if cpu'.cr3 == task.process.pml4_frame
    then cpu'
    else record cpu' { cr3 = task.process.pml4_frame }
