-- ===== src/Syscall/Handler.antt =====
-- The system call handlers (kernel/src/syscall/handler.rs) and the dispatcher
-- (kernel/src/syscall/mod.rs). The kernel's state is what the handlers reach: VFS, TTY, the
-- scheduler, the bytes of the address space, and what was printed on the serial port. Every address
-- can be read and written: a page fault is not modelled.
pub mod Files
pub mod Errors
pub mod Listing
pub mod Keeps
use new_os.Base.{
  ℕ, zero, suc, ◌+◌, ◌-◌, ◌≤◌, ◌^◌, ◌%◌, Bool, true, false, ◌&&◌, ◌||◌, Option, none, some, List,
  [], ◌∷◌, ◌++◌, Run, returned, panicked, ltb, leb, ◌==◌, if◌then◌else◌, length, Bytes, codes,
  from_utf8, to_le, u64_mod,
}
use new_os.Tty.{Tty}
use new_os.Vfs
use new_os.Vfs.{Vfs, FileStat, FileType, ReadResult, WriteResult}
use new_os.Task.Scheduler
use new_os.Task.Scheduler.{Sys, Tick}
use new_os.Elf
use new_os.Elf.{ElfHeader, ProgramHeader, Parse}
use new_os.Syscall
use new_os.Syscall.{Syscall, SyscallArgs, SyscallHeader}

pub data SyscallResult : Type 0 where
  success : ℕ → SyscallResult
  error : (negative : Bool) → ℕ → SyscallResult

abbrev pub Memory : Type 0
Memory = ℕ → ℕ

pub record Kernel : Type 0 where
  pub vfs : Vfs
  pub tty : Tty
  pub sys : Sys
  pub memory : Memory
  pub serial : List Bytes

-- `core::slice::from_raw_parts(ptr, len)`
unfoldable pub bytes_at : Memory → ℕ → ℕ → Bytes
bytes_at m ptr zero = []
bytes_at m ptr (suc len) = m ptr ∷ bytes_at m (ptr + 1) len

-- A write of bytes from an address on.
unfoldable pub store : Memory → ℕ → Bytes → Memory
store m ptr [] = m
store m ptr (b ∷ bs) = store (λ a. if a == ptr then b else m a) (ptr + 1) bs

-- What a call comes to: it returns at once; it returns this result when the task runs again, other
-- tasks being run from the tick on; it never returns, its task being gone; or the kernel panics.
pub data Outcome : Type 0 where
  done : SyscallResult → Kernel → Outcome
  yielded : SyscallResult → Tick → Kernel → Outcome
  left : Tick → Kernel → Outcome
  panics : Outcome

abbrev pub failure : SyscallResult
failure = error false 1

abbrev pub on_ok : Bool → SyscallResult
on_ok true = success 0
on_ok false = failure

abbrev pub on_some : Option ℕ → SyscallResult
on_some none = failure
on_some (some n) = success n

-- `ptr.is_null() || len == 0`
abbrev pub no_bytes : ℕ → ℕ → Bool
no_bytes ptr len = ptr == 0 || len == 0

-- `core::str::from_utf8(slice).unwrap_or("")`
unfoldable pub path_at : Memory → ℕ → ℕ → Bytes
unfolding bytes_at from_utf8
path_at m ptr len = elim (from_utf8 (bytes_at m ptr len)) [ none ↦ [] | some s ↦ s ]

unfoldable pub handle_mkdir : SyscallArgs → Kernel → Outcome
handle_mkdir args k =
    if no_bytes args.arg0 args.arg1
    then done failure k
    else (let (v, made) = Vfs.mkdir (path_at k.memory args.arg0 args.arg1) k.vfs in
        done (on_ok made) (record k { vfs = v }))

unfoldable pub handle_unlink : SyscallArgs → Kernel → Outcome
handle_unlink args k =
    if no_bytes args.arg0 args.arg1
    then done failure k
    else (let (v, removed) = Vfs.unlink (path_at k.memory args.arg0 args.arg1) k.vfs in
        done (on_ok removed) (record k { vfs = v }))

unfoldable pub handle_write_file : SyscallArgs → Kernel → Outcome
handle_write_file args k =
    if no_bytes args.arg1 args.arg2
    then done failure k
    else elim (Vfs.write args.arg0 (bytes_at k.memory args.arg1 args.arg2) k.vfs k.tty) [
      | panicked ↦ panics
      | returned r ↦ done (on_some r.count) (record k { vfs = r.vfs; tty = r.tty })
    ]

unfoldable pub handle_seek : SyscallArgs → Kernel → Outcome
handle_seek args k =
    let (v, moved) = Vfs.seek args.arg0 args.arg1 k.vfs in done (on_ok moved) (record k { vfs = v })

unfoldable pub handle_getpid : SyscallArgs → Kernel → Outcome
handle_getpid args k = done (on_some (Scheduler.get_current_task_id k.sys)) k

unfoldable pub handle_uptime : SyscallArgs → Kernel → Outcome
handle_uptime args k = done (success (Scheduler.get_uptime_ticks k.sys)) k

unfoldable pub handle_write : SyscallArgs → Kernel → Outcome
handle_write args k =
    if no_bytes args.arg0 args.arg1
    then done failure k
    else done (success args.arg1)
        (record k { serial = k.serial ++ path_at k.memory args.arg0 args.arg1 ∷ [] })

-- The buffer is the caller's memory, which `read` writes in place.
unfoldable pub handle_read : SyscallArgs → Kernel → Outcome
handle_read args k =
    if no_bytes args.arg1 args.arg2
    then done failure k
    else (let r = Vfs.read args.arg0 (bytes_at k.memory args.arg1 args.arg2) k.vfs k.tty in
        done (on_some r.count)
          (record k { vfs = r.vfs; tty = r.tty; memory = store k.memory args.arg1 r.buf }))

-- `sp` is the stack pointer that the yield interrupt saves.
unfoldable pub handle_exit : ℕ → SyscallArgs → Kernel → Outcome
handle_exit sp args k =
    let (tick, s) = Scheduler.exit_current_task sp k.sys in left tick (record k { sys = s })

unfoldable pub handle_open : SyscallArgs → Kernel → Outcome
handle_open args k =
    if no_bytes args.arg0 args.arg1
    then done failure k
    else (let (v, fd) = Vfs.open_file (path_at k.memory args.arg0 args.arg1) k.vfs in
        done (on_some fd) (record k { vfs = v }))

unfoldable pub handle_close : SyscallArgs → Kernel → Outcome
handle_close args k =
    let (v, closed) = Vfs.close args.arg0 k.vfs in done (success 0) (record k { vfs = v })

-- The loop of `handle_ls`: the bytes written so far, of which there are `offset`.
unfoldable pub list_names : List Bytes → ℕ → Bytes → Bytes
list_names [] buf_len out = out
list_names (name ∷ names) buf_len out =
    let rest = list_names names buf_len (out ++ (name ++ 10 ∷ [])) in
    if ltb buf_len (length out + length name + 1) then out else rest

unfoldable pub handle_ls : SyscallArgs → Kernel → Outcome
unfolding list_names
handle_ls args k =
    if no_bytes args.arg0 args.arg1
    then done failure k
    else (let out = list_names (Vfs.list_dir k.vfs) args.arg1 [] in
        done (success (length out)) (record k { memory = store k.memory args.arg0 out }))

-- `FileStat::to_abi`, with the FILE_TYPE numbers of shared/abi/src/syscall.rs.
unfoldable pub abi_type : FileType → ℕ
abi_type FileType.regular = 0
abi_type FileType.directory = 1
abi_type FileType.device = 2
abi_type FileType.pipe = 3

-- The bytes that `*stat_ptr = stat.to_abi()` writes: a u64 and a u32; the padding is left alone.
unfoldable pub stat_bytes : FileStat → Bytes
unfolding abi_type
stat_bytes st = to_le 8 st.size ++ to_le 4 (abi_type st.file_type)

unfoldable pub handle_stat : SyscallArgs → Kernel → Outcome
unfolding stat_bytes
handle_stat args k =
    if no_bytes args.arg0 args.arg1 || args.arg2 == 0
    then done failure k
    else elim (Vfs.stat (path_at k.memory args.arg0 args.arg1) k.vfs) [
      | none ↦ done failure k
      | some st ↦ done (success 0) (record k { memory = store k.memory args.arg2 (stat_bytes st) })
    ]

-- The loop of `handle_exec` over the program headers, which only counts: `n` rounds from index `i`.
-- `none` is the panic of an index out of range.
pub count_segments : ℕ → ℕ → Bytes → ElfHeader → Option ℕ
count_segments zero i bytes h = some 0
count_segments (suc n) i bytes h =
    let rest = count_segments n (i + 1) bytes h in
    elim (Elf.parse_program_header bytes h i) [
      | Parse.panics ↦ none
      | Parse.err e ↦ rest
      | Parse.ok none ↦ rest
      | Parse.ok (some ph) ↦ elim rest [ none ↦ none | some loaded ↦ some (loaded + 1) ]
    ]

pub exec_with : Bytes → Parse ElfHeader → Kernel → Outcome
unfolding count_segments
exec_with bytes Parse.panics k = panics
exec_with bytes (Parse.err e) k = done failure k
exec_with bytes (Parse.ok h) k = elim (count_segments h.program_header_count 0 bytes h) [
  | none ↦ panics
  | some loaded ↦ done (success h.entry) k
]

unfoldable pub handle_exec : SyscallArgs → Kernel → Outcome
unfolding exec_with
handle_exec args k =
    if no_bytes args.arg0 args.arg1
    then done failure k
    else (let bytes = bytes_at k.memory args.arg0 args.arg1 in
        exec_with bytes (Elf.parse_header bytes) k)

unfoldable pub handle_yielder : ℕ → SyscallArgs → Kernel → Outcome
handle_yielder sp args k =
    if args.arg0 == 0
    then done (success 0) k
    else (let (tick, s) = Scheduler.yield_task sp k.sys in
        yielded (success 0) tick (record k { sys = s }))

-- `fork`, `wait` and `brk` always fail; `getuid` and `getgid` are always root's.
unfoldable pub handle_syscall : ℕ → Syscall → SyscallArgs → Kernel → Outcome
handle_syscall sp Syscall.write args k = handle_write args k
handle_syscall sp Syscall.read args k = handle_read args k
handle_syscall sp Syscall.exit args k = handle_exit sp args k
handle_syscall sp Syscall.open_path args k = handle_open args k
handle_syscall sp Syscall.close args k = handle_close args k
handle_syscall sp Syscall.exec args k = handle_exec args k
handle_syscall sp Syscall.fork args k = done failure k
handle_syscall sp Syscall.wait args k = done failure k
handle_syscall sp Syscall.yielder args k = handle_yielder sp args k
handle_syscall sp Syscall.uptime args k = handle_uptime args k
handle_syscall sp Syscall.ls args k = handle_ls args k
handle_syscall sp Syscall.stat args k = handle_stat args k
handle_syscall sp Syscall.get_pid args k = handle_getpid args k
handle_syscall sp Syscall.seek args k = handle_seek args k
handle_syscall sp Syscall.write_file args k = handle_write_file args k
handle_syscall sp Syscall.get_uid args k = done (success 0) k
handle_syscall sp Syscall.get_gid args k = done (success 0) k
handle_syscall sp Syscall.brk args k = done failure k
handle_syscall sp Syscall.mkdir args k = handle_mkdir args k
handle_syscall sp Syscall.unlink args k = handle_unlink args k

-- `syscall_from_user`
unfoldable pub syscall_from_user : ℕ → SyscallHeader → SyscallArgs → Kernel → Outcome
syscall_from_user sp header args k = elim (Syscall.from_u16 header.number) [
  | none ↦ done (error true 1) k
  | some s ↦ handle_syscall sp s args k
]

-- The register that a result goes into: `val`, or `err as u64` in two's complement.
unfoldable pub result_register : SyscallResult → ℕ
result_register (success n) = n
result_register (error false n) = n
result_register (error true n) = u64_mod - n

-- The registers of the frame that the dispatcher reads.
pub record SyscallFrame : Type 0 where
  pub rax : ℕ
  pub rdi : ℕ
  pub rsi : ℕ
  pub rdx : ℕ
  pub r10 : ℕ

-- A call's outcome with RAX for its result.
pub data Dispatched : Type 0 where
  result : ℕ → Kernel → Dispatched
  later : ℕ → Tick → Kernel → Dispatched
  gone : Tick → Kernel → Dispatched
  crashed : Dispatched

unfoldable pub to_register : Outcome → Dispatched
unfolding result_register
to_register (done r k) = result (result_register r) k
to_register (yielded r tick k) = later (result_register r) tick k
to_register (left tick k) = gone tick k
to_register panics = crashed

unfoldable pub syscall_dispatch : ℕ → SyscallFrame → Kernel → Dispatched
unfolding to_register
syscall_dispatch sp frame k = elim (Syscall.from_u16 (frame.rax % 2 ^ 16)) [
  | none ↦ result 0xFFFF_FFFF_FFFF_FFFF k
  | some s ↦ to_register (
      handle_syscall sp s
        (record { arg0 = frame.rdi; arg1 = frame.rsi; arg2 = frame.rdx; arg3 = frame.r10 }) k)
]
