-- ===== src/Syscall/Library.antt =====
-- The user library (userland/libturnix/src/lib.rs; userland/libnewos/src/lib.rs is an older copy).
-- A string or a buffer is its address and length in the caller's memory.
pub mod Failures
use new_os.Base.{
  ℕ, ◌+◌, ◌^◌, Bool, true, false, not, Option, none, some, List, ltb, if◌then◌else◌, Bytes, from_le,
  replicate,
}
use new_os.Task.Scheduler.{Tick}
use new_os.Syscall
use new_os.Syscall.{Syscall}
use new_os.Syscall.Handler.{
  Kernel, SyscallFrame, Dispatched, result, later, gone, crashed, syscall_dispatch, bytes_at, store,
}

-- What the argument registers hold that a call does not set.
pub record Registers : Type 0 where
  pub rdi : ℕ
  pub rsi : ℕ
  pub rdx : ℕ
  pub r10 : ℕ

abbrev pub syscall0 : ℕ → Registers → Syscall → Kernel → Dispatched
syscall0 sp g s k =
    syscall_dispatch sp
      (record { rax = Syscall.id s; rdi = g.rdi; rsi = g.rsi; rdx = g.rdx; r10 = g.r10 }) k

abbrev pub syscall1 : ℕ → Registers → Syscall → ℕ → Kernel → Dispatched
syscall1 sp g s arg0 k = syscall0 sp (record g { rdi = arg0 }) s k

abbrev pub syscall2 : ℕ → Registers → Syscall → ℕ → ℕ → Kernel → Dispatched
syscall2 sp g s arg0 arg1 k = syscall0 sp (record g { rdi = arg0; rsi = arg1 }) s k

abbrev pub syscall3 : ℕ → Registers → Syscall → ℕ → ℕ → ℕ → Kernel → Dispatched
syscall3 sp g s arg0 arg1 arg2 k = syscall0 sp (record g { rdi = arg0; rsi = arg1; rdx = arg2 }) s k

-- A call's value, now or when the task runs again; or the task does not come back.
pub data Reply (A : Type 0) : Type 0 where
  reply : A → Kernel → Reply A
  waits : A → Tick → Kernel → Reply A
  ended : Tick → Kernel → Reply A
  panics : Reply A

unfoldable pub with_result : {A : Type 0} → (ℕ → Kernel → A) → Dispatched → Reply A
with_result f (result r k) = reply (f r k) k
with_result f (later r tick k) = waits (f r k) tick k
with_result f (gone tick k) = ended tick k
with_result f crashed = panics

-- `(res as i64) < 0`
abbrev pub is_negative : ℕ → Bool
is_negative res = not (ltb res (2 ^ 63))

abbrev pub option_of : ℕ → Kernel → Option ℕ
option_of res k = if is_negative res then none else some res

abbrev pub flag_of : ℕ → Kernel → Bool
flag_of res k = not (is_negative res)

abbrev pub value_of : ℕ → Kernel → ℕ
value_of res k = res

abbrev pub nothing : ℕ → Kernel → Unit {0}
nothing res k = tt

module _ (sp : ℕ) (g : Registers) where
  unfoldable pub print : ℕ → ℕ → Kernel → Reply (Unit {0})
  unfolding with_result
  print ptr len k = with_result nothing (syscall2 sp g Syscall.write ptr len k)

  unfoldable pub read : ℕ → ℕ → ℕ → Kernel → Reply (Option ℕ)
  unfolding with_result
  read fd ptr len k = with_result option_of (syscall3 sp g Syscall.read fd ptr len k)

  unfoldable pub open_path : ℕ → ℕ → Kernel → Reply (Option ℕ)
  unfolding with_result
  open_path ptr len k = with_result option_of (syscall2 sp g Syscall.open_path ptr len k)

  unfoldable pub close : ℕ → Kernel → Reply (Unit {0})
  unfolding with_result
  close fd k = with_result nothing (syscall1 sp g Syscall.close fd k)

  unfoldable pub ls : ℕ → ℕ → Kernel → Reply (Option ℕ)
  unfolding with_result
  ls ptr len k = with_result option_of (syscall2 sp g Syscall.ls ptr len k)

  -- The Stat on the caller's stack is 16 bytes at `st`; its size and type are read back from there.
  unfoldable pub stat_of : ℕ → ℕ → Kernel → Option (ℕ × ℕ)
  stat_of st res k =
      if is_negative res
      then none
      else some (from_le (bytes_at k.memory st 8), from_le (bytes_at k.memory (st + 8) 4))

  unfoldable pub stat : ℕ → ℕ → ℕ → Kernel → Reply (Option (ℕ × ℕ))
  unfolding with_result stat_of
  stat st ptr len k = with_result (stat_of st) (
      syscall3 sp g Syscall.stat ptr len st
        (record k { memory = store k.memory st (replicate 12 0) }))

  -- What happens before the endless loop behind the call.
  unfoldable pub exec : ℕ → ℕ → Kernel → Reply (Unit {0})
  unfolding with_result
  exec ptr len k = with_result nothing (syscall2 sp g Syscall.exec ptr len k)

  unfoldable pub exit : ℕ → Kernel → Reply (Unit {0})
  unfolding with_result
  exit code k = with_result nothing (syscall1 sp g Syscall.exit code k)

  unfoldable pub uptime : Kernel → Reply ℕ
  unfolding with_result
  uptime k = with_result value_of (syscall0 sp g Syscall.uptime k)

  unfoldable pub getpid : Kernel → Reply ℕ
  unfolding with_result
  getpid k = with_result value_of (syscall0 sp g Syscall.get_pid k)

  unfoldable pub fork : Kernel → Reply ℕ
  unfolding with_result
  fork k = with_result value_of (syscall0 sp g Syscall.fork k)

  unfoldable pub seek : ℕ → ℕ → Kernel → Reply Bool
  unfolding with_result
  seek fd offset k = with_result flag_of (syscall2 sp g Syscall.seek fd offset k)

  unfoldable pub write : ℕ → ℕ → ℕ → Kernel → Reply (Option ℕ)
  unfolding with_result
  write fd ptr len k = with_result option_of (syscall3 sp g Syscall.write_file fd ptr len k)

  unfoldable pub getuid : Kernel → Reply ℕ
  unfolding with_result
  getuid k = with_result value_of (syscall0 sp g Syscall.get_uid k)

  unfoldable pub getgid : Kernel → Reply ℕ
  unfolding with_result
  getgid k = with_result value_of (syscall0 sp g Syscall.get_gid k)

  unfoldable pub mkdir : ℕ → ℕ → Kernel → Reply Bool
  unfolding with_result
  mkdir ptr len k = with_result flag_of (syscall2 sp g Syscall.mkdir ptr len k)

  unfoldable pub unlink : ℕ → ℕ → Kernel → Reply Bool
  unfolding with_result
  unlink ptr len k = with_result flag_of (syscall2 sp g Syscall.unlink ptr len k)
