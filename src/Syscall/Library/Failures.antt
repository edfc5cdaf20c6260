-- ===== src/Syscall/Library/Failures.antt =====
-- How userland/libturnix/src/lib.rs reads the failures of kernel/src/syscall/handler.rs.
use new_os.Base.{
  ℕ, ◌+◌, ◌%◌, ◌^◌, ◌<◌, ◌≡◌, refl, Bool, true, false, none, some, arith, replicate, from_le,
}
use new_os.Vfs.{find_entry}
use new_os.Vfs.Open.{open_file-eq-opened}
use new_os.Syscall
use new_os.Syscall.{Syscall, SyscallArgs, from_u16_iff}
use new_os.Syscall.Handler.{
  Kernel, error, failure, done, handle_syscall, handle_open, to_register, syscall_dispatch, path_at,
  result_register, no_bytes, bytes_at, store,
}
use new_os.Syscall.Handler.Errors.{handle_syscall-errors}
use new_os.Syscall.Library
use new_os.Syscall.Library.{
  Registers, reply, syscall0, with_result, option_of, flag_of, stat_of, read, open_path, ls, stat,
  seek,
}

-- The arguments that the registers carry.
abbrev pub args_of : Registers → SyscallArgs
args_of g = record { arg0 = g.rdi; arg1 = g.rsi; arg2 = g.rdx; arg3 = g.r10 }

id-lt : (s : Syscall) → Syscall.id s % 2 ^ 16 ≡ Syscall.id s
unfolding Syscall.id
id-lt Syscall.write = refl
id-lt _ = refl

-- The number that the library puts into RAX selects the handler of that call.
pub syscall0-handler :
    (sp : ℕ) (g : Registers) (s : Syscall) (k : Kernel)
    → syscall0 sp g s k ≡ to_register (handle_syscall sp s (args_of g) k)
unfolding syscall_dispatch
syscall0-handler sp g s k = rw (id-lt s, syscall_dispatch, (from_u16_iff (Syscall.id s) s).1 refl)

-- A call that fails leaves 1 in the register.
failing_call :
    {A : Type 0} (f : ℕ → Kernel → A) (sp : ℕ) (g : Registers) (s : Syscall) (k k' : Kernel)
    (negative : Bool) (n : ℕ)
    → handle_syscall sp s (args_of g) k ≡ done (error negative n) k'
    → with_result f (syscall0 sp g s k) ≡ reply (f 1 k') k'
unfolding with_result to_register result_register
failing_call f sp g s k k' negative n e =
    let (plain, one) = handle_syscall-errors sp s (args_of g) k k' negative n e in
    rw (syscall0-handler sp g s k, e, plain, one) refl

-- The calls of the library that answer with an Option or a bool, with their arguments.
pub data Call : Type 0 where
  call_read call_write : ℕ → ℕ → ℕ → Call
  call_open call_ls call_mkdir call_unlink : ℕ → ℕ → Call
  call_stat : ℕ → ℕ → ℕ → Call
  call_seek : ℕ → ℕ → Call

abbrev pub number : Call → Syscall
number (call_read fd ptr len) = Syscall.read
number (call_write fd ptr len) = Syscall.write_file
number (call_open ptr len) = Syscall.open_path
number (call_ls ptr len) = Syscall.ls
number (call_mkdir ptr len) = Syscall.mkdir
number (call_unlink ptr len) = Syscall.unlink
number (call_stat st ptr len) = Syscall.stat
number (call_seek fd offset) = Syscall.seek

abbrev pub passed : Registers → Call → Registers
passed g (call_read fd ptr len) = record g { rdi = fd; rsi = ptr; rdx = len }
passed g (call_write fd ptr len) = record g { rdi = fd; rsi = ptr; rdx = len }
passed g (call_open ptr len) = record g { rdi = ptr; rsi = len }
passed g (call_ls ptr len) = record g { rdi = ptr; rsi = len }
passed g (call_mkdir ptr len) = record g { rdi = ptr; rsi = len }
passed g (call_unlink ptr len) = record g { rdi = ptr; rsi = len }
passed g (call_stat st ptr len) = record g { rdi = ptr; rsi = len; rdx = st }
passed g (call_seek fd offset) = record g { rdi = fd; rsi = offset }

-- The state at the system call: stat has put its empty Stat on the stack.
abbrev pub entered : Call → Kernel → Kernel
entered (call_stat st ptr len) k = record k { memory = store k.memory st (replicate 12 0) }
entered _ k = k

-- The call answers as it does on success: Some of the count or the descriptor 1, Some of the Stat
-- that is on the stack, or true.
abbrev pub LooksSuccessful : ℕ → Registers → Call → Kernel → Kernel → Type 0
LooksSuccessful sp g (call_read fd ptr len) k k' = read sp g fd ptr len k ≡ reply (some 1) k'
LooksSuccessful sp g (call_write fd ptr len) k k' =
    Library.write sp g fd ptr len k ≡ reply (some 1) k'
LooksSuccessful sp g (call_open ptr len) k k' = open_path sp g ptr len k ≡ reply (some 1) k'
LooksSuccessful sp g (call_ls ptr len) k k' = ls sp g ptr len k ≡ reply (some 1) k'
LooksSuccessful sp g (call_mkdir ptr len) k k' = Library.mkdir sp g ptr len k ≡ reply true k'
LooksSuccessful sp g (call_unlink ptr len) k k' = Library.unlink sp g ptr len k ≡ reply true k'
LooksSuccessful sp g (call_stat st ptr len) k k' =
    stat sp g st ptr len k
    ≡ reply (some (from_le (bytes_at k'.memory st 8), from_le (bytes_at k'.memory (st + 8) 4))) k'
LooksSuccessful sp g (call_seek fd offset) k k' = seek sp g fd offset k ≡ reply true k'

-- Whichever of read, write, open, ls, mkdir, unlink, stat and seek of the library is called, with
-- whatever arguments and in whatever state: if the handler of its system call fails, the library's
-- function answers as on success. read, write, open and ls return Some(1), stat returns Some of what
-- its Stat holds, and mkdir, unlink and seek return true.
pub failures_look_like_successes :
    (sp : ℕ) (g : Registers) (c : Call) (k k' : Kernel) (negative : Bool) (n : ℕ)
    → handle_syscall sp (number c) (args_of (passed g c)) (entered c k) ≡ done (error negative n) k'
    → LooksSuccessful sp g c k k'
unfolding read Library.write open_path ls Library.mkdir Library.unlink stat stat_of seek
failures_look_like_successes sp g (call_read fd ptr len) k k' negative n e =
    failing_call option_of sp (passed g (call_read fd ptr len)) (number (call_read fd ptr len)) k k'
      negative n e
failures_look_like_successes sp g (call_write fd ptr len) k k' negative n e =
    failing_call option_of sp (passed g (call_write fd ptr len)) (number (call_write fd ptr len)) k
      k' negative n e
failures_look_like_successes sp g (call_open ptr len) k k' negative n e =
    failing_call option_of sp (passed g (call_open ptr len)) (number (call_open ptr len)) k k'
      negative n e
failures_look_like_successes sp g (call_ls ptr len) k k' negative n e =
    failing_call option_of sp (passed g (call_ls ptr len)) (number (call_ls ptr len)) k k' negative
      n e
failures_look_like_successes sp g (call_mkdir ptr len) k k' negative n e =
    failing_call flag_of sp (passed g (call_mkdir ptr len)) (number (call_mkdir ptr len)) k k'
      negative n e
failures_look_like_successes sp g (call_unlink ptr len) k k' negative n e =
    failing_call flag_of sp (passed g (call_unlink ptr len)) (number (call_unlink ptr len)) k k'
      negative n e
failures_look_like_successes sp g (call_stat st ptr len) k k' negative n e =
    failing_call (stat_of sp g st) sp (passed g (call_stat st ptr len))
      (number (call_stat st ptr len)) (entered (call_stat st ptr len) k) k' negative n e
failures_look_like_successes sp g (call_seek fd offset) k k' negative n e =
    failing_call flag_of sp (passed g (call_seek fd offset)) (number (call_seek fd offset)) k k'
      negative n e

-- For instance, opening a path that names no entry returns Some(1) and changes nothing.
pub open_path-missing :
    (sp : ℕ) (g : Registers) (ptr len : ℕ) (k : Kernel)
    → 0 < ptr
    → 0 < len
    → find_entry (path_at k.memory ptr len) k.vfs.entries ≡ none
    → open_path sp g ptr len k ≡ reply (some 1) k
open_path-missing sp g ptr len k hp hl missing =
    failures_look_like_successes sp g (call_open ptr len) k k false 1 fails
  where
    fails :
        handle_syscall sp Syscall.open_path (args_of (record g { rdi = ptr; rsi = len })) k
        ≡ done failure k
    fails =
        let tested : no_bytes ptr len ≡ false = ground arith in
        unfold handle_syscall handle_open in
        rw (tested, open_file-eq-opened (path_at k.memory ptr len) k.vfs, missing)
