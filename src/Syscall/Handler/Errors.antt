-- ===== src/Syscall/Handler/Errors.antt =====
-- How the handlers of kernel/src/syscall/handler.rs report a failure.
use new_os.Base.{
  ℕ, ◌≡◌, refl, Bool, true, false, Option, none, some, if◌then◌else◌, ◌==◌, ◌||◌, Bytes, Run,
  returned, panicked,
}
use new_os.Vfs
use new_os.Vfs.{Vfs, FileStat, WriteResult}
use new_os.Elf.{ElfHeader, Parse}
use new_os.Syscall.Handler
use new_os.Syscall.{Syscall, SyscallArgs}
use new_os.Syscall.Handler.{
  SyscallResult, success, error, failure, Memory, Kernel, Outcome, done, yielded, left, panics,
  bytes_at, store, on_ok, on_some, no_bytes, path_at, handle_syscall, handle_mkdir, handle_unlink,
  handle_write_file, handle_seek, handle_getpid, handle_uptime, handle_write, handle_read,
  handle_exit, handle_open, handle_close, handle_ls, handle_stat, handle_exec, exec_with,
  handle_yielder, count_segments,
}

-- An outcome whose result, if there is one, is a success or Error(1).
abbrev pub IsPlain : SyscallResult → Type 0
IsPlain (success n) = Unit
IsPlain (error negative n) = (negative ≡ false) × (n ≡ 1)

abbrev Plain : Outcome → Type 0
Plain (done r k) = IsPlain r
Plain (yielded r tick k) = IsPlain r
Plain (left tick k) = Unit
Plain panics = Unit

on_ok-IsPlain : (b : Bool) → IsPlain (on_ok b)
on_ok-IsPlain true = tt
on_ok-IsPlain false = (refl, refl)

on_some-IsPlain : (o : Option ℕ) → IsPlain (on_some o)
on_some-IsPlain none = (refl, refl)
on_some-IsPlain (some n) = tt

-- Both branches of a handler's first test.
Plain-if : (b : Bool) (o o' : Outcome) → Plain o → Plain o' → Plain (if b then o else o')
Plain-if true o o' h h' = h
Plain-if false o o' h h' = h'

write_file-Plain : (args : SyscallArgs) (k : Kernel) → Plain (handle_write_file args k)
unfolding handle_write_file
write_file-Plain args k =
    Plain-if (no_bytes args.arg1 args.arg2) (done failure k) _ (refl, refl)
      (go (Vfs.write args.arg0 (bytes_at k.memory args.arg1 args.arg2) k.vfs k.tty))
  where
    go :
        (r : Run WriteResult)
        → Plain (elim r [
          | panicked ↦ panics
          | returned x ↦ done (on_some x.count) (record k { vfs = x.vfs; tty = x.tty })
        ])
    go panicked = tt
    go (returned x) = on_some-IsPlain x.count

stat-Plain : (args : SyscallArgs) (k : Kernel) → Plain (handle_stat args k)
unfolding handle_stat
stat-Plain args k =
    Plain-if (no_bytes args.arg0 args.arg1 || args.arg2 == 0) (done failure k) _ (refl, refl)
      (go (Vfs.stat (path_at k.memory args.arg0 args.arg1) k.vfs))
  where
    go :
        (o : Option FileStat)
        → Plain (elim o [
          | none ↦ done failure k
          | some st ↦
              done
                (success 0)
                (record k { memory = store k.memory args.arg2 (Handler.stat_bytes st) })
        ])
    go none = (refl, refl)
    go (some st) = tt

exec_with-Plain : (bytes : Bytes) (p : Parse ElfHeader) (k : Kernel) → Plain (exec_with bytes p k)
unfolding exec_with
exec_with-Plain bytes Parse.panics k = tt
exec_with-Plain bytes (Parse.err e) k = (refl, refl)
exec_with-Plain bytes (Parse.ok h) k = go (count_segments h.program_header_count 0 bytes h)
  where
    go : (o : Option ℕ) → Plain (elim o [ none ↦ panics | some loaded ↦ done (success h.entry) k ])
    go none = tt
    go (some loaded) = tt

handle_syscall-Plain :
    (sp : ℕ) (s : Syscall) (args : SyscallArgs) (k : Kernel) → Plain (handle_syscall sp s args k)
unfolding handle_syscall handle_mkdir handle_unlink handle_seek handle_getpid handle_uptime
    handle_write handle_read handle_exit handle_open handle_close handle_ls handle_exec
    handle_yielder
handle_syscall-Plain sp Syscall.write args k =
    Plain-if (no_bytes args.arg0 args.arg1) _ _ (refl, refl) tt
handle_syscall-Plain sp Syscall.exit args k = tt
handle_syscall-Plain sp Syscall.read args k =
    Plain-if (no_bytes args.arg1 args.arg2) _ _ (refl, refl) (on_some-IsPlain _)
handle_syscall-Plain sp Syscall.open_path args k =
    Plain-if (no_bytes args.arg0 args.arg1) _ _ (refl, refl) (on_some-IsPlain _)
handle_syscall-Plain sp Syscall.close args k = tt
handle_syscall-Plain sp Syscall.exec args k =
    Plain-if (no_bytes args.arg0 args.arg1) _ _ (refl, refl) (exec_with-Plain _ _ k)
handle_syscall-Plain sp Syscall.fork args k = (refl, refl)
handle_syscall-Plain sp Syscall.wait args k = (refl, refl)
handle_syscall-Plain sp Syscall.yielder args k = Plain-if (args.arg0 == 0) _ _ tt tt
handle_syscall-Plain sp Syscall.uptime args k = tt
handle_syscall-Plain sp Syscall.ls args k =
    Plain-if (no_bytes args.arg0 args.arg1) _ _ (refl, refl) tt
handle_syscall-Plain sp Syscall.stat args k = stat-Plain args k
handle_syscall-Plain sp Syscall.get_pid args k = on_some-IsPlain _
handle_syscall-Plain sp Syscall.seek args k = on_ok-IsPlain _
handle_syscall-Plain sp Syscall.write_file args k = write_file-Plain args k
handle_syscall-Plain sp Syscall.get_uid args k = tt
handle_syscall-Plain sp Syscall.get_gid args k = tt
handle_syscall-Plain sp Syscall.brk args k = (refl, refl)
handle_syscall-Plain sp Syscall.mkdir args k =
    Plain-if (no_bytes args.arg0 args.arg1) _ _ (refl, refl) (on_ok-IsPlain _)
handle_syscall-Plain sp Syscall.unlink args k =
    Plain-if (no_bytes args.arg0 args.arg1) _ _ (refl, refl) (on_ok-IsPlain _)

-- Whatever the call, its arguments and the kernel's state: if the call fails, its error is Error(1).
pub handle_syscall-errors :
    (sp : ℕ) (s : Syscall) (args : SyscallArgs) (k k' : Kernel) (negative : Bool) (n : ℕ)
    → handle_syscall sp s args k ≡ done (error negative n) k'
    → (negative ≡ false) × (n ≡ 1)
handle_syscall-errors sp s args k k' negative n e = rw e at (handle_syscall-Plain sp s args k)
