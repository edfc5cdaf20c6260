-- ===== src/Syscall/Handler/Keeps.antt =====
-- What every call of kernel/src/syscall/handler.rs keeps: the invariants of the file system and of
-- the scheduler.
use new_os.Base.{
  ℕ, ◌≡◌, refl, Bool, true, false, Option, none, some, if◌then◌else◌, ◌==◌, ◌||◌, Run, returned,
  panicked,
}
use new_os.Vfs
use new_os.Vfs.{Vfs, FileStat, WriteResult}
use new_os.Vfs.Invariant as VfsInvariant
use new_os.Vfs.Invariant.{
  open_file-IsValid, close-IsValid, seek-IsValid, read-IsValid, mkdir-IsValid, unlink-IsValid,
}
use new_os.Vfs.InvariantWrite.{write-IsValid}
use new_os.Task.Scheduler
use new_os.Task.Scheduler.Invariant as SchedulerInvariant
use new_os.Task.Scheduler.Invariant.{mark_zombie-IsValid}
use new_os.Task.Scheduler.History.{timer_tick-IsValid}
use new_os.Elf
use new_os.Elf.{ElfHeader, Parse}
use new_os.Syscall.{Syscall, SyscallArgs}
use new_os.Syscall.Handler
use new_os.Syscall.Handler.{
  SyscallResult, success, error, failure, Kernel, Outcome, done, yielded, left, panics, bytes_at,
  store, on_ok, on_some, no_bytes, path_at, handle_syscall, handle_mkdir, handle_unlink,
  handle_write_file, handle_seek, handle_getpid, handle_uptime, handle_write, handle_read,
  handle_exit, handle_open, handle_close, handle_ls, handle_stat, handle_exec, exec_with,
  handle_yielder, count_segments,
}

-- `next_id` is the value of the counter of task identifiers.
pub record IsValid (next_id : ℕ) (k : Kernel) : Type 0 where
  pub vfs : VfsInvariant.IsValid k.vfs
  pub sys : SchedulerInvariant.IsValid next_id k.sys

-- The state that an outcome leaves; a panic leaves none.
abbrev pub Leaves : (Kernel → Type 0) → Outcome → Type 0
Leaves P (done r k) = P k
Leaves P (yielded r tick k) = P k
Leaves P (left tick k) = P k
Leaves P panics = Unit

Leaves-if :
    (P : Kernel → Type 0) (b : Bool) (o o' : Outcome)
    → Leaves P o
    → Leaves P o'
    → Leaves P (if b then o else o')
Leaves-if P true o o' h h' = h
Leaves-if P false o o' h h' = h'

module _ (n sp : ℕ) (args : SyscallArgs) (k : Kernel) (h : IsValid n k) where
  write_file-keeps : Leaves (IsValid n) (handle_write_file args k)
  unfolding handle_write_file
  write_file-keeps =
      Leaves-if (IsValid n) (no_bytes args.arg1 args.arg2) (done failure k) _ h
        (go (Vfs.write args.arg0 (bytes_at k.memory args.arg1 args.arg2) k.vfs k.tty) refl)
    where
      go :
          (r : Run WriteResult)
          → Vfs.write args.arg0 (bytes_at k.memory args.arg1 args.arg2) k.vfs k.tty ≡ r
          → Leaves (IsValid n) (elim r [
            | panicked ↦ panics
            | returned x ↦ done (on_some x.count) (record k { vfs = x.vfs; tty = x.tty })
          ])
      go panicked e = tt
      go (returned x) e = record {
        vfs = write-IsValid args.arg0 _ k.vfs k.tty x e h.vfs;
        sys = h.sys;
      }

  stat-keeps : Leaves (IsValid n) (handle_stat args k)
  unfolding handle_stat
  stat-keeps =
      Leaves-if (IsValid n) (no_bytes args.arg0 args.arg1 || args.arg2 == 0) (done failure k) _ h
        (go (Vfs.stat (path_at k.memory args.arg0 args.arg1) k.vfs))
    where
      go :
          (o : Option FileStat)
          → Leaves (IsValid n) (elim o [
            | none ↦ done failure k
            | some st ↦
                done
                  (success 0)
                  (record k { memory = store k.memory args.arg2 (Handler.stat_bytes st) })
          ])
      go none = h
      go (some st) = record { vfs = h.vfs; sys = h.sys }

  exec-keeps : Leaves (IsValid n) (handle_exec args k)
  unfolding handle_exec exec_with
  exec-keeps =
      Leaves-if (IsValid n) (no_bytes args.arg0 args.arg1) (done failure k) _ h
        (go (Elf.parse_header (bytes_at k.memory args.arg0 args.arg1)))
    where
      counted :
          (e : ElfHeader) (o : Option ℕ)
          → Leaves (IsValid n) (elim o [ none ↦ panics | some loaded ↦ done (success e.entry) k ])
      counted e none = tt
      counted e (some loaded) = h

      go :
          (p : Parse ElfHeader)
          → Leaves (IsValid n) (exec_with (bytes_at k.memory args.arg0 args.arg1) p k)
      go Parse.panics = tt
      go (Parse.err e) = h
      go (Parse.ok e) = counted e (count_segments e.program_header_count 0 _ e)

  yielder-keeps : Leaves (IsValid n) (handle_yielder sp args k)
  unfolding handle_yielder Scheduler.yield_task
  yielder-keeps =
      Leaves-if (IsValid n) (args.arg0 == 0) (done (success 0) k) _ h
        (record { vfs = h.vfs; sys = timer_tick-IsValid n sp false k.sys h.sys })

  exit-keeps : Leaves (IsValid n) (handle_exit sp args k)
  unfolding handle_exit Scheduler.exit_current_task Scheduler.yield_task
  exit-keeps = record {
    vfs = h.vfs;
    sys =
        timer_tick-IsValid n sp false (Scheduler.mark_zombie k.sys)
          (mark_zombie-IsValid n k.sys h.sys);
  }

-- Every system call, with any arguments and at any stack pointer, keeps the file system valid (the
-- table has its sixteen slots and every open descriptor has its entry) and the scheduler valid
-- (what is queued is ready, what is current runs or has exited, no task is held twice), whether it
-- returns, yields or ends the
-- task; a panic leaves no state.
pub handle_syscall-keeps :
    (n sp : ℕ) (s : Syscall) (args : SyscallArgs) (k : Kernel)
    → IsValid n k
    → Leaves (IsValid n) (handle_syscall sp s args k)
unfolding handle_syscall handle_mkdir handle_unlink handle_seek handle_getpid handle_uptime
    handle_write handle_read handle_open handle_close handle_ls
handle_syscall-keeps n sp Syscall.write args k h =
    Leaves-if (IsValid n) (no_bytes args.arg0 args.arg1) _ _ h (record { vfs = h.vfs; sys = h.sys })
handle_syscall-keeps n sp Syscall.exit args k h = exit-keeps n sp args k h
handle_syscall-keeps n sp Syscall.read args k h =
    Leaves-if (IsValid n) (no_bytes args.arg1 args.arg2) _ _ h
      (record { vfs = read-IsValid args.arg0 _ k.vfs k.tty h.vfs; sys = h.sys })
handle_syscall-keeps n sp Syscall.open_path args k h =
    Leaves-if (IsValid n) (no_bytes args.arg0 args.arg1) _ _ h
      (record { vfs = open_file-IsValid _ k.vfs h.vfs; sys = h.sys })
handle_syscall-keeps n sp Syscall.close args k h = record {
  vfs = close-IsValid args.arg0 k.vfs h.vfs;
  sys = h.sys;
}
handle_syscall-keeps n sp Syscall.exec args k h = exec-keeps n sp args k h
handle_syscall-keeps n sp Syscall.fork args k h = h
handle_syscall-keeps n sp Syscall.wait args k h = h
handle_syscall-keeps n sp Syscall.yielder args k h = yielder-keeps n sp args k h
handle_syscall-keeps n sp Syscall.uptime args k h = h
handle_syscall-keeps n sp Syscall.ls args k h =
    Leaves-if (IsValid n) (no_bytes args.arg0 args.arg1) _ _ h (record { vfs = h.vfs; sys = h.sys })
handle_syscall-keeps n sp Syscall.stat args k h = stat-keeps n sp args k h
handle_syscall-keeps n sp Syscall.get_pid args k h = h
handle_syscall-keeps n sp Syscall.seek args k h = record {
  vfs = seek-IsValid args.arg0 args.arg1 k.vfs h.vfs;
  sys = h.sys;
}
handle_syscall-keeps n sp Syscall.write_file args k h = write_file-keeps n sp args k h
handle_syscall-keeps n sp Syscall.get_uid args k h = h
handle_syscall-keeps n sp Syscall.get_gid args k h = h
handle_syscall-keeps n sp Syscall.brk args k h = h
handle_syscall-keeps n sp Syscall.mkdir args k h =
    Leaves-if (IsValid n) (no_bytes args.arg0 args.arg1) _ _ h
      (record { vfs = mkdir-IsValid _ k.vfs h.vfs; sys = h.sys })
handle_syscall-keeps n sp Syscall.unlink args k h =
    Leaves-if (IsValid n) (no_bytes args.arg0 args.arg1) _ _ h
      (record { vfs = unlink-IsValid _ k.vfs h.vfs; sys = h.sys })
