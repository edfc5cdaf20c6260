-- ===== src/Syscall/Tests.antt =====
-- The theorems on the system calls at a concrete kernel state.
use new_os.Base.{
  ℕ, ◌≤◌, ◌≡◌, ◌≢◌, ◌⊎◌, refl, false, true, none, some, [], ◌∷◌, ◌++◌, arith, length, set, codes,
  bytes_eq,
}
use new_os.Tty
use new_os.Vfs
use new_os.Vfs.{Vfs, VfsEntry, FileDescriptor, regular, descriptor, find_entry}
use new_os.Vfs.History.{fresh-IsValid}
use new_os.Vfs.Files.{OpenFile}
use new_os.Task.Scheduler
use new_os.Task.Scheduler.History.{boot, Reach-IsValid}
use new_os.Elf
use new_os.Elf.{ElfHeader, Parse}
use new_os.Syscall.{Syscall, SyscallArgs}
use new_os.Syscall.Handler.{
  Kernel, done, success, error, failure, bytes_at, handle_read, handle_exec, handle_syscall,
  list_names,
}
use new_os.Syscall.Handler.Files.{handle_read_lem, handle_exec_lem}
use new_os.Syscall.Handler.Keeps.{IsValid, Leaves, handle_syscall-keeps}
use new_os.Syscall.Handler.Listing.{list_names_lem}
use new_os.Syscall.Library
use new_os.Syscall.Library.{Registers, reply}
use new_os.Syscall.Library.Failures.{call_seek, failures_look_like_successes}

abbrev greeting : VfsEntry
greeting = record { name = codes "motd"; file_type = regular; contents = some (codes "hello") }

abbrev greeting_fd : FileDescriptor
greeting_fd = record { name = codes "motd"; file_type = regular; offset = 1 }

abbrev booted : Vfs
booted = record Vfs.new { entries = greeting ∷ [] }

-- A kernel after boot, with every byte of memory 0.
abbrev kernel : Kernel
kernel = record {
  vfs = booted;
  tty = Tty.new none;
  sys = record {
    sched = Scheduler.new;
    uptime_ticks = 0;
    cpu = record { privilege_stack = 0; kernel_stack_ptr = 0; cr3 = 0 };
  };
  memory = λ address. 0;
  serial = [];
}

-- The same with `motd` open in slot 0, after its first byte.
abbrev reading : Kernel
reading = record kernel {
  vfs = record booted { open_files = set booted.open_files 0 (some greeting_fd) };
}

reading-OpenFile : OpenFile reading.vfs 0 greeting_fd greeting (codes "hello")
unfolding descriptor find_entry bytes_eq
reading-OpenFile = record { slot = refl; not_tty = motd_ne; found = refl; contents = refl }
  where
    motd_ne : codes "motd" ≢ codes "tty"
    motd_ne e = cc

abbrev args : ℕ → ℕ → ℕ → SyscallArgs
args a b c = record { arg0 = a; arg1 = b; arg2 = c; arg3 = 0 }

handle_read_lem_example :
    (k' : Kernel) × (handle_read (args 0 4096 2) reading ≡ done (success 2) k')
    × (bytes_at k'.memory 4096 2 ≡ codes "el")
    × (descriptor k'.vfs 0 ≡ some (record greeting_fd { offset = 3 }))
    × (k'.vfs.entries ≡ greeting ∷ [])
unfolding bytes_at
handle_read_lem_example =
    handle_read_lem reading (args 0 4096 2) greeting_fd greeting (codes "hello")
      (omega arith, omega arith) reading-OpenFile

handle_exec_lem_example :
    ((h : ElfHeader) × (Elf.parse_header (bytes_at kernel.memory 4096 8) ≡ Parse.ok h)
      × (handle_exec (args 4096 8 0) kernel ≡ done (success h.entry) kernel))
    ⊎ ((e : Elf.ParseError) × (Elf.parse_header (bytes_at kernel.memory 4096 8) ≡ Parse.err e)
        × (handle_exec (args 4096 8 0) kernel ≡ done failure kernel))
handle_exec_lem_example =
    handle_exec_lem kernel (args 4096 8 0) (omega arith, omega arith) (omega arith)

booted-IsValid : IsValid 1 kernel
booted-IsValid = record {
  vfs = fresh-IsValid (greeting ∷ []);
  sys = Reach-IsValid (boot 0 (record { privilege_stack = 0; kernel_stack_ptr = 0; cr3 = 0 }));
}

handle_syscall-keeps_example :
    Leaves (IsValid 1) (handle_syscall 64 Syscall.unlink (args 4096 4 0) kernel)
handle_syscall-keeps_example =
    handle_syscall-keeps 1 64 Syscall.unlink (args 4096 4 0) kernel booted-IsValid

-- No file is open, so that there is nothing to seek in.
seek_fails : handle_syscall 64 Syscall.seek (args 3 5 0) kernel ≡ done (error false 1) kernel
unfolding handle_syscall new_os.Syscall.Handler.handle_seek Vfs.seek
seek_fails = refl

abbrev registers : Registers
registers = record { rdi = 0; rsi = 0; rdx = 0; r10 = 0 }

failures_look_like_successes_example : Library.seek 64 registers 3 5 kernel ≡ reply true kernel
failures_look_like_successes_example =
    failures_look_like_successes 64 registers (call_seek 3 5) kernel kernel false 1 seek_fails

list_names_lem_example :
    (list_names (codes "ab" ∷ codes "cd" ∷ []) 4 [] ≡ codes "ab" ++ 10 ∷ [])
    × (length (list_names (codes "ab" ∷ codes "cd" ∷ []) 4 []) ≤ 4)
list_names_lem_example = list_names_lem (codes "ab" ∷ codes "cd" ∷ []) 4
