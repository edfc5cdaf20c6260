-- ===== src/Vfs/History.antt =====
-- Histories of calls on the file system (kernel/src/vfs.rs), as sequences of steps.
use new_os.Base.{ℕ, ◌≡◌, ◌≢◌, refl, none, some, List, length, get_elem?, Bytes, returned, replicate}
use new_os.Tty.{Tty}
use new_os.Vfs
use new_os.Vfs.{
  VfsEntry, FileDescriptor, Vfs, WriteResult, find_entry, open_file, descriptor, close, read, write,
  seek, chdir, mkdir, unlink, max_open_files,
}
use new_os.Vfs.Invariant.{
  IsValid, Resolves, get_elem?-descriptor, open_file-IsValid, close-IsValid, seek-IsValid,
  read-IsValid, mkdir-IsValid, unlink-IsValid, chdir-IsValid,
}
use new_os.Vfs.InvariantWrite.{write-IsValid}

-- One call of a method. The terminal may have been used by others in between, so each call meets
-- a terminal of its own.
pub data Step : Vfs → Vfs → Type 0 where
  step_open : (path : Bytes) (v : Vfs) → Step v (open_file path v).0
  step_close : (i : ℕ) (v : Vfs) → Step v (close i v).0
  step_read : (i : ℕ) (buf : Bytes) (tty : Tty) (v : Vfs) → Step v (read i buf v tty).vfs
  step_write :
      (i : ℕ) (buf : Bytes) (tty : Tty) (v : Vfs) (r : WriteResult)
      → write i buf v tty ≡ returned r
      → Step v r.vfs
  step_seek : (i offset : ℕ) (v : Vfs) → Step v (seek i offset v).0
  step_chdir : (path : Bytes) (v : Vfs) → Step v (chdir path v).0
  step_mkdir : (path : Bytes) (v : Vfs) → Step v (mkdir path v).0
  step_unlink : (path : Bytes) (v : Vfs) → Step v (unlink path v).0

pub data Reach (s : Vfs) : Vfs → Type 0 where
  here : Reach s s
  next : {v w : Vfs} → Reach s v → Step v w → Reach s w

Step-IsValid : {v w : Vfs} → Step v w → IsValid v → IsValid w
Step-IsValid (step_open path v) h = open_file-IsValid path v h
Step-IsValid (step_close i v) h = close-IsValid i v h
Step-IsValid (step_read i buf tty v) h = read-IsValid i buf v tty h
Step-IsValid (step_write i buf tty v r e) h = write-IsValid i buf v tty r e h
Step-IsValid (step_seek i offset v) h = seek-IsValid i offset v h
Step-IsValid (step_chdir path v) h = chdir-IsValid path v h
Step-IsValid (step_mkdir path v) h = mkdir-IsValid path v h
Step-IsValid (step_unlink path v) h = unlink-IsValid path v h

Reach-IsValid : {s v : Vfs} → IsValid s → Reach s v → IsValid v
Reach-IsValid h here = h
Reach-IsValid h (next r st) = Step-IsValid st (Reach-IsValid h r)

get_elem?-replicate-none :
    (n i : ℕ) (fd : FileDescriptor) → get_elem? (replicate n none) i ≢ some (some fd)
get_elem?-replicate-none ℕ.zero i fd e = cc
get_elem?-replicate-none (ℕ.suc n) ℕ.zero fd e = cc
get_elem?-replicate-none (ℕ.suc n) (ℕ.suc i) fd e = get_elem?-replicate-none n i fd e

-- The table of a fresh file system is empty, whatever entries it was given.
pub fresh-IsValid : (es : List VfsEntry) → IsValid (record Vfs.new { entries = es })
fresh-IsValid es = record {
  table = refl;
  resolved = λ i fd e. absurd (get_elem?-replicate-none 16 i fd e);
}

-- Whatever entries the file system starts with, and whatever calls of its methods follow, in any
-- order and with any arguments: the table keeps its sixteen slots, and every descriptor that is
-- open has an entry of its name whose type is the one that `open` recorded.
pub open_descriptors_resolve :
    (es : List VfsEntry) (v : Vfs) (i : ℕ) (fd : FileDescriptor)
    → Reach (record Vfs.new { entries = es }) v
    → descriptor v i ≡ some fd
    → (length v.open_files ≡ max_open_files) × Resolves v.entries fd
open_descriptors_resolve es v i fd r e =
    let h = Reach-IsValid (fresh-IsValid es) r in
    (h.table, h.resolved i fd (get_elem?-descriptor v i fd e))
