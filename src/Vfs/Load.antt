-- ===== src/Vfs/Load.antt =====
-- How kernel/src/boot.rs loads a file: `open`, a buffer of the size that `stat` gives, one `read`.
use new_os.Base.{
  ℕ, zero, ◌+◌, ◌<◌, ◌≡◌, ◌≢◌, refl, ap, ◌∙◌, Option, none, some, ◌++◌, arith, length, take, drop,
  set, replicate, length-replicate, get_elem?-set_self, get_elem?-lt, take-append, take_all, Bytes,
  codes, Run, returned, unwrap, ◌>>=◌,
}
use new_os.Tty.{Tty}
use new_os.Vfs.{
  VfsEntry, FileDescriptor, Vfs, ReadResult, find_entry, first_free, open_file, descriptor, read,
  stat,
}
use new_os.Vfs.Lookup.{first_free-least}
use new_os.Vfs.Open.{open_file-eq-opened}
use new_os.Vfs.Files.{OpenFile, read_lem, read_count}

pub record Loaded : Type 0 where
  pub vfs : Vfs
  pub tty : Tty
  pub bytes : Option Bytes

-- `elf_data[..len]`
loaded_part : ReadResult → Loaded
loaded_part r = record {
  vfs = r.vfs;
  tty = r.tty;
  bytes = elim r.count [ none ↦ none | some n ↦ some (take n r.buf) ];
}

load_opened : Bytes → Tty → Vfs × Option ℕ → Run Loaded
unfolding loaded_part
load_opened path tty (v, none) = returned (record { vfs = v; tty = tty; bytes = none })
load_opened path tty (v, some fd) = do
  st ← unwrap (stat path v)
  returned (loaded_part (read fd (replicate st.size 0) v tty))

unfoldable pub load_file : Bytes → Vfs → Tty → Run Loaded
unfolding load_opened
load_file path v tty = load_opened path tty (open_file path v)

-- Loading a file that exists, is not the terminal and finds a free descriptor gives exactly its
-- bytes, and leaves a descriptor open at the end of the file; the entries stay as they are.
pub load_file-contents :
    (path : Bytes) (v : Vfs) (tty : Tty) (e : VfsEntry) (bytes : Bytes) (j : ℕ)
    → path ≢ codes "tty"
    → find_entry path v.entries ≡ some e
    → e.contents ≡ some bytes
    → first_free v.open_files ≡ some j
    → (r : Loaded) × (load_file path v tty ≡ returned r)
      × (r.bytes ≡ some bytes)
      × (descriptor r.vfs j
          ≡ some (record { name = path; file_type = e.file_type; offset = length bytes }))
      × (r.vfs.entries ≡ v.entries)
unfolding load_file
load_file-contents path v tty e bytes j ne found full free = (
  loaded_part result,
  rw (open_file-eq-opened path v, found, free) reads,
  (unfold loaded_part in rw (facts.0, facts.1) (ap some whole)),
  (unfold loaded_part in facts.2 ∙ at_end_of),
  (unfold loaded_part in facts.3),
)
  where
    fd : FileDescriptor
    fd = record { name = path; file_type = e.file_type; offset = 0 }

    v' : Vfs
    v' = record v { open_files = set v.open_files j (some fd) }

    in_table : j < length v.open_files
    in_table = get_elem?-lt v.open_files j none (first_free-least v.open_files j free).0

    buf : Bytes
    buf = replicate (length bytes) 0

    opened_file : OpenFile v' j fd e bytes
    opened_file = record {
      slot =
          unfold descriptor in
          rw (get_elem?-set_self v.open_files j (some fd) in_table, descriptor);
      not_tty = ne;
      found = found;
      contents = full;
    }

    result : ReadResult
    result = read j buf v' tty

    facts :
        (result.count ≡ some (read_count fd buf bytes))
        × (result.buf
            ≡ take (read_count fd buf bytes) (drop 0 bytes) ++ drop (read_count fd buf bytes) buf)
        × (descriptor result.vfs j ≡ some (record fd { offset = 0 + read_count fd buf bytes }))
        × (result.vfs.entries ≡ v.entries)
    facts = read_lem v' j fd e bytes buf tty opened_file

    all_read : read_count fd buf bytes ≡ length bytes
    all_read = omega (arith, length-replicate (length bytes) (zero))

    whole :
        take
          (read_count fd buf bytes)
          (take (read_count fd buf bytes) bytes ++ drop (read_count fd buf bytes) buf)
        ≡ bytes
    whole = rw (all_read, take_all bytes (length bytes) (omega arith)) (take-append bytes _ _ refl)

    at_end_of :
        some (record fd { offset = 0 + read_count fd buf bytes })
        ≡ some (record fd { offset = length bytes })
    at_end_of = ap (λ (k : ℕ). some (record fd { offset = k })) (omega (arith, all_read))

    size_of : stat path v' ≡ some (record { size = length bytes; file_type = e.file_type })
    size_of = unfold stat in rw (found, stat, full)

    reads :
        (do
          st ← unwrap (stat path v')
          returned (loaded_part (read j (replicate st.size 0) v' tty)))
        ≡ returned (loaded_part result)
    reads = rw size_of
