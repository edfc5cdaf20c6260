-- ===== src/Syscall/Handler/Files.antt =====
-- The handlers of kernel/src/syscall/handler.rs that read, list and execute.
use new_os.Base.{
  ℕ, zero, suc, ◌+◌, ◌<◌, ◌≡◌, refl, sym, ap, ◌∙◌, ◌⊎◌, inl, inr, false, Option, none, some, ◌++◌,
  arith, length, take, drop, Bytes, u64_mod, length-append, length-take, length-drop,
}
use new_os.Vfs
use new_os.Vfs.{VfsEntry, FileDescriptor, Vfs, find_entry, descriptor}
use new_os.Vfs.Files.{OpenFile, read_lem, read_count}
use new_os.Elf
use new_os.Elf.{ElfHeader, ProgramHeader, Parse}
use new_os.Elf.Safety.{parse_header-ne-panics}
use new_os.Elf.ProgramHeaders.{parse_program_header_lem}
use new_os.Syscall.{SyscallArgs}
use new_os.Syscall.Handler.{
  success, failure, Kernel, done, bytes_at, store, no_bytes, handle_read, handle_exec, exec_with,
  count_segments,
}
use new_os.Syscall.Memory.{length-bytes_at, bytes_at-store}

-- A pointer that is not null, and a length that is not 0.
abbrev pub HasBytes : ℕ → ℕ → Type 0
HasBytes ptr len = (0 < ptr) × (0 < len)

no_bytes-false : (ptr len : ℕ) → HasBytes ptr len → no_bytes ptr len ≡ false
no_bytes-false ptr len h = ground arith

read_buf_length :
    (fd : FileDescriptor) (buf bytes : Bytes)
    → length (
        take (read_count fd buf bytes) (drop fd.offset bytes) ++ drop (read_count fd buf bytes) buf)
      ≡ length buf
read_buf_length fd buf bytes = omega (
  arith,
  length-append {0} (take (read_count fd buf bytes) (drop fd.offset bytes))
      (drop (read_count fd buf bytes) buf),
  length-take {0} (read_count fd buf bytes) (drop fd.offset bytes),
  length-drop {0} fd.offset bytes,
  length-drop {0} (read_count fd buf bytes) buf,
)

-- The read system call on an open regular file, with a buffer that is not null or empty: with n the
-- lesser of the buffer's length and of the bytes behind the offset, it returns n; the caller's
-- buffer then holds the file's next n bytes followed by what it held there before; the offset has
-- moved on by n; and the entries of the file system are unchanged.
pub handle_read_lem :
    (k : Kernel) (args : SyscallArgs) (fd : FileDescriptor) (e : VfsEntry) (bytes : Bytes)
    → HasBytes args.arg1 args.arg2
    → OpenFile k.vfs args.arg0 fd e bytes
    → let buf = bytes_at k.memory args.arg1 args.arg2 in
      let n = read_count fd buf bytes in
      (k' : Kernel) × (handle_read args k ≡ done (success n) k')
      × (bytes_at k'.memory args.arg1 args.arg2 ≡ take n (drop fd.offset bytes) ++ drop n buf)
      × (descriptor k'.vfs args.arg0 ≡ some (record fd { offset = fd.offset + n }))
      × (k'.vfs.entries ≡ k.vfs.entries)
unfolding handle_read
handle_read_lem k args fd e bytes some_bytes h =
    let buf = bytes_at k.memory args.arg1 args.arg2 in
    let r = Vfs.read args.arg0 buf k.vfs k.tty in
    let (count, filled, moved, kept) = read_lem k.vfs args.arg0 fd e bytes buf k.tty h in
    let len : length r.buf ≡ args.arg2 =
      ap length filled
      ∙ read_buf_length fd buf bytes
      ∙ length-bytes_at k.memory args.arg1 args.arg2 in
    (
      record k { vfs = r.vfs; tty = r.tty; memory = store k.memory args.arg1 r.buf },
      rw (no_bytes-false args.arg1 args.arg2 some_bytes, count),
      ap (λ (l : ℕ). bytes_at (store k.memory args.arg1 r.buf) args.arg1 l) (sym len)
          ∙ bytes_at-store k.memory args.arg1 r.buf
          ∙ filled,
      moved,
      kept,
    )

-- Counting the segments of an accepted file never indexes out of range.
count_segments_total :
    (n i : ℕ) (bytes : Bytes) (h : ElfHeader)
    → Elf.parse_header bytes ≡ Parse.ok h
    → length bytes < u64_mod
    → (loaded : ℕ) × (count_segments n i bytes h ≡ some loaded)
unfolding count_segments
count_segments_total zero i bytes h e small = (0, refl)
count_segments_total (suc n) i bytes h e small =
    let (loaded, rest) = count_segments_total n (i + 1) bytes h e small in
    round loaded rest (Elf.parse_program_header bytes h i) refl
  where
    round :
        (loaded : ℕ)
        → count_segments n (i + 1) bytes h ≡ some loaded
        → (p : Parse (Option ProgramHeader)) → Elf.parse_program_header bytes h i ≡ p
        → (total : ℕ) × (count_segments (suc n) i bytes h ≡ some total)
    round loaded rest Parse.panics p =
        absurd (ground (arith, parse_program_header_lem bytes h i e small, p))
    round loaded rest (Parse.err x) p = (loaded, rw (p, count_segments, rest))
    round loaded rest (Parse.ok none) p = (loaded, rw (p, count_segments, rest))
    round loaded rest (Parse.ok (some ph)) p = (loaded + 1, rw (p, count_segments, rest))

-- The exec system call on bytes that are not null or empty, fewer than 2^64 of them, never panics,
-- and changes nothing: it returns the entry point if the header is accepted, whatever the program
-- headers are, and fails otherwise.
pub handle_exec_lem :
    (k : Kernel) (args : SyscallArgs)
    → HasBytes args.arg0 args.arg1
    → args.arg1 < u64_mod
    → let parsed = Elf.parse_header (bytes_at k.memory args.arg0 args.arg1) in
      ((h : ElfHeader) × (parsed ≡ Parse.ok h) × (handle_exec args k ≡ done (success h.entry) k))
      ⊎ ((e : Elf.ParseError) × (parsed ≡ Parse.err e) × (handle_exec args k ≡ done failure k))
handle_exec_lem k args some_bytes small = go (Elf.parse_header bytes) refl
  where
    bytes : Bytes
    bytes = bytes_at k.memory args.arg0 args.arg1

    go :
        (p : Parse ElfHeader)
        → Elf.parse_header bytes ≡ p
        → ((h : ElfHeader) × (Elf.parse_header bytes ≡ Parse.ok h)
            × (handle_exec args k ≡ done (success h.entry) k))
          ⊎ ((e : Elf.ParseError) × (Elf.parse_header bytes ≡ Parse.err e)
              × (handle_exec args k ≡ done failure k))
    go Parse.panics p = absurd (parse_header-ne-panics bytes p)
    go (Parse.err e) p = inr (
      e,
      p,
      (unfold handle_exec exec_with in rw (no_bytes-false args.arg0 args.arg1 some_bytes, p)),
    )
    go (Parse.ok h) p =
        let (loaded, counted) =
          count_segments_total h.program_header_count 0 bytes h p
            (rw (length-bytes_at k.memory args.arg0 args.arg1) small) in
        inl (
          h,
          p,
          (unfold handle_exec exec_with in
              rw (no_bytes-false args.arg0 args.arg1 some_bytes, p, exec_with, counted)),
        )
