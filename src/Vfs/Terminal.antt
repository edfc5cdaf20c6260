-- ===== src/Vfs/Terminal.antt =====
-- Reading the terminal through the file system (kernel/src/vfs.rs, kernel/src/tty/mod.rs).
use new_os.Base.{
  ℕ, ap, ◌≡◌, refl, min, List, [], ◌∷◌, ◌++◌, All, some, Bytes, codes, length, take, drop,
  bytes_eq_self, encode_utf8, arith, length-take,
}
use new_os.Tty.{Tty, read_line}
use new_os.Tty.Line.{IsPrintable, HasInput, typed, typed_line}
use new_os.Vfs.{Vfs, FileDescriptor, descriptor, read, read_tty}

read_line-HasInput :
    (tty : Tty) (line : List ℕ) (queue : List (List ℕ))
    → HasInput tty [] (line ∷ queue)
    → (t : Tty) × (read_line tty ≡ (some line, t)) × HasInput t [] queue
unfolding read_line
read_line-HasInput tty line queue h = (
  record tty { input_queue = queue },
  rw h.input_queue refl,
  record { line_buffer = h.line_buffer; input_queue = refl },
)

read-tty :
    (v : Vfs) (i : ℕ) (fd : FileDescriptor) (buf : Bytes) (tty t : Tty) (line : List ℕ)
    → descriptor v i ≡ some fd
    → fd.name ≡ codes "tty"
    → read_line tty ≡ (some line, t)
    → read i buf v tty ≡ read_tty buf v tty (some line, t)
unfolding read
read-tty v i fd buf tty t line slot is_tty e =
    rw (slot, read, is_tty, bytes_eq_self (codes "tty"), e) refl

taken :
    (bytes buf : Bytes)
    → length (take (min (length buf) (length bytes)) bytes) ≡ min (length buf) (length bytes)
taken bytes buf = omega (arith, length-take {0} (min (length buf) (length bytes)) bytes)

-- On a terminal without input, let a line be typed with one character taken back by a backspace,
-- and the newline. A read of a descriptor of the terminal then returns as many bytes of the
-- line's UTF-8 as fit into the buffer, puts them in front of it and leaves the rest of the buffer
-- and the file system; the terminal is without input again, so what did not fit is lost.
pub typed_line_is_read :
    (v : Vfs) (i : ℕ) (fd : FileDescriptor) (buf : Bytes) (tty : Tty) (cs ds : List ℕ) (c : ℕ)
    → descriptor v i ≡ some fd
    → fd.name ≡ codes "tty"
    → All IsPrintable cs
    → IsPrintable c
    → All IsPrintable ds
    → HasInput tty [] []
    → let r = read i buf v (typed (cs ++ (c ∷ 8 ∷ ds ++ 10 ∷ [])) tty) in
      let bytes = encode_utf8 (cs ++ (ds ++ 10 ∷ [])) in
      let n = min (length buf) (length bytes) in
      (r.count ≡ some n) × (r.buf ≡ take n bytes ++ drop n buf) × (r.vfs ≡ v) × HasInput r.tty [] []
unfolding read_tty
typed_line_is_read v i fd buf tty cs ds c slot is_tty pcs pc pds h =
    let bytes = encode_utf8 (cs ++ (ds ++ 10 ∷ [])) in
    let (t, e, left) =
      read_line-HasInput (typed (cs ++ (c ∷ 8 ∷ ds ++ 10 ∷ [])) tty) (cs ++ (ds ++ 10 ∷ [])) []
        (typed_line cs ds c tty [] pcs pc pds h) in
    rw (read-tty v i fd buf _ t (cs ++ (ds ++ 10 ∷ [])) slot is_tty e) (
      refl,
      ap (λ (k : ℕ). take (min (length buf) (length bytes)) bytes ++ drop k buf) (taken bytes buf),
      refl,
      left,
    )
