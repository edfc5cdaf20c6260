-- ===== src/Syscall/Memory.antt =====
-- The address space as the handlers of kernel/src/syscall/handler.rs read and write it.
use new_os.Base.{
  ℕ, zero, suc, ◌+◌, ◌<◌, ◌≡◌, refl, ap, ◌∙◌, [], ◌∷◌, arith, ◌==◌, if◌then◌else◌, length, Bytes,
}
use new_os.Syscall.Handler.{Memory, bytes_at, store}

pub length-bytes_at : (m : Memory) (ptr len : ℕ) → length (bytes_at m ptr len) ≡ len
unfolding bytes_at
length-bytes_at m ptr zero = refl
length-bytes_at m ptr (suc len) = ap suc (length-bytes_at m (ptr + 1) len)

-- A write changes no byte below its address.
store_below : (m : Memory) (ptr : ℕ) (bs : Bytes) (a : ℕ) → a < ptr → store m ptr bs a ≡ m a
unfolding store
store_below m ptr [] a h = refl
store_below m ptr (b ∷ bs) a h =
    store_below (λ x. if x == ptr then b else m x) (ptr + 1) bs a (omega arith) ∙ ground arith

-- What was written is read back.
pub bytes_at-store :
    (m : Memory) (ptr : ℕ) (bs : Bytes) → bytes_at (store m ptr bs) ptr (length bs) ≡ bs
unfolding bytes_at store
bytes_at-store m ptr [] = refl
bytes_at-store m ptr (b ∷ bs) =
    let m' : Memory = λ x. if x == ptr then b else m x in
    let first : store m' (ptr + 1) bs ptr ≡ b =
      store_below m' (ptr + 1) bs ptr (omega arith) ∙ ground arith in
    rw (first, bytes_at-store m' (ptr + 1) bs)
