-- ===== src/Syscall/Handler/Listing.antt =====
-- The directory listing of `handle_ls` (kernel/src/syscall/handler.rs).
use mathlib.Core.List.{append_assoc, append-nil}
use new_os.Base.{
  ℕ, suc, ◌+◌, ◌-◌, ◌≤◌, ◌≡◌, sym, ap, ◌∙◌, inl, inr, true, false, Bool-cases, List, [], ◌∷◌, ◌++◌,
  arith, ltb, if◌then◌else◌, length, take, length-append, Bytes,
}
use new_os.Syscall.Handler.{list_names}

-- Names as lines.
abbrev pub lines : List Bytes → Bytes
lines [] = []
lines (name ∷ names) = (name ++ 10 ∷ []) ++ lines names

-- As many names, from the first on, as fit in the room.
abbrev pub fitting : List Bytes → ℕ → ℕ
fitting [] room = 0
fitting (name ∷ names) room =
    let rest = fitting names (room - (length name + 1)) in
    if ltb room (length name + 1) then 0 else suc rest

list_names-lines :
    (names : List Bytes) (buf_len : ℕ) (out : Bytes)
    → length out ≤ buf_len
    → list_names names buf_len out
      ≡ out ++ lines (take (fitting names (buf_len - length out)) names)
unfolding list_names
list_names-lines [] buf_len out h = sym (append-nil out)
list_names-lines (name ∷ names) buf_len out h =
    elim (Bool-cases (ltb buf_len (length out + length name + 1))) [
      | inl full ↦
          let stop : ltb (buf_len - length out) (length name + 1) ≡ true = ground arith in
          rw (full, stop) (sym (append-nil out))
      | inr room ↦
          let go_on : ltb (buf_len - length out) (length name + 1) ≡ false = ground arith in
          let len : length (out ++ (name ++ 10 ∷ [])) ≡ length out + length name + 1 =
            omega
              (arith, length-append {0} out (name ++ 10 ∷ []), length-append {0} name (10 ∷ [])) in
          let left : buf_len - length (out ++ (name ++ 10 ∷ []))
              ≡ buf_len - length out - (length name + 1) =
            omega (arith, len) in
          let again =
            list_names-lines names buf_len (out ++ (name ++ 10 ∷ [])) (ground (arith, len)) in
          rw (room, go_on, again, left) (append_assoc out (name ++ 10 ∷ []) _)
    ]

length-fitting :
    (names : List Bytes) (room : ℕ) → length (lines (take (fitting names room) names)) ≤ room
length-fitting [] room = omega arith
length-fitting (name ∷ names) room = elim (Bool-cases (ltb room (length name + 1))) [
  | inl full ↦ rw full (omega arith)
  | inr fits ↦
      let here : length name + 1 ≤ room = ground arith in
      let line : length (name ++ 10 ∷ []) ≡ length name + 1 = length-append {0} name (10 ∷ []) in
      rw fits (
        omega (
          arith,
          here,
          line,
          length-fitting names (room - (length name + 1)),
          length-append {0} (name ++ 10 ∷ [])
              (lines (take (fitting names (room - (length name + 1))) names)),
        ))
]

-- `handle_ls` writes whole lines, one for each name in order, up to the first name that does not
-- fit any more; they never exceed the buffer.
pub list_names_lem :
    (names : List Bytes) (buf_len : ℕ)
    → (list_names names buf_len [] ≡ lines (take (fitting names buf_len) names))
      × (length (list_names names buf_len []) ≤ buf_len)
list_names_lem names buf_len =
    let whole : buf_len - 0 ≡ buf_len = omega arith in
    let e =
      list_names-lines names buf_len [] (omega arith)
      ∙ ap (λ (room : ℕ). lines (take (fitting names room) names)) whole in
    (e, rw e (length-fitting names buf_len))
