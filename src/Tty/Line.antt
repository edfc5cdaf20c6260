-- ===== src/Tty/Line.antt =====
-- Editing a line on the terminal (kernel/src/tty/mod.rs).
use mathlib.Core.List.{append_assoc, append-nil}
use new_os.Base.{ℕ, ◌≡◌, refl, false, some, List, [], ◌∷◌, ◌++◌, arith, All}
use new_os.Tty.{Tty, handle_input, is_control, pop, on_console}

-- A character that the terminal takes into the line.
abbrev pub IsPrintable : ℕ → Type 0
IsPrintable c = is_control c ≡ false

-- The characters typed one after the other.
abbrev pub typed : List ℕ → Tty → Tty
typed [] tty = tty
typed (c ∷ cs) tty = typed cs (handle_input c tty)

-- The input of a terminal that does not depend on the console.
pub record HasInput (tty : Tty) (line : List ℕ) (queue : List (List ℕ)) : Type 0 where
  pub line_buffer : tty.line_buffer ≡ line
  pub input_queue : tty.input_queue ≡ queue

handle_input-printable :
    (c : ℕ) (tty : Tty) (line : List ℕ) (queue : List (List ℕ))
    → IsPrintable c
    → HasInput tty line queue
    → HasInput (handle_input c tty) (line ++ c ∷ []) queue
unfolding handle_input is_control on_console
handle_input-printable c tty line queue printable h = record {
  line_buffer = ground (arith, h.line_buffer);
  input_queue = ground (arith, h.input_queue);
}

typed-HasInput :
    (cs : List ℕ) (tty : Tty) (line : List ℕ) (queue : List (List ℕ))
    → All IsPrintable cs
    → HasInput tty line queue
    → HasInput (typed cs tty) (line ++ cs) queue
typed-HasInput [] tty line queue printable h = rw append-nil h
typed-HasInput (c ∷ cs) tty line queue printable h = rw (← append_assoc line (c ∷ []) cs) (
    typed-HasInput cs (handle_input c tty) (line ++ c ∷ []) queue printable.1
      (handle_input-printable c tty line queue printable.0 h))

enter-HasInput :
    (tty : Tty) (line : List ℕ) (queue : List (List ℕ))
    → HasInput tty line queue
    → HasInput (handle_input 10 tty) [] (queue ++ (line ++ 10 ∷ []) ∷ [])
unfolding handle_input on_console
enter-HasInput tty line queue h = record {
  line_buffer = refl;
  input_queue = rw (h.line_buffer, h.input_queue) refl;
}

pop-append : (cs : List ℕ) (c : ℕ) → pop (cs ++ c ∷ []) ≡ some cs
unfolding pop
pop-append [] c = refl
pop-append (x ∷ cs) c = rw (pop-append cs c) refl

backspace-HasInput :
    (tty : Tty) (line : List ℕ) (c : ℕ) (queue : List (List ℕ))
    → HasInput tty (line ++ c ∷ []) queue
    → HasInput (handle_input 8 tty) line queue
unfolding handle_input on_console
backspace-HasInput tty line c queue h = record {
  line_buffer = rw (h.line_buffer, pop-append line c) refl;
  input_queue = rw (h.line_buffer, pop-append line c) h.input_queue;
}

typed-append : (cs ds : List ℕ) (tty : Tty) → typed (cs ++ ds) tty ≡ typed ds (typed cs tty)
typed-append [] ds tty = refl
typed-append (c ∷ cs) ds tty = typed-append cs ds (handle_input c tty)

-- Typing printable characters, then one more, which a backspace takes back, then others, and the
-- newline: the line that is queued behind the earlier ones has the first and the last characters
-- and the newline, without the one taken back; and the next line starts empty.
pub typed_line :
    (cs ds : List ℕ) (c : ℕ) (tty : Tty) (queue : List (List ℕ))
    → All IsPrintable cs
    → IsPrintable c
    → All IsPrintable ds
    → HasInput tty [] queue
    → HasInput
        (typed (cs ++ (c ∷ 8 ∷ ds ++ 10 ∷ [])) tty)
        []
        (queue ++ (cs ++ (ds ++ 10 ∷ [])) ∷ [])
typed_line cs ds c tty queue pcs pc pds h =
    let one = typed-HasInput cs tty [] queue pcs h in
    let two = handle_input-printable c (typed cs tty) cs queue pc one in
    let back = backspace-HasInput (handle_input c (typed cs tty)) cs c queue two in
    let edited = handle_input 8 (handle_input c (typed cs tty)) in
    let three = typed-HasInput ds edited cs queue pds back in
    rw
      (
        typed-append cs (c ∷ 8 ∷ ds ++ 10 ∷ []) tty,
        typed-append ds (10 ∷ []) edited,
        ← append_assoc cs ds (10 ∷ []),
      )
      (enter-HasInput (typed ds edited) (cs ++ ds) queue three)
