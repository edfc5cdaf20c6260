-- ===== src/Tty.antt =====
-- The terminal (kernel/src/tty/mod.rs) and the keyboard buffer (kernel/src/input/mod.rs).
-- A character is its code point. The console that the terminal writes to is the list of the
-- calls made on it, or `none` before `init_console` has installed one.
pub mod Line
use new_os.Base.{
  ℕ, Bool, Option, none, some, List, [], ◌∷◌, ◌++◌, ◌&&◌, ◌||◌, ltb, leb, ◌==◌, if◌then◌else◌,
  length, Bytes,
}

-- The calls that the terminal makes on the `TextConsole` behind CONSOLE.
pub data ConsoleCall : Type 0 where
  write_char : ℕ → ConsoleCall
  backspace : ConsoleCall
  write_str : Bytes → ConsoleCall

pub record Tty : Type 0 where
  pub line_buffer : List ℕ
  pub input_queue : List (List ℕ)
  pub console : Option (List ConsoleCall)

abbrev pub new : Option (List ConsoleCall) → Tty
new console = record { line_buffer = []; input_queue = []; console = console }

-- `if let Some(ref mut console) = *CONSOLE.lock() { .. }`
unfoldable pub on_console : ConsoleCall → Tty → Tty
on_console call tty = record tty {
  console = elim tty.console [ none ↦ none | some calls ↦ some (calls ++ call ∷ []) ];
}

-- `char::is_control`
unfoldable pub is_control : ℕ → Bool
is_control c = ltb c 0x20 || leb 0x7f c && leb c 0x9f

-- `String::pop`: what is left without the last character, or `none` of an empty string.
unfoldable pub pop : List ℕ → Option (List ℕ)
pop [] = none
pop (c ∷ cs) = elim (pop cs) [ none ↦ some [] | some front ↦ some (c ∷ front) ]

unfoldable pub handle_input : ℕ → Tty → Tty
unfolding on_console is_control pop
handle_input c tty =
    if c == 10 || c == 13
    then on_console (write_char 10) (record tty {
      line_buffer = [];
      input_queue = tty.input_queue ++ (tty.line_buffer ++ 10 ∷ []) ∷ [];
    })
    else if c == 8 || c == 0x7f
    then elim (pop tty.line_buffer) [
      | none ↦ tty
      | some rest ↦ on_console backspace (record tty { line_buffer = rest })
    ]
    else if is_control c
    then tty
    else on_console (write_char c) (record tty { line_buffer = tty.line_buffer ++ c ∷ [] })

-- The oldest line, and the queue without it.
unfoldable pub read_line : Tty → Option (List ℕ) × Tty
read_line tty = elim tty.input_queue [
  | [] ↦ (none, tty)
  | line ∷ rest ↦ (some line, record tty { input_queue = rest })
]

unfoldable pub write : Bytes → Tty → Tty
unfolding on_console
write s tty = on_console (write_str s) tty

-- KEYBOARD_BUFFER
unfoldable pub add_char : ℕ → List ℕ → List ℕ
add_char c buffer = if ltb (length buffer) 128 then buffer ++ c ∷ [] else buffer

unfoldable pub read_char : List ℕ → Option ℕ × List ℕ
read_char [] = (none, [])
read_char (c ∷ rest) = (some c, rest)

-- The part of `keyboard_interrupt_handler` behind the decoder, for a decoded character.
pub record Input : Type 0 where
  pub tty : Tty
  pub buffer : List ℕ

unfoldable pub on_key : ℕ → Input → Input
unfolding handle_input add_char
on_key c s = record { tty = handle_input c s.tty; buffer = add_char c s.buffer }
