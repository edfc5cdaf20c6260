-- ===== src/Repl.antt =====
-- The command parser of the kernel's own shell (kernel/src/shell.rs). A text is its code points.
pub mod Words
pub mod Commands
pub mod Tests
use new_os.Base.{
  ℕ, Bool, true, false, ◌&&◌, ◌||◌, Option, none, some, List, [], ◌∷◌, ◌++◌, ltb, leb, ◌==◌,
  if◌then◌else◌, bytes_eq, codes, Run, returned, panicked,
}

abbrev pub Text : Type 0
Text = List ℕ

-- `char::is_whitespace`, the property White_Space of Unicode.
unfoldable pub is_whitespace : ℕ → Bool
is_whitespace c =
    (leb 9 c && leb c 13)
    || c == 0x20
    || c == 0x85
    || c == 0xa0
    || c == 0x1680
    || (leb 0x2000 c && leb c 0x200a)
    || c == 0x2028
    || c == 0x2029
    || c == 0x202f
    || c == 0x205f
    || c == 0x3000

abbrev pub is_empty : Text → Bool
is_empty [] = true
is_empty (c ∷ cs) = false

-- `str::trim`
unfoldable pub trim_start : Text → Text
trim_start [] = []
trim_start (c ∷ cs) = if is_whitespace c then trim_start cs else c ∷ cs

unfoldable pub trim_end : Text → Text
trim_end [] = []
trim_end (c ∷ cs) =
    let rest = trim_end cs in if is_whitespace c && is_empty rest then [] else c ∷ rest

-- `str::split_whitespace`: the parts between any two characters of white space that are not empty.
abbrev pub prepend : ℕ → List Text → List Text
prepend c [] = (c ∷ []) ∷ []
prepend c (p ∷ ps) = (c ∷ p) ∷ ps

unfoldable pub parts : Text → List Text
parts [] = [] ∷ []
parts (c ∷ cs) = if is_whitespace c then [] ∷ parts cs else prepend c (parts cs)

abbrev pub not_empty : List Text → List Text
not_empty [] = []
not_empty ([] ∷ ps) = not_empty ps
not_empty ((c ∷ p) ∷ ps) = (c ∷ p) ∷ not_empty ps

unfoldable pub split_whitespace : Text → List Text
unfolding parts
split_whitespace text = not_empty (parts text)

-- `join(" ")`
abbrev pub join : List Text → Text
join [] = []
join (w ∷ []) = w
join (w ∷ v ∷ ws) = w ++ 0x20 ∷ join (v ∷ ws)

pub data Response : Type 0 where
  char : ℕ → Response
  backspace newline : Response

pub data CommandResult : Type 0 where
  empty help info ls : CommandResult
  cat echo : Text → CommandResult
  clear version memory tasks exit : CommandResult
  unknown : Text → CommandResult

unfoldable pub handle_byte : ℕ → Option Response
handle_byte byte =
    if byte == 13 || byte == 10
    then some newline
    else if byte == 0x08 || byte == 0x7f
    then some backspace
    else if (leb 0x20 byte && leb byte 0x7e) || (leb 0xa0 byte && leb byte 0xff)
    then some (char byte)
    else none

abbrev pub cat_of : List Text → CommandResult
cat_of [] = echo (codes "Usage: cat <file>")
cat_of (path ∷ rest) = cat path

-- The command of a name and its arguments.
unfoldable pub command : Text → List Text → CommandResult
unfolding bytes_eq
command name args =
    if bytes_eq name (codes "help")
    then help
    else if bytes_eq name (codes "info")
    then info
    else if bytes_eq name (codes "ls")
    then ls
    else if bytes_eq name (codes "cat")
    then cat_of args
    else if bytes_eq name (codes "echo")
    then echo (join args)
    else if bytes_eq name (codes "clear")
    then clear
    else if bytes_eq name (codes "version")
    then version
    else if bytes_eq name (codes "mem")
    then memory
    else if bytes_eq name (codes "tasks")
    then tasks
    else if bytes_eq name (codes "exit")
    then exit
    else unknown name

-- `parts[0]` and what depends on it.
unfoldable pub run_parts : List Text → Run CommandResult
unfolding command
run_parts [] = panicked
run_parts (name ∷ args) = returned (command name args)

unfoldable pub process_command : Text → Run CommandResult
unfolding trim_start trim_end split_whitespace run_parts
process_command cmd =
    let trimmed = trim_end (trim_start cmd) in
    if is_empty trimmed then returned empty else run_parts (split_whitespace trimmed)
