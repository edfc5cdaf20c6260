-- ===== src/Repl/Commands.antt =====
-- `process_command` of kernel/src/shell.rs on any text.
use new_os.Base.{
  ℕ, ◌≡◌, ◌≢◌, refl, sym, ap, ◌∙◌, arith, true, false, Bool-cases, inl, inr, List, [], ◌∷◌, All,
  Bytes, codes, bytes_eq, bytes_eq→eq, bytes_eq_self, returned,
}
use mathlib.Core.Path.{subst}
use new_os.Repl
use new_os.Repl.CommandResult.{
  empty, help, info, ls, cat, echo, clear, version, memory, tasks, exit, unknown,
}
use new_os.Repl.{
  Text, is_whitespace, is_empty, trim_start, trim_end, prepend, parts, not_empty, split_whitespace,
  join, CommandResult, command, run_parts, process_command,
}
use new_os.Repl.Words.{Reads, split_whitespace-Reads, split_whitespace-trim, split_whitespace-nil}

-- The names of the commands.
abbrev pub known : List Text
known =
    codes "help"
    ∷ codes "info"
    ∷ codes "ls"
    ∷ codes "cat"
    ∷ codes "echo"
    ∷ codes "clear"
    ∷ codes "version"
    ∷ codes "mem"
    ∷ codes "tasks"
    ∷ codes "exit"
    ∷ []

-- What the words of a command mean.
pub data Means : List Text → CommandResult → Type 0 where
  no_words : Means [] empty
  means_help : {args : List Text} → Means (codes "help" ∷ args) help
  means_info : {args : List Text} → Means (codes "info" ∷ args) info
  means_ls : {args : List Text} → Means (codes "ls" ∷ args) ls
  means_cat : {path : Text} {args : List Text} → Means (codes "cat" ∷ path ∷ args) (cat path)
  means_usage : Means (codes "cat" ∷ []) (echo (codes "Usage: cat <file>"))
  means_echo : {args : List Text} → Means (codes "echo" ∷ args) (echo (join args))
  means_clear : {args : List Text} → Means (codes "clear" ∷ args) clear
  means_version : {args : List Text} → Means (codes "version" ∷ args) version
  means_memory : {args : List Text} → Means (codes "mem" ∷ args) memory
  means_tasks : {args : List Text} → Means (codes "tasks" ∷ args) tasks
  means_exit : {args : List Text} → Means (codes "exit" ∷ args) exit
  means_unknown :
      {name : Text} {args : List Text}
      → All (λ (k : Text). name ≢ k) known
      → Means (name ∷ args) (unknown name)

not_same : (x y : Bytes) → bytes_eq x y ≡ false → x ≢ y
not_same x y miss e =
    let hit = ap (λ (z : Bytes). bytes_eq z y) e ∙ bytes_eq_self y in ground (arith, hit, miss)

named :
    (name k : Text) (args : List Text) (r : CommandResult)
    → bytes_eq name k ≡ true
    → Means (k ∷ args) r
    → Means (name ∷ args) r
named name k args r hit m =
    subst (λ (n : Text). Means (n ∷ args) r) (sym (bytes_eq→eq name k hit)) m

cat_of-Means : (args : List Text) → Means (codes "cat" ∷ args) (Repl.cat_of args)
cat_of-Means [] = means_usage
cat_of-Means (path ∷ args) = means_cat

command-Means : (name : Text) (args : List Text) → Means (name ∷ args) (command name args)
unfolding command
command-Means name args = elim (Bool-cases (bytes_eq name (codes "help"))) [
  | inl hit ↦ rw hit (named name (codes "help") args _ hit (means_help))
  | inr m0 ↦ elim (Bool-cases (bytes_eq name (codes "info"))) [
    | inl hit ↦ rw (m0, hit) (named name (codes "info") args _ hit (means_info))
    | inr m1 ↦ elim (Bool-cases (bytes_eq name (codes "ls"))) [
      | inl hit ↦ rw (m0, m1, hit) (named name (codes "ls") args _ hit (means_ls))
      | inr m2 ↦ elim (Bool-cases (bytes_eq name (codes "cat"))) [
        | inl hit ↦ rw (m0, m1, m2, hit) (named name (codes "cat") args _ hit (cat_of-Means args))
        | inr m3 ↦ elim (Bool-cases (bytes_eq name (codes "echo"))) [
          | inl hit ↦ rw (m0, m1, m2, m3, hit) (named name (codes "echo") args _ hit (means_echo))
          | inr m4 ↦ elim (Bool-cases (bytes_eq name (codes "clear"))) [
            | inl hit ↦
                rw (m0, m1, m2, m3, m4, hit) (named name (codes "clear") args _ hit (means_clear))
            | inr m5 ↦ elim (Bool-cases (bytes_eq name (codes "version"))) [
              | inl hit ↦
                  rw (m0, m1, m2, m3, m4, m5, hit)
                    (named name (codes "version") args _ hit (means_version))
              | inr m6 ↦ elim (Bool-cases (bytes_eq name (codes "mem"))) [
                | inl hit ↦
                    rw (m0, m1, m2, m3, m4, m5, m6, hit)
                      (named name (codes "mem") args _ hit (means_memory))
                | inr m7 ↦ elim (Bool-cases (bytes_eq name (codes "tasks"))) [
                  | inl hit ↦
                      rw (m0, m1, m2, m3, m4, m5, m6, m7, hit)
                        (named name (codes "tasks") args _ hit (means_tasks))
                  | inr m8 ↦ elim (Bool-cases (bytes_eq name (codes "exit"))) [
                    | inl hit ↦
                        rw (m0, m1, m2, m3, m4, m5, m6, m7, m8, hit)
                          (named name (codes "exit") args _ hit (means_exit))
                    | inr m9 ↦
                        rw (m0, m1, m2, m3, m4, m5, m6, m7, m8, m9)
                          (means_unknown (
                            not_same name (codes "help") m0,
                            (
                              not_same name (codes "info") m1,
                              (
                                not_same name (codes "ls") m2,
                                (
                                  not_same name (codes "cat") m3,
                                  (
                                    not_same name (codes "echo") m4,
                                    (
                                      not_same name (codes "clear") m5,
                                      (
                                        not_same name (codes "version") m6,
                                        (
                                          not_same name (codes "mem") m7,
                                          (
                                            not_same name (codes "tasks") m8,
                                            (not_same name (codes "exit") m9, tt),
                                          ),
                                        ),
                                      ),
                                    ),
                                  ),
                                ),
                              ),
                            ),
                          ))
                  ]
                ]
              ]
            ]
          ]
        ]
      ]
    ]
  ]
]

-- A text that is empty, or does not start with white space.
abbrev IsTrimmed : Text → Type 0
IsTrimmed [] = Unit
IsTrimmed (c ∷ cs) = is_whitespace c ≡ false

trim_start-IsTrimmed : (text : Text) → IsTrimmed (trim_start text)
unfolding trim_start
trim_start-IsTrimmed [] = tt
trim_start-IsTrimmed (c ∷ cs) = elim (Bool-cases (is_whitespace c)) [
  | inl space ↦ rw space (trim_start-IsTrimmed cs)
  | inr other ↦ rw other other
]

trim_end-IsTrimmed : (text : Text) → IsTrimmed text → IsTrimmed (trim_end text)
unfolding trim_end
trim_end-IsTrimmed [] h = tt
trim_end-IsTrimmed (c ∷ cs) h = rw h h

not_empty-prepend :
    (c : ℕ) (ps : List Text) → (w : Text) × (ws : List Text) × (not_empty (prepend c ps) ≡ w ∷ ws)
not_empty-prepend c [] = (c ∷ [], [], refl)
not_empty-prepend c (p ∷ ps) = (c ∷ p, not_empty ps, refl)

first_word :
    (text : Text)
    → IsTrimmed text
    → is_empty text ≡ false
    → (w : Text) × (ws : List Text) × (split_whitespace text ≡ w ∷ ws)
unfolding split_whitespace parts
first_word [] h some_left = absurd (ground (arith, some_left))
first_word (c ∷ cs) h some_left = let (w, ws, e) = not_empty-prepend c (parts cs) in (w, ws, rw h e)

-- For every text the parser returns, and `parts[0]` does not panic: there are words into which white
-- space splits the text, and the command is what these words mean. No words are the empty command.
-- Otherwise the first word names the command and the others are its arguments: `cat` takes the first
-- of them and answers with its usage when there is none, `echo` takes all of them, with a space
-- between any two, and a name that is none of the ten is an unknown command.
pub process_command-Means :
    (cmd : Text)
    → (ws : List Text) × (r : CommandResult) × Reads cmd ws
      × (process_command cmd ≡ returned r)
      × Means ws r
unfolding process_command run_parts
process_command-Means cmd =
    let trimmed = trim_end (trim_start cmd) in
    let same = split_whitespace-trim cmd in
    elim (Bool-cases (is_empty trimmed)) [
      | inl nothing ↦
          let none_left = sym same ∙ split_whitespace-nil trimmed nothing in
          (
            [],
            empty,
            subst (Reads cmd) none_left (split_whitespace-Reads cmd),
            rw (process_command, nothing) refl,
            no_words,
          )
      | inr something ↦
          let (name, args, e) =
            first_word trimmed (trim_end-IsTrimmed (trim_start cmd) (trim_start-IsTrimmed cmd))
              something in
          (
            name ∷ args,
            command name args,
            subst (Reads cmd) (sym same ∙ e) (split_whitespace-Reads cmd),
            rw (process_command, something, e) refl,
            command-Means name args,
          )
    ]
