-- ===== src/Repl/Tests.antt =====
-- Commands of kernel/src/shell.rs.
use new_os.Base.{◌≡◌, List, codes, returned}
use new_os.Repl.{Text, CommandResult, process_command}
use new_os.Repl.Words.{Reads}
use new_os.Repl.Commands.{Means, process_command-Means}

process_command-Means_example :
    (ws : List Text) × (r : CommandResult) × Reads (codes "  echo a  bc ") ws
    × (process_command (codes "  echo a  bc ") ≡ returned r)
    × Means ws r
process_command-Means_example = process_command-Means (codes "  echo a  bc ")
