-- ===== src/Shell.antt =====
-- How the user shell prints a number (userland/shell/src/main.rs).
pub mod Decimal
pub mod Tests
use new_os.Base.{
  ℕ, zero, suc, ◌+◌, ◌/◌, ◌%◌, Bool, Option, none, some, List, [], ◌∷◌, ltb, ◌==◌, if◌then◌else◌,
  set, drop, replicate, Bytes, codes, from_utf8, Run, returned, panicked, ◌>>=◌,
}

-- The loop, by `idx`: `idx -= 1` panics at 0.
unfoldable pub fill : ℕ → ℕ → Bytes → Run (ℕ × Bytes)
fill n zero buf = if ltb 0 n then panicked else returned (0, buf)
fill n (suc idx) buf =
    let rest = fill (n / 10) idx (set buf idx (48 + n % 10)) in
    if ltb 0 n then rest else returned (suc idx, buf)

-- `from_utf8(&buf[idx..])`, and what is printed.
printed : ℕ × Bytes → Bytes
unfolding from_utf8
printed (idx, buf) = elim (from_utf8 (drop idx buf)) [ none ↦ [] | some s ↦ s ]

unfoldable pub print_u64 : ℕ → Run Bytes
unfolding fill printed
print_u64 n =
    if n == 0
    then returned (codes "0")
    else fill n 20 (replicate 20 0) >>= λ r. returned (printed r)
