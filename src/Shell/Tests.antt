-- ===== src/Shell/Tests.antt =====
-- The printing of numbers at a concrete one.
use new_os.Base.{◌≤◌, ◌≡◌, arith, All, Bytes, length, returned}
use new_os.Shell.{print_u64}
use new_os.Shell.Decimal.{IsDigit, decimal, IsShortest, print_u64_lem}

print_u64_lem_example :
    (out : Bytes) × (print_u64 1024 ≡ returned out)
    × All IsDigit out
    × (decimal 0 out ≡ 1024)
    × IsShortest 1024 out
    × (length out ≤ 20)
print_u64_lem_example = print_u64_lem 1024 (omega arith)
