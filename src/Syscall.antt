-- ===== src/Syscall.antt =====
-- The system call numbers and arguments (shared/abi/src/syscall.rs).
pub mod Handler
pub mod Memory
pub mod Library
pub mod Tests
use new_os.Base.{
  ℕ, zero, suc, ◌+◌, ◌≡◌, ◌↔◌, refl, Bool, true, false, Option, none, some, arith, ◌==◌,
  if◌then◌else◌,
}

pub data Syscall : Type 0 where
  write exit read open_path close exec fork wait yielder uptime ls stat get_pid seek write_file
        get_uid get_gid brk mkdir unlink :
      Syscall

unfoldable pub from_u16 : ℕ → Option Syscall
from_u16 value =
    if value == 1
    then some write
    else if value == 2
    then some exit
    else if value == 3
    then some read
    else if value == 4
    then some open_path
    else if value == 5
    then some close
    else if value == 6
    then some exec
    else if value == 7
    then some fork
    else if value == 8
    then some wait
    else if value == 9
    then some yielder
    else if value == 10
    then some uptime
    else if value == 11
    then some ls
    else if value == 12
    then some stat
    else if value == 13
    then some get_pid
    else if value == 14
    then some seek
    else if value == 15
    then some write_file
    else if value == 16
    then some get_uid
    else if value == 17
    then some get_gid
    else if value == 18
    then some brk
    else if value == 19
    then some mkdir
    else if value == 20
    then some unlink
    else none

unfoldable pub id : Syscall → ℕ
id write = 1
id exit = 2
id read = 3
id open_path = 4
id close = 5
id exec = 6
id fork = 7
id wait = 8
id yielder = 9
id uptime = 10
id ls = 11
id stat = 12
id get_pid = 13
id seek = 14
id write_file = 15
id get_uid = 16
id get_gid = 17
id brk = 18
id mkdir = 19
id unlink = 20

pub record SyscallArgs : Type 0 where
  pub arg0 : ℕ
  pub arg1 : ℕ
  pub arg2 : ℕ
  pub arg3 : ℕ

pub record SyscallHeader : Type 0 where
  pub number : ℕ
  pub flags : ℕ
  pub reserved : ℕ

abbrev pub header_of : Syscall → SyscallHeader
header_of number = record { number = id number; flags = 0; reserved = 0 }

from_u16-id : (s : Syscall) → from_u16 (id s) ≡ some s
unfolding from_u16 id
from_u16-id write = refl
from_u16-id _ = refl

id-from_u16 : (n : ℕ) (s : Syscall) → from_u16 n ≡ some s → id s ≡ n
unfolding from_u16 id
id-from_u16 n s h = ground arith

-- `from_u16` accepts exactly the numbers of the system calls, each as the call that has it.
pub from_u16_iff : (n : ℕ) (s : Syscall) → (from_u16 n ≡ some s) ↔ (id s ≡ n)
from_u16_iff n s = (id-from_u16 n s, λ e. rw (← e) (from_u16-id s))
