-- ===== src/Security.antt =====
-- Capabilities and the security context (kernel/src/security/mod.rs).
pub mod Checks
use new_os.Base.{
  ℕ, ◌==◌, Bool, true, false, Option, none, some, if◌then◌else◌, Bytes, bytes_eq, codes,
}

pub record Capabilities : Type 0 where
  pub can_read : Bool
  pub can_write : Bool
  pub can_exec : Bool
  pub can_network : Bool
  pub can_admin : Bool

abbrev pub full : Capabilities
full = record {
  can_read = true;
  can_write = true;
  can_exec = true;
  can_network = true;
  can_admin = true;
}

abbrev pub basic : Capabilities
basic = record {
  can_read = true;
  can_write = true;
  can_exec = true;
  can_network = false;
  can_admin = false;
}

abbrev pub restricted : Capabilities
restricted = record {
  can_read = true;
  can_write = false;
  can_exec = false;
  can_network = false;
  can_admin = false;
}

pub record SecurityContext : Type 0 where
  pub uid : ℕ
  pub gid : ℕ
  pub caps : Capabilities
  pub is_privileged : Bool

-- CURRENT_CONTEXT.
abbrev pub Context : Type 0
Context = Option SecurityContext

abbrev pub init_context : Context
init_context = some (record { uid = 0; gid = 0; caps = full; is_privileged = true })

unfoldable pub set_context : ℕ → ℕ → Capabilities → Context
set_context uid gid caps =
    some (record { uid = uid; gid = gid; caps = caps; is_privileged = uid == 0 })

-- The match on the name.
unfoldable pub capability : Bytes → Capabilities → Bool
unfolding bytes_eq
capability cap caps =
    if bytes_eq cap (codes "read")
    then caps.can_read
    else if bytes_eq cap (codes "write")
    then caps.can_write
    else if bytes_eq cap (codes "exec")
    then caps.can_exec
    else if bytes_eq cap (codes "network")
    then caps.can_network
    else if bytes_eq cap (codes "admin")
    then caps.can_admin
    else false

unfoldable pub check_capability : Context → Bytes → Bool
unfolding capability
check_capability none cap = false
check_capability (some ctx) cap = capability cap ctx.caps

unfoldable pub get_uid : Context → ℕ
get_uid none = 0
get_uid (some ctx) = ctx.uid
