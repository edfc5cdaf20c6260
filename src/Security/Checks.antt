-- ===== src/Security/Checks.antt =====
-- What the checks of capabilities grant (kernel/src/security/mod.rs).
use new_os.Base.{ℕ, ◌≡◌, refl, Bool, true, false, none, Bytes, bytes_eq, codes, if◌then◌else◌}
use new_os.Security.{
  Capabilities, full, basic, restricted, set_context, capability, check_capability, get_uid,
}

-- One set of capabilities holds another.
pub record Covers (more fewer : Capabilities) : Type 0 where
  pub read : fewer.can_read ≡ true → more.can_read ≡ true
  pub write : fewer.can_write ≡ true → more.can_write ≡ true
  pub exec : fewer.can_exec ≡ true → more.can_exec ≡ true
  pub network : fewer.can_network ≡ true → more.can_network ≡ true
  pub admin : fewer.can_admin ≡ true → more.can_admin ≡ true

-- The capability that the first true test names.
abbrev pick : Bool → Bool → Bool → Bool → Bool → Capabilities → Bool
pick is_read is_write is_exec is_network is_admin caps =
    if is_read
    then caps.can_read
    else if is_write
    then caps.can_write
    else if is_exec
    then caps.can_exec
    else if is_network
    then caps.can_network
    else if is_admin
    then caps.can_admin
    else false

pick-Covers :
    (is_read is_write is_exec is_network is_admin : Bool) (more fewer : Capabilities)
    → Covers more fewer
    → pick is_read is_write is_exec is_network is_admin fewer ≡ true
    → pick is_read is_write is_exec is_network is_admin more ≡ true
pick-Covers true w x n a more fewer c granted = c.read granted
pick-Covers false true x n a more fewer c granted = c.write granted
pick-Covers false false true n a more fewer c granted = c.exec granted
pick-Covers false false false true a more fewer c granted = c.network granted
pick-Covers false false false false true more fewer c granted = c.admin granted
pick-Covers false false false false false more fewer c granted = granted

-- A context with more capabilities, of any user and group, passes every check that one with fewer
-- passes, whatever name is asked for.
pub check_capability-Covers :
    (uid gid uid' gid' : ℕ) (more fewer : Capabilities) (cap : Bytes)
    → Covers more fewer
    → check_capability (set_context uid gid fewer) cap ≡ true
    → check_capability (set_context uid' gid' more) cap ≡ true
unfolding check_capability capability set_context
check_capability-Covers uid gid uid' gid' more fewer cap c granted =
    pick-Covers (bytes_eq cap (codes "read")) (bytes_eq cap (codes "write"))
      (bytes_eq cap (codes "exec")) (bytes_eq cap (codes "network")) (bytes_eq cap (codes "admin"))
      more fewer c granted

-- The three sets that the kernel gives out stand in a chain.
capabilities_chain : Covers full basic × Covers basic restricted
capabilities_chain = (
  record {
    read = λ h. refl;
    write = λ h. refl;
    exec = λ h. refl;
    network = λ h. refl;
    admin = λ h. refl;
  },
  record {
    read = λ h. refl;
    write = λ h. refl;
    exec = λ h. refl;
    network = λ h. h;
    admin = λ h. h;
  },
)

-- Without a context every check fails, and yet the user is root's.
no_context : (cap : Bytes) → (check_capability none cap ≡ false) × (get_uid none ≡ 0)
unfolding check_capability get_uid
no_context cap = (refl, refl)
