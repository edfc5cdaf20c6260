-- ===== src/Services.antt =====
-- The service manager (userland/service-manager/src/lib.rs), without its output.
pub mod Statuses
pub mod Tests
use new_os.Base.{
  Bool, true, false, Option, none, some, List, [], ◌∷◌, ◌++◌, if◌then◌else◌, Bytes, bytes_eq, codes,
}

pub data ServiceStatus : Type 0 where
  stopped running failed : ServiceStatus

pub record Service : Type 0 where
  pub name : Bytes
  pub description : Bytes
  pub status : ServiceStatus
  pub auto_start : Bool

-- ServiceManager
abbrev pub Services : Type 0
Services = List Service

unfoldable pub register : Service → Services → Services
register service services = services ++ service ∷ []

-- The loop of `start` and of `stop`: the first service of that name gets a status.
unfoldable pub set_status : ServiceStatus → Bytes → Services → Services × Bool
set_status status name [] = ([], false)
set_status status name (s ∷ services) =
    let rest = set_status status name services in
    if bytes_eq s.name name
    then (record s { status = status } ∷ services, true)
    else (s ∷ rest.0, rest.1)

unfoldable pub start : Bytes → Services → Services × Bool
unfolding set_status
start name services = set_status running name services

unfoldable pub stop : Bytes → Services → Services × Bool
unfolding set_status
stop name services = set_status stopped name services

unfoldable pub start_all : Services → Services
start_all [] = []
start_all (s ∷ services) =
    let rest = start_all services in
    if s.auto_start then record s { status = running } ∷ rest else s ∷ rest

-- The services that `main` registers.
abbrev pub registered : Services
registered =
    record {
      name = codes "network";
      description = codes "Network daemon";
      status = stopped;
      auto_start = true;
    }
    ∷ record {
      name = codes "logger";
      description = codes "Logging daemon";
      status = stopped;
      auto_start = true;
    }
    ∷ []
