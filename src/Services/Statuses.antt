-- ===== src/Services/Statuses.antt =====
-- What the calls of userland/service-manager/src/lib.rs do to the statuses.
use new_os.Base.{
  ◌≡◌, refl, ap, arith, Bool, true, false, Bool-cases, inl, inr, Option, none, some, [], ◌∷◌,
  if◌then◌else◌, Bytes, bytes_eq, bytes_eq→eq,
}
use new_os.Services.{ServiceStatus, Service, Services, set_status, start, stop}

-- The first service of a name.
unfoldable pub find_service : Bytes → Services → Option Service
find_service name [] = none
find_service name (s ∷ services) =
    if bytes_eq s.name name then some s else find_service name services

abbrev pub with_status : ServiceStatus → Option Service → Option Service
with_status status none = none
with_status status (some s) = some (record s { status = status })

abbrev pub is_some : Option Service → Bool
is_some none = false
is_some (some s) = true

abbrev pub Sets : ServiceStatus → Bytes → Services → Services × Bool → Type 0
Sets status name services result =
    (result.1 ≡ is_some (find_service name services))
    × ((other : Bytes)
        → find_service other result.0 ≡ (
            if bytes_eq name other
            then with_status status (find_service name services)
            else find_service other services))

set_status-Sets :
    (status : ServiceStatus) (name : Bytes) (services : Services)
    → Sets status name services (set_status status name services)
unfolding set_status find_service
set_status-Sets status name [] = (refl, λ other. ground arith)
set_status-Sets status name (s ∷ services) =
    let (answered, others) = set_status-Sets status name services in
    elim (Bool-cases (bytes_eq s.name name)) [
      | inl here ↦ (
        rw here refl,
        λ other. ground (arith, here, ap (λ n. bytes_eq n other) (bytes_eq→eq s.name name here)),
      )
      | inr further ↦ (
        rw further answered,
        λ other. elim (Bool-cases (bytes_eq name other)) [
          | inl same ↦ ground (
            arith,
            further,
            same,
            others other,
            ap (bytes_eq s.name) (bytes_eq→eq name other same),
          )
          | inr different ↦ ground (arith, further, different, others other)
        ],
      )
    ]

-- `start` and `stop` return whether a service of that name is registered; if so, the first one of that
-- name is running, or stopped, from then on; and the look-up of any other name finds what it found.
pub start_stop_lem :
    (name : Bytes) (services : Services)
    → Sets ServiceStatus.running name services (start name services)
      × Sets ServiceStatus.stopped name services (stop name services)
unfolding start stop
start_stop_lem name services = (
  set_status-Sets ServiceStatus.running name services,
  set_status-Sets ServiceStatus.stopped name services,
)
