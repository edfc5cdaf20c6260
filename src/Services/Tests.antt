-- ===== src/Services/Tests.antt =====
-- The services that `main` of userland/service-manager/src/lib.rs registers.
use new_os.Base.{◌≡◌, refl, codes, bytes_eq}
use new_os.Services.{start, start_all, registered}

-- Starting all is starting each of them.
all_started :
    start_all registered ≡ (start (codes "network") (start (codes "logger") registered).0).0
unfolding start_all start bytes_eq
all_started = refl
