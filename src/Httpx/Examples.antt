-- ===== src/Httpx/Examples.antt =====
-- internal/httpx at concrete inputs.
use mera_drive.Base.{◌⊎◌, ◌≤◌, ◌<◌, refl, String, true, List, [], ◌∷◌}
use mera_drive.Apperr.{Code, error, plain, app}
use mera_drive.Httpx.{Thrown, fault, masked, to_app_error, handle_error}
use mera_drive.Httpx.Masking.{Shown, handle_error-Masks}

-- The database does not answer: the documented 502 of `/readyz`.
abbrev not_ready : Thrown
not_ready = fault (app (error Code.upstream_unavailable (plain "The database is not reachable.")))

handle_error-Masks_example :
    ((to_app_error not_ready).status < 500
      × Shown (handle_error {A = String} true "r1" not_ready) (to_app_error not_ready) "r1")
    ⊎ ((500 ≤ (to_app_error not_ready).status)
        × Shown (handle_error {A = String} true "r1" not_ready) masked "r1")
handle_error-Masks_example = handle_error-Masks {A = String} "r1" not_ready

not_ready-masked : Shown (handle_error {A = String} true "r1" not_ready) masked "r1"
unfolding handle_error to_app_error
not_ready-masked = refl

abbrev allowed : List String
allowed = "http://localhost:3000" ∷ []
