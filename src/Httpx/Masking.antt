-- ===== src/Httpx/Masking.antt =====
-- internal/httpx/middleware.go, ErrorHandler: what a client is told.
use mera_drive.Base.{◌≤◌, ◌<◌, ◌≡◌, ◌⊎◌, refl, inl, inr, arith, String, true, some, leb, Bool-cases}
use mera_drive.Apperr.{Error}
use mera_drive.Httpx.{Thrown, Reply, failure, masked, to_app_error, handle_error}

abbrev pub Shown : {A : Type 0} → Reply A → Error → String → Type 0
Shown reply e id = reply ≡ record { status = e.status; body = some (failure e id) }

-- In production a client is told the error of the handler, with its status, when that is below
-- 500; every other error comes out as status 500 with the one fixed message, without details,
-- account or cause.
pub handle_error-Masks :
    {A : Type 0} (request_id : String) (thrown : Thrown)
    → ((to_app_error thrown).status < 500
        × Shown (handle_error {A = A} true request_id thrown) (to_app_error thrown) request_id)
      ⊎ ((500 ≤ (to_app_error thrown).status)
          × Shown (handle_error {A = A} true request_id thrown) masked request_id)
unfolding handle_error
handle_error-Masks {A} request_id thrown =
    elim (Bool-cases (leb 500 (to_app_error thrown).status)) [
      | inl e ↦ inr (ground arith, rw e refl)
      | inr e ↦ inl (ground arith, rw e refl)
    ]
