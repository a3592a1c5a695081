-- ===== src/Google/Drive/Backoff.antt =====
-- internal/google/drive.go, backoffFor: the delay before a retry.
use mera_drive.Base.{ℕ, zero, suc, ◌≤◌, ◌<◌, Option, arith}
use mera_drive.Apperr.{Error}
use mera_drive.Google.Drive.{Net, max_attempts, max_backoff, delay_of, backoff_for}

-- Before an attempt below the fourth retry, and with random numbers that are at most their bound,
-- the delay is no longer than four seconds, whatever Google asked for.
pub backoff_for-le-max_backoff :
    {W Body A : Type 0} (net : Net W Body A) (attempt : ℕ) (last : Option Error) (w : W)
    → ((n : ℕ) (v : W) → (net.random n v).0 ≤ n)
    → attempt < max_attempts
    → (backoff_for net attempt last w).0 ≤ max_backoff
unfolding backoff_for
backoff_for-le-max_backoff net zero last w random h = ground (arith, random (delay_of 0) w)
backoff_for-le-max_backoff net (suc zero) last w random h = ground (arith, random (delay_of 1) w)
backoff_for-le-max_backoff net (suc (suc zero)) last w random h =
    ground (arith, random (delay_of 2) w)
backoff_for-le-max_backoff net (suc (suc (suc zero))) last w random h =
    ground (arith, random (delay_of 3) w)
backoff_for-le-max_backoff net (suc (suc (suc (suc n)))) last w random h = absurd (omega arith)
