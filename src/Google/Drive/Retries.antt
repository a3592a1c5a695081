-- ===== src/Google/Drive/Retries.antt =====
-- internal/google/drive.go, call: how many requests one call may send.
use mera_drive.Base.{ℕ, zero, suc, ◌+◌, ◌≤◌, Bool, Option, none, some, ◌≡◌, arith, if◌then◌else◌}
use mera_drive.Apperr.{Error}
use mera_drive.Google.Drive.{
  Net, CallSpec, attempts_of, backoff_for, pause, attempt_once, attempts_from, call,
}

-- A count of the requests that a world has seen: a request adds at most one, a wait and a random
-- number add none.
pub record Counts {W Body A : Type 0} (net : Net W Body A) (count : W → ℕ) : Type 0 where
  pub sends : (spec : CallSpec Body) (w : W) → count (net.send spec w).1 ≤ count w + 1
  pub waits : (d : ℕ) (w : W) → count (net.wait d w).1 ≡ count w
  pub draws : (n : ℕ) (w : W) → count (net.random n w).1 ≡ count w

module _ {W Body A : Type 0} (net : Net W Body A) (count : W → ℕ) (c : Counts net count) where
  count-backoff :
      (attempt : ℕ) (last : Option Error) (w : W)
      → count (backoff_for net attempt last w).1 ≡ count w
  unfolding backoff_for
  count-backoff attempt last w = grind (arith, c.draws)

  count-pause :
      (attempt : ℕ) (last : Option Error) (w : W) → count (pause net attempt last w).1 ≡ count w
  unfolding pause
  count-pause attempt last w = grind (arith, c.waits, count-backoff)

  count-attempt :
      (out : A) (wanted : Bool) (spec : CallSpec Body) (w : W)
      → count (attempt_once net out wanted spec w).1 ≤ count w + 1
  unfolding attempt_once
  count-attempt out wanted spec w = ground (arith, c.sends spec w)

  count-attempts_from :
      (out : A) (wanted : Bool) (spec : CallSpec Body) (left attempt : ℕ) (last : Option Error)
      (w : W)
      → count (attempts_from net out wanted spec left attempt last w).1 ≤ count w + left
  unfolding attempts_from
  count-attempts_from out wanted spec zero attempt last w = ground arith
  count-attempts_from out wanted spec (suc left) attempt last w =
      let w1 = (pause net attempt last w).1 in
      let w2 = (attempt_once net out wanted spec w1).1 in
      grind (
        arith,
        count-pause attempt last w,
        count-attempt out wanted spec w1,
        λ (e : Error). count-attempts_from out wanted spec left (attempt + 1) (some e) w2,
      )

-- By any count of requests to which a request adds at most one and a wait or a random number adds
-- none, one call adds at most four, and at most one where the request is not idempotent.
pub count-call :
    {W Body A : Type 0} (net : Net W Body A) (count : W → ℕ) (out : A) (wanted : Bool)
    (spec : CallSpec Body) (w : W)
    → Counts net count
    → count (call net out wanted spec w).1 ≤ count w + (if spec.idempotent then 4 else 1)
unfolding call
count-call net count out wanted spec w c =
    ground (arith, count-attempts_from net count c out wanted spec (attempts_of spec) 0 none w)
