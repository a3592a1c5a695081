-- ===== src/Startup/Sweep.antt =====
-- cmd/server/main.go, pruneSessions: which sessions the sweeps take.
use mera_drive.Base.{
  ℕ, ◌/◌, ◌<◌, not, ◌≡◌, ◌≢◌, ◌↔◌, arith, false, List, [], ◌∷◌, All, Elem, Elem-select,
}
use mera_drive.Google.Errors.{second}
use mera_drive.Store.{Session}
use mera_drive.Sqlite.Tables.{Tables}
use mera_drive.Sqlite.Times.{compare_time, is_not_after}
use mera_drive.Sqlite.Sessions
use mera_drive.Startup.{Event, tick, tick_failed, done, prune_sessions}

-- The times of the sweeps that reach the database before the server ends.
abbrev pub sweeps : List Event → List ℕ
sweeps [] = []
sweeps (tick now ∷ events) = now ∷ sweeps events
sweeps (tick_failed ∷ events) = sweeps events
sweeps (done ∷ events) = []

-- Between times of different seconds the order of the texts is the order of the times.
is_not_after_seconds :
    (a b : ℕ) → a / second ≢ b / second → (is_not_after a b ≡ false) ↔ (b / second < a / second)
unfolding is_not_after compare_time
is_not_after_seconds a b h = (λ k. ground arith, λ k. ground arith)

swept :
    (now : ℕ) (t : Tables) (s : Session)
    → s.expires_at / second ≢ now / second
    → Elem s (Sessions.delete_expired now t).1.sessions
      ↔ (Elem s t.sessions × (now / second < s.expires_at / second))
unfolding Sessions.delete_expired
swept now t s h =
    let kept = Elem-select (λ (r : Session). not (is_not_after r.expires_at now)) t.sessions s in
    let order = is_not_after_seconds s.expires_at now h in
    (
      λ m. let (stored, test) = kept.0 m in (stored, order.0 (ground arith)),
      λ (m, later). let test = order.1 later in kept.1 (m, ground arith),
    )

-- The sweeps leave exactly the sessions that expire in a later second than each sweep that
-- reached the database before the end, when no sweep is in the very second in which the session
-- expires.
pub Elem-prune_sessions :
    (events : List Event) (t : Tables) (s : Session)
    → All (λ now. s.expires_at / second ≢ now / second) (sweeps events)
    → Elem s (prune_sessions events t).sessions
      ↔ (Elem s t.sessions × All (λ now. now / second < s.expires_at / second) (sweeps events))
unfolding prune_sessions
Elem-prune_sessions [] t s h = (λ m. (m, tt), λ m. m.0)
Elem-prune_sessions (tick now ∷ events) t s (h, hs) =
    let rest = Elem-prune_sessions events (Sessions.delete_expired now t).1 s hs in
    let first = swept now t s h in
    (
      λ m.
          let (left, later) = rest.0 m in
          let (stored, alive) = first.0 left in (stored, (alive, later)),
      λ (m, (alive, later)). rest.1 (first.1 (m, alive), later),
    )
Elem-prune_sessions (tick_failed ∷ events) t s h = Elem-prune_sessions events t s h
Elem-prune_sessions (done ∷ events) t s h = (λ m. (m, tt), λ m. m.0)
