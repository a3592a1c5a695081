-- ===== src/Startup/Examples.antt =====
-- cmd/server/main.go at concrete inputs.
use mera_drive.Base.{◌*◌, ◌/◌, ◌<◌, ◌↔◌, refl, arith, List, [], ◌∷◌, All, Elem}
use mera_drive.Base.Result.{ok}
use mera_drive.Samples.{laptop, tables}
use mera_drive.Google.Errors.{second}
use mera_drive.Config.Examples.{platform}
use mera_drive.Cryptobox.Examples.{aead, lib}
use mera_drive.Startup.{Event, tick, tick_failed, done, prune_sessions}
use mera_drive.Startup.Keys.{TakesKeys}
use mera_drive.Startup.Ready.{Decides, bring_up-Decides}
use mera_drive.Sqlite.Migrations.Examples.{blank, scripts, interrupted}
use mera_drive.Startup.Sweep.{sweeps, Elem-prune_sessions}

takes : TakesKeys lib
takes = record { cipher = λ k h. refl; gcm = λ k h. (aead, refl) }

bring_up-Decides_example : Decides platform lib (ok blank) scripts interrupted
bring_up-Decides_example = bring_up-Decides platform lib (ok blank) scripts interrupted takes

-- A sweep before the session expires, one that fails, and one behind the end.
abbrev events : List Event
events = tick (500 * second) ∷ tick_failed ∷ done ∷ tick (2000 * second) ∷ []

Elem-prune_sessions_example : Elem laptop (prune_sessions events tables).sessions ↔ (
    Elem laptop tables.sessions
    × All (λ now. now / second < laptop.expires_at / second) (sweeps events))
Elem-prune_sessions_example = Elem-prune_sessions events tables laptop (λ e. omega arith, tt)
