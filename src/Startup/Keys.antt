-- ===== src/Startup/Keys.antt =====
-- cmd/server/main.go: a configuration that was loaded has keys that the box takes.
use mera_drive.Base.{ℕ, ◌≡◌, ◌⊎◌, inl, inr, refl, List, length}
use mera_drive.Base.Result.{ok, err, Result-cases}
use mera_drive.Apperr.{Message}
use mera_drive.Config.{Config, Platform, load}
use mera_drive.Config.Laws.{key_val-length, load_iff}
use mera_drive.Cryptobox.{Aead, Primitives, Box, key_size}
use mera_drive.Cryptobox.Laws.{new-ok}
use mera_drive.Startup.{configuration, start}

-- AES takes every key of 32 bytes.
pub record TakesKeys (lib : Primitives) : Type 0 where
  pub cipher : (k : List ℕ) → length k ≡ key_size → lib.new_cipher k ≡ ok tt
  pub gcm : (k : List ℕ) → length k ≡ key_size → (aead : Aead) × (lib.new_gcm k ≡ ok aead)

-- The server comes up with the configuration and a box whose MAC key is the session secret, or it
-- stops with the errors of the configuration; it never gets past the configuration and then fails
-- on a key.
pub start-Decides :
    (p : Platform) (lib : Primitives)
    → TakesKeys lib
    → ((c : Config) × (box : Box) × (load p ≡ ok c)
        × (start p lib ≡ ok (c, box))
        × (box.mac ≡ c.session_secret))
      ⊎ ((ms : List Message) × (load p ≡ err ms) × (start p lib ≡ err (configuration ms)))
unfolding start
start-Decides p lib takes = elim (Result-cases (load p)) [
  | inr (ms, e) ↦ inr (ms, e, rw (e, start) refl)
  | inl (c, e) ↦
      let (same, reads, valid) = (load_iff p c).0 e in
      let long = key_val-length p "ENCRYPTION_KEY" c.encryption_key reads.encryption in
      let mac_long = key_val-length p "SESSION_SECRET" c.session_secret reads.secret in
      let (aead, gcm) = takes.gcm c.encryption_key long in
      let made =
        new-ok lib c.encryption_key c.session_secret aead long mac_long
          (takes.cipher c.encryption_key long) gcm in
      inl (c, record { aead = aead; mac = c.session_secret }, e, rw (e, start) (rw made refl), refl)
]
