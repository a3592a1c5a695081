-- ===== src/Cryptobox/Examples.antt =====
-- internal/cryptobox at concrete bytes: a seal that puts a tag behind the secret, and stand-ins
-- for base64 and for the conversions that know one text.
use mera_drive.Base.{
  ℕ, ◌≡◌, ◌⊎◌, refl, String, none, some, List, [], ◌∷◌, ◌++◌, ◌==◌, if◌then◌else◌,
}
use mera_drive.Base.Result.{ok}
use mera_drive.Apperr.{Code, fail_with}
use mera_drive.Cryptobox.{
  Aead, Primitives, Box, err_ciphertext, seal_refresh_token, open_refresh_token,
}
use mera_drive.Cryptobox.Laws.{
  RoundTrips, IsSealed, open_refresh_token-seal_refresh_token, open_refresh_token-Decides,
}

abbrev nonce : List ℕ
nonce = 7 ∷ 8 ∷ []

-- The two bytes of the nonce, the byte of the secret, and the tag.
abbrev raw_bytes : List ℕ
raw_bytes = 7 ∷ 8 ∷ 42 ∷ 99 ∷ []

abbrev pub aead : Aead
aead = record {
  nonce_size = 2;
  seal_bytes = λ n plain. plain ++ 99 ∷ [];
  open_bytes = λ n sealed. elim sealed [ [] ↦ none | b ∷ rest ↦ some (b ∷ []) ];
}

abbrev pub lib : Primitives
lib = record {
  new_cipher = λ k. ok tt;
  new_gcm = λ k. ok aead;
  hmac = λ k m. "hmac";
  sha = λ b. "hash";
  encode_string = λ b. "BwgqYw";
  decode_string = λ s. if s == "BwgqYw" then some raw_bytes else none;
  to_bytes = λ s. 42 ∷ [];
  of_bytes = λ b. "*";
}

abbrev box : Box
box = record { aead = aead; mac = [] }

trips : RoundTrips lib box nonce "*"
trips = record { decoded = refl; converted = refl; opened = refl }

sealed_star : seal_refresh_token lib box (ok nonce) "*" ≡ ok "v1:BwgqYw"
unfolding seal_refresh_token
sealed_star = refl

open_refresh_token-seal_refresh_token_example : open_refresh_token lib box "v1:BwgqYw" ≡ ok "*"
open_refresh_token-seal_refresh_token_example =
    open_refresh_token-seal_refresh_token lib box nonce "*" trips refl "v1:BwgqYw" sealed_star

open_refresh_token-Decides_example :
    ((token : String) × (open_refresh_token lib box "v2:BwgqYw" ≡ ok token)
      × IsSealed lib box "v2:BwgqYw" token)
    ⊎ (open_refresh_token lib box "v2:BwgqYw"
        ≡ fail_with Code.reauth_required
            "This account's stored credentials could not be read. Please reconnect it."
            err_ciphertext)
open_refresh_token-Decides_example = open_refresh_token-Decides lib box "v2:BwgqYw"
