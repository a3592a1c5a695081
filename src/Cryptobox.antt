-- ===== src/Cryptobox.antt =====
-- internal/cryptobox/cryptobox.go: the sealed form of a secret. AES, GCM, HMAC, SHA-256, base64
-- and hex are the operations of `Primitives`; random bytes are arguments, or the reason why there
-- are none.
pub mod Laws
pub mod Examples
use mera_drive.Base.{
  ℕ, String, Bool, true, false, not, ◌||◌, Option, none, some, List, [], ◌∷◌, ◌++◌, ◌==◌, ◌<>◌, eqb,
  ltb, length, take, drop, cut, if◌then◌else◌,
}
use mera_drive.Base.Result.{Result, ok, err, ◌>>=◌}
use mera_drive.Apperr.{Code, Failure, other, Fault, fail_with}

abbrev pub key_size : ℕ
key_size = 32

-- The code point of ":".
abbrev pub colon : ℕ
colon = 58

-- cipher.AEAD: what it seals and opens under a nonce.
pub record Aead : Type 0 where
  pub nonce_size : ℕ
  pub seal_bytes : List ℕ → List ℕ → List ℕ
  pub open_bytes : List ℕ → List ℕ → Option (List ℕ)

pub record Primitives : Type 0 where
  -- aes.NewCipher and cipher.NewGCM
  pub new_cipher : List ℕ → Result Failure (Unit {0})
  pub new_gcm : List ℕ → Result Failure Aead
  -- hex.EncodeToString of an HMAC-SHA256, and of a SHA-256
  pub hmac : List ℕ → List ℕ → String
  pub sha : List ℕ → String
  -- base64.RawStdEncoding
  pub encode_string : List ℕ → String
  pub decode_string : String → Option (List ℕ)
  -- []byte(s) and string(b)
  pub to_bytes : String → List ℕ
  pub of_bytes : List ℕ → String

pub record Box : Type 0 where
  pub aead : Aead
  pub mac : List ℕ

-- `ErrKeySize` and `ErrCiphertext`
abbrev pub err_key_size : Failure
err_key_size = other "key must be 32 bytes"

abbrev pub err_ciphertext : Failure
err_ciphertext = other "ciphertext is invalid or was encrypted with a different key"

-- fmt.Errorf("…: %w", err)
abbrev pub wrapped : {A : Type 0} → String → Result Failure A → Result Failure A
wrapped what (ok a) = ok a
wrapped what (err f) = err f

module _ (lib : Primitives) where
  unfoldable pub new : List ℕ → List ℕ → Result Failure Box
  new encryption_key mac_key =
      if not (eqb (length encryption_key) key_size) || not (eqb (length mac_key) key_size)
      then err err_key_size
      else do
        _ ← wrapped "create cipher" (lib.new_cipher encryption_key)
        aead ← wrapped "create gcm" (lib.new_gcm encryption_key)
        ok (record { aead = aead; mac = mac_key })

  unfoldable pub seal : Box → Result Failure (List ℕ) → String → Result Failure String
  seal box random plaintext = do
    nonce ← wrapped "generate nonce" random
    ok ("v1:" <> lib.encode_string (nonce ++ box.aead.seal_bytes nonce (lib.to_bytes plaintext)))

  -- What `Open` does with the bytes behind the prefix.
  unfoldable pub open_raw : Box → List ℕ → Result Failure String
  open_raw box raw =
      let size = box.aead.nonce_size in
      if ltb (length raw) size
      then err err_ciphertext
      else elim (box.aead.open_bytes (take size raw) (drop size raw)) [
        | none ↦ err err_ciphertext
        | some plaintext ↦ ok (lib.of_bytes plaintext)
      ]

  unfoldable pub open_sealed : Box → String → Result Failure String
  unfolding cut open_raw
  open_sealed box encoded = elim (cut colon encoded) [
    | none ↦ err err_ciphertext
    | some (version, payload) ↦
        if not (version == "v1") then err err_ciphertext else elim (lib.decode_string payload) [
          | none ↦ err err_ciphertext
          | some raw ↦ open_raw box raw
        ]
  ]

  unfoldable pub sign_hmac : Box → String → String
  sign_hmac box message = lib.hmac box.mac (lib.to_bytes message)

  unfoldable pub verify_hmac : Box → String → String → Bool
  unfolding sign_hmac
  verify_hmac box message signature = sign_hmac box message == signature

  unfoldable pub hash_token : String → String
  hash_token token = lib.sha (lib.to_bytes token)

  -- `SealRefreshToken` and `OpenRefreshToken` of internal/auth/auth.go
  unfoldable pub seal_refresh_token : Box → Result Failure (List ℕ) → String → Result Fault String
  unfolding seal
  seal_refresh_token box random refresh_token = elim (seal box random refresh_token) [
    | ok sealed ↦ ok sealed
    | err f ↦ fail_with Code.internal "Could not securely store the Google credentials." f
  ]

  unfoldable pub open_refresh_token : Box → String → Result Fault String
  unfolding open_sealed
  open_refresh_token box sealed = elim (open_sealed box sealed) [
    | ok token ↦ ok token
    | err f ↦
        fail_with Code.reauth_required
          "This account's stored credentials could not be read. Please reconnect it." f
  ]
