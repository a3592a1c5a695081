-- ===== src/Cryptobox/Laws.antt =====
-- internal/cryptobox/cryptobox.go: what opens, and how it fails.
use text.Mathlib.TextLemmas.{nil-append, cons-append}
use mera_drive.Base.{
  ℕ, ◌≤◌, ◌≡◌, ◌⊎◌, refl, sym, ap, inl, inr, arith, String, some, List, ◌++◌, ◌==◌, ◌<>◌, ltb,
  eq_iff, length, length-append, take, drop, take-append, drop-append, cut, Bool-cases,
  Option-cases,
}
use mera_drive.Base.Result.{ok, err, Result-cases}
use mera_drive.Apperr.{Code, fail_with}
use mera_drive.Cryptobox.{
  Aead, Primitives, Box, key_size, err_ciphertext, colon, new, seal, open_raw, open_sealed,
  seal_refresh_token, open_refresh_token,
}

-- What the code relies on in base64, in Go's conversions and in GCM, at one nonce and one secret.
pub record RoundTrips (lib : Primitives) (box : Box) (nonce : List ℕ) (secret : String)
    : Type 0 where
  pub decoded :
      lib.decode_string
        (lib.encode_string (nonce ++ box.aead.seal_bytes nonce (lib.to_bytes secret)))
      ≡ some (nonce ++ box.aead.seal_bytes nonce (lib.to_bytes secret))
  pub converted : lib.of_bytes (lib.to_bytes secret) ≡ secret
  pub opened :
      box.aead.open_bytes nonce (box.aead.seal_bytes nonce (lib.to_bytes secret))
      ≡ some (lib.to_bytes secret)

cut-v1 : (s : String) → cut colon ("v1:" <> s) ≡ some ("v1", s)
unfolding cut
cut-v1 s = rw (cons-append "v" "1:" s, cons-append "1" ":" s, cons-append ":" "" s, nil-append) refl

open_raw-append :
    (lib : Primitives) (box : Box) (nonce sealed : List ℕ) (plain : List ℕ)
    → length nonce ≡ box.aead.nonce_size
    → box.aead.open_bytes nonce sealed ≡ some plain
    → open_raw lib box (nonce ++ sealed) ≡ ok (lib.of_bytes plain)
unfolding open_raw
open_raw-append lib box nonce sealed plain size opens = ground (
  arith,
  length-append nonce sealed,
  take-append box.aead.nonce_size nonce sealed,
  drop-append box.aead.nonce_size nonce sealed,
)

open_sealed-seal :
    (lib : Primitives) (box : Box) (nonce : List ℕ) (secret : String)
    → RoundTrips lib box nonce secret
    → length nonce ≡ box.aead.nonce_size
    → (sealed : String) → seal lib box (ok nonce) secret ≡ ok sealed
    → open_sealed lib box sealed ≡ ok secret
unfolding open_sealed seal
open_sealed-seal lib box nonce secret trips size sealed h =
    let bytes = box.aead.seal_bytes nonce (lib.to_bytes secret) in
    let form : sealed ≡ "v1:" <> lib.encode_string (nonce ++ bytes) = ground arith in
    rw
      (
        form,
        open_sealed,
        cut-v1 (lib.encode_string (nonce ++ bytes)),
        trips.decoded,
        open_raw-append lib box nonce bytes (lib.to_bytes secret) size trips.opened,
      )
      (ap ok trips.converted)

-- A refresh token that was sealed without an error, under a nonce of the cipher's length, is what
-- the same box opens.
pub open_refresh_token-seal_refresh_token :
    (lib : Primitives) (box : Box) (nonce : List ℕ) (token : String)
    → RoundTrips lib box nonce token
    → length nonce ≡ box.aead.nonce_size
    → (sealed : String) → seal_refresh_token lib box (ok nonce) token ≡ ok sealed
    → open_refresh_token lib box sealed ≡ ok token
unfolding open_refresh_token seal_refresh_token
open_refresh_token-seal_refresh_token lib box nonce token trips size sealed h =
    elim (Result-cases (seal lib box (ok nonce) token)) [
      | inl (s, e) ↦
          let same : s ≡ sealed = ground arith in
          let opens = open_sealed-seal lib box nonce token trips size s e in
          rw (sym same, open_refresh_token) (rw opens refl)
      | inr (f, e) ↦ absurd (ground arith)
    ]

-- What a sealed text that opens is made of.
pub record IsSealed (lib : Primitives) (box : Box) (encoded token : String) : Type 0 where
  pub payload : String
  pub raw : List ℕ
  pub plaintext : List ℕ
  pub version : cut colon encoded ≡ some ("v1", payload)
  pub decoded : lib.decode_string payload ≡ some raw
  pub long : box.aead.nonce_size ≤ length raw
  pub opened :
      box.aead.open_bytes (take box.aead.nonce_size raw) (drop box.aead.nonce_size raw)
      ≡ some plaintext
  pub text : lib.of_bytes plaintext ≡ token

open_raw-cases :
    (lib : Primitives) (box : Box) (raw : List ℕ)
    → (open_raw lib box raw ≡ err err_ciphertext)
      ⊎ ((plaintext : List ℕ) × (box.aead.nonce_size ≤ length raw)
          × (box.aead.open_bytes (take box.aead.nonce_size raw) (drop box.aead.nonce_size raw)
              ≡ some plaintext)
          × (open_raw lib box raw ≡ ok (lib.of_bytes plaintext)))
unfolding open_raw
open_raw-cases lib box raw = elim (Bool-cases (ltb (length raw) box.aead.nonce_size)) [
  | inl e ↦ inl (rw e refl)
  | inr e ↦
      elim (Option-cases
        (box.aead.open_bytes (take box.aead.nonce_size raw) (drop box.aead.nonce_size raw))) [
          | inl o ↦ inl (rw (e, o, open_raw) refl)
          | inr (b, o) ↦ inr (b, ground arith, o, rw (e, o, open_raw) refl)
        ]
]

open_sealed-cases :
    (lib : Primitives) (box : Box) (encoded : String)
    → (open_sealed lib box encoded ≡ err err_ciphertext)
      ⊎ ((token : String) × (open_sealed lib box encoded ≡ ok token)
          × IsSealed lib box encoded token)
unfolding open_sealed
open_sealed-cases lib box encoded = elim (Option-cases (cut colon encoded)) [
  | inl c ↦ inl (rw (c, open_sealed) refl)
  | inr ((version, payload), c) ↦ elim (Bool-cases (version == "v1")) [
    | inr v ↦ inl (rw (c, open_sealed) (rw v refl))
    | inl v ↦ elim (Option-cases (lib.decode_string payload)) [
      | inl d ↦ inl (rw (c, open_sealed) (rw v (rw d refl)))
      | inr (raw, d) ↦ elim (open_raw-cases lib box raw) [
        | inl o ↦ inl (rw (c, open_sealed) (rw v (rw (d, o) refl)))
        | inr (plaintext, long, opened, o) ↦ inr (
          lib.of_bytes plaintext,
          rw (c, open_sealed) (rw v (rw (d, o) refl)),
          record {
            payload = payload;
            raw = raw;
            plaintext = plaintext;
            version = ground (arith, eq_iff version "v1");
            decoded = d;
            long = long;
            opened = opened;
            text = refl;
          },
        )
      ]
    ]
  ]
]

-- Whatever text is stored, either it has the version, the encoding and the seal of this box, and
-- the token is what is under the seal; or the account has to be reconnected, and the error is the
-- same one for every check that fails.
pub open_refresh_token-Decides :
    (lib : Primitives) (box : Box) (encoded : String)
    → ((token : String) × (open_refresh_token lib box encoded ≡ ok token)
        × IsSealed lib box encoded token)
      ⊎ (open_refresh_token lib box encoded
          ≡ fail_with Code.reauth_required
              "This account's stored credentials could not be read. Please reconnect it."
              err_ciphertext)
unfolding open_refresh_token
open_refresh_token-Decides lib box encoded = elim (open_sealed-cases lib box encoded) [
  | inl e ↦ inr (rw (open_refresh_token, e) refl)
  | inr (token, e, s) ↦ inl (token, rw (open_refresh_token, e) refl, s)
]

-- Two keys of the right length, and a cipher that takes such keys, make a box.
pub new-ok :
    (lib : Primitives) (k m : List ℕ) (aead : Aead)
    → length k ≡ key_size
    → length m ≡ key_size
    → lib.new_cipher k ≡ ok tt
    → lib.new_gcm k ≡ ok aead
    → new lib k m ≡ ok (record { aead = aead; mac = m })
unfolding new
new-ok lib k m aead hk hm c g = ground arith
