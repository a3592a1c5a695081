-- ===== src/Auth/SignIn/Trip.antt =====
-- internal/auth/state.go: which tokens SignState makes and VerifyState accepts.
use Prim.Native.Char.{Char, code}
use text.Mathlib.TextLemmas.{nil-append, cons-append}
use text.Mathlib.TextEquality.{Char-path}
use mera_drive.Base.{
  ℕ, ◌+◌, ◌*◌, ◌/◌, ◌≤◌, String, true, false, ◌≡◌, ◌≢◌, refl, sym, ap, ◌∙◌, inl, inr, arith, eq_iff,
  some, eqb, eqb_iff, ◌<>◌, cut, contains_any, Bool-cases, Option-cases,
}
use mera_drive.Base.Result.{ok}
use mera_drive.Google.Errors.{second}
use mera_drive.Auth.SignIn.{
  is_valid_intent, State, Signer, dot, minute, state_ttl, stamped, seal, sign_state, verify_hmac,
  split_token, read_payload, check_state, verify_state,
}

dot-append : (b : String) → "." <> b ≡ String.◌∷◌ "." b
dot-append b = rw (cons-append "." "" b) (rw nil-append refl)

cons-join : (c : Char) (a b : String) → String.◌∷◌ c (a <> "." <> b) ≡ String.◌∷◌ c a <> "." <> b
cons-join c a b = simp cons-append

-- What stands before and after the separator makes up the text.
cut-join : (s a b : String) → cut dot s ≡ some (a, b) → s ≡ a <> "." <> b
unfolding cut
cut-join String.[] a b h = absurd (ground arith)
cut-join (String.◌∷◌ c s) a b h = elim (Bool-cases (eqb (code c) dot)) [
  | inl e ↦
      let first : c ≡ "." = Char-path c "." ((eqb_iff (code c) dot).0 e) in
      let front : "" ≡ a = ground arith in
      let back : s ≡ b = ground arith in
      rw (sym front, sym back, first) (rw nil-append (sym (dot-append s)))
  | inr e ↦ elim (Option-cases (cut dot s)) [
    | inl f ↦ absurd (ground arith)
    | inr ((x, y), f) ↦
        let front : String.◌∷◌ c x ≡ a = ground arith in
        let back : y ≡ b = ground arith in
        rw (sym front, sym back) (ap (String.◌∷◌ c) (cut-join s x y f) ∙ cons-join c x y)
  ]
]

cut-dot : (b : String) → cut dot (String.◌∷◌ "." b) ≡ some ("", b)
unfolding cut
cut-dot b = refl

cut-append :
    (a b : String) → contains_any (eqb dot) a ≡ false → cut dot (a <> "." <> b) ≡ some (a, b)
unfolding cut contains_any
cut-append String.[] b h = rw (nil-append, dot-append b) (cut-dot b)
cut-append (String.◌∷◌ c a) b h =
    let plain : eqb (code c) dot ≡ false = ground arith in
    let rest = cut-append a b (ground arith) in rw (sym (cons-join c a b), plain, rest) refl

-- A state that a token carries, when the token and the browser's nonce are accepted at a time.
pub record Accepts (signer : Signer) (token nonce : String) (now : ℕ) (state : State) : Type 0 where
  pub encoded : String
  pub payload : String
  pub sealed : token ≡ seal signer encoded
  pub decoded : signer.decode_string encoded ≡ some payload
  pub unmarshalled : signer.unmarshal payload ≡ some state
  pub browser : state.nonce ≡ nonce
  pub with_nonce : nonce ≢ ""
  pub known_intent : is_valid_intent state.intent ≡ true
  pub not_early : state.issued_at * second ≤ now + minute
  pub not_late : now ≤ state.issued_at * second + state_ttl

check_state-ok :
    (nonce : String) (now : ℕ) (read state : State)
    → check_state nonce now read ≡ ok state
    → (read ≡ state)
      × (read.nonce ≡ nonce)
      × (nonce ≢ "")
      × (is_valid_intent read.intent ≡ true)
      × (read.issued_at * second ≤ now + minute)
      × (now ≤ read.issued_at * second + state_ttl)
unfolding check_state
check_state-ok nonce now read state h = ground (arith, eq_iff nonce "", eq_iff read.nonce nonce)

check_state-fresh :
    (state : State) (nonce : String) (now : ℕ)
    → state.nonce ≡ nonce
    → nonce ≢ ""
    → is_valid_intent state.intent ≡ true
    → state.issued_at * second ≤ now + minute
    → now ≤ state.issued_at * second + state_ttl
    → check_state nonce now state ≡ ok state
unfolding check_state
check_state-fresh state nonce now e n k a b =
    ground (arith, eq_iff nonce "", eq_iff state.nonce nonce)

-- A token that is accepted is a payload sealed with the server's own HMAC; the payload decodes to
-- the state that is returned; the state's nonce is the browser's, which is not empty; its intent
-- is one of the four; and it was issued at most fifteen minutes before and at most one minute
-- after the time of the check.
pub verify_state-Accepts :
    (signer : Signer) (token nonce : String) (now : ℕ) (state : State)
    → verify_state signer token nonce now ≡ ok state
    → Accepts signer token nonce now state
unfolding verify_state split_token read_payload verify_hmac
verify_state-Accepts signer token nonce now state h = elim (Option-cases (cut dot token)) [
  | inl e ↦ absurd (ground arith)
  | inr ((encoded, signature), e) ↦ elim (Option-cases (signer.decode_string encoded)) [
    | inl f ↦ absurd (ground arith)
    | inr (payload, f) ↦ elim (Option-cases (signer.unmarshal payload)) [
      | inl g ↦ absurd (ground arith)
      | inr (read, g) ↦
          let signed : signer.sign_hmac encoded ≡ signature =
            ground (arith, eq_iff (signer.sign_hmac encoded) signature) in
          let last : check_state nonce now read ≡ ok state = ground arith in
          let (same, browser, with_nonce, known, early, late) =
            check_state-ok nonce now read state last in
          record {
            encoded = encoded;
            payload = payload;
            sealed = rw signed (cut-join token encoded signature e);
            decoded = f;
            unmarshalled = rw (sym same) g;
            browser = rw (sym same) browser;
            with_nonce = with_nonce;
            known_intent = rw (sym same) known;
            not_early = rw (sym same) early;
            not_late = rw (sym same) late;
          }
    ]
  ]
]

-- What JSON, base64 and the HMAC document, at one state: it is marshalled to a payload that is
-- read back, and the encoded payload is not empty and has no ".", and neither is its signature
-- empty.
pub record RoundTrips (signer : Signer) (state : State) : Type 0 where
  pub payload : String
  pub marshals : signer.marshal state ≡ ok payload
  pub unmarshals : signer.unmarshal payload ≡ some state
  pub decodes : signer.decode_string (signer.encode_string payload) ≡ some payload
  pub not_empty : signer.encode_string payload ≢ ""
  pub no_dot : contains_any (eqb dot) (signer.encode_string payload) ≡ false
  pub signed : signer.sign_hmac (signer.encode_string payload) ≢ ""

-- When JSON, base64 and the HMAC can be undone at a state, as RoundTrips says, its intent is one of
-- the four and its nonce is not empty, the token that signing it gives is accepted with that nonce,
-- from the time of the signing until fifteen minutes after its full second, and gives the state
-- with the nonce and the time.
pub verify_state-sign_state :
    (signer : Signer) (state : State) (nonce token : String) (now later : ℕ)
    → RoundTrips signer (stamped state nonce now)
    → sign_state signer (ok nonce) now state ≡ ok (token, nonce)
    → nonce ≢ ""
    → is_valid_intent state.intent ≡ true
    → now ≤ later
    → later ≤ now / second * second + state_ttl
    → verify_state signer token nonce later ≡ ok (stamped state nonce now)
unfolding sign_state verify_state split_token read_payload verify_hmac
verify_state-sign_state signer state nonce token now later r h n k a b =
    let encoded = signer.encode_string r.payload in
    let sealed : token ≡ seal signer encoded = ground (arith, r.marshals) in
    let parts = cut-append encoded (signer.sign_hmac encoded) r.no_dot in
    ground (
      arith,
      sealed,
      parts,
      r.decodes,
      r.unmarshals,
      eq_iff encoded "",
      eq_iff (signer.sign_hmac encoded) "",
      eq_iff (signer.sign_hmac encoded) (signer.sign_hmac encoded),
      r.not_empty,
      r.signed,
      check_state-fresh (stamped state nonce now) nonce later refl n k (omega arith) (omega arith),
    )
