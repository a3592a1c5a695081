-- ===== src/Files/Cursor.antt =====
-- internal/files/cursor.go. A cursor is a map, here a list of account ids with their page tokens;
-- encoding/base64 and encoding/json are the operations of a `Codec`.
pub mod Trip
use mera_drive.Base.{
  ℕ, String, Bool, true, false, Option, none, some, List, [], ◌∷◌, ◌==◌, ltb, length, if◌then◌else◌,
}
use mera_drive.Base.Result.{Result, ok, err}
use mera_drive.Apperr.{Code, Fault, fail}

abbrev pub Cursor : Type 0
Cursor = List (String × String)

abbrev pub max_accounts_per_listing : ℕ
max_accounts_per_listing = 50

-- `c[id]`
unfoldable pub find_token : String → Cursor → Option String
find_token id [] = none
find_token id ((k, t) ∷ c) = if k == id then some t else find_token id c

pub record Codec : Type 0 where
  -- json.Marshal and json.Unmarshal
  pub marshal : Cursor → Option String
  pub unmarshal : String → Option Cursor
  -- base64.RawURLEncoding
  pub encode_string : String → String
  pub decode_string : String → Option String

abbrev bad_page : {A : Type 0} → Result Fault A
bad_page = fail Code.bad_request "That page reference is not valid. Reload the folder."

module _ (codec : Codec) where
  unfoldable pub encode_cursor : Cursor → String
  encode_cursor [] = ""
  encode_cursor (e ∷ c) = elim (codec.marshal (e ∷ c)) [
    | none ↦ ""
    | some payload ↦ codec.encode_string payload
  ]

  unfoldable pub decode_payload : Option String → Result Fault Cursor
  decode_payload none = bad_page
  decode_payload (some payload) = elim (codec.unmarshal payload) [
    | none ↦ bad_page
    | some decoded ↦ if ltb max_accounts_per_listing (length decoded) then bad_page else ok decoded
  ]

  unfoldable pub decode_cursor : String → Result Fault Cursor
  unfolding decode_payload
  decode_cursor raw = if raw == "" then ok [] else decode_payload (codec.decode_string raw)
