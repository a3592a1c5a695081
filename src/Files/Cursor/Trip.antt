-- ===== src/Files/Cursor/Trip.antt =====
-- internal/files/cursor.go: page references on their way to the client and back.
use mera_drive.Base.{◌≤◌, String, ◌≡◌, ◌≢◌, refl, some, [], ◌∷◌, arith, length, eq_iff}
use mera_drive.Base.Result.{ok}
use mera_drive.Files.Cursor.{Cursor, Codec, encode_cursor, decode_cursor, find_token}

-- What base64 and JSON document, at one cursor: the map is marshalled to a payload whose encoding
-- is not empty, and both steps can be undone. The order of a map's entries is not kept.
pub record RoundTrips (codec : Codec) (c : Cursor) : Type 0 where
  pub payload : String
  pub marshals : codec.marshal c ≡ some payload
  pub decodes : codec.decode_string (codec.encode_string payload) ≡ some payload
  pub not_empty : codec.encode_string payload ≢ ""
  pub read_back : Cursor
  pub unmarshals : codec.unmarshal payload ≡ some read_back
  pub same_length : length read_back ≡ length c
  pub same_tokens : (id : String) → find_token id read_back ≡ find_token id c

-- When JSON and base64 can be undone at a cursor of at most fifty accounts, its encoding is decoded
-- to a cursor with the same token for every account.
pub decode_cursor-encode_cursor :
    (codec : Codec) (c : Cursor)
    → RoundTrips codec c
    → length c ≤ 50
    → (d : Cursor) × (decode_cursor codec (encode_cursor codec c) ≡ ok d)
      × ((id : String) → find_token id d ≡ find_token id c)
unfolding encode_cursor decode_cursor
decode_cursor-encode_cursor codec [] h small = ([], refl, λ id. refl)
decode_cursor-encode_cursor codec (e ∷ c) h small = (
  h.read_back,
  ground (
    arith,
    h.marshals,
    h.decodes,
    h.not_empty,
    h.unmarshals,
    h.same_length,
    eq_iff (codec.encode_string h.payload) "",
  ),
  h.same_tokens,
)
