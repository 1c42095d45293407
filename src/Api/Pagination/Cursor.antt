-- ===== src/Api/Pagination/Cursor.antt =====
-- The opaque cursors of crates/nightfrost-api/src/pagination.rs: a version byte, the tip that the
-- page is anchored to, a hash of the query, and the position in it, under a truncated HMAC.
use nightfrost.Prelude.{
  ℕ, ◌+◌, ◌-◌, ◌≡◌, Bool, Option, none, some, [], ◌∷◌, ◌++◌, ◌==◌, All, leb, length, take, drop,
  Result, ok, err, ok_or, ◌>>=◌, if◌then◌else◌,
}
use nightfrost.Bytes.{Bytes, IsByte, IsArray, to_be, from_be, bytes_eq, codes}

pub record TipAnchor : Type 0 where
  pub height : ℕ
  pub hash : Bytes

pub record DecodedCursor : Type 0 where
  pub anchor : TipAnchor
  pub position : Bytes

-- The bad requests of `decode`, by their messages.
pub data CursorError : Type 0 where
  invalid_prefix invalid_encoding truncated invalid_signature unsupported_version : CursorError
  not_this_query invalid_position_length : CursorError

-- The crates base64, hmac and sha2: unpadded URL-safe base64, HMAC-SHA256 under a key, and SHA-256.
pub record Crypto : Type 0 where
  pub base64_encode : Bytes → Bytes
  pub base64_decode : Bytes → Option Bytes
  pub hmac : Bytes → Bytes → Bytes
  pub sha256 : Bytes → Bytes
  pub decode-encode : (bs : Bytes) → All IsByte bs → base64_decode (base64_encode bs) ≡ some bs
  pub decode-bytes : (t bs : Bytes) → base64_decode t ≡ some bs → All IsByte bs
  pub hmac-IsArray : (key message : Bytes) → IsArray 32 (hmac key message)
  pub sha256-IsArray : (message : Bytes) → IsArray 32 (sha256 message)

abbrev pub cursor_prefix : Bytes
cursor_prefix = codes "nf1."

abbrev pub cursor_version : ℕ
cursor_version = 1

abbrev pub query_hash_len : ℕ
query_hash_len = 16

abbrev pub mac_len : ℕ
mac_len = 16

abbrev pub fixed_payload_len : ℕ
fixed_payload_len = 1 + 8 + 32 + query_hash_len + 2

-- `xs[from..to]` within the bounds
abbrev pub slice : ℕ → ℕ → Bytes → Bytes
slice from to xs = take (to - from) (drop from xs)

-- `token.strip_prefix(front)`
unfoldable pub strip_prefix : Bytes → Bytes → Option Bytes
strip_prefix front token =
    if bytes_eq (take (length front) token) front then some (drop (length front) token) else none

-- `if !test { return Err(e) }`
unfoldable pub require : Bool → CursorError → Result CursorError (Unit {0})
require test e = if test then ok tt else err e

module _ (C : Crypto) where
  unfoldable pub query_hash : Bytes → Bytes
  query_hash scope = take query_hash_len (C.sha256 scope)

  unfoldable pub payload : Bytes → TipAnchor → Bytes → Bytes
  payload scope anchor position =
      cursor_version
      ∷ (to_be 8 anchor.height
          ++ (anchor.hash ++ (query_hash scope ++ (to_be 2 (length position) ++ position))))

  -- `none` where the position is too long for a u16, which panics.
  unfoldable pub encode : Bytes → Bytes → TipAnchor → Bytes → Option Bytes
  encode key scope anchor position =
      if leb (length position) 65535
      then (let body = payload scope anchor position in
          some (cursor_prefix ++ C.base64_encode (body ++ take mac_len (C.hmac key body))))
      else none

  -- The checks after the signature's.
  unfoldable pub read_payload : Bytes → Bytes → Result CursorError DecodedCursor
  read_payload scope body = do
    _ ← require (bytes_eq (take 1 body) (cursor_version ∷ [])) unsupported_version
    _ ← require (bytes_eq (slice 41 57 body) (query_hash scope)) not_this_query
    let position_len = from_be (slice 57 59 body)
    _ ← require (length body == fixed_payload_len + position_len) invalid_position_length
    ok record {
      anchor = record { height = from_be (slice 1 9 body); hash = slice 9 41 body };
      position = drop fixed_payload_len body;
    }

  unfoldable pub decode : Bytes → Bytes → Bytes → Result CursorError DecodedCursor
  decode key token scope = do
    encoded ← ok_or (strip_prefix cursor_prefix token) invalid_prefix
    bytes ← ok_or (C.base64_decode encoded) invalid_encoding
    _ ← require (leb (fixed_payload_len + mac_len) (length bytes)) truncated
    let body = take (length bytes - mac_len) bytes
    let supplied = drop (length bytes - mac_len) bytes
    _ ← require (bytes_eq supplied (take mac_len (C.hmac key body))) invalid_signature
    read_payload scope body
