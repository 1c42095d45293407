-- ===== src/Api/Pagination/RoundTrip.antt =====
-- Encoding and decoding cursors: `CursorCodec` of crates/nightfrost-api/src/pagination.rs.
use nightfrost.Prelude.{
  drop-append_past, ◌+◌, ◌-◌, ◌^◌, ◌<◌, ◌≡◌, refl, ap, sym, ◌∙◌, ◌*◌, ◌≤◌, true, some, [], ◌∷◌,
  ◌++◌, ◌==◌, All, All-append, take-All, arith, leb, length, take, drop, length-append, length-take,
  take-append_of_length, drop-append_of_length, take-append, drop-append, Bool-cases, inl, inr, ok,
  err, if◌then◌else◌,
}
use nightfrost.Bytes.{Bytes, IsByte, IsArray, to_be, from_be, bytes_eq, bytes_eq_refl}
use nightfrost.Bytes.BigEndian.{length-to_be, to_be-IsArray, from_be-to_be}
use nightfrost.Store.Keys.{IsU64}
use nightfrost.Api.Pagination.Cursor.{
  TipAnchor, not_this_query, Crypto, cursor_prefix, cursor_version, query_hash_len, mac_len,
  fixed_payload_len, slice, strip_prefix, require, query_hash, payload, encode, read_payload,
  decode,
}

strip_prefix-append : (front rest : Bytes) → strip_prefix front (front ++ rest) ≡ some rest
unfolding strip_prefix
strip_prefix-append front rest =
    rw (take-append front rest, drop-append front rest, bytes_eq_refl front)

module _ (C : Crypto) (key scope : Bytes) (anchor : TipAnchor) (position : Bytes)
    (hh : IsU64 anchor.height) (ha : IsArray 32 anchor.hash) (hp : length position < 2 ^ 16)
    (hb : All IsByte position) where
  -- The fields of a payload stand where `decode` looks for them.
  query_hash-length : (q : Bytes) → length (query_hash C q) ≡ 16
  unfolding query_hash
  query_hash-length q =
      omega (arith, length-take query_hash_len (C.sha256 q), (C.sha256-IsArray q).size)

  payload-length : length (payload C scope anchor position) ≡ 59 + length position
  unfolding payload
  payload-length = omega (
    arith,
    length-append (to_be 8 anchor.height)
        (anchor.hash ++ (query_hash C scope ++ (to_be 2 (length position) ++ position))),
    length-to_be 8 anchor.height,
    length-append anchor.hash (query_hash C scope ++ (to_be 2 (length position) ++ position)),
    ha.size,
    length-append (query_hash C scope) (to_be 2 (length position) ++ position),
    query_hash-length scope,
    length-append (to_be 2 (length position)) position,
    length-to_be 2 (length position),
  )

  payload-bytes : All IsByte (payload C scope anchor position)
  unfolding payload query_hash
  payload-bytes = (
    omega arith,
    All-append IsByte (to_be 8 anchor.height) _ (to_be-IsArray 8 anchor.height).bytes (
        All-append IsByte anchor.hash _ ha.bytes (
          All-append IsByte (query_hash C scope) _
            (take-All IsByte 16 _ (C.sha256-IsArray scope).bytes)
            (All-append IsByte (to_be 2 (length position)) _
              (to_be-IsArray 2 (length position)).bytes hb))),
  )

  after_height :
      drop 9 (payload C scope anchor position)
      ≡ anchor.hash ++ (query_hash C scope ++ (to_be 2 (length position) ++ position))
  unfolding payload
  after_height = drop-append_of_length 8 (to_be 8 anchor.height) _ (length-to_be 8 anchor.height)

  after_hash :
      drop 41 (payload C scope anchor position)
      ≡ query_hash C scope ++ (to_be 2 (length position) ++ position)
  unfolding payload
  after_hash =
      drop-append_past 8 32 (to_be 8 anchor.height) _ (length-to_be 8 anchor.height)
      ∙ drop-append_of_length 32 anchor.hash _ ha.size

  after_query : drop 57 (payload C scope anchor position) ≡ to_be 2 (length position) ++ position
  unfolding payload
  after_query =
      drop-append_past 8 48 (to_be 8 anchor.height) _ (length-to_be 8 anchor.height)
      ∙ drop-append_past 32 16 anchor.hash _ ha.size
      ∙ drop-append_of_length 16 (query_hash C scope) _ (query_hash-length scope)

  after_length : drop 59 (payload C scope anchor position) ≡ position
  unfolding payload
  after_length =
      drop-append_past 8 50 (to_be 8 anchor.height) _ (length-to_be 8 anchor.height)
      ∙ drop-append_past 32 18 anchor.hash _ ha.size
      ∙ drop-append_past 16 2 (query_hash C scope) _ (query_hash-length scope)
      ∙ drop-append_of_length 2 (to_be 2 (length position)) _ (length-to_be 2 (length position))

  height_field : from_be (slice 1 9 (payload C scope anchor position)) ≡ anchor.height
  unfolding payload
  height_field =
      ap (λ (bs : Bytes). from_be bs)
        (take-append_of_length 8 (to_be 8 anchor.height) _ (length-to_be 8 anchor.height))
      ∙ from_be-to_be 8 anchor.height hh

  hash_field : slice 9 41 (payload C scope anchor position) ≡ anchor.hash
  hash_field = ap (take 32) after_height ∙ take-append_of_length 32 anchor.hash _ ha.size

  query_field : slice 41 57 (payload C scope anchor position) ≡ query_hash C scope
  query_field =
      ap (take 16) after_hash
      ∙ take-append_of_length 16 (query_hash C scope) _ (query_hash-length scope)

  length_field : from_be (slice 57 59 (payload C scope anchor position)) ≡ length position
  length_field =
      ap (λ (bs : Bytes). from_be (take 2 bs)) after_query
      ∙ ap (λ (bs : Bytes). from_be bs)
          (take-append_of_length 2 (to_be 2 (length position)) _ (length-to_be 2 (length position)))
      ∙ from_be-to_be 2 (length position) hp

  version_field : bytes_eq (take 1 (payload C scope anchor position)) (cursor_version ∷ []) ≡ true
  unfolding payload bytes_eq
  version_field = refl

  length_test :
      (length (payload C scope anchor position) == fixed_payload_len + length position) ≡ true
  length_test = ground (arith, payload-length)

  -- A payload that is read for any query: the query decides, the rest comes back.
  read_payload-payload :
      (asked : Bytes)
      → read_payload C asked (payload C scope anchor position) ≡ (
          if bytes_eq (query_hash C scope) (query_hash C asked)
          then ok record { anchor = anchor; position = position }
          else err not_this_query)
  unfolding require read_payload
  read_payload-payload asked =
      rw
        (
          version_field, query_field, length_field, length_test, height_field, hash_field,
          after_length,
        )
        (elim (Bool-cases (bytes_eq (query_hash C scope) (query_hash C asked))) [
          | inl same ↦ rw same
          | inr other ↦ rw other
        ])

  mac-length : (body : Bytes) → length (take mac_len (C.hmac key body)) ≡ 16
  mac-length body =
      omega (arith, length-take mac_len (C.hmac key body), (C.hmac-IsArray key body).size)

  signed : Bytes
  signed =
      payload C scope anchor position ++ take mac_len (C.hmac key (payload C scope anchor position))

  signed-length : length signed ≡ 75 + length position
  unfolding signed
  signed-length = omega (
    arith,
    length-append (payload C scope anchor position)
        (take mac_len (C.hmac key (payload C scope anchor position))),
    payload-length,
    mac-length (payload C scope anchor position),
  )

  signed-body : take (length signed - mac_len) signed ≡ payload C scope anchor position
  unfolding signed
  signed-body =
      take-append_of_length (length signed - mac_len) (payload C scope anchor position) _
        (omega (arith, signed-length, payload-length))

  signed-mac :
      drop (length signed - mac_len) signed
      ≡ take mac_len (C.hmac key (payload C scope anchor position))
  unfolding signed
  signed-mac =
      drop-append_of_length (length signed - mac_len) (payload C scope anchor position) _
        (omega (arith, signed-length, payload-length))

  signed-bytes : All IsByte signed
  unfolding signed
  signed-bytes =
      All-append IsByte (payload C scope anchor position) _ payload-bytes
        (take-All IsByte mac_len _ (C.hmac-IsArray key (payload C scope anchor position)).bytes)

  long_enough : leb (fixed_payload_len + mac_len) (length signed) ≡ true
  long_enough = ground (arith, signed-length)

  encoded : encode C key scope anchor position ≡ some (cursor_prefix ++ C.base64_encode signed)
  unfolding encode signed
  encoded = ground arith

  -- A cursor is short where base64 does not more than double the length.
  pub encode_length :
      (token : Bytes)
      → ((bs : Bytes) → length (C.base64_encode bs) ≤ 2 * length bs)
      → encode C key scope anchor position ≡ some token
      → length token ≤ 154 + 2 * length position
  encode_length token short e =
      let same : some token ≡ some (cursor_prefix ++ C.base64_encode signed) = sym e ∙ encoded in
      let bound : length (cursor_prefix ++ C.base64_encode signed) ≤ 154 + 2 * length position =
        omega (
          arith,
          length-append cursor_prefix (C.base64_encode signed),
          short signed,
          signed-length,
        ) in
      ground (arith, bound, same)

  -- A cursor made for a query is made, and decodes, for any query whose truncated hash is the same,
  -- to the anchor and the position that it was made of; for every other query it is refused as a
  -- cursor of another one. The height fits a u64, the hash is 32 bytes, and the position is bytes
  -- whose number fits a u16.
  pub decode-encode :
      (asked : Bytes)
      → (token : Bytes) × (encode C key scope anchor position ≡ some token)
        × (decode C key token asked ≡ (
            if bytes_eq (query_hash C scope) (query_hash C asked)
            then ok record { anchor = anchor; position = position }
            else err not_this_query))
  unfolding decode require
  decode-encode asked = (
    cursor_prefix ++ C.base64_encode signed,
    encoded,
    rw
        (
          strip_prefix-append cursor_prefix (C.base64_encode signed),
          C.decode-encode signed signed-bytes,
          long_enough,
          signed-body,
          signed-mac,
          bytes_eq_refl (take mac_len (C.hmac key (payload C scope anchor position))),
        )
        (read_payload-payload asked),
  )
