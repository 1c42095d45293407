-- ===== src/Api/Pagination/Authentic.antt =====
-- What a cursor that `decode` of crates/nightfrost-api/src/pagination.rs accepts must be.
use nightfrost.Prelude.{
  ℕ, ◌+◌, ◌-◌, ◌≤◌, ◌^◌, ◌<◌, ◌≡◌, ap, sym, subst, ◌∙◌, Bool, true, Option, none, some, [], ◌∷◌,
  ◌++◌, ◌==◌, All, take-All, drop-All, drop-drop, take-append-drop, arith, leb, length, take, drop,
  length-take, length-drop, Bool-cases, inl, inr, ok, ok_or, >>=-eq-ok, ok-injective,
}
use nightfrost.Bytes.{Bytes, IsByte, IsArray, to_be, from_be, bytes_eq, bytes_eq→eq}
use nightfrost.Bytes.BigEndian.{to_be-from_be, from_be_below}
use nightfrost.Store.Keys.{IsU64}
use nightfrost.Api.Pagination.Cursor.{
  DecodedCursor, CursorError, Crypto, cursor_prefix, cursor_version, mac_len, fixed_payload_len,
  slice, strip_prefix, require, query_hash, payload, read_payload, decode, unsupported_version,
  not_this_query, invalid_position_length, invalid_prefix, invalid_encoding, invalid_signature,
  truncated,
}

==-eq : (a b : ℕ) → (a == b) ≡ true → a ≡ b
==-eq a b h = ground arith

require-true : (test : Bool) (e : CursorError) → require test e ≡ ok tt → test ≡ true
unfolding require
require-true test e h = ground arith

leb_sound : (a b : ℕ) → leb a b ≡ true → a ≤ b
leb_sound a b h = ground arith

ok_or_sound : {A : Type 0} {a : A} (o : Option A) (e : CursorError) → ok_or o e ≡ ok a → o ≡ some a
ok_or_sound none e h = cc
ok_or_sound (some b) e h = ap some (ok-injective h)

strip_prefix_sound :
    (front token rest : Bytes) → strip_prefix front token ≡ some rest → token ≡ front ++ rest
unfolding strip_prefix
strip_prefix_sound front token rest h =
    elim (Bool-cases (bytes_eq (take (length front) token) front)) [
      | inl same ↦
          sym (take-append-drop (length front) token)
          ∙ rw (bytes_eq→eq _ _ same) (ap (λ t. front ++ t) (ground (arith, same, h)))
      | inr other ↦ ground (arith, other, h)
    ]

-- A body cut at the places where `decode` reads its fields.
cut : (n m : ℕ) (bs : Bytes) → drop n bs ≡ take m (drop n bs) ++ drop (n + m) bs
cut n m bs =
    sym (take-append-drop m (drop n bs)) ∙ ap (λ t. take m (drop n bs) ++ t) (drop-drop n m bs)

field_length : (n m : ℕ) (bs : Bytes) → n + m ≤ length bs → length (take m (drop n bs)) ≡ m
field_length n m bs h = omega (arith, h, length-take m (drop n bs), length-drop n bs)

field_bytes : (n m : ℕ) (bs : Bytes) → All IsByte bs → All IsByte (take m (drop n bs))
field_bytes n m bs h = take-All IsByte m _ (drop-All IsByte n bs h)

-- An integer field is the big-endian form of the number that it is read as, and bounds it.
number_field :
    (n m : ℕ) (bs : Bytes)
    → n + m ≤ length bs
    → All IsByte bs
    → (to_be m (from_be (take m (drop n bs))) ≡ take m (drop n bs))
      × (from_be (take m (drop n bs)) < 256 ^ m)
number_field n m bs long h =
    let size = field_length n m bs long in
    let small = field_bytes n m bs h in
    (
      ap (λ w. to_be w (from_be (take m (drop n bs)))) (sym size)
          ∙ to_be-from_be (take m (drop n bs)) small,
      omega (arith, from_be_below (take m (drop n bs)) small, ap (λ w. 256 ^ w) size),
    )

fields :
    (bs : Bytes)
    → bs
      ≡ take 1 bs
        ++ (slice 1 9 bs
            ++ (slice 9 41 bs ++ (slice 41 57 bs ++ (slice 57 59 bs ++ drop fixed_payload_len bs))))
fields bs =
    sym (take-append-drop 1 bs)
    ∙ ap (λ t. take 1 bs ++ t)
        (cut 1 8 bs
          ∙ ap (λ t. slice 1 9 bs ++ t)
              (cut 9 32 bs
                ∙ ap (λ t. slice 9 41 bs ++ t)
                    (cut 41 16 bs ∙ ap (λ t. slice 41 57 bs ++ t) (cut 57 2 bs))))

-- A cursor's parts are in range.
pub record IsCursor (d : DecodedCursor) : Type 0 where
  pub height : IsU64 d.anchor.height
  pub hash : IsArray 32 d.anchor.hash
  pub position : length d.position < 2 ^ 16

module _ (C : Crypto) (scope : Bytes) where
  read_payload_sound :
      (body : Bytes) (d : DecodedCursor)
      → All IsByte body
      → 59 ≤ length body
      → read_payload C scope body ≡ ok d
      → (body ≡ payload C scope d.anchor d.position) × IsCursor d
  unfolding read_payload payload
  read_payload_sound body d bytes long h =
      let (_, v, h1) =
        >>=-eq-ok (require (bytes_eq (take 1 body) (cursor_version ∷ [])) unsupported_version) _
          h in
      let (_, q, h2) =
        >>=-eq-ok (require (bytes_eq (slice 41 57 body) (query_hash C scope)) not_this_query) _
          h1 in
      let (_, l, h3) =
        >>=-eq-ok
          (require (length body == fixed_payload_len + from_be (slice 57 59 body))
            invalid_position_length)
          _ h2 in
      let version = bytes_eq→eq (take 1 body) (cursor_version ∷ []) (require-true _ _ v) in
      let query = bytes_eq→eq (slice 41 57 body) (query_hash C scope) (require-true _ _ q) in
      let size : length body ≡ fixed_payload_len + from_be (slice 57 59 body) =
        ==-eq (length body) _ (require-true _ _ l) in
      let count : length (drop fixed_payload_len body) ≡ from_be (slice 57 59 body) =
        omega (arith, size, length-drop fixed_payload_len body) in
      let height = number_field 1 8 body (omega (arith, long)) bytes in
      let position = number_field 57 2 body (omega (arith, long)) bytes in
      subst (λ d. (body ≡ payload C scope d.anchor d.position) × IsCursor d) (ok-injective h3)
        (
          fields body ∙ rw (version, query, count, height.0, position.0),
          record {
            height = height.1;
            hash = record {
              size = field_length 9 32 body (omega (arith, long));
              bytes = field_bytes 9 32 body bytes;
            };
            position = omega (arith, count, position.1);
          },
        )

  -- The tokens that are accepted are the tokens that this server signed: an accepted token carries,
  -- in base64, the payload of its own query, anchor and position, and the HMAC of that payload
  -- under the server's key; and its parts are in range.
  pub decode_sound :
      (key token : Bytes) (d : DecodedCursor)
      → decode C key token scope ≡ ok d
      → (encoded : Bytes) × (token ≡ cursor_prefix ++ encoded)
        × (C.base64_decode encoded
            ≡ some (
                payload C scope d.anchor d.position
                ++ take mac_len (C.hmac key (payload C scope d.anchor d.position))))
        × IsCursor d
  unfolding decode
  decode_sound key token d h =
      let (encoded, e1, h1) =
        >>=-eq-ok (ok_or (strip_prefix cursor_prefix token) invalid_prefix) _ h in
      let (bs, e2, h2) = >>=-eq-ok (ok_or (C.base64_decode encoded) invalid_encoding) _ h1 in
      let (_, e3, h3) =
        >>=-eq-ok (require (leb (fixed_payload_len + mac_len) (length bs)) truncated) _ h2 in
      let (_, e4, h4) =
        >>=-eq-ok
          (require
            (bytes_eq (drop (length bs - mac_len) bs)
              (take mac_len (C.hmac key (take (length bs - mac_len) bs))))
            invalid_signature)
          _ h3 in
      let found = ok_or_sound _ _ e2 in
      let long : 75 ≤ length bs = leb_sound 75 (length bs) (require-true _ _ e3) in
      let mac = bytes_eq→eq _ _ (require-true _ _ e4) in
      let (body, ranges) =
        read_payload_sound (take (length bs - mac_len) bs) d
          (take-All IsByte _ bs (C.decode-bytes encoded bs found))
          (omega (arith, long, length-take (length bs - mac_len) bs)) h4 in
      (
        encoded,
        strip_prefix_sound cursor_prefix token encoded (ok_or_sound _ _ e1),
        found
            ∙ ap some (
                sym (take-append-drop (length bs - mac_len) bs)
                ∙ rw (mac) (ap (λ t. t ++ take mac_len (C.hmac key t)) body)),
        ranges,
      )
