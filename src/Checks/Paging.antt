-- ===== src/Checks/Paging.antt =====
-- The theorems on pages, cursors, scopes and key ranges, at concrete data.
use Prim.Native.Nat.Ordering.{lt}
use nightfrost.Prelude.{
  ◌*◌, ◌≤◌, ◌^◌, ◌≡◌, ◌≢◌, ◌↔◌, refl, Bool, true, ◌&&◌, Option, none, some, [], ◌∷◌, ◌++◌, All, ltb,
  arith, ok, err, if◌then◌else◌, take,
}
use nightfrost.Bytes.{Bytes, IsByte, IsArray, to_be, from_be, from_be_acc, bytes_eq, codes}
use nightfrost.Bytes.BigEndian.{to_be-IsArray}
use nightfrost.Bytes.Order.{lex}
use nightfrost.Api.Pagination.{default_pagination, validate, validate_iff, IsShort, desc}
use nightfrost.Api.Pagination.Cursor.{
  TipAnchor, Crypto, not_this_query, cursor_prefix, mac_len, strip_prefix, require, query_hash,
  payload, encode, read_payload, decode,
}
use nightfrost.Api.Pagination.RoundTrip.{decode-encode}
use nightfrost.Api.Pagination.Authentic.{IsCursor, decode_sound}
use nightfrost.Api.Pagination.Scope.{scope-injective}
use nightfrost.Api.Pagination.PrefixEnd.{prefix_end, count_up, reverse, starts_with, prefix_end_iff}
use nightfrost.Checks.Sample.{thirty_two}

-- Any encoding and digests of the right shape.
abbrev pub all_bytes : Bytes → Bool
all_bytes [] = true
all_bytes (b ∷ bs) = ltb b 256 && all_bytes bs

pub all_bytes_sound : (bs : Bytes) → all_bytes bs ≡ true → All IsByte bs
all_bytes_sound [] h = tt
all_bytes_sound (b ∷ bs) h = (ground arith, all_bytes_sound bs (ground arith))

pub all_bytes_complete : (bs : Bytes) → All IsByte bs → all_bytes bs ≡ true
all_bytes_complete [] h = refl
all_bytes_complete (b ∷ bs) h = ground (arith, all_bytes_complete bs h.1)

abbrev pub plain_decode : Bytes → Option Bytes
plain_decode bs = if all_bytes bs then some bs else none

pub plain_decode-bytes : (t bs : Bytes) → plain_decode t ≡ some bs → All IsByte bs
plain_decode-bytes t bs h = all_bytes_sound bs (ground arith)

abbrev pub toy : Crypto
toy = record {
  base64_encode = λ bs. bs;
  base64_decode = plain_decode;
  hmac = λ key message. to_be 32 (from_be (key ++ message) * 256 ^ 16);
  sha256 = λ message. to_be 32 (from_be message * 256 ^ 16);
  decode-encode = λ bs h. rw (all_bytes_complete bs h);
  decode-bytes = plain_decode-bytes;
  hmac-IsArray = λ key message. to_be-IsArray 32 _;
  sha256-IsArray = λ message. to_be-IsArray 32 _;
}

abbrev anchor : TipAnchor
anchor = record { height = 42; hash = thirty_two 7 }

abbrev pub secret : Bytes
secret = codes "key"

abbrev query : Bytes
query = codes "txs"

abbrev position : Bytes
position = 0 ∷ 123 ∷ []

anchor-IsArray : IsArray 32 (thirty_two 7)
anchor-IsArray = record { size = refl; bytes = all_bytes_sound (thirty_two 7) refl }

decode-encode_example :
    (token : Bytes) × (encode toy secret query anchor position ≡ some token)
    × (decode toy secret token (codes "utxos") ≡ (
        if bytes_eq (query_hash toy query) (query_hash toy (codes "utxos"))
        then ok record { anchor = anchor; position = position }
        else err not_this_query))
decode-encode_example =
    decode-encode toy secret query anchor position (omega arith) anchor-IsArray (omega arith)
      (omega arith, (omega arith, tt)) (codes "utxos")

abbrev sample_token : Bytes
sample_token =
    cursor_prefix
    ++ (payload toy query anchor position
        ++ take mac_len (toy.hmac secret (payload toy query anchor position)))

decodes : decode toy secret sample_token query ≡ ok record { anchor = anchor; position = position }
unfolding decode read_payload payload query_hash require strip_prefix to_be from_be_acc bytes_eq
decodes = refl

decode_sound_example :
    (encoded : Bytes) × (sample_token ≡ cursor_prefix ++ encoded)
    × (plain_decode encoded
        ≡ some (
            payload toy query anchor position
            ++ take mac_len (toy.hmac secret (payload toy query anchor position))))
    × IsCursor record { anchor = anchor; position = position }
decode_sound_example =
    decode_sound toy query secret sample_token record { anchor = anchor; position = position }
      decodes

validate_iff_example :
    (validate default_pagination ≡ ok tt)
    ↔ ((1 ≤ 100) × (100 ≤ 5000) × (default_pagination.page ≡ none) × IsShort none)
validate_iff_example = validate_iff default_pagination

scope-injective_example :
    (codes "txs" ∷ thirty_two 9 ∷ [] ≡ codes "txs" ∷ thirty_two 9 ∷ []) × (desc ≡ desc)
scope-injective_example =
    scope-injective (codes "txs" ∷ thirty_two 9 ∷ []) (codes "txs" ∷ thirty_two 9 ∷ []) desc desc
      (omega arith, (omega arith, tt)) (omega arith, (omega arith, tt)) refl

abbrev some_prefix : Bytes
some_prefix = 18 ∷ 255 ∷ []

ends : prefix_end some_prefix ≡ some (19 ∷ [])
unfolding prefix_end count_up reverse
ends = refl

prefix_end_iff_example :
    (starts_with (18 ∷ 255 ∷ 3 ∷ []) some_prefix ≡ true)
    ↔ ((lex (18 ∷ 255 ∷ 3 ∷ []) some_prefix ≢ lt) × (lex (18 ∷ 255 ∷ 3 ∷ []) (19 ∷ []) ≡ lt))
prefix_end_iff_example =
    prefix_end_iff some_prefix (19 ∷ []) (18 ∷ 255 ∷ 3 ∷ []) (omega arith, (omega arith, tt))
      (omega arith, (omega arith, (omega arith, tt))) ends
