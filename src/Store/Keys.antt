-- ===== src/Store/Keys.antt =====
-- The composite keys of crates/nightfrost-core/src/store.rs and of the block writer in
-- crates/nightfrost-chain/src/pipeline.rs.
use Prim.Native.Nat.{compare}
use nightfrost.Prelude.{
  ℕ, ◌-◌, ◌^◌, ◌<◌, ◌≡◌, refl, ap, sym, ◌∙◌, Option, none, some, ◌++◌, arith, leb, length, take,
  drop, length-append, take-append_of_length, drop-append_of_length, if◌then◌else◌,
}
use nightfrost.Bytes.{Bytes, to_be, read_be}
use nightfrost.Bytes.BigEndian.{length-to_be, read_be-to_be, to_be-injective}
use nightfrost.Bytes.Order.{lex, lex-append, lex-to_be}
use nightfrost.Domain.{UnshieldedUtxo}

abbrev pub IsU64 : ℕ → Type 0
IsU64 n = n < 256 ^ 8

abbrev pub IsU32 : ℕ → Type 0
IsU32 n = n < 256 ^ 4

abbrev pub u64_key : ℕ → Bytes
u64_key n = to_be 8 n

-- Composite key: a prefix, then a big-endian u64.
unfoldable pub prefixed_u64_key : Bytes → ℕ → Bytes
prefixed_u64_key front id = front ++ to_be 8 id

-- The trailing big-endian u64; `none` where the slice of a shorter key panics.
unfoldable pub key_u64_suffix : Bytes → Option ℕ
key_u64_suffix key = if leb 8 (length key) then read_be 8 (drop (length key - 8) key) else none

-- Intent hash, then the big-endian output index.
unfoldable pub utxo_key : Bytes → ℕ → Bytes
utxo_key intent_hash output_index = intent_hash ++ to_be 4 output_index

unfoldable pub unspent_key : UnshieldedUtxo → Bytes
unfolding utxo_key
unspent_key utxo = utxo.owner ++ (utxo.token_type ++ utxo_key utxo.intent_hash utxo.output_index)

unfoldable pub dust_gen_owner_key : Bytes → Bytes → Bytes
dust_gen_owner_key owner night_utxo_hash = owner ++ night_utxo_hash

unfoldable pub balance_key : Bytes → Bytes → Bytes
balance_key owner token_type = owner ++ token_type

unfoldable pub registration_key : Bytes → Bytes → Bytes
registration_key stake_key dust_address = stake_key ++ dust_address

-- The id at the end of a composite key is the id that was put there, whatever the prefix.
pub key_u64_suffix-prefixed_u64_key :
    (front : Bytes) (id : ℕ) → IsU64 id → key_u64_suffix (prefixed_u64_key front id) ≡ some id
unfolding key_u64_suffix prefixed_u64_key
key_u64_suffix-prefixed_u64_key front id h = ground (
  arith,
  length-append front (to_be 8 id),
  length-to_be 8 id,
  read_be-to_be 8 id h,
  drop-append_of_length (length (front ++ to_be 8 id) - 8) front (to_be 8 id),
)

-- Under one prefix the byte order of two keys is the order of their ids, which are u64s.
pub prefixed_u64_key_order :
    (front : Bytes) (a b : ℕ)
    → IsU64 a
    → IsU64 b
    → lex (prefixed_u64_key front a) (prefixed_u64_key front b) ≡ compare a b
unfolding prefixed_u64_key
prefixed_u64_key_order front a b ha hb =
    lex-append front (to_be 8 a) (to_be 8 b) ∙ lex-to_be 8 a b ha hb

-- Two concatenations with fronts of one length are equal part by part.
pub append-injective : (a b c d : Bytes) → length a ≡ length c → a ++ b ≡ c ++ d → (a ≡ c) × (b ≡ d)
append-injective a b c d h e = (
  sym (take-append_of_length (length c) a b h)
      ∙ ap (take (length c)) e
      ∙ take-append_of_length (length c) c d refl,
  sym (drop-append_of_length (length c) a b h)
      ∙ ap (drop (length c)) e
      ∙ drop-append_of_length (length c) c d refl,
)

-- Keys with prefixes of one length coincide only for the same prefix and id.
pub prefixed_u64_key-injective :
    (p q : Bytes) (a b : ℕ)
    → length p ≡ length q
    → IsU64 a
    → IsU64 b
    → prefixed_u64_key p a ≡ prefixed_u64_key q b
    → (p ≡ q) × (a ≡ b)
unfolding prefixed_u64_key
prefixed_u64_key-injective p q a b hl ha hb e =
    let (ep, es) = append-injective p (to_be 8 a) q (to_be 8 b) hl e in
    (ep, to_be-injective 8 a b ha hb es)

-- Distinct outputs have distinct utxo keys, and distinct unspent keys under one owner and token.
pub unspent_key-injective :
    (u v : UnshieldedUtxo)
    → length u.owner ≡ length v.owner
    → length u.token_type ≡ length v.token_type
    → length u.intent_hash ≡ length v.intent_hash
    → IsU32 u.output_index
    → IsU32 v.output_index
    → unspent_key u ≡ unspent_key v
    → (u.owner ≡ v.owner)
      × (u.token_type ≡ v.token_type)
      × (utxo_key u.intent_hash u.output_index ≡ utxo_key v.intent_hash v.output_index)
      × (u.intent_hash ≡ v.intent_hash)
      × (u.output_index ≡ v.output_index)
unfolding unspent_key
unspent_key-injective u v ho ht hi hu hv e =
    let (eo, r) = append-injective u.owner _ v.owner _ ho e in
    let (et, k) = append-injective u.token_type _ v.token_type _ ht r in
    let (ei, x) = append-injective u.intent_hash (to_be 4 u.output_index) v.intent_hash _ hi k in
    (eo, et, k, ei, to_be-injective 4 u.output_index v.output_index hu hv x)
