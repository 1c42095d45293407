-- ===== src/Domain/Version.antt =====
-- crates/nightfrost-core/src/domain/protocol_version.rs: the protocol versions of the chain, and
-- crates/nightfrost-chain/src/subxt_node/header.rs: the digest item that carries one.
use nightfrost.Prelude.{
  ℕ, ◌≤◌, ◌<◌, ◌≡◌, Bool, ◌&&◌, Option, none, some, List, [], ◌∷◌, arith, ltb, leb, if◌then◌else◌,
  Result, ok, err, ◌>>=◌,
}
use nightfrost.Bytes.{Bytes, bytes_eq}

pub data ProtocolVersion : Type 0 where
  v0_22 v1_0 v2_0 v2_1 : ℕ → ProtocolVersion

pub data LedgerVersion : Type 0 where
  v8 v9 : LedgerVersion

pub data NodeVersion : Type 0 where
  v0_22 v1_0 v2_0 v2_1 : NodeVersion

pub data ProtocolVersionError : Type 0 where
  scale_decode : ProtocolVersionError
  unsupported : ℕ → ProtocolVersionError

unfoldable pub ledger_version : ProtocolVersion → LedgerVersion
ledger_version (ProtocolVersion.v0_22 _) = LedgerVersion.v8
ledger_version (ProtocolVersion.v1_0 _) = LedgerVersion.v8
ledger_version (ProtocolVersion.v2_0 _) = LedgerVersion.v9
ledger_version (ProtocolVersion.v2_1 _) = LedgerVersion.v9

pub node_version : ProtocolVersion → NodeVersion
node_version (ProtocolVersion.v0_22 _) = NodeVersion.v0_22
node_version (ProtocolVersion.v1_0 _) = NodeVersion.v1_0
node_version (ProtocolVersion.v2_0 _) = NodeVersion.v2_0
node_version (ProtocolVersion.v2_1 _) = NodeVersion.v2_1

-- `u32::from`
unfoldable pub to_u32 : ProtocolVersion → ℕ
to_u32 (ProtocolVersion.v0_22 n) = n
to_u32 (ProtocolVersion.v1_0 n) = n
to_u32 (ProtocolVersion.v2_0 n) = n
to_u32 (ProtocolVersion.v2_1 n) = n

-- `(lo..hi).contains(&n)`
abbrev within : ℕ → ℕ → ℕ → Bool
within lo hi n = leb lo n && ltb n hi

-- `ProtocolVersion::try_from` of a `u32`
unfoldable pub try_from : ℕ → Result ProtocolVersionError ProtocolVersion
try_from version =
    if within 22000 23000 version
    then ok (ProtocolVersion.v0_22 version)
    else if within 1000000 1001000 version
    then ok (ProtocolVersion.v1_0 version)
    else if within 2000000 2001000 version
    then ok (ProtocolVersion.v2_0 version)
    else if within 2001000 2002000 version
    then ok (ProtocolVersion.v2_1 version)
    else err (unsupported version)

abbrev pub oldest : LedgerVersion
oldest = LedgerVersion.v8

-- The constructor that a number in the range of a runtime belongs to.
abbrev pub InRange : ProtocolVersion → Type 0
InRange (ProtocolVersion.v0_22 n) = (22000 ≤ n) × (n < 23000)
InRange (ProtocolVersion.v1_0 n) = (1000000 ≤ n) × (n < 1001000)
InRange (ProtocolVersion.v2_0 n) = (2000000 ≤ n) × (n < 2001000)
InRange (ProtocolVersion.v2_1 n) = (2001000 ≤ n) × (n < 2002000)

-- A number that converts to a version is in that version's range and is what the version
-- converts back to.
pub try_from_sound : (n : ℕ) (v : ProtocolVersion) → try_from n ≡ ok v → InRange v × (to_u32 v ≡ n)
unfolding try_from to_u32
try_from_sound n v h = ground arith

-- A version whose number is in its range comes back, constructor and all, from its number, so
-- the number stored with a block tells its version.
pub try_from-to_u32 : (v : ProtocolVersion) → InRange v → try_from (to_u32 v) ≡ ok v
unfolding try_from to_u32
try_from-to_u32 (ProtocolVersion.v0_22 n) h = ground arith
try_from-to_u32 (ProtocolVersion.v1_0 n) h = ground arith
try_from-to_u32 (ProtocolVersion.v2_0 n) h = ground arith
try_from-to_u32 (ProtocolVersion.v2_1 n) h = ground arith

-- subxt's digest items: a consensus message with its engine, or any other item.
pub data DigestItem : Type 0 where
  consensus : Bytes → Bytes → DigestItem
  pre_runtime : Bytes → Bytes → DigestItem
  other : DigestItem

-- b"MNSV"
abbrev pub version_id : Bytes
version_id = b'M' ∷ b'N' ∷ b'S' ∷ b'V' ∷ []

-- `u32::decode` of SCALE is a parameter: `none` on a truncated input.
module _ (decode_u32 : Bytes → Option ℕ) where
  unfoldable pub try_from_bytes : Bytes → Result ProtocolVersionError ProtocolVersion
  try_from_bytes bytes = elim (decode_u32 bytes) [
    | none ↦ err scale_decode
    | some version ↦ try_from version
  ]

  -- `filter_map(…).next().transpose()` over the digest's logs
  unfoldable pub protocol_version :
      List DigestItem → Result ProtocolVersionError (Option ProtocolVersion)
  protocol_version [] = ok none
  protocol_version (consensus engine bytes ∷ logs) =
      let rest = protocol_version logs in
      if bytes_eq engine version_id then (do v ← try_from_bytes bytes; ok (some v)) else rest
  protocol_version (_ ∷ logs) = protocol_version logs
