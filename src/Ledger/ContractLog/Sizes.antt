-- ===== src/Ledger/ContractLog/Sizes.antt =====
-- The sizes of the wire format, and the flat bytes that `extract_flat_bytes` of
-- crates/nightfrost-core/src/domain/ledger/ledger_state.rs finds in an emitted log item.
use nightfrost.Prelude.{ℕ, ◌+◌, ◌≤◌, ◌≡◌, refl, some, List, [], ◌∷◌, length, length-append, arith}
use nightfrost.Bytes.{Bytes}
use nightfrost.Domain.{AddressOrContract}
use nightfrost.Ledger.ContractLog.Fields.{extract_flat_bytes, cell}
use nightfrost.Ledger.ContractLog.Wire.{
  Payload, spent, received, minted, burned, unshielded_spent, unshielded_received,
  unshielded_minted, unshielded_burned, paused, unpaused, noted, wire, joined, strip_zeros,
  required, IsPayload, IsAddress, maybe_bytes, maybe_uint_128, uint_128, either_bytes,
}
use nightfrost.Ledger.ContractLog.Slices.{extract_flat_bytes-strip, length-to_le}
use nightfrost.Ledger.ContractLog.Readers.{
  length-maybe_bytes, length-maybe_uint_128, length-either_bytes,
}

-- The size of the wire, from the sizes of the fields.
abbrev pub wire_size : Payload → ℕ
wire_size (spent _) = 32
wire_size (received _ _ _) = 578
wire_size (minted _ _ _) = 81
wire_size (burned _ _) = 49
wire_size (unshielded_spent _ _ _ _) = 145
wire_size (unshielded_received _ _ _ _) = 145
wire_size (unshielded_minted _ _ _) = 80
wire_size (unshielded_burned _ _ _) = 113
wire_size paused = 0
wire_size unpaused = 0
wire_size (noted _ _) = 288

length-joined_cons :
    (a : Bytes) (rest : List Bytes) (n m : ℕ)
    → length a ≡ n
    → length (joined rest) ≡ m
    → length (joined (a ∷ rest)) ≡ n + m
length-joined_cons a rest n m e f = omega (arith, length-append a (joined rest), e, f)

length-last : (a : Bytes) (n : ℕ) → length a ≡ n → length (joined (a ∷ [])) ≡ n
length-last a n e = omega (arith, length-append a [], e)

length-amount : (t : Bytes) (n : ℕ) → length t ≡ 32 → length (joined (t ∷ uint_128 n ∷ [])) ≡ 48
length-amount t n et =
    length-joined_cons t (uint_128 n ∷ []) 32 16 et
      (length-last (uint_128 n) 16 (length-to_le 16 n))

length-tokens :
    (d t : Bytes) (n : ℕ)
    → length d ≡ 32
    → length t ≡ 32
    → length (joined (d ∷ t ∷ uint_128 n ∷ [])) ≡ 80
length-tokens d t n ed et =
    length-joined_cons d (t ∷ uint_128 n ∷ []) 32 48 ed (length-amount t n et)

length-transfer :
    (s : AddressOrContract) (d t : Bytes) (n : ℕ)
    → IsAddress s
    → length d ≡ 32
    → length t ≡ 32
    → length (joined (either_bytes s ∷ d ∷ t ∷ uint_128 n ∷ [])) ≡ 145
length-transfer s d t n es ed et =
    length-joined_cons (either_bytes s) (d ∷ t ∷ uint_128 n ∷ []) 65 80 (length-either_bytes s es)
      (length-tokens d t n ed et)

pub length-wire : (p : Payload) → IsPayload p → length (wire p) ≡ wire_size p
length-wire (spent nullifier) e = length-last nullifier 32 e
length-wire (received c t a) (ec, et, ea) =
    length-joined_cons c (maybe_bytes 512 t ∷ maybe_bytes 32 a ∷ []) 32 546 ec (
      length-joined_cons (maybe_bytes 512 t) (maybe_bytes 32 a ∷ []) 513 33
        (length-maybe_bytes 512 t et)
        (length-last (maybe_bytes 32 a) 33 (length-maybe_bytes 32 a ea)))
length-wire (minted c d n) (ec, ed, en) =
    length-joined_cons c (d ∷ maybe_uint_128 n ∷ []) 32 49 ec (
      length-joined_cons d (maybe_uint_128 n ∷ []) 32 17 ed
        (length-last (maybe_uint_128 n) 17 (length-maybe_uint_128 n)))
length-wire (burned c n) (ec, en) =
    length-joined_cons c (maybe_uint_128 n ∷ []) 32 17 ec
      (length-last (maybe_uint_128 n) 17 (length-maybe_uint_128 n))
length-wire (unshielded_spent s d t n) (es, ed, et, en) = length-transfer s d t n es ed et
length-wire (unshielded_received s d t n) (es, ed, et, en) = length-transfer s d t n es ed et
length-wire (unshielded_minted d t n) (ed, et, en) = length-tokens d t n ed et
length-wire (unshielded_burned s t n) (es, et, en) =
    length-joined_cons (either_bytes s) (t ∷ uint_128 n ∷ []) 65 48 (length-either_bytes s es)
      (length-amount t n et)
length-wire paused e = refl
length-wire unpaused e = refl
length-wire (noted n p) (en, ep) = length-joined_cons n (p ∷ []) 32 256 en (length-last p 256 ep)

-- The flat bytes of an event: those that were emitted, if enough of them arrive.
pub extracted :
    (p : Payload)
    → IsPayload p
    → required p ≤ length (strip_zeros (wire p))
    → extract_flat_bytes (cell (strip_zeros (wire p) ∷ [])) (required p) (wire_size p)
      ≡ some (wire p)
extracted p ok enough =
    extract_flat_bytes-strip (wire p) (required p) (wire_size p) (length-wire p ok) enough
