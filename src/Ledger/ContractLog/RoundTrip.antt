-- ===== src/Ledger/ContractLog/RoundTrip.antt =====
-- What `make_contract_event_attributes` of
-- crates/nightfrost-core/src/domain/ledger/ledger_state.rs decodes from an emitted log item.
use nightfrost.Prelude.{ℕ, ◌+◌, ◌≤◌, ◌≡◌, refl, ◌∙◌, some, [], ◌∷◌, ◌++◌, length}
use nightfrost.Bytes.{Bytes}
use nightfrost.Domain.{AddressOrContract}
use nightfrost.Ledger.ContractLog.Fields.{take_bytes, take_uint_128_le, to_decimal}
use nightfrost.Ledger.ContractLog.Attributes.{make_contract_event_attributes}
use nightfrost.Ledger.ContractLog.Wire.{
  Payload, spent, received, minted, burned, unshielded_spent, unshielded_received,
  unshielded_minted, unshielded_burned, paused, unpaused, noted, wire, joined, strip_zeros, emitted,
  required, described, IsPayload, IsAddress, IsU128, maybe_bytes, maybe_uint_128, uint_128,
  either_bytes,
}
use nightfrost.Ledger.ContractLog.Slices.{take_bytes-past, take_bytes-here}
use nightfrost.Ledger.ContractLog.Readers.{
  take_maybe_bytes-past, take_uint_128_le-past, take_maybe_uint_128_le-past, take_maybe_bytes-here,
  take_uint_128_le-here, take_maybe_uint_128_le-here, take_either_address-here, length-maybe_bytes,
  length-either_bytes,
}
use nightfrost.Ledger.ContractLog.Sizes.{extracted}

-- A field is read after one other, and after two.
second_bytes :
    (a b rest : Bytes) (n m : ℕ)
    → length a ≡ n
    → length b ≡ m
    → take_bytes (a ++ (b ++ rest)) (n + 0) m ≡ some b
second_bytes a b rest n m ea eb =
    take_bytes-past a (b ++ rest) n ea 0 m ∙ take_bytes-here b rest m eb

third_bytes :
    (a b c rest : Bytes) (n m k : ℕ)
    → length a ≡ n
    → length b ≡ m
    → length c ≡ k
    → take_bytes (a ++ (b ++ (c ++ rest))) (n + (m + 0)) k ≡ some c
third_bytes a b c rest n m k ea eb ec =
    take_bytes-past a (b ++ (c ++ rest)) n ea (m + 0) k ∙ second_bytes b c rest m k eb ec

third_amount :
    (a b rest : Bytes) (n m k : ℕ)
    → length a ≡ n
    → length b ≡ m
    → IsU128 k
    → take_uint_128_le (a ++ (b ++ (uint_128 k ++ rest))) (n + (m + 0)) ≡ some (to_decimal k)
third_amount a b rest n m k ea eb ek =
    take_uint_128_le-past a (b ++ (uint_128 k ++ rest)) n ea (m + 0)
    ∙ (take_uint_128_le-past b (uint_128 k ++ rest) m eb 0 ∙ take_uint_128_le-here k rest ek)

-- The amount of a transfer, after the address and the two identifiers.
fourth_amount :
    (s : AddressOrContract) (d t : Bytes) (n : ℕ)
    → IsAddress s
    → length d ≡ 32
    → length t ≡ 32
    → IsU128 n
    → take_uint_128_le (joined (either_bytes s ∷ d ∷ t ∷ uint_128 n ∷ [])) 129 ≡ some (to_decimal n)
fourth_amount s d t n es ed et en =
    take_uint_128_le-past (either_bytes s) (joined (d ∷ t ∷ uint_128 n ∷ [])) 65
      (length-either_bytes s es) 64
    ∙ third_amount d t [] 32 32 n ed et en

-- The event decoded from an emitted payload is the event that the payload describes, provided that
-- the fields have their sizes and the stripping of trailing zeros left the bytes that are required.
pub make_contract_event_attributes-emitted :
    (v : ℕ) (entry_point : Bytes) (p : Payload)
    → IsPayload p
    → required p ≤ length (strip_zeros (wire p))
    → make_contract_event_attributes (emitted v p) entry_point ≡ described v entry_point p
unfolding make_contract_event_attributes
make_contract_event_attributes-emitted v e (spent nullifier) ok enough =
    rw (extracted (spent nullifier) ok enough, take_bytes-here nullifier [] 32 ok)
make_contract_event_attributes-emitted v e (received c t a) (ec, et, ea) enough = rw (
  extracted (received c t a) (ec, et, ea) enough,
  take_bytes-here c (joined (maybe_bytes 512 t ∷ maybe_bytes 32 a ∷ [])) 32 ec,
  take_maybe_bytes-past c (joined (maybe_bytes 512 t ∷ maybe_bytes 32 a ∷ [])) 32 ec 0 512,
  take_maybe_bytes-here 512 t (joined (maybe_bytes 32 a ∷ [])) et,
  take_maybe_bytes-past c (joined (maybe_bytes 512 t ∷ maybe_bytes 32 a ∷ [])) 32 ec 513 32,
  take_maybe_bytes-past (maybe_bytes 512 t) (joined (maybe_bytes 32 a ∷ [])) 513
      (length-maybe_bytes 512 t et) 0 32,
  take_maybe_bytes-here 32 a [] ea,
)
make_contract_event_attributes-emitted v e (minted c d n) (ec, ed, en) enough = rw (
  extracted (minted c d n) (ec, ed, en) enough,
  take_bytes-here c (joined (d ∷ maybe_uint_128 n ∷ [])) 32 ec,
  second_bytes c d (joined (maybe_uint_128 n ∷ [])) 32 32 ec ed,
  take_maybe_uint_128_le-past c (joined (d ∷ maybe_uint_128 n ∷ [])) 32 ec 32,
  take_maybe_uint_128_le-past d (joined (maybe_uint_128 n ∷ [])) 32 ed 0,
  take_maybe_uint_128_le-here n [] en,
)
make_contract_event_attributes-emitted v e (burned c n) (ec, en) enough = rw (
  extracted (burned c n) (ec, en) enough,
  take_bytes-here c (joined (maybe_uint_128 n ∷ [])) 32 ec,
  take_maybe_uint_128_le-past c (joined (maybe_uint_128 n ∷ [])) 32 ec 0,
  take_maybe_uint_128_le-here n [] en,
)
make_contract_event_attributes-emitted v e (unshielded_spent s d t n) (es, ed, et, en) enough = rw (
  extracted (unshielded_spent s d t n) (es, ed, et, en) enough,
  take_either_address-here s (joined (d ∷ t ∷ uint_128 n ∷ [])) es,
  second_bytes (either_bytes s) d (joined (t ∷ uint_128 n ∷ [])) 65 32 (length-either_bytes s es)
      ed,
  third_bytes (either_bytes s) d t (joined (uint_128 n ∷ [])) 65 32 32 (length-either_bytes s es) ed
      et,
  fourth_amount s d t n es ed et en,
)
make_contract_event_attributes-emitted v e (unshielded_received s d t n) (es, ed, et, en) enough =
    rw (
      extracted (unshielded_received s d t n) (es, ed, et, en) enough,
      take_either_address-here s (joined (d ∷ t ∷ uint_128 n ∷ [])) es,
      second_bytes (either_bytes s) d (joined (t ∷ uint_128 n ∷ [])) 65 32
          (length-either_bytes s es) ed,
      third_bytes (either_bytes s) d t (joined (uint_128 n ∷ [])) 65 32 32
          (length-either_bytes s es) ed et,
      fourth_amount s d t n es ed et en,
    )
make_contract_event_attributes-emitted v e (unshielded_minted d t n) (ed, et, en) enough = rw (
  extracted (unshielded_minted d t n) (ed, et, en) enough,
  take_bytes-here d (joined (t ∷ uint_128 n ∷ [])) 32 ed,
  second_bytes d t (joined (uint_128 n ∷ [])) 32 32 ed et,
  third_amount d t [] 32 32 n ed et en,
)
make_contract_event_attributes-emitted v e (unshielded_burned s t n) (es, et, en) enough = rw (
  extracted (unshielded_burned s t n) (es, et, en) enough,
  take_either_address-here s (joined (t ∷ uint_128 n ∷ [])) es,
  second_bytes (either_bytes s) t (joined (uint_128 n ∷ [])) 65 32 (length-either_bytes s es) et,
  third_amount (either_bytes s) t [] 65 32 n (length-either_bytes s es) et en,
)
make_contract_event_attributes-emitted v e paused ok enough = refl
make_contract_event_attributes-emitted v e unpaused ok enough = refl
make_contract_event_attributes-emitted v e (noted n p) (en, ep) enough = rw (
  extracted (noted n p) (en, ep) enough,
  take_bytes-here n (joined (p ∷ [])) 32 en,
  second_bytes n p [] 32 256 en ep,
)
