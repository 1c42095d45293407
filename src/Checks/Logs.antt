-- ===== src/Checks/Logs.antt =====
-- The theorems on contract log items, at concrete events.
use nightfrost.Prelude.{◌≤◌, ◌≡◌, refl, [], ◌∷◌, length, arith}
use nightfrost.Domain.{user}
use nightfrost.Ledger.ContractLog.Fields.{cell}
use nightfrost.Ledger.ContractLog.Attributes.{shielded_spend, make_contract_event_attributes}
use nightfrost.Ledger.ContractLog.Wire.{
  Payload, unshielded_spent, emitted, described, wire, strip_zeros, required, to_le,
}
use nightfrost.Ledger.ContractLog.RoundTrip.{make_contract_event_attributes-emitted}
use nightfrost.Ledger.ContractLog.Truncated.{blank, make_contract_event_attributes-short}
use nightfrost.Ledger.ContractLog.Fields.{zeros}
use nightfrost.Checks.Sample.{thirty_two}

abbrev transfer : Payload
transfer = unshielded_spent (user (thirty_two 4)) (thirty_two 5) (thirty_two 6) 1000

enough_sent : required transfer ≤ length (strip_zeros (wire transfer))
unfolding strip_zeros to_le zeros
enough_sent = omega arith

make_contract_event_attributes-emitted_example :
    make_contract_event_attributes (emitted 1 transfer) (7 ∷ []) ≡ described 1 (7 ∷ []) transfer
make_contract_event_attributes-emitted_example =
    make_contract_event_attributes-emitted 1 (7 ∷ []) transfer (refl, refl, refl, omega arith)
      enough_sent

-- A nullifier whose last byte is 0, without it.
make_contract_event_attributes-short_example :
    make_contract_event_attributes
      (record { version = 1; event_type = shielded_spend; data_value = cell ((1 ∷ 2 ∷ []) ∷ []) })
      (7 ∷ [])
    ≡ blank 1 (7 ∷ []) shielded_spend
make_contract_event_attributes-short_example =
    make_contract_event_attributes-short 1 (7 ∷ []) shielded_spend (1 ∷ 2 ∷ []) (omega arith)
