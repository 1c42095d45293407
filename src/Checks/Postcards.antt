-- ===== src/Checks/Postcards.antt =====
-- A concrete postcard for the tests.
use nightfrost.Prelude.{ℕ, ◌≡◌, refl, Bool, Option, List, ◌⊎◌, inl, inr}
use nightfrost.Bytes.{Bytes}
use nightfrost.Domain.{
  ContractBalance, UnshieldedUtxo, DustGenerationInfo, TransactionVariant, TransactionResult,
  ContractAttributes, LedgerEvent,
}
use nightfrost.Store.Records.{
  Postcard, StoredLedgerVersion, BlockRecord, TxRecord, UtxoRecord, ContractActionRecord,
  LegacyContractActionRecord, ContractRecord, EventRecord, WalletTxIndexRecord,
  DustGenerationRecord, CnightRegistrationRecord,
}
use nightfrost.Checks.Wire.{
  Wire, nat_wire, unit_wire, pair_wire, sum_wire, as_wire, list_wire, bytes_wire, option_wire,
  bool_wire, codec,
}
use nightfrost.Checks.DataWires.{
  contract_balance_wire, unshielded_utxo_wire, dust_generation_info_wire, transaction_variant_wire,
  transaction_result_wire, contract_attributes_wire,
}
use nightfrost.Checks.EventWires.{ledger_event_wire}

abbrev pub stored_ledger_version_to : StoredLedgerVersion → (Unit {0}) ⊎ (Unit {0})
stored_ledger_version_to StoredLedgerVersion.v8 = inl tt
stored_ledger_version_to StoredLedgerVersion.v9 = inr tt

abbrev pub stored_ledger_version_from : (Unit {0}) ⊎ (Unit {0}) → StoredLedgerVersion
stored_ledger_version_from (inl _) = StoredLedgerVersion.v8
stored_ledger_version_from (inr _) = StoredLedgerVersion.v9

pub stored_ledger_version_from-to :
    (x : StoredLedgerVersion) → stored_ledger_version_from (stored_ledger_version_to x) ≡ x
stored_ledger_version_from-to StoredLedgerVersion.v8 = refl
stored_ledger_version_from-to StoredLedgerVersion.v9 = refl

abbrev pub stored_ledger_version_wire : Wire StoredLedgerVersion
stored_ledger_version_wire =
    as_wire (sum_wire unit_wire unit_wire) stored_ledger_version_to stored_ledger_version_from
      stored_ledger_version_from-to

abbrev pub block_record_to :
    BlockRecord
    → Bytes × (Bytes × (ℕ × (ℕ × ((Option Bytes) × (ℕ × (ℕ × (Bytes × (Option Bytes))))))))
block_record_to r = (
  r.hash,
  (
    r.parent_hash,
    (
      r.timestamp,
      (
        r.protocol_version,
        (r.author, (r.first_tx_id, (r.tx_count, (r.zswap_merkle_tree_root, r.ledger_state_root)))),
      ),
    ),
  ),
)

abbrev pub block_record_from :
    Bytes × (Bytes × (ℕ × (ℕ × ((Option Bytes) × (ℕ × (ℕ × (Bytes × (Option Bytes))))))))
    → BlockRecord
block_record_from p = record {
  hash = p.0;
  parent_hash = p.1.0;
  timestamp = p.1.1.0;
  protocol_version = p.1.1.1.0;
  author = p.1.1.1.1.0;
  first_tx_id = p.1.1.1.1.1.0;
  tx_count = p.1.1.1.1.1.1.0;
  zswap_merkle_tree_root = p.1.1.1.1.1.1.1.0;
  ledger_state_root = p.1.1.1.1.1.1.1.1;
}

abbrev pub block_record_wire : Wire BlockRecord
block_record_wire =
    as_wire
      (pair_wire bytes_wire (
        pair_wire bytes_wire (
          pair_wire nat_wire (
            pair_wire nat_wire (
              pair_wire (option_wire bytes_wire) (
                pair_wire nat_wire
                  (pair_wire nat_wire (pair_wire bytes_wire (option_wire bytes_wire)))))))))
      block_record_to block_record_from λ r. refl

abbrev pub tx_record_to :
    TxRecord
    → Bytes
      × (ℕ
          × (ℕ
              × (TransactionVariant
                  × (TransactionResult
                      × (ℕ
                          × (ℕ
                              × ((List Bytes)
                                  × ((List ℕ)
                                      × (ℕ
                                          × (ℕ
                                              × ((List UnshieldedUtxo)
                                                  × ((List UnshieldedUtxo) × Bytes))))))))))))
tx_record_to r = (
  r.hash,
  (
    r.block_height,
    (
      r.index_in_block,
      (
        r.variant,
        (
          r.result,
          (
            r.paid_fees,
            (
              r.estimated_fees,
              (
                r.identifiers,
                (
                  r.contract_action_ids,
                  (r.first_event_id, (r.event_count, (r.created_utxos, (r.spent_utxos, r.raw)))),
                ),
              ),
            ),
          ),
        ),
      ),
    ),
  ),
)

abbrev pub tx_record_from :
    Bytes
      × (ℕ
          × (ℕ
              × (TransactionVariant
                  × (TransactionResult
                      × (ℕ
                          × (ℕ
                              × ((List Bytes)
                                  × ((List ℕ)
                                      × (ℕ
                                          × (ℕ
                                              × ((List UnshieldedUtxo)
                                                  × ((List UnshieldedUtxo) × Bytes))))))))))))
    → TxRecord
tx_record_from p = record {
  hash = p.0;
  block_height = p.1.0;
  index_in_block = p.1.1.0;
  variant = p.1.1.1.0;
  result = p.1.1.1.1.0;
  paid_fees = p.1.1.1.1.1.0;
  estimated_fees = p.1.1.1.1.1.1.0;
  identifiers = p.1.1.1.1.1.1.1.0;
  contract_action_ids = p.1.1.1.1.1.1.1.1.0;
  first_event_id = p.1.1.1.1.1.1.1.1.1.0;
  event_count = p.1.1.1.1.1.1.1.1.1.1.0;
  created_utxos = p.1.1.1.1.1.1.1.1.1.1.1.0;
  spent_utxos = p.1.1.1.1.1.1.1.1.1.1.1.1.0;
  raw = p.1.1.1.1.1.1.1.1.1.1.1.1.1;
}

abbrev pub tx_record_wire : Wire TxRecord
tx_record_wire =
    as_wire
      (pair_wire bytes_wire (
        pair_wire nat_wire (
          pair_wire nat_wire (
            pair_wire transaction_variant_wire (
              pair_wire transaction_result_wire (
                pair_wire nat_wire (
                  pair_wire nat_wire (
                    pair_wire (list_wire bytes_wire) (
                      pair_wire (list_wire nat_wire) (
                        pair_wire nat_wire (
                          pair_wire nat_wire (
                            pair_wire (list_wire unshielded_utxo_wire)
                              (pair_wire (list_wire unshielded_utxo_wire) bytes_wire)))))))))))))
      tx_record_to tx_record_from λ r. refl

abbrev pub utxo_record_to : UtxoRecord → UnshieldedUtxo × (ℕ × (Option ℕ))
utxo_record_to r = (r.utxo, (r.creating_tx_id, r.spending_tx_id))

abbrev pub utxo_record_from : UnshieldedUtxo × (ℕ × (Option ℕ)) → UtxoRecord
utxo_record_from p = record { utxo = p.0; creating_tx_id = p.1.0; spending_tx_id = p.1.1 }

abbrev pub utxo_record_wire : Wire UtxoRecord
utxo_record_wire =
    as_wire (pair_wire unshielded_utxo_wire (pair_wire nat_wire (option_wire nat_wire)))
      utxo_record_to utxo_record_from λ r. refl

abbrev pub contract_action_record_to :
    ContractActionRecord
    → Bytes × (ContractAttributes × ((Option Bytes) × ((List ContractBalance) × (ℕ × ℕ))))
contract_action_record_to r =
    (r.address, (r.attributes, (r.state_hash, (r.balances, (r.tx_id, r.block_height)))))

abbrev pub contract_action_record_from :
    Bytes × (ContractAttributes × ((Option Bytes) × ((List ContractBalance) × (ℕ × ℕ))))
    → ContractActionRecord
contract_action_record_from p = record {
  address = p.0;
  attributes = p.1.0;
  state_hash = p.1.1.0;
  balances = p.1.1.1.0;
  tx_id = p.1.1.1.1.0;
  block_height = p.1.1.1.1.1;
}

abbrev pub contract_action_record_wire : Wire ContractActionRecord
contract_action_record_wire =
    as_wire
      (pair_wire bytes_wire (
        pair_wire contract_attributes_wire (
          pair_wire (option_wire bytes_wire)
            (pair_wire (list_wire contract_balance_wire) (pair_wire nat_wire nat_wire)))))
      contract_action_record_to contract_action_record_from λ r. refl

abbrev pub legacy_contract_action_record_to :
    LegacyContractActionRecord
    → Bytes × (ContractAttributes × (Bytes × ((List ContractBalance) × (ℕ × ℕ))))
legacy_contract_action_record_to r =
    (r.address, (r.attributes, (r.state, (r.balances, (r.tx_id, r.block_height)))))

abbrev pub legacy_contract_action_record_from :
    Bytes × (ContractAttributes × (Bytes × ((List ContractBalance) × (ℕ × ℕ))))
    → LegacyContractActionRecord
legacy_contract_action_record_from p = record {
  address = p.0;
  attributes = p.1.0;
  state = p.1.1.0;
  balances = p.1.1.1.0;
  tx_id = p.1.1.1.1.0;
  block_height = p.1.1.1.1.1;
}

abbrev pub legacy_contract_action_record_wire : Wire LegacyContractActionRecord
legacy_contract_action_record_wire =
    as_wire
      (pair_wire bytes_wire (
        pair_wire contract_attributes_wire (
          pair_wire bytes_wire
            (pair_wire (list_wire contract_balance_wire) (pair_wire nat_wire nat_wire)))))
      legacy_contract_action_record_to legacy_contract_action_record_from λ r. refl

abbrev pub contract_record_to : ContractRecord → ℕ × ℕ
contract_record_to r = (r.deploy_action_id, r.latest_action_id)

abbrev pub contract_record_from : ℕ × ℕ → ContractRecord
contract_record_from p = record { deploy_action_id = p.0; latest_action_id = p.1 }

abbrev pub contract_record_wire : Wire ContractRecord
contract_record_wire =
    as_wire (pair_wire nat_wire nat_wire) contract_record_to contract_record_from λ r. refl

abbrev pub event_record_to : EventRecord → LedgerEvent × (ℕ × ℕ)
event_record_to r = (r.event, (r.tx_id, r.block_height))

abbrev pub event_record_from : LedgerEvent × (ℕ × ℕ) → EventRecord
event_record_from p = record { event = p.0; tx_id = p.1.0; block_height = p.1.1 }

abbrev pub event_record_wire : Wire EventRecord
event_record_wire =
    as_wire (pair_wire ledger_event_wire (pair_wire nat_wire nat_wire)) event_record_to
      event_record_from λ r. refl

abbrev pub wallet_tx_index_record_to : WalletTxIndexRecord → ℕ × (ℕ × ℕ)
wallet_tx_index_record_to r = (r.zswap_start_index, (r.zswap_end_index, r.protocol_version))

abbrev pub wallet_tx_index_record_from : ℕ × (ℕ × ℕ) → WalletTxIndexRecord
wallet_tx_index_record_from p = record {
  zswap_start_index = p.0;
  zswap_end_index = p.1.0;
  protocol_version = p.1.1;
}

abbrev pub wallet_tx_index_record_wire : Wire WalletTxIndexRecord
wallet_tx_index_record_wire =
    as_wire (pair_wire nat_wire (pair_wire nat_wire nat_wire)) wallet_tx_index_record_to
      wallet_tx_index_record_from λ r. refl

abbrev pub dust_generation_record_to : DustGenerationRecord → DustGenerationInfo × ℕ
dust_generation_record_to r = (r.info, r.tx_id)

abbrev pub dust_generation_record_from : DustGenerationInfo × ℕ → DustGenerationRecord
dust_generation_record_from p = record { info = p.0; tx_id = p.1 }

abbrev pub dust_generation_record_wire : Wire DustGenerationRecord
dust_generation_record_wire =
    as_wire (pair_wire dust_generation_info_wire nat_wire) dust_generation_record_to
      dust_generation_record_from λ r. refl

abbrev pub cnight_registration_record_to :
    CnightRegistrationRecord
    → Bytes × (Bytes × (Bool × (ℕ × ((Option ℕ) × ((Option Bytes) × (Option ℕ))))))
cnight_registration_record_to r = (
  r.cardano_stake_key,
  (
    r.dust_address,
    (r.valid, (r.registered_at_height, (r.removed_at_height, (r.utxo_id, r.utxo_index)))),
  ),
)

abbrev pub cnight_registration_record_from :
    Bytes × (Bytes × (Bool × (ℕ × ((Option ℕ) × ((Option Bytes) × (Option ℕ))))))
    → CnightRegistrationRecord
cnight_registration_record_from p = record {
  cardano_stake_key = p.0;
  dust_address = p.1.0;
  valid = p.1.1.0;
  registered_at_height = p.1.1.1.0;
  removed_at_height = p.1.1.1.1.0;
  utxo_id = p.1.1.1.1.1.0;
  utxo_index = p.1.1.1.1.1.1;
}

abbrev pub cnight_registration_record_wire : Wire CnightRegistrationRecord
cnight_registration_record_wire =
    as_wire
      (pair_wire bytes_wire (
        pair_wire bytes_wire (
          pair_wire bool_wire (
            pair_wire nat_wire (
              pair_wire (option_wire nat_wire)
                (pair_wire (option_wire bytes_wire) (option_wire nat_wire)))))))
      cnight_registration_record_to cnight_registration_record_from λ r. refl

abbrev pub cells : Postcard
cells = record {
  block = codec block_record_wire;
  tx = codec tx_record_wire;
  utxo = codec utxo_record_wire;
  contract_action = codec contract_action_record_wire;
  legacy_contract_action = codec legacy_contract_action_record_wire;
  contract = codec contract_record_wire;
  event = codec event_record_wire;
  wallet_tx_index = codec wallet_tx_index_record_wire;
  dust_generation = codec dust_generation_record_wire;
  registration = codec cnight_registration_record_wire;
  window = codec (list_wire (pair_wire bytes_wire stored_ledger_version_wire));
}
