-- ===== src/Checks/DataWires.antt =====
-- Encodings of the data of a replayed block, for the tests.
use nightfrost.Prelude.{ℕ, ◌≡◌, refl, Bool, Option, List, ◌⊎◌, inl, inr}
use nightfrost.Bytes.{Bytes}
use nightfrost.Domain.{
  ContractBalance, UnshieldedUtxo, QualifiedDustOutput, DustGenerationInfo, TransactionVariant,
  TransactionResult, ContractAttributes, AddressOrContract,
}
use nightfrost.Checks.Wire.{
  Wire, nat_wire, unit_wire, pair_wire, sum_wire, as_wire, list_wire, bytes_wire, option_wire,
  bool_wire,
}

abbrev pub contract_balance_to : ContractBalance → Bytes × ℕ
contract_balance_to r = (r.token_type, r.amount)

abbrev pub contract_balance_from : Bytes × ℕ → ContractBalance
contract_balance_from p = record { token_type = p.0; amount = p.1 }

abbrev pub contract_balance_wire : Wire ContractBalance
contract_balance_wire =
    as_wire (pair_wire bytes_wire nat_wire) contract_balance_to contract_balance_from λ r. refl

abbrev pub unshielded_utxo_to :
    UnshieldedUtxo → Bytes × (Bytes × (ℕ × (Bytes × (ℕ × ((Option ℕ) × (Bytes × Bool))))))
unshielded_utxo_to r = (
  r.owner,
  (
    r.token_type,
    (
      r.value,
      (
        r.intent_hash,
        (r.output_index, (r.ctime, (r.initial_nonce, r.registered_for_dust_generation))),
      ),
    ),
  ),
)

abbrev pub unshielded_utxo_from :
    Bytes × (Bytes × (ℕ × (Bytes × (ℕ × ((Option ℕ) × (Bytes × Bool)))))) → UnshieldedUtxo
unshielded_utxo_from p = record {
  owner = p.0;
  token_type = p.1.0;
  value = p.1.1.0;
  intent_hash = p.1.1.1.0;
  output_index = p.1.1.1.1.0;
  ctime = p.1.1.1.1.1.0;
  initial_nonce = p.1.1.1.1.1.1.0;
  registered_for_dust_generation = p.1.1.1.1.1.1.1;
}

abbrev pub unshielded_utxo_wire : Wire UnshieldedUtxo
unshielded_utxo_wire =
    as_wire
      (pair_wire bytes_wire (
        pair_wire bytes_wire (
          pair_wire nat_wire (
            pair_wire bytes_wire (
              pair_wire nat_wire
                (pair_wire (option_wire nat_wire) (pair_wire bytes_wire bool_wire)))))))
      unshielded_utxo_to unshielded_utxo_from λ r. refl

abbrev pub qualified_dust_output_to :
    QualifiedDustOutput → ℕ × (Bytes × (Bytes × (ℕ × (ℕ × (Bytes × ℕ)))))
qualified_dust_output_to r =
    (r.initial_value, (r.owner, (r.nonce, (r.seq, (r.ctime, (r.backing_night, r.mt_index))))))

abbrev pub qualified_dust_output_from :
    ℕ × (Bytes × (Bytes × (ℕ × (ℕ × (Bytes × ℕ))))) → QualifiedDustOutput
qualified_dust_output_from p = record {
  initial_value = p.0;
  owner = p.1.0;
  nonce = p.1.1.0;
  seq = p.1.1.1.0;
  ctime = p.1.1.1.1.0;
  backing_night = p.1.1.1.1.1.0;
  mt_index = p.1.1.1.1.1.1;
}

abbrev pub qualified_dust_output_wire : Wire QualifiedDustOutput
qualified_dust_output_wire =
    as_wire
      (pair_wire nat_wire (
        pair_wire bytes_wire (
          pair_wire bytes_wire
            (pair_wire nat_wire (pair_wire nat_wire (pair_wire bytes_wire nat_wire))))))
      qualified_dust_output_to qualified_dust_output_from λ r. refl

abbrev pub dust_generation_info_to : DustGenerationInfo → Bytes × (ℕ × (Bytes × (Bytes × (ℕ × ℕ))))
dust_generation_info_to r = (r.night_utxo_hash, (r.value, (r.owner, (r.nonce, (r.ctime, r.dtime)))))

abbrev pub dust_generation_info_from :
    Bytes × (ℕ × (Bytes × (Bytes × (ℕ × ℕ)))) → DustGenerationInfo
dust_generation_info_from p = record {
  night_utxo_hash = p.0;
  value = p.1.0;
  owner = p.1.1.0;
  nonce = p.1.1.1.0;
  ctime = p.1.1.1.1.0;
  dtime = p.1.1.1.1.1;
}

abbrev pub dust_generation_info_wire : Wire DustGenerationInfo
dust_generation_info_wire =
    as_wire
      (pair_wire bytes_wire (
        pair_wire nat_wire
          (pair_wire bytes_wire (pair_wire bytes_wire (pair_wire nat_wire nat_wire)))))
      dust_generation_info_to dust_generation_info_from λ r. refl

abbrev pub transaction_variant_to : TransactionVariant → (Unit {0}) ⊎ (Unit {0})
transaction_variant_to TransactionVariant.regular = inl tt
transaction_variant_to TransactionVariant.system = inr tt

abbrev pub transaction_variant_from : (Unit {0}) ⊎ (Unit {0}) → TransactionVariant
transaction_variant_from (inl _) = TransactionVariant.regular
transaction_variant_from (inr _) = TransactionVariant.system

pub transaction_variant_from-to :
    (x : TransactionVariant) → transaction_variant_from (transaction_variant_to x) ≡ x
transaction_variant_from-to TransactionVariant.regular = refl
transaction_variant_from-to TransactionVariant.system = refl

abbrev pub transaction_variant_wire : Wire TransactionVariant
transaction_variant_wire =
    as_wire (sum_wire unit_wire unit_wire) transaction_variant_to transaction_variant_from
      transaction_variant_from-to

abbrev pub transaction_result_to :
    TransactionResult → (Unit {0}) ⊎ (((List (ℕ × Bool))) ⊎ (Unit {0}))
transaction_result_to TransactionResult.success = inl tt
transaction_result_to (TransactionResult.partial_success a) = inr (inl a)
transaction_result_to TransactionResult.failure = inr (inr tt)

abbrev pub transaction_result_from :
    (Unit {0}) ⊎ (((List (ℕ × Bool))) ⊎ (Unit {0})) → TransactionResult
transaction_result_from (inl _) = TransactionResult.success
transaction_result_from (inr (inl a)) = TransactionResult.partial_success a
transaction_result_from (inr (inr _)) = TransactionResult.failure

pub transaction_result_from-to :
    (x : TransactionResult) → transaction_result_from (transaction_result_to x) ≡ x
transaction_result_from-to TransactionResult.success = refl
transaction_result_from-to (TransactionResult.partial_success a) = refl
transaction_result_from-to TransactionResult.failure = refl

abbrev pub transaction_result_wire : Wire TransactionResult
transaction_result_wire =
    as_wire (sum_wire unit_wire (sum_wire (list_wire (pair_wire nat_wire bool_wire)) unit_wire))
      transaction_result_to transaction_result_from transaction_result_from-to

abbrev pub contract_attributes_to : ContractAttributes → (Unit {0}) ⊎ ((Bytes) ⊎ (Unit {0}))
contract_attributes_to ContractAttributes.deploy = inl tt
contract_attributes_to (ContractAttributes.call a) = inr (inl a)
contract_attributes_to ContractAttributes.update = inr (inr tt)

abbrev pub contract_attributes_from : (Unit {0}) ⊎ ((Bytes) ⊎ (Unit {0})) → ContractAttributes
contract_attributes_from (inl _) = ContractAttributes.deploy
contract_attributes_from (inr (inl a)) = ContractAttributes.call a
contract_attributes_from (inr (inr _)) = ContractAttributes.update

pub contract_attributes_from-to :
    (x : ContractAttributes) → contract_attributes_from (contract_attributes_to x) ≡ x
contract_attributes_from-to ContractAttributes.deploy = refl
contract_attributes_from-to (ContractAttributes.call a) = refl
contract_attributes_from-to ContractAttributes.update = refl

abbrev pub contract_attributes_wire : Wire ContractAttributes
contract_attributes_wire =
    as_wire (sum_wire unit_wire (sum_wire bytes_wire unit_wire)) contract_attributes_to
      contract_attributes_from contract_attributes_from-to

abbrev pub address_or_contract_to : AddressOrContract → (Bytes) ⊎ (Bytes)
address_or_contract_to (AddressOrContract.user a) = inl a
address_or_contract_to (AddressOrContract.contract a) = inr a

abbrev pub address_or_contract_from : (Bytes) ⊎ (Bytes) → AddressOrContract
address_or_contract_from (inl a) = AddressOrContract.user a
address_or_contract_from (inr a) = AddressOrContract.contract a

pub address_or_contract_from-to :
    (x : AddressOrContract) → address_or_contract_from (address_or_contract_to x) ≡ x
address_or_contract_from-to (AddressOrContract.user a) = refl
address_or_contract_from-to (AddressOrContract.contract a) = refl

abbrev pub address_or_contract_wire : Wire AddressOrContract
address_or_contract_wire =
    as_wire (sum_wire bytes_wire bytes_wire) address_or_contract_to address_or_contract_from
      address_or_contract_from-to
