-- ===== src/Checks/EventWires.antt =====
-- Encodings of ledger events, for the tests.
use nightfrost.Prelude.{ℕ, ◌≡◌, refl, Option, ◌⊎◌, inl, inr}
use nightfrost.Bytes.{Bytes}
use nightfrost.Domain.{
  LedgerEventGrouping, LedgerEventAttributes, LedgerEvent, AddressOrContract, QualifiedDustOutput,
  DustGenerationInfo,
}
use nightfrost.Checks.Wire.{
  Wire, nat_wire, unit_wire, pair_wire, sum_wire, as_wire, bytes_wire, option_wire,
}
use nightfrost.Checks.DataWires.{
  qualified_dust_output_wire, dust_generation_info_wire, address_or_contract_wire,
}

abbrev pub ledger_event_grouping_to : LedgerEventGrouping → (Unit {0}) ⊎ ((Unit {0}) ⊎ (Unit {0}))
ledger_event_grouping_to LedgerEventGrouping.zswap = inl tt
ledger_event_grouping_to LedgerEventGrouping.dust = inr (inl tt)
ledger_event_grouping_to LedgerEventGrouping.contract = inr (inr tt)

abbrev pub ledger_event_grouping_from : (Unit {0}) ⊎ ((Unit {0}) ⊎ (Unit {0})) → LedgerEventGrouping
ledger_event_grouping_from (inl _) = LedgerEventGrouping.zswap
ledger_event_grouping_from (inr (inl _)) = LedgerEventGrouping.dust
ledger_event_grouping_from (inr (inr _)) = LedgerEventGrouping.contract

pub ledger_event_grouping_from-to :
    (x : LedgerEventGrouping) → ledger_event_grouping_from (ledger_event_grouping_to x) ≡ x
ledger_event_grouping_from-to LedgerEventGrouping.zswap = refl
ledger_event_grouping_from-to LedgerEventGrouping.dust = refl
ledger_event_grouping_from-to LedgerEventGrouping.contract = refl

abbrev pub ledger_event_grouping_wire : Wire LedgerEventGrouping
ledger_event_grouping_wire =
    as_wire (sum_wire unit_wire (sum_wire unit_wire unit_wire)) ledger_event_grouping_to
      ledger_event_grouping_from ledger_event_grouping_from-to

abbrev pub ledger_event_attributes_to :
    LedgerEventAttributes
    → (Bytes)
      ⊎ ((Unit {0})
          ⊎ ((Unit {0})
              ⊎ ((QualifiedDustOutput × (DustGenerationInfo × ℕ))
                  ⊎ ((DustGenerationInfo × (ℕ × Bytes))
                      ⊎ ((Bytes × Bytes)
                          ⊎ ((ℕ × (Bytes × Bytes))
                              ⊎ ((ℕ × (Bytes × (Bytes × ((Option Bytes) × (Option Bytes)))))
                                  ⊎ ((ℕ × (Bytes × (Bytes × (Bytes × (Option Bytes)))))
                                      ⊎ ((ℕ × (Bytes × (Bytes × (Option Bytes))))
                                          ⊎ ((ℕ
                                                × (Bytes
                                                    × (AddressOrContract
                                                        × (Bytes × (Bytes × Bytes)))))
                                              ⊎ ((ℕ
                                                    × (Bytes
                                                        × (AddressOrContract
                                                            × (Bytes × (Bytes × Bytes)))))
                                                  ⊎ ((ℕ × (Bytes × (Bytes × (Bytes × Bytes))))
                                                      ⊎ ((ℕ
                                                            × (Bytes
                                                            × (AddressOrContract
                                                            × (Bytes × Bytes))))
                                                          ⊎ ((ℕ × Bytes)
                                                            ⊎ ((ℕ × Bytes)
                                                            ⊎ (ℕ
                                                            × (Bytes
                                                            × (Bytes × Bytes))))))))))))))))))
ledger_event_attributes_to (LedgerEventAttributes.zswap_input a) = inl a
ledger_event_attributes_to LedgerEventAttributes.zswap_output = inr (inl tt)
ledger_event_attributes_to LedgerEventAttributes.param_change = inr (inr (inl tt))
ledger_event_attributes_to (LedgerEventAttributes.dust_initial_utxo a b c) =
    inr (inr (inr (inl (a, (b, c)))))
ledger_event_attributes_to (LedgerEventAttributes.dust_generation_dtime_update a b c) =
    inr (inr (inr (inr (inl (a, (b, c))))))
ledger_event_attributes_to (LedgerEventAttributes.dust_spend_processed a b) =
    inr (inr (inr (inr (inr (inl (a, b))))))
ledger_event_attributes_to (LedgerEventAttributes.contract_shielded_spend a b c) =
    inr (inr (inr (inr (inr (inr (inl (a, (b, c))))))))
ledger_event_attributes_to (LedgerEventAttributes.contract_shielded_receive a b c d e) =
    inr (inr (inr (inr (inr (inr (inr (inl (a, (b, (c, (d, e)))))))))))
ledger_event_attributes_to (LedgerEventAttributes.contract_shielded_mint a b c d e) =
    inr (inr (inr (inr (inr (inr (inr (inr (inl (a, (b, (c, (d, e))))))))))))
ledger_event_attributes_to (LedgerEventAttributes.contract_shielded_burn a b c d) =
    inr (inr (inr (inr (inr (inr (inr (inr (inr (inl (a, (b, (c, d))))))))))))
ledger_event_attributes_to (LedgerEventAttributes.contract_unshielded_spend a b c d e f) =
    inr (inr (inr (inr (inr (inr (inr (inr (inr (inr (inl (a, (b, (c, (d, (e, f)))))))))))))))
ledger_event_attributes_to (LedgerEventAttributes.contract_unshielded_receive a b c d e f) =
    inr (inr (inr (inr (inr (inr (inr (inr (inr (inr (inr (inl (a, (b, (c, (d, (e, f))))))))))))))))
ledger_event_attributes_to (LedgerEventAttributes.contract_unshielded_mint a b c d e) =
    inr
      (inr (inr (inr (inr (inr (inr (inr (inr (inr (inr (inr (inl (a, (b, (c, (d, e))))))))))))))))
ledger_event_attributes_to (LedgerEventAttributes.contract_unshielded_burn a b c d e) = inr (
    inr
      (inr (inr (inr (inr (inr (inr (inr (inr (inr (inr (inr (inl (a, (b, (c, (d, e)))))))))))))))))
ledger_event_attributes_to (LedgerEventAttributes.contract_paused a b) =
    inr (inr (inr (inr (inr (inr (inr (inr (inr (inr (inr (inr (inr (inr (inl (a, b)))))))))))))))
ledger_event_attributes_to (LedgerEventAttributes.contract_unpaused a b) =
    inr (
      inr
        (inr (inr (inr (inr (inr (inr (inr (inr (inr (inr (inr (inr (inr (inl (a, b))))))))))))))))
ledger_event_attributes_to (LedgerEventAttributes.contract_misc a b c d) = inr (
    inr (
      inr (
        inr (
          inr
            (inr (inr (inr (inr (inr (inr (inr (inr (inr (inr (inr ((a, (b, (c, d)))))))))))))))))))

abbrev pub ledger_event_attributes_from :
    (Bytes)
      ⊎ ((Unit {0})
          ⊎ ((Unit {0})
              ⊎ ((QualifiedDustOutput × (DustGenerationInfo × ℕ))
                  ⊎ ((DustGenerationInfo × (ℕ × Bytes))
                      ⊎ ((Bytes × Bytes)
                          ⊎ ((ℕ × (Bytes × Bytes))
                              ⊎ ((ℕ × (Bytes × (Bytes × ((Option Bytes) × (Option Bytes)))))
                                  ⊎ ((ℕ × (Bytes × (Bytes × (Bytes × (Option Bytes)))))
                                      ⊎ ((ℕ × (Bytes × (Bytes × (Option Bytes))))
                                          ⊎ ((ℕ
                                                × (Bytes
                                                    × (AddressOrContract
                                                        × (Bytes × (Bytes × Bytes)))))
                                              ⊎ ((ℕ
                                                    × (Bytes
                                                        × (AddressOrContract
                                                            × (Bytes × (Bytes × Bytes)))))
                                                  ⊎ ((ℕ × (Bytes × (Bytes × (Bytes × Bytes))))
                                                      ⊎ ((ℕ
                                                            × (Bytes
                                                            × (AddressOrContract
                                                            × (Bytes × Bytes))))
                                                          ⊎ ((ℕ × Bytes)
                                                            ⊎ ((ℕ × Bytes)
                                                            ⊎ (ℕ
                                                            × (Bytes
                                                            × (Bytes × Bytes))))))))))))))))))
    → LedgerEventAttributes
ledger_event_attributes_from (inl a) = LedgerEventAttributes.zswap_input a
ledger_event_attributes_from (inr (inl _)) = LedgerEventAttributes.zswap_output
ledger_event_attributes_from (inr (inr (inl _))) = LedgerEventAttributes.param_change
ledger_event_attributes_from (inr (inr (inr (inl (a, (b, c)))))) =
    LedgerEventAttributes.dust_initial_utxo a b c
ledger_event_attributes_from (inr (inr (inr (inr (inl (a, (b, c))))))) =
    LedgerEventAttributes.dust_generation_dtime_update a b c
ledger_event_attributes_from (inr (inr (inr (inr (inr (inl (a, b))))))) =
    LedgerEventAttributes.dust_spend_processed a b
ledger_event_attributes_from (inr (inr (inr (inr (inr (inr (inl (a, (b, c))))))))) =
    LedgerEventAttributes.contract_shielded_spend a b c
ledger_event_attributes_from (inr (inr (inr (inr (inr (inr (inr (inl (a, (b, (c, (d, e)))))))))))) =
    LedgerEventAttributes.contract_shielded_receive a b c d e
ledger_event_attributes_from
      (inr (inr (inr (inr (inr (inr (inr (inr (inl (a, (b, (c, (d, e))))))))))))) =
    LedgerEventAttributes.contract_shielded_mint a b c d e
ledger_event_attributes_from
      (inr (inr (inr (inr (inr (inr (inr (inr (inr (inl (a, (b, (c, d))))))))))))) =
    LedgerEventAttributes.contract_shielded_burn a b c d
ledger_event_attributes_from
      (inr (inr (inr (inr (inr (inr (inr (inr (inr (inr (inl (a, (b, (c, (d, (e, f)))))))))))))))) =
    LedgerEventAttributes.contract_unshielded_spend a b c d e f
ledger_event_attributes_from
      (inr (
        inr
          (inr (inr (inr (inr (inr (inr (inr (inr (inr (inl (a, (b, (c, (d, (e, f))))))))))))))))) =
    LedgerEventAttributes.contract_unshielded_receive a b c d e f
ledger_event_attributes_from
      (inr (
        inr (
          inr (inr (inr (inr (inr (inr (inr (inr (inr (inr (inl (a, (b, (c, (d, e))))))))))))))))) =
    LedgerEventAttributes.contract_unshielded_mint a b c d e
ledger_event_attributes_from
      (inr (
        inr (
          inr (
            inr (
              inr (inr (inr (inr (inr (inr (inr (inr (inr (inl (a, (b, (c, (d, e)))))))))))))))))) =
    LedgerEventAttributes.contract_unshielded_burn a b c d e
ledger_event_attributes_from
      (inr (
        inr (inr (inr (inr (inr (inr (inr (inr (inr (inr (inr (inr (inr (inl (a, b)))))))))))))))) =
    LedgerEventAttributes.contract_paused a b
ledger_event_attributes_from
      (inr (
        inr (
          inr (
            inr (inr (inr (inr (inr (inr (inr (inr (inr (inr (inr (inr (inl (a, b))))))))))))))))) =
    LedgerEventAttributes.contract_unpaused a b
ledger_event_attributes_from
      (inr (
        inr (
          inr (
            inr (
              inr (
                inr (
                  inr (
                    inr (inr (inr (inr (inr (inr (inr (inr (inr ((a, (b, (c, d)))))))))))))))))))) =
    LedgerEventAttributes.contract_misc a b c d

pub ledger_event_attributes_from-to :
    (x : LedgerEventAttributes) → ledger_event_attributes_from (ledger_event_attributes_to x) ≡ x
ledger_event_attributes_from-to (LedgerEventAttributes.zswap_input a) = refl
ledger_event_attributes_from-to LedgerEventAttributes.zswap_output = refl
ledger_event_attributes_from-to LedgerEventAttributes.param_change = refl
ledger_event_attributes_from-to (LedgerEventAttributes.dust_initial_utxo a b c) = refl
ledger_event_attributes_from-to (LedgerEventAttributes.dust_generation_dtime_update a b c) = refl
ledger_event_attributes_from-to (LedgerEventAttributes.dust_spend_processed a b) = refl
ledger_event_attributes_from-to (LedgerEventAttributes.contract_shielded_spend a b c) = refl
ledger_event_attributes_from-to (LedgerEventAttributes.contract_shielded_receive a b c d e) = refl
ledger_event_attributes_from-to (LedgerEventAttributes.contract_shielded_mint a b c d e) = refl
ledger_event_attributes_from-to (LedgerEventAttributes.contract_shielded_burn a b c d) = refl
ledger_event_attributes_from-to (LedgerEventAttributes.contract_unshielded_spend a b c d e f) = refl
ledger_event_attributes_from-to (LedgerEventAttributes.contract_unshielded_receive a b c d e f) =
    refl
ledger_event_attributes_from-to (LedgerEventAttributes.contract_unshielded_mint a b c d e) = refl
ledger_event_attributes_from-to (LedgerEventAttributes.contract_unshielded_burn a b c d e) = refl
ledger_event_attributes_from-to (LedgerEventAttributes.contract_paused a b) = refl
ledger_event_attributes_from-to (LedgerEventAttributes.contract_unpaused a b) = refl
ledger_event_attributes_from-to (LedgerEventAttributes.contract_misc a b c d) = refl

abbrev pub ledger_event_attributes_wire : Wire LedgerEventAttributes
ledger_event_attributes_wire =
    as_wire
      (sum_wire bytes_wire (
        sum_wire unit_wire (
          sum_wire unit_wire (
            sum_wire
              (pair_wire qualified_dust_output_wire (pair_wire dust_generation_info_wire nat_wire))
              (sum_wire (pair_wire dust_generation_info_wire (pair_wire nat_wire bytes_wire)) (
                sum_wire (pair_wire bytes_wire bytes_wire) (
                  sum_wire (pair_wire nat_wire (pair_wire bytes_wire bytes_wire)) (
                    sum_wire
                      (pair_wire nat_wire (
                        pair_wire bytes_wire (
                          pair_wire bytes_wire
                            (pair_wire (option_wire bytes_wire) (option_wire bytes_wire)))))
                      (sum_wire
                        (pair_wire nat_wire (
                          pair_wire bytes_wire
                            (pair_wire bytes_wire (pair_wire bytes_wire (option_wire bytes_wire)))))
                        (sum_wire
                          (pair_wire nat_wire
                            (pair_wire bytes_wire (pair_wire bytes_wire (option_wire bytes_wire))))
                          (sum_wire
                            (pair_wire nat_wire (
                              pair_wire bytes_wire (
                                pair_wire address_or_contract_wire
                                  (pair_wire bytes_wire (pair_wire bytes_wire bytes_wire)))))
                            (sum_wire
                              (pair_wire nat_wire (
                                pair_wire bytes_wire (
                                  pair_wire address_or_contract_wire
                                    (pair_wire bytes_wire (pair_wire bytes_wire bytes_wire)))))
                              (sum_wire
                                (pair_wire nat_wire (
                                  pair_wire bytes_wire
                                    (pair_wire bytes_wire (pair_wire bytes_wire bytes_wire))))
                                (sum_wire
                                  (pair_wire nat_wire (
                                    pair_wire bytes_wire (
                                      pair_wire address_or_contract_wire
                                        (pair_wire bytes_wire bytes_wire))))
                                  (sum_wire (pair_wire nat_wire bytes_wire) (
                                    sum_wire (pair_wire nat_wire bytes_wire) (
                                      pair_wire nat_wire (
                                        pair_wire bytes_wire
                                          (pair_wire bytes_wire bytes_wire)))))))))))))))))))
      ledger_event_attributes_to ledger_event_attributes_from ledger_event_attributes_from-to

abbrev pub ledger_event_to :
    LedgerEvent
    → LedgerEventGrouping × (Bytes × (LedgerEventAttributes × ((Option ℕ) × (Option Bytes))))
ledger_event_to r =
    (r.grouping, (r.raw, (r.attributes, (r.contract_action_id, r.contract_address))))

abbrev pub ledger_event_from :
    LedgerEventGrouping × (Bytes × (LedgerEventAttributes × ((Option ℕ) × (Option Bytes))))
    → LedgerEvent
ledger_event_from p = record {
  grouping = p.0;
  raw = p.1.0;
  attributes = p.1.1.0;
  contract_action_id = p.1.1.1.0;
  contract_address = p.1.1.1.1;
}

abbrev pub ledger_event_wire : Wire LedgerEvent
ledger_event_wire =
    as_wire
      (pair_wire ledger_event_grouping_wire (
        pair_wire bytes_wire (
          pair_wire ledger_event_attributes_wire
            (pair_wire (option_wire nat_wire) (option_wire bytes_wire)))))
      ledger_event_to ledger_event_from λ r. refl
