-- ===== src/Core/Transition/Fees.antt =====
-- core/state_transition.go: which transactions become messages, and what these pay.
use mive.Base.{
  ℕ, ◌+◌, ◌*◌, ◌≤◌, ◌≡◌, ◌≢◌, ◌⊎◌, false, Option, none, some, is_empty, arith, ◌/◌, Option-cases,
  inl, inr,
}
use mive.Params.{ChainConfig, default_fee_reduction_denominator}
use mive.Core.Transition.{Transaction, Tx, Message, Ethereum, build_message, transaction_to_message}

module _ {Eth AccessList SenderError : Type 0} (geth : Ethereum AccessList SenderError)
    (config : ChainConfig Eth) (tx : Transaction) (base_fee : Option ℕ) where
  -- The transactions that Mive executes: those sent to the beacon address, of another type than the
  -- blob type, whose payload is not empty and decodes to `mtx`.
  pub record IsMive (mtx : Tx AccessList) : Type 0 where
    pub to_beacon : tx.to ≡ some config.mive.beacon_address
    pub no_blob : tx.tx_type ≢ geth.blob_tx_type
    pub payload : is_empty tx.data_bytes ≡ false
    pub decoded : geth.decode_tx tx.data_bytes ≡ some mtx

  -- Such a transaction yields its message, with the error of its sender.
  pub transaction_to_message-IsMive :
      {mtx : Tx AccessList}
      → IsMive mtx
      → transaction_to_message geth tx base_fee config
        ≡ (some (build_message geth tx mtx base_fee config), (geth.sender tx).1)
  unfolding transaction_to_message
  transaction_to_message-IsMive m = ground arith

  -- A transaction that is not one of Mive, being sent elsewhere, of the blob type, or with a
  -- payload that is empty or does not decode, yields no message and no error.
  pub transaction_to_message-skipped :
      ((mtx : Tx AccessList) → ¬ IsMive mtx)
      → transaction_to_message geth tx base_fee config ≡ (none, none)
  unfolding transaction_to_message
  transaction_to_message-skipped skip = elim (Option-cases (geth.decode_tx tx.data_bytes)) [
    | inl bad ↦ ground arith
    | inr (mtx, good) ↦ ground (
      arith,
      λ (a : tx.to ≡ some config.mive.beacon_address) (b : tx.tx_type ≢ geth.blob_tx_type)
            (c : is_empty tx.data_bytes ≡ false).
          skip mtx (record { to_beacon = a; no_blob = b; payload = c; decoded = good }),
    )
  ]

  -- Where the base fee is given, a message never pays more for its gas than its fee cap, which is
  -- at most a fiftieth of that of the transaction, and pays either that cap or its tip cap on top
  -- of a fiftieth of the base fee.
  pub gas_price-le-fee_cap :
      (fee : ℕ) {m : Message AccessList}
      → base_fee ≡ some fee
      → (transaction_to_message geth tx base_fee config).0 ≡ some m
      → (m.gas_price ≤ m.gas_fee_cap)
        × (m.gas_fee_cap * default_fee_reduction_denominator ≤ tx.gas_fee_cap)
        × ((m.gas_price ≡ m.gas_fee_cap)
            ⊎ (m.gas_price ≡ m.gas_tip_cap + fee / default_fee_reduction_denominator))
  unfolding transaction_to_message
  gas_price-le-fee_cap fee given e = elim (Option-cases (geth.decode_tx tx.data_bytes)) [
    | inl bad ↦ ground arith
    | inr (mtx, good) ↦ ground arith
  ]
