-- ===== src/Core/Transition.antt =====
-- core/state_transition.go: a transaction to the beacon address read as a Mive message.
pub mod Fees
use mathlib.Core.Option
use Prim.Native.Nat.{min}
use mive.Base.{
  ℕ, ◌+◌, ◌/◌, Bytes, Bool, true, false, Option, none, some, is_empty, ◌==◌, if◌then◌else◌,
}
use mive.Params.{Address, ChainConfig, fee_reduction_denominator}

-- The go-ethereum transaction, through the methods that are called on it.
pub record Transaction : Type 0 where
  pub to : Option Address
  pub tx_type : ℕ
  pub data_bytes : Bytes
  pub nonce : ℕ
  pub gas_price : ℕ
  pub gas_fee_cap : ℕ
  pub gas_tip_cap : ℕ

-- `types.Tx` of core/types/tx.go
pub record Tx (AccessList : Type 0) : Type 0 where
  pub gas : ℕ
  pub to : Option Address
  pub value : ℕ
  pub data_bytes : Bytes
  pub access_list : AccessList

-- `core.Message`; its blob fields are nil.
pub record Message (AccessList : Type 0) : Type 0 where
  pub nonce : ℕ
  pub gas_limit : ℕ
  pub gas_price : ℕ
  pub gas_fee_cap : ℕ
  pub gas_tip_cap : ℕ
  pub to : Option Address
  pub value : ℕ
  pub data_bytes : Bytes
  pub access_list : AccessList
  pub skip_account_checks : Bool
  pub from_address : Address

-- What the function takes from go-ethereum: the type of blob transactions, the RLP decoding of a
-- payload, and the sender, which is the zero address beside an error.
pub record Ethereum (AccessList SenderError : Type 0) : Type 0 where
  pub blob_tx_type : ℕ
  pub decode_tx : Bytes → Option (Tx AccessList)
  pub sender : Transaction → Address × Option SenderError

module _ {Eth AccessList SenderError : Type 0} (geth : Ethereum AccessList SenderError) where
  -- The message of a decoded transaction, with its sender.
  unfoldable pub build_message :
      Transaction → Tx AccessList → Option ℕ → ChainConfig Eth → Message AccessList
  build_message tx mtx base_fee config =
      let denom = fee_reduction_denominator config in
      let fee_cap = tx.gas_fee_cap / denom in
      let tip_cap = tx.gas_tip_cap / denom in
      record {
        nonce = tx.nonce;
        gas_limit = mtx.gas;
        gas_price = elim base_fee [
          | none ↦ tx.gas_price / denom
          | some fee ↦ min (tip_cap + fee / denom) fee_cap
        ];
        gas_fee_cap = fee_cap;
        gas_tip_cap = tip_cap;
        to = mtx.to;
        value = mtx.value;
        data_bytes = mtx.data_bytes;
        access_list = mtx.access_list;
        skip_account_checks = true;
        from_address = (geth.sender tx).0;
      }

  -- `TransactionToMessage`: a nil message is `none`.
  unfoldable pub transaction_to_message :
      Transaction → Option ℕ → ChainConfig Eth → Option (Message AccessList) × Option SenderError
  unfolding build_message
  transaction_to_message tx base_fee config =
      let message : Option (Message AccessList) × Option SenderError =
        if tx.tx_type == geth.blob_tx_type
        then (none, none)
        else if is_empty tx.data_bytes
        then (none, none)
        else elim (geth.decode_tx tx.data_bytes) [
          | none ↦ (none, none)
          | some mtx ↦ (some (build_message tx mtx base_fee config), (geth.sender tx).1)
        ] in
      elim tx.to [
        | none ↦ (none, none)
        | some to ↦ if to == config.mive.beacon_address then message else (none, none)
      ]
