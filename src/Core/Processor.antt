-- ===== src/Core/Processor.antt =====
-- core/state_processor.go: the transactions of a block, executed in turn.
pub mod Receipts
pub mod Prefetcher
pub mod Prefetch
use mive.Base.{
  ℕ, suc, ◌*◌, ◌⊎◌, inl, inr, Bytes, Bool, true, false, Option, none, some, List, [], ◌∷◌, ◌++◌,
  ◌==◌, if◌then◌else◌, add64, uint64,
}
use mive.Params.{Address, ChainConfig}
use mive.Core.Types.{Hash}
use mive.Core.Evm.{BlockContext, block_gas_limit, new_evm_block_context}
use mive.Core.Transition.{Transaction, Message, Ethereum, transaction_to_message}

-- A transaction of a block, with what the processor asks of it beside its message.
pub record BlockTx : Type 0 where
  pub tx : Transaction
  pub hash : Hash
  pub blob_hashes : ℕ  -- how many

-- The go-ethereum block, through the methods that are called on it.
pub record ExecutedBlock : Type 0 where
  pub hash : Hash
  pub number : ℕ
  pub time : ℕ
  pub gas_limit : ℕ
  pub base_fee : Option ℕ
  pub beacon_root : Option Hash
  pub transactions : List BlockTx

-- `types.Receipt`; a nil post state or contract address is `none`.
pub record Receipt (Log : Type 0) : Type 0 where
  pub tx_type : ℕ
  pub post_state : Option Hash
  pub cumulative_gas_used : ℕ  -- uint64
  pub is_successful : Bool
  pub tx_hash : Hash
  pub gas_used : ℕ  -- uint64
  pub blob_gas_used : ℕ
  pub blob_gas_price : Option ℕ
  pub contract_address : Option Address
  pub logs : List Log
  pub bloom : Bytes
  pub block_hash : Hash
  pub block_number : ℕ
  pub transaction_index : ℕ

-- What is executed by go-ethereum: the state database, the virtual machine and the rules of the forks.
pub record Machine (Eth AccessList : Type 0) : Type 1 where
  pub State : Type 0
  pub Log : Type 0
  pub ApplyError : Type 0
  -- `ApplyMessage` over a block context, a state and the gas left in the pool: the gas used, whether the
  -- message failed, the state and the pool; or an error.
  pub apply_message :
      BlockContext → State → ℕ → Message AccessList → ApplyError ⊎ (ℕ × Bool × State × ℕ)
  pub new_context : ExecutedBlock → Address → BlockContext
  pub safe_mul : ℕ → ℕ → ℕ × Bool
  pub apply_dao_fork : State → State
  pub process_beacon_root : State → Hash → State
  pub set_tx_context : State → Hash → ℕ → State
  pub tx_index : State → ℕ
  pub finalise : State → State
  pub intermediate_root : State → Bool → Hash × State
  pub get_logs : State → Hash → ℕ → Hash → List Log
  pub create_bloom : List Log → Bytes
  pub create_address : Address → ℕ → Address
  pub is_dao_fork : Eth → ℕ → Bool  -- the fork is supported, and this is its block
  pub is_byzantium : Eth → ℕ → Bool
  pub is_eip158 : Eth → ℕ → Bool
  pub blob_gas_per_blob : ℕ

pub data ProcessError (ApplyError SenderError : Type 0) : Type 0 where
  sender_failed : ℕ → SenderError → ProcessError ApplyError SenderError
  apply_failed : ℕ → ApplyError → ProcessError ApplyError SenderError

module _ {Eth AccessList SenderError : Type 0} (M : Machine Eth AccessList)
    (geth : Ethereum AccessList SenderError) (config : ChainConfig Eth)
    (block : ExecutedBlock) where
  -- The variables of the loop: the state, the gas pool and the gas used.
  pub record Progress : Type 0 where
    pub state : M.State
    pub pool : ℕ
    pub used_gas : ℕ

  -- The context of the block, for the beneficiary.
  unfoldable pub block_context : BlockContext
  block_context = new_evm_block_context M.safe_mul (M.new_context block) none config

  -- The pool that a block starts with.
  unfoldable pub gas_pool : ℕ
  gas_pool = block_gas_limit M.safe_mul block.gas_limit config

  -- The receipt of an executed message, from the state after it.
  unfoldable pub make_receipt :
      Message AccessList → BlockTx → M.State → Option Hash → ℕ → ℕ → Bool → Receipt M.Log
  make_receipt msg t state root cumulative gas failed =
      let is_blob = t.tx.tx_type == geth.blob_tx_type in
      let logs = M.get_logs state t.hash (uint64 block.number) block.hash in
      record {
        tx_type = t.tx.tx_type;
        post_state = root;
        cumulative_gas_used = cumulative;
        is_successful = if failed then false else true;
        tx_hash = t.hash;
        gas_used = gas;
        blob_gas_used = if is_blob then uint64 (t.blob_hashes * M.blob_gas_per_blob) else 0;
        blob_gas_price = if is_blob then block_context.blob_base_fee else none;
        contract_address = elim msg.to [
          | none ↦ some (M.create_address msg.from_address t.tx.nonce)
          | some to ↦ none
        ];
        logs = logs;
        bloom = M.create_bloom logs;
        block_hash = block.hash;
        block_number = block.number;
        transaction_index = M.tx_index state;
      }

  -- `applyTransaction`
  unfoldable pub apply_transaction :
      Message AccessList → BlockTx → Progress → M.ApplyError ⊎ (Receipt M.Log × Progress)
  apply_transaction msg t p = elim (M.apply_message block_context p.state p.pool msg) [
    | inl e ↦ inl e
    | inr (gas, failed, state, pool) ↦
        let (root, rooted) = M.intermediate_root state (M.is_eip158 config.eth block.number) in
        let byzantium = M.is_byzantium config.eth block.number in
        let after = if byzantium then M.finalise state else rooted in
        let used = add64 p.used_gas gas in
        let post : Option Hash = if byzantium then none else some root in
        inr (
          make_receipt msg t after post used gas failed,
          record { state = after; pool = pool; used_gas = used },
        )
  ]

  -- What the loop comes to: the receipts, or the error of a transaction.
  abbrev pub Outcome : Type 0
  Outcome = ProcessError M.ApplyError SenderError ⊎ (List (Receipt M.Log) × Progress)

  abbrev pub prepend : Receipt M.Log → Outcome → Outcome
  prepend receipt (inl e) = inl e
  prepend receipt (inr (receipts, p)) = inr (receipt ∷ receipts, p)

  -- The loop of `Process` over the transactions from the index `i` on. A nil message is skipped.
  unfoldable pub process_txs : ℕ → List BlockTx → Progress → Outcome
  process_txs i [] p = inr ([], p)
  process_txs i (t ∷ ts) p =
      let (message, error) = transaction_to_message geth t.tx block.base_fee config in
      let prepared : Progress = record p { state = M.set_tx_context p.state t.hash i } in
      elim error [
        | some e ↦ inl (sender_failed i e)
        | none ↦ elim message [
          | none ↦ process_txs (suc i) ts p
          | some msg ↦ elim (apply_transaction msg t prepared) [
            | inl e ↦ inl (apply_failed i e)
            | inr (receipt, p') ↦ prepend receipt (process_txs (suc i) ts p')
          ]
        ]
      ]

  -- The logs of the receipts, in their order.
  unfoldable pub all_logs : List (Receipt M.Log) → List M.Log
  all_logs [] = []
  all_logs (receipt ∷ receipts) = receipt.logs ++ all_logs receipts

  -- The state before the first transaction.
  unfoldable pub prepare_state : M.State → M.State
  prepare_state state =
      let forked =
        if M.is_dao_fork config.eth block.number then M.apply_dao_fork state else state in
      elim block.beacon_root [ none ↦ forked | some root ↦ M.process_beacon_root forked root ]

  -- `Process`: the receipts, their logs, the gas used and the state.
  unfoldable pub process :
      M.State
      → ProcessError M.ApplyError SenderError ⊎ (List (Receipt M.Log) × List M.Log × ℕ × M.State)
  process state =
      let start : Progress = record {
        state = prepare_state state;
        pool = gas_pool;
        used_gas = 0;
      } in
      elim (process_txs 0 block.transactions start) [
        | inl e ↦ inl e
        | inr (receipts, p) ↦ inr (receipts, all_logs receipts, p.used_gas, p.state)
      ]
