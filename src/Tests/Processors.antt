-- ===== src/Tests/Processors.antt =====
-- A block of two transactions: core/state_processor.go and core/state_prefetcher.go on a concrete machine.
use mive.Base.{ℕ, ◌+◌, ◌*◌, ◌≡◌, refl, true, false, none, some, [], ◌∷◌, inr}
use mive.Core.Transition.{transaction_to_message, build_message}
use mive.Core.Processor.{
  ExecutedBlock, Receipt, Machine, process, process_txs, apply_transaction, make_receipt, all_logs,
  prepare_state,
}
use mive.Tests.Blocks.{paying, other, config, geth, safe_mul}
use mive.Core.Processor.Receipts.{IsAccounted, process-IsAccounted}

-- A state counts the messages; each message takes 7 gas and logs the count.
abbrev machine : Machine Unit Unit
machine = record {
  State = ℕ;
  Log = ℕ;
  ApplyError = Unit;
  apply_message = λ context state pool msg. inr (7, false, state + 1, pool);
  new_context = λ block coinbase. record {
    coinbase = coinbase;
    gas_limit = block.gas_limit;
    base_fee = block.base_fee;
    blob_base_fee = none;
  };
  safe_mul = safe_mul;
  apply_dao_fork = λ state. state;
  process_beacon_root = λ state root. state;
  set_tx_context = λ state hash i. state;
  tx_index = λ state. state;
  finalise = λ state. state;
  intermediate_root = λ state delete_empty. (state, state);
  get_logs = λ state tx_hash number block_hash. state ∷ [];
  create_bloom = λ logs. logs;
  create_address = λ from nonce. nonce;
  is_dao_fork = λ eth number. false;
  is_byzantium = λ eth number. true;
  is_eip158 = λ eth number. true;
  blob_gas_per_blob = 131072;
}

-- A Mive transaction between two that are not.
abbrev block : ExecutedBlock
block = record {
  hash = 50;
  number = 3;
  time = 30;
  gas_limit = 30000000;
  base_fee = some 500;
  beacon_root = none;
  transactions =
      record { tx = other; hash = 60; blob_hashes = 0 }
      ∷ record { tx = paying; hash = 61; blob_hashes = 0 }
      ∷ record { tx = paying; hash = 62; blob_hashes = 0 }
      ∷ [];
}

-- The receipt of a transaction whose message is the one after `count` messages.
abbrev receipt : ℕ → ℕ → Receipt ℕ
receipt tx_hash count = record {
  tx_type = 2;
  post_state = none;
  cumulative_gas_used = count * 7;
  is_successful = true;
  tx_hash = tx_hash;
  gas_used = 7;
  blob_gas_used = 0;
  blob_gas_price = none;
  contract_address = some 0;
  logs = count ∷ [];
  bloom = count ∷ [];
  block_hash = 50;
  block_number = 3;
  transaction_index = count;
}

processed :
    process machine geth config block 0 ≡ inr (receipt 61 1 ∷ receipt 62 2 ∷ [], 1 ∷ 2 ∷ [], 14, 2)
unfolding process process_txs apply_transaction make_receipt transaction_to_message build_message
    all_logs prepare_state
processed = refl

process-IsAccounted_example :
    IsAccounted machine geth config block block.transactions 0 (receipt 61 1 ∷ receipt 62 2 ∷ []) 14
    × (1 ∷ 2 ∷ [] ≡ all_logs machine geth config block (receipt 61 1 ∷ receipt 62 2 ∷ []))
process-IsAccounted_example = process-IsAccounted machine geth config block 0 processed
