-- ===== src/Core/Processor/Prefetch.antt =====
-- core/state_prefetcher.go: which blocks `Prefetch` panics on, where `Process` succeeds.
use mive.Base.{ℕ, Bool, ◌≡◌, ◌⊎◌, inr, none, List, [], ◌∷◌}
use mive.Params.{ChainConfig}
use mive.Core.Transition.{Message, Ethereum, transaction_to_message}
use mive.Core.Processor.{BlockTx, ExecutedBlock, Machine, block_context}

module _ {Eth AccessList SenderError : Type 0} (M : Machine Eth AccessList)
    (geth : Ethereum AccessList SenderError) (config : ChainConfig Eth)
    (block : ExecutedBlock) where
  -- One of the transactions makes no message: it is not one of Mive.
  abbrev pub HasOther : List BlockTx → Type 0
  HasOther [] = ⊥
  HasOther (t ∷ txs) =
      ((transaction_to_message geth t.tx block.base_fee config).0 ≡ none) ⊎ HasOther txs

  -- The sender of each transaction that makes a message is found.
  abbrev pub HasSenders : List BlockTx → Type 0
  HasSenders [] = Unit
  HasSenders (t ∷ txs) =
      ((transaction_to_message geth t.tx block.base_fee config).1 ≡ none) × HasSenders txs

  -- Each message is applied without an error.
  abbrev pub Applies : Type 0
  Applies =
      (state : M.State) (pool : ℕ) (msg : Message AccessList)
      → (r : ℕ × Bool × M.State × ℕ) × (M.apply_message (block_context M geth config block) state
            pool msg
          ≡ inr r)
