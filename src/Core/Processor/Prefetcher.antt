-- ===== src/Core/Processor/Prefetcher.antt =====
-- core/state_prefetcher.go: the transactions of a block, executed ahead of it.
use mive.Base.{ℕ, suc, ◌⊎◌, inl, inr, Bool, true, false, none, some, List, [], ◌∷◌, if◌then◌else◌}
use mive.Params.{ChainConfig}
use mive.Core.Transition.{Message, Ethereum, transaction_to_message}
use mive.Core.Processor.{BlockTx, ExecutedBlock, Machine, block_context, gas_pool}

module _ {Eth AccessList SenderError : Type 0} (M : Machine Eth AccessList)
    (geth : Ethereum AccessList SenderError) (config : ChainConfig Eth)
    (block : ExecutedBlock) where
  -- What a prefetch comes to: the state that it leaves, or a panic at a nil message.
  pub data Prefetched : Type 0 where
    left : M.State → Prefetched
    panics : Prefetched

  -- `precacheTransaction`: the state and the pool, if there is no error. The context of a transaction
  -- is read from its message, which must not be nil.
  unfoldable pub precache_transaction :
      Message AccessList → M.State → ℕ → M.ApplyError ⊎ (M.State × ℕ)
  precache_transaction msg state pool =
      elim (M.apply_message (block_context M geth config block) state pool msg) [
        | inl e ↦ inl e
        | inr (gas, failed, state', pool') ↦ inr (state', pool')
      ]

  -- The loop of `Prefetch`; `interrupted` is what the flag says before each transaction.
  unfoldable pub prefetch_txs : (ℕ → Bool) → ℕ → List BlockTx → M.State → ℕ → Prefetched
  prefetch_txs interrupted i [] state pool =
      left (
        if M.is_byzantium config.eth block.number
        then (M.intermediate_root state true).1
        else state)
  prefetch_txs interrupted i (t ∷ ts) state pool =
      let (message, error) = transaction_to_message geth t.tx block.base_fee config in
      let prepared = M.set_tx_context state t.hash i in
      let byzantium = M.is_byzantium config.eth block.number in
      elim (interrupted i) [
        | true ↦ left state
        | false ↦ elim error [
          | some e ↦ left state
          | none ↦ elim message [
            | none ↦ panics
            | some msg ↦ elim (precache_transaction msg prepared pool) [
              | inl e ↦ left prepared
              | inr (after, pool') ↦
                  prefetch_txs interrupted (suc i) ts
                    (if byzantium then after else (M.intermediate_root after true).1) pool'
            ]
          ]
        ]
      ]

  -- `Prefetch`
  unfoldable pub prefetch : (ℕ → Bool) → M.State → Prefetched
  prefetch interrupted state =
      prefetch_txs interrupted 0 block.transactions state (gas_pool M geth config block)
