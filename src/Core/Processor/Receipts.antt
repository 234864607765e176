-- ===== src/Core/Processor/Receipts.antt =====
-- core/state_processor.go: the receipts that `Process` returns.
use mive.Base.{
  ℕ, suc, ◌≡◌, refl, ◌∙◌, ap, subst, sym, ◌⊎◌, inl, inr, none, some, List, [], ◌∷◌, map, arith,
  Option-cases, add64,
}
use mive.Params.{ChainConfig}
use mive.Core.Types.{Hash}
use mive.Core.Transition.{Message, Ethereum, transaction_to_message}
use mive.Core.Processor.{
  BlockTx, ExecutedBlock, Receipt, Machine, Progress, apply_transaction, make_receipt, Outcome,
  prepend, process_txs, all_logs, prepare_state, gas_pool, process,
}

pub Result-cases : {E A : Type 0} (r : E ⊎ A) → ((e : E) × (r ≡ inl e)) ⊎ ((a : A) × (r ≡ inr a))
Result-cases (inl e) = inl (e, refl)
Result-cases (inr a) = inr (a, refl)

module _ {Eth AccessList SenderError : Type 0} (M : Machine Eth AccessList)
    (geth : Ethereum AccessList SenderError) (config : ChainConfig Eth)
    (block : ExecutedBlock) where
  -- The hashes of the transactions that Mive executes, in the order of the block.
  pub mive_hashes : List BlockTx → List Hash
  mive_hashes [] = []
  mive_hashes (t ∷ ts) = elim (transaction_to_message geth t.tx block.base_fee config).0 [
    | none ↦ mive_hashes ts
    | some msg ↦ t.hash ∷ mive_hashes ts
  ]

  -- The cumulative gas of each receipt is that of the one before and its own gas, from `start` to `end`.
  abbrev pub RunningGas : ℕ → List (Receipt M.Log) → ℕ → Type 0
  RunningGas start [] end = end ≡ start
  RunningGas start (r ∷ rs) end =
      (r.cumulative_gas_used ≡ add64 start r.gas_used) × RunningGas r.cumulative_gas_used rs end

  -- The receipts of transactions, with the gas used before and after them.
  pub record IsAccounted (ts : List BlockTx) (start : ℕ) (rs : List (Receipt M.Log)) (end : ℕ)
      : Type 0 where
    pub hashes : map (λ (r : Receipt M.Log). r.tx_hash) rs ≡ mive_hashes ts
    pub gas : RunningGas start rs end

  apply_transaction-receipt :
      (msg : Message AccessList) (t : BlockTx) (p : Progress M geth config block)
      {r : Receipt M.Log} {p' : Progress M geth config block}
      → apply_transaction M geth config block msg t p ≡ inr (r, p')
      → (r.tx_hash ≡ t.hash)
        × (r.cumulative_gas_used ≡ add64 p.used_gas r.gas_used)
        × (p'.used_gas ≡ r.cumulative_gas_used)
  unfolding apply_transaction make_receipt
  apply_transaction-receipt msg t p {r} {p'} done = ground arith

  prepend-ok :
      (r : Receipt M.Log) (o : Outcome M geth config block) {rs : List (Receipt M.Log)}
      {p' : Progress M geth config block}
      → prepend M geth config block r o ≡ inr (rs, p')
      → (rest : List (Receipt M.Log)) × (o ≡ inr (rest, p')) × (rs ≡ r ∷ rest)
  prepend-ok r (inl e) done = cc
  prepend-ok r (inr (rest, q)) {rs} {p'} done = (rest, cc, cc)

  nothing-IsAccounted :
      {start end : ℕ} {rs : List (Receipt M.Log)}
      → rs ≡ []
      → end ≡ start
      → IsAccounted [] start rs end
  unfolding mive_hashes
  nothing-IsAccounted {rs = []} nothing same = record { hashes = refl; gas = same }
  nothing-IsAccounted {rs = r ∷ rs} nothing same = absurd (ground (arith, nothing))

  skipped-IsAccounted :
      {t : BlockTx} {ts : List BlockTx} {start end : ℕ} {rs : List (Receipt M.Log)}
      → (transaction_to_message geth t.tx block.base_fee config).0 ≡ none
      → IsAccounted ts start rs end
      → IsAccounted (t ∷ ts) start rs end
  unfolding mive_hashes
  skipped-IsAccounted {ts = ts} skipped rest = record {
    hashes = rw (mive_hashes, skipped) (rest.hashes);
    gas = rest.gas;
  }

  executed-IsAccounted :
      {t : BlockTx} {ts : List BlockTx} {start end : ℕ} {r : Receipt M.Log}
      {rs rest : List (Receipt M.Log)} {msg : Message AccessList}
      → (transaction_to_message geth t.tx block.base_fee config).0 ≡ some msg
      → r.tx_hash ≡ t.hash
      → r.cumulative_gas_used ≡ add64 start r.gas_used
      → rs ≡ r ∷ rest
      → IsAccounted ts r.cumulative_gas_used rest end
      → IsAccounted (t ∷ ts) start rs end
  unfolding mive_hashes
  executed-IsAccounted {rs = []} made same gas split after = absurd (ground (arith, split))
  executed-IsAccounted {t = t} {ts = ts} {start = start} {end = end} {r = r} {rs = r1 ∷ rs}
        {rest = rest} made same gas split after =
      let one : r1 ≡ r = cc in
      let others : rs ≡ rest = cc in
      record {
        hashes = rw (mive_hashes, made, one, others, same, after.hashes) refl;
        gas = rw (one, others) (gas, after.gas);
      }

  process_txs-IsAccounted :
      (i : ℕ) (ts : List BlockTx) (p : Progress M geth config block) {rs : List (Receipt M.Log)}
      {p' : Progress M geth config block}
      → process_txs M geth config block i ts p ≡ inr (rs, p')
      → IsAccounted ts p.used_gas rs p'.used_gas
  unfolding process_txs mive_hashes
  process_txs-IsAccounted i [] p {rs} {p'} done = nothing-IsAccounted (cc) (cc)
  process_txs-IsAccounted i (t ∷ ts) p {rs} {p'} done =
      let (message, error) = transaction_to_message geth t.tx block.base_fee config in
      let prepared : Progress M geth config block = record p {
        state = M.set_tx_context p.state t.hash i;
      } in
      elim (Option-cases error) [
        | inr (e, failed) ↦ absurd (ground (arith, failed))
        | inl fine ↦ elim (Option-cases message) [
          | inl skipped ↦ skipped-IsAccounted skipped (
              process_txs-IsAccounted (suc i) ts p {rs = rs} {p' = p'}
                (ground (arith, fine, skipped)))
          | inr (msg, made) ↦
              elim (Result-cases (apply_transaction M geth config block msg t prepared)) [
                | inl (e, failed) ↦ absurd (ground (arith, fine, made, failed))
                | inr ((r, p1), ran) ↦
                    let (hash, gas, used) = apply_transaction-receipt msg t prepared ran in
                    let (rest, later, split) =
                      prepend-ok r (process_txs M geth config block (suc i) ts p1) {rs = rs}
                        {p' = p'} (ground (arith, fine, made, ran)) in
                    executed-IsAccounted {rs = rs} made hash gas split (
                      subst (λ n. IsAccounted ts n rest p'.used_gas) used
                        (process_txs-IsAccounted (suc i) ts p1 {rs = rest} {p' = p'} later))
              ]
        ]
      ]

  -- A `Process` that succeeds returns one receipt for each transaction of Mive, with its hash and in the
  -- order of the block, the others being skipped; the cumulative gas of a receipt is that of the one before
  -- it, or 0, and its own gas, as 64-bit words; the gas used is that of the last receipt, or 0; and the logs
  -- are those of the receipts, one after the other.
  pub process-IsAccounted :
      (state : M.State) {rs : List (Receipt M.Log)} {logs : List M.Log} {used : ℕ}
      {state' : M.State}
      → process M geth config block state ≡ inr (rs, logs, used, state')
      → IsAccounted block.transactions 0 rs used × (logs ≡ all_logs M geth config block rs)
  unfolding process
  process-IsAccounted state {rs} {logs} {used} {state'} done =
      let start : Progress M geth config block = record {
        state = prepare_state M geth config block state;
        pool = gas_pool M geth config block;
        used_gas = 0;
      } in
      elim (Result-cases (process_txs M geth config block 0 block.transactions start)) [
        | inl (e, failed) ↦ absurd (ground (arith, failed))
        | inr ((receipts, p), ran) ↦
            let listed : receipts ≡ rs = ground (arith, ran) in
            let total : p.used_gas ≡ used = ground (arith, ran) in
            let logged : all_logs M geth config block receipts ≡ logs = ground (arith, ran) in
            (
              subst (λ n. IsAccounted block.transactions 0 rs n) total
                  (subst (λ l. IsAccounted block.transactions 0 l p.used_gas) listed
                    (process_txs-IsAccounted 0 block.transactions start {rs = receipts} {p' = p}
                      ran)),
              sym logged ∙ ap (all_logs M geth config block) listed,
            )
      ]
