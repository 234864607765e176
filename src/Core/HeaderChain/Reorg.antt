-- ===== src/Core/HeaderChain/Reorg.antt =====
-- core/headerchain.go: `Reorg`, which switches the canonical chain to the branch of the given headers.
pub mod Clear
pub mod Stale
pub mod Extend
pub mod Canonical
pub mod Outcome
pub mod Progress
use mathlib.Core.Option
use mive.Base.{
  ℕ, zero, suc, Bool, true, false, Option, none, some, List, [], ◌∷◌, ◌++◌, last_of, ◌==◌,
  if◌then◌else◌, add64, sub64,
}
use mive.Core.Types.{Hash, zero_hash, Header, number_u64, copy_header}
use mive.Core.Lru.{Lru}
use mive.Core.Rawdb.{
  Storage, Write, write_canonical_hash, delete_canonical_hash, write_head_header_hash,
}
use mive.Core.HeaderChain.{
  HeaderChain, Error, write_failed, out_of_fuel, missing_parent, get_header,
}

-- The loop that deletes the canonical numbers above the new head; `none` is the end of the fuel.
unfoldable pub clear_above : (S : Storage) → ℕ → S.Db → ℕ → Option (List Write)
clear_above S zero db i = none
clear_above S (suc fuel) db i = elim (S.read_canonical_hash db i == zero_hash) [
  | true ↦ some []
  | false ↦ Option.map (λ ws. delete_canonical_hash i ∷ ws) (clear_above S fuel db (add64 i 1))
]

-- The loop that extends the canonical chain with the new headers.
unfoldable pub extend : List Header → List Write
extend [] = []
extend (header ∷ headers) =
    write_canonical_hash header.hash (number_u64 header)
    ∷ write_head_header_hash header.hash
    ∷ extend headers

module _ {S : Storage} {H : Lru Hash Header} {N : Lru Hash ℕ} where
  -- The loop that goes back from the first header to the cross link between the two chains.
  unfoldable pub overwrite_stale :
      ℕ → HeaderChain S H N → Header → ℕ → Hash → HeaderChain S H N × List Write × Option Error
  overwrite_stale zero hc header head_number head_hash = (hc, [], some out_of_fuel)
  overwrite_stale (suc fuel) hc header head_number head_hash =
      let write = write_canonical_hash head_hash head_number in
      let parent_number = sub64 (number_u64 header) 1 in
      let (parent, hc') = get_header hc header.parent_hash parent_number in
      elim (S.read_canonical_hash hc.chain_db head_number == head_hash) [
        | true ↦ (hc, [], none)
        | false ↦ elim (head_number == 0) [
          | true ↦ (hc, write ∷ [], none)
          | false ↦ elim parent [
            | none ↦ (hc', write ∷ [], some (missing_parent parent_number header.parent_hash))
            | some p ↦
                let (hc'', ws, error) =
                  overwrite_stale fuel hc' p parent_number header.parent_hash in
                (hc'', write ∷ ws, error)
          ]
        ]
      ]

  -- The write of the batch, and the marker in memory.
  unfoldable pub finish_reorg :
      HeaderChain S H N → Header → List Write → HeaderChain S H N × Option Error
  finish_reorg hc last batch = elim (S.commit batch hc.chain_db) [
    | none ↦ (hc, some write_failed)
    | some db ↦ (record hc { chain_db = db; current_header = copy_header last }, none)
  ]

  -- `Reorg`
  unfoldable pub reorg : ℕ → HeaderChain S H N → List Header → HeaderChain S H N × Option Error
  reorg fuel hc [] = (hc, none)
  reorg fuel hc (first ∷ rest) =
      let last = last_of first rest in
      if first.parent_hash == hc.current_header.hash
      then finish_reorg hc last (extend (first ∷ rest))
      else elim (clear_above S fuel hc.chain_db (add64 (number_u64 last) 1)) [
        | none ↦ (hc, some out_of_fuel)
        | some cleared ↦
            let (hc', stale, error) = overwrite_stale fuel hc first (number_u64 first) first.hash in
            elim error [
              | some e ↦ (hc', some e)
              | none ↦ finish_reorg hc' last (cleared ++ (stale ++ extend (first ∷ rest)))
            ]
      ]
