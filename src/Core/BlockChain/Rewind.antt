-- ===== src/Core/BlockChain/Rewind.antt =====
-- core/blockchain.go: the callbacks of `setHeadBeyondRoot`, which move the head markers down to a block
-- with a state and delete what lies above.
pub mod Stateful
pub mod Updated
pub mod Frame
pub mod High
use mive.Base.{
  ℕ, zero, suc, Bool, true, false, not, ◌&&◌, ◌||◌, Option, none, some, List, [], ◌∷◌, ◌++◌, ◌==◌,
  ltb, leb, if◌then◌else◌, add64, sub64,
}
use mive.Core.Types.{Hash, zero_hash, Header, number_u64}
use mive.Core.Rawdb.{
  Write, write_head_block_hash, write_head_fast_block_hash, delete_header_number, delete_receipts,
}
use mive.Core.HeaderChain.{HeaderChain, Error, fatal, out_of_fuel, nil_dereference}
use mive.Core.HeaderChain.Rewind.{Update}
use mive.Core.BlockChain.{Env, Headers, BlockChain}
use mive.Core.BlockChain.Reader.{get_header, has_state, state_recoverable}
pub use mive.Core.BlockChain.Search.{Search, is_above}
unfoldable pub use mive.Core.BlockChain.Search.{
  cross_root, recover_state, settle, find_round, find_state, find_head,
}

module _ {E : Env} where
  -- The part of `updateFn` that moves the head block: the chain, the writes to the batch, the number of
  -- the threshold, and a failure.
  unfoldable pub move_head :
      ℕ → BlockChain E → Hash → Option ℕ → ℕ → Header → BlockChain E × List Write × ℕ × Option Error
  move_head fuel bc root pivot root_number header =
      let (bc', s, error) = find_head fuel bc root pivot root_number header in
      elim bc.current_block [
        | none ↦ (bc, [], root_number, none)
        | some current ↦ elim (leb (number_u64 header) (number_u64 current)) [
          | false ↦ (bc, [], root_number, none)
          | true ↦ elim error [
            | some e ↦ (bc', [], s.root_number, some e)
            | none ↦ (
              record bc' { current_block = some s.block },
              write_head_block_hash s.block.hash ∷ [],
              s.root_number,
              none,
            )
          ]
        ]
      ]

  -- The part that moves the head of the snap sync.
  unfoldable pub move_snap_head : BlockChain E → Header → BlockChain E × List Write
  move_snap_head bc header =
      let (found, bc') = get_header bc header.hash (number_u64 header) in
      let head : Header = elim found [ none ↦ bc.genesis_header | some h ↦ h ] in
      elim bc.current_snap_block [
        | none ↦ (bc, [])
        | some current ↦ elim (ltb (number_u64 header) (number_u64 current)) [
          | false ↦ (bc, [])
          | true ↦ (
            record bc' { current_snap_block = some head },
            write_head_fast_block_hash head.hash ∷ [],
          )
        ]
      ]

module _ (E : Env) where
  -- What the two callbacks share: the chain, but for its header chain, which is handed to them,
  -- `rootNumber`, and what has ended the process or the call. After that nothing here has a meaning.
  pub record Closure : Type 0 where
    pub chain : BlockChain E
    pub root_number : ℕ
    pub failure : Option Error

module _ {E : Env} where
  -- The head that `updateFn` returns, and whether to go on below it; no current block is a nil pointer.
  unfoldable pub report_head :
      Option ℕ
      → ℕ
      → Closure E
      → Header
      → List Write
      → Update E.storage E.header_lru E.number_lru (Closure E)
  report_head pivot frozen c header ws = elim c.chain.current_block [
    | none ↦ record {
      chain = c.chain.hc;
      closure = record c { failure = some nil_dereference };
      writes = ws;
      new_head = header;
      force = false;
    }
    | some head ↦ record {
      chain = c.chain.hc;
      closure = c;
      writes = ws;
      new_head = head;
      force =
          ltb (add64 (number_u64 head) 1) frozen
          && elim pivot [ none ↦ true | some p ↦ leb p (number_u64 head) ];
    }
  ]

  -- `updateFn` once the head block has moved.
  unfoldable pub finish_update :
      Option ℕ
      → ℕ
      → Header
      → BlockChain E × List Write × ℕ × Option Error
      → Update E.storage E.header_lru E.number_lru (Closure E)
  finish_update pivot frozen header (moved, ws, root_number, error) =
      let (snapped, vs) = move_snap_head moved header in
      elim error [
        | some e ↦ record {
          chain = moved.hc;
          closure = record { chain = moved; root_number = root_number; failure = some e };
          writes = ws;
          new_head = header;
          force = false;
        }
        | none ↦
            report_head pivot frozen
              (record { chain = snapped; root_number = root_number; failure = none }) header
              (ws ++ vs)
      ]

  -- `updateFn`
  unfoldable pub update_fn :
      ℕ
      → Hash
      → Option ℕ
      → ℕ
      → Headers E
      → Closure E
      → Header
      → Update E.storage E.header_lru E.number_lru (Closure E)
  update_fn fuel root pivot frozen hc c header = elim c.failure [
    | some e ↦ record { chain = hc; closure = c; writes = []; new_head = header; force = false }
    | none ↦
        finish_update pivot frozen header
          (move_head fuel (record c.chain { hc = hc }) root pivot c.root_number header)
  ]

  -- `delFn`
  unfoldable pub del_fn : Headers E → Closure E → Hash → ℕ → Headers E × Closure E × List Write
  del_fn hc c hash num = elim c.failure [
    | some e ↦ (hc, c, [])
    | none ↦ elim (leb (add64 num 1) (E.storage.ancients hc.chain_db)) [
      | false ↦ (hc, c, delete_receipts hash num ∷ [])
      | true ↦ elim (E.storage.truncate_head hc.chain_db num) [
        | none ↦ (hc, record c { failure = some fatal }, [])
        | some db ↦ (record hc { chain_db = db }, c, delete_header_number hash ∷ [])
      ]
    ]
  ]
