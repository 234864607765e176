-- ===== src/Core/BlockChain.antt =====
-- core/blockchain.go: the state of a block chain, and the writes of its markers.
pub mod Known
pub mod Ethereum
pub mod Reader
pub mod Search
pub mod Rewind
pub mod LastState
pub mod SetHead
use mive.Base.{ℕ, zero, suc, Bool, true, false, Option, none, some, List, [], ◌∷◌, if◌then◌else◌}
use mive.Core.Types.{Hash, zero_hash, Header, number_u64}
use mive.Core.Lru.{Lru}
use mive.Core.Rawdb.{
  Storage, Write, write_head_header_hash, write_head_block_hash, write_head_fast_block_hash,
  write_canonical_hash, write_finalized_block_hash,
}
use mive.Core.HeaderChain.{HeaderChain, Error, fatal, set_current_header}

-- What the chain takes from other code: the database and the caches, go-ethereum's blocks and
-- receipts, the blocks that the Ethereum client answers with while an operation runs, and the state
-- database with its tries.
pub record Env : Type 1 where
  pub storage : Storage
  pub header_lru : Lru Hash Header
  pub number_lru : Lru Hash ℕ
  pub Block : Type 0
  pub block_hash : Block → Hash
  pub block_number : Block → ℕ
  pub block_lru : Lru Hash Block
  pub Receipts : Type 0
  pub receipts_lru : Lru Hash Receipts
  pub read_receipts : storage.Db → Hash → ℕ → ℕ → Option Receipts  -- of a hash, number and time
  pub block_by_hash : Hash → Option Block  -- `none` is an error, such as `NotFound`
  pub Tries : Type 0
  pub has_state : Tries → Hash → Bool  -- `OpenTrie` answers without an error
  pub is_hash_scheme : Bool
  pub recoverable : Tries → Hash → Bool
  pub recover : Tries → Hash → Option Tries  -- `none` is an error

-- `syncx.ClosableMutex`
pub data Mutex : Type 0 where
  free held closed : Mutex

module _ (E : Env) where
  abbrev pub Headers : Type 0
  Headers = HeaderChain E.storage E.header_lru E.number_lru

  -- `BlockChain`, with what its operations change; `bc.db` is the database of the header chain, and
  -- `chain_head_events` are the blocks sent to `chainHeadFeed`, the last one first.
  pub record BlockChain : Type 0 where
    pub hc : Headers
    pub genesis_header : Header
    pub current_block : Option Header
    pub current_snap_block : Option Header
    pub current_final_block : Option Header
    pub current_safe_block : Option Header
    pub receipts_cache : E.receipts_lru.Cache
    pub block_cache : E.block_lru.Cache
    pub future_blocks : E.block_lru.Cache
    pub tries : E.Tries
    pub mutex : Mutex
    pub proc_interrupt : Bool
    pub chain_head_events : List E.Block

module _ {E : Env} where
  -- A write to the database itself, where an error ends the process.
  unfoldable pub put : BlockChain E → List Write → BlockChain E × Option Error
  put bc ws = elim (E.storage.commit ws bc.hc.chain_db) [
    | none ↦ (bc, some fatal)
    | some db ↦ let hc : Headers E = record bc.hc { chain_db = db } in (record bc { hc = hc }, none)
  ]

  -- `writeHeadBlock`
  unfoldable pub write_head_block : BlockChain E → Header → BlockChain E × Option Error
  write_head_block bc header =
      let (bc', error) = put bc (
        write_head_header_hash header.hash
        ∷ write_head_fast_block_hash header.hash
        ∷ write_canonical_hash header.hash (number_u64 header)
        ∷ write_head_block_hash header.hash
        ∷ []) in
      elim error [
        | some e ↦ (bc', some e)
        | none ↦ (
          record bc' {
            hc = set_current_header bc'.hc header;
            current_snap_block = some header;
            current_block = some header;
          },
          none,
        )
      ]

  -- `SetFinalized`
  unfoldable pub set_finalized : BlockChain E → Option Header → BlockChain E × Option Error
  set_finalized bc header =
      let stored : BlockChain E = record bc { current_final_block = header } in
      let hash : Hash = elim header [ none ↦ zero_hash | some h ↦ h.hash ] in
      put stored (write_finalized_block_hash hash ∷ [])

  -- `SetSafe`
  unfoldable pub set_safe : BlockChain E → Option Header → BlockChain E
  set_safe bc header = record bc { current_safe_block = header }

  -- `StopInsert`
  unfoldable pub stop_insert : BlockChain E → BlockChain E
  stop_insert bc = record bc { proc_interrupt = true }

  -- `insertStopped`
  abbrev pub insert_stopped : BlockChain E → Bool
  insert_stopped bc = bc.proc_interrupt
