-- ===== src/Core/Rawdb.antt =====
-- go-ethereum's rawdb and ethdb, a parameter: the reads and the batched writes that the chain makes.
-- A batch is the list of the calls recorded in it; `commit` is its `Write`.
pub mod Accessors
pub mod Metadata
pub mod Effects
use mive.Base.{ℕ, Bytes, Bool, Option, List}
use mive.Core.Types.{Hash, Header}

pub data Write : Type 0 where
  write_canonical_hash : Hash → ℕ → Write
  delete_canonical_hash : ℕ → Write
  write_head_header_hash : Hash → Write
  write_head_block_hash : Hash → Write
  write_head_fast_block_hash : Hash → Write
  write_finalized_block_hash : Hash → Write
  write_header_number : Hash → ℕ → Write
  delete_header_number : Hash → Write
  put_header : ℕ → Hash → Bytes → Write  -- `db.Put(HeaderKey(number, hash), data)`
  delete_header : Hash → ℕ → Write
  delete_receipts : Hash → ℕ → Write
  write_empty_receipts : Hash → ℕ → Write
  write_genesis_state_spec : Hash → Bytes → Write
  put_config : Hash → Bytes → Write  -- `db.Put(ConfigKey(hash), data)`

pub record Storage : Type 1 where
  pub Db : Type 0
  pub commit : List Write → Db → Option Db  -- `none` is an error of the batch's `Write`
  pub read_canonical_hash : Db → ℕ → Hash
  pub read_header_number : Db → Hash → Option ℕ
  pub read_header_rlp : Db → Hash → ℕ → Bytes
  pub has_header : Db → Hash → ℕ → Bool
  pub read_all_hashes : Db → ℕ → List Hash
  pub read_head_header_hash : Db → Hash
  pub read_head_block_hash : Db → Hash
  pub read_head_fast_block_hash : Db → Hash
  pub read_finalized_block_hash : Db → Hash
  pub read_last_pivot_number : Db → Option ℕ
  pub read_config : Db → Hash → Bytes  -- `db.Get(ConfigKey(hash))`, empty beside an error
  pub ancients : Db → ℕ  -- 0 beside an error
  pub truncate_head : Db → ℕ → Option Db  -- `none` is an error
  pub rlp_encode : Header → Bytes
  pub rlp_decode : Bytes → Option Header  -- `none` is a decoding error
