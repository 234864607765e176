-- ===== src/Core/BlockChain/LastState.antt =====
-- core/blockchain.go: `loadLastState`, which restores the markers of a chain from its database.
use mive.Base.{true, false, Option, none, some, ◌==◌, if◌then◌else◌}
use mive.Core.Types.{Hash, zero_hash, Header}
use mive.Core.HeaderChain.{Error, nil_dereference, set_current_header}
use mive.Core.BlockChain.{Env, BlockChain}
use mive.Core.BlockChain.Reader.{get_header_by_hash, get_block_by_hash}

module _ {E : Env} where
  -- A marker that is stored as a hash: the header of that hash, if it is set and known.
  unfoldable pub marked : BlockChain E → Hash → Option Header × BlockChain E
  marked bc hash =
      let (found, bc') = get_header_by_hash bc hash in
      if hash == zero_hash then (none, bc) else (found, bc')

  -- The head header, which is that of the head block if it is not marked.
  unfoldable pub load_head_header : BlockChain E → Header → Hash → BlockChain E
  load_head_header bc header hash =
      let (found, bc') = marked bc hash in
      let current : Header = elim found [ none ↦ header | some h ↦ h ] in
      record bc' { hc = set_current_header bc'.hc current }

  -- The head of the snap sync.
  unfoldable pub load_snap_block : BlockChain E → Hash → BlockChain E
  load_snap_block bc hash =
      let (found, bc') = marked bc hash in
      elim found [ none ↦ bc' | some h ↦ record bc' { current_snap_block = some h } ]

  -- The finalized block, and the safe block, which is not stored.
  unfoldable pub load_finalized : BlockChain E → Hash → BlockChain E
  load_finalized bc hash =
      let (found, bc') = marked bc hash in
      elim found [
        | none ↦ bc'
        | some h ↦ record bc' { current_final_block = some h; current_safe_block = some h }
      ]

  -- `loadLastState` once the header of the head block is read.
  unfoldable pub load_markers : BlockChain E → Header → BlockChain E
  load_markers bc header =
      let db = bc.hc.chain_db in
      let headed : BlockChain E = record bc {
        current_block = some header;
        current_snap_block = some header;
      } in
      let started = load_head_header headed header (E.storage.read_head_header_hash db) in
      let synced = load_snap_block started (E.storage.read_head_fast_block_hash db) in
      load_finalized synced (E.storage.read_finalized_block_hash db)

  -- `loadLastState`, with `Reset` as `reset`; without its log.
  unfoldable pub load_last_state :
      (BlockChain E → BlockChain E × Option Error) → BlockChain E → BlockChain E × Option Error
  load_last_state reset bc =
      let head = E.storage.read_head_block_hash bc.hc.chain_db in
      let (block, bc') = get_block_by_hash bc head in
      let (header, bc'') = get_header_by_hash bc' head in
      elim (head == zero_hash) [
        | true ↦ reset bc
        | false ↦ elim block [
          | none ↦ reset bc'
          | some b ↦ elim header [
            | none ↦ (bc'', some nil_dereference)
            | some h ↦ (load_markers bc'' h, none)
          ]
        ]
      ]
