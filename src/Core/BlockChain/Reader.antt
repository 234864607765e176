-- ===== src/Core/BlockChain/Reader.antt =====
-- core/blockchain_reader.go: the reads of a block chain, each with the caches that it leaves.
use mive.Base.{ℕ, Bytes, List, Bool, false, Option, none, some, ◌==◌, if◌then◌else◌}
use mive.Core.Types.{Hash, zero_hash, Header}
use mive.Core.HeaderChain
use mive.Core.HeaderChain.Ancestor.{Ancestor}
use mive.Core.HeaderChain.Ancestor
use mive.Core.HeaderChain.Create
use mive.Core.BlockChain.{Env, Headers, BlockChain}

module _ {E : Env} where
  abbrev with_headers : {A : Type 0} → BlockChain E → A × Headers E → A × BlockChain E
  with_headers bc (a, hc) = (a, record bc { hc = hc })

  -- `GetHeader`
  unfoldable pub get_header : BlockChain E → Hash → ℕ → Option Header × BlockChain E
  get_header bc hash number = with_headers bc (HeaderChain.get_header bc.hc hash number)

  -- `GetHeaderByHash`
  unfoldable pub get_header_by_hash : BlockChain E → Hash → Option Header × BlockChain E
  get_header_by_hash bc hash = with_headers bc (HeaderChain.get_header_by_hash bc.hc hash)

  -- `GetHeaderByNumber`
  unfoldable pub get_header_by_number : BlockChain E → ℕ → Option Header × BlockChain E
  get_header_by_number bc number = with_headers bc (HeaderChain.get_header_by_number bc.hc number)

  -- `HasHeader`
  unfoldable pub has_header : BlockChain E → Hash → ℕ → Bool
  has_header bc hash number = HeaderChain.has_header bc.hc hash number

  -- `GetCanonicalHash`
  unfoldable pub get_canonical_hash : BlockChain E → ℕ → Hash
  get_canonical_hash bc number = HeaderChain.get_canonical_hash bc.hc number

  -- `GetBlock`. The client answers with a block or an error, never with a nil block beside no error.
  unfoldable pub get_block : BlockChain E → Hash → ℕ → Option E.Block × BlockChain E
  get_block bc hash number =
      let (cached, cache) = E.block_lru.get bc.block_cache hash in
      let bc' : BlockChain E = record bc { block_cache = cache } in
      elim cached [
        | some block ↦ (some block, bc')
        | none ↦ elim (E.block_by_hash hash) [
          | none ↦ (none, bc')
          | some block ↦
              if E.block_number block == number
              then (
                some block,
                record bc' { block_cache = E.block_lru.add cache (E.block_hash block) block },
              )
              else (none, bc')
        ]
      ]

  -- `GetBlockByHash`
  unfoldable pub get_block_by_hash : BlockChain E → Hash → Option E.Block × BlockChain E
  get_block_by_hash bc hash =
      let (number, hc) = HeaderChain.get_block_number bc.hc hash in
      let bc' : BlockChain E = record bc { hc = hc } in
      elim number [ none ↦ (none, bc') | some n ↦ get_block bc' hash n ]

  -- `GetBlockByNumber`
  unfoldable pub get_block_by_number : BlockChain E → ℕ → Option E.Block × BlockChain E
  get_block_by_number bc number =
      let hash = E.storage.read_canonical_hash bc.hc.chain_db number in
      if hash == zero_hash then (none, bc) else get_block bc hash number

  -- `GetReceiptsByHash`
  unfoldable pub get_receipts_by_hash : BlockChain E → Hash → Option E.Receipts × BlockChain E
  get_receipts_by_hash bc hash =
      let (cached, cache) = E.receipts_lru.get bc.receipts_cache hash in
      let bc' : BlockChain E = record bc { receipts_cache = cache } in
      elim cached [
        | some receipts ↦ (some receipts, bc')
        | none ↦ elim (E.storage.read_header_number bc.hc.chain_db hash) [
          | none ↦ (none, bc')
          | some number ↦
              let (found, bc'') = get_header bc' hash number in
              elim found [
                | none ↦ (none, bc'')
                | some header ↦ elim (E.read_receipts bc''.hc.chain_db hash number header.time) [
                  | none ↦ (none, bc'')
                  | some receipts ↦ (
                    some receipts,
                    record bc'' { receipts_cache = E.receipts_lru.add cache hash receipts },
                  )
                ]
              ]
        ]
      ]

  -- `GetAncestor`
  unfoldable pub get_ancestor : BlockChain E → Hash → ℕ → ℕ → ℕ → Ancestor × BlockChain E
  get_ancestor bc hash number ancestor max =
      with_headers bc (Ancestor.get_ancestor bc.hc hash number ancestor max)

  -- `GetHeadersFrom`, over the reads of the database
  unfoldable pub get_headers_from :
      (E.storage.Db → ℕ → ℕ → List Bytes) → BlockChain E → ℕ → ℕ → List Bytes × BlockChain E
  get_headers_from read_range bc number count =
      with_headers bc (Create.get_headers_from read_range bc.hc number count)

  -- `HasState`
  unfoldable pub has_state : BlockChain E → Hash → Bool
  has_state bc root = E.has_state bc.tries root

  -- `HasBlockAndState`
  unfoldable pub has_block_and_state : BlockChain E → Hash → ℕ → Bool × BlockChain E
  has_block_and_state bc hash number =
      let (found, bc') = get_header bc hash number in
      elim found [ none ↦ (false, bc') | some header ↦ (has_state bc' header.root, bc') ]

  -- `stateRecoverable`
  unfoldable pub state_recoverable : BlockChain E → Hash → Bool
  state_recoverable bc root = if E.is_hash_scheme then false else E.recoverable bc.tries root
