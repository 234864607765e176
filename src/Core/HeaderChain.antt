-- ===== src/Core/HeaderChain.antt =====
-- core/headerchain.go: the state of a header chain and its reads.
pub mod WellFormed
pub mod Lookup
pub mod Committed
pub mod Reorg
pub mod Import
pub mod Ancestor
pub mod Rewind
pub mod Validate
pub mod Create
use mive.Base.{ℕ, Bool, true, ◌||◌, Option, none, some, if◌then◌else◌, ◌==◌}
use mive.Core.Types.{Hash, zero_hash, Header}
use mive.Core.Lru.{Lru}
use mive.Core.Rawdb.{Storage}
use mive.Core.Rawdb.Accessors.{read_header}

-- The errors of the chain, and the ways out that are no values in Go: `log.Crit`, which ends the
-- process, and the end of the model's fuel.
pub data Error : Type 0 where
  no_genesis unknown_ancestor aborted banned_hash write_failed fatal out_of_fuel : Error
  missing_parent : ℕ → Hash → Error
  non_contiguous : ℕ → Error
  invalid_header : ℕ → Error
  -- Go panics, at an index of a slice and at a field of a nil pointer, and an endless wait for a lock.
  index_out_of_range nil_dereference deadlock : Error
  chain_stopped current_block_missing : Error

module _ (S : Storage) (H : Lru Hash Header) (N : Lru Hash ℕ) where
  -- `HeaderChain`, with its random source, engine and interrupt left to the operations that use them.
  pub record HeaderChain : Type 0 where
    pub chain_db : S.Db
    pub genesis_header : Header
    pub current_header : Header
    pub header_cache : H.Cache
    pub number_cache : N.Cache

module _ {S : Storage} {H : Lru Hash Header} {N : Lru Hash ℕ} where
  -- `GetBlockNumber`
  unfoldable pub get_block_number : HeaderChain S H N → Hash → Option ℕ × HeaderChain S H N
  get_block_number hc hash =
      let (cached, cache) = N.get hc.number_cache hash in
      let hc' : HeaderChain S H N = record hc { number_cache = cache } in
      elim cached [
        | some number ↦ (some number, hc')
        | none ↦ elim (S.read_header_number hc.chain_db hash) [
          | none ↦ (none, hc')
          | some number ↦ (some number, record hc' { number_cache = N.add cache hash number })
        ]
      ]

  -- `GetHeader`: the cache is asked by the hash alone.
  unfoldable pub get_header : HeaderChain S H N → Hash → ℕ → Option Header × HeaderChain S H N
  get_header hc hash number =
      let (cached, cache) = H.get hc.header_cache hash in
      let hc' : HeaderChain S H N = record hc { header_cache = cache } in
      elim cached [
        | some header ↦ (some header, hc')
        | none ↦ elim (read_header S hc.chain_db hash number) [
          | none ↦ (none, hc')
          | some header ↦ (some header, record hc' { header_cache = H.add cache hash header })
        ]
      ]

  -- `GetHeaderByHash`
  unfoldable pub get_header_by_hash : HeaderChain S H N → Hash → Option Header × HeaderChain S H N
  get_header_by_hash hc hash =
      let (found, hc') = get_block_number hc hash in
      elim found [ none ↦ (none, hc') | some number ↦ get_header hc' hash number ]

  -- `HasHeader`
  unfoldable pub has_header : HeaderChain S H N → Hash → ℕ → Bool
  has_header hc hash number =
      if N.contains hc.number_cache hash || H.contains hc.header_cache hash
      then true
      else S.has_header hc.chain_db hash number

  -- `GetHeaderByNumber`
  unfoldable pub get_header_by_number : HeaderChain S H N → ℕ → Option Header × HeaderChain S H N
  get_header_by_number hc number =
      let hash = S.read_canonical_hash hc.chain_db number in
      if hash == zero_hash then (none, hc) else get_header hc hash number

  -- `GetCanonicalHash`
  abbrev pub get_canonical_hash : HeaderChain S H N → ℕ → Hash
  get_canonical_hash hc number = S.read_canonical_hash hc.chain_db number

  -- `SetCurrentHeader`, without its gauge
  abbrev pub set_current_header : HeaderChain S H N → Header → HeaderChain S H N
  set_current_header hc head = record hc { current_header = head }

  -- `SetGenesis`
  abbrev pub set_genesis : HeaderChain S H N → Header → HeaderChain S H N
  set_genesis hc head = record hc { genesis_header = head }
