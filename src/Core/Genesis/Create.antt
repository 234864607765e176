-- ===== src/Core/Genesis/Create.antt =====
-- core/blockchain.go: `NewBlockChain`, from the set-up of the genesis block to an empty set of markers.
use mive.Base.{ℕ, inl, inr, Bool, false, ◌&&◌, Option, none, some, [], ◌==◌, if◌then◌else◌, uint64}
use mive.Core.HeaderChain.{Error, no_genesis, nil_dereference}
use mive.Core.HeaderChain.Create.{new_header_chain}
use mive.Core.BlockChain.{Env, Headers, BlockChain, free}
use mive.Core.BlockChain.Reader.{get_header_by_number}
use mive.Core.Genesis.{GenesisEnv, GenesisError, incompatible}
use mive.Core.Genesis.Setup.{Result}

-- The caches as they are made.
pub record Caches (E : Env) : Type 0 where
  pub headers : E.header_lru.Cache
  pub numbers : E.number_lru.Cache
  pub receipts : E.receipts_lru.Cache
  pub blocks : E.block_lru.Cache

-- The error of the set-up that ends the creation: any but that of an incompatible configuration.
abbrev pub fatal_setup : Option GenesisError → Option GenesisError
fatal_setup none = none
fatal_setup (some (incompatible e)) = none
fatal_setup (some e) = some e

-- What comes of a creation.
pub data Created (E : Env) : Type 0 where
  refused : GenesisError → Created E
  failed : Error → Created E
  created : BlockChain E → Created E

module _ {E : Env} where
  -- `empty`
  unfoldable pub is_empty_chain : BlockChain E → Bool
  is_empty_chain bc =
      let db = bc.hc.chain_db in
      let genesis = bc.genesis_header.hash in
      E.storage.read_head_block_hash db == genesis
      && (E.storage.read_head_header_hash db == genesis
          && E.storage.read_head_fast_block_hash db == genesis)

  -- What is done to an empty chain; `init_from_freezer` is `InitDatabaseFromFreezer`.
  unfoldable pub fill_empty : (E.storage.Db → E.storage.Db) → BlockChain E → BlockChain E
  fill_empty init_from_freezer bc =
      let filled : Headers E = record bc.hc { chain_db = init_from_freezer bc.hc.chain_db } in
      if is_empty_chain bc then record bc { hc = filled } else bc

  -- The chain over a new header chain.
  unfoldable pub with_header_chain :
      (E.storage.Db → E.storage.Db) → Caches E → E.Tries → ℕ → Headers E → Created E
  with_header_chain init_from_freezer caches tries genesis_block hc =
      let bc : BlockChain E = record {
        hc = hc;
        genesis_header = hc.genesis_header;
        current_block = none;
        current_snap_block = none;
        current_final_block = none;
        current_safe_block = none;
        receipts_cache = caches.receipts;
        block_cache = caches.blocks;
        future_blocks = caches.blocks;
        tries = tries;
        mutex = free;
        proc_interrupt = false;
        chain_head_events = [];
      } in
      let (genesis, bc') = get_header_by_number bc (uint64 genesis_block) in
      elim genesis [
        | none ↦ failed no_genesis
        | some header ↦
            created (fill_empty init_from_freezer (record bc' { genesis_header = header }))
      ]

  -- `NewBlockChain`, over what the set-up of the genesis block returns, without its log.
  unfoldable pub new_block_chain :
      {Eth : Type 0} (G : GenesisEnv E Eth)
      → (E.storage.Db → E.storage.Db)
      → Caches E
      → Result G
      → Created E
  new_block_chain G init_from_freezer caches r = elim (fatal_setup r.error) [
    | some e ↦ refused e
    | none ↦ elim r.config [
      | none ↦ failed nil_dereference
      | some config ↦
          let number = config.mive.genesis_block in
          let hc = new_header_chain r.db caches.headers caches.numbers (uint64 number) in
          elim hc [
            | inl e ↦ failed e
            | inr chain ↦ with_header_chain init_from_freezer caches r.tries number chain
          ]
    ]
  ]
