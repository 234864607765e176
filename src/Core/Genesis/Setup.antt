-- ===== src/Core/Genesis/Setup.antt =====
-- core/genesis.go: `SetupGenesisBlockWithOverride`.
use mive.Base.{
  ℕ, Bool, true, false, not, ◌&&◌, ◌||◌, Option, none, some, ◌==◌, bytes_eq, if◌then◌else◌, uint64,
}
use mive.Params.{ChainConfig}
use mive.Core.Types.{Hash, zero_hash, Header}
use mive.Core.Rawdb.Accessors.{read_header, read_head_header}
use mive.Core.Rawdb.Metadata.{read_chain_config, write_chain_config}
use mive.Core.BlockChain.{Env}
use mive.Core.Genesis.{
  Genesis, GenesisAlloc, GenesisEnv, EthBlock, GenesisError, no_config, client_failed,
  missing_head_header, fork_order, mismatch, incompatible, Run, ok, err, panics, exits, ◌>>=◌,
  put_each, commit, default_genesis_block,
}

-- `core.ChainOverrides`, where `none` is a nil pointer.
pub record ChainOverrides : Type 0 where
  pub override_cancun : Option ℕ
  pub override_verkle : Option ℕ

module _ {E : Env} {Eth : Type 0} (G : GenesisEnv E Eth) where
  -- The closure `applyOverrides`; without overrides both are `none`.
  unfoldable pub apply_overrides : ChainOverrides → ChainConfig Eth → ChainConfig Eth
  apply_overrides o config =
      let cancun : Eth = elim o.override_cancun [
        | none ↦ config.eth
        | some time ↦ G.set_cancun_time time config.eth
      ] in
      let verkle : Eth = elim o.override_verkle [
        | none ↦ cancun
        | some time ↦ G.set_verkle_time time cancun
      ] in
      record config { eth = verkle }

  -- The values that are returned, with the database and the tries; the configuration is `none` where
  -- it is an empty one.
  pub record Result : Type 0 where
    pub config : Option (ChainConfig Eth)
    pub hash : Hash
    pub error : Option GenesisError
    pub db : E.storage.Db
    pub tries : E.Tries

module _ {E : Env} {Eth : Type 0} (G : GenesisEnv E Eth) (config : ChainConfig Eth) where
  -- The result of a commit whose header is used at once: a nil header panics.
  abbrev pub use_header : Run (Header × E.storage.Db × E.Tries) → Run (Result G)
  use_header (ok (header, db, tries)) =
      ok (record { config = some config; hash = header.hash; error = none; db = db; tries = tries })
  use_header (err e) = panics
  use_header panics = panics
  use_header exits = exits

  unfoldable pub commit_first : GenesisAlloc → E.storage.Db → E.Tries → EthBlock → Run (Result G)
  commit_first alloc db tries block = use_header (commit G config alloc db tries block)

  -- Whether the compatibility error is returned: the head is beyond what it would rewind.
  abbrev pub is_fatal : Header → ℕ → ℕ → Bool
  is_fatal head to_block to_time =
      not (uint64 head.number == 0) && not (to_block == 0)
      || not (head.time == 0) && not (to_time == 0)

  -- What is returned with the overridden configuration.
  abbrev pub returned : Hash → Option GenesisError → E.storage.Db → E.Tries → Result G
  returned hash error db tries = record {
    config = some config;
    hash = hash;
    error = error;
    db = db;
    tries = tries;
  }

  -- The end, with the stored configuration `old` and the head header.
  unfoldable pub update_config :
      E.storage.Db → E.Tries → Hash → ChainConfig Eth → Header → Run (Result G)
  update_config db tries stored old head =
      let rewrite : Run (Result G) =
        if bytes_eq (G.encode_config old) (G.encode_config config)
        then ok (returned stored none db tries)
        else (put_each E.storage (write_chain_config G.encode_config stored (some config)) db
            >>= λ db'. ok (returned stored none db' tries)) in
      elim (G.check_compatible old.eth config.eth (uint64 head.number) head.time) [
        | none ↦ rewrite
        | some e ↦
            if is_fatal head e.rewind_to_block e.rewind_to_time
            then ok (returned stored (some (incompatible e)) db tries)
            else rewrite
      ]

  -- The part for a stored genesis block whose state is there.
  unfoldable pub check_config : E.storage.Db → E.Tries → Hash → Run (Result G)
  check_config db tries stored = elim (G.forks_in_order config.eth) [
    | false ↦ ok (returned zero_hash (some fork_order) db tries)
    | true ↦ elim (read_chain_config E.storage G.decode_config db stored) [
      | none ↦ do
        db' ← put_each E.storage (write_chain_config G.encode_config stored (some config)) db
        ok (returned stored none db' tries)
      | some old ↦ elim (read_head_header E.storage db) [
        | none ↦ ok (returned stored (some missing_head_header) db tries)
        | some head ↦ update_config db tries stored old head
      ]
    ]
  ]

  -- The part for a block that the client has answered with.
  unfoldable pub setup_block : GenesisAlloc → E.storage.Db → E.Tries → EthBlock → Run (Result G)
  setup_block alloc db tries block =
      let number = uint64 config.mive.genesis_block in
      let stored = E.storage.read_canonical_hash db number in
      elim (stored == zero_hash) [
        | true ↦ commit_first alloc db tries block
        | false ↦ elim (block.hash == stored) [
          | false ↦ ok (returned block.hash (some (mismatch stored block.hash)) db tries)
          | true ↦ elim (read_header E.storage db stored number) [
            | none ↦ panics
            | some header ↦
                if not (header.root == G.empty_root_hash) && not (G.initialized tries header.root)
                then commit_first alloc db tries block
                else check_config db tries stored
          ]
        ]
      ]

module _ {E : Env} {Eth : Type 0} (G : GenesisEnv E Eth) where
  -- `SetupGenesisBlockWithOverride`, over the mainnet configuration and the client's answer for a number,
  -- where `none` is an error.
  unfoldable pub setup_genesis_block_with_override :
      Eth
      → (ℕ → Option EthBlock)
      → E.storage.Db
      → E.Tries
      → Option (Genesis Eth)
      → ChainOverrides
      → Run (Result G)
  setup_genesis_block_with_override mainnet block_by_number db tries genesis overrides =
      let given : Genesis Eth = elim genesis [
        | none ↦ default_genesis_block mainnet
        | some g ↦ g
      ] in
      let failed : GenesisError → Result G =
        λ e. record { config = none; hash = zero_hash; error = some e; db = db; tries = tries } in
      elim given.config [
        | none ↦ ok (failed no_config)
        | some config ↦
            let overridden = apply_overrides G overrides config in
            elim (block_by_number overridden.mive.genesis_block) [
              | none ↦ ok (failed client_failed)
              | some block ↦ setup_block G overridden given.alloc db tries block
            ]
      ]
