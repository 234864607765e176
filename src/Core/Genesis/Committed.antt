-- ===== src/Core/Genesis/Committed.antt =====
-- core/genesis.go: what `Commit` leaves in the database.
use mive.Base.{ℕ, ◌≡◌, refl, ◌∙◌, true, false, none, some, arith, ==_iff, uint64, is_empty}
use mive.Params.{ChainConfig}
use mive.Core.Types.{Header}
use mive.Core.Rawdb.Accessors.{read_header, write_header}
use mive.Core.Rawdb.Metadata.{read_chain_config, write_chain_config}
use mive.Core.Rawdb.Effects.{
  IsStorage, canonical_after, header_after, number_after, head_header_after, head_block_after,
  head_fast_block_after, config_after,
}
use mive.Core.BlockChain.{Env}
use mive.Core.Genesis.{
  GenesisEnv, GenesisAlloc, EthBlock, ok, to_header, flush, genesis_writes, put_each, commit,
}
use mive.Core.Genesis.Written.{
  read_canonical_hash-put_each, read_header_rlp-put_each, read_header_number-put_each,
  read_head_header_hash-put_each, read_head_block_hash-put_each, read_head_fast_block_hash-put_each,
  read_config-put_each,
}

-- The documented behaviour of the chain configuration: it survives JSON, and is compatible with itself.
pub record IsConfigCodec {E : Env} {Eth : Type 0} (G : GenesisEnv E Eth) : Type 0 where
  pub decode_config-encode :
      (config : ChainConfig Eth) → G.decode_config (G.encode_config config) ≡ some config
  pub encode_config-ne-nil : (config : ChainConfig Eth) → is_empty (G.encode_config config) ≡ false
  pub compatible_self :
      (eth : Eth) (number time : ℕ) → G.check_compatible eth eth number time ≡ none

-- The genesis block in the database: stored and canonical, all heads at it, beside its configuration.
pub record IsCommitted {E : Env} {Eth : Type 0} (G : GenesisEnv E Eth) (config : ChainConfig Eth)
    (block : EthBlock) (header : Header) (db : E.storage.Db) : Type 0 where
  pub hash : header.hash ≡ block.hash
  pub number : header.number ≡ block.number
  pub canonical : E.storage.read_canonical_hash db (uint64 block.number) ≡ block.hash
  pub stored : read_header E.storage db block.hash (uint64 block.number) ≡ some header
  pub stored_number : E.storage.read_header_number db block.hash ≡ some (uint64 block.number)
  pub head_block : E.storage.read_head_block_hash db ≡ block.hash
  pub head_header : E.storage.read_head_header_hash db ≡ block.hash
  pub head_fast_block : E.storage.read_head_fast_block_hash db ≡ block.hash
  pub configured : read_chain_config E.storage G.decode_config db block.hash ≡ some config

module _ {E : Env} {Eth : Type 0} (G : GenesisEnv E Eth) (config : ChainConfig Eth)
    (alloc : GenesisAlloc) (block : EthBlock) where
  to_header-block :
      {header : Header}
      → to_header G config alloc block ≡ ok header
      → (header.hash ≡ block.hash) × (header.number ≡ block.number)
  unfolding to_header
  to_header-block {header} made = ground arith

  pub commit_writes :
      (db : E.storage.Db) (tries : E.Tries) {header : Header} {db' : E.storage.Db}
      {tries' : E.Tries}
      → commit G config alloc db tries block ≡ ok (header, db', tries')
      → (flushed : E.storage.Db) × (to_header G config alloc block ≡ ok header)
        × (put_each E.storage (genesis_writes G config block header) flushed ≡ ok db')
        × (G.forks_in_order config.eth ≡ true)
  unfolding commit
  commit_writes db tries {header} {db'} {tries'} done =
      let flushed : E.storage.Db = elim (flush G alloc db tries block.hash (uint64 block.number)) [
        | ok (d, t) ↦ d
        | _ ↦ db
      ] in
      (flushed, ground arith, ground arith, ground arith)

  -- A `Commit` without an error, over a database and a codec that meet their laws, leaves the genesis block in
  -- the database: its header, with the hash and number of the Ethereum block, is stored and canonical, the
  -- three head markers stand at it, and the configuration is read back as it was.
  pub commit-IsCommitted :
      (laws : IsStorage E.storage) (codec : IsConfigCodec G) (db : E.storage.Db) (tries : E.Tries)
      {header : Header} {db' : E.storage.Db} {tries' : E.Tries}
      → commit G config alloc db tries block ≡ ok (header, db', tries')
      → IsCommitted G config block header db'
  unfolding genesis_writes write_header write_chain_config canonical_after header_after number_after
      head_header_after head_block_after head_fast_block_after config_after read_header
      read_chain_config
  commit-IsCommitted laws codec db tries {header} {db'} done =
      let (flushed, made, wrote, _) = commit_writes db tries done in
      let (same_hash, same_number) = to_header-block made in
      let ws = genesis_writes G config block header in
      let n = uint64 block.number in
      let self = (==_iff n n).1 refl in
      let own = (==_iff block.hash block.hash).1 refl in
      let rlp : E.storage.read_header_rlp db' block.hash n ≡ E.storage.rlp_encode header =
        read_header_rlp-put_each laws ws flushed wrote block.hash n ∙ ground arith in
      let json : E.storage.read_config db' block.hash ≡ G.encode_config config =
        read_config-put_each laws ws flushed wrote block.hash ∙ ground arith in
      record {
        hash = same_hash;
        number = same_number;
        canonical = read_canonical_hash-put_each laws ws flushed wrote n ∙ ground arith;
        stored =
            rw (read_header, rlp, laws.rlp_encode-ne-nil header, laws.rlp_decode-encode header);
        stored_number = read_header_number-put_each laws ws flushed wrote block.hash ∙ ground arith;
        head_block = read_head_block_hash-put_each laws ws flushed wrote;
        head_header = read_head_header_hash-put_each laws ws flushed wrote;
        head_fast_block = read_head_fast_block_hash-put_each laws ws flushed wrote;
        configured = rw (
          read_chain_config,
          json,
          codec.encode_config-ne-nil config,
          codec.decode_config-encode config,
        );
      }
