-- ===== src/Core/Genesis/Again.antt =====
-- core/genesis.go: a set-up of a genesis block that was set up before.
use mive.Base.{
  ◌≡◌, refl, ◌≢◌, sym, subst, true, false, none, some, Bool-cases, inl, inr, arith, ◌==◌, ==_iff,
  uint64, bytes_eq_iff, ◌&&◌, not,
}
use mive.Params.{ChainConfig}
use mive.Core.Types.{zero_hash, Header}
use mive.Core.Rawdb.Accessors.{read_header, read_head_header}
use mive.Core.Rawdb.Effects.{IsStorage}
use mive.Core.BlockChain.{Env}
use mive.Core.Genesis.{GenesisEnv, GenesisAlloc, EthBlock, Run, ok, err, panics, exits, commit}
use mive.Core.Genesis.Setup.{
  Result, use_header, returned, commit_first, update_config, check_config, setup_block,
}
use mive.Core.Genesis.Committed.{IsConfigCodec, IsCommitted, commit_writes, commit-IsCommitted}

module _ {E : Env} {Eth : Type 0} (G : GenesisEnv E Eth) (codec : IsConfigCodec G)
    (config : ChainConfig Eth) (block : EthBlock) (header : Header) (db : E.storage.Db)
    (tries : E.Tries) (set : block.hash ≢ zero_hash)
    (c : IsCommitted G config block header db) where
  read_head_header-committed : read_head_header E.storage db ≡ some header
  unfolding read_head_header
  read_head_header-committed =
      let test : (block.hash == zero_hash) ≡ false = ground arith in
      simp (read_head_header, c.head_header, test, c.stored_number, c.stored)

  update_config-same :
      update_config G config db tries block.hash config header
      ≡ ok (returned G config block.hash none db tries)
  unfolding update_config
  update_config-same =
      let same = (bytes_eq_iff (G.encode_config config) (G.encode_config config)).1 refl in
      rw (update_config, codec.compatible_self config.eth (uint64 header.number) header.time, same)

  check_config-same :
      G.forks_in_order config.eth ≡ true
      → check_config G config db tries block.hash ≡ ok (returned G config block.hash none db tries)
  unfolding check_config
  check_config-same ordered =
      rw (check_config, ordered, c.configured, read_head_header-committed) update_config-same

  -- Over a committed genesis block whose state is there, the set-up changes nothing.
  setup_block-same :
      (alloc : GenesisAlloc)
      → uint64 config.mive.genesis_block ≡ uint64 block.number
      → G.forks_in_order config.eth ≡ true
      → G.initialized tries header.root ≡ true
      → setup_block G config alloc db tries block ≡ ok (returned G config block.hash none db tries)
  unfolding setup_block
  setup_block-same alloc at ordered there =
      let test : (block.hash == zero_hash) ≡ false = ground arith in
      let own = (==_iff block.hash block.hash).1 refl in
      elim (Bool-cases
        (not (header.root == G.empty_root_hash) && not (G.initialized tries header.root))) [
          | inl missing ↦ absurd (ground (arith, there))
          | inr fine ↦
              rw
                (
                  setup_block, at, c.canonical, test, at, c.canonical, own, at, c.canonical,
                  c.stored, fine, at, c.canonical,
                )
                (check_config-same ordered)
        ]

use_header-ok :
    {E : Env} {Eth : Type 0} (G : GenesisEnv E Eth) (config : ChainConfig Eth)
    (m : Run (Header × E.storage.Db × E.Tries)) {r : Result G}
    → use_header G config m ≡ ok r
    → (header : Header) × (db : E.storage.Db) × (tries : E.Tries) × (m ≡ ok (header, db, tries))
      × (r ≡ returned G config header.hash none db tries)
use_header-ok G config (ok (header, db, tries)) {r} e = (header, db, tries, refl, cc)
use_header-ok G config (err x) e = cc
use_header-ok G config panics e = cc
use_header-ok G config exits e = cc

module _ {E : Env} {Eth : Type 0} (G : GenesisEnv E Eth) (laws : IsStorage E.storage)
    (codec : IsConfigCodec G) (config : ChainConfig Eth) (block : EthBlock) where
  -- The set-up of a genesis block, with a hash that is not zero and the number that the configuration asks for,
  -- in a database that has none, if it comes to a result, returns the hash of the block without an error.
  -- Another set-up with the same configuration and block, over tries that have the state of the stored header,
  -- then returns the same values without an error, and changes neither the database nor the tries.
  pub setup_block-again :
      (alloc alloc' : GenesisAlloc) (db : E.storage.Db) (tries later : E.Tries) {r : Result G}
      → E.storage.read_canonical_hash db (uint64 config.mive.genesis_block) ≡ zero_hash
      → uint64 config.mive.genesis_block ≡ uint64 block.number
      → block.hash ≢ zero_hash
      → setup_block G config alloc db tries block ≡ ok r
      → ((header : Header)
          → read_header E.storage r.db block.hash (uint64 block.number) ≡ some header
          → G.initialized later header.root ≡ true)
      → (r.hash ≡ block.hash)
        × (r.error ≡ none)
        × (setup_block G config alloc' r.db later block
            ≡ ok (returned G config block.hash none r.db later))
  unfolding setup_block commit_first
  setup_block-again alloc alloc' db tries later {r} unset at set first there =
      let made : use_header G config (commit G config alloc db tries block) ≡ ok r =
        rw (setup_block, unset) at first in
      let (header, db', tries', done, e) = use_header-ok G config _ made in
      let c = commit-IsCommitted G config alloc block laws codec db tries done in
      let (_, _, _, ordered) = commit_writes G config alloc block db tries done in
      let stored =
        subst
          (λ (q : Result G).
            read_header E.storage q.db block.hash (uint64 block.number) ≡ some header)
          (sym e) c.stored in
      subst
        (λ (q : Result G).
          (q.hash ≡ block.hash)
          × (q.error ≡ none)
          × (setup_block G config alloc' q.db later block
              ≡ ok (returned G config block.hash none q.db later)))
        (sym e)
        (
          c.hash,
          refl,
          setup_block-same G codec config block header db' later set c alloc' at ordered
              (there header stored),
        )
