-- ===== src/Core/Genesis.antt =====
-- core/genesis.go: the genesis block, its state and its commit to the database.
pub mod Setup
pub mod Create
pub mod Written
pub mod Committed
pub mod Again
pub mod Opened
use mive.Base.{
  ℕ, ◌+◌, Bytes, Bool, true, false, ◌&&◌, Option, none, some, List, [], ◌∷◌, ◌++◌, length, leb,
  ◌==◌, if◌then◌else◌, uint64,
}
use mive.Params.{Address, ChainConfig, MiveChainConfig, mainnet_chain_config}
use mive.Core.Types.{zero_bloom, Hash, Header}
use mive.Core.Rawdb.{
  Storage, Write, write_head_header_hash, write_head_block_hash, write_head_fast_block_hash,
  write_canonical_hash, write_empty_receipts, write_genesis_state_spec,
}
use mive.Core.Rawdb.Accessors.{write_header}
use mive.Core.Rawdb.Metadata.{write_chain_config}
use mive.Core.BlockChain.{Env}

-- `core.GenesisAccount` and `GenesisAlloc`, in the order in which Go happens to range over the map.
pub record GenesisAccount : Type 0 where
  pub balance : Option ℕ
  pub code : Bytes
  pub nonce : ℕ
  pub storage : List (Hash × Hash)

abbrev pub GenesisAlloc : Type 0
GenesisAlloc = List (Address × GenesisAccount)

-- `Genesis`; `none` is a nil configuration.
pub record Genesis (Eth : Type 0) : Type 0 where
  pub config : Option (ChainConfig Eth)
  pub alloc : GenesisAlloc

-- The Ethereum block at the genesis number, through the methods that are called on it.
pub record EthBlock : Type 0 where
  pub parent_hash : Hash
  pub hash : Hash
  pub number : ℕ
  pub time : ℕ
  pub extra : Bytes

-- `params.ConfigCompatError`
pub record ConfigCompatError : Type 0 where
  pub rewind_to_block : ℕ
  pub rewind_to_time : ℕ

-- What genesis.go takes from go-ethereum: the state database, the tries, the codecs and the rules of the
-- chain configuration.
pub record GenesisEnv (E : Env) (Eth : Type 0) : Type 1 where
  pub StateDb : Type 0
  pub memory_state : Bool → Option StateDb  -- `state.New` in memory, with or without a verkle trie
  pub open_state : E.Tries → Option StateDb  -- `state.New` over the tries
  pub add_balance : StateDb → Address → ℕ → StateDb
  pub set_code : StateDb → Address → Bytes → StateDb
  pub set_nonce : StateDb → Address → ℕ → StateDb
  pub set_state : StateDb → Address → Hash → Hash → StateDb
  pub commit_state : StateDb → ℕ → Option (Hash × E.Tries)  -- the root, and the tries that it leaves
  pub commit_tries : E.Tries → Hash → Option E.Tries
  pub initialized : E.Tries → Hash → Bool
  pub empty_root_hash : Hash
  pub empty_receipts_hash : Hash
  pub encode_alloc : GenesisAlloc → Option Bytes
  pub encode_config : ChainConfig Eth → Bytes
  pub decode_config : Bytes → Option (ChainConfig Eth)
  pub set_cancun_time : ℕ → Eth → Eth
  pub set_verkle_time : ℕ → Eth → Eth
  pub is_verkle : Eth → ℕ → ℕ → Bool
  pub has_clique : Eth → Bool
  pub forks_in_order : Eth → Bool  -- `CheckConfigForkOrder` has no error
  pub check_compatible : Eth → Eth → ℕ → ℕ → Option ConfigCompatError

pub data GenesisError : Type 0 where
  no_config client_failed missing_head_header fork_order no_signers state_failed : GenesisError
  mismatch : Hash → Hash → GenesisError
  incompatible : ConfigCompatError → GenesisError

-- What a call comes to: a value, an error beside nil values, a panic, or the end of the process.
pub data Run (A : Type 0) : Type 0 where
  ok : A → Run A
  err : GenesisError → Run A
  panics exits : Run A

infixl 5 ◌>>=◌ ◌>>◌
abbrev pub ◌>>=◌ : {A B : Type 0} → Run A → (A → Run B) → Run B
ok a >>= f = f a
err e >>= f = err e
panics >>= f = panics
exits >>= f = exits

abbrev pub ◌>>◌ : {B : Type 0} → Run (Unit {0}) → Run B → Run B
m >> k = m >>= λ _. k

abbrev pub or_err : {A : Type 0} → Option A → GenesisError → Run A
or_err none e = err e
or_err (some a) e = ok a

abbrev pub or_exit : {A : Type 0} → Option A → Run A
or_exit none = exits
or_exit (some a) = ok a

abbrev pub or_panic : {A : Type 0} → Option A → Run A
or_panic none = panics
or_panic (some a) = ok a

abbrev pub guard : Bool → GenesisError → Run (Unit {0})
guard true e = ok tt
guard false e = err e

-- Writes to the database itself, each of which ends the process if it fails.
unfoldable pub put_each : (S : Storage) → List Write → S.Db → Run S.Db
put_each S [] db = ok db
put_each S (w ∷ ws) db = do db' ← or_exit (S.commit (w ∷ []) db); put_each S ws db'

module _ {E : Env} {Eth : Type 0} (G : GenesisEnv E Eth) where
  -- The loops of `hash` and `flush` over the accounts and their storage.
  unfoldable pub set_storage : Address → List (Hash × Hash) → G.StateDb → G.StateDb
  set_storage addr [] state = state
  set_storage addr ((key, value) ∷ slots) state =
      set_storage addr slots (G.set_state state addr key value)

  unfoldable pub add_accounts : GenesisAlloc → G.StateDb → G.StateDb
  add_accounts [] state = state
  add_accounts ((addr, account) ∷ alloc) state =
      let paid : G.StateDb = elim account.balance [
        | none ↦ state
        | some amount ↦ G.add_balance state addr amount
      ] in
      let coded = G.set_nonce (G.set_code paid addr account.code) addr account.nonce in
      add_accounts alloc (set_storage addr account.storage coded)

  -- `GenesisAlloc.hash`
  unfoldable pub alloc_hash : GenesisAlloc → Bool → ℕ → Run Hash
  alloc_hash alloc is_verkle number = do
    state ← or_err (G.memory_state is_verkle) state_failed
    (root, _) ← or_err (G.commit_state (add_accounts alloc state) number) state_failed
    ok root

  -- `GenesisAlloc.flush`
  unfoldable pub flush :
      GenesisAlloc → E.storage.Db → E.Tries → Hash → ℕ → Run (E.storage.Db × E.Tries)
  flush alloc db tries hash number = do
    state ← or_err (G.open_state tries) state_failed
    (root, grown) ← or_err (G.commit_state (add_accounts alloc state) number) state_failed
    stored ←
        (if root == G.empty_root_hash
          then ok grown
          else or_err (G.commit_tries grown root) state_failed)
    blob ← or_err (G.encode_alloc alloc) state_failed
    db' ← put_each E.storage (write_genesis_state_spec hash blob ∷ []) db
    ok (db', stored)

  -- `ToHeader` and `IsVerkle`; an error of the hash panics.
  unfoldable pub to_header : ChainConfig Eth → GenesisAlloc → EthBlock → Run Header
  to_header config alloc block =
      elim (alloc_hash alloc (G.is_verkle config.eth block.number block.time)
        (uint64 block.number)) [
          | ok root ↦ ok (record {
            parent_hash = block.parent_hash;
            hash = block.hash;
            number = block.number;
            time = block.time;
            root = root;
            receipt_hash = G.empty_receipts_hash;
            bloom = zero_bloom;
            gas_used = 0;
          })
          | err e ↦ panics
          | panics ↦ panics
          | exits ↦ exits
        ]

  -- What `Commit` writes once the state is flushed.
  unfoldable pub genesis_writes : ChainConfig Eth → EthBlock → Header → List Write
  genesis_writes config block header =
      write_header E.storage header
      ++ (write_empty_receipts block.hash (uint64 block.number)
          ∷ write_canonical_hash block.hash (uint64 block.number)
          ∷ write_head_block_hash block.hash
          ∷ write_head_fast_block_hash block.hash
          ∷ write_head_header_hash block.hash
          ∷ write_chain_config G.encode_config block.hash (some config))

  -- The bytes of the extra data that come before and in a signature: 32 and `crypto.SignatureLength`.
  abbrev pub clique_extra : ℕ
  clique_extra = 97

  -- `Commit`; its header is nil beside an error.
  unfoldable pub commit :
      ChainConfig Eth
      → GenesisAlloc
      → E.storage.Db
      → E.Tries
      → EthBlock
      → Run (Header × E.storage.Db × E.Tries)
  commit config alloc db tries block = do
    header ← to_header config alloc block
    guard (G.forks_in_order config.eth) fork_order
    guard (if G.has_clique config.eth then leb clique_extra (length block.extra) else true)
        no_signers
    (flushed, tries') ← flush alloc db tries block.hash (uint64 block.number)
    db' ← put_each E.storage (genesis_writes config block header) flushed
    ok (header, db', tries')

-- `DefaultGenesisBlock`
abbrev pub default_genesis_block : {Eth : Type 0} → Eth → Genesis Eth
default_genesis_block eth = record { config = some (mainnet_chain_config eth); alloc = [] }
