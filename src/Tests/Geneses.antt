-- ===== src/Tests/Geneses.antt =====
-- A genesis block over a database in memory: core/genesis.go on concrete inputs.
use mive.Base.{
  ℕ, ◌+◌, ◌≡◌, refl, true, false, ◌==◌, none, some, Option, [], ◌∷◌, arith, Bytes, if◌then◌else◌,
}
use mive.Params.{ChainConfig, mainnet_chain_config}
use mive.Core.Types.{zero_bloom, Hash, Header}
use mive.Core.Rawdb.{write_genesis_state_spec}
use mive.Core.Rawdb.Accessors.{read_header, write_header}
use mive.Core.Rawdb.Metadata.{write_chain_config}
use mive.Core.Memory.{Memory, empty_memory, apply, apply_all}
use mive.Core.Memory.Laws.{memory-IsStorage, memory_lru-IsLru}
use mive.Core.BlockChain.{Env, BlockChain}
use mive.Core.Genesis.{
  GenesisAlloc, GenesisEnv, EthBlock, ok, to_header, alloc_hash, add_accounts, set_storage, flush,
  put_each, genesis_writes, commit,
}
use mive.Core.Genesis.Setup.{Result, returned, setup_block, commit_first}
use mive.Core.Genesis.Create.{Caches, created, new_block_chain}
use mive.Core.Genesis.Committed.{IsConfigCodec, IsCommitted, commit-IsCommitted}
use mive.Core.Genesis.Again.{setup_block-again}
use mive.Core.Genesis.Opened.{IsOpened, new_block_chain-IsOpened}
use mive.Tests.BlockChains.{Block, contains, env}

abbrev client : Hash → Option Block
client h = if h == 11 then some (11, 0) else none

abbrev Chain : Env
Chain = env client

abbrev encode : ChainConfig Unit → Bytes
encode c = c.mive.genesis_block ∷ c.mive.beacon_address ∷ []

abbrev decode : Bytes → Option (ChainConfig Unit)
decode (block ∷ address ∷ []) =
    some (record { eth = tt; mive = record { genesis_block = block; beacon_address = address } })
decode _ = none

-- A state is the sum of the balances, which is its root too.
abbrev geth : GenesisEnv Chain Unit
geth = record {
  StateDb = ℕ;
  memory_state = λ verkle. some 0;
  open_state = λ tries. some 0;
  add_balance = λ state addr amount. state + amount;
  set_code = λ state addr code. state;
  set_nonce = λ state addr nonce. state;
  set_state = λ state addr key value. state;
  commit_state = λ state number. some (state, state ∷ []);
  commit_tries = λ tries root. some tries;
  initialized = contains;
  empty_root_hash = 0;
  empty_receipts_hash = 0;
  encode_alloc = λ alloc. some (1 ∷ []);
  encode_config = encode;
  decode_config = decode;
  set_cancun_time = λ time eth. eth;
  set_verkle_time = λ time eth. eth;
  is_verkle = λ eth number time. false;
  has_clique = λ eth. false;
  forks_in_order = λ eth. true;
  check_compatible = λ old new number time. none;
}

geth-IsConfigCodec : IsConfigCodec geth
geth-IsConfigCodec = record {
  decode_config-encode = λ config. refl;
  encode_config-ne-nil = λ config. refl;
  compatible_self = λ eth number time. refl;
}

abbrev config : ChainConfig Unit
config = mainnet_chain_config tt

abbrev alloc : GenesisAlloc
alloc = (5, record { balance = some 40; code = []; nonce = 0; storage = (1, 2) ∷ [] }) ∷ []

abbrev block : EthBlock
block = record { parent_hash = 0; hash = 11; number = 0; time = 9; extra = [] }

abbrev header : Header
header = record {
  parent_hash = 0;
  hash = 11;
  number = 0;
  time = 9;
  root = 40;
  receipt_hash = 0;
  bloom = zero_bloom;
  gas_used = 0;
}

-- The database after the commit.
abbrev written : Memory
written =
    apply_all (genesis_writes geth config block header)
      (apply (write_genesis_state_spec 11 (1 ∷ [])) empty_memory)

commits : commit geth config alloc empty_memory [] block ≡ ok (header, written, 40 ∷ [])
unfolding commit to_header alloc_hash add_accounts set_storage flush put_each genesis_writes
    write_header write_chain_config apply_all apply
commits = refl

is_committed : IsCommitted geth config block header written
is_committed =
    commit-IsCommitted geth config alloc block memory-IsStorage geth-IsConfigCodec empty_memory []
      commits

commit-IsCommitted_example : IsCommitted geth config block header written
commit-IsCommitted_example =
    commit-IsCommitted geth config alloc block memory-IsStorage geth-IsConfigCodec empty_memory []
      commits

abbrev first : Result geth
first = returned geth config 11 none written (40 ∷ [])

sets_up : setup_block geth config alloc empty_memory [] block ≡ ok first
unfolding setup_block commit_first commit to_header alloc_hash add_accounts set_storage flush
    put_each genesis_writes write_header write_chain_config apply_all apply
sets_up = refl

has_state :
    (h : Header)
    → read_header Chain.storage written 11 0 ≡ some h
    → contains (40 ∷ []) h.root ≡ true
unfolding read_header genesis_writes write_header write_chain_config apply_all apply
has_state h e = ground (arith, e)

setup_block-again_example :
    (first.hash ≡ 11)
    × (first.error ≡ none)
    × (setup_block geth config [] written (40 ∷ []) block
        ≡ ok (returned geth config 11 none written (40 ∷ [])))
setup_block-again_example =
    setup_block-again geth memory-IsStorage geth-IsConfigCodec config block alloc [] empty_memory []
      (40 ∷ []) {r = first} refl refl (λ e. ground (arith, e)) sets_up has_state

abbrev caches : Caches Chain
caches = record { headers = []; numbers = []; receipts = []; blocks = [] }

new_block_chain-IsOpened_example :
    (bc : BlockChain Chain) × (new_block_chain geth
        (λ db. db)
        caches
        (returned geth config 11 none written (40 ∷ []))
      ≡ created bc)
    × IsOpened header bc
new_block_chain-IsOpened_example =
    new_block_chain-IsOpened geth memory_lru-IsLru memory_lru-IsLru config block header written
      (40 ∷ []) (λ db. db) caches is_committed refl (λ e. ground (arith, e)) refl refl
