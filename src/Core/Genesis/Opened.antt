-- ===== src/Core/Genesis/Opened.antt =====
-- core/blockchain.go: `NewBlockChain` over a genesis block that was just committed.
use mive.Base.{
  ℕ, ◌≡◌, refl, ◌≢◌, ◌∙◌, ap, sym, false, none, some, [], Bool-cases, inl, inr, arith, ◌==◌, uint64,
}
use mive.Params.{ChainConfig}
use mive.Core.Types.{zero_hash, Header, number_u64}
use mive.Core.Lru.{IsLru}
use mive.Core.Rawdb.Accessors.{read_header}
use mive.Core.HeaderChain.{set_current_header, set_genesis}
use mive.Core.HeaderChain
use mive.Core.HeaderChain.Create.{new_header_chain, blank_header}
use mive.Core.BlockChain.{Env, Headers, BlockChain, free}
use mive.Core.BlockChain.Known.{
  genesis_header-get_header_by_hash, current_header-get_header_by_number, Knows,
  get_header_by_hash-Knows, get_header_by_number-Knows,
}
use mive.Core.BlockChain.Reader.{get_header_by_number}
use mive.Core.Genesis.{GenesisEnv, EthBlock}
use mive.Core.Genesis.Setup.{returned}
use mive.Core.Genesis.Create.{
  Caches, created, is_empty_chain, fill_empty, with_header_chain, new_block_chain,
}
use mive.Core.Genesis.Committed.{IsCommitted}

-- A new chain at the genesis header, without any marker yet.
pub record IsOpened {E : Env} (g : Header) (bc : BlockChain E) : Type 0 where
  pub genesis : bc.genesis_header ≡ g
  pub head : bc.hc.current_header ≡ g
  pub unlocked : bc.mutex ≡ free
  pub no_block : bc.current_block ≡ none
  pub no_snap : bc.current_snap_block ≡ none
  pub no_final : bc.current_final_block ≡ none
  pub no_safe : bc.current_safe_block ≡ none

fill_empty-IsOpened :
    {E : Env} (g : Header) (init : E.storage.Db → E.storage.Db) (bc : BlockChain E)
    → IsOpened g bc
    → IsOpened g (fill_empty init bc)
unfolding fill_empty
fill_empty-IsOpened g init bc o = elim (Bool-cases (is_empty_chain bc)) [
  | inr full ↦ rw (fill_empty, full) o
  | inl empty ↦
      rw (fill_empty, empty)
        (record {
          genesis = o.genesis;
          head = o.head;
          unlocked = o.unlocked;
          no_block = o.no_block;
          no_snap = o.no_snap;
          no_final = o.no_final;
          no_safe = o.no_safe;
        })
]

module _ {E : Env} (headers : IsLru E.header_lru) (numbers : IsLru E.number_lru) (g : Header)
    (db : E.storage.Db) (n : ℕ) (at : n ≡ number_u64 g) (set : g.hash ≢ zero_hash)
    (canonical : E.storage.read_canonical_hash db n ≡ g.hash) where
  new_header_chain-Knows :
      (hcache : E.header_lru.Cache) (ncache : E.number_lru.Cache)
      → E.storage.read_head_block_hash db ≡ g.hash
      → ((hc : Headers E)
          → hc.chain_db ≡ db
          → hc.header_cache ≡ hcache
          → hc.number_cache ≡ ncache
          → Knows E g db hc)
      → (hc : Headers E) × (new_header_chain {S = E.storage} {H = E.header_lru} {N = E.number_lru}
            db hcache ncache n
          ≡ inr hc)
        × (hc.genesis_header ≡ g)
        × (hc.current_header ≡ g)
        × Knows E g db hc
  unfolding new_header_chain
  new_header_chain-Knows hcache ncache head fresh =
      let hc0 : Headers E = record {
        chain_db = db;
        genesis_header = blank_header;
        current_header = blank_header;
        header_cache = hcache;
        number_cache = ncache;
      } in
      let (found, k) =
        get_header_by_number-Knows headers numbers g db hc0 n at canonical set
          (fresh hc0 refl refl refl) in
      let read = (HeaderChain.get_header_by_number hc0 n).1 in
      let started : Headers E = set_current_header (set_genesis read g) g in
      let k' : Knows E g db started = record {
        same = k.same;
        number = k.number;
        stored = k.stored;
        cached_number = k.cached_number;
        cached_header = k.cached_header;
      } in
      let (found', k'') = get_header_by_hash-Knows headers numbers g db started k' in
      let looked = (HeaderChain.get_header_by_hash started g.hash).1 in
      let test : (g.hash == zero_hash) ≡ false = ground arith in
      (
        set_current_header looked g,
        rw (new_header_chain, found, head, test, found', head),
        genesis_header-get_header_by_hash started g.hash,
        refl,
        record {
          same = k''.same;
          number = k''.number;
          stored = k''.stored;
          cached_number = k''.cached_number;
          cached_header = k''.cached_header;
        },
      )

  with_header_chain-IsOpened :
      (init : E.storage.Db → E.storage.Db) (caches : Caches E) (tries : E.Tries) (block : ℕ)
      (hc : Headers E)
      → uint64 block ≡ n
      → hc.current_header ≡ g
      → Knows E g db hc
      → (bc : BlockChain E) × (with_header_chain init caches tries block hc ≡ created bc)
        × IsOpened g bc
  unfolding with_header_chain get_header_by_number
  with_header_chain-IsOpened init caches tries block hc e head k =
      let (found, k') =
        get_header_by_number-Knows headers numbers g db hc (uint64 block) (e ∙ at)
          (ap (E.storage.read_canonical_hash db) e ∙ canonical) set k in
      let (_, moved) = HeaderChain.get_header_by_number hc (uint64 block) in
      let same = current_header-get_header_by_number hc (uint64 block) in
      let made : BlockChain E = record {
        hc = moved;
        genesis_header = g;
        current_block = none;
        current_snap_block = none;
        current_final_block = none;
        current_safe_block = none;
        receipts_cache = caches.receipts;
        block_cache = caches.blocks;
        future_blocks = caches.blocks;
        tries = tries;
        mutex = free;
        proc_interrupt = false;
        chain_head_events = [];
      } in
      (
        fill_empty init made,
        rw (with_header_chain, found),
        fill_empty-IsOpened g init made (record {
          genesis = refl;
          head = same ∙ head;
          unlocked = refl;
          no_block = refl;
          no_snap = refl;
          no_final = refl;
          no_safe = refl;
        }),
      )

-- The genesis header is known to a header chain over its database with new caches.
committed-Knows :
    {E : Env} {Eth : Type 0} (G : GenesisEnv E Eth) (config : ChainConfig Eth) (block : EthBlock)
    (g : Header) (db : E.storage.Db)
    → IsCommitted G config block g db
    → (hc : Headers E) → hc.chain_db ≡ db
    → E.header_lru.entry hc.header_cache g.hash ≡ none
    → E.number_lru.entry hc.number_cache g.hash ≡ none
    → Knows E g db hc
committed-Knows {E} G config block g db c hc d no_header no_number = record {
  same = d;
  number = rw (d, c.hash) (c.stored_number ∙ ap (λ n. some (uint64 n)) (sym c.number));
  stored =
      ap (λ d. read_header E.storage d g.hash (number_u64 g)) d
      ∙ ap (λ h. read_header E.storage db h (number_u64 g)) c.hash
      ∙ ap (λ n. read_header E.storage db block.hash (uint64 n)) c.number
      ∙ c.stored;
  cached_number = λ m hit. ground (arith, no_number);
  cached_header = λ h hit. ground (arith, no_header);
}

module _ {E : Env} {Eth : Type 0} (G : GenesisEnv E Eth) (headers : IsLru E.header_lru)
    (numbers : IsLru E.number_lru) where
  -- Over a database with a committed genesis block, with a hash that is not zero and the number that the
  -- configuration asks for, and caches that hold nothing under the hash, `NewBlockChain` creates a chain, with
  -- the genesis header as its genesis and its head header, the lock free, and no current block, snap block,
  -- final block or safe block.
  pub new_block_chain-IsOpened :
      (config : ChainConfig Eth) (block : EthBlock) (g : Header) (db : E.storage.Db)
      (tries : E.Tries) (init : E.storage.Db → E.storage.Db) (caches : Caches E)
      → IsCommitted G config block g db
      → uint64 config.mive.genesis_block ≡ uint64 block.number
      → block.hash ≢ zero_hash
      → E.header_lru.entry caches.headers block.hash ≡ none
      → E.number_lru.entry caches.numbers block.hash ≡ none
      → (bc : BlockChain E) × (new_block_chain G init caches
            (returned G config block.hash none db tries)
          ≡ created bc)
        × IsOpened g bc
  unfolding new_block_chain
  new_block_chain-IsOpened config block g db tries init caches c at set no_header no_number =
      let number = uint64 config.mive.genesis_block in
      let e : number ≡ number_u64 g = at ∙ sym (ap uint64 c.number) in
      let same : uint64 block.number ≡ number_u64 g = sym (ap uint64 c.number) in
      let own : g.hash ≢ zero_hash = λ z. set (sym c.hash ∙ z) in
      let canonical = ap (E.storage.read_canonical_hash db) at ∙ c.canonical ∙ sym c.hash in
      let (hc, made, _, head, k) =
        new_header_chain-Knows headers numbers g db number e own canonical caches.headers
          caches.numbers (c.head_block ∙ sym c.hash)
          (λ hc d h n.
            committed-Knows G config block g db c hc d (rw (h, c.hash) no_header)
              (rw (n, c.hash) no_number)) in
      let (bc, opened, at_genesis) =
        with_header_chain-IsOpened headers numbers g db number e own canonical init caches tries
          config.mive.genesis_block hc refl head k in
      (bc, rw (new_block_chain, made) opened, at_genesis)
