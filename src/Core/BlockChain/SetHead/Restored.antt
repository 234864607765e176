-- ===== src/Core/BlockChain/SetHead/Restored.antt =====
-- core/blockchain.go: `loadLastState` after `writeHeadBlock`, in a process that starts anew.
use mive.Base.{
  ◌≡◌, refl, ◌≢◌, ◌∙◌, ap, sym, subst, false, none, some, Option, arith, Option-cases, Bool-cases,
  inl, inr, ◌==◌, ==_iff,
}
use mive.Core.Types.{Hash, zero_hash, Header, number_u64}
use mive.Core.Lru.{IsLru}
use mive.Core.Rawdb.Accessors.{read_header}
use mive.Core.Rawdb.Effects.{IsStorage, number_after}
use mive.Core.HeaderChain.{Error, set_current_header}
use mive.Core.HeaderChain
use mive.Core.BlockChain.{Env, BlockChain, write_head_block}
use mive.Core.BlockChain.Known.{
  current_header-get_header_by_hash, Knows, get_block_number-Knows, get_header_by_hash-Knows,
}
use mive.Core.BlockChain.Reader.{get_header_by_hash, get_block, get_block_by_hash}
use mive.Core.BlockChain.SetHead.{
  marked, load_head_header, load_snap_block, load_finalized, load_markers, load_last_state,
}
use mive.Core.BlockChain.SetHead.Restart.{
  head_writes, head_writes-IsHead, write_head_block_lem, read_header-head_writes,
}

module _ {E : Env} (headers : IsLru E.header_lru) (numbers : IsLru E.number_lru) (g : Header)
    (db : E.storage.Db) where
  get_header_by_hash-here :
      (bc : BlockChain E)
      → Knows E g db bc.hc
      → ((get_header_by_hash bc g.hash).0 ≡ some g)
        × Knows E g db (get_header_by_hash bc g.hash).1.hc
  unfolding get_header_by_hash
  get_header_by_hash-here bc k = get_header_by_hash-Knows headers numbers g db bc.hc k

  -- A marker with the hash of the header is that header.
  marked-Knows :
      (bc : BlockChain E) (hash : Hash)
      → hash ≡ g.hash
      → g.hash ≢ zero_hash
      → Knows E g db bc.hc
      → ((marked bc hash).0 ≡ some g) × Knows E g db (marked bc hash).1.hc
  unfolding marked
  marked-Knows bc hash e set k =
      let (found, k') = get_header_by_hash-here bc k in
      let test : (g.hash == zero_hash) ≡ false = ground arith in
      (rw (e, marked, test) found, rw (e, marked, test) k')

module _ {E : Env} where
  -- The head markers are at the header.
  pub record IsAt (g : Header) (bc : BlockChain E) : Type 0 where
    pub current : bc.current_block ≡ some g
    pub snap : bc.current_snap_block ≡ some g
    pub head : bc.hc.current_header ≡ g

  -- Looking a marker up changes caches only.
  marked-keeps :
      (bc : BlockChain E) (h : Hash)
      → let bc' = (marked bc h).1 in
        (bc'.current_block ≡ bc.current_block)
        × (bc'.current_snap_block ≡ bc.current_snap_block)
        × (bc'.hc.current_header ≡ bc.hc.current_header)
  unfolding marked get_header_by_hash
  marked-keeps bc h = elim (Bool-cases (h == zero_hash)) [
    | inl unset ↦ rw (marked, unset) (refl, refl, refl)
    | inr set ↦ rw (marked, set) (refl, refl, current_header-get_header_by_hash bc.hc h)
  ]

  load_finalized-IsAt :
      (g : Header) (bc : BlockChain E) (h : Hash) → IsAt g bc → IsAt g (load_finalized bc h)
  unfolding load_finalized
  load_finalized-IsAt g bc h at =
      let kept = marked-keeps bc h in
      let at' : IsAt g (marked bc h).1 = record {
        current = kept.0 ∙ at.current;
        snap = kept.1 ∙ at.snap;
        head = kept.2 ∙ at.head;
      } in
      elim (Option-cases (marked bc h).0) [
        | inl unknown ↦ rw (load_finalized, unknown) at'
        | inr (header, found) ↦
            rw (load_finalized, found)
              (record { current = at'.current; snap = at'.snap; head = at'.head })
      ]

module _ {E : Env} (headers : IsLru E.header_lru) (numbers : IsLru E.number_lru) (g : Header)
    (set : g.hash ≢ zero_hash) (db : E.storage.Db) where
  load_head_header-IsAt :
      (bc : BlockChain E) (hash : Hash)
      → hash ≡ g.hash
      → Knows E g db bc.hc
      → bc.current_block ≡ some g
      → bc.current_snap_block ≡ some g
      → IsAt g (load_head_header bc g hash) × Knows E g db (load_head_header bc g hash).hc
  unfolding load_head_header
  load_head_header-IsAt bc hash e k current snap =
      let (found, k') = marked-Knows headers numbers g db bc hash e set k in
      let kept = marked-keeps bc hash in
      (
        record {
          current = kept.0 ∙ current;
          snap = kept.1 ∙ snap;
          head = rw (load_head_header, found);
        },
        record {
          same = k'.same;
          number = k'.number;
          stored = k'.stored;
          cached_number = k'.cached_number;
          cached_header = k'.cached_header;
        },
      )

  load_snap_block-IsAt :
      (bc : BlockChain E) (hash : Hash)
      → hash ≡ g.hash
      → Knows E g db bc.hc
      → IsAt g bc
      → IsAt g (load_snap_block bc hash)
  unfolding load_snap_block
  load_snap_block-IsAt bc hash e k at =
      let (found, k') = marked-Knows headers numbers g db bc hash e set k in
      let kept = marked-keeps bc hash in
      rw (load_snap_block, found)
        (record { current = kept.0 ∙ at.current; snap = refl; head = kept.2 ∙ at.head })

  load_markers-IsAt :
      (bc : BlockChain E)
      → E.storage.read_head_header_hash db ≡ g.hash
      → E.storage.read_head_fast_block_hash db ≡ g.hash
      → Knows E g db bc.hc
      → IsAt g (load_markers bc g)
  unfolding load_markers
  load_markers-IsAt bc head fast k =
      let headed : BlockChain E = record bc {
        current_block = some g;
        current_snap_block = some g;
      } in
      let (at, k') =
        load_head_header-IsAt headed _ (ap E.storage.read_head_header_hash k.same ∙ head) k refl
          refl in
      load_finalized-IsAt g _ _
        (load_snap_block-IsAt _ _ (ap E.storage.read_head_fast_block_hash k.same ∙ fast) k' at)

  -- The block of the header is found with the client.
  get_block-some :
      (blocks : IsLru E.block_lru) (bc : BlockChain E) (b : E.Block)
      → E.block_lru.entry bc.block_cache g.hash ≡ none
      → E.block_by_hash g.hash ≡ some b
      → E.block_number b ≡ number_u64 g
      → ((get_block bc g.hash (number_u64 g)).0 ≡ some b)
        × ((get_block bc g.hash (number_u64 g)).1.hc ≡ bc.hc)
  unfolding get_block
  get_block-some blocks bc b uncached answer number =
      let miss = blocks.get-entry bc.block_cache g.hash ∙ uncached in
      let same = (==_iff (E.block_number b) (number_u64 g)).1 number in
      (rw (get_block, miss, answer, same), rw (get_block, miss, answer, same))

  get_block_by_hash-some :
      (blocks : IsLru E.block_lru) (bc : BlockChain E) (b : E.Block)
      → Knows E g db bc.hc
      → E.block_lru.entry bc.block_cache g.hash ≡ none
      → E.block_by_hash g.hash ≡ some b
      → E.block_number b ≡ number_u64 g
      → ((get_block_by_hash bc g.hash).0 ≡ some b) × Knows E g db (get_block_by_hash bc g.hash).1.hc
  unfolding get_block_by_hash
  get_block_by_hash-some blocks bc b k uncached answer number =
      let (known, k') = get_block_number-Knows headers numbers g db bc.hc k in
      let bc' : BlockChain E = record bc { hc = (HeaderChain.get_block_number bc.hc g.hash).1 } in
      let (got, kept) = get_block-some blocks bc' b uncached answer number in
      (
        rw (get_block_by_hash, known) got,
        rw (get_block_by_hash, known) (subst (Knows E g db) (sym kept) k'),
      )

  load_last_state-IsAt :
      (blocks : IsLru E.block_lru) (reset : BlockChain E → BlockChain E × Option Error)
      (bc : BlockChain E) (b : E.Block)
      → E.storage.read_head_block_hash db ≡ g.hash
      → E.storage.read_head_header_hash db ≡ g.hash
      → E.storage.read_head_fast_block_hash db ≡ g.hash
      → Knows E g db bc.hc
      → E.block_lru.entry bc.block_cache g.hash ≡ none
      → E.block_by_hash g.hash ≡ some b
      → E.block_number b ≡ number_u64 g
      → ((load_last_state reset bc).1 ≡ none) × IsAt g (load_last_state reset bc).0
  unfolding load_last_state
  load_last_state-IsAt blocks reset bc b block head fast k uncached answer number =
      let e = ap E.storage.read_head_block_hash k.same ∙ block in
      let (got, k') = get_block_by_hash-some blocks bc b k uncached answer number in
      let (found, k'') =
        get_header_by_hash-here headers numbers g db (get_block_by_hash bc g.hash).1 k' in
      let test : (g.hash == zero_hash) ≡ false = ground arith in
      (
        rw (load_last_state, e, test, e, got, e, found),
        rw (load_last_state, e, test, e, got, e, found, e) (load_markers-IsAt _ head fast k''),
      )

module _ {E : Env} (laws : IsStorage E.storage) (headers : IsLru E.header_lru)
    (numbers : IsLru E.number_lru) (blocks : IsLru E.block_lru) where
  -- After a `writeHeadBlock` without an error of a header with a hash that is not zero, whose number and
  -- data are stored, `loadLastState` in a chain over the database that it leaves, whose caches hold nothing
  -- under that hash, restores the header as the current block, the snap block and the head header, without an
  -- error, if the client answers the hash with a block of that number.
  pub load_last_state-write_head_block :
      (g : Header) (reset : BlockChain E → BlockChain E × Option Error) (bc fresh : BlockChain E)
      (b : E.Block)
      → g.hash ≢ zero_hash
      → (write_head_block bc g).1 ≡ none
      → E.storage.read_header_number bc.hc.chain_db g.hash ≡ some (number_u64 g)
      → read_header E.storage bc.hc.chain_db g.hash (number_u64 g) ≡ some g
      → fresh.hc.chain_db ≡ (write_head_block bc g).0.hc.chain_db
      → E.number_lru.entry fresh.hc.number_cache g.hash ≡ none
      → E.header_lru.entry fresh.hc.header_cache g.hash ≡ none
      → E.block_lru.entry fresh.block_cache g.hash ≡ none
      → E.block_by_hash g.hash ≡ some b
      → E.block_number b ≡ number_u64 g
      → ((load_last_state reset fresh).1 ≡ none) × IsAt g (load_last_state reset fresh).0
  unfolding number_after
  load_last_state-write_head_block g reset bc fresh b set fine known stored over no_number no_header
        no_block answer number =
      let (db, done, same) = write_head_block_lem bc g fine in
      let old = bc.hc.chain_db in
      let ws = head_writes g in
      let at = head_writes-IsHead laws bc g done in
      let over' : fresh.hc.chain_db ≡ db =
        over ∙ ap (λ (r : BlockChain E × Option Error). r.0.hc.chain_db) same in
      let k : Knows E g db fresh.hc = record {
        same = over';
        number = rw over' (laws.read_header_number-commit ws old g.hash done ∙ known);
        stored = rw over' (read_header-head_writes laws old g g.hash (number_u64 g) done ∙ stored);
        cached_number = λ m hit. ground (arith, no_number);
        cached_header = λ h hit. ground (arith, no_header);
      } in
      load_last_state-IsAt headers numbers g set db blocks reset fresh b at.head_block
        at.head_header at.head_fast_block k no_block answer number
