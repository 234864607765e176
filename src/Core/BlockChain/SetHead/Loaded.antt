-- ===== src/Core/BlockChain/SetHead/Loaded.antt =====
-- core/blockchain.go: the head block that `loadLastState` leaves, when it does not reset the chain.
use mive.Base.{
  ℕ, ◌≡◌, ◌≢◌, ◌∙◌, ap, sym, inl, inr, false, none, some, Option, List, ◌∷◌, arith, Option-cases,
  Bool-cases, ◌==◌,
}
use mive.Core.Types.{Hash, zero_hash, Header, number_u64}
use mive.Core.Lru.{IsLru}
use mive.Core.Rawdb.Accessors.{read_header}
use mive.Core.HeaderChain.{Error, get_block_number, get_header_by_hash, get_header}
use mive.Core.BlockChain.{Env, BlockChain, Mutex, held, put, set_finalized, set_safe}
use mive.Core.BlockChain.Reader.{get_block, get_block_by_hash}
use mive.Core.BlockChain.Reader
use mive.Core.BlockChain.SetHead.{
  marked, load_head_header, load_snap_block, load_finalized, load_markers, load_last_state,
  drop_markers, announce_head,
}
use mive.Core.BlockChain.SetHead.Purged.{IsPurged, lookup-stored}

-- The head block of the chain is the one that the database marks and stores.
pub record IsLoaded {E : Env} (bc : BlockChain E) : Type 0 where
  pub header : Header
  pub number : ℕ
  pub current : bc.current_block ≡ some header
  pub set : E.storage.read_head_block_hash bc.hc.chain_db ≢ zero_hash
  pub known :
      E.storage.read_header_number bc.hc.chain_db (E.storage.read_head_block_hash bc.hc.chain_db)
      ≡ some number
  pub stored :
      read_header E.storage bc.hc.chain_db (E.storage.read_head_block_hash bc.hc.chain_db) number
      ≡ some header

module _ {E : Env} where
  -- What the markers that are loaded leave alone.
  abbrev pub core : BlockChain E → E.storage.Db × Option Header × Mutex × List E.Block
  core bc = (bc.hc.chain_db, bc.current_block, bc.mutex, bc.chain_head_events)

  marked-core : (bc : BlockChain E) (h : Hash) → core (marked bc h).1 ≡ core bc
  unfolding marked Reader.get_header_by_hash get_header_by_hash get_block_number get_header
  marked-core bc h = ground arith

  load_head_header-core :
      (bc : BlockChain E) (header : Header) (h : Hash)
      → core (load_head_header bc header h) ≡ core bc
  unfolding load_head_header
  load_head_header-core bc header h = marked-core bc h

  load_snap_block-core : (bc : BlockChain E) (h : Hash) → core (load_snap_block bc h) ≡ core bc
  unfolding load_snap_block
  load_snap_block-core bc h = elim (Option-cases (marked bc h).0) [
    | inl unknown ↦ rw (load_snap_block, unknown) (marked-core bc h)
    | inr (header, found) ↦ rw (load_snap_block, found) (marked-core bc h)
  ]

  load_finalized-core : (bc : BlockChain E) (h : Hash) → core (load_finalized bc h) ≡ core bc
  unfolding load_finalized
  load_finalized-core bc h = elim (Option-cases (marked bc h).0) [
    | inl unknown ↦ rw (load_finalized, unknown) (marked-core bc h)
    | inr (header, found) ↦ rw (load_finalized, found) (marked-core bc h)
  ]

  load_markers-core :
      (bc : BlockChain E) (header : Header)
      → core (load_markers bc header)
        ≡ (bc.hc.chain_db, some header, bc.mutex, bc.chain_head_events)
  unfolding load_markers
  load_markers-core bc header =
      load_finalized-core _ _ ∙ load_snap_block-core _ _ ∙ load_head_header-core _ _ _

  -- Looking up the head block changes caches only.
  get_block_by_hash-hc :
      (bc : BlockChain E) (h : Hash)
      → let bc' = (get_block_by_hash bc h).1 in
        (bc'.hc ≡ (get_block_number bc.hc h).1)
        × (bc'.mutex ≡ bc.mutex)
        × (bc'.chain_head_events ≡ bc.chain_head_events)
  unfolding get_block_by_hash get_block
  get_block_by_hash-hc bc h = ground arith

  get_block_by_hash-number :
      (bc : BlockChain E) (h : Hash) {b : E.Block}
      → (get_block_by_hash bc h).0 ≡ some b
      → (n : ℕ) × ((get_block_number bc.hc h).0 ≡ some n)
  unfolding get_block_by_hash
  get_block_by_hash-number bc h found = elim (Option-cases (get_block_number bc.hc h).0) [
    | inl unknown ↦ absurd (ground (arith, unknown))
    | inr (n, known) ↦ (n, known)
  ]

  pub drop_markers-hc :
      (bc : BlockChain E) (head : ℕ)
      → let bc' = (drop_markers bc head).0 in
        (bc'.hc.number_cache ≡ bc.hc.number_cache)
        × (bc'.hc.header_cache ≡ bc.hc.header_cache)
        × (bc'.chain_head_events ≡ bc.chain_head_events)
  unfolding drop_markers set_finalized set_safe put
  drop_markers-hc bc head = ground arith

  get_block-core : (bc : BlockChain E) (h : Hash) (n : ℕ) → core (get_block bc h n).1 ≡ core bc
  unfolding get_block
  get_block-core bc h n = ground arith

  -- A head that is announced adds one event.
  pub announce_head-core :
      (bc : BlockChain E)
      → (announce_head bc).1 ≡ none
      → (b : E.Block) × (core (announce_head bc).0
          ≡ (bc.hc.chain_db, bc.current_block, bc.mutex, b ∷ bc.chain_head_events))
  unfolding announce_head
  announce_head-core bc fine = elim (Option-cases bc.current_block) [
    | inl unloaded ↦ absurd (ground (arith, unloaded))
    | inr (header, current) ↦
        let kept = get_block-core bc header.hash (number_u64 header) in
        elim (Option-cases (get_block bc header.hash (number_u64 header)).0) [
          | inl missing ↦ absurd (ground (arith, current, missing))
          | inr (b, found) ↦ (
            b,
            rw (announce_head, current, found)
                (ap
                    (λ (c : E.storage.Db × Option Header × Mutex × List E.Block).
                      (c.0, c.1, c.2, b ∷ c.3))
                    kept
                  ∙ ap
                      (λ (h : Option Header).
                        (bc.hc.chain_db, h, bc.mutex, b ∷ bc.chain_head_events))
                      current),
          )
        ]
  ]

  get_header_by_hash-core :
      (bc : BlockChain E) (h : Hash) → core (Reader.get_header_by_hash bc h).1 ≡ core bc
  unfolding Reader.get_header_by_hash get_header_by_hash get_block_number get_header
  get_header_by_hash-core bc h = ground arith

  get_block_by_hash-core :
      (bc : BlockChain E) (h : Hash) → core (get_block_by_hash bc h).1 ≡ core bc
  unfolding get_block_by_hash get_block get_block_number
  get_block_by_hash-core bc h = ground arith

  -- A chain over a database whose marked head block is stored, with that block as its own.
  pub over-IsLoaded :
      (bc : BlockChain E) (db : E.storage.Db) (h : Header) (n : ℕ)
      → bc.hc.chain_db ≡ db
      → bc.current_block ≡ some h
      → (E.storage.read_head_block_hash db == zero_hash) ≡ false
      → E.storage.read_header_number db (E.storage.read_head_block_hash db) ≡ some n
      → read_header E.storage db (E.storage.read_head_block_hash db) n ≡ some h
      → IsLoaded bc
  over-IsLoaded bc db h n over current set known stored = record {
    header = h;
    number = n;
    current = current;
    set = λ z. ground (arith, over, set, z);
    known = rw over known;
    stored = rw over stored;
  }

  -- Other parts of the chain do not matter.
  pub core-IsLoaded :
      (bc bc' : BlockChain E)
      → bc'.hc.chain_db ≡ bc.hc.chain_db
      → bc'.current_block ≡ bc.current_block
      → IsLoaded bc
      → IsLoaded bc'
  core-IsLoaded bc bc' db current l = record {
    header = l.header;
    number = l.number;
    current = current ∙ l.current;
    set = λ z. l.set (ap E.storage.read_head_block_hash (sym db) ∙ z);
    known = rw db l.known;
    stored = rw db l.stored;
  }

  module _ (headers : IsLru E.header_lru) (numbers : IsLru E.number_lru) where
    -- The state that is loaded without a reset.
    pub load_last_state-IsLoaded :
        (reset : BlockChain E → BlockChain E × Option Error) (bc : BlockChain E)
        → ((b : BlockChain E) → b.mutex ≡ held → (reset b).1 ≢ none)
        → IsPurged bc.hc
        → bc.mutex ≡ held
        → (load_last_state reset bc).1 ≡ none
        → IsLoaded (load_last_state reset bc).0
          × ((load_last_state reset bc).0.chain_head_events ≡ bc.chain_head_events)
    unfolding load_last_state Reader.get_header_by_hash
    load_last_state-IsLoaded reset bc waits purged locked fine =
        let head = E.storage.read_head_block_hash bc.hc.chain_db in
        let bc' = (get_block_by_hash bc head).1 in
        let (hc, mutex, events) = get_block_by_hash-hc bc head in
        elim (Bool-cases (head == zero_hash)) [
          | inl unset ↦ absurd (waits bc locked (ground (arith, unset)))
          | inr set ↦ elim (Option-cases (get_block_by_hash bc head).0) [
            | inl missing ↦ absurd (waits bc' (mutex ∙ locked) (ground (arith, set, missing)))
            | inr (b, got) ↦ elim (Option-cases (Reader.get_header_by_hash bc' head).0) [
              | inl unknown ↦ absurd (ground (arith, set, got, unknown))
              | inr (h, found) ↦
                  let (n, number) = get_block_by_hash-number bc head got in
                  let (known, stored) =
                    lookup-stored headers numbers bc.hc head n h purged number
                      (ap (λ c. (get_header_by_hash c head).0) (sym hc) ∙ found) in
                  let kept =
                    load_markers-core (Reader.get_header_by_hash bc' head).1 h
                    ∙ ap
                        (λ (c : E.storage.Db × Option Header × Mutex × List E.Block).
                          (c.0, some h, c.2, c.3))
                        (get_header_by_hash-core bc' head ∙ get_block_by_hash-core bc head) in
                  rw (load_last_state, set, got, found)
                    (
                      over-IsLoaded _ bc.hc.chain_db h n (ap (λ c. c.0) kept) (ap (λ c. c.1) kept)
                          set known stored,
                      ap (λ c. c.3) kept,
                    )
            ]
          ]
        ]
