-- ===== src/Core/BlockChain/SetHead/Restart.antt =====
-- core/blockchain.go: what `Reset` leaves.
use mive.Base.{
  ℕ, ◌≡◌, refl, ◌∙◌, ◌⊎◌, none, some, Option, List, [], ◌∷◌, arith, Option-cases, inl, inr, ==_iff,
}
use mive.Core.Types.{Hash, Header, number_u64}
use mive.Core.Rawdb.{
  Storage, Write, write_head_header_hash, write_head_fast_block_hash, write_canonical_hash,
  write_head_block_hash,
}
use mive.Core.Rawdb.Accessors.{read_header, write_header}
use mive.Core.Rawdb.Effects.{
  IsStorage, canonical_after, header_after, head_header_after, head_block_after,
  head_fast_block_after,
}
use mive.Core.HeaderChain.{Error, set_current_header}
use mive.Core.BlockChain.{
  Env, Headers, BlockChain, Mutex, free, held, closed, put, write_head_block,
}
use mive.Core.BlockChain.SetHead.{write_genesis, locked, reset_with_genesis_block, set_head, reset}

-- The writes of `writeHeadBlock`.
abbrev pub head_writes : Header → List Write
head_writes header =
    write_head_header_hash header.hash
    ∷ write_head_fast_block_hash header.hash
    ∷ write_canonical_hash header.hash (number_u64 header)
    ∷ write_head_block_hash header.hash
    ∷ []

read_header-write_header :
    {S : Storage} (laws : IsStorage S) (db : S.Db) {db' : S.Db} (g : Header)
    → S.commit (write_header S g) db ≡ some db'
    → read_header S db' g.hash (number_u64 g) ≡ some g
unfolding read_header write_header header_after
read_header-write_header {S} laws db g done = ground (
  arith,
  laws.read_header_rlp-commit (write_header S g) db g.hash (number_u64 g) done,
  laws.rlp_decode-encode g,
  laws.rlp_encode-ne-nil g,
)

-- `writeHeadBlock` leaves the stored headers alone.
pub read_header-head_writes :
    {S : Storage} (laws : IsStorage S) (old : S.Db) (g : Header) {db : S.Db} (h : Hash) (n : ℕ)
    → S.commit (head_writes g) old ≡ some db
    → read_header S db h n ≡ read_header S old h n
unfolding read_header header_after
read_header-head_writes laws old g h n done =
    rw (read_header, laws.read_header_rlp-commit (head_writes g) old h n done)

Mutex-cases : (m : Mutex) → (m ≡ free) ⊎ ((m ≡ held) ⊎ (m ≡ closed))
Mutex-cases free = inl refl
Mutex-cases held = inr (inl refl)
Mutex-cases closed = inr (inr refl)

module _ {E : Env} where
  -- All markers, in memory and in the database, are at the header, which is stored and canonical.
  pub record IsHead (g : Header) (bc : BlockChain E) : Type 0 where
    pub current : bc.current_block ≡ some g
    pub snap : bc.current_snap_block ≡ some g
    pub head : bc.hc.current_header ≡ g
    pub head_block : E.storage.read_head_block_hash bc.hc.chain_db ≡ g.hash
    pub head_header : E.storage.read_head_header_hash bc.hc.chain_db ≡ g.hash
    pub head_fast_block : E.storage.read_head_fast_block_hash bc.hc.chain_db ≡ g.hash
    pub canonical : E.storage.read_canonical_hash bc.hc.chain_db (number_u64 g) ≡ g.hash

  -- The same after a restart: the header is the genesis header of both chains, and it is stored.
  pub record IsRestarted (g : Header) (bc : BlockChain E) : Type 0 where
    pub at : IsHead g bc
    pub genesis : bc.genesis_header ≡ g
    pub first : bc.hc.genesis_header ≡ g
    pub stored : read_header E.storage bc.hc.chain_db g.hash (number_u64 g) ≡ some g

  IsHead-unlock :
      (g : Header) (bc : BlockChain E) → IsHead g bc → IsHead g (record bc { mutex = free })
  IsHead-unlock g bc at = record {
    current = at.current;
    snap = at.snap;
    head = at.head;
    head_block = at.head_block;
    head_header = at.head_header;
    head_fast_block = at.head_fast_block;
    canonical = at.canonical;
  }

  -- What is done under the lock without an error.
  locked-keeps :
      (body : BlockChain E → BlockChain E × Option Error) (P : BlockChain E → Type 0)
      → ((bc : BlockChain E) → (body bc).1 ≡ none → P (body bc).0)
      → ((bc : BlockChain E) → P bc → P (record bc { mutex = free }))
      → (bc : BlockChain E) → (locked body bc).1 ≡ none
      → P (locked body bc).0
  unfolding locked
  locked-keeps body P done unlocks bc fine = elim (Mutex-cases bc.mutex) [
    | inr (inl waits) ↦ absurd (ground (arith, waits))
    | inr (inr shut) ↦ absurd (ground (arith, shut))
    | inl unlocked ↦
        let entered : BlockChain E = record bc { mutex = held } in
        rw (locked, unlocked)
          (unlocks (body entered).0 (done entered (rw (locked, unlocked) at fine)))
  ]

  abbrev pub with_db : BlockChain E → E.storage.Db → BlockChain E
  with_db bc db = let hc : Headers E = record bc.hc { chain_db = db } in record bc { hc = hc }

  -- A write without an error.
  pub put_lem :
      (bc : BlockChain E) (ws : List Write)
      → (put bc ws).1 ≡ none
      → (db : E.storage.Db) × (E.storage.commit ws bc.hc.chain_db ≡ some db)
        × (put bc ws ≡ (with_db bc db, none))
  unfolding put
  put_lem bc ws fine = elim (Option-cases (E.storage.commit ws bc.hc.chain_db)) [
    | inl broken ↦ absurd (ground (arith, broken))
    | inr (db, done) ↦ (db, done, rw (put, done))
  ]

  abbrev pub at_head : BlockChain E → Header → BlockChain E
  at_head bc g = record bc {
    hc = set_current_header bc.hc g;
    current_snap_block = some g;
    current_block = some g;
  }

  -- `writeHeadBlock` without an error.
  pub write_head_block_lem :
      (bc : BlockChain E) (g : Header)
      → (write_head_block bc g).1 ≡ none
      → (db : E.storage.Db) × (E.storage.commit (head_writes g) bc.hc.chain_db ≡ some db)
        × (write_head_block bc g ≡ (at_head (with_db bc db) g, none))
  unfolding write_head_block
  write_head_block_lem bc g fine = elim (Option-cases (put bc (head_writes g)).1) [
    | inr (e, broken) ↦ absurd (ground (arith, broken))
    | inl wrote ↦
        let (db, done, same) = put_lem bc (head_writes g) wrote in
        (db, done, rw (write_head_block, same, same))
  ]

  module _ (laws : IsStorage E.storage) where
    pub head_writes-IsHead :
        (bc : BlockChain E) (g : Header) {db : E.storage.Db}
        → E.storage.commit (head_writes g) bc.hc.chain_db ≡ some db
        → IsHead g (at_head (with_db bc db) g)
    unfolding head_block_after head_header_after head_fast_block_after canonical_after
    head_writes-IsHead bc g done =
        let old = bc.hc.chain_db in
        let ws = head_writes g in
        record {
          current = refl;
          snap = refl;
          head = refl;
          head_block = laws.read_head_block_hash-commit ws old done;
          head_header = laws.read_head_header_hash-commit ws old done;
          head_fast_block = laws.read_head_fast_block_hash-commit ws old done;
          canonical =
              laws.read_canonical_hash-commit ws old (number_u64 g) done
              ∙ rw ((==_iff (number_u64 g) (number_u64 g)).1 refl);
        }

    -- The genesis header is written, and all markers stand at it.
    write_genesis-IsRestarted :
        (bc : BlockChain E) (g : Header)
        → (write_genesis bc g).1 ≡ none
        → IsRestarted g (write_genesis bc g).0
    unfolding write_genesis
    write_genesis-IsRestarted bc g fine =
        let ws = write_header E.storage g in
        elim (Option-cases (put bc ws).1) [
          | inr (e, broken) ↦ absurd (ground (arith, broken))
          | inl wrote ↦
              let (db, done, same) = put_lem bc ws wrote in
              let written = with_db bc db in
              elim (Option-cases (write_head_block written g).1) [
                | inr (e, broken) ↦ absurd (ground (arith, broken, same))
                | inl fine' ↦
                    let (db', done', same') = write_head_block_lem written g fine' in
                    let at = head_writes-IsHead written g done' in
                    rw (write_genesis, same, same, same', same, same')
                      (record {
                        at = record {
                          current = refl;
                          snap = refl;
                          head = refl;
                          head_block = at.head_block;
                          head_header = at.head_header;
                          head_fast_block = at.head_fast_block;
                          canonical = at.canonical;
                        };
                        genesis = refl;
                        first = refl;
                        stored =
                            read_header-head_writes laws db g g.hash (number_u64 g) done'
                            ∙ read_header-write_header laws bc.hc.chain_db g done;
                      })
              ]
        ]

    -- A `Reset` that succeeds, over a database that meets the laws, ends with the genesis header of the chain
    -- as the head, in memory and in the database, stored and canonical.
    pub reset-IsRestarted :
        (depth fuel : ℕ) (bc : BlockChain E)
        → (reset depth fuel bc).1 ≡ none
        → IsRestarted bc.genesis_header (reset depth fuel bc).0
    unfolding reset reset_with_genesis_block
    reset-IsRestarted depth fuel bc fine =
        let g = bc.genesis_header in
        let (b, error) = set_head depth fuel bc (number_u64 g) in
        elim (Option-cases error) [
          | inr (e, broken) ↦ absurd (ground (arith, broken))
          | inl rewound ↦
              rw (reset, reset_with_genesis_block, rewound)
                (locked-keeps (λ c. write_genesis c g) (IsRestarted g)
                  (λ c done. write_genesis-IsRestarted c g done)
                  (λ c r. record {
                    at = IsHead-unlock g c r.at;
                    genesis = r.genesis;
                    first = r.first;
                    stored = r.stored;
                  })
                  b (ground (arith, rewound)))
        ]
