-- ===== src/Core/BlockChain/Rewind/Updated.antt =====
-- core/blockchain.go: the head block that `updateFn` leaves.
use mive.Base.{
  ℕ, ◌≤◌, ◌<◌, ◌≡◌, refl, ◌⊎◌, true, none, some, Option, List, [], ◌∷◌, arith, ap, sym, subst, ◌∙◌,
}
use mive.Core.Types.{zero_hash, Header, number_u64}
use mive.Core.Lru.{IsLru}
use mive.Core.Rawdb.{Write, write_head_block_hash}
use mive.Core.Rawdb.Accessors.{read_header}
use mive.Core.HeaderChain.WellFormed.{IsSound, IsCoherent}
use mive.Core.HeaderChain.Rewind.{Update}
use mive.Core.BlockChain.{Env, Headers, BlockChain}
use mive.Core.BlockChain.Reader.{get_header}
use mive.Core.BlockChain.Rewind.{
  Closure, find_head, move_head, move_snap_head, report_head, finish_update, update_fn,
}
use mive.Core.BlockChain.Rewind.Stateful.{IsRecovery, find_head-IsFound}

-- The callback has moved the head block to `block`, not above the number `n` unless it is the genesis
-- block. The block has a state or is the genesis block; it is reported, and its hash is written first.
pub record IsMoved (E : Env) (genesis : Header) (n : ℕ)
    (u : Update E.storage E.header_lru E.number_lru (Closure E)) : Type 0 where
  pub block : Header
  pub fine : u.closure.failure ≡ none
  pub current : u.closure.chain.current_block ≡ some block
  pub stateful : (E.has_state u.closure.chain.tries block.root ≡ true) ⊎ (block ≡ genesis)
  pub below : (block.number ≤ n) ⊎ (block ≡ genesis)
  pub reported : u.new_head ≡ block
  pub written : (ws : List Write) × (u.writes ≡ write_head_block_hash block.hash ∷ ws)

module _ {E : Env} where
  move_snap_head-keeps :
      (bc : BlockChain E) (header : Header)
      → let bc' = (move_snap_head bc header).0 in
        (bc'.current_block ≡ bc.current_block) × (bc'.tries ≡ bc.tries)
  unfolding move_snap_head get_header
  move_snap_head-keeps bc header = ground arith

  report_head-some :
      (pivot : Option ℕ) (frozen : ℕ) (c : Closure E) (header block : Header) (ws : List Write)
      → c.chain.current_block ≡ some block
      → let u = report_head pivot frozen c header ws in
        (u.closure ≡ c) × (u.new_head ≡ block) × (u.writes ≡ ws)
  unfolding report_head
  report_head-some pivot frozen c header block ws at = ground arith

  -- The rest of the callback keeps the head block.
  finish_update-IsMoved :
      (genesis : Header) (n : ℕ) (pivot : Option ℕ) (frozen : ℕ) (header block : Header)
      (moved : BlockChain E) (root_number : ℕ)
      → moved.current_block ≡ some block
      → (E.has_state moved.tries block.root ≡ true) ⊎ (block ≡ genesis)
      → (block.number ≤ n) ⊎ (block ≡ genesis)
      → IsMoved E genesis n (
          finish_update pivot frozen header
            (moved, write_head_block_hash block.hash ∷ [], root_number, none))
  unfolding finish_update
  finish_update-IsMoved genesis n pivot frozen header block moved root_number at state below =
      let (snapped, ws) = move_snap_head moved header in
      let kept = move_snap_head-keeps moved header in
      let c : Closure E = record { chain = snapped; root_number = root_number; failure = none } in
      let told =
        report_head-some pivot frozen c header block (write_head_block_hash block.hash ∷ ws)
          (kept.0 ∙ at) in
      record {
        block = block;
        fine = ap (λ (k : Closure E). k.failure) told.0;
        current = ap (λ (k : Closure E). k.chain.current_block) told.0 ∙ kept.0 ∙ at;
        stateful =
            subst (λ (t : E.Tries). (E.has_state t block.root ≡ true) ⊎ (block ≡ genesis))
              (sym (ap (λ (k : Closure E). k.chain.tries) told.0 ∙ kept.1)) state;
        below = below;
        reported = told.1;
        written = (ws, told.2);
      }

  -- The head block moves to the block that the search finds.
  move_head-found :
      (fuel : ℕ) (bc : BlockChain E) (pivot : Option ℕ) (root_number : ℕ) (header current : Header)
      → bc.current_block ≡ some current
      → number_u64 header ≤ number_u64 current
      → let (bc', s, error) = find_head fuel bc zero_hash pivot root_number header in
        error ≡ none
        → move_head fuel bc zero_hash pivot root_number header ≡ (
          record bc' { current_block = some s.block },
          write_head_block_hash s.block.hash ∷ [],
          s.root_number,
          none,
        )
  unfolding move_head
  move_head-found fuel bc pivot root_number header current at le fine = ground arith

module _ {E : Env} (lru : IsLru E.header_lru) (recovery : IsRecovery E) {g : ℕ} where
  -- `updateFn` without a threshold root, for a header at or below the head block. The database is sound, the
  -- caches coherent, the hash of the header is stored under no number above its own, recoverable states can be
  -- recovered, no call has failed before, and the fuel exceeds the number of the header. Then the callback
  -- comes to an end without an error and moves the head to a block at or below the header that has a state,
  -- or to the genesis block; it reports that block and writes its hash first.
  pub update_fn-IsMoved :
      (fuel : ℕ) (pivot : Option ℕ) (frozen : ℕ) (hc : Headers E) (c : Closure E)
      (header current : Header)
      → IsSound E.storage g hc.chain_db
      → IsCoherent hc
      → ((h : Header) (n : ℕ)
          → read_header E.storage hc.chain_db header.hash n ≡ some h
          → n ≤ header.number)
      → header.number < fuel
      → c.failure ≡ none
      → c.chain.current_block ≡ some current
      → number_u64 header ≤ number_u64 current
      → IsMoved E c.chain.genesis_header header.number
          (update_fn fuel zero_hash pivot frozen hc c header)
  unfolding update_fn
  update_fn-IsMoved fuel pivot frozen hc c header current sound coherent unique enough going at le =
      let bc : BlockChain E = record c.chain { hc = hc } in
      let found =
        find_head-IsFound lru recovery {g = g} fuel bc pivot header sound coherent unique enough
          c.root_number in
      let (bc', s, error) = find_head fuel bc zero_hash pivot c.root_number header in
      let moves = move_head-found fuel bc pivot c.root_number header current at le found.fine in
      rw (update_fn, going, moves)
        (finish_update-IsMoved c.chain.genesis_header header.number pivot frozen header s.block
          (record bc' { current_block = some s.block }) s.root_number refl found.stateful
          found.below)
