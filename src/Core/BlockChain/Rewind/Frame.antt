-- ===== src/Core/BlockChain/Rewind/Frame.antt =====
-- core/blockchain.go: what the callbacks of `setHeadBeyondRoot` leave alone.
use mive.Base.{
  ℕ, zero, suc, ◌≡◌, refl, ◌∙◌, none, some, Option, List, arith, Option-cases, Bool-cases, inl, inr,
  sub64, ◌||◌, ◌==◌, not, ◌&&◌,
}
use mive.Core.Types.{Hash, Header, number_u64}
use mive.Core.Rawdb.{Write}
use mive.Core.HeaderChain.{Error}
use mive.Core.BlockChain.{Env, Headers, BlockChain, Mutex}
use mive.Core.BlockChain.Reader.{get_header, has_state, state_recoverable}
use mive.Core.BlockChain.Rewind.{
  Search, Closure, is_above, cross_root, recover_state, settle, find_round, find_state, find_head,
  move_head, move_snap_head, report_head, finish_update, update_fn, del_fn,
}

module _ {E : Env} where
  -- The lock, the genesis header, the finalized and the safe block, the events and the blocks in the cache.
  abbrev pub frame :
      BlockChain E
      → Mutex × Header × Option Header × Option Header × List E.Block × E.block_lru.Cache
  frame bc = (
    bc.mutex, bc.genesis_header, bc.current_final_block, bc.current_safe_block,
    bc.chain_head_events, bc.block_cache,
  )

  recover_state-frame : (bc : BlockChain E) (s : Search) → frame (recover_state bc s).0 ≡ frame bc
  unfolding recover_state
  recover_state-frame bc s = ground arith

  module _ (next : BlockChain E → Search → BlockChain E × Search × Option Error)
      (kept : (bc : BlockChain E) (s : Search) → frame (next bc s).0 ≡ frame bc) where
    settle-frame : (bc : BlockChain E) (s : Search) → frame (settle next bc s).0 ≡ frame bc
    unfolding settle get_header
    settle-frame bc s =
        let (parent, bc') = get_header bc s.block.parent_hash (sub64 (number_u64 s.block) 1) in
        elim (Bool-cases (s.beyond_root || number_u64 s.block == number_u64 bc.genesis_header)) [
          | inl ends ↦ rw (settle, ends) (recover_state-frame bc s)
          | inr further ↦ elim (Option-cases parent) [
            | inl unknown ↦ rw (settle, further, unknown)
            | inr (p, found) ↦ rw (settle, further, found) (kept bc' (record s { block = p }))
          ]
        ]

    find_round-frame :
        (bc : BlockChain E) (pivot : Option ℕ) (s : Search)
        → frame (find_round next bc pivot s).0 ≡ frame bc
    unfolding find_round get_header
    find_round-frame bc pivot s =
        let (parent, bc') = get_header bc s.block.parent_hash (sub64 (number_u64 s.block) 1) in
        let at_genesis : Search = record s { block = bc.genesis_header } in
        elim (Bool-cases
          (not (has_state bc s.block.root) && not (state_recoverable bc s.block.root))) [
            | inr there ↦ rw (find_round, there) (settle-frame bc s)
            | inl missing ↦ elim (Bool-cases (is_above pivot s.block)) [
              | inr below ↦ rw (find_round, missing, below) (settle-frame bc at_genesis)
              | inl above ↦ elim (Option-cases parent) [
                | inl unknown ↦
                    rw (find_round, missing, above, unknown) (settle-frame bc' at_genesis)
                | inr (p, found) ↦
                    rw (find_round, missing, above, found) (kept bc' (record s { block = p }))
              ]
            ]
          ]

  find_state-frame :
      (fuel : ℕ) (bc : BlockChain E) (root : Hash) (pivot : Option ℕ) (s : Search)
      → frame (find_state fuel bc root pivot s).0 ≡ frame bc
  unfolding find_state
  find_state-frame zero bc root pivot s = refl
  find_state-frame (suc fuel) bc root pivot s =
      find_round-frame (λ c t. find_state fuel c root pivot t)
        (λ c t. find_state-frame fuel c root pivot t) bc pivot (cross_root root s)

  find_head-frame :
      (fuel : ℕ) (bc : BlockChain E) (root : Hash) (pivot : Option ℕ) (n : ℕ) (header : Header)
      → frame (find_head fuel bc root pivot n header).0 ≡ frame bc
  unfolding find_head get_header
  find_head-frame fuel bc root pivot n header =
      elim (Option-cases (get_header bc header.hash (number_u64 header)).0) [
        | inl unknown ↦ rw (find_head, unknown)
        | inr (h, found) ↦ rw (find_head, found) (find_state-frame fuel _ root pivot _)
      ]

  move_head-frame :
      (fuel : ℕ) (bc : BlockChain E) (root : Hash) (pivot : Option ℕ) (n : ℕ) (header : Header)
      → frame (move_head fuel bc root pivot n header).0 ≡ frame bc
  unfolding move_head
  move_head-frame fuel bc root pivot n header =
      ground (arith, find_head-frame fuel bc root pivot n header)

  move_snap_head-frame :
      (bc : BlockChain E) (header : Header) → frame (move_snap_head bc header).0 ≡ frame bc
  unfolding move_snap_head get_header
  move_snap_head-frame bc header = ground arith

  report_head-frame :
      (pivot : Option ℕ) (frozen : ℕ) (c : Closure E) (header : Header) (ws : List Write)
      → frame (report_head pivot frozen c header ws).closure.chain ≡ frame c.chain
  unfolding report_head
  report_head-frame pivot frozen c header ws = ground arith

  finish_update-frame :
      (pivot : Option ℕ) (frozen : ℕ) (header : Header)
      (r : BlockChain E × List Write × ℕ × Option Error)
      → frame (finish_update pivot frozen header r).closure.chain ≡ frame r.0
  unfolding finish_update
  finish_update-frame pivot frozen header (moved, ws, n, none) =
      report_head-frame pivot frozen _ header _ ∙ move_snap_head-frame moved header
  finish_update-frame pivot frozen header (moved, ws, n, some e) = refl

  pub update_fn-frame :
      (fuel : ℕ) (root : Hash) (pivot : Option ℕ) (frozen : ℕ) (hc : Headers E) (c : Closure E)
      (header : Header)
      → frame (update_fn fuel root pivot frozen hc c header).closure.chain ≡ frame c.chain
  unfolding update_fn
  update_fn-frame fuel root pivot frozen hc c header = elim (Option-cases c.failure) [
    | inr (e, failed) ↦ rw (update_fn, failed)
    | inl going ↦
        rw (update_fn, going)
          (finish_update-frame pivot frozen header _
            ∙ move_head-frame fuel (record c.chain { hc = hc }) root pivot c.root_number header)
  ]

  pub del_fn-frame :
      (hc : Headers E) (c : Closure E) (hash : Hash) (num : ℕ)
      → frame (del_fn hc c hash num).1.chain ≡ frame c.chain
  unfolding del_fn
  del_fn-frame hc c hash num = ground arith
