-- ===== src/Core/BlockChain/SetHead/Unloaded.antt =====
-- core/blockchain.go: `SetHead` on a chain that has not loaded its last state, as `NewBlockChain` makes it.
use mive.Base.{ℕ, suc, ◌<◌, ◌≡◌, refl, none, some, Option, arith}
use mive.Core.Types.{Hash, zero_hash, Header, number_u64}
use mive.Core.HeaderChain.{nil_dereference}
use mive.Core.HeaderChain.Rewind.Kept.{set_head_to-after}
use mive.Core.BlockChain.{Env, Headers, BlockChain, free, held}
use mive.Core.BlockChain.Rewind.{
  Closure, move_head, move_snap_head, report_head, finish_update, update_fn, del_fn,
}
use mive.Core.BlockChain.SetHead.{
  callbacks, rewind_headers, rewind_locked, set_head_beyond_root, set_head,
}
use mive.Core.BlockChain.SetHead.Unavailable.{set_head_by-failed}

module _ {E : Env} where
  abbrev IsNil : Closure E → Type 0
  IsNil c = c.failure ≡ some nil_dereference

  update_fn-IsNil :
      (fuel : ℕ) (root : Hash) (pivot : Option ℕ) (frozen : ℕ) (hc : Headers E) (c : Closure E)
      (header : Header)
      → IsNil c
      → IsNil (update_fn fuel root pivot frozen hc c header).closure
  unfolding update_fn
  update_fn-IsNil fuel root pivot frozen hc c header failed = rw (update_fn, failed) failed

  del_fn-IsNil :
      (hc : Headers E) (c : Closure E) (hash : Hash) (num : ℕ)
      → IsNil c
      → IsNil (del_fn hc c hash num).1
  unfolding del_fn
  del_fn-IsNil hc c hash num failed = rw (del_fn, failed) failed

  -- With no head block and no head of the snap sync, the callback uses a nil pointer.
  update_fn-unloaded :
      (fuel : ℕ) (root : Hash) (pivot : Option ℕ) (frozen : ℕ) (hc : Headers E) (c : Closure E)
      (header : Header)
      → c.failure ≡ none
      → c.chain.current_block ≡ none
      → c.chain.current_snap_block ≡ none
      → IsNil (update_fn fuel root pivot frozen hc c header).closure
  unfolding update_fn move_head finish_update move_snap_head report_head
  update_fn-unloaded fuel root pivot frozen hc c header going unloaded unsynced = ground arith

  rewind_headers-unloaded :
      (fuel : ℕ) (bc : BlockChain E) (root : Hash) (head : ℕ)
      → bc.current_block ≡ none
      → bc.current_snap_block ≡ none
      → head < number_u64 bc.hc.current_header
      → (rewind_headers
          (suc fuel)
          bc
          (record { chain = bc; root_number = 0; failure = none })
          root
          (record { head_block = head; head_time = 0 })).2
        ≡ some nil_dereference
  unfolding rewind_headers callbacks
  rewind_headers-unloaded fuel bc root head unloaded unsynced below =
      let c : Closure E = record { chain = bc; root_number = 0; failure = none } in
      let failed =
        set_head_to-after
          (update_fn (suc fuel) root (E.storage.read_last_pivot_number bc.hc.chain_db)
            (E.storage.ancients bc.hc.chain_db))
          del_fn IsNil (λ hc d h p. update_fn-IsNil (suc fuel) root _ _ hc d h p)
          (λ hc d h n p. del_fn-IsNil hc d h n p) fuel bc.hc c head below
          (λ hc h. update_fn-unloaded (suc fuel) root _ _ hc c h refl unloaded unsynced) in
      ground (arith, failed)

  -- On a chain without a current block and a current snap block, as `NewBlockChain` makes it, a `SetHead`
  -- that finds the lock free, to a number below that of the head header, ends at a nil pointer.
  pub set_head-unloaded :
      (depth fuel : ℕ) (bc : BlockChain E) (head : ℕ)
      → bc.mutex ≡ free
      → bc.current_block ≡ none
      → bc.current_snap_block ≡ none
      → head < number_u64 bc.hc.current_header
      → (set_head (suc depth) (suc fuel) bc head).1 ≡ some nil_dereference
  unfolding set_head set_head_beyond_root rewind_locked
  set_head-unloaded depth fuel bc head unlocked unloaded unsynced below =
      let locked : BlockChain E = record bc { mutex = held } in
      set_head_by-failed _ bc _ (
        rw (
          set_head_beyond_root,
          unlocked,
          rewind_locked,
          rewind_headers-unloaded fuel locked zero_hash head unloaded unsynced below,
        ))
