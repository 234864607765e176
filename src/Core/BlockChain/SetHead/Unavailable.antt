-- ===== src/Core/BlockChain/SetHead/Unavailable.antt =====
-- core/blockchain.go: `SetHead` when the Ethereum client has no block.
use mive.Base.{
  ℕ, suc, ◌≡◌, refl, ◌∙◌, ap, false, none, some, Option, arith, Option-cases, Bool-cases, inl, inr,
  ◌==◌,
}
use mive.Core.Types.{Hash, zero_hash, Header, number_u64}
use mive.Core.Lru.{IsLru}
use mive.Core.HeaderChain.{Error, deadlock}
use mive.Core.HeaderChain
use mive.Core.HeaderChain.Rewind.{Target}
use mive.Core.HeaderChain.Rewind.Kept.{set_head_to-keeps}
use mive.Core.BlockChain.{Env, BlockChain, free, held, put, set_finalized, set_safe}
use mive.Core.BlockChain.Reader.{get_block, get_block_by_hash}
use mive.Core.BlockChain.Rewind.{Closure, update_fn, del_fn}
use mive.Core.BlockChain.Rewind.Frame.{frame, update_fn-frame, del_fn-frame}
use mive.Core.BlockChain.SetHead.{
  load_last_state, callbacks, rewind_headers, drop_markers, rewind_locked, set_head_by,
  reset_with_genesis_block, set_head_beyond_root, set_head,
}

module _ {E : Env} where
  pub rewind_headers-frame :
      (fuel : ℕ) (bc : BlockChain E) (c : Closure E) (root : Hash) (t : Target)
      → frame (rewind_headers fuel bc c root t).0 ≡ frame c.chain
  unfolding rewind_headers callbacks
  rewind_headers-frame fuel bc c root t =
      set_head_to-keeps
        (update_fn fuel root (E.storage.read_last_pivot_number bc.hc.chain_db)
          (E.storage.ancients bc.hc.chain_db))
        del_fn (λ d. frame d.chain ≡ frame c.chain)
        (λ hc d h p. update_fn-frame fuel root _ _ hc d h ∙ p)
        (λ hc d h n p. del_fn-frame hc d h n ∙ p) fuel bc.hc c t refl

  pub drop_markers-mutex :
      (bc : BlockChain E) (head : ℕ)
      → let bc' = (drop_markers bc head).0 in
        (bc'.mutex ≡ bc.mutex) × (bc'.block_cache ≡ E.block_lru.purge bc.block_cache)
  unfolding drop_markers set_finalized set_safe put
  drop_markers-mutex bc head = ground arith

  module _ (lru : IsLru E.block_lru) (offline : (h : Hash) → E.block_by_hash h ≡ none) where
    get_block-none :
        (bc : BlockChain E) (hash : Hash) (n : ℕ)
        → E.block_lru.entry bc.block_cache hash ≡ none
        → ((get_block bc hash n).0 ≡ none) × ((get_block bc hash n).1.mutex ≡ bc.mutex)
    unfolding get_block
    get_block-none bc hash n empty = ground (arith, lru.get-entry bc.block_cache hash, offline hash)

    get_block_by_hash-none :
        (bc : BlockChain E) (hash : Hash)
        → E.block_lru.entry bc.block_cache hash ≡ none
        → ((get_block_by_hash bc hash).0 ≡ none) × ((get_block_by_hash bc hash).1.mutex ≡ bc.mutex)
    unfolding get_block_by_hash
    get_block_by_hash-none bc hash empty =
        let (number, hc) = HeaderChain.get_block_number bc.hc hash in
        elim (Option-cases number) [
          | inl unknown ↦ (rw (get_block_by_hash, unknown), rw (get_block_by_hash, unknown))
          | inr (n, known) ↦
              let got = get_block-none (record bc { hc = hc }) hash n empty in
              (rw (get_block_by_hash, known) got.0, rw (get_block_by_hash, known) got.1)
        ]

    -- With no block in the cache and none from the client, the state is reset.
    load_last_state-reset :
        (reset : BlockChain E → BlockChain E × Option Error) (bc : BlockChain E)
        → ((h : Hash) → E.block_lru.entry bc.block_cache h ≡ none)
        → (b : BlockChain E) × (b.mutex ≡ bc.mutex) × (load_last_state reset bc ≡ reset b)
    unfolding load_last_state
    load_last_state-reset reset bc empty =
        let head = E.storage.read_head_block_hash bc.hc.chain_db in
        let got = get_block_by_hash-none bc head (empty head) in
        elim (Bool-cases (head == zero_hash)) [
          | inl unset ↦ (bc, refl, rw (load_last_state, unset))
          | inr set ↦ ((get_block_by_hash bc head).1, got.1, rw (load_last_state, set, got.0))
        ]

  pub set_head_by-failed :
      (beyond : BlockChain E → Target → BlockChain E × ℕ × Option Error) (bc : BlockChain E)
      (t : Target) {e : Error}
      → (beyond bc t).2 ≡ some e
      → (set_head_by beyond bc t).1 ≡ some e
  unfolding set_head_by
  set_head_by-failed beyond bc t failed = rw (set_head_by, failed)

  pub reset-failed :
      (rewind : BlockChain E → ℕ → BlockChain E × Option Error) (bc : BlockChain E)
      (genesis : Header) {e : Error}
      → (rewind bc (number_u64 bc.genesis_header)).1 ≡ some e
      → (reset_with_genesis_block rewind bc genesis).1 ≡ some e
  unfolding reset_with_genesis_block
  reset-failed rewind bc genesis failed = rw (reset_with_genesis_block, failed)

  -- A caller that holds the lock waits for itself.
  pub beyond-deadlock :
      (depth fuel : ℕ) (bc : BlockChain E) (t : Target)
      → bc.mutex ≡ held
      → (set_head_beyond_root (suc depth) fuel bc t zero_hash false).2 ≡ some deadlock
  unfolding set_head_beyond_root
  beyond-deadlock depth fuel bc t locked = rw (set_head_beyond_root, locked)

  module _ (lru : IsLru E.block_lru) (offline : (h : Hash) → E.block_by_hash h ≡ none) where
    -- Under the lock, a rewind that ends well goes on to the reset.
    rewind_locked-reset :
        (reset : BlockChain E → BlockChain E × Option Error)
        → ((b : BlockChain E) → b.mutex ≡ held → (reset b).1 ≡ some deadlock)
        → (fuel : ℕ) (bc : BlockChain E) (head : ℕ) → bc.mutex ≡ held
        → let t : Target = record { head_block = head; head_time = 0 } in
          let (bc', _, error) =
            rewind_headers fuel bc
              (record { chain = bc; root_number = 0; failure = none })
              zero_hash
              t in
          error ≡ none
          → (drop_markers bc' head).1 ≡ none
          → (rewind_locked reset fuel bc t zero_hash false).2 ≡ some deadlock
    unfolding rewind_locked
    rewind_locked-reset reset waits fuel bc head locked fine wrote =
        let c : Closure E = record { chain = bc; root_number = 0; failure = none } in
        let t : Target = record { head_block = head; head_time = 0 } in
        let bc' = (rewind_headers fuel bc c zero_hash t).0 in
        let dropped = (drop_markers bc' head).0 in
        let kept = drop_markers-mutex bc' head in
        let framed = rewind_headers-frame fuel bc c zero_hash t in
        let (b, same, resets) =
          load_last_state-reset lru offline reset dropped
            (λ h. rw kept.1 (lru.entry-purge bc'.block_cache h)) in
        rw (rewind_locked, fine, wrote, resets)
          (waits b (same ∙ kept.0 ∙ ap (λ f. f.0) framed ∙ locked))

    -- While the client answers no block, a `SetHead` that finds the lock free never returns once the header
    -- chain is rewound and the markers above are dropped without an error: the reset within waits for the
    -- lock that `SetHead` holds.
    pub set_head-deadlock :
        (depth fuel : ℕ) (bc : BlockChain E) (head : ℕ)
        → bc.mutex ≡ free
        → let locked : BlockChain E = record bc { mutex = held } in
          let (bc', _, error) =
            rewind_headers fuel locked
              (record { chain = locked; root_number = 0; failure = none })
              zero_hash
              (record { head_block = head; head_time = 0 }) in
          error ≡ none
          → (drop_markers bc' head).1 ≡ none
          → (set_head (suc (suc depth)) fuel bc head).1 ≡ some deadlock
    unfolding set_head set_head_beyond_root
    set_head-deadlock depth fuel bc head unlocked fine wrote =
        let locked : BlockChain E = record bc { mutex = held } in
        let t : Target = record { head_block = head; head_time = 0 } in
        let rewind = λ (b : BlockChain E) (n : ℕ).
          set_head_by (λ d u. set_head_beyond_root (suc depth) fuel d u zero_hash false) b
            (record { head_block = n; head_time = 0 }) in
        let reset = λ (b : BlockChain E). reset_with_genesis_block rewind b b.genesis_header in
        set_head_by-failed _ bc t (
          rw (set_head_beyond_root, unlocked)
            (rewind_locked-reset reset
              (λ b held_by.
                reset-failed rewind b b.genesis_header
                  (set_head_by-failed _ b _ (beyond-deadlock depth fuel b _ held_by)))
              fuel locked head refl fine wrote))
