-- ===== src/Core/BlockChain/SetHead.antt =====
-- core/blockchain.go: `setHeadBeyondRoot`, `SetHead` and `Reset`.
pub mod Unavailable
pub mod Restart
pub mod Unloaded
pub mod Endless
pub mod Purged
pub mod Loaded
pub mod Rewound
pub mod Restored
use mive.Base.{
  ℕ, zero, suc, Bool, true, false, ◌&&◌, Option, none, some, List, [], ◌∷◌, ◌==◌, ltb,
  if◌then◌else◌,
}
use mive.Core.Types.{Hash, zero_hash, Header, number_u64}
use mive.Core.Rawdb.Accessors.{write_header}
use mive.Core.HeaderChain.{
  Error, out_of_fuel, nil_dereference, deadlock, chain_stopped, current_block_missing,
  set_current_header, set_genesis,
}
use mive.Core.HeaderChain.Rewind.{Callbacks, Target, Update, set_head_to}
use mive.Core.HeaderChain.Rewind
use mive.Core.BlockChain.{
  Env, Headers, BlockChain, Mutex, free, held, closed, put, write_head_block, set_finalized,
  set_safe,
}
use mive.Core.BlockChain.Reader.{get_header_by_hash, get_block, get_block_by_hash}
use mive.Core.BlockChain.Rewind.{Closure, update_fn, del_fn}
unfoldable pub use mive.Core.BlockChain.LastState.{
  marked, load_head_header, load_snap_block, load_finalized, load_markers, load_last_state,
}

module _ {E : Env} where
  -- The callbacks, as they close over the pivot, the freezer's limit and the root.
  unfoldable pub callbacks :
      ℕ → BlockChain E → Hash → Callbacks E.storage E.header_lru E.number_lru (Closure E)
  callbacks fuel bc root = record {
    update_fn = some (
        update_fn fuel root (E.storage.read_last_pivot_number bc.hc.chain_db)
          (E.storage.ancients bc.hc.chain_db));
    del_fn = some del_fn;
  }

  -- The rewind of the header chain under given callbacks, with the chain that they leave.
  abbrev pub rewind_with :
      Callbacks E.storage E.header_lru E.number_lru (Closure E)
      → ℕ
      → BlockChain E
      → Closure E
      → Target
      → BlockChain E × ℕ × Option Error
  rewind_with cb fuel bc c target =
      let (hc, c', error) = set_head_to cb fuel bc.hc c target in
      let bc' : BlockChain E = record c'.chain { hc = hc } in
      (bc', c'.root_number, elim c'.failure [ none ↦ error | some e ↦ some e ])

  -- The rewind of the header chain.
  unfoldable pub rewind_headers :
      ℕ → BlockChain E → Closure E → Hash → Target → BlockChain E × ℕ × Option Error
  rewind_headers fuel bc c root target = rewind_with (callbacks fuel bc root) fuel bc c target

  -- The chain as a repair leaves it: the header chain is touched only if the callback forces it,
  -- with the pivot and the limit that were read before it.
  unfoldable pub repair_headers :
      ℕ → BlockChain E → Closure E → Hash → BlockChain E × ℕ × Option Error
  repair_headers fuel bc c root = elim bc.current_block [
    | none ↦ (bc, 0, some nil_dereference)
    | some current ↦
        let u =
          update_fn fuel root (E.storage.read_last_pivot_number bc.hc.chain_db)
            (E.storage.ancients bc.hc.chain_db) bc.hc c current in
        let updated : BlockChain E = record u.closure.chain { hc = u.chain } in
        let (bc', error) = put updated u.writes in
        elim u.closure.failure [
          | some e ↦ (updated, u.closure.root_number, some e)
          | none ↦ elim error [
            | some e ↦ (bc', u.closure.root_number, some e)
            | none ↦ elim u.force [
              | false ↦ (bc', u.closure.root_number, none)
              | true ↦
                  rewind_with (callbacks fuel bc root) fuel bc' (record u.closure { chain = bc' })
                    (record { head_block = number_u64 u.new_head; head_time = 0 })
            ]
          ]
        ]
  ]

  -- The caches and the markers above the head.
  unfoldable pub drop_markers : BlockChain E → ℕ → BlockChain E × Option Error
  drop_markers bc head =
      let purged : BlockChain E = record bc {
        receipts_cache = E.receipts_lru.purge bc.receipts_cache;
        block_cache = E.block_lru.purge bc.block_cache;
        future_blocks = E.block_lru.purge bc.future_blocks;
      } in
      let above = λ (h : Option Header). elim h as (λ _. Bool) [
        | none ↦ false
        | some marker ↦ ltb head (number_u64 marker)
      ] in
      let safe : BlockChain E =
        if above bc.current_safe_block then set_safe purged none else purged in
      if above bc.current_final_block then set_finalized safe none else (safe, none)

  -- `setHeadBeyondRoot` under the lock.
  unfoldable pub rewind_locked :
      (BlockChain E → BlockChain E × Option Error)
      → ℕ
      → BlockChain E
      → Target
      → Hash
      → Bool
      → BlockChain E × ℕ × Option Error
  rewind_locked reset fuel bc target root repair =
      let c : Closure E = record { chain = bc; root_number = 0; failure = none } in
      let (bc', root_number, error) : BlockChain E × ℕ × Option Error =
        if repair
        then repair_headers fuel bc c root
        else rewind_headers fuel bc c root (
            if ltb 0 target.head_time
            then record { head_block = 0; head_time = target.head_time }
            else record { head_block = target.head_block; head_time = 0 }) in
      let (dropped, failed) = drop_markers bc' target.head_block in
      let (loaded, broken) = load_last_state reset dropped in
      elim error [
        | some e ↦ (bc', root_number, some e)
        | none ↦ elim failed [
          | some e ↦ (dropped, root_number, some e)
          | none ↦ (loaded, root_number, broken)
        ]
      ]

  -- The end of `SetHead` and of `SetHeadWithTimestamp`: the event with the block of the head.
  unfoldable pub announce_head : BlockChain E → BlockChain E × Option Error
  announce_head bc = elim bc.current_block [
    | none ↦ (bc, some nil_dereference)
    | some header ↦
        let (block, bc') = get_block bc header.hash (number_u64 header) in
        elim block [
          | none ↦ (bc', some current_block_missing)
          | some b ↦ (record bc' { chain_head_events = b ∷ bc'.chain_head_events }, none)
        ]
  ]

  -- `SetHead` and `SetHeadWithTimestamp`, over `setHeadBeyondRoot` as `beyond`.
  unfoldable pub set_head_by :
      (BlockChain E → Target → BlockChain E × ℕ × Option Error)
      → BlockChain E
      → Target
      → BlockChain E × Option Error
  set_head_by beyond bc target =
      let (bc', _, error) = beyond bc target in
      elim error [ some e ↦ (bc', some e) | none ↦ announce_head bc' ]

  -- The part of `ResetWithGenesisBlock` after the lock is taken.
  unfoldable pub write_genesis : BlockChain E → Header → BlockChain E × Option Error
  write_genesis bc genesis =
      let (written, error) = put bc (write_header E.storage genesis) in
      let (headed, failed) = write_head_block written genesis in
      elim error [
        | some e ↦ (written, some e)
        | none ↦ elim failed [
          | some e ↦ (headed, some e)
          | none ↦ (
            record headed {
              genesis_header = genesis;
              current_block = some genesis;
              hc = set_current_header (set_genesis headed.hc genesis) genesis;
              current_snap_block = some genesis;
            },
            none,
          )
        ]
      ]

  -- What is done under the lock, if it can be taken. A wait for a lock that the caller holds itself
  -- has no end; `TryLock` refuses only a closed one.
  unfoldable pub locked :
      (BlockChain E → BlockChain E × Option Error) → BlockChain E → BlockChain E × Option Error
  locked body bc = elim bc.mutex [
    | closed ↦ (bc, some chain_stopped)
    | held ↦ (bc, some deadlock)
    | free ↦
        let (bc', error) = body (record bc { mutex = held }) in (record bc' { mutex = free }, error)
  ]

  -- `ResetWithGenesisBlock`, over `SetHead` to a number as `rewind`. It rewinds to the genesis block
  -- of the chain, whatever it is given.
  unfoldable pub reset_with_genesis_block :
      (BlockChain E → ℕ → BlockChain E × Option Error)
      → BlockChain E
      → Header
      → BlockChain E × Option Error
  reset_with_genesis_block rewind bc genesis =
      let (bc', error) = rewind bc (number_u64 bc.genesis_header) in
      elim error [ some e ↦ (bc', some e) | none ↦ locked (λ b. write_genesis b genesis) bc' ]

  -- `setHeadBeyondRoot`. It is called again by the `Reset` within, to the given depth.
  unfoldable pub set_head_beyond_root :
      ℕ → ℕ → BlockChain E → Target → Hash → Bool → BlockChain E × ℕ × Option Error
  set_head_beyond_root zero fuel bc target root repair = (bc, 0, some out_of_fuel)
  set_head_beyond_root (suc depth) fuel bc target root repair =
      let beyond =
        λ (b : BlockChain E) (t : Target). set_head_beyond_root depth fuel b t zero_hash false in
      let rewind = λ (b : BlockChain E) (n : ℕ).
        set_head_by beyond b (record { head_block = n; head_time = 0 }) in
      let reset = λ (b : BlockChain E). reset_with_genesis_block rewind b b.genesis_header in
      elim bc.mutex [
        | closed ↦ (bc, 0, some chain_stopped)
        | held ↦ (bc, 0, some deadlock)
        | free ↦
            let (bc', root_number, error) =
              rewind_locked reset fuel (record bc { mutex = held }) target root repair in
            (record bc' { mutex = free }, root_number, error)
      ]

module _ {E : Env} (depth fuel : ℕ) where
  -- `SetHead`
  unfoldable pub set_head : BlockChain E → ℕ → BlockChain E × Option Error
  set_head bc head =
      set_head_by (λ b t. set_head_beyond_root depth fuel b t zero_hash false) bc
        (record { head_block = head; head_time = 0 })

  -- `SetHeadWithTimestamp`
  unfoldable pub set_head_with_timestamp : BlockChain E → ℕ → BlockChain E × Option Error
  set_head_with_timestamp bc time =
      set_head_by (λ b t. set_head_beyond_root depth fuel b t zero_hash false) bc
        (record { head_block = 0; head_time = time })

  -- `Reset`
  unfoldable pub reset : BlockChain E → BlockChain E × Option Error
  reset bc = reset_with_genesis_block set_head bc bc.genesis_header
