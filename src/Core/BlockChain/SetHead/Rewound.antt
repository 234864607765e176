-- ===== src/Core/BlockChain/SetHead/Rewound.antt =====
-- core/blockchain.go: what a `SetHead` without an error leaves.
use mive.Base.{
  ℕ, zero, suc, ◌≡◌, refl, ◌≢◌, ◌∙◌, ap, ◌⊎◌, inl, inr, false, none, Option, ◌∷◌, ltb,
  if◌then◌else◌, arith, Option-cases,
}
use mive.Core.Types.{Hash, zero_hash, number_u64}
use mive.Core.Lru.{IsLru}
use mive.Core.HeaderChain.{Error}
use mive.Core.HeaderChain.Rewind.{Target, set_head_to}
use mive.Core.BlockChain.{Env, BlockChain, Mutex, free, held, closed}
use mive.Core.BlockChain.Rewind.{Closure}
use mive.Core.BlockChain.SetHead.{
  callbacks, rewind_headers, drop_markers, rewind_locked, set_head_by, reset_with_genesis_block,
  set_head_beyond_root, set_head,
}
use mive.Core.BlockChain.SetHead.Unavailable.{
  rewind_headers-frame, drop_markers-mutex, beyond-deadlock,
}
use mive.Core.BlockChain.SetHead.Purged.{IsPurged, set_head_to-IsPurged}
use mive.Core.BlockChain.SetHead.Loaded.{
  IsLoaded, drop_markers-hc, announce_head-core, load_last_state-IsLoaded, core-IsLoaded,
}

-- A chain that a rewind from `before` leaves: its head block is the one that the database marks and stores,
-- the lock is free, and one event was sent.
pub record IsRewound {E : Env} (before : BlockChain E) (bc : BlockChain E) : Type 0 where
  pub loaded : IsLoaded bc
  pub unlocked : bc.mutex ≡ free
  pub announced : (b : E.Block) × (bc.chain_head_events ≡ b ∷ before.chain_head_events)

Mutex-cases : (m : Mutex) → (m ≡ free) ⊎ (m ≡ held) ⊎ (m ≡ closed)
Mutex-cases free = inl refl
Mutex-cases held = inr (inl refl)
Mutex-cases closed = inr (inr refl)

module _ {E : Env} where
  -- A rewind by a caller that holds the lock does not succeed.
  beyond-held :
      (depth fuel : ℕ) (bc : BlockChain E) (t : Target)
      → bc.mutex ≡ held
      → (set_head_beyond_root depth fuel bc t zero_hash false).2 ≢ none
  unfolding set_head_beyond_root
  beyond-held zero fuel bc t locked e = cc
  beyond-held (suc depth) fuel bc t locked e =
      ground (arith, beyond-deadlock depth fuel bc t locked)

  reset-held :
      (beyond : BlockChain E → Target → BlockChain E × ℕ × Option Error)
      → ((b : BlockChain E) (t : Target) → b.mutex ≡ held → (beyond b t).2 ≢ none)
      → (bc : BlockChain E) → bc.mutex ≡ held
      → (reset_with_genesis_block
          (λ b n. set_head_by beyond b (record { head_block = n; head_time = 0 }))
          bc
          bc.genesis_header).1
        ≢ none
  unfolding reset_with_genesis_block set_head_by
  reset-held beyond waits bc locked fine =
      let t : Target = record { head_block = number_u64 bc.genesis_header; head_time = 0 } in
      elim (Option-cases (beyond bc t).2) [
        | inl done ↦ waits bc t locked done
        | inr (e, failed) ↦ ground (arith, failed)
      ]

  module _ (headers : IsLru E.header_lru) (numbers : IsLru E.number_lru) where
    rewind_headers-IsPurged :
        (fuel : ℕ) (bc : BlockChain E) (c : Closure E) (root : Hash) (t : Target)
        → (rewind_headers fuel bc c root t).2 ≡ none
        → IsPurged (rewind_headers fuel bc c root t).0.hc
    unfolding rewind_headers
    rewind_headers-IsPurged fuel bc c root t fine =
        let (hc, c', error) = set_head_to (callbacks fuel bc root) fuel bc.hc c t in
        elim (Option-cases c'.failure) [
          | inl going ↦
              set_head_to-IsPurged headers numbers (callbacks fuel bc root) fuel bc.hc c t
                (ground (arith, going))
          | inr (e, failed) ↦ absurd (ground (arith, failed))
        ]

    drop_markers-IsPurged :
        (bc : BlockChain E) (head : ℕ) → IsPurged bc.hc → IsPurged (drop_markers bc head).0.hc
    drop_markers-IsPurged bc head p =
        let (number, header, _) = drop_markers-hc bc head in
        record {
          no_number = λ h. rw number (p.no_number h);
          no_header = λ h. rw header (p.no_header h);
        }

    -- Under the lock, a rewind without an error has loaded the head block and announced nothing.
    rewind_locked-IsLoaded :
        (reset : BlockChain E → BlockChain E × Option Error)
        → ((b : BlockChain E) → b.mutex ≡ held → (reset b).1 ≢ none)
        → (fuel : ℕ) (bc : BlockChain E) (t : Target) → bc.mutex ≡ held
        → (rewind_locked reset fuel bc t zero_hash false).2 ≡ none
        → IsLoaded (rewind_locked reset fuel bc t zero_hash false).0
          × ((rewind_locked reset fuel bc t zero_hash false).0.chain_head_events
              ≡ bc.chain_head_events)
    unfolding rewind_locked
    rewind_locked-IsLoaded reset waits fuel bc t locked fine =
        let c : Closure E = record { chain = bc; root_number = 0; failure = none } in
        let t' : Target =
          if ltb 0 t.head_time
          then record { head_block = 0; head_time = t.head_time }
          else record { head_block = t.head_block; head_time = 0 } in
        let (bc', _, error) = rewind_headers fuel bc c zero_hash t' in
        let (dropped, failed) = drop_markers bc' t.head_block in
        let framed = rewind_headers-frame fuel bc c zero_hash t' in
        elim (Option-cases error) [
          | inr (e, broken) ↦ absurd (ground (arith, broken))
          | inl rewound ↦ elim (Option-cases failed) [
            | inr (e, broken) ↦ absurd (ground (arith, rewound, broken))
            | inl wrote ↦
                let mutex =
                  (drop_markers-mutex bc' t.head_block).0 ∙ ap (λ f. f.0) framed ∙ locked in
                let events = (drop_markers-hc bc' t.head_block).2 ∙ ap (λ f. f.4) framed in
                let purged =
                  drop_markers-IsPurged bc' t.head_block
                    (rewind_headers-IsPurged fuel bc c zero_hash t' rewound) in
                let (loaded, same) =
                  load_last_state-IsLoaded headers numbers reset dropped waits purged mutex
                    (ground (arith, rewound, wrote)) in
                rw (rewind_locked, rewound, wrote) (loaded, same ∙ events)
          ]
        ]

    beyond-IsLoaded :
        (depth fuel : ℕ) (bc : BlockChain E) (t : Target)
        → (set_head_beyond_root depth fuel bc t zero_hash false).2 ≡ none
        → let bc' = (set_head_beyond_root depth fuel bc t zero_hash false).0 in
          IsLoaded bc' × (bc'.mutex ≡ free) × (bc'.chain_head_events ≡ bc.chain_head_events)
    unfolding set_head_beyond_root
    beyond-IsLoaded zero fuel bc t fine = absurd (ground (arith, fine))
    beyond-IsLoaded (suc depth) fuel bc t fine =
        let beyond =
          λ (b : BlockChain E) (u : Target). set_head_beyond_root depth fuel b u zero_hash false in
        let rewind = λ (b : BlockChain E) (n : ℕ).
          set_head_by beyond b (record { head_block = n; head_time = 0 }) in
        let reset = λ (b : BlockChain E). reset_with_genesis_block rewind b b.genesis_header in
        elim (Mutex-cases bc.mutex) [
          | inr (inl locked) ↦ absurd (ground (arith, locked))
          | inr (inr stopped) ↦ absurd (ground (arith, stopped))
          | inl unlocked ↦
              let (loaded, events) =
                rewind_locked-IsLoaded reset
                  (reset-held beyond (λ b u waits. beyond-held depth fuel b u waits)) fuel
                  (record bc { mutex = held }) t refl (ground (arith, unlocked)) in
              rw (set_head_beyond_root, unlocked)
                (
                  core-IsLoaded
                      (rewind_locked reset fuel (record bc { mutex = held }) t zero_hash false).0 _
                      refl refl loaded,
                  refl,
                  events,
                )
        ]

    -- A `SetHead` without an error ends with the lock free, one event sent, and as the current block the
    -- header that the database stores under its head block hash, which is set, and the number that it has
    -- for that hash.
    pub set_head-IsRewound :
        (depth fuel : ℕ) (bc : BlockChain E) (head : ℕ)
        → (set_head depth fuel bc head).1 ≡ none
        → IsRewound bc (set_head depth fuel bc head).0
    unfolding set_head set_head_by
    set_head-IsRewound depth fuel bc head fine =
        let t : Target = record { head_block = head; head_time = 0 } in
        let (bc', _, error) = set_head_beyond_root depth fuel bc t zero_hash false in
        elim (Option-cases error) [
          | inr (e, failed) ↦ absurd (ground (arith, failed))
          | inl done ↦
              let (loaded, unlocked, events) = beyond-IsLoaded depth fuel bc t done in
              let (b, kept) = announce_head-core bc' (ground (arith, done)) in
              rw (set_head, set_head_by, done)
                (record {
                  loaded = core-IsLoaded bc' _ (ap (λ c. c.0) kept) (ap (λ c. c.1) kept) loaded;
                  unlocked = ap (λ c. c.2) kept ∙ unlocked;
                  announced = (b, ap (λ c. c.3) kept ∙ ap (λ l. b ∷ l) events);
                })
        ]
