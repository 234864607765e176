-- ===== src/Core/BlockChain/Rewind/High.antt =====
-- core/blockchain.go: `updateFn` on a chain whose headers all have numbers above a given one.
use mive.Base.{
  ℕ, zero, suc, ◌≡◌, none, some, Option, List, arith, Option-cases, Bool-cases, inl, inr, sub64,
  ◌||◌, ◌==◌, not, ◌&&◌,
}
use mive.Core.Types.{Hash, Header, number_u64}
use mive.Core.Lru.{IsLru}
use mive.Core.Rawdb.{Write}
use mive.Core.HeaderChain.{Error}
use mive.Core.HeaderChain.Rewind.High.{IsHigh, get_header-IsHigh, MarkersOnly, MarkersOnly-append}
use mive.Core.BlockChain.{Env, Headers, BlockChain}
use mive.Core.BlockChain.Reader.{get_header, has_state, state_recoverable}
use mive.Core.BlockChain.Rewind.{
  Search, Closure, is_above, cross_root, recover_state, settle, find_round, find_state, find_head,
  move_head, move_snap_head, report_head, finish_update, update_fn,
}

module _ {E : Env} (lru : IsLru E.header_lru) (t : ℕ) where
  read-IsHigh :
      (bc : BlockChain E) (h : Hash) (n : ℕ) → IsHigh t bc.hc → IsHigh t (get_header bc h n).1.hc
  unfolding get_header
  read-IsHigh bc h n high = get_header-IsHigh lru t bc.hc high h n

  recover_state-IsHigh :
      (bc : BlockChain E) (s : Search) → IsHigh t bc.hc → IsHigh t (recover_state bc s).0.hc
  unfolding recover_state
  recover_state-IsHigh bc s high = ground (arith, high)

  module _ (next : BlockChain E → Search → BlockChain E × Search × Option Error)
      (kept : (bc : BlockChain E) (s : Search) → IsHigh t bc.hc → IsHigh t (next bc s).0.hc) where
    settle-IsHigh :
        (bc : BlockChain E) (s : Search) → IsHigh t bc.hc → IsHigh t (settle next bc s).0.hc
    unfolding settle
    settle-IsHigh bc s high =
        let ph = s.block.parent_hash in
        let n = sub64 (number_u64 s.block) 1 in
        let (parent, bc') = get_header bc ph n in
        let high' = read-IsHigh bc ph n high in
        elim (Bool-cases (s.beyond_root || number_u64 s.block == number_u64 bc.genesis_header)) [
          | inl ends ↦ rw (settle, ends) (recover_state-IsHigh bc s high)
          | inr further ↦ elim (Option-cases parent) [
            | inl unknown ↦ rw (settle, further, unknown) high'
            | inr (p, found) ↦ rw (settle, further, found) (kept bc' (record s { block = p }) high')
          ]
        ]

    find_round-IsHigh :
        (bc : BlockChain E) (pivot : Option ℕ) (s : Search)
        → IsHigh t bc.hc
        → IsHigh t (find_round next bc pivot s).0.hc
    unfolding find_round
    find_round-IsHigh bc pivot s high =
        let ph = s.block.parent_hash in
        let n = sub64 (number_u64 s.block) 1 in
        let (parent, bc') = get_header bc ph n in
        let high' = read-IsHigh bc ph n high in
        let at_genesis : Search = record s { block = bc.genesis_header } in
        elim (Bool-cases
          (not (has_state bc s.block.root) && not (state_recoverable bc s.block.root))) [
            | inr there ↦ rw (find_round, there) (settle-IsHigh bc s high)
            | inl missing ↦ elim (Bool-cases (is_above pivot s.block)) [
              | inr below ↦ rw (find_round, missing, below) (settle-IsHigh bc at_genesis high)
              | inl above ↦ elim (Option-cases parent) [
                | inl unknown ↦
                    rw (find_round, missing, above, unknown) (settle-IsHigh bc' at_genesis high')
                | inr (p, found) ↦
                    rw (find_round, missing, above, found) (kept bc' (record s { block = p }) high')
              ]
            ]
          ]

  find_state-IsHigh :
      (fuel : ℕ) (bc : BlockChain E) (root : Hash) (pivot : Option ℕ) (s : Search)
      → IsHigh t bc.hc
      → IsHigh t (find_state fuel bc root pivot s).0.hc
  unfolding find_state
  find_state-IsHigh zero bc root pivot s high = high
  find_state-IsHigh (suc fuel) bc root pivot s high =
      find_round-IsHigh (λ c s. find_state fuel c root pivot s)
        (λ c s h. find_state-IsHigh fuel c root pivot s h) bc pivot (cross_root root s) high

  find_head-IsHigh :
      (fuel : ℕ) (bc : BlockChain E) (root : Hash) (pivot : Option ℕ) (n : ℕ) (header : Header)
      → IsHigh t bc.hc
      → IsHigh t (find_head fuel bc root pivot n header).0.hc
  unfolding find_head
  find_head-IsHigh fuel bc root pivot n header high =
      let high' = read-IsHigh bc header.hash (number_u64 header) high in
      elim (Option-cases (get_header bc header.hash (number_u64 header)).0) [
        | inl unknown ↦ rw (find_head, unknown) high'
        | inr (h, found) ↦ rw (find_head, found) (find_state-IsHigh fuel _ root pivot _ high')
      ]

  move_head-IsHigh :
      (fuel : ℕ) (bc : BlockChain E) (root : Hash) (pivot : Option ℕ) (n : ℕ) (header : Header)
      → IsHigh t bc.hc
      → IsHigh t (move_head fuel bc root pivot n header).0.hc
  unfolding move_head
  move_head-IsHigh fuel bc root pivot n header high =
      ground (arith, high, find_head-IsHigh fuel bc root pivot n header high)

  move_snap_head-IsHigh :
      (bc : BlockChain E) (header : Header)
      → IsHigh t bc.hc
      → IsHigh t (move_snap_head bc header).0.hc
  unfolding move_snap_head
  move_snap_head-IsHigh bc header high =
      ground (arith, high, read-IsHigh bc header.hash (number_u64 header) high)

  report_head-chain :
      (pivot : Option ℕ) (frozen : ℕ) (c : Closure E) (header : Header) (ws : List Write)
      → (report_head pivot frozen c header ws).chain ≡ c.chain.hc
  unfolding report_head
  report_head-chain pivot frozen c header ws = ground arith

  finish_update-IsHigh :
      (pivot : Option ℕ) (frozen : ℕ) (header : Header)
      (r : BlockChain E × List Write × ℕ × Option Error)
      → IsHigh t r.0.hc
      → IsHigh t (finish_update pivot frozen header r).chain
  unfolding finish_update
  finish_update-IsHigh pivot frozen header (moved, ws, n, none) high =
      rw (report_head-chain pivot frozen) (move_snap_head-IsHigh moved header high)
  finish_update-IsHigh pivot frozen header (moved, ws, n, some e) high = high

  pub update_fn-IsHigh :
      (fuel : ℕ) (root : Hash) (pivot : Option ℕ) (frozen : ℕ) (hc : Headers E) (c : Closure E)
      (header : Header)
      → IsHigh t hc
      → IsHigh t (update_fn fuel root pivot frozen hc c header).chain
  unfolding update_fn
  update_fn-IsHigh fuel root pivot frozen hc c header high = elim (Option-cases c.failure) [
    | inr (e, failed) ↦ rw (update_fn, failed) high
    | inl going ↦
        rw (update_fn, going)
          (finish_update-IsHigh pivot frozen header _ (
            move_head-IsHigh fuel (record c.chain { hc = hc }) root pivot c.root_number header
              high))
  ]

module _ {E : Env} where
  move_head-MarkersOnly :
      (fuel : ℕ) (bc : BlockChain E) (root : Hash) (pivot : Option ℕ) (n : ℕ) (header : Header)
      → MarkersOnly (move_head fuel bc root pivot n header).1
  unfolding move_head
  move_head-MarkersOnly fuel bc root pivot n header = ground arith

  move_snap_head-MarkersOnly :
      (bc : BlockChain E) (header : Header) → MarkersOnly (move_snap_head bc header).1
  unfolding move_snap_head
  move_snap_head-MarkersOnly bc header = ground arith

  report_head-writes :
      (pivot : Option ℕ) (frozen : ℕ) (c : Closure E) (header : Header) (ws : List Write)
      → (report_head pivot frozen c header ws).writes ≡ ws
  unfolding report_head
  report_head-writes pivot frozen c header ws = ground arith

  finish_update-MarkersOnly :
      (pivot : Option ℕ) (frozen : ℕ) (header : Header)
      (r : BlockChain E × List Write × ℕ × Option Error)
      → MarkersOnly r.1
      → MarkersOnly (finish_update pivot frozen header r).writes
  unfolding finish_update
  finish_update-MarkersOnly pivot frozen header (moved, ws, n, none) only =
      rw (report_head-writes pivot frozen)
        (MarkersOnly-append ws _ only (move_snap_head-MarkersOnly moved header))
  finish_update-MarkersOnly pivot frozen header (moved, ws, n, some e) only = only

  pub update_fn-MarkersOnly :
      (fuel : ℕ) (root : Hash) (pivot : Option ℕ) (frozen : ℕ) (hc : Headers E) (c : Closure E)
      (header : Header)
      → MarkersOnly (update_fn fuel root pivot frozen hc c header).writes
  unfolding update_fn
  update_fn-MarkersOnly fuel root pivot frozen hc c header = elim (Option-cases c.failure) [
    | inr (e, failed) ↦ rw (update_fn, failed) tt
    | inl going ↦
        rw (update_fn, going)
          (finish_update-MarkersOnly pivot frozen header _
            (move_head-MarkersOnly fuel _ root pivot c.root_number header))
  ]
