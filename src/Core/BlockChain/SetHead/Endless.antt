-- ===== src/Core/BlockChain/SetHead/Endless.antt =====
-- core/blockchain.go: `SetHead` to a number below the genesis block.
use mive.Base.{ℕ, zero, suc, ◌<◌, ◌≡◌, ◌≢◌, false, none, some, arith, Option-cases, inl, inr}
use mive.Core.Types.{Hash, zero_hash, Header, number_u64}
use mive.Core.Lru.{IsLru}
use mive.Core.Rawdb.Accessors.{read_header}
use mive.Core.Rawdb.Effects.{IsStorage}
use mive.Core.HeaderChain.WellFormed.{IsSound, IsCoherent}
use mive.Core.HeaderChain.Rewind.{Target}
use mive.Core.HeaderChain.Rewind.High.{IsHigh}
use mive.Core.HeaderChain.Rewind.Endless.{set_head_to-ne-none}
use mive.Core.BlockChain.{Env, Headers, BlockChain, held}
use mive.Core.BlockChain.Rewind.{Closure, update_fn, del_fn}
use mive.Core.BlockChain.SetHead.{
  callbacks, rewind_headers, rewind_locked, set_head_beyond_root, set_head_by, set_head,
}
use mive.Core.BlockChain.Rewind.High.{update_fn-IsHigh, update_fn-MarkersOnly}

-- A truncation of the ancient store brings up no header.
pub record IsTruncation (E : Env) : Type 0 where
  pub read_header-truncate_head :
      (db : E.storage.Db) {db' : E.storage.Db} (num : ℕ) (h : Hash) (n : ℕ) {header : Header}
      → E.storage.truncate_head db num ≡ some db'
      → read_header E.storage db' h n ≡ some header
      → read_header E.storage db h n ≡ some header

module _ {E : Env} (laws : IsStorage E.storage) (lru : IsLru E.header_lru)
    (truncates : IsTruncation E) where
  truncated-IsHigh :
      (t : ℕ) (hc : Headers E) {db : E.storage.Db} (num : ℕ)
      → IsHigh t hc
      → E.storage.truncate_head hc.chain_db num ≡ some db
      → IsHigh t (record hc { chain_db = db })
  truncated-IsHigh t hc num high done = record {
    head = high.head;
    genesis = high.genesis;
    cached = high.cached;
    stored =
        λ h n e. high.stored h n (truncates.read_header-truncate_head hc.chain_db num h n done e);
  }

  del_fn-IsHigh :
      (t : ℕ) (hc : Headers E) (c : Closure E) (hash : Hash) (num : ℕ)
      → IsHigh t hc
      → IsHigh t (del_fn hc c hash num).0
  unfolding del_fn
  del_fn-IsHigh t hc c hash num high =
      elim (Option-cases (E.storage.truncate_head hc.chain_db num)) [
        | inl failed ↦ ground (arith, high)
        | inr (db, done) ↦ ground (arith, high, truncated-IsHigh t hc num high done)
      ]

  rewind_headers-ne-none :
      (fuel : ℕ) (bc : BlockChain E) (c : Closure E) (root : Hash) (t : ℕ)
      → IsHigh t bc.hc
      → (rewind_headers fuel bc c root (record { head_block = t; head_time = 0 })).2 ≢ none
  unfolding rewind_headers callbacks
  rewind_headers-ne-none fuel bc c root t high e =
      let pivot = E.storage.read_last_pivot_number bc.hc.chain_db in
      let frozen = E.storage.ancients bc.hc.chain_db in
      let endless =
        set_head_to-ne-none laws lru t (update_fn fuel root pivot frozen) del_fn
          (λ hc c h k. update_fn-IsHigh lru t fuel root pivot frozen hc c h k)
          (λ hc c h. update_fn-MarkersOnly fuel root pivot frozen hc c h)
          (λ hc c h n k. del_fn-IsHigh t hc c h n k) fuel bc.hc c high in
      ground (arith, endless)

  set_head_beyond_root-ne-none :
      (depth fuel : ℕ) (bc : BlockChain E) (root : Hash) (t : ℕ)
      → IsHigh t bc.hc
      → (set_head_beyond_root depth fuel bc (record { head_block = t; head_time = 0 }) root false).2
        ≢ none
  unfolding set_head_beyond_root rewind_locked
  set_head_beyond_root-ne-none zero fuel bc root t high e = cc
  set_head_beyond_root-ne-none (suc depth) fuel bc root t high e =
      let locked : BlockChain E = record bc { mutex = held } in
      let c : Closure E = record { chain = locked; root_number = 0; failure = none } in
      let target : Target = record { head_block = t; head_time = 0 } in
      let endless = rewind_headers-ne-none fuel locked c root t high in
      elim (Option-cases (rewind_headers fuel locked c root target).2) [
        | inl fine ↦ absurd (endless fine)
        | inr (x, failed) ↦ ground (arith, failed)
      ]

  sound-IsHigh :
      (t : ℕ) (hc : Headers E) {g : ℕ}
      → IsSound E.storage g hc.chain_db
      → IsCoherent hc
      → t < g
      → t < number_u64 hc.genesis_header
      → t < number_u64 hc.current_header
      → IsHigh t hc
  sound-IsHigh t hc {g} sound coherent low genesis head = record {
    head = head;
    genesis = genesis;
    cached = λ h {header} e.
        let e' = coherent.cached h e in ground (arith, low, sound.bounded h header.number e');
    stored = λ h n {header} e. ground (arith, low, sound.bounded h n e, sound.keyed h n e);
  }

  -- `SetHead` to a number below the genesis block never returns without an error, whatever the
  -- fuel, if the database is sound from a number above the target on, the caches are coherent, and
  -- the head header and the genesis header have numbers above the target.
  pub set_head-below_genesis :
      (depth fuel : ℕ) (bc : BlockChain E) (head : ℕ) {g : ℕ}
      → IsSound E.storage g bc.hc.chain_db
      → IsCoherent bc.hc
      → head < g
      → head < number_u64 bc.hc.genesis_header
      → head < number_u64 bc.hc.current_header
      → (set_head depth fuel bc head).1 ≢ none
  unfolding set_head set_head_by
  set_head-below_genesis depth fuel bc head sound coherent low below_genesis below e =
      let high = sound-IsHigh head bc.hc sound coherent low below_genesis below in
      let target : Target = record { head_block = head; head_time = 0 } in
      let endless = set_head_beyond_root-ne-none depth fuel bc zero_hash head high in
      elim (Option-cases (set_head_beyond_root depth fuel bc target zero_hash false).2) [
        | inl fine ↦ endless fine
        | inr (x, failed) ↦ ground (arith, failed)
      ]
