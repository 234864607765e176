-- ===== src/Core/HeaderChain/Rewind/Endless.antt =====
-- core/headerchain.go: `setHead` to a number that lies below every header it can come by.
use mive.Base.{
  ℕ, zero, suc, ◌<◌, ◌≤◌, ◌≡◌, refl, ◌≢◌, true, false, none, some, List, [], ◌∷◌, ◌++◌, arith,
  Option-cases, Bool-cases, inl, inr, add64, sub64, Bool,
}
use mive.Core.Types.{Hash, Header, number_u64}
use mive.Core.Lru.{Lru, IsLru}
use mive.Core.Rawdb.{Storage, Write, write_head_header_hash}
use mive.Core.Rawdb.Accessors.{read_header}
use mive.Core.Rawdb.Effects.{IsStorage}
use mive.Core.HeaderChain.{HeaderChain, get_header}
use mive.Core.HeaderChain.Rewind.High.{
  IsHigh, get_header-above, get_header-IsHigh, MarkersOnly, MarkersOnly-append,
  header_after-MarkersOnly,
}
use mive.Core.HeaderChain.Rewind.{
  Callbacks, Update, Target, Rewinding, is_done, retarget, call_update, nums_above, delete_hashes,
  delete_nums, rewind_step, rewind_loop, set_head_to,
}

-- A target by number, at or below `t`, which `updateFn` can only lower.
unfoldable IsLow : ℕ → Target → Type 0
IsLow t target = (target.head_time ≡ 0) × (target.head_block ≤ t)

retarget-IsLow :
    (t : ℕ) (target : Target) (new_head : Header) (force : Bool)
    → IsLow t target
    → IsLow t (retarget target new_head force)
unfolding retarget IsLow
retarget-IsLow t target new_head force (by_number, low) =
    (ground (arith, by_number), ground (arith, by_number, low))

module _ {S : Storage} {H : Lru Hash Header} {N : Lru Hash ℕ} {C : Type 0} (laws : IsStorage S)
    (lru : IsLru H) (t : ℕ) (update : HeaderChain S H N → C → Header → Update S H N C)
    (delete : HeaderChain S H N → C → Hash → ℕ → HeaderChain S H N × C × List Write)
    (updated : (hc : HeaderChain S H N) (c : C) (h : Header)
      → IsHigh t hc
      → IsHigh t (update hc c h).chain)
    (marked : (hc : HeaderChain S H N) (c : C) (h : Header) → MarkersOnly (update hc c h).writes)
    (deleted : (hc : HeaderChain S H N) (c : C) (h : Hash) (n : ℕ)
      → IsHigh t hc
      → IsHigh t (delete hc c h n).0) where
  abbrev both : Callbacks S H N C
  both = record { update_fn = some update; del_fn = some delete }

  delete_hashes-IsHigh :
      (hc : HeaderChain S H N) (c : C) (hashes : List Hash) (num : ℕ)
      → IsHigh t hc
      → IsHigh t (delete_hashes both hc c hashes num).0
  unfolding delete_hashes
  delete_hashes-IsHigh hc c [] num high = high
  delete_hashes-IsHigh hc c (hash ∷ hashes) num high =
      let (hc', c', ws) = delete hc c hash num in
      delete_hashes-IsHigh hc' c' hashes num (deleted hc c hash num high)

  delete_nums-IsHigh :
      (hc : HeaderChain S H N) (c : C) (hdr : Header) (nums : List ℕ)
      → IsHigh t hc
      → IsHigh t (delete_nums both hc c hdr nums).0
  unfolding delete_nums
  delete_nums-IsHigh hc c hdr [] high = high
  delete_nums-IsHigh hc c hdr (num ∷ nums) high =
      let stored = S.read_all_hashes hc.chain_db num in
      let hashes : List Hash = elim stored [ [] ↦ hdr.hash ∷ [] | h ∷ hs ↦ h ∷ hs ] in
      let (hc', c', ws) = delete_hashes both hc c hashes num in
      delete_nums-IsHigh hc' c' hdr nums (delete_hashes-IsHigh hc c hashes num high)

  -- The chain once the parent is the head, in memory and in the database.
  moved-IsHigh :
      (hc : HeaderChain S H N) (parent : Header) (ws : List Write) {db : S.Db}
      → IsHigh t hc
      → t < number_u64 parent
      → MarkersOnly ws
      → S.commit ws hc.chain_db ≡ some db
      → IsHigh t (record hc { chain_db = db; current_header = parent })
  unfolding read_header
  moved-IsHigh hc parent ws high above only done = record {
    head = above;
    genesis = high.genesis;
    cached = high.cached;
    stored = λ h n e. high.stored h n (
        rw
          (
            laws.read_header_rlp-commit ws hc.chain_db h n done,
            header_after-MarkersOnly ws h n (S.read_header_rlp hc.chain_db h n) only,
          )
          at e);
  }

  rewind_step-IsHigh :
      (fuel : ℕ) (r : Rewinding S H N C) (hdr : Header)
      → IsHigh t r.chain
      → IsHigh t (rewind_step both fuel r hdr).0.chain
  unfolding rewind_step call_update
  rewind_step-IsHigh fuel r hdr high =
      let num = number_u64 hdr in
      let (found, hc) = get_header r.chain hdr.parent_hash (sub64 num 1) in
      let parent : Header = elim found [ none ↦ hc.genesis_header | some p ↦ p ] in
      let u = update hc r.closure parent in
      let read = get_header-IsHigh lru t r.chain high hdr.parent_hash (sub64 num 1) in
      let above : t < number_u64 parent = elim (Option-cases found) [
        | inl missing ↦ rw missing read.genesis
        | inr (p, there) ↦
            rw there (get_header-above lru t r.chain high hdr.parent_hash (sub64 num 1) there)
      ] in
      let kept = updated hc r.closure parent read in
      let ws = u.writes ++ write_head_header_hash parent.hash ∷ [] in
      let only = MarkersOnly-append u.writes _ (marked hc r.closure parent) (refl, tt) in
      elim (Option-cases (S.commit ws u.chain.chain_db)) [
        | inl failed ↦ rw (rewind_step, failed) kept
        | inr (db, done) ↦
            let hc' : HeaderChain S H N = record u.chain {
              chain_db = db;
              current_header = parent;
            } in
            let high' = moved-IsHigh u.chain parent ws kept above only done in
            let all =
              λ (nums : List ℕ). delete_nums-IsHigh hc' u.closure hdr (nums ++ num ∷ []) high' in
            elim (Bool-cases r.origin) [
              | inr later ↦ rw (rewind_step, done, later) (all [])
              | inl first ↦ elim (Option-cases (nums_above S fuel db (add64 num 1) [])) [
                | inl out ↦ rw (rewind_step, done, first, out) high'
                | inr (nums, found_above) ↦ rw (rewind_step, done, first, found_above) (all nums)
              ]
            ]
      ]

  rewind_step-IsLow :
      (fuel : ℕ) (r : Rewinding S H N C) (hdr : Header)
      → IsLow t r.target
      → IsLow t (rewind_step both fuel r hdr).0.target
  unfolding rewind_step call_update
  rewind_step-IsLow fuel r hdr low =
      let num = number_u64 hdr in
      let (found, hc) = get_header r.chain hdr.parent_hash (sub64 num 1) in
      let parent : Header = elim found [ none ↦ hc.genesis_header | some p ↦ p ] in
      let u = update hc r.closure parent in
      let low' = retarget-IsLow t r.target u.new_head u.force low in
      let ws = u.writes ++ write_head_header_hash parent.hash ∷ [] in
      elim (Option-cases (S.commit ws u.chain.chain_db)) [
        | inl failed ↦ rw (rewind_step, failed) low'
        | inr (db, done) ↦ elim (Bool-cases r.origin) [
          | inr later ↦ rw (rewind_step, done, later) low'
          | inl first ↦ elim (Option-cases (nums_above S fuel db (add64 num 1) [])) [
            | inl out ↦ rw (rewind_step, done, first, out) low'
            | inr (nums, found_above) ↦ rw (rewind_step, done, first, found_above) low'
          ]
        ]
      ]

  rewind_loop-ne-none :
      (fuel : ℕ) (r : Rewinding S H N C)
      → IsHigh t r.chain
      → IsLow t r.target
      → (rewind_loop both fuel r).1 ≢ none
  unfolding rewind_loop is_done IsLow
  rewind_loop-ne-none zero r high low e = cc
  rewind_loop-ne-none (suc fuel) r high low e =
      let hdr = r.chain.current_header in
      let (r', error) = rewind_step both fuel r hdr in
      let further : is_done r.target hdr ≡ false = ground (arith, low.0, low.1, high.head) in
      elim (Option-cases error) [
        | inl fine ↦
            rewind_loop-ne-none fuel r' (rewind_step-IsHigh fuel r hdr high)
              (rewind_step-IsLow fuel r hdr low) (rw (rewind_loop, further, fine) at e)
        | inr (x, failed) ↦ ground (arith, further, failed)
      ]

  -- A rewind to a number below all headers never returns without an error.
  pub set_head_to-ne-none :
      (fuel : ℕ) (hc : HeaderChain S H N) (c : C)
      → IsHigh t hc
      → (set_head_to both fuel hc c (record { head_block = t; head_time = 0 })).2 ≢ none
  unfolding set_head_to IsLow
  set_head_to-ne-none fuel hc c high e =
      let start : Rewinding S H N C = record {
        chain = hc;
        closure = c;
        target = record { head_block = t; head_time = 0 };
        origin = true;
        batch = [];
      } in
      elim (Option-cases (rewind_loop both fuel start).1) [
        | inl fine ↦ rewind_loop-ne-none fuel start high (refl, omega arith) fine
        | inr (x, failed) ↦ ground arith
      ]
