-- ===== src/Core/HeaderChain/Rewind/Kept.antt =====
-- core/headerchain.go: what the callbacks of `setHead` keep true of their closure, `setHead` keeps.
use mive.Base.{
  ℕ, ◌<◌, ◌≡◌, arith, zero, suc, true, false, none, some, List, [], ◌∷◌, ◌++◌, Bool-cases,
  Option-cases, inl, inr, add64, sub64, ◌&&◌, ltb,
}
use mive.Core.Types.{Hash, Header, number_u64}
use mive.Core.Lru.{Lru}
use mive.Core.Rawdb.{Storage, Write, write_head_header_hash}
use mive.Core.HeaderChain.{HeaderChain, get_header}
use mive.Core.HeaderChain.Rewind.{
  Callbacks, Update, Target, Rewinding, is_done, call_update, nums_above, delete_hashes,
  delete_nums, rewind_step, rewind_loop, finish_rewind, set_head_to,
}

module _ {S : Storage} {H : Lru Hash Header} {N : Lru Hash ℕ} {C : Type 0}
    (update : HeaderChain S H N → C → Header → Update S H N C)
    (delete : HeaderChain S H N → C → Hash → ℕ → HeaderChain S H N × C × List Write)
    (P : C → Type 0)
    (updated : (hc : HeaderChain S H N) (c : C) (h : Header) → P c → P (update hc c h).closure)
    (deleted : (hc : HeaderChain S H N) (c : C) (h : Hash) (n : ℕ)
      → P c
      → P (delete hc c h n).1) where
  abbrev both : Callbacks S H N C
  both = record { update_fn = some update; del_fn = some delete }

  delete_hashes-keeps :
      (hc : HeaderChain S H N) (c : C) (hashes : List Hash) (num : ℕ)
      → P c
      → P (delete_hashes both hc c hashes num).1
  unfolding delete_hashes
  delete_hashes-keeps hc c [] num p = p
  delete_hashes-keeps hc c (hash ∷ hashes) num p =
      let (hc', c', ws) = delete hc c hash num in
      delete_hashes-keeps hc' c' hashes num (deleted hc c hash num p)

  delete_nums-keeps :
      (hc : HeaderChain S H N) (c : C) (hdr : Header) (nums : List ℕ)
      → P c
      → P (delete_nums both hc c hdr nums).1
  unfolding delete_nums
  delete_nums-keeps hc c hdr [] p = p
  delete_nums-keeps hc c hdr (num ∷ nums) p =
      let stored = S.read_all_hashes hc.chain_db num in
      let hashes : List Hash = elim stored [ [] ↦ hdr.hash ∷ [] | h ∷ hs ↦ h ∷ hs ] in
      let (hc', c', ws) = delete_hashes both hc c hashes num in
      delete_nums-keeps hc' c' hdr nums (delete_hashes-keeps hc c hashes num p)

  -- A round keeps what holds after its call of `updateFn`.
  rewind_step-after :
      (fuel : ℕ) (r : Rewinding S H N C) (hdr : Header)
      → ((hc : HeaderChain S H N) (h : Header) → P (update hc r.closure h).closure)
      → P (rewind_step both fuel r hdr).0.closure
  unfolding rewind_step call_update
  rewind_step-after fuel r hdr after =
      let num = number_u64 hdr in
      let (found, hc) = get_header r.chain hdr.parent_hash (sub64 num 1) in
      let parent : Header = elim found [ none ↦ hc.genesis_header | some p ↦ p ] in
      let u = update hc r.closure parent in
      let kept = after hc parent in
      elim (Option-cases
        (S.commit (u.writes ++ write_head_header_hash parent.hash ∷ []) u.chain.chain_db)) [
          | inl failed ↦ rw (rewind_step, failed) kept
          | inr (db, done) ↦
              let hc' : HeaderChain S H N = record u.chain {
                chain_db = db;
                current_header = parent;
              } in
              let all =
                λ (nums : List ℕ). delete_nums-keeps hc' u.closure hdr (nums ++ num ∷ []) kept in
              elim (Bool-cases r.origin) [
                | inr later ↦ rw (rewind_step, done, later) (all [])
                | inl first ↦ elim (Option-cases (nums_above S fuel db (add64 num 1) [])) [
                  | inl out ↦ rw (rewind_step, done, first, out) kept
                  | inr (nums, above) ↦ rw (rewind_step, done, first, above) (all nums)
                ]
              ]
        ]

  rewind_step-keeps :
      (fuel : ℕ) (r : Rewinding S H N C) (hdr : Header)
      → P r.closure
      → P (rewind_step both fuel r hdr).0.closure
  rewind_step-keeps fuel r hdr p = rewind_step-after fuel r hdr (λ hc h. updated hc r.closure h p)

  rewind_loop-keeps :
      (fuel : ℕ) (r : Rewinding S H N C) → P r.closure → P (rewind_loop both fuel r).0.closure
  unfolding rewind_loop
  rewind_loop-keeps zero r p = p
  rewind_loop-keeps (suc fuel) r p =
      let hdr = r.chain.current_header in
      let (r', error) = rewind_step both fuel r hdr in
      let kept = rewind_step-keeps fuel r hdr p in
      elim (Bool-cases (is_done r.target hdr)) [
        | inl done ↦ rw (rewind_loop, done) p
        | inr further ↦ elim (Option-cases error) [
          | inl fine ↦ rw (rewind_loop, further, fine) (rewind_loop-keeps fuel r' kept)
          | inr (e, failed) ↦ rw (rewind_loop, further, failed) kept
        ]
      ]

  finish_rewind-keeps : (r : Rewinding S H N C) → P r.closure → P (finish_rewind both r).1
  unfolding finish_rewind
  finish_rewind-keeps r p = elim (Option-cases (S.commit r.batch r.chain.chain_db)) [
    | inl failed ↦ rw (finish_rewind, failed) p
    | inr (db, done) ↦ rw (finish_rewind, done) p
  ]

  pub set_head_to-keeps :
      (fuel : ℕ) (hc : HeaderChain S H N) (c : C) (t : Target)
      → P c
      → P (set_head_to both fuel hc c t).1
  unfolding set_head_to
  set_head_to-keeps fuel hc c t p =
      let start : Rewinding S H N C = record {
        chain = hc;
        closure = c;
        target = t;
        origin = true;
        batch = [];
      } in
      let (r, error) = rewind_loop both fuel start in
      let kept = rewind_loop-keeps fuel start p in
      elim (Bool-cases (ltb 0 t.head_time && ltb t.head_time hc.genesis_header.time)) [
        | inl early ↦ rw (set_head_to, early) p
        | inr fine ↦ elim (Option-cases error) [
          | inl done ↦ rw (set_head_to, fine, done) (finish_rewind-keeps r kept)
          | inr (e, failed) ↦ rw (set_head_to, fine, failed) kept
        ]
      ]

  rewind_loop-after :
      (fuel : ℕ) (r : Rewinding S H N C)
      → is_done r.target r.chain.current_header ≡ false
      → ((hc : HeaderChain S H N) (h : Header) → P (update hc r.closure h).closure)
      → P (rewind_loop both (suc fuel) r).0.closure
  unfolding rewind_loop
  rewind_loop-after fuel r further after =
      let hdr = r.chain.current_header in
      let (r', error) = rewind_step both fuel r hdr in
      let kept = rewind_step-after fuel r hdr after in
      elim (Option-cases error) [
        | inl fine ↦ rw (rewind_loop, further, fine) (rewind_loop-keeps fuel r' kept)
        | inr (e, failed) ↦ rw (rewind_loop, further, failed) kept
      ]

  -- A rewind to a number below the head calls `updateFn`, and keeps what holds after that call.
  pub set_head_to-after :
      (fuel : ℕ) (hc : HeaderChain S H N) (c : C) (head : ℕ)
      → head < number_u64 hc.current_header
      → ((hc' : HeaderChain S H N) (h : Header) → P (update hc' c h).closure)
      → P (set_head_to both (suc fuel) hc c (record { head_block = head; head_time = 0 })).1
  unfolding set_head_to is_done
  set_head_to-after fuel hc c head below after =
      let start : Rewinding S H N C = record {
        chain = hc;
        closure = c;
        target = record { head_block = head; head_time = 0 };
        origin = true;
        batch = [];
      } in
      let (r, error) = rewind_loop both (suc fuel) start in
      let kept = rewind_loop-after fuel start (ground arith) after in
      elim (Option-cases error) [
        | inr (e, failed) ↦ rw (set_head_to, failed) kept
        | inl done ↦ rw (set_head_to, done) (finish_rewind-keeps r kept)
      ]
