-- ===== src/Core/BlockChain/SetHead/Purged.antt =====
-- core/headerchain.go: the caches after `setHead`, and the lookups through them.
use mive.Base.{
  ℕ, ◌≡◌, ◌∙◌, inl, inr, true, none, some, [], ltb, ◌&&◌, arith, Option-cases, Bool-cases,
}
use mive.Core.Types.{Hash, Header}
use mive.Core.Lru.{Lru, IsLru}
use mive.Core.Rawdb.{Storage}
use mive.Core.Rawdb.Accessors.{read_header}
use mive.Core.HeaderChain.{HeaderChain, get_block_number, get_header_by_hash, get_header}
use mive.Core.HeaderChain.Rewind.{
  Target, Callbacks, Rewinding, rewind_loop, finish_rewind, set_head_to,
}

-- A header chain whose caches are empty.
pub record IsPurged {S : Storage} {H : Lru Hash Header} {N : Lru Hash ℕ} (hc : HeaderChain S H N)
    : Type 0 where
  pub no_number : (h : Hash) → N.entry hc.number_cache h ≡ none
  pub no_header : (h : Hash) → H.entry hc.header_cache h ≡ none

module _ {S : Storage} {H : Lru Hash Header} {N : Lru Hash ℕ} (headers : IsLru H)
    (numbers : IsLru N) where
  finish_rewind-IsPurged :
      {C : Type 0} (both : Callbacks S H N C) (r : Rewinding S H N C)
      → (finish_rewind both r).2 ≡ none
      → IsPurged (finish_rewind both r).0
  unfolding finish_rewind
  finish_rewind-IsPurged both r fine = elim (Option-cases (S.commit r.batch r.chain.chain_db)) [
    | inl failed ↦ absurd (ground (arith, failed))
    | inr (db, done) ↦
        rw (finish_rewind, done)
          (record {
            no_number = λ h. numbers.entry-purge r.chain.number_cache h;
            no_header = λ h. headers.entry-purge r.chain.header_cache h;
          })
  ]

  -- A rewind that ends well has cleared the caches.
  pub set_head_to-IsPurged :
      {C : Type 0} (both : Callbacks S H N C) (fuel : ℕ) (hc : HeaderChain S H N) (c : C)
      (t : Target)
      → (set_head_to both fuel hc c t).2 ≡ none
      → IsPurged (set_head_to both fuel hc c t).0
  unfolding set_head_to
  set_head_to-IsPurged both fuel hc c t fine =
      let start : Rewinding S H N _ = record {
        chain = hc;
        closure = c;
        target = t;
        origin = true;
        batch = [];
      } in
      let (r, error) = rewind_loop both fuel start in
      elim (Bool-cases (ltb 0 t.head_time && ltb t.head_time hc.genesis_header.time)) [
        | inl early ↦ absurd (ground (arith, early))
        | inr late ↦ elim (Option-cases error) [
          | inl done ↦
              rw (set_head_to, late, done)
                (finish_rewind-IsPurged both r (ground (arith, late, done)))
          | inr (e, failed) ↦ absurd (ground (arith, late, failed))
        ]
      ]

  -- With empty caches, a number that is found comes from the database, and so does a header that is found
  -- after it.
  pub lookup-stored :
      (hc : HeaderChain S H N) (hash : Hash) (n : ℕ) (h : Header)
      → IsPurged hc
      → let (found, hc') = get_block_number hc hash in
        found ≡ some n
        → (get_header_by_hash hc' hash).0 ≡ some h
        → (S.read_header_number hc.chain_db hash ≡ some n)
          × (read_header S hc.chain_db hash n ≡ some h)
  unfolding get_block_number get_header_by_hash get_header
  lookup-stored hc hash n h p found header =
      let miss = numbers.get-entry hc.number_cache hash ∙ p.no_number hash in
      let cache = (N.get hc.number_cache hash).1 in
      let again =
        numbers.get-entry (N.add cache hash n) hash ∙ numbers.entry-add_self cache hash n in
      let empty = headers.get-entry hc.header_cache hash ∙ p.no_header hash in
      let known : S.read_header_number hc.chain_db hash ≡ some n = ground (arith, miss) in
      (known, ground (arith, miss, known, again, empty))
