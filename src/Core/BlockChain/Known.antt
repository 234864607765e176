-- ===== src/Core/BlockChain/Known.antt =====
-- core/headerchain.go: the lookups of a header that is stored, through the caches.
use mive.Base.{ℕ, ◌≡◌, ◌≢◌, ◌∙◌, ap, sym, false, some, arith, Option-cases, inl, inr, ◌==◌}
use mive.Core.Types.{Hash, zero_hash, Header, number_u64}
use mive.Core.Lru.{Lru, IsLru}
use mive.Core.Rawdb.{Storage}
use mive.Core.Rawdb.Accessors.{read_header}
use mive.Core.HeaderChain.{set_current_header}
use mive.Core.HeaderChain
use mive.Core.BlockChain.{Env, Headers}

module _ {S : Storage} {H : Lru Hash Header} {N : Lru Hash ℕ}
    (hc : HeaderChain.HeaderChain S H N) where
  pub current_header-get_header_by_hash :
      (h : Hash) → (HeaderChain.get_header_by_hash hc h).1.current_header ≡ hc.current_header
  unfolding HeaderChain.get_header_by_hash HeaderChain.get_block_number HeaderChain.get_header
  current_header-get_header_by_hash h = ground arith

  pub genesis_header-get_header_by_hash :
      (h : Hash) → (HeaderChain.get_header_by_hash hc h).1.genesis_header ≡ hc.genesis_header
  unfolding HeaderChain.get_header_by_hash HeaderChain.get_block_number HeaderChain.get_header
  genesis_header-get_header_by_hash h = ground arith

  pub current_header-get_header_by_number :
      (n : ℕ) → (HeaderChain.get_header_by_number hc n).1.current_header ≡ hc.current_header
  unfolding HeaderChain.get_header_by_number HeaderChain.get_header
  current_header-get_header_by_number n = ground arith

-- The header is stored in the database under its hash and number, and no cache says otherwise.
pub record Knows (E : Env) (g : Header) (db : E.storage.Db) (hc : Headers E) : Type 0 where
  pub same : hc.chain_db ≡ db
  pub number : E.storage.read_header_number hc.chain_db g.hash ≡ some (number_u64 g)
  pub stored : read_header E.storage hc.chain_db g.hash (number_u64 g) ≡ some g
  pub cached_number :
      (m : ℕ) → E.number_lru.entry hc.number_cache g.hash ≡ some m → m ≡ number_u64 g
  pub cached_header : (h : Header) → E.header_lru.entry hc.header_cache g.hash ≡ some h → h ≡ g

module _ {E : Env} (headers : IsLru E.header_lru) (numbers : IsLru E.number_lru) (g : Header)
    (db : E.storage.Db) where
  pub get_block_number-Knows :
      (hc : Headers E)
      → Knows E g db hc
      → ((HeaderChain.get_block_number hc g.hash).0 ≡ some (number_u64 g))
        × Knows E g db (HeaderChain.get_block_number hc g.hash).1
  unfolding HeaderChain.get_block_number
  get_block_number-Knows hc k =
      let cache = (E.number_lru.get hc.number_cache g.hash).1 in
      let n = number_u64 g in
      elim (Option-cases (E.number_lru.get hc.number_cache g.hash).0) [
        | inr (m, hit) ↦
            let e = k.cached_number m (sym (numbers.get-entry hc.number_cache g.hash) ∙ hit) in
            (
              rw (HeaderChain.get_block_number, hit, e),
              rw (HeaderChain.get_block_number, hit)
                  (record {
                    same = k.same;
                    number = k.number;
                    stored = k.stored;
                    cached_number = λ m' at.
                        k.cached_number m'
                          (sym (numbers.entry-get hc.number_cache g.hash g.hash) ∙ at);
                    cached_header = k.cached_header;
                  }),
            )
        | inl miss ↦ (
          rw (HeaderChain.get_block_number, miss, k.number),
          rw (HeaderChain.get_block_number, miss, k.number)
              (record {
                same = k.same;
                number = k.number;
                stored = k.stored;
                cached_number = λ m' at. ground (arith, numbers.entry-add_self cache g.hash n);
                cached_header = k.cached_header;
              }),
        )
      ]

  pub get_header-Knows :
      (hc : Headers E)
      → Knows E g db hc
      → ((HeaderChain.get_header hc g.hash (number_u64 g)).0 ≡ some g)
        × Knows E g db (HeaderChain.get_header hc g.hash (number_u64 g)).1
  unfolding HeaderChain.get_header
  get_header-Knows hc k =
      let cache = (E.header_lru.get hc.header_cache g.hash).1 in
      elim (Option-cases (E.header_lru.get hc.header_cache g.hash).0) [
        | inr (h, hit) ↦
            let e = k.cached_header h (sym (headers.get-entry hc.header_cache g.hash) ∙ hit) in
            (
              rw (HeaderChain.get_header, hit, e),
              rw (HeaderChain.get_header, hit)
                  (record {
                    same = k.same;
                    number = k.number;
                    stored = k.stored;
                    cached_number = k.cached_number;
                    cached_header = λ h' at.
                        k.cached_header h'
                          (sym (headers.entry-get hc.header_cache g.hash g.hash) ∙ at);
                  }),
            )
        | inl miss ↦ (
          rw (HeaderChain.get_header, miss, k.stored),
          rw (HeaderChain.get_header, miss, k.stored)
              (record {
                same = k.same;
                number = k.number;
                stored = k.stored;
                cached_number = k.cached_number;
                cached_header = λ h' at. ground (arith, headers.entry-add_self cache g.hash g);
              }),
        )
      ]

  pub get_header_by_hash-Knows :
      (hc : Headers E)
      → Knows E g db hc
      → ((HeaderChain.get_header_by_hash hc g.hash).0 ≡ some g)
        × Knows E g db (HeaderChain.get_header_by_hash hc g.hash).1
  unfolding HeaderChain.get_header_by_hash
  get_header_by_hash-Knows hc k =
      let (number, k') = get_block_number-Knows hc k in
      let (found, k'') = get_header-Knows (HeaderChain.get_block_number hc g.hash).1 k' in
      (
        rw (HeaderChain.get_header_by_hash, number) found,
        rw (HeaderChain.get_header_by_hash, number) k'',
      )

  -- The canonical header of the number.
  pub get_header_by_number-Knows :
      (hc : Headers E) (n : ℕ)
      → n ≡ number_u64 g
      → E.storage.read_canonical_hash db n ≡ g.hash
      → g.hash ≢ zero_hash
      → Knows E g db hc
      → ((HeaderChain.get_header_by_number hc n).0 ≡ some g)
        × Knows E g db (HeaderChain.get_header_by_number hc n).1
  unfolding HeaderChain.get_header_by_number
  get_header_by_number-Knows hc n e canonical set k =
      let (found, k') = get_header-Knows hc k in
      let test : (g.hash == zero_hash) ≡ false = ground arith in
      let here = ap (λ d. E.storage.read_canonical_hash d n) k.same ∙ canonical in
      (
        rw (HeaderChain.get_header_by_number, here, test, e) found,
        rw (HeaderChain.get_header_by_number, here, test, e) k',
      )
