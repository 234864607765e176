-- ===== src/Core/HeaderChain/Import/Aborted.antt =====
-- core/headerchain.go: what an import of headers leaves when it fails, and when it is interrupted.
use mive.Base.{
  ℕ, ◌≡◌, refl, ◌≢◌, Bool, true, false, none, some, List, [], ◌∷◌, arith, Option-cases, inl, inr,
  sub64, ap, sym, ◌∙◌,
}
use mive.Core.Types.{Hash, Header, number_u64}
use mive.Core.Lru.{Lru, IsLru}
use mive.Core.Rawdb.{Storage}
use mive.Core.Rawdb.Accessors.{write_header, read_header}
use mive.Core.Rawdb.Effects.{IsStorage, canonical_after}
use mive.Core.HeaderChain.Committed.{read_header-IndexOnly}
use mive.Core.HeaderChain.{HeaderChain, aborted, get_header, has_header}
use mive.Core.HeaderChain.Lookup.{chain_db-get_header, current_header-get_header}
use mive.Core.HeaderChain.Reorg.{reorg}
use mive.Core.HeaderChain.Reorg.Outcome.{SameChain, reorg-SameChain}
use mive.Core.HeaderChain.Import.{
  record_headers, write_headers, set_head_of, write_headers_and_set_head, insert_header_chain,
}

module _ {S : Storage} {H : Lru Hash Header} {N : Lru Hash ℕ} where
  record_headers-SameChain :
      (hc : HeaderChain S H N) (known : Bool) (headers : List Header)
      → SameChain hc (record_headers hc known headers).0
  unfolding record_headers
  record_headers-SameChain hc known [] = record { same_db = refl; same_head = refl }
  record_headers-SameChain hc known (header ∷ headers) =
      let number = number_u64 header in
      let cached : HeaderChain S H N = record hc {
        header_cache = H.add hc.header_cache header.hash header;
        number_cache = N.add hc.number_cache header.hash number;
      } in
      let old = record_headers-SameChain hc true headers in
      let new = record_headers-SameChain cached false headers in
      ground (arith, old.same_db, old.same_head, new.same_db, new.same_head)

  -- No header that is recorded touches the canonical index.
  record_headers-canonical :
      (hc : HeaderChain S H N) (known : Bool) (headers : List Header) (n : ℕ) (old : Hash)
      → canonical_after (record_headers hc known headers).1 n old ≡ old
  unfolding record_headers canonical_after write_header
  record_headers-canonical hc known [] n old = refl
  record_headers-canonical hc known (header ∷ headers) n old =
      let cached : HeaderChain S H N = record hc {
        header_cache = H.add hc.header_cache header.hash header;
        number_cache = N.add hc.number_cache header.hash (number_u64 header);
      } in
      ground (
        arith,
        record_headers-canonical hc true headers n old,
        record_headers-canonical cached false headers n old,
      )

  -- `WriteHeaders` with an error leaves the database and the head alone.
  pub write_headers-SameChain :
      (interrupted : Bool) (hc : HeaderChain S H N) (headers : List Header)
      → (write_headers interrupted hc headers).2 ≢ none
      → SameChain hc (write_headers interrupted hc headers).0
  unfolding write_headers
  write_headers-SameChain interrupted hc [] failed = record { same_db = refl; same_head = refl }
  write_headers-SameChain interrupted hc (first ∷ rest) failed =
      let m = sub64 (number_u64 first) 1 in
      let hc' = (get_header hc first.parent_hash m).1 in
      let kept = record_headers-SameChain hc' true (first ∷ rest) in
      ground (
        arith,
        chain_db-get_header hc first.parent_hash m,
        current_header-get_header hc first.parent_hash m,
        kept.same_db,
        kept.same_head,
      )

  write_headers-current_header :
      (interrupted : Bool) (hc : HeaderChain S H N) (headers : List Header)
      → (write_headers interrupted hc headers).0.current_header ≡ hc.current_header
  unfolding write_headers
  write_headers-current_header interrupted hc [] = refl
  write_headers-current_header interrupted hc (first ∷ rest) =
      let m = sub64 (number_u64 first) 1 in
      let hc' = (get_header hc first.parent_hash m).1 in
      ground (
        arith,
        current_header-get_header hc first.parent_hash m,
        (record_headers-SameChain hc' true (first ∷ rest)).same_head,
      )

module _ {S : Storage} (laws : IsStorage S) {H : Lru Hash Header} {N : Lru Hash ℕ} where
  write_headers-canonical :
      (interrupted : Bool) (hc : HeaderChain S H N) (headers : List Header) (n : ℕ)
      → S.read_canonical_hash (write_headers interrupted hc headers).0.chain_db n
        ≡ S.read_canonical_hash hc.chain_db n
  unfolding write_headers
  write_headers-canonical interrupted hc [] n = refl
  write_headers-canonical interrupted hc (first ∷ rest) n =
      let m = sub64 (number_u64 first) 1 in
      let hc' = (get_header hc first.parent_hash m).1 in
      let (hc'', batch, inserted) = record_headers hc' true (first ∷ rest) in
      let same = (record_headers-SameChain hc' true (first ∷ rest)).same_db in
      let read = chain_db-get_header hc first.parent_hash m in
      elim (Option-cases (S.commit batch hc''.chain_db)) [
        | inl failed ↦ ground (arith, read, same)
        | inr (db, done) ↦ ground (
          arith,
          read,
          same,
          laws.read_canonical_hash-commit batch hc''.chain_db n done,
          record_headers-canonical hc' true (first ∷ rest) n
              (S.read_canonical_hash hc''.chain_db n),
        )
      ]

  -- `InsertHeaderChain` with an error leaves the head and the whole canonical index as they were.
  pub insert_header_chain-failed :
      (fuel : ℕ) (stopped interrupted : Bool) (hc : HeaderChain S H N) (chain : List Header) (n : ℕ)
      → (insert_header_chain fuel stopped interrupted hc chain).2 ≢ none
      → let hc' = (insert_header_chain fuel stopped interrupted hc chain).0 in
        (hc'.current_header ≡ hc.current_header)
        × (S.read_canonical_hash hc'.chain_db n ≡ S.read_canonical_hash hc.chain_db n)
  unfolding insert_header_chain write_headers_and_set_head set_head_of
  insert_header_chain-failed fuel stopped interrupted hc [] n failed = ground (
    arith,
    write_headers-current_header interrupted hc [],
    write_headers-canonical interrupted hc [] n,
  )
  insert_header_chain-failed fuel stopped interrupted hc (first ∷ rest) n failed =
      let hc' = (write_headers interrupted hc (first ∷ rest)).0 in
      let head = write_headers-current_header interrupted hc (first ∷ rest) in
      let index = write_headers-canonical interrupted hc (first ∷ rest) n in
      elim (Option-cases (reorg fuel hc' (first ∷ rest)).1) [
        | inl fine ↦ ground (arith, head, index)
        | inr (e, bad) ↦
            let kept = reorg-SameChain fuel hc' (first ∷ rest) (λ q. cc) in
            ground (arith, head, index, kept.same_db, kept.same_head)
      ]

module _ {S : Storage} {H : Lru Hash Header} {N : Lru Hash ℕ} (laws : IsStorage S)
    (number_lru : IsLru N) where
  -- What the interrupted call for an unknown header leaves: a database as it was, and the number in the cache.
  write_headers-aborted :
      (hc : HeaderChain S H N) (header : Header)
      → has_header
          (get_header hc header.parent_hash (sub64 (number_u64 header) 1)).1
          header.hash
          (number_u64 header)
        ≡ false
      → (write_headers true hc (header ∷ [])).2 ≡ some aborted
      → let hc' = (write_headers true hc (header ∷ [])).0 in
        (hc'.chain_db ≡ hc.chain_db) × (N.contains hc'.number_cache header.hash ≡ true)
  unfolding write_headers record_headers
  write_headers-aborted hc header unknown stopped =
      let m = sub64 (number_u64 header) 1 in
      let hc' = (get_header hc header.parent_hash m).1 in
      let same = chain_db-get_header hc header.parent_hash m in
      let number = number_u64 header in
      (
        ground (arith, same),
        ground (
          arith,
          unknown,
          number_lru.entry-add_self hc'.number_cache header.hash number,
          number_lru.contains-entry (N.add hc'.number_cache header.hash number) header.hash,
        ),
      )

  -- An unknown header is not stored.
  unknown-unstored :
      (hc : HeaderChain S H N) (h : Hash) (n : ℕ)
      → has_header hc h n ≡ false
      → read_header S hc.chain_db h n ≡ none
  unfolding has_header read_header
  unknown-unstored hc h n unknown = ground (arith, laws.has_header-rlp hc.chain_db h n)

  -- A header whose number is cached is not written.
  write_headers-cached :
      (hc : HeaderChain S H N) (header : Header)
      → N.contains hc.number_cache header.hash ≡ true
      → (write_headers false hc (header ∷ [])).2 ≡ none
      → (db : S.Db) × (S.commit [] hc.chain_db ≡ some db)
        × ((write_headers false hc (header ∷ [])).0.chain_db ≡ db)
        × ((write_headers false hc (header ∷ [])).1 ≡ 0)
  unfolding write_headers record_headers has_header get_header
  write_headers-cached hc header cached fine = elim (Option-cases (S.commit [] hc.chain_db)) [
    | inl failed ↦ absurd (ground (arith, cached, failed))
    | inr (db, done) ↦ (db, done, ground (arith, cached, done), ground (arith, cached, done))
  ]

  -- A `WriteHeaders` of one header that is unknown once its parent is looked up is interrupted. A second one
  -- of that header that is not interrupted and returns without an error then counts no header as written, and
  -- the header is not stored after it.
  pub write_headers-forgotten :
      (hc : HeaderChain S H N) (header : Header)
      → has_header
          (get_header hc header.parent_hash (sub64 (number_u64 header) 1)).1
          header.hash
          (number_u64 header)
        ≡ false
      → (write_headers true hc (header ∷ [])).2 ≡ some aborted
      → (write_headers false (write_headers true hc (header ∷ [])).0 (header ∷ [])).2 ≡ none
      → let (hc', imported, _) =
          write_headers false (write_headers true hc (header ∷ [])).0 (header ∷ []) in
        (imported ≡ 0) × (read_header S hc'.chain_db header.hash (number_u64 header) ≡ none)
  write_headers-forgotten hc header unknown stopped fine =
      let (same, cached) = write_headers-aborted hc header unknown stopped in
      let (db, done, left, nothing) =
        write_headers-cached (write_headers true hc (header ∷ [])).0 header cached fine in
      let h = header.hash in
      let n = number_u64 header in
      let m = sub64 n 1 in
      (
        nothing,
        ap (λ d. read_header S d h n) left
            ∙ read_header-IndexOnly laws _ tt done h n
            ∙ ap (λ d. read_header S d h n) same
            ∙ ap (λ d. read_header S d h n) (sym (chain_db-get_header hc header.parent_hash m))
            ∙ unknown-unstored (get_header hc header.parent_hash m).1 h n unknown,
      )
