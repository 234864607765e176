-- ===== src/Core/HeaderChain/Create.antt =====
-- core/headerchain.go: `NewHeaderChain`, and the segment that `GetHeadersFrom` serves.
use mive.Base.{
  ℕ, zero, suc, ◌⊎◌, inl, inr, Bytes, none, some, List, [], ◌∷◌, ◌++◌, ◌==◌, ltb, if◌then◌else◌,
  sub64,
}
use mive.Core.Types.{Hash, zero_hash, Header, number_u64}
use mive.Core.Lru.{Lru}
use mive.Core.Rawdb.{Storage}
use mive.Core.HeaderChain.{
  HeaderChain, Error, no_genesis, get_header_by_number, get_header_by_hash, set_current_header,
  set_genesis,
}

-- What stands for the two headers before they are read; it is never looked at.
abbrev pub blank_header : Header
blank_header = record {
  parent_hash = zero_hash;
  hash = zero_hash;
  number = 0;
  time = 0;
  root = zero_hash;
  receipt_hash = zero_hash;
  bloom = [];
  gas_used = 0;
}

module _ {S : Storage} {H : Lru Hash Header} {N : Lru Hash ℕ} where
  -- `NewHeaderChain`, over new caches and the number of the genesis block; without its random seed.
  unfoldable pub new_header_chain : S.Db → H.Cache → N.Cache → ℕ → Error ⊎ HeaderChain S H N
  new_header_chain db header_cache number_cache genesis_block =
      let hc : HeaderChain S H N = record {
        chain_db = db;
        genesis_header = blank_header;
        current_header = blank_header;
        header_cache = header_cache;
        number_cache = number_cache;
      } in
      let (genesis, read) = get_header_by_number hc genesis_block in
      let head = S.read_head_block_hash db in
      elim genesis [
        | none ↦ inl no_genesis
        | some g ↦
            let started : HeaderChain S H N = set_current_header (set_genesis read g) g in
            let (chead, looked) = get_header_by_hash started head in
            if head == zero_hash
            then inr started
            else elim chead [ none ↦ inr looked | some c ↦ inr (set_current_header looked c) ]
      ]

  -- The part of a segment that is in the cache: the encoded headers, the chain, and the number and the
  -- count of the headers left.
  unfoldable pub cached_headers :
      HeaderChain S H N → Hash → ℕ → ℕ → List Bytes × HeaderChain S H N × ℕ × ℕ
  cached_headers hc hash number zero = ([], hc, number, 0)
  cached_headers hc hash number (suc count) =
      let (found, cache) = H.get hc.header_cache hash in
      let hc' : HeaderChain S H N = record hc { header_cache = cache } in
      elim found [
        | none ↦ ([], hc', number, suc count)
        | some header ↦
            let (headers, hc'', number', left) =
              cached_headers hc' header.parent_hash (sub64 number 1) count in
            (S.rlp_encode header ∷ headers, hc'', number', left)
      ]

  -- `GetHeadersFrom`; `read_range` is go-ethereum's `ReadHeaderRange`.
  unfoldable pub get_headers_from :
      (S.Db → ℕ → ℕ → List Bytes) → HeaderChain S H N → ℕ → ℕ → List Bytes × HeaderChain S H N
  get_headers_from read_range hc number count =
      let current = number_u64 hc.current_header in
      let future = ltb current number in
      let ahead = sub64 number current in
      let from = if future then current else number in
      let wanted = if future then sub64 count ahead else count in
      let hash = S.read_canonical_hash hc.chain_db from in
      let (headers, hc', number', left) = cached_headers hc hash from wanted in
      let served : List Bytes × HeaderChain S H N = if hash == zero_hash then ([], hc) else (
        if left == 0 then headers else headers ++ read_range hc'.chain_db number' left,
        hc',
      ) in
      if future then (if ltb ahead count then served else ([], hc)) else served
