-- ===== src/Core/HeaderChain/WellFormed.antt =====
-- What the header chain of core/headerchain.go keeps true of its database, caches and head.
use mive.Base.{ℕ, suc, ◌-◌, ◌≤◌, ◌<◌, ◌≡◌, ◌≢◌, some, max_uint64}
use mive.Core.Types.{Hash, zero_hash, Header}
use mive.Core.Lru.{Lru}
use mive.Core.Rawdb.{Storage}
use mive.Core.Rawdb.Accessors.{read_header}
use mive.Core.HeaderChain.{HeaderChain}

-- The headers stored in a database are those that they claim to be, none lies below the genesis
-- block, and a parent's number is one less than its child's.
pub record IsSound (S : Storage) (genesis : ℕ) (db : S.Db) : Type 0 where
  pub keyed :
      (h : Hash) (n : ℕ) {header : Header}
      → read_header S db h n ≡ some header
      → (header.hash ≡ h) × (header.number ≡ n) × (h ≢ zero_hash)
  pub bounded :
      (h : Hash) (n : ℕ) {header : Header}
      → read_header S db h n ≡ some header
      → (genesis ≤ n) × (n < max_uint64)
  pub parent_number :
      (h : Hash) (n m : ℕ) {header parent : Header}
      → read_header S db h n ≡ some header
      → read_header S db header.parent_hash m ≡ some parent
      → n ≡ suc m

-- The header cache holds stored headers only.
pub record IsCoherent {S : Storage} {H : Lru Hash Header} {N : Lru Hash ℕ} (hc : HeaderChain S H N)
    : Type 0 where
  pub cached :
      (h : Hash) {header : Header}
      → H.entry hc.header_cache h ≡ some header
      → read_header S hc.chain_db h header.number ≡ some header

-- The canonical index `c` has a stored header at `n`, whose parent is the one at `n - 1`.
pub record LinkedAt (S : Storage) (genesis : ℕ) (db : S.Db) (c : ℕ → Hash) (n : ℕ) : Type 0 where
  pub header : Header
  pub stored : read_header S db (c n) n ≡ some header
  pub parent : genesis < n → header.parent_hash ≡ c (n - 1)

-- The head is not below the genesis block, from there up to it the canonical index is one chain of stored headers, and
-- above the head it is empty.
pub record IsCanonical (S : Storage) (genesis : ℕ) (db : S.Db) (head : Header) : Type 0 where
  pub floor : genesis ≤ head.number
  pub top : S.read_canonical_hash db head.number ≡ head.hash
  pub above : (n : ℕ) → head.number < n → S.read_canonical_hash db n ≡ zero_hash
  pub linked :
      (n : ℕ) → genesis ≤ n → n ≤ head.number → LinkedAt S genesis db (S.read_canonical_hash db) n

-- A chain with a sound database, coherent caches and a canonical branch that ends in its head.
pub record IsWellFormed {S : Storage} {H : Lru Hash Header} {N : Lru Hash ℕ} (genesis : ℕ)
    (hc : HeaderChain S H N) : Type 0 where
  pub sound : IsSound S genesis hc.chain_db
  pub coherent : IsCoherent hc
  pub canonical : IsCanonical S genesis hc.chain_db hc.current_header
