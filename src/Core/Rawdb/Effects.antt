-- ===== src/Core/Rawdb/Effects.antt =====
-- What a committed batch does to each read: the documented behaviour of a key-value store.
use mive.Base.{
  ℕ, Bytes, ◌≡◌, refl, Bool, ◌&&◌, not, Option, none, some, List, [], ◌∷◌, ◌++◌, is_empty, ◌==◌,
  if◌then◌else◌,
}
use mive.Core.Types.{Hash, zero_hash, Header}
use mive.Core.Rawdb.{
  Storage, Write, write_canonical_hash, delete_canonical_hash, write_head_header_hash,
  write_head_block_hash, write_head_fast_block_hash, write_finalized_block_hash,
  write_header_number, delete_header_number, put_header, delete_header, put_config,
}

-- Each function gives the value that a key holds after the writes, from its value before them.
unfoldable pub canonical_after : List Write → ℕ → Hash → Hash
canonical_after [] n old = old
canonical_after (write_canonical_hash hash m ∷ ws) n old =
    canonical_after ws n (if m == n then hash else old)
canonical_after (delete_canonical_hash m ∷ ws) n old =
    canonical_after ws n (if m == n then zero_hash else old)
canonical_after (_ ∷ ws) n old = canonical_after ws n old

unfoldable pub header_after : List Write → Hash → ℕ → Bytes → Bytes
header_after [] h n old = old
header_after (put_header m hash rlp ∷ ws) h n old =
    header_after ws h n (if hash == h && m == n then rlp else old)
header_after (delete_header hash m ∷ ws) h n old =
    header_after ws h n (if hash == h && m == n then [] else old)
header_after (_ ∷ ws) h n old = header_after ws h n old

unfoldable pub number_after : List Write → Hash → Option ℕ → Option ℕ
number_after [] h old = old
number_after (write_header_number hash n ∷ ws) h old =
    number_after ws h (if hash == h then some n else old)
number_after (delete_header_number hash ∷ ws) h old =
    number_after ws h (if hash == h then none else old)
number_after (delete_header hash m ∷ ws) h old = number_after ws h (if hash == h then none else old)
number_after (_ ∷ ws) h old = number_after ws h old

unfoldable pub head_header_after : List Write → Hash → Hash
head_header_after [] old = old
head_header_after (write_head_header_hash hash ∷ ws) old = head_header_after ws hash
head_header_after (_ ∷ ws) old = head_header_after ws old

unfoldable pub head_block_after : List Write → Hash → Hash
head_block_after [] old = old
head_block_after (write_head_block_hash hash ∷ ws) old = head_block_after ws hash
head_block_after (_ ∷ ws) old = head_block_after ws old

unfoldable pub head_fast_block_after : List Write → Hash → Hash
head_fast_block_after [] old = old
head_fast_block_after (write_head_fast_block_hash hash ∷ ws) old = head_fast_block_after ws hash
head_fast_block_after (_ ∷ ws) old = head_fast_block_after ws old

unfoldable pub finalized_block_after : List Write → Hash → Hash
finalized_block_after [] old = old
finalized_block_after (write_finalized_block_hash hash ∷ ws) old = finalized_block_after ws hash
finalized_block_after (_ ∷ ws) old = finalized_block_after ws old

unfoldable pub config_after : List Write → Hash → Bytes → Bytes
config_after [] h old = old
config_after (put_config hash json ∷ ws) h old = config_after ws h (if hash == h then json else old)
config_after (_ ∷ ws) h old = config_after ws h old

-- The laws of the active key-value store, where nothing has moved to the ancient store.
pub record IsStorage (S : Storage) : Type 0 where
  pub read_canonical_hash-commit :
      (ws : List Write) (db : S.Db) {db' : S.Db} (n : ℕ)
      → S.commit ws db ≡ some db'
      → S.read_canonical_hash db' n ≡ canonical_after ws n (S.read_canonical_hash db n)
  pub read_header_rlp-commit :
      (ws : List Write) (db : S.Db) {db' : S.Db} (h : Hash) (n : ℕ)
      → S.commit ws db ≡ some db'
      → S.read_header_rlp db' h n ≡ header_after ws h n (S.read_header_rlp db h n)
  pub read_header_number-commit :
      (ws : List Write) (db : S.Db) {db' : S.Db} (h : Hash)
      → S.commit ws db ≡ some db'
      → S.read_header_number db' h ≡ number_after ws h (S.read_header_number db h)
  pub read_head_header_hash-commit :
      (ws : List Write) (db : S.Db) {db' : S.Db}
      → S.commit ws db ≡ some db'
      → S.read_head_header_hash db' ≡ head_header_after ws (S.read_head_header_hash db)
  pub read_head_block_hash-commit :
      (ws : List Write) (db : S.Db) {db' : S.Db}
      → S.commit ws db ≡ some db'
      → S.read_head_block_hash db' ≡ head_block_after ws (S.read_head_block_hash db)
  pub read_head_fast_block_hash-commit :
      (ws : List Write) (db : S.Db) {db' : S.Db}
      → S.commit ws db ≡ some db'
      → S.read_head_fast_block_hash db' ≡ head_fast_block_after ws (S.read_head_fast_block_hash db)
  pub read_finalized_block_hash-commit :
      (ws : List Write) (db : S.Db) {db' : S.Db}
      → S.commit ws db ≡ some db'
      → S.read_finalized_block_hash db' ≡ finalized_block_after ws (S.read_finalized_block_hash db)
  pub read_config-commit :
      (ws : List Write) (db : S.Db) {db' : S.Db} (h : Hash)
      → S.commit ws db ≡ some db'
      → S.read_config db' h ≡ config_after ws h (S.read_config db h)
  pub has_header-rlp :
      (db : S.Db) (h : Hash) (n : ℕ)
      → S.has_header db h n ≡ not (is_empty (S.read_header_rlp db h n))
  pub rlp_decode-encode : (header : Header) → S.rlp_decode (S.rlp_encode header) ≡ some header
  pub rlp_encode-ne-nil : (header : Header) → is_empty (S.rlp_encode header) ≡ Bool.false

pub canonical_after-append :
    (ws vs : List Write) (n : ℕ) (old : Hash)
    → canonical_after (ws ++ vs) n old ≡ canonical_after vs n (canonical_after ws n old)
unfolding canonical_after
canonical_after-append [] vs n old = refl
canonical_after-append (write_canonical_hash hash m ∷ ws) vs n old =
    canonical_after-append ws vs n _
canonical_after-append (delete_canonical_hash m ∷ ws) vs n old = canonical_after-append ws vs n _
canonical_after-append (_ ∷ ws) vs n old = canonical_after-append ws vs n old

-- A write of the canonical index or of the head marker leaves the stored headers alone.
abbrev pub is_index_write : Write → Bool
is_index_write (write_canonical_hash hash n) = Bool.true
is_index_write (delete_canonical_hash n) = Bool.true
is_index_write (write_head_header_hash hash) = Bool.true
is_index_write _ = Bool.false
