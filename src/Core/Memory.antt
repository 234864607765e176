-- ===== src/Core/Memory.antt =====
-- A database and a cache in memory, which meet the laws of the parameters in Core/Rawdb and Core/Lru.
pub mod Laws
use mive.Base.{
  ℕ, Bytes, ◌≡◌, refl, Bool, not, Option, none, some, List, [], ◌∷◌, ◌++◌, ◌==◌, ◌&&◌,
  if◌then◌else◌, is_empty, is_some,
}
use mive.Core.Types.{Hash, zero_hash, Header}
use mive.Core.Lru.{Lru}
use mive.Core.Rawdb.{
  Storage, Write, write_canonical_hash, delete_canonical_hash, write_head_header_hash,
  write_head_block_hash, write_head_fast_block_hash, write_finalized_block_hash,
  write_header_number, delete_header_number, put_header, delete_header, delete_receipts,
  write_empty_receipts, write_genesis_state_spec, put_config,
}

pub record Memory : Type 0 where
  pub canonical : ℕ → Hash
  pub numbers : Hash → Option ℕ
  pub headers : Hash → ℕ → Bytes
  pub all_hashes : ℕ → List Hash
  pub head_header : Hash
  pub head_block : Hash
  pub head_fast_block : Hash
  pub finalized_block : Hash
  pub pivot : Option ℕ
  pub configs : Hash → Bytes

abbrev drop_hash : Hash → List Hash → List Hash
drop_hash h [] = []
drop_hash h (k ∷ ks) = let rest = drop_hash h ks in if k == h then rest else k ∷ rest

unfoldable pub apply : Write → Memory → Memory
apply (write_canonical_hash h m) db = record db {
  canonical = λ n. if m == n then h else db.canonical n;
}
apply (delete_canonical_hash m) db = record db {
  canonical = λ n. if m == n then zero_hash else db.canonical n;
}
apply (write_head_header_hash h) db = record db { head_header = h }
apply (write_head_block_hash h) db = record db { head_block = h }
apply (write_head_fast_block_hash h) db = record db { head_fast_block = h }
apply (write_finalized_block_hash h) db = record db { finalized_block = h }
apply (write_header_number h n) db = record db {
  numbers = λ k. if h == k then some n else db.numbers k;
}
apply (delete_header_number h) db = record db {
  numbers = λ k. if h == k then none else db.numbers k;
}
apply (put_header m h rlp) db = record db {
  headers = λ k n. if h == k && m == n then rlp else db.headers k n;
  all_hashes = λ n. if m == n then h ∷ drop_hash h (db.all_hashes n) else db.all_hashes n;
}
apply (delete_header h m) db = record db {
  numbers = λ k. if h == k then none else db.numbers k;
  headers = λ k n. if h == k && m == n then [] else db.headers k n;
  all_hashes = λ n. if m == n then drop_hash h (db.all_hashes n) else db.all_hashes n;
}
apply (delete_receipts h n) db = db
apply (write_empty_receipts h n) db = db
apply (write_genesis_state_spec h blob) db = db
apply (put_config h json) db = record db { configs = λ k. if h == k then json else db.configs k }

unfoldable pub apply_all : List Write → Memory → Memory
apply_all [] db = db
apply_all (w ∷ ws) db = apply_all ws (apply w db)

abbrev pub encode : Header → Bytes
encode h =
    h.parent_hash ∷ h.hash ∷ h.number ∷ h.time ∷ h.root ∷ h.receipt_hash ∷ h.gas_used ∷ h.bloom

abbrev pub decode : Bytes → Option Header
decode (parent ∷ hash ∷ number ∷ time ∷ root ∷ receipt ∷ gas ∷ bloom) = some (record {
  parent_hash = parent;
  hash = hash;
  number = number;
  time = time;
  root = root;
  receipt_hash = receipt;
  bloom = bloom;
  gas_used = gas;
})
decode _ = none

abbrev pub memory : Storage
memory = record {
  Db = Memory;
  commit = λ ws db. some (apply_all ws db);
  read_canonical_hash = λ db n. db.canonical n;
  read_header_number = λ db h. db.numbers h;
  read_header_rlp = λ db h n. db.headers h n;
  has_header = λ db h n. not (is_empty (db.headers h n));
  read_all_hashes = λ db n. db.all_hashes n;
  read_head_header_hash = λ db. db.head_header;
  read_head_block_hash = λ db. db.head_block;
  read_head_fast_block_hash = λ db. db.head_fast_block;
  read_finalized_block_hash = λ db. db.finalized_block;
  read_last_pivot_number = λ db. db.pivot;
  read_config = λ db h. db.configs h;
  ancients = λ db. 0;
  truncate_head = λ db n. some db;
  rlp_encode = encode;
  rlp_decode = decode;
}

module _ {V : Type 0} where
  abbrev pub find : ℕ → List (ℕ × V) → Option V
  find k [] = none
  find k ((j, v) ∷ c) = if j == k then some v else find k c

abbrev pub memory_lru : (V : Type 0) → Lru ℕ V
memory_lru V = record {
  Cache = List (ℕ × V);
  get = λ c k. (find k c, c);
  add = λ c k v. (k, v) ∷ c;
  contains = λ c k. is_some (find k c);
  purge = λ c. [];
  entry = λ c k. find k c;
}

abbrev pub empty_memory : Memory
empty_memory = record {
  canonical = λ n. zero_hash;
  numbers = λ h. none;
  headers = λ h n. [];
  all_hashes = λ n. [];
  head_header = zero_hash;
  head_block = zero_hash;
  head_fast_block = zero_hash;
  finalized_block = zero_hash;
  pivot = none;
  configs = λ h. [];
}
