-- ===== src/Core/Types.antt =====
-- core/types/block.go: block headers, their copy and number; hashes of go-ethereum's package common.
use mive.Base.{ℕ, zero, suc, [], ◌∷◌, Bytes, uint64}

-- `common.Hash`, as the number that its 32 bytes spell: 0 is the empty hash `common.Hash{}`.
abbrev pub Hash : Type 0
Hash = ℕ

abbrev pub zero_hash : Hash
zero_hash = 0

-- So many zero bytes.
unfoldable pub zeros : ℕ → Bytes
zeros zero = []
zeros (suc n) = 0 ∷ zeros n

-- `types.Bloom{}` of go-ethereum, an array of 256 bytes.
unfoldable pub zero_bloom : Bytes
zero_bloom = zeros 256

-- `types.Header`. `Number` is a `*big.Int` that the program never leaves nil.
pub record Header : Type 0 where
  pub parent_hash : Hash
  pub hash : Hash
  pub number : ℕ
  pub time : ℕ  -- uint64
  pub root : Hash
  pub receipt_hash : Hash
  pub bloom : Bytes
  pub gas_used : ℕ  -- uint64

-- A copy shares nothing with its original, so as a value it is the original.
abbrev pub copy_header : Header → Header
copy_header h = record h { number = h.number }

-- `NumberU64`, also written `Number.Uint64()`
abbrev pub number_u64 : Header → ℕ
number_u64 h = uint64 h.number
