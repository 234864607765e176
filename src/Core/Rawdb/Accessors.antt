-- ===== src/Core/Rawdb/Accessors.antt =====
-- core/rawdb/accessors_chain.go: headers in the database.
use mive.Base.{ℕ, Option, none, some, List, [], ◌∷◌, is_empty, if◌then◌else◌, ◌==◌, uint64}
use mive.Core.Types.{Hash, zero_hash, Header}
use mive.Core.Rawdb.{Storage, Write, write_header_number, put_header}

module _ (S : Storage) where
  -- `ReadHeader`: nil if nothing is stored, or what is stored does not decode.
  unfoldable pub read_header : S.Db → Hash → ℕ → Option Header
  read_header db hash number =
      let rlp = S.read_header_rlp db hash number in if is_empty rlp then none else S.rlp_decode rlp

  -- `WriteHeader`: the hash -> number mapping, then the encoded header.
  unfoldable pub write_header : Header → List Write
  write_header header =
      write_header_number header.hash (uint64 header.number)
      ∷ put_header (uint64 header.number) header.hash (S.rlp_encode header)
      ∷ []

  -- `ReadHeadHeader`
  unfoldable pub read_head_header : S.Db → Option Header
  read_head_header db =
      let head_header_hash = S.read_head_header_hash db in
      if head_header_hash == zero_hash
      then none
      else elim (S.read_header_number db head_header_hash) [
        | none ↦ none
        | some number ↦ read_header db head_header_hash number
      ]
