-- ===== src/Core/Rawdb/Metadata.antt =====
-- core/rawdb/accessors_metadata.go: the chain configuration in the database.
use mive.Base.{Bytes, Option, none, some, List, [], ◌∷◌, is_empty, if◌then◌else◌}
use mive.Core.Types.{Hash}
use mive.Core.Rawdb.{Storage, Write, put_config}

module _ (S : Storage) {Config : Type 0} where
  -- `ReadChainConfig`, over JSON decoding, where `none` is an error: nil if nothing is stored, or what is
  -- stored does not decode.
  unfoldable pub read_chain_config : (Bytes → Option Config) → S.Db → Hash → Option Config
  read_chain_config json_decode db hash =
      let stored = S.read_config db hash in if is_empty stored then none else json_decode stored

-- `WriteChainConfig`, over JSON encoding; a nil configuration writes nothing.
unfoldable pub write_chain_config :
    {Config : Type 0} → (Config → Bytes) → Hash → Option Config → List Write
write_chain_config json_encode hash none = []
write_chain_config json_encode hash (some cfg) = put_config hash (json_encode cfg) ∷ []
