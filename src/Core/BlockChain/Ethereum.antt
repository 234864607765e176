-- ===== src/Core/BlockChain/Ethereum.antt =====
-- core/blockchain_reader.go: the headers of Ethereum, which the client is asked for.
use mive.Base.{ℕ, Option, none, some, ◌==◌, if◌then◌else◌}
use mive.Core.Types.{Hash}

-- The client's answers; `none` is an error.
pub record Client : Type 1 where
  pub EthHeader : Type 0
  pub header_number : EthHeader → ℕ
  pub header_by_hash : Hash → Option EthHeader
  pub header_by_number : Option ℕ → Option EthHeader  -- `none` asks for the latest

module _ (client : Client) where
  -- `EthCurrentHeader`
  abbrev pub eth_current_header : Option client.EthHeader
  eth_current_header = client.header_by_number none

  -- `EthGetHeader`
  unfoldable pub eth_get_header : Hash → ℕ → Option client.EthHeader
  eth_get_header hash number = elim (client.header_by_hash hash) [
    | none ↦ none
    | some header ↦ if client.header_number header == number then some header else none
  ]

  -- `EthGetHeaderByNumber`
  abbrev pub eth_get_header_by_number : ℕ → Option client.EthHeader
  eth_get_header_by_number number = client.header_by_number (some number)

  -- `EthGetHeaderByHash`
  abbrev pub eth_get_header_by_hash : Hash → Option client.EthHeader
  eth_get_header_by_hash hash = client.header_by_hash hash
