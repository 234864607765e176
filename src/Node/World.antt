-- ===== src/Node/World.antt =====
-- What a node is started in: the outcomes of the calls of code outside of the repository.
use mive.Base.{ℕ, Bytes, Bool, Option, List}
use mive.Rpc.HttpServer.{Api, Registry}

-- A Boolean says that a call returns no error; a service and a database are told by a number.
pub record World : Type 0 where
  -- `node.RegisterApis` on a new server, and `RegisterName` on the in-process server
  pub register : Registry
  pub register_name : Api → Bool
  -- `net.Listen` and `rpc.StartIPCEndpoint`
  pub listen : Bytes → Option Bytes
  pub ipc_opens : Bytes → List Api → Bool
  -- `Start` and `Stop` of a registered lifecycle
  pub starts : ℕ → Bool
  pub stops : ℕ → Bool
  -- `Close` of a database, of the account manager, and `os.RemoveAll`
  pub closes : ℕ → Bool
  pub accman_closes : Bool
  pub removes : Bytes → Bool
  -- `os.ReadFile`, `os.WriteFile`, `FromHex` after `TrimSpace`, and `hexutil.Encode`
  pub read_file : Bytes → Option Bytes
  pub write_file : Bytes → Bytes → Bool
  pub from_hex : Bytes → Bytes
  pub to_hex : Bytes → Bytes
  -- the 32 bytes that `crand.Read` fills in
  pub random : Bytes
