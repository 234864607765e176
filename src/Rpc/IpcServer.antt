-- ===== src/Rpc/IpcServer.antt =====
-- node/rpcstack.go: `ipcServer`.
use mive.Base.{Bytes, Option, none, some, List, is_some, if◌then◌else◌, Bool, true, false}
use mive.Rpc.HttpServer.{Api}

-- `ipcServer`. A listener and its RPC server are there together: its APIs are kept.
pub record IpcServer : Type 0 where
  pub endpoint : Bytes
  pub running : Option (List Api)

-- `newIPCServer`
abbrev pub new_ipc_server : Bytes → IpcServer
new_ipc_server endpoint = record { endpoint = endpoint; running = none }

-- `start`, and whether it returns an error; `opens` is whether `rpc.StartIPCEndpoint` does not fail.
unfoldable pub start : (Bytes → List Api → Bool) → List Api → IpcServer → Bool × IpcServer
start opens apis ipc =
    if is_some ipc.running
    then (false, ipc)
    else if opens ipc.endpoint apis
    then (false, record ipc { running = some apis })
    else (true, ipc)

-- `stop`, without the error of closing the listener, which no caller reads.
unfoldable pub stop : IpcServer → IpcServer
stop ipc = record ipc { running = none }
