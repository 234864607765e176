-- ===== src/Node/Startup.antt =====
-- node/node.go: `startRPC` and `stopRPC`, over the set-up of single endpoints.
pub mod Secured
pub mod Listening
pub mod Started
pub mod Configured
use mive.Base.{
  ℕ, ◌++◌, ◌==◌, ◌⊎◌, inl, inr, Bytes, Bool, true, false, not, Option, none, some, List, [], ◌∷◌,
  is_empty, if◌then◌else◌, length,
}
use mive.Rpc.HttpServer.{Api, HttpServer, start, stop}
use mive.Rpc.IpcServer.{IpcServer}
use mive.Rpc.IpcServer
use mive.Node.Config.{Config, Platform}
use mive.Node.World.{World}
use mive.Node.State.{Node, NodeError, Event, endpoint_failed}
use mive.Node.Endpoints.{
  Slot, http_slot, ws_slot, http_auth_slot, ws_auth_slot, Step, and_then, on_server, open_apis,
  ws_server_for_port, obtain_jwt_secret, init_http, init_ws, init_auth_http, init_auth_ws,
}

-- What `startRPC` works on: the node, the servers to start, and the files written.
pub record Boot : Type 0 where
  pub node : Node
  pub servers : List Slot
  pub events : List Event

abbrev pub BootStep : Type 0
BootStep = Boot → Option NodeError × Boot

-- A step that sets a server up, after which the server is appended to `servers`.
abbrev pub adding : Slot → Step → BootStep
adding slot step b =
    let (e, n) = step b.node in (e, record b { node = n; servers = b.servers ++ (slot ∷ []) })

-- A step of the node alone.
abbrev pub on_node : Step → BootStep
on_node step b = let (e, n) = step b.node in (e, record b { node = n })

-- `startInProc`
abbrev pub start_in_proc : World → List Api → Step
start_in_proc world [] n = (none, n)
start_in_proc world (api ∷ apis) n =
    let rest = start_in_proc world apis (record n { inproc_apis = n.inproc_apis ++ (api ∷ []) }) in
    if world.register_name api then rest else (some endpoint_failed, n)

-- The node's IPC server is started if it has an endpoint.
abbrev pub start_ipc : World → Step
start_ipc world n =
    let ipc : IpcServer = n.ipc in
    let (failed, ipc') = IpcServer.start world.ipc_opens n.rpc_apis ipc in
    if is_empty ipc.endpoint
    then (none, n)
    else (if failed then some endpoint_failed else none, record n { ipc = ipc' })

abbrev pub setup_http : World → BootStep
setup_http world b =
    let n : Node = b.node in
    if is_empty n.config.http_host then (none, b) else adding http_slot (init_http world) b

abbrev pub setup_ws : World → BootStep
setup_ws world b =
    let n : Node = b.node in
    let slot = ws_server_for_port n.config.ws_port false n in
    if is_empty n.config.ws_host then (none, b) else adding slot (init_ws world) b

-- `initAuth`, whose second server is chosen after its first was set up
abbrev pub init_auth : World → Bytes → BootStep
init_auth world secret = and_then (adding http_auth_slot (init_auth_http world secret)) (λ b.
    let n : Node = b.node in
    let slot = ws_server_for_port n.config.auth_port true n in
    adding slot (init_auth_ws world secret) b)

abbrev pub setup_auth : Platform → World → BootStep
setup_auth os world b =
    let n : Node = b.node in
    let (found, written) = obtain_jwt_secret os world n.config in
    if length (open_apis n.rpc_apis) == length n.rpc_apis then (none, b) else elim found [
      | inl e ↦ (some e, b)
      | inr secret ↦ init_auth world secret (record b { events = b.events ++ written })
    ]

abbrev pub start_servers : World → List Slot → Step
start_servers world [] n = (none, n)
start_servers world (slot ∷ slots) n =
    and_then (on_server slot (start world.listen)) (start_servers world slots) n

-- The servers that were set up are started in their order.
abbrev pub start_all : World → BootStep
start_all world b = on_node (start_servers world b.servers) b

-- `startRPC`
unfoldable pub start_rpc : Platform → World → Node → Option NodeError × Boot
start_rpc os world n =
    and_then (on_node (start_in_proc world n.rpc_apis))
      (and_then (on_node (start_ipc world)) (
        and_then (setup_http world)
          (and_then (setup_ws world) (and_then (setup_auth os world) (start_all world)))))
      (record { node = n; servers = []; events = [] })

-- `stopRPC`
unfoldable pub stop_rpc : Node → Node
stop_rpc n = record n {
  http = stop n.http;
  ws = stop n.ws;
  http_auth = stop n.http_auth;
  ws_auth = stop n.ws_auth;
  ipc = IpcServer.stop n.ipc;
  inproc_stopped = true;
}
