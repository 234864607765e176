-- ===== src/Node/Endpoints.antt =====
-- node/node.go: how the node sets up its RPC endpoints and starts them.
pub mod Handlers
pub mod Guarded
pub mod Created
pub mod Sequence
use mive.Base.{
  ℕ, ◌++◌, ◌||◌, ◌==◌, Bytes, ◌⊎◌, inl, inr, Bool, true, false, not, Option, none, some, List, [],
  ◌∷◌, is_empty, if◌then◌else◌, length,
}
use mive.Rpc.HttpServer.{
  Api, HttpServer, HttpError, HttpConfig, WsConfig, RpcEndpointConfig, set_listen_addr, enable_rpc,
  enable_ws, start, stop, listen_addr, ws_allowed,
}
use mive.Node.Config.{
  Config, Platform, resolve_path, datadir_jwt_key, default_auth_cors, default_auth_origins,
  default_auth_prefix, default_auth_modules, engine_api_batch_item_limit,
  engine_api_batch_response_size_limit,
}
use mive.Node.World.{World}
use mive.Node.State.{
  Node, NodeError, Event, endpoint_failed, invalid_jwt_secret, secret_not_written, panic,
  file_written,
}

-- The servers of a node, which the code tells apart by their pointers.
pub data Slot : Type 0 where
  http_slot ws_slot http_auth_slot ws_auth_slot : Slot

abbrev pub server : Slot → Node → HttpServer
server http_slot n = n.http
server ws_slot n = n.ws
server http_auth_slot n = n.http_auth
server ws_auth_slot n = n.ws_auth

abbrev pub set_server : Slot → HttpServer → Node → Node
set_server http_slot h n = record n { http = h }
set_server ws_slot h n = record n { ws = h }
set_server http_auth_slot h n = record n { http_auth = h }
set_server ws_auth_slot h n = record n { ws_auth = h }

-- A step that may fail, and what it leaves behind either way.
abbrev pub Step : Type 0
Step = Node → Option NodeError × Node

-- `if err := …; err != nil { return err }`, in front of the next step
abbrev pub continue {ℓ} :
    {A : Type ℓ} → (A → Option NodeError × A) → Option NodeError → A → Option NodeError × A
continue next none a = next a
continue next (some err) a = (some err, a)

abbrev pub and_then {ℓ} : {A : Type ℓ} → (f g : A → Option NodeError × A) → A → Option NodeError × A
and_then f g a = continue g (f a).0 (f a).1

-- An operation of a server as a step of the node.
abbrev pub on_server : Slot → (HttpServer → Option HttpError × HttpServer) → Step
on_server slot op n =
    let (e, h) = op (server slot n) in
    (elim e [ none ↦ none | some err ↦ some endpoint_failed ], set_server slot h n)

-- `getAPIs`: the APIs that need no authentication; the other set is `rpcAPIs`.
abbrev pub open_apis : List Api → List Api
open_apis [] = []
open_apis (api ∷ apis) = if api.authenticated then open_apis apis else api ∷ open_apis apis

-- `wsServerForPort`
unfoldable pub ws_server_for_port : ℕ → Bool → Node → Slot
ws_server_for_port port authenticated n =
    let http : Slot = if authenticated then http_auth_slot else http_slot in
    let ws : Slot = if authenticated then ws_auth_slot else ws_slot in
    let h : HttpServer = server http n in
    if is_empty n.config.http_host || h.port == port then http else ws

-- `obtainJWTSecret`: the secret, or an error, with the file that is written.
unfoldable pub obtain_jwt_secret : Platform → World → Config → (NodeError ⊎ Bytes) × List Event
unfolding resolve_path
obtain_jwt_secret os world c =
    let file : Option Bytes =
      if is_empty c.jwt_secret then resolve_path os c datadir_jwt_key else some c.jwt_secret in
    elim file [
      | none ↦ (inl panic, [])
      | some name ↦ elim (world.read_file name) [
        | some text ↦
            let secret = world.from_hex text in
            if length secret == 32 then (inr secret, []) else (inl invalid_jwt_secret, [])
        | none ↦
            if is_empty name
            then (inr world.random, [])
            else if world.write_file name (world.to_hex world.random)
            then (inr world.random, file_written name (world.to_hex world.random) ∷ [])
            else (inl secret_not_written, [])
      ]
    ]

abbrev pub rpc_config : Config → RpcEndpointConfig
rpc_config c = record {
  jwt_secret = [];
  batch_item_limit = c.batch_request_limit;
  batch_response_size_limit = c.batch_response_max_size;
}

abbrev pub auth_config : Bytes → RpcEndpointConfig
auth_config secret = record {
  jwt_secret = secret;
  batch_item_limit = engine_api_batch_item_limit;
  batch_response_size_limit = engine_api_batch_response_size_limit;
}

-- A server's address is set and JSON-RPC over HTTP is enabled on it.
abbrev pub serve_rpc : World → Slot → Bytes → ℕ → List Api → HttpConfig → Step
serve_rpc world slot host port apis config =
    and_then (on_server slot (set_listen_addr host port))
      (on_server slot (enable_rpc world.register apis config))

-- A server's address is set and JSON-RPC over WebSocket is enabled on it.
abbrev pub serve_ws : World → Slot → Bytes → ℕ → List Api → WsConfig → Step
serve_ws world slot host port apis config =
    and_then (on_server slot (set_listen_addr host port))
      (on_server slot (enable_ws world.register apis config))

abbrev pub open_http_config : Config → HttpConfig
open_http_config c = record {
  modules = c.http_modules;
  cors_allowed_origins = c.http_cors;
  vhosts = c.http_virtual_hosts;
  prefix = c.http_path_prefix;
  endpoint_config = rpc_config c;
}

abbrev pub open_ws_config : Config → WsConfig
open_ws_config c = record {
  modules = c.ws_modules;
  origins = c.ws_origins;
  prefix = c.ws_path_prefix;
  endpoint_config = rpc_config c;
}

abbrev pub auth_http_config : Config → Bytes → HttpConfig
auth_http_config c secret = record {
  modules = default_auth_modules;
  cors_allowed_origins = default_auth_cors;
  vhosts = c.auth_virtual_hosts;
  prefix = default_auth_prefix;
  endpoint_config = auth_config secret;
}

abbrev pub auth_ws_config : Bytes → WsConfig
auth_ws_config secret = record {
  modules = default_auth_modules;
  origins = default_auth_origins;
  prefix = default_auth_prefix;
  endpoint_config = auth_config secret;
}

-- `initHttp`, for the node's `http`
unfoldable pub init_http : World → Step
init_http world n =
    let c : Config = n.config in
    serve_rpc world http_slot c.http_host c.http_port (open_apis n.rpc_apis) (open_http_config c) n

-- `initWS`, on the server that the port selects
unfoldable pub init_ws : World → Step
unfolding ws_server_for_port
init_ws world n =
    let c : Config = n.config in
    let slot = ws_server_for_port c.ws_port false n in
    serve_ws world slot c.ws_host c.ws_port (open_apis n.rpc_apis) (open_ws_config c) n

-- The first half of `initAuth`
unfoldable pub init_auth_http : World → Bytes → Step
init_auth_http world secret n =
    let c : Config = n.config in
    serve_rpc world http_auth_slot c.auth_addr c.auth_port n.rpc_apis (auth_http_config c secret) n

-- The second half of `initAuth`
unfoldable pub init_auth_ws : World → Bytes → Step
unfolding ws_server_for_port
init_auth_ws world secret n =
    let c : Config = n.config in
    let slot = ws_server_for_port c.auth_port true n in
    serve_ws world slot c.auth_addr c.auth_port n.rpc_apis (auth_ws_config secret) n
