-- ===== src/Rpc/HttpServer.antt =====
-- node/rpcstack.go: `httpServer`, which serves JSON-RPC over HTTP and WebSocket.
pub mod Invariant
pub mod Routes
pub mod Routing
use mive.Base.{
  ℕ, zero, suc, Bytes, bytes_eq, Bool, true, false, not, ◌&&◌, ◌||◌, ◌==◌, Option, none, some, List,
  [], ◌∷◌, is_empty, is_some, if◌then◌else◌,
}
use mive.Rpc.Net.{Request, NetParsers, decimal, join_host_port}
use mive.Rpc.Handlers.{
  check_path, is_websocket, Answer, unauthorized, forbidden, served, http_stack, ws_stack, Token,
}

-- The fields of `rpc.API` that the code reads; the service is told by a number.
pub record Api : Type 0 where
  pub namespace : Bytes
  pub authenticated : Bool
  pub service : ℕ

-- `rpcEndpointConfig`
pub record RpcEndpointConfig : Type 0 where
  pub jwt_secret : Bytes
  pub batch_item_limit : ℕ
  pub batch_response_size_limit : ℕ

-- `httpConfig`
pub record HttpConfig : Type 0 where
  pub modules : List Bytes
  pub cors_allowed_origins : List Bytes
  pub vhosts : List Bytes
  pub prefix : Bytes
  pub endpoint_config : RpcEndpointConfig

-- `wsConfig`
pub record WsConfig : Type 0 where
  pub origins : List Bytes
  pub modules : List Bytes
  pub prefix : Bytes
  pub endpoint_config : RpcEndpointConfig

-- `node.RegisterApis` on a new server: whether it returns nil for APIs and modules, and whether it registers
-- the APIs of a namespace under the modules.
pub record Registry : Type 0 where
  pub succeeds : List Api → List Bytes → Bool
  pub allows : List Bytes → Bytes → Bool

-- The APIs that are registered.
unfoldable pub registered : Registry → List Bytes → List Api → List Api
registered registry modules [] = []
registered registry modules (api ∷ apis) =
    let rest = registered registry modules apis in
    if registry.allows modules api.namespace then api ∷ rest else rest

-- `rpcHandler`: the `rpc.Server`, by its number, the APIs registered on it and the modules that they were
-- chosen by, and what the stack of handlers in front of it was made from.
pub record RpcHandler : Type 0 where
  pub server : ℕ
  pub apis : List Api
  pub modules : List Bytes
  pub origins : List Bytes
  pub vhosts : List Bytes
  pub secret : Bytes

-- A `net.Listener`: what it was opened for, and `Addr().String()`.
pub record Listener : Type 0 where
  pub opened_for : Bytes
  pub address : Bytes

-- A handler mounted on the mux, with the name that the log shows.
pub record MuxHandler : Type 0 where
  pub pattern : Bytes
  pub name : Bytes

-- `httpServer`. `next_server` numbers the RPC servers; `stopped` lists those whose `Stop` was called.
pub record HttpServer : Type 0 where
  pub mux : List MuxHandler
  pub listener : Option Listener
  pub http_config : HttpConfig
  pub http_handler : Option RpcHandler
  pub ws_config : WsConfig
  pub ws_handler : Option RpcHandler
  pub endpoint : Bytes
  pub host : Bytes
  pub port : ℕ
  pub next_server : ℕ
  pub stopped : List ℕ

pub data HttpError : Type 0 where
  server_running listen_failed rpc_enabled ws_enabled register_failed : HttpError

-- What an operation returns, nil for success, and the server after it.
abbrev pub Outcome : Type 0
Outcome = Option HttpError × HttpServer

abbrev pub no_endpoint_config : RpcEndpointConfig
no_endpoint_config = record { jwt_secret = []; batch_item_limit = 0; batch_response_size_limit = 0 }

-- `newHTTPServer`
abbrev pub new_http_server : HttpServer
new_http_server = record {
  mux = [];
  listener = none;
  http_config = record {
    modules = [];
    cors_allowed_origins = [];
    vhosts = [];
    prefix = [];
    endpoint_config = no_endpoint_config;
  };
  http_handler = none;
  ws_config = record {
    origins = [];
    modules = [];
    prefix = [];
    endpoint_config = no_endpoint_config;
  };
  ws_handler = none;
  endpoint = [];
  host = [];
  port = 0;
  next_server = 0;
  stopped = [];
}

-- `rpcAllowed`
abbrev pub rpc_allowed : HttpServer → Bool
rpc_allowed h = is_some h.http_handler

-- `wsAllowed`
abbrev pub ws_allowed : HttpServer → Bool
ws_allowed h = is_some h.ws_handler

-- `setListenAddr`
unfoldable pub set_listen_addr : Bytes → ℕ → HttpServer → Outcome
set_listen_addr host port h =
    if is_some h.listener && (not (bytes_eq host h.host) || not (port == h.port))
    then (some server_running, h)
    else (
      none,
      record h { host = host; port = port; endpoint = join_host_port host (decimal port) },
    )

-- `listenAddr`
unfoldable pub listen_addr : HttpServer → Bytes
listen_addr h = elim h.listener [ none ↦ h.endpoint | some l ↦ l.address ]

-- `disableRPC`
unfoldable pub disable_rpc : HttpServer → HttpServer
disable_rpc h = elim h.http_handler [
  | none ↦ h
  | some r ↦ record h { http_handler = none; stopped = r.server ∷ h.stopped }
]

-- `disableWS`, without the Boolean it returns: whether there was a handler.
unfoldable pub disable_ws : HttpServer → HttpServer
disable_ws h = elim h.ws_handler [
  | none ↦ h
  | some r ↦ record h { ws_handler = none; stopped = r.server ∷ h.stopped }
]

-- `start`, without its timeouts; `listen` is `net.Listen` for an address, whose failure is `none`.
unfoldable pub start : (Bytes → Option Bytes) → HttpServer → Outcome
unfolding disable_rpc disable_ws
start listen h =
    if is_empty h.endpoint || is_some h.listener then (none, h) else elim (listen h.endpoint) [
      | none ↦ (some listen_failed, disable_ws (disable_rpc h))
      | some address ↦ (
        none,
        record h { listener = some (record { opened_for = h.endpoint; address = address }) },
      )
    ]

-- `doStop`, without the timeout of the shutdown: both handlers are taken away and their servers stopped before the listener is closed.
unfoldable pub do_stop : HttpServer → HttpServer
unfolding disable_rpc disable_ws
do_stop h = elim h.listener [
  | none ↦ h
  | some l ↦ record (disable_ws (disable_rpc h)) {
    listener = none;
    host = [];
    port = 0;
    endpoint = [];
  }
]

-- `stop`
abbrev pub stop : HttpServer → HttpServer
stop h = do_stop h

-- `stopWS`
unfoldable pub stop_ws : HttpServer → HttpServer
unfolding disable_ws do_stop
stop_ws h =
    let h' = disable_ws h in if ws_allowed h then (if rpc_allowed h' then h' else do_stop h') else h

-- The handler that `enableRPC` stores.
abbrev pub http_rpc_handler : Registry → List Api → HttpConfig → ℕ → RpcHandler
http_rpc_handler register apis config id = record {
  server = id;
  apis = registered register config.modules apis;
  modules = config.modules;
  origins = config.cors_allowed_origins;
  vhosts = config.vhosts;
  secret = config.endpoint_config.jwt_secret;
}

-- The handler that `enableWS` stores.
abbrev pub ws_rpc_handler : Registry → List Api → WsConfig → ℕ → RpcHandler
ws_rpc_handler register apis config id = record {
  server = id;
  apis = registered register config.modules apis;
  modules = config.modules;
  origins = config.origins;
  vhosts = [];
  secret = config.endpoint_config.jwt_secret;
}

-- `enableRPC`
unfoldable pub enable_rpc : Registry → List Api → HttpConfig → HttpServer → Outcome
enable_rpc register apis config h =
    if rpc_allowed h
    then (some rpc_enabled, h)
    else if not (register.succeeds apis config.modules)
    then (some register_failed, h)
    else (
      none,
      record h {
        http_config = config;
        http_handler = some (http_rpc_handler register apis config h.next_server);
        next_server = suc h.next_server;
      },
    )

-- `enableWS`
unfoldable pub enable_ws : Registry → List Api → WsConfig → HttpServer → Outcome
enable_ws register apis config h =
    if ws_allowed h
    then (some ws_enabled, h)
    else if not (register.succeeds apis config.modules)
    then (some register_failed, h)
    else (
      none,
      record h {
        ws_config = config;
        ws_handler = some (ws_rpc_handler register apis config h.next_server);
        next_server = suc h.next_server;
      },
    )
