-- ===== src/Node/Paths.antt =====
-- node/node.go: the addresses and the directories of a node that its getters answer with.
use mive.Base.{Bytes, ◌++◌, Option, none, some, is_empty, if◌then◌else◌, codes}
use mive.Rpc.HttpServer.{HttpServer, listen_addr, ws_allowed}
use mive.Node.Config.{Platform, instance_dir}
use mive.Node.Config
use mive.Node.State.{Node}

-- `DataDir`
abbrev pub node_data_dir : Node → Bytes
node_data_dir n = n.config.data_dir

-- `InstanceDir`, where `none` is the panic of a node without a name.
abbrev pub node_instance_dir : Platform → Node → Option Bytes
node_instance_dir os n = instance_dir os n.config

-- `KeyStoreDir`
abbrev pub node_key_store_dir : Node → Bytes
node_key_store_dir n = n.key_dir

-- `IPCEndpoint`
abbrev pub node_ipc_endpoint : Node → Bytes
node_ipc_endpoint n = n.ipc.endpoint

-- `HTTPEndpoint`
abbrev pub node_http_endpoint : Node → Bytes
node_http_endpoint n = codes "http://" ++ listen_addr n.http

-- The URL of WebSocket connections: the HTTP server's, if it takes them.
unfoldable pub ws_url : HttpServer → HttpServer → Bytes
ws_url http ws =
    let server : HttpServer = if ws_allowed http then http else ws in
    codes "ws://" ++ (listen_addr server ++ server.ws_config.prefix)

-- `WSEndpoint`
unfoldable pub node_ws_endpoint : Node → Bytes
node_ws_endpoint n = ws_url n.http n.ws

-- `HTTPAuthEndpoint`
abbrev pub http_auth_endpoint : Node → Bytes
http_auth_endpoint n = codes "http://" ++ listen_addr n.http_auth

-- `WSAuthEndpoint`
unfoldable pub ws_auth_endpoint : Node → Bytes
ws_auth_endpoint n = ws_url n.http_auth n.ws_auth

-- `ResolvePath`
abbrev pub node_resolve_path : Platform → Node → Bytes → Option Bytes
node_resolve_path os n path = Config.resolve_path os n.config path

-- `ResolveAncient`
unfoldable pub resolve_ancient : Platform → Node → Bytes → Bytes → Option Bytes
resolve_ancient os n name ancient =
    if is_empty ancient
    then elim (node_resolve_path os n name) [
      | none ↦ none
      | some dir ↦ some (os.join dir (codes "ancient"))
    ]
    else if os.is_abs ancient
    then some ancient
    else node_resolve_path os n ancient
