-- ===== src/Node/State.antt =====
-- node/node.go: the node's state, and what is registered on it before it starts.
use mive.Base.{
  ℕ, ◌∷◌, ◌++◌, ◌||◌, ◌==◌, Bytes, Bool, true, false, not, ◌⊎◌, inl, inr, Option, none, some, List,
  [], is_empty, if◌then◌else◌, contains_any, bytes_eq, has_suffix, codes,
}
use mive.Rpc.Handlers.{PrefixError, validate_prefix}
use mive.Rpc.HttpServer.{Api, HttpServer, MuxHandler, new_http_server}
use mive.Rpc.IpcServer.{IpcServer, new_ipc_server}
use mive.Node.Config.{
  Config, Platform, ipc_endpoint, instance_dir, get_key_store_dir, datadir_default_key_store,
}

-- `initializingState`, `runningState` and `closedState`
pub data NodeState : Type 0 where
  initializing running closed : NodeState

-- `Node`. The in-process server is told by the APIs registered on it and whether it was stopped.
pub record Node : Type 0 where
  pub config : Config
  pub state : NodeState
  pub key_dir : Bytes
  pub key_dir_temp : Bool
  pub dir_locked : Bool
  pub waits : Bool
  pub lifecycles : List ℕ
  pub rpc_apis : List Api
  pub http : HttpServer
  pub ws : HttpServer
  pub http_auth : HttpServer
  pub ws_auth : HttpServer
  pub ipc : IpcServer
  pub inproc_apis : List Api
  pub inproc_stopped : Bool
  pub databases : List ℕ

-- What the code does to the things around the node, in the order in which it does it.
pub data Event : Type 0 where
  service_started service_failed service_stopped database_closed : ℕ → Event
  file_written : Bytes → Bytes → Event
  key_dir_removed : Bytes → Event

-- The errors of the node's operations and its panics.
pub data NodeError : Type 0 where
  node_running node_stopped endpoint_failed service_start_failed close_failed : NodeError
  bad_name bad_prefix directory_failed datadir_used invalid_jwt_secret secret_not_written
        lock_failed database_failed :
      NodeError
  panic : NodeError

-- `openDataDir`; `locks` is `TryLock` of the file in a directory, whose error is `none`.
unfoldable pub open_data_dir : Platform → (Bytes → Option Bool) → Config → Option NodeError
unfolding instance_dir
open_data_dir os locks c = if is_empty c.data_dir then none else elim (instance_dir os c) [
  | none ↦ some panic
  | some dir ↦ if not (os.make_dir dir) then some directory_failed else elim (locks dir) [
    | none ↦ some lock_failed
    | some locked ↦ if locked then none else some datadir_used
  ]
]

-- `New`, after the data directory was made absolute; `apis` are the node's built-in APIs.
unfoldable pub new : Platform → (Bytes → Option Bool) → List Api → Config → NodeError ⊎ Node
unfolding open_data_dir ipc_endpoint get_key_store_dir validate_prefix
new os locks apis c =
    let prefixes : Option PrefixError = elim (validate_prefix c.http_path_prefix) [
      | some e ↦ some e
      | none ↦ validate_prefix c.ws_path_prefix
    ] in
    if contains_any c.name (codes "/\\")
    then inl bad_name
    else if bytes_eq c.name datadir_default_key_store
    then inl bad_name
    else if has_suffix c.name (codes ".ipc")
    then inl bad_name
    else elim (open_data_dir os locks c) [
      | some e ↦ inl e
      | none ↦ elim (get_key_store_dir os c) [
        | none ↦ inl directory_failed
        | some (dir, ephemeral) ↦ elim prefixes [
          | some e ↦ inl bad_prefix
          | none ↦ inr (record {
            config = c;
            state = initializing;
            key_dir = dir;
            key_dir_temp = ephemeral;
            dir_locked = not (is_empty c.data_dir);
            waits = true;
            lifecycles = [];
            rpc_apis = apis;
            http = new_http_server;
            ws = new_http_server;
            http_auth = new_http_server;
            ws_auth = new_http_server;
            ipc = new_ipc_server (ipc_endpoint os c);
            inproc_apis = [];
            inproc_stopped = false;
            databases = [];
          })
        ]
      ]
    ]

abbrev pub is_initializing : Node → Bool
is_initializing n = elim n.state [ initializing ↦ true | running ↦ false | closed ↦ false ]

abbrev pub is_closed : Node → Bool
is_closed n = elim n.state [ initializing ↦ false | running ↦ false | closed ↦ true ]

-- `containsLifecycle`
abbrev pub contains_lifecycle : List ℕ → ℕ → Bool
contains_lifecycle [] l = false
contains_lifecycle (x ∷ lfs) l = x == l || contains_lifecycle lfs l

-- `RegisterLifecycle`
unfoldable pub register_lifecycle : ℕ → Node → NodeError ⊎ Node
register_lifecycle l n =
    if not (is_initializing n)
    then inl panic
    else if contains_lifecycle n.lifecycles l
    then inl panic
    else inr (record n { lifecycles = n.lifecycles ++ (l ∷ []) })

-- `RegisterAPIs`
unfoldable pub register_apis : List Api → Node → NodeError ⊎ Node
register_apis apis n =
    if not (is_initializing n) then inl panic else inr (record n { rpc_apis = n.rpc_apis ++ apis })

-- Whether a path is taken on a mux.
abbrev pub is_mounted : List MuxHandler → Bytes → Bool
is_mounted [] p = false
is_mounted (m ∷ ms) p = bytes_eq m.pattern p || is_mounted ms p

-- `RegisterHandler`, for a path that the mux accepts; it panics on one that is taken.
unfoldable pub register_handler : Bytes → Bytes → Node → NodeError ⊎ Node
register_handler name path n =
    let http : HttpServer = n.http in
    let handler : MuxHandler = record { pattern = path; name = name } in
    if not (is_initializing n) || is_mounted http.mux path
    then inl panic
    else inr (record n { http = record http { mux = handler ∷ http.mux } })

-- `RPCHandler`: whether it returns the in-process server.
unfoldable pub rpc_handler : Node → Option NodeError
rpc_handler n = if is_closed n then some node_stopped else none
