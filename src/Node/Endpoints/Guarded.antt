-- ===== src/Node/Endpoints/Guarded.antt =====
-- node/node.go: which handlers the set-up of the endpoints puts on which servers.
use mive.Base.{
  ℕ, ◌≡◌, inl, inr, Bytes, Bool, true, false, Option, List, [], ◌∷◌, if◌then◌else◌, length, sym,
  subst, Bool-cases, ◌==◌, ◌||◌, is_empty,
}
use mive.Rpc.HttpServer.{
  Registry, registered, http_rpc_handler, ws_rpc_handler, Api, HttpServer, HttpError, HttpConfig,
  WsConfig, RpcHandler, set_listen_addr, enable_rpc, enable_ws,
}
use mive.Node.Endpoints.Handlers.{Have, set_listen_addr-Have, enable_rpc-Have, enable_ws-Have}
use mive.Node.Endpoints.Sequence.{Keeps, and_then-Keeps}
use mive.Node.World.{World}
use mive.Node.Config.{Config}
use mive.Node.State.{Node}
use mive.Node.Endpoints.{
  Slot, http_slot, ws_slot, http_auth_slot, ws_auth_slot, server, set_server, on_server, open_apis,
  init_http, init_ws, init_auth_http, init_auth_ws, serve_rpc, serve_ws, open_http_config,
  open_ws_config, auth_http_config, auth_ws_config, ws_server_for_port,
}

-- No API on the list needs authentication.
abbrev pub AllOpen : List Api → Type 0
AllOpen [] = Unit
AllOpen (api ∷ apis) = (api.authenticated ≡ false) × AllOpen apis

abbrev pub IsOpen : RpcHandler → Type 0
IsOpen r = AllOpen r.apis

-- The handler checks tokens, against a secret of 32 bytes.
abbrev pub IsSealed : RpcHandler → Type 0
IsSealed r = length r.secret ≡ 32

-- What a handler of the server may be.
abbrev pub Guard : Slot → RpcHandler → Type 0
Guard http_slot = IsOpen
Guard ws_slot = IsOpen
Guard http_auth_slot = IsSealed
Guard ws_auth_slot = IsSealed

-- The APIs that need authentication stand on the two servers for them alone, behind a secret.
pub record IsGuarded (n : Node) : Type 0 where
  pub guarded : (slot : Slot) → Have (Guard slot) (server slot n)

-- Fewer APIs are registered than are offered.
pub registered-AllOpen :
    (registry : Registry)
    → (modules : List Bytes) → (apis : List Api) → AllOpen apis
    → AllOpen (registered registry modules apis)
unfolding registered
registered-AllOpen registry modules [] opened = tt
registered-AllOpen registry modules (api ∷ apis) opened =
    let rest = registered-AllOpen registry modules apis opened.1 in
    elim (Bool-cases (registry.allows modules api.namespace)) [
      | inl e ↦ rw (registered, e) (opened.0, rest)
      | inr e ↦ rw (registered, e) rest
    ]

pub open_apis-AllOpen : (apis : List Api) → AllOpen (open_apis apis)
open_apis-AllOpen [] = tt
open_apis-AllOpen (api ∷ apis) = elim (Bool-cases api.authenticated) [
  | inl e ↦
      let same : open_apis (api ∷ apis) ≡ open_apis apis = rw e in
      subst AllOpen (sym same) (open_apis-AllOpen apis)
  | inr e ↦
      let same : open_apis (api ∷ apis) ≡ api ∷ open_apis apis = rw e in
      subst AllOpen (sym same) (e, open_apis-AllOpen apis)
]

set_server-IsGuarded :
    (slot : Slot)
    → (h : HttpServer) → (n : Node) → IsGuarded n
    → Have (Guard slot) h
    → IsGuarded (set_server slot h n)
set_server-IsGuarded http_slot h n ok have = record {
  guarded = elim [
    | http_slot ↦ have
    | ws_slot ↦ ok.guarded ws_slot
    | http_auth_slot ↦ ok.guarded http_auth_slot
    | ws_auth_slot ↦ ok.guarded ws_auth_slot
  ];
}
set_server-IsGuarded ws_slot h n ok have = record {
  guarded = elim [
    | http_slot ↦ ok.guarded http_slot
    | ws_slot ↦ have
    | http_auth_slot ↦ ok.guarded http_auth_slot
    | ws_auth_slot ↦ ok.guarded ws_auth_slot
  ];
}
set_server-IsGuarded http_auth_slot h n ok have = record {
  guarded = elim [
    | http_slot ↦ ok.guarded http_slot
    | ws_slot ↦ ok.guarded ws_slot
    | http_auth_slot ↦ have
    | ws_auth_slot ↦ ok.guarded ws_auth_slot
  ];
}
set_server-IsGuarded ws_auth_slot h n ok have = record {
  guarded = elim [
    | http_slot ↦ ok.guarded http_slot
    | ws_slot ↦ ok.guarded ws_slot
    | http_auth_slot ↦ ok.guarded http_auth_slot
    | ws_auth_slot ↦ have
  ];
}

pub on_server-Keeps :
    (slot : Slot)
    → (op : HttpServer → Option HttpError × HttpServer)
    → ((h : HttpServer) → Have (Guard slot) h → Have (Guard slot) (op h).1)
    → Keeps IsGuarded (on_server slot op)
on_server-Keeps slot op keep n ok =
    set_server-IsGuarded slot (op (server slot n)).1 n ok (keep (server slot n) (ok.guarded slot))

serve_rpc-Keeps :
    (world : World)
    → (slot : Slot) → (host : Bytes) → (port : ℕ) → (apis : List Api) → (config : HttpConfig)
    → ((id : ℕ) → Guard slot (http_rpc_handler world.register apis config id))
    → Keeps IsGuarded (serve_rpc world slot host port apis config)
serve_rpc-Keeps world slot host port apis config fresh =
    let address = set_listen_addr host port in
    let enable = enable_rpc world.register apis config in
    and_then-Keeps IsGuarded (on_server slot address) (on_server slot enable)
      (on_server-Keeps slot address (set_listen_addr-Have (Guard slot) host port))
      (on_server-Keeps slot enable (enable_rpc-Have (Guard slot) world.register apis config fresh))

pub serve_ws-Keeps :
    (world : World)
    → (slot : Slot) → (host : Bytes) → (port : ℕ) → (apis : List Api) → (config : WsConfig)
    → ((id : ℕ) → Guard slot (ws_rpc_handler world.register apis config id))
    → Keeps IsGuarded (serve_ws world slot host port apis config)
serve_ws-Keeps world slot host port apis config fresh =
    let address = set_listen_addr host port in
    let enable = enable_ws world.register apis config in
    and_then-Keeps IsGuarded (on_server slot address) (on_server slot enable)
      (on_server-Keeps slot address (set_listen_addr-Have (Guard slot) host port))
      (on_server-Keeps slot enable (enable_ws-Have (Guard slot) world.register apis config fresh))

pub init_http-Keeps : (world : World) → Keeps IsGuarded (init_http world)
unfolding init_http
init_http-Keeps world n ok =
    let c : Config = n.config in
    serve_rpc-Keeps world http_slot c.http_host c.http_port (open_apis n.rpc_apis)
      (open_http_config c)
      (λ id.
        registered-AllOpen world.register _ (open_apis n.rpc_apis) (open_apis-AllOpen n.rpc_apis))
      n ok

pub init_ws-Keeps : (world : World) → Keeps IsGuarded (init_ws world)
unfolding init_ws ws_server_for_port
init_ws-Keeps world n ok = chosen (is_empty n.config.http_host || n.http.port == n.config.ws_port)
  where
    c : Config
    c = n.config

    chosen :
        (b : Bool)
        → IsGuarded
            (serve_ws world
              (if b then http_slot else ws_slot)
              c.ws_host
              c.ws_port
              (open_apis n.rpc_apis)
              (open_ws_config c)
              n).1
    chosen true =
        serve_ws-Keeps world http_slot c.ws_host c.ws_port (open_apis n.rpc_apis) (open_ws_config c)
          (λ id.
            registered-AllOpen world.register _ (open_apis n.rpc_apis)
              (open_apis-AllOpen n.rpc_apis))
          n ok
    chosen false =
        serve_ws-Keeps world ws_slot c.ws_host c.ws_port (open_apis n.rpc_apis) (open_ws_config c)
          (λ id.
            registered-AllOpen world.register _ (open_apis n.rpc_apis)
              (open_apis-AllOpen n.rpc_apis))
          n ok

pub init_auth_http-Keeps :
    (world : World)
    → (secret : Bytes) → length secret ≡ 32
    → Keeps IsGuarded (init_auth_http world secret)
unfolding init_auth_http
init_auth_http-Keeps world secret long n ok =
    let c : Config = n.config in
    serve_rpc-Keeps world http_auth_slot c.auth_addr c.auth_port n.rpc_apis
      (auth_http_config c secret) (λ id. long) n ok

pub init_auth_ws-Keeps :
    (world : World)
    → (secret : Bytes) → length secret ≡ 32
    → Keeps IsGuarded (init_auth_ws world secret)
unfolding init_auth_ws ws_server_for_port
init_auth_ws-Keeps world secret long n ok =
    chosen (is_empty n.config.http_host || n.http_auth.port == n.config.auth_port)
  where
    c : Config
    c = n.config

    chosen :
        (b : Bool)
        → IsGuarded
            (serve_ws world
              (if b then http_auth_slot else ws_auth_slot)
              c.auth_addr
              c.auth_port
              n.rpc_apis
              (auth_ws_config secret)
              n).1
    chosen true =
        serve_ws-Keeps world http_auth_slot c.auth_addr c.auth_port n.rpc_apis
          (auth_ws_config secret) (λ id. long) n ok
    chosen false =
        serve_ws-Keeps world ws_auth_slot c.auth_addr c.auth_port n.rpc_apis (auth_ws_config secret)
          (λ id. long) n ok
