-- ===== src/Node/Startup/Listening.antt =====
-- node/node.go: the endpoint that the set-up of the servers gives to the HTTP server.
use mive.Base.{
  ℕ, ◌≡◌, inl, inr, Bytes, false, not, ◌||◌, contains_byte, Option, none, List, [], ◌∷◌, ◌++◌,
  is_empty, refl, ap, ◌∙◌, Bool-cases, arith, codes,
}
use mive.Rpc.Net.{join_host_port, decimal}
use mive.Node.World.{World}
use mive.Node.Config.{Config}
use mive.Rpc.HttpServer.{
  Registry, Api, HttpServer, HttpError, HttpConfig, WsConfig, set_listen_addr, enable_rpc,
  enable_ws, rpc_allowed, ws_allowed,
}
use mive.Node.State.{Node}
use mive.Node.Endpoints.{
  Slot, http_slot, http_auth_slot, ws_auth_slot, ws_slot, on_server, open_apis, init_http,
  serve_rpc, serve_ws, open_http_config,
}
use mive.Node.Endpoints.Sequence.{Keeps, and_then-Keeps, and_then-none}

join_host_port-is_empty : (host port : Bytes) → is_empty (join_host_port host port) ≡ false
unfolding join_host_port
join_host_port-is_empty host port = elim (Bool-cases (contains_byte host b':')) [
  | inl e ↦ rw e refl
  | inr e ↦ rw e (joined host)
]
  where
    joined : (h : Bytes) → is_empty (h ++ (codes ":" ++ port)) ≡ false
    joined [] = refl
    joined (c ∷ h) = refl

-- The HTTP server has an endpoint.
abbrev pub HasEndpoint : Node → Type 0
HasEndpoint n = is_empty n.http.endpoint ≡ false

pub on_server-Keeps :
    (slot : Slot)
    → (op : HttpServer → Option HttpError × HttpServer)
    → ((h : HttpServer) → is_empty h.endpoint ≡ false → is_empty (op h).1.endpoint ≡ false)
    → Keeps HasEndpoint (on_server slot op)
on_server-Keeps http_slot op keep n ok = keep n.http ok
on_server-Keeps ws_slot op keep n ok = ok
on_server-Keeps http_auth_slot op keep n ok = ok
on_server-Keeps ws_auth_slot op keep n ok = ok

set_listen_addr-endpoint :
    (host : Bytes)
    → (port : ℕ) → (h : HttpServer) → is_empty h.endpoint ≡ false
    → is_empty (set_listen_addr host port h).1.endpoint ≡ false
unfolding set_listen_addr
set_listen_addr-endpoint host port h ok =
    ground (arith, join_host_port-is_empty host (decimal port))

enable_rpc-endpoint :
    (register : Registry)
    → (apis : List Api) → (config : HttpConfig) → (h : HttpServer)
    → (enable_rpc register apis config h).1.endpoint ≡ h.endpoint
unfolding enable_rpc
enable_rpc-endpoint register apis config h =
    elim (Bool-cases (rpc_allowed h || not (register.succeeds apis config.modules))) [
      | inl e ↦ ground (arith, e)
      | inr e ↦ ground (arith, e)
    ]

enable_ws-endpoint :
    (register : Registry)
    → (apis : List Api) → (config : WsConfig) → (h : HttpServer)
    → (enable_ws register apis config h).1.endpoint ≡ h.endpoint
unfolding enable_ws
enable_ws-endpoint register apis config h =
    elim (Bool-cases (ws_allowed h || not (register.succeeds apis config.modules))) [
      | inl e ↦ ground (arith, e)
      | inr e ↦ ground (arith, e)
    ]

pub serve_rpc-Keeps :
    (world : World)
    → (slot : Slot) → (host : Bytes) → (port : ℕ) → (apis : List Api) → (config : HttpConfig)
    → Keeps HasEndpoint (serve_rpc world slot host port apis config)
serve_rpc-Keeps world slot host port apis config =
    let address = set_listen_addr host port in
    let enable = enable_rpc world.register apis config in
    and_then-Keeps HasEndpoint (on_server slot address) (on_server slot enable)
      (on_server-Keeps slot address (set_listen_addr-endpoint host port))
      (on_server-Keeps slot enable
        (λ h ok. rw (enable_rpc-endpoint world.register apis config h) ok))

pub serve_ws-Keeps :
    (world : World)
    → (slot : Slot) → (host : Bytes) → (port : ℕ) → (apis : List Api) → (config : WsConfig)
    → Keeps HasEndpoint (serve_ws world slot host port apis config)
serve_ws-Keeps world slot host port apis config =
    let address = set_listen_addr host port in
    let enable = enable_ws world.register apis config in
    and_then-Keeps HasEndpoint (on_server slot address) (on_server slot enable)
      (on_server-Keeps slot address (set_listen_addr-endpoint host port))
      (on_server-Keeps slot enable
        (λ h ok. rw (enable_ws-endpoint world.register apis config h) ok))

-- A set-up of the HTTP server without an error gives it an endpoint.
pub init_http-HasEndpoint :
    (world : World) → (n : Node) → (init_http world n).0 ≡ none → HasEndpoint (init_http world n).1
unfolding init_http set_listen_addr
init_http-HasEndpoint world n fine =
    let c : Config = n.config in
    let address = on_server http_slot (set_listen_addr c.http_host c.http_port) in
    let enable =
      on_server http_slot (enable_rpc world.register (open_apis n.rpc_apis) (open_http_config c)) in
    let (addressed, enabled, ready) = and_then-none address enable n fine in
    let at : HasEndpoint (address n).1 =
      ground (arith, addressed, join_host_port-is_empty c.http_host (decimal c.http_port)) in
    let kept =
      enable_rpc-endpoint world.register (open_apis n.rpc_apis) (open_http_config c)
        (address n).1.http in
    ap (λ m. is_empty m.http.endpoint) ready ∙ (ap is_empty kept ∙ at)
