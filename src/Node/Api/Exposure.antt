-- ===== src/Node/Api/Exposure.antt =====
-- node/api.go: what the started servers expose.
use mive.Base.{
  ℕ, ◌≡◌, inl, inr, ◌||◌, ◌==◌, Bytes, Bool, true, false, is_some, Option, none, some, List, [],
  is_empty, if◌then◌else◌, refl, ap, ◌∙◌, Option-cases, Bool-cases, arith,
}
use mive.Rpc.HttpServer.{
  registered, Registry, http_rpc_handler, Api, HttpServer, HttpError, HttpConfig, RpcHandler,
  set_listen_addr, enable_rpc, start,
}
use mive.Node.World.{World}
use mive.Node.Config.{Config, default_ws_host}
use mive.Node.State.{Node}
use mive.Node.Endpoints.{
  Slot, http_slot, ws_slot, Step, and_then, on_server, server, open_apis, ws_server_for_port,
  serve_ws,
}
use mive.Node.Endpoints.Handlers.{start-Have}
use mive.Node.Endpoints.Guarded.{
  IsGuarded, Guard, serve_ws-Keeps, on_server-Keeps, open_apis-AllOpen, registered-AllOpen,
}
use mive.Node.Endpoints.Sequence.{Keeps, and_then-Keeps, and_then-none}
use mive.Node.Api.{
  start_http_config, start_http, start_ws, start_ws_config, host_of, given, parts_of,
}

-- `StartWS` keeps a guarded node guarded, whatever it returns: it offers only APIs that need no
-- authentication.
pub start_ws-IsGuarded :
    (world : World)
    → (host : Option Bytes) → (port : Option ℕ) → (allowed_origins apis : Option Bytes) → (n : Node)
    → IsGuarded n
    → IsGuarded (start_ws world host port allowed_origins apis n).1
unfolding start_ws ws_server_for_port
start_ws-IsGuarded world host port allowed_origins apis n ok =
    chosen (is_empty c.http_host || n.http.port == number)
  where
    c : Config
    c = n.config

    at : Bytes
    at = host_of host c.ws_host default_ws_host

    number : ℕ
    number = given port c.ws_port

    opened : Slot → Step
    opened slot =
        serve_ws world slot at number (open_apis n.rpc_apis)
          (start_ws_config c allowed_origins apis)

    started : Slot → Step
    started slot = on_server slot (start world.listen)

    kept :
        (slot : Slot)
        → Keeps IsGuarded (opened slot)
        → IsGuarded (and_then (opened slot) (started slot) n).1
    kept slot keep =
        and_then-Keeps IsGuarded (opened slot) (started slot) keep
          (on_server-Keeps slot (start world.listen) (start-Have (Guard slot) world.listen)) n ok

    chosen :
        (b : Bool)
        → IsGuarded
            (and_then
              (opened (if b then http_slot else ws_slot))
              (started (if b then http_slot else ws_slot))
              n).1
    chosen true = kept http_slot (
        serve_ws-Keeps world http_slot at number (open_apis n.rpc_apis)
          (start_ws_config c allowed_origins apis)
          (λ id.
            registered-AllOpen world.register _ (open_apis n.rpc_apis)
              (open_apis-AllOpen n.rpc_apis)))
    chosen false = kept ws_slot (
        serve_ws-Keeps world ws_slot at number (open_apis n.rpc_apis)
          (start_ws_config c allowed_origins apis)
          (λ id.
            registered-AllOpen world.register _ (open_apis n.rpc_apis)
              (open_apis-AllOpen n.rpc_apis)))

enable_rpc-http_handler :
    (register : Registry)
    → (apis : List Api) → (config : HttpConfig) → (h : HttpServer)
    → (enable_rpc register apis config h).0 ≡ none
    → (enable_rpc register apis config h).1.http_handler
      ≡ some (http_rpc_handler register apis config h.next_server)
unfolding enable_rpc
enable_rpc-http_handler register apis config h fine = elim (Bool-cases (is_some h.http_handler)) [
  | inl e ↦ ground (arith, e, fine)
  | inr e ↦ elim (Bool-cases (register.succeeds apis config.modules)) [
    | inl f ↦ ground (arith, e, f, fine)
    | inr f ↦ ground (arith, e, f, fine)
  ]
]

start-http_handler :
    (listen : Bytes → Option Bytes)
    → (h : HttpServer) → (start listen h).0 ≡ none
    → (start listen h).1.http_handler ≡ h.http_handler
unfolding start
start-http_handler listen h fine = elim (Bool-cases (is_empty h.endpoint || is_some h.listener)) [
  | inl e ↦ ground (arith, e)
  | inr e ↦ elim (Option-cases (listen h.endpoint)) [
    | inl f ↦ ground (arith, e, f, fine)
    | inr (x, f) ↦ ground (arith, e, f)
  ]
]

on_server-none :
    (slot : Slot)
    → (op : HttpServer → Option HttpError × HttpServer) → (n : Node)
    → (on_server slot op n).0 ≡ none
    → (op (server slot n)).0 ≡ none
on_server-none slot op n fine = elim (Option-cases (op (server slot n)).0) [
  | inl e ↦ e
  | inr (x, e) ↦ ground arith
]

-- When `StartHTTP` succeeds with a host and virtual hosts, the HTTP server has a handler with every API of
-- the node that `RegisterApis` registers under the modules of the call's configuration, those that need
-- authentication too, without a secret, and its virtual hosts are the parts of the host, not those given.
pub start_http-exposed :
    (world : World)
    → (host vhosts : Bytes) → (port : Option ℕ) → (cors apis : Option Bytes) → (n : Node)
    → (start_http world (some host) port cors apis (some vhosts) n).0 ≡ none
    → (r : RpcHandler) × ((start_http world
          (some host)
          port
          cors
          apis
          (some vhosts)
          n).1.http.http_handler
        ≡ some r)
      × (r.apis
          ≡ registered world.register
              (start_http_config n.config host cors apis (some vhosts)).modules
              n.rpc_apis)
      × (r.secret ≡ [])
      × (r.vhosts ≡ parts_of host)
unfolding start_http start_http_config
start_http-exposed world host vhosts port cors apis n fine =
    let c : Config = n.config in
    let config : HttpConfig = start_http_config c host cors apis (some vhosts) in
    let address = on_server http_slot (set_listen_addr host (given port c.http_port)) in
    let enable = on_server http_slot (enable_rpc world.register n.rpc_apis config) in
    let run = on_server http_slot (start world.listen) in
    let (opened, started, ended) = and_then-none (and_then address enable) run n fine in
    let (addressed, enabled, ready) = and_then-none address enable n opened in
    let h : HttpServer = (address n).1.http in
    let made = enable_rpc-http_handler world.register n.rpc_apis config h (
      on_server-none http_slot (enable_rpc world.register n.rpc_apis config) (address n).1
        enabled) in
    let m : Node = (and_then address enable n).1 in
    let kept =
      start-http_handler world.listen m.http
        (on_server-none http_slot (start world.listen) m started) in
    let all : (and_then (and_then address enable) run n).1.http.http_handler
        ≡ some (http_rpc_handler world.register n.rpc_apis config h.next_server) =
      ap (λ q. q.http.http_handler) ended ∙ (kept ∙ (ap (λ q. q.http.http_handler) ready ∙ made)) in
    (http_rpc_handler world.register n.rpc_apis config h.next_server, all, refl, refl, refl)
