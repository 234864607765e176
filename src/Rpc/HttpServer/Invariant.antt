-- ===== src/Rpc/HttpServer/Invariant.antt =====
-- node/rpcstack.go: what every operation of `httpServer` keeps.
pub mod Handlers
pub mod Listening
use mive.Base.{
  ℕ, suc, ◌+◌, ◌≡◌, ◌⊎◌, Bytes, Bool, Option, none, some, List, [], ◌∷◌, ltb, ◌==◌, not, ◌&&◌, ◌||◌,
  true, false, bytes_eq, bytes_eq_iff, is_some, is_empty, Bool-cases, if◌then◌else◌, refl, sym, ap,
  subst, Option-cases, inl, inr, arith,
}
use mive.Rpc.Net.{decimal, join_host_port}
use mive.Rpc.HttpServer.{
  Registry, Api, HttpConfig, WsConfig, RpcHandler, HttpServer, new_http_server, set_listen_addr,
  disable_rpc, disable_ws, start, do_stop, stop, stop_ws, enable_rpc, enable_ws, rpc_allowed,
  ws_allowed,
}

-- 1 if the handler's RPC server has the number.
abbrev pub live : Option RpcHandler → ℕ → ℕ
live none n = 0
live (some r) n = if r.server == n then 1 else 0

-- How often a number stands in a list.
abbrev pub count : List ℕ → ℕ → ℕ
count [] n = 0
count (x ∷ xs) n = (if x == n then 1 else 0) + count xs n

-- Each RPC server made so far stands in one handler, or was stopped once; no other was stopped.
abbrev pub IsAccounted : HttpServer → Type 0
IsAccounted h =
    (n : ℕ)
    → live h.http_handler n + live h.ws_handler n + count h.stopped n
      ≡ (if ltb n h.next_server then 1 else 0)

-- The endpoint is that of the host and the port, unless none was set, and a running server listens
-- at the address of the host and the port.
abbrev pub IsAddressed : HttpServer → Type 0
IsAddressed h =
    ((h.endpoint ≡ []) ⊎ (h.endpoint ≡ join_host_port h.host (decimal h.port)))
    × ((l : _) → h.listener ≡ some l → l.opened_for ≡ join_host_port h.host (decimal h.port))

-- The HTTP handler was made from the configuration: its modules, its CORS origins, its virtual hosts and its
-- secret are those of the configuration.
pub record IsMadeFrom (c : HttpConfig) (r : RpcHandler) : Type 0 where
  pub modules : r.modules ≡ c.modules
  pub origins : r.origins ≡ c.cors_allowed_origins
  pub vhosts : r.vhosts ≡ c.vhosts
  pub secret : r.secret ≡ c.endpoint_config.jwt_secret

-- The WebSocket handler was made from the configuration: its modules, its origins and its secret.
pub record IsMadeFromWs (c : WsConfig) (r : RpcHandler) : Type 0 where
  pub modules : r.modules ≡ c.modules
  pub origins : r.origins ≡ c.origins
  pub secret : r.secret ≡ c.endpoint_config.jwt_secret

-- The handlers were made from the configurations beside them.
abbrev pub IsConfigured : HttpServer → Type 0
IsConfigured h =
    ((r : _) → h.http_handler ≡ some r → IsMadeFrom h.http_config r)
    × ((r : _) → h.ws_handler ≡ some r → IsMadeFromWs h.ws_config r)

pub record IsConsistent (h : HttpServer) : Type 0 where
  pub accounted : IsAccounted h
  pub addressed : IsAddressed h
  pub configured : IsConfigured h

-- One call of an exported operation, whatever it returns.
pub data Step : HttpServer → HttpServer → Type 0 where
  addresses :
      {h : HttpServer} → (host : Bytes) → (port : ℕ) → Step h (set_listen_addr host port h).1
  starts : {h : HttpServer} → (listen : Bytes → Option Bytes) → Step h (start listen h).1
  stops : {h : HttpServer} → Step h (stop h)
  stops_ws : {h : HttpServer} → Step h (stop_ws h)
  enables_rpc :
      {h : HttpServer}
      → (register : Registry) → (apis : List Api) → (config : HttpConfig)
      → Step h (enable_rpc register apis config h).1
  enables_ws :
      {h : HttpServer}
      → (register : Registry) → (apis : List Api) → (config : WsConfig)
      → Step h (enable_ws register apis config h).1

-- The states that calls of the operations lead to from a new server.
pub data Reachable : HttpServer → Type 0 where
  first : Reachable new_http_server
  next : {h h' : HttpServer} → Reachable h → Step h h' → Reachable h'
