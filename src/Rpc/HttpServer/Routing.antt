-- ===== src/Rpc/HttpServer/Routing.antt =====
-- node/rpcstack.go: which requests an HTTP server serves, while it runs and after it is stopped.
use mive.Base.{
  ℕ, ◌≡◌, inl, inr, Bytes, Bool, true, false, ◌||◌, ltb, Option, none, some, List, [], is_empty,
  is_some, Option-cases, Bool-cases, sym, subst, refl, ap, ◌∙◌, if◌then◌else◌, arith,
}
use mive.Rpc.Net.{Request, NetParsers}
use mive.Rpc.Handlers.{Token, served, http_stack, ws_stack, check_path, is_websocket}
use mive.Rpc.Handlers.Access.{IsAuthorized, http_stack-served, ws_stack-served}
use mive.Rpc.HttpServer.{
  HttpServer, HttpError, Listener, MuxHandler, RpcHandler, stop, do_stop, disable_rpc, disable_ws,
  start, listen_failed,
}
use mive.Rpc.HttpServer.Routes.{
  Route, to_http, to_ws, to_mux, not_found, unanswered, serve_http, answer,
}
use mive.Rpc.HttpServer.Invariant.{IsConsistent, live, count}
use mive.Rpc.HttpServer.Invariant.Handlers.{disable_rpc-IsConsistent, disable_ws-IsConsistent}

abbrev pub Finder : Type 0
Finder = List MuxHandler → Request → Option Bytes

-- No request is served: there is no handler, every request is answered with status 404, and each RPC
-- server ever made was stopped once.
pub record IsClosed (h : HttpServer) : Type 0 where
  pub no_http : h.http_handler ≡ none
  pub no_ws : h.ws_handler ≡ none
  pub unserved : (find : Finder) → (r : Request) → serve_http find h r ≡ not_found
  pub all_stopped : (n : ℕ) → count h.stopped n ≡ (if ltb n h.next_server then 1 else 0)

disable_rpc-http_handler :
    (h : HttpServer)
    → ((disable_rpc h).http_handler ≡ none) × ((disable_rpc h).ws_handler ≡ h.ws_handler)
unfolding disable_rpc
disable_rpc-http_handler h = elim (Option-cases h.http_handler) [
  | inl e ↦ ground arith
  | inr (r, e) ↦ ground arith
]

disable_ws-ws_handler :
    (h : HttpServer)
    → ((disable_ws h).ws_handler ≡ none) × ((disable_ws h).http_handler ≡ h.http_handler)
unfolding disable_ws
disable_ws-ws_handler h = elim (Option-cases h.ws_handler) [
  | inl e ↦ ground arith
  | inr (r, e) ↦ ground arith
]

IsClosed-unserved :
    (h : HttpServer)
    → h.http_handler ≡ none
    → h.ws_handler ≡ none
    → (find : Finder) → (r : Request) → serve_http find h r ≡ not_found
unfolding serve_http
IsClosed-unserved h no_http no_ws find r = rw (no_http, no_ws)

IsClosed-without_handlers :
    (h : HttpServer) → IsConsistent h → h.http_handler ≡ none → h.ws_handler ≡ none → IsClosed h
IsClosed-without_handlers h ok no_http no_ws = record {
  no_http = no_http;
  no_ws = no_ws;
  unserved = IsClosed-unserved h no_http no_ws;
  all_stopped = λ n.
      let q = ok.accounted n in
      let a : live h.http_handler n ≡ 0 = ap (λ o. live o n) no_http in
      let b : live h.ws_handler n ≡ 0 = ap (λ o. live o n) no_ws in ground arith;
}

disabled-IsClosed : (h : HttpServer) → IsConsistent h → IsClosed (disable_ws (disable_rpc h))
disabled-IsClosed h ok =
    let ok' = disable_rpc-IsConsistent h ok in
    let rpc = disable_rpc-http_handler h in
    let ws = disable_ws-ws_handler (disable_rpc h) in
    IsClosed-without_handlers (disable_ws (disable_rpc h))
      (disable_ws-IsConsistent (disable_rpc h) ok') (ws.1 ∙ rpc.0) ws.0

-- Stopping a consistent server that runs takes both handlers away: every request is then answered
-- with status 404, each RPC server ever made was stopped once, and neither the listener nor the
-- endpoint is left.
pub stop-IsClosed :
    (h : HttpServer)
    → (l : Listener) → IsConsistent h
    → h.listener ≡ some l
    → IsClosed (stop h) × ((stop h).listener ≡ none) × ((stop h).endpoint ≡ [])
unfolding do_stop
stop-IsClosed h l ok running =
    let closed = disabled-IsClosed h ok in
    let h' : HttpServer = record (disable_ws (disable_rpc h)) {
      listener = none;
      host = [];
      port = 0;
      endpoint = [];
    } in
    let same : stop h ≡ h' = rw running in
    let closed' : IsClosed h' = record {
      no_http = closed.no_http;
      no_ws = closed.no_ws;
      unserved = IsClosed-unserved h' closed.no_http closed.no_ws;
      all_stopped = closed.all_stopped;
    } in
    (subst IsClosed (sym same) closed', ap (λ s. s.listener) same, ap (λ s. s.endpoint) same)

-- A consistent server whose start returns an error could not listen at its endpoint, and has no
-- handler left: every request is answered with status 404, and each RPC server ever made was
-- stopped once.
pub start-failed :
    (listen : Bytes → Option Bytes)
    → (h h' : HttpServer) → (err : HttpError) → IsConsistent h
    → start listen h ≡ (some err, h')
    → IsClosed h' × (err ≡ listen_failed) × (listen h.endpoint ≡ none)
unfolding start
start-failed listen h h' err ok e = elim (Bool-cases (is_empty h.endpoint || is_some h.listener)) [
  | inl f ↦ ground arith
  | inr f ↦ elim (Option-cases (listen h.endpoint)) [
    | inr (address, g) ↦ ground arith
    | inl g ↦
        let same : h' ≡ disable_ws (disable_rpc h) = ground arith in
        (subst IsClosed (sym same) (disabled-IsClosed h ok), ground arith, g)
  ]
]

-- The handler that a route leads to, if it leads to one.
abbrev pub IsHandlerOf : HttpServer → Route → Type 0
IsHandlerOf h (to_http rpc) = h.http_handler ≡ some rpc
IsHandlerOf h (to_ws ws) = h.ws_handler ≡ some ws
IsHandlerOf h (to_mux pattern) = Unit
IsHandlerOf h not_found = Unit
IsHandlerOf h unanswered = Unit

http_route-handler :
    (h : HttpServer)
    → (found : Option Bytes) → (matches : Bool) → (o : Option RpcHandler) → h.http_handler ≡ o
    → IsHandlerOf h (elim o [
      | none ↦ not_found
      | some rpc ↦ elim found [
        | some pattern ↦ to_mux pattern
        | none ↦ if matches then to_http rpc else not_found
      ]
    ])
http_route-handler h found matches none e = tt
http_route-handler h (some pattern) matches (some rpc) e = tt
http_route-handler h none true (some rpc) e = e
http_route-handler h none false (some rpc) e = tt

ws_route-handler :
    (h : HttpServer)
    → (http : Route) → (websocket matches : Bool) → (o : Option RpcHandler) → IsHandlerOf h http
    → h.ws_handler ≡ o
    → IsHandlerOf h (elim o [
      | none ↦ http
      | some ws ↦ if websocket then (if matches then to_ws ws else unanswered) else http
    ])
ws_route-handler h http websocket matches none t e = t
ws_route-handler h http true true (some ws) t e = e
ws_route-handler h http true false (some ws) t e = tt
ws_route-handler h http false matches (some ws) t e = t

pub serve_http-handler :
    (find : Finder) → (h : HttpServer) → (r : Request) → IsHandlerOf h (serve_http find h r)
unfolding serve_http
serve_http-handler find h r =
    let http =
      http_route-handler h (find h.mux r) (check_path r.path h.http_config.prefix) h.http_handler
        refl in
    ws_route-handler h _ (is_websocket r) (check_path r.path h.ws_config.prefix) h.ws_handler http
      refl

answer-IsAuthorized :
    (parse : Bytes → Bytes → Option Token)
    → (net : NetParsers) → (secret : Bytes) → (now : ℕ) → (h : HttpServer) → (r : Request)
    → (rpc : RpcHandler) → (route : Route) → IsConsistent h
    → is_empty secret ≡ false
    → h.http_config.endpoint_config.jwt_secret ≡ secret
    → h.ws_config.endpoint_config.jwt_secret ≡ secret
    → IsHandlerOf h route
    → answer parse net now r route ≡ some (rpc, served)
    → IsAuthorized parse secret now r
unfolding answer
answer-IsAuthorized parse net secret now h r rpc (to_http x) ok kept a b own e =
    let same : x.secret ≡ secret = (ok.configured.0 x own).secret ∙ a in
    let t : http_stack parse net x.origins x.vhosts secret now r ≡ served =
      subst (λ s. http_stack parse net x.origins x.vhosts s now r ≡ served) same (ground arith) in
    ((http_stack-served parse net x.origins x.vhosts secret now r kept).0 t).0
answer-IsAuthorized parse net secret now h r rpc (to_ws x) ok kept a b own e =
    let same : x.secret ≡ secret = (ok.configured.1 x own).secret ∙ b in
    let t : ws_stack parse secret now r ≡ served =
      subst (λ s. ws_stack parse s now r ≡ served) same (ground arith) in
    ws_stack-served parse secret now r kept t
answer-IsAuthorized parse net secret now h r rpc (to_mux pattern) ok kept a b own e = ground arith
answer-IsAuthorized parse net secret now h r rpc not_found ok kept a b own e = ground arith
answer-IsAuthorized parse net secret now h r rpc unanswered ok kept a b own e = ground arith

-- While both configurations of a consistent server have the same secret, which is not empty, a
-- request that one of its RPC servers serves bears a fresh token made with the secret, whatever is
-- mounted on the mux.
pub served-IsAuthorized :
    (parse : Bytes → Bytes → Option Token)
    → (net : NetParsers) → (find : Finder) → (secret : Bytes) → (now : ℕ) → (h : HttpServer)
    → (r : Request) → (rpc : RpcHandler) → IsConsistent h
    → is_empty secret ≡ false
    → h.http_config.endpoint_config.jwt_secret ≡ secret
    → h.ws_config.endpoint_config.jwt_secret ≡ secret
    → answer parse net now r (serve_http find h r) ≡ some (rpc, served)
    → IsAuthorized parse secret now r
served-IsAuthorized parse net find secret now h r rpc ok kept a b e =
    answer-IsAuthorized parse net secret now h r rpc (serve_http find h r) ok kept a b
      (serve_http-handler find h r) e
