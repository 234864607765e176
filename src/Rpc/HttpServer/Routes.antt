-- ===== src/Rpc/HttpServer/Routes.antt =====
-- node/rpcstack.go: `ServeHTTP`, and the stack of handlers that it leads to.
use mive.Base.{ℕ, Bytes, Option, none, some, List, if◌then◌else◌}
use mive.Rpc.Net.{Request, NetParsers}
use mive.Rpc.Handlers.{check_path, is_websocket, Answer, http_stack, ws_stack, Token}
use mive.Rpc.HttpServer.{RpcHandler, MuxHandler, HttpServer}

-- What becomes of a request: it goes to a stack of handlers, to a handler of the mux, or is answered
-- with status 404 or not at all.
pub data Route : Type 0 where
  to_http to_ws : RpcHandler → Route
  to_mux : Bytes → Route
  not_found unanswered : Route

-- `ServeHTTP`; `find` is the mux's `Handler`, whose pattern is `none` where it is empty in the source.
unfoldable pub serve_http :
    (List MuxHandler → Request → Option Bytes) → HttpServer → Request → Route
unfolding check_path is_websocket
serve_http find h r =
    let http_route : Route = elim h.http_handler [
      | none ↦ not_found
      | some rpc ↦ elim (find h.mux r) [
        | some pattern ↦ to_mux pattern
        | none ↦ if check_path r.path h.http_config.prefix then to_http rpc else not_found
      ]
    ] in
    elim h.ws_handler [
      | none ↦ http_route
      | some ws ↦
          if is_websocket r
          then (if check_path r.path h.ws_config.prefix then to_ws ws else unanswered)
          else http_route
    ]

-- The answer of the stack that a request is routed to, at the time `now`; `none` is the mux's own
-- answer, status 404 or none.
unfoldable pub answer :
    (Bytes → Bytes → Option Token) → NetParsers → ℕ → Request → Route → Option (RpcHandler × Answer)
unfolding http_stack ws_stack
answer parse net now r (to_http rpc) =
    some (rpc, http_stack parse net rpc.origins rpc.vhosts rpc.secret now r)
answer parse net now r (to_ws ws) = some (ws, ws_stack parse ws.secret now r)
answer parse net now r (to_mux pattern) = none
answer parse net now r not_found = none
answer parse net now r unanswered = none
