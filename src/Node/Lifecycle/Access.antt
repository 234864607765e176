-- ===== src/Node/Lifecycle/Access.antt =====
-- node/node.go: who reaches which APIs on a node that was started.
use mive.Base.{
  ℕ, ◌≡◌, Bytes, Bool, true, false, Option, none, some, List, [], ◌∷◌, refl, subst, length,
  is_empty, arith,
}
use mive.Rpc.Net.{Request, NetParsers}
use mive.Rpc.Handlers.{Token, served}
use mive.Rpc.Handlers.Access.{IsAuthorized, http_stack-served, ws_stack-served}
use mive.Rpc.HttpServer.{RpcHandler, HttpServer}
use mive.Rpc.HttpServer.Routes.{
  serve_http, answer, Route, to_http, to_ws, to_mux, not_found, unanswered,
}
use mive.Rpc.HttpServer.Routing.{Finder, IsHandlerOf, serve_http-handler}
use mive.Node.World.{World}
use mive.Node.Config.{Platform}
use mive.Node.State.{Node, NodeState, NodeError, initializing, running, closed, Event}
use mive.Node.Endpoints.{Slot, http_slot, ws_slot, http_auth_slot, ws_auth_slot, server}
use mive.Node.Endpoints.Handlers.{Have, stop-Have}
use mive.Node.Endpoints.Guarded.{IsGuarded, IsSealed, IsOpen, AllOpen}
use mive.Node.Startup.{Boot, start_rpc, stop_rpc}
use mive.Node.Startup.Secured.{start_rpc-IsGuarded, IsGuarded-servers}
use mive.Node.Lifecycle.{
  open_endpoints, start_lifecycles, stop_services, do_close, start, start_in, settle_services,
  settle_endpoints, after_opening,
}

stop_rpc-IsGuarded : (n : Node) → IsGuarded n → IsGuarded (stop_rpc n)
unfolding stop_rpc
stop_rpc-IsGuarded n ok = record {
  guarded = elim [
    | http_slot ↦ stop-Have IsOpen n.http (ok.guarded http_slot)
    | ws_slot ↦ stop-Have IsOpen n.ws (ok.guarded ws_slot)
    | http_auth_slot ↦ stop-Have IsSealed n.http_auth (ok.guarded http_auth_slot)
    | ws_auth_slot ↦ stop-Have IsSealed n.ws_auth (ok.guarded ws_auth_slot)
  ];
}

do_close-IsGuarded :
    (world : World)
    → (failed : Bool) → (n : Node) → IsGuarded n
    → IsGuarded (do_close world failed n).2
unfolding do_close
do_close-IsGuarded world failed n ok =
    IsGuarded-servers n _
      (elim [ http_slot ↦ refl | ws_slot ↦ refl | http_auth_slot ↦ refl | ws_auth_slot ↦ refl ]) ok

settle_services-IsGuarded :
    (world : World)
    → (started : List ℕ) → (failed : Bool) → (starting : List Event) → (n : Node) → IsGuarded n
    → IsGuarded (settle_services world started failed starting n).2
unfolding stop_services
settle_services-IsGuarded world started false starting n ok = ok
settle_services-IsGuarded world started true starting n ok =
    do_close-IsGuarded world false (stop_rpc n) (stop_rpc-IsGuarded n ok)

after_opening-IsGuarded :
    (world : World)
    → (err : Option NodeError) → (b : Boot) → IsGuarded b.node
    → IsGuarded
        (after_opening world
          (settle_endpoints err b).0
          (settle_endpoints err b).1
          (settle_endpoints err b).2).2
after_opening-IsGuarded world (some err) b ok =
    do_close-IsGuarded world false (stop_rpc b.node) (stop_rpc-IsGuarded b.node ok)
after_opening-IsGuarded world none b ok =
    let (started, failed, starting) = start_lifecycles world b.node.lifecycles in
    settle_services-IsGuarded world started failed starting b.node ok

start_in-IsGuarded :
    (os : Platform)
    → (world : World) → (n : Node) → length world.random ≡ 32
    → IsGuarded n
    → (s : NodeState) → IsGuarded (start_in s os world n).2
unfolding open_endpoints
start_in-IsGuarded os world n long ok running = ok
start_in-IsGuarded os world n long ok closed = ok
start_in-IsGuarded os world n long ok initializing =
    let n' : Node = record n { state = running } in
    let ok' =
      IsGuarded-servers n n'
        (elim [ http_slot ↦ refl | ws_slot ↦ refl | http_auth_slot ↦ refl | ws_auth_slot ↦ refl ])
        ok in
    let (err, b) = start_rpc os world n' in
    after_opening-IsGuarded world err b (start_rpc-IsGuarded os world n' long ok')

-- `Start`, whatever it returns, keeps a node guarded: the handlers of its two ordinary servers have
-- only APIs that need no authentication, and those of the two authenticated servers have a secret of
-- 32 bytes, if that is what `crand.Read` makes.
pub start-IsGuarded :
    (os : Platform)
    → (world : World) → (n : Node) → length world.random ≡ 32
    → IsGuarded n
    → IsGuarded (start os world n).2
unfolding start
start-IsGuarded os world n long ok = start_in-IsGuarded os world n long ok n.state

nonempty : (s : Bytes) → length s ≡ 32 → is_empty s ≡ false
nonempty [] e = ground arith
nonempty (c ∷ s) e = refl

answer-IsSealed :
    (parse : Bytes → Bytes → Option Token)
    → (net : NetParsers) → (now : ℕ) → (h : HttpServer) → (r : Request) → (rpc : RpcHandler)
    → Have IsSealed h
    → (route : Route) → IsHandlerOf h route
    → answer parse net now r route ≡ some (rpc, served)
    → IsAuthorized parse rpc.secret now r
unfolding answer
answer-IsSealed parse net now h r rpc have (to_http x) own e =
    let same : x ≡ rpc = ground arith in
    let long : length x.secret ≡ 32 = have.rpc x own in
    let kept : is_empty x.secret ≡ false = nonempty x.secret long in
    subst (λ y. IsAuthorized parse y.secret now r) same
      ((http_stack-served parse net x.origins x.vhosts x.secret now r kept).0 (ground arith)).0
answer-IsSealed parse net now h r rpc have (to_ws x) own e =
    let same : x ≡ rpc = ground arith in
    let long : length x.secret ≡ 32 = have.ws x own in
    let kept : is_empty x.secret ≡ false = nonempty x.secret long in
    subst (λ y. IsAuthorized parse y.secret now r) same
      (ws_stack-served parse x.secret now r kept (ground arith))
answer-IsSealed parse net now h r rpc have (to_mux pattern) own e = ground arith
answer-IsSealed parse net now h r rpc have not_found own e = ground arith
answer-IsSealed parse net now h r rpc have unanswered own e = ground arith

answer-IsOpen :
    (parse : Bytes → Bytes → Option Token)
    → (net : NetParsers) → (now : ℕ) → (h : HttpServer) → (r : Request) → (rpc : RpcHandler)
    → Have IsOpen h
    → (route : Route) → IsHandlerOf h route
    → answer parse net now r route ≡ some (rpc, served)
    → AllOpen rpc.apis
unfolding answer
answer-IsOpen parse net now h r rpc have (to_http x) own e =
    let same : x ≡ rpc = ground arith in subst IsOpen same (have.rpc x own)
answer-IsOpen parse net now h r rpc have (to_ws x) own e =
    let same : x ≡ rpc = ground arith in subst IsOpen same (have.ws x own)
answer-IsOpen parse net now h r rpc have (to_mux pattern) own e = ground arith
answer-IsOpen parse net now h r rpc have not_found own e = ground arith
answer-IsOpen parse net now h r rpc have unanswered own e = ground arith

-- What a client may count on that a server of the node serves.
abbrev pub Protected : (Bytes → Bytes → Option Token) → ℕ → Request → Slot → RpcHandler → Type 0
Protected parse now r http_slot rpc = AllOpen rpc.apis
Protected parse now r ws_slot rpc = AllOpen rpc.apis
Protected parse now r http_auth_slot rpc = IsAuthorized parse rpc.secret now r
Protected parse now r ws_auth_slot rpc = IsAuthorized parse rpc.secret now r

guarded-Protected :
    (parse : Bytes → Bytes → Option Token)
    → (net : NetParsers) → (find : Finder) → (now : ℕ) → (r : Request) → (n : Node) → IsGuarded n
    → (slot : Slot) → (rpc : RpcHandler)
    → answer parse net now r (serve_http find (server slot n) r) ≡ some (rpc, served)
    → Protected parse now r slot rpc
guarded-Protected parse net find now r n ok http_slot rpc e =
    answer-IsOpen parse net now n.http r rpc (ok.guarded http_slot) _
      (serve_http-handler find n.http r) e
guarded-Protected parse net find now r n ok ws_slot rpc e =
    answer-IsOpen parse net now n.ws r rpc (ok.guarded ws_slot) _ (serve_http-handler find n.ws r) e
guarded-Protected parse net find now r n ok http_auth_slot rpc e =
    answer-IsSealed parse net now n.http_auth r rpc (ok.guarded http_auth_slot) _
      (serve_http-handler find n.http_auth r) e
guarded-Protected parse net find now r n ok ws_auth_slot rpc e =
    answer-IsSealed parse net now n.ws_auth r rpc (ok.guarded ws_auth_slot) _
      (serve_http-handler find n.ws_auth r) e

-- After `Start` of a guarded node, whatever it returns, a request that one of its servers serves
-- is protected, if `crand.Read` fills in 32 bytes: on the two ordinary servers it is served by
-- APIs that need no authentication, and on the two authenticated ones it bears a fresh token that
-- is made with the secret of the handler.
pub start-Protected :
    (os : Platform)
    → (world : World) → (parse : Bytes → Bytes → Option Token) → (net : NetParsers)
    → (find : Finder) → (now : ℕ) → (r : Request) → (n : Node) → (slot : Slot) → (rpc : RpcHandler)
    → length world.random ≡ 32
    → IsGuarded n
    → answer parse net now r (serve_http find (server slot (start os world n).2) r)
      ≡ some (rpc, served)
    → Protected parse now r slot rpc
start-Protected os world parse net find now r n slot rpc long ok e =
    guarded-Protected parse net find now r (start os world n).2 (start-IsGuarded os world n long ok)
      slot rpc e
