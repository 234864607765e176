-- ===== src/Node/Lifecycle/Shutdown.antt =====
-- node/node.go: what is left of a node that failed to start, or that was closed.
use mive.Base.{
  ℕ, ◌≡◌, inl, inr, Bool, true, false, is_some, Option, none, some, List, [], refl, sym, subst,
  Option-cases, arith,
}
use mive.Rpc.HttpServer.{HttpServer, do_stop}
use mive.Rpc.IpcServer
use mive.Node.World.{World}
use mive.Node.Config.{Platform}
use mive.Node.State.{Node, NodeError, Event, initializing, running, closed}
use mive.Node.Endpoints.{Slot, http_slot, ws_slot, http_auth_slot, ws_auth_slot, server}
use mive.Node.Startup.{Boot, start_rpc, stop_rpc}
use mive.Node.Lifecycle.{
  open_endpoints, start_lifecycles, stop_services, stop_lifecycles, do_close, start, start_in,
  settle_services, settle_endpoints, after_opening, close, close_in,
}

-- No endpoint listens.
pub record IsSilent (n : Node) : Type 0 where
  pub quiet : (slot : Slot) → (server slot n).listener ≡ none
  pub no_ipc : n.ipc.running ≡ none

-- The node is closed and holds nothing: no endpoint listens, no database is open, its directory is
-- unlocked, and whoever waits for it goes on.
pub record IsShut (n : Node) : Type 0 where
  pub is_closed : n.state ≡ closed
  pub silent : IsSilent n
  pub no_databases : n.databases ≡ []
  pub unlocked : n.dir_locked ≡ false
  pub released : n.waits ≡ false

do_stop-listener : (h : HttpServer) → (do_stop h).listener ≡ none
unfolding do_stop
do_stop-listener h = elim (Option-cases h.listener) [
  | inl e ↦ ground (arith, e)
  | inr (l, e) ↦ ground (arith, e)
]

stop_rpc-IsSilent : (n : Node) → IsSilent (stop_rpc n)
unfolding stop_rpc IpcServer.stop
stop_rpc-IsSilent n = record {
  quiet = elim [
    | http_slot ↦ do_stop-listener n.http
    | ws_slot ↦ do_stop-listener n.ws
    | http_auth_slot ↦ do_stop-listener n.http_auth
    | ws_auth_slot ↦ do_stop-listener n.ws_auth
  ];
  no_ipc = refl;
}

do_close-IsShut :
    (world : World) → (failed : Bool) → (n : Node) → IsSilent n → IsShut (do_close world failed n).2
unfolding do_close
do_close-IsShut world failed n silent = record {
  is_closed = refl;
  silent = record {
    quiet = elim [
      | http_slot ↦ silent.quiet http_slot
      | ws_slot ↦ silent.quiet ws_slot
      | http_auth_slot ↦ silent.quiet http_auth_slot
      | ws_auth_slot ↦ silent.quiet ws_auth_slot
    ];
    no_ipc = silent.no_ipc;
  };
  no_databases = refl;
  unlocked = refl;
  released = refl;
}

settle_services-IsShut :
    (world : World)
    → (started : List ℕ) → (failed : Bool) → (starting : List Event) → (n : Node)
    → is_some (settle_services world started failed starting n).0 ≡ true
    → IsShut (settle_services world started failed starting n).2
unfolding stop_services
settle_services-IsShut world started false starting n e = ground arith
settle_services-IsShut world started true starting n e =
    do_close-IsShut world false (stop_rpc n) (stop_rpc-IsSilent n)

after_opening-IsShut :
    (world : World)
    → (err : Option NodeError) → (b : Boot)
    → is_some
        (after_opening world
          (settle_endpoints err b).0
          (settle_endpoints err b).1
          (settle_endpoints err b).2).0
      ≡ true
    → IsShut
        (after_opening world
          (settle_endpoints err b).0
          (settle_endpoints err b).1
          (settle_endpoints err b).2).2
after_opening-IsShut world (some err) b e =
    do_close-IsShut world false (stop_rpc b.node) (stop_rpc-IsSilent b.node)
after_opening-IsShut world none b e =
    let (started, failed, starting) = start_lifecycles world b.node.lifecycles in
    settle_services-IsShut world started failed starting b.node e

start_in-IsShut :
    (os : Platform)
    → (world : World) → (n : Node) → is_some (start_in initializing os world n).0 ≡ true
    → IsShut (start_in initializing os world n).2
unfolding open_endpoints
start_in-IsShut os world n e =
    let (err, b) = start_rpc os world (record n { state = running }) in
    after_opening-IsShut world err b e

-- When `Start` of a new node fails, for whatever reason, the node ends up shut: it is closed, no
-- endpoint listens, no database is open, the directory is unlocked and nobody waits any longer.
pub start-IsShut :
    (os : Platform)
    → (world : World) → (n : Node) → n.state ≡ initializing
    → is_some (start os world n).0 ≡ true
    → IsShut (start os world n).2
unfolding start
start-IsShut os world n new e =
    let fails = subst (λ s. is_some (start_in s os world n).0 ≡ true) new e in
    subst (λ s. IsShut (start_in s os world n).2) (sym new) (start_in-IsShut os world n fails)

-- `Close` of a node that runs leaves it shut, whatever fails on the way.
pub close-IsShut : (world : World) → (n : Node) → n.state ≡ running → IsShut (close world n).2
unfolding close stop_services
close-IsShut world n runs =
    let (failed, stopping) = stop_lifecycles world n.lifecycles in
    subst (λ s. IsShut (close_in s world n).2) (sym runs)
      (do_close-IsShut world failed (stop_rpc n) (stop_rpc-IsSilent n))
