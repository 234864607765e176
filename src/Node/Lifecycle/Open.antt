-- ===== src/Node/Lifecycle/Open.antt =====
-- node/node.go: which endpoint listens when a node was started.
use mive.Base.{
  ℕ, ◌≡◌, Bool, true, false, Option, none, some, List, is_empty, subst, sym, refl, arith,
}
use mive.Node.World.{World}
use mive.Node.Config.{Platform}
use mive.Node.State.{Node, NodeError, Event, initializing, running}
use mive.Node.Startup.{Boot, start_rpc}
use mive.Node.Startup.Started.{IsListening}
use mive.Node.Startup.Configured.{start_rpc-IsListening}
use mive.Node.Lifecycle.{
  open_endpoints, start_lifecycles, start, start_in, settle_services, settle_endpoints,
  after_opening,
}

settle_services-none :
    (world : World)
    → (started : List ℕ) → (failed : Bool) → (starting : List Event) → (n : Node)
    → (settle_services world started failed starting n).0 ≡ none
    → IsListening n
    → IsListening (settle_services world started failed starting n).2
settle_services-none world started false starting n fine up = up
settle_services-none world started true starting n fine up = ground arith

after_opening-none :
    (world : World)
    → (err : Option NodeError) → (b : Boot)
    → (after_opening world
        (settle_endpoints err b).0
        (settle_endpoints err b).1
        (settle_endpoints err b).2).0
      ≡ none
    → (err ≡ none → IsListening b.node)
    → IsListening
        (after_opening world
          (settle_endpoints err b).0
          (settle_endpoints err b).1
          (settle_endpoints err b).2).2
after_opening-none world (some err) b fine up = ground arith
after_opening-none world none b fine up =
    let (started, failed, starting) = start_lifecycles world b.node.lifecycles in
    settle_services-none world started failed starting b.node fine (up refl)

start_in-IsListening :
    (os : Platform)
    → (world : World) → (n : Node) → is_empty n.config.http_host ≡ false
    → (start_in initializing os world n).0 ≡ none
    → IsListening (start_in initializing os world n).2
unfolding open_endpoints
start_in-IsListening os world n given fine =
    let n' : Node = record n { state = running } in
    let (err, b) = start_rpc os world n' in
    after_opening-none world err b fine (λ e. start_rpc-IsListening os world n' given e)

-- When `Start` of a new node with an HTTP host succeeds, its HTTP server listens.
pub start-IsListening :
    (os : Platform)
    → (world : World) → (n : Node) → n.state ≡ initializing
    → is_empty n.config.http_host ≡ false
    → (start os world n).0 ≡ none
    → IsListening (start os world n).2
unfolding start
start-IsListening os world n new given fine =
    let fine' = subst (λ s. (start_in s os world n).0 ≡ none) new fine in
    subst (λ s. IsListening (start_in s os world n).2) (sym new)
      (start_in-IsListening os world n given fine')
