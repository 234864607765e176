-- ===== src/Node/Lifecycle/Order.antt =====
-- node/node.go: the order in which services run and stop, from `Start` to `Close`.
use mive.Base.{
  ℕ, ◌≡◌, Bool, true, false, Option, none, some, List, [], ◌++◌, refl, sym, subst, ap, ◌∙◌, arith,
  is_some,
}
use mive.Node.World.{World}
use mive.Node.Config.{Platform}
use mive.Node.State.{Node, NodeError, Event, initializing, running}
use mive.Node.Startup.{Boot, start_rpc, stop_rpc}
use mive.Node.Lifecycle.{
  Result, open_endpoints, start_lifecycles, stop_lifecycles, stop_services, do_close, start,
  start_in, settle_services, settle_endpoints, after_opening, close, close_in,
}
use mive.Node.Lifecycle.Services.{
  replay, pushed, replay-append, start_lifecycles-replay, stop_lifecycles-replay,
  start_lifecycles-started, IsIdle, do_close-IsIdle, start_rpc-IsIdle,
}

-- What the events of an operation leave running: nothing if it fails, else the services of the node.
abbrev Settled : Result → Type 0
Settled r = elim r.0 [
  | some err ↦ replay r.1 [] ≡ some []
  | none ↦ replay r.1 [] ≡ some (pushed r.2.lifecycles [])
]

stopping-replay :
    (world : World)
    → (failed : Bool) → (started : List ℕ) → (n : Node)
    → replay ((stop_lifecycles world started).1 ++ (do_close world failed n).1) (pushed started [])
      ≡ some []
stopping-replay world failed started n =
    replay-append (stop_lifecycles world started).1 (do_close world failed n).1 (pushed started [])
      [] (stop_lifecycles-replay world started [])
    ∙ do_close-IsIdle world failed n []

settle_services-Settled :
    (world : World)
    → (n : Node) → (failed : Bool) → (start_lifecycles world n.lifecycles).1 ≡ failed
    → Settled (
        settle_services world
          (start_lifecycles world n.lifecycles).0
          failed
          (start_lifecycles world n.lifecycles).2
          n)
unfolding stop_services
settle_services-Settled world n false e =
    let all = start_lifecycles-started world n.lifecycles e in
    start_lifecycles-replay world n.lifecycles [] ∙ ap (λ ls. some (pushed ls [])) all
settle_services-Settled world n true e =
    let started = (start_lifecycles world n.lifecycles).0 in
    replay-append (start_lifecycles world n.lifecycles).2 _ [] (pushed started [])
      (start_lifecycles-replay world n.lifecycles [])
    ∙ stopping-replay world false started (stop_rpc n)

after_idle :
    (opening : List Event)
    → (r : Result) → IsIdle opening
    → Settled r
    → Settled (r.0, opening ++ r.1, r.2)
after_idle opening r idle ok = by_error r.0 ok
  where
    joined : replay (opening ++ r.1) [] ≡ replay r.1 []
    joined = replay-append opening r.1 [] [] (idle [])

    by_error : (e : Option NodeError) → Settled (e, r.1, r.2) → Settled (e, opening ++ r.1, r.2)
    by_error none kept = joined ∙ kept
    by_error (some err) kept = joined ∙ kept

after_opening-Settled :
    (world : World)
    → (err : Option NodeError) → (b : Boot) → IsIdle b.events
    → Settled (
        after_opening world
          (settle_endpoints err b).0
          (settle_endpoints err b).1
          (settle_endpoints err b).2)
after_opening-Settled world (some err) b idle =
    replay-append b.events (do_close world false (stop_rpc b.node)).1 [] [] (idle [])
    ∙ do_close-IsIdle world false (stop_rpc b.node) []
after_opening-Settled world none b idle =
    let n : Node = b.node in
    let (started, failed, starting) = start_lifecycles world n.lifecycles in
    let r : Result = settle_services world started failed starting n in
    after_idle b.events r idle
      (settle_services-Settled world n (start_lifecycles world n.lifecycles).1 refl)

start_in-Settled :
    (os : Platform) → (world : World) → (n : Node) → Settled (start_in initializing os world n)
unfolding open_endpoints
start_in-Settled os world n =
    let n' : Node = record n { state = running } in
    let (err, b) = start_rpc os world n' in
    after_opening-Settled world err b (start_rpc-IsIdle os world n')

start-Settled :
    (os : Platform)
    → (world : World) → (n : Node) → n.state ≡ initializing
    → Settled (start os world n)
unfolding start
start-Settled os world n new =
    subst (λ s. Settled (start_in s os world n)) (sym new) (start_in-Settled os world n)

Settled-failed : (r : Result) → is_some r.0 ≡ true → Settled r → replay r.1 [] ≡ some []
Settled-failed r fails ok = by_error r.0 fails ok
  where
    by_error :
        (e : Option NodeError) → is_some e ≡ true → Settled (e, r.1, r.2) → replay r.1 [] ≡ some []
    by_error none f kept = ground arith
    by_error (some err) f kept = kept

Settled-running :
    (r : Result) → r.0 ≡ none → Settled r → replay r.1 [] ≡ some (pushed r.2.lifecycles [])
Settled-running r fine ok = by_error r.0 fine ok
  where
    by_error :
        (e : Option NodeError)
        → e ≡ none
        → Settled (e, r.1, r.2)
        → replay r.1 [] ≡ some (pushed r.2.lifecycles [])
    by_error none f kept = kept
    by_error (some err) f kept = ground arith

-- When `Start` of a new node fails, each service that it started is stopped again, the last one
-- first, and no service is left running.
pub start-replay_failed :
    (os : Platform)
    → (world : World) → (n : Node) → n.state ≡ initializing
    → is_some (start os world n).0 ≡ true
    → replay (start os world n).1 [] ≡ some []
start-replay_failed os world n new fails =
    Settled-failed (start os world n) fails (start-Settled os world n new)

-- When `Start` of a new node succeeds, and `Close` is called on a running node with the services
-- that it left, then after the events of both no service runs: each that was started was stopped
-- once, the last one first.
pub start-close-replay :
    (os : Platform)
    → (world world' : World) → (n m : Node) → n.state ≡ initializing
    → (start os world n).0 ≡ none
    → m.state ≡ running
    → m.lifecycles ≡ (start os world n).2.lifecycles
    → replay ((start os world n).1 ++ (close world' m).1) [] ≡ some []
unfolding close stop_services
start-close-replay os world world' n m new fine runs same =
    let r : Result = start os world n in
    let running_services : replay r.1 [] ≡ some (pushed m.lifecycles []) =
      Settled-running r fine (start-Settled os world n new)
      ∙ ap (λ ls. some (pushed ls [])) (sym same) in
    subst (λ s. replay (r.1 ++ (close_in s world' m).1) [] ≡ some []) (sym runs)
      (replay-append r.1 (close_in running world' m).1 [] (pushed m.lifecycles []) running_services
        ∙ stopping-replay world' (stop_lifecycles world' m.lifecycles).0 m.lifecycles (stop_rpc m))
