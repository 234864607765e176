-- ===== src/Node/Lifecycle.antt =====
-- node/node.go: the node starts and closes, with its services and its databases.
pub mod Shutdown
pub mod Services
pub mod Order
pub mod Open
pub mod Access
use mive.Base.{
  ℕ, ◌++◌, ◌==◌, Bytes, Bool, true, false, not, Option, none, some, List, [], ◌∷◌, is_empty,
  if◌then◌else◌, reverse,
}
use mive.Node.Config.{Platform}
use mive.Node.World.{World}
use mive.Node.State.{
  NodeState, initializing, running, closed, Node, NodeError, node_running, node_stopped,
  service_start_failed, close_failed, database_failed, Event, service_started, service_failed,
  service_stopped, database_closed, key_dir_removed, is_closed,
}
use mive.Node.Startup.{Boot, start_rpc, stop_rpc}

-- An operation's error, what it did around the node, and the node after it.
abbrev pub Result : Type 0
Result = Option NodeError × List Event × Node

-- `openEndpoints`, from what `startRPC` returns
abbrev pub settle_endpoints : Option NodeError → Boot → Result
settle_endpoints none b = (none, b.events, b.node)
settle_endpoints (some err) b = (some err, b.events, stop_rpc b.node)

-- `openEndpoints`
unfoldable pub open_endpoints : Platform → World → Node → Result
unfolding start_rpc stop_rpc
open_endpoints os world n = let (e, b) = start_rpc os world n in settle_endpoints e b

-- The loop of `Start` over the services: those that were started, and whether one failed.
abbrev pub start_lifecycles : World → List ℕ → List ℕ × Bool × List Event
start_lifecycles world [] = ([], false, [])
start_lifecycles world (l ∷ ls) =
    let (started, failed, events) = start_lifecycles world ls in
    if world.starts l
    then (l ∷ started, failed, service_started l ∷ events)
    else ([], true, service_failed l ∷ [])

-- The loop of `stopServices`, from the last service to the first, and whether one failed.
abbrev pub stop_lifecycles : World → List ℕ → Bool × List Event
stop_lifecycles world [] = (false, [])
stop_lifecycles world (l ∷ ls) =
    let (failed, events) = stop_lifecycles world ls in
    (if world.stops l then failed else true, events ++ (service_stopped l ∷ []))

-- `stopServices`: whether it fails
unfoldable pub stop_services : World → List ℕ → Node → Bool × List Event × Node
unfolding stop_rpc
stop_services world services n =
    let (failed, events) = stop_lifecycles world services in (failed, events, stop_rpc n)

-- `closeDatabases`, in one of the orders in which a map is gone through: whether one fails
abbrev pub close_databases : World → List ℕ → Bool × List Event
close_databases world [] = (false, [])
close_databases world (db ∷ dbs) =
    let (failed, events) = close_databases world dbs in
    (if world.closes db then failed else true, database_closed db ∷ events)

-- `doClose`; `failed` says that there is an error before it.
unfoldable pub do_close : World → Bool → Node → Result
do_close world failed n =
    let (dbs_failed, closing) = close_databases world n.databases in
    let removing = if n.key_dir_temp then key_dir_removed n.key_dir ∷ [] else [] in
    let removed = if n.key_dir_temp then world.removes n.key_dir else true in
    let fine =
      if failed
      then false
      else if dbs_failed
      then false
      else if world.accman_closes
      then removed
      else false in
    (
      if fine then none else some close_failed,
      closing ++ removing,
      record n { state = closed; databases = []; dir_locked = false; waits = false },
    )

-- The end of `Start`, when these services were started, and one failed or none.
abbrev pub settle_services : World → List ℕ → Bool → List Event → Node → Result
settle_services world started false starting n = (none, starting, n)
settle_services world started true starting n =
    let (failed, stopping, stopped) = stop_services world started n in
    let (e, closing, n') = do_close world false stopped in
    (some service_start_failed, starting ++ (stopping ++ closing), n')

-- `Start` after `openEndpoints`, from what that returns
abbrev pub after_opening : World → Option NodeError → List Event → Node → Result
after_opening world (some err) opening n =
    let (e, closing, n') = do_close world false n in (some err, opening ++ closing, n')
after_opening world none opening n =
    let (started, failed, starting) = start_lifecycles world n.lifecycles in
    let (e, events, n') = settle_services world started failed starting n in
    (e, opening ++ events, n')

-- `Start` in a state of the node
abbrev pub start_in : NodeState → Platform → World → Node → Result
start_in running os world n = (some node_running, [], n)
start_in closed os world n = (some node_stopped, [], n)
start_in initializing os world n =
    let (e, opening, opened) = open_endpoints os world (record n { state = running }) in
    after_opening world e opening opened

-- `Start`
unfoldable pub start : Platform → World → Node → Result
unfolding open_endpoints do_close stop_services
start os world n = start_in n.state os world n

-- `Close` in a state of the node
abbrev pub close_in : NodeState → World → Node → Result
close_in initializing world n = do_close world false n
close_in closed world n = (some node_stopped, [], n)
close_in running world n =
    let (failed, stopping, stopped) = stop_services world n.lifecycles n in
    let (e, closing, n') = do_close world failed stopped in (e, stopping ++ closing, n')

-- `Close`
unfoldable pub close : World → Node → Result
unfolding do_close stop_services
close world n = close_in n.state world n

-- `OpenDatabase` and `OpenDatabaseWithFreezer`, where opening gives a new number or an error.
unfoldable pub open_database : Option ℕ → Node → Option NodeError × Node
open_database opened n = if is_closed n then (some node_stopped, n) else elim opened [
  | none ↦ (some database_failed, n)
  | some db ↦ (none, record n { databases = db ∷ n.databases })
]

abbrev pub without : ℕ → List ℕ → List ℕ
without db [] = []
without db (x ∷ xs) = let rest = without db xs in if x == db then rest else x ∷ rest

-- A database's own `Close`, which takes it off the node's map: whether it fails.
unfoldable pub close_database : World → ℕ → Node → Bool × List Event × Node
close_database world db n = (
  not (world.closes db),
  database_closed db ∷ [],
  record n { databases = without db n.databases },
)
