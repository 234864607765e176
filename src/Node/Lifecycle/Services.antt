-- ===== src/Node/Lifecycle/Services.antt =====
-- node/node.go: the order in which services are started and stopped.
use mive.Base.{
  ℕ, ◌≡◌, ◌⊎◌, inl, inr, Bytes, Bool, true, false, Option, none, some, List, [], ◌∷◌, ◌++◌,
  if◌then◌else◌, refl, ◌∙◌, Option-cases, Bool-cases, arith, ◌==◌, is_empty, length,
}
use mive.Node.World.{World}
use mive.Node.Config.{Platform, Config, resolve_path, datadir_jwt_key}
use mive.Node.State.{
  Node, NodeError, Event, service_started, service_failed, service_stopped, database_closed,
  file_written, key_dir_removed,
}
use mive.Node.Endpoints.{
  Slot, http_slot, http_auth_slot, ws_server_for_port, and_then, obtain_jwt_secret, open_apis,
  init_http, init_ws, init_auth_http, init_auth_ws,
}
use mive.Node.Endpoints.Sequence.{Keeps, and_then-Keeps}
use mive.Node.Startup.{
  Boot, start_rpc, adding, on_node, start_all, start_ipc, start_in_proc, setup_http, setup_ws,
  setup_auth, init_auth,
}
use mive.Node.Lifecycle.{start_lifecycles, stop_lifecycles, close_databases, do_close}

-- The services that run, the last one started first, after each event: a service can be stopped only
-- when it is the last one that runs. `none` is an event out of order.
abbrev pub replay : List Event → List ℕ → Option (List ℕ)
replay [] up = some up
replay (service_started l ∷ es) up = replay es (l ∷ up)
replay (service_stopped l ∷ es) [] = none
replay (service_stopped l ∷ es) (x ∷ up) = if x == l then replay es up else none
replay (service_failed l ∷ es) up = replay es up
replay (database_closed db ∷ es) up = replay es up
replay (file_written name text ∷ es) up = replay es up
replay (key_dir_removed dir ∷ es) up = replay es up

-- Services pushed one after the other.
abbrev pub pushed : List ℕ → List ℕ → List ℕ
pushed [] up = up
pushed (l ∷ ls) up = pushed ls (l ∷ up)

pub replay-append :
    (es fs : List Event) → (s t : List ℕ) → replay es s ≡ some t → replay (es ++ fs) s ≡ replay fs t
replay-append [] fs s t e = ground arith
replay-append (service_started l ∷ es) fs s t e = replay-append es fs (l ∷ s) t e
replay-append (service_stopped l ∷ es) fs [] t e = ground arith
replay-append (service_stopped l ∷ es) fs (x ∷ s) t e = elim (Bool-cases (x == l)) [
  | inl q ↦ let ih = replay-append es fs s t (ground arith) in ground arith
  | inr q ↦ ground arith
]
replay-append (service_failed l ∷ es) fs s t e = replay-append es fs s t e
replay-append (database_closed db ∷ es) fs s t e = replay-append es fs s t e
replay-append (file_written name text ∷ es) fs s t e = replay-append es fs s t e
replay-append (key_dir_removed dir ∷ es) fs s t e = replay-append es fs s t e

pub start_lifecycles-replay :
    (world : World)
    → (ls s : List ℕ)
    → replay (start_lifecycles world ls).2 s ≡ some (pushed (start_lifecycles world ls).0 s)
start_lifecycles-replay world [] s = refl
start_lifecycles-replay world (l ∷ ls) s = elim (Bool-cases (world.starts l)) [
  | inl e ↦ let ih = start_lifecycles-replay world ls (l ∷ s) in ground arith
  | inr e ↦ ground arith
]

pub stop_lifecycles-replay :
    (world : World) → (ls s : List ℕ) → replay (stop_lifecycles world ls).1 (pushed ls s) ≡ some s
stop_lifecycles-replay world [] s = refl
stop_lifecycles-replay world (l ∷ ls) s =
    let ih = stop_lifecycles-replay world ls (l ∷ s) in
    let last : replay (service_stopped l ∷ []) (l ∷ s) ≡ some s = ground arith in
    replay-append (stop_lifecycles world ls).1 (service_stopped l ∷ []) (pushed ls (l ∷ s)) (l ∷ s)
      ih
    ∙ last

pub start_lifecycles-started :
    (world : World)
    → (ls : List ℕ) → (start_lifecycles world ls).1 ≡ false
    → (start_lifecycles world ls).0 ≡ ls
start_lifecycles-started world [] e = refl
start_lifecycles-started world (l ∷ ls) e = elim (Bool-cases (world.starts l)) [
  | inl q ↦ let ih = start_lifecycles-started world ls (ground arith) in ground arith
  | inr q ↦ ground arith
]

-- The events do nothing to the services.
abbrev pub IsIdle : List Event → Type 0
IsIdle es = (s : List ℕ) → replay es s ≡ some s

close_databases-IsIdle : (world : World) → (dbs : List ℕ) → IsIdle (close_databases world dbs).1
close_databases-IsIdle world [] s = refl
close_databases-IsIdle world (db ∷ dbs) s = close_databases-IsIdle world dbs s

pub do_close-IsIdle :
    (world : World) → (failed : Bool) → (n : Node) → IsIdle (do_close world failed n).1
unfolding do_close
do_close-IsIdle world failed n s =
    let dbs = close_databases-IsIdle world n.databases s in
    let dir : replay (if n.key_dir_temp then key_dir_removed n.key_dir ∷ [] else []) s ≡ some s =
      elim (Bool-cases n.key_dir_temp) [ inl e ↦ ground arith | inr e ↦ ground arith ] in
    replay-append (close_databases world n.databases).1 _ s s dbs ∙ dir

obtain_jwt_secret-IsIdle :
    (os : Platform) → (world : World) → (c : Config) → IsIdle (obtain_jwt_secret os world c).1
unfolding obtain_jwt_secret
obtain_jwt_secret-IsIdle os world c s = elim (Bool-cases (is_empty c.jwt_secret)) [
  | inl given ↦ elim (Option-cases (resolve_path os c datadir_jwt_key)) [
    | inl f ↦ ground (arith, given, f)
    | inr (file, f) ↦ elim (Option-cases (world.read_file file)) [
      | inl g ↦ ground (arith, given, f, g)
      | inr (text, g) ↦ ground (arith, given, f, g)
    ]
  ]
  | inr given ↦ elim (Option-cases (world.read_file c.jwt_secret)) [
    | inl g ↦ ground (arith, given, g)
    | inr (text, g) ↦ ground (arith, given, g)
  ]
]

abbrev IsIdleBoot : Boot → Type 0
IsIdleBoot b = IsIdle b.events

setup_auth-Keeps : (os : Platform) → (world : World) → Keeps IsIdleBoot (setup_auth os world)
setup_auth-Keeps os world b ok =
    all_open (length (open_apis b.node.rpc_apis) == length b.node.rpc_apis)
  where
    obtained : (NodeError ⊎ Bytes) × List Event
    obtained = obtain_jwt_secret os world b.node.config

    b' : Boot
    b' = record b { events = b.events ++ obtained.1 }

    idle : IsIdle b'.events
    idle s =
        replay-append b.events obtained.1 s s (ok s)
        ∙ obtain_jwt_secret-IsIdle os world b.node.config s

    result : NodeError ⊎ Bytes → Option NodeError × Boot
    result found = elim found [ inl e ↦ (some e, b) | inr secret ↦ init_auth world secret b' ]

    secured : (found : NodeError ⊎ Bytes) → IsIdleBoot (result found).1
    secured (inl e) = ok
    secured (inr secret) =
        and_then-Keeps IsIdleBoot (adding http_auth_slot (init_auth_http world secret))
          (λ m.
            adding (ws_server_for_port m.node.config.auth_port true m.node)
              (init_auth_ws world secret) m)
          (λ m kept. kept) (λ m kept. kept) b' idle

    all_open : (q : Bool) → IsIdleBoot (if q then (none, b) else result obtained.0).1
    all_open true = ok
    all_open false = secured obtained.0

setup_http-Keeps : (world : World) → Keeps IsIdleBoot (setup_http world)
setup_http-Keeps world b ok = configured (is_empty b.node.config.http_host)
  where
    configured :
        (q : Bool) → IsIdleBoot (if q then (none, b) else adding http_slot (init_http world) b).1
    configured true = ok
    configured false = ok

setup_ws-Keeps : (world : World) → Keeps IsIdleBoot (setup_ws world)
setup_ws-Keeps world b ok = configured (is_empty b.node.config.ws_host)
  where
    slot : Slot
    slot = ws_server_for_port b.node.config.ws_port false b.node

    configured : (q : Bool) → IsIdleBoot (if q then (none, b) else adding slot (init_ws world) b).1
    configured true = ok
    configured false = ok

pub start_rpc-IsIdle :
    (os : Platform) → (world : World) → (n : Node) → IsIdle (start_rpc os world n).1.events
unfolding start_rpc
start_rpc-IsIdle os world n =
    let seq = and_then-Keeps IsIdleBoot in
    let from_auth =
      seq (setup_auth os world) (start_all world) (setup_auth-Keeps os world) (λ b kept. kept) in
    let from_ws =
      seq (setup_ws world) (and_then (setup_auth os world) (start_all world)) (setup_ws-Keeps world)
        from_auth in
    let from_http = seq (setup_http world) _ (setup_http-Keeps world) from_ws in
    let from_ipc = seq (on_node (start_ipc world)) _ (λ b kept. kept) from_http in
    seq (on_node (start_in_proc world n.rpc_apis)) _ (λ b kept. kept) from_ipc
      (record { node = n; servers = []; events = [] }) (λ s. refl)
