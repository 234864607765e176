-- ===== src/Node/Startup/Configured.antt =====
-- node/node.go: `startRPC` as a whole, for a node that has an HTTP host.
use mive.Base.{
  ◌≡◌, ◌⊎◌, inl, inr, Bytes, Bool, true, false, ◌==◌, Option, none, some, List, [], ◌∷◌, ◌++◌,
  if◌then◌else◌, length, is_empty, refl, sym, subst, ap, ◌∙◌,
}
use mive.Node.World.{World}
use mive.Node.Config.{Platform, Config}
use mive.Rpc.HttpServer.{Api}
use mive.Rpc.IpcServer
use mive.Rpc.IpcServer.{IpcServer}
use mive.Node.State.{Node, NodeError, Event, endpoint_failed}
use mive.Node.Endpoints.{
  Slot, http_slot, http_auth_slot, and_then, open_apis, obtain_jwt_secret, ws_server_for_port,
  init_http, init_ws, init_auth_http, init_auth_ws, open_ws_config, auth_http_config,
  auth_ws_config,
}
use mive.Node.Endpoints.Sequence.{Keeps, and_then-Keeps, and_then-none}
use mive.Node.Startup.{
  Boot, BootStep, adding, on_node, start_in_proc, start_ipc, setup_http, setup_ws, init_auth,
  setup_auth, start_all, start_rpc,
}
use mive.Node.Startup.Listening.{
  HasEndpoint, init_http-HasEndpoint, serve_rpc-Keeps, serve_ws-Keeps,
}
use mive.Node.Startup.Started.{
  IsListening, IsPrepared, adding-Keeps, has_http-last, start_servers-IsListening,
}

init_ws-Keeps : (world : World) → Keeps HasEndpoint (init_ws world)
unfolding init_ws
init_ws-Keeps world n ok =
    let c : Config = n.config in
    serve_ws-Keeps world (ws_server_for_port c.ws_port false n) c.ws_host c.ws_port
      (open_apis n.rpc_apis) (open_ws_config c) n ok

init_auth_http-Keeps :
    (world : World) → (secret : Bytes) → Keeps HasEndpoint (init_auth_http world secret)
unfolding init_auth_http
init_auth_http-Keeps world secret n ok =
    let c : Config = n.config in
    serve_rpc-Keeps world http_auth_slot c.auth_addr c.auth_port n.rpc_apis
      (auth_http_config c secret) n ok

init_auth_ws-Keeps :
    (world : World) → (secret : Bytes) → Keeps HasEndpoint (init_auth_ws world secret)
unfolding init_auth_ws
init_auth_ws-Keeps world secret n ok =
    let c : Config = n.config in
    serve_ws-Keeps world (ws_server_for_port c.auth_port true n) c.auth_addr c.auth_port n.rpc_apis
      (auth_ws_config secret) n ok

setup_http-IsPrepared :
    (world : World)
    → (b : Boot) → is_empty b.node.config.http_host ≡ false
    → (setup_http world b).0 ≡ none
    → IsPrepared (setup_http world b).1
setup_http-IsPrepared world b given fine =
    let same : setup_http world b ≡ adding http_slot (init_http world) b = rw given refl in
    let fine' : (init_http world b.node).0 ≡ none = ap (λ r. r.0) (sym same) ∙ fine in
    subst (λ r. IsPrepared r.1) (sym same)
      (record {
        endpoint = init_http-HasEndpoint world b.node fine';
        listed = has_http-last b.servers;
      })

setup_ws-Keeps : (world : World) → Keeps IsPrepared (setup_ws world)
setup_ws-Keeps world b ok = configured (is_empty b.node.config.ws_host)
  where
    slot : Slot
    slot = ws_server_for_port b.node.config.ws_port false b.node

    configured : (q : Bool) → IsPrepared (if q then (none, b) else adding slot (init_ws world) b).1
    configured true = ok
    configured false = adding-Keeps slot (init_ws world) (init_ws-Keeps world) b ok

init_auth-Keeps : (world : World) → (secret : Bytes) → Keeps IsPrepared (init_auth world secret)
init_auth-Keeps world secret =
    and_then-Keeps IsPrepared (adding http_auth_slot (init_auth_http world secret))
      (λ b.
        adding (ws_server_for_port b.node.config.auth_port true b.node) (init_auth_ws world secret)
          b)
      (adding-Keeps http_auth_slot (init_auth_http world secret)
        (init_auth_http-Keeps world secret))
      (λ b ok.
        adding-Keeps (ws_server_for_port b.node.config.auth_port true b.node)
          (init_auth_ws world secret) (init_auth_ws-Keeps world secret) b ok)

setup_auth-Keeps : (os : Platform) → (world : World) → Keeps IsPrepared (setup_auth os world)
setup_auth-Keeps os world b ok =
    all_open (length (open_apis b.node.rpc_apis) == length b.node.rpc_apis)
  where
    obtained : (NodeError ⊎ Bytes) × List Event
    obtained = obtain_jwt_secret os world b.node.config

    b' : Boot
    b' = record b { events = b.events ++ obtained.1 }

    result : NodeError ⊎ Bytes → Option NodeError × Boot
    result found = elim found [ inl e ↦ (some e, b) | inr secret ↦ init_auth world secret b' ]

    secured : (found : NodeError ⊎ Bytes) → IsPrepared (result found).1
    secured (inl e) = ok
    secured (inr secret) =
        init_auth-Keeps world secret b' (record { endpoint = ok.endpoint; listed = ok.listed })

    all_open : (q : Bool) → IsPrepared (if q then (none, b) else result obtained.0).1
    all_open true = ok
    all_open false = secured obtained.0

-- The node has a configuration.
abbrev HasConfig : Config → Node → Type 0
HasConfig c n = n.config ≡ c

start_in_proc-Keeps :
    (c : Config)
    → (world : World) → (apis : List Api) → Keeps (HasConfig c) (start_in_proc world apis)
start_in_proc-Keeps c world [] n ok = ok
start_in_proc-Keeps c world (api ∷ apis) n ok =
    let n' : Node = record n { inproc_apis = n.inproc_apis ++ (api ∷ []) } in
    registered (start_in_proc world apis n') (start_in_proc-Keeps c world apis n' ok)
      (world.register_name api)
  where
    registered :
        (rest : Option NodeError × Node)
        → HasConfig c rest.1
        → (b : Bool) → HasConfig c (if b then rest else (some endpoint_failed, n)).1
    registered rest kept true = kept
    registered rest kept false = ok

start_ipc-Keeps : (c : Config) → (world : World) → Keeps (HasConfig c) (start_ipc world)
start_ipc-Keeps c world n ok = opened (is_empty n.ipc.endpoint)
  where
    ran : Bool × IpcServer
    ran = IpcServer.start world.ipc_opens n.rpc_apis n.ipc

    outcome : Bool → Option NodeError × Node
    outcome b =
        if b
        then (none, n)
        else (if ran.0 then some endpoint_failed else none, record n { ipc = ran.1 })

    opened : (b : Bool) → HasConfig c (outcome b).1
    opened true = ok
    opened false = ok

pub start_rpc-IsListening :
    (os : Platform)
    → (world : World) → (n : Node) → is_empty n.config.http_host ≡ false
    → (start_rpc os world n).0 ≡ none
    → IsListening (start_rpc os world n).1.node
unfolding start_rpc
start_rpc-IsListening os world n given fine =
    let inproc = on_node (start_in_proc world n.rpc_apis) in
    let ipc = on_node (start_ipc world) in
    let auth : BootStep = and_then (setup_auth os world) (start_all world) in
    let ws : BootStep = and_then (setup_ws world) auth in
    let http : BootStep = and_then (setup_http world) ws in
    let b0 : Boot = record { node = n; servers = []; events = [] } in
    let b1 : Boot = (inproc b0).1 in
    let b2 : Boot = (ipc b1).1 in
    let b3 : Boot = (setup_http world b2).1 in
    let b4 : Boot = (setup_ws world b3).1 in
    let b5 : Boot = (setup_auth os world b4).1 in
    let (f1, r1, s1) = and_then-none inproc (and_then ipc http) b0 fine in
    let (f2, r2, s2) = and_then-none ipc http b1 r1 in
    let (f3, r3, s3) = and_then-none (setup_http world) ws b2 r2 in
    let (f4, r4, s4) = and_then-none (setup_ws world) auth b3 r3 in
    let (f5, r5, s5) = and_then-none (setup_auth os world) (start_all world) b4 r4 in
    let c1 = start_in_proc-Keeps n.config world n.rpc_apis n refl in
    let c2 : b2.node.config ≡ n.config = start_ipc-Keeps n.config world b1.node c1 in
    let given' : is_empty b2.node.config.http_host ≡ false =
      ap (λ c. is_empty c.http_host) c2 ∙ given in
    let ready =
      setup_auth-Keeps os world b4
        (setup_ws-Keeps world b3 (setup_http-IsPrepared world b2 given' f3)) in
    let up : IsListening (start_all world b5).1.node =
      start_servers-IsListening world b5.servers b5.node ready.endpoint ready.listed r5 in
    subst (λ b. IsListening b.node) (sym (s1 ∙ (s2 ∙ (s3 ∙ (s4 ∙ s5))))) up
