-- ===== src/Node/Startup/Secured.antt =====
-- node/node.go: which APIs stand behind a token after `startRPC`.
use mive.Base.{
  ◌≡◌, ◌⊎◌, inl, inr, Bytes, Bool, true, false, Option, none, some, List, [], ◌∷◌, ◌++◌,
  if◌then◌else◌, length, is_empty, refl, sym, subst, Option-cases, Bool-cases, arith, ◌==◌,
}
use mive.Node.World.{World}
use mive.Node.Config.{Platform, Config, resolve_path, datadir_jwt_key}
use mive.Rpc.HttpServer.{Api, start}
use mive.Node.State.{Node, NodeError, Event, endpoint_failed}
use mive.Node.Endpoints.{
  Slot, http_slot, http_auth_slot, ws_auth_slot, ws_slot, server, and_then, on_server, open_apis,
  obtain_jwt_secret, ws_server_for_port, init_http, init_ws, init_auth_http, init_auth_ws,
}
use mive.Node.Endpoints.Handlers.{Have, start-Have}
use mive.Rpc.IpcServer.{IpcServer}
use mive.Rpc.IpcServer
use mive.Node.Endpoints.Sequence.{Keeps, and_then-Keeps}
use mive.Node.Endpoints.Guarded.{
  IsGuarded, Guard, on_server-Keeps, init_http-Keeps, init_ws-Keeps, init_auth_http-Keeps,
  init_auth_ws-Keeps,
}
use mive.Node.Startup.{
  Boot, adding, start_in_proc, start_ipc, setup_http, setup_ws, init_auth, setup_auth,
  start_servers, start_rpc, start_all, on_node,
}

-- A secret that is read has 32 bytes, as one that is made does.
obtain_jwt_secret-length :
    (os : Platform)
    → (world : World) → (c : Config) → (secret : Bytes) → length world.random ≡ 32
    → (obtain_jwt_secret os world c).0 ≡ inr secret
    → length secret ≡ 32
unfolding obtain_jwt_secret
obtain_jwt_secret-length os world c secret long e = elim (Bool-cases (is_empty c.jwt_secret)) [
  | inl given ↦ elim (Option-cases (resolve_path os c datadir_jwt_key)) [
    | inl f ↦ ground (arith, given, f)
    | inr (file, f) ↦ elim (Option-cases (world.read_file file)) [
      | inl g ↦ ground (arith, given, f, g)
      | inr (text, g) ↦ ground (arith, given, f, g)
    ]
  ]
  | inr given ↦ elim (Option-cases (world.read_file c.jwt_secret)) [
    | inl g ↦ ground (arith, given, g)
    | inr (text, g) ↦ ground (arith, given, g)
  ]
]

abbrev IsGuardedBoot : Boot → Type 0
IsGuardedBoot b = IsGuarded b.node

-- The guard speaks of the servers alone.
pub IsGuarded-servers :
    (n m : Node) → ((slot : Slot) → server slot m ≡ server slot n) → IsGuarded n → IsGuarded m
IsGuarded-servers n m same ok = record {
  guarded = λ slot. subst (Have (Guard slot)) (sym (same slot)) (ok.guarded slot);
}

start_in_proc-Keeps :
    (world : World) → (apis : List Api) → Keeps IsGuarded (start_in_proc world apis)
start_in_proc-Keeps world [] n ok = ok
start_in_proc-Keeps world (api ∷ apis) n ok =
    let n' : Node = record n { inproc_apis = n.inproc_apis ++ (api ∷ []) } in
    let ok' =
      IsGuarded-servers n n'
        (elim [ http_slot ↦ refl | ws_slot ↦ refl | http_auth_slot ↦ refl | ws_auth_slot ↦ refl ])
        ok in
    registered (start_in_proc world apis n') (start_in_proc-Keeps world apis n' ok')
      (world.register_name api)
  where
    registered :
        (rest : Option NodeError × Node)
        → IsGuarded rest.1
        → (b : Bool) → IsGuarded (if b then rest else (some endpoint_failed, n)).1
    registered rest kept true = kept
    registered rest kept false = ok

start_ipc-Keeps : (world : World) → Keeps IsGuarded (start_ipc world)
start_ipc-Keeps world n ok = opened (is_empty n.ipc.endpoint)
  where
    ran : Bool × IpcServer
    ran = IpcServer.start world.ipc_opens n.rpc_apis n.ipc

    outcome : Bool → Option NodeError × Node
    outcome b =
        if b
        then (none, n)
        else (if ran.0 then some endpoint_failed else none, record n { ipc = ran.1 })

    opened : (b : Bool) → IsGuarded (outcome b).1
    opened true = ok
    opened false =
        IsGuarded-servers n (record n { ipc = ran.1 })
          (elim [ http_slot ↦ refl | ws_slot ↦ refl | http_auth_slot ↦ refl | ws_auth_slot ↦ refl ])
          ok

start_servers-Keeps :
    (world : World) → (slots : List Slot) → Keeps IsGuarded (start_servers world slots)
start_servers-Keeps world [] n ok = ok
start_servers-Keeps world (slot ∷ slots) n ok =
    and_then-Keeps IsGuarded (on_server slot (start world.listen)) (start_servers world slots)
      (on_server-Keeps slot (start world.listen) (start-Have (Guard slot) world.listen))
      (start_servers-Keeps world slots) n ok

setup_http-Keeps : (world : World) → Keeps IsGuardedBoot (setup_http world)
setup_http-Keeps world b ok = configured (is_empty b.node.config.http_host)
  where
    configured :
        (q : Bool) → IsGuardedBoot (if q then (none, b) else adding http_slot (init_http world) b).1
    configured true = ok
    configured false = init_http-Keeps world b.node ok

setup_ws-Keeps : (world : World) → Keeps IsGuardedBoot (setup_ws world)
setup_ws-Keeps world b ok = configured (is_empty b.node.config.ws_host)
  where
    slot : Slot
    slot = ws_server_for_port b.node.config.ws_port false b.node

    configured :
        (q : Bool) → IsGuardedBoot (if q then (none, b) else adding slot (init_ws world) b).1
    configured true = ok
    configured false = init_ws-Keeps world b.node ok

init_auth-Keeps :
    (world : World)
    → (secret : Bytes) → length secret ≡ 32
    → Keeps IsGuardedBoot (init_auth world secret)
init_auth-Keeps world secret long =
    and_then-Keeps IsGuardedBoot (adding http_auth_slot (init_auth_http world secret))
      (λ b.
        adding (ws_server_for_port b.node.config.auth_port true b.node) (init_auth_ws world secret)
          b)
      (λ b ok. init_auth_http-Keeps world secret long b.node ok)
      (λ b ok. init_auth_ws-Keeps world secret long b.node ok)

setup_auth-Keeps :
    (os : Platform)
    → (world : World) → length world.random ≡ 32
    → Keeps IsGuardedBoot (setup_auth os world)
setup_auth-Keeps os world long b ok =
    all_open (length (open_apis b.node.rpc_apis) == length b.node.rpc_apis)
  where
    obtained : (NodeError ⊎ Bytes) × List Event
    obtained = obtain_jwt_secret os world b.node.config

    result : NodeError ⊎ Bytes → Option NodeError × Boot
    result found = elim found [
      | inl e ↦ (some e, b)
      | inr secret ↦ init_auth world secret (record b { events = b.events ++ obtained.1 })
    ]

    secured : (found : NodeError ⊎ Bytes) → obtained.0 ≡ found → IsGuardedBoot (result found).1
    secured (inl e) q = ok
    secured (inr secret) q =
        init_auth-Keeps world secret (obtain_jwt_secret-length os world b.node.config secret long q)
          (record b { events = b.events ++ obtained.1 }) ok

    all_open : (q : Bool) → IsGuardedBoot (if q then (none, b) else result obtained.0).1
    all_open true = ok
    all_open false = secured obtained.0 refl

pub start_rpc-IsGuarded :
    (os : Platform)
    → (world : World) → (n : Node) → length world.random ≡ 32
    → IsGuarded n
    → IsGuarded (start_rpc os world n).1.node
unfolding start_rpc
start_rpc-IsGuarded os world n long ok =
    let seq = and_then-Keeps IsGuardedBoot in
    let from_auth =
      seq (setup_auth os world) (start_all world) (setup_auth-Keeps os world long)
        (λ b kept. start_servers-Keeps world b.servers b.node kept) in
    let from_ws =
      seq (setup_ws world) (and_then (setup_auth os world) (start_all world)) (setup_ws-Keeps world)
        from_auth in
    let from_http = seq (setup_http world) _ (setup_http-Keeps world) from_ws in
    let from_ipc =
      seq (on_node (start_ipc world)) _ (λ b kept. start_ipc-Keeps world b.node kept) from_http in
    seq (on_node (start_in_proc world n.rpc_apis)) _
      (λ b kept. start_in_proc-Keeps world n.rpc_apis b.node kept) from_ipc
      (record { node = n; servers = []; events = [] }) ok
