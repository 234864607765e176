-- ===== src/Tests/Nodes.antt =====
-- A node: node/node.go and node/api.go on a concrete configuration.
use mive.Base.{
  ◌≡◌, refl, Bytes, true, false, not, ◌==◌, Option, none, some, List, [], ◌∷◌, ◌++◌, codes, is_some,
  arith,
}
use mive.Rpc.Handlers.{
  served, http_stack, check_jwt, check_claims, check_path, is_websocket, host_allowed, cors_allowed,
}
use mive.Rpc.Handlers.Access.{IsAuthorized}
use mive.Rpc.HttpServer.{
  registered, Api, HttpServer, RpcHandler, MuxHandler, new_http_server, set_listen_addr, enable_rpc,
  enable_ws,
}
use mive.Rpc.HttpServer.Routes.{answer, serve_http}
use mive.Rpc.HttpServer
use mive.Rpc.IpcServer.{new_ipc_server}
use mive.Rpc.Net.{Request, join_host_port, decimal, decimal_from}
use mive.Node.Config.{
  default_auth_modules, default_auth_cors, Config, Platform, resolve_path, instance_dir,
  instance_name,
}
use mive.Node.World.{World}
use mive.Node.State.{Node, initializing, running}
use mive.Node.Endpoints.{
  http_auth_slot, http_slot, ws_slot, ws_auth_slot, ws_server_for_port, obtain_jwt_secret,
  init_http, init_ws, init_auth_http, init_auth_ws,
}
use mive.Node.Endpoints.Guarded.{IsGuarded}
use mive.Node.Startup.{start_rpc}
use mive.Node.Lifecycle.{start, open_endpoints, close}
use mive.Node.Lifecycle.Access.{start-Protected}
use mive.Node.Lifecycle.Shutdown.{IsShut, start-IsShut, close-IsShut}
use mive.Node.Lifecycle.Services.{replay}
use mive.Node.Startup.Started.{IsListening}
use mive.Node.Lifecycle.Open.{start-IsListening}
use mive.Node.Lifecycle.Order.{start-replay_failed, start-close-replay}
use mive.Node.Api.{start_http, start_ws, parts_of, start_http_config}
use mive.Node.Api.Exposure.{start_ws-IsGuarded, start_http-exposed}
use mive.Tests.Servers.{parse, net, request, register}

abbrev os : Platform
os = record {
  windows = false;
  is_abs = λ path. false;
  base = λ path. path;
  join = λ dir path. dir ++ (codes "/" ++ path);
  abs = λ path. some path;
  temp_dir = codes "/tmp";
  program = codes "mive";
  make_temp_dir = some (codes "/tmp/keys");
  make_dir = λ dir. true;
}

-- 32 bytes
abbrev random_bytes : Bytes
random_bytes =
    let eight : Bytes = 1 ∷ 2 ∷ 3 ∷ 4 ∷ 5 ∷ 6 ∷ 7 ∷ 8 ∷ [] in eight ++ (eight ++ (eight ++ eight))

-- Everything works, but the service 3 does not start in the second world.
abbrev world : World
world = record {
  register = register;
  register_name = λ api. true;
  listen = λ endpoint. some endpoint;
  ipc_opens = λ endpoint apis. true;
  starts = λ l. true;
  stops = λ l. true;
  closes = λ db. true;
  accman_closes = true;
  removes = λ dir. true;
  read_file = λ name. none;
  write_file = λ name text. true;
  from_hex = λ text. text;
  to_hex = λ secret. secret;
  random = random_bytes;
}

abbrev broken : World
broken = record world { starts = λ l. not (l == 3) }

abbrev config : Config
config = record {
  name = codes "mive";
  data_dir = codes "/data";
  key_store_dir = [];
  ipc_path = [];
  http_host = codes "localhost";
  http_port = 8645;
  http_cors = [];
  http_virtual_hosts = [];
  http_modules = [];
  http_path_prefix = [];
  auth_addr = codes "localhost";
  auth_port = 8651;
  auth_virtual_hosts = [];
  ws_host = [];
  ws_port = 8646;
  ws_path_prefix = [];
  ws_origins = [];
  ws_modules = [];
  batch_request_limit = 1000;
  batch_response_max_size = 25000000;
  jwt_secret = [];
}

abbrev apis : List Api
apis =
    record { namespace = codes "web3"; authenticated = false; service = 0 }
    ∷ record { namespace = codes "engine"; authenticated = true; service = 1 }
    ∷ []

abbrev node : Node
node = record {
  config = config;
  state = initializing;
  key_dir = codes "/data/keystore";
  key_dir_temp = false;
  dir_locked = true;
  waits = true;
  lifecycles = 2 ∷ 3 ∷ [];
  rpc_apis = apis;
  http = new_http_server;
  ws = new_http_server;
  http_auth = new_http_server;
  ws_auth = new_http_server;
  ipc = new_ipc_server [];
  inproc_apis = [];
  inproc_stopped = false;
  databases = 11 ∷ [];
}

abbrev running_node : Node
running_node = record node { state = running }

node-IsGuarded : IsGuarded node
node-IsGuarded = record {
  guarded = elim [
    | http_slot ↦ record { rpc = λ r e. ground arith; ws = λ r e. ground arith }
    | ws_slot ↦ record { rpc = λ r e. ground arith; ws = λ r e. ground arith }
    | http_auth_slot ↦ record { rpc = λ r e. ground arith; ws = λ r e. ground arith }
    | ws_auth_slot ↦ record { rpc = λ r e. ground arith; ws = λ r e. ground arith }
  ];
}

breaks : is_some (start os broken node).0 ≡ true
unfolding start open_endpoints start_rpc ws_server_for_port obtain_jwt_secret init_http init_ws
    init_auth_http init_auth_ws set_listen_addr enable_rpc enable_ws HttpServer.start resolve_path
    instance_dir instance_name join_host_port decimal decimal_from
breaks = refl

works : (start os world node).0 ≡ none
unfolding start open_endpoints start_rpc ws_server_for_port obtain_jwt_secret init_http init_ws
    init_auth_http init_auth_ws set_listen_addr enable_rpc enable_ws HttpServer.start resolve_path
    instance_dir instance_name join_host_port decimal decimal_from
works = refl

keeps_services : running_node.lifecycles ≡ (start os world node).2.lifecycles
unfolding start open_endpoints start_rpc ws_server_for_port obtain_jwt_secret init_http init_ws
    init_auth_http init_auth_ws set_listen_addr enable_rpc enable_ws HttpServer.start resolve_path
    instance_dir instance_name join_host_port decimal decimal_from
keeps_services = refl

start-IsShut_example : IsShut (start os broken node).2
start-IsShut_example = start-IsShut os broken node refl breaks

start-replay_failed_example : replay (start os broken node).1 [] ≡ some []
start-replay_failed_example = start-replay_failed os broken node refl breaks

close-IsShut_example : IsShut (close world running_node).2
close-IsShut_example = close-IsShut world running_node refl

start-close-replay_example :
    replay ((start os world node).1 ++ (close broken running_node).1) [] ≡ some []
start-close-replay_example =
    start-close-replay os world broken node running_node refl works refl keeps_services

abbrev find : List MuxHandler → Request → Option Bytes
find mux r = none

abbrev auth_handler : RpcHandler
auth_handler = record {
  server = 0;
  apis = apis;
  modules = default_auth_modules;
  origins = default_auth_cors;
  vhosts = [];
  secret = random_bytes;
}

auth-served :
    answer parse net 120 request (serve_http find (start os world node).2.http_auth request)
    ≡ some (auth_handler, served)
unfolding start open_endpoints start_rpc ws_server_for_port obtain_jwt_secret init_http init_ws
    init_auth_http init_auth_ws set_listen_addr enable_rpc enable_ws HttpServer.start resolve_path
    instance_dir instance_name join_host_port decimal decimal_from answer serve_http check_path
    is_websocket http_stack check_jwt check_claims host_allowed cors_allowed registered
auth-served = refl

start-Protected_example : IsAuthorized parse random_bytes 120 request
start-Protected_example =
    start-Protected os world parse net find 120 request node http_auth_slot auth_handler refl
      node-IsGuarded auth-served

start_ws-IsGuarded_example : IsGuarded (start_ws world none none none none node).1
start_ws-IsGuarded_example = start_ws-IsGuarded world none none none none node node-IsGuarded

http-starts :
    (start_http world (some (codes "0.0.0.0")) none none none (some (codes "example.org")) node).0
    ≡ none
unfolding start_http start_http_config set_listen_addr enable_rpc HttpServer.start join_host_port
    decimal decimal_from
http-starts = refl

start_http-exposed_example :
    (r : RpcHandler) × ((start_http world
        (some (codes "0.0.0.0"))
        none
        none
        none
        (some (codes "example.org"))
        node).1.http.http_handler
      ≡ some r)
    × (r.apis
        ≡ registered world.register
            (start_http_config config
              (codes "0.0.0.0")
              none
              none
              (some (codes "example.org"))).modules
            apis)
    × (r.secret ≡ [])
    × (r.vhosts ≡ parts_of (codes "0.0.0.0"))
start_http-exposed_example =
    start_http-exposed world (codes "0.0.0.0") (codes "example.org") none none none node http-starts

start-IsListening_example : IsListening (start os world node).2
start-IsListening_example = start-IsListening os world node refl refl works
