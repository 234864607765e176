-- ===== src/Tests/Servers.antt =====
-- RPC servers: node/rpcstack.go and node/jwt_handler.go on concrete requests.
use mive.Base.{
  ◌≡◌, ◌↔◌, refl, Bytes, bytes_eq, true, false, Option, none, some, List, [], ◌∷◌, codes, arith,
  inl,
}
use mive.Rpc.Net.{Request, NetParsers, join_host_port, decimal, decimal_from}
use mive.Rpc.Handlers.{
  Token, served, http_stack, check_jwt, check_claims, host_allowed, cors_allowed, check_path,
  is_websocket,
}
use mive.Rpc.Handlers.Access.{IsAuthorized, http_stack-served}
use mive.Rpc.HttpServer.{
  Registry, HttpServer, HttpConfig, RpcHandler, Listener, MuxHandler, listen_failed,
  new_http_server, set_listen_addr, enable_rpc, start, stop, disable_rpc, disable_ws,
}
use mive.Rpc.HttpServer.Routes.{serve_http, answer}
use mive.Rpc.HttpServer.Invariant.{
  IsConsistent, Reachable, first, next, addresses, enables_rpc, starts,
}
use mive.Rpc.HttpServer.Invariant.Listening.{Reachable-IsConsistent}
use mive.Rpc.HttpServer.Routing.{IsClosed, stop-IsClosed, start-failed, served-IsAuthorized}
use mive.Rpc.Gzip.{Response, write_header, close, new_writer}
use mive.Rpc.Gzip.Length.{write_all, write_all_complete}

abbrev pub secret : Bytes
secret = 7 ∷ 9 ∷ []

-- The one token that the code makes of the secret.
abbrev pub parse : Bytes → Bytes → Option Token
parse s text = some (record { valid = true; expires_at = none; issued_at = some 100 })

abbrev pub net : NetParsers
net = record {
  split_host = λ s. none;
  is_ip = λ s. false;
  cors_passes = λ origins r. bytes_eq r.requested_method [];
}

abbrev pub request : Request
request = record {
  method = codes "POST";
  requested_method = [];
  path = codes "/";
  host = [];
  upgrade = [];
  connection = [];
  authorization = codes "Bearer abc";
  accept_encoding = [];
}

http_stack-served_example :
    (http_stack parse net (codes "*" ∷ []) [] secret 120 request ≡ served) ↔ (
      IsAuthorized parse secret 120 request
      × (host_allowed net [] request ≡ true)
      × (cors_allowed net (codes "*" ∷ []) request ≡ true))
http_stack-served_example = http_stack-served parse net (codes "*" ∷ []) [] secret 120 request refl

abbrev config : HttpConfig
config = record {
  modules = [];
  cors_allowed_origins = [];
  vhosts = [];
  prefix = [];
  endpoint_config = record {
    jwt_secret = secret;
    batch_item_limit = 10;
    batch_response_size_limit = 1000;
  };
}

-- Every API is registered.
abbrev pub register : Registry
register = record { succeeds = λ apis modules. true; allows = λ modules namespace. true }

abbrev addressed : HttpServer
addressed = (set_listen_addr (codes "localhost") 80 new_http_server).1

abbrev enabled : HttpServer
enabled = (enable_rpc register [] config addressed).1

abbrev listens : Bytes → Option Bytes
listens endpoint = some endpoint

abbrev fails : Bytes → Option Bytes
fails endpoint = none

abbrev running : HttpServer
running = (start listens enabled).1

enabled-Reachable : Reachable enabled
enabled-Reachable =
    next (next first (addresses (codes "localhost") 80)) (enables_rpc register [] config)

Reachable-IsConsistent_example : IsConsistent running
Reachable-IsConsistent_example =
    Reachable-IsConsistent running (next enabled-Reachable (starts listens))

abbrev listener : Listener
listener = record { opened_for = codes "localhost:80"; address = codes "localhost:80" }

running-listener : running.listener ≡ some listener
unfolding start enable_rpc set_listen_addr join_host_port decimal decimal_from
running-listener = refl

running-IsConsistent : IsConsistent running
running-IsConsistent = Reachable-IsConsistent running (next enabled-Reachable (starts listens))

stop-IsClosed_example :
    IsClosed (stop running) × ((stop running).listener ≡ none) × ((stop running).endpoint ≡ [])
stop-IsClosed_example = stop-IsClosed running listener running-IsConsistent running-listener

enabled-fails : start fails enabled ≡ (some listen_failed, disable_ws (disable_rpc enabled))
unfolding start enable_rpc set_listen_addr join_host_port decimal decimal_from
enabled-fails = refl

start-failed_example :
    IsClosed (disable_ws (disable_rpc enabled))
    × (listen_failed ≡ listen_failed)
    × (fails enabled.endpoint ≡ none)
start-failed_example =
    start-failed fails enabled (disable_ws (disable_rpc enabled)) listen_failed
      (Reachable-IsConsistent enabled enabled-Reachable) enabled-fails

abbrev handler : RpcHandler
handler = record { server = 0; apis = []; modules = []; origins = []; vhosts = []; secret = secret }

-- Both configurations have the secret here, and only the one for HTTP is used.
abbrev sealed : HttpServer
sealed = record new_http_server {
  http_config = config;
  ws_config = record {
    origins = [];
    modules = [];
    prefix = [];
    endpoint_config = record {
      jwt_secret = secret;
      batch_item_limit = 10;
      batch_response_size_limit = 1000;
    };
  };
  http_handler = some handler;
  next_server = 1;
}

sealed-IsConsistent : IsConsistent sealed
sealed-IsConsistent = record {
  accounted = λ n. ground arith;
  addressed = (inl refl, λ l e. ground arith);
  configured = ((λ r e. ground arith), (λ r e. ground arith));
}

abbrev find : List MuxHandler → Request → Option Bytes
find mux r = none

sealed-served :
    answer parse net 120 request (serve_http find sealed request) ≡ some (handler, served)
unfolding answer serve_http check_path is_websocket http_stack check_jwt check_claims host_allowed
    cors_allowed
sealed-served = refl

served-IsAuthorized_example : IsAuthorized parse secret 120 request
served-IsAuthorized_example =
    served-IsAuthorized parse net find secret 120 sealed request handler sealed-IsConsistent refl
      refl refl sealed-served

abbrev response : Response
response = record {
  content_length = codes "9";
  transfer_encoding = [];
  content_encoding = [];
  status = none;
}

write_all_complete_example :
    ((write_all (write_header (new_writer response) 200) (4 ∷ 5 ∷ [])).gz
      ≡ some (record { input = 9; closed = false }))
    × ((close (write_all (write_header (new_writer response) 200) (4 ∷ 5 ∷ []))).1
        ≡ some (record { input = 9; closed = true }))
    × ((write_all (write_header (new_writer response) 200) (4 ∷ 5 ∷ [])).resp.content_length ≡ [])
    × ((write_all (write_header (new_writer response) 200) (4 ∷ 5 ∷ [])).resp.content_encoding
        ≡ codes "gzip")
write_all_complete_example = write_all_complete response 200 (4 ∷ 5 ∷ []) refl refl
