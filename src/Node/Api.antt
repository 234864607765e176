-- ===== src/Node/Api.antt =====
-- node/api.go: the methods of `adminAPI` that start and stop the node's ordinary servers.
pub mod Exposure
use mive.Base.{
  ℕ, ◌≡◌, ◌||◌, ◌&&◌, ◌==◌, leb, Bytes, Bool, true, false, Option, none, some, List, [], ◌∷◌, map,
  reverse, is_empty, if◌then◌else◌,
}
use mive.Rpc.HttpServer.{Api, HttpServer, HttpConfig, WsConfig, start, stop, stop_ws}
use mive.Node.World.{World}
use mive.Node.Config.{Config, default_http_host, default_ws_host}
use mive.Node.State.{Node, NodeError}
use mive.Node.Endpoints.{
  Slot, http_slot, ws_slot, Step, and_then, on_server, open_apis, ws_server_for_port, serve_rpc,
  serve_ws, rpc_config,
}

-- `strings.Split` at commas; a string has at least one part.
abbrev pub split_commas : Bytes → List Bytes
split_commas [] = [] ∷ []
split_commas (c ∷ s) =
    let rest = split_commas s in
    if c == b','
    then [] ∷ rest
    else elim rest [ [] ↦ (c ∷ []) ∷ [] | part ∷ parts ↦ (c ∷ part) ∷ parts ]

-- A space, in ASCII
abbrev pub is_space : ℕ → Bool
is_space c = c == 32 || (leb 9 c && leb c 13)

abbrev pub trim_left : Bytes → Bytes
trim_left [] = []
trim_left (c ∷ s) = let rest = trim_left s in if is_space c then rest else c ∷ s

-- `strings.TrimSpace`
abbrev pub trim_space : Bytes → Bytes
trim_space s = reverse (trim_left (reverse (trim_left s)))

-- The parts of a list given as a string, each of them trimmed.
abbrev pub parts_of : Bytes → List Bytes
parts_of s = map trim_space (split_commas s)

-- A parameter that a caller may leave out.
abbrev pub given {ℓ} : {A : Type ℓ} → Option A → A → A
given none a = a
given (some x) a = x

-- The host that a method listens at: the parameter, the configured host, or the default.
abbrev pub host_of : Option Bytes → Bytes → Bytes → Bytes
host_of (some host) configured default = host
host_of none configured default = if is_empty configured then default else configured

-- The configuration of `StartHTTP`. Its virtual hosts are read from the host.
unfoldable pub start_http_config :
    Config → Bytes → Option Bytes → Option Bytes → Option Bytes → HttpConfig
start_http_config c host cors apis vhosts = record {
  modules = elim apis [ none ↦ c.http_modules | some s ↦ parts_of s ];
  cors_allowed_origins = elim cors [ none ↦ c.http_cors | some s ↦ parts_of s ];
  vhosts = elim vhosts [ none ↦ c.http_virtual_hosts | some s ↦ parts_of host ];
  prefix = [];
  endpoint_config = rpc_config c;
}

-- `StartHTTP`
unfoldable pub start_http :
    World → Option Bytes → Option ℕ → Option Bytes → Option Bytes → Option Bytes → Step
unfolding start_http_config
start_http world host port cors apis vhosts n =
    let c : Config = n.config in
    let at : Bytes = host_of host c.http_host default_http_host in
    and_then
      (serve_rpc world http_slot at (given port c.http_port) n.rpc_apis
        (start_http_config c at cors apis vhosts))
      (on_server http_slot (start world.listen)) n

-- `StopHTTP`
unfoldable pub stop_http : Node → Node
stop_http n = record n { http = stop n.http }

-- The configuration of `StartWS`
abbrev pub start_ws_config : Config → Option Bytes → Option Bytes → WsConfig
start_ws_config c allowed_origins apis = record {
  modules = elim apis [ none ↦ c.ws_modules | some s ↦ parts_of s ];
  origins = elim allowed_origins [ none ↦ c.ws_origins | some s ↦ parts_of s ];
  prefix = [];
  endpoint_config = rpc_config c;
}

-- `StartWS`
unfoldable pub start_ws : World → Option Bytes → Option ℕ → Option Bytes → Option Bytes → Step
unfolding ws_server_for_port
start_ws world host port allowed_origins apis n =
    let c : Config = n.config in
    let at : Bytes = host_of host c.ws_host default_ws_host in
    let number : ℕ = given port c.ws_port in
    let slot = ws_server_for_port number false n in
    and_then
      (serve_ws world slot at number (open_apis n.rpc_apis)
        (start_ws_config c allowed_origins apis))
      (on_server slot (start world.listen)) n

-- `StopWS`
unfoldable pub stop_ws_servers : Node → Node
stop_ws_servers n = record n { http = stop_ws n.http; ws = stop n.ws }
