-- ===== src/Node/Config.antt =====
-- node/config.go and node/defaults.go: a node's configuration, with the paths it resolves to.
use mive.Base.{
  ℕ, ◌*◌, ◌-◌, Bytes, bytes_eq, Bool, true, false, not, ◌||◌, Option, none, some, List, [], ◌∷◌,
  ◌++◌, codes, is_empty, has_prefix, has_suffix, take, length, if◌then◌else◌,
}
use mive.Rpc.Net.{decimal, join_host_port}

-- `Config`, by the fields that the code reads.
pub record Config : Type 0 where
  pub name : Bytes
  pub data_dir : Bytes
  pub key_store_dir : Bytes
  pub ipc_path : Bytes
  pub http_host : Bytes
  pub http_port : ℕ
  pub http_cors : List Bytes
  pub http_virtual_hosts : List Bytes
  pub http_modules : List Bytes
  pub http_path_prefix : Bytes
  pub auth_addr : Bytes
  pub auth_port : ℕ
  pub auth_virtual_hosts : List Bytes
  pub ws_host : Bytes
  pub ws_port : ℕ
  pub ws_path_prefix : Bytes
  pub ws_origins : List Bytes
  pub ws_modules : List Bytes
  pub batch_request_limit : ℕ
  pub batch_response_max_size : ℕ
  pub jwt_secret : Bytes

-- The platform: package filepath's functions on it, the directory of temporary files, the program's
-- path and what `MkdirTemp` and `MkdirAll` do; `none` is an error.
pub record Platform : Type 0 where
  pub windows : Bool
  pub is_abs : Bytes → Bool
  pub base : Bytes → Bytes
  pub join : Bytes → Bytes → Bytes
  pub abs : Bytes → Option Bytes
  pub temp_dir : Bytes
  pub program : Bytes
  pub make_temp_dir : Option Bytes
  pub make_dir : Bytes → Bool

abbrev pub datadir_jwt_key : Bytes
datadir_jwt_key = codes "jwtsecret"

abbrev pub datadir_default_key_store : Bytes
datadir_default_key_store = codes "keystore"

abbrev pub default_http_host : Bytes
default_http_host = codes "localhost"

abbrev pub default_ws_host : Bytes
default_ws_host = codes "localhost"

abbrev pub default_auth_cors : List Bytes
default_auth_cors = codes "localhost" ∷ []

abbrev pub default_auth_origins : List Bytes
default_auth_origins = codes "localhost" ∷ []

abbrev pub default_auth_prefix : Bytes
default_auth_prefix = []

abbrev pub default_auth_modules : List Bytes
default_auth_modules = codes "eth" ∷ codes "engine" ∷ []

abbrev pub engine_api_batch_item_limit : ℕ
engine_api_batch_item_limit = 2000

abbrev pub engine_api_batch_response_size_limit : ℕ
engine_api_batch_response_size_limit = 250 * 1000 * 1000

-- `IPCEndpoint`
unfoldable pub ipc_endpoint : Platform → Config → Bytes
ipc_endpoint os c =
    if is_empty c.ipc_path
    then []
    else if os.windows
    then (if has_prefix c.ipc_path (codes "\\\\.\\pipe\\")
        then c.ipc_path
        else codes "\\\\.\\pipe\\" ++ c.ipc_path)
    else if bytes_eq (os.base c.ipc_path) c.ipc_path
    then (if is_empty c.data_dir
        then os.join os.temp_dir c.ipc_path
        else os.join c.data_dir c.ipc_path)
    else c.ipc_path

-- `HTTPEndpoint`
unfoldable pub http_endpoint : Config → Bytes
http_endpoint c =
    if is_empty c.http_host then [] else join_host_port c.http_host (decimal c.http_port)

-- `WSEndpoint`
unfoldable pub ws_endpoint : Config → Bytes
ws_endpoint c = if is_empty c.ws_host then [] else join_host_port c.ws_host (decimal c.ws_port)

-- `ExtRPCEnabled`
unfoldable pub ext_rpc_enabled : Config → Bool
ext_rpc_enabled c = not (is_empty c.http_host) || not (is_empty c.ws_host)

-- `strings.TrimSuffix`
abbrev trim_suffix : Bytes → Bytes → Bytes
trim_suffix s p = if has_suffix s p then take (length s - length p) s else s

-- `name`, which panics, `none`, when the program's own name is empty.
unfoldable pub instance_name : Platform → Config → Option Bytes
instance_name os c =
    let progname = trim_suffix (os.base os.program) (codes ".exe") in
    if is_empty c.name then (if is_empty progname then none else some progname) else some c.name

-- `instanceDir`
unfoldable pub instance_dir : Platform → Config → Option Bytes
unfolding instance_name
instance_dir os c =
    if is_empty c.data_dir
    then some []
    else elim (instance_name os c) [ none ↦ none | some name ↦ some (os.join c.data_dir name) ]

-- `ResolvePath`
unfoldable pub resolve_path : Platform → Config → Bytes → Option Bytes
unfolding instance_dir
resolve_path os c path =
    if os.is_abs path
    then some path
    else if is_empty c.data_dir
    then some []
    else elim (instance_dir os c) [ none ↦ none | some dir ↦ some (os.join dir path) ]

-- `KeyDirConfig`; `none` is an error.
unfoldable pub key_dir_config : Platform → Config → Option Bytes
key_dir_config os c =
    if os.is_abs c.key_store_dir
    then some c.key_store_dir
    else if not (is_empty c.data_dir)
    then (if is_empty c.key_store_dir
        then some (os.join c.data_dir datadir_default_key_store)
        else os.abs c.key_store_dir)
    else if not (is_empty c.key_store_dir)
    then os.abs c.key_store_dir
    else some []

-- `GetKeyStoreDir`: the directory, and whether it is ephemeral.
unfoldable pub get_key_store_dir : Platform → Config → Option (Bytes × Bool)
unfolding key_dir_config
get_key_store_dir os c =
    let made : Bytes → Bool → Option (Bytes × Bool) =
      λ dir ephemeral. if os.make_dir dir then some (dir, ephemeral) else none in
    elim (key_dir_config os c) [
      | none ↦ none
      | some dir ↦
          if is_empty dir
          then elim os.make_temp_dir [ none ↦ none | some temp ↦ made temp true ]
          else made dir false
    ]
