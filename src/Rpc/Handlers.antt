-- ===== src/Rpc/Handlers.antt =====
-- node/rpcstack.go and node/jwt_handler.go: the handlers in front of an RPC server.
pub mod Access
use mive.Base.{
  ℕ, ◌+◌, ◌-◌, ◌≤◌, Bytes, bytes_eq, Bool, true, false, not, ◌&&◌, ◌||◌, Option, none, some, List,
  [], ◌∷◌, map, codes, is_empty, has_prefix, trim_prefix, contains, contains_any, to_lower, leb,
  ltb, if◌then◌else◌, ◌==◌, length, take,
}
use mive.Rpc.Net.{Request, NetParsers}

-- `checkPath`
unfoldable pub check_path : Bytes → Bytes → Bool
check_path path prefix =
    if is_empty prefix
    then bytes_eq path (codes "/")
    else leb (length prefix) (length path) && bytes_eq (take (length prefix) path) prefix

-- The two errors of `validatePrefix`.
pub data PrefixError : Type 0 where
  no_leading_slash meta_characters : PrefixError

-- `validatePrefix`
unfoldable pub validate_prefix : Bytes → Option PrefixError
validate_prefix [] = none
validate_prefix (c ∷ path) =
    if not (c == b'/')
    then some no_leading_slash
    else if contains_any (c ∷ path) (codes "?#")
    then some meta_characters
    else none

-- `isWebsocket`, with case folded in ASCII
unfoldable pub is_websocket : Request → Bool
is_websocket r =
    bytes_eq (to_lower r.upgrade) (codes "websocket")
    && contains (to_lower r.connection) (codes "upgrade")

-- Whether a list of strings, the keys of a map, has a string.
abbrev pub has_key : List Bytes → Bytes → Bool
has_key [] k = false
has_key (x ∷ xs) k = bytes_eq x k || has_key xs k

-- `virtualHostHandler.ServeHTTP`: whether a request is passed on, for hosts as `newVHostHandler`
-- keeps them, in lower case.
unfoldable pub host_allowed : NetParsers → List Bytes → Request → Bool
host_allowed net vhosts r =
    let hosts = map to_lower vhosts in
    let host : Bytes = elim (net.split_host r.host) [ none ↦ r.host | some h ↦ h ] in
    if is_empty r.host
    then true
    else if net.is_ip host
    then true
    else if has_key hosts (codes "*")
    then true
    else has_key hosts host

-- A parsed token: whether its signature holds, and its times in nanoseconds.
pub record Token : Type 0 where
  pub valid : Bool
  pub expires_at : Option ℕ
  pub issued_at : Option ℕ

pub data JwtError : Type 0 where
  missing_token unparsable invalid_token expired missing_issued_at stale_token future_token :
      JwtError

-- `jwtExpiryTimeout`, in nanoseconds
abbrev pub jwt_expiry_timeout : ℕ
jwt_expiry_timeout = 60000000000

-- The token of the `Authorization` header, empty if there is none.
abbrev pub bearer : Request → Bytes
bearer r =
    if has_prefix r.authorization (codes "Bearer ")
    then trim_prefix r.authorization (codes "Bearer ")
    else []

-- The switch of `jwtHandler.ServeHTTP` at the time `now`; `none` passes the request on.
unfoldable pub check_claims : ℕ → Token → Option JwtError
check_claims now token =
    let expired_now : Bool = elim token.expires_at [ none ↦ false | some t ↦ not (ltb now t) ] in
    if not token.valid
    then some invalid_token
    else if expired_now
    then some expired
    else elim token.issued_at [
      | none ↦ some missing_issued_at
      | some t ↦
          if ltb jwt_expiry_timeout (now - t)
          then some stale_token
          else if ltb jwt_expiry_timeout (t - now)
          then some future_token
          else none
    ]

-- `jwtHandler.ServeHTTP`; `parse` is the library's `ParseWithClaims` under a secret, with the HS256
-- method alone and no check of the claims.
unfoldable pub check_jwt : (Bytes → Bytes → Option Token) → Bytes → ℕ → Request → Option JwtError
unfolding check_claims
check_jwt parse secret now r =
    if is_empty (bearer r) then some missing_token else elim (parse secret (bearer r)) [
      | none ↦ some unparsable
      | some token ↦ check_claims now token
    ]

-- The answer of a stack of handlers: a refusal, an answer of the CORS handler to a preflight request, or the
-- request handed to the server.
pub data Answer : Type 0 where
  unauthorized : JwtError → Answer
  forbidden preflight served : Answer

-- `newCorsHandler`: whether a request is passed on; there is no CORS handler without origins.
unfoldable pub cors_allowed : NetParsers → List Bytes → Request → Bool
cors_allowed net [] r = true
cors_allowed net (origin ∷ origins) r = net.cors_passes (origin ∷ origins) r

-- `NewHTTPHandlerStack`, without compression, which refuses nothing: the token is checked first, if there
-- is a secret, then the host, and then the request goes to the CORS handler.
unfoldable pub http_stack :
    (Bytes → Bytes → Option Token)
    → NetParsers
    → List Bytes
    → List Bytes
    → Bytes
    → ℕ
    → Request
    → Answer
http_stack parse net origins vhosts secret now r =
    let passed : Answer = if cors_allowed net origins r then served else preflight in
    let inner : Answer = if host_allowed net vhosts r then passed else forbidden in
    if is_empty secret
    then inner
    else elim (check_jwt parse secret now r) [ some e ↦ unauthorized e | none ↦ inner ]

-- `NewWSHandlerStack`
unfoldable pub ws_stack : (Bytes → Bytes → Option Token) → Bytes → ℕ → Request → Answer
ws_stack parse secret now r =
    if is_empty secret
    then served
    else elim (check_jwt parse secret now r) [ some e ↦ unauthorized e | none ↦ served ]
