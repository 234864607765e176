-- ===== src/Rpc/Net.antt =====
-- The requests that the handlers read, and the functions of the packages net and cors that they call.
use mive.Base.{
  ℕ, zero, suc, ◌+◌, ◌/◌, ◌%◌, Bytes, Bool, Option, List, [], ◌∷◌, ◌++◌, codes, contains_byte, ltb,
  if◌then◌else◌,
}

-- An `http.Request`: its method, its path, its `Host` and the headers that are read; `requested_method`
-- is `Access-Control-Request-Method`.
pub record Request : Type 0 where
  pub method : Bytes
  pub requested_method : Bytes
  pub path : Bytes
  pub host : Bytes
  pub upgrade : Bytes
  pub connection : Bytes
  pub authorization : Bytes
  pub accept_encoding : Bytes

-- `net.SplitHostPort`, whose host is `none` beside an error, whether `net.ParseIP` is not nil, and whether
-- the handler of the package cors for these origins passes a request on, and does not answer it itself.
pub record NetParsers : Type 0 where
  pub split_host : Bytes → Option Bytes
  pub is_ip : Bytes → Bool
  pub cors_passes : List Bytes → Request → Bool

-- The decimal digits of a number, in front of `rest`; a digit is made for each unit of fuel at most.
unfoldable pub decimal_from : ℕ → ℕ → Bytes → Bytes
decimal_from zero n rest = rest
decimal_from (suc fuel) n rest =
    let digits = (n % 10 + b'0') ∷ rest in
    let more = decimal_from fuel (n / 10) digits in if ltb n 10 then digits else more

-- `fmt.Sprintf("%d", n)`; a number has fewer digits than its value and one.
unfoldable pub decimal : ℕ → Bytes
unfolding decimal_from
decimal n = decimal_from (suc n) n []

-- `net.JoinHostPort`
unfoldable pub join_host_port : Bytes → Bytes → Bytes
join_host_port host port =
    if contains_byte host b':'
    then codes "[" ++ (host ++ (codes "]:" ++ port))
    else host ++ (codes ":" ++ port)
