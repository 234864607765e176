-- ===== src/Rpc/Handlers/Access.antt =====
-- node/jwt_handler.go and node/rpcstack.go: which requests the handlers let through.
use mive.Base.{
  ℕ, ◌+◌, ◌≤◌, ◌<◌, ◌≡◌, ◌≢◌, ◌↔◌, inl, inr, Bytes, Bool, true, false, Option, none, some, List, [],
  is_empty, Option-cases, refl, arith,
}
use mive.Rpc.Net.{Request, NetParsers}
use mive.Rpc.Handlers.{
  Token, jwt_expiry_timeout, bearer, check_claims, check_jwt, host_allowed, cors_allowed, served,
  http_stack, ws_stack,
}

-- A token that the code should accept at the time `now`: its signature holds, it has not expired, and
-- it was issued within a minute of now, on either side.
pub record IsFresh (now : ℕ) (token : Token) : Type 0 where
  pub signed : token.valid ≡ true
  pub unexpired : (t : ℕ) → token.expires_at ≡ some t → now < t
  pub issued :
      (t : ℕ) × (token.issued_at ≡ some t)
      × (t ≤ now + jwt_expiry_timeout)
      × (now ≤ t + jwt_expiry_timeout)

-- The request bears a token that is made with the secret and fresh.
abbrev pub IsAuthorized : (Bytes → Bytes → Option Token) → Bytes → ℕ → Request → Type 0
IsAuthorized parse secret now r =
    (bearer r ≢ []) × ((token : Token) × (parse secret (bearer r) ≡ some token) × IsFresh now token)

abbrev token_of : Bool → Option ℕ → Option ℕ → Token
token_of valid x i = record { valid = valid; expires_at = x; issued_at = i }

IsFresh-check_claims :
    (now : ℕ)
    → (valid : Bool) → (x i : Option ℕ) → check_claims now (token_of valid x i) ≡ none
    → IsFresh now (token_of valid x i)
unfolding check_claims
IsFresh-check_claims now false x i e = ground arith
IsFresh-check_claims now true (some x) none e = ground arith
IsFresh-check_claims now true none none e = ground arith
IsFresh-check_claims now true none (some i) e = record {
  signed = refl;
  unexpired = λ t q. ground arith;
  issued = (i, refl, ground arith, ground arith);
}
IsFresh-check_claims now true (some x) (some i) e = record {
  signed = refl;
  unexpired = λ t q. ground arith;
  issued = (i, refl, ground arith, ground arith);
}

check_claims-IsFresh :
    (now : ℕ)
    → (valid : Bool) → (x i : Option ℕ) → IsFresh now (token_of valid x i)
    → check_claims now (token_of valid x i) ≡ none
unfolding check_claims
check_claims-IsFresh now false x i fresh = let e = fresh.signed in ground arith
check_claims-IsFresh now true x none fresh = let (t, e, a, b) = fresh.issued in ground arith
check_claims-IsFresh now true none (some i) fresh = let (t, e, a, b) = fresh.issued in ground arith
check_claims-IsFresh now true (some x) (some i) fresh =
    let (t, e, a, b) = fresh.issued in let later = fresh.unexpired x refl in ground arith

check_jwt-IsAuthorized :
    (parse : Bytes → Bytes → Option Token)
    → (secret : Bytes) → (now : ℕ) → (r : Request)
    → (check_jwt parse secret now r ≡ none) ↔ IsAuthorized parse secret now r
unfolding check_jwt
check_jwt-IsAuthorized parse secret now r = (to, from)
  where
    to : check_jwt parse secret now r ≡ none → IsAuthorized parse secret now r
    to e = elim (Option-cases (parse secret (bearer r))) [
      | inl f ↦ ground arith
      | inr (token, f) ↦ (
        (λ q. ground arith),
        (
          token,
          f,
          IsFresh-check_claims now token.valid token.expires_at token.issued_at (ground arith),
        ),
      )
    ]

    from : IsAuthorized parse secret now r → check_jwt parse secret now r ≡ none
    from (nonempty, (token, f, fresh)) =
        let e = check_claims-IsFresh now token.valid token.expires_at token.issued_at fresh in
        ground arith

-- A request reaches the server behind a stack with a secret that is not empty exactly if it bears
-- a fresh token made with the secret, its host is allowed, and the CORS handler, if there are origins,
-- passes it on.
pub http_stack-served :
    (parse : Bytes → Bytes → Option Token)
    → (net : NetParsers) → (origins vhosts : List Bytes) → (secret : Bytes) → (now : ℕ)
    → (r : Request) → is_empty secret ≡ false
    → (http_stack parse net origins vhosts secret now r ≡ served) ↔ (
        IsAuthorized parse secret now r
        × (host_allowed net vhosts r ≡ true)
        × (cors_allowed net origins r ≡ true))
unfolding http_stack
http_stack-served parse net origins vhosts secret now r kept = (to, from)
  where
    checked : (check_jwt parse secret now r ≡ none) ↔ IsAuthorized parse secret now r
    checked = check_jwt-IsAuthorized parse secret now r

    to :
        http_stack parse net origins vhosts secret now r ≡ served
        → IsAuthorized parse secret now r
          × (host_allowed net vhosts r ≡ true)
          × (cors_allowed net origins r ≡ true)
    to e = elim (Option-cases (check_jwt parse secret now r)) [
      | inl f ↦ (checked.0 f, ground arith, ground arith)
      | inr (err, f) ↦ ground arith
    ]

    from :
        IsAuthorized parse secret now r
          × (host_allowed net vhosts r ≡ true)
          × (cors_allowed net origins r ≡ true)
        → http_stack parse net origins vhosts secret now r ≡ served
    from (authorized, host, cors) = let e = checked.1 authorized in ground arith

pub ws_stack-served :
    (parse : Bytes → Bytes → Option Token)
    → (secret : Bytes) → (now : ℕ) → (r : Request) → is_empty secret ≡ false
    → ws_stack parse secret now r ≡ served
    → IsAuthorized parse secret now r
unfolding ws_stack
ws_stack-served parse secret now r kept e = elim (Option-cases (check_jwt parse secret now r)) [
  | inl f ↦ (check_jwt-IsAuthorized parse secret now r).0 f
  | inr (err, f) ↦ ground arith
]
