-- ===== src/Rpc/HttpServer/Invariant/Listening.antt =====
-- node/rpcstack.go: the server starts and stops, in every order of the operations.
use mive.Base.{
  ℕ, ◌≡◌, Bytes, Bool, Option, none, some, [], ◌==◌, not, ◌&&◌, ◌||◌, bytes_eq, bytes_eq_iff,
  is_some, is_empty, Bool-cases, refl, sym, subst, Option-cases, inl, inr, arith,
}
use mive.Rpc.Net.{decimal, join_host_port}
use mive.Rpc.HttpServer.{
  HttpServer, new_http_server, set_listen_addr, disable_rpc, disable_ws, start, do_stop, stop_ws,
  rpc_allowed, ws_allowed,
}
use mive.Rpc.HttpServer.Invariant.{
  IsConsistent, Step, Reachable, addresses, starts, stops, stops_ws, enables_rpc, enables_ws, first,
  next,
}
use mive.Rpc.HttpServer.Invariant.Handlers.{
  disable_rpc-IsConsistent, disable_ws-IsConsistent, enable_rpc-IsConsistent,
  enable_ws-IsConsistent,
}

set_listen_addr-IsConsistent :
    (host : Bytes)
    → (port : ℕ) → (h : HttpServer) → IsConsistent h
    → IsConsistent (set_listen_addr host port h).1
unfolding set_listen_addr
set_listen_addr-IsConsistent host port h ok = elim (Bool-cases changed) [
  | inl e ↦
      let same : (set_listen_addr host port h).1 ≡ h = rw e in subst IsConsistent (sym same) ok
  | inr e ↦
      let same : (set_listen_addr host port h).1 ≡ h' = rw e in
      let keeps : (l : _)
          → h.listener ≡ some l
          → l.opened_for ≡ join_host_port host (decimal port) =
        λ l q.
          let old = ok.addressed.1 l q in
          let same_host : host ≡ h.host = ground (arith, bytes_eq_iff host h.host) in
          let same_port : port ≡ h.port = ground arith in
          ground (arith, old, same_host, same_port) in
      subst IsConsistent (sym same) (record {
        accounted = ok.accounted;
        addressed = (inr refl, keeps);
        configured = ok.configured;
      })
]
  where
    changed : Bool
    changed = is_some h.listener && (not (bytes_eq host h.host) || not (port == h.port))

    h' : HttpServer
    h' = record h { host = host; port = port; endpoint = join_host_port host (decimal port) }

do_stop-IsConsistent : (h : HttpServer) → IsConsistent h → IsConsistent (do_stop h)
unfolding do_stop
do_stop-IsConsistent h ok =
    let ok' = disable_ws-IsConsistent (disable_rpc h) (disable_rpc-IsConsistent h ok) in
    elim (Option-cases h.listener) [
      | inl e ↦ let same : do_stop h ≡ h = rw e in subst IsConsistent (sym same) ok
      | inr (l, e) ↦
          let h' : HttpServer = record (disable_ws (disable_rpc h)) {
            listener = none;
            host = [];
            port = 0;
            endpoint = [];
          } in
          let same : do_stop h ≡ h' = rw e in
          subst IsConsistent (sym same) (record {
            accounted = ok'.accounted;
            addressed = (inl refl, λ l q. ground arith);
            configured = ok'.configured;
          })
    ]

start-IsConsistent :
    (listen : Bytes → Option Bytes)
    → (h : HttpServer) → IsConsistent h
    → IsConsistent (start listen h).1
unfolding start
start-IsConsistent listen h ok = elim (Bool-cases (is_empty h.endpoint || is_some h.listener)) [
  | inl e ↦ let same : (start listen h).1 ≡ h = rw e in subst IsConsistent (sym same) ok
  | inr e ↦ elim (Option-cases (listen h.endpoint)) [
    | inl f ↦
        let same : (start listen h).1 ≡ disable_ws (disable_rpc h) = rw (e, f) in
        subst IsConsistent (sym same)
          (disable_ws-IsConsistent (disable_rpc h) (disable_rpc-IsConsistent h ok))
    | inr (address, f) ↦
        let h' : HttpServer = record h {
          listener = some (record { opened_for = h.endpoint; address = address });
        } in
        let same : (start listen h).1 ≡ h' = rw (e, f) in
        subst IsConsistent (sym same) (record {
          accounted = ok.accounted;
          addressed = (
            ok.addressed.0,
            λ l q.
                let set : h.endpoint ≡ join_host_port h.host (decimal h.port) =
                  ground (arith, ok.addressed.0) in
                ground (arith, set),
          );
          configured = ok.configured;
        })
  ]
]

stop_ws-IsConsistent : (h : HttpServer) → IsConsistent h → IsConsistent (stop_ws h)
unfolding stop_ws
stop_ws-IsConsistent h ok =
    let ok' = disable_ws-IsConsistent h ok in
    elim (Bool-cases (ws_allowed h)) [
      | inr e ↦ let same : stop_ws h ≡ h = rw e in subst IsConsistent (sym same) ok
      | inl e ↦ elim (Bool-cases (rpc_allowed (disable_ws h))) [
        | inl f ↦
            let same : stop_ws h ≡ disable_ws h = rw (e, f) in subst IsConsistent (sym same) ok'
        | inr f ↦
            let same : stop_ws h ≡ do_stop (disable_ws h) = rw (e, f) in
            subst IsConsistent (sym same) (do_stop-IsConsistent (disable_ws h) ok')
      ]
    ]

new_http_server-IsConsistent : IsConsistent new_http_server
new_http_server-IsConsistent = record {
  accounted = λ n. ground arith;
  addressed = (inl refl, λ l q. ground arith);
  configured = ((λ r q. ground arith), (λ r q. ground arith));
}

step-IsConsistent : (h h' : HttpServer) → IsConsistent h → Step h h' → IsConsistent h'
step-IsConsistent h h' ok (addresses host port) = set_listen_addr-IsConsistent host port h ok
step-IsConsistent h h' ok (starts listen) = start-IsConsistent listen h ok
step-IsConsistent h h' ok stops = do_stop-IsConsistent h ok
step-IsConsistent h h' ok stops_ws = stop_ws-IsConsistent h ok
step-IsConsistent h h' ok (enables_rpc register apis config) =
    enable_rpc-IsConsistent register apis config h ok
step-IsConsistent h h' ok (enables_ws register apis config) =
    enable_ws-IsConsistent register apis config h ok

-- However the operations of an HTTP server follow one another, failed or not: each RPC server made
-- so far either stands in one handler or was stopped exactly once, a running server listens at the
-- address of its host and port, and a handler has the modules, the origins, the secret and, for HTTP, the
-- virtual hosts of the configuration beside it.
pub Reachable-IsConsistent : (h : HttpServer) → Reachable h → IsConsistent h
Reachable-IsConsistent h first = new_http_server-IsConsistent
Reachable-IsConsistent h (next {h = before} run step) =
    step-IsConsistent before h (Reachable-IsConsistent before run) step
