-- ===== src/Rpc/HttpServer/Invariant/Handlers.antt =====
-- node/rpcstack.go: handlers come and go.
use mive.Base.{
  suc, ◌≡◌, none, some, List, ◌∷◌, Bool-cases, sym, ap, subst, Option-cases, inl, inr, arith,
}
use mive.Rpc.HttpServer.{
  Registry, http_rpc_handler, ws_rpc_handler, Api, HttpConfig, WsConfig, RpcHandler, HttpServer,
  disable_rpc, disable_ws, enable_rpc, enable_ws,
}
use mive.Rpc.HttpServer.Invariant.{live, IsConsistent}

pub disable_rpc-IsConsistent : (h : HttpServer) → IsConsistent h → IsConsistent (disable_rpc h)
unfolding disable_rpc
disable_rpc-IsConsistent h ok = elim (Option-cases h.http_handler) [
  | inl e ↦ let same : disable_rpc h ≡ h = rw e in subst IsConsistent (sym same) ok
  | inr (r, e) ↦
      let h' : HttpServer = record h { http_handler = none; stopped = r.server ∷ h.stopped } in
      let same : disable_rpc h ≡ h' = rw e in
      subst IsConsistent (sym same) (record {
        accounted = λ n.
            let q = ok.accounted n in
            let t : live h.http_handler n ≡ live (some r) n = ap (λ o. live o n) e in ground arith;
        addressed = ok.addressed;
        configured = ((λ r' q. ground arith), ok.configured.1);
      })
]

pub disable_ws-IsConsistent : (h : HttpServer) → IsConsistent h → IsConsistent (disable_ws h)
unfolding disable_ws
disable_ws-IsConsistent h ok = elim (Option-cases h.ws_handler) [
  | inl e ↦ let same : disable_ws h ≡ h = rw e in subst IsConsistent (sym same) ok
  | inr (r, e) ↦
      let h' : HttpServer = record h { ws_handler = none; stopped = r.server ∷ h.stopped } in
      let same : disable_ws h ≡ h' = rw e in
      subst IsConsistent (sym same) (record {
        accounted = λ n.
            let q = ok.accounted n in
            let t : live h.ws_handler n ≡ live (some r) n = ap (λ o. live o n) e in ground arith;
        addressed = ok.addressed;
        configured = (ok.configured.0, (λ r' q. ground arith));
      })
]

pub enable_rpc-IsConsistent :
    (register : Registry)
    → (apis : List Api) → (config : HttpConfig) → (h : HttpServer) → IsConsistent h
    → IsConsistent (enable_rpc register apis config h).1
unfolding enable_rpc
enable_rpc-IsConsistent register apis config h ok = elim (Option-cases h.http_handler) [
  | inr (r, e) ↦
      let same : (enable_rpc register apis config h).1 ≡ h = rw e in
      subst IsConsistent (sym same) ok
  | inl e ↦ elim (Bool-cases (register.succeeds apis config.modules)) [
    | inr f ↦
        let same : (enable_rpc register apis config h).1 ≡ h = rw (e, f) in
        subst IsConsistent (sym same) ok
    | inl f ↦
        let r : RpcHandler = http_rpc_handler register apis config h.next_server in
        let h' : HttpServer = record h {
          http_config = config;
          http_handler = some r;
          next_server = suc h.next_server;
        } in
        let same : (enable_rpc register apis config h).1 ≡ h' = rw (e, f) in
        subst IsConsistent (sym same) (record {
          accounted = λ n.
              let q = ok.accounted n in
              let t : live h.http_handler n ≡ 0 = ap (λ o. live o n) e in ground arith;
          addressed = ok.addressed;
          configured = ((λ r' q. ground arith), ok.configured.1);
        })
  ]
]

pub enable_ws-IsConsistent :
    (register : Registry)
    → (apis : List Api) → (config : WsConfig) → (h : HttpServer) → IsConsistent h
    → IsConsistent (enable_ws register apis config h).1
unfolding enable_ws
enable_ws-IsConsistent register apis config h ok = elim (Option-cases h.ws_handler) [
  | inr (r, e) ↦
      let same : (enable_ws register apis config h).1 ≡ h = rw e in subst IsConsistent (sym same) ok
  | inl e ↦ elim (Bool-cases (register.succeeds apis config.modules)) [
    | inr f ↦
        let same : (enable_ws register apis config h).1 ≡ h = rw (e, f) in
        subst IsConsistent (sym same) ok
    | inl f ↦
        let r : RpcHandler = ws_rpc_handler register apis config h.next_server in
        let h' : HttpServer = record h {
          ws_config = config;
          ws_handler = some r;
          next_server = suc h.next_server;
        } in
        let same : (enable_ws register apis config h).1 ≡ h' = rw (e, f) in
        subst IsConsistent (sym same) (record {
          accounted = λ n.
              let q = ok.accounted n in
              let t : live h.ws_handler n ≡ 0 = ap (λ o. live o n) e in ground arith;
          addressed = ok.addressed;
          configured = (ok.configured.0, (λ r' q. ground arith));
        })
  ]
]
