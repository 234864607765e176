-- ===== src/Node/Endpoints/Handlers.antt =====
-- node/rpcstack.go: a property of a server's handlers that its operations keep.
use mive.Base.{
  ℕ, ◌≡◌, inl, inr, Bytes, Option, some, List, subst, Option-cases, Bool-cases, arith, ◌||◌, not,
  is_some, is_empty,
}
use mive.Rpc.HttpServer.{
  Registry, http_rpc_handler, ws_rpc_handler, Api, HttpServer, HttpConfig, WsConfig, RpcHandler,
  set_listen_addr, disable_rpc, disable_ws, enable_rpc, enable_ws, start, stop, do_stop,
  rpc_allowed, ws_allowed,
}

-- Every handler of the server has the property.
pub record Have (P : RpcHandler → Type 0) (h : HttpServer) : Type 0 where
  pub rpc : (r : RpcHandler) → h.http_handler ≡ some r → P r
  pub ws : (r : RpcHandler) → h.ws_handler ≡ some r → P r

module _ (P : RpcHandler → Type 0) where
  pub set_listen_addr-Have :
      (host : Bytes)
      → (port : ℕ) → (h : HttpServer) → Have P h
      → Have P (set_listen_addr host port h).1
  unfolding set_listen_addr
  set_listen_addr-Have host port h ok = record {
    rpc = λ r e. ok.rpc r (ground (arith, e));
    ws = λ r e. ok.ws r (ground (arith, e));
  }

  disable_rpc-Have : (h : HttpServer) → Have P h → Have P (disable_rpc h)
  unfolding disable_rpc
  disable_rpc-Have h ok = elim (Option-cases h.http_handler) [
    | inl f ↦ record {
      rpc = λ r e. ok.rpc r (ground (arith, e, f));
      ws = λ r e. ok.ws r (ground (arith, e, f));
    }
    | inr (x, f) ↦ record {
      rpc = λ r e. ok.rpc r (ground (arith, e, f));
      ws = λ r e. ok.ws r (ground (arith, e, f));
    }
  ]

  disable_ws-Have : (h : HttpServer) → Have P h → Have P (disable_ws h)
  unfolding disable_ws
  disable_ws-Have h ok = elim (Option-cases h.ws_handler) [
    | inl f ↦ record {
      rpc = λ r e. ok.rpc r (ground (arith, e, f));
      ws = λ r e. ok.ws r (ground (arith, e, f));
    }
    | inr (x, f) ↦ record {
      rpc = λ r e. ok.rpc r (ground (arith, e, f));
      ws = λ r e. ok.ws r (ground (arith, e, f));
    }
  ]

  pub start-Have :
      (listen : Bytes → Option Bytes) → (h : HttpServer) → Have P h → Have P (start listen h).1
  unfolding start
  start-Have listen h ok =
      let off = disable_ws-Have (disable_rpc h) (disable_rpc-Have h ok) in
      elim (Option-cases (listen h.endpoint)) [
        | inl f ↦ record {
          rpc = λ r e. elim (Bool-cases (is_empty h.endpoint || is_some h.listener)) [
            | inl g ↦ ok.rpc r (ground (arith, e, f, g))
            | inr g ↦ off.rpc r (ground (arith, e, f, g))
          ];
          ws = λ r e. elim (Bool-cases (is_empty h.endpoint || is_some h.listener)) [
            | inl g ↦ ok.ws r (ground (arith, e, f, g))
            | inr g ↦ off.ws r (ground (arith, e, f, g))
          ];
        }
        | inr (x, f) ↦ record {
          rpc = λ r e. ok.rpc r (ground (arith, e, f));
          ws = λ r e. ok.ws r (ground (arith, e, f));
        }
      ]

  pub stop-Have : (h : HttpServer) → Have P h → Have P (stop h)
  unfolding do_stop
  stop-Have h ok =
      let off = disable_ws-Have (disable_rpc h) (disable_rpc-Have h ok) in
      elim (Option-cases h.listener) [
        | inl f ↦ record {
          rpc = λ r e. ok.rpc r (ground (arith, e, f));
          ws = λ r e. ok.ws r (ground (arith, e, f));
        }
        | inr (x, f) ↦ record {
          rpc = λ r e. off.rpc r (ground (arith, e, f));
          ws = λ r e. off.ws r (ground (arith, e, f));
        }
      ]

  pub enable_rpc-Have :
      (register : Registry)
      → (apis : List Api) → (config : HttpConfig)
      → ((id : ℕ) → P (http_rpc_handler register apis config id))
      → (h : HttpServer) → Have P h
      → Have P (enable_rpc register apis config h).1
  unfolding enable_rpc
  enable_rpc-Have register apis config fresh h ok =
      elim (Bool-cases (rpc_allowed h || not (register.succeeds apis config.modules))) [
        | inl f ↦ record {
          rpc = λ r e. ok.rpc r (ground (arith, e, f));
          ws = λ r e. ok.ws r (ground (arith, e, f));
        }
        | inr f ↦ record {
          rpc = λ r e. subst P (ground (arith, e, f)) (fresh h.next_server);
          ws = λ r e. ok.ws r (ground (arith, e, f));
        }
      ]

  pub enable_ws-Have :
      (register : Registry)
      → (apis : List Api) → (config : WsConfig)
      → ((id : ℕ) → P (ws_rpc_handler register apis config id))
      → (h : HttpServer) → Have P h
      → Have P (enable_ws register apis config h).1
  unfolding enable_ws
  enable_ws-Have register apis config fresh h ok =
      elim (Bool-cases (ws_allowed h || not (register.succeeds apis config.modules))) [
        | inl f ↦ record {
          rpc = λ r e. ok.rpc r (ground (arith, e, f));
          ws = λ r e. ok.ws r (ground (arith, e, f));
        }
        | inr f ↦ record {
          ws = λ r e. subst P (ground (arith, e, f)) (fresh h.next_server);
          rpc = λ r e. ok.rpc r (ground (arith, e, f));
        }
      ]
