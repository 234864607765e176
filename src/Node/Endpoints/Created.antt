-- ===== src/Node/Endpoints/Created.antt =====
-- node/node.go: the handlers of a node that `New` returns.
use mive.Base.{◌≡◌, inl, inr, Bytes, Bool, Option, List, Option-cases, arith, ap}
use mive.Rpc.Handlers.{validate_prefix}
use mive.Rpc.HttpServer.{Api, HttpServer, RpcHandler, new_http_server}
use mive.Node.Config.{Platform, Config, get_key_store_dir}
use mive.Node.State.{Node, new, open_data_dir}
use mive.Node.Endpoints.{http_slot, ws_slot, http_auth_slot, ws_auth_slot}
use mive.Node.Endpoints.Handlers.{Have}
use mive.Node.Endpoints.Guarded.{IsGuarded, Guard}

new-servers :
    (os : Platform)
    → (locks : Bytes → Option Bool) → (apis : List Api) → (c : Config) → (n : Node)
    → new os locks apis c ≡ inr n
    → (n.http ≡ new_http_server)
      × (n.ws ≡ new_http_server)
      × (n.http_auth ≡ new_http_server)
      × (n.ws_auth ≡ new_http_server)
unfolding new
new-servers os locks apis c n e = elim (Option-cases (open_data_dir os locks c)) [
  | inr (err, f) ↦ ground (arith, f)
  | inl f ↦ elim (Option-cases (get_key_store_dir os c)) [
    | inl k ↦ ground (arith, f, k)
    | inr (dir, k) ↦ elim (Option-cases (validate_prefix c.http_path_prefix)) [
      | inr (bad, p) ↦ ground (arith, f, k, p)
      | inl p ↦ elim (Option-cases (validate_prefix c.ws_path_prefix)) [
        | inr (bad, q) ↦ ground (arith, f, k, p, q)
        | inl q ↦ ground (arith, f, k, p, q)
      ]
    ]
  ]
]

fresh-Have : (P : RpcHandler → Type 0) → (h : HttpServer) → h ≡ new_http_server → Have P h
fresh-Have P h e = record {
  rpc = λ r q. absurd (ground (arith, ap (λ s. s.http_handler) e));
  ws = λ r q. absurd (ground (arith, ap (λ s. s.ws_handler) e));
}

-- A new node is guarded.
pub new-IsGuarded :
    (os : Platform)
    → (locks : Bytes → Option Bool) → (apis : List Api) → (c : Config) → (n : Node)
    → new os locks apis c ≡ inr n
    → IsGuarded n
new-IsGuarded os locks apis c n e =
    let (a, b, x, y) = new-servers os locks apis c n e in
    record {
      guarded = elim [
        | http_slot ↦ fresh-Have (Guard http_slot) n.http a
        | ws_slot ↦ fresh-Have (Guard ws_slot) n.ws b
        | http_auth_slot ↦ fresh-Have (Guard http_auth_slot) n.http_auth x
        | ws_auth_slot ↦ fresh-Have (Guard ws_auth_slot) n.ws_auth y
      ];
    }
