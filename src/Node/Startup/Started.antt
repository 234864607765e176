-- ===== src/Node/Startup/Started.antt =====
-- node/node.go: the loop of `startRPC` that starts the servers, and the steps in front of it.
use mive.Base.{
  ◌≡◌, inl, inr, Bytes, Bool, true, false, Option, none, List, [], ◌∷◌, ◌++◌, is_empty, is_some,
  refl, sym, subst, Option-cases, Bool-cases, arith,
}
use mive.Node.World.{World}
use mive.Rpc.HttpServer.{HttpServer, HttpError, start}
use mive.Node.State.{Node}
use mive.Node.Endpoints.{Slot, http_slot, http_auth_slot, ws_auth_slot, ws_slot, Step, on_server}
use mive.Node.Endpoints.Sequence.{Keeps, and_then-Keeps, and_then-none}
use mive.Node.Startup.{Boot, adding, start_servers}
use mive.Node.Startup.Listening.{HasEndpoint}

abbrev pub has_http : List Slot → Bool
has_http [] = false
has_http (http_slot ∷ slots) = true
has_http (ws_slot ∷ slots) = has_http slots
has_http (http_auth_slot ∷ slots) = has_http slots
has_http (ws_auth_slot ∷ slots) = has_http slots

has_http-append : (slots more : List Slot) → has_http slots ≡ true → has_http (slots ++ more) ≡ true
has_http-append [] more e = ground arith
has_http-append (http_slot ∷ slots) more e = refl
has_http-append (ws_slot ∷ slots) more e = has_http-append slots more e
has_http-append (http_auth_slot ∷ slots) more e = has_http-append slots more e
has_http-append (ws_auth_slot ∷ slots) more e = has_http-append slots more e

pub has_http-last : (slots : List Slot) → has_http (slots ++ (http_slot ∷ [])) ≡ true
has_http-last [] = refl
has_http-last (http_slot ∷ slots) = refl
has_http-last (ws_slot ∷ slots) = has_http-last slots
has_http-last (http_auth_slot ∷ slots) = has_http-last slots
has_http-last (ws_auth_slot ∷ slots) = has_http-last slots

abbrev pub IsListening : Node → Type 0
IsListening n = is_some n.http.listener ≡ true

start-listening_already :
    (listen : Bytes → Option Bytes)
    → (h : HttpServer) → is_some h.listener ≡ true
    → is_some (start listen h).1.listener ≡ true
unfolding start
start-listening_already listen h ok = ground (arith, ok)

start-now_listening :
    (listen : Bytes → Option Bytes)
    → (h : HttpServer) → is_empty h.endpoint ≡ false
    → (start listen h).0 ≡ none
    → is_some (start listen h).1.listener ≡ true
unfolding start
start-now_listening listen h ok fine = elim (Bool-cases (is_some h.listener)) [
  | inl e ↦ ground (arith, e)
  | inr e ↦ elim (Option-cases (listen h.endpoint)) [
    | inl f ↦ ground (arith, e, f, ok)
    | inr (x, f) ↦ ground (arith, e, f, ok)
  ]
]

start-Keeps-IsListening :
    (world : World) → (slot : Slot) → Keeps IsListening (on_server slot (start world.listen))
start-Keeps-IsListening world http_slot n ok = start-listening_already world.listen n.http ok
start-Keeps-IsListening world ws_slot n ok = ok
start-Keeps-IsListening world http_auth_slot n ok = ok
start-Keeps-IsListening world ws_auth_slot n ok = ok

start_servers-Keeps-IsListening :
    (world : World) → (slots : List Slot) → Keeps IsListening (start_servers world slots)
start_servers-Keeps-IsListening world [] n ok = ok
start_servers-Keeps-IsListening world (slot ∷ slots) n ok =
    and_then-Keeps IsListening (on_server slot (start world.listen)) (start_servers world slots)
      (start-Keeps-IsListening world slot) (start_servers-Keeps-IsListening world slots) n ok

on_http-none :
    (op : HttpServer → Option HttpError × HttpServer)
    → (n : Node) → (on_server http_slot op n).0 ≡ none
    → (op n.http).0 ≡ none
on_http-none op n fine = elim (Option-cases (op n.http).0) [ inl e ↦ e | inr (x, e) ↦ ground arith ]

pub start_servers-IsListening :
    (world : World)
    → (slots : List Slot) → (n : Node) → HasEndpoint n
    → has_http slots ≡ true
    → (start_servers world slots n).0 ≡ none
    → IsListening (start_servers world slots n).1
start_servers-IsListening world [] n at has fine = ground arith
start_servers-IsListening world (http_slot ∷ slots) n at has fine =
    let run = on_server http_slot (start world.listen) in
    let (first, rest, same) = and_then-none run (start_servers world slots) n fine in
    let up =
      start-now_listening world.listen n.http at (on_http-none (start world.listen) n first) in
    subst IsListening (sym same) (start_servers-Keeps-IsListening world slots (run n).1 up)
start_servers-IsListening world (ws_slot ∷ slots) n at has fine =
    let run = on_server ws_slot (start world.listen) in
    let (first, rest, same) = and_then-none run (start_servers world slots) n fine in
    subst IsListening (sym same) (start_servers-IsListening world slots (run n).1 at has rest)
start_servers-IsListening world (http_auth_slot ∷ slots) n at has fine =
    let run = on_server http_auth_slot (start world.listen) in
    let (first, rest, same) = and_then-none run (start_servers world slots) n fine in
    subst IsListening (sym same) (start_servers-IsListening world slots (run n).1 at has rest)
start_servers-IsListening world (ws_auth_slot ∷ slots) n at has fine =
    let run = on_server ws_auth_slot (start world.listen) in
    let (first, rest, same) = and_then-none run (start_servers world slots) n fine in
    subst IsListening (sym same) (start_servers-IsListening world slots (run n).1 at has rest)

-- The HTTP server is to be started, and has an endpoint.
pub record IsPrepared (b : Boot) : Type 0 where
  pub endpoint : HasEndpoint b.node
  pub listed : has_http b.servers ≡ true

pub adding-Keeps :
    (slot : Slot) → (step : Step) → Keeps HasEndpoint step → Keeps IsPrepared (adding slot step)
adding-Keeps slot step keep b ok = record {
  endpoint = keep b.node ok.endpoint;
  listed = has_http-append b.servers (slot ∷ []) ok.listed;
}
