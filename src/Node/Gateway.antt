-- ===== src/Node/Gateway.antt =====
-- crates/sandstorm-core/src/node/gateway.rs: the listeners of a node, `Gateway::reconcile` and `Gateway::expose`. A listener's
-- task and its channel are not modelled, but for whether the task has ended; what binding a port answers, try by try,
-- is a parameter.
pub mod Served
pub mod Steps
pub mod Ports
pub mod Requests
pub mod Proxy
use forkd.Prelude.{
  ℕ, suc, zero, ◌-◌, String, Bool, true, false, not, ◌&&◌, ◌||◌, Option, none, some, List, [], ◌∷◌,
  any, retain, same, ◌==◌, if◌then◌else◌,
}
use forkd.Maps.{get, put, remove}

pub record Exposed : Type 0 where
  pub id : String
  pub gateway_port : ℕ
  pub sandbox_ip : ℕ
  pub sandbox_port : ℕ
  pub token : String

-- What a request is answered by; the token may change while it is listened on.
pub record Target : Type 0 where
  pub id : String
  pub sandbox_ip : ℕ
  pub sandbox_port : ℕ
  pub token : String

pub record Live : Type 0 where
  pub exposed : Exposed
  pub target : Target

abbrev pub Listeners : Type 0
Listeners = List (String × Live)

-- The two exposures want the same socket.
unfoldable pub same_binding : Exposed → Exposed → Bool
same_binding a b =
    (a.gateway_port == b.gateway_port)
    && (a.sandbox_ip == b.sandbox_ip)
    && (a.sandbox_port == b.sandbox_port)

pub data Bound : Type 0 where
  bound in_use failed : Bound

abbrev pub bind_tries : ℕ
bind_tries = 20

abbrev is_bound : Bound → Bool
is_bound bound = true
is_bound _ = false

-- A port in use is tried again, the last time whatever comes of it; `left` tries are left after this one.
unfoldable pub bind_from : (ℕ → Bound) → ℕ → ℕ → Bool
bind_from tries n zero = is_bound (tries n)
bind_from tries n (suc left) = elim (tries n) [
  | in_use ↦ bind_from tries (suc n) left
  | bound ↦ true
  | failed ↦ false
]

unfoldable pub bind_soon : (ℕ → Bound) → Bool
unfolding bind_from
bind_soon tries = bind_from tries 0 (bind_tries - 1)

unfoldable pub target_of : Exposed → Target
target_of e = record {
  id = e.id;
  sandbox_ip = e.sandbox_ip;
  sandbox_port = e.sandbox_port;
  token = e.token;
}

unfoldable pub wanted_of : List Exposed → List (String × Exposed) → List (String × Exposed)
wanted_of [] m = m
wanted_of (e ∷ es) m = wanted_of es (put e.id e m)

abbrev rebinds : Option Exposed → Live → Bool
rebinds none live = true
rebinds (some w) live = not (same_binding w live.exposed)

-- Gone, or bound to something else, or ended.
unfoldable pub stale : (String → Bool) → List Exposed → String × Live → Bool
unfolding same_binding wanted_of
stale ended want (id, live) = ended id || rebinds (get id (wanted_of want [])) live

unfoldable pub holds_port : ℕ → Listeners → Bool
holds_port port running = any (λ l. l.1.exposed.gateway_port == port) running

unfoldable pub rotated : Live → Exposed → Live
rotated live e =
    if same live.exposed.token e.token
    then live
    else record { exposed = e; target = record live.target { token = e.token } }

module _ (tries : Exposed → ℕ → Bound) where
  unfoldable pub start : Listeners → Exposed → Listeners
  unfolding bind_soon target_of
  start running e =
      if bind_soon (tries e)
      then put e.id (record { exposed = e; target = target_of e }) running
      else running

  unfoldable pub serve_one : Listeners → Exposed → Listeners
  unfolding start rotated holds_port
  serve_one running e = elim (get e.id running) [
    | some live ↦ put e.id (rotated live e) running
    | none ↦ if holds_port e.gateway_port running then running else start running e
  ]

  unfoldable pub serve_each : Listeners → List Exposed → Listeners
  unfolding serve_one
  serve_each running [] = running
  serve_each running (e ∷ es) = serve_each (serve_one running e) es

  unfoldable pub reconcile : (String → Bool) → Listeners → List Exposed → Listeners
  unfolding serve_each stale
  reconcile ended running want = serve_each (retain (λ l. not (stale ended want l)) running) want

  -- Whatever holds the port is on its way out.
  unfoldable pub expose : Listeners → Exposed → Listeners
  unfolding start
  expose running e = elim (get e.id running) [
    | some live ↦ running
    | none ↦ start (retain (λ l. not (l.1.exposed.gateway_port == e.gateway_port)) running) e
  ]
