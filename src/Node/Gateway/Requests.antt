-- ===== src/Node/Gateway/Requests.antt =====
-- crates/sandstorm-core/src/node/gateway.rs (`requested_port`, `presented_token_matches`), proxy.rs (`strip_hop_by_hop`,
-- `wants_upgrade`) and auth.rs (`constant_time_eq`): the headers of a request.
pub mod Seen
use forkd.Prelude.{
  ℕ, suc, zero, ◌+◌, ◌*◌, ◌/◌, String, Bool, true, false, not, ◌&&◌, ◌||◌, Option, none, some, List,
  [], ◌∷◌, ◌++◌, length, any, all, retain, same, ltb, leb, min, ◌==◌, if◌then◌else◌, ◌⊎◌, inl, inr,
}
use forkd.Maps.{get}
use forkd.Node.Promotion.{Moment}
use forkd.Node.Wakeups.{Demand, Wakeups, saw_at, hold, let_go, in_use, nanos_per_s}
use forkd.Node.Gateway.{Target}

abbrev pub Headers : Type 0
Headers = List (String × String)

abbrev pub token_header : String
token_header = "x-sandstorm-token"

abbrev pub port_header : String
port_header = "x-sandstorm-port"

abbrev pub host_header : String
host_header = "host"

abbrev pub connection_header : String
connection_header = "connection"

abbrev pub upgrade_header : String
upgrade_header = "upgrade"

abbrev pub hop_by_hop : List String
hop_by_hop =
    "connection" ∷ "keep-alive" ∷ "proxy-connection" ∷ "proxy-authenticate" ∷ "proxy-authorization"
    ∷ "te" ∷ "trailer" ∷ "transfer-encoding" ∷ "upgrade" ∷ []

-- How the texts of headers are read: a value as text, its bytes, a number of 16 bits with blanks around it, and the
-- parts of a list as names in lower case. An address is printed with its port.
pub record Reading : Type 0 where
  pub to_str : String → Option String
  pub bytes : String → List ℕ
  pub parse_u16 : String → Option ℕ
  pub parts : String → List String
  pub print_addr : ℕ → ℕ → String

-- The first of two lists, cut or filled with zeros to the length of the second.
unfoldable pub padded : List ℕ → List ℕ → List ℕ
padded presented [] = []
padded [] (e ∷ es) = 0 ∷ padded [] es
padded (p ∷ ps) (e ∷ es) = p ∷ padded ps es

unfoldable pub bytes_eq : List ℕ → List ℕ → Bool
bytes_eq [] [] = true
bytes_eq (a ∷ as_bytes) (b ∷ bs) = (a == b) && bytes_eq as_bytes bs
bytes_eq _ _ = false

unfoldable pub constant_time_eq : List ℕ → List ℕ → Bool
unfolding padded bytes_eq
constant_time_eq presented expected =
    bytes_eq (padded presented expected) expected && (length presented == length expected)

abbrev pub or_blank : Option String → String
or_blank none = ""
or_blank (some s) = s

abbrev pub bind_option : {A B : Type 0} → Option A → (A → Option B) → Option B
bind_option none f = none
bind_option (some a) f = f a

-- `HeaderMap::remove` takes every value of a name.
unfoldable pub drop_header : String → Headers → Headers
drop_header n h = retain (λ e. not (same e.0 n)) h

unfoldable pub drop_each : List String → Headers → Headers
unfolding drop_header
drop_each [] h = h
drop_each (n ∷ ns) h = drop_each ns (drop_header n h)

unfoldable pub connection_parts : Reading → Headers → List String
connection_parts r [] = []
connection_parts r ((n, v) ∷ h) =
    (if same n connection_header then elim (r.to_str v) [ none ↦ [] | some s ↦ r.parts s ] else [])
    ++ connection_parts r h

abbrev pub kept_for_upgrade : Bool → String → Bool
kept_for_upgrade upgrading n = upgrading && (same n upgrade_header || same n connection_header)

unfoldable pub strip_hop_by_hop : Reading → Bool → Headers → Headers
unfolding drop_each connection_parts
strip_hop_by_hop r upgrading h =
    drop_each (retain (λ n. not (kept_for_upgrade upgrading n)) hop_by_hop)
      (drop_each (retain (λ n. not (kept_for_upgrade upgrading n)) (connection_parts r h)) h)

abbrev is_some : Option String → Bool
is_some none = false
is_some (some s) = true

unfoldable pub wants_upgrade : Reading → Headers → Bool
unfolding connection_parts
wants_upgrade r h =
    is_some (get upgrade_header h) && any (same upgrade_header) (connection_parts r h)

-- A request without a host gets the address that it goes to.
unfoldable pub with_host : Reading → ℕ → ℕ → Headers → Headers
with_host r ip port h =
    if is_some (get host_header h) then h else (host_header, r.print_addr ip port) ∷ h

unfoldable pub own_headers : Reading → Target → ℕ → Headers → Headers
unfolding with_host drop_header
own_headers r t port h =
    with_host r t.sandbox_ip port (drop_header port_header (drop_header token_header h))

-- The headers that the sandbox sees.
unfoldable pub forwarded : Reading → Target → ℕ → Headers → Headers
unfolding strip_hop_by_hop wants_upgrade own_headers
forwarded r t port h =
    strip_hop_by_hop r (wants_upgrade r (own_headers r t port h)) (own_headers r t port h)

unfoldable pub presented_token_matches : Reading → Headers → String → Bool
unfolding constant_time_eq
presented_token_matches r h expected =
    constant_time_eq (r.bytes (or_blank (bind_option (get token_header h) r.to_str)))
      (r.bytes expected)

pub data Port : Type 0 where
  as_created bad_port : Port
  named : ℕ → Port

abbrev port_of : Option ℕ → Port
port_of none = bad_port
port_of (some zero) = bad_port
port_of (some (suc p)) = named (suc p)

abbrev read_port : Reading → Option String → Port
read_port r none = as_created
read_port r (some v) = port_of (bind_option (r.to_str v) r.parse_u16)

unfoldable pub requested_port : Reading → Headers → Port
requested_port r h = read_port r (get port_header h)
