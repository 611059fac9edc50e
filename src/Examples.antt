-- ===== src/Examples.antt =====
-- A small fleet: two nodes of one pool, three sandboxes, and the reports of a node. The modules below
-- run the code on it, and apply the theorems to it.
mod Tables
mod Rules
mod Pools
mod Control
mod Hosts
mod Walls
mod Relays
mod Envs
mod Wakes
mod Offers
mod Fleet
mod Branching
mod Joining
use Prim.Native.String.{◌++◌}
use forkd.Prelude.{ℕ, String, Bool, true, false, Option, none, some, List, [], ◌∷◌}
use forkd.Tier.{Tier, hot, frozen, snapshot, default_policy}
use forkd.Proto.{
  Egress, HostInfo, ObservedSandbox, CommandFailure, Deferred, PollRequest, Command, exec,
}
use forkd.Store.{Sandbox, Node, NodeToken, Store}
use forkd.Master.{MasterState, default_admission}
use forkd.Master.Reconcile.{Specs}

abbrev pub closed : Egress
closed = record { internet = false; allow = []; deny = [] }

abbrev pub sandbox_at : String → String → Tier → ℕ → Sandbox
sandbox_at id node_id tier net_index = record {
  id = id;
  node_id = node_id;
  pool = "east";
  template = "web";
  tier = tier;
  token = "t";
  volume = none;
  port = none;
  gateway_port = none;
  created_at = net_index;
  last_active_at = 100;
  last_error = some "no memory";
  error_attempts = 2;
  net_index = some net_index;
  ip = none;
  from_tag = none;
  memory_limit_mib = none;
  egress = closed;
}

abbrev pub node_at : String → ℕ → Node
node_at id cap = record {
  id = id;
  pool = "east";
  fingerprint = "aaaaaaaa1";
  max_sandboxes = cap;
  last_seen_at = 0;
  connected = true;
  free_mib = 2000;
  psi_some_avg10 = 10;
  cert_sha256 = none;
  revoked = false;
  agent_address = none;
  agent_cert_sha256 = "";
  agent_secret = "";
  host = none;
}

abbrev pub web_1 : Sandbox
web_1 = sandbox_at "web-1" "n1" hot 1

abbrev pub web_2 : Sandbox
web_2 = sandbox_at "web-2" "n1" frozen 3

abbrev pub web_3 : Sandbox
web_3 = sandbox_at "web-3" "n2" hot 1

abbrev pub token_row : NodeToken
token_row = record {
  token = "join";
  pool = "east";
  expires_at = 500;
  consumed_at = none;
  node_id = none;
}

abbrev pub fleet : Store
fleet = record {
  sandboxes = web_1 ∷ web_2 ∷ web_3 ∷ [];
  nodes = node_at "n1" 4 ∷ node_at "n2" 4 ∷ [];
  node_pools = [];
  node_tokens = token_row ∷ [];
  snapshots = [];
  templates =
      record {
        name = "web";
        rootfs = "rootfs";
        spec = "{}";
        created_at = 0;
        image = none;
        attempt = 1;
      }
      ∷ [];
  template_pulls = [];
  default_egress = none;
}

abbrev pub master : MasterState String
master = record {
  store = fleet;
  idle = default_policy;
  port_range = (20000, 20100);
  max_net_index = 4;
  admit = default_admission;
  woken = [];
  exec_queue = [];
  explicit_tier = [];
  switching = [];
  node_templates = [];
  node_hosts = [];
  node_features = ("n3", "backend-switch" ∷ []) ∷ [];
  node_addrs = [];
}

abbrev pub seen : String → Tier → ObservedSandbox
seen id tier = record {
  id = id;
  tier = tier;
  serving = true;
  ip = none;
  net_index = some 1;
  egress = none;
}

-- n1 holds web-1, put to disk, and a sandbox that nobody wants; it lacks web-2.
abbrev pub report : PollRequest
report = record {
  node_id = "n1";
  observed = seen "web-1" snapshot ∷ seen "old" hot ∷ [];
  free_memory_mib = 1500;
  pressure_some_avg10 = 20;
  hold_ms = none;
  failures = record { id = "web-2"; error = "no room"; attempts = 3; held_back = true } ∷ [];
  deferred = record { id = "web-2"; retry_in_ms = 6 } ∷ [];
  traffic = "web-1" ∷ [];
  evicted = "web-1" ∷ [];
  features = [];
  tags = [];
  host = none;
  fingerprint = none;
  templates = none;
  pulls = [];
}

abbrev pub plain_specs : Specs String
plain_specs = record {
  spec_of = λ spec limit. spec;
  is_pending = λ spec. false;
  spec_has_args = λ spec. true;
  finished_spec = λ spec config. spec;
}

abbrev pub plain_sign : String → String → String → ℕ → String
plain_sign secret tag node expires = secret ++ tag ++ node

abbrev pub ls : Command String
ls = exec "e1" "web-1" ("ls" ∷ []) 30
