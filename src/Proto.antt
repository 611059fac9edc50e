-- ===== src/Proto.antt =====
-- crates/sandstorm-core/src/proto.rs: what a master and a node say to each other. `V` stands for
-- `serde_json::Value`, the type of a template's spec on the wire. `retry_in_ms` and the like are in
-- milliseconds, and a pressure average in hundredths.
use forkd.Prelude.{ℕ, String, Bool, Option, List, not, ◌&&◌, [], false}
use forkd.Tier.{Tier}

pub record HostInfo : Type 0 where
  pub engine : String
  pub kernel : String
  pub cpu_vendor : String
  pub cpu_model : String
  pub cpu_flags : String

pub record Egress : Type 0 where
  pub internet : Bool
  pub allow : List String
  pub deny : List String

abbrev is_empty : List String → Bool
is_empty [] = Bool.true
is_empty _ = false

-- Whether it opens nothing, and so needs no rule on the node.
unfoldable pub is_closed : Egress → Bool
is_closed e = not e.internet && is_empty e.allow

pub record ObservedSandbox : Type 0 where
  pub id : String
  pub tier : Tier
  pub serving : Bool
  pub ip : Option String
  pub net_index : Option ℕ
  pub egress : Option Egress

pub record CommandFailure : Type 0 where
  pub id : String
  pub error : String
  pub attempts : ℕ
  pub held_back : Bool

pub record Deferred : Type 0 where
  pub id : String
  pub retry_in_ms : ℕ

pub record ImageConfig : Type 0 where
  pub args : List String
  pub env : List String
  pub cwd : Option String
  pub port : Option ℕ

pub record TemplatePull : Type 0 where
  pub name : String
  pub image : String
  pub attempt : ℕ
  pub done : Bool
  pub error : Option String
  pub config : Option ImageConfig

pub record FetchFrom : Type 0 where
  pub node_id : String
  pub address : String
  pub cert_sha256 : String
  pub for_node : String
  pub expires : ℕ
  pub token : String

pub record PollRequest : Type 0 where
  pub node_id : String
  pub observed : List ObservedSandbox
  pub free_memory_mib : ℕ
  pub pressure_some_avg10 : ℕ
  pub hold_ms : Option ℕ
  pub failures : List CommandFailure
  pub deferred : List Deferred
  pub traffic : List String
  pub evicted : List String
  pub features : List String
  pub tags : List String
  pub host : Option HostInfo
  pub fingerprint : Option String
  pub templates : Option (List String)
  pub pulls : List TemplatePull

-- The fields of `Command::Create`.
pub record CreateArgs (V : Type 0) : Type 0 where
  pub id : String
  pub template : String
  pub spec : V
  pub port : ℕ
  pub volume : Option String
  pub net_index : Option ℕ
  pub from_tag : Option String
  pub gateway_port : Option ℕ
  pub token : String
  pub fetch : Option FetchFrom
  pub egress : Egress

pub data Command (V : Type 0) : Type 0 where
  create : CreateArgs V → Command V
  pull_template : (name image : String) (attempt : ℕ) → Command V
  set_egress : (id : String) → Egress → Command V
  set_tier : (id : String) → Tier → Command V
  destroy : (id : String) (net_index : Option ℕ) → Command V
  branch : (id tag result_id : String) → Command V
  drop_tag : (tag : String) → Command V
  exec : (exec_id id : String) (args : List String) (timeout_secs : ℕ) → Command V
  set_backend : (backend result_id : String) → Command V

-- crates/sandstorm-core/src/node/mod.rs: what the failure and deferral books file a command under.
unfoldable pub command_id : {V : Type 0} → Command V → String
command_id (create c) = c.id
command_id (set_egress id _) = id
command_id (set_tier id _) = id
command_id (destroy id _) = id
command_id (branch id _ _) = id
command_id (exec _ id _ _) = id
command_id (drop_tag tag) = tag
command_id (pull_template name _ _) = name
command_id (set_backend _ result_id) = result_id

pub data ℤ : Type 0 where
  pos : ℕ → ℤ
  negsuc : ℕ → ℤ

pub record CommandResult : Type 0 where
  pub result_id : String
  pub stdout : String
  pub stderr : String
  pub exit_code : ℤ
  pub size_bytes : ℕ
