-- ===== src/Store.antt =====
-- crates/sandstorm-core/src/state.rs: the rows of the master's tables, and the tables together.
-- A table is the list of its rows. Times are seconds since the epoch. A pressure average is in
-- hundredths, the two decimals that the kernel prints.
pub mod Sandboxes
pub mod Slots
pub mod Tokens
pub mod Nodes
pub mod Pools
pub mod Snapshots
use forkd.Prelude.{ℕ, String, Bool, Option, List}
use forkd.Tier.{Tier}
use forkd.Proto.{Egress, HostInfo}

-- A sandbox as the master wants it to be.
pub record Sandbox : Type 0 where
  pub id : String
  pub node_id : String
  pub pool : String
  pub template : String
  pub tier : Tier
  pub token : String
  pub volume : Option String
  pub port : Option ℕ
  pub gateway_port : Option ℕ
  pub created_at : ℕ
  pub last_active_at : ℕ
  pub last_error : Option String
  pub error_attempts : ℕ
  pub net_index : Option ℕ
  pub ip : Option String
  pub from_tag : Option String
  pub memory_limit_mib : Option ℕ
  pub egress : Egress

-- A row of `nodes`: the columns of `Node`, and those that the agent and certificate queries read.
pub record Node : Type 0 where
  pub id : String
  pub pool : String
  pub fingerprint : String
  pub max_sandboxes : ℕ
  pub last_seen_at : ℕ
  pub connected : Bool
  pub free_mib : ℕ
  pub psi_some_avg10 : ℕ
  pub cert_sha256 : Option String
  pub revoked : Bool
  pub agent_address : Option String
  pub agent_cert_sha256 : String
  pub agent_secret : String
  pub host : Option HostInfo

pub record AgentNode : Type 0 where
  pub id : String
  pub address : String
  pub cert_sha256 : String
  pub secret : String

pub record SnapshotTag : Type 0 where
  pub tag : String
  pub node_id : String
  pub template : String
  pub from_sandbox : Option String
  pub created_at : ℕ
  pub size_bytes : ℕ
  pub port : Option ℕ

-- A row of `snapshots`: the tag, and the column that the fingerprint queries read.
pub record SnapshotRow : Type 0 where
  pub snapshot : SnapshotTag
  pub open snapshot use *
  pub fingerprint : Option String

pub record PoolStretch : Type 0 where
  pub node : String
  pub pool : String
  pub since : ℕ
  pub until : Option ℕ

-- A row of `node_tokens`.
pub record NodeToken : Type 0 where
  pub token : String
  pub pool : String
  pub expires_at : ℕ
  pub consumed_at : Option ℕ
  pub node_id : Option String

-- A row of `templates`.
pub record Template : Type 0 where
  pub name : String
  pub rootfs : String
  pub spec : String
  pub created_at : ℕ
  pub image : Option String
  pub attempt : ℕ

pub record PullRow : Type 0 where
  pub template : String
  pub node_id : String
  pub attempt : ℕ
  pub done : Bool
  pub error : Option String

pub data CertOwner : Type 0 where
  node : String → CertOwner
  revoked : String → CertOwner
  unknown : CertOwner

pub record Store : Type 0 where
  pub sandboxes : List Sandbox
  pub nodes : List Node
  pub node_pools : List PoolStretch
  pub node_tokens : List NodeToken
  pub snapshots : List SnapshotRow
  pub templates : List Template
  pub template_pulls : List PullRow
  pub default_egress : Option Egress
