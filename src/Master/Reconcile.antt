-- ===== src/Master/Reconcile.antt =====
-- crates/sandstorm-core/src/master/api.rs: desired state less what the node reports holding. What the
-- source does to a template's spec as JSON, and the signature of a fetch token, are parameters.
pub mod Diff
pub mod Kinds
pub mod Parts
pub mod Desired
use forkd.Prelude.{
  ℕ, ◌+◌, ◌*◌, ◌/◌, String, Bool, true, false, not, ◌&&◌, ◌||◌, Option, none, some, List, [], ◌∷◌,
  ◌++◌, leb, ltb, same, ◌==◌, any, find, retain, if◌then◌else◌,
}
use forkd.Tier.{Tier, detached, tier_eq}
use forkd.Proto.{
  Command, CreateArgs, Egress, FetchFrom, HostInfo, ImageConfig, ObservedSandbox, PollRequest,
  TemplatePull, create, destroy, drop_tag, pull_template, set_egress, set_tier,
}
use forkd.Tag.{fetch_expiry}
use forkd.Store.{AgentNode, PullRow, Sandbox, SnapshotTag, Store, Template}
use forkd.Store.Sandboxes.{is_some, sandboxes_on_node, set_sandbox_ip}
use forkd.Store.Nodes.{agent_node, set_node_health, set_node_host}
use forkd.Store.Pools.{refingerprint_node}
use forkd.Store.Snapshots.{get_snapshot, get_template, record_pull, set_template_spec}
use forkd.Backend.{backend_eq, backend_of_engine}
use forkd.Master.{MasterState, default_sandbox_port, get, max_failures, put, remove}
use forkd.Master.Reports.{observes}

-- What is made of a template's spec: the value with the caller's memory ceiling over the template's,
-- whether a pull is pending, whether it names a program, and the spec that a pull completes.
pub record Specs (V : Type 0) : Type 0 where
  pub spec_of : String → Option ℕ → V
  pub is_pending : String → Bool
  pub spec_has_args : String → Bool
  pub finished_spec : String → ImageConfig → String

-- Equality of rules, as derived.
unfoldable pub texts_eq : List String → List String → Bool
texts_eq [] [] = true
texts_eq [] (y ∷ ys) = false
texts_eq (x ∷ xs) [] = false
texts_eq (x ∷ xs) (y ∷ ys) = same x y && texts_eq xs ys

abbrev bool_eq : Bool → Bool → Bool
bool_eq true b = b
bool_eq false b = not b

unfoldable pub egress_eq : Egress → Egress → Bool
unfolding texts_eq
egress_eq a b = bool_eq a.internet b.internet && texts_eq a.allow b.allow && texts_eq a.deny b.deny

unfoldable pub host_eq : HostInfo → HostInfo → Bool
host_eq a b =
    same a.engine b.engine
    && same a.kernel b.kernel
    && same a.cpu_vendor b.cpu_vendor
    && same a.cpu_model b.cpu_model
    && same a.cpu_flags b.cpu_flags

abbrev is_desired : List Sandbox → String → Bool
is_desired desired id = any (λ d. same d.id id) desired

-- The addresses that the node reports.
unfoldable pub note_ips : List ObservedSandbox → Store → Store
note_ips [] st = st
note_ips (o ∷ os) st = note_ips os (elim o.ip [ none ↦ st | some ip ↦ set_sandbox_ip st o.id ip ])

module _ {V : Type 0} (specs : Specs V) (sign : String → String → String → ℕ → String) where
  -- Where `node` fetches `tag`'s image from, when it is not the node that baked it.
  unfoldable pub fetch_from : Store → String → String → ℕ → Option FetchFrom
  fetch_from st tag node now = elim (get_snapshot st tag) [
    | none ↦ none
    | some snap ↦ if same snap.node_id node then none else elim (agent_node st snap.node_id) [
      | none ↦ none
      | some src ↦ some (record {
        node_id = src.id;
        address = src.address;
        cert_sha256 = src.cert_sha256;
        for_node = node;
        expires = fetch_expiry now;
        token = sign src.secret tag node (fetch_expiry now);
      })
    ]
  ]

  abbrev or_port : Option ℕ → ℕ
  or_port none = default_sandbox_port
  or_port (some p) = p

  abbrev fetch_of : Store → Option String → String → ℕ → Option FetchFrom
  fetch_of st none node now = none
  fetch_of st (some tag) node now = fetch_from st tag node now

  -- The `Create` of a sandbox that the node does not hold; none when its template is gone.
  unfoldable pub create_for : Store → String → ℕ → Sandbox → List (Command V)
  unfolding fetch_from
  create_for st node now want = elim (get_template st want.template) [
    | none ↦ []
    | some (_, spec) ↦
        create (record {
          id = want.id;
          template = want.template;
          spec = specs.spec_of spec want.memory_limit_mib;
          port = or_port want.port;
          volume = want.volume;
          net_index = want.net_index;
          from_tag = want.from_tag;
          gateway_port = want.gateway_port;
          token = want.token;
          fetch = fetch_of st want.from_tag node now;
          egress = want.egress;
        })
        ∷ []
  ]

  abbrev pub rules_differ : Option Egress → Egress → Bool
  rules_differ none e = false
  rules_differ (some g) e = not (egress_eq g e)

  -- The commands for a sandbox that the node holds.
  unfoldable pub move_for : Sandbox → ObservedSandbox → List (Command V)
  move_for want got =
      (if tier_eq got.tier want.tier then [] else set_tier want.id want.tier ∷ [])
      ++ (if rules_differ got.egress want.egress then set_egress want.id want.egress ∷ [] else [])

  -- The commands for one sandbox that the node should hold.
  unfoldable pub commands_for : Store → PollRequest → ℕ → Sandbox → List (Command V)
  unfolding create_for move_for
  commands_for st req now want =
      if leb max_failures want.error_attempts
      then []
      else elim (find (observes want.id) req.observed) [
        | none ↦ if tier_eq want.tier detached then [] else create_for st req.node_id now want
        | some got ↦ move_for want got
      ]

  unfoldable pub wanted_commands : Store → PollRequest → ℕ → List Sandbox → List (Command V)
  wanted_commands st req now [] = []
  wanted_commands st req now (want ∷ rest) =
      commands_for st req now want ++ wanted_commands st req now rest

  -- Anything that the node holds and is no longer wanted.
  unfoldable pub destroys : List Sandbox → List ObservedSandbox → List (Command V)
  destroys desired [] = []
  destroys desired (got ∷ rest) =
      (if is_desired desired got.id then [] else destroy got.id got.net_index ∷ [])
      ++ destroys desired rest

  -- Images of tags that are gone.
  unfoldable pub dropped_tags : Store → List String → List (Command V)
  dropped_tags st [] = []
  dropped_tags st (tag ∷ tags) =
      (if is_some (get_snapshot st tag) then [] else drop_tag tag ∷ []) ++ dropped_tags st tags
