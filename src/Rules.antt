-- ===== src/Rules.antt =====
-- crates/sandstorm-core/src/proto.rs (`canonical`, `canonical_cidr`) and master/api.rs (`EgressChange`,
-- `set_default_egress`, `set_sandbox_egress`): what a sandbox may reach. How the standard library trims, parses and
-- prints is a parameter.
pub mod Canonical
use Prim.Native.Char.{Char, code}
use Prim.Native.String.{◌++◌ as ◌+++◌}
use forkd.Prelude.{
  ℕ, ◌+◌, ◌-◌, ◌*◌, ◌/◌, ◌^◌, String, Bool, Option, none, some, List, [], ◌∷◌, ◌++◌, any, leb,
  length, same, ◌==◌, if◌then◌else◌,
}
use forkd.Proto.{Egress}
use forkd.Store.{Sandbox, Store}
use forkd.Store.Sandboxes.{get_sandbox, set_sandbox_egress}
use forkd.Master.{MasterState, wake_node}
use forkd.Master.Create.Batch.{default_rules}

abbrev pub max_egress_entries : ℕ
max_egress_entries = 64

-- The standard library's trimming of a text, and its parsing and printing of an address and of a number.
pub record Addresses : Type 0 where
  pub trim : String → String
  pub parse_addr : String → Option ℕ
  pub parse_u32 : String → Option ℕ
  pub print_addr : ℕ → String
  pub print_u32 : ℕ → String

abbrev prefixed : Option (String × String) → Char → Option (String × String)
prefixed none c = none
prefixed (some (front, rest)) c = some (String.◌∷◌ c front, rest)

-- `split_once('/')`.
unfoldable pub split_slash : String → Option (String × String)
split_slash String.[] = none
split_slash (String.◌∷◌ c s) =
    let rest = split_slash s in if code c == b'/' then some (String.[], s) else prefixed rest c

-- An address alone is a range of one.
abbrev pub or_single : String → Option (String × String) → String × String
or_single entry none = (entry, "32")
or_single entry (some parts) = parts

abbrev pub at_most_32 : Option ℕ → Option ℕ
at_most_32 none = none
at_most_32 (some p) = if leb p 32 then some p else none

-- The address with the bits after its prefix cleared.
unfoldable pub masked : ℕ → ℕ → ℕ
masked addr prefix = addr / 2 ^ (32 - prefix) * 2 ^ (32 - prefix)

-- What a change names is replaced, the rest stays.
pub record EgressChange : Type 0 where
  pub internet : Option Bool
  pub allow : Option (List String)
  pub deny : Option (List String)

abbrev or_old : {A : Type 0} → Option A → A → A
or_old none old = old
or_old (some new) old = new

pub data EgressAnswer : Type 0 where
  no_sandbox bad_rules : EgressAnswer
  now_allowed : Egress → EgressAnswer

module _ (ad : Addresses) where
  unfoldable pub print_cidr : ℕ → ℕ → String
  print_cidr addr prefix = ad.print_addr addr +++ "/" +++ ad.print_u32 prefix

  abbrev pub cidr_of : Option ℕ → Option ℕ → Option String
  unfolding masked print_cidr
  cidr_of none prefix = none
  cidr_of (some addr) none = none
  cidr_of (some addr) (some prefix) = some (print_cidr (masked addr prefix) prefix)

  unfoldable pub canonical_cidr : String → Option String
  unfolding split_slash cidr_of
  canonical_cidr entry =
      let (addr, prefix) = or_single (ad.trim entry) (split_slash (ad.trim entry)) in
      cidr_of (ad.parse_addr addr) (at_most_32 (ad.parse_u32 prefix))

  -- Each entry in its canonical form, once.
  unfoldable pub canonical_list : List String → List String → Option (List String)
  unfolding canonical_cidr
  canonical_list [] out = some out
  canonical_list (e ∷ es) out = elim (canonical_cidr e) [
    | none ↦ none
    | some c ↦ canonical_list es (if any (same c) out then out else out ++ (c ∷ []))
  ]

  unfoldable pub canonical : Egress → Option Egress
  unfolding canonical_list
  canonical e =
      if leb (length e.allow + length e.deny) max_egress_entries
      then elim (canonical_list e.allow []) [
        | none ↦ none
        | some allow ↦ elim (canonical_list e.deny []) [
          | none ↦ none
          | some deny ↦ some (record { internet = e.internet; allow = allow; deny = deny })
        ]
      ]
      else none

  unfoldable pub applied_to : EgressChange → Egress → Option Egress
  unfolding canonical
  applied_to change e = canonical (record {
    internet = or_old change.internet e.internet;
    allow = or_old change.allow e.allow;
    deny = or_old change.deny e.deny;
  })

  -- For sandboxes created from now on.
  unfoldable pub change_default_egress : Store → EgressChange → Store × Option Egress
  unfolding applied_to
  change_default_egress st change = elim (applied_to change (default_rules st.default_egress)) [
    | none ↦ (st, none)
    | some e ↦ (record st { default_egress = some e }, some e)
  ]

  unfoldable pub change_sandbox_egress :
      {V : Type 0} → MasterState V → String → EgressChange → MasterState V × EgressAnswer
  unfolding applied_to
  change_sandbox_egress st id change = elim (get_sandbox st.store id) [
    | none ↦ (st, no_sandbox)
    | some sb ↦ elim (applied_to change sb.egress) [
      | none ↦ (st, bad_rules)
      | some e ↦ (
        wake_node (record st { store = (set_sandbox_egress st.store id e).0 }) sb.node_id,
        now_allowed e,
      )
    ]
  ]
