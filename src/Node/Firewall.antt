-- ===== src/Node/Firewall.antt =====
-- crates/sandstorm-core/src/node/net.rs: `egress_rules`, `egress_script` and `EgressRules`. A rule is a value with the
-- parts that are put into its text, an address its number. The kernel, with the program that changes it, is a parameter.
pub mod Chains
pub mod Holds
pub mod Keeps
pub mod Walk
use forkd.Prelude.{
  ℕ, String, Bool, true, false, not, ◌&&◌, ◌||◌, Option, none, some, List, [], ◌∷◌, ◌++◌, map, same,
  ◌==◌, any, if◌then◌else◌,
}
use forkd.Maps.{get, put, remove}
use forkd.Proto.{Egress, is_closed}

-- Packets from an address are accepted, or dropped, on their way to a range; or go through the public chain.
pub data Rule : Type 0 where
  accept_to : (source : ℕ) (target : String) → Rule
  drop_to : (source : ℕ) (target : String) → Rule
  public : (source : ℕ) → Rule

pub data Line : Type 0 where
  delete append : Rule → Line

abbrev pub source_of : Rule → ℕ
source_of (accept_to ip c) = ip
source_of (drop_to ip c) = ip
source_of (public ip) = ip

unfoldable pub rule_eq : Rule → Rule → Bool
rule_eq (accept_to ip c) (accept_to ip' c') = (ip == ip') && same c c'
rule_eq (drop_to ip c) (drop_to ip' c') = (ip == ip') && same c c'
rule_eq (public ip) (public ip') = ip == ip'
rule_eq _ _ = false

unfoldable pub rules_eq : List Rule → List Rule → Bool
unfolding rule_eq
rules_eq [] [] = true
rules_eq (r ∷ rs) (t ∷ ts) = rule_eq r t && rules_eq rs ts
rules_eq _ _ = false

abbrev pub not_public : List String
not_public =
    "0.0.0.0/8" ∷ "10.0.0.0/8" ∷ "100.64.0.0/10" ∷ "127.0.0.0/8" ∷ "169.254.0.0/16"
    ∷ "172.16.0.0/12" ∷ "192.0.0.0/24" ∷ "192.168.0.0/16" ∷ "198.18.0.0/15" ∷ "224.0.0.0/4"
    ∷ "240.0.0.0/4" ∷ []

-- The public chain gives back what is not for the internet, and accepts the rest.
pub data PublicRule : Type 0 where
  give_back : (target : String) → PublicRule
  accept_all : PublicRule

unfoldable pub public_rules : List PublicRule
public_rules = map give_back not_public ++ (accept_all ∷ [])

-- What is put before the host's own rules on packets that it passes on. `jump` goes to the rules of the sandboxes.
pub data ForwardRule : Type 0 where
  accept_replies jump reject_from drop_from drop_to_any : ForwardRule

unfoldable pub forward_rules : List ForwardRule
forward_rules = accept_replies ∷ jump ∷ reject_from ∷ drop_from ∷ drop_to_any ∷ []

-- One sandbox's rules, in the order in which they are walked.
unfoldable pub egress_rules : ℕ → Egress → List Rule
egress_rules ip e =
    map (accept_to ip) e.allow
    ++ (if e.internet then map (drop_to ip) e.deny ++ (public ip ∷ []) else [])

abbrev pub rules_of : Option (ℕ × Egress) → List Rule
rules_of none = []
rules_of (some (ip, e)) = egress_rules ip e

unfoldable pub egress_script : Option (ℕ × Egress) → ℕ → Egress → List Line
egress_script old ip new = map delete (rules_of old) ++ map append (egress_rules ip new)

abbrev pub closed : Egress
closed = record { internet = false; allow = []; deny = [] }

abbrev no_entries : List String → Bool
no_entries [] = true
no_entries _ = false

abbrev pub is_default : Egress → Bool
is_default e = not e.internet && no_entries e.allow && no_entries e.deny

-- `iptables-restore` on a script, and turning on forwarding: the kernel after it, and whether it went well.
pub record Kernel (K : Type 0) : Type 0 where
  pub restore : K → List Line → K × Bool
  pub enable_forwarding : K → K × Bool

-- What a node has installed, by sandbox.
abbrev pub Installed : Type 0
Installed = List (String × (ℕ × Egress))

abbrev pub or_closed : Option (ℕ × Egress) → Egress
or_closed none = closed
or_closed (some (ip, e)) = e

unfoldable pub of_sandbox : Installed → String → Egress
of_sandbox m id = or_closed (get id m)

module _ {K : Type 0} (kern : Kernel K) where
  abbrev forwarded : K → Egress → K × Bool
  forwarded k want = if is_closed want then (k, true) else kern.enable_forwarding k

  -- The rules in the kernel, changed where they differ.
  unfoldable pub change : K → Option (ℕ × Egress) → ℕ → Egress → K × Bool
  unfolding rules_eq egress_rules egress_script is_closed
  change k old ip want =
      if rules_eq (rules_of old) (egress_rules ip want)
      then (k, true)
      else (let (k', on) = forwarded k want in
          if on then kern.restore k' (egress_script old ip want) else (k', false))

  unfoldable pub set : K → Installed → String → ℕ → Egress → K × Installed × Bool
  unfolding change
  set k m id ip want =
      let (k', fine) = change k (get id m) ip want in
      (
        k',
        (if fine then (if is_default want then remove id m else put id (ip, want) m) else m),
        fine,
      )

  unfoldable pub clear : K → Installed → String → K × Installed × Bool
  unfolding egress_script
  clear k m id = elim (get id m) [
    | none ↦ (k, m, true)
    | some (ip, e) ↦
        let (k', fine) = kern.restore k (egress_script (some (ip, e)) ip closed) in
        (k', (if fine then remove id m else m), fine)
  ]
