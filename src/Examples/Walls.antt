-- ===== src/Examples/Walls.antt =====
-- crates/sandstorm-core/src/node/net.rs: the slots of a small range, and the rules of one sandbox in a kernel that is its chain.
use forkd.Prelude.{
  All, find, leb, ◌&&◌, ◌||◌, ℕ, ◌+◌, ◌*◌, ◌<◌, ◌≡◌, refl, String, Bool, true, false, Option, none,
  some, List, [], ◌∷◌, same, ◌==◌, if◌then◌else◌, arith, Option-cases, inl, inr, retain,
}
use forkd.Maps.{get, put, remove}
use forkd.Proto.{Egress, is_closed}
use forkd.Node.Net.{NetConfig, Slot, slot}
use forkd.Node.Net.Slots.{Apart, slots-Apart}
use forkd.Node.Firewall.{
  Kernel, Rule, Line, Installed, set, clear, of_sandbox, egress_rules, change, rules_eq, rule_eq,
  egress_script, forward_rules,
}
use forkd.Node.Firewall.Chains.{run_script, from, delete_first}
use forkd.Node.Firewall.Holds.{Holds, Only}
use forkd.Node.Firewall.Keeps.{set-Holds, clear-Holds}
use forkd.Node.Firewall.Walk.{special_blocks, within, walk_forward, permits, walk-permits}

-- 64 addresses from 10.86.0.0 on.
abbrev small : NetConfig
small = record { base = 173408256; prefix = 26 }

abbrev tag : String → String
tag id = id

abbrev slot_of : ℕ → Slot
slot_of i = record {
  index = i;
  host_ip = 173408256 + i * 4 + 1;
  sandbox_ip = 173408256 + i * 4 + 2;
  netns = "sandstorm-a";
  host_if = "ssth";
  sandbox_if = "ssts";
}

named : String → ℕ → Option Slot
unfolding slot
named id i = slot tag small id i

abbrev or_slot : Option Slot → Slot
or_slot none = slot_of 0
or_slot (some s) = s

first_run : slot tag small "a" 0 ≡ some (or_slot (named "a" 0))
unfolding named slot
first_run = refl

last_run : slot tag small "b" 15 ≡ some (or_slot (named "b" 15))
unfolding named slot
last_run = refl

slots-Apart_example :
    Apart (or_slot (named "a" 0)) (or_slot (named "b" 15))
    × (173408256 < (or_slot (named "a" 0)).host_ip)
    × ((or_slot (named "a" 0)).sandbox_ip < 173408256 + 64)
slots-Apart_example =
    slots-Apart tag small (omega arith) (omega arith) "a" "b" 0 15 (or_slot (named "a" 0))
      (or_slot (named "b" 15)) (omega arith) (omega arith) (omega arith) (omega arith) first_run
      last_run

-- The block of the last index of all ends where the addresses do, and is not refused.
last_index_run : (s : Slot) × (slot tag small "z" 1073741823 ≡ some s)
unfolding slot
last_index_run = (_, refl)

abbrev run_whole : List Rule → List Line → List Rule × Bool
run_whole k ls = elim (run_script ls k) [ none ↦ (k, false) | some k' ↦ (k', true) ]

abbrev chain_only : Kernel (List Rule)
chain_only = record { restore = run_whole; enable_forwarding = λ k. (k, true) }

abbrev itself : List Rule → List Rule
itself k = k

carries_out :
    (k : List Rule) (ls : List Line)
    → (run_whole k ls).1 ≡ true
    → run_script ls k ≡ some (run_whole k ls).0
carries_out k ls q = elim (Option-cases (run_script ls k)) [
  | inl e ↦ absurd (ground (arith, rw (run_whole, e) at q))
  | inr (c, e) ↦ rw (run_whole, e) refl
]

or_nothing : (k : List Rule) (ls : List Line) → (run_whole k ls).1 ≡ false → (run_whole k ls).0 ≡ k
or_nothing k ls q = elim (Option-cases (run_script ls k)) [
  | inl e ↦ rw (run_whole, e) refl
  | inr (c, e) ↦ absurd (ground (arith, rw (run_whole, e) at q))
]

nothing_installed : Holds [] []
unfolding get from retain
nothing_installed = record {
  at = λ id ip e q. absurd (cc q);
  free = λ ip h. refl;
  apart = λ i j ip e f q r. absurd (cc q);
}

nobody_has : (ip : ℕ) → Only [] "web-1" ip
unfolding get
nobody_has ip j e q = absurd (cc q)

abbrev one_host : Egress
one_host = record { internet = true; allow = "10.0.0.7/32" ∷ []; deny = "8.8.8.8/32" ∷ [] }

abbrev after_set : List Rule × Installed × Bool
after_set = set chain_only [] [] "web-1" 173408258 one_host

set_run : after_set.2 ≡ true
unfolding set get rules_eq egress_rules is_closed egress_script run_script change
set_run = refl

set_Holds : Holds after_set.1 after_set.0
set_Holds =
    (set-Holds chain_only itself carries_out or_nothing (λ k. refl) [] [] nothing_installed "web-1"
      173408258 (nobody_has 173408258) one_host).0

set-Holds_example :
    Holds after_set.1 after_set.0
    × (of_sandbox after_set.1 "web-1" ≡ (if after_set.2 then one_host else of_sandbox [] "web-1"))
set-Holds_example =
    set-Holds chain_only itself carries_out or_nothing (λ k. refl) [] [] nothing_installed "web-1"
      173408258 (nobody_has 173408258) one_host

clear-Holds_example :
    Holds
      (clear chain_only after_set.0 after_set.1 "web-1").1
      (clear chain_only after_set.0 after_set.1 "web-1").0
    × (get "web-1" (clear chain_only after_set.0 after_set.1 "web-1").1 ≡ (
        if (clear chain_only after_set.0 after_set.1 "web-1").2
        then none
        else get "web-1" after_set.1))
clear-Holds_example =
    clear-Holds chain_only itself carries_out or_nothing (λ k. refl) after_set.1 after_set.0 "web-1"
      set_Holds

clear_run : (clear chain_only after_set.0 after_set.1 "web-1").0 ≡ []
unfolding clear set get put remove retain rules_eq egress_rules is_closed egress_script run_script
    change delete_first rule_eq same
clear_run = refl

-- The ranges that are not on the internet, the sandboxes' own, and one address.
holds_it : String → ℕ → Bool
unfolding find same
holds_it c to = elim (find (λ b. same b.text c) special_blocks) [
  | some b ↦ within b to
  | none ↦
      if same c "10.86.0.0/26"
      then leb 173408256 to && leb to 173408319
      else if same c "10.0.0.7/32"
      then to == 167772167
      else false
]

holds_it-blocks : (to : ℕ) → All (λ b. holds_it b.text to ≡ within b to) special_blocks
unfolding holds_it find same
holds_it-blocks to =
    (refl, (refl, (refl, (refl, (refl, (refl, (refl, (refl, (refl, (refl, (refl, tt)))))))))))

own_range : holds_it "10.86.0.0/26" 173408258 ≡ true
unfolding holds_it find same
own_range = refl

web_1_run : get "web-1" after_set.1 ≡ some (173408258, one_host)
unfolding set get put remove retain rules_eq egress_rules is_closed egress_script run_script change
    same
web_1_run = refl

walk-permits_example :
    walk_forward holds_it "10.86.0.0/26" forward_rules after_set.0 false 173408258 167772167
    ≡ some (
        (false && holds_it "10.86.0.0/26" 167772167)
        || permits holds_it (of_sandbox after_set.1 "web-1") 167772167)
walk-permits_example =
    walk-permits holds_it holds_it-blocks "10.86.0.0/26" after_set.1 after_set.0 "web-1" 173408258
      one_host false 167772167 set_Holds web_1_run own_range
