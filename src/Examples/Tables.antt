-- ===== src/Examples/Tables.antt =====
-- crates/sandstorm-core/src/state.rs, tier.rs and tag.rs on the fleet.
use forkd.Prelude.{
  ◌++◌, List, [], ◌∷◌, ℕ, ◌≤◌, ◌<◌, ◌≡◌, refl, ◌≢◌, String, Bool, true, false, Option, none, some,
  arith, same, same_iff, ◌⊎◌, ◌+◌, ◌/◌, retain,
}
use forkd.Store.{Sandbox, Store}
use forkd.Store.Slots.{allocate_slot}
use forkd.Store.Slots.Lowest.{is_taken, allocate_slot_lowest}
use forkd.Store.Tokens.{redeem_node_token}
use forkd.Store.Tokens.SingleUse.{redeem_once}
use forkd.Tier.{default_policy, hot}
use forkd.Tier.Laws.{IsOrdered}
use forkd.Backend.{codes}
use forkd.Tag.{is_safe}
use forkd.Store.Slots.{allocate_net_index}
use forkd.Store.Slots.Unique.{IsUnique}
use forkd.Store.Sandboxes.{insert_sandbox}
use forkd.Examples.{fleet, sandbox_at, web_3}

abbrev net_index_of : Sandbox → Option ℕ
net_index_of s = s.net_index

-- n1 holds 1 and 3.
allocate_slot_run : allocate_slot fleet net_index_of "n1" 1 4 ≡ some 2
unfolding allocate_slot forkd.Store.Slots.first_gap forkd.Prelude.sort_by forkd.Store.Slots.used
    same forkd.Prelude.insert_by
allocate_slot_run = refl

allocate_slot_full : allocate_slot fleet net_index_of "n1" 3 3 ≡ none
unfolding allocate_slot forkd.Store.Slots.first_gap forkd.Prelude.sort_by forkd.Store.Slots.used
    same forkd.Prelude.insert_by
allocate_slot_full = refl

allocate_slot_lowest_example :
    (1 ≤ 2)
    × (2 ≤ 4)
    × (is_taken fleet net_index_of "n1" 2 ≡ false)
    × ((w : ℕ) → 1 ≤ w → w < 2 → is_taken fleet net_index_of "n1" w ≡ true)
allocate_slot_lowest_example = allocate_slot_lowest fleet net_index_of "n1" 1 4 2 allocate_slot_run

redeem_run : (redeem_node_token fleet "join" "n3" 100).1 ≡ some "east"
unfolding redeem_node_token forkd.Prelude.find same forkd.Prelude.any
redeem_run = refl

redeem_once_example :
    (redeem_node_token (redeem_node_token fleet "join" "n3" 100).0 "join" "n4" 200).1 ≡ none
redeem_once_example = redeem_once fleet "join" "n3" "n4" "east" 100 200 redeem_run

join-ne-other : ◌≢◌ {A = String} "join" "other"
unfolding same
join-ne-other e = ground (arith, (same_iff "join" "other").1 e)

default_policy-IsOrdered : IsOrdered default_policy
unfolding default_policy
default_policy-IsOrdered = record { frozen_first = omega arith; snapshot_first = omega arith }

-- "v1" below "tags".
v1-is_safe : is_safe (codes "v1") ≡ true
unfolding is_safe forkd.Prelude.any
v1-is_safe = refl

-- n2 holds 1, and takes 0 for a sandbox of its own.
abbrev web_4 : Sandbox
web_4 = sandbox_at "web-4" "n2" hot 0

abbrev one_box : Store
one_box = record fleet { sandboxes = web_3 ∷ [] }

one_box-IsUnique : IsUnique one_box.sandboxes
unfolding retain
one_box-IsUnique node v = ground arith

next_slot_run : allocate_net_index one_box "n2" 4 ≡ some 0
unfolding allocate_net_index allocate_slot forkd.Store.Slots.first_gap forkd.Prelude.sort_by
    forkd.Store.Slots.used same forkd.Prelude.insert_by
next_slot_run = refl

abbrev after_insert : Sandbox
after_insert = record web_4 { last_error = none; error_attempts = 0; ip = none }

abbrev two_boxes : Store
two_boxes = record fleet { sandboxes = after_insert ∷ web_3 ∷ [] }

insert_run : insert_sandbox one_box web_4 ≡ some two_boxes
unfolding insert_sandbox forkd.Prelude.any same
insert_run = refl
