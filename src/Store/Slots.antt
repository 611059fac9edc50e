-- ===== src/Store/Slots.antt =====
-- crates/sandstorm-core/src/state.rs: the lowest free network slot or gateway port of a node.
pub mod Lowest
pub mod Unique
use forkd.Prelude.{
  ℕ, suc, ◌+◌, String, Bool, ◌&&◌, Option, none, some, List, [], ◌∷◌, ltb, leb, same, if◌then◌else◌,
}
use forkd.Store.{Sandbox, Store}
use forkd.Store.Sandboxes.{order_by}

-- The largest `u32`.
abbrev pub u32_max : ℕ
u32_max = 4294967295

-- The column of the node's rows, where it is not null and between the bounds.
unfoldable pub used : (Sandbox → Option ℕ) → String → ℕ → ℕ → List Sandbox → List ℕ
used column node_id lo hi [] = []
used column node_id lo hi (s ∷ ss) =
    let rest = used column node_id lo hi ss in
    elim (column s) [
      | none ↦ rest
      | some u ↦ if same s.node_id node_id && leb lo u && leb u hi then u ∷ rest else rest
    ]

-- The walk along the sorted list; `none` is the overflow of `checked_add`.
unfoldable pub first_gap : ℕ → List ℕ → Option ℕ
first_gap want [] = some want
first_gap want (u ∷ us) =
    if ltb want u then some want else if ltb u u32_max then first_gap (suc u) us else none

abbrev up_to : ℕ → Option ℕ → Option ℕ
up_to hi none = none
up_to hi (some want) = if leb want hi then some want else none

unfoldable pub allocate_slot : Store → (Sandbox → Option ℕ) → String → ℕ → ℕ → Option ℕ
allocate_slot st column node_id lo hi =
    up_to hi (first_gap lo (order_by (λ u. u) (used column node_id lo hi st.sandboxes)))

unfoldable pub allocate_gateway_port : Store → String → ℕ → ℕ → Option ℕ
allocate_gateway_port st = allocate_slot st (λ s. s.gateway_port)

unfoldable pub allocate_net_index : Store → String → ℕ → Option ℕ
allocate_net_index st node_id max = allocate_slot st (λ s. s.net_index) node_id 0 max
