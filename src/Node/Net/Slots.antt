-- ===== src/Node/Net/Slots.antt =====
-- crates/sandstorm-core/src/node/net.rs: which addresses the slots of a node have.
use forkd.Prelude.{ℕ, ◌+◌, ◌-◌, ◌*◌, ◌%◌, ◌^◌, ◌≤◌, ◌<◌, ◌≡◌, ◌≢◌, ◌↔◌, String, none, some, arith}
use forkd.Node.Net.{NetConfig, Slot, slot, u32_size}

-- The four addresses of two slots are different.
abbrev pub Apart : Slot → Slot → Type 0
Apart a b =
    (a.host_ip ≢ b.host_ip)
    × (a.sandbox_ip ≢ b.sandbox_ip)
    × (a.host_ip ≢ b.sandbox_ip)
    × (a.sandbox_ip ≢ b.host_ip)

module _ (if_tag : String → String) (cfg : NetConfig) (lo : 1 ≤ cfg.prefix)
    (hi : cfg.prefix ≤ 32) where
  shift : (u32_size + 32 - cfg.prefix) % 32 ≡ 32 - cfg.prefix
  shift = omega arith

  slot_span :
      (id : String) (index : ℕ) (s : Slot)
      → index + 1 < 1073741824
      → slot if_tag cfg id index ≡ some s
      → (index * 4 + 4 ≤ 2 ^ (32 - cfg.prefix))
        × (s.host_ip ≡ (cfg.base + index * 4 + 1) % u32_size)
        × (s.sandbox_ip ≡ (cfg.base + index * 4 + 2) % u32_size)
  unfolding slot
  slot_span id index s small q = ground (arith, rw shift at q)

  -- In a range that is not cut off at the end of the addresses, the slots of two indices have four different
  -- addresses, all inside the range. The one index whose block would end at 2 ^ 32 is left out.
  pub slots-Apart :
      (id id' : String) (i j : ℕ) (a b : Slot)
      → cfg.base + 2 ^ (32 - cfg.prefix) ≤ u32_size
      → i + 1 < 1073741824
      → j + 1 < 1073741824
      → i ≢ j
      → slot if_tag cfg id i ≡ some a
      → slot if_tag cfg id' j ≡ some b
      → Apart a b × (cfg.base < a.host_ip) × (a.sandbox_ip < cfg.base + 2 ^ (32 - cfg.prefix))
  slots-Apart id id' i j a b whole m n ne p q =
      let (fa, ha, sa) = slot_span id i a m p in
      let (fb, hb, sb) = slot_span id' j b n q in
      (
        (λ e. omega arith, λ e. omega arith, λ e. omega arith, λ e. omega arith),
        omega arith,
        omega arith,
      )

  -- But for that index, there is no slot exactly when its block does not fit in the range.
  pub slot_refused :
      (id : String) (index : ℕ)
      → index + 1 < 1073741824
      → (slot if_tag cfg id index ≡ none) ↔ (2 ^ (32 - cfg.prefix) < index * 4 + 4)
  unfolding slot
  slot_refused id index small = (λ q. ground (arith, rw shift at q), λ h. rw shift (ground arith))
