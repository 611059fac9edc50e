-- ===== src/Node/Net.antt =====
-- crates/sandstorm-core/src/node/net.rs: the address plan of a node (`NetConfig`). An IPv4 address is its number, arithmetic
-- wraps at 32 bits, and a shift takes its amount modulo 32. `if_tag`, a digest in hexadecimal, is a parameter.
pub mod Slots
use Prim.Native.String.{◌++◌}
use forkd.Prelude.{
  ℕ, ◌+◌, ◌-◌, ◌*◌, ◌/◌, ◌%◌, ◌^◌, String, ◌&&◌, Option, none, some, leb, ltb, min, if◌then◌else◌,
}

abbrev pub u32_size : ℕ
u32_size = 4294967296

-- The first address of the range that is carved into blocks of four, and the length of its prefix.
pub record NetConfig : Type 0 where
  pub base : ℕ
  pub prefix : ℕ

pub record Slot : Type 0 where
  pub index : ℕ
  pub host_ip : ℕ
  pub sandbox_ip : ℕ
  pub netns : String
  pub host_if : String
  pub sandbox_if : String

abbrev default_config : NetConfig
default_config = record { base = 173408256; prefix = 16 }

unfoldable pub reserved_index : NetConfig → ℕ
reserved_index cfg = 2 ^ (32 - min cfg.prefix 30) / 4 - 1

module _ (if_tag : String → String) (cfg : NetConfig) where
  -- The block of four addresses of one index.
  unfoldable pub slot : String → ℕ → Option Slot
  slot id index =
      let span = 2 ^ ((u32_size + 32 - cfg.prefix) % 32) in
      let offset = index * 4 in
      if ltb offset u32_size && leb ((offset + 4) % u32_size) span
      then some (record {
        index = index;
        host_ip = (cfg.base + offset + 1) % u32_size;
        sandbox_ip = (cfg.base + offset + 2) % u32_size;
        netns = "sandstorm-" ++ id;
        host_if = "sst" ++ if_tag id ++ "h";
        sandbox_if = "sst" ++ if_tag id ++ "s";
      })
      else none
