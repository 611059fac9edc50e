-- ===== src/Node.antt =====
-- crates/sandstorm-core/src/node/: what a node decides by itself before and after a poll.
pub mod Admission
pub mod Waiting
pub mod Starting
pub mod Net
pub mod Firewall
pub mod Gateway
pub mod Wakeups
pub mod Promotion
pub mod Switch
pub mod Commands
