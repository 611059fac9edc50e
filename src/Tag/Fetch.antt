-- ===== src/Tag/Fetch.antt =====
-- crates/sandstorm-core/src/tag.rs: laws of `fetch_expiry`.
use forkd.Prelude.{ℕ, ◌+◌, ◌/◌, ◌≤◌, ◌<◌, ◌≡◌, arith}
use forkd.Tag.{fetch_expiry}

-- A token expires more than ten minutes and at most fifteen after it is minted, an earlier one no later
-- than a later one, and two that are minted in the same five minutes of the clock expire together.
pub fetch_expiry_bounds :
    (now later : ℕ)
    → now ≤ later
    → (now + 600 < fetch_expiry now)
      × (fetch_expiry now ≤ now + 900)
      × (fetch_expiry now ≤ fetch_expiry later)
      × (now / 300 ≡ later / 300 → fetch_expiry now ≡ fetch_expiry later)
unfolding fetch_expiry
fetch_expiry_bounds now later h = (omega arith, omega arith, omega arith, λ e. omega (arith, e))
