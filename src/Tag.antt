-- ===== src/Tag.antt =====
-- crates/sandstorm-core/src/tag.rs: what may be used as a snapshot tag, and when a token that lets one
-- node fetch a tag's image from another expires. A tag is its bytes. Times are seconds since the epoch.
pub mod Fetch
pub mod Path
use forkd.Prelude.{
  ℕ, ◌+◌, ◌*◌, ◌/◌, String, Bool, true, false, not, ◌&&◌, List, [], ◌∷◌, leb, ltb, ◌==◌, any,
  length, if◌then◌else◌, Option, none, some,
}

abbrev pub fetch_ttl : ℕ
fetch_ttl = 600

abbrev pub fetch_bucket : ℕ
fetch_bucket = 300

-- When a fetch token minted at `now` should expire.
unfoldable pub fetch_expiry : ℕ → ℕ
fetch_expiry now = (now + fetch_ttl) / fetch_bucket * fetch_bucket + fetch_bucket

abbrev pub contains : ℕ → List ℕ → Bool
contains b = any (λ c. c == b)

-- `tag.contains("..")`.
unfoldable pub has_dot_dot : List ℕ → Bool
has_dot_dot [] = false
has_dot_dot (a ∷ []) = false
has_dot_dot (a ∷ b ∷ cs) =
    let rest = has_dot_dot (b ∷ cs) in if a == b'.' && b == b'.' then true else rest

abbrev is_empty : List ℕ → Bool
is_empty [] = true
is_empty _ = false

abbrev starts_with_dot : List ℕ → Bool
starts_with_dot [] = false
starts_with_dot (c ∷ cs) = c == b'.'

unfoldable pub is_safe : List ℕ → Bool
unfolding has_dot_dot
is_safe tag =
    not (is_empty tag)
    && not (contains b'/' tag)
    && not (contains 92 tag)
    && not (has_dot_dot tag)
    && not (starts_with_dot tag)
    && not (contains 0 tag)
    && leb (length tag) 128
