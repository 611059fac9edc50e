-- ===== src/Store/Tokens.antt =====
-- crates/sandstorm-core/src/state.rs: the single-use tokens that a node registers with.
pub mod SingleUse
use forkd.Prelude.{
  ℕ, ◌+◌, ◌≡◌, refl, String, Bool, true, false, ◌&&◌, not, Option, none, some, List, [], ◌∷◌, arith,
  ltb, same, if◌then◌else◌, any, find, update_where,
}
use forkd.Store.{NodeToken, Store}
use forkd.Store.Sandboxes.{is_some}

-- `none` is the conflict on the primary key.
unfoldable pub create_node_token : Store → String → String → ℕ → ℕ → Option Store
create_node_token st token pool ttl_secs now =
    let row : NodeToken = record {
      token = token;
      pool = pool;
      expires_at = now + ttl_secs;
      consumed_at = none;
      node_id = none;
    } in
    if any (λ t. same t.token token) st.node_tokens
    then none
    else some (record st { node_tokens = row ∷ st.node_tokens })

abbrev pub is_open : String → NodeToken → Bool
is_open token t = same t.token token && not (is_some t.consumed_at)

abbrev pub is_valid : String → ℕ → NodeToken → Bool
is_valid token now t = is_open token t && ltb now t.expires_at

unfoldable pub redeem_node_token : Store → String → String → ℕ → Store × Option String
redeem_node_token st token node_id now = elim (find (is_valid token now) st.node_tokens) [
  | none ↦ (st, none)
  | some row ↦
      let consumed = record st {
        node_tokens =
            update_where (is_open token)
              (λ t. record t { consumed_at = some now; node_id = some node_id }) st.node_tokens;
      } in
      (consumed, if any (is_open token) st.node_tokens then some row.pool else none)
]
