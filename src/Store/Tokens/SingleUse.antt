-- ===== src/Store/Tokens/SingleUse.antt =====
-- crates/sandstorm-core/src/state.rs: laws of `redeem_node_token`.
use forkd.Prelude.{
  ℕ, ◌≡◌, refl, ◌≢◌, String, none, some, List, [], ◌∷◌, arith, same_iff, any, find, update_where,
}
use forkd.Store.{NodeToken, Store}
use forkd.Store.Tokens.{is_open, is_valid, redeem_node_token}

abbrev consume : ℕ → String → NodeToken → NodeToken
consume now node_id t = record t { consumed_at = some now; node_id = some node_id }

find-consumed :
    (token node_id : String) (now later : ℕ) (ts : List NodeToken)
    → find (is_valid token later) (update_where (is_open token) (consume now node_id) ts) ≡ none
unfolding find update_where
find-consumed token node_id now later [] = refl
find-consumed token node_id now later (t ∷ ts) =
    ground (arith, find-consumed token node_id now later ts)

find-other :
    (token other node_id : String) (now later : ℕ) (ts : List NodeToken)
    → other ≢ token
    → find (is_valid other later) (update_where (is_open token) (consume now node_id) ts)
      ≡ find (is_valid other later) ts
unfolding find update_where
find-other token other node_id now later [] h = refl
find-other token other node_id now later (t ∷ ts) h = ground (
  arith,
  find-other token other node_id now later ts h,
  same_iff t.token token,
  same_iff t.token other,
)

any-other :
    (token other node_id : String) (now : ℕ) (ts : List NodeToken)
    → other ≢ token
    → any (is_open other) (update_where (is_open token) (consume now node_id) ts)
      ≡ any (is_open other) ts
unfolding any update_where
any-other token other node_id now [] h = refl
any-other token other node_id now (t ∷ ts) h =
    ground (
      arith,
      any-other token other node_id now ts h,
      same_iff t.token token,
      same_iff t.token other,
    )

-- Once a node has redeemed a token, the token is refused to every node at every time.
pub redeem_once :
    (st : Store) (token node_id other_node pool : String) (now later : ℕ)
    → (redeem_node_token st token node_id now).1 ≡ some pool
    → (redeem_node_token (redeem_node_token st token node_id now).0 token other_node later).1 ≡ none
unfolding redeem_node_token
redeem_once st token node_id other_node pool now later h =
    ground (arith, find-consumed token node_id now later st.node_tokens)

-- Redeeming one token leaves what another token is worth.
pub redeem_keeps_others :
    (st : Store) (token other node_id other_node : String) (now later : ℕ)
    → other ≢ token
    → (redeem_node_token (redeem_node_token st token node_id now).0 other other_node later).1
      ≡ (redeem_node_token st other other_node later).1
unfolding redeem_node_token
redeem_keeps_others st token other node_id other_node now later h = ground (
  arith,
  find-other token other node_id now later st.node_tokens h,
  any-other token other node_id now st.node_tokens h,
)
