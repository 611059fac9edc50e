-- ===== src/Store/Sandboxes.antt =====
-- crates/sandstorm-core/src/state.rs: the queries on the table of sandboxes. A database error is
-- not modelled; a duplicate primary key is. A time that the source reads is an argument.
pub mod Laws
use forkd.Prelude.{
  ℕ, suc, ◌+◌, ◌-◌, String, Bool, true, false, not, ◌&&◌, Option, none, some, List, [], ◌∷◌, map,
  leb, ltb, same, ◌==◌, if◌then◌else◌, any, find, retain, update_where, length, sort_by,
}
use forkd.Tier.{Tier, tier_eq, detached}
use forkd.Proto.{Egress}
use forkd.Store.{Sandbox, Store}

-- `ORDER BY` a numeric column.
abbrev pub order_by {ℓ} : {A : Type ℓ} → (A → ℕ) → List A → List A
order_by key = sort_by (λ a b. leb (key a) (key b))

abbrev pub has_id : String → Sandbox → Bool
has_id id s = same s.id id

abbrev pub is_some {ℓ} : {A : Type ℓ} → Option A → Bool
is_some none = false
is_some (some _) = true

-- `UPDATE sandboxes SET … WHERE id=?1`.
unfoldable pub update_sandbox : String → (Sandbox → Sandbox) → Store → Store
unfolding update_where
update_sandbox id f st = record st { sandboxes = update_where (has_id id) f st.sandboxes }

unfoldable pub set_sandbox_error : Store → String → String → ℕ → Store
set_sandbox_error st id error attempts =
    update_sandbox id (λ s. record s { last_error = some error; error_attempts = attempts }) st

unfoldable pub clear_sandbox_error : Store → String → Store
clear_sandbox_error st id =
    update_sandbox id (λ s. record s { last_error = none; error_attempts = 0 }) st

unfoldable pub errored_on_node : Store → String → List String
errored_on_node st node_id =
    map (λ s. s.id) (retain (λ s. same s.node_id node_id && is_some s.last_error) st.sandboxes)

-- `none` is the conflict on the primary key. The columns that the statement leaves out are null,
-- and no attempts.
unfoldable pub insert_sandbox : Store → Sandbox → Option Store
insert_sandbox st s =
    let row = record s { last_error = none; error_attempts = 0; ip = none } in
    if any (has_id s.id) st.sandboxes
    then none
    else some (record st { sandboxes = row ∷ st.sandboxes })

unfoldable pub get_sandbox : Store → String → Option Sandbox
get_sandbox st id = find (has_id id) st.sandboxes

unfoldable pub list_sandboxes : Store → List Sandbox
list_sandboxes st = order_by (λ s. s.created_at) st.sandboxes

unfoldable pub sandboxes_on_node : Store → String → List Sandbox
sandboxes_on_node st node_id =
    order_by (λ s. s.created_at) (retain (λ s. same s.node_id node_id) st.sandboxes)

unfoldable pub count_sandboxes_on_node : Store → String → ℕ
count_sandboxes_on_node st node_id = length (retain (λ s. same s.node_id node_id) st.sandboxes)

unfoldable pub children_of : Store → String → ℕ
children_of st tag = length (retain (λ s. forked s.from_tag) st.sandboxes)
  where
    forked : Option String → Bool
    forked none = false
    forked (some t) = same t tag

unfoldable pub set_sandbox_ip : Store → String → String → Store
set_sandbox_ip st id ip = update_sandbox id (λ s. record s { ip = some ip }) st

unfoldable pub set_tier : Store → String → Tier → Store
set_tier st id tier = update_sandbox id (λ s. record s { tier = tier }) st

unfoldable pub touch : Store → String → ℕ → Store
touch st id now = update_sandbox id (λ s. record s { last_active_at = now }) st

unfoldable pub set_sandbox_egress : Store → String → Egress → Store × Bool
set_sandbox_egress st id e =
    (update_sandbox id (λ s. record s { egress = e }) st, any (has_id id) st.sandboxes)

-- The row of the table of sandboxes. That the row of the E2B table goes too is in `delete_both` of Master/E2b/Life.
unfoldable pub delete_sandbox : Store → String → Store
delete_sandbox st id = record st { sandboxes = retain (λ s. not (has_id id s)) st.sandboxes }

-- The clock is read twice: for the cutoff, and for the idle times. A difference of times stops at 0,
-- where the source's is signed; its one caller takes the larger of it and 0.
unfoldable pub idle_candidates : Store → ℕ → ℕ → ℕ → List (Sandbox × ℕ)
idle_candidates st older_than_secs cutoff_now now =
    map (λ s. (s, now - s.last_active_at))
      (order_by (λ s. s.last_active_at)
        (retain
          (λ s.
            leb (s.last_active_at + older_than_secs) cutoff_now && not (tier_eq s.tier detached))
          st.sandboxes))
