-- ===== src/Master/E2b.antt =====
-- crates/sandstorm-core/src/master/e2b.rs, with its rows of state.rs: the E2B surface. The rows are beside the master's state,
-- and times are seconds; what a caller sees of a sandbox is the row with the sandbox's own. How a number is printed and
-- read, and a metadata query, a list of states and stored metadata are read, is a parameter.
pub mod Newest
pub mod Pages
pub mod Life
pub mod Make
use Prim.Native.String.{◌++◌, compare}
use forkd.Prelude.{
  take, ℕ, ◌+◌, String, Bool, true, false, not, ◌&&◌, ◌||◌, Option, none, some, List, [], ◌∷◌, any,
  all, find, retain, sort_by, length, same, ltb, leb, ◌==◌, text_le, max, min, if◌then◌else◌, ◌⊎◌,
  inl, inr, update_where,
}
use forkd.Maps.{get}
use forkd.Tier.{Tier, hot, frozen, snapshot, detached}
use forkd.Store.{Sandbox, Store}
use forkd.Store.Sandboxes.{get_sandbox}
use forkd.Master.{MasterState}
use forkd.Master.Registration.{split_once}

pub record E2bSandbox : Type 0 where
  pub id : String
  pub client_id : String
  pub template_id : String
  pub access_token : String
  pub envd_version : String
  pub env_vars : String
  pub metadata : String
  pub auto_pause : Bool
  pub end_at : ℕ

pub record E2bState (V : Type 0) : Type 0 where
  pub master : MasterState V
  pub rows : List E2bSandbox

abbrev pub Listed : Type 0
Listed = E2bSandbox × Sandbox

-- The row and the sandbox that it describes, when neither is missing.
unfoldable pub get_e2b : List E2bSandbox → Store → String → Option Listed
get_e2b rows st id = elim (find (λ e. same e.id id) rows) [
  | none ↦ none
  | some e ↦ elim (get_sandbox st id) [ none ↦ none | some sb ↦ some (e, sb) ]
]

unfoldable pub with_sandboxes : List E2bSandbox → Store → List Listed
with_sandboxes [] st = []
with_sandboxes (e ∷ es) st = elim (get_sandbox st e.id) [
  | none ↦ with_sandboxes es st
  | some sb ↦ (e, sb) ∷ with_sandboxes es st
]

unfoldable pub list_e2b : List E2bSandbox → Store → List Listed
unfolding with_sandboxes
list_e2b rows st = with_sandboxes (sort_by (λ a b. text_le a.id b.id) rows) st

unfoldable pub state_of : Tier → String
state_of hot = "running"
state_of frozen = "running"
state_of snapshot = "paused"
state_of detached = "paused"

unfoldable pub is_paused : Tier → Bool
unfolding state_of
is_paused t = same (state_of t) "paused"

pub record ListQuery : Type 0 where
  pub state : Option String
  pub metadata : Option String
  pub limit : Option ℕ
  pub next_token : Option String

pub record Readings : Type 0 where
  pub states : String → List String
  pub metadata_query : String → List (String × String)
  pub metadata : String → List (String × String)
  pub print_time : ℕ → String
  pub parse_time : String → Option ℕ

pub data Listing : Type 0 where
  bad_token : Listing
  page : List Listed → Option String → Listing

-- Newest first, ties by id.
unfoldable pub newest_first : Listed → Listed → Bool
newest_first a b =
    ltb b.1.created_at a.1.created_at
    || ((a.1.created_at == b.1.created_at) && text_le a.1.id b.1.id)

-- Strictly after the cursor in that order.
unfoldable pub is_after : ℕ × String → Listed → Bool
is_after (time, id) a =
    ltb a.1.created_at time || ((a.1.created_at == time) && not (text_le a.1.id id))

abbrev states_or : (String → List String) → Option String → List String
states_or f none = []
states_or f (some s) = f s

abbrev pairs_or : (String → List (String × String)) → Option String → List (String × String)
pairs_or f none = []
pairs_or f (some s) = f s

abbrev is_empty : List String → Bool
is_empty [] = true
is_empty _ = false

abbrev is_value : String → Option String → Bool
is_value v none = false
is_value v (some w) = same v w

abbrev limit_or : Option ℕ → ℕ
limit_or none = 100
limit_or (some n) = max 1 (min n 100)

abbrev pub last_of : {A : Type 0} → List A → Option A
last_of [] = none
last_of (x ∷ []) = some x
last_of (x ∷ y ∷ ys) = last_of (y ∷ ys)

module _ (r : Readings) where
  unfoldable pub parse_cursor : String → Option (ℕ × String)
  unfolding split_once
  parse_cursor tok = elim (split_once tok) [
    | none ↦ none
    | some (t, id) ↦ elim (r.parse_time t) [ none ↦ none | some n ↦ some (n, id) ]
  ]

  unfoldable pub print_cursor : Listed → String
  print_cursor a = r.print_time a.1.created_at ++ "." ++ a.1.id

  unfoldable pub is_wanted : ListQuery → Listed → Bool
  unfolding state_of
  is_wanted q a =
      let states = states_or r.states q.state in
      (is_empty states || any (λ s. same s (state_of a.1.tier)) states)
      && all (λ p. is_value p.1 (get p.0 (r.metadata a.0.metadata)))
          (pairs_or r.metadata_query q.metadata)

  abbrev cursor_of : List Listed → Option String
  cursor_of shown = elim (last_of shown) [ none ↦ none | some a ↦ some (print_cursor a) ]

  -- At most `limit` of them, with a token where there are more.
  unfoldable pub first_page : ℕ → List Listed → Listing
  unfolding take print_cursor
  first_page limit left =
      page (take limit left) (if ltb limit (length left) then cursor_of (take limit left) else none)

  -- What the pages of a query are cut from.
  unfoldable pub all_wanted : ListQuery → List Listed → List Listed
  unfolding newest_first is_wanted
  all_wanted q found = sort_by newest_first (retain (is_wanted q) found)

  unfoldable pub list_v2 : List E2bSandbox → Store → ListQuery → Listing
  unfolding all_wanted first_page is_after list_e2b
  list_v2 rows st q = elim q.next_token [
    | none ↦ first_page (limit_or q.limit) (all_wanted q (list_e2b rows st))
    | some tok ↦ elim (parse_cursor tok) [
      | none ↦ bad_token
      | some after ↦
          first_page (limit_or q.limit) (retain (is_after after) (all_wanted q (list_e2b rows st)))
    ]
  ]

unfoldable pub list_running : List E2bSandbox → Store → List Listed
unfolding list_e2b is_paused
list_running rows st = retain (λ a. not (is_paused a.1.tier)) (list_e2b rows st)
