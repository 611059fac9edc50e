-- ===== src/Master/Create/Batch.antt =====
-- crates/sandstorm-core/src/master/api.rs (`create_sandbox`): the transaction that writes the children, and
-- the handler. The random ids and tokens are a parameter, by the number of the child.
use Prim.Native.String.{◌++◌, compare}
use text.Mathlib.Text.{is_le}
use forkd.Prelude.{
  ℕ, suc, String, false, Option, none, some, List, [], ◌∷◌, ◌⊎◌, inl, inr, map, sort_by,
}
use forkd.Tier.{hot}
use forkd.Proto.{Egress}
use forkd.Store.{Sandbox, Store}
use forkd.Store.Sandboxes.{insert_sandbox}
use forkd.Store.Slots.{allocate_gateway_port, allocate_net_index}
use forkd.Master.{MasterState, default_sandbox_port}
use forkd.Master.Demotion.{dedup, wake_all}
use forkd.Master.Create.{NewSandbox, Wanted, CreateError, Texts, id_taken, no_slot, validate}
use forkd.Master.Create.Place.{Placed, SpecView, place_for, placed_on}

-- Random texts: one for an id, one for a token.
pub record Random : Type 0 where
  pub for_id : ℕ → String
  pub for_token : ℕ → String

abbrev or_else : {A : Type 0} → Option A → Option A → Option A
or_else none b = b
or_else (some a) b = some a

abbrev or_port : Option ℕ → ℕ
or_port none = default_sandbox_port
or_port (some p) = p

-- `SELECT … FROM settings`, or the default, which opens nothing.
abbrev pub default_rules : Option Egress → Egress
default_rules none = record { internet = false; allow = []; deny = [] }
default_rules (some e) = e

module _ {V : Type 0} (st : MasterState V) (rand : Random) (req : NewSandbox) (w : Wanted)
    (template : String) (tag_port : Option ℕ) (now : ℕ) where
  abbrev id_of : ℕ → String
  id_of k = elim req.id [ some id ↦ id | none ↦ "sb-" ++ rand.for_id k ]

  unfoldable pub child : ℕ → String × String → Option ℕ → ℕ → Sandbox
  child k (node_id, pool) gateway_port net_index = record {
    id = id_of k;
    node_id = node_id;
    pool = pool;
    template = template;
    tier = hot;
    token = rand.for_token k;
    volume = req.volume;
    port = some (or_port (or_else req.port tag_port));
    gateway_port = gateway_port;
    created_at = now;
    last_active_at = now;
    last_error = none;
    error_attempts = 0;
    net_index = some net_index;
    ip = none;
    from_tag = w.from_tag;
    memory_limit_mib = req.memory_limit_mib;
    egress = w.egress;
  }

  -- The loop inside the transaction, which sees the rows before.
  unfoldable pub write_each : ℕ → Placed → Store → (Store × List Sandbox) ⊎ CreateError
  unfolding child
  write_each k [] store = inl (store, [])
  write_each k ((node_id, pool) ∷ rest) store =
      elim (allocate_net_index store node_id st.max_net_index) [
        | none ↦ inr (no_slot node_id)
        | some i ↦
            let (lo, hi) = st.port_range in
            let sb = child k (node_id, pool) (allocate_gateway_port store node_id lo hi) i in
            elim (insert_sandbox store sb) [
              | none ↦ inr id_taken
              | some next ↦ elim (write_each (suc k) rest next) [
                | inr e ↦ inr e
                | inl (after, made) ↦ inl (after, sb ∷ made)
              ]
            ]
      ]

  -- A transaction that is not committed leaves the store as it was.
  unfoldable pub write : Placed → MasterState V × (List Sandbox ⊎ CreateError)
  unfolding write_each
  write placed = elim (write_each 0 placed st.store) [
    | inr e ↦ (st, inr e)
    | inl (after, made) ↦
        let woken = dedup (sort_by (λ a b. is_le (compare a b)) (map (λ p. p.0) placed)) in
        (wake_all woken (record st { store = after }), inl made)
  ]

module _ {V : Type 0} (t : Texts) (view : SpecView) (rand : Random) where
  unfoldable pub create_sandbox :
      MasterState V → NewSandbox → ℕ → MasterState V × (List Sandbox ⊎ CreateError)
  unfolding write
  create_sandbox st req now = elim (validate t req (default_rules st.store.default_egress)) [
    | inr e ↦ (st, inr e)
    | inl w ↦ elim (place_for st view req w) [
      | inr e ↦ (st, inr e)
      | inl (template, place, tag_port) ↦ elim (placed_on st now req template w.count place) [
        | inr e ↦ (st, inr e)
        | inl placed ↦ write st rand req w template tag_port now placed
      ]
    ]
  ]
