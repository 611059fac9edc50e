-- ===== src/Master/E2b/Make.antt =====
-- crates/sandstorm-core/src/master/e2b.rs (`create`, `e2b_egress`): a sandbox that is made for E2B.
pub mod Answers
use forkd.Prelude.{
  ℕ, ◌+◌, ◌≡◌, refl, subst, ◌∙◌, String, Bool, true, false, not, ◌&&◌, Option, none, some, List, [],
  ◌∷◌, ◌++◌, ◌⊎◌, inl, inr, find, retain, same, same_refl, Bool-cases, Option-cases, Either-cases,
}
use forkd.Proto.{Egress}
use forkd.Store.{Sandbox}
use forkd.Store.Sandboxes.{delete_sandbox, get_sandbox}
use forkd.Store.Sandboxes.Laws.{get-delete}
use forkd.Store.Snapshots.{get_template}
use forkd.Master.{MasterState, wake_node}
use forkd.Master.Handlers.{remove_sandbox}
use forkd.Master.Create.{CreateError, NewSandbox, Texts}
use forkd.Master.Create.Batch.{Random, create_sandbox, default_rules}
use forkd.Master.Create.Place.{SpecView}
use forkd.Master.E2b.{E2bSandbox}
use forkd.Master.E2b.Life.Waits.{IsTimed, enough_looks, init_envd_ends}
use forkd.Master.E2b.Life.{
  Scene, Envd, E2bReply, InitError, delete_both, envd_port, init_envd, insert_e2b, made_handle,
  no_template, bad_network, not_kept, not_created, not_served, or_timeout, row_is, secs,
  set_e2b_envd_version, with_master, with_rows,
}

pub record E2bNetwork : Type 0 where
  pub allow_out : List String
  pub deny_out : List String

pub record NewE2bSandbox : Type 0 where
  pub template_id : String
  pub timeout : Option ℕ
  pub metadata : String
  pub env_vars : String
  pub auto_pause : Option Bool
  pub allow_internet_access : Option Bool
  pub network : Option E2bNetwork

-- The ids and the token that are drawn for it.
pub record Drawn : Type 0 where
  pub id : String
  pub client_id : String
  pub access_token : String

abbrev or_no_lists : Option E2bNetwork → E2bNetwork
or_no_lists none = record { allow_out = []; deny_out = [] }
or_no_lists (some n) = n

abbrev is_no : Option Bool → Bool
is_no (some false) = true
is_no (some true) = false
is_no none = false

abbrev or_false : Option Bool → Bool
or_false none = false
or_false (some b) = b

-- Only a refusal of the internet is honoured.
unfoldable pub e2b_egress : Texts → Egress → Option Bool → Option E2bNetwork → Option Egress
e2b_egress t default internet network = t.canonical (record {
  internet = default.internet && not (is_no internet);
  allow = default.allow ++ (or_no_lists network).allow_out;
  deny = default.deny ++ (or_no_lists network).deny_out;
})

unfoldable pub named : String → String → Egress → NewSandbox
named id template egress = record {
  id = some id;
  template = some template;
  snapshot_tag = none;
  n = none;
  pool = none;
  node_id = none;
  backend = none;
  volume = none;
  port = some envd_port;
  memory_limit_mib = none;
  egress = some egress;
  live_fork = none;
  hugepages = none;
}

abbrev pub row_for : NewE2bSandbox → Drawn → ℕ → E2bSandbox
row_for req d now = record {
  id = d.id;
  client_id = d.client_id;
  template_id = req.template_id;
  access_token = d.access_token;
  envd_version = "";
  env_vars = req.env_vars;
  metadata = req.metadata;
  auto_pause = or_false req.auto_pause;
  end_at = now + or_timeout req.timeout;
}

abbrev or_blank : Option String → String
or_blank none = ""
or_blank (some v) = v

module _ {V : Type 0} (t : Texts) (view : SpecView) (rand : Random) (envd : Envd V) where
  -- Envd took its token, or the sandbox is discarded.
  unfoldable pub served : E2bSandbox → Scene V × (Option String ⊎ InitError) → Scene V × E2bReply
  unfolding delete_both set_e2b_envd_version
  served rec (s, inr why) = (delete_both s rec.id, not_served why)
  served rec (s, inl version) = (
    with_rows s (set_e2b_envd_version s.e2b.rows rec.id (or_blank version)),
    made_handle (record rec { envd_version = or_blank version }),
  )

  -- The row is kept, then envd waited for.
  unfoldable pub recorded : ℕ → Scene V → E2bSandbox → Option (Scene V × E2bReply)
  unfolding served insert_e2b init_envd delete_both
  recorded tries s rec = elim (insert_e2b s.e2b.rows rec) [
    | none ↦ some (delete_both s rec.id, not_kept)
    | some rows ↦ elim (init_envd envd tries (with_rows s rows) rec) [
      | none ↦ none
      | some out ↦ some (served rec out)
    ]
  ]

  abbrev pub of_created :
      ℕ
      → Scene V
      → E2bSandbox
      → MasterState V × (List Sandbox ⊎ CreateError)
      → Option (Scene V × E2bReply)
  unfolding recorded
  of_created tries s rec (m, inr why) = some (with_master s m, not_created why)
  of_created tries s rec (m, inl made) = recorded tries (with_master s m) rec

  unfoldable pub create : ℕ → Scene V → NewE2bSandbox → Drawn → Option (Scene V × E2bReply)
  unfolding recorded create_sandbox e2b_egress named
  create tries s req d = elim (get_template s.e2b.master.store req.template_id) [
    | none ↦ some (s, no_template)
    | some known ↦
        elim (e2b_egress t (default_rules s.e2b.master.store.default_egress)
          req.allow_internet_access req.network) [
            | none ↦ some (s, bad_network)
            | some egress ↦ of_created tries s (row_for req d (secs s)) (
                create_sandbox t view rand s.e2b.master (named d.id req.template_id egress)
                  (secs s))
          ]
  ]
