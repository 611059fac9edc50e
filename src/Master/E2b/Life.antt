-- ===== src/Master/E2b/Life.antt =====
-- crates/sandstorm-core/src/master/e2b.rs: making, pausing, bringing back and ending an E2B sandbox, and waiting for its envd.
-- A clock counts milliseconds. What others do while a handler waits is in what the network leaves.
pub mod Waits
use forkd.Prelude.{
  ℕ, suc, zero, ◌+◌, ◌*◌, ◌/◌, String, Bool, true, false, not, ◌&&◌, Option, none, some, List, [],
  ◌∷◌, ◌++◌, ◌⊎◌, inl, inr, find, retain, update_where, same, ltb, leb, max, min, if◌then◌else◌,
}
use forkd.Maps.{get}
use forkd.Tier.{snapshot}
use forkd.Store.{AgentNode, Sandbox, Store}
use forkd.Store.Sandboxes.{get_sandbox}
use forkd.Store.Nodes.{agent_node}
use forkd.Master.{MasterState, hold_pause, max_failures, release_pause}
use forkd.Master.Handlers.{Outcome, Status, ok, err, remove_sandbox, request_tier, touch_sandbox}
use forkd.Master.Create.{CreateError}
use forkd.Master.E2b.{E2bSandbox, E2bState, Listed, get_e2b, is_paused}

abbrev pub envd_port : ℕ
envd_port = 49983

abbrev pub serve_wait : ℕ
serve_wait = 60000

abbrev pub default_timeout_secs : ℕ
default_timeout_secs = 300

abbrev pub first_pause : ℕ
first_pause = 100

abbrev pub or_timeout : Option ℕ → ℕ
or_timeout none = default_timeout_secs
or_timeout (some t) = t

abbrev pub row_is : String → E2bSandbox → Bool
row_is id e = same e.id id

unfoldable pub insert_e2b : List E2bSandbox → E2bSandbox → Option (List E2bSandbox)
insert_e2b rows e = elim (find (row_is e.id) rows) [ none ↦ some (e ∷ rows) | some old ↦ none ]

unfoldable pub set_e2b_end_at : List E2bSandbox → String → ℕ → List E2bSandbox
set_e2b_end_at rows id end_at = update_where (row_is id) (λ e. record e { end_at = end_at }) rows

unfoldable pub set_e2b_envd_version : List E2bSandbox → String → String → List E2bSandbox
set_e2b_envd_version rows id version =
    update_where (row_is id) (λ e. record e { envd_version = version }) rows

pub record Scene (V : Type 0) : Type 0 where
  pub e2b : E2bState V
  pub now : ℕ

abbrev pub secs : {V : Type 0} → Scene V → ℕ
secs s = s.now / 1000

-- What came back for `/init`.
pub data Sent : Type 0 where
  inited : Option String → Sent
  token_refused something_else : Sent

pub data InitError : Type 0 where
  deleted_meanwhile failed_to_start refused_token not_in_time : InitError

-- The request to a gateway, at an address and a port, with the sandbox's token and the record; and a pause. An address in a
-- text with its port is read by `host_of`.
pub record Envd (V : Type 0) : Type 0 where
  pub host_of : String → Option String
  pub post : String → ℕ → String → E2bSandbox → Scene V → Scene V × Sent
  pub sleep : ℕ → Scene V → Scene V

pub data E2bReply : Type 0 where
  handle made_handle : E2bSandbox → E2bReply
  no_content : E2bReply
  no_sandbox no_template bad_network not_kept already_there : E2bReply
  not_created : CreateError → E2bReply
  not_served : InitError → E2bReply

module _ {V : Type 0} where
  abbrev pub with_rows : Scene V → List E2bSandbox → Scene V
  with_rows s rows = record s { e2b = record s.e2b { rows = rows } }

  abbrev pub with_master : Scene V → MasterState V → Scene V
  with_master s m = record s { e2b = record s.e2b { master = m } }

  -- The row goes with the sandbox, whichever interface deletes it.
  unfoldable pub delete_both : Scene V → String → Scene V
  delete_both s id = record s {
    e2b = record {
      master = remove_sandbox s.e2b.master id;
      rows = retain (λ e. not (row_is id e)) s.e2b.rows;
    };
  }

  unfoldable pub get_record : Scene V → String → Option Listed
  get_record s id = get_e2b s.e2b.rows s.e2b.master.store id

  unfoldable pub kill : Scene V → String → Scene V × E2bReply
  unfolding get_record delete_both
  kill s id = elim (get_record s id) [
    | none ↦ (s, no_sandbox)
    | some a ↦ (delete_both s id, no_content)
  ]

  -- A pause holds against traffic, and goes to the first tier with nothing running.
  unfoldable pub pause : Scene V → String → Scene V × E2bReply
  unfolding get_record
  pause s id = elim (get_record s id) [
    | none ↦ (s, no_sandbox)
    | some (e, sb) ↦ if is_paused sb.tier then (s, already_there) else (
      with_master s (request_tier (hold_pause s.e2b.master id s.now) id snapshot (secs s)).0,
      no_content,
    )
  ]

  unfoldable pub set_timeout : Scene V → String → ℕ → Scene V × E2bReply
  unfolding get_record set_e2b_end_at
  set_timeout s id timeout = elim (get_record s id) [
    | none ↦ (s, no_sandbox)
    | some a ↦ (with_rows s (set_e2b_end_at s.e2b.rows id (secs s + timeout)), no_content)
  ]

  unfoldable pub refresh : Scene V → String → ℕ → Scene V × E2bReply
  unfolding get_record set_e2b_end_at
  refresh s id duration = elim (get_record s id) [
    | none ↦ (s, no_sandbox)
    | some (e, sb) ↦
        (with_rows s (set_e2b_end_at s.e2b.rows id (max e.end_at (secs s + duration))), no_content)
  ]

  module _ (envd : Envd V) where
    abbrev or_known : Option String → Option String → Option String
    or_known none other = other
    or_known (some ip) other = some ip

    abbrev host_in : Option AgentNode → Option String
    host_in none = none
    host_in (some a) = envd.host_of a.address

    -- Where a node is: at the address of its agent, or where it connected from.
    unfoldable pub node_ip : MasterState V → String → Option String
    node_ip m node_id = or_known (host_in (agent_node m.store node_id)) (get node_id m.node_addrs)

    abbrev target_at : Option ℕ → Option String → Option (String × ℕ)
    target_at none ip = none
    target_at (some port) none = none
    target_at (some port) (some ip) = some (ip, port)

    abbrev pub of_sent : Sent → Option (Option String ⊎ InitError)
    of_sent (inited version) = some (inl version)
    of_sent token_refused = some (inr refused_token)
    of_sent something_else = none

    -- One look at the sandbox, and a request where there is a gateway to send it to; `none` is to try again.
    unfoldable pub attempt : Scene V → E2bSandbox → Scene V × Option (Option String ⊎ InitError)
    unfolding node_ip
    attempt s rec = elim (get_sandbox s.e2b.master.store rec.id) [
      | none ↦ (s, some (inr deleted_meanwhile))
      | some sb ↦
          if leb max_failures sb.error_attempts
          then (s, some (inr failed_to_start))
          else elim (target_at sb.gateway_port (node_ip s.e2b.master sb.node_id)) [
            | none ↦ (s, none)
            | some (ip, port) ↦
                let (after, sent) = envd.post ip port sb.token rec s in (after, of_sent sent)
          ]
    ]

    unfoldable pub init_loop :
        (tries deadline pause_ms : ℕ)
        → Scene V
        → E2bSandbox
        → Option (Scene V × (Option String ⊎ InitError))
    unfolding attempt
    init_loop zero deadline pause_ms s rec = none
    init_loop (suc tries) deadline pause_ms s rec =
        let (after, out) = attempt s rec in
        elim out [
          | some x ↦ some (after, x)
          | none ↦ elim (ltb deadline (after.now + pause_ms)) [
            | true ↦ some (after, inr not_in_time)
            | false ↦
                init_loop tries deadline (min (pause_ms * 2) 1000) (envd.sleep pause_ms after) rec
          ]
        ]

    unfoldable pub init_envd :
        ℕ → Scene V → E2bSandbox → Option (Scene V × (Option String ⊎ InitError))
    unfolding init_loop
    init_envd tries s rec = init_loop tries (s.now + serve_wait) first_pause s rec

    -- The version that envd reported, where it is another.
    unfoldable pub note_version : Scene V → E2bSandbox → Option String → Scene V
    note_version s rec none = s
    note_version s rec (some v) =
        if same v rec.envd_version
        then s
        else with_rows s (set_e2b_envd_version s.e2b.rows rec.id v)

    -- What is done before envd is waited for: a fresh deadline, no pause that holds, and the hot tier.
    unfoldable pub promoted : Scene V → E2bSandbox → MasterState V × Outcome Sandbox
    promoted s rec = touch_sandbox (release_pause s.e2b.master rec.id) rec.id (secs s)

    unfoldable pub bring_back : ℕ → Scene V → E2bSandbox → ℕ → Option (Scene V × E2bReply)
    unfolding promoted set_e2b_end_at init_envd note_version
    bring_back tries s rec timeout =
        let (m, out) = promoted s rec in
        let woken =
          with_master (with_rows s (set_e2b_end_at s.e2b.rows rec.id (secs s + timeout))) m in
        elim out [
          | err why ↦ some (woken, no_sandbox)
          | ok sb ↦ elim (init_envd tries woken rec) [
            | none ↦ none
            | some (after, inr why) ↦ some (after, not_served why)
            | some (after, inl version) ↦ some (note_version after rec version, made_handle rec)
          ]
        ]

    -- A running sandbox's deadline is only put off, a paused one is brought back.
    unfoldable pub connect : ℕ → Scene V → String → Option ℕ → Option (Scene V × E2bReply)
    unfolding bring_back get_record set_e2b_end_at
    connect tries s id timeout = elim (get_record s id) [
      | none ↦ some (s, no_sandbox)
      | some (e, sb) ↦
          let back = bring_back tries s e (or_timeout timeout) in
          if is_paused sb.tier
          then back
          else some (
            with_rows s (set_e2b_end_at s.e2b.rows id (max e.end_at (secs s + or_timeout timeout))),
            handle e,
          )
    ]

    unfoldable pub resume : ℕ → Scene V → String → Option ℕ → Option (Scene V × E2bReply)
    unfolding bring_back get_record
    resume tries s id timeout = elim (get_record s id) [
      | none ↦ some (s, no_sandbox)
      | some (e, sb) ↦
          let back = bring_back tries s e (or_timeout timeout) in
          if is_paused sb.tier then back else some (s, already_there)
    ]
