-- ===== src/Node/Commands/Answered.antt =====
-- crates/sandstorm-core/src/node/mod.rs (`run_one`): the commands that are answered outside the failure
-- book: exec, branch, pulls, dropped tags and a switch of the backend.
use forkd.Prelude.{ℕ, String, Option, none, some, ◌⊎◌, inl, inr}
use forkd.Proto.{
  Command, CommandResult, ℤ, pos, negsuc, pull_template, branch, drop_tag, exec, set_backend,
}
use forkd.Backend.{BackendKind, parse_backend}
use forkd.Node.Wakeups.{Demand, hold, let_go}
use forkd.Node.Switch.{Accepted, Refusal, switch}
use forkd.Node.Commands.{
  Engine, NodeState, Limits, Step, applied, answered, with_host, with_wake, waited,
}

module _ {S D E V : Type 0} (dem : Demand D) (rt : Engine S D E V) where
  abbrev State : Type 0
  State = NodeState S D E

  -- `run_active`: the work counts as in flight while it waits for the sandbox's lock and runs.
  unfoldable pub run_active : {A : Type 0} → String → (S → S × A) → State → State × A
  run_active id work st =
      let m = waited rt (with_wake st (hold dem st.moment.wake id)) in
      let (s, a) = work m.moment.host in
      let n = with_host m s in (with_wake n (let_go dem n.moment.wake id), a)

  abbrev of_exec : String → (String × String × ℤ) ⊎ E → CommandResult
  of_exec id (inl (out, err, code)) = record {
    result_id = id;
    stdout = out;
    stderr = err;
    exit_code = code;
    size_bytes = 0;
  }
  of_exec id (inr e) = record {
    result_id = id;
    stdout = "";
    stderr = rt.show_error e;
    exit_code = negsuc 0;
    size_bytes = 0;
  }

  abbrev of_branch : String → ℕ ⊎ E → CommandResult
  of_branch id (inl n) = record {
    result_id = id;
    stdout = "";
    stderr = "";
    exit_code = pos 0;
    size_bytes = n;
  }
  of_branch id (inr e) = record {
    result_id = id;
    stdout = "";
    stderr = rt.show_error e;
    exit_code = negsuc 0;
    size_bytes = 0;
  }

  abbrev of_switch : String → Accepted ⊎ Refusal E → CommandResult
  of_switch id (inl a) = record {
    result_id = id;
    stdout = rt.show_accepted a;
    stderr = "";
    exit_code = pos 0;
    size_bytes = 0;
  }
  of_switch id (inr e) = record {
    result_id = id;
    stdout = "";
    stderr = rt.show_refusal e;
    exit_code = pos 1;
    size_bytes = 0;
  }

  unfoldable pub switch_backend : Limits → BackendKind → String → State → State × Step
  switch_backend l want result_id st =
      let ((s, switching), out) =
        switch rt.installed l.has_backend_file want st.moment.host st.switching in
      (
        record st { moment = record st.moment { host = s }; switching = switching },
        answered (of_switch result_id out),
      )

  -- The commands that are answered at once, outside the failure book.
  unfoldable pub at_once : Limits → Command V → State → Option (State × Step)
  unfolding run_active switch_backend
  at_once l (pull_template name image attempt) st = some (
    with_host st (elim (rt.template_root name st.moment.host) [
      | inl root ↦ rt.ensure_pull name image attempt root st.moment.host
      | inr e ↦ rt.refuse_pull name image attempt e st.moment.host
    ]),
    applied,
  )
  at_once l (exec exec_id id args timeout_secs) st =
      let (s, out) = run_active id (rt.exec_in id args timeout_secs) st in
      some (s, answered (of_exec exec_id out))
  at_once l (branch id tag result_id) st =
      let (s, out) = run_active id (rt.branch_to id tag) st in
      some (s, answered (of_branch result_id out))
  at_once l (drop_tag tag) st = some (with_host st (rt.drop_tag tag st.moment.host).0, applied)
  at_once l (set_backend backend result_id) st = elim (parse_backend backend) [
    | some want ↦ some (switch_backend l want result_id st)
    | none ↦ some (
      st,
      answered (record {
        result_id = result_id;
        stdout = "";
        stderr = rt.unknown_backend backend;
        exit_code = pos 1;
        size_bytes = 0;
      }),
    )
  ]
  at_once l _ st = none
