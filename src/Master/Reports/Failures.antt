-- ===== src/Master/Reports/Failures.antt =====
-- crates/sandstorm-core/src/master/api.rs: laws of `record_failures`.
use mathlib.Core.Option
use forkd.Prelude.{
  ◌≡◌, refl, ap, ◌∙◌, String, Bool, false, not, ◌&&◌, Option, none, some, List, [], ◌∷◌, arith,
  same, if◌then◌else◌, any, Option-cases, Bool-cases, same-cases, ◌||◌, inl, inr,
}
use forkd.Proto.{CommandFailure, PollRequest}
use forkd.Store.{Sandbox, Store}
use forkd.Store.Sandboxes.{
  get_sandbox, errored_on_node, is_some, set_sandbox_error, clear_sandbox_error,
}
use forkd.Store.Sandboxes.Laws.{get-set_error, get-clear_error, get-id, IsKeyed, ids-retain}
use forkd.Master.Reports.{observes, fails, clear_recovered, note_failures, record_failures}

-- The last failure that the report has for a sandbox.
pub latest : String → List CommandFailure → Option CommandFailure
latest j [] = none
latest j (f ∷ fs) = elim (latest j fs) [
  | some g ↦ some g
  | none ↦ if same f.id j then some f else none
]

abbrev cleared : Sandbox → Sandbox
cleared s = record s { last_error = none; error_attempts = 0 }

failed : CommandFailure → Sandbox → Sandbox
failed f s = record s {
  last_error = some f.error;
  error_attempts = if f.held_back then 0 else f.attempts;
}

has_come_up : PollRequest → Sandbox → Bool
has_come_up req s =
    same s.node_id req.node_id && is_some s.last_error && any (observes s.id) req.observed

-- A reported failure stands; without one, an error of a sandbox that the report observes is over.
pub after_failures : PollRequest → Sandbox → Sandbox
unfolding failed has_come_up
after_failures req s = elim (latest s.id req.failures) [
  | some f ↦ failed f s
  | none ↦ if has_come_up req s then cleared s else s
]

abbrev noted : Option CommandFailure → Sandbox → Sandbox
noted none s = s
noted (some f) s = failed f s

note_failures-row :
    (fs : List CommandFailure) (st : Store) (j : String)
    → get_sandbox (note_failures fs st) j ≡ Option.map (noted (latest j fs)) (get_sandbox st j)
unfolding note_failures latest failed
note_failures-row [] st j = ground arith
note_failures-row (f ∷ fs) st j =
    note_failures-row fs (set_sandbox_error st f.id f.error (if f.held_back then 0 else f.attempts))
      j
    ∙ ground (arith, get-set_error st f.id j f.error (if f.held_back then 0 else f.attempts))

abbrev recovered : PollRequest → String → Bool
recovered req id = not (any (fails id) req.failures) && any (observes id) req.observed

-- One round of the loop, under the rounds that follow.
clear_round :
    (req : PollRequest) (st : Store) (id j : String) (rest : Bool)
    → (if rest && recovered req j
        then Option.map cleared
            (get_sandbox (if recovered req id then clear_sandbox_error st id else st) j)
        else get_sandbox (if recovered req id then clear_sandbox_error st id else st) j)
      ≡ (if (same id j || rest) && recovered req j
          then Option.map cleared (get_sandbox st j)
          else get_sandbox st j)
clear_round req st id j rest = elim (same-cases id j) [
  | inl (e, i) ↦
      let at : recovered req id ≡ recovered req j = ap (recovered req) i in
      rw (e, at)
        (elim (Bool-cases (recovered req j)) [
          | inl r ↦ rw r (ground (arith, get-clear_error st id j, e))
          | inr r ↦ rw r (ground arith)
        ])
  | inr (e, _) ↦ rw e (elim (Bool-cases (recovered req id)) [
    | inl r ↦ rw r (rw (get-clear_error st id j, e) refl)
    | inr r ↦ rw r refl
  ])
]

clear_recovered-row :
    (req : PollRequest) (ids : List String) (st : Store) (j : String)
    → get_sandbox (clear_recovered req ids st) j ≡ (
        if any (λ i. same i j) ids && recovered req j
        then Option.map cleared (get_sandbox st j)
        else get_sandbox st j)
unfolding clear_recovered any
clear_recovered-row req [] st j = refl
clear_recovered-row req (id ∷ ids) st j =
    clear_recovered-row req ids (if recovered req id then clear_sandbox_error st id else st) j
    ∙ clear_round req st id j (any (λ i. same i j) ids)

latest-none :
    (j : String) (fs : List CommandFailure) → latest j fs ≡ none → any (fails j) fs ≡ false
unfolding latest any
latest-none j [] h = refl
latest-none j (f ∷ fs) h = ground (arith, latest-none j fs)

-- The ids on the list of errors are those of the node's rows that carry one.
errored-row :
    (st : Store) (node_id j : String)
    → IsKeyed st.sandboxes
    → any (λ i. same i j) (errored_on_node st node_id) ≡ elim (get_sandbox st j) [
      | none ↦ false
      | some s ↦ same s.node_id node_id && is_some s.last_error
    ]
unfolding errored_on_node get_sandbox
errored-row st node_id j k =
    ids-retain (λ s. same s.node_id node_id && is_some s.last_error) j st.sandboxes k

final_row :
    (req : PollRequest) (s : Sandbox) (errored : Bool)
    → errored ≡ (same s.node_id req.node_id && is_some s.last_error)
    → Option.map
        (noted (latest s.id req.failures))
        (if errored && recovered req s.id then some (cleared s) else some s)
      ≡ some (after_failures req s)
unfolding after_failures
final_row req s errored e = elim (Option-cases (latest s.id req.failures)) [
  | inl n ↦ rw (n, e) (ground (arith, latest-none s.id req.failures n))
  | inr (f, n) ↦ rw (n, e) (ground arith)
]

-- A report of failures leaves on each sandbox the last failure that it has for it, counted as no
-- attempts if the node only held the command back; and an error of a sandbox that it has no failure
-- for is over if the reporting node holds the sandbox and observes it. All else is as it was.
pub record_failures_row :
    (st : Store) (req : PollRequest) (j : String)
    → IsKeyed st.sandboxes
    → get_sandbox (record_failures st req) j ≡ Option.map (after_failures req) (get_sandbox st j)
unfolding record_failures after_failures
record_failures_row st req j k =
    note_failures-row req.failures (clear_recovered req (errored_on_node st req.node_id) st) j
    ∙ ap (Option.map (noted (latest j req.failures)))
        (clear_recovered-row req (errored_on_node st req.node_id) st j)
    ∙ elim (Option-cases (get_sandbox st j)) [
      | inl e ↦ rw e (ground arith)
      | inr (s, e) ↦
          let at : s.id ≡ j = get-id st j s e in
          rw (e, ← at)
            (final_row req s (any (λ i. same i s.id) (errored_on_node st req.node_id))
              (rw at (errored-row st req.node_id j k ∙ rw e refl)))
    ]
