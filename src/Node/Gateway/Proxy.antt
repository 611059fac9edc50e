-- ===== src/Node/Gateway/Proxy.antt =====
-- crates/sandstorm-core/src/node/gateway.rs (`proxy`, `connect_upstream`, `Answering`): one request to a sandbox. The network, the
-- wake of a sandbox and the clock are parameters, and what other threads do meanwhile is in what these leave. A duration is
-- in nanoseconds. Bodies and log lines are not modelled.
pub mod Counts
pub mod Flight
pub mod Ends
use forkd.Prelude.{
  ℕ, suc, zero, ◌+◌, ◌*◌, ◌/◌, String, Bool, true, false, not, ◌&&◌, ◌||◌, Option, none, some, List,
  [], ◌∷◌, ◌++◌, length, any, all, retain, same, ltb, leb, min, ◌==◌, if◌then◌else◌, ◌⊎◌, inl, inr,
}
use forkd.Maps.{get}
use forkd.Node.Promotion.{Moment}
use forkd.Node.Wakeups.{Demand, Wakeups, saw_at, hold, let_go, in_use, nanos_per_s}
use forkd.Node.Gateway.{Target}
use forkd.Node.Gateway.Requests.{
  Headers, token_header, port_header, host_header, connection_header, upgrade_header, hop_by_hop,
  Reading, padded, bytes_eq, constant_time_eq, or_blank, bind_option, drop_header, drop_each,
  connection_parts, kept_for_upgrade, strip_hop_by_hop, wants_upgrade, with_host, own_headers,
  forwarded, presented_token_matches, Port, requested_port, as_created, bad_port, named,
}

abbrev nanos_per_ms : ℕ
nanos_per_ms = 1000000

abbrev pub connect_timeout : ℕ
connect_timeout = 5 * nanos_per_s

abbrev pub boot_wait : ℕ
boot_wait = 10 * nanos_per_s

abbrev pub first_pause : ℕ
first_pause = 5 * nanos_per_ms

abbrev pub boot_poll_max : ℕ
boot_poll_max = 50 * nanos_per_ms

-- The network and the node: one attempt to connect, a wake, a request sent on a connection, and a pause. A wake and a
-- sandbox's answer are waited for however long they take: `none` is one that never comes.
pub record Upstream (S D C A E : Type 0) : Type 0 where
  pub clock : Moment S D → ℕ
  pub connect : ℕ → ℕ → Moment S D → Moment S D × (C ⊎ E)
  pub wake : String → Moment S D → Moment S D × Option (ℕ ⊎ E)
  pub send : C → Headers → Moment S D → Moment S D × Option (A ⊎ E)
  pub sleep : ℕ → Moment S D → Moment S D
  pub is_cold : E → Bool
  pub is_timed_out : E → Bool

-- `unanswered` is a request that waits for ever, until its caller gives up.
pub data Reply (A E : Type 0) : Type 0 where
  unauthorized bad_request woken_not_listening not_listening not_serving : Reply A E
  not_woken gateway_timeout not_connected not_forwarded : E → Reply A E
  answered : A → Option ℕ → Reply A E
  unanswered : Reply A E

module _ {S D C A E : Type 0} (r : Reading) (dem : Demand D) (up : Upstream S D C A E) where
  abbrev pub Connected : Type 0
  Connected = Moment S D × (C ⊎ E)

  abbrev pub is_slow : C ⊎ E → Bool
  is_slow (inl c) = false
  is_slow (inr e) = up.is_timed_out e

  abbrev pub cold : C ⊎ E → Bool
  cold (inl c) = false
  cold (inr e) = up.is_cold e

  -- Attempts until one is not merely slow, or the time is over; `none` where `rounds` of them were not enough.
  unfoldable pub connect_loop : ℕ → (ip port deadline : ℕ) → Moment S D → Option Connected
  connect_loop zero ip port deadline m = none
  connect_loop (suc rounds) ip port deadline m =
      let (n, c) = up.connect ip port m in
      elim (is_slow c && ltb (up.clock n) deadline) [
        | true ↦ connect_loop rounds ip port deadline n
        | false ↦ some (n, c)
      ]

  unfoldable pub connect_upstream : ℕ → (ip port : ℕ) → Moment S D → Option Connected
  unfolding connect_loop
  connect_upstream rounds ip port m = connect_loop rounds ip port (up.clock m + connect_timeout) m

  -- A program that is still starting is waited for.
  unfoldable pub boot_loop :
      (tries rounds ip port deadline pause : ℕ) → Connected → Option Connected
  unfolding connect_upstream
  boot_loop zero rounds ip port deadline pause c = none
  boot_loop (suc tries) rounds ip port deadline pause (m, c) =
      elim (cold c && ltb (up.clock m) deadline) [
        | true ↦ elim (connect_upstream rounds ip port (up.sleep pause m)) [
          | none ↦ none
          | some d ↦ boot_loop tries rounds ip port deadline (min (pause * 2) boot_poll_max) d
        ]
        | false ↦ some (m, c)
      ]

  abbrev pub with_wake : Moment S D → Wakeups D → Moment S D
  with_wake m w = record { host = m.host; wake = w }

  -- The guard of the request in flight goes.
  unfoldable pub release : Bool → String → Moment S D → Moment S D
  release waking id m = if waking then with_wake m (let_go dem m.wake id) else m

  abbrev pub Outcome : Type 0
  Outcome = Moment S D × Reply A E

  abbrev pub refusal : Bool → Option ℕ → E → Reply A E
  refusal waking (some took) e =
      if up.is_cold e
      then woken_not_listening
      else (if up.is_timed_out e then gateway_timeout e else not_connected e)
  refusal waking none e =
      if up.is_cold e
      then (if waking then not_listening else not_serving)
      else (if up.is_timed_out e then gateway_timeout e else not_connected e)

  -- The answer keeps the guard until its body is done.
  unfoldable pub of_sent : Bool → Target → Option ℕ → Moment S D × Option (A ⊎ E) → Outcome
  unfolding release
  of_sent waking t woke (n, none) = (n, unanswered)
  of_sent waking t woke (n, some (inr e)) = (release waking t.id n, not_forwarded e)
  of_sent waking t woke (n, some (inl a)) =
      ((if waking then with_wake n (in_use dem n.wake t.id (up.clock n)) else n), answered a woke)

  -- The request, once the attempts to connect are over.
  unfoldable pub finish : Bool → Target → ℕ → Headers → Option ℕ → Connected → Outcome
  unfolding release of_sent
  finish waking t port h woke (m, inr e) = (release waking t.id m, refusal waking woke e)
  finish waking t port h woke (m, inl c) =
      of_sent waking t woke (up.send c (forwarded r t port h) m)

  -- A cold sandbox is woken, where the gateway wakes, and connected to again.
  unfoldable pub after_wake :
      (tries rounds : ℕ) → Target → ℕ → Headers → Moment S D → Option (ℕ ⊎ E) → Option Outcome
  unfolding finish release boot_loop connect_upstream
  after_wake tries rounds t port h m none = some (m, unanswered)
  after_wake tries rounds t port h m (some (inr e)) = some (release true t.id m, not_woken e)
  after_wake tries rounds t port h m (some (inl took)) =
      elim (connect_upstream rounds t.sandbox_ip port m) [
        | none ↦ none
        | some d ↦
            elim (boot_loop tries rounds t.sandbox_ip port (up.clock d.0 + boot_wait) first_pause
              d) [ none ↦ none | some c ↦ some (finish true t port h (some took) c) ]
      ]

  unfoldable pub pass_on :
      (tries rounds : ℕ) → Bool → Target → ℕ → Headers → Moment S D → Option Outcome
  unfolding after_wake finish connect_upstream
  pass_on tries rounds waking t port h m = elim (connect_upstream rounds t.sandbox_ip port m) [
    | none ↦ none
    | some d ↦ elim (waking && cold d.1) [
      | true ↦ let (n, out) = up.wake t.id d.0 in after_wake tries rounds t port h n out
      | false ↦ some (finish waking t port h none d)
    ]
  ]

  -- Noted as seen and in flight before the sandbox is connected to.
  unfoldable pub begun : Bool → String → Moment S D → Moment S D
  begun waking id m =
      if waking then with_wake m (hold dem (saw_at dem m.wake id (up.clock m)) id) else m

  unfoldable pub to_port :
      (tries rounds : ℕ) → Bool → Target → Headers → Moment S D → Port → Option Outcome
  unfolding pass_on begun
  to_port tries rounds waking t h m bad_port = some (m, bad_request)
  to_port tries rounds waking t h m as_created =
      pass_on tries rounds waking t t.sandbox_port h (begun waking t.id m)
  to_port tries rounds waking t h m (named p) =
      pass_on tries rounds waking t p h (begun waking t.id m)

  unfoldable pub proxy : (tries rounds : ℕ) → Bool → Target → Headers → Moment S D → Option Outcome
  unfolding to_port requested_port presented_token_matches
  proxy tries rounds waking t h m =
      let out = to_port tries rounds waking t h m (requested_port r h) in
      if presented_token_matches r h t.token then out else some (m, unauthorized)

  -- The body of an answer is done, or dropped.
  unfoldable pub answer_done : Bool → String → Moment S D → Moment S D
  unfolding release
  answer_done waking id m =
      release waking id (if waking then with_wake m (in_use dem m.wake id (up.clock m)) else m)
