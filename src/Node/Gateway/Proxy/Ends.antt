-- ===== src/Node/Gateway/Proxy/Ends.antt =====
-- crates/sandstorm-core/src/node/gateway.rs: a request is answered, whatever the sandbox does.
use forkd.Prelude.{
  ◌≢◌, Option, String, ℕ, suc, zero, ◌+◌, ◌*◌, ◌≤◌, ◌<◌, ◌≡◌, refl, Bool, true, ◌&&◌, none, some,
  arith, ◌⊎◌, inl, inr, Bool-cases, ltb, ltb→lt, min,
}
use forkd.Node.Promotion.{Moment}
use forkd.Node.Wakeups.{Demand}
use forkd.Node.Gateway.{Target}
use forkd.Node.Gateway.Requests.{
  Headers, Reading, Port, as_created, bad_port, named, requested_port, presented_token_matches,
  forwarded,
}
use forkd.Node.Gateway.Proxy.{
  Upstream, Outcome, proxy, to_port, pass_on, after_wake, finish, begun, boot_loop, boot_poll_max,
  boot_wait, first_pause, connect_upstream, connect_loop, connect_timeout, release, not_woken,
  unauthorized, bad_request, cold, is_slow, unanswered, of_sent, refusal,
}

abbrev pub connect_attempt : ℕ
connect_attempt = 50000000

-- 5 s at 50 ms an attempt, and 10 s at 5 ms a pause.
abbrev pub enough_rounds : ℕ
enough_rounds = 100

abbrev pub enough_tries : ℕ
enough_tries = 2001

module _ {S D C A E : Type 0} (r : Reading) (dem : Demand D) (up : Upstream S D C A E) where
  -- The clock goes on: over an attempt that was given up as too slow for all its time, and over a pause for its length.
  pub record IsTimed : Type 0 where
    pub slow_takes :
        (ip port : ℕ) (m : Moment S D)
        → is_slow r dem up (up.connect ip port m).1 ≡ true
        → up.clock m + connect_attempt ≤ up.clock (up.connect ip port m).0
    pub connect_takes :
        (ip port : ℕ) (m : Moment S D) → up.clock m ≤ up.clock (up.connect ip port m).0
    pub sleep_takes : (t : ℕ) (m : Moment S D) → up.clock m + t ≤ up.clock (up.sleep t m)

  module _ (timed : IsTimed) where
    connect_loop-ends :
        (rounds ip port deadline : ℕ) (m : Moment S D)
        → up.clock m < deadline
        → deadline ≤ up.clock m + rounds * connect_attempt
        → (d : Moment S D × (C ⊎ E)) × (connect_loop r dem up rounds ip port deadline m ≡ some d)
          × (up.clock m ≤ up.clock d.0)
    unfolding connect_loop
    connect_loop-ends zero ip port deadline m h k = absurd (omega arith)
    connect_loop-ends (suc rounds) ip port deadline m h k =
        let n = (up.connect ip port m).0 in
        elim (Bool-cases (is_slow r dem up (up.connect ip port m).1 && ltb (up.clock n) deadline)) [
          | inl e ↦
              let took = timed.slow_takes ip port m (ground arith) in
              let before : up.clock n < deadline = ltb→lt (up.clock n) deadline (ground arith) in
              let (d, q, l) =
                connect_loop-ends rounds ip port deadline n before (omega (arith, took)) in
              (d, rw (connect_loop, e) q, omega (arith, took, l))
          | inr e ↦ (up.connect ip port m, rw (connect_loop, e) refl, timed.connect_takes ip port m)
        ]

    connect_upstream-ends :
        (ip port : ℕ) (m : Moment S D)
        → (d : Moment S D × (C ⊎ E)) × (connect_upstream r dem up enough_rounds ip port m ≡ some d)
          × (up.clock m ≤ up.clock d.0)
    unfolding connect_upstream
    connect_upstream-ends ip port m =
        connect_loop-ends enough_rounds ip port (up.clock m + connect_timeout) m (omega arith)
          (omega arith)

    boot_loop-ends :
        (tries ip port deadline pause : ℕ) (c : Moment S D × (C ⊎ E))
        → first_pause ≤ pause
        → deadline ≤ up.clock c.0 + tries * first_pause
        → (d : Moment S D × (C ⊎ E)) × (boot_loop r dem up
              (suc tries)
              enough_rounds
              ip
              port
              deadline
              pause
              c
            ≡ some d)
    unfolding boot_loop
    boot_loop-ends zero ip port deadline pause (m, c) long k =
        elim (Bool-cases (cold r dem up c && ltb (up.clock m) deadline)) [
          | inr e ↦ ((m, c), rw (boot_loop, e) refl)
          | inl e ↦
              let before : up.clock m < deadline = ltb→lt (up.clock m) deadline (ground arith) in
              absurd (omega arith)
        ]
    boot_loop-ends (suc tries) ip port deadline pause (m, c) long k =
        elim (Bool-cases (cold r dem up c && ltb (up.clock m) deadline)) [
          | inr e ↦ ((m, c), rw (boot_loop, e) refl)
          | inl e ↦
              let (x, q, l) = connect_upstream-ends ip port (up.sleep pause m) in
              let slept = timed.sleep_takes pause m in
              let (d, p) =
                boot_loop-ends tries ip port deadline (min (pause * 2) boot_poll_max) x
                  (ground arith) (omega (arith, l, slept)) in
              (d, rw (boot_loop, e, q) p)
        ]

    -- A reply, or a wake of the sandbox or an answer of its that never comes.
    abbrev pub IsReplied : String → Outcome r dem up → Type 0
    IsReplied id out =
        (out.1 ≢ unanswered)
        ⊎ (((m : Moment S D) × ((up.wake id m).1 ≡ none))
            ⊎ ((c : C) × (h : Headers) × (m : Moment S D) × ((up.send c h m).1 ≡ none)))

    abbrev Ended : String → Option (Outcome r dem up) → Type 0
    Ended id answer = (out : Outcome r dem up) × (answer ≡ some out) × IsReplied id out

    refusal-ne-unanswered :
        (waking : Bool) (woke : Option ℕ) (e : E) → refusal r dem up waking woke e ≢ unanswered
    refusal-ne-unanswered waking (some took) e q = ground arith
    refusal-ne-unanswered waking none e q = ground arith

    finish-IsReplied :
        (waking : Bool) (t : Target) (port : ℕ) (h : Headers) (woke : Option ℕ)
        (d : Moment S D × (C ⊎ E))
        → IsReplied t.id (finish r dem up waking t port h woke d)
    unfolding finish of_sent
    finish-IsReplied waking t port h woke (m, inr e) = inl (refusal-ne-unanswered waking woke e)
    finish-IsReplied waking t port h woke (m, inl c) =
        sent (up.send c (forwarded r t port h) m).1 refl
      where
        n : Moment S D
        n = (up.send c (forwarded r t port h) m).0

        sent :
            (a : Option (A ⊎ E))
            → (up.send c (forwarded r t port h) m).1 ≡ a
            → IsReplied t.id (of_sent r dem up waking t woke (n, a))
        sent none q = inr (inr (c, forwarded r t port h, m, q))
        sent (some (inr e)) q = inl (λ z. cc z)
        sent (some (inl a)) q = inl (λ z. cc z)

    after_wake-ends :
        (t : Target) (port : ℕ) (h : Headers) (m : Moment S D) (w : Option (ℕ ⊎ E))
        → ((n : Moment S D) × ((up.wake t.id n).1 ≡ w))
        → Ended t.id (after_wake r dem up enough_tries enough_rounds t port h m w)
    unfolding after_wake
    after_wake-ends t port h m none (n, q) = ((m, unanswered), refl, inr (inl (n, q)))
    after_wake-ends t port h m (some (inr e)) q =
        ((release r dem up true t.id m, not_woken e), refl, inl (λ z. cc z))
    after_wake-ends t port h m (some (inl took)) q =
        let (c, p, _) = connect_upstream-ends t.sandbox_ip port m in
        let (b, o) =
          boot_loop-ends 2000 t.sandbox_ip port (up.clock c.0 + boot_wait) first_pause c
            (omega arith) (omega arith) in
        (
          finish r dem up true t port h (some took) b,
          rw (after_wake, p, o) refl,
          finish-IsReplied true t port h (some took) b,
        )

    pass_on-ends :
        (waking : Bool) (t : Target) (port : ℕ) (h : Headers) (m : Moment S D)
        → Ended t.id (pass_on r dem up enough_tries enough_rounds waking t port h m)
    unfolding pass_on
    pass_on-ends waking t port h m =
        let (d, q, _) = connect_upstream-ends t.sandbox_ip port m in
        elim (Bool-cases (waking && cold r dem up d.1)) [
          | inr e ↦ (
            finish r dem up waking t port h none d,
            rw (pass_on, q, e) refl,
            finish-IsReplied waking t port h none d,
          )
          | inl e ↦
              let (out, o, replied) =
                after_wake-ends t port h (up.wake t.id d.0).0 (up.wake t.id d.0).1 (d.0, refl) in
              (out, rw (pass_on, q, e) o, replied)
        ]

    -- A request comes to a reply within the rounds that its two waits have time for, unless the sandbox's wake or its answer
    -- never comes, for which there is no limit of time; if the clock goes on while an attempt to connect is given up
    -- on and over a pause: whether or not it presents the token, the port is one, or the sandbox is there and
    -- accepts a connection.
    pub proxy-ends :
        (waking : Bool) (t : Target) (h : Headers) (m : Moment S D)
        → (out : Outcome r dem up) × (proxy r dem up enough_tries enough_rounds waking t h m
            ≡ some out)
          × IsReplied t.id out
    unfolding proxy to_port
    proxy-ends waking t h m = elim (Bool-cases (presented_token_matches r h t.token)) [
      | inr e ↦ ((m, unauthorized), rw (proxy, e) refl, inl (λ z. cc z))
      | inl e ↦ at_port (requested_port r h) refl e
    ]
      where
        at_port :
            (p : Port)
            → requested_port r h ≡ p
            → presented_token_matches r h t.token ≡ true
            → Ended t.id (proxy r dem up enough_tries enough_rounds waking t h m)
        at_port bad_port q e = ((m, bad_request), rw (proxy, e, q) refl, inl (λ z. cc z))
        at_port as_created q e =
            let (out, o, replied) =
              pass_on-ends waking t t.sandbox_port h (begun r dem up waking t.id m) in
            (out, rw (proxy, e, q) o, replied)
        at_port (named n) q e =
            let (out, o, replied) = pass_on-ends waking t n h (begun r dem up waking t.id m) in
            (out, rw (proxy, e, q) o, replied)
